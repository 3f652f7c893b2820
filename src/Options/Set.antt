-- ===== src/Options/Set.antt =====
-- The functions that set options and the date of a filter from strings: parse_int, parse_double and the
-- setters of libsrc/evalresp/input.c and evaluation.c. They write the value before they test what
-- follows it.
use evalresp.Prelude.{
  Bool, true, false, not, Option, none, some, List, [], ◌∷◌, if◌then◌else◌, map, ◌==◌,
}
use evalresp.Prelude.Int.{ℤ, pos}
use evalresp.CString.{Str, codes, is_empty, skip_space, strtol, str_eq, toupper}
use evalresp.Status.{Status, ok, inp, is_ok}
use evalresp.Checked.{Checked, checked, undefined}
use evalresp.Double.{Double}
use evalresp.DateTime.{DateTime}
use evalresp.Filter.{Filter}
use evalresp.Options.{
  Options, OutputFormat, ap_format, fap_format, complex_format, OutUnit, file, displacement,
  velocity, acceleration, other,
}

-- while (isspace (*end)) ++end; if (*end)
unfoldable pub ends_well : Str → Status
unfolding skip_space
ends_well end = if is_empty (skip_space end) then ok else inp

unfoldable pub parse_int : Str → Status × ℤ
unfolding strtol ends_well
parse_int str = let (value, end) = strtol str in (ends_well end, value)

-- The last pair whose string is the argument in upper case.
unfoldable pub find_option : {A : Type 0} → List (A × Str) → Str → Option A
unfolding str_eq
find_option [] copy = none
find_option ((index, str) ∷ rest) copy = elim (find_option rest copy) [
  | some a ↦ some a
  | none ↦ if str_eq str copy then some index else none
]

unfoldable pub parse_option : {A : Type 0} → List (A × Str) → Str → Option A
unfolding find_option
parse_option options str = find_option options (map toupper str)

abbrev pub formats : List (OutputFormat × Str)
formats = (ap_format, codes "AP") ∷ (fap_format, codes "FAP") ∷ (complex_format, codes "CS") ∷ []

abbrev pub units : List (OutUnit × Str)
units =
    (file, codes "DEF")
    ∷ (displacement, codes "DIS")
    ∷ (velocity, codes "VEL")
    ∷ (acceleration, codes "ACC")
    ∷ []

-- The value 0 stands for a logarithmic spacing.
abbrev pub spacings : List (Bool × Str)
spacings = (false, codes "LOG") ∷ (true, codes "LIN") ∷ []

unfoldable pub evalresp_unit_string : OutUnit → Str
evalresp_unit_string displacement = codes "Displacement (m)"
evalresp_unit_string velocity = codes "Velocity (m/s)"
evalresp_unit_string acceleration = codes "Acceleration (m/s**2)"
evalresp_unit_string file = codes "Documented response unit"
evalresp_unit_string other = codes "Unrecognized response unit"

module _ {D : Type 0} where
  unfoldable pub evalresp_set_filename : Options D → Str → Options D
  evalresp_set_filename o filename = record o { filename = some filename }

  unfoldable pub evalresp_set_format : Options D → Str → Status × Options D
  unfolding parse_option
  evalresp_set_format o format = elim (parse_option formats format) [
    | none ↦ (inp, o)
    | some value ↦ (ok, record o { format = value })
  ]

  unfoldable pub evalresp_set_unit : Options D → Str → Status × Options D
  unfolding parse_option
  evalresp_set_unit o unit = elim (parse_option units unit) [
    | none ↦ (inp, o)
    | some value ↦ (ok, record o { unit = value })
  ]

  unfoldable pub evalresp_set_spacing : Options D → Str → Status × Options D
  unfolding parse_option
  evalresp_set_spacing o spacing = elim (parse_option spacings spacing) [
    | none ↦ (inp, o)
    | some value ↦ (ok, record o { lin_freq = value })
  ]

  unfoldable pub evalresp_set_start_stage : Options D → Str → Status × Options D
  unfolding parse_int
  evalresp_set_start_stage o stage =
      let (status, value) = parse_int stage in (status, record o { start_stage = value })

  unfoldable pub evalresp_set_stop_stage : Options D → Str → Status × Options D
  unfolding parse_int
  evalresp_set_stop_stage o stage =
      let (status, value) = parse_int stage in (status, record o { stop_stage = value })

module _ {D : Type 0} ⦃d : Double D⦄ where
  unfoldable pub parse_double : Str → Status × D
  unfolding ends_well
  parse_double str = let (value, end) = d.strtod str in (ends_well end, value)

  unfoldable pub evalresp_set_b62_x : Options D → Str → Status × Options D
  unfolding parse_double
  evalresp_set_b62_x o b62_x =
      let (status, value) = parse_double b62_x in (status, record o { b62_x = value })

  -- The first number that does not parse ends the function.
  unfoldable pub evalresp_set_frequency : Options D → Str → Str → Str → Status × Options D
  unfolding parse_double parse_int is_ok
  evalresp_set_frequency o min_freq max_freq nfreq =
      let (s1, least) = parse_double min_freq in
      let (s2, most) = parse_double max_freq in
      let (s3, n) = parse_int nfreq in
      let o1 : Options D = record o { min_freq = least } in
      let o2 : Options D = record o1 { max_freq = most } in
      if not (is_ok s1)
      then (s1, o1)
      else if not (is_ok s2)
      then (s2, o2)
      else (s3, record o2 { nfreq = n })

  abbrev zero_d : D
  zero_d = d.of_int (pos 0)

  -- calloc sets the date to 0.
  unfoldable pub evalresp_new_filter : Filter D
  evalresp_new_filter = record {
    sncls = [];
    datetime =
        some (record { year = pos 0; jday = pos 0; hour = pos 0; min = pos 0; sec = zero_d });
  }

  -- A filter without a date is NULL where the setters write.
  unfoldable pub set_date :
      Filter D → (DateTime D → Status × DateTime D) → Checked (Status × Filter D)
  set_date filter f = elim filter.datetime [
    | none ↦ undefined
    | some t ↦ let (status, t') = f t in checked (status, record filter { datetime = some t' })
  ]

  unfoldable pub evalresp_set_year : Filter D → Str → Checked (Status × Filter D)
  unfolding set_date parse_int
  evalresp_set_year filter year =
      let (status, value) = parse_int year in
      set_date filter λ t. (status, record t { year = value })

  unfoldable pub evalresp_set_julian_day : Filter D → Str → Checked (Status × Filter D)
  unfolding set_date parse_int
  evalresp_set_julian_day filter julian_day =
      let (status, value) = parse_int julian_day in
      set_date filter λ t. (status, record t { jday = value })

  -- hh[:mm[:ss[.sss]]], from the seconds on
  unfoldable pub set_sec : Str → DateTime D → Status × DateTime D
  set_sec str t =
      let (value, end) = d.strtod str in
      (if is_empty end then ok else inp, record t { sec = d.to_float value })

  unfoldable pub set_min : Str → DateTime D → Status × DateTime D
  unfolding strtol set_sec
  set_min str t =
      let (value, end) = strtol str in
      let t' : DateTime D = record t { min = value } in
      elim end [ [] ↦ (ok, t') | c ∷ rest ↦ if c == b':' then set_sec rest t' else (inp, t') ]

  unfoldable pub set_hour : Str → DateTime D → Status × DateTime D
  unfolding strtol set_min
  set_hour str t =
      let (value, end) = strtol str in
      let t' : DateTime D = record t { hour = value } in
      elim end [ [] ↦ (ok, t') | c ∷ rest ↦ if c == b':' then set_min rest t' else (inp, t') ]

  unfoldable pub evalresp_set_time : Filter D → Str → Checked (Status × Filter D)
  unfolding set_date set_hour
  evalresp_set_time filter time = set_date filter (set_hour time)
