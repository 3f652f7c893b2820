-- ===== src/Input/Lists.antt =====
-- The other readers of blockettes in libsrc/evalresp/input.c: read_list, read_generic, read_deci and
-- read_gain.
use evalresp.Prelude.{ℕ, ◌+◌, Bool, true, not, Option, List, [], ltb, length, map, if◌then◌else◌}
use evalresp.Prelude.Int.{ℤ, pos, negsuc, ◌-ℤ◌, ◌+ℤ◌, eqb_ℤ, ltb_ℤ}
use evalresp.CString.{Str, codes}
use evalresp.RegExp.{RegExp}
use evalresp.Double.{Double}
use evalresp.Channel.{Blkt, Decimation, list, generic, decimation, gain}
use evalresp.Options.{Options}
use evalresp.Reader.{number_of_fields}
use evalresp.Input.Action.{
  Action, pure, require, when, set_blkt, set_torn, modify, allocate, repeat, field_of, read_double,
  input_line, input_field, find_int_field, find_double_field, parse_int_field, real_of, ◌>>=◌, ◌>>◌,
}
use evalresp.Input.Units.{read_units_first_line_known}
use evalresp.Input.Filters.{three_or_five, is_three, by_first, set_sequence_no}

-- fld_no of get_field_to_parse, where a negative number is as 0: it is less than every count, and the
-- loop over the fields before it has no round.
abbrev pub index : ℤ → ℕ
index (pos n) = n
index (negsuc n) = 0

-- A line of a response list: frequency, amplitude and phase.
pub record Point (D : Type 0) : Type 0 where
  pub freq : D
  pub amp : D
  pub phase : D

module _ {D : Type 0} where
  abbrev points : List (Point D) → Blkt D
  points ps = list (record {
    freq = map (λ p. p.freq) ps;
    amp = map (λ p. p.amp) ps;
    phase = map (λ p. p.phase) ps;
  })

  -- find_line on a copy of *seed.
  unfoldable pub peek : {A : Type 0} → Action D A → Action D A
  peek m s = let (r, s') = m s in (r, record s' { seed = s.seed })

  unfoldable pub fields_of : Str → Action D ℕ
  unfolding number_of_fields
  fields_of line s = (number_of_fields line, s)

  -- *sequence_no, where the pointer is not NULL
  unfoldable pub put_number : Bool → ℤ → Action D Unit
  put_number numbered n = when numbered (modify λ s. record s { sequence_no = n })

  -- The decimation as far as it is read stays in the blockette.
  unfoldable pub put_deci : Decimation D → Action D (Decimation D)
  put_deci x = set_blkt (decimation x) >> pure x

module _ {D : Type 0} ⦃d : Double D⦄ (re : RegExp) where
  -- `format` is the number of the field with the frequency.
  unfoldable pub read_point : ℤ → ℤ → ℤ → Action D (Point D)
  read_point blkt_read fld format = do
    line ← input_line re (codes " ") blkt_read fld
    f ← real_of re line (index format)
    a ← real_of re line (index (pos 1 +ℤ format))
    p ← real_of re line (index (pos 3 +ℤ format))
    pure (record { freq = f; amp = a; phase = p })

  -- The stage's number and the input units: the first line holds the number for a first field 3, and
  -- the units for a first field 5.
  unfoldable pub first_units : ℤ → ℤ → Str → Action D Str
  first_units blkt_read first_field first_line =
      if is_three first_field
      then parse_int_field re first_line 0
        >>= set_sequence_no
        >> input_line re (codes ":") blkt_read (pos 4)
      else pure first_line

  -- The number of the column with the frequency in blockette 55: 0, or 1 behind a running number.
  unfoldable pub list_format : ℤ → ℤ → Action D ℤ
  list_format blkt_read fld =
      if eqb_ℤ blkt_read (pos 55)
      then (do
        line ← peek (input_line re (codes " ") blkt_read fld)
        nfields ← fields_of line
        let format : ℤ = pos nfields -ℤ pos 5
        require (not (ltb_ℤ (pos 1) format))
        pure format)
      else pure (pos 0)

  unfoldable pub read_list : Option (Options D) → ℤ → Str → Action D Unit
  read_list o first_field first_line = do
    set_blkt (list (record { freq = []; amp = []; phase = [] }))
    require (three_or_five first_field)
    let blkt_read : ℤ = by_first first_field (pos 55) (pos 45)
    let fld : ℕ = by_first first_field 5 6
    line ← first_units blkt_read first_field first_line
    read_units_first_line_known re o blkt_read (pos fld) line
    nresp ← find_int_field re blkt_read (pos (fld + 1))
    n ← allocate nresp
    format ← list_format blkt_read (pos (fld + 2))
    ps ← repeat n (read_point blkt_read (pos (fld + 2)) format)
    set_blkt (points ps)
    set_torn (ltb (length ps) n)

  -- A line with a number, a corner frequency and a slope.
  unfoldable pub read_corner : ℤ → ℤ → Action D (D × D)
  read_corner blkt_read fld = do
    line ← input_line re (codes " ") blkt_read fld
    f ← real_of re line 1
    slope ← real_of re line 2
    pure (f, slope)

  unfoldable pub read_generic : Option (Options D) → ℤ → Str → Action D Unit
  read_generic o first_field first_line = do
    set_blkt (generic (record { corner_freq = []; corner_slope = [] }))
    require (three_or_five first_field)
    let blkt_read : ℤ = by_first first_field (pos 56) (pos 46)
    let fld : ℕ = by_first first_field 5 6
    line ← first_units blkt_read first_field first_line
    read_units_first_line_known re o blkt_read (pos fld) line
    ncorners ← find_int_field re blkt_read (pos (fld + 1))
    n ← allocate ncorners
    cs ← repeat n (read_corner blkt_read (pos (fld + 2)))
    set_blkt
        (generic (record { corner_freq = map (λ c. c.0) cs; corner_slope = map (λ c. c.1) cs }))
    set_torn (ltb (length cs) n)

  -- The number of the stage and the first field behind it. A reader that read_ref calls has no place
  -- for the number, and does not parse it.
  unfoldable pub first_value : Bool → ℤ → ℤ → Str → Action D Str
  first_value numbered blkt_read first_field first_line =
      if is_three first_field
      then when numbered (parse_int_field re first_line 0 >>= put_number true)
        >> input_field re (codes ":") blkt_read (pos 4) 0
      else field_of first_line 0

  unfoldable pub read_deci : Bool → ℤ → Str → Action D Unit
  read_deci numbered first_field first_line = do
    let zero_d : D = d.of_int (pos 0)
    x0 ← put_deci (record {
      sample_int = zero_d;
      deci_fact = pos 0;
      deci_offset = pos 0;
      estim_delay = zero_d;
      applied_corr = zero_d;
    })
    put_number numbered (pos 0)
    require (three_or_five first_field)
    let b : ℤ = by_first first_field (pos 57) (pos 47)
    let fld : ℕ = by_first first_field 5 6
    field ← first_value numbered b first_field first_line
    srate ← read_double re field
    let rate : D = if d.eq srate zero_d then zero_d else d.div (d.decimal (pos 1) (pos 0)) srate
    x1 ← put_deci (record x0 { sample_int = rate })
    factor ← find_int_field re b (pos fld)
    x2 ← put_deci (record x1 { deci_fact = factor })
    offset ← find_int_field re b (pos (fld + 1))
    x3 ← put_deci (record x2 { deci_offset = offset })
    delay ← find_double_field re b (pos (fld + 2))
    x4 ← put_deci (record x3 { estim_delay = delay })
    correction ← find_double_field re b (pos (fld + 3))
    set_blkt (decimation (record x4 { applied_corr = correction }))

  -- The lines of the history are skipped.
  unfoldable pub read_gain : Bool → ℤ → Str → Action D Unit
  read_gain numbered first_field first_line = do
    let zero_d : D = d.of_int (pos 0)
    set_blkt (gain (record { gain = zero_d; gain_freq = zero_d }))
    put_number numbered (pos 0)
    require (three_or_five first_field)
    let b : ℤ = by_first first_field (pos 58) (pos 48)
    let fld : ℕ = by_first first_field 5 6
    field ← first_value numbered b first_field first_line
    g ← read_double re field
    set_blkt (gain (record { gain = g; gain_freq = zero_d }))
    f ← find_double_field re b (pos fld)
    set_blkt (gain (record { gain = g; gain_freq = f }))
    nhist ← find_int_field re b (pos (fld + 1))
    history ← repeat (index nhist) (input_line re (codes " ") b (pos (fld + 2)))
    pure tt
