-- ===== src/Input/Filters.antt =====
-- The readers of filters in libsrc/evalresp/input.c: read_pz, is_iir_coeffs, read_iir_coeff,
-- read_coeff and read_fir.
use evalresp.Prelude.{
  ℕ, zero, suc, ◌+◌, Bool, true, false, not, ◌||◌, Option, none, some, [], ◌∷◌, if◌then◌else◌, ltb,
  length, ◌==◌, drop,
}
use evalresp.Prelude.Int.{ℤ, pos, eqb_ℤ}
use evalresp.CString.{Str, codes, str_eq, strstr, scan_word, skip_space, atoi}
use evalresp.Status.{par}
use evalresp.RegExp.{RegExp}
use evalresp.Double.{Double}
use evalresp.Channel.{
  Complex, PzType, laplace, analog, iir, PoleZero, FirType, sym_1, sym_2, asym, undef_filt,
  pole_zero, fir, iir_coeffs,
}
use evalresp.Options.{Options}
use evalresp.Input.Action.{
  Action, pure, return, require, when, set_stage, set_blkt, set_torn, allocate, repeat, field_of,
  input_line, input_field, find_int_field, find_double_field, parse_int_field, real_of, ◌>>=◌, ◌>>◌,
}
use evalresp.Input.Units.{read_units}

-- first_field != 3 && first_field != 5
abbrev pub three_or_five : ℤ → Bool
three_or_five f = eqb_ℤ f (pos 3) || eqb_ℤ f (pos 5)

abbrev pub is_three : ℤ → Bool
is_three f = eqb_ℤ f (pos 3)

-- first_field == 3 ? a : b, for the number of the blockette or of a field
abbrev pub by_first {ℓ} : {A : Type ℓ} → ℤ → A → A → A
by_first f a b = if is_three f then a else b

-- The sequence number of a stage, for a first field 3.
module _ {D : Type 0} where
  unfoldable pub set_sequence_no : ℤ → Action D Unit
  set_sequence_no n = set_stage λ st. record st { sequence_no = n }

-- The string of one byte `c`.
is_char : ℕ → Str → Bool
is_char c [] = false
is_char c (b ∷ []) = b == c
is_char c (b ∷ _ ∷ _) = false

unfoldable pub pz_type : Str → Option PzType
unfolding is_char
pz_type field =
    if is_char b'A' field
    then some laplace
    else if is_char b'B' field
    then some analog
    else if is_char b'D' field
    then some iir
    else none

unfoldable pub symmetry : Str → Option FirType
unfolding is_char
symmetry field =
    if is_char b'A' field
    then some asym
    else if is_char b'B' field
    then some sym_1
    else if is_char b'C' field
    then some sym_2
    else none

unfoldable pub or_par : {D A : Type 0} → Option A → Action D A
or_par none = return par
or_par (some a) = pure a

module _ {D : Type 0} ⦃d : Double D⦄ (re : RegExp) where
  abbrev zero_d : D
  zero_d = d.of_int (pos 0)

  -- A line with a number, a real part and an imaginary part.
  unfoldable pub read_complex : ℤ → ℤ → Action D (Complex D)
  read_complex blkt_read fld = do
    line ← input_line re (codes " ") blkt_read fld
    x ← real_of re line 1
    y ← real_of re line 2
    pure (record { real = x; imag = y })

  -- A line with a number and a coefficient.
  unfoldable pub read_coefficient : ℤ → ℤ → Action D D
  read_coefficient blkt_read fld = do
    line ← input_line re (codes " ") blkt_read fld
    real_of re line 1

  unfoldable pub read_pz : Option (Options D) → ℤ → Str → Action D Unit
  read_pz o first_field first_line = do
    require (three_or_five first_field)
    let blkt_read : ℤ = by_first first_field (pos 53) (pos 43)
    let fld : ℕ = by_first first_field 5 6
    field ← field_of first_line 0
    t ← or_par (pz_type field)
    let p : PoleZero D = record { a0 = zero_d; a0_freq = zero_d; zeros = []; poles = [] }
    set_blkt (pole_zero t p)
    set_torn true
    when (is_three first_field) (find_int_field re blkt_read (pos 4) >>= set_sequence_no)
    read_units re o blkt_read fld
    a0 ← find_double_field re blkt_read (pos (fld + 2))
    a0_freq ← find_double_field re blkt_read (pos (fld + 3))
    set_blkt (pole_zero t (record p { a0 = a0; a0_freq = a0_freq }))
    set_torn false
    nzeros ← find_int_field re blkt_read (pos (fld + 4))
    n ← allocate nzeros
    npoles ← find_int_field re blkt_read (pos (fld + 9))
    m ← allocate npoles
    zeros ← repeat n (read_complex blkt_read (pos (fld + 5)))
    set_blkt (pole_zero t (record p { a0 = a0; a0_freq = a0_freq; zeros = zeros }))
    set_torn (ltb (length zeros) n || ltb 0 m)
    poles ← repeat m (read_complex blkt_read (pos (fld + 10)))
    set_blkt (pole_zero t (record { a0 = a0; a0_freq = a0_freq; zeros = zeros; poles = poles }))
    set_torn (ltb (length zeros) n || ltb (length poles) m)

  unfoldable pub read_iir_coeff : Option (Options D) → ℤ → Str → Action D Unit
  read_iir_coeff o first_field first_line = do
    require (three_or_five first_field)
    let blkt_read : ℤ = by_first first_field (pos 54) (pos 44)
    let fld : ℕ = by_first first_field 5 6
    field ← field_of first_line 0
    require (str_eq field (codes "D"))
    let h0 : D = d.decimal (pos 1) (pos 0)
    set_blkt (iir_coeffs (record { numer = []; denom = []; h0 = h0 }))
    when (is_three first_field) (find_int_field re blkt_read (pos 4) >>= set_sequence_no)
    read_units re o blkt_read fld
    ncoeffs ← find_int_field re blkt_read (pos (fld + 2))
    n ← allocate ncoeffs
    ndenom ← find_int_field re blkt_read (pos (fld + 5))
    require (not (eqb_ℤ ndenom (pos 0)))
    m ← allocate ndenom
    numer ← repeat n (read_coefficient blkt_read (pos (fld + 3)))
    denom ← repeat m (read_coefficient blkt_read (pos (fld + 6)))
    set_blkt (iir_coeffs (record { numer = numer; denom = denom; h0 = h0 }))
    set_torn (ltb (length numer) n || ltb (length denom) m)

  unfoldable pub read_coeff : Option (Options D) → ℤ → Str → Action D Unit
  read_coeff o first_field first_line = do
    require (three_or_five first_field)
    let blkt_read : ℤ = by_first first_field (pos 54) (pos 44)
    let fld : ℕ = by_first first_field 5 6
    field ← field_of first_line 0
    require (str_eq field (codes "D"))
    let h0 : D = d.decimal (pos 1) (pos 0)
    set_blkt (fir asym (record { coeffs = []; h0 = h0 }))
    when (is_three first_field) (find_int_field re blkt_read (pos 4) >>= set_sequence_no)
    read_units re o blkt_read fld
    ncoeffs ← find_int_field re blkt_read (pos (fld + 2))
    n ← allocate ncoeffs
    ndenom ← find_int_field re blkt_read (pos (fld + 5))
    require (eqb_ℤ ndenom (pos 0))
    coeffs ← repeat n (read_coefficient blkt_read (pos (fld + 3)))
    set_blkt (fir asym (record { coeffs = coeffs; h0 = h0 }))
    set_torn (ltb (length coeffs) n)

  -- The type is 0 until the symmetry is read.
  unfoldable pub read_fir : Option (Options D) → ℤ → Str → Action D Unit
  read_fir o first_field first_line = do
    require (three_or_five first_field)
    let blkt_read : ℤ = by_first first_field (pos 61) (pos 41)
    set_blkt undef_filt
    field ←
        if is_three first_field
        then parse_int_field re first_line 0
          >>= set_sequence_no
          >> input_field re (codes ":") blkt_read (pos 5) 0
        else field_of first_line 0
    t ← or_par (symmetry field)
    let h0 : D = d.decimal (pos 1) (pos 0)
    set_blkt (fir t (record { coeffs = []; h0 = h0 }))
    read_units re o blkt_read 6
    ncoeffs ← find_int_field re blkt_read (pos 8)
    n ← allocate ncoeffs
    coeffs ← repeat n (read_coefficient blkt_read (pos 9))
    set_blkt (fir t (record { coeffs = coeffs; h0 = h0 }))
    set_torn (ltb (length coeffs) n)

-- The words of a string from the n-th one on.
unfoldable pub words_from : ℕ → Str → Str
words_from zero s = s
words_from (suc n) s = words_from n (drop (length (scan_word s)) (skip_space s))

-- The rest of the input says in its next B054F10 whether there are denominators. none where that line
-- has no fifth word, and the code reads a buffer that it did not write.
unfoldable pub is_iir_coeffs : Str → Option Bool
unfolding words_from strstr scan_word skip_space atoi
is_iir_coeffs seed = elim (strstr seed (codes "B054F10")) [
  | none ↦ some false
  | some at ↦
      let word = scan_word (words_from 4 at) in
      if ltb 0 (length word) then some (not (eqb_ℤ (atoi word) (pos 0))) else none
]
