-- ===== src/Input/Polynomial.antt =====
-- read_polynomial of libsrc/evalresp/input.c.
use evalresp.Prelude.{ℕ, zero, suc, ◌+◌, false, Option, List, [], ◌∷◌, replicate}
use evalresp.Prelude.Int.{ℤ, pos}
use evalresp.CString.{Str, codes, str_eq}
use evalresp.RegExp.{RegExp}
use evalresp.Double.{Double}
use evalresp.Channel.{Polynomial, polynomial}
use evalresp.Options.{Options}
use evalresp.Calc.Normalize.{set_at}
use evalresp.Input.Action.{
  Action, pure, require, when, set_blkt, set_torn, allocate, field_of, input_line, input_field,
  find_int_field, find_double_field, real_of, ◌>>=◌, ◌>>◌,
}
use evalresp.Input.Units.{read_units}
use evalresp.Input.Filters.{three_or_five, is_three, by_first, set_sequence_no}

-- The first byte of a string, 0 at its end.
abbrev first_byte : Str → ℕ
first_byte [] = 0
first_byte (c ∷ _) = c

module _ {D : Type 0} where
  -- One member of a polynomial, which the blockette keeps where a later one is missing.
  unfoldable pub put : Polynomial D → Action D (Polynomial D)
  put p = set_blkt (polynomial p) >> pure p

module _ {D : Type 0} ⦃d : Double D⦄ (re : RegExp) where
  abbrev zero_d : D
  zero_d = d.of_int (pos 0)

  -- The loop over the coefficients, from the number `i` on. Those that are not read yet are 0, as
  -- calloc leaves them.
  unfoldable pub read_terms : ℤ → ℤ → ℕ → ℕ → Polynomial D → Action D Unit
  read_terms blkt_read fld i zero p = pure tt
  read_terms blkt_read fld i (suc n) p = do
    line ← input_line re (codes " ") blkt_read fld
    c ← real_of re line 1
    let q : Polynomial D = record p { coeffs = set_at p.coeffs i c }
    set_blkt (polynomial q)
    e ← real_of re line 2
    let r : Polynomial D = record q { coeffs_err = set_at p.coeffs_err i e }
    set_blkt (polynomial r)
    read_terms blkt_read fld (suc i) n r

  -- A polynomial of zeros, as alloc_polynomial leaves it.
  abbrev no_polynomial : Polynomial D
  no_polynomial = record {
    approximation_type = 0;
    frequency_units = 0;
    lower_freq_bound = zero_d;
    upper_freq_bound = zero_d;
    lower_approx_bound = zero_d;
    upper_approx_bound = zero_d;
    max_abs_error = zero_d;
    coeffs = [];
    coeffs_err = [];
  }

  unfoldable pub read_polynomial : Option (Options D) → ℤ → Str → Action D Unit
  read_polynomial o first_field first_line = do
    require (three_or_five first_field)
    let b : ℤ = by_first first_field (pos 62) (pos 42)
    let fld : ℕ = by_first first_field 5 6
    field ← field_of first_line 0
    require (str_eq field (codes "P"))
    p0 ← put no_polynomial
    when (is_three first_field) (find_int_field re b (pos 4) >>= set_sequence_no)
    read_units re o b fld
    approximation ← input_field re (codes ":") b (pos (fld + 2)) 0
    p1 ← put (record p0 { approximation_type = first_byte approximation })
    units ← input_field re (codes ":") b (pos (fld + 3)) 0
    p2 ← put (record p1 { frequency_units = first_byte units })
    lower ← find_double_field re b (pos (fld + 4))
    p3 ← put (record p2 { lower_freq_bound = lower })
    upper ← find_double_field re b (pos (fld + 5))
    p4 ← put (record p3 { upper_freq_bound = upper })
    least ← find_double_field re b (pos (fld + 6))
    p5 ← put (record p4 { lower_approx_bound = least })
    most ← find_double_field re b (pos (fld + 7))
    p6 ← put (record p5 { upper_approx_bound = most })
    error ← find_double_field re b (pos (fld + 8))
    p7 ← put (record p6 { max_abs_error = error })
    ncoeffs ← find_int_field re b (pos (fld + 9))
    n ← allocate ncoeffs
    let zeros : List D = replicate n zero_d
    p8 ← put (record p7 { coeffs = zeros; coeffs_err = zeros })
    -- calloc writes the elements
    set_torn false
    read_terms b (pos (fld + 10)) 0 n p8
