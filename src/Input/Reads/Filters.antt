-- ===== src/Input/Reads/Filters.antt =====
-- The readers of units and of filters only take lines off the input.
use evalresp.Prelude.{ℕ, zero, suc, arith, Option, none, some, refl}
use evalresp.Prelude.Int.{ℤ}
use evalresp.CString.{Str}
use evalresp.Checked.{Checked, checked, failed, undefined}
use evalresp.RegExp.{RegExp}
use evalresp.Double.{Double}
use evalresp.Channel.{Units, Channel, Polynomial}
use evalresp.Options.{Options}
use evalresp.Input.Units.{
  put_units, parse_units, input_units, read_units_first_line_known, read_units,
}
use evalresp.Input.Filters.{
  set_sequence_no, or_par, read_complex, read_coefficient, read_pz, read_iir_coeff, read_coeff,
  read_fir,
}
use evalresp.Input.Polynomial.{read_terms, put, read_polynomial}
use evalresp.Input.Reads.{
  Reads, Advance-refl, Advance-seed, Reads-pure, Reads-return, Reads-bind, Reads-then,
  Reads-set_blkt,
}
use evalresp.Input.Reads.Lines.{Reads-input_line, Reads-real_of, fields}

pub Reads-or_par : {D A : Type 0} (a : Option A) → Reads {D = D} (or_par a)
unfolding or_par
Reads-or_par none = Reads-return _
Reads-or_par (some a) = Reads-pure a

pub Reads-set_sequence_no : {D : Type 0} (n : ℤ) → Reads {D = D} (set_sequence_no n)
unfolding set_sequence_no
Reads-set_sequence_no n = search fields

module _ {D : Type 0} ⦃d : Double D⦄ (re : RegExp) (o : Option (Options D)) where
  Reads-put_units : (u : Checked (Units × Channel D)) → Reads (put_units u)
  unfolding put_units
  Reads-put_units (checked (u, c)) = record {
    advance = λ s. Advance-seed s _ (omega arith) refl refl;
  }
  Reads-put_units (failed status) = record { advance = Advance-refl }
  Reads-put_units undefined = record { advance = Advance-refl }

  Reads-input_units : (line : Str) → Reads {D = D} (input_units re o line)
  unfolding input_units
  Reads-input_units line = record {
    advance = λ s. (Reads-put_units (parse_units re o line s.channel)).advance s;
  }

  pub Reads-read_units_first_line_known :
      (b f : ℤ) (line : Str) → Reads {D = D} (read_units_first_line_known re o b f line)
  unfolding read_units_first_line_known
  Reads-read_units_first_line_known b f line = search (Reads-input_units, fields) depth 20

  pub Reads-read_units : (b : ℤ) (fld : ℕ) → Reads {D = D} (read_units re o b fld)
  unfolding read_units
  Reads-read_units b fld = search (Reads-read_units_first_line_known, fields)

module _ {D : Type 0} ⦃d : Double D⦄ (re : RegExp) where
  Reads-read_complex : (b f : ℤ) → Reads {D = D} (read_complex re b f)
  unfolding read_complex
  Reads-read_complex b f = search fields depth 10

  Reads-read_coefficient : (b f : ℤ) → Reads {D = D} (read_coefficient re b f)
  unfolding read_coefficient
  Reads-read_coefficient b f = search fields

ruleset parts = (
  fields, Reads-or_par, Reads-set_sequence_no, Reads-read_units, Reads-read_complex,
  Reads-read_coefficient,
)

module _ {D : Type 0} ⦃d : Double D⦄ (re : RegExp) (o : Option (Options D)) (f : ℤ)
    (line : Str) where
  pub Reads-read_pz : Reads {D = D} (read_pz re o f line)
  unfolding read_pz
  Reads-read_pz = search parts depth 60 fits 4000

  pub Reads-read_iir_coeff : Reads {D = D} (read_iir_coeff re o f line)
  unfolding read_iir_coeff
  Reads-read_iir_coeff = search parts depth 60 fits 4000

  pub Reads-read_coeff : Reads {D = D} (read_coeff re o f line)
  unfolding read_coeff
  Reads-read_coeff = search parts depth 60 fits 4000

  pub Reads-read_fir : Reads {D = D} (read_fir re o f line)
  unfolding read_fir
  Reads-read_fir = search parts depth 60 fits 4000

module _ {D : Type 0} ⦃d : Double D⦄ (re : RegExp) (b f : ℤ) where
  Reads-read_terms : (i n : ℕ) (p : Polynomial D) → Reads (read_terms re b f i n p)
  unfolding read_terms
  Reads-read_terms i zero p = Reads-pure tt
  Reads-read_terms i (suc n) p = Reads-bind (Reads-input_line re _ b f) λ line.
      Reads-bind (Reads-real_of re line 1) λ c. Reads-then (Reads-set_blkt _) (
        Reads-bind (Reads-real_of re line 2)
          λ e. Reads-then (Reads-set_blkt _) (Reads-read_terms (suc i) n _))

Reads-put : {D : Type 0} (p : Polynomial D) → Reads (put p)
unfolding put
Reads-put p = search fields

pub Reads-read_polynomial :
    {D : Type 0} ⦃d : Double D⦄ (re : RegExp) (o : Option (Options D)) (f : ℤ) (line : Str)
    → Reads {D = D} (read_polynomial re o f line)
unfolding read_polynomial
Reads-read_polynomial re o f line = search (Reads-read_terms, Reads-put, parts) depth 60 fits 4000
