-- ===== src/Calc/Reads.antt =====
-- Where the response of one blockette reads only what its stage holds.
use evalresp.Prelude.{
  ℕ, zero, suc, ◌<◌, ◌≡◌, refl, Bool, true, false, not, ◌&&◌, ◌||◌, Option, none, some, List, [],
  ◌∷◌, arith, length, leb, leb→le,
}
use evalresp.CString.{is_empty}
use evalresp.Double.{Double}
use evalresp.Channel.{
  Complex, Decimation, sym_1, sym_2, asym, Fir, Coeff, PoleZero, Blkt, iir, laplace, analog,
  pole_zero, fir, list, decimation, iir_coeffs, polynomial, ListInfo, Polynomial,
}
use evalresp.Options.{Options}
use evalresp.Checked.{Checked, checked, failed, undefined, ◌>>=◌}
use evalresp.Check.Scan.{is_some}
use evalresp.Calc.Trans.{at, lit, calc_list, calc_polynomial}
use evalresp.Calc.Fed.{is_digital, starts_decimation}
use evalresp.Calc.Filters.{sym_1_sum, fir_sym_trans, fir_asym_trans, iir_pz_trans, iir_trans}
use evalresp.Calc.Respond.{Eval, times_polynomial, times_some, eval_blkt}

-- The code reads only what it stored.
abbrev pub is_defined {ℓ} : {A : Type ℓ} → Checked A → Bool
is_defined undefined = false
is_defined _ = true

pub is_defined-bind {ℓ κ} :
    {A : Type ℓ} {B : Type κ} (m : Checked A) (f : A → Checked B)
    → is_defined m ≡ true
    → ((a : A) → is_defined (f a) ≡ true)
    → is_defined (m >>= f) ≡ true
is_defined-bind (checked a) f h k = k a
is_defined-bind (failed s) f h k = refl
is_defined-bind undefined f h k = h

-- A response list has an element for each of `n` frequencies, and IIR coefficients are not empty.
abbrev pub is_filled : {D : Type 0} → ℕ → Blkt D → Bool
is_filled n (list l) = leb n (length l.amp) && leb n (length l.phase)
is_filled n (iir_coeffs c) = not (is_empty c.numer) && not (is_empty c.denom)
is_filled n _ = true

abbrev pub all_filled : {D : Type 0} → ℕ → List (Blkt D) → Bool
all_filled n [] = true
all_filled n (b ∷ next) = is_filled n b && all_filled n next

at-is_some : {A : Type 0} (xs : List A) (i : ℕ) → i < length xs → is_some (at xs i) ≡ true
unfolding at
at-is_some [] i h = ground arith
at-is_some (x ∷ xs) zero h = refl
at-is_some (x ∷ xs) (suc i) h = at-is_some xs i (omega arith)

module _ {D : Type 0} ⦃d : Double D⦄ where
  times_some-is_defined :
      (s : Eval D) (c : Option (Complex D)) → is_some c ≡ true → is_defined (times_some s c) ≡ true
  times_some-is_defined s none h = h
  times_some-is_defined s (some c) h = refl

  list-is_some :
      (freq amp phase : List D) (i : ℕ)
      → i < length amp
      → i < length phase
      → is_some (calc_list (record { freq = freq; amp = amp; phase = phase }) i) ≡ true
  unfolding calc_list
  list-is_some freq amp phase i h k =
      let a = at-is_some amp i h in let b = at-is_some phase i k in ground arith

  calc_list-is_some :
      (l : ListInfo D) (i n : ℕ)
      → i < n
      → is_filled n (list l) ≡ true
      → is_some (calc_list l i) ≡ true
  unfolding calc_list
  calc_list-is_some l i n h k =
      list-is_some l.freq l.amp l.phase i (ground (leb→le n (length l.amp), arith))
        (ground (leb→le n (length l.phase), arith))

  sym_2-is_some :
      (f : Fir D) (next : List (Blkt D)) (w : D)
      → starts_decimation next ≡ true
      → is_some (fir_sym_trans sym_2 f next w) ≡ true
  unfolding fir_sym_trans
  sym_2-is_some f (decimation x ∷ next) w h = refl
  sym_2-is_some f next w h = ground arith

  sym_1_sum-is_some :
      (wsint : D) (cs : List D) (r : D)
      → is_empty cs ≡ false
      → is_some (sym_1_sum wsint r cs) ≡ true
  unfolding sym_1_sum
  sym_1_sum-is_some wsint [] r h = ground arith
  sym_1_sum-is_some wsint (a ∷ []) r h = refl
  sym_1_sum-is_some wsint (a ∷ b ∷ rest) r h = sym_1_sum-is_some wsint (b ∷ rest) _ refl

  sym_1-is_some :
      (f : Fir D) (next : List (Blkt D)) (w : D)
      → starts_decimation next ≡ true
      → is_empty f.coeffs ≡ false
      → is_some (fir_sym_trans sym_1 f next w) ≡ true
  unfolding fir_sym_trans
  sym_1-is_some f (decimation x ∷ next) w h k =
      let a = sym_1_sum-is_some (d.mul w x.sample_int) f.coeffs (lit 0) k in ground arith
  sym_1-is_some f next w h k = ground arith

  asym-is_some :
      (cs : List D) (h0 : D) (x : Decimation D) (next : List (Blkt D)) (w : D)
      → is_empty cs ≡ false
      → is_some (fir_asym_trans (record { coeffs = cs; h0 = h0 }) (decimation x ∷ next) w) ≡ true
  unfolding fir_asym_trans
  asym-is_some [] h0 x next w k = ground arith
  asym-is_some (a ∷ cs) h0 x next w k = refl

  fir_asym_trans-is_some :
      (f : Fir D) (next : List (Blkt D)) (w : D)
      → starts_decimation next ≡ true
      → is_empty f.coeffs ≡ false
      → is_some (fir_asym_trans f next w) ≡ true
  unfolding fir_asym_trans
  fir_asym_trans-is_some f (decimation x ∷ next) w h k = asym-is_some f.coeffs f.h0 x next w k
  fir_asym_trans-is_some f next w h k = ground arith

  iir_pz_trans-is_some :
      (p : PoleZero D) (next : List (Blkt D)) (w : D)
      → starts_decimation next ≡ true
      → is_some (iir_pz_trans p next w) ≡ true
  unfolding iir_pz_trans
  iir_pz_trans-is_some p (decimation x ∷ next) w h = refl
  iir_pz_trans-is_some p next w h = ground arith

  iir-is_some :
      (numer denom : List D) (h0 : D) (x : Decimation D) (next : List (Blkt D)) (w : D)
      → not (is_empty numer) && not (is_empty denom) ≡ true
      → is_some
          (iir_trans (record { numer = numer; denom = denom; h0 = h0 }) (decimation x ∷ next) w)
        ≡ true
  unfolding iir_trans
  iir-is_some [] denom h0 x next w k = ground arith
  iir-is_some (a ∷ numer) [] h0 x next w k = ground arith
  iir-is_some (a ∷ numer) (b ∷ denom) h0 x next w k = refl

  iir_trans-is_some :
      (n : ℕ) (c : Coeff D) (next : List (Blkt D)) (w : D)
      → starts_decimation next ≡ true
      → is_filled n (iir_coeffs c) ≡ true
      → is_some (iir_trans c next w) ≡ true
  unfolding iir_trans
  iir_trans-is_some n c (decimation x ∷ next) w h k = iir-is_some c.numer c.denom c.h0 x next w k
  iir_trans-is_some n c next w h k = ground arith

  polynomial-is_defined :
      (s : Eval D) (p : Polynomial D) (x : D)
      → is_defined (times_polynomial s (calc_polynomial p x)) ≡ true
  unfolding times_polynomial calc_polynomial
  polynomial-is_defined s p x = ground arith

  pub eval_blkt-is_defined :
      (o : Options D) (i n : ℕ) (freq w : D) (s : Eval D) (b : Blkt D) (next : List (Blkt D))
      → i < n
      → is_filled n b ≡ true
      → not (is_digital b) || starts_decimation next ≡ true
      → is_defined (eval_blkt o i freq w s b next) ≡ true
  unfolding eval_blkt
  eval_blkt-is_defined o i n freq w s (pole_zero iir p) next l h k =
      let a = iir_pz_trans-is_some p next w k in ground arith
  eval_blkt-is_defined o i n freq w s (pole_zero laplace p) next l h k = refl
  eval_blkt-is_defined o i n freq w s (pole_zero analog p) next l h k = refl
  eval_blkt-is_defined o i n freq w s (fir asym f) next l h k =
      let a = fir_asym_trans-is_some f next w k in ground arith
  eval_blkt-is_defined o i n freq w s (fir sym_1 f) next l h k =
      let a = sym_1-is_some f next w k in ground arith
  eval_blkt-is_defined o i n freq w s (fir sym_2 f) next l h k =
      let a = sym_2-is_some f next w k in ground arith
  eval_blkt-is_defined o i n freq w s (decimation x) next l h k = ground arith
  eval_blkt-is_defined o i n freq w s (list x) next l h k =
      times_some-is_defined s (calc_list x i) (calc_list-is_some x i n l h)
  eval_blkt-is_defined o i n freq w s (polynomial p) next l h k = polynomial-is_defined s p o.b62_x
  eval_blkt-is_defined o i n freq w s (iir_coeffs c) next l h k =
      times_some-is_defined s (iir_trans c next w) (iir_trans-is_some n c next w k h)
  eval_blkt-is_defined o i n freq w s b next l h k = refl
