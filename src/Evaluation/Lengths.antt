-- ===== src/Evaluation/Lengths.antt =====
-- The lists that interpolate_list_blockette gives.
use evalresp.Prelude.{
  ℕ, suc, ◌≡◌, refl, ap, subst, arith, Bool, true, false, List, [], ◌∷◌, length, ◌==◌, Bool-cases,
  inl, inr, map, if◌then◌else◌,
}
use evalresp.Status.{Status, err, val}
use evalresp.Checked.{Checked, checked, failed, Ensures, Ensures-bind, Ensures-any}
use evalresp.Double.{Double}
use evalresp.Channel.{ListInfo}
use evalresp.Calc.Phase.{wrap_phase}
use evalresp.Calc.Trans.{lit}
use evalresp.Evaluation.Interpolate.{
  Spline, read_at, clip, ends_of, positive, unwrapped_from, offset, wrapped_from, wrapped,
  interpolate_list_blockette,
}

pub length-map : {A B : Type 0} (f : A → B) (xs : List A) → length (map f xs) ≡ length xs
length-map f [] = refl
length-map f (x ∷ xs) = ap suc (length-map f xs)

same_length :
    {D : Type 0} (m n : ℕ) (x : Checked (List D)) (s : Status)
    → Ensures (λ ys. length ys ≡ m) x
    → Ensures (λ ys. length ys ≡ n) (if m == n then x else failed s)
same_length m n x s h = elim (Bool-cases (m == n)) [
  | inl e ↦ rw e (subst (λ k. Ensures (λ ys. length ys ≡ k) x) (ground arith) h)
  | inr e ↦ rw e tt
]

module _ {D : Type 0} ⦃d : Double D⦄ where
  length-wrapped_from : (a : D) (xs : List D) → length (wrapped_from a xs) ≡ length xs
  unfolding wrapped_from
  length-wrapped_from a [] = refl
  length-wrapped_from a (x ∷ xs) =
      let (new, a') = wrap_phase x (lit 360) a in
      elim (Bool-cases (d.eq a' (lit 0))) [
        | inl e ↦ rw e (ap suc (length-wrapped_from a' xs))
        | inr e ↦ rw e (ap suc (length-wrapped_from a' xs))
      ]

  length-wrapped :
      (steps : ℕ) (xs : List D) → Ensures (λ ys. length ys ≡ length xs) (wrapped steps xs)
  unfolding wrapped
  length-wrapped steps xs =
      Ensures-bind (λ z. Unit {0}) _ (read_at xs 0) _ (Ensures-any (read_at xs 0))
        λ x u.
          Ensures-bind (λ z. Unit {0}) _ (offset steps x) _ (Ensures-any (offset steps x))
            λ a v. length-wrapped_from a xs

  length-if_map :
      (b : Bool) (f : D → D) (xs : List D) → length (if b then map f xs else xs) ≡ length xs
  length-if_map true f xs = length-map f xs
  length-if_map false f xs = refl

  length-positive : (amps xs : List D) → Ensures (λ ys. length ys ≡ length xs) (positive amps xs)
  unfolding positive
  length-positive amps xs =
      Ensures-bind (λ z. Unit {0}) _ (read_at amps 0) _ (Ensures-any (read_at amps 0))
        λ x u. length-if_map _ _ xs

  length-phases :
      (b : Bool) (steps : ℕ) (xs : List D)
      → Ensures (λ ys. length ys ≡ length xs) (if b then wrapped steps xs else checked xs)
  length-phases true steps xs = length-wrapped steps xs
  length-phases false steps xs = refl

  -- The interpolated list has an amplitude and a phase for each of its frequencies.
  pub interpolate_list_blockette-length :
      (steps : ℕ) (spline : Spline D) (l : ListInfo D) (req_freqs : List D)
      → Ensures
          (λ r. (length r.amp ≡ length r.freq) × (length r.phase ≡ length r.freq))
          (interpolate_list_blockette steps spline l req_freqs)
  unfolding interpolate_list_blockette
  interpolate_list_blockette-length steps spline l req_freqs =
      Ensures-bind (λ z. Unit {0}) _ (ends_of l.freq) _ (Ensures-any (ends_of l.freq))
        λ (first, last) u.
          Ensures-bind (λ z. Unit {0}) _ (clip first last req_freqs) _
            (Ensures-any (clip first last req_freqs))
            λ freqs v.
              Ensures-bind (λ z. Unit {0}) _ (spline l.freq l.amp freqs) _
                (Ensures-any (spline l.freq l.amp freqs))
                λ amps w.
                  Ensures-bind (λ ys. length ys ≡ length freqs) _
                    (if length amps == length freqs then positive l.amp amps else failed val) _
                    (same_length (length amps) (length freqs) (positive l.amp amps) val
                      (length-positive l.amp amps))
                    λ amps' h.
                      let (local, unwrapped) : List D × Bool =
                        unwrapped_from (lit 0) (lit 0) l.phase in
                      Ensures-bind (λ z. Unit {0}) _ (spline l.freq local freqs) _
                        (Ensures-any (spline l.freq local freqs))
                        λ phases x.
                          Ensures-bind (λ ys. length ys ≡ length freqs) _
                            (if length phases == length freqs
                              then (if unwrapped then wrapped steps phases else checked phases)
                              else failed err)
                            _
                            (same_length (length phases) (length freqs)
                              (if unwrapped then wrapped steps phases else checked phases) err
                              (length-phases unwrapped steps phases))
                            λ phases' k. (h, k)
