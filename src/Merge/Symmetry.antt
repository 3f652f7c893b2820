-- ===== src/Merge/Symmetry.antt =====
-- A filter that check_symmetry folds keeps the coefficients that it stands for.
use evalresp.Prelude.{
  ℕ, suc, ◌-◌, ◌/◌, ◌%◌, ◌≡◌, true, List, [], ◌∷◌, ◌++◌, reverse, arith, ◌==◌, length, take, drop,
  take-append-drop, length-take, length-drop, Bool-cases, inl, inr, All, All-take, length-reverse,
  reverse-take, subst, ◌≢◌,
}
use evalresp.Double.{Double}
use evalresp.Channel.{FirType, sym_1, sym_2, asym, Fir}
use evalresp.Merge.{none_differ, normalized, fold_symmetric, check_symmetry}

module _ {D : Type 0} ⦃d : Double D⦄ where
  -- All the weights of a filter of which the first part is kept.
  abbrev pub weights : FirType → List D → List D
  weights asym c = c
  weights sym_2 c = c ++ reverse c
  weights sym_1 c = c ++ drop 1 (reverse c)

  -- Each element equals the one at its place, and the lists are as long.
  abbrev pub AllEq : List D → List D → Type 0
  AllEq [] [] = Unit {0}
  AllEq [] (y ∷ ys) = ⊥
  AllEq (x ∷ xs) [] = ⊥
  AllEq (x ∷ xs) (y ∷ ys) = (d.eq x y ≡ true) × AllEq xs ys

  none_differ-AllEq :
      (xs ys : List D) → none_differ xs ys ≡ true → length xs ≡ length ys → AllEq xs ys
  unfolding none_differ
  none_differ-AllEq [] [] h e = tt
  none_differ-AllEq [] (y ∷ ys) h e = absurd (omega arith)
  none_differ-AllEq (x ∷ xs) [] h e = absurd (omega arith)
  none_differ-AllEq (x ∷ xs) (y ∷ ys) h e = ground (arith, none_differ-AllEq xs ys)

  AllEq-append :
      (ws xs ys : List D)
      → All (λ x. d.eq x x ≡ true) ws
      → AllEq xs ys
      → AllEq (ws ++ xs) (ws ++ ys)
  AllEq-append [] xs ys r h = h
  AllEq-append (w ∷ ws) xs ys r h = (r.0, AllEq-append ws xs ys r.1 h)

  AllEq-refl : (xs : List D) → All (λ x. d.eq x x ≡ true) xs → AllEq xs xs
  AllEq-refl [] r = tt
  AllEq-refl (x ∷ xs) r = (r.0, AllEq-refl xs r.1)

  -- The list is its first `n` elements and `ys`, where the rest shows no difference from `ys`.
  AllEq-take :
      (n : ℕ) (c ys : List D)
      → All (λ x. d.eq x x ≡ true) c
      → none_differ (drop n c) ys ≡ true
      → length ys ≡ length c - n
      → AllEq c (take n c ++ ys)
  AllEq-take n c ys r h e =
      subst (λ xs. AllEq xs (take n c ++ ys)) (take-append-drop n c)
        (AllEq-append (take n c) (drop n c) ys (All-take (λ x. d.eq x x ≡ true) n c r)
          (none_differ-AllEq (drop n c) ys h (omega (arith, length-drop n c, e))))

  fold_even :
      (c : List D)
      → All (λ x. d.eq x x ≡ true) c
      → length c % 2 ≡ 0
      → none_differ (drop (length c / 2) c) (reverse (take (length c / 2) c)) ≡ true
      → AllEq c (weights sym_2 (take (length c / 2) c))
  fold_even c r e h =
      AllEq-take (length c / 2) c _ r h
        (omega (arith, length-reverse (take (length c / 2) c), length-take (length c / 2) c))

  fold_odd :
      (c : List D)
      → All (λ x. d.eq x x ≡ true) c
      → length c % 2 ≢ 0
      → none_differ (drop (suc ((length c - 1) / 2)) c) (reverse (take ((length c - 1) / 2) c))
        ≡ true
      → AllEq c (weights sym_1 (take (length c - (length c - 1) / 2) c))
  fold_odd c r e h =
      let n = (length c - 1) / 2 in
      let k : length c - n ≡ suc n = omega arith in
      rw k (
        rw (reverse-take n c (omega arith)) (
          AllEq-take (suc n) c (reverse (take n c)) r h
            (omega (arith, length-reverse (take n c), length-take n c))))

  fold_symmetric-weights :
      (f : Fir D)
      → All (λ x. d.eq x x ≡ true) f.coeffs
      → AllEq f.coeffs (weights (fold_symmetric f).0 (fold_symmetric f).1.coeffs)
  unfolding fold_symmetric
  fold_symmetric-weights f r =
      let c = f.coeffs in
      elim (Bool-cases (length c % 2 == 0)) [
        | inl even ↦
            elim (Bool-cases
              (none_differ (drop (length c / 2) c) (reverse (take (length c / 2) c)))) [
                | inl e ↦ rw (even, e) (fold_even c r (ground arith) e)
                | inr e ↦ rw (even, e) (AllEq-refl c r)
              ]
        | inr odd ↦
            let n = (length c - 1) / 2 in
            elim (Bool-cases (none_differ (drop (suc n) c) (reverse (take n c)))) [
              | inl e ↦ rw (odd, e) (fold_odd c r (ground arith) e)
              | inr e ↦ rw (odd, e) (AllEq-refl c r)
            ]
      ]

  -- The weights that a FIR_ASYM filter stands for after check_symmetry are, one by one, equal to the
  -- normalized coefficients that it was given, where none of these is NaN.
  pub check_symmetry-weights :
      (f : Fir D)
      → All (λ x. d.eq x x ≡ true) (normalized f.coeffs)
      → AllEq
          (normalized f.coeffs)
          (weights (check_symmetry asym f).0 (check_symmetry asym f).1.coeffs)
  unfolding check_symmetry
  check_symmetry-weights f r = fold_symmetric-weights (record f { coeffs = normalized f.coeffs }) r
