-- ===== src/Frequencies/Limits.antt =====
-- What validate_freqs and calculate_default_freqs of libsrc/evalresp/evaluation.c promise.
use evalresp.Prelude.{
  ℕ, zero, suc, ◌≡◌, refl, ap, subst, ◌∙◌, Bool, true, false, not, ◌||◌, List, [], ◌∷◌, arith, inl,
  inr, Bool-cases, if◌then◌else◌, length,
}
use evalresp.Prelude.Int.{ℤ, pos, negsuc, ltb_ℤ}
use evalresp.Status.{is_ok}
use evalresp.Double.{Double, IsOrdered}
use evalresp.Options.{Options}
use evalresp.Frequencies.{
  with_defaults, in_order, validate_freqs, rounds, grid, powers, spaced, calculate_default_freqs,
}

rounds-pos : (n : ℤ) → ltb_ℤ n (pos 1) ≡ false → pos (rounds n) ≡ n
unfolding rounds
rounds-pos (pos n) h = refl
rounds-pos (negsuc n) h = ground arith

module _ {D : Type 0} ⦃d : Double D⦄ where
  lt_asymmetric : (ord : IsOrdered D) (x y : D) → d.lt x y ≡ true → d.lt y x ≡ false
  lt_asymmetric ord x y h = elim (Bool-cases (d.lt y x)) [
    | inl k ↦ let a = ord.lt_trans x y x h k in let b = ord.lt_irrefl x in ground arith
    | inr k ↦ k
  ]

  in_order-lt :
      (ord : IsOrdered D) (o : Options D) → d.lt (in_order o).max_freq (in_order o).min_freq ≡ false
  unfolding in_order
  in_order-lt ord o = elim (Bool-cases (d.lt o.max_freq o.min_freq)) [
    | inl e ↦ rw e (lt_asymmetric ord o.max_freq o.min_freq e)
    | inr e ↦ rw e e
  ]

  -- Where validate_freqs succeeds, the limits are in order, there is a frequency at least, and the
  -- lower limit of a logarithmic spacing is not 0. The comparison of doubles is a strict order.
  pub validate_freqs-ok :
      (ord : IsOrdered D) (o : Options D)
      → is_ok (validate_freqs o).0 ≡ true
      → let o' = (validate_freqs o).1 in
        (d.lt o'.max_freq o'.min_freq ≡ false)
        × (ltb_ℤ o'.nfreq (pos 1) ≡ false)
        × (o'.lin_freq || not (d.eq o'.min_freq (d.of_int (pos 0))) ≡ true)
  unfolding validate_freqs is_ok
  validate_freqs-ok ord o h = let a = in_order-lt ord (with_defaults o) in ground arith

  length-grid : (lo delta : D) (i n : ℕ) → length (grid lo delta i n) ≡ n
  unfolding grid
  length-grid lo delta i zero = refl
  length-grid lo delta i (suc n) = ap suc (length-grid lo delta (suc i) n)

  length-powers : (xs : List D) → length (powers xs) ≡ length xs
  unfolding powers
  length-powers [] = refl
  length-powers (x ∷ xs) = ap suc (length-powers xs)

  length-spaced : (b : Bool) (xs : List D) → length (if b then xs else powers xs) ≡ length xs
  length-spaced true xs = refl
  length-spaced false xs = length-powers xs

  length-spaced_of :
      (o : Options D) → ltb_ℤ o.nfreq (pos 1) ≡ false → pos (length (spaced o)) ≡ o.nfreq
  unfolding spaced
  length-spaced_of o h =
      ap pos (length-spaced o.lin_freq _ ∙ length-grid _ _ 0 (rounds o.nfreq))
      ∙ rounds-pos o.nfreq h

  validate_freqs-nfreq : (o : Options D) → (validate_freqs o).1.nfreq ≡ o.nfreq
  unfolding validate_freqs with_defaults in_order
  validate_freqs-nfreq o = ground arith

  calculate_default_freqs-refused :
      (o : Options D)
      → is_ok (validate_freqs o).0 ≡ false
      → is_ok (calculate_default_freqs o).0 ≡ false
  unfolding calculate_default_freqs is_ok
  calculate_default_freqs-refused o e = rw e e

  -- Where calculate_default_freqs succeeds, it gives as many frequencies as the options ask for, and
  -- at least one. The comparison of doubles is a strict order.
  pub calculate_default_freqs-length :
      (ord : IsOrdered D) (o : Options D)
      → is_ok (calculate_default_freqs o).0 ≡ true
      → (pos (length (calculate_default_freqs o).2) ≡ o.nfreq) × (ltb_ℤ o.nfreq (pos 1) ≡ false)
  unfolding calculate_default_freqs is_ok
  calculate_default_freqs-length ord o h = elim (Bool-cases (is_ok (validate_freqs o).0)) [
    | inl e ↦
        let v = validate_freqs-ok ord o e in
        let n = validate_freqs-nfreq o in
        let l = length-spaced_of (validate_freqs o).1 v.1 in
        rw e (l ∙ n, subst (λ k. ltb_ℤ k (pos 1) ≡ false) n v.1)
    | inr e ↦ let r = calculate_default_freqs-refused o e in ground arith
  ]
