-- ===== src/DateTime/Order.antt =====
-- timecmp and earlier as orders, where the seconds are numbers.
use evalresp.Prelude.{
  ℕ, ◌≡◌, refl, Bool, true, false, ◌⊎◌, inl, inr, arith, Bool-cases, if◌then◌else◌,
}
use evalresp.Prelude.Int.{ℤ, pos, negsuc, ltb_ℤ, leb_ℤ}
use evalresp.Double.{Double, IsNum, IsOrdered}
use evalresp.Channel.{Channel}
use evalresp.DateTime.{DateTime, is_open, parse_datetime, timecmp, earlier}

abbrev pub neg : ℤ → ℤ
neg (pos ℕ.zero) = pos 0
neg (pos (ℕ.suc n)) = negsuc n
neg (negsuc n) = pos (ℕ.suc n)

abbrev pub AtMost0 : ℤ → Type 0
AtMost0 r = leb_ℤ r (pos 0) ≡ true

-- One step of timecmp: less, greater, or the result of the later keys.
abbrev by_key : Bool → Bool → ℤ → ℤ
by_key less greater r = if less then negsuc 0 else if greater then pos 1 else r

by_key_trans :
    (x y z p q r : ℤ)
    → (AtMost0 p → AtMost0 q → AtMost0 r)
    → AtMost0 (by_key (ltb_ℤ x y) (ltb_ℤ y x) p)
    → AtMost0 (by_key (ltb_ℤ y z) (ltb_ℤ z y) q)
    → AtMost0 (by_key (ltb_ℤ x z) (ltb_ℤ z x) r)
by_key_trans x y z p q r k h1 h2 = ground arith

by_key_swap :
    (x y p q : ℤ)
    → q ≡ neg p
    → by_key (ltb_ℤ y x) (ltb_ℤ x y) q ≡ neg (by_key (ltb_ℤ x y) (ltb_ℤ y x) p)
by_key_swap x y p q e = ground arith

module _ {D : Type 0} ⦃d : Double D⦄ where
  -- The seconds of both times of a channel are numbers.
  abbrev pub HasTimes : Channel D → Type 0
  HasTimes c =
      IsNum {D = D} (parse_datetime c.beg_t).sec × IsNum {D = D} (parse_datetime c.end_t).sec

-- `earlier` on which of the two channels are open, and on the two comparisons.
abbrev earlier_of : Bool → Bool → Bool → Bool → Bool
earlier_of open_a open_b begun ended =
    if open_a then (if open_b then begun else false) else if open_b then true else ended

earlier_of_trans :
    (a b c : Bool) {p p' q q' r r' : Bool}
    → (p ≡ true → q ≡ true → r ≡ true)
    → (p' ≡ true → q' ≡ true → r' ≡ true)
    → earlier_of a b p p' ≡ true
    → earlier_of b c q q' ≡ true
    → earlier_of a c r r' ≡ true
earlier_of_trans true true true f g h k = f h k
earlier_of_trans true true false f g h k = cc
earlier_of_trans true false c f g h k = cc
earlier_of_trans false b true f g h k = refl
earlier_of_trans false true false f g h k = cc
earlier_of_trans false false false f g h k = g h k

module _ {D : Type 0} ⦃d : Double D⦄ (laws : IsOrdered D) where
  open laws use {
    lt_irrefl, lt_trans, lt_total, eq_not_lt, eq_sym, lt_of_eq_lt, lt_of_lt_eq, eq_trans,
  }

  lt_asym : (x y : D) → d.lt x y ≡ true → d.lt y x ≡ false
  lt_asym x y h = elim (Bool-cases (d.lt y x)) [
    | inl k ↦ cc (lt_trans x y x h k, lt_irrefl x)
    | inr k ↦ k
  ]

  -- The last step, on the seconds.
  abbrev by_sec : D → D → ℤ
  by_sec x y = by_key (d.lt x y) (d.lt y x) (pos 0)

  not_lt_trans :
      (x y z : D)
      → IsNum x
      → IsNum y
      → IsNum z
      → d.lt y x ≡ false
      → d.lt z y ≡ false
      → d.lt z x ≡ false
  not_lt_trans x y z nx ny nz h k = elim (Bool-cases (d.lt z x)) [
    | inr e ↦ e
    | inl e ↦ elim (lt_total x y nx ny) [
      | inl xy ↦ cc (lt_trans z x y e xy)
      | inr (inl yx) ↦ cc
      | inr (inr xy) ↦ cc (lt_of_lt_eq z x y e xy)
    ]
  ]

  by_sec_at_most : (x y : D) → AtMost0 (by_sec x y) → d.lt y x ≡ false
  by_sec_at_most x y h = elim (Bool-cases (d.lt x y)) [
    | inl e ↦ lt_asym x y e
    | inr e ↦ ground (arith, e)
  ]

  by_sec_trans :
      (x y z : D)
      → IsNum x
      → IsNum y
      → IsNum z
      → AtMost0 (by_sec x y)
      → AtMost0 (by_sec y z)
      → AtMost0 (by_sec x z)
  by_sec_trans x y z nx ny nz h k =
      ground (arith, not_lt_trans x y z nx ny nz (by_sec_at_most x y h) (by_sec_at_most y z k))

  by_sec_swap : (x y : D) → by_sec y x ≡ neg (by_sec x y)
  by_sec_swap x y = ground (arith, lt_asym x y, lt_asym y x)

  -- Swapping the two times negates the result of timecmp, where the comparison of seconds is an
  -- order.
  pub timecmp_swap : (a b : DateTime D) → timecmp b a ≡ neg (timecmp a b)
  unfolding timecmp
  timecmp_swap a b = by_key_swap a.year b.year _ _ (
      by_key_swap a.jday b.jday _ _
        (by_key_swap a.hour b.hour _ _ (by_key_swap a.min b.min _ _ (by_sec_swap a.sec b.sec))))

  -- Where the seconds are numbers, `timecmp <= 0` is transitive.
  pub timecmp_trans :
      (a b c : DateTime D)
      → IsNum a.sec
      → IsNum b.sec
      → IsNum c.sec
      → AtMost0 (timecmp a b)
      → AtMost0 (timecmp b c)
      → AtMost0 (timecmp a c)
  unfolding timecmp
  timecmp_trans a b c na nb nc = by_key_trans a.year b.year c.year _ _ _ (
      by_key_trans a.jday b.jday c.jday _ _ _ (
        by_key_trans a.hour b.hour c.hour _ _ _
          (by_key_trans a.min b.min c.min _ _ _ (by_sec_trans a.sec b.sec c.sec na nb nc))))

  at_most_neg : (r : ℤ) → leb_ℤ r (pos 0) ≡ false → AtMost0 (neg r)
  at_most_neg (pos ℕ.zero) h = ground arith
  at_most_neg (pos (ℕ.suc n)) h = ground arith
  at_most_neg (negsuc n) h = ground arith

  pub timecmp_total : (a b : DateTime D) → AtMost0 (timecmp a b) ⊎ AtMost0 (timecmp b a)
  timecmp_total a b = elim (Bool-cases (leb_ℤ (timecmp a b) (pos 0))) [
    | inl e ↦ inl e
    | inr e ↦ inr (rw (timecmp_swap a b) (at_most_neg (timecmp a b) e))
  ]

  -- Of two channels one is earlier than the other, or as early.
  pub earlier_total : (a b : Channel D) → (earlier a b ≡ true) ⊎ (earlier b a ≡ true)
  unfolding earlier
  earlier_total a b = ground (
    arith,
    timecmp_total (parse_datetime a.beg_t) (parse_datetime b.beg_t),
    timecmp_total (parse_datetime a.end_t) (parse_datetime b.end_t),
  )

  -- `earlier` is transitive, where the comparison of seconds is an order and the seconds of the
  -- times are numbers.
  pub earlier_trans :
      (a b c : Channel D)
      → HasTimes a
      → HasTimes b
      → HasTimes c
      → earlier a b ≡ true
      → earlier b c ≡ true
      → earlier a c ≡ true
  unfolding earlier
  earlier_trans a b c ta tb tc =
      earlier_of_trans (is_open a.end_t) (is_open b.end_t) (is_open c.end_t)
        (timecmp_trans (parse_datetime a.beg_t) (parse_datetime b.beg_t) (parse_datetime c.beg_t)
          ta.0 tb.0 tc.0)
        (timecmp_trans (parse_datetime a.end_t) (parse_datetime b.end_t) (parse_datetime c.end_t)
          ta.1 tb.1 tc.1)
