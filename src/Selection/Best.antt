-- ===== src/Selection/Best.antt =====
-- Every channel that matches the filter has a winner of its name that is no worse.
use evalresp.Prelude.{
  ◌≡◌, true, false, inl, inr, Option, none, some, List, map, arith, All, length, length-map,
}
use evalresp.Prelude.Int.{leb_ℤ}
use evalresp.RegExp.{RegExp}
use evalresp.Double.{Double, IsOrdered}
use evalresp.Channel.{Channel}
use evalresp.DateTime.{DateTime, Calendar, earlier, duration}
use evalresp.DateTime.Order.{HasTimes, earlier_total, earlier_trans}
use evalresp.Filter.{Filter, in_date, passes, loses, filter_date}
use evalresp.Filter.Names.{passes-same_channel, passes-in_date}
use evalresp.Selection.Winners.{winners_of}
use evalresp.Selection.Distinct.{AllLeft, AllLeft-map-some}
use evalresp.Selection.Covered.{
  winners-Covered, Covered, leb_ℤ_refl, leb_ℤ_trans, leb_ℤ_total, All-unit,
}

-- `w` is of the same date or later than `x`.
abbrev pub NoEarlier : {D : Type 0} ⦃d : Double D⦄ → Channel D → Channel D → Type 0
NoEarlier x w = earlier x w ≡ true

-- `w` lasts no longer than `x`.
abbrev pub NoLonger : {D : Type 0} ⦃d : Double D⦄ → Calendar → Channel D → Channel D → Type 0
NoLonger cal x w = leb_ℤ (duration cal w) (duration cal x) ≡ true

module _ {D : Type 0} ⦃d : Double D⦄ (laws : IsOrdered D) (re : RegExp) (cal : Calendar) where
  earlier_refl : (x : Channel D) → earlier x x ≡ true
  earlier_refl x = elim (earlier_total laws x x) [ inl e ↦ e | inr e ↦ e ]

  in_no_date :
      (f : Option (Filter D)) (o : Channel D)
      → filter_date f ≡ none
      → in_date (filter_date f) o ≡ true
  unfolding in_date
  in_no_date f o e = rw e

  earlier_lost :
      (f : Option (Filter D)) (x o : Channel D)
      → filter_date f ≡ none
      → loses cal (filter_date f) x o ≡ true
      → earlier x o ≡ true
  unfolding loses
  earlier_lost f x o e k = rw e at k

  earlier_won :
      (f : Option (Filter D)) (x o : Channel D)
      → filter_date f ≡ none
      → loses cal (filter_date f) x o ≡ false
      → earlier o x ≡ true
  unfolding loses
  earlier_won f x o e k = elim (earlier_total laws x o) [ inl h ↦ cc (h, rw e at k) | inr h ↦ h ]

  pub winners-latest :
      (f : Option (Filter D)) (l : List (Channel D))
      → filter_date f ≡ none
      → All (HasTimes) l
      → AllLeft
          (λ x.
            HasTimes x
            × ((passes re f x).0 ≡ true
                → Covered (λ x w. HasTimes w × NoEarlier x w) x (winners_of re cal f l)))
          (map some l)
  winners-latest f l e g =
      winners-Covered cal (filter_date f) (λ c. (passes re f c).0) (HasTimes) NoEarlier earlier_refl
        (earlier_trans laws)
        (λ x o mx s k.
          (passes-same_channel re f x o s mx (in_no_date f o e), earlier_lost f x o e k))
        (λ x o mo s k. earlier_won f x o e k) (length l) (map some l)
        (omega (arith, length-map l (λ (c : Channel D). some c))) (AllLeft-map-some (HasTimes) l g)

module _ {D : Type 0} ⦃d : Double D⦄ (re : RegExp) (cal : Calendar) where
  NoLonger-trans : (x y z : Channel D) → NoLonger cal x y → NoLonger cal y z → NoLonger cal x z
  NoLonger-trans x y z h k = leb_ℤ_trans (duration cal z) (duration cal y) (duration cal x) k h

  date_lost :
      (f : Option (Filter D)) (t : DateTime D) (x o : Channel D)
      → filter_date f ≡ some t
      → loses cal (filter_date f) x o ≡ true
      → (in_date (filter_date f) o ≡ true) × NoLonger cal x o
  unfolding loses in_date
  date_lost f t x o e k = ground (arith, e)

  date_won :
      (f : Option (Filter D)) (t : DateTime D) (x o : Channel D)
      → filter_date f ≡ some t
      → in_date (filter_date f) o ≡ true
      → loses cal (filter_date f) x o ≡ false
      → NoLonger cal o x
  unfolding loses in_date
  date_won f t x o e i k = leb_ℤ_total (duration cal o) (duration cal x) (ground (arith, e))

  pub winners-shortest :
      (f : Option (Filter D)) (t : DateTime D) (l : List (Channel D))
      → filter_date f ≡ some t
      → AllLeft
          (λ x.
            Unit {0}
            × ((passes re f x).0 ≡ true
                → Covered (λ x w. Unit {0} × NoLonger cal x w) x (winners_of re cal f l)))
          (map some l)
  winners-shortest f t l e =
      winners-Covered cal (filter_date f) (λ c. (passes re f c).0) (λ c. Unit {0}) (NoLonger cal)
        (λ x. leb_ℤ_refl (duration cal x)) (λ x y z _ _ _. NoLonger-trans x y z)
        (λ x o mx s k.
          let (i, r) = date_lost f t x o e k in (passes-same_channel re f x o s mx i, r))
        (λ x o mo s k. date_won f t x o e (passes-in_date re f o mo) k) (length l) (map some l)
        (omega (arith, length-map l (λ (c : Channel D). some c)))
        (AllLeft-map-some (λ c. Unit {0}) l (All-unit l))
