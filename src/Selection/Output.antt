-- ===== src/Selection/Output.antt =====
-- What filter_channels returns: one channel of each name, the latest or the shortest one.
use evalresp.Prelude.{
  ◌≡◌, inl, inr, Bool-cases, true, false, Option, none, some, List, [], ◌∷◌, map, All,
}
use evalresp.RegExp.{RegExp}
use evalresp.Double.{Double, IsOrdered}
use evalresp.Channel.{Channel}
use evalresp.DateTime.{DateTime, Calendar, earlier, duration}
use evalresp.DateTime.Order.{HasTimes}
use evalresp.Filter.{Filter, same_channel, passes, filter_date}
use evalresp.Filter.Names.{SameName→same_channel, same_channel_sym, same_channel_trans}
use evalresp.Checked.{checked}
use evalresp.Check.Stage.{check_channel}
use evalresp.Check.Labels.{SameLabels, check_channel-SameLabels}
use evalresp.Selection.{Selected, filter_channels}
use evalresp.Selection.Winners.{AllChecked, winners_of, filter_channels-winners}
use evalresp.Selection.Distinct.{AllLeft, AllDistinct, winners-AllDistinct}
use evalresp.Selection.Covered.{Covered, here, there}
use evalresp.Selection.Best.{NoEarlier, NoLonger, winners-latest, winners-shortest}

module _ {D : Type 0} where
  SameLabels→same_channel : (a b : Channel D) → SameLabels a b → same_channel a b ≡ true
  SameLabels→same_channel a b h =
      SameName→same_channel a b
        (record { network = h.network; staname = h.staname; locid = h.locid; chaname = h.chaname })

  map-some-All {κ} :
      (P : Channel D → Type κ) (l : List (Channel D)) → AllLeft P (map some l) → All P l
  map-some-All P [] h = tt
  map-some-All P (x ∷ l) h = (h.0, map-some-All P l h.1)

  All-map {κ ι} :
      (P : Channel D → Type κ) (Q : Channel D → Type ι) (l : List (Channel D))
      → ((x : Channel D) → P x → Q x)
      → All P l
      → All Q l
  All-map P Q [] f h = tt
  All-map P Q (x ∷ l) f h = (f x h.0, All-map P Q l f h.1)

module _ {D : Type 0} ⦃d : Double D⦄ where
  other_name :
      (w x o y : Channel D)
      → SameLabels w o
      → SameLabels x y
      → same_channel w x ≡ false
      → same_channel o y ≡ false
  other_name w x o y h k n = elim (Bool-cases (same_channel o y)) [
    | inr e ↦ e
    | inl e ↦
        let wy = same_channel_trans w o y (SameLabels→same_channel w o h) e in
        let yx = same_channel_sym x y (SameLabels→same_channel x y k) in
        cc (same_channel_trans w y x wy yx)
  ]

  AllChecked-other :
      (w o : Channel D) (ws os : List (Channel D))
      → SameLabels w o
      → AllChecked check_channel ws os
      → All (λ x. same_channel w x ≡ false) ws
      → All (λ y. same_channel o y ≡ false) os
  AllChecked-other w o [] [] h c a = tt
  AllChecked-other w o [] (y ∷ os) h c a = absurd c
  AllChecked-other w o (x ∷ ws) [] h c a = absurd c
  AllChecked-other w o (x ∷ ws) (y ∷ os) h c a = (
    other_name w x o y h (check_channel-SameLabels x y c.0) a.0,
    AllChecked-other w o ws os h c.1 a.1,
  )

  AllChecked-AllDistinct :
      (ws os : List (Channel D)) → AllChecked check_channel ws os → AllDistinct ws → AllDistinct os
  AllChecked-AllDistinct [] [] c a = tt
  AllChecked-AllDistinct [] (y ∷ os) c a = absurd c
  AllChecked-AllDistinct (x ∷ ws) [] c a = absurd c
  AllChecked-AllDistinct (x ∷ ws) (y ∷ os) c a = (
    AllChecked-other x y ws os (check_channel-SameLabels x y c.0) c.1 a.0,
    AllChecked-AllDistinct ws os c.1 a.1,
  )

  -- A relation that reads only the labels of the winner holds of the output.
  AllChecked-Covered :
      (G : Channel D → Type 0) (R : Channel D → Channel D → Type 0) (x : Channel D)
      (ws os : List (Channel D))
      → ((w o : Channel D) → SameLabels w o → R x w → R x o)
      → AllChecked check_channel ws os
      → Covered (λ x w. G w × R x w) x ws
      → Covered R x os
  AllChecked-Covered G R x ws [] f c (here w vs s r) = absurd c
  AllChecked-Covered G R x ws (o ∷ os) f c (here w vs s r) =
      let h = check_channel-SameLabels w o c.0 in
      here o os (same_channel_trans x w o s (SameLabels→same_channel w o h)) (f w o h r.1)
  AllChecked-Covered G R x ws [] f c (there w vs r) = absurd c
  AllChecked-Covered G R x ws (o ∷ os) f c (there w vs r) =
      there o os (AllChecked-Covered G R x vs os f c.1 r)

  NoEarlier-SameLabels : (x w o : Channel D) → SameLabels w o → NoEarlier x w → NoEarlier x o
  unfolding earlier
  NoEarlier-SameLabels x w o h r = cc (h.beg_t, h.end_t)

  NoLonger-SameLabels :
      (cal : Calendar) (x w o : Channel D) → SameLabels w o → NoLonger cal x w → NoLonger cal x o
  unfolding duration
  NoLonger-SameLabels cal x w o h r = cc (h.beg_t, h.end_t)

module _ {D : Type 0} ⦃d : Double D⦄ (re : RegExp) (cal : Calendar) where
  -- Where filter_channels succeeds, no two of its channels have one network, station, location and
  -- channel name.
  pub filter_channels-AllDistinct :
      (f : Option (Filter D)) (l : List (Channel D)) (r : Selected D)
      → filter_channels re cal f l ≡ checked r
      → AllDistinct r.channels_out
  filter_channels-AllDistinct f l r e =
      AllChecked-AllDistinct (winners_of re cal f l) r.channels_out
        (filter_channels-winners re cal f l r e)
        (winners-AllDistinct cal (filter_date f) (λ c. (passes re f c).0) _ (map some l))

  -- Without a date in the filter: where filter_channels succeeds, every channel that matches the
  -- filter has one of its name in the output that is not earlier. The comparison of seconds is an
  -- order, and the seconds of the times are numbers.
  pub filter_channels-latest :
      (laws : IsOrdered D) (f : Option (Filter D)) (l : List (Channel D)) (r : Selected D)
      → filter_date f ≡ none
      → All HasTimes l
      → filter_channels re cal f l ≡ checked r
      → All (λ x. (passes re f x).0 ≡ true → Covered NoEarlier x r.channels_out) l
  filter_channels-latest laws f l r n g e =
      All-map _ _ l
        (λ x h p.
          AllChecked-Covered HasTimes NoEarlier x (winners_of re cal f l) r.channels_out
            (NoEarlier-SameLabels x) (filter_channels-winners re cal f l r e) (h.1 p))
        (map-some-All _ l (winners-latest laws re cal f l n g))

  -- With a date in the filter: where filter_channels succeeds, every channel that matches the filter
  -- has one of its name in the output whose duration, as the code computes it, is not longer.
  pub filter_channels-shortest :
      (f : Option (Filter D)) (t : DateTime D) (l : List (Channel D)) (r : Selected D)
      → filter_date f ≡ some t
      → filter_channels re cal f l ≡ checked r
      → All (λ x. (passes re f x).0 ≡ true → Covered (NoLonger cal) x r.channels_out) l
  filter_channels-shortest f t l r n e =
      All-map _ _ l
        (λ x h p.
          AllChecked-Covered (λ _. Unit {0}) (NoLonger cal) x (winners_of re cal f l) r.channels_out
            (NoLonger-SameLabels cal x) (filter_channels-winners re cal f l r e) (h.1 p))
        (map-some-All _ l (winners-shortest re cal f t l n))
