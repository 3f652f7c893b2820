-- ===== src/Selection/Winners.antt =====
-- The channels that filter_channels decides on, apart from its counters and from check_channel.
use evalresp.Prelude.{
  ℕ, zero, suc, ◌+◌, ◌≡◌, refl, subst, ◌∙◌, Bool, Option, none, some, inl, inr, List, [], ◌∷◌, map,
  arith, if◌then◌else◌, length, Bool-cases,
}
use evalresp.CString.{is_empty}
use evalresp.RegExp.{RegExp}
use evalresp.Double.{Double}
use evalresp.Channel.{Channel}
use evalresp.DateTime.{DateTime, Calendar}
use evalresp.Filter.{
  Sncl, Filter, sncl_matches, match_sncls, date_of, channel_matches, passes, filter_date,
}
use evalresp.Checked.{Checked, checked, failed, undefined}
use evalresp.Check.Stage.{check_channel}
use evalresp.Selection.{Selected, contest, kept, warned, select_from, filter_channels}

module _ {D : Type 0} ⦃d : Double D⦄ (re : RegExp) where
  sncl_matches_counted :
      (c : Channel D) (s : Sncl) (n : ℕ)
      → sncl_matches re c (record s { found = n }) ≡ sncl_matches re c s
  unfolding sncl_matches
  sncl_matches_counted c s n = refl

  match_sncls_again :
      (x c : Channel D) (ss : List Sncl)
      → (match_sncls re c (match_sncls re x ss).1).0 ≡ (match_sncls re c ss).0
  unfolding match_sncls
  match_sncls_again x c [] = refl
  match_sncls_again x c (s ∷ ss) = elim (Bool-cases (sncl_matches re x s)) [
    | inl e ↦ ground (arith, e, sncl_matches_counted c s (s.found + 1))
    | inr e ↦ ground (arith, e, match_sncls_again x c ss)
  ]

  match_sncls-is_empty :
      (x : Channel D) (ss : List Sncl) → is_empty (match_sncls re x ss).1 ≡ is_empty ss
  unfolding match_sncls
  match_sncls-is_empty x [] = refl
  match_sncls-is_empty x (s ∷ ss) = ground arith

  -- The filter decides by `m`, and its date is `date`.
  abbrev pub Decides : Option (Filter D) → (Channel D → Bool) → Option (DateTime D) → Type 0
  Decides f m date = ((c : Channel D) → (passes re f c).0 ≡ m c) × (filter_date f ≡ date)

  date_of-sncls : (f : Filter D) (ss : List Sncl) → date_of (record f { sncls = ss }) ≡ date_of f
  unfolding date_of
  date_of-sncls f ss = refl

  passes_again :
      (f : Option (Filter D)) (x c : Channel D)
      → (passes re (passes re f x).1 c).0 ≡ (passes re f c).0
  unfolding passes channel_matches
  passes_again none x c = refl
  passes_again (some f) x c = ground (
    arith,
    match_sncls_again x c f.sncls,
    match_sncls-is_empty x f.sncls,
    date_of-sncls f (match_sncls re x f.sncls).1,
  )

  filter_date-passes :
      (f : Option (Filter D)) (x : Channel D) → filter_date (passes re f x).1 ≡ filter_date f
  unfolding filter_date passes channel_matches
  filter_date-passes none x = refl
  filter_date-passes (some f) x = ground arith

  passes-Decides :
      (f : Option (Filter D)) (m : Channel D → Bool) (date : Option (DateTime D)) (x : Channel D)
      → Decides f m date
      → Decides (passes re f x).1 m date
  passes-Decides f m date x h = (λ c. passes_again f x c ∙ h.0 c, filter_date-passes f x ∙ h.1)

module _ {D : Type 0} ⦃d : Double D⦄ (cal : Calendar) where
  -- The channels that win, where `m` says which ones match the filter.
  unfoldable pub winners :
      (Channel D → Bool) → Option (DateTime D) → ℕ → List (Option (Channel D)) → List (Channel D)
  winners m date fuel [] = []
  winners m date zero (c ∷ rest) = []
  winners m date (suc fuel) (none ∷ rest) = winners m date fuel rest
  winners m date (suc fuel) (some c ∷ rest) =
      let k = contest cal date c rest in
      let skip = winners m date fuel rest in
      let go = winners m date fuel k.others in
      if m c then (if k.best_match then c ∷ go else go) else skip

-- Each output is what `check` makes of the winner at its place.
abbrev pub AllChecked :
    {D : Type 0} → (Channel D → Checked (Channel D)) → List (Channel D) → List (Channel D) → Type 0
AllChecked check [] [] = Unit {0}
AllChecked check [] (o ∷ os) = ⊥
AllChecked check (w ∷ ws) [] = ⊥
AllChecked check (w ∷ ws) (o ∷ os) = (check w ≡ checked o) × AllChecked check ws os

module _ {D : Type 0} where
  abbrev Outputs :
      (Channel D → Checked (Channel D)) → List (Channel D) → Checked (Selected D) → Type 0
  Outputs check ws (checked r) = AllChecked check ws r.channels_out
  Outputs check ws (failed s) = Unit {0}
  Outputs check ws undefined = Unit {0}

  warned-Outputs :
      (check : Channel D → Checked (Channel D)) (ws : List (Channel D)) (w : Bool)
      (r : Checked (Selected D))
      → Outputs check ws r
      → Outputs check ws (warned w r)
  unfolding warned
  warned-Outputs check ws w (checked r) h = h
  warned-Outputs check ws w (failed s) h = h
  warned-Outputs check ws w undefined h = h

  kept-Outputs :
      (check : Channel D → Checked (Channel D)) (ws : List (Channel D)) (c : Channel D)
      (r : Checked (Selected D))
      → Outputs check ws r
      → Outputs check (c ∷ ws) (kept check c r)
  unfolding kept
  kept-Outputs check ws c r h = go (check c) refl r h
    where
      go :
          (k : Checked (Channel D))
          → check c ≡ k
          → (r : Checked (Selected D)) → Outputs check ws r
          → Outputs check (c ∷ ws) (kept check c r)
      go (checked o) e (checked r) h = rw (e, kept) (e, h)
      go (checked o) e (failed s) h = rw (e, kept) tt
      go (checked o) e undefined h = rw (e, kept) tt
      go (failed s) e r h = rw (e, kept) tt
      go undefined e r h = rw (e, kept) tt

module _ {D : Type 0} ⦃d : Double D⦄ (re : RegExp) (cal : Calendar) where
  select_from-Outputs :
      (check : Channel D → Checked (Channel D)) (m : Channel D → Bool) (date : Option (DateTime D))
      (fuel : ℕ) (f : Option (Filter D)) (l : List (Option (Channel D)))
      → Decides re f m date
      → Outputs check (winners cal m date fuel l) (select_from re cal check fuel f l)
  unfolding select_from winners
  select_from-Outputs check m date zero f [] h = tt
  select_from-Outputs check m date (suc fuel) f [] h = tt
  select_from-Outputs check m date zero f (c ∷ l) h = tt
  select_from-Outputs check m date (suc fuel) f (none ∷ l) h =
      select_from-Outputs check m date fuel f l h
  select_from-Outputs check m date (suc fuel) f (some c ∷ l) h =
      let k = contest cal date c l in
      let h' = passes-Decides re f m date c h in
      elim (Bool-cases (m c)) [
        | inr e ↦ rw (h.0 c, e) (select_from-Outputs check m date fuel (passes re f c).1 l h')
        | inl e ↦ elim (Bool-cases k.best_match) [
          | inl b ↦
              rw (h.0 c, h.1, e, b)
                (warned-Outputs check (c ∷ winners cal m date fuel k.others) k.warn_user _ (
                  kept-Outputs check (winners cal m date fuel k.others) c _
                    (select_from-Outputs check m date fuel (passes re f c).1 k.others h')))
          | inr b ↦
              rw (h.0 c, h.1, e, b)
                (warned-Outputs check (winners cal m date fuel k.others) k.warn_user _
                  (select_from-Outputs check m date fuel (passes re f c).1 k.others h'))
        ]
      ]

  -- The winners among the channels that are read.
  abbrev pub winners_of : Option (Filter D) → List (Channel D) → List (Channel D)
  winners_of f l = winners cal (λ c. (passes re f c).0) (filter_date f) (length l) (map some l)

  -- Where filter_channels succeeds, its output is the list of the winners, each one as check_channel
  -- leaves it.
  pub filter_channels-winners :
      (f : Option (Filter D)) (l : List (Channel D)) (r : Selected D)
      → filter_channels re cal f l ≡ checked r
      → AllChecked check_channel (winners_of f l) r.channels_out
  unfolding filter_channels
  filter_channels-winners f l r e = subst (Outputs check_channel (winners_of f l)) e (
      select_from-Outputs check_channel (λ c. (passes re f c).0) (filter_date f) (length l) f
        (map some l) (λ c. refl, refl))
