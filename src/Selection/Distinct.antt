-- ===== src/Selection/Distinct.antt =====
-- No two winners have one name.
use evalresp.Prelude.{
  ℕ, zero, suc, ◌≡◌, Bool, true, false, inl, inr, Option, none, some, List, [], ◌∷◌, map, arith,
  Bool-cases, All,
}
use evalresp.Double.{Double}
use evalresp.Channel.{Channel}
use evalresp.DateTime.{DateTime, Calendar}
use evalresp.Filter.{same_channel, loses}
use evalresp.Selection.{contest}
use evalresp.Selection.Winners.{winners}

-- `P` of every channel that is left in the array.
abbrev pub AllLeft {ℓ κ} : {A : Type ℓ} → (A → Type κ) → List (Option A) → Type κ
AllLeft P [] = Unit
AllLeft P (none ∷ xs) = AllLeft P xs
AllLeft P (some x ∷ xs) = P x × AllLeft P xs

pub AllLeft-map-some {ℓ κ} :
    {A : Type ℓ} (P : A → Type κ) (xs : List A) → All P xs → AllLeft P (map some xs)
AllLeft-map-some P [] h = tt
AllLeft-map-some P (x ∷ xs) h = (h.0, AllLeft-map-some P xs h.1)

-- No two channels of the list have one name.
abbrev pub AllDistinct : {D : Type 0} → List (Channel D) → Type 0
AllDistinct [] = Unit {0}
AllDistinct (w ∷ ws) = All (λ o. same_channel w o ≡ false) ws × AllDistinct ws

module _ {D : Type 0} ⦃d : Double D⦄ (cal : Calendar) (date : Option (DateTime D)) where
  pub contest-AllLeft {κ} :
      (P : Channel D → Type κ) (c : Channel D) (l : List (Option (Channel D)))
      → AllLeft P l
      → AllLeft P (contest cal date c l).others
  unfolding contest
  contest-AllLeft P c [] h = tt
  contest-AllLeft P c (none ∷ l) h = contest-AllLeft P c l h
  contest-AllLeft P c (some o ∷ l) h = elim (Bool-cases (same_channel c o)) [
    | inr e ↦ rw e (h.0, contest-AllLeft P c l h.1)
    | inl e ↦ elim (Bool-cases (loses cal date c o)) [
      | inl k ↦ rw (e, k) h
      | inr k ↦ rw (e, k) (contest-AllLeft P c l h.1)
    ]
  ]

  -- A candidate that is not beaten leaves no other channel of its name.
  contest-alone :
      (c : Channel D) (l : List (Option (Channel D)))
      → (contest cal date c l).best_match ≡ true
      → AllLeft (λ o. same_channel c o ≡ false) (contest cal date c l).others
  unfolding contest
  contest-alone c [] h = tt
  contest-alone c (none ∷ l) h = contest-alone c l h
  contest-alone c (some o ∷ l) h = elim (Bool-cases (same_channel c o)) [
    | inr e ↦ rw e (e, contest-alone c l (ground (arith, e)))
    | inl e ↦ elim (Bool-cases (loses cal date c o)) [
      | inl k ↦ absurd (ground (arith, e, k))
      | inr k ↦ rw (e, k) (contest-alone c l (ground (arith, e, k)))
    ]
  ]

  module _ (m : Channel D → Bool) where
    pub winners-All {κ} :
        (P : Channel D → Type κ) (fuel : ℕ) (l : List (Option (Channel D)))
        → AllLeft P l
        → All P (winners cal m date fuel l)
    unfolding winners
    winners-All P zero [] h = tt
    winners-All P (suc fuel) [] h = tt
    winners-All P zero (c ∷ l) h = tt
    winners-All P (suc fuel) (none ∷ l) h = winners-All P fuel l h
    winners-All P (suc fuel) (some c ∷ l) h =
        let rest = winners-All P fuel (contest cal date c l).others (contest-AllLeft P c l h.1) in
        elim (Bool-cases (m c)) [
          | inr e ↦ rw e (winners-All P fuel l h.1)
          | inl e ↦ elim (Bool-cases (contest cal date c l).best_match) [
            | inl b ↦ rw (e, b) (h.0, rest)
            | inr b ↦ rw (e, b) rest
          ]
        ]

    pub winners-AllDistinct :
        (fuel : ℕ) (l : List (Option (Channel D))) → AllDistinct (winners cal m date fuel l)
    unfolding winners
    winners-AllDistinct zero [] = tt
    winners-AllDistinct (suc fuel) [] = tt
    winners-AllDistinct zero (c ∷ l) = tt
    winners-AllDistinct (suc fuel) (none ∷ l) = winners-AllDistinct fuel l
    winners-AllDistinct (suc fuel) (some c ∷ l) =
        let others = (contest cal date c l).others in
        elim (Bool-cases (m c)) [
          | inr e ↦ rw e (winners-AllDistinct fuel l)
          | inl e ↦ elim (Bool-cases (contest cal date c l).best_match) [
            | inl b ↦
                rw (e, b)
                  (
                    winners-All (λ o. same_channel c o ≡ false) fuel others (contest-alone c l b),
                    winners-AllDistinct fuel others,
                  )
            | inr b ↦ rw (e, b) (winners-AllDistinct fuel others)
          ]
        ]
