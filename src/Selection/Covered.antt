-- ===== src/Selection/Covered.antt =====
-- The winner of its name is no worse than a channel, for any relation that the contest respects.
use evalresp.Prelude.{
  ℕ, zero, suc, ◌≤◌, ◌≡◌, refl, subst, Bool, true, false, inl, inr, Option, none, some, List, [],
  ◌∷◌, arith, All, length, Bool-cases,
}
use evalresp.Prelude.Int.{ℤ, leb_ℤ}
use evalresp.Double.{Double}
use evalresp.Channel.{Channel}
use evalresp.DateTime.{DateTime, Calendar}
use evalresp.Filter.{same_channel, loses}
use evalresp.Filter.Names.{same_channel_refl, same_channel_sym, same_channel_trans}
use evalresp.Selection.{contest}
use evalresp.Selection.Winners.{winners}
use evalresp.Selection.Distinct.{AllLeft, contest-AllLeft}

-- A channel of the list has the name of `x`, and stands in `R` to it.
pub data Covered {D : Type 0} (R : Channel D → Channel D → Type 0) (x : Channel D)
    : List (Channel D) → Type 0 where
  here :
      (w : Channel D) (ws : List (Channel D))
      → same_channel x w ≡ true
      → R x w
      → Covered R x (w ∷ ws)
  there : (w : Channel D) (ws : List (Channel D)) → Covered R x ws → Covered R x (w ∷ ws)

AllLeft-map {ℓ κ κ'} :
    {A : Type ℓ} {P : A → Type κ} {Q : A → Type κ'} (l : List (Option A))
    → ((x : A) → P x → Q x)
    → AllLeft P l
    → AllLeft Q l
AllLeft-map [] f h = tt
AllLeft-map (none ∷ l) f h = AllLeft-map l f h
AllLeft-map (some x ∷ l) f h = (f x h.0, AllLeft-map l f h.1)

module _ {D : Type 0} ⦃d : Double D⦄ (cal : Calendar) (date : Option (DateTime D)) where
  module _ (m : Channel D → Bool) (fuel : ℕ) (c : Channel D) (l : List (Option (Channel D))) where
    winners_skip :
        m c ≡ false → winners cal m date fuel l ≡ winners cal m date (suc fuel) (some c ∷ l)
    unfolding winners
    winners_skip e = rw e

    winners_win :
        m c ≡ true
        → (contest cal date c l).best_match ≡ true
        → c ∷ winners cal m date fuel (contest cal date c l).others
          ≡ winners cal m date (suc fuel) (some c ∷ l)
    unfolding winners
    winners_win e b = rw (e, b)

    winners_loss :
        m c ≡ true
        → (contest cal date c l).best_match ≡ false
        → winners cal m date fuel (contest cal date c l).others
          ≡ winners cal m date (suc fuel) (some c ∷ l)
    unfolding winners
    winners_loss e b = rw (e, b)

  length-contest :
      (c : Channel D) (l : List (Option (Channel D)))
      → length (contest cal date c l).others ≡ length l
  unfolding contest
  length-contest c [] = refl
  length-contest c (none ∷ l) = omega (arith, length-contest c l)
  length-contest c (some o ∷ l) = ground (arith, length-contest c l)

  -- What is left is unbeaten; the others lost to the candidate.
  contest-beaten :
      (Q : Channel D → Type 0) (c : Channel D) (l : List (Option (Channel D)))
      → AllLeft (λ o. same_channel c o ≡ true → loses cal date c o ≡ false → Q o) l
      → AllLeft Q (contest cal date c l).others
      → AllLeft Q l
  unfolding contest
  contest-beaten Q c [] b h = tt
  contest-beaten Q c (none ∷ l) b h = contest-beaten Q c l b h
  contest-beaten Q c (some o ∷ l) b h = elim (Bool-cases (same_channel c o)) [
    | inr e ↦ let h' = rw e at h in (h'.0, contest-beaten Q c l b.1 h'.1)
    | inl e ↦ elim (Bool-cases (loses cal date c o)) [
      | inl k ↦ rw (e, k) at h
      | inr k ↦ (b.0 e k, contest-beaten Q c l b.1 (rw (e, k) at h))
    ]
  ]

  -- A candidate that loses does so to a channel that is left.
  contest-lost :
      (Q : Channel D → Type 0) (c : Channel D) (l : List (Option (Channel D)))
      → (contest cal date c l).best_match ≡ false
      → AllLeft Q (contest cal date c l).others
      → (o : Channel D) × (same_channel c o ≡ true) × (loses cal date c o ≡ true) × Q o
  unfolding contest
  contest-lost Q c [] b h = cc
  contest-lost Q c (none ∷ l) b h = contest-lost Q c l b h
  contest-lost Q c (some o ∷ l) b h = elim (Bool-cases (same_channel c o)) [
    | inr e ↦ contest-lost Q c l (rw e at b) (rw e at h).1
    | inl e ↦ elim (Bool-cases (loses cal date c o)) [
      | inl k ↦ (o, e, k, (rw (e, k) at h).0)
      | inr k ↦ contest-lost Q c l (rw (e, k) at b) (rw (e, k) at h)
    ]
  ]

  -- `G` holds of the channels; `R x w` says that `w` is no worse than `x`.
  module _ (m : Channel D → Bool) (G : Channel D → Type 0) (R : Channel D → Channel D → Type 0)
      (R_refl : (x : Channel D) → R x x)
      (R_trans : (x y z : Channel D) → G x → G y → G z → R x y → R y z → R x z)
      (lost : (x o : Channel D)
        → m x ≡ true
        → same_channel x o ≡ true
        → loses cal date x o ≡ true
        → (m o ≡ true) × R x o)
      (won : (x o : Channel D)
        → m o ≡ true
        → same_channel x o ≡ true
        → loses cal date x o ≡ false
        → R o x) where
    abbrev GoodR : Channel D → Channel D → Type 0
    GoodR x w = G w × R x w

    Covered-by :
        (x y : Channel D) (ws : List (Channel D))
        → G x
        → G y
        → same_channel x y ≡ true
        → R x y
        → Covered GoodR y ws
        → Covered GoodR x ws
    Covered-by x y ws gx gy s r (here w vs t p) =
        here w vs (same_channel_trans x y w s t) (p.0, R_trans x y w gx gy p.0 r p.1)
    Covered-by x y ws gx gy s r (there w vs c) = there w vs (Covered-by x y vs gx gy s r c)

    abbrev IsCovered : List (Channel D) → Channel D → Type 0
    IsCovered ws x = G x × (m x ≡ true → Covered GoodR x ws)

    -- The step at a candidate that matches and wins.
    IsCovered-win :
        (c : Channel D) (l : List (Option (Channel D))) (ws : List (Channel D))
        → G c
        → AllLeft G l
        → AllLeft (IsCovered ws) (contest cal date c l).others
        → AllLeft (IsCovered (c ∷ ws)) (some c ∷ l)
    IsCovered-win c l ws gc g ih = (
      (gc, λ _. here c ws (same_channel_refl c) (gc, R_refl c)),
      contest-beaten (IsCovered (c ∷ ws)) c l
          (AllLeft-map l
            (λ o go e k. (go, λ mo. here c ws (same_channel_sym c o e) (gc, won c o mo e k))) g)
          (AllLeft-map (contest cal date c l).others (λ x h. (h.0, λ mx. there c ws (h.1 mx))) ih),
    )

    -- The step at a candidate that matches and loses.
    IsCovered-loss :
        (c : Channel D) (l : List (Option (Channel D))) (ws : List (Channel D))
        → G c
        → m c ≡ true
        → (contest cal date c l).best_match ≡ false
        → AllLeft G l
        → AllLeft (IsCovered ws) (contest cal date c l).others
        → AllLeft (IsCovered ws) (some c ∷ l)
    IsCovered-loss c l ws gc mc b g ih =
        let (o, e, k, io) = contest-lost (IsCovered ws) c l b ih in
        let (mo, r) = lost c o mc e k in
        let cov = Covered-by c o ws gc io.0 e r (io.1 mo) in
        (
          (gc, λ _. cov),
          contest-beaten (IsCovered ws) c l
              (AllLeft-map l
                (λ x gx e k.
                  (gx, λ mx. Covered-by x c ws gx gc (same_channel_sym c x e) (won c x mx e k) cov))
                g)
              ih,
        )

    pub winners-Covered :
        (fuel : ℕ) (l : List (Option (Channel D)))
        → length l ≤ fuel
        → AllLeft G l
        → AllLeft (IsCovered (winners cal m date fuel l)) l
    unfolding winners
    winners-Covered zero [] n g = tt
    winners-Covered (suc fuel) [] n g = tt
    winners-Covered zero (c ∷ l) n g = absurd (omega arith)
    winners-Covered (suc fuel) (none ∷ l) n g = winners-Covered fuel l (omega arith) g
    winners-Covered (suc fuel) (some c ∷ l) n g =
        let others = (contest cal date c l).others in
        let ws = winners cal m date fuel others in
        let ih : AllLeft (IsCovered ws) others =
          winners-Covered fuel others (omega (arith, length-contest c l))
            (contest-AllLeft cal date G c l g.1) in
        elim (Bool-cases (m c)) [
          | inr e ↦
              subst (λ vs. AllLeft (IsCovered vs) (some c ∷ l)) (winners_skip m fuel c l e)
                ((g.0, λ k. cc), winners-Covered fuel l (omega arith) g.1)
          | inl e ↦ elim (Bool-cases (contest cal date c l).best_match) [
            | inl b ↦
                subst (λ vs. AllLeft (IsCovered vs) (some c ∷ l)) (winners_win m fuel c l e b)
                  (IsCovered-win c l ws g.0 g.1 ih)
            | inr b ↦
                subst (λ vs. AllLeft (IsCovered vs) (some c ∷ l)) (winners_loss m fuel c l e b)
                  (IsCovered-loss c l ws g.0 e b g.1 ih)
          ]
        ]

pub leb_ℤ_refl : (a : ℤ) → leb_ℤ a a ≡ true
leb_ℤ_refl a = ground arith

pub leb_ℤ_trans : (a b c : ℤ) → leb_ℤ a b ≡ true → leb_ℤ b c ≡ true → leb_ℤ a c ≡ true
leb_ℤ_trans a b c h k = ground arith

pub leb_ℤ_total : (a b : ℤ) → leb_ℤ a b ≡ false → leb_ℤ b a ≡ true
leb_ℤ_total a b h = ground arith

pub All-unit {ℓ} : {A : Type ℓ} (l : List A) → All (λ _. Unit {0}) l
All-unit [] = tt
All-unit (x ∷ l) = (tt, All-unit l)
