-- ===== src/Check/Sound.antt =====
-- What the loop over the blockettes of a stage keeps, where no list or polynomial is among them.
use evalresp.Prelude.{
  ℕ, zero, suc, ◌≡◌, refl, Bool, true, false, not, ◌&&◌, ◌||◌, Option, none, some, List, [], ◌∷◌,
  ◌++◌, arith, if◌then◌else◌,
}
use evalresp.Status.{Status}
use evalresp.Double.{Double}
use evalresp.Channel.{
  Blkt, undef_filt, pole_zero, laplace, analog, iir, fir, list, generic, decimation, gain,
  reference, fir_coeffs, iir_coeffs, polynomial,
}
use evalresp.Merge.{merge_run, merge_coeffs}
use evalresp.Checked.{checked, failed, Ensures, Ensures-bind}
use evalresp.Check.Scan.{StageType, Scan, Place, handle_blkt, scan_from, is_gain_type}
use evalresp.Check.Stage.{needs_decimation}
use evalresp.Calc.Fed.{is_digital, starts_decimation, is_fed, none_digital, is_plain, all_plain}

module _ {D : Type 0} where
  abbrev pub is_deci : Option (Blkt D) → Bool
  is_deci none = true
  is_deci (some b) = starts_decimation (b ∷ [])

  abbrev pub no_digital : Option (Blkt D) → Bool
  no_digital none = true
  no_digital (some b) = not (is_digital b)

  -- What holds of the variables of the loop over a stage without lists and polynomials.
  pub record Sound (s : Scan D) : Type 0 where
    pub deci : is_deci s.deci ≡ true
    pub gain : no_digital s.gain_blkt ≡ true
    pub ref : no_digital s.ref ≡ true
    pub filt : no_digital s.filt || needs_decimation s.stage_type ≡ true
    pub seen : none_digital s.seen || needs_decimation s.stage_type ≡ true

  none_digital-++ :
      (a b : List (Blkt D))
      → none_digital a ≡ true
      → none_digital b ≡ true
      → none_digital (a ++ b) ≡ true
  none_digital-++ [] b h k = k
  none_digital-++ (x ∷ a) b h k = let ih = none_digital-++ a b in ground arith

  pub none_digital-is_fed : (a : List (Blkt D)) → none_digital a ≡ true → is_fed a ≡ true
  none_digital-is_fed [] h = refl
  none_digital-is_fed (x ∷ a) h = let ih = none_digital-is_fed a in ground arith

  -- What a merge leaves is a part of what comes next.
  merge_run-plain :
      (m : Blkt D → Blkt D → Status × Blkt D) (b : Blkt D) (next : List (Blkt D))
      → all_plain next ≡ true
      → all_plain (merge_run m b next).2 ≡ true
  unfolding merge_run
  merge_run-plain m b [] h = refl
  merge_run-plain m b (n ∷ next) h = let ih = merge_run-plain m (m b n).1 next in ground arith

pub gain_type-digital : (t : StageType) → is_gain_type t ≡ true → needs_decimation t ≡ false
gain_type-digital t h = ground arith

pub accepted {ℓ} :
    {A : Type ℓ} (P : A → Type 0) (v : Status) (a : A) (refuse : Bool)
    → P a
    → Ensures P (if refuse then failed v else checked a)
accepted P v a true h = tt
accepted P v a false h = h

pub refused {ℓ} :
    {A : Type ℓ} (P : A → Type 0) (v : Status) (a : A) (b c : Bool)
    → c ≡ true
    → Ensures P (if b || c then failed v else checked a)
refused P v a true c h = tt
refused P v a false c h = rw h tt

pub missing : (a b : Bool) → a || not b ≡ false → b && not a ≡ true
missing a b h = ground arith

module _ {D : Type 0} ⦃d : Double D⦄ where
  handle_blkt-Sound :
      (p : Place D) (s : Scan D) (b : Blkt D) (next : List (Blkt D))
      → Sound s
      → is_plain b && all_plain next ≡ true
      → Ensures (λ r. Sound r.0 × (all_plain r.1 ≡ true)) (handle_blkt p s b next)
  unfolding handle_blkt
  handle_blkt-Sound p s undef_filt next h k = tt
  handle_blkt-Sound p s (gain b) next h k =
      let a = none_digital-++ s.seen (gain b ∷ []) in ground arith
  handle_blkt-Sound p s (decimation b) next h k =
      let a = none_digital-++ s.seen (decimation b ∷ []) in ground arith
  handle_blkt-Sound p s (reference b) next h k =
      let a = none_digital-++ s.seen (reference b ∷ []) in ground arith
  handle_blkt-Sound p s (generic b) next h k =
      let a = none_digital-++ s.seen (generic b ∷ []) in ground arith
  handle_blkt-Sound p s (pole_zero laplace b) next h k =
      let a = none_digital-++ s.seen (pole_zero laplace b ∷ []) in ground arith
  handle_blkt-Sound p s (pole_zero analog b) next h k =
      let a = none_digital-++ s.seen (pole_zero analog b ∷ []) in ground arith
  handle_blkt-Sound p s (pole_zero iir b) next h k = ground arith
  handle_blkt-Sound p s (iir_coeffs b) next h k = ground arith
  handle_blkt-Sound p s (fir_coeffs b) next h k = tt
  handle_blkt-Sound p s (list b) next h k = ground arith
  handle_blkt-Sound p s (polynomial b) next h k = ground arith
  handle_blkt-Sound p s (fir t b) next h k =
      let a = merge_run-plain merge_coeffs (fir t b) next in ground arith

  pub scan_from-Sound :
      (fuel : ℕ) (p : Place D) (s : Scan D) (bs : List (Blkt D))
      → Sound s
      → all_plain bs ≡ true
      → Ensures Sound (scan_from fuel p s bs)
  unfolding scan_from
  scan_from-Sound zero p s [] h k = h
  scan_from-Sound (suc fuel) p s [] h k = h
  scan_from-Sound zero p s (b ∷ next) h k = tt
  scan_from-Sound (suc fuel) p s (b ∷ next) h k =
      Ensures-bind (λ r. Sound r.0 × (all_plain r.1 ≡ true)) Sound (handle_blkt p s b next) _
        (handle_blkt-Sound p s b next h k) (λ r i. scan_from-Sound fuel p r.0 r.1 i.0 i.1)
