-- ===== src/Calc/Normalize.antt =====
-- normalize_response of libsrc/evalresp/calc_fctns.c, which moves the gains of a channel to the
-- frequency of its sensitivity and multiplies them. Its warning at the end is left out.
use evalresp.Prelude.{
  ℕ, zero, suc, Bool, true, false, not, ◌&&◌, ◌||◌, Option, none, some, List, [], ◌∷◌, ◌++◌,
  if◌then◌else◌,
}
use evalresp.CString.{is_empty}
use evalresp.Status.{val}
use evalresp.Double.{Double}
use evalresp.Channel.{
  Complex, iir, asym, Stage, Channel, Blkt, pole_zero, fir, gain, iir_coeffs, polynomial,
}
use evalresp.Checked.{Checked, checked, failed, undefined, ◌>>=◌}
use evalresp.Check.Scan.{is_gain}
use evalresp.Calc.Trans.{lit, num}
use evalresp.Calc.Filters.{
  analog_trans, fir_sym_trans, fir_asym_trans, iir_pz_trans, iir_trans, modulus,
}

-- Replace the element at a place.
unfoldable pub set_at : {A : Type 0} → List A → ℕ → A → List A
set_at [] i b = []
set_at (a ∷ rest) zero b = b ∷ rest
set_at (a ∷ rest) (suc i) b = a ∷ set_at rest i b

-- The loop over a stage's blockettes: those behind it with their changes, the place of main_filt among
-- them where main_type is set, and the channel.
pub record Norm (D : Type 0) : Type 0 where
  pub done : List (Blkt D)
  pub main_filt : Option ℕ
  pub chan : Channel D

module _ {D : Type 0} where
  -- `last_fil` is POLYNOMIAL after a loop without a gain.
  ends_polynomial : Blkt D → List (Blkt D) → Bool
  ends_polynomial (polynomial p) [] = true
  ends_polynomial b [] = false
  ends_polynomial b (c ∷ rest) = ends_polynomial c rest

  has_gain : List (Blkt D) → Bool
  has_gain [] = false
  has_gain (b ∷ rest) = is_gain b || has_gain rest

  -- Whether a stage needs a gain; undefined without a blockette, where last_fil is NULL.
  unfoldable pub lacks_gain : List (Blkt D) → Checked Bool
  unfolding ends_polynomial has_gain
  lacks_gain [] = undefined
  lacks_gain (b ∷ rest) = checked (not (has_gain (b ∷ rest)) && not (ends_polynomial b rest))

  -- The types that set main_filt.
  abbrev pub is_main : Blkt D → Bool
  is_main (pole_zero t p) = true
  is_main (fir t f) = true
  is_main (polynomial p) = true
  is_main (iir_coeffs c) = true
  is_main _ = false

module _ {D : Type 0} ⦃d : Double D⦄ where
  unfoldable pub with_gain : Channel D → Stage D → Stage D
  with_gain chan s = record s {
    blkts = s.blkts ++ gain (record { gain = chan.sensit; gain_freq = chan.sensfreq }) ∷ [];
  }

  -- TEST 1: a channel of one or two stages has a gain or a sensitivity.
  unfoldable pub require_gain : Channel D → List (Stage D) → Checked (Channel D)
  unfolding lacks_gain with_gain
  require_gain chan (s ∷ []) = do
    lacks ← lacks_gain s.blkts
    if lacks then failed val else checked chan
  require_gain chan (s ∷ t ∷ []) = do
    lacks ← lacks_gain s.blkts
    if lacks
        then (if d.eq chan.sensit (lit 0)
            then failed val
            else checked (record chan { stages = with_gain chan s ∷ t ∷ [] }))
        else checked chan
  require_gain chan _ = checked chan

  zero_gain : List (Blkt D) → Bool
  zero_gain [] = false
  zero_gain (gain g ∷ rest) = d.eq g.gain (lit 0) || zero_gain rest
  zero_gain (b ∷ rest) = zero_gain rest

  unfoldable pub any_zero_gain : List (Stage D) → Bool
  unfolding zero_gain
  any_zero_gain [] = false
  any_zero_gain (s ∷ ss) = zero_gain s.blkts || any_zero_gain ss

  -- The last gain frequency that is not 0, or `f`.
  last_freq : D → List (Blkt D) → D
  last_freq f [] = f
  last_freq f (gain g ∷ rest) = last_freq (if d.eq g.gain_freq (lit 0) then f else g.gain_freq) rest
  last_freq f (b ∷ rest) = last_freq f rest

  unfoldable pub last_freq_of : D → List (Stage D) → D
  unfolding last_freq
  last_freq_of f [] = f
  last_freq_of f (s ∷ ss) = last_freq_of (last_freq f s.blkts) ss

  size : Complex D → D
  unfolding modulus
  size c = modulus c.real c.imag

  is_zero : Complex D → Bool
  is_zero c = d.eq c.real (lit 0) && d.eq c.imag (lit 0)

  -- A filter with its factor set to `a` (a0 or h0), and a0_freq to `f`.
  unfoldable pub with_factor : D → D → Blkt D → Blkt D
  with_factor a f (pole_zero t p) = pole_zero t (record p { a0 = a; a0_freq = f })
  with_factor a f (fir t x) = fir t (record x { h0 = a })
  with_factor a f (iir_coeffs c) = iir_coeffs (record c { h0 = a })
  with_factor a f b = b

  unfoldable pub sizes :
      D → Blkt D → Option (Complex D) → Option (Complex D) → Checked (Option (D × D × Blkt D))
  unfolding with_factor size
  sizes f b none of_ = undefined
  sizes f b (some df) none = undefined
  sizes f b (some df) (some of_) =
      checked (some (size df, size of_, with_factor (d.div (lit 1) (size of_)) f b))

  unfoldable pub refuse_zero : {A : Type 0} → Complex D → Complex D → Checked A → Checked A
  unfolding is_zero
  refuse_zero df of_ m = if is_zero df || is_zero of_ then failed val else m

  -- The transfer functions at the frequency of the gain and at `f`; none where reset_gain is 0.
  unfoldable pub renormalize : D → D → Blkt D → List (Blkt D) → Checked (Option (D × D × Blkt D))
  unfolding sizes refuse_zero
  renormalize f gain_freq (pole_zero iir p) next =
      let q = record p { a0 = lit 1 } in
      let w = d.mul (d.mul (num 2) d.pi) f in
      let wg = d.mul (d.mul (num 2) d.pi) gain_freq in
      sizes f (pole_zero iir p) (iir_pz_trans q next wg) (iir_pz_trans q next w)
  renormalize f gain_freq (pole_zero t p) next =
      let q = record p { a0 = lit 1 } in
      let df = analog_trans t q gain_freq in
      let of_ = analog_trans t q f in
      refuse_zero df of_ (sizes f (pole_zero t p) (some df) (some of_))
  renormalize f gain_freq (fir asym x) next =
      let q = record x { h0 = lit 1 } in
      let w = d.mul (d.mul (num 2) d.pi) f in
      let wg = d.mul (d.mul (num 2) d.pi) gain_freq in
      if is_empty x.coeffs
      then checked none
      else sizes f (fir asym x) (fir_asym_trans q next wg) (fir_asym_trans q next w)
  renormalize f gain_freq (fir t x) next =
      let q = record x { h0 = lit 1 } in
      let w = d.mul (d.mul (num 2) d.pi) f in
      let wg = d.mul (d.mul (num 2) d.pi) gain_freq in
      if is_empty x.coeffs
      then checked none
      else sizes f (fir t x) (fir_sym_trans t q next wg) (fir_sym_trans t q next w)
  renormalize f gain_freq (iir_coeffs c) next =
      let q = record c { h0 = lit 1 } in
      let w = d.mul (d.mul (num 2) d.pi) f in
      let wg = d.mul (d.mul (num 2) d.pi) gain_freq in
      sizes f (iir_coeffs c) (iir_trans q next wg) (iir_trans q next w)
  renormalize f gain_freq b next = checked none
