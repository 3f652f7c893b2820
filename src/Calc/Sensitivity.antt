-- ===== src/Calc/Sensitivity.antt =====
-- The loop of normalize_response (libsrc/evalresp/calc_fctns.c) over the stages, and the function.
use evalresp.Prelude.{
  ℕ, suc, Bool, true, false, not, ◌||◌, Option, none, some, List, [], ◌∷◌, ◌++◌, if◌then◌else◌,
  ◌==◌, drop, length,
}
use evalresp.Prelude.Int.{ℤ, pos, eqb_ℤ}
use evalresp.Status.{val}
use evalresp.Double.{Double}
use evalresp.Channel.{Gain, Stage, Channel, Blkt, pole_zero, gain}
use evalresp.Options.{Options}
use evalresp.Checked.{Checked, checked, failed, undefined, ◌>>=◌}
use evalresp.Calc.Trans.{lit, at}
use evalresp.Calc.Normalize.{
  Norm, set_at, is_main, require_gain, any_zero_gain, last_freq_of, renormalize,
}
use evalresp.Calc.Respond.{is_skipped_stage}

module _ {D : Type 0} ⦃d : Double D⦄ where
  -- A filter of poles and zeros whose factor is for another frequency.
  pz_elsewhere : D → Blkt D → Bool
  pz_elsewhere f (pole_zero t p) = not (d.eq p.a0_freq f)
  pz_elsewhere f b = false

  -- The gain and the blockettes before it, after the change to the frequency `f`.
  unfoldable pub moved_by :
      D → Gain D → List (Blkt D) → ℕ → Option (D × D × Blkt D) → Gain D × List (Blkt D)
  moved_by f g done i none = (g, done)
  moved_by f g done i (some (df, of_, b)) =
      (record { gain = d.mul (d.div g.gain df) of_; gain_freq = f }, set_at done i b)

  -- The branch for a gain that is to be moved, where the last argument says that it is.
  unfoldable pub moved_when :
      D
      → Gain D
      → List (Blkt D)
      → List (Blkt D)
      → ℕ
      → Blkt D
      → Bool
      → Checked (Gain D × List (Blkt D))
  unfolding moved_by
  moved_when f g done rest i b false = checked (g, done)
  moved_when f g done rest i b true = do
    r ← renormalize f g.gain_freq b (drop (suc i) (done ++ gain g ∷ rest))
    checked (moved_by f g done i r)

  unfoldable pub moved_at :
      D
      → Gain D
      → List (Blkt D)
      → List (Blkt D)
      → ℕ
      → Option (Blkt D)
      → Checked (Gain D × List (Blkt D))
  unfolding pz_elsewhere
  moved_at f g done rest i none = undefined
  moved_at f g done rest i (some b) =
      moved_when f g done rest i b (not (d.eq g.gain_freq f) || pz_elsewhere f b)

  unfoldable pub moved :
      D → Gain D → List (Blkt D) → List (Blkt D) → Option ℕ → Checked (Gain D × List (Blkt D))
  unfolding moved_at
  moved f g done rest none = checked (g, done)
  moved f g done rest (some i) = moved_at f g done rest i (at done i)

  -- chan->calc_sensit, and chan->sensit where the channel has one stage
  summed : Bool → Channel D → Gain D → Channel D
  summed single chan g =
      let product = d.mul chan.calc_sensit g.gain in
      record chan { calc_sensit = product; sensit = if single then product else chan.sensit }

  -- case GAIN
  unfoldable pub norm_gain : D → Bool → ℤ → Norm D → Gain D → List (Blkt D) → Checked (Norm D)
  unfolding summed
  norm_gain f single seq s g rest =
      if eqb_ℤ seq (pos 0) then checked (record s { done = s.done ++ gain g ∷ [] }) else do
        (g', done') ← moved f g s.done rest s.main_filt
        checked (record s { done = done' ++ gain g' ∷ []; chan = summed single s.chan g' })

  -- Every other type.
  unfoldable pub norm_other : Norm D → Blkt D → Norm D
  norm_other s b = record s {
    done = s.done ++ b ∷ [];
    main_filt = if is_main b then some (length s.done) else s.main_filt;
  }

  unfoldable pub norm_blkts : D → Bool → ℤ → Norm D → List (Blkt D) → Checked (Norm D)
  unfolding norm_gain norm_other
  norm_blkts f single seq s [] = checked s
  norm_blkts f single seq s (gain g ∷ rest) = do
    s' ← norm_gain f single seq s g rest
    norm_blkts f single seq s' rest
  norm_blkts f single seq s (b ∷ rest) = norm_blkts f single seq (norm_other s b) rest

  unfoldable pub norm_stages :
      Options D → D → Bool → Channel D → List (Stage D) → Checked (Channel D × List (Stage D))
  unfolding norm_blkts
  norm_stages o f single chan [] = checked (chan, [])
  norm_stages o f single chan (st ∷ ss) =
      if is_skipped_stage o st
      then (do (chan', ss') ← norm_stages o f single chan ss; checked (chan', st ∷ ss'))
      else do
        s ←
            norm_blkts f single st.sequence_no (record { done = []; main_filt = none; chan = chan })
              st.blkts
        (chan', ss') ← norm_stages o f single s.chan ss
        checked (chan', record st { blkts = s.done } ∷ ss')

  -- The channel that the loop starts with.
  unfoldable pub with_sensfreq : Channel D → Channel D
  with_sensfreq chan = record chan {
    sensfreq =
        if d.eq chan.sensit (lit 0) then last_freq_of chan.sensfreq chan.stages else chan.sensfreq;
    calc_sensit = lit 1;
  }

  -- The loop over the stages.
  unfoldable pub normalize_gains : Options D → Channel D → Checked (Channel D)
  unfolding norm_stages
  normalize_gains o c = do
    (c', ss) ← norm_stages o c.sensfreq (length c.stages == 1) c c.stages
    checked (record c' { stages = ss })

  unfoldable pub normalize_response : Options D → Channel D → Checked (Channel D)
  unfolding normalize_gains with_sensfreq require_gain
  normalize_response o chan = do
    c ← require_gain chan chan.stages
    if any_zero_gain c.stages then failed val else normalize_gains o (with_sensfreq c)
