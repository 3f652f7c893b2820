-- ===== src/Check/Stage.antt =====
-- The rest of check_channel (libsrc/evalresp/resp_fctns.c): what follows the loop over a stage's
-- blockettes, and the loop over the stages.
use evalresp.Prelude.{
  Bool, true, false, not, ◌&&◌, ◌||◌, Option, none, some, List, [], ◌∷◌, ◌++◌, if◌then◌else◌, ◌==◌,
  length,
}
use evalresp.Prelude.Int.{ℤ, pos, eqb_ℤ}
use evalresp.Status.{val}
use evalresp.Double.{Double}
use evalresp.Channel.{Units, units_code, Stage, Channel, Blkt, gain}
use evalresp.Checked.{Checked, checked, failed, undefined, ◌>>=◌}
use evalresp.Check.Scan.{
  StageType, undef_stage, pz_type, iir_type, fir_type, list_type, iir_coeffs_type, is_gain_type,
  is_some, Scan, Place, handle_blkt, scan_from,
}

same_units : Units → Units → Bool
same_units a b = units_code a == units_code b

-- The stage types whose units must fit the stage before.
abbrev pub checks_units : StageType → Bool
checks_units pz_type = true
checks_units fir_type = true
checks_units iir_type = true
checks_units iir_coeffs_type = true
checks_units list_type = true
checks_units _ = false

abbrev pub needs_decimation : StageType → Bool
needs_decimation iir_type = true
needs_decimation fir_type = true
needs_decimation iir_coeffs_type = true
needs_decimation _ = false

module _ {D : Type 0} ⦃d : Double D⦄ where
  unit_gain : Blkt D
  unit_gain = gain (record { gain = d.of_int (pos 1); gain_freq = d.of_int (pos 1) })

  unfoldable pub gain_or_unit : Option (Blkt D) → Blkt D
  unfolding unit_gain
  gain_or_unit none = unit_gain
  gain_or_unit (some g) = g

  -- The blockettes of a stage in their order. A stage of REFERENCE blockettes alone has no filter to
  -- link: the code dereferences NULL or links in the filter of another stage. This is `none`.
  unfoldable pub reorder : Scan D → Option (List (Blkt D))
  unfolding gain_or_unit
  reorder s =
      let g = gain_or_unit s.gain_blkt in
      elim s.ref [
        | some r ↦ elim s.filt [
          | none ↦ none
          | some f ↦ elim s.deci [
            | some x ↦ some (r ∷ f ∷ x ∷ g ∷ [])
            | none ↦ some (r ∷ f ∷ g ∷ [])
          ]
        ]
        | none ↦ elim s.deci [
          | some x ↦ elim s.filt [ none ↦ none | some f ↦ some (f ∷ x ∷ g ∷ []) ]
          | none ↦ elim s.gain_blkt [
            | none ↦ some s.seen
            | some g ↦ elim s.filt [ none ↦ none | some f ↦ some (f ∷ g ∷ []) ]
          ]
        ]
      ]

  units_mismatch : Option Units → Stage D → Bool
  unfolding same_units
  units_mismatch none stage = false
  units_mismatch (some u) stage = not (same_units u stage.input_units)

  -- The blockettes that the stage is left with, where it is not refused for undefined units.
  unfoldable pub ordered : Stage D → Scan D → Checked (List (Blkt D))
  unfolding same_units reorder
  ordered stage s =
      if is_gain_type s.stage_type
      then checked s.seen
      else if same_units stage.input_units Units.undef_units
          || same_units stage.output_units Units.undef_units
      then failed val
      else elim (reorder s) [ none ↦ undefined | some bs ↦ checked bs ]

  -- The checks behind the loop over a stage's blockettes.
  unfoldable pub finish_stage : Place D → Scan D → Checked (Stage D)
  unfolding ordered units_mismatch
  finish_stage p s = do
    bs ← ordered p.stage s
    if (checks_units s.stage_type && units_mismatch p.prev_units p.stage)
          || (needs_decimation s.stage_type && not (is_some s.deci))
        then failed val
        else checked (record p.stage { blkts = bs })

  start_scan : Channel D → ℤ → Scan D
  start_scan chan nc = record {
    chan = chan;
    stage_type = undef_stage;
    filt = none;
    deci = none;
    gain_blkt = none;
    ref = none;
    nc = nc;
    seen = [];
  }

  -- Scan and finish one stage.
  unfoldable pub check_stage : Place D → Channel D → ℤ → Checked (Stage D × Scan D)
  unfolding scan_from start_scan finish_stage handle_blkt
  check_stage p chan nc = do
    s ← scan_from (length p.stage.blkts) p (start_scan chan nc) p.stage.blkts
    stage ← finish_stage p s
    checked (stage, s)

  -- prev_stage after a stage
  pub next_prev : Option Units → Stage D → StageType → Option Units
  next_prev prev stage t =
      if is_gain_type t || eqb_ℤ stage.sequence_no (pos 0) then prev else some stage.output_units

  unfoldable pub check_stages :
      Channel D → List (Stage D) → List (Stage D) → Option Units → ℤ → Checked (Channel D)
  unfolding check_stage next_prev
  check_stages chan before [] prev nc = checked (record chan { stages = before })
  check_stages chan before (stage ∷ after) prev nc = do
    (stage', s) ←
        check_stage (record { before = before; stage = stage; after = after; prev_units = prev })
          chan nc
    check_stages s.chan (before ++ stage' ∷ []) after (next_prev prev stage s.stage_type) s.nc

  unfoldable pub check_channel : Channel D → Checked (Channel D)
  unfolding check_stages
  check_channel chan = check_stages chan [] chan.stages none (pos 0)
