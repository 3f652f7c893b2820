-- ===== src/Tests/Sensitive.antt =====
-- Normalizing the gains of a channel.
use evalresp.Prelude.{◌≡◌, refl, true, [], ◌∷◌}
use evalresp.Prelude.Int.{ℤ, pos, ◌+ℤ◌, ◌-ℤ◌, ◌*ℤ◌}
use evalresp.Channel.{sym_1, Channel, fir, decimation, gain}
use evalresp.Options.{evalresp_new_options}
use evalresp.Checked.{checked}
use evalresp.Calc.Trans.{at}
use evalresp.Calc.Filters.{fir_sym_trans}
use evalresp.Calc.Normalize.{any_zero_gain, renormalize, set_at}
use evalresp.Calc.Respond.{calculate_response, is_skipped_stage}
use evalresp.Calc.Reads.{is_defined}
use evalresp.Calc.Sensitivity.{moved, moved_when, normalize_response}
use evalresp.Calc.Ready.{calculate_response-normalize_response}
use evalresp.Tests.Whole.{whole}
use evalresp.Tests.Stages.{every_second, fir_stage, sampled_checked, ten}

-- A channel whose sensitivity is reported for another frequency than its gain.
abbrev reported : Channel ℤ
reported = record sampled_checked { sensit = pos 5; sensfreq = pos 2 }

abbrev moved_gain : Channel ℤ
moved_gain = record reported {
  sensit = pos 10;
  calc_sensit = pos 10;
  stages =
      fir_stage (
        fir sym_1 (record { coeffs = pos 0 ∷ pos 1 ∷ []; h0 = pos 1 })
        ∷ decimation every_second
        ∷ gain (record ten { gain_freq = pos 2 })
        ∷ [])
      ∷ [];
}

normalize_reported : normalize_response evalresp_new_options reported ≡ checked moved_gain
unfolding normalize_response evalresp_new_options ◌+ℤ◌ ◌-ℤ◌ ◌*ℤ◌ any_zero_gain is_skipped_stage
    moved at moved_when renormalize fir_sym_trans set_at
normalize_reported = refl

calculate_response-normalize_response_example :
    is_defined (calculate_response evalresp_new_options moved_gain (pos 1 ∷ pos 2 ∷ [])) ≡ true
calculate_response-normalize_response_example =
    calculate_response-normalize_response evalresp_new_options reported moved_gain
      (pos 1 ∷ pos 2 ∷ []) refl (refl, tt) (refl, tt) normalize_reported
