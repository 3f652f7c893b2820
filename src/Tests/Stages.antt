-- ===== src/Tests/Stages.antt =====
-- Checking the stages of a channel, and calculating its response.
use evalresp.Prelude.{◌≡◌, refl, true, List, [], ◌∷◌, All}
use evalresp.Prelude.Int.{ℤ, pos, ◌+ℤ◌, ◌-ℤ◌, ◌*ℤ◌}
use evalresp.CString.{codes}
use evalresp.Channel.{
  Units, sym_1, asym, Decimation, Gain, Stage, Channel, Blkt, fir, decimation, gain,
}
use evalresp.Options.{evalresp_new_options}
use evalresp.Checked.{checked}
use evalresp.Check.Stage.{check_channel}
use evalresp.Check.Fed.{check_channel-fed}
use evalresp.Calc.Fed.{is_fed}
use evalresp.Calc.Respond.{calculate_response}
use evalresp.Calc.Reads.{is_defined}
use evalresp.Calc.Defined.{calculate_response-is_defined}
use evalresp.Tests.Whole.{whole}
use evalresp.Tests.Data.{channel}

abbrev pub every_second : Decimation ℤ
every_second = record {
  sample_int = pos 1;
  deci_fact = pos 2;
  deci_offset = pos 0;
  estim_delay = pos 3;
  applied_corr = pos 4;
}

abbrev pub ten : Gain ℤ
ten = record { gain = pos 10; gain_freq = pos 1 }

abbrev pub fir_stage : List (Blkt ℤ) → Stage ℤ
fir_stage blkts = record {
  sequence_no = pos 1;
  input_units = Units.vel;
  output_units = Units.counts;
  input_units_str = [];
  output_units_str = [];
  blkts = blkts;
}

-- A filter of three weights with its gain first, and with the blockettes in their order.
abbrev pub gain_first : Stage ℤ
gain_first = fir_stage (
    gain ten
    ∷ fir asym (record { coeffs = pos 0 ∷ pos 1 ∷ pos 0 ∷ []; h0 = pos 1 })
    ∷ decimation every_second
    ∷ [])

abbrev pub sampled : Channel ℤ
sampled = record (channel (codes "ANMO") (codes "2000,001") (codes "2005,001")) {
  stages = gain_first ∷ [];
}

abbrev pub sampled_checked : Channel ℤ
sampled_checked = record sampled {
  calc_delay = pos 2;
  estim_delay = pos 3;
  applied_corr = pos 4;
  sint = pos 2;
  stages =
      fir_stage (
        fir sym_1 (record { coeffs = pos 0 ∷ pos 1 ∷ []; h0 = pos 1 })
        ∷ decimation every_second
        ∷ gain ten
        ∷ [])
      ∷ [];
}

check_sampled : check_channel sampled ≡ checked sampled_checked
unfolding check_channel ◌+ℤ◌ ◌-ℤ◌ ◌*ℤ◌
check_sampled = refl

check_channel-fed_example : All (λ st. is_fed st.blkts ≡ true) sampled_checked.stages
check_channel-fed_example = check_channel-fed sampled sampled_checked (refl, tt) check_sampled

calculate_response-is_defined_example :
    is_defined (calculate_response evalresp_new_options sampled_checked (pos 1 ∷ pos 2 ∷ [])) ≡ true
calculate_response-is_defined_example =
    calculate_response-is_defined evalresp_new_options sampled_checked (pos 1 ∷ pos 2 ∷ []) refl
      (refl, tt) (refl, tt)
