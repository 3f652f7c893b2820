-- ===== src/Tests/Evaluating.antt =====
-- Options, printed lines and responses.
use evalresp.Prelude.{
  true, ◌≡◌, ◌≤◌, ◌⊎◌, refl, arith, Option, none, some, List, [], ◌∷◌, ◌++◌, length, map,
}
use evalresp.Prelude.Int.{ℤ, pos, ◌+ℤ◌, ◌-ℤ◌, ◌*ℤ◌}
use evalresp.CString.{Str, codes, toupper, atoi}
use evalresp.Status.{ok, inp}
use evalresp.Channel.{Channel, ListInfo, list, gain}
use evalresp.Checked.{Checked, checked, failed, undefined, Ensures}
use evalresp.Options.{Options, OutUnit, evalresp_new_options}
use evalresp.Options.Set.{units, evalresp_set_unit}
use evalresp.Options.Named.{Named, evalresp_set_unit-Named}
use evalresp.RegExp.{is_int}
use evalresp.Calc.Normalize.{any_zero_gain}
use evalresp.Calc.Respond.{is_skipped_stage, eval_blkt}
use evalresp.Calc.Sensitivity.{moved}
use evalresp.Calc.Trans.{calc_list}
use evalresp.Reader.{read_line}
use evalresp.Reader.Print.{printed, read_line-printed}
use evalresp.Frequencies.{
  is_block_55, drop_while, restrict_frequency_range, calculate_default_freqs,
}
use evalresp.Evaluation.Restored.{evalresp_channel_to_response-list_of}
use evalresp.Evaluation.{
  list_of, Evaluated, evalresp_channel_to_response, evalresp_channels_to_responses,
}
use evalresp.Evaluation.Interpolate.{Spline, interpolate_list_blockette}
use evalresp.Evaluation.Cubic.{Cubic, spline_interpolate}
use evalresp.Evaluation.Lengths.{interpolate_list_blockette-length}
use evalresp.Evaluation.Answers.{
  AreFreqs, evalresp_channel_to_response-AreFreqs, evalresp_channels_to_responses-length,
}
use evalresp.Tests.Whole.{whole, simple, simple_exec}
use evalresp.Tests.Data.{channel}
use evalresp.Tests.Stages.{fir_stage, ten}

abbrev label : Str
label = codes "  Station"

abbrev station_line : Str
station_line =
    printed (b'0', b'5', b'0') (b'0', b'3') label (codes "ANMO") ++ 10 ∷ codes "B050F16 Network: IU"

read_line-printed_example : read_line simple station_line (codes ":") ≡ record {
  pref = record {
    status = ok;
    blkt_no = some (atoi (codes "050"));
    fld_no = some (atoi (codes "03"));
  };
  line = codes "ANMO";
  rest = codes "B050F16 Network: IU";
}
unfolding simple_exec is_int
read_line-printed_example =
    read_line-printed simple b'0' b'5' b'0' b'0' b'3' label (codes "ANMO")
      (codes "B050F16 Network: IU") refl refl refl refl (λ h. cc) refl (omega arith)

abbrev pub defaults : Options ℤ
defaults = evalresp_new_options

evalresp_set_unit-Named_example :
    ((u : OutUnit) × (evalresp_set_unit defaults (codes "acc") ≡ (ok, record defaults { unit = u }))
      × Named (map toupper (codes "acc")) units u)
    ⊎ ((evalresp_set_unit defaults (codes "acc") ≡ (inp, defaults))
        × ((u : OutUnit) → ¬ Named (map toupper (codes "acc")) units u))
evalresp_set_unit-Named_example = evalresp_set_unit-Named defaults (codes "acc")

-- Values at the asked places that stand for the curve.
abbrev pub copied : Spline ℤ
copied t y xs = checked xs

abbrev three_points : ListInfo ℤ
three_points = record {
  freq = pos 1 ∷ pos 2 ∷ pos 3 ∷ [];
  amp = pos 4 ∷ pos 5 ∷ pos 6 ∷ [];
  phase = pos 0 ∷ pos 200 ∷ pos 400 ∷ [];
}

interpolated :
    interpolate_list_blockette 10 copied three_points (pos 2 ∷ pos 3 ∷ pos 7 ∷ [])
    ≡ checked
        (record { freq = pos 2 ∷ pos 3 ∷ []; amp = pos 2 ∷ pos 3 ∷ []; phase = pos 2 ∷ pos 3 ∷ [] })
unfolding interpolate_list_blockette ◌+ℤ◌ ◌-ℤ◌ ◌*ℤ◌
interpolated = refl

-- A curve that has the abscissa for its value.
abbrev flat : Cubic ℤ
flat = record { set = λ t y. some y; val = λ t y ypp x. x }

interpolate_list_blockette-length_example :
    Ensures
      (λ r. (length r.amp ≡ length r.freq) × (length r.phase ≡ length r.freq))
      (interpolate_list_blockette 10
        (spline_interpolate flat)
        three_points
        (pos 2 ∷ pos 3 ∷ pos 7 ∷ []))
interpolate_list_blockette-length_example =
    interpolate_list_blockette-length 10 (spline_interpolate flat) three_points
      (pos 2 ∷ pos 3 ∷ pos 7 ∷ [])

abbrev listed : Channel ℤ
listed = record (channel (codes "ANMO") (codes "2000,001") (codes "2005,001")) {
  stages = fir_stage (list three_points ∷ gain ten ∷ []) ∷ [];
}

freqs_of : Checked (Evaluated ℤ) → Option (List ℤ)
freqs_of (checked e) = some e.response.freqs
freqs_of (failed s) = none
freqs_of undefined = none

listed_freqs :
    freqs_of (evalresp_channel_to_response 10 copied (some defaults) listed)
    ≡ some (pos 1 ∷ pos 2 ∷ pos 3 ∷ [])
unfolding evalresp_channel_to_response freqs_of ◌+ℤ◌ ◌-ℤ◌ ◌*ℤ◌ any_zero_gain is_skipped_stage moved
    eval_blkt calc_list
listed_freqs = refl

evalresp_channel_to_response-AreFreqs_example :
    Ensures
      (λ e.
        (length e.response.rvec ≡ length e.response.freqs)
        × (e.options ≡ (calculate_default_freqs defaults).1)
        × AreFreqs 10 copied e.options listed (calculate_default_freqs defaults).2 e.response.freqs)
      (evalresp_channel_to_response 10 copied (some defaults) listed)
evalresp_channel_to_response-AreFreqs_example =
    evalresp_channel_to_response-AreFreqs 10 copied defaults listed

evalresp_channels_to_responses-length_example :
    (length (evalresp_channels_to_responses 10 copied defaults (listed ∷ [])).0 ≤ 1)
    × ((evalresp_channels_to_responses 10 copied defaults (listed ∷ [])).1 ≡ checked tt
        → length (evalresp_channels_to_responses 10 copied defaults (listed ∷ [])).0 ≡ 1)
evalresp_channels_to_responses-length_example =
    evalresp_channels_to_responses-length 10 copied defaults (listed ∷ [])

-- With interpolation at the frequencies 2 and 3.
abbrev curved : Options ℤ
curved = record defaults {
  min_freq = pos 2;
  max_freq = pos 3;
  nfreq = pos 2;
  lin_freq = true;
  b55_interpolate = true;
}

curved_freqs :
    freqs_of (evalresp_channel_to_response 10 copied (some curved) listed)
    ≡ some (pos 2 ∷ pos 3 ∷ [])
unfolding evalresp_channel_to_response freqs_of ◌+ℤ◌ ◌-ℤ◌ ◌*ℤ◌ any_zero_gain is_skipped_stage moved
    eval_blkt calc_list restrict_frequency_range drop_while interpolate_list_blockette
curved_freqs = refl

is_listed : is_block_55 listed ≡ true
unfolding is_block_55
is_listed = refl

is_curved : (calculate_default_freqs curved).1.b55_interpolate ≡ true
unfolding calculate_default_freqs
is_curved = refl

evalresp_channel_to_response-list_of_example :
    Ensures
      (λ e. list_of e.channel.stages ≡ list_of listed.stages)
      (evalresp_channel_to_response 10 copied (some curved) listed)
evalresp_channel_to_response-list_of_example =
    evalresp_channel_to_response-list_of 10 copied curved listed is_listed is_curved
