-- ===== src/StationXml/Print/Document.antt =====
-- print_stage, print_response, print_channel and x2r_resp_util_write of
-- libsrc/evalresp/stationxml2resp/dom_to_seed.c.
use evalresp.Prelude.{Bool, ◌||◌, Option, none, some, List, [], ◌∷◌, ◌++◌, if◌then◌else◌}
use evalresp.Prelude.Int.{ℤ, pos}
use evalresp.CString.{Str, codes, str_eq}
use evalresp.Checked.{Checked, checked, ◌>>=◌}
use evalresp.Double.{Double}
use evalresp.StationXml.{
  StageContent, unknown, poles_zeros, coefficients, response_list, fir, polynomial, X2rGain,
  X2rStage, X2rResponse, X2rChannel, X2rStation, X2rNetwork, X2rFdsnStationXml,
}
use evalresp.StationXml.Node.{Clock}
use evalresp.StationXml.Print.{Printf, ChannelPlace, lines, format_date_yjhms}
use evalresp.StationXml.Print.Blockettes.{
  print_poles_zeros, print_coefficients, print_response_list, print_fir, print_polynomial,
  print_decimation, print_stage_gain,
}

-- The texts of a loop, one after the other, up to one that fails.
unfoldable pub concat_each {ℓ} : {A : Type ℓ} → (A → Checked Str) → List A → Checked Str
concat_each f [] = checked []
concat_each f (a ∷ rest) = f a >>= λ s. concat_each f rest >>= λ t. checked (s ++ t)

-- !(strcmp (location_code, "  ") && strcmp (location_code, ""))
unfoldable pub is_blank_location : Str → Bool
unfolding str_eq
is_blank_location code = str_eq code (codes "  ") || str_eq code (codes "")

-- The text of a part that may be missing.
unfoldable pub print_optional {ℓ} : {A : Type ℓ} → (A → Checked Str) → Option A → Checked Str
print_optional f none = checked []
print_optional f (some a) = f a

module _ {D : Type 0} ⦃d : Double D⦄ (clock : Clock) (pf : Printf D) where
  unfoldable pub print_content : ChannelPlace D → ℤ → StageContent D → Checked Str
  unfolding print_poles_zeros print_coefficients print_response_list print_fir print_polynomial
  print_content p number unknown = checked []
  print_content p number (poles_zeros x) = print_poles_zeros clock pf p number x
  print_content p number (coefficients x) = print_coefficients clock pf p number x
  print_content p number (response_list x) = print_response_list clock pf p number x
  print_content p number (fir x) = print_fir clock pf p number x
  print_content p number (polynomial x) = print_polynomial clock pf p number x

  unfoldable pub print_stage : ChannelPlace D → X2rStage D → Checked Str
  unfolding print_content print_decimation print_stage_gain print_optional
  print_stage p stage = do
    content ← print_content p stage.number stage.u
    decimation ← print_optional (print_decimation clock pf p stage.number) stage.decimation
    gain ← print_optional (print_stage_gain clock pf p stage.number) stage.stage_gain
    checked (content ++ decimation ++ gain)

  -- The sensitivity, where its value is not 0.
  print_sensitivity : ChannelPlace D → X2rGain D → Checked Str
  unfolding print_stage_gain
  print_sensitivity p gain =
      if d.eq gain.value (d.of_int (pos 0))
      then checked []
      else print_stage_gain clock pf p (pos 0) gain

  unfoldable pub print_response : ChannelPlace D → X2rResponse D → Checked Str
  unfolding concat_each print_stage print_optional print_sensitivity print_polynomial
  print_response p response = do
    stages ← concat_each (print_stage p) response.stages
    sensitivity ← print_optional (print_sensitivity p) response.instrument_sensitivity
    whole ← print_optional (print_polynomial clock pf p (pos 0)) response.instrument_polynomial
    checked (stages ++ sensitivity ++ whole)

module _ {D : Type 0} ⦃d : Double D⦄ (clock : Clock) (pf : Printf D) where
  unfoldable pub print_channel : Str → Str → X2rChannel D → Checked Str
  unfolding lines is_blank_location format_date_yjhms print_response
  print_channel net stn channel = do
    let location : Str =
        if is_blank_location channel.location_code then codes "??" else channel.location_code
    start ← format_date_yjhms clock channel.start_date
    end ← format_date_yjhms clock channel.end_date
    response ←
        print_response clock pf (record { net = net; stn = stn; channel = channel })
          channel.response
    checked (
        lines (
          codes "#"
          ∷ codes
              "###################################################################################"
          ∷ codes "#"
          ∷ (codes "B050F03     Station:     " ++ stn)
          ∷ (codes "B050F16     Network:     " ++ net)
          ∷ (codes "B052F03     Location:    " ++ location)
          ∷ (codes "B052F04     Channel:     " ++ channel.code)
          ∷ (codes "B052F22     Start date:  " ++ start)
          ∷ (codes "B052F23     End date:    " ++ end)
          ∷ [])
        ++ response)

  -- The loops over the channels of the stations of the networks.
  unfoldable pub x2r_resp_util_write : X2rFdsnStationXml D → Checked Str
  unfolding concat_each print_channel
  x2r_resp_util_write root =
      concat_each
        (λ (n : X2rNetwork D).
          concat_each (λ (s : X2rStation D). concat_each (print_channel n.code s.code) s.channels)
            n.stations)
        root.networks
