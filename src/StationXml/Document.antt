-- ===== src/StationXml/Document.antt =====
-- The parsers of stages, channels, stations and networks in
-- libsrc/evalresp/stationxml2resp/xml_to_dom.c.
use evalresp.Prelude.{true, false, Option, none, some, if◌then◌else◌}
use evalresp.CString.{codes}
use evalresp.Checked.{Checked, checked, failed, ◌>>=◌}
use evalresp.Double.{Double}
use evalresp.StationXml.{
  x2r_err_xml, unset_time_t, StageContent, unknown, poles_zeros, coefficients, response_list, fir,
  polynomial, X2rStage, X2rResponse, X2rChannel, X2rStation, X2rNetwork, X2rFdsnStationXml,
}
use evalresp.StationXml.Node.{
  Mxml, Clock, each, is_named, find_child, found_children, require_child, char_attribute,
  int_attribute, datetime_attribute,
}
use evalresp.StationXml.Content.{
  parse_poles_zeros, parse_coefficients, parse_response_list, parse_fir, parse_polynomial,
  parse_decimation, parse_gain,
}

-- stage->type of a stage with some content is set already.
unfoldable pub set_stage : {D : Type 0} → StageContent D → Checked (Unit {0})
set_stage unknown = checked tt
set_stage (poles_zeros _) = failed x2r_err_xml
set_stage (coefficients _) = failed x2r_err_xml
set_stage (response_list _) = failed x2r_err_xml
set_stage (fir _) = failed x2r_err_xml
set_stage (polynomial _) = failed x2r_err_xml

-- A part that may be missing.
unfoldable pub parse_optional : {A B : Type 0} → Option A → (A → Checked B) → Checked (Option B)
parse_optional none parse = checked none
parse_optional (some node) parse = parse node >>= λ b. checked (some b)

-- One of the five blocks of parse_stage: the node that is found, its parser, and the stage's content.
unfoldable pub parse_content :
    {N D : Type 0}
    → Option N
    → (N → Checked (StageContent D))
    → StageContent D
    → Checked (StageContent D)
unfolding set_stage
parse_content none parse u = checked u
parse_content (some node) parse u = set_stage u >>= λ _. parse node

module _ {N D : Type 0} ⦃m : Mxml N⦄ ⦃d : Double D⦄ where
  -- The five blocks, each on the content that those before leave.
  unfoldable pub parse_contents : N → Checked (StageContent D)
  unfolding find_child parse_content parse_poles_zeros parse_coefficients parse_response_list
      parse_fir parse_polynomial
  parse_contents node = do
    u1 ←
        parse_content (find_child node (codes "PolesZeros"))
          (λ n. parse_poles_zeros n >>= λ x. checked (poles_zeros x)) unknown
    u2 ←
        parse_content (find_child node (codes "Coefficients"))
          (λ n. parse_coefficients n >>= λ x. checked (coefficients x)) u1
    u3 ←
        parse_content (find_child node (codes "ResponseList"))
          (λ n. parse_response_list n >>= λ x. checked (response_list x)) u2
    u4 ←
        parse_content (find_child node (codes "FIR")) (λ n. parse_fir n >>= λ x. checked (fir x)) u3
    u5 ←
        parse_content (find_child node (codes "Polynomial"))
          (λ n. parse_polynomial n >>= λ x. checked (polynomial x)) u4
    checked u5

  unfoldable pub parse_stage : N → Checked (X2rStage D)
  unfolding int_attribute parse_contents find_child parse_optional parse_decimation parse_gain
  parse_stage node = do
    number ← int_attribute node (codes "number") none
    u ← parse_contents node
    decimation ← parse_optional (find_child node (codes "Decimation")) parse_decimation
    stage_gain ← parse_optional (find_child node (codes "StageGain")) parse_gain
    checked (record { number = number; u = u; decimation = decimation; stage_gain = stage_gain })

  unfoldable pub parse_response : N → Checked (X2rResponse D)
  unfolding found_children parse_stage find_child parse_optional parse_gain parse_polynomial
  parse_response node = do
    nodes ← found_children node (codes "Stage")
    stages ← each parse_stage nodes
    sensitivity ← parse_optional (find_child node (codes "InstrumentSensitivity")) parse_gain
    whole ← parse_optional (find_child node (codes "InstrumentPolynomial")) parse_polynomial
    checked (record {
      stages = stages;
      instrument_sensitivity = sensitivity;
      instrument_polynomial = whole;
    })

-- The document node, which is the root or stands below it.
unfoldable pub document_node : {N : Type 0} ⦃m : Mxml N⦄ → N → Option N
unfolding is_named
document_node ⦃m⦄ doc =
    if is_named (codes "FDSNStationXML") doc
    then some doc
    else m.find_element doc (codes "FDSNStationXML")

module _ {N D : Type 0} ⦃m : Mxml N⦄ ⦃d : Double D⦄ (clock : Clock) where
  -- parse_station has set both dates to unset_time_t.
  unfoldable pub parse_channel : N → Checked (X2rChannel D)
  unfolding char_attribute datetime_attribute require_child parse_response
  parse_channel node = do
    code ← char_attribute node (codes "code") none
    location_code ← char_attribute node (codes "locationCode") none
    start_date ← datetime_attribute clock node (codes "startDate") false unset_time_t
    end_date ← datetime_attribute clock node (codes "endDate") true unset_time_t
    response_node ← require_child node (codes "Response")
    response ← parse_response response_node
    checked (record {
      code = code;
      location_code = location_code;
      start_date = start_date;
      end_date = end_date;
      response = response;
    })

  unfoldable pub parse_station : N → Checked (X2rStation D)
  unfolding found_children char_attribute parse_channel
  parse_station node = do
    nodes ← found_children node (codes "Channel")
    code ← char_attribute node (codes "code") none
    channels ← each parse_channel nodes
    checked (record { code = code; channels = channels })

  unfoldable pub parse_network : N → Checked (X2rNetwork D)
  unfolding found_children char_attribute parse_station
  parse_network node = do
    nodes ← found_children node (codes "Station")
    code ← char_attribute node (codes "code") none
    stations ← each parse_station nodes
    checked (record { code = code; stations = stations })

  unfoldable pub parse_networks : N → Checked (X2rFdsnStationXml D)
  unfolding found_children parse_network
  parse_networks fdsn = do
    nodes ← found_children fdsn (codes "Network")
    networks ← each parse_network nodes
    checked (record { networks = networks })

  unfoldable pub x2r_parse_fdsn_station_xml : N → Checked (X2rFdsnStationXml D)
  unfolding document_node parse_networks
  x2r_parse_fdsn_station_xml doc = elim (document_node doc) [
    | none ↦ failed x2r_err_xml
    | some fdsn ↦ parse_networks fdsn
  ]
