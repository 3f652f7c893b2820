-- ===== src/StationXml/Convert.antt =====
-- The conversion of StationXML to RESP: libsrc/evalresp/stationxml2resp/wrappers.c. A temporary file
-- is the text that is written to it, and can be created.
use evalresp.Prelude.{Bool, none, some, [], ◌∷◌, Option, ◌==◌, ◌||◌, true, false, if◌then◌else◌}
use evalresp.CString.{Str}
use evalresp.Status.{io, par, err}
use evalresp.Checked.{Checked, checked, failed, ◌>>=◌}
use evalresp.Double.{Double}
use evalresp.StationXml.{x2r_err_xml, X2rFdsnStationXml}
use evalresp.StationXml.Node.{Mxml, Clock}
use evalresp.StationXml.Document.{x2r_parse_fdsn_station_xml}
use evalresp.StationXml.Print.{Printf}
use evalresp.StationXml.Print.Document.{x2r_resp_util_write}

-- The loop of x2r_detect_xml: *xml_flag, which stays as it was at the end of the file.
unfoldable pub x2r_detect_xml : Bool → Str → Bool
x2r_detect_xml xml_flag [] = xml_flag
x2r_detect_xml xml_flag (c ∷ text) =
    let more = x2r_detect_xml xml_flag text in
    if c == 32 || c == 10 || c == 13 then more else c == b'<'

module _ {N D : Type 0} ⦃d : Double D⦄ (m : Mxml N) (clock : Clock) where
  -- A document that does not load has another status here than in x2r_station_service_load.
  unfoldable pub load_mxml_service : Option Str → Checked (X2rFdsnStationXml D)
  unfolding x2r_parse_fdsn_station_xml
  load_mxml_service none = failed io
  load_mxml_service (some xml_in) = elim (m.load xml_in) [
    | none ↦ failed par
    | some doc ↦ x2r_parse_fdsn_station_xml ⦃m = m⦄ clock doc
  ]

  -- stream2doc, and the parser
  unfoldable pub x2r_station_service_load : Str → Checked (X2rFdsnStationXml D)
  unfolding x2r_parse_fdsn_station_xml
  x2r_station_service_load text = elim (m.load text) [
    | none ↦ failed x2r_err_xml
    | some doc ↦ x2r_parse_fdsn_station_xml ⦃m = m⦄ clock doc
  ]

module _ {N D : Type 0} ⦃d : Double D⦄ (m : Mxml N) (clock : Clock) (pf : Printf D) where
  -- save_mxml_service_to_char reads back what it has written.
  unfoldable pub convert_xml_to_char : Option Str → Checked Str
  unfolding load_mxml_service x2r_resp_util_write
  convert_xml_to_char xml_in = do
    root ← load_mxml_service m clock xml_in
    x2r_resp_util_write clock pf root

  -- *resp_out, which stays as it was without the flag.
  unfoldable pub evalresp_xml_to_char : Bool → Option Str → Option Str → Checked (Option Str)
  unfolding convert_xml_to_char
  evalresp_xml_to_char xml_flag xml_in resp_out =
      if xml_flag
      then (convert_xml_to_char xml_in >>= λ text. checked (some text))
      else checked resp_out

  -- *resp_fd from its start: NULL where there is no flag, since the callers pass it so.
  unfoldable pub evalresp_xml_stream_to_resp_file : Bool → Option Str → Checked (Option Str)
  unfolding x2r_station_service_load x2r_resp_util_write
  evalresp_xml_stream_to_resp_file false xml_fd = checked none
  evalresp_xml_stream_to_resp_file true none = failed err
  evalresp_xml_stream_to_resp_file true (some text) = do
    root ← x2r_station_service_load m clock text
    resp ← x2r_resp_util_write clock pf root
    checked (some resp)

  -- The stream that is read on: that of the conversion, or the one of the call.
  unfoldable pub evalresp_xml_stream_to_resp_stream_auto : Str → Checked (Option Str)
  unfolding x2r_detect_xml evalresp_xml_stream_to_resp_file
  evalresp_xml_stream_to_resp_stream_auto text = do
    let xml_flag : Bool = x2r_detect_xml false text
    resp_fd ← evalresp_xml_stream_to_resp_file xml_flag (some text)
    checked (if xml_flag then resp_fd else some text)
