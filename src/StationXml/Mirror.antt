-- ===== src/StationXml/Mirror.antt =====
-- The model that x2r_parse_fdsn_station_xml of libsrc/evalresp/stationxml2resp/xml_to_dom.c makes of
-- a document, against the document.
pub mod Parsed
use evalresp.Prelude.{
  ◌≡◌, refl, arith, true, false, Option, none, some, List, [], ◌∷◌, All, Option-cases, inl, inr,
}
use evalresp.Prelude.Int.{ℤ}
use evalresp.CString.{Str, codes}
use evalresp.Status.{is_ok}
use evalresp.Checked.{
  Checked, checked, failed, undefined, ◌>>=◌, Ensures, Ensures-bind, Ensures-any, Ensures-self,
  Ensures-checked,
}
use evalresp.Double.{Double}
use evalresp.StationXml.{
  unset_time_t, StageContent, unknown, poles_zeros, coefficients, response_list, fir, polynomial,
  X2rStage, X2rResponse, X2rChannel, X2rStation, X2rNetwork, X2rFdsnStationXml,
}
use evalresp.StationXml.Node.{
  Mxml, Clock, each, all_named, find_child, find_children, found_children, require_child,
  char_attribute, int_attribute, datetime_attribute,
}
use evalresp.StationXml.Content.{
  parse_units, parse_poles_zeros, parse_coefficients, parse_elements, parse_response_list,
  parse_fir, parse_polynomial, parse_decimation, parse_gain,
}
use evalresp.StationXml.Document.{
  parse_optional, parse_contents, parse_stage, parse_response, parse_channel, parse_station,
  parse_network, document_node, x2r_parse_fdsn_station_xml,
}
use evalresp.StationXml.Contents.{OneOf, kinds_of, OneOf-all, parse_contents-OneOf}

-- Two lists of one length, related element by element.
abbrev pub Pairs {ℓ κ} : {A : Type ℓ} {B : Type κ} → (A → B → Type 0) → List A → List B → Type 0
Pairs R [] [] = Unit {0}
Pairs R [] (b ∷ bs) = ⊥
Pairs R (a ∷ as') [] = ⊥
Pairs R (a ∷ as') (b ∷ bs) = R a b × Pairs R as' bs

module _ {N D : Type 0} ⦃m : Mxml N⦄ ⦃d : Double D⦄ where
  -- The number and the content of a stage are those of its node.
  pub record StageMirrors (node : N) (st : X2rStage D) : Type 0 where
    pub number : int_attribute node (codes "number") none ≡ checked st.number
    pub content : OneOf (kinds_of node) st.u

  -- The response's stages are the nodes named Stage, in their order.
  pub record ResponseMirrors (node : N) (r : X2rResponse D) : Type 0 where
    pub stages : Pairs StageMirrors (all_named (codes "Stage") (m.children node)) r.stages

module _ {N D : Type 0} ⦃m : Mxml N⦄ ⦃d : Double D⦄ (clock : Clock) where
  pub record ChannelMirrors (node : N) (c : X2rChannel D) : Type 0 where
    pub code : m.attr node (codes "code") ≡ some c.code
    pub location_code : m.attr node (codes "locationCode") ≡ some c.location_code
    pub start_date :
        datetime_attribute clock node (codes "startDate") false unset_time_t ≡ checked c.start_date
    pub end_date :
        datetime_attribute clock node (codes "endDate") true unset_time_t ≡ checked c.end_date
    pub response_node : N
    pub response_is : find_child node (codes "Response") ≡ some response_node
    pub response : ResponseMirrors response_node c.response

  pub record StationMirrors (node : N) (st : X2rStation D) : Type 0 where
    pub code : m.attr node (codes "code") ≡ some st.code
    pub channels : Pairs ChannelMirrors (all_named (codes "Channel") (m.children node)) st.channels

  pub record NetworkMirrors (node : N) (n : X2rNetwork D) : Type 0 where
    pub code : m.attr node (codes "code") ≡ some n.code
    pub stations : Pairs StationMirrors (all_named (codes "Station") (m.children node)) n.stations
