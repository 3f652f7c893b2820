-- ===== src/StationXml/Mirror/Parsed.antt =====
-- The parsers of libsrc/evalresp/stationxml2resp/xml_to_dom.c make models that mirror the document.
use evalresp.Prelude.{
  ◌≡◌, ◌≢◌, refl, arith, true, false, none, some, List, [], ◌∷◌, Option-cases, inl, inr,
}
use evalresp.CString.{Str, codes}
use evalresp.Checked.{
  Checked, checked, failed, undefined, ◌>>=◌, Ensures, Ensures-bind, Ensures-checked,
}
use evalresp.Double.{Double}
use evalresp.StationXml.{unset_time_t, X2rFdsnStationXml}
use evalresp.StationXml.Node.{
  Mxml, Clock, each, all_named, find_child, require_child, char_attribute, int_attribute,
  datetime_attribute,
}
use evalresp.StationXml.Content.{parse_polynomial, parse_decimation, parse_gain}
use evalresp.StationXml.Document.{
  parse_optional, parse_contents, parse_stage, parse_response, parse_channel, parse_station,
  parse_network, document_node, parse_networks, x2r_parse_fdsn_station_xml,
}
use evalresp.StationXml.Contents.{parse_contents-OneOf}
use evalresp.StationXml.Mirror.{
  Pairs, StageMirrors, ResponseMirrors, ChannelMirrors, StationMirrors, NetworkMirrors,
}

each-Pairs {ℓ κ} :
    {A : Type ℓ} {B : Type κ} (R : A → B → Type 0) (f : A → Checked B) (as' : List A)
    → ((a : A) → Ensures (R a) (f a))
    → Ensures (Pairs R as') (each f as')
unfolding each
each-Pairs R f [] h = tt
each-Pairs R f (a ∷ rest) h = Ensures-bind (R a) (Pairs R (a ∷ rest)) (f a) _ (h a) (λ b r.
    Ensures-bind (Pairs R rest) (Pairs R (a ∷ rest)) (each f rest) _ (each-Pairs R f rest h)
      (λ bs p. (r, p)))

module _ {N : Type 0} ⦃m : Mxml N⦄ where
  char_attribute-attr :
      (node : N) (name text : Str)
      → char_attribute node name none ≡ checked text
      → m.attr node name ≡ some text
  unfolding char_attribute
  char_attribute-attr node name text h = ground (arith, h)

  require_child-found :
      (node : N) (name : Str) (n : N)
      → require_child node name ≡ checked n
      → find_child node name ≡ some n
  unfolding require_child
  require_child-found node name n h = ground (arith, h)

-- A chain ensures what follows from the result of its first step.
Ensures-after {ℓ κ ι} :
    {A : Type ℓ} {B : Type κ} (Q : B → Type ι) (m : Checked A) (f : A → Checked B)
    → ((a : A) → m ≡ checked a → Ensures Q (f a))
    → Ensures Q (m >>= f)
Ensures-after Q (checked a) f k = k a refl
Ensures-after Q (failed s) f k = tt
Ensures-after Q undefined f k = tt

module _ {N : Type 0} ⦃m : Mxml N⦄ (D : Type 0) ⦃d : Double D⦄ where
  parse_stage-Mirrors : (node : N) → Ensures (StageMirrors {D = D} node) (parse_stage node)
  unfolding parse_stage
  parse_stage-Mirrors node = Ensures-after _ (int_attribute node (codes "number") none) _ (λ n hn.
      Ensures-after _ (parse_contents node) _ (λ u hu.
        Ensures-after _ (parse_optional (find_child node (codes "Decimation")) parse_decimation) _
          (λ dec hd.
            Ensures-after _ (parse_optional (find_child node (codes "StageGain")) parse_gain) _
              (λ g hg. record { number = hn; content = parse_contents-OneOf node u hu }))))

  parse_response-Mirrors : (node : N) → Ensures (ResponseMirrors {D = D} node) (parse_response node)
  unfolding parse_response
  parse_response-Mirrors node =
      (Ensures-bind _ _ (each parse_stage (all_named (codes "Stage") (m.children node))) _
        (each-Pairs StageMirrors parse_stage _ parse_stage-Mirrors)
        (λ stages p.
          Ensures-after _
            (parse_optional (find_child node (codes "InstrumentSensitivity")) parse_gain) _
            (λ g hg.
              Ensures-after _
                (parse_optional (find_child node (codes "InstrumentPolynomial")) parse_polynomial) _
                (λ w hw. record { stages = p }))))

module _ {N : Type 0} ⦃m : Mxml N⦄ (D : Type 0) ⦃d : Double D⦄ (clock : Clock) where
  parse_channel-Mirrors :
      (node : N) → Ensures (ChannelMirrors {D = D} clock node) (parse_channel clock node)
  unfolding parse_channel
  parse_channel-Mirrors node =
      Ensures-after _ (char_attribute node (codes "code") none) _ (λ code hc.
        Ensures-after _ (char_attribute node (codes "locationCode") none) _ (λ loc hl.
          Ensures-after _ (datetime_attribute clock node (codes "startDate") false unset_time_t) _
            (λ start hs.
              Ensures-after _ (datetime_attribute clock node (codes "endDate") true unset_time_t) _
                (λ end he. Ensures-after _ (require_child node (codes "Response")) _ (λ rn hr.
                  Ensures-bind _ _ (parse_response rn) _ (parse_response-Mirrors D rn) (λ r p.
                    record {
                      code = char_attribute-attr node (codes "code") code hc;
                      location_code = char_attribute-attr node (codes "locationCode") loc hl;
                      start_date = hs;
                      end_date = he;
                      response_node = rn;
                      response_is = require_child-found node (codes "Response") rn hr;
                      response = p;
                    }))))))

  parse_station-Mirrors :
      (node : N) → Ensures (StationMirrors {D = D} clock node) (parse_station clock node)
  unfolding parse_station
  parse_station-Mirrors node =
      (Ensures-after _ (char_attribute node (codes "code") none) _ (λ code hc.
        Ensures-bind _ _
          (each (parse_channel clock) (all_named (codes "Channel") (m.children node))) _
          (each-Pairs (ChannelMirrors clock) (parse_channel clock) _ parse_channel-Mirrors)
          (λ channels p. record {
            code = char_attribute-attr node (codes "code") code hc;
            channels = p;
          })))

  parse_network-Mirrors :
      (node : N) → Ensures (NetworkMirrors {D = D} clock node) (parse_network clock node)
  unfolding parse_network
  parse_network-Mirrors node =
      (Ensures-after _ (char_attribute node (codes "code") none) _ (λ code hc.
        Ensures-bind _ _
          (each (parse_station clock) (all_named (codes "Station") (m.children node))) _
          (each-Pairs (StationMirrors clock) (parse_station clock) _ parse_station-Mirrors)
          (λ stations p. record {
            code = char_attribute-attr node (codes "code") code hc;
            stations = p;
          })))

  parse_networks-Mirrors :
      (fdsn : N)
      → Ensures
          (λ (root : X2rFdsnStationXml D).
            Pairs
              (NetworkMirrors clock)
              (all_named (codes "Network") (m.children fdsn))
              root.networks)
          (parse_networks clock fdsn)
  unfolding parse_networks
  parse_networks-Mirrors fdsn =
      Ensures-bind _ _ (each (parse_network clock) (all_named (codes "Network") (m.children fdsn)))
        _ (each-Pairs (NetworkMirrors clock) (parse_network clock) _ parse_network-Mirrors)
        (λ networks p. p)

module _ {N D : Type 0} ⦃m : Mxml N⦄ ⦃d : Double D⦄ (clock : Clock) (doc : N)
    (root : X2rFdsnStationXml D) (h : x2r_parse_fdsn_station_xml clock doc ≡ checked root) where
  no_document : document_node doc ≢ none
  unfolding x2r_parse_fdsn_station_xml
  no_document e = ground (arith, h, e)

  found_document :
      (fdsn : N) → document_node doc ≡ some fdsn → parse_networks clock fdsn ≡ checked root
  unfolding x2r_parse_fdsn_station_xml
  found_document fdsn e = ground (arith, h, e)

module _ {N D : Type 0} ⦃m : Mxml N⦄ ⦃d : Double D⦄ (clock : Clock) (doc : N)
    (root : X2rFdsnStationXml D) where
  -- Where x2r_parse_fdsn_station_xml succeeds, there is a document node, and the model has its networks,
  -- their stations, their channels and their stages, each one for each element of that name and in the
  -- order of the document, with the codes, dates and numbers of their attributes; and each stage has
  -- the content of the one kind that its element has.
  pub x2r_parse_fdsn_station_xml-Mirrors :
      x2r_parse_fdsn_station_xml clock doc ≡ checked root
      → (fdsn : N) × (document_node doc ≡ some fdsn)
        × Pairs (NetworkMirrors clock) (all_named (codes "Network") (m.children fdsn)) root.networks
  x2r_parse_fdsn_station_xml-Mirrors h = elim (Option-cases (document_node doc)) [
    | inl e ↦ absurd (no_document clock doc root h e)
    | inr (fdsn, e) ↦ (
      fdsn,
      e,
      Ensures-checked _ _ (parse_networks-Mirrors D clock fdsn)
          (found_document clock doc root h fdsn e),
    )
  ]
