-- ===== src/StationXml/Elements.antt =====
-- The response lists of a document that libsrc/evalresp/stationxml2resp/xml_to_dom.c reads.
use evalresp.Prelude.{◌≡◌, refl, List, [], ◌∷◌, All}
use evalresp.CString.{codes}
use evalresp.Checked.{checked, ◌>>=◌, Ensures, Ensures-bind, Ensures-any}
use evalresp.Double.{Double}
use evalresp.StationXml.{
  StageContent, response_list, X2rStage, X2rChannel, X2rStation, X2rNetwork, X2rFdsnStationXml,
}
use evalresp.StationXml.Node.{Mxml, Clock, find_children}
use evalresp.StationXml.Content.{
  parse_units, parse_poles_zeros, parse_coefficients, parse_elements, parse_response_list,
  parse_fir, parse_polynomial,
}
use evalresp.StationXml.Document.{x2r_parse_fdsn_station_xml}
use evalresp.StationXml.Contents.{OneOf, OneOf-all, kinds_of}
use evalresp.StationXml.Mirror.{Pairs, StageMirrors, ChannelMirrors, StationMirrors, NetworkMirrors}
use evalresp.StationXml.Mirror.Parsed.{x2r_parse_fdsn_station_xml-Mirrors}

module _ {D : Type 0} where
  -- Where the content is a response list, it has no element.
  abbrev pub NoElements : StageContent D → Type 0
  NoElements (response_list x) = x.elements ≡ []
  NoElements _ = Unit {0}

  -- `P` of the content of each stage of a document.
  abbrev pub AllContents : (StageContent D → Type 0) → X2rFdsnStationXml D → Type 0
  AllContents P root =
      All
        (λ (n : X2rNetwork D).
          All
            (λ (s : X2rStation D).
              All (λ (c : X2rChannel D). All (λ (st : X2rStage D). P st.u) c.response.stages)
                s.channels)
            n.stations)
        root.networks

Pairs-All {ℓ κ} :
    {A : Type ℓ} {B : Type κ} (R : A → B → Type 0) (P : B → Type 0) (as' : List A) (bs : List B)
    → ((a : A) (b : B) → R a b → P b)
    → Pairs R as' bs
    → All P bs
Pairs-All R P [] [] f h = tt
Pairs-All R P [] (b ∷ bs) f h = elim h [ ]
Pairs-All R P (a ∷ as') [] f h = elim h [ ]
Pairs-All R P (a ∷ as') (b ∷ bs) f h = (f a b h.0, Pairs-All R P as' bs f h.1)

module _ {N : Type 0} ⦃m : Mxml N⦄ (D : Type 0) ⦃d : Double D⦄ where
  parse_response_list-empty :
      (node : N)
      → Ensures (NoElements {D = D}) (parse_response_list node >>= λ x. checked (response_list x))
  unfolding parse_response_list find_children parse_elements
  parse_response_list-empty node =
      Ensures-bind (λ x. x.elements ≡ []) NoElements (parse_response_list node) _
        (Ensures-bind (λ _. Unit {0}) _ (parse_units node (codes "InputUnits")) _ (Ensures-any _)
          (λ i _.
            Ensures-bind (λ _. Unit {0}) _ (parse_units node (codes "OutputUnits")) _
              (Ensures-any _) (λ o _. refl)))
        (λ x h. h)

module _ {N D : Type 0} ⦃m : Mxml N⦄ ⦃d : Double D⦄ where
  OneOf-NoElements : (node : N) (u : StageContent D) → OneOf (kinds_of node) u → NoElements u
  OneOf-NoElements node u h =
      OneOf-all NoElements (kinds_of node) u tt
        (
          λ n.
              Ensures-bind (λ _. Unit {0}) NoElements (parse_poles_zeros n) _ (Ensures-any _)
                (λ x _. tt),
          (
            λ n.
                Ensures-bind (λ _. Unit {0}) NoElements (parse_coefficients n) _ (Ensures-any _)
                  (λ x _. tt),
            (
              parse_response_list-empty D,
              (
                λ n.
                    Ensures-bind (λ _. Unit {0}) NoElements (parse_fir n) _ (Ensures-any _)
                      (λ x _. tt),
                (
                  λ n.
                      Ensures-bind (λ _. Unit {0}) NoElements (parse_polynomial n) _ (Ensures-any _)
                        (λ x _. tt),
                  tt,
                ),
              ),
            ),
          ),
        )
        h

module _ {N D : Type 0} ⦃m : Mxml N⦄ ⦃d : Double D⦄ (clock : Clock) (doc : N)
    (root : X2rFdsnStationXml D) where
  -- No response list of a document that x2r_parse_fdsn_station_xml reads has an element, whatever the
  -- document has.
  pub x2r_parse_fdsn_station_xml-NoElements :
      x2r_parse_fdsn_station_xml clock doc ≡ checked root → AllContents NoElements root
  x2r_parse_fdsn_station_xml-NoElements h =
      let (fdsn, e, p) = x2r_parse_fdsn_station_xml-Mirrors clock doc root h in
      Pairs-All (NetworkMirrors clock) _ _ root.networks
        (λ nn n hn.
          Pairs-All (StationMirrors clock) _ _ n.stations
            (λ sn s hs.
              Pairs-All (ChannelMirrors clock) _ _ s.channels
                (λ cn c hc.
                  Pairs-All StageMirrors (λ st. NoElements st.u) _ c.response.stages
                    (λ n' st hst. OneOf-NoElements n' st.u hst.content) hc.response.stages)
                hs.channels)
            hn.stations)
        p
