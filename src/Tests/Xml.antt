-- ===== src/Tests/Xml.antt =====
-- A StationXML document with a response list and a gain.
use evalresp.Prelude.{◌≡◌, refl, arith, Option, none, some, List, [], ◌∷◌, ◌++◌, if◌then◌else◌, inl}
use evalresp.Prelude.Int.{ℤ, pos, ◌+ℤ◌, ◌-ℤ◌}
use evalresp.CString.{Str, codes, str_eq, has_prefix}
use evalresp.Checked.{checked, failed}
use evalresp.Input.Action.{Input}
use evalresp.Input.Collect.{from_seed}
use evalresp.Input.Header.{reset_numbers, read_channel_header}
use evalresp.Input.Header.Read.{with_header}
use evalresp.StationXml.{
  X2rUnits, response_list, X2rStage, X2rChannel, X2rFdsnStationXml, unset_time_t, x2r_err_xml,
}
use evalresp.StationXml.Node.{Mxml, Clock, each, all_named}
use evalresp.StationXml.Document.{document_node, parse_stage, x2r_parse_fdsn_station_xml}
use evalresp.StationXml.Contents.{OneOf, kinds_of, parse_stage-OneOf}
use evalresp.StationXml.Mirror.{Pairs, NetworkMirrors}
use evalresp.StationXml.Mirror.Parsed.{x2r_parse_fdsn_station_xml-Mirrors}
use evalresp.StationXml.Elements.{NoElements, AllContents, x2r_parse_fdsn_station_xml-NoElements}
use evalresp.StationXml.Print.{Printf}
use evalresp.StationXml.Print.Document.{print_channel}
use evalresp.StationXml.Print.Read.{
  CanRead, Printed, location_read, read_channel_header-print_channel,
}
use evalresp.Tests.Whole.{whole, simple, simple-TakesDigits}

mutual
  pub data Xml : Type 0 where
    text : Str → Xml
    node : Str → List (Str × Str) → Forest → Xml

  pub data Forest : Type 0 where
    end : Forest
    tree : Xml → Forest → Forest

trees : Forest → List Xml
trees end = []
trees (tree x xs) = x ∷ trees xs

children_of : Xml → List Xml
unfolding trees
children_of (text s) = []
children_of (node name attrs xs) = trees xs

element_of : Xml → Option Str
element_of (text s) = none
element_of (node name attrs xs) = some name

opaque_of : Xml → Option (Option Str)
opaque_of (text s) = some (some s)
opaque_of (node name attrs xs) = none

lookup : Str → List (Str × Str) → Option Str
unfolding str_eq
lookup name [] = none
lookup name ((k, v) ∷ rest) =
    let later = lookup name rest in if str_eq k name then some v else later

attr_of : Xml → Str → Option Str
unfolding lookup
attr_of (text s) name = none
attr_of (node n attrs xs) name = lookup name attrs

-- The documents below have their element at the root.
instance abbrev pub tree_xml : Mxml Xml
unfolding children_of element_of opaque_of attr_of
tree_xml = record {
  load = λ s. none;
  children = children_of;
  element = element_of;
  opaque = opaque_of;
  attr = attr_of;
  find_element = λ x name. none;
}

-- The first second of a year.
abbrev pub clock : Clock
clock = record {
  timegm = λ tm. tm.tm_year;
  gmtime = λ t. some (record {
    tm_year = t;
    tm_mon = pos 0;
    tm_mday = pos 1;
    tm_hour = pos 0;
    tm_min = pos 0;
    tm_sec = pos 0;
    tm_yday = pos 0;
  });
}

abbrev leaf : Str → Str → Xml
leaf name s = node name [] (tree (text s) end)

abbrev units_node : Str → Xml
units_node name = node name [] (tree (leaf (codes "Name") (codes "V")) end)

abbrev element_node : Xml
element_node = node (codes "ResponseListElement") [] (
    tree (leaf (codes "Frequency") (codes "1"))
      (tree (leaf (codes "Amplitude") (codes "2")) (tree (leaf (codes "Phase") (codes "0")) end)))

abbrev list_node : Xml
list_node = node (codes "ResponseList") [] (
    tree (units_node (codes "InputUnits"))
      (tree (units_node (codes "OutputUnits")) (tree element_node end)))

abbrev stage_node : Xml
stage_node = node (codes "Stage") ((codes "number", codes "1") ∷ []) (tree list_node end)

abbrev channel_node : Xml
channel_node =
    node (codes "Channel")
      ((codes "code", codes "BHZ")
        ∷ (codes "locationCode", codes "")
        ∷ (codes "startDate", codes "2003-01-01T00:00:00")
        ∷ [])
      (tree (node (codes "Response") [] (tree stage_node end)) end)

abbrev doc : Xml
doc = node (codes "FDSNStationXML") [] (
    tree
      (node (codes "Network") ((codes "code", codes "IU") ∷ []) (
        tree (node (codes "Station") ((codes "code", codes "ANMO") ∷ []) (tree channel_node end))
          end))
      end)

abbrev volts : X2rUnits
volts = record { name = codes "V"; description = [] }

abbrev stage : X2rStage ℤ
stage = record {
  number = pos 1;
  u = response_list (record { input_units = volts; output_units = volts; elements = [] });
  decimation = none;
  stage_gain = none;
}

abbrev channel : X2rChannel ℤ
channel = record {
  code = codes "BHZ";
  location_code = [];
  start_date = pos 103;
  end_date = unset_time_t;
  response = record {
    stages = stage ∷ [];
    instrument_sensitivity = none;
    instrument_polynomial = none;
  };
}

abbrev root : X2rFdsnStationXml ℤ
root = record {
  networks =
      record {
        code = codes "IU";
        stations = record { code = codes "ANMO"; channels = channel ∷ [] } ∷ [];
      }
      ∷ [];
}

parsed : x2r_parse_fdsn_station_xml clock doc ≡ checked root
unfolding x2r_parse_fdsn_station_xml tree_xml each ◌-ℤ◌
parsed = refl

x2r_parse_fdsn_station_xml-Mirrors_example :
    (fdsn : Xml) × (document_node doc ≡ some fdsn)
    × Pairs
        (NetworkMirrors clock)
        (all_named (codes "Network") (tree_xml.children fdsn))
        root.networks
x2r_parse_fdsn_station_xml-Mirrors_example =
    x2r_parse_fdsn_station_xml-Mirrors clock doc root parsed

x2r_parse_fdsn_station_xml-NoElements_example : AllContents NoElements root
x2r_parse_fdsn_station_xml-NoElements_example =
    x2r_parse_fdsn_station_xml-NoElements clock doc root parsed

stage_parsed : parse_stage stage_node ≡ checked stage
unfolding x2r_parse_fdsn_station_xml tree_xml each
stage_parsed = refl

parse_stage-OneOf_example : OneOf (kinds_of stage_node) stage.u
parse_stage-OneOf_example = parse_stage-OneOf stage_node stage stage_parsed

-- Two contents in one stage.
two_contents :
    parse_stage {D = ℤ} (
      node
        (codes "Stage")
        ((codes "number", codes "1") ∷ [])
        (tree list_node (tree (node (codes "FIR") [] end) end)))
    ≡ failed x2r_err_xml
unfolding x2r_parse_fdsn_station_xml tree_xml each
two_contents = refl

abbrev pub printf : Printf ℤ
printf = record { double = λ format x. codes "+1.00000E+00" }

-- A channel with no stage.
abbrev bare : X2rChannel ℤ
bare = record channel {
  response = record { stages = []; instrument_sensitivity = none; instrument_polynomial = none };
}

abbrev bare_text : Str
bare_text =
    codes
      "#\n###################################################################################\n#\nB050F03     Station:     ANMO\nB050F16     Network:     IU\nB052F03     Location:    ??\nB052F04     Channel:     BHZ\nB052F22     Start date:  2003,001,00:00:00\nB052F23     End date:    No Ending Time\n"

bare_printed : print_channel clock printf (codes "IU") (codes "ANMO") bare ≡ checked bare_text
unfolding print_channel ◌+ℤ◌
bare_printed = refl

bare-CanRead : CanRead (codes "IU") (codes "ANMO") bare
unfolding print_channel has_prefix
bare-CanRead = record {
  network = record { some_text = λ k. cc; word = refl; short = omega arith };
  known = refl;
  station = record { some_text = λ k. cc; word = refl; short = omega arith };
  code = record { some_text = λ k. cc; word = refl; short = omega arith };
  location = inl refl;
}

abbrev bare_seed : Input ℤ
bare_seed = from_seed (bare_text ++ codes "B053F03 Type: A\n")

read_channel_header-print_channel_example :
    (p : Printed clock printf (codes "IU") (codes "ANMO") bare bare_text) × (read_channel_header
        simple [] bare_seed
      ≡ (
        checked tt,
        record bare_seed {
          seed = p.body ++ codes "B053F03 Type: A\n";
          channel =
              with_header
                (reset_numbers bare_seed.channel)
                (codes "ANMO")
                (codes "IU")
                (location_read [])
                (codes "BHZ")
                p.begins
                p.ends;
        },
      ))
read_channel_header-print_channel_example =
    read_channel_header-print_channel simple simple-TakesDigits clock printf (codes "IU")
      (codes "ANMO") bare bare_seed bare_text (codes "B053F03 Type: A\n") bare-CanRead bare_printed
      refl
