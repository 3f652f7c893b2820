-- ===== src/StationXml/Node.antt =====
-- The nodes of an XML document and the readers of one value in
-- libsrc/evalresp/stationxml2resp/xml_to_dom.c.
use evalresp.Prelude.{
  ℕ, Bool, false, Option, none, some, List, [], ◌∷◌, ◌==◌, if◌then◌else◌, length,
}
use evalresp.Prelude.Int.{ℤ, pos, ◌-ℤ◌}
use evalresp.CString.{Str, codes, is_empty, str_eq, skip_space, strtol}
use evalresp.Status.{Status, ok, is_ok}
use evalresp.Checked.{Checked, checked, failed, ◌>>=◌}
use evalresp.Double.{Double}
use evalresp.StationXml.{x2r_err_memory, x2r_err_xml}

-- The calls of the XML library.
pub record Mxml (N : Type 0) : Type 0 where
  -- mxmlLoadString and mxmlLoadFile of a text
  pub load : Str → Option N
  -- mxmlGetFirstChild, and mxmlGetNextSibling from it on
  pub children : N → List N
  -- mxmlGetElement, where the type is MXML_ELEMENT
  pub element : N → Option Str
  -- mxmlGetOpaque, where the type is MXML_OPAQUE
  pub opaque : N → Option (Option Str)
  -- mxmlElementGetAttr
  pub attr : N → Str → Option Str
  -- mxmlFindElement (doc, doc, name, NULL, NULL, MXML_DESCEND_FIRST)
  pub find_element : N → Str → Option N

-- struct tm, and what the C library makes of it. A time_t is a number of seconds.
pub record Tm : Type 0 where
  pub tm_year : ℤ
  pub tm_mon : ℤ
  pub tm_mday : ℤ
  pub tm_hour : ℤ
  pub tm_min : ℤ
  pub tm_sec : ℤ
  pub tm_yday : ℤ

pub record Clock : Type 0 where
  pub timegm : Tm → ℤ
  pub gmtime : ℤ → Option Tm

-- The loops that call a parser on each node, up to one that fails.
unfoldable pub each {ℓ κ} : {A : Type ℓ} {B : Type κ} → (A → Checked B) → List A → Checked (List B)
each f [] = checked []
each f (a ∷ as') = f a >>= λ b. each f as' >>= λ bs. checked (b ∷ bs)

-- %d of sscanf, as strtol reads it; none where there is no number.
scan_int : Str → Option (ℤ × Str)
unfolding strtol
scan_int s =
    let (n, rest) : ℤ × Str = strtol s in if length rest == length s then none else some (n, rest)

-- A byte of the format that is no white space.
scan_byte : ℕ → Str → Option Str
scan_byte c [] = none
scan_byte c (d ∷ s) = if d == c then some s else none

-- A byte and a number behind it.
scan_next : ℕ → Str → Option (ℤ × Str)
unfolding scan_byte scan_int
scan_next c s = elim (scan_byte c s) [ none ↦ none | some rest ↦ scan_int rest ]

-- strdup (deflt), where there is one.
or_default : Option Str → Checked Str
or_default none = failed x2r_err_xml
or_default (some deflt) = checked deflt

module _ {N : Type 0} ⦃m : Mxml N⦄ where
  -- mxmlGetType (child) == MXML_ELEMENT && !strcmp (mxmlGetElement (child), name)
  unfoldable pub is_named : Str → N → Bool
  unfolding str_eq
  is_named name n = elim (m.element n) [ none ↦ false | some e ↦ str_eq e name ]

  unfoldable pub all_named : Str → List N → List N
  unfolding is_named
  all_named name [] = []
  all_named name (n ∷ ns) =
      let rest = all_named name ns in if is_named name n then n ∷ rest else rest

  unfoldable pub first_named : Str → List N → Option N
  unfolding is_named
  first_named name [] = none
  first_named name (n ∷ ns) =
      let rest = first_named name ns in if is_named name n then some n else rest

  -- The status and the nodes. Allocation does not fail.
  unfoldable pub find_children : N → Str → Status × List N
  unfolding all_named
  find_children from name = (ok, all_named name (m.children from))

  -- The nodes, where the status is X2R_OK.
  unfoldable pub found_children : N → Str → Checked (List N)
  unfolding find_children is_ok
  found_children from name =
      let (status, nodes) : Status × List N = find_children from name in
      if is_ok status then checked nodes else failed status

  -- With `found` given: none where it is set to 0.
  unfoldable pub find_child : N → Str → Option N
  unfolding first_named str_eq
  find_child from name =
      if str_eq name (codes ".") then some from else first_named name (m.children from)

  -- With `found` NULL.
  unfoldable pub require_child : N → Str → Checked N
  unfolding find_child
  require_child from name = elim (find_child from name) [
    | none ↦ failed x2r_err_xml
    | some n ↦ checked n
  ]

  first_text : List N → Checked Str
  first_text [] = failed x2r_err_xml
  first_text (n ∷ ns) = elim (m.opaque n) [
    | none ↦ first_text ns
    | some t ↦ elim t [ none ↦ failed x2r_err_memory | some text ↦ checked text ]
  ]

  unfoldable pub char_element : N → Str → Option Str → Checked Str
  unfolding find_child first_text or_default
  char_element node name deflt = elim (find_child node name) [
    | none ↦ or_default deflt
    | some e ↦ first_text (m.children e)
  ]

  unfoldable pub int_element : N → Str → Option Str → Checked ℤ
  unfolding char_element strtol skip_space
  int_element node name deflt = do
    text ← char_element node name deflt
    let (value, end) : ℤ × Str = strtol text
    if is_empty (skip_space end) then checked value else failed x2r_err_xml

  unfoldable pub char_attribute : N → Str → Option Str → Checked Str
  unfolding or_default
  char_attribute node name deflt = elim (m.attr node name) [
    | none ↦ or_default deflt
    | some value ↦ checked value
  ]

  unfoldable pub int_attribute : N → Str → Option Str → Checked ℤ
  unfolding char_attribute strtol
  int_attribute node name deflt = do
    text ← char_attribute node name deflt
    let (value, end) : ℤ × Str = strtol text
    if is_empty end then checked value else failed x2r_err_xml

  module _ {D : Type 0} ⦃d : Double D⦄ where
    unfoldable pub double_element : N → Str → Option Str → Checked D
    unfolding char_element skip_space
    double_element node name deflt = do
      text ← char_element node name deflt
      let (value, end) : D × Str = d.strtod text
      if is_empty (skip_space end) then checked value else failed x2r_err_xml

    unfoldable pub double_attribute : N → Str → Option Str → Checked D
    unfolding char_attribute
    double_attribute node name deflt = do
      text ← char_attribute node name deflt
      let (value, end) : D × Str = d.strtod text
      if is_empty end then checked value else failed x2r_err_xml

infixl 5 ◌>>?◌
abbrev ◌>>?◌ : {A B : Type 0} → Option A → (A → Option B) → Option B
none >>? f = none
some a >>? f = f a

-- sscanf (datetime, "%d-%d-%dT%d:%d:%d", ...), as a struct tm.
unfoldable pub scan_datetime : Str → Option Tm
unfolding scan_int scan_next
scan_datetime s = scan_int s >>? λ year. scan_next b'-' year.1 >>? λ mon.
    scan_next b'-' mon.1 >>? λ mday. scan_next b'T' mday.1 >>? λ hour.
    scan_next b':' hour.1 >>? λ min. scan_next b':' min.1 >>? λ sec. some (record {
      tm_year = year.0 -ℤ pos 1900;
      tm_mon = mon.0 -ℤ pos 1;
      tm_mday = mday.0;
      tm_hour = hour.0;
      tm_min = min.0;
      tm_sec = sec.0;
      tm_yday = pos 0;
    })

module _ (clock : Clock) where
  unfoldable pub x2r_parse_iso_datetime : Str → Checked ℤ
  unfolding scan_datetime
  x2r_parse_iso_datetime datetime = elim (scan_datetime datetime) [
    | none ↦ failed x2r_err_xml
    | some tm ↦ checked (clock.timegm tm)
  ]

  -- A missing attribute that may be missing leaves the epoch as it was.
  unfoldable pub datetime_attribute : {N : Type 0} ⦃m : Mxml N⦄ → N → Str → Bool → ℤ → Checked ℤ
  unfolding x2r_parse_iso_datetime char_attribute
  datetime_attribute ⦃m⦄ node name missing_ok epoch = elim (m.attr node name) [
    | none ↦
        if missing_ok
        then checked epoch
        else (char_attribute node name none >>= x2r_parse_iso_datetime)
    | some value ↦ char_attribute node name none >>= x2r_parse_iso_datetime
  ]
