-- ===== src/StationXml/Print/Read.antt =====
-- A channel of a StationXML document that print_channel of dom_to_seed.c prints is read back by
-- read_channel_header of libsrc/evalresp/input.c.
use evalresp.Prelude.{
  ◌≡◌, refl, ap, sym, arith, true, false, ◌⊎◌, ◌∙◌, inl, inr, List, [], ◌∷◌, ◌++◌, append_assoc,
  if◌then◌else◌, Bool-cases,
}
use evalresp.CString.{Str, codes, has_prefix}
use evalresp.Checked.{checked, bind-checked}
use evalresp.RegExp.{RegExp}
use evalresp.Double.{Double}
use evalresp.Input.Action.{Input}
use evalresp.Input.Header.{known_name, reset_numbers, read_channel_header}
use evalresp.Input.Header.Printed.{TakesDigits, IsName}
use evalresp.Input.Header.Read.{header_text, with_header, read_channel_header-printed}
use evalresp.StationXml.{X2rChannel}
use evalresp.StationXml.Node.{Clock}
use evalresp.StationXml.Print.{Printf, lines, format_date_yjhms}
use evalresp.StationXml.Print.Document.{is_blank_location, print_response, print_channel}
use evalresp.StationXml.Print.Dates.{format_date_yjhms-IsDateText}

-- The lines in front of some other text.
abbrev lines_then : List Str → Str → Str
lines_then [] more = more
lines_then (text ∷ texts) more = text ++ 10 ∷ lines_then texts more

lines-append : (texts : List Str) (more : Str) → lines texts ++ more ≡ lines_then texts more
unfolding lines
lines-append [] more = refl
lines-append (text ∷ texts) more =
    append_assoc text (10 ∷ lines texts) more ∙ ap (λ t. text ++ 10 ∷ t) (lines-append texts more)

-- The location as it is printed.
unfoldable pub printed_location : Str → Str
unfolding is_blank_location
printed_location code = if is_blank_location code then codes "??" else code

abbrev header_lines : Str → Str → Str → Str → Str → Str → List Str
header_lines stn net loc cha begins ends =
    codes "#"
    ∷ codes "###################################################################################"
    ∷ codes "#"
    ∷ (codes "B050F03     Station:     " ++ stn)
    ∷ (codes "B050F16     Network:     " ++ net)
    ∷ (codes "B052F03     Location:    " ++ loc)
    ∷ (codes "B052F04     Channel:     " ++ cha)
    ∷ (codes "B052F22     Start date:  " ++ begins)
    ∷ (codes "B052F23     End date:    " ++ ends)
    ∷ []

-- The location as it is read back: a blank one is printed as "??", which stands for an empty name.
abbrev pub location_read : Str → Str
location_read code = if is_blank_location code then [] else code

-- Names that can be read back: one word each, and no "??" at the start of a network or a location.
pub record CanRead {D : Type 0} (net stn : Str) (c : X2rChannel D) : Type 0 where
  pub network : IsName net
  pub known : has_prefix net (codes "??") ≡ false
  pub station : IsName stn
  pub code : IsName c.code
  pub location :
      (is_blank_location c.location_code ≡ true)
      ⊎ (IsName c.location_code × (has_prefix c.location_code (codes "??") ≡ false))

known_name-known : (s : Str) → has_prefix s (codes "??") ≡ false → known_name s ≡ s
unfolding known_name
known_name-known s h = rw h refl

IsName-unknown : IsName (codes "??")
IsName-unknown = record { some_text = λ k. cc; word = refl; short = omega arith }

known_name-unknown : known_name (codes "??") ≡ []
unfolding known_name has_prefix
known_name-unknown = refl

location_back :
    (code : Str)
    → (is_blank_location code ≡ true) ⊎ (IsName code × (has_prefix code (codes "??") ≡ false))
    → IsName (printed_location code) × (known_name (printed_location code) ≡ location_read code)
unfolding printed_location
location_back code (inl e) = rw e (IsName-unknown, known_name-unknown)
location_back code (inr (h, k)) = elim (Bool-cases (is_blank_location code)) [
  | inl e ↦ rw e (IsName-unknown, known_name-unknown)
  | inr e ↦ rw e (h, known_name-known code k)
]

lines_then-append :
    (texts : List Str) (a b : Str) → lines_then texts a ++ b ≡ lines_then texts (a ++ b)
lines_then-append [] a b = refl
lines_then-append (text ∷ texts) a b =
    append_assoc text (10 ∷ lines_then texts a) b
    ∙ ap (λ t. text ++ 10 ∷ t) (lines_then-append texts a b)

module _ {D : Type 0} ⦃d : Double D⦄ (clock : Clock) (pf : Printf D) (net stn : Str)
    (c : X2rChannel D) where
  -- What print_channel writes where the dates and the response can be written.
  print_channel-text :
      (begins ends body : Str)
      → format_date_yjhms clock c.start_date ≡ checked begins
      → format_date_yjhms clock c.end_date ≡ checked ends
      → print_response clock pf (record { net = net; stn = stn; channel = c }) c.response
        ≡ checked body
      → print_channel clock pf net stn c
        ≡ checked (header_text stn net (printed_location c.location_code) c.code begins ends body)
  unfolding print_channel printed_location
  print_channel-text begins ends body h k l =
      rw (h, k, l)
        (ap checked (
          lines-append (header_lines stn net (printed_location c.location_code) c.code begins ends)
            body))

  -- What print_channel has written, where it succeeds.
  pub record Printed (text : Str) : Type 0 where
    pub begins : Str
    pub ends : Str
    pub body : Str
    pub start_is : format_date_yjhms clock c.start_date ≡ checked begins
    pub end_is : format_date_yjhms clock c.end_date ≡ checked ends
    pub body_is :
        print_response clock pf (record { net = net; stn = stn; channel = c }) c.response
        ≡ checked body
    pub text_is :
        text ≡ header_text stn net (printed_location c.location_code) c.code begins ends body

  print_channel-Printed :
      (text : Str) → print_channel clock pf net stn c ≡ checked text → Printed text
  unfolding print_channel
  print_channel-Printed text h =
      let (begins, hb, h1) = bind-checked (format_date_yjhms clock c.start_date) _ h in
      let (ends, he, h2) = bind-checked (format_date_yjhms clock c.end_date) _ h1 in
      let (body, hr, h3) =
        bind-checked
          (print_response clock pf (record { net = net; stn = stn; channel = c }) c.response) _
          h2 in
      let whole = sym h ∙ print_channel-text begins ends body hb he hr in
      record {
        begins = begins;
        ends = ends;
        body = body;
        start_is = hb;
        end_is = he;
        body_is = hr;
        text_is = cc;
      }

module _ {D : Type 0} ⦃d : Double D⦄ (re : RegExp) (t : TakesDigits re) (clock : Clock)
    (pf : Printf D) (net stn : Str) (c : X2rChannel D) (s : Input D) (text more : Str) where
  -- The header of a channel that print_channel writes is read back by read_channel_header, whatever
  -- stands behind the channel: station, network, channel and dates as they are printed, the location
  -- with an empty name for a blank one, and what is left is the printed response. The names are words
  -- of less than 50 bytes, network and location do not start with ??, and the matcher takes digits
  -- for numbers.
  pub read_channel_header-print_channel :
      CanRead net stn c
      → print_channel clock pf net stn c ≡ checked text
      → s.seed ≡ text ++ more
      → (p : Printed clock pf net stn c text) × (read_channel_header re [] s ≡ (
        checked tt,
        record s {
          seed = p.body ++ more;
          channel =
              with_header
                (reset_numbers s.channel)
                stn
                net
                (location_read c.location_code)
                c.code
                p.begins
                p.ends;
        },
      ))
  read_channel_header-print_channel r h e =
      let p = print_channel-Printed clock pf net stn c text h in
      let (l, back) = location_back c.location_code r.location in
      let loc = printed_location c.location_code in
      let at : s.seed ≡ header_text stn net loc c.code p.begins p.ends (p.body ++ more) =
        e
        ∙ ap (λ u. u ++ more) p.text_is
        ∙ lines_then-append (header_lines stn net loc c.code p.begins p.ends) p.body more in
      (
        p,
        rw (← back, ← known_name-known net r.known)
            (read_channel_header-printed re t s stn net loc c.code p.begins p.ends (p.body ++ more)
              at r.station r.network l r.code
              (format_date_yjhms-IsDateText clock c.start_date p.begins p.start_is)
              (format_date_yjhms-IsDateText clock c.end_date p.ends p.end_is)),
      )
