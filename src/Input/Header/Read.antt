-- ===== src/Input/Header/Read.antt =====
-- read_channel_header reads back a header as dom_to_seed.c prints it.
use evalresp.Prelude.{◌≡◌, ◌<◌, ◌≤◌, ◌∙◌, ap, refl, arith, [], ◌∷◌, ◌++◌, length}
use evalresp.Prelude.Int.{pos}
use evalresp.CString.{Str, codes, atoi}
use evalresp.Status.{is_ok}
use evalresp.Checked.{checked}
use evalresp.RegExp.{RegExp}
use evalresp.Double.{Double}
use evalresp.Channel.{Channel}
use evalresp.Reader.{drop_comments_and_blank_lines}
use evalresp.Reader.Print.{line_read}
use evalresp.Input.Action.{Input, set_channel, modify}
use evalresp.Input.Header.{
  known_name, reset_numbers, read_station, read_location, location_of, read_names,
  read_channel_header,
}
use evalresp.Input.Header.Printed.{
  TakesDigits, IsName, name-fits, IsDateText, no_space-plain, no_space-starts, field-no_space, step,
  step_then, fitting-short, input_line-found, input_field-found,
}
use evalresp.Input.Header.Lines.{
  station_line, network_line, location_line, channel_line, start_line, end_line,
  drop_comments-header, find_line-station, find_line-network, find_line-channel, find_line-start,
  find_line-end, read_line-location,
}

-- The lines in front of the blockettes of a channel, and the rest.
abbrev pub header_text : Str → Str → Str → Str → Str → Str → Str → Str
header_text stn net loc cha begins ends rest =
    codes "#"
    ++ 10
      ∷ (codes "###################################################################################"
          ++ 10
            ∷ (codes "#"
                ++ 10
                  ∷ (station_line stn
                      ++ 10
                        ∷ (network_line net
                            ++ 10
                              ∷ (location_line loc
                                  ++ 10
                                    ∷ (channel_line cha
                                        ++ 10
                                          ∷ (start_line begins
                                              ++ 10 ∷ (end_line ends ++ 10 ∷ rest))))))))

-- What is read back of it.
abbrev pub with_header : {D : Type 0} → Channel D → Str → Str → Str → Str → Str → Str → Channel D
with_header c stn net loc cha begins ends = record c {
  staname = stn;
  network = net;
  locid = loc;
  chaname = cha;
  beg_t = begins;
  end_t = ends;
}

location_of-name :
    (loc rest : Str)
    → IsName loc
    → location_of (line_read (b'0', b'5', b'2') (b'0', b'3') loc rest)
      ≡ checked (pos 52, pos 3, loc)
unfolding location_of is_ok atoi
location_of-name loc rest h = rw (field-no_space loc h) refl

module _ {D : Type 0} ⦃d : Double D⦄ (re : RegExp) (t : TakesDigits re) (s : Input D)
    (loc rest : Str) (at : s.seed ≡ location_line loc ++ 10 ∷ rest) where
  read_location-printed :
      IsName loc → read_location re s ≡ (checked (pos 52, pos 3, loc), record s { seed = rest })
  unfolding read_location
  read_location-printed h =
      let e =
        read_line-location re t s.seed loc rest h.some_text (no_space-starts loc h.some_text h.word)
          (no_space-plain loc h.word) (name-fits _ h) at in
      rw (e, location_of-name loc rest h) refl

module _ {D : Type 0} ⦃d : Double D⦄ (re : RegExp) (t : TakesDigits re) (loc cha rest : Str)
    (s : Input D) (at : s.seed ≡ channel_line cha ++ 10 ∷ rest) where
  -- The names of location and channel.
  read_names-printed :
      length (known_name loc) < 64
      → IsName cha
      → read_names re (pos 52) (pos 3) loc s ≡ (
        checked tt,
        record s {
          seed = rest;
          channel = record s.channel { locid = known_name loc; chaname = cha };
        },
      )
  unfolding read_names set_channel modify
  read_names-printed k h = step _ _ (fitting-short _ _ _ k) (
      step_then _ _ refl (
        step _ _
          (input_field-found re _ _ _ cha rest
            (find_line-channel re t _ cha rest h.some_text (no_space-starts cha h.some_text h.word)
              (no_space-plain cha h.word) (name-fits _ h) at)
            h)
          (step _ _ (fitting-short _ _ _ (name-fits _ h)) refl)))

length-known_name : (s : Str) → length (known_name s) ≤ length s
unfolding known_name
length-known_name s = ground arith

module _ {D : Type 0} ⦃d : Double D⦄ (re : RegExp) (t : TakesDigits re) (s : Input D)
    (stn net loc cha begins ends rest : Str)
    (at : s.seed ≡ header_text stn net loc cha begins ends rest) where
  read_station-printed :
      IsName stn
      → read_station re [] s ≡ (
        checked stn,
        record s {
          seed =
              network_line net
              ++ 10
                ∷ (location_line loc
                    ++ 10
                      ∷ (channel_line cha
                          ++ 10 ∷ (start_line begins ++ 10 ∷ (end_line ends ++ 10 ∷ rest))));
        },
      )
  unfolding read_station
  read_station-printed h =
      input_field-found re _ _ s stn _
        (find_line-station re t s.seed stn _ h.some_text (no_space-starts stn h.some_text h.word)
          (no_space-plain stn h.word) (name-fits _ h)
          (ap drop_comments_and_blank_lines at ∙ drop_comments-header _))
        h

module _ {D : Type 0} ⦃d : Double D⦄ (re : RegExp) (t : TakesDigits re) (s : Input D)
    (stn net loc cha begins ends rest : Str)
    (at : s.seed ≡ header_text stn net loc cha begins ends rest) where
  -- read_channel_header of a header as it is printed.
  pub read_channel_header-printed :
      IsName stn
      → IsName net
      → IsName loc
      → IsName cha
      → IsDateText begins
      → IsDateText ends
      → read_channel_header re [] s ≡ (
        checked tt,
        record s {
          seed = rest;
          channel =
              with_header
                (reset_numbers s.channel)
                stn
                (known_name net)
                (known_name loc)
                cha
                begins
                ends;
        },
      )
  unfolding read_channel_header set_channel modify
  read_channel_header-printed hs hn hl hc hb he =
      let r1 =
        read_station-printed re t (record s { channel = reset_numbers s.channel }) stn net loc cha
          begins ends rest at hs in
      step_then _ _ refl (
        step _ _ r1 (
          step _ _ (fitting-short _ _ _ (name-fits _ hs)) (
            step_then _ _ refl (
              step _ _
                (input_field-found re _ _ _ net _
                  (find_line-network re t _ net _ hn.some_text
                    (no_space-starts net hn.some_text hn.word) (no_space-plain net hn.word)
                    (name-fits _ hn) refl)
                  hn)
                (step _ _
                  (fitting-short _ _ _ (omega (arith, length-known_name net, name-fits net hn)))
                  (step_then _ _ refl (
                    step _ _ (read_location-printed re t _ loc _ refl hl) (
                      step_then _ _
                        (read_names-printed re t loc cha _ _ refl
                          (omega (arith, length-known_name loc, name-fits loc hl)) hc)
                        (step _ _
                          (input_line-found re _ _ _ begins _ (
                            find_line-start re t _ begins _ hb.some_text hb.starts hb.plain
                              (omega (arith, hb.short)) refl))
                          (step _ _ (fitting-short _ _ _ hb.short) (
                            step_then _ _ refl (
                              step _ _
                                (input_line-found re _ _ _ ends _ (
                                  find_line-end re t _ ends _ he.some_text he.starts he.plain
                                    (omega (arith, he.short)) refl))
                                (step _ _ (fitting-short _ _ _ he.short) refl)))))))))))))
