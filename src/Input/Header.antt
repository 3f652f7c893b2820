-- ===== src/Input/Header.antt =====
-- read_channel_header of libsrc/evalresp/input.c: the names and the dates of a channel.
pub mod Printed
pub mod Lines
pub mod Read
use evalresp.Prelude.{ℕ, not, ◌&&◌, none, some, [], if◌then◌else◌}
use evalresp.Prelude.Int.{ℤ, pos, eqb_ℤ}
use evalresp.CString.{Str, codes, is_empty, has_prefix}
use evalresp.Status.{par, is_ok}
use evalresp.Checked.{Checked, checked, failed, undefined}
use evalresp.RegExp.{RegExp}
use evalresp.Double.{Double}
use evalresp.Channel.{Channel}
use evalresp.Reader.{LineRead, read_line, get_field_to_parse}
use evalresp.Input.Action.{
  Action, return, set_channel, fitting, field_of, input_line, input_field, ◌>>=◌, ◌>>◌,
}

-- The size of the fields for names, and of those for dates.
abbrev name_len : ℕ
name_len = 64

abbrev datim_len : ℕ
datim_len = 23

-- "??" stands for an empty name.
unfoldable pub known_name : Str → Str
unfolding has_prefix
known_name field = if has_prefix field (codes "??") then [] else field

unfoldable pub with_numbers : LineRead → Checked Str → Checked (ℤ × ℤ × Str)
with_numbers r (failed status) = failed status
with_numbers r undefined = undefined
with_numbers r (checked field) = elim r.blkt_no [
  | none ↦ undefined
  | some b ↦ elim r.fld_no [ none ↦ undefined | some f ↦ checked (b, f, field) ]
]

-- The numbers of the line behind the network, and its first field, "" where the line has no text.
-- A line without numbers leaves the variables unwritten that are compared next.
unfoldable pub location_of : LineRead → Checked (ℤ × ℤ × Str)
unfolding get_field_to_parse is_ok with_numbers
location_of r = with_numbers r (if is_ok r.status then get_field_to_parse r.line 0 else checked [])

module _ {D : Type 0} ⦃d : Double D⦄ where
  abbrev zero_d : D
  zero_d = d.of_int (pos 0)

  -- The members that are set to 0. nstages is the length of the list of stages.
  unfoldable pub reset_numbers : Channel D → Channel D
  reset_numbers c = record c {
    stages = [];
    sensfreq = zero_d;
    sensit = zero_d;
    calc_sensit = zero_d;
    calc_delay = zero_d;
    estim_delay = zero_d;
    applied_corr = zero_d;
    sint = zero_d;
  }

module _ {D : Type 0} ⦃d : Double D⦄ (re : RegExp) where
  unfoldable pub read_station : Str → Action D Str
  read_station first_line =
      if is_empty first_line
      then input_field re (codes ":") (pos 50) (pos 3) 0
      else field_of first_line 0

  unfoldable pub read_location : Action D (ℤ × ℤ × Str)
  read_location s =
      let r = read_line re s.seed (codes ":") in (location_of r, record s { seed = r.rest })

  -- B052F03 is the location and may be left out; B052F04 is the channel.
  unfoldable pub read_names : ℤ → ℤ → Str → Action D Unit
  read_names blkt_no fld_no field =
      if eqb_ℤ blkt_no (pos 52) && eqb_ℤ fld_no (pos 3)
      then (do
        locid ← fitting name_len (known_name field)
        set_channel λ c. record c { locid = locid }
        text ← input_field re (codes ":") (pos 52) (pos 4) 0
        chaname ← fitting name_len text
        set_channel λ c. record c { chaname = chaname })
      else if eqb_ℤ blkt_no (pos 52) && eqb_ℤ fld_no (pos 4)
      then (do
        chaname ← fitting name_len field
        set_channel λ c. record c { locid = []; chaname = chaname })
      else return par

module _ {D : Type 0} ⦃d : Double D⦄ (re : RegExp) where
  -- `first_line` is the line with the station where the channel before has read it.
  unfoldable pub read_channel_header : Str → Action D Unit
  read_channel_header first_line = do
    set_channel reset_numbers
    station ← read_station re first_line
    staname ← fitting name_len station
    set_channel λ c. record c { staname = staname }
    field ← input_field re (codes ":") (pos 50) (pos 16) 0
    network ← fitting name_len (known_name field)
    set_channel λ c. record c { network = network }
    (blkt_no, fld_no, text) ← read_location re
    read_names re blkt_no fld_no text
    begins ← input_line re (codes ":") (pos 52) (pos 22)
    beg_t ← fitting datim_len begins
    set_channel λ c. record c { beg_t = beg_t }
    ends ← input_line re (codes ":") (pos 52) (pos 23)
    end_t ← fitting datim_len ends
    set_channel λ c. record c { end_t = end_t }
