-- ===== src/StationXml/Print.antt =====
-- The formatting functions of libsrc/evalresp/stationxml2resp/dom_to_seed.c. Writing to the stream
-- does not fail: a function gives the text that it writes.
pub mod Blockettes
pub mod Document
pub mod Dates
pub mod Read
use evalresp.Prelude.{
  ℕ, zero, suc, ◌+◌, ◌-◌, ◌/◌, ◌%◌, Bool, none, some, List, [], ◌∷◌, ◌++◌, ltb, leb, ◌==◌,
  if◌then◌else◌, length, take, replicate,
}
use evalresp.Prelude.Int.{ℤ, pos, negsuc, ◌+ℤ◌, eqb_ℤ}
use evalresp.CString.{Str, codes, str_eq}
use evalresp.Checked.{Checked, checked, failed, ◌>>=◌}
use evalresp.StationXml.{x2r_err_buffer, x2r_err_date, unset_time_t, X2rChannel}
use evalresp.StationXml.Node.{Tm, Clock}

-- What printf writes for a double, with the conversion specification that is given.
pub record Printf (D : Type 0) : Type 0 where
  pub double : Str → D → Str

-- The decimal digits of a number. A number has no more digits than its value and one.
digits : ℕ → ℕ → Str
digits zero n = []
digits (suc fuel) n =
    let more = digits fuel (n / 10) ++ (48 + n % 10) ∷ [] in
    if ltb n 10 then (48 + n) ∷ [] else more

unfoldable pub show_nat : ℕ → Str
unfolding digits
show_nat n = digits (suc n) n

-- %d
unfoldable pub show_int : ℤ → Str
unfolding show_nat
show_int (pos n) = show_nat n
show_int (negsuc n) = b'-' ∷ show_nat (suc n)

abbrev pub pad_left : ℕ → ℕ → Str → Str
pad_left width c s = replicate (width - length s) c ++ s

abbrev pub pad_right : ℕ → Str → Str
pad_right width s = s ++ replicate (width - length s) 32

-- %0*d: the zeros stand behind the sign.
unfoldable pub show_padded : ℕ → ℤ → Str
unfolding show_nat
show_padded width (pos n) = pad_left width 48 (show_nat n)
show_padded width (negsuc n) = b'-' ∷ pad_left (width - 1) 48 (show_nat (suc n))

-- line and lines: each text with a linefeed.
unfoldable pub lines : List Str → Str
lines [] = []
lines (text ∷ more) = text ++ 10 ∷ lines more

-- The two templates of strftime, "%Y,%j,%H:%M:%S" and "%m/%d/%Y".
unfoldable pub strftime_yjhms : Tm → Str
unfolding show_int show_padded
strftime_yjhms tm =
    show_int (tm.tm_year +ℤ pos 1900)
    ++ b',' ∷ show_padded 3 (tm.tm_yday +ℤ pos 1)
    ++ b',' ∷ show_padded 2 tm.tm_hour
    ++ b':' ∷ show_padded 2 tm.tm_min
    ++ b':' ∷ show_padded 2 tm.tm_sec

unfoldable pub strftime_mdy : Tm → Str
unfolding show_int show_padded
strftime_mdy tm =
    show_padded 2 (tm.tm_mon +ℤ pos 1)
    ++ b'/' ∷ show_padded 2 tm.tm_mday
    ++ b'/' ∷ show_int (tm.tm_year +ℤ pos 1900)

-- strftime gives 0 where the text does not fit `n` bytes with its NUL.
unfoldable pub format_date : Clock → ℤ → ℕ → (Tm → Str) → Checked Str
format_date clock epoch n template =
    if eqb_ℤ epoch unset_time_t
    then checked (codes "No Ending Time")
    else elim (clock.gmtime epoch) [
      | none ↦ failed x2r_err_date
      | some tm ↦
          if ltb (length (template tm)) n then checked (template tm) else failed x2r_err_buffer
    ]

module _ (clock : Clock) where
  -- n is strlen ("YYYY,jjj,HH:MM:SS") + 1
  unfoldable pub format_date_yjhms : ℤ → Checked Str
  unfolding format_date strftime_yjhms
  format_date_yjhms epoch = format_date clock epoch 18 strftime_yjhms

  -- n is strlen ("mm/dd/YYYY") + 1
  unfoldable pub format_date_mdy : ℤ → Checked Str
  unfolding format_date strftime_mdy
  format_date_mdy epoch = format_date clock epoch 11 strftime_mdy

-- memset and chrncpy: a column of `n` bytes.
abbrev column : ℕ → Str → Str
column n s = pad_right n (take n s)

unfoldable pub centre : Str → ℕ → Str
centre text width =
    let len = if ltb width (length text) then width else length text in
    let margin = (width - len) / 2 in
    replicate margin 32 ++ take len text ++ replicate (width - margin - len) 32

unfoldable pub centre_sncl : {D : Type 0} → Str → Str → X2rChannel D → ℕ → Str
unfolding centre
centre_sncl net stn channel width =
    centre (column 4 net ++ column 7 stn ++ column 4 channel.location_code ++ channel.code) width

unfoldable pub convert_tft : Str → Str
unfolding str_eq
convert_tft type =
    if str_eq type (codes "LAPLACE (RADIANS/SECOND)")
    then codes "A"
    else if str_eq type (codes "LAPLACE (HERTZ)")
    then codes "B"
    else if str_eq type (codes "DIGITAL (Z-TRANSFORM)")
    then codes "D"
    else if str_eq type (codes "DIGITAL")
    then codes "D"
    else codes "Undefined"

unfoldable pub convert_symmetry : Str → Str
unfolding str_eq
convert_symmetry symmetry =
    if str_eq symmetry (codes "EVEN")
    then codes "C"
    else if str_eq symmetry (codes "ODD")
    then codes "B"
    else codes "A"

-- net and stn, the first arguments of the functions that print a part of a channel
pub record ChannelPlace (D : Type 0) : Type 0 where
  pub net : Str
  pub stn : Str
  pub channel : X2rChannel D

unfoldable pub box : {D : Type 0} → Clock → Str → ChannelPlace D → Checked Str
unfolding centre centre_sncl format_date_mdy lines
box clock title p = do
  start ← format_date_mdy clock p.channel.start_date
  end ← format_date_mdy clock p.channel.end_date
  checked (
      lines (
        codes "#"
        ∷ codes "#                  +-----------------------------------+"
        ∷ (codes "#                  |" ++ centre title 35 ++ codes "|")
        ∷ (codes "#                  |" ++ centre_sncl p.net p.stn p.channel 35 ++ codes "|")
        ∷ (codes "#                  |     " ++ start ++ codes " to " ++ end ++ codes "      |")
        ∷ codes "#                  +-----------------------------------+"
        ∷ codes "#"
        ∷ []))
