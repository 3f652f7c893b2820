-- ===== src/DateTime.antt =====
-- Dates of libsrc/evalresp/input.c: parse_datetime, timecmp, earlier, duration and in_epoch.
pub mod Order
pub mod Epoch
use evalresp.Prelude.{
  ℕ, ◌-◌, ◌%◌, ◌^◌, ◌≡◌, refl, Bool, true, false, not, ◌&&◌, List, [], ◌∷◌, if◌then◌else◌, take,
  drop,
}
use evalresp.Prelude.Int.{ℤ, pos, negsuc, ◌+ℤ◌, ◌-ℤ◌, ◌*ℤ◌, ltb_ℤ, leb_ℤ}
use evalresp.CString.{Str, codes, is_empty, has_prefix_nocase, span_to, atoi, int_of_bits}
use evalresp.Double.{Double}
use evalresp.Channel.{Channel}

pub record DateTime (D : Type 0) : Type 0 where
  pub year : ℤ
  pub jday : ℤ
  pub hour : ℤ
  pub min : ℤ
  pub sec : D

-- time_t timegm (&time) for the first of January of a year
pub record Calendar : Type 0 where
  pub year_start : ℤ → ℤ

abbrev pub datim_len : ℕ
datim_len = 23

-- The rest behind the separator at which a field ends. Behind the last field strncpy has put NULs.
abbrev next : Str × Str → Str
next p = drop 1 p.1

-- !strncasecmp (end_t, NO_ENDING_TIME, sizeof (NO_ENDING_TIME) - 1)
unfoldable pub is_open : Str → Bool
unfolding has_prefix_nocase
is_open end_t = has_prefix_nocase end_t (codes "No Ending Time")

-- (int) of a time_t
abbrev pub int_of_time : ℤ → ℤ
int_of_time (pos n) = int_of_bits n
int_of_time (negsuc n) = int_of_bits (2 ^ 64 - 1 - n % 2 ^ 64)

module _ {D : Type 0} ⦃d : Double D⦄ where
  -- A string of 22 bytes or more that lacks one of the separators makes the code read behind temp_str;
  -- the model has NULs there.
  unfoldable pub parse_datetime : Str → DateTime D
  unfolding span_to atoi
  parse_datetime str =
      let year = span_to b',' (take datim_len str) in
      let jday = span_to b',' (next year) in
      let hour = span_to b':' (next jday) in
      let min = span_to b':' (next hour) in
      let sec = next min in
      let zero = pos 0 in
      record {
        year = atoi year.0;
        jday = atoi jday.0;
        hour = if is_empty (next jday) then zero else atoi hour.0;
        min = if is_empty (next hour) then zero else atoi min.0;
        sec = if is_empty sec then d.of_int zero else d.to_float (d.strtod sec).0;
      }

  -- -1, 0 or 1
  unfoldable pub timecmp : DateTime D → DateTime D → ℤ
  timecmp dt1 dt2 =
      if ltb_ℤ dt1.year dt2.year
      then negsuc 0
      else if ltb_ℤ dt2.year dt1.year
      then pos 1
      else if ltb_ℤ dt1.jday dt2.jday
      then negsuc 0
      else if ltb_ℤ dt2.jday dt1.jday
      then pos 1
      else if ltb_ℤ dt1.hour dt2.hour
      then negsuc 0
      else if ltb_ℤ dt2.hour dt1.hour
      then pos 1
      else if ltb_ℤ dt1.min dt2.min
      then negsuc 0
      else if ltb_ℤ dt2.min dt1.min
      then pos 1
      else if d.lt dt1.sec dt2.sec
      then negsuc 0
      else if d.lt dt2.sec dt1.sec
      then pos 1
      else pos 0

  unfoldable pub earlier : Channel D → Channel D → Bool
  unfolding is_open parse_datetime timecmp
  earlier a b =
      if is_open a.end_t
      then (if is_open b.end_t
          then leb_ℤ (timecmp (parse_datetime a.beg_t) (parse_datetime b.beg_t)) (pos 0)
          else false)
      else if is_open b.end_t
      then true
      else leb_ℤ (timecmp (parse_datetime a.end_t) (parse_datetime b.end_t)) (pos 0)

  unfoldable pub in_epoch : DateTime D → Str → Str → Bool
  unfolding is_open parse_datetime timecmp
  in_epoch requirement beg_t end_t =
      let begun = leb_ℤ (timecmp (parse_datetime beg_t) requirement) (pos 0) in
      if is_open end_t
      then begun
      else begun && ltb_ℤ (pos 0) (timecmp (parse_datetime end_t) requirement)

  -- `delta` is a time_t; the seconds are added as a float.
  unfoldable pub to_epoch : Calendar → DateTime D → ℤ
  unfolding ◌+ℤ◌ ◌-ℤ◌ ◌*ℤ◌
  to_epoch cal dt =
      let days = dt.jday -ℤ pos 1 in
      let hours = dt.hour +ℤ days *ℤ pos 24 in
      let mins = dt.min +ℤ hours *ℤ pos 60 in
      let secs = d.to_long (d.to_float (d.add dt.sec (d.to_float (d.of_int (mins *ℤ pos 60))))) in
      cal.year_start dt.year +ℤ secs

  unfoldable pub duration : Calendar → Channel D → ℤ
  unfolding is_open parse_datetime to_epoch int_of_bits ◌-ℤ◌
  duration cal channel =
      if is_open channel.end_t
      then pos 2147483647
      else int_of_time (
          to_epoch cal (parse_datetime channel.end_t)
          -ℤ to_epoch cal (parse_datetime channel.beg_t))
