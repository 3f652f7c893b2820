-- ===== src/DateTime/Epoch.antt =====
-- in_epoch as a half-open interval, and the bounds of duration.
use evalresp.Prelude.{
  ℕ, ◌+◌, ◌*◌, ap, ◌∙◌, ◌^◌, ◌≤◌, ◌<◌, ◌≡◌, ◌≢◌, Bool, true, false, not, ◌&&◌, arith, if◌then◌else◌,
}
use evalresp.Prelude.Int.{ℤ, pos, ◌+ℤ◌, ◌-ℤ◌, ◌*ℤ◌, pos_part, neg_part, ltb_ℤ, leb_ℤ}
use evalresp.CString.{Str, int_of_bits}
use evalresp.Double.{Double}
use evalresp.Channel.{Channel}
use evalresp.DateTime.{
  DateTime, Calendar, is_open, parse_datetime, timecmp, in_epoch, to_epoch, duration,
}

int_of_bits_small : (n : ℕ) → n < 2 ^ 31 → int_of_bits n ≡ pos n
unfolding int_of_bits
int_of_bits_small n h = ground arith

int_of_bits_large : (n : ℕ) → 2 ^ 31 ≤ n → int_of_bits n ≢ pos n
unfolding int_of_bits
int_of_bits_large n h e = ground arith

split_at :
    (endless begun ended : Bool) (m : ℤ)
    → (if endless then begun else begun && ended) ≡ true
    → (if endless then leb_ℤ m (pos 0) else leb_ℤ m (pos 0) && ended)
      ≡ not (begun && ltb_ℤ (pos 0) m)
split_at true true e m h = ground arith
split_at false true true m h = ground arith
split_at true false e m h = cc
split_at false true false m h = cc
split_at false false e m h = cc

same_parts : (a b : ℤ) → pos_part a + neg_part b ≡ pos_part b + neg_part a → a ≡ b
same_parts a b h = ground arith

parts_add :
    (a b : ℤ)
    → pos_part (a +ℤ b) + (neg_part a + neg_part b) ≡ pos_part a + pos_part b + neg_part (a +ℤ b)
unfolding ◌+ℤ◌
parts_add a b = ground arith

parts_scale :
    (a : ℤ) (k : ℕ)
    → pos_part (a *ℤ pos k) + neg_part a * k ≡ pos_part a * k + neg_part (a *ℤ pos k)
unfolding ◌*ℤ◌
parts_scale a k = ground arith

-- The hours of the days and the minutes of the hours, in seconds.
minutes-seconds :
    (m h y : ℤ)
    → (m +ℤ (h +ℤ y *ℤ pos 24) *ℤ pos 60) *ℤ pos 60
      ≡ m *ℤ pos 60 +ℤ (h *ℤ pos 3600 +ℤ y *ℤ pos 86400)
minutes-seconds m h y =
    let a = parts_scale y 24 in
    let b = parts_add h (y *ℤ pos 24) in
    let c = parts_scale (h +ℤ y *ℤ pos 24) 60 in
    let e = parts_add m ((h +ℤ y *ℤ pos 24) *ℤ pos 60) in
    let f = parts_scale (m +ℤ (h +ℤ y *ℤ pos 24) *ℤ pos 60) 60 in
    let g = parts_scale h 3600 in
    let i = parts_scale y 86400 in
    let j = parts_add (h *ℤ pos 3600) (y *ℤ pos 86400) in
    let k = parts_scale m 60 in
    let l = parts_add (m *ℤ pos 60) (h *ℤ pos 3600 +ℤ y *ℤ pos 86400) in
    same_parts _ _ (omega arith)

module _ {D : Type 0} ⦃d : Double D⦄ where
  -- A time of an epoch lies in exactly one of the two epochs that a time `mid` cuts it into, where
  -- `mid` is no open end.
  pub in_epoch_split :
      (r : DateTime D) (beg mid end : Str)
      → is_open mid ≡ false
      → in_epoch r beg end ≡ true
      → in_epoch r mid end ≡ not (in_epoch r beg mid)
  unfolding in_epoch
  in_epoch_split r beg mid end h k = rw h (
      split_at (is_open end) (leb_ℤ (timecmp (parse_datetime beg) r) (pos 0))
        (ltb_ℤ (pos 0) (timecmp (parse_datetime end) r)) (timecmp (parse_datetime mid) r) k)

  -- The seconds from the start of the year to the minute of a date.
  unfoldable pub day_seconds : DateTime D → ℤ
  day_seconds dt = dt.min *ℤ pos 60 +ℤ (dt.hour *ℤ pos 3600 +ℤ (dt.jday -ℤ pos 1) *ℤ pos 86400)

  -- The seconds of a date are `s`, and the float that they are added to loses none.
  unfoldable pub HasSeconds : DateTime D → ℤ → Type 0
  unfolding day_seconds
  HasSeconds dt s =
      d.to_long (d.to_float (d.add dt.sec (d.to_float (d.of_int (day_seconds dt)))))
      ≡ s +ℤ day_seconds dt

  -- A date in seconds, its own being `s`.
  unfoldable pub clock_seconds : Calendar → DateTime D → ℤ → ℤ
  unfolding day_seconds
  clock_seconds cal dt s = cal.year_start dt.year +ℤ (s +ℤ day_seconds dt)

  to_epoch-seconds :
      (cal : Calendar) (dt : DateTime D) (s : ℤ)
      → HasSeconds dt s
      → to_epoch cal dt ≡ clock_seconds cal dt s
  unfolding to_epoch HasSeconds clock_seconds day_seconds
  to_epoch-seconds cal dt s h =
      let m = minutes-seconds dt.min dt.hour (dt.jday -ℤ pos 1) in
      ap
        (λ z.
          cal.year_start dt.year +ℤ d.to_long (d.to_float (d.add dt.sec (d.to_float (d.of_int z)))))
        m
      ∙ ap (λ z. cal.year_start dt.year +ℤ z) h

  -- The duration of an epoch with an end that is `n` seconds after its start, by the years, days, hours,
  -- minutes and seconds of the two dates: the int holds `n` exactly where `n` is less than 2^31, some
  -- 68 years. The seconds of the dates are whole and their floats exact.
  pub duration-exact :
      (cal : Calendar) (c : Channel D) (s t : ℤ) (n : ℕ)
      → is_open c.end_t ≡ false
      → HasSeconds (parse_datetime c.beg_t) s
      → HasSeconds (parse_datetime c.end_t) t
      → clock_seconds cal (parse_datetime c.end_t) t -ℤ clock_seconds cal (parse_datetime c.beg_t) s
        ≡ pos n
      → (n < 2 ^ 31 → duration cal c ≡ pos n) × (2 ^ 31 ≤ n → duration cal c ≢ pos n)
  unfolding duration
  duration-exact cal c s t n o h k e =
      let e' : to_epoch {D = D} cal (parse_datetime c.end_t)
            -ℤ to_epoch {D = D} cal (parse_datetime c.beg_t)
          ≡ pos n =
        rw (to_epoch-seconds cal _ t k, to_epoch-seconds cal _ s h) e in
      (λ lt. rw (o, e') (int_of_bits_small n lt), λ le. rw (o, e') (int_of_bits_large n le))
