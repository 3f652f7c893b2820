-- ===== src/StationXml/Print/Dates.antt =====
-- Numbers and dates as they are printed are texts that are read back as dates.
use evalresp.Prelude.{
  ℕ, zero, suc, ◌+◌, ◌-◌, ◌/◌, ◌%◌, ◌<◌, ◌≡◌, ◌≢◌, refl, arith, Bool, true, false, ◌&&◌, inl, inr,
  subst, [], ◌∷◌, ◌++◌, ltb, leb, ltb→lt, length, replicate, Bool-cases, Option-cases,
}
use evalresp.Prelude.Int.{ℤ, pos, negsuc, ◌+ℤ◌, eqb_ℤ}
use evalresp.CString.{Str, codes}
use evalresp.Checked.{checked}
use evalresp.Reader.Fields.{starts_space}
use evalresp.Reader.Print.{is_plain}
use evalresp.Input.Header.Printed.{IsDateText}
use evalresp.StationXml.{unset_time_t}
use evalresp.StationXml.Node.{Tm, Clock}
use evalresp.StationXml.Print.{
  digits, show_nat, show_int, show_padded, strftime_yjhms, format_date, format_date_yjhms,
}

-- Digits and the marks between them.
abbrev graphic : Str → Bool
graphic [] = true
graphic (c ∷ s) = leb 44 c && leb c 58 && graphic s

graphic-append : (s t : Str) → graphic s ≡ true → graphic t ≡ true → graphic (s ++ t) ≡ true
graphic-append [] t h k = k
graphic-append (c ∷ s) t h k = ground (arith, graphic-append s t)

graphic-digits : (fuel n : ℕ) → graphic (digits fuel n) ≡ true
unfolding digits
graphic-digits zero n = refl
graphic-digits (suc fuel) n =
    let last : graphic ((48 + n % 10) ∷ []) ≡ true = ground arith in
    ground (
      arith,
      graphic-append (digits fuel (n / 10)) ((48 + n % 10) ∷ []) (graphic-digits fuel (n / 10))
          last,
    )

graphic-show_nat : (n : ℕ) → graphic (show_nat n) ≡ true
unfolding show_nat
graphic-show_nat n = graphic-digits (suc n) n

graphic-replicate : (n : ℕ) → graphic (replicate n 48) ≡ true
graphic-replicate zero = refl
graphic-replicate (suc n) = graphic-replicate n

graphic-show_int : (n : ℤ) → graphic (show_int n) ≡ true
unfolding show_int
graphic-show_int (pos n) = graphic-show_nat n
graphic-show_int (negsuc n) = graphic-show_nat (suc n)

graphic-show_padded : (w : ℕ) (n : ℤ) → graphic (show_padded w n) ≡ true
unfolding show_padded
graphic-show_padded w (pos n) =
    graphic-append (replicate (w - length (show_nat n)) 48) (show_nat n)
      (graphic-replicate (w - length (show_nat n))) (graphic-show_nat n)
graphic-show_padded w (negsuc n) =
    graphic-append (replicate (w - 1 - length (show_nat (suc n))) 48) (show_nat (suc n))
      (graphic-replicate (w - 1 - length (show_nat (suc n)))) (graphic-show_nat (suc n))

append-some : (s t : Str) → s ≢ [] → s ++ t ≢ []
append-some [] t h = absurd (h refl)
append-some (c ∷ s) t h = λ k. cc

snoc-some : (s : Str) (c : ℕ) → s ++ c ∷ [] ≢ []
snoc-some [] c = λ k. cc
snoc-some (d ∷ s) c = λ k. cc

show_nat-some : (n : ℕ) → show_nat n ≢ []
unfolding show_nat digits
show_nat-some n = ground (arith, snoc-some (digits n (n / 10)) (48 + n % 10))

show_int-some : (n : ℤ) → show_int n ≢ []
unfolding show_int
show_int-some (pos n) = show_nat-some n
show_int-some (negsuc n) = λ k. cc

graphic-plain : (s : Str) → graphic s ≡ true → is_plain s ≡ true
graphic-plain [] h = refl
graphic-plain (c ∷ s) h = ground (arith, graphic-plain s)

graphic-starts : (s : Str) → s ≢ [] → graphic s ≡ true → starts_space s ≡ false
graphic-starts [] n h = absurd (n refl)
graphic-starts (c ∷ s) n h = ground arith

graphic-IsDateText : (s : Str) → s ≢ [] → graphic s ≡ true → length s < 18 → IsDateText s
graphic-IsDateText s n h k = record {
  some_text = n;
  starts = graphic-starts s n h;
  plain = graphic-plain s h;
  short = omega (arith, k);
}

record IsGraphic (s : Str) : Type 0 where
  all : graphic s ≡ true

-- Two parts with a mark between them.
IsGraphic-join :
    (c : ℕ) {s t : Str}
    → (leb 44 c && leb c 58) ≡ true
    → IsGraphic s
    → IsGraphic t
    → IsGraphic (s ++ c ∷ t)
IsGraphic-join c {s} {t} m h k = record {
  all = graphic-append s (c ∷ t) h.all (ground (arith, m, k.all));
}

IsGraphic-padded : (w : ℕ) (n : ℤ) → IsGraphic (show_padded w n)
IsGraphic-padded w n = record { all = graphic-show_padded w n }

module _ (tm : Tm) where
  IsGraphic-yjhms : IsGraphic (strftime_yjhms tm)
  unfolding strftime_yjhms
  IsGraphic-yjhms =
      let year : IsGraphic (show_int (tm.tm_year +ℤ pos 1900)) = record {
        all = graphic-show_int (tm.tm_year +ℤ pos 1900);
      } in
      IsGraphic-join b':' refl
        (IsGraphic-join b':' refl
          (IsGraphic-join b',' refl
            (IsGraphic-join b',' refl year (IsGraphic-padded 3 (tm.tm_yday +ℤ pos 1)))
            (IsGraphic-padded 2 tm.tm_hour))
          (IsGraphic-padded 2 tm.tm_min))
        (IsGraphic-padded 2 tm.tm_sec)

  some_yjhms : strftime_yjhms tm ≢ []
  unfolding strftime_yjhms
  some_yjhms =
      append-some _ _ (
        append-some _ _
          (append-some _ _ (append-some _ _ (show_int-some (tm.tm_year +ℤ pos 1900)))))

open_date : IsDateText (codes "No Ending Time")
open_date = record { some_text = λ k. cc; starts = refl; plain = refl; short = omega arith }

module _ (clock : Clock) (epoch : ℤ) (text : Str) where
  -- A date that is printed is short enough for the reader, and has no white space in front.
  pub format_date_yjhms-IsDateText : format_date_yjhms clock epoch ≡ checked text → IsDateText text
  unfolding format_date_yjhms format_date
  format_date_yjhms-IsDateText h = elim (Bool-cases (eqb_ℤ epoch unset_time_t)) [
    | inl e ↦ subst IsDateText (ground (arith, e, h)) open_date
    | inr e ↦ elim (Option-cases (clock.gmtime epoch)) [
      | inl g ↦ absurd (ground (arith, e, g, h))
      | inr (tm, g) ↦
          let k : ltb (length (strftime_yjhms tm)) 18 ≡ true = ground (arith, e, g, h) in
          let same : strftime_yjhms tm ≡ text = ground (arith, e, g, h, k) in
          subst IsDateText same
            (graphic-IsDateText _ (some_yjhms tm) (IsGraphic-yjhms tm).all (ltb→lt _ _ k))
    ]
  ]
