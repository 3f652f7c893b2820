-- ===== src/Calc/Fed.antt =====
-- The stages that the transfer functions of libsrc/evalresp/calc_fctns.c can read: those that take
-- their sample interval from the next blockette have a decimation there.
use evalresp.Prelude.{Bool, true, false, not, ◌&&◌, ◌||◌, List, [], ◌∷◌}
use evalresp.Channel.{Blkt, iir, pole_zero, fir, iir_coeffs, list, polynomial, decimation}

module _ {D : Type 0} where
  -- The filters whose response needs the sample interval.
  abbrev pub is_digital : Blkt D → Bool
  is_digital (pole_zero iir p) = true
  is_digital (fir t f) = true
  is_digital (iir_coeffs c) = true
  is_digital _ = false

  abbrev pub starts_decimation : List (Blkt D) → Bool
  starts_decimation (decimation x ∷ _) = true
  starts_decimation _ = false

  -- A decimation stands behind every digital filter.
  abbrev pub is_fed : List (Blkt D) → Bool
  is_fed [] = true
  is_fed (b ∷ next) = (not (is_digital b) || starts_decimation next) && is_fed next

  abbrev pub none_digital : List (Blkt D) → Bool
  none_digital [] = true
  none_digital (b ∷ next) = not (is_digital b) && none_digital next

  -- No response list and no polynomial, which check_channel lets stand beside another filter.
  abbrev pub is_plain : Blkt D → Bool
  is_plain (list l) = false
  is_plain (polynomial p) = false
  is_plain _ = true

  abbrev pub all_plain : List (Blkt D) → Bool
  all_plain [] = true
  all_plain (b ∷ next) = is_plain b && all_plain next
