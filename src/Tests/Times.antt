-- ===== src/Tests/Times.antt =====
-- Dates and epochs.
use evalresp.Prelude.{◌≡◌, ◌≢◌, refl, not, ◌<◌, ◌≤◌, ◌^◌}
use evalresp.Prelude.Int.{ℤ, pos, ◌+ℤ◌, ◌-ℤ◌, ◌*ℤ◌}
use evalresp.CString.{codes}
use evalresp.DateTime.{DateTime, parse_datetime, in_epoch, duration}
use evalresp.DateTime.Epoch.{HasSeconds, clock_seconds, day_seconds, in_epoch_split, duration-exact}
use evalresp.Tests.Whole.{whole, calendar}
use evalresp.Tests.Data.{ancient}

abbrev noon : DateTime ℤ
noon = record { year = pos 2012; jday = pos 10; hour = pos 12; min = pos 0; sec = pos 30 }

abbrev later_day : DateTime ℤ
later_day = record { year = pos 2012; jday = pos 11; hour = pos 0; min = pos 0; sec = pos 0 }

parsed : parse_datetime {D = ℤ} (codes "2012,010,12:00:30") ≡ noon
unfolding parse_datetime
parsed = refl

parsed_date : parse_datetime {D = ℤ} (codes "2012,011") ≡ later_day
unfolding parse_datetime
parsed_date = refl

in_epoch_split_example :
    in_epoch noon (codes "2005,001") (codes "No Ending Time")
    ≡ not (in_epoch noon (codes "2000,001") (codes "2005,001"))
unfolding in_epoch
in_epoch_split_example =
    in_epoch_split noon (codes "2000,001") (codes "2005,001") (codes "No Ending Time") refl refl

-- Eighty years do not fit the int.
duration-exact_example :
    (2522880000 < 2 ^ 31 → duration calendar ancient ≡ pos 2522880000)
    × (2 ^ 31 ≤ 2522880000 → duration calendar ancient ≢ pos 2522880000)
unfolding duration parse_datetime HasSeconds clock_seconds day_seconds ◌+ℤ◌ ◌-ℤ◌ ◌*ℤ◌
duration-exact_example =
    duration-exact calendar ancient (pos 0) (pos 0) 2522880000 refl refl refl refl
