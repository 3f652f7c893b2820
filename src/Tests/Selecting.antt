-- ===== src/Tests/Selecting.antt =====
-- filter_channels on three channels of two stations.
use evalresp.Prelude.{◌≡◌, refl, true, false, Option, none, some, List, [], ◌∷◌, All}
use evalresp.Prelude.Int.{ℤ, pos}
use evalresp.CString.{str_eq}
use evalresp.Channel.{Channel}
use evalresp.DateTime.{parse_datetime, earlier, in_epoch, duration}
use evalresp.Filter.{Filter, same_channel, passes, loses, filter_date}
use evalresp.Checked.{checked}
use evalresp.Selection.{Selected, filter_channels}
use evalresp.Selection.Distinct.{AllDistinct}
use evalresp.Selection.Covered.{Covered}
use evalresp.Selection.Best.{NoEarlier, NoLonger}
use evalresp.Selection.Output.{
  filter_channels-AllDistinct, filter_channels-latest, filter_channels-shortest,
}
use evalresp.Tests.Whole.{whole, whole-IsOrdered, simple, calendar}
use evalresp.Tests.Data.{anmo_old, anmo_new, cola, ancient}

abbrev channels : List (Channel ℤ)
channels = anmo_old ∷ anmo_new ∷ cola ∷ []

abbrev latest : Selected ℤ
latest = record { channels_out = anmo_new ∷ cola ∷ []; warn_user = false; filter = none }

-- The first of January of 2003, for any station.
abbrev in_2003 : Option (Filter ℤ)
in_2003 = some (record {
  sncls = [];
  datetime =
      some (record { year = pos 2003; jday = pos 1; hour = pos 0; min = pos 0; sec = pos 0 });
})

abbrev overlapping : List (Channel ℤ)
overlapping = ancient ∷ anmo_old ∷ anmo_new ∷ []

abbrev shortest : Selected ℤ
shortest = record { channels_out = ancient ∷ []; warn_user = false; filter = in_2003 }

selected : filter_channels simple calendar none channels ≡ checked latest
unfolding filter_channels passes same_channel str_eq loses filter_date earlier
selected = refl

-- The durations of the three epochs are 2522880000 seconds, which the int takes for a negative
-- number, and 157680000 twice.
selected_at : filter_channels simple calendar in_2003 overlapping ≡ checked shortest
unfolding filter_channels passes same_channel str_eq loses filter_date earlier in_epoch duration
selected_at = refl

filter_channels-AllDistinct_example : AllDistinct (anmo_new ∷ cola ∷ [])
filter_channels-AllDistinct_example =
    filter_channels-AllDistinct simple calendar none channels latest selected

filter_channels-latest_example :
    All (λ x. (passes simple none x).0 ≡ true → Covered NoEarlier x (anmo_new ∷ cola ∷ [])) channels
unfolding filter_date
filter_channels-latest_example =
    filter_channels-latest simple calendar whole-IsOrdered none channels latest refl
      (unfold parse_datetime in ((refl, refl), ((refl, refl), ((refl, refl), tt)))) selected

filter_channels-shortest_example :
    All
      (λ x. (passes simple in_2003 x).0 ≡ true → Covered (NoLonger calendar) x (ancient ∷ []))
      overlapping
unfolding filter_date
filter_channels-shortest_example =
    filter_channels-shortest simple calendar in_2003
      (record { year = pos 2003; jday = pos 1; hour = pos 0; min = pos 0; sec = pos 0 }) overlapping
      shortest refl selected_at
