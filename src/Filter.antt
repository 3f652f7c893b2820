-- ===== src/Filter.antt =====
-- Which channels are kept: the filter of libsrc/evalresp/public_api.h, channel_matches,
-- filter_channels and the functions that fill a filter (libsrc/evalresp/input.c).
pub mod Names
pub mod Product
use evalresp.Prelude.{
  ℕ, zero, suc, ◌+◌, ◌≡◌, refl, Bool, true, false, not, ◌&&◌, ◌||◌, Option, none, some, List, [],
  ◌∷◌, ◌++◌, map, if◌then◌else◌, length, ◌==◌,
}
use evalresp.Prelude.Int.{ℤ, pos, leb_ℤ, eqb_ℤ}
use evalresp.CString.{Str, codes, is_empty, str_eq}
use evalresp.Status.{Status, ok, is_ok}
use evalresp.RegExp.{RegExp, glob, reg_string_match}
use evalresp.Double.{Double}
use evalresp.Channel.{Channel}
use evalresp.DateTime.{DateTime, Calendar, earlier, in_epoch, duration}
use evalresp.UserList.{split_on_space, split_on_comma}

-- `found` counts the channels that the entry has matched.
pub record Sncl : Type 0 where
  pub station : Str
  pub network : Str
  pub locid : Str
  pub channel : Str
  pub found : ℕ

pub record Filter (D : Type 0) : Type 0 where
  pub sncls : List Sncl
  pub datetime : Option (DateTime D)

unfoldable pub default_text : Option Str → Str
default_text none = codes "*"
default_text (some s) = s

-- strlen (s) == strspn (s, c), for a string of one byte
unfoldable pub all_are : ℕ → Str → Bool
all_are c [] = true
all_are c (b ∷ s) = (b == c) && all_are c s

-- The special cases for the location.
unfoldable pub locid_text : Option Str → Str
unfolding all_are
locid_text none = codes "*"
locid_text (some s) = if all_are b'?' s then codes "*" else if all_are b' ' s then [] else s

module _ {D : Type 0} where
  unfoldable pub evalresp_add_sncl_text :
      Filter D → Option Str → Option Str → Option Str → Option Str → Filter D
  unfolding default_text locid_text
  evalresp_add_sncl_text filter net sta locid chan = record filter {
    sncls =
        filter.sncls
        ++ record {
          station = default_text sta;
          network = default_text net;
          locid = locid_text locid;
          channel = default_text chan;
          found = 0;
        }
          ∷ [];
  }

  -- The three loops of evalresp_add_sncl_all, from the innermost one.
  unfoldable pub add_channels : Filter D → Option Str → Str → Str → List Str → Filter D
  add_channels filter net sta loc [] = filter
  add_channels filter net sta loc (chan ∷ chans) =
      add_channels (evalresp_add_sncl_text filter net (some sta) (some loc) (some chan)) net sta loc
        chans

  unfoldable pub add_locations : Filter D → Option Str → Str → List Str → List Str → Filter D
  add_locations filter net sta [] chans = filter
  add_locations filter net sta (loc ∷ locs) chans =
      add_locations (add_channels filter net sta loc chans) net sta locs chans

  unfoldable pub add_stations : Filter D → Option Str → List Str → List Str → List Str → Filter D
  add_stations filter net [] locs chans = filter
  add_stations filter net (sta ∷ stas) locs chans =
      add_stations (add_locations filter net sta locs chans) net stas locs chans

  unfoldable pub evalresp_add_sncl_all :
      Filter D → Option Str → Option Str → Option Str → Option Str → Filter D
  unfolding add_stations add_locations add_channels evalresp_add_sncl_text
  evalresp_add_sncl_all filter net sta locid chan =
      add_stations filter net (split_on_space sta) (split_on_comma locid) (split_on_space chan)

  unfoldable pub same_channel : Channel D → Channel D → Bool
  same_channel a b =
      str_eq a.network b.network
      && str_eq a.staname b.staname
      && str_eq a.locid b.locid
      && str_eq a.chaname b.chaname

module _ {D : Type 0} (re : RegExp) where
  unfoldable pub sncl_matches : Channel D → Sncl → Bool
  sncl_matches c sncl =
      reg_string_match re c.staname sncl.station glob
      && ((is_empty sncl.network && is_empty c.network)
          || reg_string_match re c.network sncl.network glob)
      && reg_string_match re c.locid sncl.locid glob
      && reg_string_match re c.chaname sncl.channel glob

  -- The loop over the entries, which counts the match at the first one that fits.
  unfoldable pub match_sncls : Channel D → List Sncl → Bool × List Sncl
  unfolding sncl_matches
  match_sncls c [] = (false, [])
  match_sncls c (s ∷ ss) =
      let (found, ss') = match_sncls c ss in
      if sncl_matches c s then (true, record s { found = s.found + 1 } ∷ ss) else (found, s ∷ ss')

-- filter->datetime && filter->datetime->year
unfoldable pub date_of : {D : Type 0} → Filter D → Option (DateTime D)
date_of filter = elim filter.datetime [
  | none ↦ none
  | some t ↦ if eqb_ℤ t.year (pos 0) then none else some t
]

module _ {D : Type 0} ⦃d : Double D⦄ where
  unfoldable pub in_date : Option (DateTime D) → Channel D → Bool
  in_date none c = true
  in_date (some t) c = in_epoch t c.beg_t c.end_t

module _ {D : Type 0} ⦃d : Double D⦄ (re : RegExp) where
  unfoldable pub channel_matches : Filter D → Channel D → Bool × Filter D
  unfolding match_sncls in_date date_of
  channel_matches filter c =
      let (found, sncls) = match_sncls re c filter.sncls in
      if in_date (date_of filter) c
      then (if is_empty filter.sncls
          then (true, filter)
          else (found, record filter { sncls = sncls }))
      else (false, filter)

  -- A filter may be NULL.
  unfoldable pub passes : Option (Filter D) → Channel D → Bool × Option (Filter D)
  unfolding channel_matches
  passes none c = (true, none)
  passes (some filter) c = let (b, filter') = channel_matches filter c in (b, some filter')

module _ {D : Type 0} where
  unfoldable pub filter_date : Option (Filter D) → Option (DateTime D)
  unfolding date_of
  filter_date none = none
  filter_date (some filter) = date_of filter

module _ {D : Type 0} ⦃d : Double D⦄ (cal : Calendar) where
  -- Whether the candidate loses against another channel of the same name.
  unfoldable pub loses : Option (DateTime D) → Channel D → Channel D → Bool
  loses none candidate other = earlier candidate other
  loses (some t) candidate other =
      in_epoch t other.beg_t other.end_t && leb_ℤ (duration cal other) (duration cal candidate)
