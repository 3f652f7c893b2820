-- ===== src/Filter/Product.antt =====
-- The entries that evalresp_add_sncl_all of libsrc/evalresp/input.c adds to a filter.
use evalresp.Prelude.{
  ◌≡◌, sym, ap, ◌∙◌, Option, some, List, [], ◌∷◌, ◌++◌, map, append_assoc, append-nil,
}
use mathlib.Core.List.{flat_map}
use evalresp.CString.{Str}
use evalresp.UserList.{split_on_space, split_on_comma}
use evalresp.Filter.{
  Sncl, Filter, default_text, locid_text, evalresp_add_sncl_text, add_channels, add_locations,
  add_stations, evalresp_add_sncl_all,
}

-- The entry of one name of each kind.
abbrev pub entry : Option Str → Str → Str → Str → Sncl
entry net sta loc chan = record {
  station = sta;
  network = default_text net;
  locid = locid_text (some loc);
  channel = chan;
  found = 0;
}

-- Every station with every location and every channel, the channels first.
abbrev pub entries : Option Str → List Str → List Str → List Str → List Sncl
entries net stas locs chans =
    flat_map (λ sta. flat_map (λ loc. map (entry net sta loc) chans) locs) stas

module _ {D : Type 0} (net : Option Str) where
  add_channels-sncls :
      (f : Filter D) (sta loc : Str) (chans : List Str)
      → (add_channels f net sta loc chans).sncls ≡ f.sncls ++ map (entry net sta loc) chans
  unfolding add_channels evalresp_add_sncl_text default_text
  add_channels-sncls f sta loc [] = sym (append-nil f.sncls)
  add_channels-sncls f sta loc (chan ∷ chans) =
      add_channels-sncls (evalresp_add_sncl_text f net (some sta) (some loc) (some chan)) sta loc
        chans
      ∙ append_assoc f.sncls (entry net sta loc chan ∷ []) (map (entry net sta loc) chans)

  add_locations-sncls :
      (f : Filter D) (sta : Str) (locs chans : List Str)
      → (add_locations f net sta locs chans).sncls
        ≡ f.sncls ++ flat_map (λ loc. map (entry net sta loc) chans) locs
  unfolding add_locations flat_map
  add_locations-sncls f sta [] chans = sym (append-nil f.sncls)
  add_locations-sncls f sta (loc ∷ locs) chans =
      let more = flat_map (λ l. map (entry net sta l) chans) locs in
      add_locations-sncls (add_channels f net sta loc chans) sta locs chans
      ∙ ap (λ t. t ++ more) (add_channels-sncls f sta loc chans)
      ∙ append_assoc f.sncls (map (entry net sta loc) chans) more

  add_stations-sncls :
      (f : Filter D) (stas locs chans : List Str)
      → (add_stations f net stas locs chans).sncls ≡ f.sncls ++ entries net stas locs chans
  unfolding add_stations flat_map
  add_stations-sncls f [] locs chans = sym (append-nil f.sncls)
  add_stations-sncls f (sta ∷ stas) locs chans =
      let more = entries net stas locs chans in
      add_stations-sncls (add_locations f net sta locs chans) stas locs chans
      ∙ ap (λ t. t ++ more) (add_locations-sncls f sta locs chans)
      ∙ append_assoc f.sncls (flat_map (λ loc. map (entry net sta loc) chans) locs) more

  -- evalresp_add_sncl_all adds to the entries of a filter one for every station with every location
  -- and every channel of the lists, in the order of the lists, all with the network and with no
  -- channel found; the location is put through its special cases.
  pub evalresp_add_sncl_all-entries :
      (f : Filter D) (sta locid chan : Option Str)
      → (evalresp_add_sncl_all f net sta locid chan).sncls
        ≡ f.sncls ++ entries net (split_on_space sta) (split_on_comma locid) (split_on_space chan)
  unfolding evalresp_add_sncl_all
  evalresp_add_sncl_all-entries f sta locid chan =
      add_stations-sncls f (split_on_space sta) (split_on_comma locid) (split_on_space chan)
