-- ===== src/Filter/Names.antt =====
-- Channels of one name, and what a filter says of them.
use evalresp.Prelude.{◌≡◌, refl, sym, ◌∙◌, true, Option, none, some, List, [], ◌∷◌, arith}
use evalresp.CString.Search.{str_eq_refl, str_eq→eq}
use evalresp.RegExp.{RegExp}
use evalresp.Double.{Double}
use evalresp.Channel.{Channel}
use evalresp.Filter.{
  Sncl, Filter, same_channel, sncl_matches, match_sncls, in_date, channel_matches, passes,
  filter_date,
}

-- The names by which channels are told apart.
pub record SameName {D : Type 0} (a b : Channel D) : Type 0 where
  pub network : a.network ≡ b.network
  pub staname : a.staname ≡ b.staname
  pub locid : a.locid ≡ b.locid
  pub chaname : a.chaname ≡ b.chaname

module _ {D : Type 0} where
  pub same_channel→SameName : (a b : Channel D) → same_channel a b ≡ true → SameName a b
  unfolding same_channel
  same_channel→SameName a b h = record {
    network = str_eq→eq a.network b.network (ground arith);
    staname = str_eq→eq a.staname b.staname (ground arith);
    locid = str_eq→eq a.locid b.locid (ground arith);
    chaname = str_eq→eq a.chaname b.chaname (ground arith);
  }

  pub SameName→same_channel : (a b : Channel D) → SameName a b → same_channel a b ≡ true
  unfolding same_channel
  SameName→same_channel a b h = ground (
    arith,
    str_eq_refl a.network,
    str_eq_refl a.staname,
    str_eq_refl a.locid,
    str_eq_refl a.chaname,
  )

  pub same_channel_refl : (a : Channel D) → same_channel a a ≡ true
  same_channel_refl a =
      SameName→same_channel a a
        (record { network = refl; staname = refl; locid = refl; chaname = refl })

  pub same_channel_sym : (a b : Channel D) → same_channel a b ≡ true → same_channel b a ≡ true
  same_channel_sym a b h =
      let e = same_channel→SameName a b h in
      SameName→same_channel b a (record {
        network = sym e.network;
        staname = sym e.staname;
        locid = sym e.locid;
        chaname = sym e.chaname;
      })

  pub same_channel_trans :
      (a b c : Channel D)
      → same_channel a b ≡ true
      → same_channel b c ≡ true
      → same_channel a c ≡ true
  same_channel_trans a b c h k =
      let e = same_channel→SameName a b h in
      let f = same_channel→SameName b c k in
      SameName→same_channel a c (record {
        network = e.network ∙ f.network;
        staname = e.staname ∙ f.staname;
        locid = e.locid ∙ f.locid;
        chaname = e.chaname ∙ f.chaname;
      })

module _ {D : Type 0} (re : RegExp) where
  sncl_matches-SameName :
      (a b : Channel D) (s : Sncl) → SameName a b → sncl_matches re a s ≡ sncl_matches re b s
  unfolding sncl_matches
  sncl_matches-SameName a b s h = cc (h.network, h.staname, h.locid, h.chaname)

  match_sncls-SameName :
      (a b : Channel D) (ss : List Sncl)
      → SameName a b
      → (match_sncls re a ss).0 ≡ (match_sncls re b ss).0
  unfolding match_sncls
  match_sncls-SameName a b [] h = refl
  match_sncls-SameName a b (s ∷ ss) h =
      ground (arith, sncl_matches-SameName a b s h, match_sncls-SameName a b ss h)

module _ {D : Type 0} ⦃d : Double D⦄ (re : RegExp) where
  -- Of two channels of one name the filter accepts both, where it accepts one and the other is in
  -- its date.
  pub passes-same_channel :
      (f : Option (Filter D)) (a b : Channel D)
      → same_channel a b ≡ true
      → (passes re f a).0 ≡ true
      → in_date (filter_date f) b ≡ true
      → (passes re f b).0 ≡ true
  unfolding passes channel_matches filter_date
  passes-same_channel none a b h k e = refl
  passes-same_channel (some f) a b h k e =
      ground (arith, match_sncls-SameName re a b f.sncls (same_channel→SameName a b h))

  pub passes-in_date :
      (f : Option (Filter D)) (a : Channel D)
      → (passes re f a).0 ≡ true
      → in_date (filter_date f) a ≡ true
  unfolding passes channel_matches filter_date in_date
  passes-in_date none a k = refl
  passes-in_date (some f) a k = ground arith
