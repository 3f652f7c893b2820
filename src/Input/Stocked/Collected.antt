-- ===== src/Input/Stocked/Collected.antt =====
-- The channels that collect_channels returns have blockettes.
use evalresp.Prelude.{
  ℕ, zero, suc, ◌≡◌, refl, Option, List, [], ◌∷◌, All, All-++, length, Bool-cases, inl, inr,
}
use evalresp.CString.{Str, is_empty}
use evalresp.Checked.{Checked, checked, failed, undefined, Ensures}
use evalresp.RegExp.{RegExp}
use evalresp.Double.{Double}
use evalresp.Channel.{Channel}
use evalresp.Options.{Options}
use evalresp.Input.Action.{Input, proceed, ◌>>=◌, ◌>>◌}
use evalresp.Input.Header.{read_channel_header}
use evalresp.Input.Data.{read_channel_data}
use evalresp.Input.Collect.{from_seed, read_channel, add_channel, collect_from, collect_channels}
use evalresp.Input.Stocked.Returned.{HasBlockettes, read_channel_data-stages}

module _ {D : Type 0} ⦃d : Double D⦄ (re : RegExp) (o : Option (Options D)) where
  headed :
      (r : Checked (Unit {0}) × Input D) (line : Str)
      → (proceed r (λ u. read_channel_data re o)).0 ≡ checked line
      → HasBlockettes (proceed r (λ u. read_channel_data re o)).1.channel
  unfolding proceed
  headed (checked u, s) line e = read_channel_data-stages re o s line e
  headed (failed status, s) line e = absurd cc
  headed (undefined, s) line e = absurd cc

  read_channel-HasBlockettes :
      (first line : Str) (s : Input D)
      → (read_channel re o first s).0 ≡ checked line
      → HasBlockettes (read_channel re o first s).1.channel
  unfolding read_channel ◌>>◌ ◌>>=◌
  read_channel-HasBlockettes first line s e = headed (read_channel_header re first s) line e

  add_channel-HasBlockettes :
      (next : Str → Str → List (Channel D) → Checked (List (Channel D))) (cs : List (Channel D))
      (r : Checked Str × Input D)
      → All (HasBlockettes) cs
      → ((line : Str) → r.0 ≡ checked line → HasBlockettes r.1.channel)
      → ((seed line : Str) (ds : List (Channel D))
          → All (HasBlockettes) ds
          → Ensures (All (HasBlockettes)) (next seed line ds))
      → Ensures (All (HasBlockettes)) (add_channel next cs r)
  unfolding add_channel
  add_channel-HasBlockettes next cs (checked line, s) h k l =
      l s.seed line _ (All-++ (HasBlockettes) cs (s.channel ∷ []) h (k line refl, tt))
  add_channel-HasBlockettes next cs (failed status, s) h k l = tt
  add_channel-HasBlockettes next cs (undefined, s) h k l = tt

  collect_from-HasBlockettes :
      (n : ℕ) (seed first : Str) (cs : List (Channel D))
      → All (HasBlockettes) cs
      → Ensures (All (HasBlockettes)) (collect_from re o n seed first cs)
  unfolding collect_from
  collect_from-HasBlockettes zero seed first cs h = tt
  collect_from-HasBlockettes (suc n) seed first cs h = elim (Bool-cases (is_empty seed)) [
    | inl e ↦ rw e h
    | inr e ↦ rw e (
        add_channel-HasBlockettes (collect_from re o n) cs
          (read_channel re o first (from_seed seed)) h
          (λ line q. read_channel-HasBlockettes first line (from_seed seed) q)
          (collect_from-HasBlockettes n))
  ]

  -- In each channel that collect_channels returns, every stage has a blockette, or the channel has one
  -- stage alone, as it was allocated.
  pub collect_channels-HasBlockettes :
      (seed : Str) → Ensures (All (HasBlockettes)) (collect_channels re o seed)
  unfolding collect_channels
  collect_channels-HasBlockettes seed = collect_from-HasBlockettes (suc (length seed)) seed [] [] tt
