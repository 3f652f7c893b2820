-- ===== src/Selection.antt =====
-- filter_channels of libsrc/evalresp/input.c: of the channels that match the filter, one of each name
-- is kept. A channel that is freed or taken over is NULL in the array of the code, and `none` here.
pub mod Winners
pub mod Distinct
pub mod Covered
pub mod Best
pub mod Output
use evalresp.Prelude.{
  ℕ, zero, suc, Bool, true, false, ◌&&◌, ◌||◌, Option, none, some, List, [], ◌∷◌, map,
  if◌then◌else◌, length,
}
use evalresp.RegExp.{RegExp}
use evalresp.Double.{Double}
use evalresp.Channel.{Channel}
use evalresp.DateTime.{DateTime, Calendar}
use evalresp.Filter.{Filter, same_channel, passes, filter_date, loses}
use evalresp.Checked.{Checked, checked, undefined, ◌>>=◌}
use evalresp.Check.Scan.{is_some}
use evalresp.Check.Stage.{check_channel}

-- What the inner loop leaves: best_match, the channels behind the candidate with the beaten ones
-- freed, and whether it set warn_user.
pub record Contest (C : Type 0) : Type 0 where
  pub best_match : Bool
  pub others : List (Option C)
  pub warn_user : Bool

-- What filter_channels leaves: *channels_out, warn_user and the filter with its counters.
pub record Selected (D : Type 0) : Type 0 where
  pub channels_out : List (Channel D)
  pub warn_user : Bool
  pub filter : Option (Filter D)

module _ {D : Type 0} ⦃d : Double D⦄ (cal : Calendar) where
  -- The loop over `j`, which stops when the candidate loses.
  unfoldable pub contest :
      Option (DateTime D) → Channel D → List (Option (Channel D)) → Contest (Channel D)
  contest date candidate [] = record { best_match = true; others = []; warn_user = false }
  contest date candidate (none ∷ rest) =
      let c = contest date candidate rest in record c { others = none ∷ c.others }
  contest date candidate (some other ∷ rest) =
      let c = contest date candidate rest in
      if same_channel candidate other
      then (if loses cal date candidate other
          then record { best_match = false; others = some other ∷ rest; warn_user = is_some date }
          else record c { others = none ∷ c.others })
      else record c { others = some other ∷ c.others }

module _ {D : Type 0} where
  kept : (Channel D → Checked (Channel D)) → Channel D → Checked (Selected D) → Checked (Selected D)
  kept check candidate more = do
    c ← check candidate
    r ← more
    checked (record r { channels_out = c ∷ r.channels_out })

  warned : Bool → Checked (Selected D) → Checked (Selected D)
  warned w (checked r) = checked (record r { warn_user = w || r.warn_user })
  warned w r = r

module _ {D : Type 0} ⦃d : Double D⦄ (re : RegExp) (cal : Calendar) where
  -- The loop over `i`; `check` stands for check_channel.
  select_from :
      (Channel D → Checked (Channel D))
      → ℕ
      → Option (Filter D)
      → List (Option (Channel D))
      → Checked (Selected D)
  select_from check fuel filter [] =
      checked (record { channels_out = []; warn_user = false; filter = filter })
  select_from check zero filter (c ∷ rest) = undefined
  select_from check (suc fuel) filter (none ∷ rest) = select_from check fuel filter rest
  select_from check (suc fuel) filter (some candidate ∷ rest) =
      let (match, filter') = passes re filter candidate in
      let c = contest cal (filter_date filter) candidate rest in
      let skip = select_from check fuel filter' rest in
      let go = select_from check fuel filter' c.others in
      if match
      then warned c.warn_user (if c.best_match then kept check candidate go else go)
      else skip

  unfoldable pub filter_channels : Option (Filter D) → List (Channel D) → Checked (Selected D)
  unfolding select_from contest kept warned check_channel
  filter_channels filter channels_in =
      select_from check_channel (length channels_in) filter (map some channels_in)
