-- ===== src/Input/Data.antt =====
-- read_channel_data of libsrc/evalresp/input.c: the blockettes of a channel and the stages they form.
use evalresp.Prelude.{
  ℕ, zero, suc, Bool, true, false, not, Option, none, some, [], if◌then◌else◌, length,
}
use evalresp.Prelude.Int.{ℤ, pos, eqb_ℤ}
use evalresp.CString.{Str}
use evalresp.Status.{eof}
use evalresp.Checked.{Checked, checked, failed, undefined}
use evalresp.RegExp.{RegExp}
use evalresp.Double.{Double}
use evalresp.Options.{Options}
use evalresp.Input.Action.{
  Action, pure, return, require, set_stage, set_channel, wild, next_line, ◌>>=◌, ◌>>◌,
}
use evalresp.Input.Filters.{is_iir_coeffs, read_pz, read_iir_coeff, read_coeff, read_fir}
use evalresp.Input.Polynomial.{read_polynomial}
use evalresp.Input.Lists.{read_list, read_generic, read_deci, read_gain}
use evalresp.Input.Reference.{new_stage, new_blkt, read_ref}
use evalresp.Input.Built.{Built, unbuilt, all_stages, add_blkt, add_reference}

-- The end of the input ends a blockette, which is kept.
unfoldable pub but_eof : Checked (Unit {0}) → Checked (Unit {0})
but_eof (failed eof) = checked tt
but_eof r = r

module _ {D : Type 0} where
  unfoldable pub past_eof : Action D Unit → Action D Unit
  unfolding but_eof
  past_eof m s = let (r, s') = m s in (but_eof r, s')

  -- A blockette that is not written in full, which a truncated input leaves, is where the model ends.
  unfoldable pub whole : Action D Unit
  whole s = (if s.torn then undefined else checked tt, s)

  -- A blockette with the number of its stage in tmp_stage.
  unfoldable pub staged : Action D Unit → Built D → Action D (Built D)
  staged reader b = do
    past_eof reader
    whole
    λ s. (checked (add_blkt true s.stage.sequence_no s.stage s.blkt b), s)

  -- A blockette with the number of its stage in curr_seq_no.
  unfoldable pub numbered : Action D Unit → Built D → Action D (Built D)
  numbered reader b = do
    past_eof reader
    whole
    λ s. (checked (add_blkt false s.sequence_no s.stage s.blkt b), s)

  -- The stages, unless the reader has failed.
  unfoldable pub unless_failed : Checked (Unit {0}) → Built D → Checked (Built D)
  unless_failed (checked _) b = checked b
  unless_failed (failed status) b = failed status
  unless_failed undefined b = undefined

  -- The stages of a blockette 60, for which tmp_stage2 is allocated.
  unfoldable pub referred : Action D Unit → Built D → Action D (Built D)
  unfolding unless_failed
  referred reader b s =
      let (r, s') = past_eof reader (record s { stages = []; stage = new_stage }) in
      (
        unless_failed r (add_reference s'.stages s'.stage b),
        record s' { stages = s.stages; stage = s.stage },
      )

-- The state of the loop: first_field, where it was set, and the stages. `done` has the first line of
-- the next channel.
pub data Round (D : Type 0) : Type 0 where
  more : Option ℤ → Built D → Round D
  done : Option ℤ → Built D → Str → Round D

module _ {D : Type 0} where
  -- What follows a round; `next` is the rest of the loop.
  unfoldable pub go_on :
      (Option ℤ → Built D → Action D (Option ℤ × Built D × Str))
      → Round D
      → Action D (Option ℤ × Built D × Str)
  go_on next (more f b) = next f b
  go_on next (done f b line) = pure (f, b, line)

module _ {D : Type 0} ⦃d : Double D⦄ (re : RegExp) (o : Option (Options D)) where
  -- Blockette 54 has an infinite or a finite response.
  unfoldable pub read_54_as : Option Bool → ℤ → Str → Action D Unit
  read_54_as none first_field first_line = wild
  read_54_as (some true) first_field first_line = read_iir_coeff re o first_field first_line
  read_54_as (some false) first_field first_line = read_coeff re o first_field first_line

  unfoldable pub read_54 : ℤ → Str → Action D Unit
  read_54 first_field first_line s = read_54_as (is_iir_coeffs s.seed) first_field first_line s

  -- The switch over the number of the blockette.
  unfoldable pub read_blkt : ℤ → ℤ → Str → Built D → Action D (Built D)
  read_blkt blkt_no first_field first_line b =
      if eqb_ℤ blkt_no (pos 53)
      then staged (read_pz re o first_field first_line) b
      else if eqb_ℤ blkt_no (pos 54)
      then staged (read_54 first_field first_line) b
      else if eqb_ℤ blkt_no (pos 55)
      then staged (read_list re o first_field first_line) b
      else if eqb_ℤ blkt_no (pos 56)
      then staged (read_generic re o first_field first_line) b
      else if eqb_ℤ blkt_no (pos 57)
      then numbered (read_deci re true first_field first_line) b
      else if eqb_ℤ blkt_no (pos 58)
      then numbered (read_gain re true first_field first_line) b
      else if eqb_ℤ blkt_no (pos 60)
      then referred (read_ref re o first_field first_line) b
      else if eqb_ℤ blkt_no (pos 61)
      then staged (read_fir re o first_field first_line) b
      else if eqb_ℤ blkt_no (pos 62)
      then staged (read_polynomial re o first_field first_line) b
      else pure b

  -- The strings of tmp_stage are reset for each blockette.
  unfoldable pub clear_stage : Action D Unit
  clear_stage =
      new_blkt >> set_stage λ st. record st { input_units_str = []; output_units_str = [] }

  -- What a round does with the result of read_line.
  unfoldable pub read_round_at : Option ℤ → Built D → Checked (ℤ × ℤ × Str) → Action D (Round D)
  read_round_at first_field b (checked (blkt_no, fld_no, line)) =
      if eqb_ℤ blkt_no (pos 50)
      then pure (done (some fld_no) b line)
      else (do clear_stage; b' ← read_blkt blkt_no fld_no line b; pure (more (some fld_no) b'))
  read_round_at first_field b (failed eof) = pure (done first_field b [])
  read_round_at first_field b (failed status) = return status
  read_round_at first_field b undefined = wild

  unfoldable pub read_round : Option ℤ → Built D → Action D (Round D)
  read_round first_field b s = let (r, s') = next_line re s in read_round_at first_field b r s'

  -- Each round reads a line.
  unfoldable pub read_rounds : ℕ → Option ℤ → Built D → Action D (Option ℤ × Built D × Str)
  read_rounds zero first_field b = return eof
  read_rounds (suc fuel) first_field b = read_round first_field b >>= go_on (read_rounds fuel)

  -- first_field ? EVALRESP_OK : EVALRESP_PAR. It was not written where there is no line at all.
  unfoldable pub check_first_field : Option ℤ → Action D Unit
  check_first_field none = wild
  check_first_field (some f) = require (not (eqb_ℤ f (pos 0)))

  -- The stages of the channel, and the line with the station of the next one, "" at the end.
  unfoldable pub read_channel_data : Action D Str
  read_channel_data s =
      (do
        set_stage λ st. new_stage
        (first_field, b, line) ← read_rounds (suc (length s.seed)) none unbuilt
        set_channel λ c. record c { stages = all_stages b }
        check_first_field first_field
        pure line)
        s
