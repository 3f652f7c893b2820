-- ===== src/Input/Reference.antt =====
-- read_ref of libsrc/evalresp/input.c: the stages of a blockette 60, with the blockettes 41 to 48 in
-- them.
use evalresp.Prelude.{ℕ, zero, suc, false, not, Option, [], ◌∷◌, ◌++◌, if◌then◌else◌, ◌==◌}
use evalresp.Prelude.Int.{ℤ, pos, eqb_ℤ}
use evalresp.CString.{Str}
use evalresp.Status.{par}
use evalresp.RegExp.{RegExp}
use evalresp.Double.{Double}
use evalresp.Channel.{Stage, Refer, undef_units, undef_filt, reference}
use evalresp.Options.{Options}
use evalresp.Input.Action.{
  Action, pure, return, require, when, modify, set_stage, set_blkt, set_torn, repeat, next_line,
  find_int_field, parse_int_field, ◌>>=◌, ◌>>◌,
}
use evalresp.Input.Filters.{is_three, set_sequence_no, read_pz, read_coeff, read_fir}
use evalresp.Input.Lists.{index, read_list, read_generic, read_deci, read_gain}

module _ {D : Type 0} where
  -- A stage as alloc_stage leaves it.
  abbrev pub new_stage : Stage D
  new_stage = record {
    sequence_no = pos 0;
    input_units = undef_units;
    output_units = undef_units;
    input_units_str = [];
    output_units_str = [];
    blkts = [];
  }

  -- A blockette before its reader fills it.
  unfoldable pub new_blkt : Action D Unit
  new_blkt = set_blkt undef_filt >> set_torn false

  -- The blockette 60 that the stage starts with.
  unfoldable pub set_reference : Refer → Action D Unit
  set_reference r = set_stage λ st. record st { blkts = reference r ∷ [] }

  -- last_blkt->next_blkt = blkt_ptr
  unfoldable pub link : Action D Unit
  link = modify λ s. record s { stage = record s.stage { blkts = s.stage.blkts ++ s.blkt ∷ [] } }

  -- A new stage with an empty blockette 60 behind this one.
  unfoldable pub next_stage : Action D Unit
  next_stage = modify λ s. record s {
    stages = s.stages ++ s.stage ∷ [];
    stage = record new_stage {
      blkts =
          reference (record { num_stages = pos 0; stage_num = pos 0; num_responses = pos 0 }) ∷ [];
    };
  }

module _ {D : Type 0} ⦃d : Double D⦄ (re : RegExp) (o : Option (Options D)) where
  -- The reader of a response in a stage, by the number of its blockette.
  unfoldable pub read_response : ℤ → ℤ → Str → Action D Unit
  read_response blkt_no fld_no line =
      if eqb_ℤ blkt_no (pos 43)
      then read_pz re o fld_no line
      else if eqb_ℤ blkt_no (pos 44)
      then read_coeff re o fld_no line
      else if eqb_ℤ blkt_no (pos 45)
      then read_list re o fld_no line
      else if eqb_ℤ blkt_no (pos 46)
      then read_generic re o fld_no line
      else if eqb_ℤ blkt_no (pos 47)
      then read_deci re false fld_no line
      else if eqb_ℤ blkt_no (pos 48)
      then read_gain re false fld_no line
      else if eqb_ℤ blkt_no (pos 41)
      then read_fir re o fld_no line
      else return par

  -- A response that is read in full is linked to the stage.
  unfoldable pub read_linked : Action D Unit
  read_linked = do
    (blkt_no, fld_no, line) ← next_line re
    new_blkt
    read_response blkt_no fld_no line
    link

  -- The round of the loop over the stages, before the next stage is begun.
  unfoldable pub read_stage : ℤ → Action D Unit
  read_stage nstages = do
    stage_num ← find_int_field re (pos 60) (pos 4)
    set_reference (record { num_stages = nstages; stage_num = stage_num; num_responses = pos 0 })
    set_sequence_no stage_num
    nresps ← find_int_field re (pos 60) (pos 5)
    set_reference (record { num_stages = nstages; stage_num = stage_num; num_responses = nresps })
    linked ← repeat (index nresps) read_linked
    pure tt

  -- The stage that is begun has the same number of stages.
  unfoldable pub begin_stage : ℤ → Action D Unit
  begin_stage nstages = do
    next_stage
    lcl_nstages ← find_int_field re (pos 60) (pos 3)
    require (eqb_ℤ lcl_nstages nstages)
    set_reference (record { num_stages = nstages; stage_num = pos 0; num_responses = pos 0 })

  -- The loop over the stages, of which there are `n` more.
  unfoldable pub read_stages : ℤ → ℕ → Action D Unit
  read_stages nstages zero = pure tt
  read_stages nstages (suc n) = do
    read_stage nstages
    when (not (n == 0)) (begin_stage nstages)
    read_stages nstages n

  unfoldable pub read_ref : ℤ → Str → Action D Unit
  read_ref first_field first_line = do
    set_reference (record { num_stages = pos 0; stage_num = pos 0; num_responses = pos 0 })
    require (is_three first_field)
    nstages ← parse_int_field re first_line 0
    set_reference (record { num_stages = nstages; stage_num = pos 0; num_responses = pos 0 })
    read_stages nstages (index nstages)
