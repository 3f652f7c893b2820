-- ===== src/Input/Built.antt =====
-- How read_channel_data of libsrc/evalresp/input.c joins blockettes to stages, and the stages of a
-- blockette 60 to those before them.
use evalresp.Prelude.{Bool, true, false, not, ◌&&◌, List, [], ◌∷◌, ◌++◌, if◌then◌else◌}
use evalresp.Prelude.Int.{ℤ, pos, eqb_ℤ}
use evalresp.Channel.{Stage, Blkt}
use evalresp.Input.Reference.{new_stage}

-- The stages of a channel as far as they are read: those before `this_stage`, and `this_stage`.
-- `read_blkt`: a blockette was read; `no_units`: the units of `this_stage` are still to be set.
pub record Built (D : Type 0) : Type 0 where
  pub before : List (Stage D)
  pub this_stage : Stage D
  pub read_blkt : Bool
  pub no_units : Bool
  pub last_seq_no : ℤ

module _ {D : Type 0} where
  -- The beginning: one stage without blockettes.
  abbrev pub unbuilt : Built D
  unbuilt = record {
    before = [];
    this_stage = new_stage;
    read_blkt = false;
    no_units = false;
    last_seq_no = pos 0;
  }

  abbrev pub all_stages : Built D → List (Stage D)
  all_stages b = b.before ++ b.this_stage ∷ []

  -- The stage with the blockettes `bs` at its end.
  abbrev pub with_blkts : Stage D → List (Blkt D) → Stage D
  with_blkts st bs = record st { blkts = st.blkts ++ bs }

  -- The blockette goes to the stage before it where the numbers of the stages agree.
  unfoldable pub place_blkt : ℤ → Blkt D → Built D → Built D
  place_blkt curr_seq_no blkt b =
      if not b.read_blkt
      then record b {
        this_stage = record b.this_stage { blkts = blkt ∷ []; sequence_no = curr_seq_no };
        read_blkt = true;
        no_units = true;
      }
      else if not (eqb_ℤ b.last_seq_no curr_seq_no)
      then record b {
        before = all_stages b;
        this_stage = record new_stage { blkts = blkt ∷ []; sequence_no = curr_seq_no };
        no_units = true;
      }
      else record b { this_stage = with_blkts b.this_stage (blkt ∷ []) }

  -- The units of the stage are those of its first blockette that has any.
  unfoldable pub place_units : Bool → Stage D → Built D → Built D
  place_units has_units tmp b =
      if b.no_units && has_units
      then record b {
        this_stage = record b.this_stage {
          input_units = tmp.input_units;
          output_units = tmp.output_units;
          input_units_str = tmp.input_units_str;
          output_units_str = tmp.output_units_str;
        };
        no_units = false;
      }
      else b

  unfoldable pub add_blkt : Bool → ℤ → Stage D → Blkt D → Built D → Built D
  unfolding place_blkt place_units
  add_blkt has_units curr_seq_no tmp blkt b =
      record (place_units has_units tmp (place_blkt curr_seq_no blkt b)) {
        last_seq_no = curr_seq_no;
      }

  -- The loop to the last of the stages behind this one.
  unfoldable pub to_last : List (Stage D) → Stage D → List (Stage D) → List (Stage D) × Stage D
  to_last before this [] = (before, this)
  to_last before this (next ∷ rest) = to_last (before ++ this ∷ []) next rest

  -- Where the last blockette of the channel is the last one of `this`.
  abbrev end_with : Built D → List (Stage D) × Stage D → Built D
  end_with b (before, this) = record b {
    before = before;
    this_stage = this;
    read_blkt = true;
    last_seq_no = this.sequence_no;
  }

  -- The stages of a blockette 60: the first one and those behind it.
  unfoldable pub add_stages : Stage D → List (Stage D) → Built D → Built D
  unfolding to_last
  add_stages first rest b =
      if not b.read_blkt
      then end_with b (to_last [] first rest)
      else if not (eqb_ℤ b.last_seq_no first.sequence_no)
      then end_with b (to_last (all_stages b) first rest)
      else end_with b (to_last b.before (with_blkts b.this_stage first.blkts) rest)

  -- The stages of read_ref in their order.
  unfoldable pub add_reference : List (Stage D) → Stage D → Built D → Built D
  unfolding add_stages
  add_reference [] this b = add_stages this [] b
  add_reference (first ∷ rest) this b = add_stages first (rest ++ this ∷ []) b
