-- ===== src/Check/Scan.antt =====
-- The loop of check_channel (libsrc/evalresp/resp_fctns.c) over the blockettes of a stage. Log
-- messages are left out.
use evalresp.Prelude.{
  ℕ, zero, suc, ◌*◌, Bool, true, false, not, ◌&&◌, ◌||◌, Option, none, some, List, [], ◌∷◌, ◌++◌,
  if◌then◌else◌, length, get_elem?,
}
use evalresp.Prelude.Int.{ℤ, pos, ◌-ℤ◌, ltb_ℤ, eqb_ℤ}
use evalresp.Status.{Status, val, is_ok}
use evalresp.CString.{is_empty}
use evalresp.Checked.{Checked, checked, failed, undefined, ◌>>=◌}
use evalresp.Double.{Double}
use evalresp.Channel.{
  Units, PzType, iir, FirType, sym_1, sym_2, asym, Fir, Decimation, Gain, Stage, Channel, Blkt,
  undef_filt, pole_zero, fir, list, generic, decimation, gain, reference, fir_coeffs, iir_coeffs,
  polynomial,
}
use evalresp.Merge.{same_type, merge_lists, merge_coeffs, merge_run, check_symmetry}

-- enum stage_types
pub data StageType : Type 0 where
  undef_stage pz_type iir_type fir_type gain_type list_type iir_coeffs_type : StageType
  generic_type polynomial_type : StageType

-- !stage_type || stage_type == GAIN_TYPE
abbrev pub no_filter : StageType → Bool
no_filter undef_stage = true
no_filter gain_type = true
no_filter _ = false

abbrev pub is_gain_type : StageType → Bool
is_gain_type gain_type = true
is_gain_type _ = false

abbrev pub is_gain : {D : Type 0} → Blkt D → Bool
is_gain (gain g) = true
is_gain _ = false

-- The variables of the loop over the blockettes of a stage. A flag of the code is nonzero exactly
-- where the blockette that it goes with is present here.
pub record Scan (D : Type 0) : Type 0 where
  pub chan : Channel D
  pub stage_type : StageType
  pub filt : Option (Blkt D)
  pub deci : Option (Blkt D)
  pub gain_blkt : Option (Blkt D)
  pub ref : Option (Blkt D)
  pub nc : ℤ
  -- the blockettes of the stage so far
  pub seen : List (Blkt D)

-- Where a stage stands: the stages before and after it, and whether prev_stage is set.
pub record Place (D : Type 0) : Type 0 where
  pub before : List (Stage D)
  pub stage : Stage D
  pub after : List (Stage D)
  pub prev_units : Option Units

abbrev pub is_some {ℓ} : {A : Type ℓ} → Option A → Bool
is_some none = false
is_some (some _) = true

abbrev pub is_fir_type : StageType → Bool
is_fir_type fir_type = true
is_fir_type _ = false

pz_stage : PzType → StageType
pz_stage iir = iir_type
pz_stage _ = pz_type

module _ {D : Type 0} where
  -- chan->first_stage->next_stage
  abbrev second_stage : Place D → Option (Stage D)
  second_stage p = get_elem? (p.before ++ p.stage ∷ p.after) 1

  starts_with_filter : Option (Stage D) → Bool
  starts_with_filter none = false
  starts_with_filter (some s) = elim s.blkts [ [] ↦ false | b ∷ _ ↦ not (is_gain b) ]

  in_sequence : Option (Stage D) → Bool
  in_sequence none = false
  in_sequence (some s) = not (eqb_ℤ s.sequence_no (pos 0))

  -- Whether a list blockette is mixed with other filters.
  unfoldable pub list_mixed : Place D → Bool
  unfolding starts_with_filter in_sequence
  list_mixed p =
      let last = is_empty p.after in
      if not last || is_some p.prev_units
      then last && in_sequence (second_stage p)
      else starts_with_filter (second_stage p)

  abbrev with_filter : Scan D → StageType → Blkt D → Scan D
  with_filter s t b = record s { stage_type = t; filt = some b }

module _ {D : Type 0} ⦃d : Double D⦄ where
  -- The number of weights that a FIR filter stands for.
  unfoldable pub fir_nc : FirType → Fir D → ℤ
  unfolding ◌-ℤ◌
  fir_nc sym_1 f = pos (length f.coeffs * 2) -ℤ pos 1
  fir_nc sym_2 f = pos (length f.coeffs * 2)
  fir_nc asym f = pos (length f.coeffs)

  -- chan->calc_delay and its neighbours after a DECIMATION blockette
  unfoldable pub add_delays : Scan D → Decimation D → Channel D
  unfolding ◌-ℤ◌
  add_delays s deci =
      let c = s.chan in
      let half = d.div (d.of_int (s.nc -ℤ pos 1)) (d.decimal (pos 2) (pos 0)) in
      record c {
        calc_delay =
            if is_fir_type s.stage_type && ltb_ℤ (pos 0) s.nc
            then d.add c.calc_delay (d.mul half deci.sample_int)
            else c.calc_delay;
        estim_delay = d.add c.estim_delay deci.estim_delay;
        applied_corr = d.add c.applied_corr deci.applied_corr;
        sint = d.mul deci.sample_int (d.of_int deci.deci_fact);
      }

  -- A merged blockette after check_symmetry, which only FIR_ASYM goes through.
  folded : Blkt D → Blkt D
  unfolding check_symmetry
  folded (fir asym f) = let (t, g) = check_symmetry asym f in fir t g
  folded b = b

  blkt_nc : Blkt D → ℤ
  unfolding fir_nc
  blkt_nc (fir t f) = fir_nc t f
  blkt_nc b = pos 0

  -- The blockette goes on in `next`, and the loop with what is left of it.
  see : Scan D → Blkt D → Scan D
  see s b = record s { seen = s.seen ++ b ∷ [] }

  take_merged :
      (Scan D → Blkt D → Scan D)
      → Scan D
      → Status × Blkt D × List (Blkt D)
      → Checked (Scan D × List (Blkt D))
  unfolding is_ok see
  take_merged set s (status, b, next) =
      if is_ok status then checked (see (set s b) b, next) else failed status

  set_fir : Scan D → Blkt D → Scan D
  unfolding blkt_nc
  set_fir s b = record s { stage_type = fir_type; filt = some b; nc = blkt_nc b }

  -- A blockette that continues `b` comes next.
  continued : Blkt D → List (Blkt D) → Bool
  unfolding same_type
  continued b [] = false
  continued b (n ∷ _) = same_type b n

  set_gain : Place D → Scan D → Gain D → Scan D
  set_gain p s g =
      let c = s.chan in
      record s {
        chan =
            if eqb_ℤ p.stage.sequence_no (pos 0)
            then record c { sensit = g.gain; sensfreq = g.gain_freq }
            else c;
        stage_type = elim s.stage_type [ undef_stage ↦ gain_type | t ↦ t ];
        gain_blkt = some (gain g);
      }

  fold_merged : Status × Blkt D × List (Blkt D) → Status × Blkt D × List (Blkt D)
  unfolding folded
  fold_merged (status, b, next) = (status, folded b, next)

  -- The switch over the type of a blockette; `next` is the list behind it.
  unfoldable pub handle_blkt :
      Place D → Scan D → Blkt D → List (Blkt D) → Checked (Scan D × List (Blkt D))
  unfolding take_merged merge_run merge_lists merge_coeffs list_mixed set_fir continued set_gain
      fold_merged add_delays see pz_stage
  handle_blkt p s (polynomial b) next =
      checked (see (with_filter s polynomial_type (polynomial b)) (polynomial b), next)
  handle_blkt p s (pole_zero t b) next =
      if no_filter s.stage_type
      then checked (see (with_filter s (pz_stage t) (pole_zero t b)) (pole_zero t b), next)
      else failed val
  handle_blkt p s (fir_coeffs b) next = failed val
  handle_blkt p s (list b) next =
      let merged = merge_run merge_lists (list b) next in
      if is_ok merged.0 && list_mixed p
      then failed val
      else take_merged (λ s b. with_filter s list_type b) s merged
  handle_blkt p s (generic b) next =
      if no_filter s.stage_type && not (continued (generic b) next)
      then checked (see (with_filter s generic_type (generic b)) (generic b), next)
      else failed val
  handle_blkt p s (fir t b) next =
      if no_filter s.stage_type
      then take_merged set_fir s (fold_merged (merge_run merge_coeffs (fir t b) next))
      else failed val
  handle_blkt p s (iir_coeffs b) next =
      if no_filter s.stage_type && not (continued (iir_coeffs b) next)
      then checked (
        see (record s { stage_type = iir_coeffs_type; filt = some (iir_coeffs b); nc = pos 1 })
            (iir_coeffs b),
        next,
      )
      else failed val
  handle_blkt p s (gain g) next = checked (see (set_gain p s g) (gain g), next)
  handle_blkt p s (decimation b) next = elim s.stage_type [
    | undef_stage ↦ failed val
    | _ ↦
        checked (
          see (record s { chan = add_delays s b; deci = some (decimation b) }) (decimation b),
          next,
        )
  ]
  handle_blkt p s (reference r) next =
      checked (see (record s { ref = some (reference r) }) (reference r), next)
  handle_blkt p s undef_filt next = failed val

  -- while (blkt_ptr): each round takes a blockette at least off the list.
  unfoldable pub scan_from : ℕ → Place D → Scan D → List (Blkt D) → Checked (Scan D)
  unfolding handle_blkt
  scan_from fuel p s [] = checked s
  scan_from zero p s (b ∷ next) = undefined
  scan_from (suc fuel) p s (b ∷ next) = do
    (s', rest) ← handle_blkt p s b next
    scan_from fuel p s' rest
