-- ===== src/Calc/Respond.antt =====
-- calculate_response of libsrc/evalresp/calc_fctns.c. `undefined` is where the code reads what it did
-- not store: a digital filter without a decimation behind it, or an array out of its range.
use evalresp.Prelude.{
  ℕ, suc, Bool, true, false, not, ◌&&◌, ◌||◌, Option, none, some, List, [], ◌∷◌, if◌then◌else◌,
}
use evalresp.Prelude.Int.{ℤ, pos, ◌-ℤ◌, ltb_ℤ, leb_ℤ, eqb_ℤ}
use evalresp.CString.{is_empty}
use evalresp.Status.{Status, par, is_ok}
use evalresp.Double.{Double}
use evalresp.Channel.{
  Complex, iir, asym, Decimation, Stage, Channel, Blkt, pole_zero, fir, list, decimation,
  iir_coeffs, polynomial,
}
use evalresp.Options.{Options}
use evalresp.Checked.{Checked, checked, failed, undefined, ◌>>=◌}
use evalresp.Check.Scan.{fir_nc}
use evalresp.Calc.Trans.{
  lit, num, zmul, convert_to_units, calc_polynomial, calc_list, calc_time_shift,
}
use evalresp.Calc.Filters.{analog_trans, fir_sym_trans, fir_asym_trans, iir_pz_trans, iir_trans}

-- The variables of the loop over a stage's blockettes; `is_asym` is sym_fir == -1.
pub record Eval (D : Type 0) : Type 0 where
  pub value : Complex D
  pub nc : ℤ
  pub is_asym : Bool

-- Whether the options leave a stage out.
unfoldable pub is_skipped_stage : {D : Type 0} → Options D → Stage D → Bool
is_skipped_stage o s =
    leb_ℤ (pos 0) o.start_stage
    && (if eqb_ℤ o.stop_stage (pos 0)
        then not (eqb_ℤ s.sequence_no o.start_stage)
        else ltb_ℤ s.sequence_no o.start_stage || ltb_ℤ o.stop_stage s.sequence_no)

module _ {D : Type 0} ⦃d : Double D⦄ where
  abbrev pub times : Eval D → Complex D → Eval D
  times s c = record s { value = zmul s.value c }

  -- zmul (&val, &of) where `of` is defined
  abbrev pub times_some : Eval D → Option (Complex D) → Checked (Eval D)
  times_some s none = undefined
  times_some s (some c) = checked (times s c)

  shift : Options D → Eval D → Decimation D → D
  unfolding ◌-ℤ◌
  shift o s x =
      let half = d.div (d.of_int (s.nc -ℤ pos 1)) (lit 2) in
      if s.is_asym
      then (if o.use_estimated_delay
          then x.estim_delay
          else d.sub x.applied_corr (d.mul half x.sample_int))
      else num 0

  unfoldable pub times_polynomial : Eval D → Status × Option (Complex D) → Checked (Eval D)
  unfolding is_ok
  times_polynomial s (status, c) = if is_ok status then times_some s c else failed status

  -- The switch over the type of a blockette, at the frequency of number `i`.
  unfoldable pub eval_blkt :
      Options D → ℕ → D → D → Eval D → Blkt D → List (Blkt D) → Checked (Eval D)
  unfolding fir_nc shift times_polynomial
  eval_blkt o i freq w s (pole_zero iir p) next =
      if is_empty p.zeros && is_empty p.poles
      then checked s
      else times_some s (iir_pz_trans p next w)
  eval_blkt o i freq w s (pole_zero t p) next = checked (times s (analog_trans t p freq))
  eval_blkt o i freq w s (fir asym f) next =
      if is_empty f.coeffs
      then checked (record s { nc = fir_nc asym f })
      else times_some (record s { nc = fir_nc asym f; is_asym = true }) (fir_asym_trans f next w)
  eval_blkt o i freq w s (fir t f) next =
      if is_empty f.coeffs
      then checked (record s { nc = fir_nc t f })
      else times_some (record s { nc = fir_nc t f; is_asym = false }) (fir_sym_trans t f next w)
  eval_blkt o i freq w s (decimation x) next =
      if eqb_ℤ s.nc (pos 0) then checked s else checked (times s (calc_time_shift (shift o s x) w))
  eval_blkt o i freq w s (list l) next = times_some s (calc_list l i)
  eval_blkt o i freq w s (polynomial p) next = times_polynomial s (calc_polynomial p o.b62_x)
  eval_blkt o i freq w s (iir_coeffs c) next = times_some s (iir_trans c next w)
  eval_blkt o i freq w s b next = checked s

  unfoldable pub eval_blkts : Options D → ℕ → D → D → Eval D → List (Blkt D) → Checked (Eval D)
  eval_blkts o i freq w s [] = checked s
  eval_blkts o i freq w s (b ∷ next) = do
    s' ← eval_blkt o i freq w s b next
    eval_blkts o i freq w s' next

  -- The loop over the stages: `val`, and whether matching_stages is not 0.
  unfoldable pub eval_stages :
      Options D → ℕ → D → D → Complex D → List (Stage D) → Checked (Complex D × Bool)
  unfolding eval_blkts
  eval_stages o i freq w c [] = checked (c, false)
  eval_stages o i freq w c (stage ∷ rest) =
      if is_skipped_stage o stage then eval_stages o i freq w c rest else do
        s ← eval_blkts o i freq w (record { value = c; nc = pos 0; is_asym = false }) stage.blkts
        (c', _) ← eval_stages o i freq w s.value rest
        checked (c', true)

  unfoldable pub scaled : Options D → Channel D → Complex D → Complex D
  scaled o chan c =
      let sensit = if o.use_total_sensitivity then chan.sensit else chan.calc_sensit in
      record {
        real = d.mul (d.mul c.real sensit) chan.unit_scale_fact;
        imag = d.mul (d.mul c.imag sensit) chan.unit_scale_fact;
      }

  unfoldable pub converted : Status × Complex D → Checked (Complex D)
  unfolding is_ok
  converted (status, c) = if is_ok status then checked c else failed status

  -- One round of the loop over the frequencies, from the stages on; a channel without stages is not
  -- defined.
  unfoldable pub response_of : Options D → Channel D → List (Stage D) → ℕ → D → Checked (Complex D)
  unfolding converted convert_to_units scaled eval_stages
  response_of o chan [] i freq = undefined
  response_of o chan (first ∷ rest) i freq =
      let w = d.mul (d.mul (num 2) d.pi) freq in
      do
        (c, matched) ← eval_stages o i freq w (record { real = lit 1; imag = lit 0 }) (first ∷ rest)
        if matched
            then converted (convert_to_units first.input_units o.unit (scaled o chan c) w)
            else failed par

  unfoldable pub response_at : Options D → Channel D → ℕ → D → Checked (Complex D)
  unfolding response_of
  response_at o chan i freq = response_of o chan chan.stages i freq

  unfoldable pub responses_from : Options D → Channel D → ℕ → List D → Checked (List (Complex D))
  unfolding response_at
  responses_from o chan i [] = checked []
  responses_from o chan i (freq ∷ freqs) = do
    c ← response_at o chan i freq
    cs ← responses_from o chan (suc i) freqs
    checked (c ∷ cs)

  unfoldable pub calculate_response : Options D → Channel D → List D → Checked (List (Complex D))
  unfolding responses_from
  calculate_response o chan freq = responses_from o chan 0 freq
