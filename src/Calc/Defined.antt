-- ===== src/Calc/Defined.antt =====
-- Where the calculation reads only what the stages hold.
use evalresp.Prelude.{
  ℕ, suc, ◌+◌, ◌<◌, ◌≤◌, ◌≡◌, refl, Bool, true, false, List, [], ◌∷◌, All, arith, inl, inr,
  Bool-cases, if◌then◌else◌, length,
}
use evalresp.CString.{is_empty}
use evalresp.Status.{Status, par}
use evalresp.Double.{Double}
use evalresp.Channel.{Complex, Stage, Channel, Blkt}
use evalresp.Options.{Options}
use evalresp.Checked.{failed}
use evalresp.Calc.Fed.{is_fed}
use evalresp.Calc.Respond.{
  Eval, is_skipped_stage, eval_blkt, eval_blkts, eval_stages, converted, response_of, response_at,
  responses_from, calculate_response,
}
use evalresp.Calc.Reads.{is_defined, is_defined-bind, all_filled, eval_blkt-is_defined}

module _ {D : Type 0} ⦃d : Double D⦄ where
  eval_blkts-is_defined :
      (o : Options D) (i n : ℕ) (freq w : D) (s : Eval D) (bs : List (Blkt D))
      → i < n
      → all_filled n bs ≡ true
      → is_fed bs ≡ true
      → is_defined (eval_blkts o i freq w s bs) ≡ true
  unfolding eval_blkts
  eval_blkts-is_defined o i n freq w s [] l h k = refl
  eval_blkts-is_defined o i n freq w s (b ∷ next) l h k =
      is_defined-bind (eval_blkt o i freq w s b next) _
        (eval_blkt-is_defined o i n freq w s b next l (ground arith) (ground arith))
        (λ s'. eval_blkts-is_defined o i n freq w s' next l (ground arith) (ground arith))

  eval_stages-is_defined :
      (o : Options D) (i n : ℕ) (freq w : D) (c : Complex D) (ss : List (Stage D))
      → i < n
      → All (λ st. all_filled n st.blkts ≡ true) ss
      → All (λ st. is_fed st.blkts ≡ true) ss
      → is_defined (eval_stages o i freq w c ss) ≡ true
  unfolding eval_stages
  eval_stages-is_defined o i n freq w c [] l h k = refl
  eval_stages-is_defined o i n freq w c (st ∷ ss) l h k =
      let skip = eval_stages-is_defined o i n freq w c ss l h.1 k.1 in
      elim (Bool-cases (is_skipped_stage o st)) [
        | inl e ↦ rw e skip
        | inr e ↦ rw e (
            is_defined-bind (eval_blkts o i freq w _ st.blkts) _
              (eval_blkts-is_defined o i n freq w _ st.blkts l h.0 k.0)
              (λ s.
                is_defined-bind (eval_stages o i freq w s.value ss) _
                  (eval_stages-is_defined o i n freq w s.value ss l h.1 k.1) (λ r. refl)))
      ]

  matched-is_defined :
      (b : Bool) (r : Status × Complex D)
      → is_defined (if b then converted r else failed par) ≡ true
  unfolding converted
  matched-is_defined b r = ground arith

  response_of-is_defined :
      (o : Options D) (chan : Channel D) (ss : List (Stage D)) (i n : ℕ) (freq : D)
      → i < n
      → is_empty ss ≡ false
      → All (λ st. all_filled n st.blkts ≡ true) ss
      → All (λ st. is_fed st.blkts ≡ true) ss
      → is_defined (response_of o chan ss i freq) ≡ true
  unfolding response_of
  response_of-is_defined o chan [] i n freq l e h k = ground arith
  response_of-is_defined o chan (st ∷ ss) i n freq l e h k =
      is_defined-bind (eval_stages o i freq _ _ (st ∷ ss)) _
        (eval_stages-is_defined o i n freq _ _ (st ∷ ss) l h k) (λ r. matched-is_defined r.1 _)

  response_at-is_defined :
      (o : Options D) (chan : Channel D) (i n : ℕ) (freq : D)
      → i < n
      → is_empty chan.stages ≡ false
      → All (λ st. all_filled n st.blkts ≡ true) chan.stages
      → All (λ st. is_fed st.blkts ≡ true) chan.stages
      → is_defined (response_at o chan i freq) ≡ true
  unfolding response_at
  response_at-is_defined o chan i n freq l e h k =
      response_of-is_defined o chan chan.stages i n freq l e h k

  responses_from-is_defined :
      (o : Options D) (chan : Channel D) (i n : ℕ) (freqs : List D)
      → i + length freqs ≤ n
      → is_empty chan.stages ≡ false
      → All (λ st. all_filled n st.blkts ≡ true) chan.stages
      → All (λ st. is_fed st.blkts ≡ true) chan.stages
      → is_defined (responses_from o chan i freqs) ≡ true
  unfolding responses_from
  responses_from-is_defined o chan i n [] l e h k = refl
  responses_from-is_defined o chan i n (freq ∷ freqs) l e h k =
      is_defined-bind (response_at o chan i freq) _
        (response_at-is_defined o chan i n freq (omega arith) e h k)
        (λ c.
          is_defined-bind (responses_from o chan (suc i) freqs) _
            (responses_from-is_defined o chan (suc i) n freqs (omega arith) e h k) (λ cs. refl))

  -- calculate_response of a channel with a stage reads only what the stages hold, where a
  -- decimation stands directly behind every digital filter, the response lists have an element for
  -- each frequency, and the IIR coefficients have a numerator and a denominator.
  pub calculate_response-is_defined :
      (o : Options D) (chan : Channel D) (freqs : List D)
      → is_empty chan.stages ≡ false
      → All (λ st. all_filled (length freqs) st.blkts ≡ true) chan.stages
      → All (λ st. is_fed st.blkts ≡ true) chan.stages
      → is_defined (calculate_response o chan freqs) ≡ true
  unfolding calculate_response
  calculate_response-is_defined o chan freqs e h k =
      responses_from-is_defined o chan 0 (length freqs) freqs (omega arith) e h k
