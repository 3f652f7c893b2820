-- ===== src/Calc/Ready.antt =====
-- What passes normalize_response can be calculated.
use evalresp.Prelude.{
  ℕ, ◌≡◌, refl, sym, ◌∙◌, subst, Bool, true, false, List, [], ◌∷◌, ◌++◌, All, arith, inl, inr,
  Bool-cases, if◌then◌else◌, ◌==◌, length,
}
use evalresp.CString.{is_empty}
use evalresp.Status.{val}
use evalresp.Double.{Double}
use evalresp.Channel.{Stage, Channel, Blkt, gain}
use evalresp.Options.{Options}
use evalresp.Checked.{checked, failed, Ensures, Ensures-any, Ensures-bind}
use evalresp.Calc.Fed.{is_fed}
use evalresp.Calc.Reads.{all_filled, is_defined}
use evalresp.Calc.Defined.{calculate_response-is_defined}
use evalresp.Calc.Normalize.{require_gain, lacks_gain, any_zero_gain, with_gain}
use evalresp.Calc.Respond.{calculate_response}
use evalresp.Calc.Sensitivity.{norm_stages, with_sensfreq, normalize_gains, normalize_response}
use evalresp.Calc.Kinds.{
  Kind, fed_kinds, filled_kinds, map-++, kind, fed_kinds-kinds, filled_kinds-kinds,
}
use evalresp.Calc.Kept.{stage_kinds, norm_stages-kinds}

abbrev Ready : List (List Kind) → Type 0
Ready ks = All (λ k. (fed_kinds k ≡ true) × (filled_kinds k ≡ true)) ks

fed_kinds-++ :
    (ks : List Kind) (k : Kind)
    → k.digital ≡ false
    → fed_kinds ks ≡ true
    → fed_kinds (ks ++ k ∷ []) ≡ true
unfolding fed_kinds
fed_kinds-++ [] k e h = ground arith
fed_kinds-++ (l ∷ []) k e h = ground arith
fed_kinds-++ (l ∷ m ∷ ks) k e h = let ih = fed_kinds-++ (m ∷ ks) k e in ground arith

filled_kinds-++ :
    (ks : List Kind) (k : Kind)
    → k.filled ≡ true
    → filled_kinds ks ≡ true
    → filled_kinds (ks ++ k ∷ []) ≡ true
unfolding filled_kinds
filled_kinds-++ [] k e h = ground arith
filled_kinds-++ (l ∷ ks) k e h = let ih = filled_kinds-++ ks k e in ground arith

module _ {D : Type 0} ⦃d : Double D⦄ (n : ℕ) where
  -- The stages can be calculated, and there is one.
  abbrev IsReady : List (Stage D) → Type 0
  IsReady ss = (is_empty ss ≡ false) × Ready (stage_kinds n ss)

  to_Ready :
      (ss : List (Stage D))
      → All (λ st. all_filled n st.blkts ≡ true) ss
      → All (λ st. is_fed st.blkts ≡ true) ss
      → Ready (stage_kinds n ss)
  unfolding stage_kinds
  to_Ready [] h k = tt
  to_Ready (st ∷ ss) h k =
      ((fed_kinds-kinds n st.blkts ∙ k.0, filled_kinds-kinds n st.blkts ∙ h.0), to_Ready ss h.1 k.1)

  from_fed :
      (ss : List (Stage D)) → Ready (stage_kinds n ss) → All (λ st. is_fed st.blkts ≡ true) ss
  unfolding stage_kinds
  from_fed [] h = tt
  from_fed (st ∷ ss) h = (sym (fed_kinds-kinds n st.blkts) ∙ h.0.0, from_fed ss h.1)

  from_filled :
      (ss : List (Stage D)) → Ready (stage_kinds n ss) → All (λ st. all_filled n st.blkts ≡ true) ss
  unfolding stage_kinds
  from_filled [] h = tt
  from_filled (st ∷ ss) h = (sym (filled_kinds-kinds n st.blkts) ∙ h.0.1, from_filled ss h.1)

  same_length :
      (ss ts : List (Stage D))
      → stage_kinds n ss ≡ stage_kinds n ts
      → is_empty ts ≡ false
      → is_empty ss ≡ false
  unfolding stage_kinds
  same_length [] [] e h = h
  same_length [] (t ∷ ts) e h = ground arith
  same_length (s ∷ ss) ts e h = refl

  with_gain-Ready :
      (c : Channel D) (s : Stage D) (rest : List (Stage D))
      → Ready (stage_kinds n (s ∷ rest))
      → Ready (stage_kinds n (with_gain c s ∷ rest))
  unfolding stage_kinds with_gain
  with_gain-Ready c s rest h =
      let g : Blkt D = gain (record { gain = c.sensit; gain_freq = c.sensfreq }) in
      rw (map-++ (kind n) s.blkts (g ∷ []))
        ((fed_kinds-++ _ _ refl h.0.0, filled_kinds-++ _ _ refl h.0.1), h.1)

  refused_or :
      (c : Channel D) (b : Bool)
      → IsReady c.stages
      → Ensures (λ c'. IsReady c'.stages) (if b then failed val else checked c)
  refused_or c true h = tt
  refused_or c false h = h

  added_or :
      (c e : Channel D) (a b : Bool)
      → IsReady c.stages
      → IsReady e.stages
      → Ensures
          (λ c'. IsReady c'.stages)
          (if a then (if b then failed val else checked e) else checked c)
  added_or c e true true h k = tt
  added_or c e true false h k = k
  added_or c e false b h k = h

  require_gain-IsReady :
      (c : Channel D) (ss : List (Stage D))
      → c.stages ≡ ss
      → IsReady ss
      → Ensures (λ c'. IsReady c'.stages) (require_gain c ss)
  unfolding require_gain
  require_gain-IsReady c [] e h = subst IsReady (sym e) h
  require_gain-IsReady c (s ∷ []) e h =
      let k : IsReady c.stages = subst IsReady (sym e) h in
      Ensures-bind (λ _. Unit {0}) (λ c'. IsReady c'.stages) (lacks_gain s.blkts) _
        (Ensures-any (lacks_gain s.blkts)) (λ b _. refused_or c b k)
  require_gain-IsReady c (s ∷ t ∷ []) e h =
      let k : IsReady c.stages = subst IsReady (sym e) h in
      Ensures-bind (λ _. Unit {0}) (λ c'. IsReady c'.stages) (lacks_gain s.blkts) _
        (Ensures-any (lacks_gain s.blkts))
        (λ b _.
          added_or c (record c { stages = with_gain c s ∷ t ∷ [] }) b _ k
            (refl, with_gain-Ready c s (t ∷ []) h.1))
  require_gain-IsReady c (s ∷ t ∷ u ∷ ss) e h = subst IsReady (sym e) h

  normalize_gains-IsReady :
      (o : Options D) (c : Channel D)
      → IsReady c.stages
      → Ensures (λ c'. IsReady c'.stages) (normalize_gains o c)
  unfolding normalize_gains
  normalize_gains-IsReady o c h =
      Ensures-bind {B = Channel D} (λ r. stage_kinds n r.1 ≡ stage_kinds n c.stages)
        (λ c'. IsReady c'.stages) (norm_stages o c.sensfreq (length c.stages == 1) c c.stages)
        (λ r. checked (record r.0 { stages = r.1 }))
        (norm_stages-kinds n o c.sensfreq (length c.stages == 1) c c.stages)
        (λ r e. (same_length r.1 c.stages e h.0, subst Ready (sym e) h.1))

  with_sensfreq-IsReady : (c : Channel D) → IsReady c.stages → IsReady (with_sensfreq c).stages
  unfolding with_sensfreq
  with_sensfreq-IsReady c h = h

  normalize_response-IsReady :
      (o : Options D) (c : Channel D)
      → IsReady c.stages
      → Ensures (λ c'. IsReady c'.stages) (normalize_response o c)
  unfolding normalize_response
  normalize_response-IsReady o c h =
      Ensures-bind (λ c'. IsReady c'.stages) (λ c'. IsReady c'.stages) (require_gain c c.stages) _
        (require_gain-IsReady c c.stages refl h)
        (λ c' k. elim (Bool-cases (any_zero_gain c'.stages)) [
          | inl e ↦ rw e tt
          | inr e ↦ rw e (normalize_gains-IsReady o (with_sensfreq c') (with_sensfreq-IsReady c' k))
        ])

-- A channel that passes normalize_response reaches no undefined step in calculate_response, where
-- before it had a stage, a decimation stood directly behind every digital filter, the response
-- lists had an element for each frequency, and the IIR coefficients had a numerator and a
-- denominator.
pub calculate_response-normalize_response :
    {D : Type 0} ⦃d : Double D⦄ (o : Options D) (c c' : Channel D) (freqs : List D)
    → is_empty c.stages ≡ false
    → All (λ st. all_filled (length freqs) st.blkts ≡ true) c.stages
    → All (λ st. is_fed st.blkts ≡ true) c.stages
    → normalize_response o c ≡ checked c'
    → is_defined (calculate_response o c' freqs) ≡ true
calculate_response-normalize_response o c c' freqs e h k p =
    let n = length freqs in
    let r : IsReady n c'.stages =
      subst (Ensures (λ x. IsReady n x.stages)) p
        (normalize_response-IsReady n o c (e, to_Ready n c.stages h k)) in
    calculate_response-is_defined o c' freqs r.0 (from_filled n c'.stages r.1)
      (from_fed n c'.stages r.1)
