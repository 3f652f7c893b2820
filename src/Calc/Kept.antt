-- ===== src/Calc/Kept.antt =====
-- normalize_response keeps what the calculation needs of the stages.
use evalresp.Prelude.{
  ℕ, suc, ◌≡◌, refl, sym, ap, ◌∙◌, subst, Bool, true, false, Option, none, some, List, [], ◌∷◌,
  ◌++◌, map, append_assoc, append-nil, inl, inr, Bool-cases, if◌then◌else◌, drop,
}
use evalresp.Prelude.Int.{ℤ, pos, eqb_ℤ}
use evalresp.CString.{is_empty}
use evalresp.Status.{val}
use evalresp.Double.{Double}
use evalresp.Channel.{
  Complex, Gain, Stage, Channel, Blkt, iir, laplace, analog, asym, sym_1, sym_2, pole_zero, fir,
  gain, iir_coeffs, undef_filt, list, generic, decimation, reference, fir_coeffs, polynomial,
}
use evalresp.Options.{Options}
use evalresp.Checked.{Checked, checked, failed, Ensures, Ensures-bind}
use evalresp.Calc.Trans.{at, lit}
use evalresp.Calc.Filters.{analog_trans}
use evalresp.Calc.Normalize.{Norm, with_factor, sizes, renormalize, refuse_zero}
use evalresp.Calc.Respond.{is_skipped_stage}
use evalresp.Calc.Sensitivity.{
  moved_by, moved_when, moved_at, moved, norm_gain, norm_other, norm_blkts, norm_stages,
}
use evalresp.Calc.Kinds.{Kind, map-++, kind, kinds, set_at-kinds}

Ensures-if {ℓ κ} :
    {A : Type ℓ} (P : A → Type κ) (b : Bool) (x y : Checked A)
    → Ensures P x
    → Ensures P y
    → Ensures P (if b then x else y)
Ensures-if P true x y h k = h
Ensures-if P false x y h k = k

module _ {D : Type 0} ⦃d : Double D⦄ (n : ℕ) where
  with_factor-kind : (a f : D) (b : Blkt D) → kind n (with_factor a f b) ≡ kind n b
  unfolding with_factor
  with_factor-kind a f (pole_zero iir p) = refl
  with_factor-kind a f (pole_zero laplace p) = refl
  with_factor-kind a f (pole_zero analog p) = refl
  with_factor-kind a f (fir t x) = refl
  with_factor-kind a f (iir_coeffs c) = refl
  with_factor-kind a f b = refl

  -- A changed filter is of the same kind.
  abbrev Same : Blkt D → Option (D × D × Blkt D) → Type 0
  Same b none = Unit
  Same b (some (x, y, c)) = kind n c ≡ kind n b

  sizes-Same : (f : D) (b : Blkt D) (x y : Option (Complex D)) → Ensures (Same b) (sizes f b x y)
  unfolding sizes
  sizes-Same f b none y = tt
  sizes-Same f b (some x) none = tt
  sizes-Same f b (some x) (some y) = with_factor-kind _ f b

  refuse_zero-Ensures :
      {A : Type 0} (P : A → Type 0) (x y : Complex D) (m : Checked A)
      → Ensures P m
      → Ensures P (refuse_zero x y m)
  unfolding refuse_zero
  refuse_zero-Ensures P x y m h = Ensures-if P _ (failed val) m tt h

  renormalize-Same :
      (f g : D) (b : Blkt D) (next : List (Blkt D)) → Ensures (Same b) (renormalize f g b next)
  unfolding renormalize
  renormalize-Same f g (pole_zero iir p) next = sizes-Same f (pole_zero iir p) _ _
  renormalize-Same f g (pole_zero laplace p) next =
      refuse_zero-Ensures (Same (pole_zero laplace p)) _ _ _ (
        sizes-Same f (pole_zero laplace p) (some (analog_trans laplace (record p { a0 = lit 1 }) g))
          (some (analog_trans laplace (record p { a0 = lit 1 }) f)))
  renormalize-Same f g (pole_zero analog p) next =
      refuse_zero-Ensures (Same (pole_zero analog p)) _ _ _ (
        sizes-Same f (pole_zero analog p) (some (analog_trans analog (record p { a0 = lit 1 }) g))
          (some (analog_trans analog (record p { a0 = lit 1 }) f)))
  renormalize-Same f g (fir asym x) next = elim (Bool-cases (is_empty x.coeffs)) [
    | inl e ↦ rw e tt
    | inr e ↦ rw e (sizes-Same f (fir asym x) _ _)
  ]
  renormalize-Same f g (fir sym_1 x) next = elim (Bool-cases (is_empty x.coeffs)) [
    | inl e ↦ rw e tt
    | inr e ↦ rw e (sizes-Same f (fir sym_1 x) _ _)
  ]
  renormalize-Same f g (fir sym_2 x) next = elim (Bool-cases (is_empty x.coeffs)) [
    | inl e ↦ rw e tt
    | inr e ↦ rw e (sizes-Same f (fir sym_2 x) _ _)
  ]
  renormalize-Same f g (iir_coeffs c) next = sizes-Same f (iir_coeffs c) _ _
  renormalize-Same f g b next = tt

  moved_by-kinds :
      (f : D) (g : Gain D) (done : List (Blkt D)) (i : ℕ) (b : Blkt D) (r : Option (D × D × Blkt D))
      → at done i ≡ some b
      → Same b r
      → kinds n (moved_by f g done i r).1 ≡ kinds n done
  unfolding moved_by
  moved_by-kinds f g done i b none e h = refl
  moved_by-kinds f g done i b (some (x, y, c)) e h = set_at-kinds n done i b c e h

  moved_when-kinds :
      (f : D) (g : Gain D) (done rest : List (Blkt D)) (i : ℕ) (b : Blkt D) (t : Bool)
      → at done i ≡ some b
      → Ensures (λ r. kinds n r.1 ≡ kinds n done) (moved_when f g done rest i b t)
  unfolding moved_when
  moved_when-kinds f g done rest i b false e = refl
  moved_when-kinds f g done rest i b true e =
      Ensures-bind {B = Gain D × List (Blkt D)} (Same b) (λ r. kinds n r.1 ≡ kinds n done)
        (renormalize f g.gain_freq b (drop (suc i) (done ++ gain g ∷ rest)))
        (λ r. checked (moved_by f g done i r)) (renormalize-Same f g.gain_freq b _)
        (λ r h. moved_by-kinds f g done i b r e h)

  moved_at-kinds :
      (f : D) (g : Gain D) (done rest : List (Blkt D)) (i : ℕ) (o : Option (Blkt D))
      → at done i ≡ o
      → Ensures (λ r. kinds n r.1 ≡ kinds n done) (moved_at f g done rest i o)
  unfolding moved_at
  moved_at-kinds f g done rest i none e = tt
  moved_at-kinds f g done rest i (some b) e = moved_when-kinds f g done rest i b _ e

  moved-kinds :
      (f : D) (g : Gain D) (done rest : List (Blkt D)) (m : Option ℕ)
      → Ensures (λ r. kinds n r.1 ≡ kinds n done) (moved f g done rest m)
  unfolding moved
  moved-kinds f g done rest none = refl
  moved-kinds f g done rest (some i) = moved_at-kinds f g done rest i (at done i) refl

  norm_gain-kinds :
      (f : D) (single : Bool) (seq : ℤ) (s : Norm D) (g : Gain D) (rest : List (Blkt D))
      → Ensures
          (λ t. kinds n t.done ≡ kinds n (s.done ++ gain g ∷ []))
          (norm_gain f single seq s g rest)
  unfolding norm_gain
  norm_gain-kinds f single seq s g rest =
      Ensures-if (λ t. kinds n t.done ≡ kinds n (s.done ++ gain g ∷ [])) (eqb_ℤ seq (pos 0)) _ _
        refl
        (Ensures-bind (λ r. kinds n r.1 ≡ kinds n s.done)
          (λ t. kinds n t.done ≡ kinds n (s.done ++ gain g ∷ []))
          (moved f g s.done rest s.main_filt) _ (moved-kinds f g s.done rest s.main_filt)
          (λ r h.
            map-++ (kind n) r.1 (gain r.0 ∷ [])
            ∙ ap (λ t. t ++ kind n (gain r.0) ∷ []) h
            ∙ sym (map-++ (kind n) s.done (gain g ∷ []))))

  -- The kinds of the list in which `b` stands between.
  between :
      (t done rest : List (Blkt D)) (b : Blkt D)
      → kinds n t ≡ kinds n (done ++ b ∷ [])
      → kinds n (t ++ rest) ≡ kinds n (done ++ b ∷ rest)
  between t done rest b h =
      map-++ (kind n) t rest
      ∙ ap (λ u. u ++ kinds n rest) h
      ∙ sym (map-++ (kind n) (done ++ b ∷ []) rest)
      ∙ ap (kinds n) (append_assoc done (b ∷ []) rest)

  norm_other-kinds :
      (f : D) (single : Bool) (seq : ℤ) (s : Norm D) (b : Blkt D) (rest : List (Blkt D))
      → Ensures
          (λ t. kinds n t.done ≡ kinds n ((s.done ++ b ∷ []) ++ rest))
          (norm_blkts f single seq (norm_other s b) rest)
      → Ensures
          (λ t. kinds n t.done ≡ kinds n (s.done ++ b ∷ rest))
          (norm_blkts f single seq (norm_other s b) rest)
  norm_other-kinds f single seq s b rest h =
      subst
        (λ l.
          Ensures (λ t. kinds n t.done ≡ kinds n l) (norm_blkts f single seq (norm_other s b) rest))
        (append_assoc s.done (b ∷ []) rest) h

  norm_blkts-kinds :
      (f : D) (single : Bool) (seq : ℤ) (s : Norm D) (bs : List (Blkt D))
      → Ensures (λ t. kinds n t.done ≡ kinds n (s.done ++ bs)) (norm_blkts f single seq s bs)
  unfolding norm_blkts norm_other
  norm_blkts-kinds f single seq s [] = ap (kinds n) (sym (append-nil s.done))
  norm_blkts-kinds f single seq s (gain g ∷ rest) =
      Ensures-bind (λ t. kinds n t.done ≡ kinds n (s.done ++ gain g ∷ []))
        (λ t. kinds n t.done ≡ kinds n (s.done ++ gain g ∷ rest)) (norm_gain f single seq s g rest)
        _ (norm_gain-kinds f single seq s g rest)
        (λ t h.
          subst (λ k. Ensures (λ u. kinds n u.done ≡ k) (norm_blkts f single seq t rest))
            (between t.done s.done rest (gain g) h) (norm_blkts-kinds f single seq t rest))
  norm_blkts-kinds f single seq s (undef_filt ∷ rest) =
      norm_other-kinds f single seq s (undef_filt) rest (norm_blkts-kinds f single seq _ rest)
  norm_blkts-kinds f single seq s (pole_zero t p ∷ rest) =
      norm_other-kinds f single seq s (pole_zero t p) rest (norm_blkts-kinds f single seq _ rest)
  norm_blkts-kinds f single seq s (fir t x ∷ rest) =
      norm_other-kinds f single seq s (fir t x) rest (norm_blkts-kinds f single seq _ rest)
  norm_blkts-kinds f single seq s (list x ∷ rest) =
      norm_other-kinds f single seq s (list x) rest (norm_blkts-kinds f single seq _ rest)
  norm_blkts-kinds f single seq s (generic x ∷ rest) =
      norm_other-kinds f single seq s (generic x) rest (norm_blkts-kinds f single seq _ rest)
  norm_blkts-kinds f single seq s (decimation x ∷ rest) =
      norm_other-kinds f single seq s (decimation x) rest (norm_blkts-kinds f single seq _ rest)
  norm_blkts-kinds f single seq s (reference x ∷ rest) =
      norm_other-kinds f single seq s (reference x) rest (norm_blkts-kinds f single seq _ rest)
  norm_blkts-kinds f single seq s (fir_coeffs x ∷ rest) =
      norm_other-kinds f single seq s (fir_coeffs x) rest (norm_blkts-kinds f single seq _ rest)
  norm_blkts-kinds f single seq s (iir_coeffs x ∷ rest) =
      norm_other-kinds f single seq s (iir_coeffs x) rest (norm_blkts-kinds f single seq _ rest)
  norm_blkts-kinds f single seq s (polynomial x ∷ rest) =
      norm_other-kinds f single seq s (polynomial x) rest (norm_blkts-kinds f single seq _ rest)

  unfoldable pub stage_kinds : List (Stage D) → List (List Kind)
  stage_kinds ss = map (λ st. kinds n st.blkts) ss

  pub norm_stages-kinds :
      (o : Options D) (f : D) (single : Bool) (chan : Channel D) (ss : List (Stage D))
      → Ensures (λ r. stage_kinds r.1 ≡ stage_kinds ss) (norm_stages o f single chan ss)
  unfolding norm_stages stage_kinds
  norm_stages-kinds o f single chan [] = refl
  norm_stages-kinds o f single chan (st ∷ ss) = elim (Bool-cases (is_skipped_stage o st)) [
    | inl e ↦ rw e (
        Ensures-bind (λ r. stage_kinds r.1 ≡ stage_kinds ss)
          (λ r. stage_kinds r.1 ≡ stage_kinds (st ∷ ss)) (norm_stages o f single chan ss) _
          (norm_stages-kinds o f single chan ss) (λ r h. ap (λ t. kinds n st.blkts ∷ t) h))
    | inr e ↦ rw e (
        Ensures-bind (λ s. kinds n s.done ≡ kinds n st.blkts)
          (λ r. stage_kinds r.1 ≡ stage_kinds (st ∷ ss))
          (norm_blkts f single st.sequence_no _ st.blkts) _
          (norm_blkts-kinds f single st.sequence_no
            (record { done = []; main_filt = none; chan = chan }) st.blkts)
          (λ s k.
            Ensures-bind (λ r. stage_kinds r.1 ≡ stage_kinds ss)
              (λ r. stage_kinds r.1 ≡ stage_kinds (st ∷ ss)) (norm_stages o f single s.chan ss) _
              (norm_stages-kinds o f single s.chan ss)
              (λ r h. ap (λ t. t ∷ stage_kinds r.1) k ∙ ap (λ t. kinds n st.blkts ∷ t) h)))
  ]
