-- ===== src/Check/Fed.antt =====
-- check_channel leaves stages that the calculation can read.
use evalresp.Prelude.{
  ◌≡◌, refl, subst, length, true, false, not, ◌||◌, Option, none, some, List, [], ◌∷◌, ◌++◌, arith,
  All, All-++, Option-cases, Bool-cases, inl, inr,
}
use evalresp.Prelude.Int.{ℤ, pos}
use evalresp.Status.{val}
use evalresp.Double.{Double}
use evalresp.Channel.{Units, Stage, Channel, Blkt, decimation}
use evalresp.Checked.{checked, Ensures, Ensures-any, Ensures-bind}
use evalresp.Check.Scan.{StageType, Scan, Place, is_some}
use evalresp.Check.Stage.{
  finish_stage, next_prev, check_stage, check_stages, check_channel, needs_decimation, ordered,
  reorder, gain_or_unit,
}
use evalresp.Calc.Fed.{is_digital, is_fed, all_plain}
use evalresp.Check.Sound.{
  no_digital, Sound, none_digital-is_fed, gain_type-digital, accepted, refused, missing,
  scan_from-Sound,
}

module _ {D : Type 0} ⦃d : Double D⦄ where
  gain_or_unit-digital :
      (g : Option (Blkt D)) → no_digital g ≡ true → is_digital (gain_or_unit g) ≡ false
  unfolding gain_or_unit
  gain_or_unit-digital none h = refl
  gain_or_unit-digital (some b) h = ground arith

  reorder-fed :
      (c : Channel D) (t : StageType) (f x g r : Option (Blkt D)) (nc : ℤ) (seen bs : List (Blkt D))
      → let s : Scan D = record {
        chan = c;
        stage_type = t;
        filt = f;
        deci = x;
        gain_blkt = g;
        ref = r;
        nc = nc;
        seen = seen;
      } in
        Sound s
        → is_some x || not (needs_decimation t) ≡ true
        → reorder s ≡ some bs
        → is_fed bs ≡ true
  unfolding reorder
  reorder-fed c t (some f) (some (decimation x)) g (some r) nc seen bs h k e =
      let a = gain_or_unit-digital g h.gain in ground arith
  reorder-fed c t (some f) none g (some r) nc seen bs h k e =
      let a = gain_or_unit-digital g h.gain in ground arith
  reorder-fed c t (some f) (some (decimation x)) g none nc seen bs h k e =
      let a = gain_or_unit-digital g h.gain in ground arith
  reorder-fed c t (some f) none (some g) none nc seen bs h k e =
      let a = gain_or_unit-digital (some g) h.gain in ground arith
  reorder-fed c t f none none none nc seen bs h k e =
      let a = none_digital-is_fed seen in ground arith
  reorder-fed c t f x g r nc seen bs h k e = ground arith

  ordered-fed :
      (stage : Stage D) (s : Scan D)
      → Sound s
      → is_some s.deci || not (needs_decimation s.stage_type) ≡ true
      → Ensures (λ bs. is_fed bs ≡ true) (ordered stage s)
  unfolding ordered
  ordered-fed stage s h k =
      let a = none_digital-is_fed s.seen in
      let g = gain_type-digital s.stage_type in
      let b = reorder-fed s.chan s.stage_type s.filt s.deci s.gain_blkt s.ref s.nc s.seen in
      let q = h.seen in
      elim (Option-cases (reorder s)) [
        | inl e ↦ rw e (ground arith)
        | inr (bs, e) ↦ let fed = b bs h k e in rw e (ground arith)
      ]

  -- What the stage's loop found sound is put in an order that the calculation can read.
  finish_stage-fed :
      (p : Place D) (s : Scan D)
      → Sound s
      → Ensures (λ st. is_fed st.blkts ≡ true) (finish_stage p s)
  unfolding finish_stage
  finish_stage-fed p s h =
      elim (Bool-cases (is_some s.deci || not (needs_decimation s.stage_type))) [
        | inl k ↦
            Ensures-bind (λ bs. is_fed bs ≡ true) (λ st. is_fed st.blkts ≡ true) (ordered p.stage s)
              _ (ordered-fed p.stage s h k)
              (λ bs i. accepted (λ st. is_fed st.blkts ≡ true) val _ _ i)
        | inr k ↦
            Ensures-bind (λ _. Unit {0}) (λ st. is_fed st.blkts ≡ true) (ordered p.stage s) _
              (Ensures-any (ordered p.stage s))
              (λ bs _.
                refused (λ st. is_fed st.blkts ≡ true) val _ _ _
                  (missing (is_some s.deci) (needs_decimation s.stage_type) k))
      ]

  check_stage-fed :
      (p : Place D) (c : Channel D) (nc : ℤ)
      → all_plain p.stage.blkts ≡ true
      → Ensures (λ r. is_fed r.0.blkts ≡ true) (check_stage p c nc)
  unfolding check_stage
  check_stage-fed p c nc h =
      Ensures-bind Sound (λ r. is_fed r.0.blkts ≡ true) _ _
        (scan_from-Sound (length p.stage.blkts) p _ p.stage.blkts
          (record { deci = refl; gain = refl; ref = refl; filt = refl; seen = refl }) h)
        (λ s i.
          Ensures-bind (λ st. is_fed st.blkts ≡ true) (λ r. is_fed r.0.blkts ≡ true)
            (finish_stage p s) _ (finish_stage-fed p s i) (λ st j. j))

  check_stages-fed :
      (e : Channel D) (before after : List (Stage D)) (prev : Option Units) (nc : ℤ)
      → All (λ st. is_fed st.blkts ≡ true) before
      → All (λ st. all_plain st.blkts ≡ true) after
      → Ensures
          (λ o. All (λ st. is_fed st.blkts ≡ true) o.stages)
          (check_stages e before after prev nc)
  unfolding check_stages
  check_stages-fed e before [] prev nc h k = h
  check_stages-fed e before (stage ∷ after) prev nc h k =
      let p : Place D = record {
        before = before;
        stage = stage;
        after = after;
        prev_units = prev;
      } in
      Ensures-bind {A = Stage D × Scan D} (λ r. is_fed r.0.blkts ≡ true)
        (λ o. All (λ st. is_fed st.blkts ≡ true) o.stages) (check_stage p e nc)
        (λ r.
          check_stages r.1.chan (before ++ r.0 ∷ []) after (next_prev prev stage r.1.stage_type)
            r.1.nc)
        (check_stage-fed p e nc k.0)
        (λ r i.
          check_stages-fed r.1.chan (before ++ r.0 ∷ []) after (next_prev prev stage r.1.stage_type)
            r.1.nc (All-++ (λ st. is_fed st.blkts ≡ true) before (r.0 ∷ []) h (i, tt)) k.1)

  -- In a channel that passes check_channel, and whose stages had neither a response list nor a
  -- polynomial before, a decimation stands directly behind every digital filter (the poles and
  -- zeros of type IIR, FIR weights and IIR coefficients).
  pub check_channel-fed :
      (c o : Channel D)
      → All (λ st. all_plain st.blkts ≡ true) c.stages
      → check_channel c ≡ checked o
      → All (λ st. is_fed st.blkts ≡ true) o.stages
  unfolding check_channel
  check_channel-fed c o h e =
      subst (Ensures (λ o. All (λ st. is_fed st.blkts ≡ true) o.stages)) e
        (check_stages-fed c [] c.stages none (pos 0) tt h)
