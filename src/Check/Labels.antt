-- ===== src/Check/Labels.antt =====
-- check_channel changes neither the names nor the times of a channel.
use evalresp.Prelude.{
  ℕ, zero, suc, ◌≡◌, refl, subst, length, ◌∙◌, Option, none, List, [], ◌∷◌, ◌++◌, arith,
}
use evalresp.Prelude.Int.{ℤ, pos}
use evalresp.Double.{Double}
use evalresp.Channel.{Units, Stage, Channel, Blkt, undef_filt, decimation, gain}
use evalresp.Checked.{checked, Ensures, Ensures-any, Ensures-bind}
use evalresp.Check.Scan.{Scan, Place, handle_blkt, scan_from}
use evalresp.Check.Stage.{finish_stage, next_prev, check_stage, check_stages, check_channel}

pub record SameLabels {D : Type 0} (a b : Channel D) : Type 0 where
  pub network : a.network ≡ b.network
  pub staname : a.staname ≡ b.staname
  pub locid : a.locid ≡ b.locid
  pub chaname : a.chaname ≡ b.chaname
  pub beg_t : a.beg_t ≡ b.beg_t
  pub end_t : a.end_t ≡ b.end_t

module _ {D : Type 0} where
  SameLabels-refl : (a : Channel D) → SameLabels a a
  SameLabels-refl a = record {
    network = refl;
    staname = refl;
    locid = refl;
    chaname = refl;
    beg_t = refl;
    end_t = refl;
  }

  SameLabels-trans : (a b c : Channel D) → SameLabels a b → SameLabels b c → SameLabels a c
  SameLabels-trans a b c h k = record {
    network = h.network ∙ k.network;
    staname = h.staname ∙ k.staname;
    locid = h.locid ∙ k.locid;
    chaname = h.chaname ∙ k.chaname;
    beg_t = h.beg_t ∙ k.beg_t;
    end_t = h.end_t ∙ k.end_t;
  }

module _ {D : Type 0} ⦃d : Double D⦄ where
  handle_blkt-SameLabels :
      (p : Place D) (s : Scan D) (b : Blkt D) (next : List (Blkt D))
      → Ensures (λ r. SameLabels s.chan r.0.chan) (handle_blkt p s b next)
  unfolding handle_blkt
  handle_blkt-SameLabels p s undef_filt next = tt
  handle_blkt-SameLabels p s (gain b) next = ground arith
  handle_blkt-SameLabels p s (decimation b) next = ground arith
  handle_blkt-SameLabels p s b next = ground arith

  scan_from-SameLabels :
      (c : Channel D) (fuel : ℕ) (p : Place D) (s : Scan D) (bs : List (Blkt D))
      → SameLabels c s.chan
      → Ensures (λ r. SameLabels c r.chan) (scan_from fuel p s bs)
  unfolding scan_from
  scan_from-SameLabels c zero p s [] h = h
  scan_from-SameLabels c (suc fuel) p s [] h = h
  scan_from-SameLabels c zero p s (b ∷ next) h = tt
  scan_from-SameLabels c (suc fuel) p s (b ∷ next) h =
      Ensures-bind (λ r. SameLabels s.chan r.0.chan) (λ r. SameLabels c r.chan)
        (handle_blkt p s b next) _ (handle_blkt-SameLabels p s b next)
        (λ r k. scan_from-SameLabels c fuel p r.0 r.1 (SameLabels-trans c s.chan r.0.chan h k))

  check_stage-SameLabels :
      (p : Place D) (c : Channel D) (nc : ℤ)
      → Ensures (λ r. SameLabels c r.1.chan) (check_stage p c nc)
  unfolding check_stage
  check_stage-SameLabels p c nc =
      Ensures-bind (λ r. SameLabels c r.chan) (λ r. SameLabels c r.1.chan) _ _
        (scan_from-SameLabels c (length p.stage.blkts) p _ p.stage.blkts (SameLabels-refl c))
        (λ s h.
          Ensures-bind (λ _. Unit {0}) (λ r. SameLabels c r.1.chan) (finish_stage p s) _
            (Ensures-any (finish_stage p s)) (λ st _. h))

  check_stages-SameLabels :
      (c e : Channel D) (before after : List (Stage D)) (prev : Option Units) (nc : ℤ)
      → SameLabels c e
      → Ensures (SameLabels c) (check_stages e before after prev nc)
  unfolding check_stages
  check_stages-SameLabels c e before [] prev nc h = ground arith
  check_stages-SameLabels c e before (stage ∷ after) prev nc h =
      let p : Place D = record {
        before = before;
        stage = stage;
        after = after;
        prev_units = prev;
      } in
      Ensures-bind {A = Stage D × Scan D} (λ r. SameLabels e r.1.chan) (SameLabels c)
        (check_stage p e nc)
        (λ r.
          check_stages r.1.chan (before ++ r.0 ∷ []) after (next_prev prev stage r.1.stage_type)
            r.1.nc)
        (check_stage-SameLabels p e nc)
        (λ r k.
          check_stages-SameLabels c r.1.chan (before ++ r.0 ∷ []) after
            (next_prev prev stage r.1.stage_type) r.1.nc (SameLabels-trans c e r.1.chan h k))

  -- A channel that passes check_channel keeps its names and its times.
  pub check_channel-SameLabels : (c o : Channel D) → check_channel c ≡ checked o → SameLabels c o
  unfolding check_channel
  check_channel-SameLabels c o e =
      subst (Ensures (SameLabels c)) e
        (check_stages-SameLabels c c [] c.stages none (pos 0) (SameLabels-refl c))
