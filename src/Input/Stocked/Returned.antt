-- ===== src/Input/Stocked/Returned.antt =====
-- What read_channel_data returns: a truncated input is no failure of it, and the stages of the channel
-- have blockettes.
use evalresp.Prelude.{
  ℕ, zero, suc, ◌≡◌, ◌<◌, refl, ap, arith, Bool, true, false, not, Option, none, some, [], ◌∷◌, All,
  ◌⊎◌, inl, inr, length,
}
use evalresp.Prelude.Int.{ℤ, pos, eqb_ℤ}
use evalresp.CString.{Str}
use evalresp.Status.{Status, ok, eof}
use evalresp.Checked.{Checked, checked, failed, undefined}
use evalresp.RegExp.{RegExp}
use evalresp.Double.{Double}
use evalresp.Channel.{Channel}
use evalresp.Options.{Options}
use evalresp.Input.Action.{
  Input, Action, pure, wild, require, modify, set_channel, set_stage, set_blkt, set_torn, proceed,
  ◌>>=◌, ◌>>◌, next_line,
}
use evalresp.Input.Reference.{new_stage, new_blkt, read_ref}
use evalresp.Input.Data.{
  Round, more, done, past_eof, referred, read_blkt, clear_stage, read_round_at, read_round, go_on,
  read_rounds, check_first_field, read_channel_data,
}
use evalresp.Input.Built.{Built, unbuilt, all_stages, add_reference}
use evalresp.Input.Reads.{IsStocked}
use evalresp.Input.Reads.Stages.{read_ref-Stocked}
use evalresp.Input.Reads.Rounds.{read_round-shorter}
use evalresp.Input.Stocked.{IsBuilt, add_reference-IsStocked}
use evalresp.Input.Stocked.Result.{
  Result, Returns, Any, Returns-bind, Returns-then, Returns-if, Returns-pure, Returns-return,
  but_eof-Result, Returns-staged, Returns-numbered, unless_failed-Result,
}

status_of : Checked Str → Status
status_of (failed status) = status
status_of _ = ok

module _ {D : Type 0} where
  -- The stages of a channel that is returned.
  abbrev pub HasBlockettes : Channel D → Type 0
  HasBlockettes c = All IsStocked c.stages ⊎ (c.stages ≡ new_stage ∷ [])

module _ {D : Type 0} ⦃d : Double D⦄ (re : RegExp) (o : Option (Options D)) where
  Returns-referred :
      (f : ℤ) (line : Str) (b : Built D)
      → IsBuilt b
      → Returns IsBuilt (referred (read_ref re o f line) b)
  unfolding referred past_eof
  Returns-referred f line b h = record {
    returns = λ s.
        let s0 : Input D = record s { stages = []; stage = new_stage } in
        let z = read_ref-Stocked re o f line s0 tt in
        let s' : Input D = (read_ref re o f line s0).1 in
        unless_failed-Result _ (add_reference s'.stages s'.stage b)
          (but_eof-Result (read_ref re o f line s0).0)
          (inl (add_reference-IsStocked s'.stages s'.stage b h z.stages z.stage));
  }

  Returns-read_blkt :
      (n f : ℤ) (line : Str) (b : Built D) → IsBuilt b → Returns IsBuilt (read_blkt re o n f line b)
  unfolding read_blkt
  Returns-read_blkt n f line b h =
      search (Returns-staged, Returns-numbered, Returns-referred, Returns-if, Returns-pure) depth 16

  Returns-clear_stage : Returns {D = D} Any (clear_stage re o)
  unfolding clear_stage new_blkt set_blkt set_torn set_stage modify ◌>>◌
  Returns-clear_stage = record { returns = λ s. tt }

  abbrev IsRound : Round D → Type 0
  IsRound (more f b) = IsBuilt b
  IsRound (done f b line) = IsBuilt b

  Returns-read_round_at :
      (f : Option ℤ) (b : Built D) (r : Checked (ℤ × ℤ × Str))
      → IsBuilt b
      → Returns IsRound (read_round_at re o f b r)
  unfolding read_round_at wild
  Returns-read_round_at f b (checked (n, fld, line)) h = Returns-if _ (Returns-pure _ h) (
      Returns-then Returns-clear_stage
        (Returns-bind (Returns-read_blkt n fld line b h) λ b' k. Returns-pure _ k))
  Returns-read_round_at f b (failed eof) h = Returns-pure _ h
  Returns-read_round_at f b (failed _) h = Returns-return _ λ e. cc
  Returns-read_round_at f b undefined h = record { returns = λ s. tt }

  Returns-read_round :
      (f : Option ℤ) (b : Built D) → IsBuilt b → Returns IsRound (read_round re o f b)
  unfolding read_round
  Returns-read_round f b h = record {
    returns = λ s. (Returns-read_round_at f b (next_line re s).0 h).returns (next_line re s).1;
  }

  -- What the loop returns: first_field, the stages and the line behind them.
  abbrev IsEnd : Option ℤ × Built D × Str → Type 0
  IsEnd (f, b, line) = IsBuilt b

  proceed-round :
      (r : Checked (Round D) × Input D)
      (k : Option ℤ → Built D → Action D (Option ℤ × Built D × Str))
      → Result IsRound r.0
      → ((f : Option ℤ) (b : Built D)
          → r.0 ≡ checked (more f b)
          → IsBuilt b
          → Result IsEnd (k f b r.1).0)
      → Result IsEnd (proceed r (go_on k)).0
  unfolding proceed go_on pure
  proceed-round (checked (more f b), s) k h l = l f b refl h
  proceed-round (checked (done f b line), s) k h l = h
  proceed-round (failed status, s) k h l = h
  proceed-round (undefined, s) k h l = tt

  read_rounds-Result :
      (n : ℕ) (f : Option ℤ) (b : Built D) (s : Input D)
      → length s.seed < n
      → IsBuilt b
      → Result IsEnd (read_rounds re o n f b s).0
  unfolding read_rounds ◌>>=◌
  read_rounds-Result zero f b s h k = absurd (omega arith)
  read_rounds-Result (suc n) f b s h k =
      let r = read_round re o f b s in
      proceed-round r (read_rounds re o n) ((Returns-read_round f b k).returns s) λ f' b' e l.
        read_rounds-Result n f' b' r.1 (omega (arith, read_round-shorter re o f b s (f', b', e))) l

  Ended : Checked Str × Input D → Type 0
  Ended r = Result (λ line. HasBlockettes r.1.channel) r.0

  require-Ended :
      (t : Bool) (line : Str) (s : Input D)
      → HasBlockettes s.channel
      → Ended ((require t >> pure line) s)
  unfolding Ended require pure proceed ◌>>◌ ◌>>=◌
  require-Ended true line s h = h
  require-Ended false line s h = λ e. cc

  built-blockettes :
      (b : Built D) (c : Channel D) → IsBuilt b → HasBlockettes (record c { stages = all_stages b })
  built-blockettes b c (inl h) = inl h
  built-blockettes b c (inr e) = inr (ap all_stages e)

  proceed-Ended :
      (r : Checked (Option ℤ × Built D × Str) × Input D)
      → Result IsEnd r.0
      → Ended (
          proceed r λ (first_field, b, line).
            set_channel (λ c. record c { stages = all_stages b })
            >> (check_first_field re o first_field >> pure line))
  unfolding Ended proceed check_first_field set_channel modify require wild pure ◌>>◌ ◌>>=◌
  proceed-Ended (checked (none, b, line), s) h = tt
  proceed-Ended (checked (some f, b, line), s) h =
      require-Ended (not (eqb_ℤ f (pos 0))) line _ (built-blockettes b s.channel h)
  proceed-Ended (failed status, s) h = h
  proceed-Ended (undefined, s) h = tt

  Ended-blockettes :
      (r : Checked Str × Input D) (line : Str)
      → Ended r
      → r.0 ≡ checked line
      → HasBlockettes r.1.channel
  unfolding Ended
  Ended-blockettes (checked a, s) line h e = h
  Ended-blockettes (failed status, s) line h e = absurd cc
  Ended-blockettes (undefined, s) line h e = absurd cc

  read_channel_data-Ended : (s : Input D) → Ended (read_channel_data re o s)
  unfolding read_channel_data set_stage modify proceed ◌>>◌ ◌>>=◌
  read_channel_data-Ended s =
      let s0 : Input D = record s { stage = new_stage } in
      proceed-Ended (read_rounds re o (suc (length s.seed)) none unbuilt s0)
        (read_rounds-Result (suc (length s.seed)) none unbuilt s0 (omega arith) (inr refl))

  -- Where read_channel_data succeeds, each stage of the channel has a blockette, or the channel has one
  -- stage alone, as it was allocated.
  pub read_channel_data-stages :
      (s : Input D) (line : Str)
      → (read_channel_data re o s).0 ≡ checked line
      → HasBlockettes (read_channel_data re o s).1.channel
  read_channel_data-stages s line e = Ended-blockettes _ line (read_channel_data-Ended s) e
