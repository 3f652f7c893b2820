-- ===== src/Input/Reads/Rounds.antt =====
-- The loop of read_channel_data ends: each of its rounds takes a line off the input.
use evalresp.Prelude.{
  ℕ, zero, suc, ◌<◌, ◌≡◌, refl, ◌∙◌, ap, arith, Bool, true, false, Option, none, some, length,
}
use evalresp.Prelude.Int.{ℤ}
use evalresp.CString.{Str, codes}
use evalresp.Status.{eof, is_ok-eq}
use evalresp.Checked.{Checked, checked, failed, undefined}
use evalresp.RegExp.{RegExp}
use evalresp.Double.{Double}
use evalresp.Options.{Options}
use evalresp.Reader.{read_line}
use evalresp.Reader.Find.{read_line-ok}
use evalresp.Input.Action.{Input, Action, next_line, proceed, pure, return, wild, ◌>>=◌}
use evalresp.Input.Filters.{is_iir_coeffs}
use evalresp.Input.Data.{
  Round, more, done, past_eof, whole, staged, numbered, referred, read_54, read_54_as, read_blkt,
  clear_stage, read_round_at, read_round, go_on, read_rounds,
}
use evalresp.Input.Built.{Built}
use evalresp.Input.Reads.{
  Reads, Advance-refl, Advance-seed, Advance-trans, Reads-wild, Reads-pure, Reads-return,
  Reads-bind,
}
use evalresp.Input.Reads.Lines.{Reads-next_line, fields}
use evalresp.Input.Reads.Filters.{
  Reads-read_pz, Reads-read_iir_coeff, Reads-read_coeff, Reads-read_fir, Reads-read_polynomial,
}
use evalresp.Input.Reads.Lists.{
  Reads-read_list, Reads-read_generic, Reads-read_deci, Reads-read_gain,
}
use evalresp.Input.Reads.Stages.{Reads-read_ref, Reads-new_blkt}

module _ {D : Type 0} where
  Reads-past_eof : (m : Action D Unit) → Reads m → Reads (past_eof m)
  unfolding past_eof
  Reads-past_eof m h = record { advance = h.advance }

  Reads-whole : Reads {D = D} whole
  unfolding whole
  Reads-whole = record { advance = Advance-refl }

  Reads-built : (f : Input D → Built D) → Reads {D = D} (λ s. (checked (f s), s))
  Reads-built f = record { advance = Advance-refl }

  Reads-staged : (m : Action D Unit) (b : Built D) → Reads m → Reads (staged m b)
  unfolding staged
  Reads-staged m b h = search (Reads-past_eof, Reads-whole, Reads-built, fields)

  Reads-numbered : (m : Action D Unit) (b : Built D) → Reads m → Reads (numbered m b)
  unfolding numbered
  Reads-numbered m b h = search (Reads-past_eof, Reads-whole, Reads-built, fields)

  Reads-referred : (m : Action D Unit) (b : Built D) → Reads m → Reads (referred m b)
  unfolding referred past_eof
  Reads-referred m b h = record {
    advance = λ s. Advance-seed s _ ((h.advance _).shorter) refl refl;
  }

module _ {D : Type 0} ⦃d : Double D⦄ (re : RegExp) (o : Option (Options D)) where
  Reads-read_54_as :
      (c : Option Bool) (f : ℤ) (line : Str) → Reads {D = D} (read_54_as re o c f line)
  unfolding read_54_as
  Reads-read_54_as none f line = Reads-wild
  Reads-read_54_as (some true) f line = Reads-read_iir_coeff re o f line
  Reads-read_54_as (some false) f line = Reads-read_coeff re o f line

  Reads-read_54 : (f : ℤ) (line : Str) → Reads {D = D} (read_54 re o f line)
  unfolding read_54
  Reads-read_54 f line = record {
    advance = λ s. (Reads-read_54_as (is_iir_coeffs s.seed) f line).advance s;
  }

  Reads-read_blkt : (n f : ℤ) (line : Str) (b : Built D) → Reads (read_blkt re o n f line b)
  unfolding read_blkt
  Reads-read_blkt n f line b =
      search
        (
          Reads-staged, Reads-numbered, Reads-referred, Reads-read_pz, Reads-read_54,
          Reads-read_list, Reads-read_generic, Reads-read_deci, Reads-read_gain, Reads-read_ref,
          Reads-read_fir, Reads-read_polynomial, fields,
        )
        depth 16 fits 3000

  Reads-clear_stage : Reads {D = D} (clear_stage re o)
  unfolding clear_stage
  Reads-clear_stage = search (Reads-new_blkt, fields)

  Reads-read_round_at :
      (f : Option ℤ) (b : Built D) (r : Checked (ℤ × ℤ × Str)) → Reads (read_round_at re o f b r)
  unfolding read_round_at
  Reads-read_round_at f b (checked (n, fld, line)) =
      search (Reads-clear_stage, Reads-read_blkt, fields) depth 10
  Reads-read_round_at f b (failed eof) = Reads-pure _
  Reads-read_round_at f b (failed _) = Reads-return _
  Reads-read_round_at f b undefined = Reads-wild

  Reads-read_round : (f : Option ℤ) (b : Built D) → Reads (read_round re o f b)
  unfolding read_round
  Reads-read_round f b = record {
    advance = λ s.
        Advance-trans s _ _ ((Reads-next_line re).advance s)
          ((Reads-read_round_at f b (next_line re s).0).advance _);
  }

  Reads-go_on :
      (k : Option ℤ → Built D → Action D (Option ℤ × Built D × Str)) (round : Round D)
      → ((f : Option ℤ) (b : Built D) → Reads (k f b))
      → Reads (go_on k round)
  unfolding go_on
  Reads-go_on k (more f b) h = h f b
  Reads-go_on k (done f b line) h = Reads-pure _

  pub Reads-read_rounds : (n : ℕ) (f : Option ℤ) (b : Built D) → Reads (read_rounds re o n f b)
  unfolding read_rounds
  Reads-read_rounds zero f b = Reads-return eof
  Reads-read_rounds (suc n) f b =
      Reads-bind (Reads-read_round f b)
        λ round. Reads-go_on (read_rounds re o n) round (Reads-read_rounds n)

  next_line-shorter :
      (s : Input D) (x : ℤ × ℤ × Str)
      → (next_line re s).0 ≡ checked x
      → length (next_line re s).1.seed < length s.seed
  unfolding next_line
  next_line-shorter s x h =
      ground (
        arith,
        read_line-ok re s.seed (codes ":"),
        is_ok-eq (read_line re s.seed (codes ":")).status,
      )

  -- A round behind which there are more has read a line.
  abbrev IsMore : Checked (Round D) → Type 0
  IsMore r = (f : Option ℤ) × (b : Built D) × (r ≡ checked (more f b))

  round_at-more :
      (f : Option ℤ) (b : Built D) (r : Checked (ℤ × ℤ × Str)) (s : Input D)
      → IsMore (read_round_at re o f b r s).0
      → (x : ℤ × ℤ × Str) × (r ≡ checked x)
  unfolding read_round_at pure return wild
  round_at-more f b (checked x) s h = (x, refl)
  round_at-more f b (failed eof) s (_, _, h) = absurd cc
  round_at-more f b (failed _) s (_, _, h) = absurd cc
  round_at-more f b undefined s (_, _, h) = absurd cc

  pub read_round-shorter :
      (f : Option ℤ) (b : Built D) (s : Input D)
      → IsMore (read_round re o f b s).0
      → length (read_round re o f b s).1.seed < length s.seed
  unfolding read_round
  read_round-shorter f b s h =
      let (x, e) = round_at-more f b (next_line re s).0 (next_line re s).1 h in
      let later = (Reads-read_round_at f b (next_line re s).0).advance (next_line re s).1 in
      omega (arith, next_line-shorter s x e, later.shorter)

module _ {D A B : Type 0} where
  proceed-cong :
      (r : Checked A × Input D) (f g : A → Action D B)
      → ((a : A) → r.0 ≡ checked a → f a r.1 ≡ g a r.1)
      → proceed r f ≡ proceed r g
  unfolding proceed
  proceed-cong (checked a, s) f g h = h a refl
  proceed-cong (failed status, s) f g h = refl
  proceed-cong (undefined, s) f g h = refl

module _ {D : Type 0} ⦃d : Double D⦄ (re : RegExp) (o : Option (Options D)) where
  go_on-cong :
      (k l : Option ℤ → Built D → Action D (Option ℤ × Built D × Str)) (round : Round D)
      (s : Input D)
      → ((f : Option ℤ) (b : Built D) → round ≡ more f b → k f b s ≡ l f b s)
      → go_on k round s ≡ go_on l round s
  unfolding go_on
  go_on-cong k l (more f b) s h = h f b refl
  go_on-cong k l (done f b line) s h = refl

  -- read_channel_data's loop ends by itself: from one more than the length of the input on, the fuel does not matter.
  pub read_rounds-fuel :
      (n m : ℕ) (f : Option ℤ) (b : Built D) (s : Input D)
      → length s.seed < n
      → length s.seed < m
      → read_rounds re o n f b s ≡ read_rounds re o m f b s
  unfolding read_rounds ◌>>=◌
  read_rounds-fuel zero m f b s h k = absurd (omega arith)
  read_rounds-fuel (suc n) zero f b s h k = absurd (omega arith)
  read_rounds-fuel (suc n) (suc m) f b s h k =
      let (r, s') = read_round re o f b s in
      proceed-cong (r, s') (go_on (read_rounds re o n)) (go_on (read_rounds re o m))
        λ round e. go_on-cong (read_rounds re o n) (read_rounds re o m) round s' λ f' b' e'.
          let short = read_round-shorter re o f b s (f', b', e ∙ ap checked e') in
          read_rounds-fuel n m f' b' s' (omega (arith, short)) (omega (arith, short))
