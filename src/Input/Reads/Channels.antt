-- ===== src/Input/Reads/Channels.antt =====
-- The loop of collect_channels ends: a channel that is read takes a line off the input.
use evalresp.Prelude.{
  ℕ, zero, suc, ◌≤◌, ◌<◌, ◌≡◌, ◌≢◌, refl, arith, false, Option, none, some, List, length,
  if◌then◌else◌,
}
use evalresp.Prelude.Int.{ℤ, pos}
use evalresp.CString.{Str, codes}
use evalresp.Status.{Status, ok, is_ok}
use evalresp.Checked.{Checked, checked, failed, undefined}
use evalresp.RegExp.{RegExp}
use evalresp.Double.{Double}
use evalresp.Channel.{Channel, Stage}
use evalresp.Options.{Options}
use evalresp.Reader.{find_line, drop_comments_and_blank_lines}
use evalresp.Reader.Find.{
  Finds, at_end, bad_prefix, here, later, find_line-Finds, read_line-ok, length-next_line,
}
use evalresp.Reader.Lines.{length-drop_comments}
use evalresp.Input.Action.{
  Input, Action, input_line, input_field, proceed, set_stage, modify, ◌>>=◌, ◌>>◌,
}
use evalresp.Input.Header.{read_station, read_location, read_names, read_channel_header}
use evalresp.Input.Data.{check_first_field, read_channel_data}
use evalresp.Input.Collect.{from_seed, read_channel, add_channel, collect_from}
use evalresp.Input.Reads.{Reads, Advance-seed, Reads-wild, Reads-require}
use evalresp.Input.Reads.Lines.{length-read_line, fields}
use evalresp.Input.Reads.Rounds.{Reads-read_rounds}

-- An action that is shorter by a line wherever it returns a value.
record Takes {D A : Type 0} (m : Action D A) : Type 0 where
  takes : (s : Input D) (a : A) → (m s).0 ≡ checked a → length (m s).1.seed < length s.seed

module _ {D A B : Type 0} where
  proceed-first :
      (n : ℕ) (r : Checked A × Input D) (f : A → Action D B)
      → ((a : A) → r.0 ≡ checked a → length r.1.seed < n)
      → ((a : A) (s : Input D) → length (f a s).1.seed ≤ length s.seed)
      → (b : B) → (proceed r f).0 ≡ checked b
      → length (proceed r f).1.seed < n
  unfolding proceed
  proceed-first n (checked a, s) f h k b e = omega (arith, h a refl, k a s)
  proceed-first n (failed status, s) f h k b e = absurd cc
  proceed-first n (undefined, s) f h k b e = absurd cc

  proceed-later :
      (n : ℕ) (r : Checked A × Input D) (f : A → Action D B)
      → length r.1.seed ≤ n
      → ((a : A) → Takes (f a))
      → (b : B) → (proceed r f).0 ≡ checked b
      → length (proceed r f).1.seed < n
  unfolding proceed
  proceed-later n (checked a, s) f h k b e = omega (arith, h, (k a).takes s b e)
  proceed-later n (failed status, s) f h k b e = absurd cc
  proceed-later n (undefined, s) f h k b e = absurd cc

  Takes-first :
      {m : Action D A} {f : A → Action D B} → Takes m → ((a : A) → Reads (f a)) → Takes (m >>= f)
  unfolding ◌>>=◌
  Takes-first {m = m} {f} h k = record {
    takes = λ s b e. proceed-first _ (m s) f (h.takes s) (λ a t. ((k a).advance t).shorter) b e;
  }

  Takes-later :
      {m : Action D A} {f : A → Action D B} → Reads m → ((a : A) → Takes (f a)) → Takes (m >>= f)
  unfolding ◌>>=◌
  Takes-later {m = m} {f} h k = record {
    takes = λ s b e. proceed-later _ (m s) f ((h.advance s).shorter) k b e;
  }

  Takes-then : {m : Action D A} {k : Action D B} → Reads m → Takes k → Takes (m >> k)
  unfolding ◌>>◌
  Takes-then h k = Takes-later h λ a. k

  Takes-head : {m : Action D A} {k : Action D B} → Takes m → Reads k → Takes (m >> k)
  unfolding ◌>>◌
  Takes-head h k = Takes-first h λ a. k

not_ok : (s : Status) → is_ok s ≡ false → s ≢ ok
unfolding is_ok
not_ok ok h k = cc
not_ok _ h k = cc

module _ (re : RegExp) (sep : Str) (b f : ℤ) where
  Finds-strict :
      (seed : Str) (r : Status × Str × Str)
      → Finds re sep b f seed r
      → r.0 ≡ ok
      → length r.2 < length seed
  Finds-strict seed r (at_end _ _) e = absurd cc
  Finds-strict seed r (bad_prefix _ n k) e = absurd (not_ok _ k e)
  Finds-strict seed r (here _ n k l) e =
      let start = drop_comments_and_blank_lines seed in
      let (_, _, h) = read_line-ok re start sep e in omega (arith, h, length-drop_comments seed)
  Finds-strict seed r (later _ _ n k l g) e =
      omega (arith, Finds-strict _ r g e, length-next_line seed n)

line_status :
    (s : Status) (line x : Str) → (if is_ok s then checked line else failed s) ≡ checked x → s ≡ ok
unfolding is_ok
line_status ok line x h = refl
line_status _ line x h = absurd cc

module _ {D : Type 0} ⦃d : Double D⦄ (re : RegExp) where
  Takes-input_line : (sep : Str) (b f : ℤ) → Takes {D = D} (input_line re sep b f)
  unfolding input_line
  Takes-input_line sep b f = record {
    takes = λ s a e.
        let r = find_line re s.seed sep b f in
        Finds-strict re sep b f s.seed r (find_line-Finds re s.seed sep b f)
          (line_status r.0 r.1 a e);
  }

  Takes-input_field : (sep : Str) (b f : ℤ) (n : ℕ) → Takes {D = D} (input_field re sep b f n)
  unfolding input_field
  Takes-input_field sep b f n = Takes-first (Takes-input_line sep b f) λ line. search fields

  Reads-read_station : (line : Str) → Reads {D = D} (read_station re line)
  unfolding read_station
  Reads-read_station line = search fields

  Reads-read_location : Reads {D = D} (read_location re)
  unfolding read_location
  Reads-read_location = record {
    advance = λ s. Advance-seed s _ (length-read_line re s.seed (codes ":")) refl refl;
  }

  Reads-read_names : (b f : ℤ) (field : Str) → Reads {D = D} (read_names re b f field)
  unfolding read_names
  Reads-read_names b f field = search fields depth 12

  -- The field with the network is always read.
  Takes-read_channel_header : (line : Str) → Takes {D = D} (read_channel_header re line)
  unfolding read_channel_header
  Takes-read_channel_header line = Takes-then (search fields) (
      Takes-later (Reads-read_station line) λ station. Takes-later (search fields) λ staname.
        Takes-then (search fields) (
          Takes-first (Takes-input_field (codes ":") (pos 50) (pos 16) 0)
            λ field. search (Reads-read_location, Reads-read_names, fields) depth 24 fits 3000))

module _ {D : Type 0} ⦃d : Double D⦄ (re : RegExp) (o : Option (Options D)) where
  -- What follows the allocation of the first stage only takes lines off the input.
  set_stage-shorter :
      {B : Type 0} (f : Stage D → Stage D) (k : Action D B)
      → Reads k
      → (s : Input D) → length ((set_stage f >> k) s).1.seed ≤ length s.seed
  unfolding ◌>>◌ ◌>>=◌ set_stage modify
  set_stage-shorter f k h s = (h.advance _).shorter

  Reads-check_first_field : (f : Option ℤ) → Reads {D = D} (check_first_field re o f)
  unfolding check_first_field
  Reads-check_first_field none = Reads-wild
  Reads-check_first_field (some f) = Reads-require _

  read_channel_data-shorter :
      (s : Input D) → length (read_channel_data re o s).1.seed ≤ length s.seed
  unfolding read_channel_data
  read_channel_data-shorter s =
      set_stage-shorter _ _
        (search (Reads-read_rounds re o, Reads-check_first_field, fields) depth 8) s

  -- A channel takes at least one line.
  pub read_channel-shorter :
      (line next : Str) (s : Input D)
      → (read_channel re o line s).0 ≡ checked next
      → length (read_channel re o line s).1.seed < length s.seed
  unfolding read_channel ◌>>◌ ◌>>=◌
  read_channel-shorter line next s e =
      proceed-first _ (read_channel_header re line s) (λ u. read_channel_data re o)
        ((Takes-read_channel_header re line).takes s) (λ u. read_channel_data-shorter) next e

  add_channel-cong :
      (k l : Str → Str → List (Channel D) → Checked (List (Channel D)))
      (channels : List (Channel D)) (r : Checked Str × Input D)
      → ((line : Str) (cs : List (Channel D))
          → r.0 ≡ checked line
          → k r.1.seed line cs ≡ l r.1.seed line cs)
      → add_channel k channels r ≡ add_channel l channels r
  unfolding add_channel
  add_channel-cong k l channels (checked line, s) h = h line _ refl
  add_channel-cong k l channels (failed status, s) h = refl
  add_channel-cong k l channels (undefined, s) h = refl

  -- collect_channels' loop ends by itself: from one more than the length of the input on, the fuel does not matter.
  pub collect_from-fuel :
      (n m : ℕ) (seed line : Str) (channels : List (Channel D))
      → length seed < n
      → length seed < m
      → collect_from re o n seed line channels ≡ collect_from re o m seed line channels
  unfolding collect_from
  collect_from-fuel zero m seed line channels h k = absurd (omega arith)
  collect_from-fuel (suc n) zero seed line channels h k = absurd (omega arith)
  collect_from-fuel (suc n) (suc m) seed line channels h k =
      let r = read_channel re o line (from_seed seed) in
      rw
        (add_channel-cong (collect_from re o n) (collect_from re o m) channels r λ next cs e.
          let short = read_channel-shorter line next (from_seed seed) e in
          collect_from-fuel n m r.1.seed next cs (omega (arith, short)) (omega (arith, short)))
        refl
