-- ===== src/Input/Reads.antt =====
-- What a reader of a blockette leaves alone: it takes its lines off the input, and the stages keep
-- their blockettes.
pub mod Lines
pub mod Filters
pub mod Lists
pub mod Stages
pub mod Rounds
pub mod Channels
use evalresp.Prelude.{
  ℕ, zero, suc, ◌+◌, ◌≤◌, ◌<◌, ◌≡◌, ◌≢◌, refl, sym, ap, ◌∙◌, Bool, true, false, Option, none, some,
  List, [], ◌∷◌, ◌⊎◌, inl, inr, arith, if◌then◌else◌, length, All, All-++, ◌++◌,
}
use evalresp.Prelude.Int.{ℤ, pos, negsuc}
use evalresp.CString.{Str, is_empty, codes}
use evalresp.Status.{Status, is_ok}
use evalresp.Checked.{Checked, checked, failed, undefined}
use evalresp.RegExp.{RegExp, max_line_len}
use evalresp.Double.{Double}
use evalresp.Channel.{Stage, Blkt, Channel}
use evalresp.Reader.{
  Pref, LineRead, read_pref, after_separator, slurp_line, separated, read_line, find_line,
  drop_comments_and_blank_lines,
}
use evalresp.Reader.Find.{
  next_pref, Finds, Str-cases, at_end, bad_prefix, here, later, length-next_line, find_line-Finds,
}
use evalresp.Reader.Lines.{length-drop_comments}
use evalresp.Input.Action.{
  Input, Action, pure, return, wild, require, when, modify, set_stage, set_channel, set_blkt,
  set_torn, allocate, fitting, repeat, field_of, read_int, read_double, input_line, input_field,
  find_int_field, find_double_field, parse_int_field, real_of, next_line, ◌>>=◌, ◌>>◌, proceed,
}

-- A stage has a blockette.
abbrev pub IsStocked : {D : Type 0} → Stage D → Type 0
IsStocked st = st.blkts ≢ []

-- Each stage that read_ref has read has a blockette.
pub record Stocked {D : Type 0} (s : Input D) : Type 0 where
  pub stages : All IsStocked s.stages
  pub stage : IsStocked s.stage

pub record Advance {D : Type 0} (s s' : Input D) : Type 0 where
  pub shorter : length s'.seed ≤ length s.seed
  pub stocked : Stocked s → Stocked s'

pub record Reads {D A : Type 0} (m : Action D A) : Type 0 where
  pub advance : (s : Input D) → Advance s (m s).1

module _ {D : Type 0} where
  pub Advance-refl : (s : Input D) → Advance s s
  Advance-refl s = record { shorter = omega arith; stocked = λ h. h }

  -- A step that leaves the stages alone.
  pub Advance-seed :
      (s s' : Input D)
      → length s'.seed ≤ length s.seed
      → s'.stages ≡ s.stages
      → s'.stage.blkts ≡ s.stage.blkts
      → Advance s s'
  Advance-seed s s' h k l = record {
    shorter = h;
    stocked = λ z. record { stages = rw k z.stages; stage = rw l z.stage };
  }

  pub Advance-trans : (a b c : Input D) → Advance a b → Advance b c → Advance a c
  Advance-trans a b c h k = record {
    shorter = omega (arith, h.shorter, k.shorter);
    stocked = λ z. k.stocked (h.stocked z);
  }

module _ {D A : Type 0} where
  pub Reads-pure : (a : A) → Reads {D = D} (pure a)
  unfolding pure
  Reads-pure a = record { advance = λ s. Advance-refl s }

  pub Reads-return : (status : Status) → Reads {D = D} {A = A} (return status)
  unfolding return
  Reads-return status = record { advance = λ s. Advance-refl s }

  pub Reads-wild : Reads {D = D} {A = A} wild
  unfolding wild
  Reads-wild = record { advance = λ s. Advance-refl s }

  pub Reads-if : (b : Bool) {x y : Action D A} → Reads x → Reads y → Reads (if b then x else y)
  Reads-if true h k = h
  Reads-if false h k = k

module _ {D A B : Type 0} where
  proceed-Advance :
      (s : Input D) (r : Checked A × Input D) (f : A → Action D B)
      → Advance s r.1
      → ((a : A) → Reads (f a))
      → Advance s (proceed r f).1
  unfolding proceed
  proceed-Advance s (checked a, t) f h k = Advance-trans s t _ h ((k a).advance t)
  proceed-Advance s (failed status, t) f h k = h
  proceed-Advance s (undefined, t) f h k = h

  pub Reads-bind :
      {m : Action D A} {f : A → Action D B} → Reads m → ((a : A) → Reads (f a)) → Reads (m >>= f)
  unfolding ◌>>=◌
  Reads-bind {m = m} {f} h k = record { advance = λ s. proceed-Advance s (m s) f (h.advance s) k }

  pub Reads-then : {m : Action D A} {k : Action D B} → Reads m → Reads k → Reads (m >> k)
  unfolding ◌>>◌
  Reads-then h k = Reads-bind h λ a. k

module _ {D : Type 0} where
  pub Reads-set_blkt : (b : Blkt D) → Reads (set_blkt b)
  unfolding set_blkt modify
  Reads-set_blkt b = record { advance = λ s. Advance-seed s _ (omega arith) refl refl }

  pub Reads-set_torn : (t : Bool) → Reads {D = D} (set_torn t)
  unfolding set_torn modify
  Reads-set_torn t = record { advance = λ s. Advance-seed s _ (omega arith) refl refl }

  pub Reads-set_channel : (f : Channel D → Channel D) → Reads (set_channel f)
  unfolding set_channel modify
  Reads-set_channel f = record { advance = λ s. Advance-seed s _ (omega arith) refl refl }

  pub Reads-set_stage :
      (f : Stage D → Stage D) → ((st : Stage D) → (f st).blkts ≡ st.blkts) → Reads (set_stage f)
  unfolding set_stage modify
  Reads-set_stage f h = record { advance = λ s. Advance-seed s _ (omega arith) refl (h s.stage) }

  pub Reads-require : (b : Bool) → Reads {D = D} (require b)
  unfolding require
  Reads-require b = record { advance = λ s. Advance-refl s }

  pub Reads-when : (b : Bool) {m : Action D Unit} → Reads m → Reads (when b m)
  unfolding when
  Reads-when true h = record { advance = h.advance }
  Reads-when false h = record { advance = Advance-refl }

  pub Reads-allocate : (n : ℤ) → Reads {D = D} (allocate n)
  unfolding allocate
  Reads-allocate (pos n) = record { advance = λ s. Advance-seed s _ (omega arith) refl refl }
  Reads-allocate (negsuc n) = record { advance = Advance-refl }

  pub Reads-fitting : (n : ℕ) (text : Str) → Reads {D = D} (fitting n text)
  unfolding fitting
  Reads-fitting n text = record { advance = λ s. Advance-refl s }

  pub Reads-field_of : (line : Str) (n : ℕ) → Reads {D = D} (field_of line n)
  unfolding field_of
  Reads-field_of line n = record { advance = λ s. Advance-refl s }

  pub Reads-repeat : {A : Type 0} (n : ℕ) {m : Action D A} → Reads m → Reads (repeat n m)
  unfolding repeat
  Reads-repeat zero h = record { advance = Advance-refl }
  Reads-repeat (suc n) h = record {
    advance =
        (Reads-bind h λ a. Reads-bind (Reads-repeat n h) λ rest. Reads-pure (a ∷ rest)).advance;
  }
