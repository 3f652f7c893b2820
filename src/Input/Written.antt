-- ===== src/Input/Written.antt =====
-- Readers that succeed have written their blockette in full: `torn` is false behind them.
pub mod Readers
use evalresp.Prelude.{
  ℕ, zero, suc, ◌≡◌, refl, ◌∙◌, Bool, true, false, Option, none, some, List, [], ◌∷◌, if◌then◌else◌,
  length, ltb, ◌||◌, ap, arith,
}
use evalresp.Prelude.Int.{ℤ, pos, negsuc}
use evalresp.CString.{Str}
use evalresp.Status.{Status}
use evalresp.Checked.{Checked, checked, failed, undefined, Ensures}
use evalresp.RegExp.{RegExp}
use evalresp.Double.{Double}
use evalresp.Channel.{Stage, Blkt, Channel, undef_filt}
use evalresp.Input.Action.{
  Input, Action, pure, return, require, when, modify, set_stage, set_channel, set_blkt, set_torn,
  repeat, field_of, read_int, read_double, next_line, input_line, input_field, find_int_field,
  find_double_field, parse_int_field, real_of, proceed, ◌>>=◌, ◌>>◌,
}

-- A step that leaves `torn` as it is.
pub record Quiet {D A : Type 0} (m : Action D A) : Type 0 where
  pub same : (s : Input D) → (m s).1.torn ≡ s.torn

-- Where there is a value, the blockette is written.
abbrev pub IsWritten : {D A : Type 0} → Checked A × Input D → Type 0
IsWritten (checked a, s) = s.torn ≡ false
IsWritten (failed status, s) = Unit
IsWritten (undefined, s) = Unit

-- A reader behind which the blockette is written.
pub record Writes {D A : Type 0} (m : Action D A) : Type 0 where
  pub written : (s : Input D) → IsWritten (m s)

-- A reader behind which a blockette is written that had no member unwritten before.
pub record Fills {D A : Type 0} (m : Action D A) : Type 0 where
  pub filled : (s : Input D) → s.torn ≡ false → IsWritten (m s)

module _ {D A : Type 0} where
  pub Quiet-pure : (a : A) → Quiet {D = D} (pure a)
  unfolding pure
  Quiet-pure a = record { same = λ s. refl }

  pub Quiet-return : (status : Status) → Quiet {D = D} {A = A} (return status)
  unfolding return
  Quiet-return status = record { same = λ s. refl }

  pub Quiet-if : (b : Bool) {x y : Action D A} → Quiet x → Quiet y → Quiet (if b then x else y)
  Quiet-if true h k = h
  Quiet-if false h k = k

  quiet-IsWritten :
      (m : Action D A) (s : Input D) → (m s).1.torn ≡ s.torn → s.torn ≡ false → IsWritten (m s)
  quiet-IsWritten m s h k = written_at (m s) (h ∙ k)
    where
      written_at : (r : Checked A × Input D) → r.1.torn ≡ false → IsWritten r
      written_at (checked a, t) e = e
      written_at (failed status, t) e = tt
      written_at (undefined, t) e = tt

module _ {D A B : Type 0} where
  proceed-torn :
      (r : Checked A × Input D) (f : A → Action D B)
      → ((a : A) → Quiet (f a))
      → (proceed r f).1.torn ≡ r.1.torn
  unfolding proceed
  proceed-torn (checked a, s) f h = (h a).same s
  proceed-torn (failed status, s) f h = refl
  proceed-torn (undefined, s) f h = refl

  pub Quiet-bind :
      {m : Action D A} {f : A → Action D B} → Quiet m → ((a : A) → Quiet (f a)) → Quiet (m >>= f)
  unfolding ◌>>=◌
  Quiet-bind {m = m} {f} h k = record { same = λ s. proceed-torn (m s) f k ∙ h.same s }

  pub Quiet-then : {m : Action D A} {k : Action D B} → Quiet m → Quiet k → Quiet (m >> k)
  unfolding ◌>>◌
  Quiet-then h k = Quiet-bind h λ a. k

  proceed-IsWritten :
      (r : Checked A × Input D) (f : A → Action D B)
      → ((a : A) → Writes (f a))
      → IsWritten (proceed r f)
  unfolding proceed
  proceed-IsWritten (checked a, s) f h = (h a).written s
  proceed-IsWritten (failed status, s) f h = tt
  proceed-IsWritten (undefined, s) f h = tt

  pub Writes-bind :
      (m : Action D A) {f : A → Action D B} → ((a : A) → Writes (f a)) → Writes (m >>= f)
  unfolding ◌>>=◌
  Writes-bind m {f} h = record { written = λ s. proceed-IsWritten (m s) f h }

  pub Writes-then : (m : Action D A) {k : Action D B} → Writes k → Writes (m >> k)
  unfolding ◌>>◌
  Writes-then m h = Writes-bind m λ a. h

module _ {D A : Type 0} where
  proceed-gives :
      {B : Type 0} (P : B → Type 0) (r : Checked A × Input D) (f : A → Action D B)
      → ((a : A) (s : Input D) → Ensures P (f a s).0)
      → Ensures P (proceed r f).0
  unfolding proceed
  proceed-gives P (checked a, s) f h = h a s
  proceed-gives P (failed status, s) f h = tt
  proceed-gives P (undefined, s) f h = tt

  proceed-gives_of :
      {B : Type 0} (P : A → Type 0) (Q : B → Type 0) (r : Checked A × Input D) (f : A → Action D B)
      → Ensures P r.0
      → ((a : A) → P a → (s : Input D) → Ensures Q (f a s).0)
      → Ensures Q (proceed r f).0
  unfolding proceed
  proceed-gives_of P Q (checked a, s) f g h = h a g s
  proceed-gives_of P Q (failed status, s) f g h = tt
  proceed-gives_of P Q (undefined, s) f g h = tt

  proceed-IsWritten_of :
      {B : Type 0} (P : A → Type 0) (r : Checked A × Input D) (f : A → Action D B)
      → Ensures P r.0
      → ((a : A) → P a → Writes (f a))
      → IsWritten (proceed r f)
  unfolding proceed
  proceed-IsWritten_of P (checked a, s) f g h = (h a g).written s
  proceed-IsWritten_of P (failed status, s) f g h = tt
  proceed-IsWritten_of P (undefined, s) f g h = tt

module _ {D A : Type 0} where
  length-repeat :
      (n : ℕ) (m : Action D A) (s : Input D) → Ensures (λ xs. length xs ≡ n) (repeat n m s).0
  unfolding repeat ◌>>=◌ pure
  length-repeat zero m s = refl
  length-repeat (suc n) m s = proceed-gives _ (m s) _ λ a t.
      proceed-gives_of (λ xs. length xs ≡ n) _ (repeat n m t) _ (length-repeat n m t)
        λ xs e u. ap suc e

  -- Behind a loop of `n` reads that succeeds there are `n` elements.
  pub Writes-repeat :
      {B : Type 0} (n : ℕ) (m : Action D A) {f : List A → Action D B}
      → ((xs : List A) → length xs ≡ n → Writes (f xs))
      → Writes (repeat n m >>= f)
  unfolding ◌>>=◌
  Writes-repeat n m {f} h = record {
    written = λ s. proceed-IsWritten_of _ (repeat n m s) f (length-repeat n m s) h;
  }

module _ {D : Type 0} where
  -- Arrays of which no element is missing.
  pub Writes-filled :
      {A : Type 0} (n : ℕ) (xs : List A)
      → length xs ≡ n
      → Writes {D = D} (set_torn (ltb (length xs) n))
  unfolding set_torn modify
  Writes-filled n xs e = record { written = λ s. ground (arith, e) }

  pub Writes-both_filled :
      {A B : Type 0} (n m : ℕ) (xs : List A) (ys : List B)
      → length xs ≡ n
      → length ys ≡ m
      → Writes {D = D} (set_torn (ltb (length xs) n || ltb (length ys) m))
  unfolding set_torn modify
  Writes-both_filled n m xs ys e e' = record { written = λ s. ground (arith, e, e') }

module _ {D : Type 0} where
  pub Fills-if : (b : Bool) {x y : Action D Unit} → Fills x → Fills y → Fills (if b then x else y)
  Fills-if true h k = h
  Fills-if false h k = k

  pub Fills-Writes : {m : Action D Unit} → Writes m → Fills m
  Fills-Writes h = record { filled = λ s e. h.written s }

  pub Fills-Quiet : {m : Action D Unit} → Quiet m → Fills m
  Fills-Quiet {m} h = record { filled = λ s e. quiet-IsWritten m s (h.same s) e }

  pub Quiet-set_blkt : (b : Blkt D) → Quiet (set_blkt b)
  unfolding set_blkt modify
  Quiet-set_blkt b = record { same = λ s. refl }

  pub Quiet-set_stage : (f : Stage D → Stage D) → Quiet (set_stage f)
  unfolding set_stage modify
  Quiet-set_stage f = record { same = λ s. refl }

  pub Quiet-require : (b : Bool) → Quiet {D = D} (require b)
  unfolding require
  Quiet-require b = record { same = λ s. refl }

  pub Quiet-when : (b : Bool) {m : Action D Unit} → Quiet m → Quiet (when b m)
  unfolding when
  Quiet-when true h = record { same = h.same }
  Quiet-when false h = record { same = λ s. refl }

  pub Quiet-field_of : (line : Str) (n : ℕ) → Quiet {D = D} (field_of line n)
  unfolding field_of
  Quiet-field_of line n = record { same = λ s. refl }

  pub Quiet-repeat : {A : Type 0} (n : ℕ) {m : Action D A} → Quiet m → Quiet (repeat n m)
  unfolding repeat
  Quiet-repeat zero h = record { same = λ s. refl }
  Quiet-repeat (suc n) h = record {
    same = (Quiet-bind h λ a. Quiet-bind (Quiet-repeat n h) λ rest. Quiet-pure (a ∷ rest)).same;
  }

module _ {D : Type 0} ⦃d : Double D⦄ (re : RegExp) where
  pub Quiet-input_line : (sep : Str) (b f : ℤ) → Quiet {D = D} (input_line re sep b f)
  unfolding input_line
  Quiet-input_line sep b f = record { same = λ s. refl }

  pub Quiet-read_int : (text : Str) → Quiet {D = D} (read_int re text)
  unfolding read_int
  Quiet-read_int text = record { same = λ s. refl }

  pub Quiet-read_double : (text : Str) → Quiet {D = D} (read_double re text)
  unfolding read_double
  Quiet-read_double text = record { same = λ s. refl }

pub ruleset quiet = (
  Quiet-pure, Quiet-return, Quiet-if, Quiet-bind, Quiet-then, Quiet-set_blkt, Quiet-set_stage,
  Quiet-require, Quiet-when, Quiet-field_of, Quiet-repeat, Quiet-input_line, Quiet-read_int,
  Quiet-read_double,
)
