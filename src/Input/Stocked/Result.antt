-- ===== src/Input/Stocked/Result.antt =====
-- What the steps of read_channel_data return: their values, and no EVALRESP_EOF.
use evalresp.Prelude.{◌≢◌, Bool, true, false, inl, inr, Bool-cases, if◌then◌else◌}
use evalresp.Status.{Status, ok, mem, io, inp, err, val, eof, par}
use evalresp.Checked.{Checked, checked, failed, undefined}
use evalresp.Input.Action.{Input, Action, pure, return, proceed, ◌>>=◌, ◌>>◌}
use evalresp.Input.Data.{whole, but_eof, past_eof, staged, numbered, unless_failed}
use evalresp.Input.Built.{Built}
use evalresp.Input.Stocked.{IsBuilt, add_blkt-IsStocked}

-- `P` of the value, and a status that is not EVALRESP_EOF.
abbrev pub Result : {A : Type 0} → (A → Type 0) → Checked A → Type 0
Result P (checked a) = P a
Result P (failed status) = status ≢ eof
Result P undefined = Unit

pub record Returns {D A : Type 0} (P : A → Type 0) (m : Action D A) : Type 0 where
  pub returns : (s : Input D) → Result P (m s).0

module _ {D A B : Type 0} where
  pub proceed-Result :
      (P : A → Type 0) (Q : B → Type 0) (r : Checked A × Input D) (f : A → Action D B)
      → Result P r.0
      → ((a : A) → P a → Returns Q (f a))
      → Result Q (proceed r f).0
  unfolding proceed
  proceed-Result P Q (checked a, s) f h k = (k a h).returns s
  proceed-Result P Q (failed status, s) f h k = h
  proceed-Result P Q (undefined, s) f h k = tt

  pub Returns-bind :
      {P : A → Type 0} {Q : B → Type 0} {m : Action D A} {f : A → Action D B}
      → Returns P m
      → ((a : A) → P a → Returns Q (f a))
      → Returns Q (m >>= f)
  unfolding ◌>>=◌
  Returns-bind {P = P} {Q} {m} {f} h k = record {
    returns = λ s. proceed-Result P Q (m s) f (h.returns s) k;
  }

abbrev pub Any : Unit {0} → Type 0
Any u = Unit

pub but_eof-Result : (r : Checked (Unit {0})) → Result Any (but_eof r)
unfolding but_eof
but_eof-Result (failed eof) = tt
but_eof-Result (checked a) = tt
but_eof-Result undefined = tt
but_eof-Result (failed ok) = λ h. cc
but_eof-Result (failed mem) = λ h. cc
but_eof-Result (failed io) = λ h. cc
but_eof-Result (failed inp) = λ h. cc
but_eof-Result (failed err) = λ h. cc
but_eof-Result (failed par) = λ h. cc
but_eof-Result (failed val) = λ h. cc

module _ {D : Type 0} where
  pub Returns-then :
      {B : Type 0} {Q : B → Type 0} {m : Action D Unit} {k : Action D B}
      → Returns Any m
      → Returns Q k
      → Returns Q (m >> k)
  unfolding ◌>>◌
  Returns-then h k = Returns-bind h λ a u. k

  pub Returns-if :
      {B : Type 0} {Q : B → Type 0} (b : Bool) {m k : Action D B}
      → Returns Q m
      → Returns Q k
      → Returns Q (if b then m else k)
  Returns-if true h k = h
  Returns-if false h k = k

  pub Returns-pure : {A : Type 0} {P : A → Type 0} (a : A) → P a → Returns {D = D} P (pure a)
  unfolding pure
  Returns-pure a h = record { returns = λ s. h }

  pub Returns-return :
      {A : Type 0} {P : A → Type 0} (status : Status)
      → status ≢ eof
      → Returns {D = D} P (return status)
  unfolding return
  Returns-return status h = record { returns = λ s. h }

  pub Returns-past_eof : (m : Action D Unit) → Returns Any (past_eof m)
  unfolding past_eof
  Returns-past_eof m = record { returns = λ s. but_eof-Result (m s).0 }

  pub Returns-whole : Returns {D = D} Any whole
  unfolding whole
  Returns-whole = record {
    returns = λ s. elim (Bool-cases s.torn) [ inl e ↦ rw e tt | inr e ↦ rw e tt ];
  }

  pub Returns-staged : (m : Action D Unit) (b : Built D) → IsBuilt b → Returns IsBuilt (staged m b)
  unfolding staged
  Returns-staged m b h = Returns-then (Returns-past_eof m) (
      Returns-then Returns-whole
        (record { returns = λ s. inl (add_blkt-IsStocked true _ s.stage s.blkt b h) }))

  pub Returns-numbered :
      (m : Action D Unit) (b : Built D) → IsBuilt b → Returns IsBuilt (numbered m b)
  unfolding numbered
  Returns-numbered m b h = Returns-then (Returns-past_eof m) (
      Returns-then Returns-whole
        (record { returns = λ s. inl (add_blkt-IsStocked false _ s.stage s.blkt b h) }))

  pub unless_failed-Result :
      (r : Checked (Unit {0})) (b : Built D)
      → Result Any r
      → IsBuilt b
      → Result IsBuilt (unless_failed r b)
  unfolding unless_failed
  unless_failed-Result (checked a) b h k = k
  unless_failed-Result (failed status) b h k = h
  unless_failed-Result undefined b h k = tt
