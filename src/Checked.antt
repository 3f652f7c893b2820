-- ===== src/Checked.antt =====
-- The result of a function of libsrc/evalresp that returns a status and stores a value.
use evalresp.Prelude.{◌≡◌, refl, arith, subst}
use evalresp.Status.{Status}

-- A status other than EVALRESP_OK ends the function. `undefined` is where the code reads memory that
-- it did not write, or that is not what it takes it for.
pub data Checked {ℓ} (A : Type ℓ) : Type ℓ where
  checked : A → Checked A
  failed : Status → Checked A
  undefined : Checked A

infixl 5 ◌>>=◌
abbrev pub ◌>>=◌ {ℓ κ} : {A : Type ℓ} {B : Type κ} → Checked A → (A → Checked B) → Checked B
checked a >>= f = f a
failed s >>= f = failed s
undefined >>= f = undefined

-- `P` of the result, where there is one.
abbrev pub Ensures {ℓ κ} : {A : Type ℓ} → (A → Type κ) → Checked A → Type κ
Ensures P (checked a) = P a
Ensures P (failed s) = Unit
Ensures P undefined = Unit

pub Ensures-bind {ℓ κ ι ζ} :
    {A : Type ℓ} {B : Type κ} (P : A → Type ι) (Q : B → Type ζ) (m : Checked A) (f : A → Checked B)
    → Ensures P m
    → ((a : A) → P a → Ensures Q (f a))
    → Ensures Q (m >>= f)
Ensures-bind P Q (checked a) f h k = k a h
Ensures-bind P Q (failed s) f h k = tt
Ensures-bind P Q undefined f h k = tt

pub Ensures-any {ℓ} : {A : Type ℓ} (m : Checked A) → Ensures (λ _. Unit {0}) m
Ensures-any (checked a) = tt
Ensures-any (failed s) = tt
Ensures-any undefined = tt

-- A chain that gives a result has one at its first step.
pub bind-checked {ℓ κ} :
    {A : Type ℓ} {B : Type κ} (m : Checked A) (f : A → Checked B) {b : B}
    → (m >>= f) ≡ checked b
    → (a : A) × (m ≡ checked a) × (f a ≡ checked b)
bind-checked (checked a) f h = (a, refl, h)
bind-checked (failed s) f h = cc
bind-checked undefined f h = cc

pub Ensures-self {ℓ} : {A : Type ℓ} (m : Checked A) → Ensures (λ a. m ≡ checked a) m
Ensures-self (checked a) = refl
Ensures-self (failed s) = tt
Ensures-self undefined = tt

-- A result has what is ensured of it.
pub Ensures-checked {ℓ κ} :
    {A : Type ℓ} (P : A → Type κ) (m : Checked A) {a : A} → Ensures P m → m ≡ checked a → P a
Ensures-checked P (checked b) {a} h e = subst P (ground (arith, e)) h
Ensures-checked P (failed s) h e = cc
Ensures-checked P undefined h e = cc
