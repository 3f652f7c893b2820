-- ===== src/Double.antt =====
-- What libsrc/evalresp does with a `double`. The type and its operations are an interface, and no law
-- is assumed but in `IsOrdered`, which IEEE 754 comparisons satisfy.
use evalresp.Prelude.{◌≡◌, Bool, true, false, ◌⊎◌}
use evalresp.Prelude.Int.{ℤ}
use evalresp.CString.{Str}

pub record Double (D : Type 0) : Type 0 where
  -- the conversion of an integer
  pub of_int : ℤ → D
  -- `decimal m e` is the literal m * 10^e
  pub decimal : ℤ → ℤ → D
  pub pi : D
  pub add : D → D → D
  pub sub : D → D → D
  pub mul : D → D → D
  pub div : D → D → D
  pub neg : D → D
  pub lt : D → D → Bool
  pub le : D → D → Bool
  pub eq : D → D → Bool
  pub fabs : D → D
  pub sqrt : D → D
  pub cos : D → D
  pub sin : D → D
  pub atan2 : D → D → D
  pub log10 : D → D
  pub pow : D → D → D
  -- the conversion to float, and from float or double to a long
  pub to_float : D → D
  pub to_long : D → ℤ
  -- the number at the start of a string, and the string at `end`
  pub strtod : Str → D × Str

-- A number, and not NaN, which differs from itself.
abbrev pub IsNum : {D : Type 0} ⦃d : Double D⦄ → D → Type 0
IsNum ⦃d⦄ x = d.eq x x ≡ true

pub record IsOrdered (D : Type 0) ⦃d : Double D⦄ : Type 0 where
  pub lt_irrefl : (x : D) → d.lt x x ≡ false
  pub lt_trans : (x y z : D) → d.lt x y ≡ true → d.lt y z ≡ true → d.lt x z ≡ true
  pub lt_total :
      (x y : D) → IsNum x → IsNum y → (d.lt x y ≡ true) ⊎ ((d.lt y x ≡ true) ⊎ (d.eq x y ≡ true))
  pub eq_not_lt : (x y : D) → d.eq x y ≡ true → d.lt x y ≡ false
  pub eq_sym : (x y : D) → d.eq x y ≡ true → d.eq y x ≡ true
  pub lt_of_eq_lt : (x y z : D) → d.eq x y ≡ true → d.lt y z ≡ true → d.lt x z ≡ true
  pub lt_of_lt_eq : (x y z : D) → d.lt x y ≡ true → d.eq y z ≡ true → d.lt x z ≡ true
  pub eq_trans : (x y z : D) → d.eq x y ≡ true → d.eq y z ≡ true → d.eq x z ≡ true
