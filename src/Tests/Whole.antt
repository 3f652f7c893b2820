-- ===== src/Tests/Whole.antt =====
-- Concrete instances of the interfaces.
use evalresp.Prelude.{◌≡◌, Bool, true, Option, some, arith, if◌then◌else◌}
use evalresp.Prelude.Int.{ℤ, pos, ◌+ℤ◌, ◌-ℤ◌, ◌*ℤ◌, ltb_ℤ, leb_ℤ, eqb_ℤ}
use evalresp.CString.{Str, codes, str_eq, strtol}
use evalresp.RegExp.{RegExp, is_int}
use evalresp.Double.{Double, IsOrdered}
use evalresp.DateTime.{Calendar}
use evalresp.Input.Header.Printed.{all_digits, TakesDigits}

-- Whole numbers, with the fractions of the operations dropped.
instance abbrev pub whole : Double ℤ
whole = record {
  of_int = λ n. n;
  decimal = λ m e. m;
  pi = pos 3;
  add = ◌+ℤ◌;
  sub = ◌-ℤ◌;
  mul = ◌*ℤ◌;
  div = λ a b. a;
  neg = λ a. pos 0 -ℤ a;
  lt = ltb_ℤ;
  le = leb_ℤ;
  eq = eqb_ℤ;
  fabs = λ a. if ltb_ℤ a (pos 0) then pos 0 -ℤ a else a;
  sqrt = λ a. a;
  cos = λ a. pos 1;
  sin = λ a. pos 0;
  atan2 = λ a b. pos 0;
  log10 = λ a. pos 0;
  pow = λ a b. a;
  to_float = λ a. a;
  to_long = λ a. a;
  strtod = strtol;
}

pub whole-IsOrdered : IsOrdered ℤ
whole-IsOrdered = record {
  lt_irrefl = λ x. ground arith;
  lt_trans = λ x y z h k. ground arith;
  lt_total = λ x y h k. ground arith;
  eq_not_lt = λ x y h. ground arith;
  eq_sym = λ x y h. ground arith;
  lt_of_eq_lt = λ x y z h k. ground arith;
  lt_of_lt_eq = λ x y z h k. ground arith;
  eq_trans = λ x y z h k. ground arith;
}

-- A matcher for the pattern of is_int on unsigned numbers, and for patterns that are ".*" or plain.
unfoldable pub simple_exec : Str → Str → Option Bool
unfolding str_eq
simple_exec pattern text =
    if str_eq pattern (codes "^[-+]?[0-9]+$")
    then some (all_digits text)
    else if str_eq pattern (codes ".*")
    then some true
    else some (str_eq pattern text)

abbrev pub simple : RegExp
simple = record { exec = simple_exec }

simple_takes : (s : Str) → all_digits s ≡ true → is_int simple s ≡ true
unfolding is_int simple_exec
simple_takes s h = h

pub simple-TakesDigits : TakesDigits simple
simple-TakesDigits = record { digits = λ s n h. simple_takes s h }

-- Years of 365 days.
abbrev pub calendar : Calendar
calendar = record { year_start = λ y. (y -ℤ pos 1970) *ℤ pos 31536000 }
