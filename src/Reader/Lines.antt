-- ===== src/Reader/Lines.antt =====
-- slurp_line and drop_comments_and_blank_lines: how the input is cut into lines.
use evalresp.Prelude.{
  ℕ, zero, suc, ◌+◌, ◌-◌, ◌≤◌, ◌<◌, ◌≡◌, ◌≢◌, refl, ap, Bool, true, false, ◌⊎◌, inl, inr, [], ◌∷◌,
  ◌++◌, arith, ◌==◌, length, length-append, Bool-cases,
}
use evalresp.CString.{Str}
use evalresp.RegExp.{max_line_len}
use evalresp.Reader.{slurp_from, slurp_line, is_skipped, drop_from, drop_comments_and_blank_lines}

-- No byte but the last is a line end.
abbrev pub IsOneLine : Str → Type 0
IsOneLine [] = Unit {0}
IsOneLine (c ∷ []) = Unit {0}
IsOneLine (c ∷ d ∷ s) = (c ≢ 10) × IsOneLine (d ∷ s)

abbrev pub ends_line : Str → Bool
ends_line [] = false
ends_line (c ∷ []) = c == 10
ends_line (c ∷ d ∷ s) = ends_line (d ∷ s)

slurp_from-append : (i m : ℕ) (s : Str) → (slurp_from i m s).0 ++ (slurp_from i m s).1 ≡ s
unfolding slurp_from
slurp_from-append i m [] = refl
slurp_from-append i m (c ∷ s) = ground (arith, slurp_from-append (i + 1) m s)

length-slurp_from : (i m : ℕ) (s : Str) → i + 1 < m → i + length (slurp_from i m s).0 ≤ m - 1
unfolding slurp_from
length-slurp_from i m [] h = omega arith
length-slurp_from i m (c ∷ s) h = ground (arith, length-slurp_from (i + 1) m s)

cons-IsOneLine : (c : ℕ) (l : Str) → c ≢ 10 → IsOneLine l → IsOneLine (c ∷ l)
cons-IsOneLine c [] h k = tt
cons-IsOneLine c (d ∷ l) h k = (h, k)

slurp_from-IsOneLine : (i m : ℕ) (s : Str) → IsOneLine (slurp_from i m s).0
unfolding slurp_from
slurp_from-IsOneLine i m [] = tt
slurp_from-IsOneLine i m (c ∷ s) =
    ground (arith, slurp_from-IsOneLine (i + 1) m s, cons-IsOneLine c (slurp_from (i + 1) m s).0)

ends_line-cons : (c : ℕ) (l : Str) → ends_line l ≡ true → ends_line (c ∷ l) ≡ true
ends_line-cons c [] h = cc
ends_line-cons c (d ∷ l) h = h

slurp_from_stops :
    (i m : ℕ) (s : Str)
    → i + 1 < m
    → (slurp_from i m s).1 ≢ []
    → (ends_line (slurp_from i m s).0 ≡ true) ⊎ (i + length (slurp_from i m s).0 ≡ m - 1)
unfolding slurp_from
slurp_from_stops i m [] h n = absurd (n refl)
slurp_from_stops i m (c ∷ s) h n =
    ground (arith, slurp_from_stops (i + 1) m s, ends_line-cons c (slurp_from (i + 1) m s).0)

-- For a buffer of two bytes or more: the line and the rest are the input; the line and its NUL fit
-- the buffer; the line has no line end but at its end; and where input is left, the line stopped at
-- a line end or at the bound of the buffer.
pub slurp_line_lem :
    (seed : Str) (maxlen : ℕ)
    → 2 ≤ maxlen
    → ((slurp_line seed maxlen).0 ++ (slurp_line seed maxlen).1 ≡ seed)
      × (length (slurp_line seed maxlen).0 + 1 ≤ maxlen)
      × IsOneLine (slurp_line seed maxlen).0
      × ((slurp_line seed maxlen).1 ≢ []
          → (ends_line (slurp_line seed maxlen).0 ≡ true)
            ⊎ (length (slurp_line seed maxlen).0 ≡ maxlen - 1))
unfolding slurp_line
slurp_line_lem seed maxlen h = (
  slurp_from-append 0 maxlen seed,
  omega (arith, length-slurp_from 0 maxlen seed (omega arith)),
  slurp_from-IsOneLine 0 maxlen seed,
  λ n. ground (arith, slurp_from_stops 0 maxlen seed (omega arith) n),
)

-- A line of the input is not empty, so what is left is shorter.
pub length-slurp_line : (c : ℕ) (s : Str) (m : ℕ) → length (slurp_line (c ∷ s) m).1 < length (c ∷ s)
unfolding slurp_line slurp_from
length-slurp_line c s m = ground (
  arith,
  length-append (slurp_from 1 m s).0 (slurp_from 1 m s).1,
  ap length (slurp_from-append 1 m s),
)

-- `rest` is `seed` without some comments and blank lines at its start.
pub data Dropped : Str → Str → Type 0 where
  done : (s : Str) → Dropped s s
  drop_line :
      (s rest : Str)
      → s ≢ []
      → is_skipped (slurp_line s max_line_len).0 ≡ true
      → Dropped (slurp_line s max_line_len).1 rest
      → Dropped s rest

-- At the start of `s` there is no comment and no blank line.
abbrev pub AtData : Str → Type 0
AtData s = (s ≡ []) ⊎ (is_skipped (slurp_line s max_line_len).0 ≡ false)

drop_from_lem :
    (fuel : ℕ) (s : Str)
    → length s ≤ fuel
    → Dropped s (drop_from fuel s) × AtData (drop_from fuel s)
unfolding drop_from
drop_from_lem zero [] h = (done [], inl refl)
drop_from_lem zero (c ∷ s) h = absurd (omega arith)
drop_from_lem (suc fuel) [] h = (done [], inl refl)
drop_from_lem (suc fuel) (c ∷ s) h =
    elim (Bool-cases (is_skipped (slurp_line (c ∷ s) max_line_len).0)) [
      | inl skipped ↦
          let (d, a) =
            drop_from_lem fuel (slurp_line (c ∷ s) max_line_len).1
              (omega (arith, length-slurp_line c s max_line_len)) in
          rw skipped (drop_line (c ∷ s) _ (λ e. cc) skipped d, a)
      | inr kept ↦ rw kept (done (c ∷ s), inr kept)
    ]

-- The loop ends: it drops comments and blank lines only, and stops at the end of the input or at a
-- line that is neither.
pub drop_comments_and_blank_lines_lem :
    (seed : Str)
    → Dropped seed (drop_comments_and_blank_lines seed)
      × AtData (drop_comments_and_blank_lines seed)
unfolding drop_comments_and_blank_lines
drop_comments_and_blank_lines_lem seed = drop_from_lem (length seed) seed (omega arith)

pub length-Dropped : {s rest : Str} → Dropped s rest → length rest ≤ length s
length-Dropped (done s) = omega arith
length-Dropped (drop_line [] rest n k d) = absurd (n refl)
length-Dropped (drop_line (c ∷ s) rest n k d) =
    omega (arith, length-Dropped d, length-slurp_line c s max_line_len)

pub length-drop_comments : (s : Str) → length (drop_comments_and_blank_lines s) ≤ length s
length-drop_comments s = length-Dropped (drop_comments_and_blank_lines_lem s).0
