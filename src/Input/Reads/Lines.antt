-- ===== src/Input/Reads/Lines.antt =====
-- The functions that read a line or a field only take lines off the input, and the rules for the
-- steps of a reader.
use evalresp.Prelude.{ℕ, ◌≤◌, ◌≡◌, refl, Option, none, some, inl, inr, arith, length}
use evalresp.Prelude.Int.{ℤ}
use evalresp.CString.{Str, codes}
use evalresp.Status.{Status}
use evalresp.RegExp.{RegExp, max_line_len}
use evalresp.Double.{Double}
use evalresp.Reader.{
  Pref, read_pref, after_separator, slurp_line, separated, read_line, find_line,
  drop_comments_and_blank_lines,
}
use evalresp.Reader.Find.{
  next_pref, Finds, Str-cases, at_end, bad_prefix, here, later, length-next_line, find_line-Finds,
}
use evalresp.Reader.Lines.{length-drop_comments}
use evalresp.Input.Action.{
  read_int, read_double, input_line, input_field, find_int_field, find_double_field,
  parse_int_field, real_of, next_line,
}
use evalresp.Input.Reads.{
  IsStocked, Stocked, Advance, Reads, Advance-refl, Advance-seed, Advance-trans, Reads-pure,
  Reads-return, Reads-wild, Reads-if, Reads-bind, Reads-then, Reads-set_blkt, Reads-set_torn,
  Reads-set_channel, Reads-set_stage, Reads-require, Reads-when, Reads-allocate, Reads-fitting,
  Reads-field_of, Reads-repeat,
}

-- find_line and read_line give back an end of the input.
abbrev start_of : Str → Str
start_of seed = drop_comments_and_blank_lines seed

length-next : (seed : Str) → length (slurp_line (start_of seed) max_line_len).1 ≤ length seed
unfolding slurp_line
length-next seed = elim (Str-cases (start_of seed)) [
  | inl e ↦ rw e (omega arith)
  | inr (c, t, e) ↦ omega (arith, length-next_line seed (λ k. cc))
]

separated-rest : (p : Pref) (t : Option Str) (rest : Str) → (separated p t rest).rest ≡ rest
unfolding separated
separated-rest p none rest = refl
separated-rest p (some text) rest = refl

pub length-read_line :
    (re : RegExp) (seed sep : Str) → length (read_line re seed sep).rest ≤ length seed
unfolding read_line
length-read_line re seed sep =
    let start = start_of seed in
    let line = next_pref re start in
    ground (
      arith,
      length-next seed,
      length-drop_comments seed,
      separated-rest (read_pref re line) (after_separator line sep)
          (slurp_line start max_line_len).1,
    )

module _ (re : RegExp) (sep : Str) (b f : ℤ) where
  Finds-shorter :
      (seed : Str) (r : Status × Str × Str) → Finds re sep b f seed r → length r.2 ≤ length seed
  Finds-shorter seed r (at_end _ e) = omega arith
  Finds-shorter seed r (bad_prefix _ n k) = length-drop_comments seed
  Finds-shorter seed r (here _ n k l) =
      omega (arith, length-read_line re (start_of seed) sep, length-drop_comments seed)
  Finds-shorter seed r (later _ _ n k l g) =
      omega (arith, Finds-shorter _ r g, length-next_line seed n)

  pub length-find_line : (seed : Str) → length (find_line re seed sep b f).2 ≤ length seed
  length-find_line seed = Finds-shorter seed _ (find_line-Finds re seed sep b f)

module _ {D : Type 0} (re : RegExp) where
  pub Reads-next_line : ⦃d : Double D⦄ → Reads {D = D} (next_line re)
  unfolding next_line
  Reads-next_line = record {
    advance = λ s. Advance-seed s _ (length-read_line re s.seed (codes ":")) refl refl;
  }

  pub Reads-input_line :
      ⦃d : Double D⦄ (sep : Str) (b f : ℤ) → Reads {D = D} (input_line re sep b f)
  unfolding input_line
  Reads-input_line sep b f = record {
    advance = λ s. Advance-seed s _ (length-find_line re sep b f s.seed) refl refl;
  }

  pub Reads-read_int : ⦃d : Double D⦄ (text : Str) → Reads {D = D} (read_int re text)
  unfolding read_int
  Reads-read_int text = record { advance = Advance-refl }

  pub Reads-read_double : ⦃d : Double D⦄ (text : Str) → Reads {D = D} (read_double re text)
  unfolding read_double
  Reads-read_double text = record { advance = Advance-refl }

-- The rules for one step.
pub ruleset steps = (
  Reads-pure, Reads-return, Reads-wild, Reads-bind, Reads-then, Reads-if, Reads-when, Reads-require,
  Reads-set_blkt, Reads-set_stage, Reads-set_torn, Reads-set_channel, Reads-allocate, Reads-fitting,
  Reads-field_of, Reads-repeat, Reads-next_line, Reads-input_line, Reads-read_int,
  Reads-read_double,
)

module _ {D : Type 0} ⦃d : Double D⦄ (re : RegExp) where
  pub Reads-input_field : (sep : Str) (b f : ℤ) (n : ℕ) → Reads {D = D} (input_field re sep b f n)
  unfolding input_field
  Reads-input_field sep b f n = search steps

  pub Reads-find_int_field : (b f : ℤ) → Reads {D = D} (find_int_field re b f)
  unfolding find_int_field
  Reads-find_int_field b f = search (Reads-input_field, steps)

  pub Reads-find_double_field : (b f : ℤ) → Reads {D = D} (find_double_field re b f)
  unfolding find_double_field
  Reads-find_double_field b f = search (Reads-input_field, steps)

  pub Reads-parse_int_field : (line : Str) (n : ℕ) → Reads {D = D} (parse_int_field re line n)
  unfolding parse_int_field
  Reads-parse_int_field line n = search steps

  pub Reads-real_of : (line : Str) (n : ℕ) → Reads {D = D} (real_of re line n)
  unfolding real_of
  Reads-real_of line n = search steps

-- The rules for a field as well.
pub ruleset fields = (
  steps, Reads-input_field, Reads-find_int_field, Reads-find_double_field, Reads-parse_int_field,
  Reads-real_of,
)
