-- ===== src/Reader/Find.antt =====
-- find_line against the lines that it passes over.
use evalresp.Prelude.{
  ℕ, zero, suc, ◌<◌, ◌≡◌, ◌≢◌, refl, ap, true, false, ◌⊎◌, inl, inr, some, [], ◌∷◌, arith, length,
  Bool-cases, Option-cases, drop,
}
use evalresp.Prelude.Int.{ℤ}
use evalresp.CString.{Str, is_empty, strstr}
use evalresp.Status.{Status, ok, eof, is_ok, is_ok-eq}
use evalresp.RegExp.{RegExp, max_line_len}
use evalresp.Reader.{
  slurp_line, drop_comments_and_blank_lines, remove_tabs_and_crlf, read_pref, read_line,
  after_separator, at_field, find_from, find_line,
}
use evalresp.Reader.Lines.{length-slurp_line, length-drop_comments}
use evalresp.Reader.Fields.{starts_space, skip_space-cases}

module _ (re : RegExp) where
  -- The prefix of the next data line.
  abbrev pub next_pref : Str → Str
  next_pref start = remove_tabs_and_crlf (slurp_line start max_line_len).0

  -- `Finds sep b f seed result`: the first data line with field `f` of blockette `b` gives `result`.
  pub data Finds (sep : Str) (b f : ℤ) : Str → Status × Str × Str → Type 0 where
    at_end :
        (seed : Str) → drop_comments_and_blank_lines seed ≡ [] → Finds sep b f seed (eof, [], [])
    bad_prefix :
        (seed : Str)
        → drop_comments_and_blank_lines seed ≢ []
        → is_ok (read_pref re (next_pref (drop_comments_and_blank_lines seed))).status ≡ false
        → Finds sep b f seed (
          (read_pref re (next_pref (drop_comments_and_blank_lines seed))).status,
          [],
          drop_comments_and_blank_lines seed,
        )
    here :
        (seed : Str)
        → drop_comments_and_blank_lines seed ≢ []
        → is_ok (read_pref re (next_pref (drop_comments_and_blank_lines seed))).status ≡ true
        → at_field (read_pref re (next_pref (drop_comments_and_blank_lines seed))) b f ≡ true
        → Finds sep b f seed (
          (read_line re (drop_comments_and_blank_lines seed) sep).status,
          (read_line re (drop_comments_and_blank_lines seed) sep).line,
          (read_line re (drop_comments_and_blank_lines seed) sep).rest,
        )
    later :
        (seed : Str) (r : Status × Str × Str)
        → drop_comments_and_blank_lines seed ≢ []
        → is_ok (read_pref re (next_pref (drop_comments_and_blank_lines seed))).status ≡ true
        → at_field (read_pref re (next_pref (drop_comments_and_blank_lines seed))) b f ≡ false
        → Finds sep b f (slurp_line (drop_comments_and_blank_lines seed) max_line_len).1 r
        → Finds sep b f seed r

pub Str-cases : (s : Str) → (s ≡ []) ⊎ ((c : ℕ) × (t : Str) × (s ≡ c ∷ t))
Str-cases [] = inl refl
Str-cases (c ∷ t) = inr (c, t, refl)

-- A data line is taken off the input.
pub length-next_line :
    (seed : Str)
    → drop_comments_and_blank_lines seed ≢ []
    → length (slurp_line (drop_comments_and_blank_lines seed) max_line_len).1 < length seed
length-next_line seed n = elim (Str-cases (drop_comments_and_blank_lines seed)) [
  | inl e ↦ absurd (n e)
  | inr (c, t, e) ↦
      rw e
        (omega (arith, length-slurp_line c t max_line_len, length-drop_comments seed, ap length e))
]

module _ (re : RegExp) (sep : Str) (b f : ℤ) where
  find_from-Finds :
      (fuel : ℕ) (seed : Str)
      → length seed < fuel
      → Finds re sep b f seed (find_from re fuel seed sep b f)
  unfolding find_from
  find_from-Finds zero seed h = absurd (omega arith)
  find_from-Finds (suc fuel) seed h = elim (Str-cases (drop_comments_and_blank_lines seed)) [
    | inl e ↦ rw e (at_end seed e)
    | inr (c, t, e) ↦
        let start = drop_comments_and_blank_lines seed in
        let n : start ≢ [] = λ k. cc in
        let full : is_empty start ≡ false = rw e in
        elim (Bool-cases (is_ok (read_pref re (next_pref re start)).status)) [
          | inr bad ↦ rw (full, bad) (bad_prefix seed n bad)
          | inl good ↦ elim (Bool-cases (at_field (read_pref re (next_pref re start)) b f)) [
            | inl at ↦ rw (full, good, at) (here seed n good at)
            | inr past ↦
                rw (full, good, past)
                  (later seed _ n good past (
                    find_from-Finds fuel (slurp_line start max_line_len).1
                      (omega (arith, length-next_line seed n))))
          ]
        ]
  ]

-- The loop of find_line ends, with the result of the first data line that has the field, or of the
-- first one whose prefix cannot be read, or else EVALRESP_EOF.
pub find_line-Finds :
    (re : RegExp) (seed sep : Str) (b f : ℤ) → Finds re sep b f seed (find_line re seed sep b f)
unfolding find_line
find_line-Finds re seed sep b f = find_from-Finds re sep b f (suc (length seed)) seed (omega arith)

-- The text behind the separator starts with no white space.
after_separator-text :
    (line sep text : Str)
    → after_separator line sep ≡ some text
    → (text ≢ []) × (starts_space text ≡ false)
unfolding after_separator
after_separator-text line sep text h = elim (Option-cases (strstr line sep)) [
  | inl e ↦ ground (arith, e)
  | inr (at, e) ↦ elim (skip_space-cases (drop 1 at)) [
    | inl k ↦ ground (arith, e, k)
    | inr (c, t, k, w) ↦ ground (arith, e, k, w)
  ]
]

-- A line that read_line returns has text, which does not start with white space, and the input is
-- shorter by it.
pub read_line-ok :
    (re : RegExp) (seed sep : Str)
    → (read_line re seed sep).status ≡ ok
    → ((read_line re seed sep).line ≢ [])
      × (starts_space (read_line re seed sep).line ≡ false)
      × (length (read_line re seed sep).rest < length seed)
unfolding read_line
read_line-ok re seed sep h = elim (Str-cases (drop_comments_and_blank_lines seed)) [
  | inl e ↦ absurd (ground (arith, e))
  | inr (c, t, e) ↦
      let start = drop_comments_and_blank_lines seed in
      let line = next_pref re start in
      elim (Option-cases (after_separator line sep)) [
        | inl k ↦ absurd (ground (arith, e, k, is_ok-eq (read_pref re line).status))
        | inr (text, k) ↦ ground (
          arith,
          e,
          k,
          after_separator-text line sep text k,
          length-next_line seed (λ z. cc),
          is_ok-eq (read_pref re line).status,
        )
      ]
]
