-- ===== src/Reader/Fields.antt =====
-- number_of_fields and get_field_to_parse against the words of a line.
use evalresp.Prelude.{
  ℕ, zero, suc, ◌≤◌, ◌<◌, ◌≡◌, refl, ap, Bool, true, false, ◌⊎◌, inl, inr, none, some, List, [],
  ◌∷◌, arith, leb, length, drop, get_elem?, length-drop, Bool-cases, ltb, ◌&&◌, ◌||◌, if◌then◌else◌,
}
use evalresp.CString.{
  Str, isspace, is_empty, has_prefix, strstr, skip_space, until_space, scan_word,
}
use evalresp.Status.{par}
use evalresp.Checked.{Checked, checked, failed, undefined}
use evalresp.Reader.{
  max_fld_len, next_field, count_fields, number_of_fields, skip_fields, get_field_to_parse,
}

-- The string ends, or its first byte is white space.
abbrev pub starts_space : Str → Bool
starts_space [] = true
starts_space (c ∷ s) = isspace c

abbrev pub cons_word : ℕ → List Str → List Str
cons_word c [] = (c ∷ []) ∷ []
cons_word c (w ∷ ws) = (c ∷ w) ∷ ws

-- The words of a string: its longest pieces without white space.
unfoldable pub words : Str → List Str
words [] = []
words (c ∷ s) =
    let ws = words s in
    if isspace c then ws else if starts_space s then (c ∷ []) ∷ ws else cons_word c ws

words-until_space :
    (c : ℕ) (s : Str)
    → isspace c ≡ false
    → words (c ∷ s) ≡ until_space (c ∷ s) ∷ words (drop (length (until_space (c ∷ s))) (c ∷ s))
unfolding words until_space
words-until_space c [] h = ground arith
words-until_space c (d ∷ s) h = ground (arith, words-until_space d s)

words-skip_space : (s : Str) → words s ≡ words (skip_space s)
unfolding words skip_space
words-skip_space [] = refl
words-skip_space (c ∷ s) = ground (arith, words-skip_space s)

-- The first byte that skip_space leaves is no white space.
pub skip_space-cases :
    (s : Str)
    → (skip_space s ≡ []) ⊎ ((c : ℕ) × (t : Str) × (skip_space s ≡ c ∷ t) × (isspace c ≡ false))
unfolding skip_space
skip_space-cases [] = inl refl
skip_space-cases (c ∷ s) = elim (Bool-cases (isspace c)) [
  | inl e ↦ rw e (skip_space-cases s)
  | inr e ↦ rw e (inr (c, s, refl, e))
]

has_prefix-until_space : (s : Str) → has_prefix s (until_space s) ≡ true
unfolding has_prefix until_space
has_prefix-until_space [] = refl
has_prefix-until_space (c ∷ s) = ground (arith, has_prefix-until_space s)

-- A word does not start at a byte that is white space.
no_prefix_at_space :
    (d c : ℕ) (s t : Str)
    → isspace d ≡ true
    → isspace c ≡ false
    → has_prefix (d ∷ s) (until_space (c ∷ t)) ≡ false
unfolding has_prefix until_space
no_prefix_at_space d c s t h k = ground arith

-- A word is first found where the white space before it ends.
strstr-skip_space :
    (s : Str) (c : ℕ) (t : Str)
    → skip_space s ≡ c ∷ t
    → isspace c ≡ false
    → strstr s (until_space (c ∷ t)) ≡ some (skip_space s)
unfolding skip_space strstr
strstr-skip_space [] c t e h = cc
strstr-skip_space (d ∷ s) c t e h = elim (Bool-cases (isspace d)) [
  | inl space ↦
      let e' : skip_space s ≡ c ∷ t = ground arith in
      rw (no_prefix_at_space d c s t space h, space) (strstr-skip_space s c t e' h)
  | inr word ↦
      let e' : d ∷ s ≡ c ∷ t = ground arith in rw (word, ← e', has_prefix-until_space (d ∷ s))
]

length-skip_space : (s : Str) → length (skip_space s) ≤ length s
unfolding skip_space
length-skip_space [] = omega arith
length-skip_space (c ∷ s) = ground (arith, length-skip_space s)

next_field-cases :
    (s : Str)
    → ((next_field s ≡ none) × (words s ≡ []))
      ⊎ ((rest : Str) × (next_field s ≡ some rest)
          × (words s ≡ scan_word s ∷ words rest)
          × (length rest < length s))
unfolding next_field scan_word
next_field-cases s = elim (skip_space-cases s) [
  | inl e ↦ inl (unfold until_space in rw e refl, rw (words-skip_space s, e) (unfold words in refl))
  | inr (c, t, e, h) ↦ inr (
    drop (length (until_space (c ∷ t))) (c ∷ t),
    rw (e, strstr-skip_space s c t e h) (unfold until_space in ground (arith, e)),
    rw (words-skip_space s, e) (words-until_space c t h),
    unfold until_space in
        ground (arith, length-skip_space s, ap length e, length-drop (length (until_space t)) t),
  )
]

unfoldable pub short_words : List Str → Bool
short_words [] = true
short_words (w ∷ ws) = ltb (length w) max_fld_len && short_words ws

unfoldable pub has_words : List Str → Bool
has_words [] = false
has_words (w ∷ ws) = true

-- The buffer for a word holds each of them, and is written before it is searched for.
unfoldable pub is_readable : Bool → Str → Bool
unfolding short_words has_words
is_readable begun s = short_words (words s) && (begun || is_empty s || has_words (words s))

count_fields-words :
    (fuel : ℕ) (begun : Bool) (s : Str)
    → length s ≤ fuel
    → count_fields fuel begun s
      ≡ (if is_readable begun s then checked (length (words s)) else undefined)
unfolding count_fields is_readable short_words has_words
count_fields-words zero begun [] h = unfold words in ground arith
count_fields-words zero begun (c ∷ s) h = absurd (omega arith)
count_fields-words (suc fuel) begun [] h = unfold words in ground arith
count_fields-words (suc fuel) begun (c ∷ s) h = elim (next_field-cases (c ∷ s)) [
  | inl (e, w) ↦ rw (w) (ground (arith, e))
  | inr (rest, e, w, l) ↦
      rw (w) (ground (arith, e, count_fields-words fuel true rest (omega arith)))
]

-- The loop ends, and counts the words of the line.
pub number_of_fields-words :
    (line : Str)
    → number_of_fields line
      ≡ (if is_readable false line then checked (length (words line)) else undefined)
unfolding number_of_fields
number_of_fields-words line = count_fields-words (length line) false line (omega arith)

-- The result that the n-th of the words asks for.
abbrev pub field_at : List Str → ℕ → Checked Str
field_at ws n = elim (get_elem? ws n) [ none ↦ failed par | some w ↦ checked w ]

skip_fields-words :
    (n : ℕ) (s : Str)
    → n < length (words s)
    → get_elem? (words s) n ≡ some (scan_word (skip_fields n s))
unfolding skip_fields
skip_fields-words zero s h = elim (next_field-cases s) [
  | inl (e, w) ↦ absurd (omega (arith, ap length w))
  | inr (rest, e, w, l) ↦ rw w
]
skip_fields-words (suc n) s h = elim (next_field-cases s) [
  | inl (e, w) ↦ absurd (omega (arith, ap length w))
  | inr (rest, e, w, l) ↦
      ground (arith, e, w, skip_fields-words n rest (omega (arith, ap length w)))
]

get_elem?_past : (ws : List Str) (n : ℕ) → length ws ≤ n → get_elem? ws n ≡ none
get_elem?_past [] n h = refl
get_elem?_past (w ∷ ws) zero h = absurd (omega arith)
get_elem?_past (w ∷ ws) (suc n) h = get_elem?_past ws n (omega arith)

-- Field `n` of a line is its n-th word, and an error where the line has no more than `n` words. A line
-- of white space alone, and a line with a word of 50 bytes or more, reach undefined behaviour.
pub get_field_to_parse_lem :
    (line : Str) (n : ℕ)
    → get_field_to_parse line n
      ≡ (if is_readable false line then field_at (words line) n else undefined)
unfolding get_field_to_parse
get_field_to_parse_lem line n = elim (Bool-cases (is_readable false line)) [
  | inl r ↦
      rw (number_of_fields-words line, r)
        (elim (Bool-cases (leb (length (words line)) n)) [
          | inl e ↦ ground (arith, e, get_elem?_past (words line) n)
          | inr e ↦ ground (arith, e, skip_fields-words n line)
        ])
  | inr r ↦ rw (number_of_fields-words line, r) refl
]
