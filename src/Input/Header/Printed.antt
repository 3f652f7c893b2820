-- ===== src/Input/Header/Printed.antt =====
-- read_channel_header on the header of a channel as it is printed, with the names on lines of their
-- own.
use evalresp.Prelude.{
  ℕ, ◌<◌, ◌≡◌, ◌≢◌, refl, arith, Bool, true, false, not, ◌&&◌, ◌∙◌, [], ◌∷◌, length,
}
use evalresp.Prelude.Int.{ℤ}
use evalresp.CString.{Str, codes, isspace, isdigit}
use evalresp.Status.{ok, is_ok}
use evalresp.Checked.{Checked, checked}
use evalresp.RegExp.{RegExp, is_int}
use evalresp.Double.{Double}
use evalresp.Reader.{get_field_to_parse, find_line}
use evalresp.Reader.Fields.{starts_space, words, is_readable, short_words, get_field_to_parse_lem}
use evalresp.Reader.Print.{is_plain}
use evalresp.Input.Action.{
  Input, Action, fitting, field_of, input_line, input_field, proceed, ◌>>=◌, ◌>>◌,
}

abbrev pub no_space : Str → Bool
no_space [] = true
no_space (c ∷ s) = not (isspace c) && no_space s

abbrev pub all_digits : Str → Bool
all_digits [] = true
all_digits (c ∷ s) = isdigit c && all_digits s

-- The matcher takes a string of digits for a number.
pub record TakesDigits (re : RegExp) : Type 0 where
  pub digits : (s : Str) → s ≢ [] → all_digits s ≡ true → is_int re s ≡ true

-- A name that fits the buffers it is read through.
pub record IsName (s : Str) : Type 0 where
  pub some_text : s ≢ []
  pub word : no_space s ≡ true
  pub short : length s < 50

pub name-fits : (s : Str) → IsName s → length s < 64
name-fits s h = omega (arith, h.short)

-- Text that is read back as a date.
pub record IsDateText (s : Str) : Type 0 where
  pub some_text : s ≢ []
  pub starts : starts_space s ≡ false
  pub plain : is_plain s ≡ true
  pub short : length s < 23

pub no_space-plain : (s : Str) → no_space s ≡ true → is_plain s ≡ true
no_space-plain [] h = refl
no_space-plain (c ∷ s) h = ground (arith, no_space-plain s)

pub no_space-starts : (s : Str) → s ≢ [] → no_space s ≡ true → starts_space s ≡ false
no_space-starts [] n h = absurd (n refl)
no_space-starts (c ∷ s) n h = ground arith

words-no_space : (s : Str) → s ≢ [] → no_space s ≡ true → words s ≡ s ∷ []
unfolding words
words-no_space [] n h = absurd (n refl)
words-no_space (c ∷ []) n h = ground arith
words-no_space (c ∷ e ∷ s) n h = ground (arith, words-no_space (e ∷ s) (λ k. cc))

pub field-no_space : (s : Str) → IsName s → get_field_to_parse s 0 ≡ checked s
unfolding is_readable short_words
field-no_space s h =
    let w = words-no_space s h.some_text h.word in
    let readable : is_readable false s ≡ true = rw w (ground (arith, h.short)) in
    get_field_to_parse_lem s 0 ∙ rw (readable, w) refl

module _ {D A B : Type 0} {s s' : Input D} {a : A} {r : Checked B × Input D} where
  -- A step that succeeds, and what follows.
  pub step :
      (m : Action D A) (f : A → Action D B) → m s ≡ (checked a, s') → f a s' ≡ r → (m >>= f) s ≡ r
  unfolding ◌>>=◌ proceed
  step m f h k = rw h k

  pub step_then :
      (m : Action D A) (k : Action D B) → m s ≡ (checked a, s') → k s' ≡ r → (m >> k) s ≡ r
  unfolding ◌>>◌
  step_then m k h e = step m (λ _. k) h e

module _ {D : Type 0} where
  pub fitting-short :
      (n : ℕ) (t : Str) (s : Input D) → length t < n → fitting n t s ≡ (checked t, s)
  unfolding fitting
  fitting-short n t s h = ground arith

module _ {D : Type 0} ⦃d : Double D⦄ (re : RegExp) (b f : ℤ) (s : Input D) (text rest : Str)
    (found : find_line re s.seed (codes ":") b f ≡ (ok, text, rest)) where
  pub input_line-found : input_line re (codes ":") b f s ≡ (checked text, record s { seed = rest })
  unfolding input_line is_ok
  input_line-found = rw found refl

  pub field_of-name : IsName text → (t : Input D) → field_of text 0 t ≡ (checked text, t)
  unfolding field_of
  field_of-name h t = rw (field-no_space text h) refl

  pub input_field-found :
      IsName text → input_field re (codes ":") b f 0 s ≡ (checked text, record s { seed = rest })
  unfolding input_field
  input_field-found h = step _ _ input_line-found (field_of-name h (record s { seed = rest }))
