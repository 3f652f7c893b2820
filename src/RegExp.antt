-- ===== src/RegExp.antt =====
-- The regular expressions that libsrc/evalresp/input.c matches with: evr_regcomp and evr_regexec are
-- a copy of another project's matcher and enter as an interface. `reg_string_match` is the code that
-- turns a glob into a pattern and calls them.
use evalresp.Prelude.{
  ℕ, ◌+◌, ◌-◌, ◌≡◌, refl, Bool, false, Option, none, some, [], ◌∷◌, ltb, ◌==◌, if◌then◌else◌,
}
use evalresp.CString.{Str, codes}

-- `exec pattern text`: none where the pattern does not compile.
pub record RegExp : Type 0 where
  pub exec : Str → Str → Option Bool

-- type_flag, "-r" or "-g"
pub data PatternType : Type 0 where
  regexp glob : PatternType

abbrev pub max_line_len : ℕ
max_line_len = 256

-- The loop that fills regexp_pattern[MAXLINELEN]; `i` is the index of the next byte.
unfoldable pub translate : PatternType → ℕ → Str → Str
translate t i [] = []
translate regexp i (c ∷ s) =
    let rest = translate regexp (i + 1) s in if ltb i (max_line_len - 1) then c ∷ rest else []
translate glob i (c ∷ s) =
    let one = translate glob (i + 1) s in
    let two = translate glob (i + 2) s in
    if ltb i (max_line_len - 1)
    then (if c == b'?' then b'.' ∷ one else if c == b'*' then b'.' ∷ b'*' ∷ two else c ∷ one)
    else []

is_true : Option Bool → Bool
is_true none = false
is_true (some b) = b

module _ (re : RegExp) where
  -- The text is copied to a buffer of MAXLINELEN bytes, which every caller's text fits.
  unfoldable pub reg_string_match : Str → Str → PatternType → Bool
  unfolding translate is_true
  reg_string_match text expr t = is_true (re.exec (translate t 0 expr) text)

  unfoldable pub is_int : Str → Bool
  unfolding reg_string_match
  is_int s = reg_string_match s (codes "^[-+]?[0-9]+$") regexp

  unfoldable pub is_real : Str → Bool
  unfolding reg_string_match
  is_real s =
      reg_string_match s
        (codes
          "^[-+]?[0-9]+\\.?[0-9]*[Ee][-+]?[0-9]+$|^[-+]?[0-9]*\\.[0-9]+[Ee][-+]?[0-9]+$|^[-+]?[0-9]+\\.?[0-9]*$|^[-+]?[0-9]*\\.[0-9]+$")
        regexp

glob_translated : translate glob 0 (codes "B?Z*") ≡ codes "B.Z.*"
unfolding translate
glob_translated = refl
