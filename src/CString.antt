-- ===== src/CString.antt =====
-- The functions of the C library that libsrc/evalresp/input.c calls on strings. A string is the list
-- of its bytes before the NUL. Characters are classified as in the "C" locale.
pub mod Search
use evalresp.Prelude.{
  ℕ, zero, suc, ◌+◌, ◌-◌, ◌*◌, ◌%◌, ◌^◌, min, ◌≡◌, refl, Bool, true, false, ◌&&◌, ◌||◌, Option,
  none, some, List, [], ◌∷◌, ◌++◌, map, ltb, leb, ◌==◌, if◌then◌else◌, length, take,
}
use evalresp.Prelude.Int.{ℤ, pos, negsuc}
use Prim.Native.String.{String}
use Prim.Native.Char.{code}

abbrev pub Str : Type 0
Str = List ℕ

-- A literal of the source.
abbrev pub codes : String → Str
codes String.[] = []
codes (String.◌∷◌ c s) = code c ∷ codes s

abbrev pub isspace : ℕ → Bool
isspace c = c == 32 || (leb 9 c && leb c 13)

abbrev pub isdigit : ℕ → Bool
isdigit c = leb 48 c && leb c 57

abbrev pub toupper : ℕ → ℕ
toupper c = if leb 97 c && leb c 122 then c - 32 else c

-- strlen (s) == 0
abbrev pub is_empty {ℓ} : {A : Type ℓ} → List A → Bool
is_empty [] = true
is_empty (_ ∷ _) = false

-- !strcmp (a, b)
unfoldable pub str_eq : Str → Str → Bool
str_eq [] [] = true
str_eq [] (_ ∷ _) = false
str_eq (_ ∷ _) [] = false
str_eq (a ∷ s) (b ∷ t) = (a == b) && str_eq s t

-- !strncmp (s, p, strlen (p))
unfoldable pub has_prefix : Str → Str → Bool
has_prefix s [] = true
has_prefix [] (_ ∷ _) = false
has_prefix (a ∷ s) (b ∷ p) = (a == b) && has_prefix s p

-- !strncasecmp (s, p, strlen (p))
unfoldable pub has_prefix_nocase : Str → Str → Bool
unfolding has_prefix
has_prefix_nocase s p = has_prefix (map toupper s) (map toupper p)

-- strstr (s, p): the rest of `s` from the first place where `p` stands.
unfoldable pub strstr : Str → Str → Option Str
unfolding has_prefix
strstr [] p = if is_empty p then some [] else none
strstr (c ∷ s) p = if has_prefix (c ∷ s) p then some (c ∷ s) else strstr s p

-- The rest of the string from the first byte that is no white space.
unfoldable pub skip_space : Str → Str
skip_space [] = []
skip_space (c ∷ s) = if isspace c then skip_space s else c ∷ s

-- The bytes before the first white space.
unfoldable pub until_space : Str → Str
until_space [] = []
until_space (c ∷ s) = if isspace c then [] else c ∷ until_space s

-- sscanf (s, "%s", field): the field that is stored, empty if none is.
unfoldable pub scan_word : Str → Str
unfolding skip_space until_space
scan_word s = until_space (skip_space s)

-- What strcspn (s, d) splits off for a one-byte `d`, and the rest from that byte on.
unfoldable pub span_to : ℕ → Str → Str × Str
span_to d [] = ([], [])
span_to d (c ∷ s) = if c == d then ([], c ∷ s) else (let (l, r) = span_to d s in (c ∷ l, r))

-- strncpy into a field of which the last byte stays NUL.
abbrev pub copy_field : ℕ → Str → Str
copy_field n s = take (n - 1) s

-- The digits that strtol reads in base 10, as a number, and the rest.
unfoldable pub read_digits : ℕ → Str → ℕ × Str
read_digits n [] = (n, [])
read_digits n (c ∷ s) = if isdigit c then read_digits (n * 10 + (c - 48)) s else (n, c ∷ s)

starts_digit : Str → Bool
starts_digit [] = false
starts_digit (c ∷ s) = isdigit c

-- The bits of a 64-bit long kept by the conversion to a 32-bit int, as a signed number.
unfoldable pub int_of_bits : ℕ → ℤ
int_of_bits n =
    let low = n % 2 ^ 32 in if ltb low (2 ^ 31) then pos low else negsuc (2 ^ 32 - low - 1)

-- (int) of the long that strtol returns: it clamps at LONG_MAX and LONG_MIN.
unfoldable pub int_of_long : Bool → ℕ → ℤ
unfolding int_of_bits
int_of_long false n = int_of_bits (min n (2 ^ 63 - 1))
int_of_long true n = int_of_bits (2 ^ 64 - min n (2 ^ 63))

signed_digits : Bool → Str → Str → ℤ × Str
unfolding starts_digit int_of_long read_digits
signed_digits negative whole s =
    if starts_digit s
    then (let (n, rest) = read_digits 0 s in (int_of_long negative n, rest))
    else (pos 0, whole)

after_sign : Str → Str → ℤ × Str
unfolding signed_digits
after_sign whole [] = (pos 0, whole)
after_sign whole (c ∷ s) =
    if c == b'-'
    then signed_digits true whole s
    else if c == b'+'
    then signed_digits false whole s
    else signed_digits false whole (c ∷ s)

-- (int) strtol (s, &end, 10), and the string at `end`: all of `s` if there is no number.
unfoldable pub strtol : Str → ℤ × Str
unfolding after_sign skip_space
strtol s = after_sign s (skip_space s)

unfoldable pub atoi : Str → ℤ
unfolding strtol
atoi s = (strtol s).0

numbers_read :
    (atoi (codes " -042x") ≡ negsuc 41)
    × (atoi (codes "abc") ≡ pos 0)
    × (atoi (codes "4294967297") ≡ pos 1)
    × (strtol (codes "12:30") ≡ (pos 12, codes ":30"))
unfolding atoi
numbers_read = (refl, refl, refl, refl)

words_read :
    (scan_word (codes "  ab cd") ≡ codes "ab")
    × (strstr (codes "xaab") (codes "ab") ≡ some (codes "ab"))
unfolding scan_word strstr
words_read = (refl, refl)
