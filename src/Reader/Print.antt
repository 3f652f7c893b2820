-- ===== src/Reader/Print.antt =====
-- A line of a RESP file as it is printed, and read_line on it.
use evalresp.Prelude.{
  ℕ, suc, ◌+◌, ◌<◌, ◌≡◌, ◌≢◌, refl, ap, arith, Bool, true, false, not, ◌&&◌, Option, none, some,
  ◌∙◌, drop, [], ◌∷◌, ◌++◌, map, length, ◌==◌, if◌then◌else◌, ltb, take,
}
use evalresp.CString.{Str, codes, atoi, strstr, skip_space, has_prefix, is_empty}
use evalresp.Status.{ok, is_ok}
use evalresp.RegExp.{RegExp, is_int, max_line_len}
use evalresp.Reader.{
  Pref, LineRead, slurp_from, slurp_line, tab_to_space, is_crlf, strip_crlf, remove_tabs_and_crlf,
  is_skipped, drop_from, drop_comments_and_blank_lines, after_separator, read_pref, read_line,
}
use evalresp.Reader.Fields.{starts_space}

-- No tab, line feed or carriage return.
abbrev pub is_plain : Str → Bool
is_plain [] = true
is_plain (c ∷ s) = not (c == 9) && not (c == 10) && not (c == 13) && is_plain s

abbrev pub lacks_colon : Str → Bool
lacks_colon [] = true
lacks_colon (c ∷ s) = not (c == b':') && lacks_colon s

-- "BbbbFff", the label, a colon, a space and the text.
abbrev pub printed : ℕ × ℕ × ℕ → ℕ × ℕ → Str → Str → Str
printed (b1, b2, b3) (f1, f2) label text =
    b'B' ∷ b1 ∷ b2 ∷ b3 ∷ b'F' ∷ f1 ∷ f2 ∷ label ++ b':' ∷ b' ' ∷ text

slurp_from-plain :
    (i m : ℕ) (s rest : Str)
    → is_plain s ≡ true
    → i + length s + 1 < m
    → slurp_from i m (s ++ 10 ∷ rest) ≡ (s ++ 10 ∷ [], rest)
unfolding slurp_from
slurp_from-plain i m [] rest h k = refl
slurp_from-plain i m (c ∷ s) rest h k = ground (arith, slurp_from-plain (i + 1) m s rest)

map-plain : (s : Str) → is_plain s ≡ true → map tab_to_space s ≡ s
unfolding tab_to_space
map-plain [] h = refl
map-plain (c ∷ s) h = ground (arith, map-plain s)

strip_crlf-plain : (s : Str) → is_plain s ≡ true → strip_crlf (s ++ 10 ∷ []) ≡ s
unfolding strip_crlf is_crlf
strip_crlf-plain [] h = refl
strip_crlf-plain (c ∷ s) h = ground (arith, strip_crlf-plain s)

strstr-colon :
    (s t : Str) → lacks_colon s ≡ true → strstr (s ++ b':' ∷ t) (codes ":") ≡ some (b':' ∷ t)
unfolding strstr
strstr-colon [] t h = refl
strstr-colon (c ∷ s) t h = ground (arith, strstr-colon s t)

map-append-plain : (s : Str) → is_plain s ≡ true → map tab_to_space (s ++ 10 ∷ []) ≡ s ++ 10 ∷ []
unfolding tab_to_space
map-append-plain [] h = refl
map-append-plain (c ∷ s) h = ground (arith, map-append-plain s)

remove_tabs_and_crlf-plain :
    (c : ℕ) (s : Str) → is_plain (c ∷ s) ≡ true → remove_tabs_and_crlf (c ∷ s ++ 10 ∷ []) ≡ c ∷ s
unfolding remove_tabs_and_crlf tab_to_space
remove_tabs_and_crlf-plain c s h =
    rw (map-append-plain s (ground arith), strip_crlf-plain s (ground arith)) (ground arith)

drop_from-data :
    (fuel : ℕ) (seed : Str)
    → is_empty seed ≡ false
    → is_skipped (slurp_line seed max_line_len).0 ≡ false
    → drop_from (suc fuel) seed ≡ seed
unfolding drop_from
drop_from-data fuel seed h k = rw (h, k) refl

pub slurp_line-plain :
    (s rest : Str)
    → is_plain s ≡ true
    → length s + 1 < max_line_len
    → slurp_line (s ++ 10 ∷ rest) max_line_len ≡ (s ++ 10 ∷ [], rest)
unfolding slurp_line
slurp_line-plain s rest h k = slurp_from-plain 0 max_line_len s rest h (omega arith)

not_skipped : (s : Str) → is_skipped (b'B' ∷ s) ≡ false
unfolding is_skipped has_prefix
not_skipped s = refl

-- A line that starts with B is no comment and not blank.
drop_comments-data :
    (s rest : Str)
    → is_plain (b'B' ∷ s) ≡ true
    → length s + 2 < max_line_len
    → drop_comments_and_blank_lines (b'B' ∷ s ++ 10 ∷ rest) ≡ b'B' ∷ s ++ 10 ∷ rest
unfolding drop_comments_and_blank_lines
drop_comments-data s rest h k =
    drop_from-data (length (s ++ 10 ∷ rest)) (b'B' ∷ s ++ 10 ∷ rest) refl (
      ap (λ r. is_skipped r.0) (slurp_line-plain (b'B' ∷ s) rest h (omega arith))
      ∙ not_skipped (s ++ 10 ∷ []))

pub skip_space-text : (t : Str) → starts_space t ≡ false → skip_space t ≡ t
unfolding skip_space
skip_space-text [] h = refl
skip_space-text (c ∷ t) h = rw h refl

if-empty : (t : Str) → t ≢ [] → (if is_empty t then none else some t) ≡ some t
if-empty [] h = absurd (h refl)
if-empty (c ∷ t) h = refl

-- The text behind the first colon and the gap.
after_separator-printed :
    (s gap text : Str)
    → lacks_colon s ≡ true
    → text ≢ []
    → skip_space (gap ++ text) ≡ text
    → after_separator (s ++ b':' ∷ (gap ++ text)) (codes ":") ≡ some text
unfolding after_separator
after_separator-printed s gap text h k l =
    let behind : Option Str → Option Str = λ o. elim o [
      | none ↦ none
      | some at ↦ let t = skip_space (drop 1 at) in if is_empty t then none else some t
    ] in
    ap behind (strstr-colon s (gap ++ text) h)
    ∙ ap (λ t. if is_empty t then none else some t) l
    ∙ if-empty text k

-- read_line from its parts.
read_line-parts :
    (re : RegExp) (seed sep raw line rest text : Str) (p : Pref)
    → drop_comments_and_blank_lines seed ≡ seed
    → is_empty seed ≡ false
    → slurp_line seed max_line_len ≡ (raw, rest)
    → remove_tabs_and_crlf raw ≡ line
    → read_pref re line ≡ p
    → is_ok p.status ≡ true
    → after_separator line sep ≡ some text
    → read_line re seed sep ≡ record { pref = p; line = text; rest = rest }
unfolding read_line
read_line-parts re seed sep raw line rest text p h1 h2 h3 h4 h5 h6 h7 =
    rw (h1, h2, h3, h4, h5, h6, h7) refl

-- read_pref from its parts.
read_pref-parts :
    (re : RegExp) (line b f : Str)
    → has_prefix line (codes "B") ≡ true
    → ltb (length line) 7 ≡ false
    → take 3 (drop 1 line) ≡ b
    → take 2 (drop 5 line) ≡ f
    → is_int re b ≡ true
    → is_int re f ≡ true
    → read_pref re line ≡ record { status = ok; blkt_no = some (atoi b); fld_no = some (atoi f) }
unfolding read_pref
read_pref-parts re line b f h1 h2 h3 h4 h5 h6 = rw (h1, h2, h3, h4, h5, h6) refl

read_pref-printed :
    (re : RegExp) (b1 b2 b3 f1 f2 : ℕ) (t : Str)
    → is_int re (b1 ∷ b2 ∷ b3 ∷ []) ≡ true
    → is_int re (f1 ∷ f2 ∷ []) ≡ true
    → read_pref re (b'B' ∷ b1 ∷ b2 ∷ b3 ∷ b'F' ∷ f1 ∷ f2 ∷ t) ≡ record {
      status = ok;
      blkt_no = some (atoi (b1 ∷ b2 ∷ b3 ∷ []));
      fld_no = some (atoi (f1 ∷ f2 ∷ []));
    }
unfolding has_prefix
read_pref-printed re b1 b2 b3 f1 f2 t h k =
    read_pref-parts re _ (b1 ∷ b2 ∷ b3 ∷ []) (f1 ∷ f2 ∷ []) refl (ground arith) refl refl h k

-- What read_line gives for a line with these numbers.
abbrev pub line_read : ℕ × ℕ × ℕ → ℕ × ℕ → Str → Str → LineRead
line_read (b1, b2, b3) (f1, f2) text rest = record {
  pref = record {
    status = ok;
    blkt_no = some (atoi (b1 ∷ b2 ∷ b3 ∷ []));
    fld_no = some (atoi (f1 ∷ f2 ∷ []));
  };
  line = text;
  rest = rest;
}

-- "BbbbFff", the label, a colon, a gap and the text.
abbrev pub laid_out : ℕ × ℕ × ℕ → ℕ × ℕ → Str → Str → Str → Str
laid_out (b1, b2, b3) (f1, f2) label gap text =
    b'B' ∷ b1 ∷ b2 ∷ b3 ∷ b'F' ∷ f1 ∷ f2 ∷ label ++ b':' ∷ (gap ++ text)

module _ (re : RegExp) (b1 b2 b3 f1 f2 : ℕ) (label gap text rest : Str)
    (blkt : is_int re (b1 ∷ b2 ∷ b3 ∷ []) ≡ true) (fld : is_int re (f1 ∷ f2 ∷ []) ≡ true)
    (plain : is_plain (laid_out (b1, b2, b3) (f1, f2) label gap text) ≡ true)
    (fits : length (laid_out (b1, b2, b3) (f1, f2) label gap text) + 1 < max_line_len) where
  abbrev front : Str
  front = b1 ∷ b2 ∷ b3 ∷ b'F' ∷ f1 ∷ f2 ∷ label

  abbrev tail : Str
  tail = front ++ b':' ∷ (gap ++ text)

  -- The line is no comment.
  pub drop_comments-laid_out :
      drop_comments_and_blank_lines (laid_out (b1, b2, b3) (f1, f2) label gap text ++ 10 ∷ rest)
      ≡ laid_out (b1, b2, b3) (f1, f2) label gap text ++ 10 ∷ rest
  drop_comments-laid_out = drop_comments-data tail rest plain (omega (arith, fits))

  -- The numbers of the line.
  pub read_pref-laid_out :
      read_pref re (
        remove_tabs_and_crlf
          (slurp_line (laid_out (b1, b2, b3) (f1, f2) label gap text ++ 10 ∷ rest) max_line_len).0)
      ≡ (line_read (b1, b2, b3) (f1, f2) text rest).pref
  read_pref-laid_out =
      ap (λ r. read_pref re (remove_tabs_and_crlf r.0))
        (slurp_line-plain (b'B' ∷ tail) rest plain (omega (arith, fits)))
      ∙ ap (read_pref re) (remove_tabs_and_crlf-plain b'B' tail plain)
      ∙ read_pref-printed re b1 b2 b3 f1 f2 (label ++ b':' ∷ (gap ++ text)) blkt fld

  pub read_line-laid_out :
      lacks_colon (b'B' ∷ front) ≡ true
      → text ≢ []
      → skip_space (gap ++ text) ≡ text
      → read_line re (laid_out (b1, b2, b3) (f1, f2) label gap text ++ 10 ∷ rest) (codes ":")
        ≡ line_read (b1, b2, b3) (f1, f2) text rest
  unfolding is_ok
  read_line-laid_out h k l =
      read_line-parts re _ (codes ":") (b'B' ∷ tail ++ 10 ∷ []) (b'B' ∷ tail) rest text _
        drop_comments-laid_out refl
        (slurp_line-plain (b'B' ∷ tail) rest plain (omega (arith, fits)))
        (remove_tabs_and_crlf-plain b'B' tail plain)
        (read_pref-printed re b1 b2 b3 f1 f2 (label ++ b':' ∷ (gap ++ text)) blkt fld) refl
        (after_separator-printed (b'B' ∷ front) gap text h k l)

-- A line of field F of blockette B that is printed, with a label that has no colon and text that does
-- not start with white space, both without tabs and line ends, is read back by read_line: the numbers,
-- the text and the rest of the input. The line fits the buffer with its line feed, and the matcher takes
-- the numbers for numbers.
pub read_line-printed :
    (re : RegExp) (b1 b2 b3 f1 f2 : ℕ) (label text rest : Str)
    → is_int re (b1 ∷ b2 ∷ b3 ∷ []) ≡ true
    → is_int re (f1 ∷ f2 ∷ []) ≡ true
    → is_plain (printed (b1, b2, b3) (f1, f2) label text) ≡ true
    → lacks_colon (b'B' ∷ b1 ∷ b2 ∷ b3 ∷ b'F' ∷ f1 ∷ f2 ∷ label) ≡ true
    → text ≢ []
    → starts_space text ≡ false
    → length (printed (b1, b2, b3) (f1, f2) label text) + 1 < max_line_len
    → read_line re (printed (b1, b2, b3) (f1, f2) label text ++ 10 ∷ rest) (codes ":") ≡ record {
      pref = record {
        status = ok;
        blkt_no = some (atoi (b1 ∷ b2 ∷ b3 ∷ []));
        fld_no = some (atoi (f1 ∷ f2 ∷ []));
      };
      line = text;
      rest = rest;
    }
unfolding skip_space
read_line-printed re b1 b2 b3 f1 f2 label text rest h1 h2 h3 h4 h5 h6 h7 =
    read_line-laid_out re b1 b2 b3 f1 f2 label (b' ' ∷ []) text rest h1 h2 h3 h7 h4 h5
      (skip_space-text text h6)
