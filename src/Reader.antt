-- ===== src/Reader.antt =====
-- The line and field reader of libsrc/evalresp/input.c. `const char **seed` is passed in and the rest
-- of the input is returned; a buffer that a call fills is part of its result.
pub mod Lines
pub mod Fields
pub mod Find
pub mod Print
pub mod Located
use evalresp.Prelude.{
  ℕ, zero, suc, ◌+◌, ◌-◌, ◌≡◌, refl, Bool, true, false, not, ◌&&◌, ◌||◌, Option, none, some, List,
  [], ◌∷◌, map, reverse, ltb, leb, ◌==◌, if◌then◌else◌, length, take, drop,
}
use evalresp.Prelude.Int.{ℤ, pos, negsuc, eqb_ℤ}
use evalresp.CString.{
  Str, codes, isspace, is_empty, has_prefix, strstr, skip_space, until_space, scan_word, copy_field,
  atoi,
}
use evalresp.Status.{Status, ok, par, eof, is_ok}
use evalresp.Checked.{Checked, checked, failed, undefined, ◌>>=◌}
use evalresp.RegExp.{RegExp, max_line_len, is_int}

-- The loop of slurp_line, `i` bytes being in the line.
slurp_from : ℕ → ℕ → Str → Str × Str
slurp_from i maxlen [] = ([], [])
slurp_from i maxlen (c ∷ s) =
    let more = slurp_from (i + 1) maxlen s in
    if c == 10 || (i + 1 == maxlen - 1) then (c ∷ [], s) else (c ∷ more.0, more.1)

-- The line and the rest of the input.
unfoldable pub slurp_line : Str → ℕ → Str × Str
unfolding slurp_from
slurp_line seed maxlen = slurp_from 0 maxlen seed

unfoldable pub blank_line : Str → Bool
blank_line [] = true
blank_line (c ∷ s) = if isspace c then blank_line s else false

-- *line == '#' || blank_line (line)
unfoldable pub is_skipped : Str → Bool
unfolding blank_line
is_skipped line = has_prefix line (b'#' ∷ []) || blank_line line

-- The loop of drop_comments_and_blank_lines, each round of which shortens the input.
drop_from : ℕ → Str → Str
drop_from zero seed = seed
drop_from (suc fuel) seed =
    let line = slurp_line seed max_line_len in
    let more = drop_from fuel line.1 in
    if is_empty seed then seed else if is_skipped line.0 then more else seed

unfoldable pub drop_comments_and_blank_lines : Str → Str
unfolding drop_from slurp_line is_skipped
drop_comments_and_blank_lines seed = drop_from (length seed) seed

is_crlf : ℕ → Bool
is_crlf c = c == 10 || c == 13

-- The bytes after the first one, without the line ends at their end.
strip_crlf : Str → Str
strip_crlf [] = []
strip_crlf (c ∷ s) = let t = strip_crlf s in if is_empty t && is_crlf c then [] else c ∷ t

tab_to_space : ℕ → ℕ
tab_to_space c = if c == 9 then 32 else c

-- The second loop stops at index 0. No caller passes an empty line, at which it would read line[-1].
unfoldable pub remove_tabs_and_crlf : Str → Str
unfolding strip_crlf tab_to_space is_crlf
remove_tabs_and_crlf [] = []
remove_tabs_and_crlf (c ∷ s) = tab_to_space c ∷ strip_crlf (map tab_to_space s)

-- What read_pref leaves: the status, and blkt_no and fld_no as far as they were set.
pub record Pref : Type 0 where
  pub status : Status
  pub blkt_no : Option ℤ
  pub fld_no : Option ℤ

abbrev pref : Status → Option ℤ → Option ℤ → Pref
pref s b f = record { status = s; blkt_no = b; fld_no = f }

-- What read_line leaves: `return_line` is empty on an error.
pub record LineRead : Type 0 where
  pub pref : Pref
  pub open pref use *
  pub line : Str
  pub rest : Str

-- The part of a line behind the separator, from the first byte that is no white space.
unfoldable pub after_separator : Str → Str → Option Str
unfolding strstr skip_space
after_separator line sep = elim (strstr line sep) [
  | none ↦ none
  | some at ↦ let text = skip_space (drop 1 at) in if is_empty text then none else some text
]

-- blkt_no == lcl_blkt && fld_no == lcl_fld
unfoldable pub at_field : Pref → ℤ → ℤ → Bool
at_field p blkt_no fld_no = elim p.blkt_no [
  | none ↦ false
  | some b ↦ elim p.fld_no [ none ↦ false | some f ↦ eqb_ℤ blkt_no b && eqb_ℤ fld_no f ]
]

-- The end of read_line: none where the separator or the text behind it is missing.
unfoldable pub separated : Pref → Option Str → Str → LineRead
separated p none rest = record { pref = record p { status = par }; line = []; rest = rest }
separated p (some text) rest = record { pref = p; line = text; rest = rest }

module _ (re : RegExp) where
  unfoldable pub read_pref : Str → Pref
  unfolding is_int atoi
  read_pref line =
      let blktstr = take 3 (drop 1 line) in
      let fldstr = take 2 (drop 5 line) in
      if not (has_prefix line (codes "B")) || ltb (length line) 7
      then pref par none none
      else if not (is_int re blktstr)
      then pref par none none
      else if not (is_int re fldstr)
      then pref par (some (atoi blktstr)) none
      else pref ok (some (atoi blktstr)) (some (atoi fldstr))

  unfoldable pub read_line : Str → Str → LineRead
  unfolding separated is_ok drop_comments_and_blank_lines slurp_line remove_tabs_and_crlf read_pref
      after_separator
  read_line seed sep =
      let start = drop_comments_and_blank_lines seed in
      let slurped = slurp_line start max_line_len in
      let line = remove_tabs_and_crlf slurped.0 in
      let p = read_pref line in
      let rest = slurped.1 in
      if is_empty start
      then record { pref = pref eof none none; line = []; rest = start }
      else if is_ok p.status
      then separated p (after_separator line sep) rest
      else record { pref = p; line = []; rest = rest }

  -- The loop of find_line: status, line and rest.
  find_from : ℕ → Str → Str → ℤ → ℤ → Status × Str × Str
  find_from zero seed sep blkt_no fld_no = (eof, [], seed)
  find_from (suc fuel) seed sep blkt_no fld_no =
      let start = drop_comments_and_blank_lines seed in
      let slurped = slurp_line start max_line_len in
      let p = read_pref (remove_tabs_and_crlf slurped.0) in
      let more = find_from fuel slurped.1 sep blkt_no fld_no in
      let found = read_line start sep in
      if is_empty start
      then (eof, [], start)
      else if is_ok p.status
      then (if at_field p blkt_no fld_no then (found.status, found.line, found.rest) else more)
      else (p.status, [], start)

  unfoldable pub find_line : Str → Str → ℤ → ℤ → Status × Str × Str
  unfolding is_ok find_from read_line at_field
  find_line seed sep blkt_no fld_no = find_from (suc (length seed)) seed sep blkt_no fld_no

-- `lcl_ptr = strstr (lcl_ptr, field) + strlen (field)` for the word that sscanf reads; none if there
-- is no word left, where sscanf stores nothing and strstr does not find the word before.
unfoldable pub next_field : Str → Option Str
unfolding scan_word strstr
next_field s =
    let word = scan_word s in
    if is_empty word
    then none
    else elim (strstr s word) [ none ↦ none | some at ↦ some (drop (length word) at) ]

-- MAXFLDLEN, the size of the buffers for a field. sscanf bounds no word: one that leaves no room for
-- its NUL is written behind the buffer.
abbrev pub max_fld_len : ℕ
max_fld_len = 50

-- The loop of number_of_fields. On white space alone sscanf stores nothing: the buffer holds the word
-- before (`begun`), which is not found again, or is searched for unwritten.
count_fields : ℕ → Bool → Str → Checked ℕ
count_fields zero begun s = checked 0
count_fields (suc fuel) begun [] = checked 0
count_fields (suc fuel) begun (c ∷ s) = elim (next_field (c ∷ s)) [
  | none ↦ if begun then checked 0 else undefined
  | some rest ↦
      let more = count_fields fuel true rest in
      if leb max_fld_len (length (scan_word (c ∷ s)))
      then undefined
      else more >>= λ n. checked (suc n)
]

unfoldable pub number_of_fields : Str → Checked ℕ
unfolding count_fields next_field scan_word
number_of_fields line = count_fields (length line) false line

skip_fields : ℕ → Str → Str
skip_fields zero s = s
skip_fields (suc n) s = elim (next_field s) [ none ↦ s | some rest ↦ skip_fields n rest ]

-- The field. The words in front of it have passed the same buffer in number_of_fields.
unfoldable pub get_field_to_parse : Str → ℕ → Checked Str
unfolding number_of_fields skip_fields next_field scan_word
get_field_to_parse line fld_no = do
  nfields ← number_of_fields line
  if leb nfields fld_no then failed par else checked (scan_word (skip_fields fld_no line))

module _ (re : RegExp) where
  unfoldable pub find_field : Str → Str → ℤ → ℤ → ℕ → Checked Str × Str
  unfolding is_ok find_line get_field_to_parse
  find_field seed sep blkt_no fld_no fld_wanted =
      let (status, line, rest) = find_line re seed sep blkt_no fld_no in
      (if is_ok status then get_field_to_parse line fld_wanted else failed status, rest)
