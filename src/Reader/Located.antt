-- ===== src/Reader/Located.antt =====
-- Where find_line finds a line of a RESP file as it is printed: behind comments, and at once.
use evalresp.Prelude.{
  ℕ, zero, suc, ◌+◌, ◌≤◌, ◌<◌, ◌≡◌, ◌≢◌, refl, ap, arith, true, false, inl, inr, ◌∙◌, [], ◌∷◌, ◌++◌,
  length, Bool-cases,
}
use evalresp.Prelude.Int.{ℤ}
use evalresp.CString.{Str, codes, is_empty, has_prefix, skip_space}
use evalresp.Status.{ok, is_ok}
use evalresp.RegExp.{RegExp, is_int, max_line_len}
use evalresp.Reader.{
  Pref, LineRead, slurp_line, is_skipped, drop_from, drop_comments_and_blank_lines,
  remove_tabs_and_crlf, read_pref, read_line, at_field, find_from, find_line,
}
use evalresp.Reader.Lines.{length-slurp_line}
use evalresp.Reader.Print.{
  is_plain, lacks_colon, slurp_line-plain, line_read, laid_out, drop_comments-laid_out,
  read_pref-laid_out, read_line-laid_out,
}

-- Enough fuel is as good as more.
drop_from-fuel : (n m : ℕ) (s : Str) → length s ≤ n → length s ≤ m → drop_from n s ≡ drop_from m s
unfolding drop_from
drop_from-fuel zero zero s h k = refl
drop_from-fuel zero (suc m) [] h k = refl
drop_from-fuel zero (suc m) (c ∷ s) h k = absurd (omega arith)
drop_from-fuel (suc n) zero [] h k = refl
drop_from-fuel (suc n) zero (c ∷ s) h k = absurd (omega arith)
drop_from-fuel (suc n) (suc m) [] h k = refl
drop_from-fuel (suc n) (suc m) (c ∷ s) h k =
    let line = slurp_line (c ∷ s) max_line_len in
    let short = length-slurp_line c s max_line_len in
    elim (Bool-cases (is_skipped line.0)) [
      | inl e ↦ rw (e, drop_from-fuel n m line.1 (omega (arith, short)) (omega (arith, short))) refl
      | inr e ↦ rw e refl
    ]

is_skipped_comment : (c : Str) → is_skipped (b'#' ∷ c) ≡ true
unfolding is_skipped has_prefix
is_skipped_comment c = refl

-- A comment is dropped.
pub drop_comments-comment :
    (c rest : Str)
    → is_plain c ≡ true
    → length c + 2 < max_line_len
    → drop_comments_and_blank_lines (b'#' ∷ c ++ 10 ∷ rest) ≡ drop_comments_and_blank_lines rest
unfolding drop_comments_and_blank_lines drop_from
drop_comments-comment c rest h k =
    let seed : Str = b'#' ∷ c ++ 10 ∷ rest in
    let e = slurp_line-plain (b'#' ∷ c) rest h (omega (arith, k)) in
    let short = length-slurp_line b'#' (c ++ 10 ∷ rest) max_line_len in
    let skipped : is_skipped (slurp_line seed max_line_len).0 ≡ true =
      ap (λ r. is_skipped r.0) e ∙ is_skipped_comment (c ++ 10 ∷ []) in
    rw skipped (
      ap (λ r. drop_from (length (c ++ 10 ∷ rest)) r.1) e
      ∙ drop_from-fuel (length (c ++ 10 ∷ rest)) (length rest) rest
          (omega (arith, short, ap (λ r. length r.1) e)) (omega arith))

-- The first data line has the field.
find_line-here :
    (re : RegExp) (seed sep start : Str) (b f : ℤ) (p : Pref) (r : LineRead)
    → drop_comments_and_blank_lines seed ≡ start
    → is_empty start ≡ false
    → read_pref re (remove_tabs_and_crlf (slurp_line start max_line_len).0) ≡ p
    → is_ok p.status ≡ true
    → at_field p b f ≡ true
    → read_line re start sep ≡ r
    → find_line re seed sep b f ≡ (r.status, r.line, r.rest)
unfolding find_line find_from
find_line-here re seed sep start b f p r h1 h2 h3 h4 h5 h6 = rw (h1, h2, h3, h4, h5, h6) refl

-- find_line of a field that the next printed line has.
pub find_line-laid_out :
    (re : RegExp) (b f : ℤ) (b1 b2 b3 f1 f2 : ℕ) (label gap text rest seed : Str)
    → drop_comments_and_blank_lines seed
      ≡ drop_comments_and_blank_lines (laid_out (b1, b2, b3) (f1, f2) label gap text ++ 10 ∷ rest)
    → is_int re (b1 ∷ b2 ∷ b3 ∷ []) ≡ true
    → is_int re (f1 ∷ f2 ∷ []) ≡ true
    → at_field (line_read (b1, b2, b3) (f1, f2) text rest).pref b f ≡ true
    → lacks_colon (b'B' ∷ b1 ∷ b2 ∷ b3 ∷ b'F' ∷ f1 ∷ f2 ∷ label) ≡ true
    → is_plain (laid_out (b1, b2, b3) (f1, f2) label gap text) ≡ true
    → length (laid_out (b1, b2, b3) (f1, f2) label gap text) + 1 < max_line_len
    → text ≢ []
    → skip_space (gap ++ text) ≡ text
    → find_line re seed (codes ":") b f ≡ (ok, text, rest)
unfolding is_ok
find_line-laid_out re b f b1 b2 b3 f1 f2 label gap text rest seed e hb hf at lc plain fits n sp =
    find_line-here re seed (codes ":") (laid_out (b1, b2, b3) (f1, f2) label gap text ++ 10 ∷ rest)
      b f _ _ (e ∙ drop_comments-laid_out re b1 b2 b3 f1 f2 label gap text rest hb hf plain fits)
      refl (read_pref-laid_out re b1 b2 b3 f1 f2 label gap text rest hb hf plain fits) refl at
      (read_line-laid_out re b1 b2 b3 f1 f2 label gap text rest hb hf plain fits lc n sp)
