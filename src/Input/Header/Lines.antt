-- ===== src/Input/Header/Lines.antt =====
-- The lines of a printed header, as find_line and read_line find them.
use evalresp.Prelude.{◌<◌, ◌≡◌, ◌≢◌, refl, arith, true, false, ◌∙◌, ap, [], ◌∷◌, ◌++◌, length}
use evalresp.Prelude.Int.{pos}
use evalresp.CString.{Str, codes, skip_space, atoi}
use evalresp.Status.{ok}
use evalresp.RegExp.{RegExp}
use evalresp.Reader.{at_field, find_line, read_line, drop_comments_and_blank_lines}
use evalresp.Reader.Fields.{starts_space}
use evalresp.Reader.Print.{is_plain, skip_space-text, line_read, read_line-laid_out}
use evalresp.Reader.Located.{drop_comments-comment, find_line-laid_out}
use evalresp.Input.Header.Printed.{TakesDigits}

abbrev pub station_line : Str → Str
station_line text = codes "B050F03     Station:     " ++ text

abbrev pub network_line : Str → Str
network_line text = codes "B050F16     Network:     " ++ text

abbrev pub location_line : Str → Str
location_line text = codes "B052F03     Location:    " ++ text

abbrev pub channel_line : Str → Str
channel_line text = codes "B052F04     Channel:     " ++ text

abbrev pub start_line : Str → Str
start_line text = codes "B052F22     Start date:  " ++ text

abbrev pub end_line : Str → Str
end_line text = codes "B052F23     End date:    " ++ text

-- The three comments in front of a printed channel are dropped.
pub drop_comments-header :
    (rest : Str)
    → drop_comments_and_blank_lines (
        codes "#"
        ++ 10
          ∷ (codes
                "###################################################################################"
              ++ 10 ∷ (codes "#" ++ 10 ∷ rest)))
      ≡ drop_comments_and_blank_lines rest
drop_comments-header rest =
    drop_comments-comment [] _ refl (omega arith)
    ∙ drop_comments-comment
        (codes "##################################################################################")
        _ refl (omega arith)
    ∙ drop_comments-comment [] rest refl (omega arith)

module _ (re : RegExp) (t : TakesDigits re) (seed text rest : Str) (some_text : text ≢ [])
    (starts : starts_space text ≡ false) (plain : is_plain text ≡ true)
    (short : length text < 64) where
  pub find_line-station :
      drop_comments_and_blank_lines seed
        ≡ drop_comments_and_blank_lines (station_line text ++ 10 ∷ rest)
      → find_line re seed (codes ":") (pos 50) (pos 3) ≡ (ok, text, rest)
  unfolding at_field atoi skip_space
  find_line-station e =
      find_line-laid_out re (pos 50) (pos 3) b'0' b'5' b'0' b'0' b'3' (codes "     Station")
        (codes "     ") text rest seed e (t.digits _ (λ k. cc) refl) (t.digits _ (λ k. cc) refl)
        refl refl plain (omega arith) some_text (skip_space-text text starts)

  pub find_line-network :
      seed ≡ network_line text ++ 10 ∷ rest
      → find_line re seed (codes ":") (pos 50) (pos 16) ≡ (ok, text, rest)
  unfolding at_field atoi skip_space
  find_line-network e =
      find_line-laid_out re (pos 50) (pos 16) b'0' b'5' b'0' b'1' b'6' (codes "     Network")
        (codes "     ") text rest seed (ap drop_comments_and_blank_lines e)
        (t.digits _ (λ k. cc) refl) (t.digits _ (λ k. cc) refl) refl refl plain (omega arith)
        some_text (skip_space-text text starts)

  pub find_line-channel :
      seed ≡ channel_line text ++ 10 ∷ rest
      → find_line re seed (codes ":") (pos 52) (pos 4) ≡ (ok, text, rest)
  unfolding at_field atoi skip_space
  find_line-channel e =
      find_line-laid_out re (pos 52) (pos 4) b'0' b'5' b'2' b'0' b'4' (codes "     Channel")
        (codes "     ") text rest seed (ap drop_comments_and_blank_lines e)
        (t.digits _ (λ k. cc) refl) (t.digits _ (λ k. cc) refl) refl refl plain (omega arith)
        some_text (skip_space-text text starts)

  pub find_line-start :
      seed ≡ start_line text ++ 10 ∷ rest
      → find_line re seed (codes ":") (pos 52) (pos 22) ≡ (ok, text, rest)
  unfolding at_field atoi skip_space
  find_line-start e =
      find_line-laid_out re (pos 52) (pos 22) b'0' b'5' b'2' b'2' b'2' (codes "     Start date")
        (codes "  ") text rest seed (ap drop_comments_and_blank_lines e) (t.digits _ (λ k. cc) refl)
        (t.digits _ (λ k. cc) refl) refl refl plain (omega arith) some_text
        (skip_space-text text starts)

  pub find_line-end :
      seed ≡ end_line text ++ 10 ∷ rest
      → find_line re seed (codes ":") (pos 52) (pos 23) ≡ (ok, text, rest)
  unfolding at_field atoi skip_space
  find_line-end e =
      find_line-laid_out re (pos 52) (pos 23) b'0' b'5' b'2' b'2' b'3' (codes "     End date")
        (codes "    ") text rest seed (ap drop_comments_and_blank_lines e)
        (t.digits _ (λ k. cc) refl) (t.digits _ (λ k. cc) refl) refl refl plain (omega arith)
        some_text (skip_space-text text starts)

  pub read_line-location :
      seed ≡ location_line text ++ 10 ∷ rest
      → read_line re seed (codes ":") ≡ line_read (b'0', b'5', b'2') (b'0', b'3') text rest
  unfolding skip_space
  read_line-location e =
      ap (λ s. read_line re s (codes ":")) e
      ∙ read_line-laid_out re b'0' b'5' b'2' b'0' b'3' (codes "     Location") (codes "    ") text
          rest (t.digits _ (λ k. cc) refl) (t.digits _ (λ k. cc) refl) plain (omega arith) refl
          some_text (skip_space-text text starts)
