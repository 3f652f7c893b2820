-- ===== src/Tests/Reading.antt =====
-- Lines and fields of a RESP file.
use evalresp.Prelude.{
  ◌+◌, ◌-◌, ◌≤◌, ◌<◌, ◌≡◌, ◌≢◌, refl, true, false, ◌⊎◌, [], ◌++◌, arith, length, if◌then◌else◌,
}
use evalresp.Prelude.Int.{pos}
use evalresp.CString.{Str, codes}
use evalresp.Status.{ok, eof}
use evalresp.Checked.{undefined}
use evalresp.Reader.{
  slurp_line, drop_comments_and_blank_lines, read_line, find_line, get_field_to_parse,
}
use evalresp.Reader.Lines.{
  IsOneLine, ends_line, slurp_line_lem, Dropped, AtData, drop_comments_and_blank_lines_lem,
}
use evalresp.Reader.Fields.{words, is_readable, field_at, starts_space, get_field_to_parse_lem}
use evalresp.Reader.Find.{Finds, find_line-Finds, read_line-ok}
use evalresp.Tests.Whole.{simple, simple_exec}

abbrev resp : Str
resp = codes "# c\n\nB050F03  Station:  ANMO\r\nB050F16  Network: IU x\n"

slurped : slurp_line (codes "ab\ncd") 256 ≡ (codes "ab\n", codes "cd")
unfolding slurp_line
slurped = refl

found : find_line simple resp (codes ":") (pos 50) (pos 16) ≡ (ok, codes "IU x", [])
unfolding find_line simple_exec
found = refl

missing : (find_line simple resp (codes ":") (pos 52) (pos 3)).0 ≡ eof
unfolding find_line simple_exec
missing = refl

slurp_line_lem_example :
    ((slurp_line resp 6).0 ++ (slurp_line resp 6).1 ≡ resp)
    × (length (slurp_line resp 6).0 + 1 ≤ 6)
    × IsOneLine (slurp_line resp 6).0
    × ((slurp_line resp 6).1 ≢ []
        → (ends_line (slurp_line resp 6).0 ≡ true) ⊎ (length (slurp_line resp 6).0 ≡ 6 - 1))
slurp_line_lem_example = slurp_line_lem resp 6 (omega arith)

drop_comments_and_blank_lines_lem_example :
    Dropped resp (drop_comments_and_blank_lines resp) × AtData (drop_comments_and_blank_lines resp)
drop_comments_and_blank_lines_lem_example = drop_comments_and_blank_lines_lem resp

get_field_to_parse_lem_example : get_field_to_parse (codes "0.5  1.0") 1 ≡ (
    if is_readable false (codes "0.5  1.0")
    then field_at (words (codes "0.5  1.0")) 1
    else undefined)
get_field_to_parse_lem_example = get_field_to_parse_lem (codes "0.5  1.0") 1

find_line-Finds_example :
    Finds simple
      (codes ":")
      (pos 50)
      (pos 16)
      resp
      (find_line simple resp (codes ":") (pos 50) (pos 16))
find_line-Finds_example = find_line-Finds simple resp (codes ":") (pos 50) (pos 16)

read_line-ok_example :
    ((read_line simple resp (codes ":")).line ≢ [])
    × (starts_space (read_line simple resp (codes ":")).line ≡ false)
    × (length (read_line simple resp (codes ":")).rest < length resp)
unfolding read_line simple_exec
read_line-ok_example = read_line-ok simple resp (codes ":") refl
