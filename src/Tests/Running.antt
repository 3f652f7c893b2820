-- ===== src/Tests/Running.antt =====
-- Runs of the drivers.
use evalresp.Prelude.{◌≡◌, refl, ◌<◌, true, false, none, some, [], ◌∷◌, if◌then◌else◌, length}
use evalresp.Prelude.Int.{ℤ, pos}
use evalresp.CString.{Str, codes, str_eq}
use evalresp.Checked.{Checked, checked, undefined}
use evalresp.Options.{evalresp_new_options, complex_format}
use evalresp.Filter.{Filter, Sncl}
use evalresp.Evaluation.{Response}
use evalresp.Input.File.{Buffer, file_to_char, file_to_char_lem}
use evalresp.Driver.Search.{Files, names_here}
use evalresp.Driver.Output.{Written, responses_to_cwd}
use evalresp.Driver.{Run, process_list, process_cwd_files, evalresp_cwd_to_cwd}
use evalresp.Driver.Listed.{repeated, process_cwd_files-first}
use evalresp.Driver.Missing.{evalresp_cwd_to_cwd-no_files}
use evalresp.Driver.Printed.{all_files, Writes, responses_to_cwd-Writes}
use evalresp.Tests.Whole.{whole, simple, calendar}
use evalresp.Tests.Xml.{tree_xml, clock, printf}
use evalresp.Tests.Evaluating.{defaults, copied}

file_to_char_lem_example :
    (b : Buffer) × (file_to_char (codes "B053F03 Type: A\n") ≡ some b)
    × (b.used ≡ codes "B053F03 Type: A\n")
    × (length b.used < b.buffer_len)
file_to_char_lem_example = file_to_char_lem (codes "B053F03 Type: A\n")

-- A directory with a file for the vertical channel.
abbrev directory : Files
directory = record {
  stdin = [];
  contents = λ name. none;
  writable = λ name. true;
  is_directory = λ name. false;
  glob = λ pattern. if str_eq pattern (codes "./RESP.IU.ANMO.00.BHZ") then pattern ∷ [] else [];
  getenv = λ name. none;
  getcwd = codes "/";
}

abbrev entry : Str → Sncl
entry channel = record {
  station = codes "ANMO";
  network = codes "IU";
  locid = codes "00";
  channel = channel;
  found = 0;
}

abbrev two_channels : Filter ℤ
two_channels = record { sncls = entry (codes "BHE") ∷ entry (codes "BHZ") ∷ []; datetime = none }

no_file : names_here directory (entry (codes "BHE")) ≡ []
unfolding names_here
no_file = refl

evalresp_cwd_to_cwd-no_files_example :
    evalresp_cwd_to_cwd simple calendar tree_xml clock printf 10 copied directory
      (some defaults)
      two_channels
    ≡ (record { stdout = []; files = [] }, undefined)
unfolding evalresp_new_options
evalresp_cwd_to_cwd-no_files_example =
    evalresp_cwd_to_cwd-no_files simple calendar tree_xml clock printf 10 copied directory defaults
      two_channels (entry (codes "BHE")) (entry (codes "BHZ") ∷ []) refl refl refl no_file

abbrev fresh : Run ℤ
fresh = record { responses = none; options = defaults; filter = two_channels }

process_cwd_files-first_example :
    process_cwd_files simple calendar tree_xml clock printf 10 copied directory fresh
      ((codes "a" ∷ []) ∷ (codes "b" ∷ []) ∷ [])
    ≡ process_list simple calendar tree_xml clock printf 10 copied directory fresh
        (repeated 2 (codes "a" ∷ []))
process_cwd_files-first_example =
    process_cwd_files-first simple calendar tree_xml clock printf 10 copied directory fresh
      (codes "a" ∷ []) ((codes "b" ∷ []) ∷ [])

abbrev answer : Response ℤ
answer = record {
  station = codes "ANMO";
  network = codes "IU";
  locid = codes "00";
  channel = codes "BHZ";
  freqs = pos 1 ∷ pos 2 ∷ [];
  rvec = record { real = pos 3; imag = pos 4 } ∷ record { real = pos 5; imag = pos 6 } ∷ [];
}

abbrev nothing : Written
nothing = record { stdout = []; files = [] }

abbrev answered : Written × Checked (Unit {0})
answered = responses_to_cwd printf 10 directory (answer ∷ []) false complex_format false nothing

answered_ok : answered.1 ≡ checked tt
unfolding responses_to_cwd
answered_ok = refl

responses_to_cwd-Writes_example :
    (answered.0.stdout ≡ [])
    × Writes printf 10 false (all_files complex_format (answer ∷ [])) [] answered.0.files
responses_to_cwd-Writes_example =
    responses_to_cwd-Writes printf 10 false directory (answer ∷ []) complex_format nothing
      answered_ok
