-- ===== src/Driver/Missing.antt =====
-- What evalresp_cwd_to_cwd of libsrc/evalresp/highlevel.c does where it finds no file.
use evalresp.Prelude.{
  ℕ, ◌≡◌, ◌∙◌, ap, false, Option, none, some, List, [], ◌∷◌, ◌++◌, map, length, if◌then◌else◌,
}
use evalresp.Checked.{checked, undefined}
use evalresp.CString.{Str}
use evalresp.RegExp.{RegExp}
use evalresp.Double.{Double}
use evalresp.DateTime.{Calendar}
use evalresp.Filter.{Filter, Sncl}
use evalresp.Options.{Options}
use evalresp.Evaluation.Interpolate.{Spline}
use evalresp.StationXml.Node.{Mxml, Clock}
use evalresp.StationXml.Print.{Printf}
use evalresp.Driver.Search.{Files, names_here, find_files}
use evalresp.Driver.{
  Run, process_list, process_cwd_files, process_found, process_cwd, process_stdio, process,
  print_run, evalresp_cwd_to_cwd,
}
use evalresp.Driver.Listed.{repeated-nil, process_cwd_files-first}

find_files-none :
    (w : Files) (file : Option Str) (all : List Sncl) (s : Sncl) (sncls : List Sncl)
    → file ≡ none
    → all ≡ s ∷ sncls
    → names_here w s ≡ []
    → (more : List (List Str)) × (find_files w file all ≡ some ([] ∷ more))
unfolding find_files
find_files-none w file all s sncls f a e =
    let more = map (names_here w) sncls ++ [] ∷ [] in
    (more, rw (f, a) (ap (λ l. some (l ∷ more)) e))

module _ {N D : Type 0} ⦃d : Double D⦄ (re : RegExp) (cal : Calendar) (m : Mxml N) (clock : Clock)
    (pf : Printf D) (steps : ℕ) (spline : Spline D) (w : Files) where
  process_cwd_files-nil :
      (run : Run D) (more : List (List Str))
      → process_cwd_files re cal m clock pf steps spline w run ([] ∷ more) ≡ (run, checked tt)
  unfolding process_list
  process_cwd_files-nil run more =
      process_cwd_files-first re cal m clock pf steps spline w run [] more
      ∙ ap (process_list re cal m clock pf steps spline w run)
          (repeated-nil (length run.filter.sncls))

  process_cwd-nil :
      (run : Run D) (s : Sncl) (sncls : List Sncl)
      → run.options.filename ≡ none
      → run.filter.sncls ≡ s ∷ sncls
      → names_here w s ≡ []
      → process_cwd re cal m clock pf steps spline w run ≡ (run, checked tt)
  unfolding process_cwd process_found
  process_cwd-nil run s sncls f e h =
      let (more, found) = find_files-none w run.options.filename run.filter.sncls s sncls f e h in
      ap (process_found re cal m clock pf steps spline w run) found ∙ process_cwd_files-nil run more

  process-cwd :
      (run : Run D)
      → run.options.use_stdio ≡ false
      → process re cal m clock pf steps spline w run
        ≡ process_cwd re cal m clock pf steps spline w run
  unfolding process
  process-cwd run u =
      ap
        (λ b.
          if b
          then process_stdio re cal m clock pf steps spline w run
          else process_cwd re cal m clock pf steps spline w run)
        u

  -- Without a file name and a standard input to read, evalresp_cwd_to_cwd reads through a NULL pointer
  -- where no file matches the first entry of the filter, whatever matches the others.
  pub evalresp_cwd_to_cwd-no_files :
      (o : Options D) (filter : Filter D) (s : Sncl) (sncls : List Sncl)
      → o.use_stdio ≡ false
      → o.filename ≡ none
      → filter.sncls ≡ s ∷ sncls
      → names_here w s ≡ []
      → evalresp_cwd_to_cwd re cal m clock pf steps spline w (some o) filter
        ≡ (record { stdout = []; files = [] }, undefined)
  unfolding evalresp_cwd_to_cwd print_run
  evalresp_cwd_to_cwd-no_files o filter s sncls u f e h =
      let run : Run D = record { responses = none; options = o; filter = filter } in
      ap
        (λ r.
          print_run re cal m clock pf steps spline w r.0 r.1 (record { stdout = []; files = [] }))
        (process-cwd run u ∙ process_cwd-nil run s sncls f e h)
