-- ===== src/Driver.antt =====
-- The drivers of libsrc/evalresp/highlevel.c: from file names and filters to responses in files.
pub mod Search
pub mod Output
pub mod Listed
pub mod Missing
pub mod Printed
use evalresp.Prelude.{
  ℕ, zero, suc, Bool, true, false, ◌||◌, Option, none, some, List, [], ◌∷◌, ◌++◌, if◌then◌else◌,
  length,
}
use evalresp.CString.{Str, codes, is_empty}
use evalresp.Checked.{Checked, checked, failed, undefined}
use evalresp.RegExp.{RegExp}
use evalresp.Double.{Double}
use evalresp.DateTime.{Calendar}
use evalresp.Filter.{Filter, Sncl}
use evalresp.Channel.{Channel}
use evalresp.Selection.{Selected}
use evalresp.Options.{Options, OutputFormat, fap_format, evalresp_new_options}
use evalresp.Evaluation.{
  Response, Evaluated, evalresp_channel_to_response, evalresp_channels_to_responses,
}
use evalresp.Evaluation.Interpolate.{Spline}
use evalresp.Input.File.{evalresp_file_to_channels, evalresp_filename_to_channels}
use evalresp.StationXml.Node.{Mxml, Clock}
use evalresp.StationXml.Print.{Printf}
use evalresp.Driver.Search.{Files, find_files}
use evalresp.Driver.Output.{Written, go_on_ok, responses_to_cwd}

-- *responses, the options and the filter with its counters, as the calls leave them. `responses` is
-- none while the pointer is NULL.
pub record Run (D : Type 0) : Type 0 where
  pub responses : Option (List (Response D))
  pub options : Options D
  pub filter : Filter D

-- realloc of *responses
unfoldable pub add_to : {A : Type 0} → Option (List A) → List A → Option (List A)
add_to none rs = some rs
add_to (some old) rs = some (old ++ rs)

-- format == evalresp_fap_output_format
is_fap : OutputFormat → Bool
is_fap fap_format = true
is_fap _ = false

module _ {N D : Type 0} ⦃d : Double D⦄ (re : RegExp) (cal : Calendar) (m : Mxml N) (clock : Clock)
    (pf : Printf D) (steps : ℕ) (spline : Spline D) (w : Files) where
  -- The options behind evalresp_channels_to_responses.
  unfoldable pub options_after : Options D → List (Channel D) → Options D
  unfolding evalresp_channel_to_response
  options_after o [] = o
  options_after o (c ∷ cs) = elim (evalresp_channel_to_response steps spline (some o) c) [
    | checked e ↦ options_after e.options cs
    | failed status ↦ o
    | undefined ↦ o
  ]

  -- evalresp_channels_to_responses on what a call for channels has given.
  unfoldable pub respond_to : Run D → Checked (Selected D) → Run D × Checked (Unit {0})
  unfolding evalresp_channels_to_responses options_after add_to
  respond_to run (failed status) = (run, failed status)
  respond_to run undefined = (run, undefined)
  respond_to run (checked sel) =
      let (rs, r) = evalresp_channels_to_responses steps spline run.options sel.channels_out in
      (
        record run {
          responses = add_to run.responses rs;
          options = options_after run.options sel.channels_out;
          filter = elim sel.filter [ none ↦ run.filter | some f ↦ f ];
        },
        r,
      )

  unfoldable pub process_stdio : Run D → Run D × Checked (Unit {0})
  unfolding respond_to evalresp_file_to_channels
  process_stdio run =
      respond_to run (evalresp_file_to_channels re cal (some run.options) (some run.filter) w.stdin)

  unfoldable pub process_file : Run D → Str → Run D × Checked (Unit {0})
  unfolding respond_to evalresp_filename_to_channels
  process_file run filename = respond_to run (
      evalresp_filename_to_channels re cal m clock pf (some run.options) (some run.filter)
        (w.contents filename))

  -- The loop over the files of one list.
  unfoldable pub process_list : Run D → List Str → Run D × Checked (Unit {0})
  unfolding process_file go_on_ok
  process_list run [] = (run, checked tt)
  process_list run (name ∷ names) =
      go_on_ok (process_file run name) (λ run'. process_list run' names)

  -- The loop over the entries of the filter. Each round makes a filter of its entry, and does not use
  -- it; and it starts from the files of the first entry, not from its own.
  unfoldable pub process_sncls : List Sncl → Run D → List Str → Run D × Checked (Unit {0})
  unfolding process_list go_on_ok
  process_sncls [] run first_list = (run, checked tt)
  process_sncls (sncl ∷ sncls) run first_list =
      go_on_ok (process_list run first_list) (λ run'. process_sncls sncls run' first_list)

  -- files->first_list
  unfoldable pub process_cwd_files : Run D → List (List Str) → Run D × Checked (Unit {0})
  unfolding process_sncls
  process_cwd_files run [] = process_sncls run.filter.sncls run []
  process_cwd_files run (first_list ∷ more) = process_sncls run.filter.sncls run first_list

  -- The switch on the mode, which is 0 where find_files gives none.
  unfoldable pub process_found : Run D → Option (List (List Str)) → Run D × Checked (Unit {0})
  unfolding process_file process_cwd_files
  process_found run none = elim run.options.filename [
    | none ↦ (run, undefined)
    | some filename ↦ process_file run filename
  ]
  process_found run (some files) = process_cwd_files run files

  unfoldable pub process_cwd : Run D → Run D × Checked (Unit {0})
  unfolding find_files process_found
  process_cwd run = process_found run (find_files w run.options.filename run.filter.sncls)

  unfoldable pub process : Run D → Run D × Checked (Unit {0})
  unfolding process_stdio process_cwd
  process run = if run.options.use_stdio then process_stdio run else process_cwd run

  -- The responses where there are any: NULL is read where there are none.
  unfoldable pub print_run : Run D → Checked (Unit {0}) → Written → Written × Checked (Unit {0})
  unfolding responses_to_cwd is_fap
  print_run run (failed status) out = (out, failed status)
  print_run run undefined out = (out, undefined)
  print_run run (checked u) out = elim run.responses [
    | none ↦ (out, undefined)
    | some rs ↦
        let o = run.options in
        responses_to_cwd pf steps w rs (o.unwrap_phase || is_fap o.format) o.format o.use_stdio out
  ]

  -- The process of the options, and what it writes.
  unfoldable pub evalresp_cwd_to_cwd : Option (Options D) → Filter D → Written × Checked (Unit {0})
  unfolding process print_run evalresp_new_options
  evalresp_cwd_to_cwd o filter =
      let options : Options D = elim o [ none ↦ evalresp_new_options | some given ↦ given ] in
      let run : Run D = record { responses = none; options = options; filter = filter } in
      let (run', result) = process run in print_run run' result (record { stdout = []; files = [] })
