-- ===== src/Driver/Printed.antt =====
-- The files that responses_to_cwd of libsrc/evalresp/highlevel.c writes.
use evalresp.Prelude.{
  ℕ, ◌≡◌, refl, ◌∙◌, Bool, true, false, if◌then◌else◌, some, List, [], ◌∷◌, ◌++◌,
}
use evalresp.CString.{Str}
use evalresp.Status.{io}
use evalresp.Checked.{Checked, checked, failed, undefined}
use evalresp.Double.{Double}
use evalresp.Options.{OutputFormat, ap_format, fap_format, complex_format}
use evalresp.Evaluation.{Response}
use evalresp.StationXml.Print.{Printf}
use evalresp.Driver.Search.{Files}
use evalresp.Driver.Output.{
  FileFormat, amplitude_file, phase_file, fap_file, complex_file, Written, filename_of, put_file,
  create_file, put_text, go_on_ok, evalresp_response_to_char, evalresp_response_to_stream,
  evalresp_response_to_file, print_file, print_formats, responses_to_cwd,
}

-- The files of a response, in the order in which they are written.
pub files_of : OutputFormat → List FileFormat
files_of fap_format = fap_file ∷ []
files_of ap_format = amplitude_file ∷ phase_file ∷ []
files_of complex_format = complex_file ∷ []

each_file : {D : Type 0} → Response D → List FileFormat → List (Response D × FileFormat)
each_file r [] = []
each_file r (f ∷ fs) = (r, f) ∷ each_file r fs

pub all_files : {D : Type 0} → OutputFormat → List (Response D) → List (Response D × FileFormat)
unfolding files_of each_file
all_files output [] = []
all_files output (r ∷ rs) = each_file r (files_of output) ++ all_files output rs

module _ {D : Type 0} ⦃d : Double D⦄ (pf : Printf D) (steps : ℕ) (unwrap : Bool) where
  -- Files with the name and the text of each response, put before the files there.
  pub data Writes
      : List (Response D × FileFormat) → List (Str × Str) → List (Str × Str) → Type 0 where
    written : {fs : List (Str × Str)} → Writes [] fs fs
    write :
        {r : Response D} {f : FileFormat} {rest : List (Response D × FileFormat)} {text : Str}
        {fs out : List (Str × Str)}
        → evalresp_response_to_char pf steps (some r) unwrap f ≡ checked text
        → Writes rest ((filename_of false f r, text) ∷ fs) out
        → Writes ((r, f) ∷ rest) fs out

  Writes-append :
      {xs ys : List (Response D × FileFormat)} {a b c : List (Str × Str)}
      → Writes xs a b
      → Writes ys b c
      → Writes (xs ++ ys) a c
  Writes-append written k = k
  Writes-append (write e h) k = write e (Writes-append h k)

  -- A step from `out` that succeeds has written these files, and nothing on the standard output.
  DoneWith : List (Response D × FileFormat) → Written → Written × Checked (Unit {0}) → Type 0
  DoneWith xs out p = p.1 ≡ checked tt → (p.0.stdout ≡ out.stdout) × Writes xs out.files p.0.files

  put_text-DoneWith :
      (r : Response D) (f : FileFormat) (out : Written) (text : Checked Str)
      → evalresp_response_to_char pf steps (some r) unwrap f ≡ text
      → DoneWith
          ((r, f) ∷ [])
          out
          (put_text put_file text (create_file (filename_of false f r) out))
  unfolding put_text put_file create_file DoneWith
  put_text-DoneWith r f out (checked text) e h = (refl, write e written)
  put_text-DoneWith r f out (failed status) e h = absurd (cc)
  put_text-DoneWith r f out undefined e h = absurd (cc)

  go_on_ok-DoneWith :
      (xs ys : List (Response D × FileFormat)) (out : Written) (p : Written × Checked (Unit {0}))
      (next : Written → Written × Checked (Unit {0}))
      → DoneWith xs out p
      → ((out' : Written) → DoneWith ys out' (next out'))
      → DoneWith (xs ++ ys) out (go_on_ok p next)
  unfolding go_on_ok DoneWith
  go_on_ok-DoneWith xs ys out (a, checked tt) next h k e =
      let (s, w) = h refl in let (s', w') = k a e in (s' ∙ s, Writes-append w w')
  go_on_ok-DoneWith xs ys out (a, failed status) next h k e = absurd (cc)
  go_on_ok-DoneWith xs ys out (a, undefined) next h k e = absurd (cc)

  module _ (w : Files) where
    opened-DoneWith :
        (f : FileFormat) (r : Response D) (out : Written) (b : Bool)
        → DoneWith ((r, f) ∷ []) out (
            if b
            then put_text put_file
                (evalresp_response_to_char pf steps (some r) unwrap f)
                (create_file (filename_of false f r) out)
            else (out, failed io))
    unfolding DoneWith
    opened-DoneWith f r out true = put_text-DoneWith r f out _ refl
    opened-DoneWith f r out false = λ h. absurd (cc)

    print_file-DoneWith :
        (f : FileFormat) (r : Response D) (out : Written)
        → DoneWith ((r, f) ∷ []) out (print_file pf steps w unwrap f false r out)
    unfolding print_file evalresp_response_to_file evalresp_response_to_stream
    print_file-DoneWith f r out = opened-DoneWith f r out (w.writable (filename_of false f r))

    print_formats-DoneWith :
        (output : OutputFormat) (r : Response D) (out : Written)
        → DoneWith
            (each_file r (files_of output))
            out
            (print_formats pf steps w unwrap output false r out)
    unfolding print_formats files_of each_file
    print_formats-DoneWith fap_format r out = print_file-DoneWith fap_file r out
    print_formats-DoneWith ap_format r out =
        go_on_ok-DoneWith _ _ out _ _ (print_file-DoneWith amplitude_file r out)
          (print_file-DoneWith phase_file r)
    print_formats-DoneWith complex_format r out = print_file-DoneWith complex_file r out

    responses_to_cwd-DoneWith :
        (rs : List (Response D)) (output : OutputFormat) (out : Written)
        → DoneWith
            (all_files output rs)
            out
            (responses_to_cwd pf steps w rs unwrap output false out)
    unfolding responses_to_cwd all_files DoneWith
    responses_to_cwd-DoneWith [] output out = λ h. (refl, written)
    responses_to_cwd-DoneWith (r ∷ rs) output out =
        go_on_ok-DoneWith _ _ out _ _ (print_formats-DoneWith output r out)
          (responses_to_cwd-DoneWith rs output)

    -- Where responses_to_cwd succeeds without the standard output, it has written the files of each
    -- response in order, one for each column format of the output format, with the name of the response
    -- and the text of evalresp_response_to_char, and nothing on the standard output.
    pub responses_to_cwd-Writes :
        (rs : List (Response D)) (output : OutputFormat) (out : Written)
        → (responses_to_cwd pf steps w rs unwrap output false out).1 ≡ checked tt
        → ((responses_to_cwd pf steps w rs unwrap output false out).0.stdout ≡ out.stdout)
          × Writes
              (all_files output rs)
              out.files
              (responses_to_cwd pf steps w rs unwrap output false out).0.files
    unfolding DoneWith
    responses_to_cwd-Writes rs output out h = responses_to_cwd-DoneWith rs output out h
