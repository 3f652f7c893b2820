-- ===== src/Driver/Output.antt =====
-- evalresp_response_to_char and its callers of libsrc/evalresp/output.c, and print_file and
-- responses_to_cwd of libsrc/evalresp/highlevel.c.
use evalresp.Prelude.{
  ℕ, zero, suc, Bool, Option, none, some, List, [], ◌∷◌, ◌++◌, map, if◌then◌else◌,
}
use evalresp.Prelude.Int.{pos, negsuc}
use evalresp.CString.{Str, codes}
use evalresp.Status.{io, err}
use evalresp.Checked.{Checked, checked, failed, undefined, ◌>>=◌}
use evalresp.Double.{Double}
use evalresp.Channel.{Complex}
use evalresp.Options.{OutputFormat, ap_format, fap_format, complex_format}
use evalresp.Calc.Phase.{unwrap_phase}
use evalresp.Evaluation.{Response}
use evalresp.StationXml.Print.{Printf}
use evalresp.Driver.Search.{Files}

-- evalresp_file_format
pub data FileFormat : Type 0 where
  fap_file amplitude_file phase_file complex_file : FileFormat

-- What follows a step, where it succeeds.
unfoldable pub go_on_ok :
    {A : Type 0} → A × Checked (Unit {0}) → (A → A × Checked (Unit {0})) → A × Checked (Unit {0})
go_on_ok (a, checked u) next = next a
go_on_ok (a, failed status) next = (a, failed status)
go_on_ok (a, undefined) next = (a, undefined)

-- What is printed on the standard output, and the files that are written, with their names.
pub record Written : Type 0 where
  pub stdout : Str
  pub files : List (Str × Str)

module _ {D : Type 0} ⦃d : Double D⦄ where
  unfoldable pub amplitude : Complex D → D
  amplitude z = d.sqrt (d.add (d.mul z.real z.real) (d.mul z.imag z.imag))

  -- In degrees.
  unfoldable pub phase_angle : Complex D → D
  phase_angle z =
      d.div
        (d.mul (d.atan2 z.imag (d.add z.real (d.decimal (pos 1) (negsuc 199))))
          (d.decimal (pos 180) (pos 0)))
        d.pi

  -- The two loops that force the first phase to [0, 360). They need not end in floating point: `steps`
  -- is the number of rounds that are looked at.
  unfoldable pub raise : ℕ → D → D → Checked D
  raise zero phase added = undefined
  raise (suc steps) phase added =
      let more = raise steps phase (d.add added (d.of_int (pos 360))) in
      if d.lt (d.add phase added) (d.of_int (pos 0)) then more else checked added

  unfoldable pub lower : ℕ → D → D → Checked D
  lower zero phase added = undefined
  lower (suc steps) phase added =
      let more = lower steps phase (d.sub added (d.of_int (pos 360))) in
      if d.le (d.of_int (pos 360)) (d.add phase added) then more else checked added

  unfoldable pub unwrap_from : D → D → List D → List D
  unfolding unwrap_phase
  unwrap_from prev_phase added_value [] = []
  unwrap_from prev_phase added_value (p ∷ rest) =
      let (new, added) = unwrap_phase p prev_phase (d.of_int (pos 360)) added_value in
      new ∷ unwrap_from new added rest

  unfoldable pub unwrap_phases : ℕ → List D → Checked (List D)
  unfolding raise lower unwrap_from
  unwrap_phases steps [] = checked []
  unwrap_phases steps (p ∷ rest) = do
    up ← raise steps p (d.of_int (pos 0))
    down ← lower steps p up
    checked (unwrap_from (d.add p down) down (p ∷ rest))

  -- The phases, unwrapped where that is asked for.
  unfoldable pub phases_of : ℕ → Bool → List (Complex D) → Checked (List D)
  unfolding phase_angle unwrap_phases
  phases_of steps unwrap rvec =
      let phases = map phase_angle rvec in
      if unwrap then unwrap_phases steps phases else checked phases

module _ {D : Type 0} ⦃d : Double D⦄ (pf : Printf D) where
  -- "%.6E"
  number : D → Str
  number a = pf.double (codes "%.6E") a

  -- A line of two numbers for each frequency.
  unfoldable pub pair_lines : List D → List D → Checked Str
  unfolding number
  pair_lines [] values = checked []
  pair_lines (f ∷ freqs) [] = undefined
  pair_lines (f ∷ freqs) (a ∷ values) = do
    rest ← pair_lines freqs values
    checked (number f ++ codes " " ++ number a ++ codes "\n" ++ rest)

  -- A line of three numbers for each frequency, with what stands between them.
  unfoldable pub triple_lines : Str → List D → List D → List D → Checked Str
  unfolding number
  triple_lines gap [] xs ys = checked []
  triple_lines gap (f ∷ freqs) (x ∷ xs) (y ∷ ys) = do
    rest ← triple_lines gap freqs xs ys
    checked (number f ++ gap ++ number x ++ gap ++ number y ++ codes "\n" ++ rest)
  triple_lines gap (f ∷ freqs) _ _ = undefined

  -- The text, for a response that is not NULL. `steps` is as above.
  unfoldable pub evalresp_response_to_char :
      ℕ → Option (Response D) → Bool → FileFormat → Checked Str
  unfolding pair_lines triple_lines phases_of amplitude
  evalresp_response_to_char steps none unwrap format = failed err
  evalresp_response_to_char steps (some r) unwrap fap_file = do
    phases ← phases_of steps unwrap r.rvec
    triple_lines (codes " ") r.freqs (map amplitude r.rvec) phases
  evalresp_response_to_char steps (some r) unwrap amplitude_file =
      pair_lines r.freqs (map amplitude r.rvec)
  evalresp_response_to_char steps (some r) unwrap phase_file = do
    phases ← phases_of steps unwrap r.rvec
    pair_lines r.freqs phases
  evalresp_response_to_char steps (some r) unwrap complex_file =
      triple_lines (codes "  ") r.freqs (map (λ z. z.real) r.rvec) (map (λ z. z.imag) r.rvec)

-- fprintf (stdout, ...)
unfoldable pub put_stdout : Str → Written → Written
put_stdout text w = record w { stdout = w.stdout ++ text }

-- fopen (..., "w"): a file that is empty, and stands before the others. It is the one of its name.
unfoldable pub create_file : Str → Written → Written
create_file name w = record w { files = (name, []) ∷ w.files }

append_first : Str → List (Str × Str) → List (Str × Str)
append_first text [] = []
append_first text ((name, old) ∷ files) = (name, old ++ text) ∷ files

-- On the file that was opened last.
unfoldable pub put_file : Str → Written → Written
unfolding append_first
put_file text w = record w { files = append_first text w.files }

-- " ---...---\n", fifty dashes
rule : Str
rule = codes " --------------------------------------------------\n"

-- The text in `out`, where there is one.
unfoldable pub put_text :
    (Str → Written → Written) → Checked Str → Written → Written × Checked (Unit {0})
put_text put (checked text) w = (put text w, checked tt)
put_text put (failed status) w = (w, failed status)
put_text put undefined w = (w, undefined)

unfoldable pub prefix_of : Bool → FileFormat → Str
prefix_of use_stdio fap_file = if use_stdio then codes "AMP/PHS" else codes "FAP"
prefix_of use_stdio amplitude_file = codes "AMP"
prefix_of use_stdio phase_file = codes "PHASE"
prefix_of use_stdio complex_file = codes "SPECTRA"

-- FILENAME_TEMPLATE
unfoldable pub filename_of : {D : Type 0} → Bool → FileFormat → Response D → Str
unfolding prefix_of
filename_of use_stdio format r =
    prefix_of use_stdio format
    ++ codes "."
    ++ r.network
    ++ codes "."
    ++ r.station
    ++ codes "."
    ++ r.locid
    ++ codes "."
    ++ r.channel

module _ {D : Type 0} ⦃d : Double D⦄ (pf : Printf D) (steps : ℕ) (fs : Files) where
  -- On a stream that is open, which takes what is written.
  unfoldable pub evalresp_response_to_stream :
      (Str → Written → Written)
      → Option (Response D)
      → Bool
      → FileFormat
      → Written
      → Written × Checked (Unit {0})
  unfolding evalresp_response_to_char put_text
  evalresp_response_to_stream put r unwrap format w =
      put_text put (evalresp_response_to_char pf steps r unwrap format) w

  -- The file is there, and empty, also where there is no text for it.
  unfoldable pub evalresp_response_to_file :
      Option (Response D) → Bool → FileFormat → Option Str → Written → Written × Checked (Unit {0})
  unfolding evalresp_response_to_stream put_file create_file
  evalresp_response_to_file r unwrap format none w = (w, failed err)
  evalresp_response_to_file r unwrap format (some name) w =
      if fs.writable name
      then evalresp_response_to_stream put_file r unwrap format (create_file name w)
      else (w, failed io)

  unfoldable pub print_file :
      Bool → FileFormat → Bool → Response D → Written → Written × Checked (Unit {0})
  unfolding evalresp_response_to_file evalresp_response_to_stream filename_of put_stdout rule
  print_file unwrap format use_stdio r w =
      let filename = filename_of use_stdio format r in
      let headed = put_stdout (rule ++ codes " " ++ filename ++ codes "\n" ++ rule) w in
      let (w', result) = evalresp_response_to_stream put_stdout (some r) unwrap format headed in
      if use_stdio
      then (put_stdout rule w', result)
      else evalresp_response_to_file (some r) unwrap format (some filename) w

  -- The files of a response, by the format of the options.
  unfoldable pub print_formats :
      Bool → OutputFormat → Bool → Response D → Written → Written × Checked (Unit {0})
  unfolding print_file go_on_ok
  print_formats unwrap fap_format use_stdio r w = print_file unwrap fap_file use_stdio r w
  print_formats unwrap ap_format use_stdio r w =
      go_on_ok (print_file unwrap amplitude_file use_stdio r w)
        (λ w'. print_file unwrap phase_file use_stdio r w')
  print_formats unwrap complex_format use_stdio r w = print_file unwrap complex_file use_stdio r w

  unfoldable pub responses_to_cwd :
      List (Response D) → Bool → OutputFormat → Bool → Written → Written × Checked (Unit {0})
  unfolding print_formats go_on_ok
  responses_to_cwd [] unwrap output use_stdio w = (w, checked tt)
  responses_to_cwd (r ∷ rs) unwrap output use_stdio w =
      go_on_ok (print_formats unwrap output use_stdio r w)
        (λ w'. responses_to_cwd rs unwrap output use_stdio w')
