-- ===== src/Driver/Listed.antt =====
-- Which files process_cwd_files of libsrc/evalresp/highlevel.c reads.
use evalresp.Prelude.{ℕ, zero, suc, ◌≡◌, refl, sym, ◌∙◌, List, [], ◌∷◌, ◌++◌, length}
use evalresp.CString.{Str}
use evalresp.Checked.{Checked, checked, failed, undefined}
use evalresp.RegExp.{RegExp}
use evalresp.Double.{Double}
use evalresp.DateTime.{Calendar}
use evalresp.Filter.{Sncl}
use evalresp.Evaluation.Interpolate.{Spline}
use evalresp.StationXml.Node.{Mxml, Clock}
use evalresp.StationXml.Print.{Printf}
use evalresp.Driver.Search.{Files}
use evalresp.Driver.Output.{go_on_ok}
use evalresp.Driver.{Run, process_file, process_list, process_sncls, process_cwd_files}

-- A list, `n` times over.
pub repeated : {A : Type 0} → ℕ → List A → List A
repeated zero xs = []
repeated (suc n) xs = xs ++ repeated n xs

pub repeated-nil : {A : Type 0} (n : ℕ) → repeated {A = A} n [] ≡ []
unfolding repeated
repeated-nil zero = refl
repeated-nil (suc n) = repeated-nil n

go_on_ok_assoc :
    {A : Type 0} (p : A × Checked (Unit {0})) (f g : A → A × Checked (Unit {0}))
    → go_on_ok (go_on_ok p f) g ≡ go_on_ok p (λ a. go_on_ok (f a) g)
unfolding go_on_ok
go_on_ok_assoc (a, checked u) f g = refl
go_on_ok_assoc (a, failed status) f g = refl
go_on_ok_assoc (a, undefined) f g = refl

go_on_ok_ext :
    {A : Type 0} (p : A × Checked (Unit {0})) (f g : A → A × Checked (Unit {0}))
    → ((a : A) → f a ≡ g a)
    → go_on_ok p f ≡ go_on_ok p g
unfolding go_on_ok
go_on_ok_ext (a, checked u) f g h = h a
go_on_ok_ext (a, failed status) f g h = refl
go_on_ok_ext (a, undefined) f g h = refl

module _ {N D : Type 0} ⦃d : Double D⦄ (re : RegExp) (cal : Calendar) (m : Mxml N) (clock : Clock)
    (pf : Printf D) (steps : ℕ) (spline : Spline D) (w : Files) where
  process_list_append :
      (run : Run D) (xs ys : List Str)
      → process_list re cal m clock pf steps spline w run (xs ++ ys)
        ≡ go_on_ok
            (process_list re cal m clock pf steps spline w run xs)
            (λ run'. process_list re cal m clock pf steps spline w run' ys)
  unfolding process_list go_on_ok
  process_list_append run [] ys = refl
  process_list_append run (x ∷ xs) ys =
      go_on_ok_ext (process_file re cal m clock pf steps spline w run x) _ _
        (λ run'. process_list_append run' xs ys)
      ∙ sym (go_on_ok_assoc (process_file re cal m clock pf steps spline w run x) _ _)

  process_sncls_lem :
      (sncls : List Sncl) (run : Run D) (names : List Str)
      → process_sncls re cal m clock pf steps spline w sncls run names
        ≡ process_list re cal m clock pf steps spline w run (repeated (length sncls) names)
  unfolding process_sncls repeated process_list
  process_sncls_lem [] run names = refl
  process_sncls_lem (s ∷ sncls) run names =
      go_on_ok_ext (process_list re cal m clock pf steps spline w run names) _ _
        (λ run'. process_sncls_lem sncls run' names)
      ∙ sym (process_list_append run names (repeated (length sncls) names))

  -- Of the lists of files that find_files gives, process_cwd_files reads the first one only, as often
  -- as the filter has entries, and ends with the first file that fails.
  pub process_cwd_files-first :
      (run : Run D) (first : List Str) (more : List (List Str))
      → process_cwd_files re cal m clock pf steps spline w run (first ∷ more)
        ≡ process_list re cal m clock pf steps spline w run
            (repeated (length run.filter.sncls) first)
  unfolding process_cwd_files
  process_cwd_files-first run first more = process_sncls_lem run.filter.sncls run first
