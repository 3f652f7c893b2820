-- ===== src/Evaluation/Cubic.antt =====
-- spline_interpolate of libsrc/evalresp/spline.c, on the interface of the spline library that it calls.
use evalresp.Prelude.{◌≡◌, Option, none, some, List, map, length}
use evalresp.Status.{err}
use evalresp.Checked.{Checked, checked, failed, Ensures}
use evalresp.Evaluation.Interpolate.{Spline}
use evalresp.Evaluation.Lengths.{length-map}

-- spline_cubic_set with the ends of spline_interpolate, none where it gives NULL, and the value of
-- spline_cubic_val.
pub record Cubic (D : Type 0) : Type 0 where
  pub set : List D → List D → Option (List D)
  pub val : List D → List D → List D → D → D

module _ {D : Type 0} (cubic : Cubic D) where
  -- The loop over the new abscissas, with the second derivatives, where there are any.
  unfoldable pub values_at : List D → List D → List D → Option (List D) → Checked (List D)
  values_at t y xvals none = failed err
  values_at t y xvals (some ypp) = checked (map (cubic.val t y ypp) xvals)

  unfoldable pub spline_interpolate : Spline D
  unfolding values_at
  spline_interpolate t y xvals = values_at t y xvals (cubic.set t y)

  -- A value for each abscissa.
  length-values_at :
      (t y xvals : List D) (ypp : Option (List D))
      → Ensures (λ ys. length ys ≡ length xvals) (values_at t y xvals ypp)
  unfolding values_at
  length-values_at t y xvals none = tt
  length-values_at t y xvals (some ypp) = length-map (cubic.val t y ypp) xvals

  length-spline_interpolate :
      (t y xvals : List D) → Ensures (λ ys. length ys ≡ length xvals) (spline_interpolate t y xvals)
  unfolding spline_interpolate
  length-spline_interpolate t y xvals = length-values_at t y xvals (cubic.set t y)
