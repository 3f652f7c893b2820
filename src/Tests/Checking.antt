-- ===== src/Tests/Checking.antt =====
-- Merging and checking of stages.
use evalresp.Prelude.{◌≡◌, refl, [], ◌∷◌}
use evalresp.Prelude.Int.{ℤ, pos, ◌+ℤ◌, ◌-ℤ◌}
use evalresp.Channel.{asym, Fir}
use evalresp.Merge.{normalized, check_symmetry}
use evalresp.Merge.Symmetry.{AllEq, weights, check_symmetry-weights}
use evalresp.Tests.Whole.{whole}

-- Three weights whose sum is 1.
abbrev three : Fir ℤ
three = record { coeffs = pos 0 ∷ pos 1 ∷ pos 0 ∷ []; h0 = pos 1 }

folded_three : (check_symmetry asym three).1.coeffs ≡ pos 0 ∷ pos 1 ∷ []
unfolding check_symmetry ◌+ℤ◌ ◌-ℤ◌
folded_three = refl

check_symmetry-weights_example :
    AllEq
      (normalized three.coeffs)
      (weights (check_symmetry asym three).0 (check_symmetry asym three).1.coeffs)
unfolding normalized ◌+ℤ◌ ◌-ℤ◌
check_symmetry-weights_example = check_symmetry-weights three (refl, (refl, (refl, tt)))
