-- ===== src/Tests/Spacing.antt =====
-- The frequencies of a response.
use evalresp.Prelude.{◌≡◌, refl, true, false, not, ◌||◌, [], ◌∷◌, if◌then◌else◌, length}
use evalresp.Prelude.Int.{ℤ, pos, ltb_ℤ}
use evalresp.Status.{inp, ok, is_ok}
use evalresp.CString.{is_empty}
use evalresp.Options.{Options, evalresp_new_options}
use evalresp.Frequencies.{
  validate_freqs, calculate_default_freqs, restrict_frequency_range, drop_while,
}
use evalresp.Frequencies.Limits.{validate_freqs-ok, calculate_default_freqs-length}
use evalresp.Frequencies.Range.{Between, restrict_frequency_range-Between}
use evalresp.Tests.Whole.{whole, whole-IsOrdered}

-- Three frequencies from 1 to 5, with the limits the wrong way round.
abbrev linear : Options ℤ
linear = record evalresp_new_options {
  min_freq = pos 5;
  max_freq = pos 1;
  nfreq = pos 3;
  lin_freq = true;
}

swapped_limits : (validate_freqs linear).1.max_freq ≡ pos 5
unfolding validate_freqs
swapped_limits = refl

validate_freqs-ok_example :
    (ltb_ℤ (validate_freqs linear).1.max_freq (validate_freqs linear).1.min_freq ≡ false)
    × (ltb_ℤ (validate_freqs linear).1.nfreq (pos 1) ≡ false)
    × ((validate_freqs linear).1.lin_freq
          || not (whole.eq (validate_freqs linear).1.min_freq (pos 0))
        ≡ true)
unfolding validate_freqs is_ok
validate_freqs-ok_example = validate_freqs-ok whole-IsOrdered linear refl

calculate_default_freqs-length_example :
    (pos (length (calculate_default_freqs linear).2) ≡ pos 3) × (ltb_ℤ (pos 3) (pos 1) ≡ false)
unfolding calculate_default_freqs
calculate_default_freqs-length_example = calculate_default_freqs-length whole-IsOrdered linear refl

restricted : (restrict_frequency_range (pos 2) (pos 4) (pos 1 ∷ pos 3 ∷ pos 5 ∷ [])).1 ≡ pos 3 ∷ []
unfolding restrict_frequency_range drop_while
restricted = refl

restrict_frequency_range-Between_example :
    let r = restrict_frequency_range (pos 2) (pos 4) (pos 1 ∷ pos 3 ∷ pos 5 ∷ []) in
    Between (pos 2) (pos 4) (pos 1 ∷ pos 3 ∷ pos 5 ∷ []) r.1
    × (r.0 ≡ (if is_empty r.1 then inp else ok))
restrict_frequency_range-Between_example =
    restrict_frequency_range-Between (pos 2) (pos 4) (pos 1 ∷ pos 3 ∷ pos 5 ∷ [])
