-- ===== src/StationXml/Print/Blockettes.antt =====
-- The functions of libsrc/evalresp/stationxml2resp/dom_to_seed.c that print the contents of a stage
-- as blockettes 53 to 62.
use evalresp.Prelude.{ℕ, suc, List, [], ◌∷◌, ◌++◌, length, if◌then◌else◌}
use evalresp.Prelude.Int.{ℤ, pos, eqb_ℤ}
use evalresp.CString.{Str, codes}
use evalresp.Checked.{Checked, checked, ◌>>=◌}
use evalresp.StationXml.{
  X2rFloat, X2rPoleZero, X2rUnits, X2rPolesZeros, X2rCoefficients, X2rResponseList, X2rFir,
  X2rPolynomial, X2rDecimation, X2rGain,
}
use evalresp.StationXml.Node.{Clock}
use evalresp.StationXml.Print.{
  Printf, ChannelPlace, show_nat, show_int, pad_left, pad_right, show_padded, lines, convert_tft,
  convert_symmetry, box,
}

-- "%s - %s" of units
show_units : X2rUnits → Str
show_units u = u.name ++ codes " - " ++ u.description

-- %6d
column_6 : Str → Str
column_6 s = pad_left 6 32 s

-- The lines that a loop prints, with the index from `i` on.
indexed_lines {ℓ} : {A : Type ℓ} → (ℕ → A → Str) → ℕ → List A → List Str
indexed_lines f i [] = []
indexed_lines f i (a ∷ rest) = f i a ∷ indexed_lines f (suc i) rest

-- Nothing where there is no element.
if_any {ℓ} : {A : Type ℓ} → List A → List Str → List Str
if_any [] texts = []
if_any (_ ∷ _) texts = texts

module _ {D : Type 0} (pf : Printf D) where
  -- %+9.5E
  abbrev pub e9 : D → Str
  e9 x = pf.double (codes "%+9.5E") x

  -- The values of a line, two spaces apart.
  abbrev e9_values : List D → Str
  e9_values [] = []
  e9_values (x ∷ xs) = codes "  " ++ e9 x ++ e9_values xs

  unfoldable pub print_pole_zero : Str → Str → List (X2rPoleZero D) → List Str
  unfolding indexed_lines if_any show_int column_6
  print_pole_zero tag name pole_zeros = if_any pole_zeros (
      (codes "#              Complex " ++ name ++ codes ":")
      ∷ codes "#              i  real          imag          real_error    imag_error"
      ∷ indexed_lines
          (λ i pz.
            tag
            ++ column_6 (show_int pz.number)
            ++ e9_values (
                pz.real.value ∷ pz.imaginary.value ∷ pz.real.minus_error ∷ pz.imaginary.minus_error
                ∷ []))
          0 pole_zeros)

  unfoldable pub print_coefficient : Str → Str → List (X2rFloat D) → List Str
  unfolding indexed_lines if_any show_nat column_6
  print_coefficient tag name values = if_any values (
      (codes "#              " ++ name ++ codes " coefficients:")
      ∷ codes "#              i  coefficient   error"
      ∷ indexed_lines
          (λ i cf. tag ++ column_6 (show_nat i) ++ e9_values (cf.value ∷ cf.minus_error ∷ [])) 0
          values)

module _ {D : Type 0} (clock : Clock) (pf : Printf D) (p : ChannelPlace D) where
  unfoldable pub print_poles_zeros : ℤ → X2rPolesZeros D → Checked Str
  unfolding box lines convert_tft show_int show_nat show_units print_pole_zero
  print_poles_zeros stage x = do
    title ← box clock (codes "Response (Poles and Zeros)") p
    checked (
        title
        ++ lines (
            (codes "B053F03     Transfer function type:                "
              ++ convert_tft x.pz_transfer_function_type)
            ∷ (codes "B053F04     Stage sequence number:                 " ++ show_int stage)
            ∷ (codes "B053F05     Response in units lookup:              "
                ++ show_units x.input_units)
            ∷ (codes "B053F06     Response out units lookup:             "
                ++ show_units x.output_units)
            ∷ (codes "B053F07     A0 normalization factor:               "
                ++ e9 pf x.normalization_factor)
            ∷ (codes "B053F08     Normalization frequency:               "
                ++ e9 pf x.normalization_frequency)
            ∷ (codes "B053F09     Number of zeroes:                      "
                ++ show_nat (length x.zeros))
            ∷ (codes "B053F14     Number of poles:                       "
                ++ show_nat (length x.poles))
            ∷ (print_pole_zero pf (codes "B053F10-13") (codes "zeroes") x.zeros
                ++ print_pole_zero pf (codes "B053F15-18") (codes "poles") x.poles)))

  unfoldable pub print_coefficients : ℤ → X2rCoefficients D → Checked Str
  unfolding box lines convert_tft show_int show_nat show_units print_coefficient
  print_coefficients stage x = do
    title ← box clock (codes "Response (Coefficients)") p
    checked (
        title
        ++ lines (
            (codes "B054F03     Transfer function type:                "
              ++ convert_tft x.cf_transfer_function_type)
            ∷ (codes "B054F04     Stage sequence number:                 " ++ show_int stage)
            ∷ (codes "B054F05     Response in units lookup:              "
                ++ show_units x.input_units)
            ∷ (codes "B054F06     Response out units lookup:             "
                ++ show_units x.output_units)
            ∷ (codes "B054F07     Number of numerators:                  "
                ++ show_nat (length x.numerators))
            ∷ (codes "B054F10     Number of denominators:                "
                ++ show_nat (length x.denominators))
            ∷ (print_coefficient pf (codes "B054F08-09") (codes "Numerator") x.numerators
                ++ print_coefficient pf (codes "B054F11-12") (codes "Denominator") x.denominators)))

  unfoldable pub print_response_list : ℤ → X2rResponseList D → Checked Str
  unfolding box lines show_int show_nat show_units indexed_lines if_any
  print_response_list stage x = do
    title ← box clock (codes "Response List") p
    checked (
        title
        ++ lines (
            (codes "B055F03     Stage sequence number:                 " ++ show_int stage)
            ∷ (codes "B055F04     Response in units lookup:              "
                ++ show_units x.input_units)
            ∷ (codes "B055F05     Response out units lookup:             "
                ++ show_units x.output_units)
            ∷ (codes "B055F06     Number of responses listed:            "
                ++ show_nat (length x.elements))
            ∷ if_any x.elements (
                codes
                  "#              i  frequency     amplitude     amplitude err phase angle   phase err"
                ∷ indexed_lines
                    (λ i elt.
                      codes "B055F07-11     "
                      ++ pad_right 4 (show_nat (suc i))
                      ++ e9 pf elt.frequency
                      ++ e9_values pf (
                          elt.amplitude.value ∷ elt.amplitude.minus_error ∷ elt.phase.value
                          ∷ elt.phase.minus_error ∷ []))
                    0 x.elements)))

  unfoldable pub print_fir : ℤ → X2rFir D → Checked Str
  unfolding box lines convert_symmetry show_int show_nat show_units indexed_lines if_any column_6
  print_fir stage x = do
    title ← box clock (codes "FIR Response") p
    checked (
        title
        ++ lines (
            (codes "B061F03     Stage sequence number:                 " ++ show_int stage)
            ∷ (codes "B061F04     Response Name:                         " ++ x.name)
            ∷ (codes "B061F05     Symmetry Code:                         "
                ++ convert_symmetry x.symmetry)
            ∷ (codes "B061F06     Response in units lookup:              "
                ++ show_units x.input_units)
            ∷ (codes "B061F07     Response out units lookup:             "
                ++ show_units x.output_units)
            ∷ (codes "B061F08     Number of Coefficients:                "
                ++ show_nat (length x.numerator_coefficients))
            ∷ if_any x.numerator_coefficients (
                codes "#              i  FIR Coefficient"
                ∷ indexed_lines
                    (λ i nc.
                      codes "B061F09" ++ column_6 (show_nat i) ++ e9_values pf (nc.value ∷ []))
                    0 x.numerator_coefficients)))

  unfoldable pub print_polynomial : ℤ → X2rPolynomial D → Checked Str
  unfolding box lines show_int show_nat show_units indexed_lines if_any column_6
  print_polynomial stage x = do
    title ← box clock (codes "Response (Polynomial)") p
    checked (
        title
        ++ lines (
            codes "B062F03     Transfer function type:                P"
            ∷ (codes "B062F04     Stage sequence number:                 " ++ show_int stage)
            ∷ (codes "B062F05     Response in units lookup:              "
                ++ show_units x.input_units)
            ∷ (codes "B062F06     Response out units lookup:             "
                ++ show_units x.output_units)
            ∷ codes "B062F07     Polynomial Approximation Type:         M"
            ∷ codes "B062F08     Valid Frequency Units:                 B"
            ∷ (codes "B062F09     Lower Valid Frequency Bound:           "
                ++ e9 pf x.frequency_lower_bound)
            ∷ (codes "B062F10     Upper Valid Frequency Bound:           "
                ++ e9 pf x.frequency_upper_bound)
            ∷ (codes "B062F11     Lower Bound of Approximation:          "
                ++ e9 pf x.approximation_lower_bound)
            ∷ (codes "B062F12     Upper Bound of Approximation:          "
                ++ e9 pf x.approximation_upper_bound)
            ∷ (codes "B062F13     Maximum Absolute Error:                " ++ e9 pf x.maximum_error)
            ∷ (codes "B062F14     Number of Coefficients:                "
                ++ show_nat (length x.coefficients))
            ∷ if_any x.coefficients (
                codes "#              Polynomial coefficients:"
                ∷ codes "#              i, coefficient,  error"
                ∷ indexed_lines
                    (λ i cf.
                      codes "B062F15-16"
                      ++ column_6 (show_int cf.number)
                      ++ codes " "
                      ++ e9_values pf (cf.value.value ∷ cf.value.minus_error ∷ []))
                    0 x.coefficients)))

  unfoldable pub print_decimation : ℤ → X2rDecimation D → Checked Str
  unfolding box lines show_int show_padded
  print_decimation stage x = do
    title ← box clock (codes "Decimation") p
    let factor : Str = if eqb_ℤ x.factor (pos 0) then show_int x.factor else show_padded 5 x.factor
    checked (
        title
        ++ lines (
            (codes "B057F03     Stage sequence number:                  " ++ show_int stage)
            ∷ (codes "B057F04     Input sample rate (HZ):                 "
                ++ pf.double (codes "%8.4E") x.input_sample_rate)
            ∷ (codes "B057F05     Decimation factor:                      " ++ factor)
            ∷ (codes "B057F06     Decimation offset:                      "
                ++ show_padded 5 x.offset)
            ∷ (codes "B057F07     Estimated delay (seconds):             "
                ++ pf.double (codes "%+8.4E") x.delay)
            ∷ (codes "B057F08     Correction applied (seconds):          "
                ++ pf.double (codes "%+8.4E") x.correction)
            ∷ []))

  unfoldable pub print_stage_gain : ℤ → X2rGain D → Checked Str
  unfolding box lines show_int
  print_stage_gain stage x = do
    title ← box clock (codes " Channel Sensitivity/Gain") p
    checked (
        title
        ++ lines (
            (codes "B058F03     Stage sequence number:                 " ++ show_int stage)
            ∷ (codes "B058F04     Sensitivity:                           " ++ e9 pf x.value)
            ∷ (codes "B058F05     Frequency of sensitivity:              " ++ e9 pf x.frequency)
            ∷ codes "B058F06     Number of calibrations:                0"
            ∷ []))
