-- ===== src/StationXml/Content.antt =====
-- The parsers of the contents of a stage in libsrc/evalresp/stationxml2resp/xml_to_dom.c.
use evalresp.Prelude.{none, some, List, [], if◌then◌else◌}
use evalresp.CString.{Str, codes}
use evalresp.Status.{Status, is_ok}
use evalresp.Checked.{Checked, checked, ◌>>=◌}
use evalresp.Double.{Double}
use evalresp.StationXml.{
  X2rFloat, X2rPoleZero, X2rResponseListElement, X2rNumeratorCoefficient, X2rCoefficient, X2rUnits,
  X2rPolesZeros, X2rCoefficients, X2rResponseList, X2rFir, X2rPolynomial, X2rDecimation, X2rGain,
}
use evalresp.StationXml.Node.{
  Mxml, each, find_children, found_children, require_child, char_element, int_element,
  char_attribute, int_attribute, double_element, double_attribute,
}

module _ {N : Type 0} ⦃m : Mxml N⦄ where
  unfoldable pub parse_units : N → Str → Checked X2rUnits
  unfolding require_child char_element
  parse_units parent path = do
    node ← require_child parent path
    name ← char_element node (codes "Name") none
    description ← char_element node (codes "Description") (some (codes ""))
    checked (record { name = name; description = description })

module _ {N D : Type 0} ⦃m : Mxml N⦄ ⦃d : Double D⦄ where
  unfoldable pub parse_float : N → Str → Checked (X2rFloat D)
  unfolding require_child double_element double_attribute
  parse_float parent path = do
    node ← require_child parent path
    value ← double_element node (codes ".") none
    plus_error ← double_attribute node (codes "plusError") (some (codes "-1"))
    minus_error ← double_attribute node (codes "minusError") (some (codes "-1"))
    checked (record { value = value; plus_error = plus_error; minus_error = minus_error })

  unfoldable pub parse_pole_zero : N → Checked (X2rPoleZero D)
  unfolding int_attribute parse_float
  parse_pole_zero node = do
    number ← int_attribute node (codes "number") (some (codes "0"))
    real ← parse_float node (codes "Real")
    imaginary ← parse_float node (codes "Imaginary")
    checked (record { number = number; real = real; imaginary = imaginary })

  unfoldable pub parse_coefficient : N → Checked (X2rCoefficient D)
  unfolding int_attribute parse_float
  parse_coefficient node = do
    number ← int_attribute node (codes "number") (some (codes "0"))
    value ← parse_float node (codes ".")
    checked (record { number = number; value = value })

  unfoldable pub parse_response_list_element : N → Checked (X2rResponseListElement D)
  unfolding double_element parse_float
  parse_response_list_element node = do
    frequency ← double_element node (codes "Frequency") none
    amplitude ← parse_float node (codes "Amplitude")
    phase ← parse_float node (codes "Phase")
    checked (record { frequency = frequency; amplitude = amplitude; phase = phase })

  unfoldable pub parse_numerator_coefficient : N → Checked (X2rNumeratorCoefficient D)
  unfolding int_attribute double_element
  parse_numerator_coefficient node = do
    i ← int_attribute node (codes "i") (some (codes "0"))
    value ← double_element node (codes ".") none
    checked (record { i = i; value = value })

module _ {N D : Type 0} ⦃m : Mxml N⦄ ⦃d : Double D⦄ where
  -- The loop of parse_poles_zeros_zeros and parse_poles_zeros_poles.
  unfoldable pub parse_poles_zeros_list : N → Str → Checked (List (X2rPoleZero D))
  unfolding found_children parse_pole_zero
  parse_poles_zeros_list node name = do nodes ← found_children node name; each parse_pole_zero nodes

  -- parse_poles_zeros_data, then the poles and the zeros
  unfoldable pub parse_poles_zeros : N → Checked (X2rPolesZeros D)
  unfolding char_element parse_units double_element parse_poles_zeros_list
  parse_poles_zeros node = do
    type ← char_element node (codes "PzTransferFunctionType") none
    input_units ← parse_units node (codes "InputUnits")
    output_units ← parse_units node (codes "OutputUnits")
    factor ← double_element node (codes "NormalizationFactor") (some (codes "1.0"))
    frequency ← double_element node (codes "NormalizationFrequency") none
    poles ← parse_poles_zeros_list node (codes "Pole")
    zeros ← parse_poles_zeros_list node (codes "Zero")
    checked (record {
      pz_transfer_function_type = type;
      input_units = input_units;
      output_units = output_units;
      normalization_factor = factor;
      normalization_frequency = frequency;
      zeros = zeros;
      poles = poles;
    })

  -- The loop of parse_coefficients_numerators and parse_coefficients_denominators.
  unfoldable pub parse_coefficients_list : N → Str → Checked (List (X2rFloat D))
  unfolding found_children parse_float
  parse_coefficients_list node name = do
    nodes ← found_children node name
    each (λ n. parse_float n (codes ".")) nodes

  unfoldable pub parse_coefficients : N → Checked (X2rCoefficients D)
  unfolding char_element parse_units parse_coefficients_list
  parse_coefficients node = do
    type ← char_element node (codes "CfTransferFunctionType") none
    input_units ← parse_units node (codes "InputUnits")
    output_units ← parse_units node (codes "OutputUnits")
    numerators ← parse_coefficients_list node (codes "Numerator")
    denominators ← parse_coefficients_list node (codes "Denominator")
    checked (record {
      cf_transfer_function_type = type;
      input_units = input_units;
      output_units = output_units;
      numerators = numerators;
      denominators = denominators;
    })

  -- `if ((status = find_children (...)))`: the elements are read where the search has failed.
  unfoldable pub parse_elements : Status → List N → Checked (List (X2rResponseListElement D))
  unfolding is_ok parse_response_list_element
  parse_elements status nodes =
      if is_ok status then checked [] else each parse_response_list_element nodes

  unfoldable pub parse_response_list : N → Checked (X2rResponseList D)
  unfolding parse_units find_children parse_elements
  parse_response_list node = do
    input_units ← parse_units node (codes "InputUnits")
    output_units ← parse_units node (codes "OutputUnits")
    let (status, nodes) : Status × List N = find_children node (codes "ResponseListElement")
    elements ← parse_elements status nodes
    checked (record { input_units = input_units; output_units = output_units; elements = elements })

  -- parse_fir_data, then the coefficients
  unfoldable pub parse_fir : N → Checked (X2rFir D)
  unfolding char_element char_attribute parse_units found_children parse_numerator_coefficient
  parse_fir node = do
    symmetry ← char_element node (codes "Symmetry") none
    name ← char_attribute node (codes "name") (some (codes "null"))
    input_units ← parse_units node (codes "InputUnits")
    output_units ← parse_units node (codes "OutputUnits")
    nodes ← found_children node (codes "NumeratorCoefficient")
    numerators ← each parse_numerator_coefficient nodes
    checked (record {
      symmetry = symmetry;
      name = name;
      input_units = input_units;
      output_units = output_units;
      numerator_coefficients = numerators;
    })

  -- parse_polynomial_data, then the coefficients
  unfoldable pub parse_polynomial : N → Checked (X2rPolynomial D)
  unfolding char_element parse_units double_element found_children parse_coefficient
  parse_polynomial node = do
    type ← char_element node (codes "ApproximationType") none
    input_units ← parse_units node (codes "InputUnits")
    output_units ← parse_units node (codes "OutputUnits")
    flo ← double_element node (codes "FrequencyLowerBound") (some (codes "0.0"))
    fhi ← double_element node (codes "FrequencyUpperBound") (some (codes "0.0"))
    alo ← double_element node (codes "ApproximationLowerBound") (some (codes "0.0"))
    ahi ← double_element node (codes "ApproximationUpperBound") (some (codes "0.0"))
    maximum ← double_element node (codes "MaximumError") (some (codes "0.0"))
    nodes ← found_children node (codes "Coefficient")
    values ← each parse_coefficient nodes
    checked (record {
      approximation_type = type;
      input_units = input_units;
      output_units = output_units;
      frequency_lower_bound = flo;
      frequency_upper_bound = fhi;
      approximation_lower_bound = alo;
      approximation_upper_bound = ahi;
      maximum_error = maximum;
      coefficients = values;
    })

  unfoldable pub parse_decimation : N → Checked (X2rDecimation D)
  unfolding double_element int_element
  parse_decimation node = do
    rate ← double_element node (codes "InputSampleRate") none
    factor ← int_element node (codes "Factor") none
    offset ← int_element node (codes "Offset") none
    delay ← double_element node (codes "Delay") none
    correction ← double_element node (codes "Correction") none
    checked (record {
      input_sample_rate = rate;
      factor = factor;
      offset = offset;
      delay = delay;
      correction = correction;
    })

  unfoldable pub parse_gain : N → Checked (X2rGain D)
  unfolding double_element
  parse_gain node = do
    value ← double_element node (codes "Value") (some (codes "0.0"))
    frequency ← double_element node (codes "Frequency") (some (codes "0.0"))
    checked (record { value = value; frequency = frequency })
