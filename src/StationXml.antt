-- ===== src/StationXml.antt =====
-- The in-memory model of a StationXML document, of
-- libsrc/evalresp/stationxml2resp/xml_to_dom.h. An array with its number of elements is a list.
pub mod Node
pub mod Content
pub mod Document
pub mod Print
pub mod Convert
pub mod Contents
pub mod Mirror
pub mod Elements
use evalresp.Prelude.{Option, List}
use evalresp.Prelude.Int.{ℤ, negsuc}
use evalresp.CString.{Str}
use evalresp.Status.{Status, io, inp, err, eof}

-- The X2R codes of libsrc/evalresp/stationxml2resp.h are returned as evalresp_status values: these
-- are the ones of the same number.
abbrev pub x2r_err_memory : Status
x2r_err_memory = io

abbrev pub x2r_err_buffer : Status
x2r_err_buffer = inp

abbrev pub x2r_err_xml : Status
x2r_err_xml = err

abbrev pub x2r_err_date : Status
x2r_err_date = eof

-- A value to represent an unset, open, date-time.
abbrev pub unset_time_t : ℤ
unset_time_t = negsuc 1999999999

pub record X2rFloat (D : Type 0) : Type 0 where
  pub value : D
  pub plus_error : D
  pub minus_error : D

pub record X2rPoleZero (D : Type 0) : Type 0 where
  pub number : ℤ
  pub real : X2rFloat D
  pub imaginary : X2rFloat D

pub record X2rResponseListElement (D : Type 0) : Type 0 where
  pub frequency : D
  pub amplitude : X2rFloat D
  pub phase : X2rFloat D

pub record X2rNumeratorCoefficient (D : Type 0) : Type 0 where
  pub i : ℤ
  pub value : D

pub record X2rCoefficient (D : Type 0) : Type 0 where
  pub number : ℤ
  pub value : X2rFloat D

pub record X2rUnits : Type 0 where
  pub name : Str
  pub description : Str

pub record X2rPolesZeros (D : Type 0) : Type 0 where
  pub pz_transfer_function_type : Str
  pub input_units : X2rUnits
  pub output_units : X2rUnits
  pub normalization_factor : D
  pub normalization_frequency : D
  pub zeros : List (X2rPoleZero D)
  pub poles : List (X2rPoleZero D)

pub record X2rCoefficients (D : Type 0) : Type 0 where
  pub cf_transfer_function_type : Str
  pub input_units : X2rUnits
  pub output_units : X2rUnits
  pub numerators : List (X2rFloat D)
  pub denominators : List (X2rFloat D)

pub record X2rResponseList (D : Type 0) : Type 0 where
  pub input_units : X2rUnits
  pub output_units : X2rUnits
  pub elements : List (X2rResponseListElement D)

pub record X2rFir (D : Type 0) : Type 0 where
  pub symmetry : Str
  pub name : Str
  pub input_units : X2rUnits
  pub output_units : X2rUnits
  pub numerator_coefficients : List (X2rNumeratorCoefficient D)

pub record X2rPolynomial (D : Type 0) : Type 0 where
  pub approximation_type : Str
  pub input_units : X2rUnits
  pub output_units : X2rUnits
  pub frequency_lower_bound : D
  pub frequency_upper_bound : D
  pub approximation_lower_bound : D
  pub approximation_upper_bound : D
  pub maximum_error : D
  pub coefficients : List (X2rCoefficient D)

pub record X2rDecimation (D : Type 0) : Type 0 where
  pub input_sample_rate : D
  pub factor : ℤ
  pub offset : ℤ
  pub delay : D
  pub correction : D

pub record X2rGain (D : Type 0) : Type 0 where
  pub value : D
  pub frequency : D

-- The type of a stage with the member of the union that it selects.
pub data StageContent (D : Type 0) : Type 0 where
  unknown : StageContent D
  poles_zeros : X2rPolesZeros D → StageContent D
  coefficients : X2rCoefficients D → StageContent D
  response_list : X2rResponseList D → StageContent D
  fir : X2rFir D → StageContent D
  polynomial : X2rPolynomial D → StageContent D

pub record X2rStage (D : Type 0) : Type 0 where
  pub number : ℤ
  pub u : StageContent D
  pub decimation : Option (X2rDecimation D)
  pub stage_gain : Option (X2rGain D)

pub record X2rResponse (D : Type 0) : Type 0 where
  pub stages : List (X2rStage D)
  pub instrument_sensitivity : Option (X2rGain D)
  pub instrument_polynomial : Option (X2rPolynomial D)

pub record X2rChannel (D : Type 0) : Type 0 where
  pub code : Str
  pub location_code : Str
  pub start_date : ℤ
  pub end_date : ℤ
  pub response : X2rResponse D

pub record X2rStation (D : Type 0) : Type 0 where
  pub code : Str
  pub channels : List (X2rChannel D)

pub record X2rNetwork (D : Type 0) : Type 0 where
  pub code : Str
  pub stations : List (X2rStation D)

pub record X2rFdsnStationXml (D : Type 0) : Type 0 where
  pub networks : List (X2rNetwork D)
