-- ===== src/Options.antt =====
-- The options of libsrc/evalresp/public_api.h, which evaluation.c sets and calc_fctns.c reads.
pub mod Set
pub mod Named
use evalresp.Prelude.{Option, none, Bool, false}
use evalresp.Prelude.Int.{ℤ, pos, negsuc}
use evalresp.CString.{Str}
use evalresp.Double.{Double}

-- evalresp_output_format
pub data OutputFormat : Type 0 where
  ap_format fap_format complex_format : OutputFormat

-- evalresp_unit; `other` is every other value.
pub data OutUnit : Type 0 where
  file displacement velocity acceleration other : OutUnit

-- evalresp_options. An `int` that is only tested against 0 is a Bool.
pub record Options (D : Type 0) : Type 0 where
  pub filename : Option Str
  pub b62_x : D
  pub min_freq : D
  pub max_freq : D
  pub nfreq : ℤ
  pub lin_freq : Bool
  pub start_stage : ℤ
  pub stop_stage : ℤ
  pub use_estimated_delay : Bool
  pub unwrap_phase : Bool
  pub b55_interpolate : Bool
  pub use_total_sensitivity : Bool
  pub use_stdio : Bool
  pub station_xml : Bool
  pub format : OutputFormat
  pub unit : OutUnit
  pub verbose : Bool

-- evalresp_new_options: the members that it does not set are 0.
unfoldable pub evalresp_new_options : {D : Type 0} ⦃d : Double D⦄ → Options D
evalresp_new_options ⦃d⦄ = record {
  filename = none;
  b62_x = d.of_int (pos 0);
  min_freq = d.of_int (negsuc 0);
  max_freq = d.of_int (negsuc 0);
  nfreq = pos 1;
  lin_freq = false;
  start_stage = negsuc 0;
  stop_stage = pos 0;
  use_estimated_delay = false;
  unwrap_phase = false;
  b55_interpolate = false;
  use_total_sensitivity = false;
  use_stdio = false;
  station_xml = false;
  format = ap_format;
  unit = velocity;
  verbose = false;
}
