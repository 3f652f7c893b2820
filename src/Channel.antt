-- ===== src/Channel.antt =====
-- The data of a channel: the structures of libsrc/evalresp/public_channels.h and the enumerations of
-- libsrc/evalresp/private.h. An array beside its count is the list of its first `count` elements, a
-- linked list is a list, and `nstages` is the length of the list of stages.
use evalresp.Prelude.{ℕ, List}
use evalresp.Prelude.Int.{ℤ}
use evalresp.CString.{Str}

-- enum units
pub data Units : Type 0 where
  undef_units dis vel acc counts volts default pressure tesla centigrade : Units

pub record Complex (D : Type 0) : Type 0 where
  pub real : D
  pub imag : D

pub record PoleZero (D : Type 0) : Type 0 where
  pub a0 : D
  pub a0_freq : D
  pub zeros : List (Complex D)
  pub poles : List (Complex D)

pub record Coeff (D : Type 0) : Type 0 where
  pub numer : List D
  pub denom : List D
  pub h0 : D

pub record Polynomial (D : Type 0) : Type 0 where
  pub approximation_type : ℕ
  pub frequency_units : ℕ
  pub lower_freq_bound : D
  pub upper_freq_bound : D
  pub lower_approx_bound : D
  pub upper_approx_bound : D
  pub max_abs_error : D
  pub coeffs : List D
  pub coeffs_err : List D

pub record Fir (D : Type 0) : Type 0 where
  pub coeffs : List D
  pub h0 : D

-- evalresp_list: three arrays of `nresp` elements
pub record ListInfo (D : Type 0) : Type 0 where
  pub freq : List D
  pub amp : List D
  pub phase : List D

pub record Generic (D : Type 0) : Type 0 where
  pub corner_freq : List D
  pub corner_slope : List D

pub record Decimation (D : Type 0) : Type 0 where
  pub sample_int : D
  pub deci_fact : ℤ
  pub deci_offset : ℤ
  pub estim_delay : D
  pub applied_corr : D

pub record Gain (D : Type 0) : Type 0 where
  pub gain : D
  pub gain_freq : D

pub record Refer : Type 0 where
  pub num_stages : ℤ
  pub stage_num : ℤ
  pub num_responses : ℤ

-- LAPLACE_PZ, ANALOG_PZ, IIR_PZ
pub data PzType : Type 0 where
  laplace analog iir : PzType

-- FIR_SYM_1, FIR_SYM_2, FIR_ASYM
pub data FirType : Type 0 where
  sym_1 sym_2 asym : FirType

-- evalresp_blkt: the type with the member of `blkt_info` that it selects (enum filt_types).
-- `undef_filt` stands for every other value of `type`.
pub data Blkt (D : Type 0) : Type 0 where
  undef_filt : Blkt D
  pole_zero : PzType → PoleZero D → Blkt D
  fir : FirType → Fir D → Blkt D
  list : ListInfo D → Blkt D
  generic : Generic D → Blkt D
  decimation : Decimation D → Blkt D
  gain : Gain D → Blkt D
  reference : Refer → Blkt D
  fir_coeffs : Fir D → Blkt D
  iir_coeffs : Coeff D → Blkt D
  polynomial : Polynomial D → Blkt D

pub record Stage (D : Type 0) : Type 0 where
  pub sequence_no : ℤ
  pub input_units : Units
  pub output_units : Units
  pub input_units_str : Str
  pub output_units_str : Str
  pub blkts : List (Blkt D)

pub record Channel (D : Type 0) : Type 0 where
  pub staname : Str
  pub network : Str
  pub locid : Str
  pub chaname : Str
  pub beg_t : Str
  pub end_t : Str
  pub first_units : Str
  pub last_units : Str
  pub sensit : D
  pub sensfreq : D
  pub calc_sensit : D
  pub calc_delay : D
  pub estim_delay : D
  pub applied_corr : D
  pub unit_scale_fact : D
  pub sint : D
  pub stages : List (Stage D)

-- The number of a unit, by which the code compares.
abbrev pub units_code : Units → ℕ
units_code undef_units = 0
units_code dis = 1
units_code vel = 2
units_code acc = 3
units_code counts = 4
units_code volts = 5
units_code default = 6
units_code pressure = 7
units_code tesla = 8
units_code centigrade = 9
