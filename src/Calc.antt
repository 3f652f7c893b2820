-- ===== src/Calc.antt =====
-- The calculation of a response (libsrc/evalresp/calc_fctns.c).
pub mod Trans
pub mod Filters
pub mod Phase
pub mod Respond
pub mod Fed
pub mod Reads
pub mod Defined
pub mod Normalize
pub mod Sensitivity
pub mod Kinds
pub mod Kept
pub mod Ready
