-- ===== src/Input.antt =====
-- The readers of libsrc/evalresp/input.c that turn RESP text into channels.
pub mod Action
pub mod Units
pub mod Filters
pub mod Polynomial
pub mod Lists
pub mod Reference
pub mod Built
pub mod Data
pub mod Header
pub mod Collect
pub mod Entry
pub mod File
pub mod Reads
pub mod Stocked
pub mod Written
