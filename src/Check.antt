-- ===== src/Check.antt =====
-- check_channel of libsrc/evalresp/resp_fctns.c, which checks the stages of a channel, merges their
-- blockettes and puts them in order.
mod Ends
pub mod Scan
pub mod Stage
pub mod Labels
pub mod Sound
pub mod Fed
