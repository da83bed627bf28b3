-- ===== src/Util.antt =====
-- Pure functions of src/util.c. Each child is about one of them.
pub mod Atoi
pub mod Iovec
pub mod Host
pub mod HeaderEnd
