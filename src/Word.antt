-- ===== src/Word.antt =====
-- `usize` of `w` bits. An address or a size is a number below `2 ^ w`; the width is an argument of
-- every definition that depends on it.
pub mod Defs
pub mod Wrap
pub mod Bits
pub mod Power
pub mod Align
pub mod Fields
