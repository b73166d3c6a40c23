-- ===== src/Bits.antt =====
-- Bitwise operations at variables, as arithmetic: what `&`, `|` and `^` on `uint8_t` and
-- `uint16_t` values do.
mod Digit
pub mod Mask
pub mod Xor
