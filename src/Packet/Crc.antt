-- ===== src/Packet/Crc.antt =====
-- `calculate_crc16` of include/Generals.h, bit by bit as written there. A `uint16_t` is a number
-- below 2^16, and each assignment to one cuts the result to 16 bits.
pub mod Detect
use counter_drone_server.Base.{
  ℕ, zero, suc, ◌*◌, ◌%◌, ◌^◌, List, [], ◌∷◌, bit_and, bit_xor, ◌==◌, if◌then◌else◌,
}

abbrev pub initial_crc : ℕ
initial_crc = 0xFFFF

-- One round of the inner loop.
pub crc_bit : ℕ → ℕ
crc_bit crc =
    if bit_and crc 0x8000 == 0 then crc * 2 % 2 ^ 16 else bit_xor (crc * 2) 0x1021 % 2 ^ 16

-- `for (int i = 0; i < n; ++i)`
pub crc_bits : ℕ → ℕ → ℕ
crc_bits zero crc = crc
crc_bits (suc n) crc = crc_bits n (crc_bit crc)

-- One round of the outer loop.
pub crc_byte : ℕ → ℕ → ℕ
crc_byte crc byte = crc_bits 8 (bit_xor crc (byte * 2 ^ 8 % 2 ^ 16))

pub crc_loop : ℕ → List ℕ → ℕ
crc_loop crc [] = crc
crc_loop crc (byte ∷ rest) = crc_loop (crc_byte crc byte) rest

unfoldable pub calculate_crc16 : List ℕ → ℕ
unfolding crc_loop crc_byte crc_bits crc_bit
calculate_crc16 bytes = crc_loop initial_crc bytes
