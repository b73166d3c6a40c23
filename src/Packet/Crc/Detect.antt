-- ===== src/Packet/Crc/Detect.antt =====
-- What the checksum detects.
use counter_drone_server.Base.{
  ℕ, zero, suc, ◌-◌, ◌*◌, ◌%◌, ◌^◌, ◌<◌, ◌≤◌, ◌≡◌, ◌≢◌, refl, sym, ◌∙◌, arith, List, [], ◌∷◌, ◌++◌,
  bit_xor,
}
use native.Mathlib.Decide.{dec_lt}
use counter_drone_server.Bits.Mask.{bit_and-digit_at}
use counter_drone_server.Bits.Xor.{
  bit_xor-lt, bit_xor_cancel, bit_xor_cancel_left, bit_xor-mod, parity-bit_xor,
}
use counter_drone_server.Packet.Crc.{
  initial_crc, crc_bit, crc_bits, crc_byte, crc_loop, calculate_crc16,
}

-- A round of the inner loop as arithmetic.
crc_bit_low : (c : ℕ) → c < 2 ^ 15 → crc_bit c ≡ 2 * c
unfolding crc_bit
crc_bit_low c h = ground (arith, bit_and-digit_at 15 c)

crc_bit_high : (c : ℕ) → 2 ^ 15 ≤ c → c < 2 ^ 16 → crc_bit c ≡ bit_xor (2 * (c - 2 ^ 15)) 0x1021
unfolding crc_bit
crc_bit_high c lo hi = ground (arith, bit_and-digit_at 15 c, bit_xor-mod 16 (c * 2) 0x1021)

pub crc_bit-lt : (c : ℕ) → crc_bit c < 2 ^ 16
unfolding crc_bit
crc_bit-lt c = ground arith

-- No two checksums meet in a round: after a shift without the polynomial the result is even, and
-- after one with it odd.
pub crc_bit_inj : (c d : ℕ) → c < 2 ^ 16 → d < 2 ^ 16 → crc_bit c ≡ crc_bit d → c ≡ d
crc_bit_inj c d hc hd e = elim (dec_lt c (2 ^ 15)) [
  | yes p ↦ elim (dec_lt d (2 ^ 15)) [
    | yes q ↦ omega (arith, crc_bit_low c p, crc_bit_low d q, e)
    | no q ↦ absurd (
        omega (
          arith,
          crc_bit_low c p,
          crc_bit_high d (omega arith) hd,
          parity-bit_xor (2 * (d - 2 ^ 15)) 0x1021,
          e,
        ))
  ]
  | no p ↦ elim (dec_lt d (2 ^ 15)) [
    | yes q ↦ absurd (
        omega (
          arith,
          crc_bit_low d q,
          crc_bit_high c (omega arith) hc,
          parity-bit_xor (2 * (c - 2 ^ 15)) 0x1021,
          e,
        ))
    | no q ↦ omega (
      arith,
      bit_xor_cancel (2 * (c - 2 ^ 15)) (2 * (d - 2 ^ 15)) 0x1021
          (sym (crc_bit_high c (omega arith) hc) ∙ e ∙ crc_bit_high d (omega arith) hd),
    )
  ]
]

crc_bits-lt : (n c : ℕ) → c < 2 ^ 16 → crc_bits n c < 2 ^ 16
unfolding crc_bits
crc_bits-lt zero c h = h
crc_bits-lt (suc n) c h = crc_bits-lt n (crc_bit c) (crc_bit-lt c)

crc_bits_inj : (n c d : ℕ) → c < 2 ^ 16 → d < 2 ^ 16 → crc_bits n c ≡ crc_bits n d → c ≡ d
unfolding crc_bits
crc_bits_inj zero c d hc hd e = e
crc_bits_inj (suc n) c d hc hd e =
    crc_bit_inj c d hc hd (crc_bits_inj n (crc_bit c) (crc_bit d) (crc_bit-lt c) (crc_bit-lt d) e)

xor_byte-lt : (c b : ℕ) → c < 2 ^ 16 → bit_xor c (b * 2 ^ 8 % 2 ^ 16) < 2 ^ 16
xor_byte-lt c b h = bit_xor-lt 16 c (b * 2 ^ 8 % 2 ^ 16) h (omega arith)

pub crc_byte-lt : (c b : ℕ) → c < 2 ^ 16 → crc_byte c b < 2 ^ 16
unfolding crc_byte
crc_byte-lt c b h = crc_bits-lt 8 _ (xor_byte-lt c b h)

-- A byte that is the same keeps two checksums apart.
crc_byte_inj_crc : (c d b : ℕ) → c < 2 ^ 16 → d < 2 ^ 16 → crc_byte c b ≡ crc_byte d b → c ≡ d
unfolding crc_byte
crc_byte_inj_crc c d b hc hd e =
    bit_xor_cancel c d (b * 2 ^ 8 % 2 ^ 16)
      (crc_bits_inj 8 _ _ (xor_byte-lt c b hc) (xor_byte-lt d b hd) e)

-- Two bytes that differ take one checksum apart.
crc_byte_inj_byte :
    (c x y : ℕ) → c < 2 ^ 16 → x < 256 → y < 256 → crc_byte c x ≡ crc_byte c y → x ≡ y
unfolding crc_byte
crc_byte_inj_byte c x y hc hx hy e = omega (
  arith,
  bit_xor_cancel_left (x * 2 ^ 8 % 2 ^ 16) (y * 2 ^ 8 % 2 ^ 16) c
      (crc_bits_inj 8 _ _ (xor_byte-lt c x hc) (xor_byte-lt c y hc) e),
)

pub crc_loop-lt : (c : ℕ) (bytes : List ℕ) → c < 2 ^ 16 → crc_loop c bytes < 2 ^ 16
unfolding crc_loop
crc_loop-lt c [] h = h
crc_loop-lt c (b ∷ bytes) h = crc_loop-lt (crc_byte c b) bytes (crc_byte-lt c b h)

crc_loop_inj :
    (c d : ℕ) (bytes : List ℕ)
    → c < 2 ^ 16
    → d < 2 ^ 16
    → crc_loop c bytes ≡ crc_loop d bytes
    → c ≡ d
unfolding crc_loop
crc_loop_inj c d [] hc hd e = e
crc_loop_inj c d (b ∷ bytes) hc hd e =
    crc_byte_inj_crc c d b hc hd
      (crc_loop_inj (crc_byte c b) (crc_byte d b) bytes (crc_byte-lt c b hc) (crc_byte-lt d b hd) e)

pub crc_loop-append : (c : ℕ) (xs ys : List ℕ) → crc_loop c (xs ++ ys) ≡ crc_loop (crc_loop c xs) ys
unfolding crc_loop
crc_loop-append c [] ys = refl
crc_loop-append c (x ∷ xs) ys = crc_loop-append (crc_byte c x) xs ys

-- The checksum is a `uint16_t` value.
pub calculate_crc16-lt : (bytes : List ℕ) → calculate_crc16 bytes < 2 ^ 16
unfolding calculate_crc16
calculate_crc16-lt bytes = crc_loop-lt initial_crc bytes (omega arith)

-- Two messages of bytes that differ in exactly one byte have different checksums, wherever the
-- byte stands.
pub single_byte_error_changes_crc :
    (front back : List ℕ) (x y : ℕ)
    → x < 256
    → y < 256
    → x ≢ y
    → calculate_crc16 (front ++ x ∷ back) ≢ calculate_crc16 (front ++ y ∷ back)
unfolding calculate_crc16
single_byte_error_changes_crc front back x y hx hy ne e =
    ne (crc_byte_inj_byte c x y c_lt hx hy same)
  where
    c : ℕ
    c = crc_loop initial_crc front

    c_lt : c < 2 ^ 16
    c_lt = crc_loop-lt initial_crc front (omega arith)

    same : crc_byte c x ≡ crc_byte c y
    same = crc_loop_inj _ _ back (crc_byte-lt c x c_lt) (crc_byte-lt c y c_lt) (
        sym (crc_loop-append initial_crc front (x ∷ back))
        ∙ e
        ∙ crc_loop-append initial_crc front (y ∷ back))
