-- ===== src/Bits/Mask.antt =====
-- `&` with a mask, and `|` of a high byte and a low byte, as arithmetic.
use native.Mathlib.Nat.{pow-suc, one-le-pow, div-div-eq-div-mul}
use counter_drone_server.Base.{
  ℕ, zero, suc, ◌+◌, ◌-◌, ◌*◌, ◌/◌, ◌%◌, ◌^◌, ◌≤◌, ◌<◌, ◌≡◌, refl, ap, ◌∙◌, arith, bit_and, bit_or,
}
use counter_drone_server.Bits.Digit.{bit_and_digit, bit_or_digit, mod_digit}

bit_and-zero_below : (n a : ℕ) → a ≤ n → bit_and a 0 ≡ 0
bit_and-zero_below n zero h = refl
bit_and-zero_below zero (suc a) h = absurd (omega arith)
bit_and-zero_below (suc n) (suc a) h =
    omega (arith, bit_and_digit (suc a) 0, bit_and-zero_below n (suc a / 2) (omega arith))

bit_or-zero_below : (n a : ℕ) → a ≤ n → bit_or a 0 ≡ a
bit_or-zero_below n zero h = refl
bit_or-zero_below zero (suc a) h = absurd (omega arith)
bit_or-zero_below (suc n) (suc a) h =
    omega (arith, bit_or_digit (suc a) 0, bit_or-zero_below n (suc a / 2) (omega arith))

-- `a & (2^k - 1)` keeps the low `k` digits.
pub bit_and-low : (k a : ℕ) → bit_and a (2 ^ k - 1) ≡ a % 2 ^ k
bit_and-low zero a = omega (arith, bit_and-zero_below a a (omega arith))
bit_and-low (suc k) a =
    let half : (2 ^ suc k - 1) / 2 ≡ 2 ^ k - 1 = omega (arith, pow-suc 2 k, one-le-pow k 2) in
    let rest : bit_and (a / 2) ((2 ^ suc k - 1) / 2) ≡ a / 2 % 2 ^ k =
      rw half (bit_and-low k (a / 2)) in
    omega (
      arith,
      bit_and_digit a (2 ^ suc k - 1),
      rest,
      mod_digit k a,
      pow-suc 2 k,
      one-le-pow k 2 (omega arith),
    )

-- `a & 2^k` tests one digit.
pub bit_and-digit_at : (k a : ℕ) → bit_and a (2 ^ k) ≡ a / 2 ^ k % 2 * 2 ^ k
bit_and-digit_at zero a =
    omega (arith, bit_and_digit a 1, bit_and-zero_below (a / 2) (a / 2) (omega arith))
bit_and-digit_at (suc k) a =
    let p : ℕ = 2 ^ k in
    let double : 2 ^ suc k ≡ 2 * p = omega (arith, pow-suc 2 k) in
    let half : 2 ^ suc k / 2 ≡ 2 ^ k = omega arith in
    let rest : bit_and (a / 2) (2 ^ suc k / 2) ≡ a / 2 / p % 2 * p =
      rw half (bit_and-digit_at k (a / 2)) in
    let quotient : a / 2 / p ≡ a / (2 * p) = div-div-eq-div-mul a 2 p in
    let scaled : a / 2 / p % 2 * p * 2 ≡ a / (2 * p) % 2 * (2 * p) = rw quotient (omega arith) in
    let whole : bit_and a (2 ^ suc k) ≡ a / 2 / p % 2 * p * 2 =
      omega (arith, bit_and_digit a (2 ^ suc k), rest, double) in
    rw double (rw (← double) (whole ∙ scaled ∙ rw double refl))

-- `(q << k) | r` is a sum when `r` has at most `k` digits.
pub bit_or-shifted : (k q r : ℕ) → r < 2 ^ k → bit_or (q * 2 ^ k) r ≡ q * 2 ^ k + r
bit_or-shifted zero q r h =
    let none_left : r ≡ 0 = omega arith in
    let one : q * 2 ^ 0 ≡ q = omega arith in
    rw (none_left, one) (omega (arith, bit_or-zero_below q q (omega arith)))
bit_or-shifted (suc k) q r h =
    let double : q * 2 ^ suc k ≡ 2 * (q * 2 ^ k) =
      omega (arith, ap (λ (t : ℕ). q * t) (pow-suc 2 k)) in
    let half : q * 2 ^ suc k / 2 ≡ q * 2 ^ k = omega arith in
    let rest : bit_or (q * 2 ^ suc k / 2) (r / 2) ≡ q * 2 ^ k + r / 2 =
      rw half (bit_or-shifted k q (r / 2) (omega (arith, pow-suc 2 k))) in
    omega (arith, bit_or_digit (q * 2 ^ suc k) r, rest, double)

-- `(hi << 8) | lo` is a sum when `lo` is a byte.
pub bit_or_bytes : (hi lo : ℕ) → lo < 256 → bit_or (hi * 256) lo ≡ hi * 256 + lo
bit_or_bytes hi lo h = bit_or-shifted 8 hi lo h
