-- ===== src/Bits/Digit.antt =====
-- Each operation by its lowest digit and the rest.
use Prim.Native.Nat.{digits, differ, bit_and-bitwise, bit_or-bitwise, bit_xor-bitwise}
use native.Mathlib.Nat.{
  pow-suc, mod-lt, mod-eq_of_lt, one-le-pow, div-add-mod, mul-add-mod_self_left,
}
use counter_drone_server.Base.{
  ℕ, zero, suc, ◌+◌, ◌*◌, ◌/◌, ◌%◌, ◌^◌, ◌≤◌, ◌<◌, ◌≡◌, refl, ap, ◌∙◌, arith, bit_and, bit_or,
  bit_xor, min, max,
}

-- More digits to go than the first number has change nothing.
module _ (z : ℕ → ℕ) (f : ℕ → ℕ → ℕ) where
  digits_spare : (n a b : ℕ) → a ≤ n → digits z f n a b ≡ digits z f a a b
  digits_spare n a b h = both n a a b h (omega arith)
    where
      both : (n m a b : ℕ) → a ≤ n → a ≤ m → digits z f n a b ≡ digits z f m a b
      both zero zero zero b p q = refl
      both zero zero (suc a) b p q = absurd (omega arith)
      both zero (suc m) zero b p q = refl
      both zero (suc m) (suc a) b p q = absurd (omega arith)
      both (suc n) zero zero b p q = refl
      both (suc n) zero (suc a) b p q = absurd (omega arith)
      both (suc n) (suc m) zero b p q = refl
      both (suc n) (suc m) (suc a) b p q =
          omega (arith, both n m (suc a / 2) (b / 2) (omega arith) (omega arith))

differ_digits : (x y : ℕ) → x < 2 → y < 2 → differ x y ≡ (x + y) % 2
differ_digits zero y h k = omega arith
differ_digits (suc zero) zero h k = refl
differ_digits (suc zero) (suc zero) h k = refl
differ_digits (suc zero) (suc (suc y)) h k = absurd (omega arith)
differ_digits (suc (suc x)) y h k = absurd (omega arith)

pub bit_xor_digit : (a b : ℕ) → bit_xor a b ≡ bit_xor (a / 2) (b / 2) * 2 + (a % 2 + b % 2) % 2
bit_xor_digit zero b = omega (arith, bit_xor-bitwise 0 b, bit_xor-bitwise 0 (b / 2))
bit_xor_digit (suc a) b = omega (
  arith,
  bit_xor-bitwise (suc a) b,
  bit_xor-bitwise (suc a / 2) (b / 2),
  digits_spare (λ b. b) differ a (suc a / 2) (b / 2) (omega arith),
  differ_digits (suc a % 2) (b % 2) (omega arith) (omega arith),
)

pub bit_or_digit : (a b : ℕ) → bit_or a b ≡ bit_or (a / 2) (b / 2) * 2 + max (a % 2) (b % 2)
bit_or_digit zero b = omega (arith, bit_or-bitwise 0 b, bit_or-bitwise 0 (b / 2))
bit_or_digit (suc a) b = omega (
  arith,
  bit_or-bitwise (suc a) b,
  bit_or-bitwise (suc a / 2) (b / 2),
  digits_spare (λ b. b) max a (suc a / 2) (b / 2) (omega arith),
)

pub bit_and_digit : (a b : ℕ) → bit_and a b ≡ bit_and (a / 2) (b / 2) * 2 + min (a % 2) (b % 2)
bit_and_digit zero b = omega (arith, bit_and-bitwise 0 b, bit_and-bitwise 0 (b / 2))
bit_and_digit (suc a) b = omega (
  arith,
  bit_and-bitwise (suc a) b,
  bit_and-bitwise (suc a / 2) (b / 2),
  digits_spare (λ b. zero) min a (suc a / 2) (b / 2) (omega arith),
)

-- The remainder by a power of two, by its lowest digit and the rest.
pub mod_digit : (k a : ℕ) → a % 2 ^ suc k ≡ a / 2 % 2 ^ k * 2 + a % 2
mod_digit k a =
    let p : ℕ = 2 ^ k in
    let q : ℕ = a / 2 / p in
    let r : ℕ = a / 2 % p in
    let fits : r < p = mod-lt (a / 2) (one-le-pow k 2 (omega arith)) in
    let whole : a ≡ 2 * p * q + (r * 2 + a % 2) = omega (arith, div-add-mod (a / 2) p) in
    let double : 2 ^ suc k ≡ 2 * p = omega (arith, pow-suc 2 k) in
    let below : r * 2 + a % 2 < 2 * p = omega arith in
    rw double (
      ap (λ m. m % (2 * p)) whole
      ∙ mul-add-mod_self_left (2 * p) q (r * 2 + a % 2)
      ∙ mod-eq_of_lt below)
