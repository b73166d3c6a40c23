-- ===== src/Bits/Xor.antt =====
-- Laws of `^` at every width.
use native.Mathlib.Nat.{pow-suc}
use counter_drone_server.Base.{
  ℕ, zero, suc, ◌+◌, ◌/◌, ◌%◌, ◌^◌, ◌≤◌, ◌<◌, ◌≡◌, ◌≢◌, refl, sym, ap, ◌∙◌, arith, bit_xor,
}
use counter_drone_server.Bits.Digit.{bit_xor_digit, mod_digit}

-- A statement on pairs of numbers holds if it carries over from the halves.
pair_induction {ℓ} :
    (P : ℕ → ℕ → Type ℓ)
    → P 0 0
    → ((a b : ℕ) → P (a / 2) (b / 2) → P a b)
    → (n a b : ℕ) → a ≤ n
    → b ≤ n
    → P a b
pair_induction P base step n zero zero ha hb = base
pair_induction P base step zero (suc a) b ha hb = absurd (omega arith)
pair_induction P base step zero zero (suc b) ha hb = absurd (omega arith)
pair_induction P base step (suc n) (suc a) b ha hb =
    step (suc a) b (pair_induction P base step n (suc a / 2) (b / 2) (omega arith) (omega arith))
pair_induction P base step (suc n) zero (suc b) ha hb =
    step 0 (suc b) (pair_induction P base step n 0 (suc b / 2) (omega arith) (omega arith))

pub bit_xor_comm : (a b : ℕ) → bit_xor a b ≡ bit_xor b a
bit_xor_comm a b =
    pair_induction (λ x y. bit_xor x y ≡ bit_xor y x) refl
      (λ x y ih. omega (arith, bit_xor_digit x y, bit_xor_digit y x, ih)) (a + b) a b (omega arith)
      (omega arith)

pub half-bit_xor : (a b : ℕ) → bit_xor a b / 2 ≡ bit_xor (a / 2) (b / 2)
half-bit_xor a b = omega (arith, bit_xor_digit a b)

pub parity-bit_xor : (a b : ℕ) → bit_xor a b % 2 ≡ (a % 2 + b % 2) % 2
parity-bit_xor a b = omega (arith, bit_xor_digit a b)

-- Exclusive or with the same number twice gives the first number back.
pub bit_xor_twice : (a b : ℕ) → bit_xor (bit_xor a b) b ≡ a
bit_xor_twice a b =
    pair_induction (λ x y. bit_xor (bit_xor x y) y ≡ x) refl step (a + b) a b (omega arith)
      (omega arith)
  where
    step :
        (x y : ℕ) → bit_xor (bit_xor (x / 2) (y / 2)) (y / 2) ≡ x / 2 → bit_xor (bit_xor x y) y ≡ x
    step x y ih =
        let e : bit_xor (bit_xor x y / 2) (y / 2) ≡ x / 2 = rw (half-bit_xor x y) ih in
        omega (arith, bit_xor_digit (bit_xor x y) y, parity-bit_xor x y, e)

pub bit_xor_cancel : (a b c : ℕ) → bit_xor a c ≡ bit_xor b c → a ≡ b
bit_xor_cancel a b c h = sym (bit_xor_twice a c) ∙ ap (λ x. bit_xor x c) h ∙ bit_xor_twice b c

pub bit_xor_cancel_left : (a b c : ℕ) → bit_xor c a ≡ bit_xor c b → a ≡ b
bit_xor_cancel_left a b c h = bit_xor_cancel a b c (bit_xor_comm a c ∙ h ∙ bit_xor_comm c b)

-- The low `k` digits of the result are those of the operands.
pub bit_xor-mod : (k a b : ℕ) → bit_xor a b % 2 ^ k ≡ bit_xor (a % 2 ^ k) (b % 2 ^ k)
bit_xor-mod zero a b =
    let ea : a % 2 ^ 0 ≡ 0 = omega arith in
    let eb : b % 2 ^ 0 ≡ 0 = omega arith in
    let e : bit_xor a b % 2 ^ 0 ≡ 0 = omega arith in rw (ea, eb) e
bit_xor-mod (suc k) a b =
    let ha : a % 2 ^ suc k / 2 ≡ a / 2 % 2 ^ k = omega (arith, mod_digit k a) in
    let hb : b % 2 ^ suc k / 2 ≡ b / 2 % 2 ^ k = omega (arith, mod_digit k b) in
    let la : a % 2 ^ suc k % 2 ≡ a % 2 = omega (arith, mod_digit k a) in
    let lb : b % 2 ^ suc k % 2 ≡ b % 2 = omega (arith, mod_digit k b) in
    let rest : bit_xor a b / 2 % 2 ^ k ≡ bit_xor (a % 2 ^ suc k / 2) (b % 2 ^ suc k / 2) =
      rw (half-bit_xor a b, ha, hb) (bit_xor-mod k (a / 2) (b / 2)) in
    omega (
      arith,
      mod_digit k (bit_xor a b),
      bit_xor_digit (a % 2 ^ suc k) (b % 2 ^ suc k),
      parity-bit_xor a b,
      rest,
      la,
      lb,
    )

-- Operands of `k` digits have a result of `k` digits.
pub bit_xor-lt : (k a b : ℕ) → a < 2 ^ k → b < 2 ^ k → bit_xor a b < 2 ^ k
bit_xor-lt zero a b ha hb =
    let ea : a ≡ 0 = omega arith in let eb : b ≡ 0 = omega arith in rw (ea, eb) (omega arith)
bit_xor-lt (suc k) a b ha hb = omega (
  arith,
  pow-suc 2 k,
  bit_xor_digit a b,
  bit_xor-lt k (a / 2) (b / 2) (omega (arith, pow-suc 2 k)) (omega (arith, pow-suc 2 k)),
)

pub bit_xor-zero : (b : ℕ) → bit_xor 0 b ≡ b
bit_xor-zero b =
    pair_induction (λ x y. x ≡ 0 → bit_xor x y ≡ y) (λ e. refl)
      (λ x y ih e. omega (arith, bit_xor_digit x y, ih (omega arith))) b 0 b (omega arith)
      (omega arith) refl

pub bit_xor_changes : (a k : ℕ) → k ≢ 0 → bit_xor a k ≢ a
bit_xor_changes a k ne h = ne (bit_xor_cancel k 0 a (bit_xor_comm k a ∙ h ∙ sym (bit_xor-zero a)))
