-- ===== src/Base/Bits.antt =====
-- Bounds of the bitwise operations at every width.
use Prim.Native.Nat.{
  ℕ, zero, suc, ◌+◌, ◌≤◌, ◌*◌, ◌/◌, ◌%◌, ◌^◌, ◌<◌, max, digits, differ, bit_or, bit_xor,
  bit_or-bitwise, bit_xor-bitwise,
}
use mathlib.Core.Path.{◌≡◌, ap, sym, ◌∙◌}
use native.Mathlib.Nat.{pow-suc, mul_assoc}
use native.Mathlib.Omega.{arith}

-- A digit operation whose results are digits gives a number of the width of its operands.
digits-lt :
    (f : ℕ → ℕ → ℕ)
    → ((a b : ℕ) → a < 2 → b < 2 → f a b < 2)
    → (k n a b : ℕ) → a < 2 ^ k
    → b < 2 ^ k
    → digits (λ c. c) f n a b < 2 ^ k
digits-lt f digit k zero a b ha hb = hb
digits-lt f digit k (suc n) zero b ha hb = hb
digits-lt f digit zero (suc n) (suc a) b ha hb = absurd (omega arith)
digits-lt f digit (suc k) (suc n) (suc a) b ha hb =
    let width : 2 ^ suc k ≡ 2 ^ k * 2 = pow-suc 2 k in
    let rest = digits-lt f digit k n (suc a / 2) (b / 2) (omega arith) (omega arith) in
    let low = digit (suc a % 2) (b % 2) (omega arith) (omega arith) in omega arith

differ-lt : (a b : ℕ) → a < 2 → b < 2 → differ a b < 2
differ-lt zero b ha hb = hb
differ-lt (suc zero) zero ha hb = omega arith
differ-lt (suc zero) (suc b) ha hb = omega arith
differ-lt (suc (suc a)) b ha hb = absurd (omega arith)

pub bit_xor-lt : (k a b : ℕ) → a < 2 ^ k → b < 2 ^ k → bit_xor a b < 2 ^ k
bit_xor-lt k a b ha hb = rw (bit_xor-bitwise a b) (digits-lt differ differ-lt k a a b ha hb)

pub bit_or-lt : (k a b : ℕ) → a < 2 ^ k → b < 2 ^ k → bit_or a b < 2 ^ k
bit_or-lt k a b ha hb =
    rw (bit_or-bitwise a b) (digits-lt max (λ x y p q. omega arith) k a a b ha hb)

-- A number of `k` digits and a multiple of `2 ^ k` have no digit in common.
digits-add : (k n r q : ℕ) → r < 2 ^ k → r ≤ n → digits (λ c. c) max n r (q * 2 ^ k) ≡ q * 2 ^ k + r
digits-add k zero r q small fuel = omega arith
digits-add k (suc n) zero q small fuel = omega arith
digits-add zero (suc n) (suc r) q small fuel = absurd (omega arith)
digits-add (suc k) (suc n) (suc r) q small fuel =
    let width : 2 ^ suc k ≡ 2 ^ k * 2 = pow-suc 2 k in
    let product : q * 2 ^ suc k ≡ q * 2 ^ k * 2 =
      ap (λ w. q * w) width ∙ sym (mul_assoc q (2 ^ k) 2) in
    let half : q * 2 ^ suc k / 2 ≡ q * 2 ^ k = omega arith in
    let even : q * 2 ^ suc k % 2 ≡ 0 = omega arith in
    let rest = digits-add k n (suc r / 2) q (omega arith) (omega arith) in
    rw (half, even, rest) (omega arith)

pub bit_or-add : (k r q : ℕ) → r < 2 ^ k → bit_or r (q * 2 ^ k) ≡ q * 2 ^ k + r
bit_or-add k r q small = rw (bit_or-bitwise r (q * 2 ^ k)) (digits-add k r r q small (omega arith))
