-- ===== src/Base/Division.antt =====
-- Quotients by a variable.
use Prim.Native.Nat.{ℕ, ◌+◌, ◌*◌, ◌/◌, ◌%◌, ◌≤◌, ◌<◌}
use mathlib.Core.Path.{◌≡◌}
use native.Mathlib.Nat.{div-add-mod, mod-lt}
use native.Mathlib.Decide.{dec_le, dec_lt}
use native.Mathlib.Omega.{arith}

pub quotient-le : (range i n : ℕ) → 0 < range → i * range ≤ n → i ≤ n / range
quotient-le range i n pos h = elim (dec_le i (n / range)) [
  | yes p ↦ p
  | no p ↦
      let below : n / range + 1 ≤ i = omega arith in
      let grown : (n / range + 1) * range ≤ i * range = grind arith in
      absurd (omega (arith, div-add-mod n range, mod-lt n pos))
]

pub quotient-lt : (range i n : ℕ) → 0 < range → n < i * range → n / range < i
quotient-lt range i n pos h = elim (dec_lt (n / range) i) [
  | yes p ↦ p
  | no p ↦
      let above : i ≤ n / range = omega arith in
      let grown : i * range ≤ (n / range) * range = grind arith in
      absurd (omega (arith, div-add-mod n range))
]

pub quotient-remainder : (range n : ℕ) → n / range * range + n % range ≡ n
quotient-remainder range n = omega (arith, div-add-mod n range)
