-- ===== src/Hash/Double.antt =====
-- The `double` arithmetic that the jump hash of src/common/hash.c relies on.
use sample_sds_storage.Base.{ℕ, ◌^◌, ◌≤◌, ◌<◌}

-- IEEE 754: an integer below 2 ^ 53 is exact, and rounding keeps the order, so a quotient of at
-- least 1 stays at least 1, and a product with such a factor is at least the other factor.
pub record Double : Type 1 where
  pub Value : Type 0
  pub of_int : ℕ → Value
  pub div : Value → Value → Value
  pub mul : Value → Value → Value
  pub to_int : Value → ℕ
  pub Le : Value → Value → Type 0
  pub one-le-div :
      (a b : ℕ) → 0 < b → b ≤ a → a < 2 ^ 53 → Le (of_int 1) (div (of_int a) (of_int b))
  pub le-mul : (n : ℕ) (q : Value) → n < 2 ^ 53 → Le (of_int 1) q → Le (of_int n) (mul (of_int n) q)
  pub le-to_int : (n : ℕ) (x : Value) → n < 2 ^ 53 → Le (of_int n) x → n ≤ to_int x
