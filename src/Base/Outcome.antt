-- ===== src/Base/Outcome.antt =====
-- The outcome of a run of C code, and reads and writes of an array.
use Prim.Native.Nat.{ℕ, ◌<◌, ◌≤◌}
use mathlib.Core.Path.{◌≡◌, ap}
use mathlib.Core.List.{List}
use mathlib.Core.Option.{Option, none, some}
use sample_sds_storage.Base.Checks.{ltb, if◌then◌else◌, lt→ltb, le→ltb}
use sample_sds_storage.Base.Lists.{length, get_elem?, set, get_elem?_ge}

-- `fault` is undefined behaviour, such as an access out of bounds or through NULL; `abort` is a
-- failed `assert`, or a call of `abort`.
pub data Run {ℓ} (A : Type ℓ) : Type ℓ where
  ok : A → Run A
  fault : Run A
  abort : Run A

infixl 5 ◌>>=◌
abbrev pub ◌>>=◌ {ℓ κ} : {A : Type ℓ} {B : Type κ} → Run A → (A → Run B) → Run B
ok a >>= f = f a
fault >>= f = fault
abort >>= f = abort

abbrev value_or {ℓ} : {A : Type ℓ} → A → Run A → A
value_or d (ok a) = a
value_or d fault = d
value_or d abort = d

pub ok-injective {ℓ} : {A : Type ℓ} {a b : A} → ok a ≡ ok b → a ≡ b
ok-injective {a} e = ap (value_or a) e

abbrev pub or_fault {ℓ} : {A : Type ℓ} → Option A → Run A
or_fault none = fault
or_fault (some a) = ok a

module _ {ℓ} {A : Type ℓ} where
  -- `xs[i]`
  unfoldable pub load : List A → ℕ → Run A
  load xs i = or_fault (get_elem? xs i)

  -- `xs[i] = v`
  unfoldable pub store : List A → ℕ → A → Run (List A)
  store xs i v = if ltb i (length xs) then ok (set xs i v) else fault

  pub load-ok : (xs : List A) (i : ℕ) {x : A} → get_elem? xs i ≡ some x → load xs i ≡ ok x
  unfolding load
  load-ok xs i h = rw h

  pub load-fault : (xs : List A) (i : ℕ) → length xs ≤ i → load xs i ≡ fault
  unfolding load
  load-fault xs i h = rw (get_elem?_ge xs i h)

  pub store-ok : (xs : List A) (i : ℕ) (v : A) → i < length xs → store xs i v ≡ ok (set xs i v)
  unfolding store
  store-ok xs i v h = rw (lt→ltb _ _ h)

  pub store-fault : (xs : List A) (i : ℕ) (v : A) → length xs ≤ i → store xs i v ≡ fault
  unfolding store
  store-fault xs i v h = rw (le→ltb _ _ h)
