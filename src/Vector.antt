-- ===== src/Vector.antt =====
-- src/common/vector.c: a growing array of pointers. `tables` is the block that `calloc` gave, a
-- slot being a pointer or NULL; `cb` says whether a callback is set. The mutex serialises the
-- calls, and a call is one step here.
pub mod Calls
pub mod Contents
pub mod Insert
pub mod Sequence
use sample_sds_storage.Base.{
  ℕ, zero, suc, ◌+◌, ◌*◌, ◌%◌, ◌^◌, Bool, false, Option, none, some, List, [], ◌∷◌, ltb, ◌==◌,
  if◌then◌else◌, ℤ, success, failure, is_success, replicate, Run, ok, abort, ◌>>=◌, load, store,
}

pub record Vector {ℓ} (A : Type ℓ) : Type ℓ where
  pub size : ℕ
  pub cap : ℕ
  pub tables : List (Option A)
  pub cb : Bool

abbrev pub word : ℕ
word = 2 ^ 64

-- `for (i = 0; i < size; i++) tables[i] = vec->tables[i];` with `left` rounds to go
unfoldable pub copy_loop {ℓ} :
    {A : Type ℓ} → ℕ → ℕ → List (Option A) → List (Option A) → Run (List (Option A))
copy_loop zero i src dst = ok dst
copy_loop (suc left) i src dst = do
  x ← load src i
  dst' ← store dst i x
  copy_loop left (i + 1) src dst'

-- The loop of `vector_deinit`: the slots that the callback is called on, in order.
unfoldable pub call_loop {ℓ} : {A : Type ℓ} → ℕ → ℕ → List (Option A) → Run (List (Option A))
call_loop zero i src = ok []
call_loop (suc left) i src = do x ← load src i; rest ← call_loop left (i + 1) src; ok (x ∷ rest)

-- `calloc n` says whether a block of `n` pointers can be had.
module _ {ℓ} {A : Type ℓ} (calloc : ℕ → Bool) where
  -- The argument is the structure pointed to, or NULL.
  unfoldable pub vector_init : Option (Vector A) → ℕ → Bool → Run (ℤ × Option (Vector A))
  vector_init none cap cb = ok (failure, none)
  vector_init (some vec) cap cb =
      if calloc cap
      then ok (success, some (record { size = 0; cap = cap; tables = replicate cap none; cb = cb }))
      else abort

  unfoldable pub vector_create : ℕ → Bool → Run (Option (Vector A))
  unfolding vector_init
  vector_create cap cb =
      if calloc 1
      then (do
        (ret, vec) ←
            vector_init (some (record { size = 0; cap = 0; tables = []; cb = false })) cap cb
        ok (if is_success ret then vec else none))
      else abort

  unfoldable pub vector_expand : Vector A → Run (ℤ × Vector A)
  unfolding copy_loop
  vector_expand vec =
      let cap = (vec.cap * 2) % word in
      if calloc cap
      then (do
        tables ← copy_loop vec.size 0 vec.tables (replicate cap none)
        ok (success, record vec { tables = tables; cap = cap }))
      else ok (failure, vec)

  -- The test that `vector_insert` and `vector_push_back` begin with.
  unfoldable pub grow_if_full : Vector A → Run (ℤ × Vector A)
  grow_if_full vec = if vec.size == vec.cap then vector_expand vec else ok (success, vec)

  unfoldable pub vector_insert : Vector A → ℕ → Option A → Run (ℤ × Vector A)
  vector_insert vec index none = ok (failure, vec)
  vector_insert vec index (some x) = do
    (ret, grown) ← grow_if_full vec
    if is_success ret
        then (do
          tables ← store grown.tables index (some x)
          ok (success, record grown { tables = tables }))
        else ok (failure, grown)

  unfoldable pub vector_push_back : Vector A → Option A → Run (ℤ × Vector A)
  vector_push_back vec none = ok (failure, vec)
  vector_push_back vec (some x) = do
    (ret, grown) ← grow_if_full vec
    if is_success ret
        then (do
          tables ← store grown.tables grown.size (some x)
          ok (success, record grown { tables = tables; size = (grown.size + 1) % word }))
        else ok (failure, grown)

module _ {ℓ} {A : Type ℓ} where
  unfoldable pub vector_size : Vector A → ℕ
  vector_size vec = vec.size

  unfoldable pub vector_at : Vector A → ℕ → Run (Option A)
  vector_at vec index = if ltb index vec.size then load vec.tables index else ok none

  -- The slots handed to the callback, and the structure left.
  unfoldable pub vector_deinit : Option (Vector A) → Run (List (Option A) × Option (Vector A))
  unfolding call_loop
  vector_deinit none = ok ([], none)
  vector_deinit (some vec) = do
    calls ← (if vec.cb then call_loop vec.size 0 vec.tables else ok [])
    ok (calls, some (record vec { tables = []; size = 0; cap = 0 }))

  -- The structure itself is freed too.
  unfoldable pub vector_destroy : Option (Vector A) → Run (List (Option A))
  vector_destroy none = ok []
  vector_destroy (some vec) = do (calls, _) ← vector_deinit (some vec); ok calls
