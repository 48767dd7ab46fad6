-- ===== src/Vector/Calls.antt =====
-- Any number of calls of src/common/vector.c, one after another, against a list.
use sample_sds_storage.Base.{
  sizes, ℕ, ◌+◌, ◌*◌, ◌^◌, ◌≤◌, ◌<◌, ◌≡◌, refl, ◌⊎◌, Bool, true, Option, some, List, [], ◌∷◌, ◌++◌,
  arith, success, length, get_elem?, set, length-set, Run, ok, ◌>>=◌, store-ok,
}
use sample_sds_storage.Vector.{Vector, vector_init, vector_insert, vector_push_back, vector_at}
use sample_sds_storage.Vector.Contents.{
  Holds, Grows, grow_if_full-Holds, set-Holds, vector_push_back-Holds,
}
use sample_sds_storage.Vector.Sequence.{vector_at-get_elem?, vector_init-Holds}

pub data Call (A : Type 0) : Type 0 where
  push : A → Call A
  insert : (index : ℕ) → A → Call A
  read : (index : ℕ) → Call A

module _ {A : Type 0} where
  -- The list after a call, and what the call has read.
  abbrev pub replay : Call A → List A → List A
  replay (push x) xs = xs ++ x ∷ []
  replay (insert index x) xs = set xs index x
  replay (read index) xs = xs

  abbrev pub answer : Call A → List A → List (Option A)
  answer (read index) xs = get_elem? xs index ∷ []
  answer _ xs = []

  abbrev pub replay_all : List (Call A) → List A → List A
  replay_all [] xs = xs
  replay_all (call ∷ calls) xs = replay_all calls (replay call xs)

  abbrev pub answers : List (Call A) → List A → List (Option A)
  answers [] xs = []
  answers (call ∷ calls) xs = answer call xs ++ answers calls (replay call xs)

  -- `vector_insert` only replaces.
  abbrev pub IsLegal : Call A → List A → Type 0
  IsLegal (insert index x) xs = index < length xs
  IsLegal _ xs = Unit

  abbrev pub AreLegal : List (Call A) → List A → Type 0
  AreLegal [] xs = Unit
  AreLegal (call ∷ calls) xs = IsLegal call xs × AreLegal calls (replay call xs)

module _ {A : Type 0} (calloc : ℕ → Bool) where
  abbrev pub perform : Vector A → Call A → Run (Vector A × List (Option A))
  perform vec (push x) = do (_, out) ← vector_push_back calloc vec (some x); ok (out, [])
  perform vec (insert index x) = do (_, out) ← vector_insert calloc vec index (some x); ok (out, [])
  perform vec (read index) = do x ← vector_at vec index; ok (vec, x ∷ [])

  abbrev pub perform_all : Vector A → List (Call A) → Run (Vector A × List (Option A))
  perform_all vec [] = ok (vec, [])
  perform_all vec (call ∷ calls) = do
    (mid, seen) ← perform vec call
    (out, rest) ← perform_all mid calls
    ok (out, seen ++ rest)

  -- `vector_insert` below the size replaces the element, in a block that has grown where it was
  -- full.
  vector_insert-Holds :
      {xs : List A} {vec : Vector A} (x : A) (index : ℕ)
      → Holds xs vec
      → Grows calloc vec
      → 0 < vec.cap
      → index < length xs
      → (out : Vector A) × (vector_insert calloc vec index (some x) ≡ ok (success, out))
        × Holds (set xs index x) out
        × ((out.cap ≡ vec.cap) ⊎ (vec.size ≡ vec.cap) × (out.cap ≡ vec.cap * 2))
  unfolding vector_insert
  vector_insert-Holds {xs} {vec} x index h grows pos inside =
      let (out, run, held, free, size, grown) = grow_if_full-Holds calloc h grows pos in
      (
        record out { tables = set out.tables index (some x) },
        rw (run, store-ok out.tables index (some x) (omega (arith, held.block, held.count))) refl,
        set-Holds index x held,
        grown,
      )

  abbrev IsBounded : Vector A → Type 0
  IsBounded vec = (0 < vec.cap) × (vec.cap < 2 ^ 63)

  module _ (room : (n : ℕ) → calloc n ≡ true) where
    grows : {xs : List A} {vec : Vector A} → Holds xs vec → IsBounded vec → Grows calloc vec
    grows h b full = (room _, omega (arith, b.1))

    bounded :
        (out : Vector A) {xs : List A} {vec : Vector A}
        → Holds xs vec
        → IsBounded vec
        → length xs < 2 ^ 62
        → (out.cap ≡ vec.cap) ⊎ (vec.size ≡ vec.cap) × (out.cap ≡ vec.cap * 2)
        → IsBounded out
    bounded out h (pos, wide) small grown = omega (arith, h.count, grown)

    perform-Holds :
        (call : Call A) {xs : List A} (vec : Vector A)
        → Holds xs vec
        → IsBounded vec
        → IsLegal call xs
        → length xs < 2 ^ 62
        → (out : Vector A) × (perform vec call ≡ ok (out, answer call xs))
          × Holds (replay call xs) out
          × IsBounded out
          × (length (replay call xs) ≤ length xs + 1)
    perform-Holds (push x) {xs} vec h b legal small =
        let (out, run, held, grown, _) =
          vector_push_back-Holds calloc x h (grows h b) b.0 (omega (arith, h.count)) in
        (out, rw run refl, held, bounded out h b small grown, grind sizes)
    perform-Holds (insert index x) {xs} vec h b legal small =
        let (out, run, held, grown) = vector_insert-Holds x index h (grows h b) b.0 legal in
        (out, rw run refl, held, bounded out h b small grown, omega (arith, length-set xs index x))
    perform-Holds (read index) vec h b legal small =
        (vec, rw (vector_at-get_elem? h index) refl, h, b, omega arith)

    perform_all-Holds :
        (calls : List (Call A)) {xs : List A} (vec : Vector A)
        → Holds xs vec
        → IsBounded vec
        → AreLegal calls xs
        → length xs + length calls < 2 ^ 62
        → (out : Vector A) × (perform_all vec calls ≡ ok (out, answers calls xs))
          × Holds (replay_all calls xs) out
    perform_all-Holds [] vec h b legal small = (vec, refl, h)
    perform_all-Holds (call ∷ calls) vec h b (now, later) small =
        let (mid, run, held, b', size) = perform-Holds call vec h b now (omega arith) in
        let (out, runs, all) = perform_all-Holds calls mid held b' later (omega arith) in
        (out, rw (◌>>=◌, run) (rw (◌>>=◌, runs) refl), all)

    -- From `vector_init` with a positive capacity below 2 ^ 63, any sequence of fewer than 2 ^ 62
    -- calls that push, that insert in place of an element, at an index below the count, or that
    -- read at any index succeeds where memory lasts: the reads give what the same calls give on a
    -- list, NULL past its end, and the vector ends with that list.
    pub perform_all-replays :
        (calls : List (Call A)) (old : Vector A) (cap : ℕ) (cb : Bool)
        → 0 < cap
        → cap < 2 ^ 63
        → AreLegal calls []
        → length calls < 2 ^ 62
        → (vec : Vector A) × (out : Vector A) × (vector_init calloc (some old) cap cb
            ≡ ok (success, some vec))
          × (perform_all vec calls ≡ ok (out, answers calls []))
          × Holds (replay_all calls []) out
    perform_all-replays calls old cap cb pos wide legal small =
        let (vec, run, held, e) = vector_init-Holds calloc old cap cb (room cap) in
        let (out, runs, all) =
          perform_all-Holds calls vec held (omega arith, omega arith) legal (omega arith) in
        (vec, out, run, runs, all)
