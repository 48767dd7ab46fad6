-- ===== src/Vector/Insert.antt =====
-- `vector_insert` of src/common/vector.c, and the pushes that fail.
use sample_sds_storage.Base.{
  ℕ, ◌*◌, ◌%◌, ◌≤◌, ◌<◌, ◌≡◌, refl, Bool, true, false, none, some, List, arith, ==_refl, ◌==◌,
  success, failure, get_elem?, set, ok, fault, store, store-ok, store-fault,
}
use sample_sds_storage.Vector.{
  Vector, word, copy_loop, vector_expand, grow_if_full, vector_insert, vector_push_back, vector_at,
}
use sample_sds_storage.Vector.Contents.{set-Holds, Holds}
use sample_sds_storage.Vector.Sequence.{vector_at-get_elem?}

module _ {A : Type 0} (calloc : ℕ → Bool) where
  -- `vector_push_back` changes nothing and returns -1 for a NULL pointer, and for a full block
  -- that cannot be made larger.
  pub vector_push_back_fails :
      (vec : Vector A) (x : A)
      → vec.size ≡ vec.cap
      → calloc ((vec.cap * 2) % word) ≡ false
      → (vector_push_back calloc vec none ≡ ok (failure, vec))
        × (vector_push_back calloc vec (some x) ≡ ok (failure, vec))
  unfolding vector_push_back grow_if_full vector_expand
  vector_push_back_fails vec x full out = (refl, rw full (rw (==_refl vec.cap, out) refl))

  -- A vector of capacity 0 cannot grow: doubling gives a block of 0 slots, and the first push
  -- writes past its end.
  pub vector_push_back_empty :
      (vec : Vector A) (x : A)
      → vec.cap ≡ 0
      → vec.size ≡ 0
      → calloc 0 ≡ true
      → vector_push_back calloc vec (some x) ≡ fault
  unfolding vector_push_back grow_if_full vector_expand copy_loop store
  vector_push_back_empty vec x nocap nosize room = rw (nosize, nocap, room) refl

  -- `vector_insert` into a block that is not full writes at an index below the capacity, changes no
  -- other slot and changes neither the size nor the capacity: `vector_at` sees the pointer only
  -- below the size.
  pub vector_insert-at :
      {xs : List A} {vec : Vector A} (x : A) (index : ℕ)
      → Holds xs vec
      → vec.size < vec.cap
      → index < vec.cap
      → (out : Vector A) × (vector_insert calloc vec index (some x) ≡ ok (success, out))
        × (out.size ≡ vec.size)
        × (out.cap ≡ vec.cap)
        × Holds (set xs index x) out
        × ((i : ℕ) → vector_at out i ≡ ok (get_elem? (set xs index x) i))
  unfolding vector_insert grow_if_full
  vector_insert-at {xs} {vec} x index h free inside =
      let held : Holds (set xs index x) (record vec { tables = set vec.tables index (some x) }) =
        set-Holds index x h in
      let open_slot : (vec.size == vec.cap) ≡ false = ground arith in
      (
        record vec { tables = set vec.tables index (some x) },
        rw (open_slot, store-ok vec.tables index (some x) (omega (arith, h.block))) refl,
        refl,
        refl,
        held,
        vector_at-get_elem? held,
      )

  -- At an index past the block the write is out of bounds.
  pub vector_insert_outside :
      {xs : List A} {vec : Vector A} (x : A) (index : ℕ)
      → Holds xs vec
      → vec.size < vec.cap
      → vec.cap ≤ index
      → vector_insert calloc vec index (some x) ≡ fault
  unfolding vector_insert grow_if_full
  vector_insert_outside {vec} x index h free outside =
      let open_slot : (vec.size == vec.cap) ≡ false = ground arith in
      rw (open_slot, store-fault vec.tables index (some x) (omega (arith, h.block))) refl
