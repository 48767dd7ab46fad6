-- ===== src/SdsStore/Add.antt =====
-- `sds_store_add` of src/server/sds_store.c: where the set goes.
use sample_sds_storage.Base.{
  sizes, ℕ, ◌%◌, ◌^◌, ◌<◌, ◌≡◌, ◌≢◌, refl, ap, Bool, none, List, [], ◌∷◌, ◌++◌, arith, ==_ne,
  success, int32, int32_small, length, ok, ◌>>=◌,
}
use sample_sds_storage.Slice.Stores.{Stores, slice_value-at, slice_size-Stores}
use sample_sds_storage.Vector.{Vector, vector_at}
use sample_sds_storage.Vector.Contents.{Holds}
use sample_sds_storage.Vector.Sequence.{vector_at-get_elem?}
use sample_sds_storage.Vector.Insert.{vector_insert-at}
use sample_sds_storage.Hash.Double.{Double}
use sample_sds_storage.Hash.Jump.{limit, hash_jump_consistent_none}
use sample_sds_storage.Hash.Mix.{gfs_hashfn_of}
use sample_sds_storage.Hash.Mix.Total.{gfs_hashfn-lt}
use sample_sds_storage.LinkedList
use sample_sds_storage.LinkedList.{
  Ptr, Heap, list_node, write, list_create, list_node_create, list_add,
}
use sample_sds_storage.LinkedList.Chain.{IsList}
use sample_sds_storage.LinkedList.Nodes.{list_create-IsList}
use sample_sds_storage.LinkedList.NewNode.{list_add-list_node_create}
use sample_sds_storage.Bucketset.{Bucketset}
use sample_sds_storage.Conf.{Json}
use sample_sds_storage.SdsStore.{SdsStore, find_list, sds_store_add}

module _ (json : Json) (calloc : ℕ → Bool) (d : Double) where
  find_list-new :
      (fresh : Ptr) (ss : SdsStore json) (h : Heap Ptr)
      → Holds [] ss.sets
      → 1 < ss.sets.cap
      → fresh ≢ LinkedList.null
      → (vec : Vector Ptr) × (g : Heap Ptr) × (find_list json calloc fresh 1 ss h
          ≡ ok (fresh, record ss { sets = vec }, g))
        × Holds [] vec
        × (vec.cap ≡ ss.sets.cap)
        × ((i : ℕ) → vector_at vec i ≡ ok none)
        × IsList g fresh []
  unfolding find_list
  find_list-new fresh ss h held roomy ne =
      let (g, created, is, _) = list_create-IsList fresh h ne in
      let (vec, inserted, _, cap, held', seen) =
        vector_insert-at calloc fresh 1 held (omega (arith, held.count)) roomy in
      (
        vec,
        g,
        rw (◌>>=◌, vector_at-get_elem? held 1)
            (rw (◌>>=◌, created) (rw (==_ne fresh 0 ne) (rw (◌>>=◌, inserted) refl))),
        held',
        cap,
        seen,
        is,
      )

  -- While the vector of sets counts no element and has room for more than one, as after
  -- `sds_store_init`, an added set whose name is a text of 1 to 2 ^ 31 - 1 bytes gets a new list of
  -- its own, at an address that is not NULL, whatever was added before, and the vector still counts
  -- no element: `vector_at` sees none of the sets.
  pub sds_store_add-forgets :
      (fresh_list fresh_node address : Ptr) (ss : SdsStore json) (bst : Bucketset) (h : Heap Ptr)
      {v : List ℕ}
      → Holds [] ss.sets
      → 1 < ss.sets.cap
      → Stores v bst.set_name
      → v ≢ []
      → length v < 2 ^ 31
      → fresh_list ≢ LinkedList.null
      → fresh_node ≢ LinkedList.null
      → (out : SdsStore json) × (g : Heap Ptr) × (sds_store_add json calloc d fresh_list fresh_node
            ss
            (address, bst)
            h
          ≡ ok (success, out, g))
        × Holds [] out.sets
        × (out.sets.cap ≡ ss.sets.cap)
        × ((i : ℕ) → vector_at out.sets i ≡ ok none)
        × IsList g fresh_list ((fresh_node, address) ∷ [])
  unfolding sds_store_add gfs_hashfn_of
  sds_store_add-forgets fresh_list fresh_node address ss bst h {v} held roomy name ne short list_ne
        node_ne =
      let (rest, value) = slice_value-at name ne in
      let (hash, hashed, _) = gfs_hashfn-lt (v ++ 0 ∷ rest) (length v) (grind sizes) in
      let count = int32 (ss.sets.size % 2 ^ 32) in
      let no_bucket : limit count ≡ 0 = ap (λ n. limit (int32 (n % 2 ^ 32))) held.count in
      let jump = hash_jump_consistent_none d hash count no_bucket in
      let (vec, h1, found, held', cap, seen, is1) =
        find_list-new fresh_list ss h held roomy list_ne in
      let (mid, g, node, added, is', _) =
        list_add-list_node_create h1 fresh_list fresh_node address [] is1 node_ne refl
          (omega arith) in
      (
        record ss { sets = vec },
        g,
        rw (value, slice_size-Stores name, int32_small (length v) short)
            (rw (◌>>=◌, hashed)
              (rw (◌>>=◌, jump)
                (rw (◌>>=◌, found)
                  (rw (◌>>=◌, node) (rw (==_ne fresh_node 0 node_ne) (rw (◌>>=◌, added) refl)))))),
        held',
        cap,
        seen,
        is',
      )
