-- ===== src/SdsStore.antt =====
-- src/server/sds_store.c: the store, a vector of lists of bucket sets.
pub mod Add
pub mod Adds
use sample_sds_storage.Base.{
  ℕ, ◌%◌, ◌^◌, Bool, true, false, Option, none, some, List, [], if◌then◌else◌, ◌==◌, ℤ, success,
  failure, int32, Run, ok, abort, ◌>>=◌, or_fault,
}
use sample_sds_storage.Slice.{Slice, slice_value, slice_size}
use sample_sds_storage.Slice.Strings.{CharPtr, null, at, wild, is_null}
use sample_sds_storage.Vector.{Vector, vector_init, vector_at, vector_insert, vector_destroy}
use sample_sds_storage.Hash.Double.{Double}
use sample_sds_storage.Hash.Jump.{hash_jump_consistent}
use sample_sds_storage.Hash.Mix.{gfs_hashfn_of}
use sample_sds_storage.LinkedList
use sample_sds_storage.LinkedList.{Ptr, Heap, list_create, list_node_create, list_add}
use sample_sds_storage.Bucketset.{Bucketset}
use sample_sds_storage.Conf.{Json, Conf, conf_create, conf_destroy}

abbrev pub sds_store_max_set : ℕ
sds_store_max_set = 8192

-- The mutex serialises the calls of `sds_store_add`. `sets` holds pointers to lists.
pub record SdsStore (json : Json) : Type 0 where
  pub sets : Vector Ptr
  pub cf : Option (Conf json)

-- The bytes that a pointer to a name leads to.
abbrev pub bytes_at : CharPtr → List ℕ
bytes_at (at bs) = bs
bytes_at null = []
bytes_at wild = []

module _ (json : Json) (calloc : ℕ → Bool) where
  -- `path` says whether `conf_path` is not NULL, and `read` is what the file there gives. The
  -- assertion fails where there is no configuration.
  unfoldable pub sds_store_init :
      Option (SdsStore json)
      → (path : Bool) (read : Option (List ℕ)) → Run (ℤ × Option (SdsStore json))
  sds_store_init none path read = ok (failure, none)
  sds_store_init (some ss) false read = ok (failure, some ss)
  sds_store_init (some ss) true read = do
    created ← conf_create json calloc read
    elim created [
      | none ↦ abort
      | some cf ↦ do
        (_, sets) ← vector_init calloc (some ss.sets) sds_store_max_set false
        elim sets [
          | none ↦ abort
          | some vec ↦ ok (success, some (record { sets = vec; cf = some cf }))
        ]
    ]

  -- A list for the slot where there is none; what `vector_insert` returns is not looked at, and
  -- it inserts no NULL.
  unfoldable pub find_list :
      (fresh : Ptr) (index : ℕ) → SdsStore json → Heap Ptr → Run (Ptr × SdsStore json × Heap Ptr)
  find_list fresh index ss h = do
    lt ← vector_at ss.sets index
    elim lt [
      | some list ↦ ok (list, ss, h)
      | none ↦ do
        (list, h') ← list_create fresh h
        (_, sets) ←
            vector_insert calloc ss.sets index (if list == LinkedList.null then none else some list)
        ok (list, record ss { sets = sets }, h')
    ]

  -- `bst` is the set's address with the set there; `fresh_list` and `fresh_node` are what
  -- `calloc` returns for a list and a node. The assertion fails on a NULL node.
  unfoldable pub sds_store_add :
      Double
      → (fresh_list fresh_node : Ptr) → SdsStore json
      → Ptr × Bucketset
      → Heap Ptr
      → Run (ℤ × SdsStore json × Heap Ptr)
  sds_store_add d fresh_list fresh_node ss (address, bst) h = do
    let name_length = int32 (slice_size (some bst.set_name))
    hash ← gfs_hashfn_of (bytes_at (slice_value (some bst.set_name))) name_length
    index ← or_fault (hash_jump_consistent d hash (int32 (ss.sets.size % 2 ^ 32)))
    (lt, ss', h1) ← find_list fresh_list index ss h
    (node, h2) ← list_node_create fresh_node (some address) h1
    if node == LinkedList.null
        then abort
        else (do (_, h3) ← list_add lt node h2; ok (success, ss', h3))

  -- The callback is not set, so the lists stay.
  unfoldable pub sds_store_deinit : Option (SdsStore json) → Run (Unit {0})
  sds_store_deinit none = ok tt
  sds_store_deinit (some ss) = do
    _ ← vector_destroy (some ss.sets)
    _ ← conf_destroy json ss.cf
    ok tt
