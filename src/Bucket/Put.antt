-- ===== src/Bucket/Put.antt =====
-- `bucket_put` of src/server/bucket.c: where an object is recorded.
use sample_sds_storage.Base.{
  ℕ, ◌+◌, ◌-◌, ◌%◌, ◌^◌, ◌<◌, ◌≤◌, ◌≡◌, ◌≢◌, refl, ◌∙◌, Bool, true, false, some, List, [], ◌∷◌,
  arith, leb, lt→ltb, ==_ne, pos, success, int32, ok, fault, ◌>>=◌,
}
use sample_sds_storage.Vector.{Vector}
use sample_sds_storage.Vector.Contents.{Holds}
use sample_sds_storage.Vector.Sequence.{vector_at-get_elem?}
use sample_sds_storage.Vector.Insert.{vector_insert-at, vector_insert_outside}
use sample_sds_storage.Hash.Double.{Double}
use sample_sds_storage.Hash.Jump.{hash_jump_consistent-lt}
use sample_sds_storage.LinkedList
use sample_sds_storage.LinkedList.{
  Ptr, Heap, list_node, write, list_create, list_node_create, list_add,
}
use sample_sds_storage.LinkedList.Chain.{IsList}
use sample_sds_storage.LinkedList.Nodes.{list_create-IsList}
use sample_sds_storage.LinkedList.NewNode.{list_add-list_node_create}
use sample_sds_storage.BucketObject.{BucketObject, object_size}
use sample_sds_storage.BucketStore.{signed_len, call_write_set}
use sample_sds_storage.BucketStore.Outcomes.{IsNullRead, write_bucket_object_returns}
use sample_sds_storage.Utils.{Read, Write}
use sample_sds_storage.Bucket.{Bucket, Files, word, bucket_check_data_fd, find_list, bucket_put}

module _ (fs : Files) (calloc : ℕ → Bool) where
  find_list-new :
      (fresh : Ptr) (index hash : ℕ) (bt : Bucket) (h : Heap Ptr)
      → Holds [] bt.cache
      → hash < bt.cache.cap
      → fresh ≢ LinkedList.null
      → (cache : Vector Ptr) × (g : Heap Ptr) × (find_list fs calloc fresh index hash bt h
          ≡ ok (fresh, record bt { cache = cache }, g))
        × Holds [] cache
        × IsList g fresh []
  unfolding find_list
  find_list-new fresh index hash bt h held inside ne =
      let (g, created, is, _) = list_create-IsList fresh h ne in
      let (cache, inserted, _, _, held', _) =
        vector_insert-at calloc fresh hash held (omega (arith, held.count)) inside in
      (
        cache,
        g,
        rw (◌>>=◌, vector_at-get_elem? held index)
            (rw (◌>>=◌, created) (rw (==_ne fresh 0 ne) (rw (◌>>=◌, inserted) refl))),
        held',
        is,
      )

  find_list-outside :
      (fresh : Ptr) (index hash : ℕ) (bt : Bucket) (h : Heap Ptr)
      → Holds [] bt.cache
      → 0 < bt.cache.cap
      → bt.cache.cap ≤ hash
      → fresh ≢ LinkedList.null
      → find_list fs calloc fresh index hash bt h ≡ fault
  unfolding find_list
  find_list-outside fresh index hash bt h held some_slot outside ne =
      let (g, created, is, _) = list_create-IsList fresh h ne in
      let past = vector_insert_outside calloc fresh hash held (omega (arith, held.count)) outside in
      rw (◌>>=◌, vector_at-get_elem? held index)
        (rw (◌>>=◌, created) (rw (==_ne fresh 0 ne) (rw (◌>>=◌, past) refl)))

  pub bucket_put-forgets :
      (d : Double) (read : Read) (reads : List Read) (writes : List Write)
      (fresh_list fresh_node address : Ptr) (bt : Bucket) (obj : BucketObject) (h : Heap Ptr)
      → IsNullRead read
      → 0 < signed_len obj.data_len
      → bt.data_file_cur_length < bt.data_file_max_length
      → bt.min_rank < bt.max_rank
      → bt.max_rank < bt.min_rank + 2 ^ 31
      → bt.max_rank < word
      → Holds [] bt.cache
      → 0 < bt.cache.cap
      → bt.bs.write_bucket_object ≡ true
      → fresh_list ≢ LinkedList.null
      → fresh_node ≢ LinkedList.null
      → (obj.obj_hash < bt.cache.cap
          → (cache : Vector Ptr) × (g : Heap Ptr) × (bucket_put fs calloc d
                (read ∷ reads)
                writes
                fresh_list
                fresh_node
                (some bt)
                (some (address, obj))
                h
              ≡ ok (
                  some (
                    success,
                    some (record bt {
                      cache = cache;
                      current_offset =
                          (bt.current_offset + (object_size + obj.data_len + obj.obj_name_len))
                          % word;
                    }),
                    g,
                  )))
            × Holds [] cache
            × IsList g fresh_list ((fresh_node, address) ∷ []))
        × (bt.cache.cap ≤ obj.obj_hash
            → bucket_put fs calloc d
                (read ∷ reads)
                writes
                fresh_list
                fresh_node
                (some bt)
                (some (address, obj))
                h
              ≡ fault)
  unfolding bucket_put bucket_check_data_fd
  bucket_put-forgets d read reads writes fresh_list fresh_node address bt obj h blank filled room
        low small high held slots callable list_ne node_ne =
      let open_file : leb bt.data_file_max_length bt.data_file_cur_length ≡ false = ground arith in
      let width : (bt.max_rank + (word - bt.min_rank)) % word ≡ bt.max_rank - bt.min_rank =
        omega arith in
      let (v, jump, _) =
        hash_jump_consistent-lt d obj.obj_hash (bt.max_rank - bt.min_rank) (omega arith)
          (omega arith) in
      let count : int32 ((bt.max_rank + (word - bt.min_rank)) % word)
          ≡ pos (bt.max_rank - bt.min_rank) =
        rw width (ground arith) in
      let index = (v + bt.min_rank) % 2 ^ 32 in
      let wrote =
        call_write_set bt.bs (read ∷ reads) writes obj callable
        ∙ write_bucket_object_returns read reads writes obj blank in
      (
        λ inside.
            let (cache, h1, found, held', is1) =
              find_list-new fresh_list index obj.obj_hash bt h held inside list_ne in
            let (mid, g, node, added, is', _) =
              list_add-list_node_create h1 fresh_list fresh_node address [] is1 node_ne refl
                (omega arith) in
            (
              cache,
              g,
              rw (open_file, count)
                  (rw (◌>>=◌, jump)
                    (rw (◌>>=◌, found)
                      (rw (◌>>=◌, wrote)
                        (rw (lt→ltb 0 _ filled) (rw (◌>>=◌, node) (rw (◌>>=◌, added) refl)))))),
              held',
              is',
            ),
        λ outside.
            rw (open_file, count)
              (rw (◌>>=◌, jump)
                (rw
                  (
                    ◌>>=◌,
                    find_list-outside fresh_list index obj.obj_hash bt h held slots outside list_ne,
                  )
                  refl)),
      )
