-- ===== src/Bucket/Effect.antt =====
-- What a call of `bucket_put` of src/server/bucket.c does to its bucket.
use sample_sds_storage.Base.{
  ℕ, ◌+◌, ◌-◌, ◌%◌, ◌^◌, ◌≡◌, refl, ap, inl, inr, Bool, true, false, not, ◌&&◌, success, failure,
  fault, abort, Bool-cases, Option-cases, Option, none, some, List, arith, leb, ◌==◌, if◌then◌else◌,
  ℤ, int32, is_success, is_failure, ok, or_fault, Always, Always-bind, Always-after, Always-if,
}
use sample_sds_storage.Slice.{slice_value}
use sample_sds_storage.Vector.{Vector, vector_at, vector_insert}
use sample_sds_storage.Hash.Double.{Double}
use sample_sds_storage.Hash.Jump.{hash_jump_consistent}
use sample_sds_storage.LinkedList
use sample_sds_storage.LinkedList.{Ptr, Heap, list_create, list_node_create, list_add}
use sample_sds_storage.BucketObject.{BucketObject, object_size}
use sample_sds_storage.BucketStore.{call_write}
use sample_sds_storage.Utils.{Read, Write}
use sample_sds_storage.Bucket.{
  Bucket, Files, word, bucket_create_data_fd, bucket_check_data_fd, find_list, is_fatal, bucket_put,
}

abbrev pub data_file : Files → Bucket → List ℕ
data_file fs bt = fs.name_of (slice_value (some bt.name)) bt.index

-- The file that the old index names is not there and can be opened.
abbrev pub switches : Files → Bucket → Bool
switches fs bt =
    not (fs.exists (data_file fs bt)) && not (is_failure (fs.open_file (data_file fs bt)))

-- The bucket once its data file has been looked at: where it is full, the file that the old index
-- names is opened in its place, where it can be, and the index raised.
abbrev pub with_room : Files → Bucket → Bucket
with_room fs bt =
    if leb bt.data_file_max_length bt.data_file_cur_length && switches fs bt
    then record bt { fd = fs.open_file (data_file fs bt); index = (bt.index + 1) % word }
    else bt

with_room-offset : (fs : Files) (bt : Bucket) → (with_room fs bt).current_offset ≡ bt.current_offset
with_room-offset fs bt = ground arith

keep_offset :
    (bt : Bucket) (cache : Vector Ptr) {n : ℕ}
    → bt.current_offset ≡ n
    → some (record bt { cache = cache }) ≡ some (record bt { cache = cache; current_offset = n })
keep_offset bt cache e = ap (λ n. some (record bt { cache = cache; current_offset = n })) e

-- The bucket that a call of `bucket_put` leaves, but for its cache.
abbrev pub Leaves : Files → Bucket → (bytes : ℕ) → Option (ℤ × Option Bucket × Heap Ptr) → Type 0
Leaves fs bt bytes none = Unit
Leaves fs bt bytes (some (ret, out, h)) =
    (cache : Vector Ptr) × (out
      ≡ some (record (with_room fs bt) {
        cache = cache;
        current_offset =
            if is_success ret then (bt.current_offset + bytes) % word else bt.current_offset;
      }))

abbrev IsChecked : Files → Bucket → ℤ × Bucket → Type 0
IsChecked fs bt (ret, out) = out ≡ with_room fs bt

module _ (fs : Files) (calloc : ℕ → Bool) where
  -- What follows `open`.
  opened-IsChecked :
      (bt : Bucket)
      → leb bt.data_file_max_length bt.data_file_cur_length ≡ true
      → fs.exists (data_file fs bt) ≡ false
      → let fd = fs.open_file (data_file fs bt) in
        Always (IsChecked fs bt) (
          if is_failure fd
          then (if fs.log_open then fault else ok (failure, bt))
          else ok (success, record bt { fd = fd; index = (bt.index + 1) % word }))
  opened-IsChecked bt full new = elim (Bool-cases (is_failure (fs.open_file (data_file fs bt)))) [
    | inr opened ↦ rw (opened, full, new, opened) refl
    | inl closed ↦ elim (Bool-cases fs.log_open) [
      | inl logs ↦ rw (closed, logs) tt
      | inr silent ↦ rw (closed, silent, full, new, closed) refl
    ]
  ]

  bucket_check_data_fd-IsChecked :
      (bt : Bucket) → Always (IsChecked fs bt) (bucket_check_data_fd fs calloc bt)
  unfolding bucket_check_data_fd bucket_create_data_fd
  bucket_check_data_fd-IsChecked bt =
      let file = data_file fs bt in
      elim (Bool-cases (leb bt.data_file_max_length bt.data_file_cur_length)) [
        | inr room ↦ rw (room, room) refl
        | inl full ↦ elim (Bool-cases (fs.exists file)) [
          | inl old ↦
              rw (full, old)
                (elim (Bool-cases fs.log_open) [
                  | inl logs ↦ rw logs tt
                  | inr silent ↦ rw (silent, full, old) refl
                ])
          | inr new ↦ elim (Bool-cases (fs.allocates file bt.data_file_max_length)) [
            | inl space ↦ rw (full, new, space) (opened-IsChecked bt full new)
            | inr no_space ↦
                rw (full, new, no_space)
                  (Always-bind (λ fd. fd ≡ fs.open_file file) (IsChecked fs bt)
                    (if fs.log_open then abort else ok (fs.open_file file)) _
                    (Always-if _ fs.log_open _ _ (λ _. tt) (λ _. refl))
                    (λ fd same. rw same (opened-IsChecked bt full new)))
          ]
        ]
      ]

  -- Only the cache changes.
  abbrev HasList : Bucket → Ptr × Bucket × Heap Ptr → Type 0
  HasList bt (list, out, h) = (cache : Vector Ptr) × (out ≡ record bt { cache = cache })

  find_list-HasList :
      (fresh : Ptr) (index hash : ℕ) (bt : Bucket) (h : Heap Ptr)
      → Always (HasList bt) (find_list fs calloc fresh index hash bt h)
  unfolding find_list
  find_list-HasList fresh index hash bt h =
      Always-after (HasList bt) (vector_at bt.cache index) _ (λ lt. elim (Option-cases lt) [
        | inr (list, e) ↦ rw e (bt.cache, refl)
        | inl e ↦ rw e (
            Always-after (HasList bt) (list_create fresh h) _ (λ (list, h').
              Always-if (HasList bt) (list == LinkedList.null) _ _ (λ _. tt)
                (λ _.
                  Always-after (HasList bt) (vector_insert calloc bt.cache hash (some list)) _
                    (λ (_, cache). (cache, refl)))))
      ])

  bucket_put-Leaves-Always :
      (d : Double) (reads : List Read) (writes : List Write) (fresh_list fresh_node address : Ptr)
      (bt : Bucket) (obj : BucketObject) (h : Heap Ptr)
      → Always (Leaves fs bt (object_size + obj.data_len + obj.obj_name_len)) (
          bucket_put fs calloc d reads writes fresh_list fresh_node
            (some bt)
            (some (address, obj))
            h)
  unfolding bucket_put
  bucket_put-Leaves-Always d reads writes fresh_list fresh_node address bt obj h =
      let P = Leaves fs bt (object_size + obj.data_len + obj.obj_name_len) in
      let kept : (with_room fs bt).current_offset ≡ bt.current_offset = with_room-offset fs bt in
      Always-bind (IsChecked fs bt) P (bucket_check_data_fd fs calloc bt) _
        (bucket_check_data_fd-IsChecked bt)
        (λ (ret, bt1) checked.
          Always-if P (is_fatal fs calloc ret) _ _ (λ _. tt)
            (λ _.
              let same : bt1 ≡ with_room fs bt = checked in
              Always-after P
                (or_fault (
                  hash_jump_consistent d obj.obj_hash
                    (int32 ((bt1.max_rank + (word - bt1.min_rank)) % word))))
                _
                (λ jump.
                  let index = (jump + bt1.min_rank) % 2 ^ 32 in
                  Always-bind (HasList bt1) P
                    (find_list fs calloc fresh_list index obj.obj_hash bt1 h) _
                    (find_list-HasList fresh_list index obj.obj_hash bt1 h)
                    (λ (list, bt2, h1) (cache, found).
                      Always-after P (call_write bt2.bs reads writes obj) _ (λ written.
                        elim (Option-cases written) [
                          | inl e ↦ rw e tt
                          | inr ((wrote, sent), e) ↦ rw e (
                              Always-if P (is_success wrote) _ _
                                (λ _.
                                  Always-after P (list_node_create fresh_node (some address) h1) _
                                    (λ (node, h2).
                                      Always-after P (list_add list node h2) _
                                        (λ (_, h3). (cache, rw (found, same, kept) refl))))
                                (λ _. (
                                  cache,
                                  rw (found, same) (keep_offset (with_room fs bt) cache kept),
                                )))
                        ])))))

  -- A call of `bucket_put` that returns, whatever it returns, leaves the bucket's name, id and
  -- range alone. It opens the data file that the old index names, and raises the index, exactly
  -- where the current length has reached the maximum and that file was not there and can be opened;
  -- it raises the offset by the sizes of the object exactly where it returns 0.
  pub bucket_put-Leaves :
      (d : Double) (reads : List Read) (writes : List Write) (fresh_list fresh_node address : Ptr)
      (bt : Bucket) (obj : BucketObject) (h h' : Heap Ptr) (ret : ℤ) (out : Option Bucket)
      → bucket_put fs calloc d reads writes fresh_list fresh_node (some bt) (some (address, obj)) h
        ≡ ok (some (ret, out, h'))
      → (cache : Vector Ptr) × (out
          ≡ some (record (with_room fs bt) {
            cache = cache;
            current_offset =
                if is_success ret
                then (bt.current_offset + (object_size + obj.data_len + obj.obj_name_len)) % word
                else bt.current_offset;
          }))
  bucket_put-Leaves d reads writes fresh_list fresh_node address bt obj h h' ret out e =
      rw e at (bucket_put-Leaves-Always d reads writes fresh_list fresh_node address bt obj h)
