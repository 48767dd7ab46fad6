-- ===== src/Bucket.antt =====
-- src/server/bucket.c: a range of hashes with its data file and its cache of object lists.
pub mod Effect
pub mod Put
pub mod Puts
use sample_sds_storage.Base.{
  ℕ, ◌+◌, ◌-◌, ◌%◌, ◌^◌, Bool, true, false, not, ◌&&◌, Option, none, some, List, [], leb, ◌==◌,
  if◌then◌else◌, ℤ, pos, success, failure, int32, is_success, is_failure, Run, ok, fault, abort,
  ◌>>=◌, or_fault,
}
use sample_sds_storage.Slice.{Slice, slice, ptr, slice_value, slice_init}
use sample_sds_storage.Slice.Strings.{CharPtr, is_null}
use sample_sds_storage.Vector.{Vector, vector_init, vector_at, vector_insert}
use sample_sds_storage.Hash.Double.{Double}
use sample_sds_storage.Hash.Jump.{hash_jump_consistent}
use sample_sds_storage.BucketObject.{BucketObject, object_size}
use sample_sds_storage.BucketStore.{Operations, bucket_store_init, call_write}
use sample_sds_storage.LinkedList
use sample_sds_storage.LinkedList.{Ptr, Heap, list_create, list_node_create, list_add}
use sample_sds_storage.Utils.{Read, Write}

-- `cache` holds pointers to lists; the mutex serialises calls, and `ctx` is not used.
pub record Bucket : Type 0 where
  pub fd : ℤ
  pub id : ℤ
  pub name : Slice
  pub min_rank : ℕ
  pub max_rank : ℕ
  pub data_file_max_length : ℕ
  pub data_file_cur_length : ℕ
  pub index : ℕ
  pub current_offset : ℕ
  pub bs : Operations
  pub cache : Vector Ptr

abbrev pub word : ℕ
word = 2 ^ 64

-- Whether the log has an open descriptor, and the file system, by the name of a file: whether
-- `stat` finds it, what `open` returns, and whether `fallocate` of so many bytes succeeds.
-- `name_of` is the `snprintf` of `"%s.%d"`.
pub record Files : Type 0 where
  pub log_open : Bool
  pub name_of : CharPtr → ℕ → List ℕ
  pub exists : List ℕ → Bool
  pub open_file : List ℕ → ℤ
  pub allocates : List ℕ → ℕ → Bool

-- A data file that is there already is not opened. A fatal message ends the process where the log
-- is open, and does nothing where it is not.
unfoldable pub bucket_create_data_fd : Files → Bucket → Run ℤ
bucket_create_data_fd fs bt =
    let file = fs.name_of (slice_value (some bt.name)) bt.index in
    if fs.exists file
    then ok failure
    else if fs.allocates file bt.data_file_max_length
    then ok (fs.open_file file)
    else if fs.log_open
    then abort
    else ok (fs.open_file file)

-- What `calloc` leaves.
abbrev pub zeroed : Bucket
zeroed = record {
  fd = pos 0;
  id = pos 0;
  name = slice (ptr none) 0;
  min_rank = 0;
  max_rank = 0;
  data_file_max_length = 0;
  data_file_cur_length = 0;
  index = 0;
  current_offset = 0;
  bs = record {
    read_bucket_object = false;
    write_bucket_object = false;
    delete_bucket_object = false;
  };
  cache = record { size = 0; cap = 0; tables = []; cb = false };
}

abbrev pub operations_of : Option Operations → Operations
operations_of none = zeroed.bs
operations_of (some bs) = bs

-- A structure that was passed by its address, so is not NULL.
abbrev pub given {ℓ} : {A : Type ℓ} → A → Option A → A
given d none = d
given d (some a) = a

module _ (fs : Files) (calloc : ℕ → Bool) where
  -- The message on the cache has two conversions and one argument: where the log is open, it reads
  -- an argument that is not there.
  unfoldable pub bucket_create :
      CharPtr → (data_file_max_length start end : ℕ) → Run (Option Bucket)
  bucket_create name data_file_max_length start end =
      if is_null name
      then ok none
      else if calloc 1
      then (do
        (_, named) ← slice_init calloc (some zeroed.name) name
        let bt = record zeroed {
          name = given zeroed.name named;
          min_rank = start;
          max_rank = end;
          data_file_max_length = data_file_max_length;
          bs = operations_of (bucket_store_init (some zeroed.bs)).1;
        }
        fd ← bucket_create_data_fd fs bt
        (_, cache) ← vector_init calloc (some zeroed.cache) ((end + (word - start)) % word) false
        if fs.log_open
            then fault
            else ok (some (record bt { fd = fd; cache = given zeroed.cache cache })))
      else abort

  -- The file is made under the old index, which is raised only when that has been done. The message
  -- on a failure lacks an argument too.
  unfoldable pub bucket_check_data_fd : Bucket → Run (ℤ × Bucket)
  bucket_check_data_fd bt =
      if leb bt.data_file_max_length bt.data_file_cur_length
      then (do
        fd ← bucket_create_data_fd fs bt
        if is_failure fd
            then (if fs.log_open then fault else ok (failure, bt))
            else ok (success, record bt { fd = fd; index = (bt.index + 1) % word }))
      else ok (success, bt)

  -- `log_fatal` behind a failure ends the process where the log is open.
  abbrev pub is_fatal : ℤ → Bool
  is_fatal ret = not (is_success ret) && fs.log_open

  -- `list_create` where the cache has no list at the index, and its insertion, whose result is
  -- not looked at. The assertion fails on a NULL list.
  unfoldable pub find_list :
      (fresh : Ptr) (index hash : ℕ) → Bucket → Heap Ptr → Run (Ptr × Bucket × Heap Ptr)
  find_list fresh index hash bt h = do
    lt ← vector_at bt.cache index
    elim lt [
      | some list ↦ ok (list, bt, h)
      | none ↦ do
        (list, h') ← list_create fresh h
        if list == LinkedList.null then abort else (do
          (_, cache) ← vector_insert calloc bt.cache hash (some list)
          ok (list, record bt { cache = cache }, h'))
    ]

  -- `obj` is the object's address with the object there. `fresh_list` and `fresh_node` are what
  -- `calloc` returns for a list and a node. `none` means that the behaviours of `read` and
  -- `write` given are used up.
  unfoldable pub bucket_put :
      Double
      → List Read
      → List Write
      → (fresh_list fresh_node : Ptr) → Option Bucket
      → Option (Ptr × BucketObject)
      → Heap Ptr
      → Run (Option (ℤ × Option Bucket × Heap Ptr))
  bucket_put d reads writes fresh_list fresh_node none none h = ok (some (failure, none, h))
  bucket_put d reads writes fresh_list fresh_node none (some obj) h = fault
  bucket_put d reads writes fresh_list fresh_node (some bt) none h = do
    (ret, bt') ← bucket_check_data_fd bt
    if is_fatal ret then abort else fault
  bucket_put d reads writes fresh_list fresh_node (some bt) (some (address, obj)) h = do
    (ret, bt1) ← bucket_check_data_fd bt
    if is_fatal ret then abort else (do
      jump ← or_fault (
          hash_jump_consistent d obj.obj_hash
            (int32 ((bt1.max_rank + (word - bt1.min_rank)) % word)))
      (list, bt2, h1) ← find_list fresh_list ((jump + bt1.min_rank) % 2 ^ 32) obj.obj_hash bt1 h
      written ← call_write bt2.bs reads writes obj
      elim written [
        | none ↦ ok none
        | some (wrote, sent) ↦
            if is_success wrote
            then (do
              (node, h2) ← list_node_create fresh_node (some address) h1
              (_, h3) ← list_add list node h2
              ok (
                  some (
                    success,
                    some (record bt2 {
                      current_offset =
                          (bt2.current_offset + (object_size + obj.data_len + obj.obj_name_len))
                          % word;
                    }),
                    h3,
                  )))
            else ok (some (failure, some bt2, h1))
      ])

  -- The stubs: nothing is deleted, found or released.
  unfoldable pub bucket_del : Bucket → CharPtr → ℤ
  bucket_del bt name = success

  unfoldable pub bucket_get : Bucket → CharPtr → Option Ptr
  bucket_get bt name = none
