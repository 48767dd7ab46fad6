-- ===== src/Netsocket.antt =====
-- src/server/netsocket.c: what the read callback does with a request.
pub mod Setup
pub mod Served
pub mod Sockets
use sample_sds_storage.Base.{
  ℕ, zero, suc, ◌+◌, ◌*◌, ◌%◌, ◌^◌, Bool, true, false, ◌||◌, Option, none, some, List, [], ◌∷◌,
  ◌++◌, ltb, ◌==◌, if◌then◌else◌, ℤ, pos, failure, negsuc, length, drop, set, Run, ok, fault, abort,
  ◌>>=◌, or_fault, load,
}
use sample_sds_storage.Slice.{slice_value, slice_size}
use sample_sds_storage.Slice.Strings.{CharPtr, null, at, wild, c_string, strncmp_equal}
use sample_sds_storage.Vector.{Vector, vector_at, vector_push_back}
use sample_sds_storage.Hash.Double.{Double}
use sample_sds_storage.Hash.Mix.{gfs_hashfn}
use sample_sds_storage.LinkedList.{Ptr, Heap}
use sample_sds_storage.Utils.{Read, got, failed, Write, read_n}
use sample_sds_storage.BucketObject.{BucketObject, bucket_object_init}
use sample_sds_storage.Bucket.{Bucket, Files, bucket_put}
use sample_sds_storage.Bucketset.{Bucketset, with_bucket, bucketset_create, bucketset_search_bucket}

-- `REQ_PUT_OBJECT` and `REQ_PUT_BUCKETSET` of src/common/request.h
abbrev pub req_put_object : ℕ
req_put_object = 0

abbrev pub req_put_bucketset : ℕ
req_put_bucketset = 2

-- `NETSOCKET_DEFAULT_BUFFER_LENGTH`
abbrev buffer_length : ℕ
buffer_length = 4 * 1024 * 1024

-- The offsets of the fields of `request_put_object`, and the sizes of the requests, on a 64-bit
-- machine.
abbrev set_name_at : ℕ
set_name_at = 255

abbrev uid_at : ℕ
uid_at = 510

abbrev data_length_at : ℕ
data_length_at = 544

abbrev pub put_object_size : ℕ
put_object_size = 552

abbrev pub put_bucketset_size : ℕ
put_bucketset_size = 255

-- What the callbacks use of the store: `sets`, whose elements this file takes for bucket sets, what
-- `cf` says, and the heap with the lists of objects.
pub record Store : Type 0 where
  pub sets : Vector Bucketset
  pub heap : Heap Ptr
  pub data_dir : CharPtr
  pub bucket_size : ℕ
  pub set_hash_range : ℕ
  pub data_length : ℕ

-- A `struct ev_io` alone, as `netsocket_do_request` makes it, or the first part of an
-- `ev_io_watcher` with its `ctx`.
pub data Watcher : Type 0 where
  ev_io : Watcher
  ev_io_watcher : Store → Watcher

-- `eiw->ctx`: behind a `struct ev_io` alone there is no such field.
unfoldable pub ctx_of : Watcher → Run Store
ctx_of ev_io = fault
ctx_of (ev_io_watcher st) = ok st

-- The loops over `st->sets`, with `left` rounds to go from `i`: the set of the name, and its place.
unfoldable pub find_set :
    (left i : ℕ) (name : List ℕ) → Vector Bucketset → Run (Option (ℕ × Bucketset))
find_set zero i name sets = ok none
find_set (suc left) i name sets = do
  slot ← vector_at sets i
  bst ← or_fault slot
  same ← strncmp_equal (slice_value (some bst.set_name)) name (slice_size (some bst.set_name))
  let rest = find_set left (i + 1) name sets
  if same then ok (some (i, bst)) else rest

-- A little-endian integer of `left` bytes.
unfoldable pub integer_at : (left : ℕ) → List ℕ → Run ℕ
integer_at zero bs = ok 0
integer_at (suc left) [] = fault
integer_at (suc left) (b ∷ bs) = do n ← integer_at left bs; ok (b + 256 * n)

-- The bucket at `j` of the set at `i`, changed through its pointer.
abbrev change_bucket : (i j : ℕ) → Bucketset → Option Bucket → Heap Ptr → Store → Store
change_bucket i j bst bt heap st = record st {
  sets = record st.sets { tables = set st.sets.tables i (some (with_bucket j bt bst)) };
  heap = heap;
}

-- `resp`, as `send` is given it. Its `ack.name` is what `strncpy` copies.
pub record Response : Type 0 where
  pub req_type : ℕ
  pub name : List ℕ
  pub ret : ℤ

-- The store, what `req_bucketset` and the stack behind it hold, and `resp.ret`.
abbrev pub Answer : Type 0
Answer = Option (Store × CharPtr × ℤ)

-- The bytes that have arrived, in place of those that lay there.
abbrev pub read_into : (arrived stack : List ℕ) → List ℕ
read_into arrived stack = arrived ++ drop (length arrived) stack

-- `read > 0`, and `req_type` after the `recv`, which is 0 where no byte has come.
abbrev pub received : Read → Bool
received (got (c ∷ bs)) = true
received recv = false

abbrev pub type_of : Read → ℕ
type_of (got (c ∷ bs)) = c
type_of recv = 0

-- `calloc`, `name_of` and `fs` are as in Bucketset; the doubles as in Hash. `fresh_list`,
-- `fresh_node` and `address` are the pointers that a put makes, and the address of `obj`. `obj`,
-- `ret`, `object_stack` and `set_stack` are what lies on the stack in `obj`, in `resp.ret`, in
-- `req_object` and behind it, and in `req_bucketset` and behind it.
module _ (fs : Files) (calloc : ℕ → Bool) (name_of : CharPtr → CharPtr → ℕ → ℕ → List ℕ)
    (d : Double) (fresh_list fresh_node address : Ptr) (obj : BucketObject) (ret : ℤ)
    (object_stack set_stack : List ℕ) where
  -- What `bucket_put` does to the store. Its result is not looked at.
  abbrev pub stored : (i j : ℕ) → Bucketset → Store → Option (ℤ × Option Bucket × Heap Ptr) → Answer
  stored i j bst st none = none
  stored i j bst st (some (_, bt, heap)) =
      some (change_bucket i j bst bt heap st, at set_stack, ret)

  -- `case REQ_PUT_OBJECT`, once the set has been looked for; `puts` and `writes` are the calls of
  -- `bucket_put`.
  unfoldable pub put_into :
      (hash : ℕ) (req : List ℕ) (puts : List Read)
      → List Write
      → Store
      → Option (ℕ × Bucketset)
      → Run Answer
  put_into hash req puts writes st none = ok (some (st, at set_stack, failure))
  put_into hash req puts writes st (some (i, bst)) = do
    bucket ← bucketset_search_bucket bst hash
    (j, bt) ← or_fault bucket
    object_name ← c_string (at req)
    data_length ← integer_at 8 (drop data_length_at req)
    made ←
        bucket_object_init (some obj) obj.bucket_index bt.current_offset (drop uid_at req)
          (length object_name) data_length
    given ← or_fault made
    put ←
        bucket_put fs calloc d puts writes fresh_list fresh_node (some bt) (some (address, given))
          st.heap
    ok (stored i j bst st put)

  -- The same from `read_n` on, with what it gives.
  unfoldable pub put_object :
      Option (ℤ × List ℕ × List Read) → (puts : List Read) → List Write → Store → Run Answer
  put_object none puts writes st = ok none
  put_object (some (_, arrived, _)) puts writes st = do
    let req = read_into arrived object_stack
    uid ← c_string (at (drop uid_at req))
    hash ← gfs_hashfn (drop uid_at req) (length uid)
    found ← find_set st.sets.size 0 (drop set_name_at req) st.sets
    put_into hash req puts writes st found

  -- `case REQ_PUT_BUCKETSET`, once the set has been looked for.
  unfoldable pub make_set : (req : List ℕ) → Store → Option (ℕ × Bucketset) → Run Answer
  make_set req st (some (i, bst)) = ok (some (st, at req, pos 0))
  make_set req st none = do
    bst ←
        bucketset_create fs calloc name_of (at req) st.data_dir st.bucket_size st.set_hash_range
          st.data_length
    (_, sets) ← vector_push_back calloc st.sets bst
    ok (some (record st { sets = sets }, at req, pos 0))

  unfoldable pub put_bucketset : Option (ℤ × List ℕ × List Read) → Store → Run Answer
  put_bucketset none st = ok none
  put_bucketset (some (_, arrived, _)) st = do
    let req = read_into arrived set_stack
    found ← find_set st.sets.size 0 req st.sets
    make_set req st found

  unfoldable pub answer : (req_type : ℕ) (reads puts : List Read) → List Write → Store → Run Answer
  answer req_type reads puts writes st =
      if req_type == req_put_object
      then put_object (read_n reads put_object_size) puts writes st
      else if req_type == req_put_bucketset
      then put_bucketset (read_n reads put_bucketset_size) st
      else ok (some (st, at set_stack, ret))

  -- What follows the `switch`. A name longer than `ack.name` is copied past it.
  unfoldable pub respond : (req_type : ℕ) → Answer → Run (Option (Store × Option Response))
  respond req_type none = ok none
  respond req_type (some (st, name, result)) = do
    copied ← c_string name
    if ltb put_bucketset_size (length copied)
        then fault
        else ok (some (st, some (record { req_type = req_type; name = copied; ret = result })))

  -- `error` says that the event is an error, and `recv` is what the call does. The result is the
  -- store, with the response where one is sent.
  unfoldable pub read_cb :
      Watcher
      → (error : Bool) (recv : Read) (reads puts : List Read) → List Write
      → Run (Option (Store × Option Response))
  read_cb watcher error recv reads puts writes = do
    st ← ctx_of watcher
    if calloc buffer_length
        then (if error || received recv then ok (some (st, none)) else (do
          answered ← answer (type_of recv) reads puts writes st
          respond (type_of recv) answered))
        else abort
