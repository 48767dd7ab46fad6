-- ===== src/BucketStore/Outcomes.antt =====
-- What `write_bucket_object` of src/server/bucket_store.c does through its NULL buffer.
use sample_sds_storage.Base.{
  ℕ, suc, ◌-◌, ◌<◌, ◌≡◌, refl, inl, inr, true, some, List, [], ◌∷◌, ltb, ltb→lt, lt→ltb,
  if◌then◌else◌, ℤ, pos, success, failure, length, Bool-cases, ok, arith,
}
use sample_sds_storage.BucketObject.{BucketObject}
use sample_sds_storage.BucketStore.{signed_len, copy_loop, write_bucket_object}
use sample_sds_storage.Utils.Transfer.{take-nil}
use sample_sds_storage.Utils.{Read, got, failed, Write, read_n, read_loop, write_n}

-- Nothing can be read into NULL: the call fails, or there is nothing to read.
abbrev pub IsNullRead : Read → Type 0
IsNullRead (got bs) = bs ≡ []
IsNullRead (failed errno) = Unit

copy_loop-null :
    (fuel : ℕ) (reads : List Read) (writes : List Write) (len : ℕ) {ret : ℤ} {sent : List ℕ}
    → copy_loop (suc fuel) reads writes len 0 failure [] ≡ ok (some (ret, sent))
    → (sent ≡ []) × (ret ≡ (if ltb 0 len then success else failure))
unfolding copy_loop write_n
copy_loop-null fuel reads writes len e = ground arith

-- Whenever `write_bucket_object` returns, it has written no byte of the object to the file, and
-- it returns 0 for an object that has data and -1 for one that has none. (A length from 2 ^ 63 on
-- counts as no data.)
pub write_bucket_object_nothing :
    (reads : List Read) (writes : List Write) (obj : BucketObject) {ret : ℤ} {sent : List ℕ}
    → write_bucket_object reads writes true (some obj) ≡ ok (some (ret, sent))
    → (sent ≡ []) × (ret ≡ (if ltb 0 (signed_len obj.data_len) then success else failure))
unfolding write_bucket_object
write_bucket_object_nothing reads writes obj e =
    copy_loop-null (length reads) reads writes (signed_len obj.data_len) e

read_n-null :
    (read : Read) (reads : List Read) (len : ℕ)
    → IsNullRead read
    → 0 < len
    → read_n (read ∷ reads) len ≡ some (pos 0, [], reads)
unfolding read_n read_loop
read_n-null (got bs) reads len e h = rw (e, take-nil (len - 0), lt→ltb 0 len h) refl
read_n-null (failed errno) reads len e h = rw (lt→ltb 0 len h) refl

-- It does return: nothing can be read into NULL, so the first call of `read` ends it.
pub write_bucket_object_returns :
    (read : Read) (reads : List Read) (writes : List Write) (obj : BucketObject)
    → IsNullRead read
    → write_bucket_object (read ∷ reads) writes true (some obj)
      ≡ ok (some (if ltb 0 (signed_len obj.data_len) then success else failure, []))
unfolding write_bucket_object copy_loop
write_bucket_object_returns read reads writes obj null =
    elim (Bool-cases (ltb 0 (signed_len obj.data_len))) [
      | inr empty ↦ rw empty refl
      | inl full ↦
          rw (full, read_n-null read reads (signed_len obj.data_len) null (ltb→lt _ _ full)) refl
    ]
