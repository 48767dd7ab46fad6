-- ===== src/BucketStore.antt =====
-- src/server/bucket_store.c: `write_bucket_object`, which is to copy an object's data from the
-- client's socket to the bucket's file.
pub mod Outcomes
use sample_sds_storage.Base.{
  ◌≡◌, refl, ℕ, zero, suc, ◌+◌, ◌-◌, ◌^◌, Bool, true, false, Option, none, some, List, [], ◌∷◌,
  ◌++◌, ltb, length, ◌==◌, if◌then◌else◌, ℤ, pos, negsuc, success, failure, to_size, Run, ok, fault,
  ◌>>=◌,
}
use sample_sds_storage.BucketObject.{BucketObject}
use sample_sds_storage.Utils.{Read, Write, read_n, write_n}

-- The three function pointers: whether each is set.
pub record Operations : Type 0 where
  pub read_bucket_object : Bool
  pub write_bucket_object : Bool
  pub delete_bucket_object : Bool

-- The pointer to the operations may be NULL; deleting is left as it was.
unfoldable pub bucket_store_init : Option Operations → ℤ × Option Operations
bucket_store_init none = (failure, none)
bucket_store_init (some bs) =
    (success, some (record bs { read_bucket_object = true; write_bucket_object = true }))

unfoldable pub bucket_store_deinit : Option Operations → Option Operations
bucket_store_deinit none = none
bucket_store_deinit (some bs) =
    some (record bs { read_bucket_object = false; write_bucket_object = false })

-- A positive `ssize_t`, as a number.
abbrev pub positive : ℤ → ℕ
positive (pos n) = n
positive (negsuc n) = 0

-- `ssize_t len = obj->data_len`: from 2 ^ 63 on it is negative, and below every `read_len`.
abbrev pub signed_len : ℕ → ℕ
signed_len n = if ltb n (2 ^ 63) then n else 0

-- `while (read_len < len)`: `reads` and `writes` are what the calls of `read` and `write` do,
-- and `sent` is what the bucket's file has taken. The buffer is NULL, with no byte to offer.
-- `none` means that the behaviours given are used up; a round that goes on uses a read, so the
-- number of reads and one more is fuel enough.
unfoldable pub copy_loop :
    ℕ → List Read → List Write → (len read_len : ℕ) → ℤ → List ℕ → Run (Option (ℤ × List ℕ))
copy_loop zero reads writes len read_len ret sent = ok none
copy_loop (suc fuel) reads writes len read_len ret sent =
    let buffer : List ℕ = [] in
    if ltb read_len len
    then elim (read_n reads len) [
      | none ↦ ok none
      | some (rn, stored, reads') ↦
          if ltb 0 (positive rn)
          then (do
            written ← write_n writes buffer (positive rn)
            elim written [
              | none ↦ ok none
              | some (wn, taken, writes') ↦
                  copy_loop fuel reads' writes' len (read_len + positive rn) ret (sent ++ taken)
            ])
          else ok (some (success, sent))
    ]
    else ok (some (ret, sent))

-- What `write_len` is compared with at the end decides nothing.
unfoldable pub write_bucket_object :
    List Read → List Write → (bucket : Bool) → Option BucketObject → Run (Option (ℤ × List ℕ))
unfolding copy_loop
write_bucket_object reads writes false obj = ok (some (failure, []))
write_bucket_object reads writes true none = ok (some (failure, []))
write_bucket_object reads writes true (some obj) =
    copy_loop (suc (length reads)) reads writes (signed_len obj.data_len) 0 failure []

-- `bt->bs.write_bucket_object(bt, obj, fd)`: a function pointer that is NULL cannot be called.
unfoldable pub call_write :
    Operations → List Read → List Write → BucketObject → Run (Option (ℤ × List ℕ))
call_write bs reads writes obj =
    if bs.write_bucket_object then write_bucket_object reads writes true (some obj) else fault

pub call_write_set :
    (bs : Operations) (reads : List Read) (writes : List Write) (obj : BucketObject)
    → bs.write_bucket_object ≡ true
    → call_write bs reads writes obj ≡ write_bucket_object reads writes true (some obj)
unfolding call_write
call_write_set bs reads writes obj e = rw e refl
