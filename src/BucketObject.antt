-- ===== src/BucketObject.antt =====
-- src/server/bucket_object.c: what is recorded of a stored object.
use sample_sds_storage.Base.{
  ℕ, ◌%◌, ◌^◌, Bool, Option, none, some, List, ltb, if◌then◌else◌, length, take, Run, ok, fault,
  abort, replicate,
}

pub data Status : Type 0 where
  online offline : Status

abbrev pub uid_len : ℕ
uid_len = 32

pub record BucketObject : Type 0 where
  pub cur_offset : ℕ
  pub status : Status
  pub uid : List ℕ
  pub obj_name_len : ℕ
  pub obj_hash : ℕ
  pub bucket_index : ℕ
  pub data_len : ℕ

-- `sizeof(bucket_object)` on a 64-bit machine: the fields above with their padding.
abbrev pub object_size : ℕ
object_size = 72

unfoldable pub bucket_object_set_hash : Option BucketObject → ℕ → Option BucketObject
bucket_object_set_hash none hash = none
bucket_object_set_hash (some obj) hash = some (record obj { obj_hash = hash })

unfoldable pub bucket_object_set_bucket_index : Option BucketObject → ℕ → Option BucketObject
bucket_object_set_bucket_index none index = none
bucket_object_set_bucket_index (some obj) index = some (record obj { bucket_index = index })

-- The loop reads 32 bytes of `obj_uid`. `bucket_index` is cut to 32 bits.
unfoldable pub bucket_object_init :
    Option BucketObject
    → (bucket_index start_offset : ℕ) (obj_uid : List ℕ) (obj_name_len data_len : ℕ)
    → Run (Option BucketObject)
bucket_object_init none bucket_index start_offset obj_uid obj_name_len data_len = ok none
bucket_object_init (some obj) bucket_index start_offset obj_uid obj_name_len data_len =
    if ltb (length obj_uid) uid_len
    then fault
    else ok (
        some (record {
          cur_offset = start_offset;
          status = online;
          uid = take uid_len obj_uid;
          obj_name_len = obj_name_len;
          obj_hash = 0;
          bucket_index = bucket_index % 2 ^ 32;
          data_len = data_len;
        }))

abbrev pub zeroed : BucketObject
zeroed = record {
  cur_offset = 0;
  status = online;
  uid = replicate uid_len 0;
  obj_name_len = 0;
  obj_hash = 0;
  bucket_index = 0;
  data_len = 0;
}

unfoldable pub bucket_object_create :
    (calloc : ℕ → Bool) (bucket_index start_offset : ℕ) (obj_uid : List ℕ)
    (obj_name_len data_len : ℕ)
    → Run (Option BucketObject)
unfolding bucket_object_init
bucket_object_create calloc bucket_index start_offset obj_uid obj_name_len data_len =
    if calloc 1
    then bucket_object_init (some zeroed) bucket_index start_offset obj_uid obj_name_len data_len
    else abort
