-- ===== src/Examples/Puts.antt =====
-- The puts of src/server/bucket.c at concrete inputs.
use mathlib.Core.Option
use sample_sds_storage.Bucketset.{Bucketset, zeroed_slice, with_bucket, bucketset_search_bucket}
use sample_sds_storage.Bucketset.Ranges.{IsRanged}
use sample_sds_storage.Bucketset.Puts.{bucketset_search_bucket-put}
use sample_sds_storage.Base.{
  ℕ, zero, suc, ◌<◌, ◌/◌, ◌≢◌, get_elem?, load, ◌+◌, ◌%◌, ◌^◌, ◌≡◌, refl, true, false, Option, some,
  [], ◌∷◌, arith, if◌then◌else◌, ℤ, pos, success, failure, is_success, Run, ok,
}
use sample_sds_storage.Slice.Strings.{at, c_string, until_nul}
use sample_sds_storage.BucketStore.{bucket_store_init}
use sample_sds_storage.Slice.{slice, buf, slice_init}
use sample_sds_storage.Vector.{vector_at, Vector, vector_init}
use sample_sds_storage.Bucket.{
  Bucket, Files, zeroed, bucket_put, bucket_create, bucket_create_data_fd,
}
use sample_sds_storage.Bucket.Put.{bucket_put-forgets}
use sample_sds_storage.Bucket.Effect.{with_room, bucket_put-Leaves}
use sample_sds_storage.Bucket.Puts.{done, put, Puts-keep_file}
use sample_sds_storage.Utils.{failed}
use sample_sds_storage.LinkedList.{Ptr, Heap}
use sample_sds_storage.Examples.Transfers.{whole_numbers}
use sample_sds_storage.Examples.Buckets.{
  disk, plenty, empty_cache, empty_cache-Holds, object, no_lists,
}

-- A disk that has every file.
abbrev full_disk : Files
full_disk = record disk { exists = λ file. true }

-- What `bucket_create` makes on the empty disk.
abbrev new_bucket : Bucket
new_bucket = record zeroed {
  fd = pos 3;
  name = slice (buf (b'b' ∷ 0 ∷ [])) 1;
  min_rank = 0;
  max_rank = 3;
  data_file_max_length = 100;
  bs = record {
    read_bucket_object = true;
    write_bucket_object = true;
    delete_bucket_object = false;
  };
  cache = empty_cache;
}

made : bucket_create disk plenty (at (b'b' ∷ 0 ∷ [])) 100 0 3 ≡ ok (some new_bucket)
unfolding bucket_create bucket_create_data_fd slice_init c_string until_nul vector_init
    bucket_store_init
made = refl

abbrev put_once : Files → Run (Option (ℤ × Option Bucket × Heap Ptr))
put_once fs =
    bucket_put fs plenty whole_numbers (failed 14 ∷ []) [] 10 20 (some new_bucket)
      (some (30, object)) no_lists

abbrev after_put : Vector Ptr → Bucket
after_put cache = record new_bucket { cache = cache; current_offset = 78 }

one_put :
    (cache : Vector Ptr) × (g : Heap Ptr) × (put_once full_disk
      ≡ ok (some (success, some (after_put cache), g)))
one_put =
    let (cache, g, run, _, _) =
      (bucket_put-forgets full_disk plenty whole_numbers (failed 14) [] [] 10 20 30 new_bucket
          object no_lists tt (omega arith) (omega arith) (omega arith) (omega arith) (omega arith)
          empty_cache-Holds (omega arith) refl (omega arith) (omega arith)).0
        (omega arith) in
    (cache, g, run)

bucket_put-Leaves_example :
    (cache : Vector Ptr) × (some (after_put one_put.0)
      ≡ some (record (with_room full_disk new_bucket) {
        cache = cache;
        current_offset = if is_success success then (0 + (72 + 5 + 1)) % 2 ^ 64 else 0;
      }))
bucket_put-Leaves_example =
    bucket_put-Leaves full_disk plenty whole_numbers (failed 14 ∷ []) [] 10 20 30 new_bucket object
      no_lists one_put.1 success (some (after_put one_put.0)) one_put.2

Puts-keep_file_example :
    let out = after_put one_put.0 in
    (out.fd ≡ (if false then failure else pos 3))
    × (out.index ≡ 0)
    × (out.data_file_cur_length ≡ 0)
    × (out.data_file_max_length ≡ 100)
    × (out.min_rank ≡ 0)
    × (out.max_rank ≡ 3)
Puts-keep_file_example =
    Puts-keep_file disk plenty whole_numbers (at (b'b' ∷ 0 ∷ [])) 100 0 3 new_bucket
      (after_put one_put.0) no_lists one_put.1 made
      (put full_disk (failed 14 ∷ []) [] 10 20 30 object refl one_put.2
        (done (after_put one_put.0) one_put.1))

-- A set of that bucket alone, with ranges of four hashes.
abbrev one_bucket : Bucketset
one_bucket = record {
  data_dir = zeroed_slice;
  set_name = zeroed_slice;
  bucket_range_count = 4;
  bucket_size = 1;
  buckets = record { size = 1; cap = 1; tables = some new_bucket ∷ []; cb = true };
  data_file_size_unit = 1;
}

one_slot :
    (i : ℕ)
    → i < 1
    → get_elem? (some new_bucket ∷ []) i ≡ Option.map some (get_elem? (new_bucket ∷ []) i)
one_slot zero h = refl
one_slot (suc i) h = absurd (omega arith)

one_bucket-IsRanged : IsRanged 4 one_bucket
one_bucket-IsRanged = record {
  bts = new_bucket ∷ [];
  held = record { block = refl; count = refl; fits = omega arith; slots = one_slot };
  ranges = (record { id = refl; low = refl; high = refl }, tt);
  few = omega arith;
}

found : bucketset_search_bucket one_bucket 2 ≡ ok (some (2 / 4, new_bucket))
unfolding bucketset_search_bucket vector_at load
found = refl

bucketset_search_bucket-put_example :
    let changed = with_bucket (2 / 4) (some (after_put one_put.0)) one_bucket in
    IsRanged 4 changed
    × (bucketset_search_bucket changed 2 ≡ ok (some (2 / 4, after_put one_put.0)))
    × ((other : ℕ)
        → other / 4 ≢ 2 / 4
        → bucketset_search_bucket changed other ≡ bucketset_search_bucket one_bucket other)
unfolding one_bucket-IsRanged
bucketset_search_bucket-put_example =
    bucketset_search_bucket-put 4 2 one_bucket full_disk plenty whole_numbers (failed 14 ∷ []) [] 10
      20 30 new_bucket (after_put one_put.0) object no_lists one_put.1 success (omega arith)
      one_bucket-IsRanged (omega arith) found one_put.2
