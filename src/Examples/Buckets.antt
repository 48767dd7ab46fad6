-- ===== src/Examples/Buckets.antt =====
-- The bucket set of src/server/bucketset.c at concrete inputs.
use mathlib.Core.Option
use sample_sds_storage.Base.{
  ℕ, zero, suc, get_elem?, ◌+◌, ◌/◌, ◌%◌, ◌≤◌, ◌<◌, ◌≡◌, refl, inl, inr, Bool, true, false, none,
  some, List, [], ◌∷◌, arith, pos, length, ok, fault,
}
use sample_sds_storage.Slice.Strings.{CharPtr, at, null, c_string, until_nul}
use sample_sds_storage.Vector.Contents.{Holds}
use sample_sds_storage.Bucket.{Bucket, Files, zeroed}
use sample_sds_storage.Vector.{Vector}
use sample_sds_storage.BucketObject
use sample_sds_storage.BucketObject.{BucketObject}
use sample_sds_storage.LinkedList.{Ptr, Heap}
use sample_sds_storage.Bucketset.{
  Bucketset, zeroed_slice, bucketset_hash_range_round, bucketset_create, bucketset_search_bucket,
}
use sample_sds_storage.Bucketset.Round.{bucketset_hash_range_round-least}
use sample_sds_storage.Bucketset.Ranges.{
  Covers, IsRanged, bucketset_search_bucket-Belongs, bucketset_search_bucket_gap,
}
use sample_sds_storage.Bucketset.Create.{opened, bucketset_create-IsRanged}

bucketset_hash_range_round-least_example :
    (v : ℕ) × (bucketset_hash_range_round 4096 ≡ ok (some v))
    × (v % 512 ≡ 0)
    × (4096 < v)
    × (v ≤ 4096 + 512)
bucketset_hash_range_round-least_example = bucketset_hash_range_round-least 4096 (omega arith)

abbrev first : Bucket
first = record zeroed { id = pos 0; min_rank = 0; max_rank = 1023 }

abbrev second : Bucket
second = record zeroed { id = pos 1; min_rank = 1024; max_rank = 2047 }

abbrev set_of_two : Bucketset
set_of_two = record {
  data_dir = zeroed_slice;
  set_name = zeroed_slice;
  bucket_range_count = 1024;
  bucket_size = 2;
  buckets = record { size = 2; cap = 2; tables = some first ∷ some second ∷ []; cb = true };
  data_file_size_unit = 1;
}

two_slots :
    (i : ℕ)
    → i < 2
    → get_elem? (some first ∷ some second ∷ []) i
      ≡ Option.map some (get_elem? (first ∷ second ∷ []) i)
two_slots zero h = refl
two_slots (suc zero) h = refl
two_slots (suc (suc i)) h = absurd (omega arith)

same_text : c_string (at (b'b' ∷ 0 ∷ [])) ≡ ok (b'b' ∷ [])
unfolding c_string until_nul
same_text = refl

name_text : c_string (at (b's' ∷ 0 ∷ [])) ≡ ok (b's' ∷ [])
unfolding c_string until_nul
name_text = refl

two-Holds : Holds (first ∷ second ∷ []) set_of_two.buckets
two-Holds = record { block = refl; count = refl; fits = omega arith; slots = two_slots }

two-IsRanged : IsRanged 1024 set_of_two
two-IsRanged = record {
  bts = first ∷ second ∷ [];
  held = two-Holds;
  ranges = (
    record { id = refl; low = refl; high = refl },
    (record { id = refl; low = refl; high = refl }, tt),
  );
  few = omega arith;
}

bucketset_search_bucket-Belongs_example :
    (bt : Bucket) × (bucketset_search_bucket set_of_two 1500 ≡ ok (some (1500 / 1024, bt)))
    × Covers 1024 (1500 / 1024) bt
unfolding two-IsRanged
bucketset_search_bucket-Belongs_example =
    bucketset_search_bucket-Belongs 1024 1500 set_of_two (omega arith) two-IsRanged
      (omega arith, omega arith, omega arith)

bucketset_search_bucket_gap_example : bucketset_search_bucket set_of_two 1023 ≡ ok none
bucketset_search_bucket_gap_example =
    bucketset_search_bucket_gap 1024 1023 set_of_two (omega arith) two-IsRanged (inl refl)

-- An empty disk, where every file can be made.
abbrev pub disk : Files
disk = record {
  log_open = false;
  name_of = λ name index. index ∷ [];
  exists = λ file. false;
  open_file = λ file. pos 3;
  allocates = λ file n. true;
}

abbrev pub plenty : ℕ → Bool
plenty n = true

-- In place of `snprintf`, one name for all.
abbrev pub same_name : CharPtr → CharPtr → ℕ → ℕ → List ℕ
same_name dir name start end = b'b' ∷ 0 ∷ []

bucketset_create-IsRanged_example :
    (bst : Bucketset) × (bucketset_create disk plenty same_name (at (b's' ∷ 0 ∷ [])) null 3 4096 1
      ≡ ok (some bst))
    × (r : IsRanged bst.bucket_range_count bst) × (length r.bts ≡ 3)
    × (bst.bucket_size ≡ 3)
    × (4096 < bst.bucket_range_count)
    × (bucketset_create (opened disk) plenty same_name (at (b's' ∷ 0 ∷ [])) null 4 4096 1 ≡ fault)
bucketset_create-IsRanged_example =
    bucketset_create-IsRanged disk plenty same_name (λ n. refl) (λ file n. refl) refl
      (λ dir name start end. (b'b' ∷ [], same_text)) (at (b's' ∷ 0 ∷ [])) null 3 4096 1
      (inr (b's' ∷ [], name_text)) (inl refl) (omega arith) (omega arith)

abbrev pub empty_cache : Vector Ptr
empty_cache = record { size = 0; cap = 3; tables = none ∷ none ∷ none ∷ []; cb = false }

pub empty_cache-Holds : Holds [] empty_cache
empty_cache-Holds = record {
  block = refl;
  count = refl;
  fits = omega arith;
  slots = λ i p. absurd (omega arith);
}

-- A bucket as `bucket_create` leaves it, with room in its file.
abbrev open_bucket : Bucket
open_bucket = record zeroed {
  min_rank = 0;
  max_rank = 3;
  data_file_max_length = 100;
  bs = record {
    read_bucket_object = true;
    write_bucket_object = true;
    delete_bucket_object = false;
  };
  cache = empty_cache;
}

abbrev pub object : BucketObject
object = record BucketObject.zeroed { obj_hash = 2; data_len = 5; obj_name_len = 1 }

abbrev pub no_lists : Heap Ptr
no_lists = record { lists = λ p. none; nodes = λ p. none }
