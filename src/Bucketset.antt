-- ===== src/Bucketset.antt =====
-- src/server/bucketset.c: the buckets of a set, each with a range of hashes.
pub mod Create
pub mod Puts
pub mod Round
pub mod Ranges
pub mod Rows
use sample_sds_storage.Base.{
  ℕ, zero, suc, ◌+◌, ◌-◌, ◌*◌, ◌/◌, ◌%◌, ◌^◌, Bool, true, false, ◌&&◌, Option, none, some, List, [],
  ◌∷◌, ltb, leb, ◌==◌, if◌then◌else◌, ℤ, pos, negsuc, success, failure, int32, int_max, set, Run,
  ok, fault, abort, ◌>>=◌, or_fault,
}
use sample_sds_storage.Slice.{Slice, slice, raw, ptr, slice_value, slice_init}
use sample_sds_storage.Slice.Strings.{CharPtr, at, null}
use sample_sds_storage.Vector.{Vector, vector_init, vector_at, vector_push_back}
use sample_sds_storage.Bucket.{Bucket, Files, bucket_create, given, word}

abbrev pub bucket_min_hash : ℕ
bucket_min_hash = 512

-- The loop of `bucketset_hash_range_round` from `i`, on fuel; `i * BUCKET_MIN_HASH` is a product
-- of `int`s, so it is undefined past the largest `int`.
unfoldable pub round_loop : ℕ → ℕ → ℕ → Run (Option ℕ)
round_loop zero i base = ok none
round_loop (suc fuel) i base =
    let rest = round_loop fuel (i + 1) base in
    if ltb int_max (i * bucket_min_hash)
    then fault
    else if ltb base (i * bucket_min_hash)
    then ok (some (i * bucket_min_hash))
    else rest

-- A multiple above `base` comes up within `base / 512 + 1` rounds, or the product overflows.
unfoldable pub bucketset_hash_range_round : ℕ → Run (Option ℕ)
unfolding round_loop
bucketset_hash_range_round base = round_loop (base / bucket_min_hash + 1) 1 base

pub record Bucketset : Type 0 where
  pub data_dir : Slice
  pub set_name : Slice
  pub bucket_range_count : ℕ
  pub bucket_size : ℕ
  pub buckets : Vector Bucket
  pub data_file_size_unit : ℕ

abbrev pub no_buckets : Vector Bucket
no_buckets = record { size = 0; cap = 0; tables = []; cb = false }

abbrev pub zeroed_slice : Slice
zeroed_slice = slice (ptr none) 0

-- `name_of` is the `snprintf` of `"%s/%s-%ld-%ld-bucket"`, whose result ends in a NUL.
module _ (fs : Files) (calloc : ℕ → Bool) (name_of : CharPtr → CharPtr → ℕ → ℕ → List ℕ) where
  -- The loop over `i` with `left` rounds to go; the `id` of a bucket is an `int`. What
  -- `vector_push_back` returns is not looked at, and the assertion fails where `bucket_create`
  -- gives NULL.
  unfoldable pub create_loop :
      (name data_dir : CharPtr) (range unit left i : ℕ) → Vector Bucket → Run (Vector Bucket)
  create_loop name data_dir range unit zero i buckets = ok buckets
  create_loop name data_dir range unit (suc left) i buckets = do
    let start = (i * range) % word
    let end = ((i + 1) * range + (word - 1)) % word
    created ←
        bucket_create fs calloc (at (name_of data_dir name start end)) ((unit * 1024 * 1024) % word)
          start end
    elim created [
      | none ↦ abort
      | some bt ↦ do
        (_, buckets') ←
            vector_push_back calloc buckets (some (record bt { id = int32 (i % 2 ^ 32) }))
        create_loop name data_dir range unit left (i + 1) buckets'
    ]

  -- `set_name` is initialised twice.
  unfoldable pub bucketset_create :
      (name data_dir : CharPtr) (bucket_size bucket_range_count data_file_size_unit : ℕ)
      → Run (Option Bucketset)
  bucketset_create name data_dir bucket_size bucket_range_count data_file_size_unit =
      if calloc 1
      then (do
        rounded ← bucketset_hash_range_round bucket_range_count
        elim rounded [
          | none ↦ ok none
          | some range ↦ do
            (_, vec) ← vector_init calloc (some no_buckets) bucket_size true
            (_, dir) ← slice_init calloc (some zeroed_slice) data_dir
            (_, first_name) ← slice_init calloc (some zeroed_slice) name
            buckets ←
                create_loop name data_dir range data_file_size_unit bucket_size 0
                  (given no_buckets vec)
            (_, set_name) ← slice_init calloc (some (given zeroed_slice first_name)) name
            ok (
                some (record {
                  data_dir = given zeroed_slice dir;
                  set_name = given zeroed_slice set_name;
                  bucket_range_count = range;
                  bucket_size = bucket_size;
                  buckets = buckets;
                  data_file_size_unit = data_file_size_unit;
                }))
        ])
      else abort

-- The loop of `bucketset_search_bucket` with `left` rounds to go, whose `i` is an `int` that must
-- not pass the largest; the pointer is given by its position in the vector and the bucket there. A
-- NULL slot is dereferenced.
unfoldable pub search_loop : ℕ → ℕ → ℕ → Vector Bucket → Run (Option (ℕ × Bucket))
search_loop zero i hash buckets = ok none
search_loop (suc left) i hash buckets = do
  slot ← vector_at buckets i
  bt ← or_fault slot
  let next = search_loop left (i + 1) hash buckets
  let rest = if ltb i int_max then next else fault
  if leb bt.min_rank hash && ltb hash bt.max_rank then ok (some (i, bt)) else rest

-- The bucket at `j` of the set, changed through the pointer that the search gives.
abbrev pub with_bucket : (j : ℕ) → Option Bucket → Bucketset → Bucketset
with_bucket j bt bst =
    let buckets = record bst.buckets { tables = set bst.buckets.tables j bt } in
    record bst { buckets = buckets }

-- The jump hash that the function also computes is not used.
unfoldable pub bucketset_search_bucket : Bucketset → ℕ → Run (Option (ℕ × Bucket))
unfolding search_loop
bucketset_search_bucket bst hash = search_loop bst.buckets.size 0 hash bst.buckets

-- What `bucketset_print` shows of a bucket: its name and index, and its range.
pub record Row : Type 0 where
  pub name : CharPtr
  pub index : ℕ
  pub min : ℕ
  pub max : ℕ

abbrev pub row_of : Bucket → Row
row_of bt = record {
  name = slice_value (some bt.name);
  index = bt.index;
  min = bt.min_rank;
  max = bt.max_rank;
}

-- The loop of `bucketset_print` with `left` rounds to go. A NULL slot is dereferenced.
unfoldable pub print_loop : (left i : ℕ) → Vector Bucket → Run (List Row)
print_loop zero i buckets = ok []
print_loop (suc left) i buckets = do
  slot ← vector_at buckets i
  bt ← or_fault slot
  rows ← print_loop left (i + 1) buckets
  ok (row_of bt ∷ rows)

-- The rows that are printed, below the set's own fields.
unfoldable pub bucketset_print : Option Bucketset → Run (List Row)
bucketset_print none = ok []
bucketset_print (some bst) = print_loop bst.bucket_size 0 bst.buckets

unfoldable pub bucketset_dump : Bucketset → ℤ
bucketset_dump bst = failure
