-- ===== src/Bucket/Puts.antt =====
-- The data file of a bucket of src/server/bucket.c over the calls of `bucket_put`.
use sample_sds_storage.Base.{
  ℕ, ◌+◌, ◌-◌, ◌%◌, ◌≡◌, refl, ◌∙◌, inl, inr, Bool, true, false, Bool-cases, Option, none, some,
  List, leb, if◌then◌else◌, ℤ, failure, ok, Always, Always-bind, Always-after, Always-if,
}
use mathlib.Core.Option.{some-injective}
use sample_sds_storage.Slice.{slice_init}
use sample_sds_storage.Slice.Strings.{CharPtr, is_null}
use sample_sds_storage.Vector.{vector_init}
use sample_sds_storage.Hash.Double.{Double}
use sample_sds_storage.LinkedList.{Ptr, Heap}
use sample_sds_storage.BucketObject.{BucketObject}
use sample_sds_storage.BucketStore.{bucket_store_init}
use sample_sds_storage.Utils.{Read, Write}
use sample_sds_storage.Bucket.{
  Bucket, Files, word, zeroed, bucket_create_data_fd, bucket_create, bucket_put, given,
  operations_of,
}
use sample_sds_storage.Bucket.Effect.{data_file, with_room, bucket_put-Leaves}

-- Calls of `bucket_put` that return, one after another, each on a disk that has the bucket's data
-- file.
pub data Puts (calloc : ℕ → Bool) (d : Double)
    : Bucket → Heap Ptr → Bucket → Heap Ptr → Type 0 where
  done : (bt : Bucket) (h : Heap Ptr) → Puts calloc d bt h bt h
  put :
      {bt bt' bt'' : Bucket} {h h' h'' : Heap Ptr} {ret : ℤ} (fs : Files) (reads : List Read)
      (writes : List Write) (fresh_list fresh_node address : Ptr) (obj : BucketObject)
      → fs.exists (data_file fs bt) ≡ true
      → bucket_put fs calloc d reads writes fresh_list fresh_node (some bt) (some (address, obj)) h
        ≡ ok (some (ret, some bt', h'))
      → Puts calloc d bt' h' bt'' h''
      → Puts calloc d bt h bt'' h''

-- Nothing but the cache and the offset differs.
pub record IsSameFile (bt out : Bucket) : Type 0 where
  pub fd : out.fd ≡ bt.fd
  pub index : out.index ≡ bt.index
  pub cur : out.data_file_cur_length ≡ bt.data_file_cur_length
  pub max : out.data_file_max_length ≡ bt.data_file_max_length
  pub low : out.min_rank ≡ bt.min_rank
  pub high : out.max_rank ≡ bt.max_rank

module _ (fs : Files) (calloc : ℕ → Bool) (d : Double) (reads : List Read) (writes : List Write)
    (fresh_list fresh_node address : Ptr) (obj : BucketObject) where
  bucket_put-IsSameFile :
      (bt out : Bucket) (h h' : Heap Ptr) (ret : ℤ)
      → fs.exists (data_file fs bt) ≡ true
      → bucket_put fs calloc d reads writes fresh_list fresh_node (some bt) (some (address, obj)) h
        ≡ ok (some (ret, some out, h'))
      → IsSameFile bt out
  bucket_put-IsSameFile bt out h h' ret there run =
      let (cache, e) =
        bucket_put-Leaves fs calloc d reads writes fresh_list fresh_node address bt obj h h' ret
          (some out) run in
      let kept : with_room fs bt ≡ bt =
        elim (Bool-cases (leb bt.data_file_max_length bt.data_file_cur_length)) [
          | inl full ↦ rw (full, there) refl
          | inr room ↦ rw room refl
        ] in
      let same = some-injective out _ (rw kept at e) in
      rw same (record { fd = refl; index = refl; cur = refl; max = refl; low = refl; high = refl })

-- The data file that `bucket_create` leaves, and the range.
pub record IsCreated (fs : Files) (unit start end : ℕ) (bt : Bucket) : Type 0 where
  pub fd : bt.fd ≡ (if fs.exists (data_file fs bt) then failure else fs.open_file (data_file fs bt))
  pub index : bt.index ≡ 0
  pub cur : bt.data_file_cur_length ≡ 0
  pub max : bt.data_file_max_length ≡ unit
  pub low : bt.min_rank ≡ start
  pub high : bt.max_rank ≡ end

module _ (fs : Files) where
  abbrev IsFirst : Bucket → ℤ → Type 0
  IsFirst bt fd =
      fd ≡ (if fs.exists (data_file fs bt) then failure else fs.open_file (data_file fs bt))

  bucket_create_data_fd-IsFirst : (bt : Bucket) → Always (IsFirst bt) (bucket_create_data_fd fs bt)
  unfolding bucket_create_data_fd
  bucket_create_data_fd-IsFirst bt = elim (Bool-cases (fs.exists (data_file fs bt))) [
    | inl old ↦ rw (old, old) refl
    | inr new ↦ elim (Bool-cases (fs.allocates (data_file fs bt) bt.data_file_max_length)) [
      | inl space ↦ rw (new, space, new) refl
      | inr no_space ↦ elim (Bool-cases fs.log_open) [
        | inl logs ↦ rw (new, no_space, logs) tt
        | inr silent ↦ rw (new, no_space, silent, new) refl
      ]
    ]
  ]

  abbrev HasCreated : (unit start end : ℕ) → Option Bucket → Type 0
  HasCreated unit start end none = Unit
  HasCreated unit start end (some bt) = IsCreated fs unit start end bt

  bucket_create-HasCreated :
      (calloc : ℕ → Bool) (name : CharPtr) (unit start end : ℕ)
      → Always (HasCreated unit start end) (bucket_create fs calloc name unit start end)
  unfolding bucket_create
  bucket_create-HasCreated calloc name unit start end =
      let P = HasCreated unit start end in
      Always-if P (is_null name) _ _ (λ _. tt)
        (λ _.
          Always-if P (calloc 1) _ _
            (λ _. Always-after P (slice_init calloc (some zeroed.name) name) _ (λ (_, named).
              let bt : Bucket = record zeroed {
                name = given zeroed.name named;
                min_rank = start;
                max_rank = end;
                data_file_max_length = unit;
                bs = operations_of (bucket_store_init (some zeroed.bs)).1;
              } in
              Always-bind (IsFirst bt) P (bucket_create_data_fd fs bt) _
                (bucket_create_data_fd-IsFirst bt)
                (λ fd first.
                  Always-after P
                    (vector_init calloc (some zeroed.cache) ((end + (word - start)) % word) false) _
                    (λ (_, cache).
                      Always-if P fs.log_open _ _ (λ _. tt)
                        (λ _. record {
                          fd = first;
                          index = refl;
                          cur = refl;
                          max = refl;
                          low = refl;
                          high = refl;
                        })))))
            (λ _. tt))

Puts-IsSameFile :
    {calloc : ℕ → Bool} {d : Double} {bt bt' : Bucket} {h h' : Heap Ptr}
    → Puts calloc d bt h bt' h'
    → IsSameFile bt bt'
Puts-IsSameFile (done bt h) = record {
  fd = refl;
  index = refl;
  cur = refl;
  max = refl;
  low = refl;
  high = refl;
}
Puts-IsSameFile {calloc} {d}
      (put {bt} {bt'} {bt''} {h} {h'} {h''} {ret} fs reads writes fresh_list fresh_node address obj
        there run more) =
    let now =
      bucket_put-IsSameFile fs calloc d reads writes fresh_list fresh_node address obj bt bt' h h'
        ret there run in
    let later = Puts-IsSameFile more in
    record {
      fd = later.fd ∙ now.fd;
      index = later.index ∙ now.index;
      cur = later.cur ∙ now.cur;
      max = later.max ∙ now.max;
      low = later.low ∙ now.low;
      high = later.high ∙ now.high;
    }

-- Whatever is put into a bucket that `bucket_create` has made, in any number of calls that return,
-- each on a disk that has its data file, the bucket keeps the descriptor that it began with, which
-- is -1 where the file was there already; its index and its current length stay 0, and its range is
-- the one that it was made with.
pub Puts-keep_file :
    (fs : Files) (calloc : ℕ → Bool) (d : Double) (name : CharPtr) (unit start end : ℕ)
    (bt bt' : Bucket) (h h' : Heap Ptr)
    → bucket_create fs calloc name unit start end ≡ ok (some bt)
    → Puts calloc d bt h bt' h'
    → (bt'.fd ≡ (if fs.exists (data_file fs bt) then failure else fs.open_file (data_file fs bt)))
      × (bt'.index ≡ 0)
      × (bt'.data_file_cur_length ≡ 0)
      × (bt'.data_file_max_length ≡ unit)
      × (bt'.min_rank ≡ start)
      × (bt'.max_rank ≡ end)
Puts-keep_file fs calloc d name unit start end bt bt' h h' made puts =
    let first = rw made at (bucket_create-HasCreated fs calloc name unit start end) in
    let same = Puts-IsSameFile puts in
    (
      same.fd ∙ first.fd,
      same.index ∙ first.index,
      same.cur ∙ first.cur,
      same.max ∙ first.max,
      same.low ∙ first.low,
      same.high ∙ first.high,
    )
