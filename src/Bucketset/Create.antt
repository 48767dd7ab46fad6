-- ===== src/Bucketset/Create.antt =====
-- `bucket_create` and `bucketset_create`: the buckets of a new set have consecutive ranges.
use mathlib.Core.Path.{subst}
use sample_sds_storage.Base.{
  sizes, ℕ, zero, suc, ◌+◌, ◌-◌, ◌*◌, ◌%◌, ◌^◌, ◌≤◌, ◌<◌, ◌≡◌, refl, ◌∙◌, ap, ◌⊎◌, inl, inr, Bool,
  true, false, Option, none, some, List, [], ◌∷◌, ◌++◌, arith, Bool-cases, ℤ, success, failure,
  length, ok, ◌>>=◌, int32, fault, if◌then◌else◌,
}
use sample_sds_storage.Slice.{Slice, slice, ptr, slice_value, init_string, slice_init}
use sample_sds_storage.Slice.Strings.{CharPtr, null, at, wild, c_string}
use sample_sds_storage.BucketStore.{bucket_store_init}
use sample_sds_storage.Bucket.{
  Bucket, Files, operations_of, zeroed, bucket_create_data_fd, bucket_create, given, word,
}
use sample_sds_storage.Vector.{Vector}
use sample_sds_storage.Vector.Contents.{Holds, vector_push_back-Holds}
use sample_sds_storage.Vector.Sequence.{vector_init-Holds}
use sample_sds_storage.Bucketset.Ranges.{Covers, HasRanges, IsRanged}
use sample_sds_storage.Bucketset.Round.{bucketset_hash_range_round-least}
use sample_sds_storage.Bucketset.{
  Bucketset, no_buckets, zeroed_slice, create_loop, bucketset_create,
}

-- NULL, or a pointer to a string.
abbrev pub IsReadable : CharPtr → Type 0
IsReadable p = (p ≡ null) ⊎ ((v : List ℕ) × (c_string p ≡ ok v))

module _ (calloc : ℕ → Bool) where
  slice_init_returns :
      (se : Slice) (p : CharPtr)
      → IsReadable p
      → (r : ℤ × Option Slice) × (slice_init calloc (some se) p ≡ ok r)
  unfolding slice_init
  slice_init_returns se null h = ((failure, some (slice (ptr none) 0)), refl)
  slice_init_returns se (at bs) (inl e) = cc
  slice_init_returns se (at bs) (inr (v, e)) = ((success, some (init_string calloc v)), rw e refl)
  slice_init_returns se wild (inl e) = cc
  slice_init_returns se wild (inr (v, e)) = ((success, some (init_string calloc v)), rw e refl)

  module _ (fs : Files) (room : (n : ℕ) → calloc n ≡ true)
      (space : (file : List ℕ) (n : ℕ) → fs.allocates file n ≡ true) where
    fd_returns : (bt : Bucket) → (fd : ℤ) × (bucket_create_data_fd fs bt ≡ ok fd)
    unfolding bucket_create_data_fd
    fd_returns bt =
        let file = fs.name_of (slice_value (some bt.name)) bt.index in
        elim (Bool-cases (fs.exists file)) [
          | inl old ↦ (failure, rw old refl)
          | inr new ↦ (fs.open_file file, rw (new, space file bt.data_file_max_length) refl)
        ]

    -- What a call with a name comes to before the message on the cache.
    bucket_create-run :
        (text : List ℕ) {v : List ℕ} (unit start end : ℕ)
        → c_string (at text) ≡ ok v
        → (bt : Bucket) × (bucket_create fs calloc (at text) unit start end
            ≡ (if fs.log_open then fault else ok (some bt)))
          × (bt.min_rank ≡ start)
          × (bt.max_rank ≡ end)
    unfolding bucket_create
    bucket_create-run text {v} unit start end e =
        let (named, init) = slice_init_returns zeroed.name (at text) (inr (v, e)) in
        let bt : Bucket = record zeroed {
          name = given zeroed.name named.1;
          min_rank = start;
          max_rank = end;
          data_file_max_length = unit;
          bs = operations_of (bucket_store_init (some zeroed.bs)).1;
        } in
        let (fd, file) = fd_returns bt in
        let (cache, made, _, _) =
          vector_init-Holds calloc zeroed.cache ((end + (word - start)) % word) false (room _) in
        (
          record bt { fd = fd; cache = cache },
          rw (room 1, init) (rw (◌>>=◌, file) (rw (◌>>=◌, made) refl)),
          refl,
          refl,
        )

    -- `bucket_create` with a name gives a bucket of the range that it is told.
    bucket_create-range :
        (text : List ℕ) {v : List ℕ} (unit start end : ℕ)
        → fs.log_open ≡ false
        → c_string (at text) ≡ ok v
        → (bt : Bucket) × (bucket_create fs calloc (at text) unit start end ≡ ok (some bt))
          × (bt.min_rank ≡ start)
          × (bt.max_rank ≡ end)
    bucket_create-range text unit start end silent e =
        let (bt, run, low, high) = bucket_create-run text unit start end e in
        (bt, run ∙ ap (λ b. if b then fault else ok (some bt)) silent, low, high)

    bucket_create_open :
        (text : List ℕ) {v : List ℕ} (unit start end : ℕ)
        → fs.log_open ≡ true
        → c_string (at text) ≡ ok v
        → bucket_create fs calloc (at text) unit start end ≡ fault
    bucket_create_open text unit start end loud e =
        let (bt, run, _, _) = bucket_create-run text unit start end e in
        run ∙ ap (λ b. if b then fault else ok (some bt)) loud

int32_index : (n : ℕ) → n < 2 ^ 31 → int32 (n % 2 ^ 32) ≡ ℤ.pos n
int32_index n h = ground arith

HasRanges-append :
    (range i : ℕ) (bts : List Bucket) (bt : Bucket)
    → HasRanges range i bts
    → Covers range (i + length bts) bt
    → HasRanges range i (bts ++ bt ∷ [])
HasRanges-append range i [] bt h c = (subst (λ n. Covers range n bt) (omega arith) c, tt)
HasRanges-append range i (b ∷ bts) bt (first, h) c = (
  first,
  HasRanges-append range (i + 1) bts bt h (subst (λ n. Covers range n bt) (omega arith) c),
)

-- The machine with an open log.
abbrev pub opened : Files → Files
opened fs = record fs { log_open = true }

module _ (fs : Files) (calloc : ℕ → Bool) (name_of : CharPtr → CharPtr → ℕ → ℕ → List ℕ)
    (room : (n : ℕ) → calloc n ≡ true)
    (space : (file : List ℕ) (n : ℕ) → fs.allocates file n ≡ true) (silent : fs.log_open ≡ false)
    (named : (dir name : CharPtr) (start end : ℕ)
      → (v : List ℕ) × (c_string (at (name_of dir name start end)) ≡ ok v))
    (name data_dir : CharPtr) where
  create_loop-HasRanges :
      (range unit left i : ℕ) (bts : List Bucket) (vec : Vector Bucket)
      → 0 < range
      → Holds bts vec
      → length bts ≡ i
      → HasRanges range 0 bts
      → i + left ≤ vec.cap
      → vec.cap < 2 ^ 31
      → (i + left) * range < word
      → (out : Vector Bucket) × (all : List Bucket) × (create_loop fs calloc name_of name data_dir
            range unit left i vec
          ≡ ok out)
        × Holds all out
        × HasRanges range 0 all
        × (length all ≡ i + left)
  unfolding create_loop
  create_loop-HasRanges range unit zero i bts vec pos h size ranges fits small below =
      (vec, bts, refl, h, ranges, omega arith)
  create_loop-HasRanges range unit (suc left) i bts vec pos h size ranges fits small below =
      let within : (i + 1) * range ≤ (i + suc left) * range = grind arith in
      let start : (i * range) % word ≡ i * range = omega arith in
      let end : ((i + 1) * range + (word - 1)) % word + 1 ≡ (i + 1) * range = omega arith in
      let (v, text) =
        named data_dir name ((i * range) % word) (((i + 1) * range + (word - 1)) % word) in
      let (bt, made, low, high) =
        bucket_create-range calloc fs room space
          (name_of data_dir name ((i * range) % word) (((i + 1) * range + (word - 1)) % word))
          ((unit * 1024 * 1024) % word) ((i * range) % word) (((i + 1) * range + (word - 1)) % word)
          silent text in
      let numbered : int32 (i % 2 ^ 32) ≡ ℤ.pos i = int32_index i (omega arith) in
      let covers : Covers range (0 + length bts) (record bt { id = int32 (i % 2 ^ 32) }) =
        subst (λ n. Covers range n (record bt { id = int32 (i % 2 ^ 32) }))
          (let e : i ≡ 0 + length bts = omega arith in e)
          (record { id = numbered; low = low ∙ start; high = ap (λ n. n + 1) high ∙ end }) in
      let (mid, pushed, held, cap, _) =
        vector_push_back-Holds calloc {vec = vec} (record bt { id = int32 (i % 2 ^ 32) }) h
          (λ full. absurd (omega (arith, h.count))) (omega arith) (omega (arith, h.count)) in
      let same_cap : mid.cap ≡ vec.cap = omega (arith, h.count) in
      let (out, all, run, done, ranged, total) =
        create_loop-HasRanges range unit left (i + 1)
          (bts ++ record bt { id = int32 (i % 2 ^ 32) } ∷ []) mid pos held (grind sizes)
          (HasRanges-append range 0 bts (record bt { id = int32 (i % 2 ^ 32) }) ranges covers)
          (omega arith) (omega arith)
          (subst (λ n. n * range < word) (let e : i + suc left ≡ i + 1 + left = omega arith in e)
            below) in
      (out, all, rw (◌>>=◌, made) (rw (◌>>=◌, pushed) run), done, ranged, omega arith)

  create_loop_open :
      (range unit left i : ℕ) (vec : Vector Bucket)
      → create_loop (opened fs) calloc name_of name data_dir range unit (suc left) i vec ≡ fault
  unfolding create_loop
  create_loop_open range unit left i vec =
      let (v, text) =
        named data_dir name ((i * range) % word) (((i + 1) * range + (word - 1)) % word) in
      rw
        (bucket_create_open calloc (opened fs) room space
          (name_of data_dir name ((i * range) % word) (((i + 1) * range + (word - 1)) % word))
          ((unit * 1024 * 1024) % word) ((i * range) % word) (((i + 1) * range + (word - 1)) % word)
          refl text)
        refl

  bucketset_create_open :
      (bucket_size bucket_range_count unit : ℕ)
      → IsReadable name
      → IsReadable data_dir
      → bucket_range_count < 2 ^ 30
      → bucketset_create
          (opened fs)
          calloc
          name_of
          name
          data_dir
          (suc bucket_size)
          bucket_range_count
          unit
        ≡ fault
  unfolding bucketset_create
  bucketset_create_open n base unit name_ok dir_ok short =
      let (range, rounded, _, above, near) = bucketset_hash_range_round-least base (omega arith) in
      let (vec, init, empty, cap) =
        vector_init-Holds calloc no_buckets (suc n) true (room (suc n)) in
      let (dir, dir_init) = slice_init_returns calloc zeroed_slice data_dir dir_ok in
      let (first, first_init) = slice_init_returns calloc zeroed_slice name name_ok in
      rw (room 1, rounded)
        (rw (◌>>=◌, init)
          (rw (◌>>=◌, dir_init)
            (rw (◌>>=◌, first_init) (rw (create_loop_open range unit n 0 vec) refl))))

  -- `bucketset_create` gives a set of as many buckets as it is told, whose ranges follow on one
  -- another from 0 on, which are numbered in turn and are all of the rounded length, which is above
  -- the length given. Memory and disk space are taken to be there, the log to have no open
  -- descriptor, the names of the buckets to be strings, the name and the directory to be NULL or
  -- strings, the buckets to be fewer than 2 ^ 31 and the length given to be below 2 ^ 30. With all
  -- that but an open log, as the program has it from the start, one bucket more, so any number but
  -- none, is undefined: a message reads an argument that is not there.
  pub bucketset_create-IsRanged :
      (bucket_size bucket_range_count unit : ℕ)
      → IsReadable name
      → IsReadable data_dir
      → bucket_size < 2 ^ 31
      → bucket_range_count < 2 ^ 30
      → (bst : Bucketset) × (bucketset_create fs calloc name_of name data_dir bucket_size
            bucket_range_count unit
          ≡ ok (some bst))
        × (r : IsRanged bst.bucket_range_count bst) × (length r.bts ≡ bucket_size)
        × (bst.bucket_size ≡ bucket_size)
        × (bucket_range_count < bst.bucket_range_count)
        × (bucketset_create
              (opened fs)
              calloc
              name_of
              name
              data_dir
              (suc bucket_size)
              bucket_range_count
              unit
            ≡ fault)
  unfolding bucketset_create
  bucketset_create-IsRanged n base unit name_ok dir_ok few short =
      let (range, rounded, _, above, near) = bucketset_hash_range_round-least base (omega arith) in
      let (vec, init, empty, cap) = vector_init-Holds calloc no_buckets n true (room n) in
      let (dir, dir_init) = slice_init_returns calloc zeroed_slice data_dir dir_ok in
      let (first, first_init) = slice_init_returns calloc zeroed_slice name name_ok in
      let (second, second_init) =
        slice_init_returns calloc (given zeroed_slice first.1) name name_ok in
      let bound : n * range ≤ 2 ^ 31 * range = grind arith in
      let (out, all, run, held, ranged, total) =
        create_loop-HasRanges range unit n 0 [] vec (omega arith) empty refl tt (omega arith)
          (omega arith) (omega arith) in
      (
        record {
          data_dir = given zeroed_slice dir.1;
          set_name = given zeroed_slice second.1;
          bucket_range_count = range;
          bucket_size = n;
          buckets = out;
          data_file_size_unit = unit;
        },
        rw (room 1, rounded)
            (rw (◌>>=◌, init)
              (rw (◌>>=◌, dir_init)
                (rw (◌>>=◌, first_init) (rw (◌>>=◌, run) (rw (◌>>=◌, second_init) refl))))),
        record { bts = all; held = held; ranges = ranged; few = omega arith },
        omega arith,
        refl,
        above,
        bucketset_create_open n base unit name_ok dir_ok short,
      )
