-- ===== src/Bucketset/Puts.antt =====
-- A bucket of src/server/bucketset.c that is searched for, put into through its pointer, and
-- searched for again.
use mathlib.Core.Path.{subst}
use mathlib.Core.Option.{some-injective}
use sample_sds_storage.Base.{
  ℕ, zero, suc, ◌+◌, ◌/◌, ◌<◌, ◌≡◌, ◌≢◌, refl, sym, ap, ◌∙◌, inl, inr, Bool, false, ◌&&◌, some,
  List, [], ◌∷◌, arith, ltb, leb, Bool-cases, ℤ, get_elem?, set, length-set, get_elem?-set, ok,
  ok-injective,
}
use sample_sds_storage.Bucket.{Bucket, Files, bucket_put}
use sample_sds_storage.Bucket.Effect.{switches, with_room, bucket_put-Leaves}
use sample_sds_storage.BucketObject.{BucketObject}
use sample_sds_storage.Hash.Double.{Double}
use sample_sds_storage.LinkedList.{Ptr, Heap}
use sample_sds_storage.Utils.{Read, Write}
use sample_sds_storage.Vector.{Vector}
use sample_sds_storage.Vector.Contents.{set-Holds}
use sample_sds_storage.Bucketset.{Bucketset, with_bucket, bucketset_search_bucket}
use sample_sds_storage.Bucketset.Ranges.{
  Covers, HasRanges, find_bucket, covered, Belongs, find_bucket-HasRanges, IsRanged,
  search-find_bucket,
}

-- The test of the search.
abbrev matches : ℕ → Bucket → Bool
matches hash bt = leb bt.min_rank hash && ltb hash bt.max_rank

find_bucket-get_elem? :
    (hash i : ℕ) (bts : List Bucket) (k : ℕ) (bt : Bucket)
    → find_bucket hash i bts ≡ some (k, bt)
    → (j : ℕ) × (k ≡ i + j) × (get_elem? bts j ≡ some bt)
find_bucket-get_elem? hash i [] k bt e = cc e
find_bucket-get_elem? hash i (b ∷ bts) k bt e = elim (Bool-cases (matches hash b)) [
  | inl hit ↦
      let same = some-injective (i, b) (k, bt) (rw hit at e) in
      (0, omega (arith, ap (λ p. p.0) same), ap (λ p. some p.1) same)
  | inr miss ↦
      let (j, place, at) = find_bucket-get_elem? hash (i + 1) bts k bt (rw miss at e) in
      (suc j, omega arith, at)
]

HasRanges-set :
    (range i : ℕ) (bts : List Bucket) (j : ℕ) (out : Bucket)
    → HasRanges range i bts
    → Covers range (i + j) out
    → HasRanges range i (set bts j out)
HasRanges-set range i [] j out h c = tt
HasRanges-set range i (b ∷ bts) zero out (first, h) c =
    (subst (λ k. Covers range k out) (omega arith) c, h)
HasRanges-set range i (b ∷ bts) (suc j) out (first, h) c = (
  first,
  HasRanges-set range (i + 1) bts j out h (subst (λ k. Covers range k out) (omega arith) c),
)

-- What a search that does not stop at the bucket finds does not depend on it.
find_bucket-set :
    (hash i : ℕ) (bts : List Bucket) (j : ℕ) (bt out : Bucket)
    → get_elem? bts j ≡ some bt
    → matches hash bt ≡ false
    → matches hash out ≡ false
    → find_bucket hash i (set bts j out) ≡ find_bucket hash i bts
find_bucket-set hash i [] j bt out at old new = refl
find_bucket-set hash i (b ∷ bts) zero bt out at old new =
    let same = some-injective b bt at in rw (new, same, old) refl
find_bucket-set hash i (b ∷ bts) (suc j) bt out at old new = elim (Bool-cases (matches hash b)) [
  | inl hit ↦ rw hit refl
  | inr miss ↦ rw (miss, find_bucket-set hash (i + 1) bts j bt out at old new) refl
]

Covers-Leaves :
    (range i : ℕ) (fs : Files) (bt : Bucket) (cache : Vector Ptr) (n : ℕ)
    → Covers range i bt
    → Covers range i (record (with_room fs bt) { cache = cache; current_offset = n })
Covers-Leaves range i fs bt cache n c =
    elim (Bool-cases (leb bt.data_file_max_length bt.data_file_cur_length && switches fs bt)) [
      | inl full ↦ rw full (record { id = c.id; low = c.low; high = c.high })
      | inr room ↦ rw room (record { id = c.id; low = c.low; high = c.high })
    ]

-- The bucket that was found, at its place in the list, with its range.
found-Covers :
    (range hash : ℕ) (bts : List Bucket) (bt : Bucket)
    → 0 < range
    → HasRanges range 0 bts
    → Belongs range 0 hash bts
    → find_bucket hash 0 bts ≡ some (hash / range, bt)
    → (get_elem? bts (hash / range) ≡ some bt) × Covers range (hash / range) bt
found-Covers range hash bts bt pos ranges inside found =
    let (b, run, covers) = (find_bucket-HasRanges range 0 hash bts pos ranges).0 inside in
    let same = some-injective (hash / range, b) (hash / range, bt) (sym run ∙ found) in
    let (j, place, at) = find_bucket-get_elem? hash 0 bts (hash / range) bt found in
    let here : hash / range ≡ j = omega arith in
    (
      ap (get_elem? bts) here ∙ at,
      subst (λ (p : ℕ × Bucket). Covers range (hash / range) p.1) same covers,
    )

module _ (range hash : ℕ) (bst : Bucketset) (pos : 0 < range) (r : IsRanged range bst)
    (inside : Belongs range 0 hash r.bts) (bt out : Bucket)
    (found : bucketset_search_bucket bst hash ≡ ok (some (hash / range, bt)))
    (covers : Covers range (hash / range) out) where
  abbrev changed : Bucketset
  changed = with_bucket (hash / range) (some out) bst

  changed-IsRanged : IsRanged range changed
  changed-IsRanged = record {
    bts = set r.bts (hash / range) out;
    held = set-Holds (hash / range) out r.held;
    ranges =
        HasRanges-set range 0 r.bts (hash / range) out r.ranges
          (subst (λ k. Covers range k out) (omega arith) covers);
    few = omega (arith, r.few, length-set r.bts (hash / range) out);
  }

  at_place : (get_elem? r.bts (hash / range) ≡ some bt) × Covers range (hash / range) bt
  at_place =
      found-Covers range hash r.bts bt pos r.ranges inside
        (ok-injective (sym (search-find_bucket range hash bst r) ∙ found))

  search-changed : bucketset_search_bucket changed hash ≡ ok (some (hash / range, out))
  unfolding changed-IsRanged
  search-changed =
      let bts = set r.bts (hash / range) out in
      let new = changed-IsRanged in
      let within : Belongs range 0 hash bts =
        (inside.0, omega arith, omega (arith, inside.2, length-set r.bts (hash / range) out)) in
      let (b, run, _) = (find_bucket-HasRanges range 0 hash bts pos new.ranges).0 within in
      let (at, _) = found-Covers range hash bts b pos new.ranges within run in
      let there : get_elem? bts (hash / range) ≡ some out =
        ground (arith, get_elem?-set r.bts (hash / range) (hash / range) out, inside.2) in
      let same = some-injective b out (sym at ∙ there) in
      search-find_bucket range hash changed new
      ∙ ap ok (run ∙ ap (λ x. some (hash / range, x)) same)

  mismatch :
      (other : ℕ) (b : Bucket)
      → other / range ≢ hash / range
      → Covers range (hash / range) b
      → matches other b ≡ false
  mismatch other b differs c = elim (Bool-cases (matches other b)) [
    | inl hit ↦ absurd (differs (covered range (hash / range) other pos c hit).0)
    | inr miss ↦ miss
  ]

  search-other :
      (other : ℕ)
      → other / range ≢ hash / range
      → bucketset_search_bucket changed other ≡ bucketset_search_bucket bst other
  unfolding changed-IsRanged
  search-other other differs =
      search-find_bucket range other changed changed-IsRanged
      ∙ ap ok (
          find_bucket-set other 0 r.bts (hash / range) bt out at_place.0
            (mismatch other bt differs at_place.1) (mismatch other out differs covers))
      ∙ sym (search-find_bucket range other bst r)

-- A set of fewer than 2 ^ 31 buckets, a hash that belongs to one of them, and an object that a call
-- of `bucket_put` that returns puts into the bucket that the search finds: the set's buckets then
-- still cover their ranges, the search for that hash finds the bucket as the call has left it, and
-- a search in any other range finds what it did.
pub bucketset_search_bucket-put :
    (range hash : ℕ) (bst : Bucketset) (fs : Files) (calloc : ℕ → Bool) (d : Double)
    (reads : List Read) (writes : List Write) (fresh_list fresh_node address : Ptr)
    (bt out : Bucket) (obj : BucketObject) (h h' : Heap Ptr) (ret : ℤ)
    → 0 < range
    → (r : IsRanged range bst) → Belongs range 0 hash r.bts
    → bucketset_search_bucket bst hash ≡ ok (some (hash / range, bt))
    → bucket_put fs calloc d reads writes fresh_list fresh_node (some bt) (some (address, obj)) h
      ≡ ok (some (ret, some out, h'))
    → let put = with_bucket (hash / range) (some out) bst in
      IsRanged range put
      × (bucketset_search_bucket put hash ≡ ok (some (hash / range, out)))
      × ((other : ℕ)
          → other / range ≢ hash / range
          → bucketset_search_bucket put other ≡ bucketset_search_bucket bst other)
bucketset_search_bucket-put range hash bst fs calloc d reads writes fresh_list fresh_node address bt
      out obj h h' ret pos r inside found run =
    let (cache, left) =
      bucket_put-Leaves fs calloc d reads writes fresh_list fresh_node address bt obj h h' ret
        (some out) run in
    let (_, old) =
      found-Covers range hash r.bts bt pos r.ranges inside
        (ok-injective (sym (search-find_bucket range hash bst r) ∙ found)) in
    let covers : Covers range (hash / range) out =
      subst (Covers range (hash / range)) (sym (some-injective out _ left))
        (Covers-Leaves range (hash / range) fs bt cache _ old) in
    (
      changed-IsRanged range hash bst pos r inside bt out found covers,
      search-changed range hash bst pos r inside bt out found covers,
      search-other range hash bst pos r inside bt out found covers,
    )
