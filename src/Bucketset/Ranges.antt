-- ===== src/Bucketset/Ranges.antt =====
-- The ranges of the buckets that src/server/bucketset.c makes, and which of them a search finds.
use native.Mathlib.Nat.{div-add-mod, mod-lt}
use sample_sds_storage.Base.{
  quotient-le, quotient-lt, ℕ, zero, suc, ◌+◌, ◌*◌, ◌/◌, ◌%◌, ◌≤◌, ◌<◌, ◌≡◌, ◌≢◌, refl, sym, ◌∙◌,
  ap, ◌⊎◌, inl, inr, true, false, ◌&&◌, Option, none, some, List, [], ◌∷◌, arith, ltb, leb,
  Bool-cases, if◌then◌else◌, length, get_elem?, ok, ◌^◌, int_max, lt→ltb, ℤ,
}
use sample_sds_storage.Bucket.{Bucket}
use sample_sds_storage.Vector.{Vector}
use sample_sds_storage.Vector.Contents.{Holds}
use sample_sds_storage.Vector.Sequence.{vector_at-get_elem?}
use sample_sds_storage.Bucketset.{Bucketset, search_loop, bucketset_search_bucket}

-- The bucket at `i` covers from `i * range` up to but not including `(i + 1) * range - 1`.
pub record Covers (range i : ℕ) (bt : Bucket) : Type 0 where
  pub id : bt.id ≡ ℤ.pos i
  pub low : bt.min_rank ≡ i * range
  pub high : bt.max_rank + 1 ≡ (i + 1) * range

-- Each bucket covers its range, from the `i`-th on.
abbrev pub HasRanges : ℕ → ℕ → List Bucket → Type 0
HasRanges range i [] = Unit
HasRanges range i (bt ∷ bts) = Covers range i bt × HasRanges range (i + 1) bts

-- The search over a list.
abbrev pub find_bucket : ℕ → ℕ → List Bucket → Option (ℕ × Bucket)
find_bucket hash i [] = none
find_bucket hash i (bt ∷ bts) =
    let rest = find_bucket hash (i + 1) bts in
    if leb bt.min_rank hash && ltb hash bt.max_rank then some (i, bt) else rest

search_loop-find_bucket :
    (left i hash : ℕ) {bts : List Bucket} {vec : Vector Bucket} (rest : List Bucket)
    → Holds bts vec
    → length rest ≡ left
    → ((j : ℕ) → get_elem? rest j ≡ get_elem? bts (i + j))
    → i + left < 2 ^ 31
    → search_loop left i hash vec ≡ ok (find_bucket hash i rest)
unfolding search_loop
search_loop-find_bucket zero i hash [] h l same few = refl
search_loop-find_bucket zero i hash (bt ∷ rest) h l same few = absurd (omega arith)
search_loop-find_bucket (suc left) i hash [] h l same few = absurd (omega arith)
search_loop-find_bucket (suc left) i hash {bts} {vec} (bt ∷ rest) h l same few =
    let step : ltb i int_max ≡ true = lt→ltb i int_max (omega arith) in
    let here : get_elem? bts i ≡ some bt = sym (same 0 ∙ ap (get_elem? bts) (omega arith)) in
    let next =
      search_loop-find_bucket left (i + 1) hash rest h (omega arith)
        (λ j. same (suc j) ∙ ap (get_elem? bts) (omega arith)) (omega arith) in
    elim (Bool-cases (leb bt.min_rank hash && ltb hash bt.max_rank)) [
      | inl hit ↦ rw (vector_at-get_elem? h i ∙ ap ok here, hit) refl
      | inr miss ↦ rw (vector_at-get_elem? h i ∙ ap ok here, miss, step) next
    ]

module _ (range i hash : ℕ) (pos : 0 < range) {bt : Bucket} (c : Covers range i bt) where
  pub covered :
      (leb bt.min_rank hash && ltb hash bt.max_rank) ≡ true
      → (hash / range ≡ i) × (hash % range + 1 ≢ range)
  covered hit =
      let low : i * range ≤ hash = ground (arith, c.low) in
      let high : hash + 1 < (i + 1) * range = ground (arith, c.high) in
      let least = quotient-le range i hash pos low in
      let most = quotient-lt range (i + 1) hash pos (omega arith) in
      let same : hash / range ≡ i = omega arith in
      let product : range * (hash / range) ≡ range * i = ap (λ (q : ℕ). range * q) same in
      (same, omega (arith, div-add-mod hash range, product))

  missed :
      (leb bt.min_rank hash && ltb hash bt.max_rank) ≡ false
      → hash / range ≡ i
      → hash % range + 1 ≡ range
  missed miss same =
      let product : range * (hash / range) ≡ range * i = ap (λ (q : ℕ). range * q) same in
      let whole = div-add-mod hash range in
      let below = mod-lt hash pos in
      let low : bt.min_rank ≤ hash = omega (arith, c.low, whole, product) in
      let high : bt.max_rank ≤ hash = ground arith in omega (arith, c.high, whole, product, below)

-- Where a hash belongs among the buckets from the `i`-th on: in the range of one of them, but not
-- at its last place.
abbrev pub Belongs : (range i hash : ℕ) → List Bucket → Type 0
Belongs range i hash bts =
    (hash % range + 1 ≢ range) × (i ≤ hash / range) × (hash / range < i + length bts)

pub find_bucket-HasRanges :
    (range i hash : ℕ) (bts : List Bucket)
    → 0 < range
    → HasRanges range i bts
    → (Belongs range i hash bts
        → (bt : Bucket) × (find_bucket hash i bts ≡ some (hash / range, bt))
          × Covers range (hash / range) bt)
      × (¬ Belongs range i hash bts → find_bucket hash i bts ≡ none)
find_bucket-HasRanges range i hash [] pos h = (λ (_, low, high). absurd (omega arith), λ _. refl)
find_bucket-HasRanges range i hash (bt ∷ bts) pos (c, h) =
    let (found, absent) = find_bucket-HasRanges range (i + 1) hash bts pos h in
    elim (Bool-cases (leb bt.min_rank hash && ltb hash bt.max_rank)) [
      | inl hit ↦
          let (same, inner) = covered range i hash pos c hit in
          (
            λ _. (bt, rw (hit, same) refl, rw same c),
            λ not_here. absurd (not_here (inner, omega arith, omega arith)),
          )
      | inr miss ↦ (
        λ (inner, low, high).
            let other : hash / range ≢ i = λ same. inner (missed range i hash pos c miss same) in
            let (b, run, covers) = found (inner, omega arith, omega arith) in
            (b, rw miss run, covers),
        λ not_here.
            rw miss (absent (λ (inner, low, high). not_here (inner, omega arith, omega arith))),
      )
    ]

-- A set whose buckets cover the ranges of `range` hashes each, with an `int` to count them.
pub record IsRanged (range : ℕ) (bst : Bucketset) : Type 0 where
  pub bts : List Bucket
  pub held : Holds bts bst.buckets
  pub ranges : HasRanges range 0 bts
  pub few : length bts < 2 ^ 31

pub search-find_bucket :
    (range hash : ℕ) (bst : Bucketset) (r : IsRanged range bst)
    → bucketset_search_bucket bst hash ≡ ok (find_bucket hash 0 r.bts)
unfolding bucketset_search_bucket
search-find_bucket range hash bst r =
    search_loop-find_bucket bst.buckets.size 0 hash r.bts r.held (sym r.held.count)
      (λ j. ap (get_elem? r.bts) (omega arith)) (omega (arith, r.few, r.held.count))

-- In a set of fewer than 2 ^ 31 buckets, `bucketset_search_bucket` finds the bucket whose range the
-- hash is in, where the hash is in the range of some bucket and is not the last of that range.
pub bucketset_search_bucket-Belongs :
    (range hash : ℕ) (bst : Bucketset)
    → 0 < range
    → (r : IsRanged range bst) → Belongs range 0 hash r.bts
    → (bt : Bucket) × (bucketset_search_bucket bst hash ≡ ok (some (hash / range, bt)))
      × Covers range (hash / range) bt
bucketset_search_bucket-Belongs range hash bst pos r inside =
    let (bt, e, covers) = (find_bucket-HasRanges range 0 hash r.bts pos r.ranges).0 inside in
    (bt, search-find_bucket range hash bst r ∙ ap ok e, covers)

-- In a set of fewer than 2 ^ 31 buckets, a hash that is the last of a range, or past the ranges of
-- all of them, belongs to no bucket: `bucketset_search_bucket` returns NULL.
pub bucketset_search_bucket_gap :
    (range hash : ℕ) (bst : Bucketset)
    → 0 < range
    → (r : IsRanged range bst) → (hash % range + 1 ≡ range) ⊎ (length r.bts ≤ hash / range)
    → bucketset_search_bucket bst hash ≡ ok none
bucketset_search_bucket_gap range hash bst pos r gap =
    search-find_bucket range hash bst r
    ∙ ap ok (
        (find_bucket-HasRanges range 0 hash r.bts pos r.ranges).1 (λ (inner, low, high). elim gap [
          | inl end ↦ inner end
          | inr past ↦ absurd (omega arith)
        ]))
