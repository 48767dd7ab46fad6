-- ===== src/Bucketset/Rows.antt =====
-- What `bucketset_print` of src/server/bucketset.c shows.
use sample_sds_storage.Base.{
  ℕ, zero, suc, ◌+◌, ◌≡◌, refl, sym, ◌∙◌, ap, some, List, [], ◌∷◌, map, arith, length, get_elem?,
  ok, ◌>>=◌,
}
use sample_sds_storage.Bucket.{Bucket}
use sample_sds_storage.Vector.{Vector}
use sample_sds_storage.Vector.Contents.{Holds}
use sample_sds_storage.Vector.Sequence.{vector_at-get_elem?}
use sample_sds_storage.Bucketset.{Bucketset, row_of, print_loop, bucketset_print}

print_loop-map :
    (left i : ℕ) {bts : List Bucket} {vec : Vector Bucket} (rest : List Bucket)
    → Holds bts vec
    → length rest ≡ left
    → ((j : ℕ) → get_elem? rest j ≡ get_elem? bts (i + j))
    → print_loop left i vec ≡ ok (map row_of rest)
unfolding print_loop
print_loop-map zero i [] h l same = refl
print_loop-map zero i (bt ∷ rest) h l same = absurd (omega arith)
print_loop-map (suc left) i [] h l same = absurd (omega arith)
print_loop-map (suc left) i {bts} {vec} (bt ∷ rest) h l same =
    let here : get_elem? bts i ≡ some bt = sym (same 0 ∙ ap (get_elem? bts) (omega arith)) in
    let next =
      print_loop-map left (i + 1) rest h (omega arith)
        (λ j. same (suc j) ∙ ap (get_elem? bts) (omega arith)) in
    rw (vector_at-get_elem? h i ∙ ap ok here, ◌>>=◌, next) refl

-- Of a set with as many buckets as it says, `bucketset_print` shows each of them, in order.
pub bucketset_print-map :
    (bst : Bucketset) (bts : List Bucket)
    → Holds bts bst.buckets
    → bst.bucket_size ≡ length bts
    → bucketset_print (some bst) ≡ ok (map row_of bts)
unfolding bucketset_print
bucketset_print-map bst bts h size =
    rw size (print_loop-map (length bts) 0 bts h refl (λ j. ap (get_elem? bts) (omega arith)))
