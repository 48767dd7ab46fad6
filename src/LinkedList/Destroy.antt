-- ===== src/LinkedList/Destroy.antt =====
-- `list_destroy` of src/common/list.c, for lists without a callback.
use sample_sds_storage.Base.{
  ℕ, suc, ◌<◌, ◌≡◌, ◌≢◌, refl, true, false, Option, none, some, [], ◌∷◌, arith, ltb, lt→ltb, ==_ne,
  ==_refl, length, ok, fault,
}
use sample_sds_storage.LinkedList.{
  Ptr, null, ListNode, Heap, write, load_list, store_list, call_cb, destroy_loop, list_destroy,
  ◌>>=◌,
}
use sample_sds_storage.LinkedList.Chain.{Cells, last, has, Chain, IsList}
use sample_sds_storage.LinkedList.Nodes.{load_node-ok}

module _ {A : Type 0} where
  has-last : (q : Ptr) (w : A) (cells : Cells A) → has (last q cells) ((q, w) ∷ cells) ≡ true
  has-last q w [] = rw (==_refl q) refl
  has-last q w ((r, u) ∷ cells) = ground (arith, has-last r u cells)

  -- The last node can be read.
  last_node :
      (nodes : Ptr → Option (ListNode A)) (prev q : Ptr) (w : A) (cells : Cells A)
      → Chain nodes prev null ((q, w) ∷ cells)
      → (last q cells ≢ null) × ((n : ListNode A) × (nodes (last q cells) ≡ some n))
  last_node nodes prev q w [] (ne, at, _, _) = (ne, (_, at))
  last_node nodes prev q w ((r, u) ∷ cells) (_, _, _, c) = last_node nodes q r u cells c

  -- Without a callback, as `list_create` leaves a list, `list_destroy` does nothing to an empty
  -- list; of a list with one node it releases the structure and not the node; with more nodes it
  -- calls the callback through NULL.
  pub list_destroy_lem :
      (fuel : ℕ) (h : Heap A) (lt : Ptr) (cells : Cells A) (is : IsList h lt cells)
      → is.cb ≡ false
      → (cells ≡ [] → list_destroy (suc fuel) lt h ≡ ok (some [], h))
        × (length cells ≡ 1
            → list_destroy (suc fuel) lt h
              ≡ ok (some [], record h { lists = write h.lists lt none }))
        × (1 < length cells → list_destroy (suc fuel) lt h ≡ fault)
  unfolding list_destroy destroy_loop load_list store_list call_cb
  list_destroy_lem fuel h lt [] is no_cb = (
    λ e. rw (==_ne lt null is.ne_null, ◌>>=◌, is.header) refl,
    λ one. absurd (omega arith),
    λ more. absurd (omega arith),
  )
  list_destroy_lem fuel h lt ((p, v) ∷ []) is no_cb =
      let (ne, _, _, _) = is.chain in
      (
        λ e. cc,
        λ one. rw (==_ne lt null is.ne_null, ◌>>=◌, is.header, ==_ne p null ne, ==_refl p) refl,
        λ more. absurd (omega arith),
      )
  list_destroy_lem fuel h lt ((p, v) ∷ (q, w) ∷ cells) is no_cb =
      let (ne, at, out, c) = is.chain in
      let (end_ne, (n, end_at)) = last_node h.nodes p q w cells c in
      let apart : p ≢ last q cells = λ e. cc (out, has-last q w cells) in
      let some_size : ltb 0 (suc (suc (length cells))) ≡ true = lt→ltb 0 _ (omega arith) in
      (
        λ e. cc,
        λ one. absurd (omega arith),
        λ more.
            rw
              (
                ==_ne lt null is.ne_null,
                ◌>>=◌,
                is.header,
                some_size,
                ==_ne p null ne,
                ==_ne p (last q cells) apart,
              )
              (rw (◌>>=◌, load_node-ok p h ne at)
                (rw (◌>>=◌, load_node-ok (last q cells) h end_ne end_at) (rw no_cb refl))),
      )
