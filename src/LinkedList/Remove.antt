-- ===== src/LinkedList/Remove.antt =====
-- `list_del` of src/common/list.c.
use sample_sds_storage.Base.{
  sizes, ◌+◌, ◌-◌, ◌%◌, ◌^◌, ◌<◌, ◌≡◌, refl, ap, Bool, true, false, none, some, ◌∷◌, ◌++◌, arith,
  ltb, lt→ltb, ==_ne, ==_refl, length, length-append, ok,
}
use sample_sds_storage.LinkedList.{
  Ptr, null, LinkedList, Heap, write, store_node, load_list, store_list, list_node_destroy,
  list_del, ◌>>=◌,
}
use sample_sds_storage.LinkedList.Chain.{
  Cells, first, last, has, IsList, first-append, last-append, Chain-split,
}
use sample_sds_storage.LinkedList.Nodes.{load_node-ok}
use sample_sds_storage.LinkedList.Unlink.{unlinked_lem}

module _ {A : Type 0} where
  removed_header :
      (xs ys : Cells A) (p : Ptr) (v : A) (cb : Bool)
      → length (xs ++ (p, v) ∷ ys) < 2 ^ 64
      → ◌≡◌ {A = LinkedList}
          (record {
            head = first (first null ys) xs;
            tail = last (last null xs) ys;
            size = (length (xs ++ (p, v) ∷ ys) + (2 ^ 64 - 1)) % 2 ^ 64;
            has_cb = cb;
          })
          (record {
            head = first null (xs ++ ys);
            tail = last null (xs ++ ys);
            size = length (xs ++ ys);
            has_cb = cb;
          })
  removed_header xs ys p v cb room =
      let more = length-append xs ((p, v) ∷ ys) in
      let less = length-append xs ys in
      let size : (length (xs ++ (p, v) ∷ ys) + (2 ^ 64 - 1)) % 2 ^ 64 ≡ length (xs ++ ys) =
        omega arith in
      rw (first-append null xs ys, last-append null xs ys, size) refl

  -- `list_del` of a node of a list takes it out: the list then holds the nodes before it and those
  -- behind it, the node is freed, and no other node outside of the list is touched.
  pub list_del-IsList :
      (h : Heap A) (lt p : Ptr) (v : A) (xs ys : Cells A)
      → IsList h lt (xs ++ (p, v) ∷ ys)
      → (g : Heap A) × (list_del lt p h ≡ ok (tt, g))
        × IsList g lt (xs ++ ys)
        × (g.nodes p ≡ none)
        × ((a : Ptr) → has a (xs ++ (p, v) ∷ ys) ≡ false → g.nodes a ≡ h.nodes a)
  unfolding list_del load_list store_list list_node_destroy store_node
  list_del-IsList h lt p v xs ys is =
      let (_, (p_ne, p_at, _, _), _) = Chain-split h.nodes null null xs ((p, v) ∷ ys) is.chain in
      let whole = xs ++ (p, v) ∷ ys in
      let l : LinkedList = record {
        head = first null whole;
        tail = last null whole;
        size = length whole;
        has_cb = is.cb;
      } in
      let u = unlinked_lem h p v xs ys l is.chain refl refl in
      let out : LinkedList = record {
        head = first (first null ys) xs;
        tail = last (last null xs) ys;
        size = (length whole + (2 ^ 64 - 1)) % 2 ^ 64;
        has_cb = is.cb;
      } in
      let size : ltb 0 (length whole) ≡ true = lt→ltb 0 _ (grind sizes) in
      (
        record { lists = write u.end.lists lt (some out); nodes = write u.end.nodes p none },
        rw (==_ne lt null is.ne_null, ◌>>=◌, is.header, size)
            (rw (◌>>=◌, load_node-ok p h p_ne p_at)
              (rw (◌>>=◌, u.before)
                (rw (◌>>=◌, load_node-ok p u.mid p_ne u.still)
                  (rw (◌>>=◌, u.behind)
                    (rw (==_ne p null p_ne)
                      (rw (◌>>=◌, load_node-ok p u.end p_ne u.last_still) refl)))))),
        record {
          ne_null = is.ne_null;
          cb = is.cb;
          header = rw (==_refl lt) (ap some (removed_header xs ys p v is.cb is.count));
          chain = u.chain;
          count = grind (sizes, is.count);
        },
        rw (==_refl p) refl,
        u.outside,
      )
