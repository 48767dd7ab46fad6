-- ===== src/LinkedList/Append.antt =====
-- `list_add` of src/common/list.c.
use mathlib.Core.Path.{subst}
use mathlib.Core.List.{append_assoc}
use sample_sds_storage.Base.{
  sizes, ◌+◌, ◌%◌, ◌^◌, ◌<◌, ◌≡◌, ◌≢◌, refl, sym, ◌∙◌, ap, Bool, false, Option, some, [], ◌∷◌, ◌++◌,
  arith, ◌==◌, ==_ne, ==_refl, success, length, length-append, ok,
}
use sample_sds_storage.LinkedList.{
  Ptr, null, ListNode, list_node, LinkedList, Heap, write, set_next, set_prev, load_list,
  store_list, link_last, list_add, bind-ok, pure, ◌>>=◌, ◌>>◌,
}
use sample_sds_storage.LinkedList.Chain.{
  members, Cells, first, last, has, Chain, IsList, first-append, last-append, frame, Chain-split,
  Chain-append, last_cell,
}
use sample_sds_storage.LinkedList.Nodes.{set_next-ok, set_prev-ok}

module _ {A : Type 0} where
  -- The node behind the last one: `list_add` makes it the next of the last, and the last its
  -- previous.
  module _ (h : Heap A) (p : Ptr) (v : A) (ne : p ≢ null)
      (at : h.nodes p ≡ some (list_node null null v)) where
    abbrev linked : Ptr → ListNode A → Ptr → Option (ListNode A)
    linked t n =
        write (write h.nodes t (some (record n { next = p }))) p (some (list_node null t v))

    linked-Chain :
        (init : Cells A) (t : Ptr) (w : A)
        → Chain h.nodes null null (init ++ (t, w) ∷ [])
        → has p (init ++ (t, w) ∷ []) ≡ false
        → (t ≢ null)
          × (h.nodes t ≡ some (list_node null (last null init) w))
          × (t ≢ p)
          × Chain
              (linked t (list_node null (last null init) w))
              null
              null
              ((init ++ (t, w) ∷ []) ++ (p, v) ∷ [])
    linked-Chain init t w c out =
        let (front, (t_ne, t_at, t_out, _), apart) =
          Chain-split h.nodes null null init ((t, w) ∷ []) c in
        let n = list_node null (last null init) w in
        let new : (has p init ≡ false) × ((t == p) ≡ false) = grind members in
        let t_ne_p : t ≢ p = ground arith in
        let kept = frame {nodes' = linked t n} null t init front (λ a i. ground (arith, apart a)) in
        (
          t_ne,
          t_at,
          t_ne_p,
          rw (append_assoc init ((t, w) ∷ []) ((p, v) ∷ [])) (
              Chain-append (linked t n) null null init ((t, w) ∷ (p, v) ∷ []) kept
                (t_ne, ground arith, ground arith, (ne, ground arith, refl, tt))
                (λ a i. ground (arith, apart a))),
        )

    abbrev Added : Ptr → Cells A → Heap A → Type 0
    Added lt cells g =
        (list_add lt p h ≡ ok (success, g))
        × IsList g lt (cells ++ (p, v) ∷ [])
        × ((a : Ptr) → has a cells ≡ false → a ≢ p → g.nodes a ≡ h.nodes a)

    add_first : (lt : Ptr) → IsList h lt [] → (g : Heap A) × Added lt [] g
    unfolding list_add link_last load_list store_list
    add_first lt is =
        let live = ==_ne lt null is.ne_null in
        let header : LinkedList = record { head = p; tail = p; size = 1; has_cb = is.cb } in
        (
          record h { lists = write h.lists lt (some header) },
          (
            rw (live, ◌>>=◌, is.header) refl,
            record {
              ne_null = is.ne_null;
              cb = is.cb;
              header = rw (==_refl lt) refl;
              chain = (ne, at, refl, tt);
              count = omega arith;
            },
            λ a o q. refl,
          ),
        )

    list_add-linked :
        (lt : Ptr) (l : LinkedList) (n : ListNode A)
        → lt ≢ null
        → h.lists lt ≡ some l
        → l.size ≢ 0
        → l.tail ≢ null
        → h.nodes l.tail ≡ some n
        → l.tail ≢ p
        → list_add lt p h
          ≡ ok (
            success,
            record {
              lists = write h.lists lt (some (record l { tail = p; size = (l.size + 1) % 2 ^ 64 }));
              nodes = linked l.tail n;
            },
          )
    unfolding list_add link_last load_list store_list
    list_add-linked lt l n lt_ne got some_node t_ne t_at other =
        let linked_next : Heap A = record h {
          nodes = write h.nodes l.tail (some (record n { next = p }));
        } in
        let still : linked_next.nodes p ≡ some (list_node null null v) =
          rw (==_ne l.tail p other) at in
        let link : link_last l p h
            ≡ ok (record l { tail = p }, record h { nodes = linked l.tail n }) =
          rw (==_ne l.size 0 some_node) (
            bind-ok (set_next l.tail p) (λ _. set_prev p l.tail >> pure (record l { tail = p })) h
              (set_next-ok l.tail p h t_ne t_at)
            ∙ bind-ok (set_prev p l.tail) (λ _. pure (record l { tail = p })) linked_next
                (set_prev-ok p l.tail linked_next ne still)) in
        rw (==_ne lt null lt_ne, ◌>>=◌, got) (rw (◌>>=◌, link) refl)

    new_header :
        (init : Cells A) (t : Ptr) (w : A) (cb : Bool)
        → length (init ++ (t, w) ∷ []) + 1 < 2 ^ 64
        → let cells = init ++ (t, w) ∷ [] in
          let next = cells ++ (p, v) ∷ [] in
          ◌≡◌ {A = LinkedList}
            (record {
              head = first null cells;
              tail = p;
              size = (length cells + 1) % 2 ^ 64;
              has_cb = cb;
            })
            (record {
              head = first null next;
              tail = last null next;
              size = length next;
              has_cb = cb;
            })
    new_header init t w cb room =
        let cells = init ++ (t, w) ∷ [] in
        grind (
          sizes,
          last-append null cells ((p, v) ∷ []),
          first-append null cells ((p, v) ∷ []),
          first-append null init ((t, w) ∷ []),
          first-append p init ((t, w) ∷ []),
        )

    add_last :
        (lt : Ptr) (init : Cells A) (t : Ptr) (w : A)
        → IsList h lt (init ++ (t, w) ∷ [])
        → has p (init ++ (t, w) ∷ []) ≡ false
        → length (init ++ (t, w) ∷ []) + 1 < 2 ^ 64
        → (g : Heap A) × Added lt (init ++ (t, w) ∷ []) g
    add_last lt init t w is out room =
        let cells = init ++ (t, w) ∷ [] in
        let (t_ne, t_at, t_ne_p, chain) = linked-Chain init t w is.chain out in
        let n = list_node null (last null init) w in
        let size : length cells ≡ length init + 1 = length-append init ((t, w) ∷ []) in
        let end : last null cells ≡ t = last-append null init ((t, w) ∷ []) in
        let wraps : (length cells + 1) % 2 ^ 64 ≡ length cells + 1 = omega arith in
        let old : LinkedList = record {
          head = first null cells;
          tail = t;
          size = length cells;
          has_cb = is.cb;
        } in
        let header : h.lists lt ≡ some old = rw end at is.header in
        let run = list_add-linked lt old n is.ne_null header (omega arith) t_ne t_at t_ne_p in
        (
          record {
            lists =
                write h.lists lt
                  (some (record old { tail = p; size = (length cells + 1) % 2 ^ 64 }));
            nodes = linked t n;
          },
          (
            run,
            record {
              ne_null = is.ne_null;
              cb = is.cb;
              header = rw (==_refl lt) (ap some (new_header init t w is.cb room));
              chain = chain;
              count = grind sizes;
            },
            λ a o q. grind members,
          ),
        )

    -- `list_add` of a node that `list_node_create` made and that is not in the list appends it to
    -- the list, where the size does not wrap, and touches no other node outside the list.
    pub list_add-IsList :
        (lt : Ptr) (cells : Cells A)
        → IsList h lt cells
        → has p cells ≡ false
        → length cells + 1 < 2 ^ 64
        → (g : Heap A) × Added lt cells g
    list_add-IsList lt [] is out room = add_first lt is
    list_add-IsList lt (c ∷ cells) is out room =
        let (init, (t, w), e) = last_cell c cells in
        subst
          (λ k.
            IsList h lt k → has p k ≡ false → length k + 1 < 2 ^ 64 → (g : Heap A) × Added lt k g)
          (sym e) (add_last lt init t w) is out room
