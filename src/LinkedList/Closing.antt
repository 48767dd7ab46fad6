-- ===== src/LinkedList/Closing.antt =====
-- The loop of `list_destroy` of src/common/list.c with a callback: it closes in from both ends.
use mathlib.Core.List.{map-append, append_assoc, Permᴰ}
use mathlib.Core.List.Permᴰ
use sample_sds_storage.Base.{
  ℕ, suc, ◌+◌, ◌-◌, ◌%◌, ◌^◌, ◌≡◌, ◌≢◌, refl, ◌∙◌, true, false, inl, inr, Bool-cases, none, some,
  List, [], ◌∷◌, ◌++◌, map, ◌==◌, ==_ne, ok,
}
use sample_sds_storage.LinkedList.{
  Ptr, null, ListNode, list_node, Heap, write, store_node, list_node_destroy, call_cb, destroy_loop,
  ◌>>=◌,
}
use sample_sds_storage.LinkedList.Chain.{
  members, Cells, first, last, has, Chain, first-append, frame, Chain-split,
}
use sample_sds_storage.LinkedList.Nodes.{load_node-ok}

module _ {A : Type 0} where
  abbrev pub values : Cells A → List A
  values cells = map (λ c. c.1) cells

  -- The heap without two nodes.
  abbrev pub freed : Ptr → Ptr → Heap A → Heap A
  freed p t h = record h { nodes = write (write h.nodes p none) t none }

  pub destroyed :
      (p : Ptr) (h : Heap A) {n : ListNode A}
      → p ≢ null
      → h.nodes p ≡ some n
      → list_node_destroy p h ≡ ok (tt, record h { nodes = write h.nodes p none })
  unfolding list_node_destroy store_node
  destroyed p h ne at = rw (==_ne p null ne, ◌>>=◌, load_node-ok p h ne at) refl

  module _ (h : Heap A) (prev end p t : Ptr) (v w : A) (mid : Cells A)
      (chain : Chain h.nodes prev end ((p, v) ∷ mid ++ (t, w) ∷ [])) where
    absent : has p (mid ++ (t, w) ∷ []) ≡ false
    absent = let (_, _, out, _) = chain in out

    pub ends_differ : p ≢ t
    ends_differ e = grind (members, absent, e)

    pub two_nodes :
        (p ≢ null)
        × (h.nodes p ≡ some (list_node (first t mid) prev v))
        × (t ≢ null)
        × (h.nodes t ≡ some (list_node end (last p mid) w))
    two_nodes =
        let (p_ne, p_at, _, rest) = chain in
        let (_, (t_ne, t_at, _, _), _) = Chain-split h.nodes p end mid ((t, w) ∷ []) rest in
        (p_ne, rw (first-append end mid ((t, w) ∷ [])) at p_at, t_ne, t_at)

    -- What lies between is still a chain.
    pub freed-Chain : Chain (freed p t h).nodes p t mid
    freed-Chain =
        let (_, _, out, rest) = chain in
        let (inner, _, apart) = Chain-split h.nodes p end mid ((t, w) ∷ []) rest in
        frame {nodes' = (freed p t h).nodes} p t mid inner (λ a i. grind (members, apart a))

    -- One round: both values are handed to the callback, and both nodes are freed.
    pub destroy_loop_round :
        (fuel size : ℕ) (calls : List A)
        → destroy_loop (suc fuel) true p t size calls h
          ≡ destroy_loop fuel true
              (first t mid)
              (last p mid)
              ((size + (2 ^ 64 - 1)) % 2 ^ 64)
              (w ∷ v ∷ calls)
              (freed p t h)
    unfolding destroy_loop call_cb
    destroy_loop_round fuel size calls =
        let (p_ne, p_at, t_ne, t_at) = two_nodes in
        let h1 : Heap A = record h { nodes = write h.nodes p none } in
        let t_at1 : h1.nodes t ≡ some (list_node end (last p mid) w) =
          rw (==_ne p t ends_differ) t_at in
        rw (==_ne p t ends_differ) (
          rw (◌>>=◌, load_node-ok p h p_ne p_at)
            (rw (◌>>=◌, load_node-ok t h t_ne t_at)
              (rw (◌>>=◌, destroyed p h p_ne p_at) (rw (◌>>=◌, destroyed t h1 t_ne t_at1) refl))))

    -- What lies between is in the list, and nothing in it is one of the two nodes.
    inner-has : (a : Ptr) → has a mid ≡ true → ((p == a) ≡ false) × ((t == a) ≡ false)
    inner-has a i =
        let (_, _, out, rest) = chain in
        let (_, _, apart) = Chain-split h.nodes p end mid ((t, w) ∷ []) rest in
        grind (members, apart a)

  -- The loop has met at a node: it is all that is left, and the rest has been handed over.
  pub record Met (h : Heap A) (cells : Cells A) (calls : List A) (g : Heap A) (m : Ptr) (u : A)
      (out : List A) : Type 0 where
    pub node : ListNode A
    pub at : g.nodes m ≡ some node
    pub value : node.value ≡ u
    pub live : m ≢ null
    pub inside : has m cells ≡ true
    pub lists : g.lists ≡ h.lists
    pub others : (a : Ptr) → has a cells ≡ true → a ≢ m → g.nodes a ≡ none
    pub outside : (a : Ptr) → has a cells ≡ false → g.nodes a ≡ h.nodes a
    pub perm : Permᴰ (u ∷ out) (values cells ++ calls)

  handed_over :
      (p t : Ptr) (v w : A) (mid : Cells A) (calls out : List A)
      → Permᴰ out (values mid ++ w ∷ v ∷ calls)
      → Permᴰ out (values ((p, v) ∷ mid ++ (t, w) ∷ []) ++ calls)
  handed_over p t v w mid calls out perm =
      let same : values (mid ++ (t, w) ∷ []) ++ calls ≡ values mid ++ w ∷ calls =
        rw (map-append (λ (c : Ptr × A). c.1) mid ((t, w) ∷ []))
          (append_assoc (values mid) (w ∷ []) calls) in
      rw same (
        Permᴰ.trans perm (
          Permᴰ.trans (Permᴰ.append_left (values mid) (Permᴰ.swap refl refl))
            (Permᴰ.middle v (values mid) (w ∷ calls))))

  pub around-Met :
      (h g : Heap A) (prev end p t m : Ptr) (v w u : A) (mid : Cells A) (calls out : List A)
      → Chain h.nodes prev end ((p, v) ∷ mid ++ (t, w) ∷ [])
      → Met (freed p t h) mid (w ∷ v ∷ calls) g m u out
      → Met h ((p, v) ∷ mid ++ (t, w) ∷ []) calls g m u out
  around-Met h g prev end p t m v w u mid calls out chain met =
      let (p_m, t_m) = inner-has h prev end p t v w mid chain m met.inside in
      record {
        node = met.node;
        at = met.at;
        value = met.value;
        live = met.live;
        inside = grind (members, met.inside);
        lists = met.lists;
        others = λ a i ne. elim (Bool-cases (has a mid)) [
          | inl within ↦ met.others a within ne
          | inr without ↦ met.outside a without ∙ grind members
        ];
        outside = λ a o.
            let without : has a mid ≡ false = grind members in
            met.outside a without ∙ grind members;
        perm = handed_over p t v w mid calls (u ∷ out) met.perm;
      }
