-- ===== src/LinkedList/Unlink.antt =====
-- The two halves of `list_del` of src/common/list.c: the neighbours of a node are linked.
use mathlib.Core.Path.{subst}
use sample_sds_storage.Base.{
  ◌≡◌, ◌≢◌, refl, sym, ◌∙◌, ap, true, false, none, some, [], ◌∷◌, ◌++◌, arith, ==_ne, ==_refl, ok,
}
use sample_sds_storage.LinkedList.{
  Ptr, null, list_node, LinkedList, Heap, write, unlink_prev, unlink_next, ◌>>=◌,
}
use sample_sds_storage.LinkedList.Chain.{
  members, Cells, first, last, has, Chain, first-append, last-append, frame, Chain-split,
  Chain-append, last_cell,
}
use sample_sds_storage.LinkedList.Nodes.{set_next-ok, set_prev-ok}

module _ {A : Type 0} where
  -- What a half of `list_del` leaves: the structure, and a chain with its other end.
  record Relinked (h : Heap A) (cells : Cells A) (prev end : Ptr) (g : Heap A) : Type 0 where
    same_lists : g.lists ≡ h.lists
    chain : Chain g.nodes prev end cells
    outside : (a : Ptr) → has a cells ≡ false → g.nodes a ≡ h.nodes a

  abbrev Front : Heap A → (p q : Ptr) → A → LinkedList → Cells A → Type 0
  Front h p q v l xs =
      Chain h.nodes null p xs
      → l.head ≡ first p xs
      → (g : Heap A) × (unlink_prev l (list_node q (last null xs) v) h
          ≡ ok (record l { head = first q xs }, g))
        × Relinked h xs null q g

  -- The node before gets the next one.
  unlink_prev-last :
      (h : Heap A) (p q : Ptr) (v : A) (l : LinkedList) (init : Cells A) (t : Ptr) (w : A)
      → Front h p q v l (init ++ (t, w) ∷ [])
  unfolding unlink_prev
  unlink_prev-last h p q v l init t w c head =
      let (front, (t_ne, t_at, _, _), apart) = Chain-split h.nodes null p init ((t, w) ∷ []) c in
      let nodes = write h.nodes t (some (list_node q (last null init) w)) in
      let kept = frame {nodes' = nodes} null t init front (λ a i. ground (arith, apart a)) in
      let end : last null (init ++ (t, w) ∷ []) ≡ t = last-append null init ((t, w) ∷ []) in
      let same : record l { head = first q (init ++ (t, w) ∷ []) } ≡ l =
        ap (λ x. record l { head = x })
          (first-append q init ((t, w) ∷ [])
            ∙ sym (first-append p init ((t, w) ∷ []))
            ∙ sym head) in
      (
        record h { nodes = nodes },
        rw (end, same, ==_ne t null t_ne) (rw (◌>>=◌, set_next-ok t q h t_ne t_at) refl),
        record {
          same_lists = refl;
          chain =
              Chain-append nodes null q init ((t, w) ∷ []) kept
                (t_ne, rw (==_refl t) refl, refl, tt) apart;
          outside = λ a o. grind members;
        },
      )

  unlink_prev_lem :
      (h : Heap A) (p q : Ptr) (v : A) (l : LinkedList) (xs : Cells A) → Front h p q v l xs
  unfolding unlink_prev
  unlink_prev_lem h p q v l [] c head =
      (h, refl, record { same_lists = refl; chain = tt; outside = λ a o. refl })
  unlink_prev_lem h p q v l (x ∷ xs) c head =
      let (init, (t, w), e) = last_cell x xs in
      subst (Front h p q v l) (sym e) (unlink_prev-last h p q v l init t w) c head

  -- The node behind gets the one before.
  unlink_next_lem :
      (h : Heap A) (p t : Ptr) (v : A) (l : LinkedList) (ys : Cells A)
      → Chain h.nodes p null ys
      → l.tail ≡ last p ys
      → (g : Heap A) × (unlink_next l (list_node (first null ys) t v) h
          ≡ ok (record l { tail = last t ys }, g))
        × Relinked h ys t null g
  unfolding unlink_next
  unlink_next_lem h p t v l [] c tail =
      (h, refl, record { same_lists = refl; chain = tt; outside = λ a o. refl })
  unlink_next_lem h p t v l ((q, u) ∷ ys) (ne, at, out, c) tail =
      let nodes = write h.nodes q (some (list_node (first null ys) t u)) in
      (
        record h { nodes = nodes },
        rw (==_ne q null ne) (
            rw (◌>>=◌, set_prev-ok q t h ne at)
              (ap (λ x. ok (record l { tail = x }, record h { nodes = nodes })) tail)),
        record {
          same_lists = refl;
          chain = (
            ne,
            rw (==_refl q) refl,
            out,
            frame {nodes' = nodes} q null ys c (λ a i. ground arith),
          );
          outside = λ a o. ground arith;
        },
      )

  has_none :
      (a p : Ptr) (v : A) (xs ys : Cells A)
      → has a (xs ++ (p, v) ∷ ys) ≡ false
      → (has a xs ≡ false) × (p ≢ a) × (has a ys ≡ false)
  has_none a p v xs ys out = grind members

  -- The node between two parts of a list, and what the two halves of `list_del` make of it: the
  -- node still stands, its neighbours are linked to each other, and no other node is touched.
  pub record Unlinked (h : Heap A) (p : Ptr) (v : A) (xs ys : Cells A) (l : LinkedList)
      : Type 0 where
    pub mid : Heap A
    pub end : Heap A
    pub before :
        unlink_prev l (list_node (first null ys) (last null xs) v) h
        ≡ ok (record l { head = first (first null ys) xs }, mid)
    pub still : mid.nodes p ≡ some (list_node (first null ys) (last null xs) v)
    pub behind :
        unlink_next
          (record l { head = first (first null ys) xs })
          (list_node (first null ys) (last null xs) v)
          mid
        ≡ ok (record l { head = first (first null ys) xs; tail = last (last null xs) ys }, end)
    pub last_still : end.nodes p ≡ some (list_node (first null ys) (last null xs) v)
    pub chain : Chain (write end.nodes p none) null null (xs ++ ys)
    pub outside :
        (a : Ptr) → has a (xs ++ (p, v) ∷ ys) ≡ false → write end.nodes p none a ≡ h.nodes a

  pub unlinked_lem :
      (h : Heap A) (p : Ptr) (v : A) (xs ys : Cells A) (l : LinkedList)
      → Chain h.nodes null null (xs ++ (p, v) ∷ ys)
      → l.head ≡ first null (xs ++ (p, v) ∷ ys)
      → l.tail ≡ last null (xs ++ (p, v) ∷ ys)
      → Unlinked h p v xs ys l
  unlinked_lem h p v xs ys l chain head tail =
      let (front, (p_ne, p_at, p_out, back), apart) =
        Chain-split h.nodes null null xs ((p, v) ∷ ys) chain in
      let q = first null ys in
      let t = last null xs in
      let p_front : has p xs ≡ false = ground (arith, apart p) in
      let disjoint : (a : Ptr) → has a ys ≡ true → has a xs ≡ false =
        λ a i. ground (arith, apart a) in
      let (g1, run1, r1) =
        unlink_prev_lem h p q v l xs front (head ∙ first-append null xs ((p, v) ∷ ys)) in
      let at1 : g1.nodes p ≡ some (list_node q t v) = r1.outside p p_front ∙ p_at in
      let back1 = frame {nodes' = g1.nodes} p null ys back (λ a i. r1.outside a (disjoint a i)) in
      let (g2, run2, r2) =
        unlink_next_lem g1 p t v (record l { head = first q xs }) ys back1
          (tail ∙ last-append null xs ((p, v) ∷ ys)) in
      let differs : (a : Ptr) → has a ys ≡ true → p ≢ a = λ a i e. cc in
      let nodes = write g2.nodes p none in
      let same_front =
        frame {nodes' = nodes} null q xs r1.chain (λ a i. ground (arith, apart a, r2.outside a)) in
      let same_back =
        frame {nodes' = nodes} t null ys r2.chain (λ a i. rw (==_ne p a (differs a i)) refl) in
      record {
        mid = g1;
        end = g2;
        before = run1;
        still = at1;
        behind = run2;
        last_still = r2.outside p p_out ∙ at1;
        chain =
            Chain-append nodes null null xs ys same_front same_back
              (λ a i. ground (arith, apart a));
        outside = λ a o.
            let (x, ne, y) = has_none a p v xs ys o in
            rw (==_ne p a ne) (r2.outside a y ∙ r1.outside a x);
      }
