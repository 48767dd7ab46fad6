-- ===== src/LinkedList/NewNode.antt =====
-- A new node of src/common/list.c: `list_node_create`, then `list_add`.
use sample_sds_storage.Base.{
  ◌+◌, ◌^◌, ◌<◌, ◌≡◌, ◌≢◌, refl, ◌∙◌, ap, false, some, [], ◌∷◌, ◌++◌, ◌==◌, ==_ne, ==_refl, success,
  length, ok,
}
use sample_sds_storage.LinkedList.{Ptr, null, list_node, Heap, write, list_node_create, list_add}
use sample_sds_storage.LinkedList.Chain.{members, Cells, has, IsList, frame}
use sample_sds_storage.LinkedList.Nodes.{list_node_create_lem}
use sample_sds_storage.LinkedList.Append.{list_add-IsList}

-- With memory that is not that of a node of the list, a value gets a node of its own at the end of
-- the list, and no other node is touched.
pub list_add-list_node_create :
    {A : Type 0} (h : Heap A) (lt fresh : Ptr) (value : A) (cells : Cells A)
    → IsList h lt cells
    → fresh ≢ null
    → has fresh cells ≡ false
    → length cells + 1 < 2 ^ 64
    → (mid : Heap A) × (g : Heap A) × (list_node_create fresh (some value) h ≡ ok (fresh, mid))
      × (list_add lt fresh mid ≡ ok (success, g))
      × IsList g lt (cells ++ (fresh, value) ∷ [])
      × ((a : Ptr) → has a (cells ++ (fresh, value) ∷ []) ≡ false → g.nodes a ≡ h.nodes a)
list_add-list_node_create h lt fresh value cells is ne apart room =
    let mid = record h { nodes = write h.nodes fresh (some (list_node null null value)) } in
    let moved : IsList mid lt cells = record {
      ne_null = is.ne_null;
      cb = is.cb;
      header = is.header;
      chain =
          frame {nodes' = mid.nodes} null null cells is.chain
            (λ a i. rw (==_ne fresh a (λ e. cc (ap (λ p. has p cells) e))) refl);
      count = is.count;
    } in
    let (g, (added, is', outside)) =
      list_add-IsList mid fresh value ne (rw (==_refl fresh) refl) lt cells moved apart room in
    (
      mid,
      g,
      (list_node_create_lem fresh value h).0 ne,
      added,
      is',
      λ a i.
          let out : has a cells ≡ false = grind members in
          let other : (fresh == a) ≡ false = grind members in
          outside a out (λ e. cc (rw (e, ==_refl fresh) at other)) ∙ rw other refl,
    )
