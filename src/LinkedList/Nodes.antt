-- ===== src/LinkedList/Nodes.antt =====
-- Reads and writes of nodes, `list_node_create` and `list_create` of src/common/list.c.
use sample_sds_storage.Base.{◌≡◌, ◌≢◌, refl, false, none, some, [], arith, ◌==◌, ok}
use sample_sds_storage.LinkedList.{
  Ptr, null, ListNode, list_node, Heap, write, load_node, store_node, set_next, set_prev,
  store_list, list_node_create, list_create, ◌>>=◌,
}
use sample_sds_storage.LinkedList.Chain.{IsList}

module _ {A : Type 0} where
  pub load_node-ok :
      (p : Ptr) (h : Heap A) {n : ListNode A}
      → p ≢ null
      → h.nodes p ≡ some n
      → load_node p h ≡ ok (n, h)
  unfolding load_node
  load_node-ok p h ne at = let live : (p == null) ≡ false = ground arith in rw (live, at) refl

  pub set_next-ok :
      (p q : Ptr) (h : Heap A) {n : ListNode A}
      → p ≢ null
      → h.nodes p ≡ some n
      → set_next p q h
        ≡ ok (tt, record h { nodes = write h.nodes p (some (record n { next = q })) })
  unfolding set_next store_node
  set_next-ok p q h ne at = rw (◌>>=◌, load_node-ok p h ne at) refl

  pub set_prev-ok :
      (p q : Ptr) (h : Heap A) {n : ListNode A}
      → p ≢ null
      → h.nodes p ≡ some n
      → set_prev p q h
        ≡ ok (tt, record h { nodes = write h.nodes p (some (record n { prev = q })) })
  unfolding set_prev store_node
  set_prev-ok p q h ne at = rw (◌>>=◌, load_node-ok p h ne at) refl

  -- `list_node_create` gives a node with no neighbours that carries the pointer; a NULL pointer
  -- and a failed allocation give NULL and change nothing.
  pub list_node_create_lem :
      (fresh : Ptr) (value : A) (h : Heap A)
      → (fresh ≢ null
          → list_node_create fresh (some value) h
            ≡ ok (
              fresh,
              record h { nodes = write h.nodes fresh (some (list_node null null value)) },
            ))
        × (list_node_create null (some value) h ≡ ok (null, h))
        × (list_node_create fresh none h ≡ ok (null, h))
  unfolding list_node_create store_node
  list_node_create_lem fresh value h =
      (λ ne. let live : (fresh == null) ≡ false = ground arith in rw live refl, refl, refl)

  -- `list_create` gives an empty list.
  pub list_create-IsList :
      (fresh : Ptr) (h : Heap A)
      → fresh ≢ null
      → (g : Heap A) × (list_create fresh h ≡ ok (fresh, g))
        × IsList g fresh []
        × (g.nodes ≡ h.nodes)
  unfolding list_create store_list
  list_create-IsList fresh h ne =
      let live : (fresh == null) ≡ false = ground arith in
      (
        record h {
          lists =
              write h.lists fresh
                (some (record { head = null; tail = null; size = 0; has_cb = false }));
        },
        rw live refl,
        record { ne_null = ne; cb = false; header = ground arith; chain = tt; count = omega arith },
        refl,
      )
