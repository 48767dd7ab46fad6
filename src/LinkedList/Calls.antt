-- ===== src/LinkedList/Calls.antt =====
-- Any number of calls of src/common/list.c, one after another, against a list of values.
use mathlib.Core.Path.{subst}
use sample_sds_storage.Base.{
  sizes, ◌+◌, ◌^◌, ◌<◌, ◌≡◌, ◌≢◌, refl, ◌∙◌, ap, inl, inr, true, false, none, some, List, [], ◌∷◌,
  ◌++◌, arith, ◌==◌, ==_eq, Bool-cases, if◌then◌else◌, length, ok,
}
use sample_sds_storage.LinkedList.{
  Ptr, null, Heap, Cmd, list_node_create, list_create, list_add, list_del, pure, ◌>>=◌, ◌>>◌,
  bind-ok,
}
use sample_sds_storage.LinkedList.Chain.{members, Cells, has, IsList}
use sample_sds_storage.LinkedList.Nodes.{list_create-IsList}
use sample_sds_storage.LinkedList.NewNode.{list_add-list_node_create}
use sample_sds_storage.LinkedList.Remove.{list_del-IsList}

-- A value in a node of its own at the end, with what `calloc` returns for the node; or a node out.
pub data Call (A : Type 0) : Type 0 where
  append : (fresh : Ptr) (value : A) → Call A
  remove : Ptr → Call A

module _ {A : Type 0} where
  -- The call, as the code of the program makes it.
  abbrev pub call_one : (lt : Ptr) → Call A → Cmd A (Unit {0})
  call_one lt (append fresh value) = do
    node ← list_node_create fresh (some value)
    _ ← list_add lt node
    pure tt
  call_one lt (remove node) = list_del lt node

  abbrev pub call_all : (lt : Ptr) → List (Call A) → Cmd A (Unit {0})
  call_all lt [] = pure tt
  call_all lt (call ∷ calls) = call_one lt call >> call_all lt calls

  -- The same on the addresses and the values.
  abbrev pub without : Ptr → Cells A → Cells A
  without a [] = []
  without a ((p, v) ∷ cells) = let rest = without a cells in if p == a then cells else (p, v) ∷ rest

  abbrev pub replay : Call A → Cells A → Cells A
  replay (append fresh value) cells = cells ++ (fresh, value) ∷ []
  replay (remove node) cells = without node cells

  abbrev pub replay_all : List (Call A) → Cells A → Cells A
  replay_all [] cells = cells
  replay_all (call ∷ calls) cells = replay_all calls (replay call cells)

  -- The memory of a new node is not that of a node of the list; a node that is taken out is in the
  -- list.
  abbrev pub IsLegal : Call A → Cells A → Type 0
  IsLegal (append fresh value) cells = (fresh ≢ null) × (has fresh cells ≡ false)
  IsLegal (remove node) cells = has node cells ≡ true

  abbrev pub AreLegal : List (Call A) → Cells A → Type 0
  AreLegal [] cells = Unit
  AreLegal (call ∷ calls) cells = IsLegal call cells × AreLegal calls (replay call cells)

  -- The list at `lt` holds `cells`, and the heap has no other nodes.
  pub record Owns (h : Heap A) (lt : Ptr) (cells : Cells A) : Type 0 where
    pub is_list : IsList h lt cells
    pub no_others : (a : Ptr) → has a cells ≡ false → h.nodes a ≡ none

  -- A cell, with the cells before it and behind it.
  without-split :
      (a : Ptr) (cells : Cells A)
      → has a cells ≡ true
      → (xs : Cells A) × (v : A) × (ys : Cells A) × (cells ≡ xs ++ (a, v) ∷ ys)
        × (without a cells ≡ xs ++ ys)
  without-split a [] h = cc h
  without-split a ((p, v) ∷ cells) h = elim (Bool-cases (p == a)) [
    | inl here ↦ ([], v, cells, ap (λ q. (q, v) ∷ cells) (==_eq p a here), rw here refl)
    | inr other ↦
        let (xs, w, ys, whole, less) = without-split a cells (rw other at h) in
        ((p, v) ∷ xs, w, ys, ap (λ r. (p, v) ∷ r) whole, rw (other, less) refl)
  ]

  append-Owns :
      (h : Heap A) (lt fresh : Ptr) (value : A) (cells : Cells A)
      → Owns h lt cells
      → IsLegal (append fresh value) cells
      → length cells + 1 < 2 ^ 64
      → (g : Heap A) × (call_one lt (append fresh value) h ≡ ok (tt, g))
        × Owns g lt (cells ++ (fresh, value) ∷ [])
  append-Owns h lt fresh value cells owns (ne, apart) room =
      let (mid, g, made, added, is, outside) =
        list_add-list_node_create h lt fresh value cells owns.is_list ne apart room in
      (
        g,
        rw (◌>>=◌, made) (rw (◌>>=◌, added) refl),
        record { is_list = is; no_others = λ a i. outside a i ∙ owns.no_others a (grind members) },
      )

  length-without : (a : Ptr) (cells : Cells A) → length (without a cells) < length cells + 1
  length-without a [] = omega arith
  length-without a ((p, v) ∷ cells) = ground (arith, length-without a cells)

  remove-Owns :
      (h : Heap A) (lt node : Ptr) (cells : Cells A)
      → Owns h lt cells
      → IsLegal (remove node) cells
      → (g : Heap A) × (call_one lt (remove node) h ≡ ok (tt, g)) × Owns g lt (without node cells)
  remove-Owns h lt node cells owns inside =
      let (xs, v, ys, whole, less) = without-split node cells inside in
      let (g, run, is, freed, outside) =
        list_del-IsList h lt node v xs ys (subst (λ c. IsList h lt c) whole owns.is_list) in
      (
        g,
        run,
        record {
          is_list = rw less is;
          no_others = λ a i. elim (Bool-cases (node == a)) [
            | inl same ↦ rw (← ==_eq node a same) freed
            | inr other ↦
                let out : has a (xs ++ (node, v) ∷ ys) ≡ false = grind (members, rw less at i) in
                outside a out ∙ owns.no_others a (rw whole out)
          ];
        },
      )

  call_one-Owns :
      (call : Call A) (h : Heap A) (lt : Ptr) (cells : Cells A)
      → Owns h lt cells
      → IsLegal call cells
      → length cells + 1 < 2 ^ 64
      → (g : Heap A) × (call_one lt call h ≡ ok (tt, g))
        × Owns g lt (replay call cells)
        × (length (replay call cells) < length cells + 2)
  call_one-Owns (append fresh value) h lt cells owns legal room =
      let (g, run, after) = append-Owns h lt fresh value cells owns legal room in
      (g, run, after, grind sizes)
  call_one-Owns (remove node) h lt cells owns legal room =
      let (g, run, after) = remove-Owns h lt node cells owns legal in
      (g, run, after, omega (arith, length-without node cells))

  call_all-Owns :
      (calls : List (Call A)) (h : Heap A) (lt : Ptr) (cells : Cells A)
      → Owns h lt cells
      → AreLegal calls cells
      → length cells + length calls < 2 ^ 64
      → (g : Heap A) × (call_all lt calls h ≡ ok (tt, g)) × Owns g lt (replay_all calls cells)
  call_all-Owns [] h lt cells owns legal room = (h, refl, owns)
  call_all-Owns (call ∷ calls) h lt cells owns (now, later) room =
      let (mid, run, after, size) = call_one-Owns call h lt cells owns now (omega arith) in
      let (g, runs, all) =
        call_all-Owns calls mid lt (replay call cells) after later (omega arith) in
      (g, bind-ok (call_one lt call) (λ _. call_all lt calls) h run ∙ runs, all)

  -- From `list_create`, at an address that is not NULL and on a heap with no nodes, any sequence of
  -- fewer than 2 ^ 64 legal calls succeeds: each appends a value in a node of its own, whose
  -- address is neither NULL nor that of a node of the list, or takes out a node of the list. The
  -- list then holds what the same calls make of a list of cells, linked both ways, and no node is
  -- left but its own: none is lost, and none that was freed is reached.
  pub call_all-replays :
      (calls : List (Call A)) (fresh : Ptr) (h : Heap A)
      → fresh ≢ null
      → ((a : Ptr) → h.nodes a ≡ none)
      → AreLegal calls []
      → length calls < 2 ^ 64
      → (start : Heap A) × (g : Heap A) × (list_create fresh h ≡ ok (fresh, start))
        × (call_all fresh calls start ≡ ok (tt, g))
        × IsList g fresh (replay_all calls [])
        × ((a : Ptr) → has a (replay_all calls []) ≡ false → g.nodes a ≡ none)
  call_all-replays calls fresh h ne clear legal room =
      let (start, made, is, same) = list_create-IsList fresh h ne in
      let owns : Owns start fresh [] = record {
        is_list = is;
        no_others = λ a i. ap (λ nodes. nodes a) same ∙ clear a;
      } in
      let (g, run, all) = call_all-Owns calls start fresh [] owns legal (omega arith) in
      (start, g, made, run, all.is_list, all.no_others)
