-- ===== src/LinkedList/Callback.antt =====
-- `list_destroy` of src/common/list.c, for lists with a callback.
use mathlib.Core.Path.{subst}
use mathlib.Core.List.{append-nil, Permᴰ}
use sample_sds_storage.Base.{
  ℕ, suc, ◌+◌, ◌-◌, ◌*◌, ◌/◌, ◌%◌, ◌<◌, ◌≡◌, ◌⊎◌, refl, true, false, inl, inr, Bool-cases, none,
  some, List, [], ◌∷◌, arith, ◌==◌, ==_ne, ==_refl, ltb, lt→ltb, length, ok, fault,
}
use sample_sds_storage.LinkedList.{
  Ptr, null, Heap, write, load_list, store_list, call_cb, list_destroy, ◌>>=◌,
}
use sample_sds_storage.LinkedList.Chain.{Cells, has, IsList}
use sample_sds_storage.LinkedList.Nodes.{load_node-ok}
use sample_sds_storage.LinkedList.Closing.{values, destroyed}
use sample_sds_storage.LinkedList.Rounds.{counted, all-Meets, all-Passes}

module _ {A : Type 0} where
  -- All is handed over and freed, the structure too, and no node outside of the list is touched.
  abbrev pub Released : (fuel : ℕ) (h : Heap A) (lt : Ptr) → Cells A → Type 0
  Released fuel h lt cells =
      (calls : List A) × (g : Heap A) × (list_destroy fuel lt h ≡ ok (some calls, g))
      × Permᴰ calls (values cells)
      × (g.lists lt ≡ none)
      × ((a : Ptr) → has a cells ≡ true → g.nodes a ≡ none)
      × ((a : Ptr) → has a cells ≡ false → g.nodes a ≡ h.nodes a)

  list_destroy_even :
      (k fuel : ℕ) (h : Heap A) (lt : Ptr) (cells : Cells A) (is : IsList h lt cells)
      → is.cb ≡ true
      → length cells ≡ 2 * k + 2
      → length cells < fuel
      → list_destroy fuel lt h ≡ fault
  unfolding list_destroy load_list
  list_destroy_even k fuel h lt [] is cb size enough = absurd (omega arith)
  list_destroy_even k fuel h lt ((p, v) ∷ cells) is cb size enough =
      let (ne, _, _, _) = is.chain in
      let count = is.count in
      let some_size : ltb 0 (suc (length cells)) ≡ true = lt→ltb 0 _ (omega arith) in
      let run =
        all-Passes k ((p, v) ∷ cells) size fuel 0 null null [] h is.chain (omega arith)
          (omega arith) in
      rw (==_ne lt null is.ne_null, ◌>>=◌, is.header, some_size, ==_ne p null ne, cb)
        (rw (◌>>=◌, run) refl)

  list_destroy_odd :
      (k fuel : ℕ) (h : Heap A) (lt : Ptr) (cells : Cells A) (is : IsList h lt cells)
      → is.cb ≡ true
      → length cells ≡ 2 * k + 3
      → length cells < fuel
      → Released fuel h lt cells
  unfolding list_destroy load_list store_list call_cb
  list_destroy_odd k fuel h lt [] is cb size enough = absurd (omega arith)
  list_destroy_odd k fuel h lt ((p, v) ∷ cells) is cb size enough =
      let (ne, _, _, _) = is.chain in
      let whole = (p, v) ∷ cells in
      let count = is.count in
      let some_size : ltb 0 (suc (length cells)) ≡ true = lt→ltb 0 _ (omega arith) in
      let (m, u, out, g, run, met) =
        all-Meets (suc k) whole (omega arith) fuel 0 null null [] h is.chain (omega arith)
          (omega arith) in
      let more : ltb 0 (counted (0 + suc k)) ≡ true = lt→ltb 0 _ (omega arith) in
      let g' : Heap A = record g { nodes = write g.nodes m none } in
      (
        u ∷ out,
        record g' { lists = write g'.lists lt none },
        rw (==_ne lt null is.ne_null, ◌>>=◌, is.header, some_size, ==_ne p null ne, cb)
            (rw (◌>>=◌, run, more)
              (rw (◌>>=◌, load_node-ok m g met.live met.at, met.value, cb)
                (rw (◌>>=◌, destroyed m g met.live met.at) refl))),
        subst (Permᴰ (u ∷ out)) (append-nil (values whole)) met.perm,
        rw (==_refl lt) refl,
        λ a i. elim (Bool-cases (m == a)) [
          | inl same ↦ rw same refl
          | inr other ↦ rw other (met.others a i (λ e. cc (rw (e, ==_refl m) at other)))
        ],
        λ a o.
            let other : (m == a) ≡ false = ground (arith, met.inside, o) in
            rw other (met.outside a o),
      )

  -- `list_destroy` of a list of two nodes or more that has a callback, with more fuel than nodes:
  -- of an even number it reads a node that it has freed; of an odd number it hands each value to
  -- the callback once, frees every node and the structure, and touches no other node.
  pub list_destroy-values :
      (fuel : ℕ) (h : Heap A) (lt : Ptr) (cells : Cells A) (is : IsList h lt cells)
      → is.cb ≡ true
      → 1 < length cells
      → length cells < fuel
      → ((length cells % 2 ≡ 0) × (list_destroy fuel lt h ≡ fault))
        ⊎ ((length cells % 2 ≡ 1) × Released fuel h lt cells)
  list_destroy-values fuel h lt cells is cb more enough =
      elim (Bool-cases (length cells % 2 == 0)) [
        | inl even ↦
            let rest : length cells % 2 ≡ 0 = ground arith in
            inl (
              rest,
              list_destroy_even ((length cells - 2) / 2) fuel h lt cells is cb (omega arith) enough,
            )
        | inr odd ↦
            let rest : length cells % 2 ≡ 1 = ground arith in
            inr (
              rest,
              list_destroy_odd ((length cells - 3) / 2) fuel h lt cells is cb (omega arith) enough,
            )
      ]
