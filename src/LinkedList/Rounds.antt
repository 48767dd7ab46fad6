-- ===== src/LinkedList/Rounds.antt =====
-- The rounds of the loop of `list_destroy` of src/common/list.c with a callback.
use mathlib.Core.Path.{subst}
use mathlib.Core.List.Permᴰ
use sample_sds_storage.Base.{
  sizes, ℕ, zero, suc, ◌+◌, ◌-◌, ◌*◌, ◌%◌, ◌^◌, ◌<◌, ◌≡◌, refl, sym, ◌∙◌, ap, true, false, Option,
  some, List, [], ◌∷◌, ◌++◌, arith, ◌==◌, ==_ne, ==_refl, length, Run, ok, fault,
}
use sample_sds_storage.LinkedList.{Ptr, null, list_node, Heap, load_node, destroy_loop, ◌>>=◌}
use sample_sds_storage.LinkedList.Chain.{Cells, first, last, Chain, last-append, last_cell}
use sample_sds_storage.LinkedList.Closing.{
  freed, ends_differ, two_nodes, freed-Chain, destroy_loop_round, Met, around-Met,
}

-- The size that `j` rounds leave of 0.
abbrev pub counted : ℕ → ℕ
counted j = (2 ^ 64 - j) % 2 ^ 64

module _ {A : Type 0} where
  -- The loop on a part of a list, after `j` rounds.
  abbrev pub loop_on :
      (fuel j : ℕ) (prev end : Ptr) (cells : Cells A) (calls : List A)
      → Heap A
      → Run (Option (Ptr × ℕ × List A) × Heap A)
  loop_on fuel j prev end cells calls h =
      destroy_loop fuel true (first end cells) (last prev cells) (counted j) calls h

  loop_on-round :
      (fuel j : ℕ) (prev end p t : Ptr) (v w : A) (mid : Cells A) (calls : List A) (h : Heap A)
      → Chain h.nodes prev end ((p, v) ∷ mid ++ (t, w) ∷ [])
      → j < 2 ^ 64
      → loop_on (suc fuel) j prev end ((p, v) ∷ mid ++ (t, w) ∷ []) calls h
        ≡ loop_on fuel (suc j) p t mid (w ∷ v ∷ calls) (freed p t h)
  loop_on-round fuel j prev end p t v w mid calls h chain small =
      let size : (counted j + (2 ^ 64 - 1)) % 2 ^ 64 ≡ counted (suc j) = omega arith in
      rw (last-append p mid ((t, w) ∷ [])) (
        destroy_loop_round h prev end p t v w mid chain fuel (counted j) calls
        ∙ ap
            (λ n. destroy_loop fuel true (first t mid) (last p mid) n (w ∷ v ∷ calls) (freed p t h))
            size)

  -- Of an odd number of nodes, the loop ends at the one in the middle.
  abbrev pub Meets : ℕ → Cells A → Type 0
  Meets k cells =
      (fuel j : ℕ) (prev end : Ptr) (calls : List A) (h : Heap A)
      → Chain h.nodes prev end cells
      → k < fuel
      → j + k < 2 ^ 64
      → (m : Ptr) × (u : A) × (out : List A) × (g : Heap A) × (loop_on fuel j prev end cells calls h
          ≡ ok (some (m, counted (j + k), out), g))
        × Met h cells calls g m u out

  -- Of an even number, but not 0, it reads a node that it has freed.
  abbrev pub Passes : ℕ → Cells A → Type 0
  Passes k cells =
      (fuel j : ℕ) (prev end : Ptr) (calls : List A) (h : Heap A)
      → Chain h.nodes prev end cells
      → suc k < fuel
      → j + suc k < 2 ^ 64
      → loop_on fuel j prev end cells calls h ≡ fault

  Meets-round :
      (k : ℕ) (p t : Ptr) (v w : A) (mid : Cells A)
      → Meets k mid
      → Meets (suc k) ((p, v) ∷ mid ++ (t, w) ∷ [])
  Meets-round k p t v w mid inner zero j prev end calls h chain enough small = absurd (omega arith)
  Meets-round k p t v w mid inner (suc fuel) j prev end calls h chain enough small =
      let (m, u, out, g, run, met) =
        inner fuel (suc j) p t (w ∷ v ∷ calls) (freed p t h)
          (freed-Chain h prev end p t v w mid chain) (omega arith) (omega arith) in
      let same : suc j + k ≡ j + suc k = omega arith in
      (
        m,
        u,
        out,
        g,
        loop_on-round fuel j prev end p t v w mid calls h chain (omega arith)
            ∙ run
            ∙ ap (λ n. ok (some (m, counted n, out), g)) same,
        around-Met h g prev end p t m v w u mid calls out chain met,
      )

  Passes-round :
      (k : ℕ) (p t : Ptr) (v w : A) (mid : Cells A)
      → Passes k mid
      → Passes (suc k) ((p, v) ∷ mid ++ (t, w) ∷ [])
  Passes-round k p t v w mid inner zero j prev end calls h chain enough small = absurd (omega arith)
  Passes-round k p t v w mid inner (suc fuel) j prev end calls h chain enough small =
      loop_on-round fuel j prev end p t v w mid calls h chain (omega arith)
      ∙ inner fuel (suc j) p t (w ∷ v ∷ calls) (freed p t h)
          (freed-Chain h prev end p t v w mid chain) (omega arith) (omega arith)

  -- Two nodes: behind them the loop goes on at the one that stood last, which is freed.
  two_nodes-Passes : (p t : Ptr) (v w : A) → Passes 0 ((p, v) ∷ (t, w) ∷ [])
  unfolding destroy_loop load_node
  two_nodes-Passes p t v w zero j prev end calls h chain enough small = absurd (omega arith)
  two_nodes-Passes p t v w (suc zero) j prev end calls h chain enough small = absurd (omega arith)
  two_nodes-Passes p t v w (suc (suc fuel)) j prev end calls h chain enough small =
      let differ = ends_differ h prev end p t v w [] chain in
      let other : (t == p) ≡ false = ground (arith, differ) in
      let (_, _, t_ne, _) = two_nodes h prev end p t v w [] chain in
      loop_on-round (suc fuel) j prev end p t v w [] calls h chain (omega arith)
      ∙ (rw other (rw (◌>>=◌, ==_ne t null t_ne, ==_refl t) refl))

  one_node-Meets : (m : Ptr) (u : A) → Meets 0 ((m, u) ∷ [])
  unfolding destroy_loop
  one_node-Meets m u zero j prev end calls h chain enough small = absurd (omega arith)
  one_node-Meets m u (suc fuel) j prev end calls h (ne, at, out, _) enough small = (
    m,
    u,
    calls,
    h,
    rw (==_refl m)
        (ap (λ n. ok (some (m, counted n, calls), h)) (let z : j ≡ j + 0 = omega arith in z)),
    record {
      node = list_node end prev u;
      at = at;
      value = refl;
      live = ne;
      inside = rw (==_refl m) refl;
      lists = refl;
      others = λ a i other. absurd (ground arith);
      outside = λ a o. refl;
      perm = Permᴰ.refl (u ∷ calls);
    },
  )

  pub all-Meets : (k : ℕ) (cells : Cells A) → length cells ≡ 2 * k + 1 → Meets k cells
  all-Meets k [] size = absurd (omega arith)
  all-Meets zero (x ∷ y ∷ cells) size = absurd (omega arith)
  all-Meets (suc k) (x ∷ []) size = absurd (omega arith)
  all-Meets zero ((m, u) ∷ []) size = one_node-Meets m u
  all-Meets (suc k) ((p, v) ∷ c ∷ cells) size =
      let (mid, (t, w), same) = last_cell c cells in
      let inner = all-Meets k mid (grind (sizes, ap length same)) in
      subst (λ r. Meets (suc k) ((p, v) ∷ r)) (sym same) (Meets-round k p t v w mid inner)

  pub all-Passes : (k : ℕ) (cells : Cells A) → length cells ≡ 2 * k + 2 → Passes k cells
  all-Passes k [] size = absurd (omega arith)
  all-Passes k (x ∷ []) size = absurd (omega arith)
  all-Passes zero (x ∷ y ∷ z ∷ cells) size = absurd (omega arith)
  all-Passes zero ((p, v) ∷ (t, w) ∷ []) size = two_nodes-Passes p t v w
  all-Passes (suc k) ((p, v) ∷ c ∷ cells) size =
      let (mid, (t, w), same) = last_cell c cells in
      let inner = all-Passes k mid (grind (sizes, ap length same)) in
      subst (λ r. Passes (suc k) ((p, v) ∷ r)) (sym same) (Passes-round k p t v w mid inner)
