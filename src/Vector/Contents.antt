-- ===== src/Vector/Contents.antt =====
-- The array of src/common/vector.c as the list of the pointers pushed so far.
use mathlib.Core.Option
use sample_sds_storage.Base.{
  sizes, ℕ, zero, suc, ◌+◌, ◌*◌, ◌%◌, ◌≤◌, ◌<◌, ◌≡◌, refl, sym, ◌∙◌, ◌⊎◌, inl, inr, Bool, true,
  Option, none, some, List, [], ◌∷◌, ◌++◌, arith, ◌==◌, Bool-cases, success, length, get_elem?, set,
  replicate, length-set, length-replicate, get_elem?-set, get_elem?-append, get_elem?_lt,
  get_elem?_ge, ok, load-ok, store-ok,
}
use sample_sds_storage.Vector.{
  Vector, word, copy_loop, vector_expand, grow_if_full, vector_push_back,
}

-- `vec` stands for the list `xs`: its block has `cap` slots, and the first `size` hold `xs`.
pub record Holds {A : Type 0} (xs : List A) (vec : Vector A) : Type 0 where
  pub block : length vec.tables ≡ vec.cap
  pub count : vec.size ≡ length xs
  pub fits : vec.size ≤ vec.cap
  pub slots : (i : ℕ) → i < vec.size → get_elem? vec.tables i ≡ Option.map some (get_elem? xs i)

-- An element in place of another, or a slot behind the elements.
pub set-Holds :
    {A : Type 0} {xs : List A} {vec : Vector A} (i : ℕ) (x : A)
    → Holds xs vec
    → Holds (set xs i x) (record vec { tables = set vec.tables i (some x) })
set-Holds {xs} {vec} i x h = record {
  block = length-set vec.tables i (some x) ∙ h.block;
  count = h.count ∙ sym (length-set xs i x);
  fits = h.fits;
  slots = λ j p. ground (
    arith,
    get_elem?-set vec.tables i j (some x),
    get_elem?-set xs i j x,
    h.slots j,
    h.count,
    h.fits,
    h.block,
  );
}

module _ {A : Type 0} where
  record Copied (left i : ℕ) (src dst out : List (Option A)) : Type 0 where
    same_length : length out ≡ length dst
    inside : (j : ℕ) → i ≤ j → j < i + left → get_elem? out j ≡ get_elem? src j
    outside : (j : ℕ) → j < i → get_elem? out j ≡ get_elem? dst j

  copy_loop-Copied :
      (left i : ℕ) (src dst : List (Option A))
      → i + left ≤ length src
      → i + left ≤ length dst
      → (out : List (Option A)) × (copy_loop left i src dst ≡ ok out) × Copied left i src dst out
  unfolding copy_loop
  copy_loop-Copied zero i src dst hs hd = (
    dst,
    refl,
    record { same_length = refl; inside = λ j p q. absurd (omega arith); outside = λ j p. refl },
  )
  copy_loop-Copied (suc left) i src dst hs hd =
      let (x, got) = get_elem?_lt src i (omega arith) in
      let (out, run, c) =
        copy_loop-Copied left (i + 1) src (set dst i x) (omega arith)
          (omega (arith, length-set dst i x)) in
      (
        out,
        rw (load-ok src i got, store-ok dst i x (omega arith)) run,
        record {
          same_length = c.same_length ∙ length-set dst i x;
          inside = λ j p q. ground (arith, c.inside j, c.outside j, get_elem?-set dst i j x, got);
          outside = λ j p. ground (arith, c.outside j, get_elem?-set dst i j x);
        },
      )

module _ {A : Type 0} (calloc : ℕ → Bool) where
  vector_expand-Holds :
      {xs : List A} {vec : Vector A}
      → Holds xs vec
      → calloc (vec.cap * 2) ≡ true
      → vec.cap * 2 < word
      → (out : Vector A) × (vector_expand calloc vec ≡ ok (success, out))
        × Holds xs out
        × (out.cap ≡ vec.cap * 2)
        × (out.size ≡ vec.size)
  unfolding vector_expand
  vector_expand-Holds {xs} {vec} h room below =
      let wide = length-replicate {A = Option A} (vec.cap * 2) none in
      let (out, run, c) =
        copy_loop-Copied vec.size 0 vec.tables (replicate (vec.cap * 2) none)
          (omega (arith, h.block, h.fits)) (omega (arith, h.fits, wide)) in
      let cap : (vec.cap * 2) % word ≡ vec.cap * 2 = omega arith in
      (
        record vec { tables = out; cap = vec.cap * 2 },
        rw (cap, room, run) refl,
        record {
          block = c.same_length ∙ wide;
          count = h.count;
          fits = omega (arith, h.fits);
          slots = λ i p. c.inside i (omega arith) (omega arith) ∙ h.slots i p;
        },
        refl,
        refl,
      )

  -- What `grow_if_full` needs: where the block is full, a larger one can be had.
  abbrev pub Grows : Vector A → Type 0
  Grows vec = vec.size ≡ vec.cap → (calloc (vec.cap * 2) ≡ true) × (vec.cap * 2 < word)

  pub grow_if_full-Holds :
      {xs : List A} {vec : Vector A}
      → Holds xs vec
      → Grows vec
      → 0 < vec.cap
      → (out : Vector A) × (grow_if_full calloc vec ≡ ok (success, out))
        × Holds xs out
        × (out.size < out.cap)
        × (out.size ≡ vec.size)
        × ((out.cap ≡ vec.cap) ⊎ (vec.size ≡ vec.cap) × (out.cap ≡ vec.cap * 2))
  unfolding grow_if_full
  grow_if_full-Holds {vec} h grows pos = elim (Bool-cases (vec.size == vec.cap)) [
    | inl full ↦
        let e : vec.size ≡ vec.cap = ground arith in
        let (room, below) = grows e in
        let (out, run, held, cap, size) = vector_expand-Holds h room below in
        (out, rw full run, held, omega arith, size, inr (e, cap))
    | inr free ↦ (vec, rw free refl, h, ground (arith, h.fits), refl, inl refl)
  ]

  -- `vector_push_back` of a pointer appends it; the capacity stays, or doubles where the block is
  -- full.
  pub vector_push_back-Holds :
      {xs : List A} {vec : Vector A} (x : A)
      → Holds xs vec
      → Grows vec
      → 0 < vec.cap
      → vec.size + 1 < word
      → (out : Vector A) × (vector_push_back calloc vec (some x) ≡ ok (success, out))
        × Holds (xs ++ x ∷ []) out
        × ((out.cap ≡ vec.cap) ⊎ (vec.size ≡ vec.cap) × (out.cap ≡ vec.cap * 2))
        × (0 < out.cap)
  unfolding vector_push_back
  vector_push_back-Holds {xs} {vec} x h grows pos small =
      let (out, run, held, free, size, cap) = grow_if_full-Holds h grows pos in
      let next : (out.size + 1) % word ≡ out.size + 1 = omega arith in
      (
        record out { tables = set out.tables out.size (some x); size = out.size + 1 },
        rw (run, store-ok out.tables out.size (some x) (omega (arith, held.block)), next) refl,
        record {
          block = length-set out.tables out.size (some x) ∙ held.block;
          count = grind (sizes, held.count);
          fits = omega arith;
          slots = λ i p. ground (
            arith,
            get_elem?-set out.tables out.size i (some x),
            get_elem?-append xs (x ∷ []) i,
            held.slots i,
            held.count,
            held.block,
            get_elem?_ge xs i,
          );
        },
        cap,
        omega arith,
      )
