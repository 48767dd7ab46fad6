-- ===== src/Vector/Sequence.antt =====
-- Runs of several calls of src/common/vector.c, its error branches, and its misuse.
use mathlib.Core.Option
use mathlib.Core.List.{append-nil, append_assoc}
use sample_sds_storage.Base.{
  sizes, ℕ, zero, suc, ◌+◌, ◌^◌, ◌<◌, ◌≡◌, refl, sym, ◌∙◌, ap, inl, inr, Bool, true, none, some,
  List, [], ◌∷◌, ◌++◌, map, arith, ltb, Bool-cases, if◌then◌else◌, success, length, get_elem?, set,
  replicate, length-replicate, get_elem?_lt, get_elem?_ge, Run, ok, ◌>>=◌, load-ok,
}
use sample_sds_storage.Vector.{
  Vector, call_loop, vector_init, vector_push_back, vector_at, vector_deinit,
}
use sample_sds_storage.Vector.Contents.{Holds, vector_push_back-Holds}

module _ {A : Type 0} where
  -- `vector_at` reads the list: the element at an index in range, and NULL at any other.
  pub vector_at-get_elem? :
      {xs : List A} {vec : Vector A}
      → Holds xs vec
      → (i : ℕ) → vector_at vec i ≡ ok (get_elem? xs i)
  unfolding vector_at
  vector_at-get_elem? {xs} {vec} h i = elim (Bool-cases (ltb i vec.size)) [
    | inl inside ↦
        let below : i < vec.size = ground arith in
        let (x, got) = get_elem?_lt xs i (omega (arith, h.count)) in
        rw (inside, load-ok vec.tables i (h.slots i below ∙ ap (Option.map some) got), got) refl
    | inr outside ↦ rw (outside, get_elem?_ge xs i (ground (arith, h.count))) refl
  ]

  call_loop-map :
      (left i : ℕ) {xs : List A} {vec : Vector A}
      → Holds xs vec
      → i + left ≡ vec.size
      → (rest : List A) → length rest ≡ left
      → ((j : ℕ) → get_elem? rest j ≡ get_elem? xs (i + j))
      → call_loop left i vec.tables ≡ ok (map some rest)
  unfolding call_loop
  call_loop-map zero i h e [] l same = refl
  call_loop-map zero i h e (x ∷ rest) l same = absurd (omega arith)
  call_loop-map (suc left) i h e [] l same = absurd (omega arith)
  call_loop-map (suc left) i {xs} {vec} h e (x ∷ rest) l same =
      let here : get_elem? xs i ≡ some x = sym (same 0 ∙ ap (get_elem? xs) (omega arith)) in
      rw
        (
          load-ok vec.tables i (h.slots i (omega arith) ∙ ap (Option.map some) here),
          call_loop-map left (i + 1) h (omega arith) rest (omega arith)
              (λ j. same (suc j) ∙ ap (get_elem? xs) (omega arith)),
        )
        refl

  -- `vector_deinit` calls a callback that is set on each element once, in order, and leaves an
  -- empty vector, on which it does nothing more.
  pub vector_deinit-calls :
      {xs : List A} {vec : Vector A}
      → Holds xs vec
      → (out : Vector A) × (vector_deinit (some vec)
          ≡ ok (if vec.cb then map some xs else [], some out))
        × Holds [] out
        × (vector_deinit (some out) ≡ ok ([], some out))
  unfolding vector_deinit call_loop
  vector_deinit-calls {xs} {vec} h = elim (Bool-cases vec.cb) [
    | inl set ↦ (
      record { size = 0; cap = 0; tables = []; cb = vec.cb },
      rw
          (
            set,
            call_loop-map vec.size 0 h (omega arith) xs (sym h.count)
                (λ j. ap (get_elem? xs) (omega arith)),
          )
          refl,
      record {
        block = refl;
        count = refl;
        fits = omega arith;
        slots = λ i p. absurd (omega arith);
      },
      rw set refl,
    )
    | inr unset ↦ (
      record { size = 0; cap = 0; tables = []; cb = vec.cb },
      rw unset refl,
      record {
        block = refl;
        count = refl;
        fits = omega arith;
        slots = λ i p. absurd (omega arith);
      },
      rw unset refl,
    )
  ]

module _ {A : Type 0} (calloc : ℕ → Bool) where
  -- Pushes in turn; the first that fails ends the run.
  abbrev pub push_all : Vector A → List A → Run (Vector A)
  push_all vec [] = ok vec
  push_all vec (x ∷ xs) = do (_, out) ← vector_push_back calloc vec (some x); push_all out xs

  pub vector_init-Holds :
      (old : Vector A) (cap : ℕ) (cb : Bool)
      → calloc cap ≡ true
      → (vec : Vector A) × (vector_init calloc (some old) cap cb ≡ ok (success, some vec))
        × Holds [] vec
        × (vec.cap ≡ cap)
  unfolding vector_init
  vector_init-Holds old cap cb room = (
    record { size = 0; cap = cap; tables = replicate cap none; cb = cb },
    rw room refl,
    record {
      block = length-replicate cap none;
      count = refl;
      fits = omega arith;
      slots = λ i p. absurd (omega arith);
    },
    refl,
  )

  abbrev Bounded : Vector A → Type 0
  Bounded vec = (0 < vec.cap) × (vec.cap < 2 ^ 63)

  push_all-Holds :
      ((n : ℕ) → calloc n ≡ true)
      → (xs ys : List A) (vec : Vector A) → Holds xs vec
      → Bounded vec
      → length xs + length ys < 2 ^ 62
      → (out : Vector A) × (push_all vec ys ≡ ok out) × Holds (xs ++ ys) out
  push_all-Holds room xs [] vec h b small = (vec, refl, rw append-nil h)
  push_all-Holds room xs (y ∷ ys) vec h b small =
      let (mid, run, held, cap, pos) =
        vector_push_back-Holds calloc y h (λ full. (room _, omega (arith, b.1))) b.0
          (omega (arith, h.count, b.0)) in
      let bounded : mid.cap < 2 ^ 63 = omega (arith, h.count, h.fits, b.1) in
      let (out, runs, all) =
        push_all-Holds room (xs ++ y ∷ []) ys mid held (pos, bounded) (grind sizes) in
      (out, rw run runs, rw append_assoc at all)

  -- From `vector_init` with a positive capacity, pushing any pointers succeeds, and then
  -- `vector_at` reads them back in order.
  pub vector_at-push_all :
      ((n : ℕ) → calloc n ≡ true)
      → (old : Vector A) (cap : ℕ) (cb : Bool) (xs : List A) → 0 < cap
      → cap < 2 ^ 63
      → length xs < 2 ^ 62
      → (vec : Vector A) × (out : Vector A) × (vector_init calloc (some old) cap cb
          ≡ ok (success, some vec))
        × (push_all vec xs ≡ ok out)
        × ((i : ℕ) → vector_at out i ≡ ok (get_elem? xs i))
  vector_at-push_all room old cap cb xs pos wide small =
      let (vec, run, held, e) = vector_init-Holds old cap cb (room cap) in
      let (out, runs, all) =
        push_all-Holds room [] xs vec held (omega arith, omega arith) (omega arith) in
      (vec, out, run, runs, vector_at-get_elem? all)
