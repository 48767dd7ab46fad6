-- ===== src/Slice/Copies.antt =====
-- Copies of src/common/slice.c: `slice_copy`, `slice_repace_value`, `slice_create` and
-- `slice_strncpy`.
use mathlib.Core.Path.{subst}
use sample_sds_storage.Base.{
  sizes, ℕ, zero, suc, ◌≤◌, ◌<◌, ◌≡◌, ◌≢◌, refl, ap, ◌⊎◌, inl, inr, Bool, true, none, some, List,
  [], ◌∷◌, ◌++◌, arith, ltb, leb, lt→ltb, le→ltb, Bool-cases, if◌then◌else◌, success, failure,
  length, take, ok, fault, ◌>>=◌,
}
use sample_sds_storage.Slice.Strings.{at, c_string, IsText, until_nul-append, until_nul-fault}
use sample_sds_storage.Slice.{
  Slice, slice, buf, ptr, slice_internal_size, put_byte, slice_value, slice_init, slice_copy,
  slice_repace_value, slice_create, slice_strncpy,
}
use sample_sds_storage.Slice.Stores.{
  Stores, inside, put_byte_end, slice_value-at, slice_value-null, slice_init-Stores,
  slice_deinit-Stores,
}

module _ (strdup : ℕ → Bool) {v : List ℕ} (t : IsText v)
    (room : strdup (suc (length v)) ≡ true) where
  -- `slice_copy` of a slice that stores a text, not the empty one, makes the other store it too.
  pub slice_copy-Stores :
      {src : Slice} (dest : Slice)
      → Stores v src
      → v ≢ []
      → (out : Slice) × (slice_copy strdup (some dest) (some src) ≡ ok (success, some out))
        × Stores v out
  unfolding slice_copy
  slice_copy-Stores {src} dest s ne =
      let (rest, e) = slice_value-at s ne in
      let (out, run, stored) = (slice_init-Stores strdup dest v rest t room).0 in
      (out, rw e run, stored)

  -- `slice_repace_value` frees what the slice stored and makes it store the new text.
  pub slice_repace_value-Stores :
      {old : List ℕ} {se : Slice} (rest : List ℕ)
      → Stores old se
      → (out : Slice) × (slice_repace_value strdup (some se) (at (v ++ 0 ∷ rest))
          ≡ ok (success, some out))
        × Stores v out
  unfolding slice_repace_value
  slice_repace_value-Stores rest s =
      let (mid, freed, _, _) = slice_deinit-Stores s in
      let (out, run, stored) = (slice_init-Stores strdup mid v rest t room).0 in
      (out, rw (freed, ◌>>=◌) run, stored)

  -- `slice_create` gives a slice that stores the text.
  pub slice_create-Stores :
      (calloc : ℕ → Bool) (rest : List ℕ)
      → calloc 1 ≡ true
      → (out : Slice) × (slice_create strdup calloc (at (v ++ 0 ∷ rest)) ≡ ok (some out))
        × Stores v out
  unfolding slice_create
  slice_create-Stores calloc rest given =
      let (out, run, stored) = (slice_init-Stores strdup (slice (ptr none) 0) v rest t room).0 in
      (out, rw (given, run) refl, stored)

-- A copy of the empty text fails: `slice_value` gives NULL for it.
pub slice_copy_empty :
    (strdup : ℕ → Bool) {src : Slice} (dest : Slice)
    → Stores [] src
    → slice_copy strdup (some dest) (some src) ≡ ok (failure, some (slice (ptr none) 0))
unfolding slice_copy slice_init
slice_copy_empty strdup dest s = rw (slice_value-null s refl) refl

length-take-le : (n : ℕ) (v : List ℕ) → n ≤ length v → length (take n v) ≡ n
length-take-le n v h = grind sizes

take-append_le : (n : ℕ) (v w : List ℕ) → n ≤ length v → take n (v ++ w) ≡ take n v
take-append_le zero v w h = refl
take-append_le (suc n) [] w h = absurd (omega arith)
take-append_le (suc n) (c ∷ v) w h = ap (λ u. c ∷ u) (take-append_le n v w (omega arith))

IsText-take : (n : ℕ) (v : List ℕ) → IsText v → IsText (take n v)
IsText-take zero v t = tt
IsText-take (suc n) [] t = tt
IsText-take (suc n) (c ∷ v) (ne, t) = (ne, IsText-take n v t)

take-suc_all : (v w : List ℕ) → take (suc (length v)) (v ++ 0 ∷ w) ≡ v ++ 0 ∷ []
take-suc_all [] w = refl
take-suc_all (c ∷ v) w = ap (λ u. c ∷ u) (take-suc_all v w)

put-end : (v : List ℕ) → put_byte (v ++ 0 ∷ []) (length v) 0 ≡ v ++ 0 ∷ []
put-end [] = refl
put-end (c ∷ v) = ap (λ u. c ∷ u) (put-end v)

taken_Stores :
    (n : ℕ) (v : List ℕ)
    → n ≤ length v
    → length v < slice_internal_size
    → Stores (take n v) (slice (buf (put_byte (take n (v ++ 0 ∷ [])) n 0)) n)
taken_Stores n v h short =
    let e = length-take-le n v h in
    let put : put_byte (take n (v ++ 0 ∷ [])) n 0 ≡ take n v ++ 0 ∷ [] =
      rw (take-append_le n v (0 ∷ []) h)
        (subst (λ k. put_byte (take n v) k 0 ≡ take n v ++ 0 ∷ []) e (put_byte_end (take n v))) in
    rw put (
      subst (λ k. Stores (take n v) (slice (buf (take n v ++ 0 ∷ [])) k)) e
        (inside [] (omega (arith, e))))

take-suc : (v : List ℕ) → take (suc (length v)) v ≡ v
take-suc [] = refl
take-suc (c ∷ v) = ap (λ u. c ∷ u) (take-suc v)

whole_Stores :
    (v : List ℕ)
    → length v < slice_internal_size
    → Stores
        (take (suc (length v)) v)
        (slice (buf (put_byte (take (suc (length v)) (v ++ 0 ∷ [])) (length v) 0)) (length v))
whole_Stores v short = rw (take-suc_all v [], put-end v, take-suc v) (inside [] short)

module _ (calloc : ℕ → Bool) (se : Slice) (v rest : List ℕ) (t : IsText v) where
  -- `slice_strncpy` of at most `n` bytes of a text of up to 15 bytes stores them, where `n` is
  -- not 0 and no more than the text with its NUL.
  pub slice_strncpy-Stores :
      (n : ℕ)
      → length v < slice_internal_size
      → 0 < n
      → n ≤ suc (length v)
      → (out : Slice) × (slice_strncpy calloc (some se) (at (v ++ 0 ∷ rest)) n
          ≡ ok (some success, some out))
        × Stores (take n v) out
  unfolding slice_strncpy c_string
  slice_strncpy-Stores n short pos fits =
      let text = until_nul-append v rest t in
      let inside = le→ltb (suc (length v)) n fits in
      elim (Bool-cases (ltb (length v) n)) [
        | inr within ↦ (
          slice (buf (put_byte (take n (v ++ 0 ∷ [])) n 0)) n,
          rw (lt→ltb 0 n pos, text, within, lt→ltb (length v) 16 short, inside) refl,
          taken_Stores n v (ground arith) short,
        )
        | inl past ↦
            let e : n ≡ suc (length v) = ground arith in
            (
              slice (buf (put_byte (take n (v ++ 0 ∷ [])) (length v) 0)) (length v),
              rw (lt→ltb 0 n pos, text, past, lt→ltb (length v) 16 short, inside) refl,
              rw e (whole_Stores v short),
            )
      ]

  -- For an `n` past the NUL of such a text `slice_strncpy` reads beyond the text.
  pub slice_strncpy_overread :
      (n : ℕ)
      → length v < slice_internal_size
      → suc (length v) < n
      → slice_strncpy calloc (some se) (at (v ++ 0 ∷ rest)) n ≡ fault
  unfolding slice_strncpy c_string
  slice_strncpy_overread n short beyond =
      rw
        (
          lt→ltb 0 n (omega arith),
          until_nul-append v rest t,
          lt→ltb (length v) 16 short,
          lt→ltb (suc (length v)) n beyond,
        )
        refl

  unreadable :
      (size : ℕ)
      → 0 < size
      → size ≤ slice_internal_size
      → c_string (slice_value (some (slice (buf (take size v)) size))) ≡ fault
  unfolding c_string slice_value
  unreadable size pos fits = elim (Bool-cases (ltb size 16)) [
    | inl below ↦
        rw (lt→ltb 0 size pos, below) (until_nul-fault (take size v) (IsText-take size v t))
    | inr full ↦
        let top : leb 16 size ≡ true = ground arith in rw (lt→ltb 0 size pos, full, top) refl
  ]

  -- Of a text of 16 bytes or more `slice_strncpy` never makes a slice that can be read: it writes
  -- past the union, or what `slice_value` points at is no string.
  pub slice_strncpy_long :
      (n : ℕ)
      → slice_internal_size ≤ length v
      → 0 < n
      → (slice_strncpy calloc (some se) (at (v ++ 0 ∷ rest)) n ≡ fault)
        ⊎ ((out : Slice) × (slice_strncpy calloc (some se) (at (v ++ 0 ∷ rest)) n
              ≡ ok (some success, some out))
            × (c_string (slice_value (some out)) ≡ fault))
  unfolding slice_strncpy c_string slice_value
  slice_strncpy_long n long pos =
      let size = if ltb (length v) n then length v else n in
      elim (Bool-cases (ltb slice_internal_size size)) [
        | inl overflow ↦ inl (
            rw (lt→ltb 0 n pos, until_nul-append v rest t, le→ltb (length v) 16 long, overflow)
              refl)
        | inr fits ↦ inr (
          slice (buf (take size v)) size,
          rw (lt→ltb 0 n pos, until_nul-append v rest t, le→ltb (length v) 16 long, fits) refl,
          unreadable size (ground arith) (ground arith),
        )
      ]
