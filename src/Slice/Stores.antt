-- ===== src/Slice/Stores.antt =====
-- What a slice stores: `slice_init`, `slice_deinit` and the readers of src/common/slice.c.
use sample_sds_storage.Base.{
  ℕ, suc, ◌≤◌, ◌<◌, ◌≡◌, ◌≢◌, refl, ap, inl, inr, Bool, true, false, none, some, List, [], ◌∷◌,
  ◌++◌, arith, ltb, leb, if◌then◌else◌, lt→ltb, le→ltb, Bool-cases, success, failure, length, take,
  drop, ok,
}
use sample_sds_storage.Slice.Strings.{null, at, c_string, IsText, until_nul-append}
use sample_sds_storage.Slice.{
  Slice, slice, buf, ptr, dangling, slice_internal_size, put_byte, slice_value, slice_size,
  slice_init, init_string, slice_deinit,
}

-- `se` stores the text `v`: inside up to 15 bytes, in a block from 16.
pub data Stores (v : List ℕ) : Slice → Type 0 where
  inside :
      (rest : List ℕ)
      → length v < slice_internal_size
      → Stores v (slice (buf (v ++ 0 ∷ rest)) (length v))
  outside : slice_internal_size ≤ length v → Stores v (slice (ptr (some (v ++ 0 ∷ []))) (length v))

pub take-all : (v : List ℕ) → take (length v) v ≡ v
take-all [] = refl
take-all (c ∷ v) = ap (λ w. c ∷ w) (take-all v)

drop-all : (v : List ℕ) → drop (suc (length v)) v ≡ []
drop-all [] = refl
drop-all (c ∷ []) = refl
drop-all (c ∷ d ∷ v) = drop-all (d ∷ v)

pub put_byte_end : (v : List ℕ) → put_byte v (length v) 0 ≡ v ++ 0 ∷ []
put_byte_end v = rw (take-all v, drop-all v) refl

-- Where the pointer of `slice_value` leads.
pub slice_value-at :
    {v : List ℕ} {se : Slice}
    → Stores v se
    → v ≢ []
    → (rest : List ℕ) × (slice_value (some se) ≡ at (v ++ 0 ∷ rest))
unfolding slice_value
slice_value-at {v = []} s ne = absurd (ne refl)
slice_value-at {v = c ∷ v} (inside rest h) ne =
    (rest, rw (lt→ltb 0 (length (c ∷ v)) (omega arith), lt→ltb (length (c ∷ v)) 16 h) refl)
slice_value-at {v = c ∷ v} (outside h) ne =
    let long : leb 16 (length (c ∷ v)) ≡ true = ground arith in
    ([], rw (lt→ltb 0 (length (c ∷ v)) (omega arith), le→ltb (length (c ∷ v)) 16 h, long) refl)

pub slice_size-Stores : {v : List ℕ} {se : Slice} → Stores v se → slice_size (some se) ≡ length v
unfolding slice_size
slice_size-Stores (inside rest h) = refl
slice_size-Stores (outside h) = refl

pub slice_value-null :
    {v : List ℕ} {se : Slice} → Stores v se → v ≡ [] → slice_value (some se) ≡ null
unfolding slice_value
slice_value-null {v = []} (inside rest h) e = refl
slice_value-null {v = []} (outside h) e = absurd (omega arith)
slice_value-null {v = c ∷ v} (inside rest h) e = cc
slice_value-null {v = c ∷ v} (outside h) e = cc

-- A slice that stores a text, not the empty one and with no NUL, gives it back: `slice_value`
-- points at the text, and `slice_size` is its length.
pub slice_value-Stores :
    {v : List ℕ} {se : Slice}
    → Stores v se
    → IsText v
    → v ≢ []
    → (slice_size (some se) ≡ length v) × (c_string (slice_value (some se)) ≡ ok v)
unfolding c_string
slice_value-Stores {v} s t ne =
    let (rest, e) = slice_value-at s ne in (slice_size-Stores s, rw e (until_nul-append v rest t))

module _ (strdup : ℕ → Bool) where
  pub init_string-Stores :
      (v : List ℕ) → strdup (suc (length v)) ≡ true → Stores v (init_string strdup v)
  unfolding init_string
  init_string-Stores v room = elim (Bool-cases (ltb (length v) slice_internal_size)) [
    | inl short ↦ rw (short, put_byte_end v) (inside [] (ground arith))
    | inr long ↦ rw (long, room) (outside (ground arith))
  ]

  -- `slice_init` from a string makes the slice store it, whatever it held before; from NULL it
  -- returns -1 and leaves a slice of size 0, and of a NULL slice it returns -1.
  pub slice_init-Stores :
      (se : Slice) (v rest : List ℕ)
      → IsText v
      → strdup (suc (length v)) ≡ true
      → ((out : Slice) × (slice_init strdup (some se) (at (v ++ 0 ∷ rest)) ≡ ok (success, some out))
          × Stores v out)
        × (slice_init strdup (some se) null ≡ ok (failure, some (slice (ptr none) 0)))
        × (slice_init strdup none (at (v ++ 0 ∷ rest)) ≡ ok (failure, none))
  unfolding slice_init c_string
  slice_init-Stores se v rest t room = (
    (init_string strdup v, rw (until_nul-append v rest t) refl, init_string-Stores v room),
    refl,
    refl,
  )

-- `slice_deinit` of a slice that stores a text frees the block of a long one and leaves an empty
-- slice; a short one is left as it is. A second call changes nothing.
pub slice_deinit-Stores :
    {v : List ℕ} {se : Slice}
    → Stores v se
    → (out : Slice) × (slice_deinit (some se) ≡ ok (some out))
      × (slice_deinit (some out) ≡ ok (some out))
      × (out ≡ (if leb slice_internal_size (length v) then slice dangling 0 else se))
unfolding slice_deinit
slice_deinit-Stores {v} {se} (inside rest h) =
    let short : leb 16 (length v) ≡ false = ground arith in
    elim (Bool-cases (ltb 0 (length v))) [
      | inl some_bytes ↦
          (se, rw (some_bytes, short) refl, rw (some_bytes, short) refl, rw short refl)
      | inr no_bytes ↦ (se, rw no_bytes refl, rw no_bytes refl, rw short refl)
    ]
slice_deinit-Stores {v} {se} (outside h) =
    let long : leb 16 (length v) ≡ true = ground arith in
    (slice dangling 0, rw (lt→ltb 0 (length v) (omega arith), long) refl, refl, rw long refl)
