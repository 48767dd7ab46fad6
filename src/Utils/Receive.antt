-- ===== src/Utils/Receive.antt =====
-- The loop of `read_n` in src/common/utils.c: what it stores of the chunks that arrive.
use mathlib.Core.List.{append_assoc, append-nil}
use sample_sds_storage.Base.{
  take-all_ge, drop-all_ge, ℕ, ◌+◌, ◌-◌, ◌^◌, ◌≤◌, ◌<◌, ◌≡◌, refl, ◌∙◌, true, false, some, List, [],
  ◌∷◌, ◌++◌, map, arith, ltb, lt→ltb, le→ltb, ◌==◌, pos, int32, int32_small, length, length-append,
  take,
}
use sample_sds_storage.Utils.{Read, got, failed, below, place_at, read_loop, read_n}
use sample_sds_storage.Utils.Transfer.{to_size_small}

abbrev pub joined : List (List ℕ) → List ℕ
joined [] = []
joined (bs ∷ chunks) = bs ++ joined chunks

abbrev pub IsFull : List (List ℕ) → Type 0
IsFull [] = Unit
IsFull (bs ∷ chunks) = (0 < length bs) × IsFull chunks

-- Behind what is stored, bytes are added.
place_at_end : (stored chunk : List ℕ) → place_at (length stored) chunk stored ≡ stored ++ chunk
place_at_end stored chunk =
    rw
      (
        take-all_ge (length stored) stored (omega arith),
        drop-all_ge (length stored + length chunk) stored (omega arith),
        append-nil chunk,
      )
      refl

module _ (len : ℕ) (small : len < 2 ^ 31) where
  below-stored :
      (stored : List ℕ)
      → length stored ≤ len
      → below (pos (length stored)) len ≡ ltb (length stored) len
  below-stored stored h = rw (to_size_small (length stored) (omega arith)) refl

  read_loop-chunks :
      (chunks : List (List ℕ)) (calls : List Read) (stored : List ℕ)
      → IsFull chunks
      → length stored + length (joined chunks) ≤ len
      → read_loop (map got chunks ++ calls) len (pos (length stored)) stored
        ≡ read_loop calls len (pos (length (stored ++ joined chunks))) (stored ++ joined chunks)
  unfolding read_loop
  read_loop-chunks [] calls stored full h = rw (append-nil stored) refl
  read_loop-chunks (bs ∷ chunks) calls stored (some_bytes, full) h =
      let size = length-append bs (joined chunks) in
      let more : ltb (length stored) len ≡ true = ground arith in
      let whole : take (len - length stored) bs ≡ bs =
        take-all_ge (len - length stored) bs (omega arith) in
      let live : (length bs == 0) ≡ false = ground arith in
      let grown = length-append stored bs in
      let count : int32 (length stored + length bs) ≡ pos (length (stored ++ bs)) =
        rw grown (int32_small (length stored + length bs) (omega arith)) in
      rw
        (
          to_size_small (length stored) (omega arith),
          more,
          whole,
          live,
          count,
          place_at_end stored bs,
          ← append_assoc stored bs (joined chunks),
        )
        (read_loop-chunks chunks calls (stored ++ bs) full (omega arith))

  read_loop_full :
      (calls : List Read) (stored : List ℕ)
      → length stored ≡ len
      → read_loop calls len (pos (length stored)) stored ≡ some (pos len, stored, calls)
  unfolding read_loop
  read_loop_full [] stored e =
      rw (below-stored stored (omega arith), e, le→ltb len len (omega arith)) refl
  read_loop_full (got bs ∷ calls) stored e =
      rw (below-stored stored (omega arith), e, le→ltb len len (omega arith)) refl
  read_loop_full (failed errno ∷ calls) stored e =
      rw (below-stored stored (omega arith), e, le→ltb len len (omega arith)) refl

  -- With `len` below 2 ^ 31, `read_n` stores chunks that arrive in turn: it returns `len` and the
  -- bytes in order once they make up `len` bytes, and makes no further call of `read`.
  pub read_n-joined :
      (chunks : List (List ℕ)) (calls : List Read)
      → IsFull chunks
      → length (joined chunks) ≡ len
      → read_n (map got chunks ++ calls) len ≡ some (pos len, joined chunks, calls)
  unfolding read_n
  read_n-joined chunks calls full e =
      read_loop-chunks chunks calls [] full (omega arith) ∙ read_loop_full calls (joined chunks) e

  -- Where `len` is below 2 ^ 31 and fewer bytes than `len` have arrived, the end of the file and
  -- any error, an interrupt among them, make `read_n` return the bytes so far.
  pub read_n_short :
      (chunks : List (List ℕ)) (calls : List Read)
      → IsFull chunks
      → length (joined chunks) < len
      → (read_n (map got chunks ++ got [] ∷ calls) len
          ≡ some (pos (length (joined chunks)), joined chunks, calls))
        × ((errno : ℕ)
            → read_n (map got chunks ++ failed errno ∷ calls) len
              ≡ some (pos (length (joined chunks)), joined chunks, calls))
  unfolding read_n read_loop
  read_n_short chunks calls full h =
      let short : ltb (length (joined chunks)) len ≡ true = lt→ltb _ _ h in
      let test = below-stored (joined chunks) (omega arith) in
      let none_left : take {A = ℕ} (len - length (joined chunks)) [] ≡ [] =
        take-all_ge (len - length (joined chunks)) [] (omega arith) in
      (
        read_loop-chunks chunks (got [] ∷ calls) [] full (omega arith)
            ∙ (rw (to_size_small (length (joined chunks)) (omega arith), short, none_left) refl),
        λ errno.
            read_loop-chunks chunks (failed errno ∷ calls) [] full (omega arith)
            ∙ (rw (test, short) refl),
      )
