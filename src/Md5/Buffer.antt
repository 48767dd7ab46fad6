-- ===== src/Md5/Buffer.antt =====
-- What a context of src/common/md5.c holds of a message, and what an input does to its buffer.
use mathlib.Core.List.{append_assoc, append-nil}
use sample_sds_storage.Base.{
  sizes, ℕ, ◌+◌, ◌*◌, ◌/◌, ◌%◌, ◌^◌, ◌≤◌, ◌<◌, ◌≡◌, refl, sym, ◌∙◌, ap, inl, inr, List, [], ◌∷◌,
  ◌++◌, arith, ltb, ltb→lt, Bool-cases, length, length-append, take, drop, take-append-drop,
}
use sample_sds_storage.Md5.{Context, md5_init, copy_at, index_of, add_count}
use sample_sds_storage.Md5.Transform.{u32, initial}
use sample_sds_storage.Md5.Blocks.{
  joined, AreBlocks, absorb, joined-append, length-joined, copy_at-append, drop-all,
}

-- The context has taken in the message: its whole blocks are in the state, what is left stands at
-- the front of the buffer, and the two words count its bits.
pub record Absorbed (message : List ℕ) (ctx : Context) : Type 0 where
  pub blocks : List (List ℕ)
  pub tail : List ℕ
  pub unused : List ℕ
  pub whole : message ≡ joined blocks ++ tail
  pub sized : AreBlocks blocks
  pub short : length tail < 64
  pub state : ctx.state ≡ absorb initial blocks
  pub buffer : ctx.buffer ≡ tail ++ unused
  pub room : length ctx.buffer ≡ 64
  pub low : ctx.count0 ≡ (length message * 8) % 2 ^ 32
  pub high : ctx.count1 ≡ (length message * 8) / 2 ^ 32 % 2 ^ 32

pub add_count-bits :
    (l n : ℕ) (ctx : Context)
    → ctx.count0 ≡ (l * 8) % 2 ^ 32
    → ctx.count1 ≡ (l * 8) / 2 ^ 32 % 2 ^ 32
    → ((add_count n ctx).count0 ≡ ((l + n) * 8) % 2 ^ 32)
      × ((add_count n ctx).count1 ≡ ((l + n) * 8) / 2 ^ 32 % 2 ^ 32)
unfolding add_count
add_count-bits l n ctx low high =
    elim (Bool-cases (ltb (u32 (ctx.count0 + u32 (n * 2 ^ 3))) (u32 (n * 2 ^ 3)))) [
      | inl carry ↦ (omega arith, rw carry (let less = ltb→lt _ _ carry in omega arith))
      | inr no_carry ↦ (
        omega arith,
        rw no_carry (
            let more : u32 (n * 2 ^ 3) ≤ u32 (ctx.count0 + u32 (n * 2 ^ 3)) = ground arith in
            omega arith),
      )
    ]

module _ {message : List ℕ} {ctx : Context} (h : Absorbed message ctx) where
  pub length-message :
      (length message % 64 ≡ length h.tail)
      × (length message ≡ length (joined h.blocks) + length h.tail)
  length-message =
      let total : length message ≡ length (joined h.blocks) + length h.tail =
        ap length h.whole ∙ length-append (joined h.blocks) h.tail in
      (let multiple = length-joined h.blocks h.sized in let short = h.short in omega arith, total)

  pub index_of-tail : index_of ctx ≡ length h.tail
  index_of-tail = let (rest, _) = length-message in let low = h.low in omega arith

  pub length-unused : length h.tail + length h.unused ≡ 64
  length-unused = sym (length-append h.tail h.unused) ∙ sym (ap length h.buffer) ∙ h.room

module _ {message : List ℕ} {ctx : Context} (h : Absorbed message ctx) (input : List ℕ) where
  -- The input does not fill the buffer.
  pub short_input :
      length h.tail + length input < 64
      → (message ++ input ≡ joined h.blocks ++ (h.tail ++ input))
        × (copy_at (index_of ctx) input ctx.buffer
            ≡ (h.tail ++ input) ++ drop (length input) h.unused)
        × (length (copy_at (index_of ctx) input ctx.buffer) ≡ 64)
  short_input fits =
      let copied : copy_at (index_of ctx) input ctx.buffer
          ≡ (h.tail ++ input) ++ drop (length input) h.unused =
        rw (index_of-tail h, h.buffer) (copy_at-append h.tail h.unused input) in
      (
        rw h.whole (append_assoc (joined h.blocks) h.tail input),
        copied,
        rw copied (grind (sizes, length-unused h)),
      )

  -- The input fills the buffer: the block that this makes, and where the message is cut.
  pub full_block :
      (partlen : ℕ)
      → length h.tail + partlen ≡ 64
      → partlen ≤ length input
      → (copy_at (index_of ctx) (take partlen input) ctx.buffer ≡ h.tail ++ take partlen input)
        × (length (h.tail ++ take partlen input) ≡ 64)
        × (message ++ input
            ≡ joined (h.blocks ++ (h.tail ++ take partlen input) ∷ []) ++ drop partlen input)
  full_block partlen sum enough =
      let block = h.tail ++ take partlen input in
      let size : length (take partlen input) ≡ partlen = grind sizes in
      let none_left : drop (length (take partlen input)) h.unused ≡ [] =
        drop-all h.unused _ (omega (arith, length-unused h)) in
      (
        rw (index_of-tail h, h.buffer)
            (copy_at-append h.tail h.unused (take partlen input)
              ∙ rw (none_left, append-nil block) refl),
        grind sizes,
        rw (joined-append h.blocks (block ∷ []), append-nil block)
            (rw h.whole (
              append_assoc (joined h.blocks) h.tail input
              ∙ ap (λ w. joined h.blocks ++ w)
                  (ap (λ w. h.tail ++ w) (sym (take-append-drop partlen input))
                    ∙ sym (append_assoc h.tail (take partlen input) (drop partlen input)))
              ∙ sym (append_assoc (joined h.blocks) block (drop partlen input)))),
      )

-- A context that has taken in nothing.
pub md5_init-Absorbed : (buffer : List ℕ) → length buffer ≡ 64 → Absorbed [] (md5_init buffer)
unfolding md5_init
md5_init-Absorbed buffer room = record {
  blocks = [];
  tail = [];
  unused = buffer;
  whole = refl;
  sized = tt;
  short = omega arith;
  state = refl;
  buffer = refl;
  room = room;
  low = refl;
  high = refl;
}
