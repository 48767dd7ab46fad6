-- ===== src/Md5/Stream.antt =====
-- `md5_update` of src/common/md5.c: what a context has taken in, however it arrived.
use mathlib.Core.List.{append_assoc}
use sample_sds_storage.Base.{
  sizes, ℕ, suc, ◌+◌, ◌-◌, ◌^◌, ◌≤◌, ◌<◌, ◌≡◌, refl, sym, ◌∙◌, ap, inl, inr, some, List, [], ◌∷◌,
  ◌++◌, arith, leb, Bool-cases, length, length-append, take, drop,
}
use sample_sds_storage.Md5.{Context, copy_at, index_of, add_count, md5_update}
use sample_sds_storage.Md5.Transform.{State, initial, md5_transform}
use sample_sds_storage.Md5.Blocks.{
  joined, absorb, joined-append, AreBlocks-append, absorb-append, Ended, update_loop-Ended,
}
use sample_sds_storage.Md5.Buffer.{Absorbed, add_count-bits, index_of-tail, short_input, full_block}

module _ {message : List ℕ} {ctx : Context} (h : Absorbed message ctx) (input : List ℕ) where
  -- An input that does not fill the buffer is kept there.
  kept-Absorbed :
      length h.tail + length input < 64
      → Absorbed (message ++ input) (record (add_count (length input) ctx) {
        buffer = copy_at (index_of ctx) input ctx.buffer;
      })
  unfolding add_count
  kept-Absorbed fits =
      let (low, high) = add_count-bits (length message) (length input) ctx h.low h.high in
      let total = length-append message input in
      let (whole, copied, room) = short_input h input fits in
      record {
        blocks = h.blocks;
        tail = h.tail ++ input;
        unused = drop (length input) h.unused;
        whole = whole;
        sized = h.sized;
        short = grind sizes;
        state = h.state;
        buffer = copied;
        room = room;
        low = rw total low;
        high = rw total high;
      }

  -- An input that fills the buffer: the block that this makes, the blocks behind it, and the rest.
  filled-Absorbed :
      (partlen : ℕ)
      → length h.tail + partlen ≡ 64
      → partlen ≤ length input
      → let block = copy_at (index_of ctx) (take partlen input) ctx.buffer in
        (out : ℕ × State)
        → Ended partlen input (md5_transform ctx.state block) out
        → Absorbed (message ++ input) (record (add_count (length input) ctx) {
          state = out.1;
          buffer = copy_at 0 (drop out.0 input) block;
        })
  unfolding add_count
  filled-Absorbed partlen sum enough out e =
      let (low, high) = add_count-bits (length message) (length input) ctx h.low h.high in
      let total = length-append message input in
      let (copied, size, whole) = full_block h input partlen sum enough in
      let block = copy_at (index_of ctx) (take partlen input) ctx.buffer in
      let full = h.tail ++ take partlen input in
      let rest = drop out.0 input in
      let cut = h.blocks ++ full ∷ [] in
      let sized = AreBlocks-append h.blocks (full ∷ []) h.sized (size, tt) in
      record {
        blocks = cut ++ e.blocks;
        tail = rest;
        unused = drop (length rest) block;
        whole =
            whole
            ∙ ap (λ r. joined cut ++ r) e.whole
            ∙ sym (append_assoc (joined cut) (joined e.blocks) rest)
            ∙ ap (λ r. r ++ rest) (sym (joined-append cut e.blocks));
        sized = AreBlocks-append cut e.blocks sized e.sized;
        short = e.short;
        state =
            e.state
            ∙ ap (λ st. absorb st e.blocks)
                (ap (λ st. md5_transform st block) h.state
                  ∙ ap (md5_transform (absorb initial h.blocks)) copied
                  ∙ sym (absorb-append initial h.blocks (full ∷ [])))
            ∙ sym (absorb-append initial cut e.blocks);
        buffer =
            ap (λ n. rest ++ drop n block)
              (let z : 0 + length rest ≡ length rest = omega arith in z);
        room = grind (sizes, ap length copied, size, e.short);
        low = rw total low;
        high = rw total high;
      }

  -- An input of fewer than 2 ^ 32 - 64 bytes: `md5_update` takes it in behind what the context has
  -- taken in so far, whether or not it fills blocks.
  pub md5_update-Absorbed :
      length input + 64 < 2 ^ 32
      → (out : Context) × (md5_update ctx input ≡ some out) × Absorbed (message ++ input) out
  unfolding md5_update
  md5_update-Absorbed small =
      let index = index_of-tail h in
      elim (Bool-cases (leb (64 - index_of ctx) (length input))) [
        | inr short ↦ (
          record (add_count (length input) ctx) {
            buffer = copy_at (index_of ctx) input ctx.buffer;
          },
          rw short refl,
          kept-Absorbed (ground (arith, index, h.short)),
        )
        | inl long ↦
            let partlen = 64 - index_of ctx in
            let block = copy_at (index_of ctx) (take partlen input) ctx.buffer in
            let (out, run, e) =
              update_loop-Ended (suc (length input)) partlen input (md5_transform ctx.state block)
                small (ground arith) (omega arith) in
            (
              record (add_count (length input) ctx) {
                state = out.1;
                buffer = copy_at 0 (drop out.0 input) block;
              },
              rw (long, run) refl,
              filled-Absorbed partlen (omega (arith, index, h.short)) (ground arith) out e,
            )
      ]
