-- ===== src/Md5/Digest.antt =====
-- `md5_final`, `md5_string` and `md5_file` of src/common/md5.c: the digest of a whole message.
use mathlib.Core.List.{append_assoc, append-nil, map}
use mathlib.Core.Path.{ap₂, subst}
use sample_sds_storage.Base.{
  sizes, ℕ, suc, ◌+◌, ◌-◌, ◌*◌, ◌/◌, ◌%◌, ◌^◌, ◌<◌, ◌≡◌, refl, sym, ◌∙◌, ap, true, Option, some,
  List, [], ◌∷◌, ◌++◌, arith, lt→ltb, le→ltb, length, length-replicate, take, replicate,
  take-all_ge, take-replicate, success,
}
use sample_sds_storage.Md5.{
  Context, padding, padlen_of, index_of, md5_final, to_hex, md5_string, read_size, file_loop,
  md5_file,
}
use sample_sds_storage.Md5.Transform.{State, initial, md5_encode}
use sample_sds_storage.Md5.Blocks.{joined, AreBlocks, absorb}
use sample_sds_storage.Md5.Buffer.{Absorbed, length-message, index_of-tail, md5_init-Absorbed}
use sample_sds_storage.Md5.Stream.{md5_update-Absorbed}

-- The 64 bits that the two words of a count make, as 8 bytes.
abbrev pub bit_count : List ℕ → List ℕ
bit_count message =
    md5_encode ((length message * 8) % 2 ^ 32 ∷ (length message * 8) / 2 ^ 32 % 2 ^ 32 ∷ [])

abbrev pub words_of : State → List ℕ
words_of st = st.a ∷ st.b ∷ st.c ∷ st.d ∷ []

-- `digest` is the encoded state after the blocks of the message with its padding: a byte 0x80, as
-- few zeros as there can be, and the number of its bits.
pub record IsDigest (message digest : List ℕ) : Type 0 where
  pub blocks : List (List ℕ)
  pub zeros : ℕ
  pub few : zeros < 64
  pub whole : joined blocks ≡ (message ++ 0x80 ∷ replicate zeros 0) ++ bit_count message
  pub sized : AreBlocks blocks
  pub value : digest ≡ md5_encode (words_of (absorb initial blocks))

length-to_hex : (bs : List ℕ) → length (to_hex bs) ≡ 2 * length bs
unfolding to_hex
length-to_hex [] = omega arith
length-to_hex (b ∷ bs) = omega (arith, length-to_hex bs)

-- A digest has 16 bytes, which are written in 32 digits.
pub digits-IsDigest :
    {message digest : List ℕ} → IsDigest message digest → length (to_hex digest) ≡ 32
unfolding md5_encode
digits-IsDigest {digest = digest} d = omega (arith, length-to_hex digest, ap length d.value)

length-encode_two : (a b : ℕ) → length (md5_encode (a ∷ b ∷ [])) ≡ 8
unfolding md5_encode
length-encode_two a b = refl

take-padding : (n : ℕ) → n < 64 → take (suc n) padding ≡ 0x80 ∷ replicate n 0
take-padding n h = ap (λ w. 0x80 ∷ w) (take-replicate n 63 0 (omega arith))

empty_of : (v : List ℕ) → length v ≡ 0 → v ≡ []
empty_of [] e = refl
empty_of (c ∷ v) e = absurd (omega arith)

-- The padding fills the last block but for the 8 bytes of the count.
padding_of :
    (index : ℕ)
    → index < 64
    → (zeros : ℕ) × (zeros < 64)
      × (take (padlen_of index) padding ≡ 0x80 ∷ replicate zeros 0)
      × ((index + suc zeros + 8) % 64 ≡ 0)
padding_of index below =
    let zeros = padlen_of index - 1 in
    let padlen : padlen_of index ≡ suc zeros = ground arith in
    let few : zeros < 64 = ground arith in
    (zeros, few, ap (λ n. take n padding) padlen ∙ take-padding zeros few, ground arith)

-- A message of whole blocks leaves nothing in the buffer.
joined-blocks :
    {message : List ℕ} {ctx : Context} (e : Absorbed message ctx)
    → length message % 64 ≡ 0
    → joined e.blocks ≡ message
joined-blocks {message} e exact =
    let (rest, _) = length-message e in
    let no_tail : e.tail ≡ [] = empty_of e.tail (omega arith) in
    sym (append-nil (joined e.blocks)) ∙ ap (λ w. joined e.blocks ++ w) (sym no_tail) ∙ sym e.whole

-- `md5_final` makes the digest of what the context has taken in.
pub md5_final-IsDigest :
    {message : List ℕ} {ctx : Context}
    → Absorbed message ctx
    → (digest : List ℕ) × (md5_final ctx ≡ some digest) × IsDigest message digest
unfolding md5_final
md5_final-IsDigest {message} {ctx} h =
    let (zeros, few, pad_eq, exact) = padding_of (index_of ctx) (omega arith) in
    let pad = take (padlen_of (index_of ctx)) padding in
    let bits = md5_encode (ctx.count0 ∷ ctx.count1 ∷ []) in
    let pad_len : length pad ≡ suc zeros = ap length pad_eq ∙ ap suc (length-replicate zeros 0) in
    let bits_len = length-encode_two ctx.count0 ctx.count1 in
    let (padded, pad_run, p) = md5_update-Absorbed h pad (omega arith) in
    let (ended, end_run, e) = md5_update-Absorbed p bits (omega arith) in
    let (rest, _) = length-message h in
    let index = index_of-tail h in
    let whole = joined-blocks e (grind sizes) in
    (
      md5_encode (words_of ended.state),
      rw (pad_run, end_run) refl,
      record {
        blocks = e.blocks;
        zeros = zeros;
        few = few;
        whole =
            whole
            ∙ ap₂ (λ v w. (message ++ v) ++ w) pad_eq
                (ap₂ (λ a b. md5_encode (a ∷ b ∷ [])) h.low h.high);
        sized = e.sized;
        value = ap (λ st. md5_encode (words_of st)) e.state;
      },
    )

-- `md5_string` makes the digest of a string of less than 2 ^ 32 - 64 bytes, written in
-- hexadecimal, whatever the context on the stack held before.
pub md5_string-IsDigest :
    (buffer input : List ℕ)
    → length buffer ≡ 64
    → length input + 64 < 2 ^ 32
    → (digest : List ℕ) × (md5_string buffer input ≡ some (to_hex digest)) × IsDigest input digest
unfolding md5_string
md5_string-IsDigest buffer input room small =
    let (ctx, run, a) = md5_update-Absorbed (md5_init-Absorbed buffer room) input small in
    let (digest, final, d) = md5_final-IsDigest a in (digest, rw (run, final) refl, d)

-- Every read but the last fills the array that `md5_file` reads into.
abbrev pub AreFull : List (List ℕ) → Type 0
AreFull [] = Unit
AreFull (bs ∷ chunks) = (length bs ≡ read_size) × AreFull chunks

file_loop-Absorbed :
    (chunks : List (List ℕ)) (last : List ℕ) (reads : List (Option (List ℕ))) {message : List ℕ}
    {ctx : Context}
    → AreFull chunks
    → length last < read_size
    → Absorbed message ctx
    → (out : Context) × (file_loop (map some chunks ++ some last ∷ reads) ctx ≡ some (some out))
      × Absorbed (message ++ (joined chunks ++ last)) out
unfolding file_loop
file_loop-Absorbed [] last reads full short h =
    let (out, run, a) = md5_update-Absorbed h last (omega arith) in
    (
      out,
      rw (take-all_ge read_size last (omega arith), run, lt→ltb (length last) read_size short) refl,
      a,
    )
file_loop-Absorbed (bs ∷ chunks) last reads {message} (size, full) short h =
    let (mid, run, a) = md5_update-Absorbed h bs (omega arith) in
    let (out, runs, b) = file_loop-Absorbed chunks last reads full short a in
    (
      out,
      rw (take-all_ge read_size bs (omega arith), run, le→ltb (length bs) read_size (omega arith))
          runs,
      subst (λ m. Absorbed m out)
          (append_assoc message bs (joined chunks ++ last)
            ∙ ap (λ w. message ++ w) (sym (append_assoc bs (joined chunks) last)))
          b,
    )

-- `md5_file` of a file that can be opened and is read in full chunks of 4096 bytes and a last,
-- shorter one makes the digest of its whole contents, written in hexadecimal, however long it is,
-- in a context whose buffer has 64 bytes.
pub md5_file-IsDigest :
    (buffer : List ℕ) (chunks : List (List ℕ)) (last : List ℕ) (reads : List (Option (List ℕ)))
    → length buffer ≡ 64
    → AreFull chunks
    → length last < read_size
    → (digest : List ℕ) × (md5_file true (map some chunks ++ some last ∷ reads) buffer
        ≡ some (success, to_hex digest))
      × IsDigest (joined chunks ++ last) digest
unfolding md5_file
md5_file-IsDigest buffer chunks last reads room full short =
    let (ctx, run, a) =
      file_loop-Absorbed chunks last reads full short (md5_init-Absorbed buffer room) in
    let (digest, final, d) = md5_final-IsDigest a in (digest, rw (run, final) refl, d)
