-- ===== src/Hash/Mix.antt =====
-- `gfs_hashfn` of src/common/hash.c, a Davies-Meyer hash with the TEA round function.
pub mod Total
use sample_sds_storage.Base.{
  ℕ, zero, suc, ◌+◌, ◌-◌, ◌*◌, ◌/◌, ◌%◌, ◌^◌, bit_or, bit_xor, Bool, true, false, List, ltb, ◌==◌,
  if◌then◌else◌, ◌||◌, ℤ, negsuc, fault, Run, ok, ◌>>=◌, load,
}

abbrev pub u32 : ℕ → ℕ
u32 n = n % 2 ^ 32

abbrev pub dm_delta : ℕ
dm_delta = 0x9E3779B9

abbrev pub full_rounds : ℕ
full_rounds = 10

abbrev pub part_rounds : ℕ
part_rounds = 6

-- `__pad`
unfoldable pub pad_word : ℕ → ℕ
pad_word len = let pad = bit_or (u32 len) (u32 (u32 len * 2 ^ 8)) in bit_or pad (u32 (pad * 2 ^ 16))

-- `uint32_t array[4]`
pub record Quad : Type 0 where
  pub w0 : ℕ
  pub w1 : ℕ
  pub w2 : ℕ
  pub w3 : ℕ

-- `array[j] = w` for `j` below 4
unfoldable pub set_word : Quad → ℕ → ℕ → Quad
set_word a zero w = record a { w0 = w }
set_word a (suc zero) w = record a { w1 = w }
set_word a (suc (suc zero)) w = record a { w2 = w }
set_word a (suc (suc (suc j))) w = record a { w3 = w }

-- `((x << 4) + k) ^ (x + sum) ^ ((x >> 5) + l)`
unfoldable pub mix : ℕ → ℕ → ℕ → ℕ → ℕ
mix x k l sum = bit_xor (bit_xor (u32 (u32 (x * 2 ^ 4) + k)) (u32 (x + sum))) (u32 (x / 2 ^ 5 + l))

-- The `do` loop with `n` rounds left.
unfoldable pub dm_loop : ℕ → Quad → ℕ → ℕ → ℕ → ℕ × ℕ
dm_loop zero a sum b0 b1 = (b0, b1)
dm_loop (suc n) a sum b0 b1 =
    let sum' = u32 (sum + dm_delta) in
    let c0 = u32 (b0 + mix b1 a.w0 a.w1 sum') in
    let c1 = u32 (b1 + mix c0 a.w2 a.w3 sum') in dm_loop n a sum' c0 c1

unfoldable pub dm_round : ℕ → Quad → ℕ × ℕ → ℕ × ℕ
unfolding dm_loop mix
dm_round rounds a (h0, h1) =
    let (b0, b1) = dm_loop rounds a 0 h0 h1 in (u32 (h0 + b0), u32 (h1 + b1))

-- Where the reading stands: the words read through `intmsg`, and the two counters.
pub record Cursor : Type 0 where
  pub word_index : ℕ
  pub full_words : ℕ
  pub full_bytes : ℕ

-- `*intmsg`, little-endian
unfoldable pub load_word : List ℕ → ℕ → Run ℕ
load_word msg i = do
  b0 ← load msg (4 * i)
  b1 ← load msg (4 * i + 1)
  b2 ← load msg (4 * i + 2)
  b3 ← load msg (4 * i + 3)
  ok (b0 + b1 * 2 ^ 8 + b2 * 2 ^ 16 + b3 * 2 ^ 24)

-- A `char` is signed, and is widened with its sign.
abbrev pub widen : ℕ → ℕ
widen c = if ltb c 128 then c else c + (2 ^ 32 - 2 ^ 8)

module _ (msg : List ℕ) where
  -- `word = *intmsg; array[j] = word; intmsg++; full_words--; full_bytes -= 4;`
  unfoldable pub take_word : ℕ → Cursor → Quad → Run (Cursor × Quad)
  unfolding load_word set_word
  take_word j c a = do
    word ← load_word msg c.word_index
    ok (
      record {
        word_index = c.word_index + 1;
        full_words = c.full_words - 1;
        full_bytes = c.full_bytes - 4;
      },
      set_word a j word,
    )

  -- The inner loop over `j` with `left` rounds to go.
  unfoldable pub take_quad : ℕ → ℕ → Cursor → Quad → Run (Cursor × Quad)
  unfolding take_word
  take_quad zero j c a = ok (c, a)
  take_quad (suc left) j c a = do (c', a') ← take_word j c a; take_quad left (j + 1) c' a'

  -- The loop over `i`.
  unfoldable pub quads_loop : ℕ → Cursor → Quad → ℕ × ℕ → Run (Cursor × Quad × (ℕ × ℕ))
  quads_loop zero c a h = ok (c, a, h)
  quads_loop (suc left) c a h = do
    (c', a') ← take_quad 4 0 c a
    quads_loop left c' a' (dm_round part_rounds a' h)

  -- `while (full_bytes) { array[j] <<= 8; array[j] |= msg[len - full_bytes]; full_bytes--; }`
  unfoldable pub pack_bytes : ℕ → ℕ → ℕ → Run ℕ
  pack_bytes len zero word = ok word
  pack_bytes len (suc left) word = do
    c ← load msg (len - suc left)
    pack_bytes len left (bit_or (u32 (word * 2 ^ 8)) (widen c))

  -- The last loop over `j`.
  unfoldable pub tail_loop : ℕ → ℕ → ℕ → ℕ → Cursor → Quad → Run Quad
  unfolding take_word pack_bytes
  tail_loop len pad zero j c a = ok a
  tail_loop len pad (suc left) j c a = do
    (c', a') ←
        (if c.full_words == 0
          then (do
            word ← pack_bytes len c.full_bytes pad
            ok (record c { full_bytes = 0 }, set_word a j word))
          else take_word j c a)
    tail_loop len pad left (j + 1) c' a'

  -- What `array` holds at first is written over before it is read.
  unfoldable pub gfs_hashfn : ℕ → Run ℕ
  gfs_hashfn len = do
    (c, a, h) ←
        quads_loop (len / 16) (record { word_index = 0; full_words = len / 4; full_bytes = len })
          (record { w0 = 0; w1 = 0; w2 = 0; w3 = 0 }) (0x9464a485, 0x542e1a94)
    a' ← tail_loop len (pad_word len) 4 0 c a
    ok (bit_xor (dm_round full_rounds a' h).0 (dm_round full_rounds a' h).1)

  -- The `int` parameter. From a negative length down to -3 the loop over the bytes counts down from
  -- it and does not end, and near the least `int` it overflows; of any other four words are read,
  -- while `full_words` stays below 0.
  unfoldable pub gfs_hashfn_of : ℤ → Run ℕ
  gfs_hashfn_of (ℤ.pos len) = gfs_hashfn len
  gfs_hashfn_of (negsuc k) = if ltb k 3 || ltb (2 ^ 31) (k + 17) then fault else (do
    (c, a) ←
        take_quad 4 0 (record { word_index = 0; full_words = 0; full_bytes = 0 })
          (record { w0 = 0; w1 = 0; w2 = 0; w3 = 0 })
    let h = dm_round full_rounds a (0x9464a485, 0x542e1a94)
    ok (bit_xor h.0 h.1))
