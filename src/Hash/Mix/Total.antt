-- ===== src/Hash/Mix/Total.antt =====
-- `gfs_hashfn` of src/common/hash.c reads only the message and ends with a 32-bit value.
use sample_sds_storage.Base.{
  ℕ, zero, suc, ◌+◌, ◌-◌, ◌*◌, ◌/◌, ◌^◌, ◌≤◌, ◌<◌, bit_or, bit_xor, bit_xor-lt, ◌≡◌, refl, inl, inr,
  List, arith, ◌==◌, Bool-cases, length, get_elem?_lt, ok, load, load-ok,
}
use sample_sds_storage.Hash.Mix.{
  Quad, Cursor, set_word, load_word, take_word, take_quad, quads_loop, pack_bytes, tail_loop,
  pad_word, dm_round, part_rounds, full_rounds, u32, widen, gfs_hashfn,
}

module _ (msg : List ℕ) where
  load_total : (i : ℕ) → i < length msg → (c : ℕ) × (load msg i ≡ ok c)
  load_total i h = let (c, got) = get_elem?_lt msg i h in (c, load-ok msg i got)

  load_word_total : (i : ℕ) → 4 * i + 4 ≤ length msg → (w : ℕ) × (load_word msg i ≡ ok w)
  unfolding load_word
  load_word_total i h =
      let (b0, e0) = load_total (4 * i) (omega arith) in
      let (b1, e1) = load_total (4 * i + 1) (omega arith) in
      let (b2, e2) = load_total (4 * i + 2) (omega arith) in
      let (b3, e3) = load_total (4 * i + 3) (omega arith) in
      (b0 + b1 * 2 ^ 8 + b2 * 2 ^ 16 + b3 * 2 ^ 24, rw (e0, e1, e2, e3) refl)

  module _ (len : ℕ) (fits : len ≤ length msg) where
    -- What has been read and what is left lie in the message, and the counters agree.
    record IsWithin (c : Cursor) : Type 0 where
      inside : 4 * c.word_index + c.full_bytes ≤ len
      words : c.full_words ≡ c.full_bytes / 4

    take_word_total :
        (j : ℕ) (c : Cursor) (a : Quad)
        → IsWithin c
        → 4 ≤ c.full_bytes
        → (c' : Cursor) × (a' : Quad) × (take_word msg j c a ≡ ok (c', a'))
          × IsWithin c'
          × (c'.full_bytes ≡ c.full_bytes - 4)
    unfolding take_word
    take_word_total j c a h some_word =
        let (w, e) = load_word_total c.word_index (omega (arith, h.inside)) in
        (
          record {
            word_index = c.word_index + 1;
            full_words = c.full_words - 1;
            full_bytes = c.full_bytes - 4;
          },
          set_word a j w,
          rw e refl,
          record { inside = omega (arith, h.inside); words = omega (arith, h.words) },
          refl,
        )

    take_quad_total :
        (left j : ℕ) (c : Cursor) (a : Quad)
        → IsWithin c
        → 4 * left ≤ c.full_bytes
        → (c' : Cursor) × (a' : Quad) × (take_quad msg left j c a ≡ ok (c', a'))
          × IsWithin c'
          × (c'.full_bytes ≡ c.full_bytes - 4 * left)
    unfolding take_quad
    take_quad_total zero j c a h enough = (c, a, refl, h, omega arith)
    take_quad_total (suc left) j c a h enough =
        let (c', a', run, h', rest) = take_word_total j c a h (omega arith) in
        let (c'', a'', runs, h'', rest') = take_quad_total left (j + 1) c' a' h' (omega arith) in
        (c'', a'', rw run runs, h'', omega arith)

    quads_loop_total :
        (left : ℕ) (c : Cursor) (a : Quad) (h : ℕ × ℕ)
        → IsWithin c
        → 16 * left ≤ c.full_bytes
        → (c' : Cursor) × (a' : Quad) × (h' : ℕ × ℕ) × (quads_loop msg left c a h ≡ ok (c', a', h'))
          × IsWithin c'
    unfolding quads_loop
    quads_loop_total zero c a h w enough = (c, a, h, refl, w)
    quads_loop_total (suc left) c a h w enough =
        let (c', a', run, w', rest) = take_quad_total 4 0 c a w (omega arith) in
        let (c'', a'', h'', runs, w'') =
          quads_loop_total left c' a' (dm_round part_rounds a' h) w' (omega arith) in
        (c'', a'', h'', rw run runs, w'')

    pack_bytes_total :
        (left word : ℕ) → left ≤ len → (w : ℕ) × (pack_bytes msg len left word ≡ ok w)
    unfolding pack_bytes
    pack_bytes_total zero word h = (word, refl)
    pack_bytes_total (suc left) word h =
        let (c, e) = load_total (len - suc left) (omega arith) in
        let (w, run) =
          pack_bytes_total left (bit_or (u32 (word * 2 ^ 8)) (widen c)) (omega arith) in
        (w, rw e run)

    tail_loop_total :
        (pad left j : ℕ) (c : Cursor) (a : Quad)
        → IsWithin c
        → (a' : Quad) × (tail_loop msg len pad left j c a ≡ ok a')
    unfolding tail_loop
    tail_loop_total pad zero j c a w = (a, refl)
    tail_loop_total pad (suc left) j c a w = elim (Bool-cases (c.full_words == 0)) [
      | inl last ↦
          let (word, e) = pack_bytes_total c.full_bytes pad (omega (arith, w.inside)) in
          let (a', run) =
            tail_loop_total pad left (j + 1) (record c { full_bytes = 0 }) (set_word a j word)
              (record { inside = omega (arith, w.inside); words = ground arith }) in
          (a', rw (last, e) run)
      | inr more ↦
          let (c', a', run, w', rest) = take_word_total j c a w (ground (arith, w.words)) in
          let (a'', runs) = tail_loop_total pad left (j + 1) c' a' w' in (a'', rw (more, run) runs)
    ]

dm_round-lt :
    (rounds : ℕ) (a : Quad) (h : ℕ × ℕ)
    → ((dm_round rounds a h).0 < 2 ^ 32) × ((dm_round rounds a h).1 < 2 ^ 32)
unfolding dm_round
dm_round-lt rounds a h = omega arith

-- `gfs_hashfn` of the first `len` bytes of a message of at least `len` reads nothing else, and
-- its result is below 2 ^ 32.
pub gfs_hashfn-lt :
    (msg : List ℕ) (len : ℕ)
    → len ≤ length msg
    → (v : ℕ) × (gfs_hashfn msg len ≡ ok v) × (v < 2 ^ 32)
unfolding gfs_hashfn
gfs_hashfn-lt msg len fits =
    let (c, a, h, run, within) =
      quads_loop_total msg len fits (len / 16)
        (record { word_index = 0; full_words = len / 4; full_bytes = len })
        (record { w0 = 0; w1 = 0; w2 = 0; w3 = 0 }) (0x9464a485, 0x542e1a94)
        (record { inside = omega arith; words = refl }) (omega arith) in
    let (a', runs) = tail_loop_total msg len fits (pad_word len) 4 0 c a within in
    let bound = dm_round-lt full_rounds a' h in
    (
      bit_xor (dm_round full_rounds a' h).0 (dm_round full_rounds a' h).1,
      rw (run, runs) refl,
      bit_xor-lt 32 (dm_round full_rounds a' h).0 (dm_round full_rounds a' h).1 bound.0 bound.1,
    )
