-- ===== src/Hash/Jump.antt =====
-- `hash_jump_consistent` of src/common/hash.c: it ends, its result is a bucket, and one more
-- bucket moves a key only to the new one.
use mathlib.Core.Option
use sample_sds_storage.Base.{
  ℕ, zero, suc, ◌+◌, ◌*◌, ◌/◌, ◌%◌, ◌^◌, ◌≤◌, ◌<◌, ◌≡◌, refl, ◌∙◌, ap, ◌⊎◌, inl, inr, Option, none,
  some, arith, ltb, lt→ltb, le→ltb, Bool-cases, if◌then◌else◌, ℤ, pos, negsuc,
}
use sample_sds_storage.Hash.Double.{Double}

-- `key * 2862933555777941757ULL + 1`
abbrev pub next_key : ℕ → ℕ
next_key key = (key * 2862933555777941757 + 1) % 2 ^ 64

-- `b < 0 ? ~b + 1 : b`, as a `uint32_t`
abbrev pub bucket_of : ℤ → ℕ
bucket_of (pos n) = n % 2 ^ 32
bucket_of (negsuc n) = (n + 1) % 2 ^ 32

-- A negative number of buckets is below every `j`.
abbrev pub limit : ℤ → ℕ
limit (pos n) = n
limit (negsuc n) = 0

module _ (d : Double) where
  open d use {of_int, div, mul, to_int, one-le-div, le-mul, le-to_int}

  -- `(b + 1) * ((double)(1LL << 31) / (double)((key >> 33) + 1))`
  next_jump : ℕ → ℕ → ℕ
  next_jump key b =
      to_int (mul (of_int (b + 1)) (div (of_int (2 ^ 31)) (of_int (key / 2 ^ 33 + 1))))

  -- The loop with its fuel; `none` means that the fuel ran out.
  jump_loop : ℕ → ℕ → ℤ → ℕ → ℕ → Option ℤ
  unfolding next_jump
  jump_loop zero key b j n = if ltb j n then none else some b
  jump_loop (suc fuel) key b j n =
      let rest = jump_loop fuel (next_key key) (pos j) (next_jump (next_key key) j) n in
      if ltb j n then rest else some b

  unfoldable pub hash_jump_consistent : ℕ → ℤ → Option ℕ
  unfolding jump_loop
  hash_jump_consistent key num_buckets =
      Option.map bucket_of (jump_loop (limit num_buckets) key (negsuc 0) 0 (limit num_buckets))

  next_jump-gt : (key b : ℕ) → b < 2 ^ 31 → b < next_jump (next_key key) b
  unfolding next_jump
  next_jump-gt key b h =
      let k = next_key key / 2 ^ 33 + 1 in
      let q = div (of_int (2 ^ 31)) (of_int k) in
      let least : b + 1 ≤ to_int (mul (of_int (b + 1)) q) =
        le-to_int (b + 1) (mul (of_int (b + 1)) q) (omega arith) (
          le-mul (b + 1) q (omega arith)
            (one-le-div (2 ^ 31) k (omega arith) (omega arith) (omega arith))) in
      omega arith

  -- From `j` within `fuel` of the end the loop ends; it ends with `b` or with a later bucket.
  jump_loop-total :
      (fuel key : ℕ) (b : ℤ) (j n : ℕ)
      → n ≤ j + fuel
      → n < 2 ^ 31
      → (r : ℤ) × (jump_loop fuel key b j n ≡ some r)
        × ((r ≡ b) × (n ≤ j) ⊎ ((c : ℕ) × (r ≡ pos c) × (c < n)))
  unfolding jump_loop
  jump_loop-total zero key b j n h small =
      (b, rw (le→ltb j n (omega arith)) refl, inl (refl, omega arith))
  jump_loop-total (suc fuel) key b j n h small = elim (Bool-cases (ltb j n)) [
    | inl more ↦
        let below : j < n = ground arith in
        let further = next_jump-gt key j (omega arith) in
        let (r, run, last) =
          jump_loop-total fuel (next_key key) (pos j) (next_jump (next_key key) j) n (omega arith)
            small in
        (r, rw more run, inr (elim last [ inl (same, _) ↦ (j, same, below) | inr later ↦ later ]))
    | inr ended ↦ (b, rw ended refl, inl (refl, ground arith))
  ]

  -- With at least one bucket the loop ends within as many rounds as there are buckets, and the
  -- result is a bucket.
  pub hash_jump_consistent-lt :
      (key n : ℕ)
      → 0 < n
      → n < 2 ^ 31
      → (v : ℕ) × (hash_jump_consistent key (pos n) ≡ some v) × (v < n)
  unfolding hash_jump_consistent
  hash_jump_consistent-lt key n some_bucket small =
      let (r, run, last) = jump_loop-total n key (negsuc 0) 0 n (omega arith) small in
      elim last [
        | inl (_, none_left) ↦ absurd (omega arith)
        | inr (c, e, below) ↦
            let m : c % 2 ^ 32 ≡ c = omega arith in (c, rw (run, e) (ap some m), below)
      ]

  -- With no bucket, or a negative number of them, the result is 1, which is no bucket.
  pub hash_jump_consistent_none :
      (key : ℕ) (num_buckets : ℤ)
      → limit num_buckets ≡ 0
      → hash_jump_consistent key num_buckets ≡ some 1
  unfolding hash_jump_consistent
  hash_jump_consistent_none key num_buckets e = rw e refl

  jump_loop-ended : (fuel key : ℕ) (b : ℤ) (j n : ℕ) → n ≤ j → jump_loop fuel key b j n ≡ some b
  unfolding jump_loop
  jump_loop-ended zero key b j n h = rw (le→ltb j n h) refl
  jump_loop-ended (suc fuel) key b j n h = rw (le→ltb j n h) refl

  jump_loop-suc :
      (fuel key : ℕ) (b : ℤ) (j n : ℕ)
      → n ≤ j + fuel
      → n < 2 ^ 31
      → (jump_loop (suc fuel) key b j (suc n) ≡ jump_loop fuel key b j n)
        ⊎ (jump_loop (suc fuel) key b j (suc n) ≡ some (pos n))
  unfolding jump_loop
  jump_loop-suc zero key b j n h small = elim (Bool-cases (ltb j (suc n))) [
    | inl last ↦
        let e : j ≡ n = ground arith in
        let further = next_jump-gt key j (omega arith) in
        inr (
          rw (last, le→ltb (next_jump (next_key key) j) (suc n) (omega arith))
            (ap (λ k. some (pos k)) e))
    | inr ended ↦ inl (rw (ended, le→ltb j n (omega arith)) refl)
  ]
  jump_loop-suc (suc fuel) key b j n h small = elim (Bool-cases (ltb j n)) [
    | inl more ↦
        let further = next_jump-gt key j (ground arith) in
        rw (more, lt→ltb j (suc n) (ground arith))
          (jump_loop-suc fuel (next_key key) (pos j) (next_jump (next_key key) j) n (omega arith)
            small)
    | inr ended ↦ elim (Bool-cases (ltb j (suc n))) [
      | inl last ↦
          let e : j ≡ n = ground arith in
          let further = next_jump-gt key j (omega arith) in
          inr (
            rw last (
              jump_loop-ended (suc fuel) (next_key key) (pos j) (next_jump (next_key key) j) (suc n)
                (omega arith)
              ∙ ap (λ k. some (pos k)) e))
      | inr past ↦ inl (rw (past, ended) refl)
    ]
  ]

  -- With one bucket more, a key stays in its bucket or moves to the new one.
  pub hash_jump_consistent-suc :
      (key n : ℕ)
      → n < 2 ^ 31
      → (hash_jump_consistent key (pos (suc n)) ≡ hash_jump_consistent key (pos n))
        ⊎ (hash_jump_consistent key (pos (suc n)) ≡ some n)
  unfolding hash_jump_consistent
  hash_jump_consistent-suc key n small =
      elim (jump_loop-suc n key (negsuc 0) 0 n (omega arith) small) [
        | inl same ↦ inl (ap (Option.map bucket_of) same)
        | inr new ↦
            let m : n % 2 ^ 32 ≡ n = omega arith in inr (ap (Option.map bucket_of) new ∙ ap some m)
      ]
