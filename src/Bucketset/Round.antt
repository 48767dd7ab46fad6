-- ===== src/Bucketset/Round.antt =====
-- `bucketset_hash_range_round` of src/server/bucketset.c.
use sample_sds_storage.Base.{
  int_max, ℕ, zero, suc, ◌+◌, ◌-◌, ◌*◌, ◌/◌, ◌%◌, ◌^◌, ◌≤◌, ◌<◌, ◌≡◌, refl, inl, inr, some, arith,
  ltb, le→ltb, Bool-cases, ok, fault,
}
use sample_sds_storage.Bucketset.{round_loop, bucketset_hash_range_round}

round_loop-ok :
    (fuel i base : ℕ)
    → i + fuel ≡ base / 512 + 2
    → 0 < fuel
    → base < (2 ^ 22 - 1) * 512
    → round_loop fuel i base ≡ ok (some ((base / 512 + 1) * 512))
unfolding round_loop
round_loop-ok zero i base e pos small = absurd (omega arith)
round_loop-ok (suc fuel) i base e pos small = elim (Bool-cases (ltb base (i * 512))) [
  | inl above ↦
      let past : base < i * 512 = ground arith in
      let last : i ≡ base / 512 + 1 = omega arith in
      rw (le→ltb int_max (i * 512) (omega arith), above, last) refl
  | inr below ↦
      let before : i * 512 ≤ base = ground arith in
      rw (le→ltb int_max (i * 512) (omega arith), below)
        (round_loop-ok fuel (i + 1) base (omega arith) (omega arith) small)
]

round_loop-fault :
    (fuel i base : ℕ)
    → i + fuel ≡ base / 512 + 2
    → i ≤ 2 ^ 22
    → (2 ^ 22 - 1) * 512 ≤ base
    → round_loop fuel i base ≡ fault
unfolding round_loop
round_loop-fault zero i base e h large = absurd (omega arith)
round_loop-fault (suc fuel) i base e h large = elim (Bool-cases (ltb int_max (i * 512))) [
  | inl overflow ↦ rw overflow refl
  | inr fits ↦
      let below : i * 512 ≤ int_max = ground arith in
      rw (fits, le→ltb base (i * 512) (omega arith))
        (round_loop-fault fuel (i + 1) base (omega arith) (omega arith) large)
]

-- Below 2147483136 the range is rounded to the next multiple of 512 above it, at most 512 more,
-- and the loop ends within the fuel given.
pub bucketset_hash_range_round-least :
    (base : ℕ)
    → base < (2 ^ 22 - 1) * 512
    → (v : ℕ) × (bucketset_hash_range_round base ≡ ok (some v))
      × (v % 512 ≡ 0)
      × (base < v)
      × (v ≤ base + 512)
unfolding bucketset_hash_range_round
bucketset_hash_range_round-least base small = (
  (base / 512 + 1) * 512,
  round_loop-ok (base / 512 + 1) 1 base (omega arith) (omega arith) small,
  omega arith,
  omega arith,
  omega arith,
)

-- From 2147483136 on the product of `int`s in the loop overflows before a multiple is found.
pub bucketset_hash_range_round_overflow :
    (base : ℕ) → (2 ^ 22 - 1) * 512 ≤ base → bucketset_hash_range_round base ≡ fault
unfolding bucketset_hash_range_round
bucketset_hash_range_round_overflow base large =
    round_loop-fault (base / 512 + 1) 1 base (omega arith) (omega arith) large
