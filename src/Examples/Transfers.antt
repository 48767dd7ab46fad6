-- ===== src/Examples/Transfers.antt =====
-- The loops of src/common/utils.c and src/server/bucket_store.c, and the hashes of
-- src/common/hash.c, at concrete inputs.
use native.Mathlib.Nat.{div-add-mod, mod-lt}
use native.Mathlib.Decide.{dec_le}
use mathlib.Core.List.{map}
use sample_sds_storage.Base.{
  ℕ, ◌*◌, ◌/◌, ◌^◌, ◌≤◌, ◌<◌, ◌≡◌, refl, ap, ◌⊎◌, some, List, [], ◌∷◌, ◌++◌, arith, pos, length,
  take, ok,
}
use sample_sds_storage.Utils.{interrupted, got, failed, Write, took, refused, read_n, write_n}
use sample_sds_storage.Utils.Transfer.{IsSent, write_n-IsSent, write_n_all}
use sample_sds_storage.Utils.Receive.{joined, read_n-joined, read_n_short}
use sample_sds_storage.Hash.Double.{Double}
use sample_sds_storage.Hash.Jump.{
  hash_jump_consistent, hash_jump_consistent-lt, hash_jump_consistent-suc,
}
use sample_sds_storage.Hash.Mix.{gfs_hashfn}
use sample_sds_storage.Hash.Mix.Total.{gfs_hashfn-lt}

abbrev message : List ℕ
message = 10 ∷ 20 ∷ 30 ∷ 40 ∷ 50 ∷ []

-- Two bytes, an interrupt, then all that is left.
abbrev calls : List Write
calls = took 2 ∷ refused interrupted ∷ took 9 ∷ refused 32 ∷ []

sent_run : write_n calls message 5 ≡ ok (some (pos 5, message, refused 32 ∷ []))
unfolding write_n
sent_run = refl

write_n-IsSent_example : IsSent message 5 (pos 5, message, refused 32 ∷ [])
write_n-IsSent_example = write_n-IsSent message 5 (omega arith) (omega arith) calls sent_run

abbrev willing_calls : List Write
willing_calls = took 2 ∷ refused interrupted ∷ took 9 ∷ []

write_n_all_example :
    (rest : List Write) × (write_n willing_calls message 5
      ≡ ok (some (pos 5, take 5 message, rest)))
write_n_all_example =
    write_n_all message 5 (omega arith) (omega arith) willing_calls
      (omega arith, (refl, (omega arith, tt))) (omega arith)

abbrev chunks : List (List ℕ)
chunks = (10 ∷ 20 ∷ []) ∷ (30 ∷ []) ∷ []

read_n-joined_example :
    read_n (map got chunks ++ failed 9 ∷ []) 3 ≡ some (pos 3, joined chunks, failed 9 ∷ [])
read_n-joined_example =
    read_n-joined 3 (omega arith) chunks (failed 9 ∷ []) (omega arith, (omega arith, tt)) refl

read_n_short_example :
    (read_n (map got chunks ++ got [] ∷ []) 8
      ≡ some (pos (length (joined chunks)), joined chunks, []))
    × ((errno : ℕ)
        → read_n (map got chunks ++ failed errno ∷ []) 8
          ≡ some (pos (length (joined chunks)), joined chunks, []))
read_n_short_example =
    read_n_short 8 (omega arith) chunks [] (omega arith, (omega arith, tt)) (omega arith)

pub quotient_pos : (a b : ℕ) → 0 < b → b ≤ a → 1 ≤ a / b
quotient_pos a b some_b h = elim (dec_le 1 (a / b)) [
  | yes p ↦ p
  | no p ↦
      let e : a / b ≡ 0 = omega arith in
      let product : b * (a / b) ≡ b * 0 = ap (λ (q : ℕ). b * q) e in
      absurd (omega (arith, div-add-mod a b, mod-lt a some_b, product))
]

pub product_le : (n q : ℕ) → 1 ≤ q → n ≤ n * q
product_le n q h = let e : n * 1 ≤ n * q = grind arith in omega arith

-- Numbers in place of `double`s.
abbrev pub whole_numbers : Double
whole_numbers = record {
  Value = ℕ;
  of_int = λ n. n;
  div = λ a b. a / b;
  mul = λ a b. a * b;
  to_int = λ x. x;
  Le = λ a b. a ≤ b;
  one-le-div = λ a b some_b h small. quotient_pos a b some_b h;
  le-mul = λ n q small h. product_le n q h;
  le-to_int = λ n x small h. h;
}

hash_jump_consistent-lt_example :
    (v : ℕ) × (hash_jump_consistent whole_numbers 77 (pos 3) ≡ some v) × (v < 3)
hash_jump_consistent-lt_example =
    hash_jump_consistent-lt whole_numbers 77 3 (omega arith) (omega arith)

hash_jump_consistent-suc_example :
    (hash_jump_consistent whole_numbers 77 (pos 3) ≡ hash_jump_consistent whole_numbers 77 (pos 2))
    ⊎ (hash_jump_consistent whole_numbers 77 (pos 3) ≡ some 2)
hash_jump_consistent-suc_example = hash_jump_consistent-suc whole_numbers 77 2 (omega arith)

gfs_hashfn-lt_example : (v : ℕ) × (gfs_hashfn message 5 ≡ ok v) × (v < 2 ^ 32)
gfs_hashfn-lt_example = gfs_hashfn-lt message 5 (omega arith)
