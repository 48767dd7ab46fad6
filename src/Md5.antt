-- ===== src/Md5.antt =====
-- src/common/md5.c: the MD5 digest of a string and of a file.
pub mod Blocks
pub mod Buffer
pub mod Stream
pub mod Digest
pub mod Transform
pub mod Words
use Transform.{
  u32, complement, mix_f, mix_g, mix_h, mix_i, rotate_left, State, initial, word_at, step, steps,
  round1, round2, round3, round4, md5_decode, md5_encode, md5_transform,
}
use Prim.Native.Nat.{bit_and}
use mathlib.Core.List.{map}
use mathlib.Core.Option
use sample_sds_storage.Base.{
  ℕ, zero, suc, ◌+◌, ◌-◌, ◌*◌, ◌/◌, ◌%◌, ◌^◌, bit_or, bit_xor, Bool, true, false, Option, none,
  some, List, [], ◌∷◌, ◌++◌, ltb, leb, ◌==◌, if◌then◌else◌, ℤ, success, failure, length, take, drop,
  replicate,
}

infixl 5 ◌>>=◌
abbrev pub ◌>>=◌ : {A B : Type 0} → Option A → (A → Option B) → Option B
none >>= f = none
some a >>= f = f a

pub record Context : Type 0 where
  pub count0 : ℕ
  pub count1 : ℕ
  pub state : State
  pub buffer : List ℕ

abbrev pub padding : List ℕ
padding = 0x80 ∷ replicate 63 0

-- What the buffer holds is left as it was.
unfoldable pub md5_init : List ℕ → Context
md5_init buffer = record { count0 = 0; count1 = 0; state = initial; buffer = buffer }

-- `memcpy(&buffer[index], input, length input)`
abbrev pub copy_at : ℕ → List ℕ → List ℕ → List ℕ
copy_at index input buffer = take index buffer ++ input ++ drop (index + length input) buffer

-- The loop of `md5_update` from `i`, on fuel: where it ends, and the state there.
unfoldable pub update_loop : ℕ → ℕ → List ℕ → State → Option (ℕ × State)
update_loop zero i input st = none
update_loop (suc fuel) i input st =
    let rest = update_loop fuel (u32 (i + 64)) input (md5_transform st (take 64 (drop i input))) in
    if leb (u32 (i + 64)) (length input) then rest else some (i, st)

-- `(count[0] >> 3) & 0x3F`
abbrev pub index_of : Context → ℕ
index_of ctx = ctx.count0 / 8 % 64

-- The two words count the bits of the message.
unfoldable pub add_count : ℕ → Context → Context
add_count inputlen ctx =
    let low = u32 (ctx.count0 + u32 (inputlen * 2 ^ 3)) in
    let carried = if ltb low (u32 (inputlen * 2 ^ 3)) then u32 (ctx.count1 + 1) else ctx.count1 in
    record ctx { count0 = low; count1 = u32 (carried + inputlen / 2 ^ 29) }

-- `inputlen` is the length of `input`. Each round of the loop takes 64 bytes, so the length and
-- one more is fuel enough where `i + 64` does not overflow.
unfoldable pub md5_update : Context → List ℕ → Option Context
md5_update ctx input =
    let index = index_of ctx in
    let partlen = 64 - index in
    let counted = add_count (length input) ctx in
    let block = copy_at index (take partlen input) ctx.buffer in
    if leb partlen (length input)
    then Option.map
        (λ (i, st). record counted { state = st; buffer = copy_at 0 (drop i input) block })
        (update_loop (suc (length input)) partlen input (md5_transform ctx.state block))
    else some (record counted { buffer = copy_at index input ctx.buffer })

-- `(index < 56) ? (56 - index) : (120 - index)`
abbrev pub padlen_of : ℕ → ℕ
padlen_of index = if ltb index 56 then 56 - index else 120 - index

unfoldable pub md5_final : Context → Option (List ℕ)
md5_final ctx = do
  padded ← md5_update ctx (take (padlen_of (index_of ctx)) padding)
  ended ← md5_update padded (md5_encode (ctx.count0 ∷ ctx.count1 ∷ []))
  some (md5_encode (ended.state.a ∷ ended.state.b ∷ ended.state.c ∷ ended.state.d ∷ []))

-- A digit of `"%02x"`
abbrev pub hex_digit : ℕ → ℕ
hex_digit n = if ltb n 10 then b'0' + n else b'a' + (n - 10)

-- The loop over `md5_value`; the NUL behind the last digits is left out.
unfoldable pub to_hex : List ℕ → List ℕ
to_hex [] = []
to_hex (byte ∷ md5_value) = hex_digit (byte / 16) ∷ hex_digit (byte % 16) ∷ to_hex md5_value

-- `buffer` is what the context on the stack holds at first.
unfoldable pub md5_string : List ℕ → List ℕ → Option (List ℕ)
md5_string buffer input = do
  ctx ← md5_update (md5_init buffer) input
  md5_value ← md5_final ctx
  some (to_hex md5_value)

abbrev pub read_size : ℕ
read_size = 4096

-- The loop of `md5_file` over what each `read` delivers, or `none` for a failure; the outer
-- `none` means that a loop still waits, and the inner one that -1 is returned.
unfoldable pub file_loop : List (Option (List ℕ)) → Context → Option (Option Context)
file_loop [] ctx = none
file_loop (none ∷ reads) ctx = some none
file_loop (some bytes ∷ reads) ctx = do
  ctx' ← md5_update ctx (take read_size bytes)
  let rest = file_loop reads ctx'
  if ltb (length (take read_size bytes)) read_size then some (some ctx') else rest

unfoldable pub md5_file : (opened : Bool) → List (Option (List ℕ)) → List ℕ → Option (ℤ × List ℕ)
md5_file false reads buffer = some (failure, [])
md5_file true reads buffer = do
  read ← file_loop reads (md5_init buffer)
  elim read [
    | none ↦ some (failure, [])
    | some ctx ↦ do md5_value ← md5_final ctx; some (success, to_hex md5_value)
  ]
