-- ===== src/Log/Digits.antt =====
-- `_safe_utoa` and `_safe_itoa` of src/server/log.c, which write a number backwards into a buffer.
use sample_sds_storage.Base.{
  ℕ, zero, suc, ◌+◌, ◌-◌, ◌/◌, ◌%◌, ◌^◌, List, [], ◌∷◌, ◌++◌, ◌&&◌, leb, ◌==◌, if◌then◌else◌, ℤ,
  pos, negsuc, length, map, replicate, Run, ok, fault, ◌>>=◌, load,
}

-- `char hex[] = "0123456789abcdef"`
abbrev pub hex : List ℕ
hex =
    b'0' ∷ b'1' ∷ b'2' ∷ b'3' ∷ b'4' ∷ b'5' ∷ b'6' ∷ b'7' ∷ b'8' ∷ b'9' ∷ b'a' ∷ b'b' ∷ b'c' ∷ b'd'
    ∷ b'e' ∷ b'f' ∷ 0 ∷ []

-- The cells of the buffer at the pointer and below it, and the bytes above it.
abbrev pub Back : Type 0
Back = ℕ × List ℕ

-- `*buf-- = c`
unfoldable pub put_back : ℕ → Back → Run Back
put_back c (zero, out) = fault
put_back c (suc room, out) = ok (room, c ∷ out)

-- `do { *buf-- = hex[val % base]; } while ((val /= base) != 0)`; each round takes a cell. The
-- callers' bases are 10 and 16.
unfoldable pub digits_loop : (base val room : ℕ) → List ℕ → Run Back
digits_loop base val zero out = do c ← load hex (val % base); put_back c (zero, out)
digits_loop base val (suc room) out = do
  c ← load hex (val % base)
  let rest = digits_loop base (val / base) room (c ∷ out)
  if val / base == 0 then ok (room, c ∷ out) else rest

-- `room` is the number of cells up to the last one of the buffer, where the NUL goes.
unfoldable pub safe_utoa : (base val room : ℕ) → Run Back
safe_utoa base val room = do (left, out) ← put_back 0 (room, []); digits_loop base val left out

-- `buf[-ix] = '0'` for `ix` below 16: the cells must be there.
unfoldable pub zeros_back : Back → Run Back
zeros_back (room, out) = if leb 16 room then ok (room, out) else fault

-- The `switch` on a digit.
unfoldable pub flip_digit : ℕ → ℕ
flip_digit c =
    if leb b'0' c && leb c b'5'
    then b'f' - (c - b'0')
    else if leb b'6' c && leb c b'9'
    then b'9' - (c - b'6')
    else if leb b'a' c && leb c b'f'
    then b'5' - (c - b'a')
    else c

-- The last loop over the 16 cells below the NUL, with what `zeros_back` left in those that the
-- digits did not take. The pointer ends below them.
unfoldable pub flip_back : (room : ℕ) → List ℕ → Back
flip_back room digits =
    (room - 16, map flip_digit (replicate (16 - length digits) b'0' ++ digits) ++ 0 ∷ [])

-- The digits before the NUL.
abbrev pub before_nul : List ℕ → List ℕ
before_nul [] = []
before_nul (c ∷ cs) = let rest = before_nul cs in if c == 0 then [] else c ∷ rest

-- A negative `val` is -(n + 1); the least one of 64 bits has no negation.
unfoldable pub safe_itoa : (base : ℕ) → ℤ → (room : ℕ) → Run Back
safe_itoa base (pos val) room = do
  (left, out) ← put_back 0 (room, [])
  digits_loop base val left out
safe_itoa base (negsuc n) room = do
  (left, out) ← put_back 0 (room, [])
  if n == 2 ^ 63 - 1
      then fault
      else if base == 16
      then (do
        (cells, zeros) ← zeros_back (left, out)
        (_, digits) ← digits_loop base n cells zeros
        ok (flip_back left (before_nul digits)))
      else (do
        back ← digits_loop base (n + 1) left out
        if base == 10 then put_back b'-' back else ok back)
