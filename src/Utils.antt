-- ===== src/Utils.antt =====
-- src/common/utils.c: `parse_file_name`, and the loops around `read` and `write`; the address of a
-- peer in a module of its own.
pub mod Address
pub mod FileName
pub mod Receive
pub mod Transfer
use sample_sds_storage.Base.{
  ℕ, zero, suc, ◌+◌, ◌-◌, ◌%◌, ◌^◌, Bool, true, false, Option, none, some, List, [], ◌∷◌, ◌++◌, ltb,
  ◌==◌, if◌then◌else◌, ℤ, pos, negsuc, success, failure, int32, int_max, to_size, length, take,
  drop, min, Run, ok, fault, ◌>>=◌,
}
use sample_sds_storage.Slice.{Slice, slice_init}
use sample_sds_storage.Slice.Strings.{CharPtr, null, at, wild, is_null, c_string}

-- The loop over `base`: `pos` ends behind the last `/`. The two are `int`s, of which `index` must
-- not pass the largest.
unfoldable pub name_position : List ℕ → ℕ → ℕ → Run ℕ
name_position [] index position = ok position
name_position (c ∷ base) index position =
    let rest = name_position base (index + 1) (if c == b'/' then index + 1 else position) in
    if ltb index int_max then rest else fault

-- `path + n`
unfoldable pub advance : ℕ → CharPtr → CharPtr
advance n (at bs) = at (drop n bs)
advance n path = path

-- What `slice_init` returns is not looked at.
unfoldable pub parse_file_name :
    (strdup : ℕ → Bool) → Option Slice → CharPtr → Run (ℤ × Option Slice)
unfolding name_position advance
parse_file_name strdup none path = ok (failure, none)
parse_file_name strdup (some se) path = if is_null path then ok (failure, some se) else (do
  base ← c_string path
  position ← name_position base 0 0
  (_, named) ← slice_init strdup (some se) (advance position path)
  ok (success, named))

-- EINTR
abbrev pub interrupted : ℕ
interrupted = 4

-- What one call of `read` does: it delivers bytes (none at the end of the file) or fails with an
-- `errno`. It delivers no more than was asked for.
pub data Read : Type 0 where
  got : List ℕ → Read
  failed : ℕ → Read

-- What one call of `write` does: it takes some of the bytes offered, or fails with an `errno`.
pub data Write : Type 0 where
  took : ℕ → Write
  refused : ℕ → Write

-- `readn` is an `int`; compared with a `size_t` it is converted.
abbrev pub below : ℤ → ℕ → Bool
below n len = ltb (to_size n) len

-- `r == EINTR`
abbrev pub is_interrupted : ℤ → Bool
is_interrupted (pos n) = n == interrupted
is_interrupted (negsuc n) = false

-- `chunk` in place of what is stored from `n` on.
abbrev pub place_at : (n : ℕ) (chunk stored : List ℕ) → List ℕ
place_at n chunk stored = take n stored ++ (chunk ++ drop (n + length chunk) stored)

-- `readn` is also where the next bytes go. The bytes stored so far, and what is left of the calls'
-- behaviours; `none` means that the behaviours given have been used up and the loop still waits.
unfoldable pub read_loop : List Read → ℕ → ℤ → List ℕ → Option (ℤ × List ℕ × List Read)
read_loop [] len readn stored = if below readn len then none else some (readn, stored, [])
read_loop (got bs ∷ calls) len readn stored =
    let chunk = take (len - to_size readn) bs in
    let more =
      read_loop calls len (int32 (to_size readn + length chunk))
        (place_at (to_size readn) chunk stored) in
    if below readn len
    then (if length chunk == 0 then some (readn, stored, calls) else more)
    else some (readn, stored, got bs ∷ calls)
read_loop (failed errno ∷ calls) len readn stored =
    let retry = read_loop calls len readn stored in
    let r : ℤ = negsuc 0 in
    if below readn len
    then (if is_interrupted r then retry else some (readn, stored, calls))
    else some (readn, stored, failed errno ∷ calls)

unfoldable pub read_n : List Read → ℕ → Option (ℤ × List ℕ × List Read)
unfolding read_loop
read_n calls len = read_loop calls len (pos 0) []

-- `sent` is what the descriptor has taken; `writen` counts it in an `int`, and is also where in the
-- buffer the next bytes are.
unfoldable pub write_loop : List Write → List ℕ → ℕ → ℤ → List ℕ → Option (ℤ × List ℕ × List Write)
write_loop [] buffer len writen sent = if below writen len then none else some (writen, sent, [])
write_loop (took w ∷ calls) buffer len writen sent =
    let chunk = take (min w (len - to_size writen)) (drop (to_size writen) buffer) in
    let more =
      write_loop calls buffer len (int32 (to_size writen + length chunk)) (sent ++ chunk) in
    if below writen len
    then (if length chunk == 0 then some (writen, sent, calls) else more)
    else some (writen, sent, took w ∷ calls)
write_loop (refused errno ∷ calls) buffer len writen sent =
    let retry = write_loop calls buffer len writen sent in
    if below writen len
    then (if errno == interrupted then retry else some (writen, sent, calls))
    else some (writen, sent, refused errno ∷ calls)

-- To offer more bytes than the buffer has is undefined.
unfoldable pub write_n : List Write → List ℕ → ℕ → Run (Option (ℤ × List ℕ × List Write))
unfolding write_loop
write_n calls buffer len =
    if ltb (length buffer) len then fault else ok (write_loop calls buffer len (pos 0) [])
