-- ===== src/Log/Format.antt =====
-- `_safe_check_longlong`, `_safe_vsnprintf` and `_safe_snprintf` of src/server/log.c, on LP64.
use sample_sds_storage.Base.{
  ℕ, zero, suc, ◌-◌, ◌%◌, ◌^◌, Bool, true, false, not, List, [], ◌∷◌, ◌++◌, ◌&&◌, ◌||◌, ltb, ◌==◌,
  if◌then◌else◌, ℤ, pos, negsuc, int32, length, drop, Run, ok, fault, ◌>>=◌,
}
use sample_sds_storage.Slice.Strings.{CharPtr, at, is_null}
use sample_sds_storage.Log.Digits.{safe_utoa, safe_itoa}

-- An argument of a variadic call: the pattern of an integer of 32 or 64 bits (a pointer for `%p`
-- is one of 64), or a string.
pub data Arg : Type 0 where
  word : ℕ → Arg
  long_word : ℕ → Arg
  string : CharPtr → Arg

-- `(int64_t)n`
abbrev pub int64 : ℕ → ℤ
int64 n = let low = n % 2 ^ 64 in if ltb low (2 ^ 63) then pos low else negsuc (2 ^ 64 - low - 1)

abbrev pub is_negative : ℤ → Bool
is_negative (pos n) = false
is_negative (negsuc n) = true

-- `va_arg` of an integer: an argument of another type, or none, is undefined.
unfoldable pub integer_arg : (have_longlong : Bool) → List Arg → Run (ℕ × List Arg)
integer_arg false (word w ∷ args) = ok (w, args)
integer_arg true (long_word w ∷ args) = ok (w, args)
integer_arg have_longlong args = fault

unfoldable pub string_arg : List Arg → Run (CharPtr × List Arg)
string_arg (string p ∷ args) = ok (p, args)
string_arg args = fault

-- `sizeof(buff)`
abbrev pub buff_size : ℕ
buff_size = 22

abbrev pub is_hex : ℕ → Bool
is_hex format = format == b'x' || format == b'p'

-- `val_as_str`: the bytes of `buff` from the text on. Without `ll` a negative `x` leaves out 8.
unfoldable pub number_text : (format : ℕ) (have_longlong : Bool) → ℕ → Run (List ℕ)
number_text format have_longlong w =
    let base = if is_hex format then 16 else 10 in
    let ival = if have_longlong then int64 w else int32 w in
    if format == b'u' then (do (_, val_as_str) ← safe_utoa base w buff_size; ok val_as_str) else (do
      (_, val_as_str) ← safe_itoa base ival buff_size
      ok (
          if format == b'x' && not have_longlong && is_negative ival
          then drop 8 val_as_str
          else val_as_str))

-- `while (*val && to < end) *to++ = *val++`, with `space` bytes up to `end`: the bytes copied.
unfoldable pub copy_string : (space : ℕ) → List ℕ → Run (List ℕ)
copy_string space [] = fault
copy_string zero (c ∷ val) = ok []
copy_string (suc space) (c ∷ val) =
    let rest = copy_string space val in if c == 0 then ok [] else (do cs ← rest; ok (c ∷ cs))

abbrev pub null_text : List ℕ
null_text = b'(' ∷ b'n' ∷ b'u' ∷ b'l' ∷ b'l' ∷ b')' ∷ 0 ∷ []

-- The memory that `%s` reads.
abbrev pub string_memory : CharPtr → Run (List ℕ)
string_memory (at bs) = ok bs
string_memory p = if is_null p then ok null_text else fault

abbrev pub is_number : ℕ → Bool
is_number format =
    format == b'd' || format == b'i' || format == b'u' || format == b'x' || format == b'p'

-- The `switch` on the conversion: what it writes, and the arguments it leaves.
unfoldable pub conversion :
    (format : ℕ) (have_longlong : Bool) → List Arg → (space : ℕ) → Run (List ℕ × List Arg)
conversion format have_longlong args space =
    let wide = format == b'p' || have_longlong in
    if is_number format
    then (do
      (w, left) ← integer_arg wide args
      val_as_str ← number_text format wide w
      cs ← copy_string space val_as_str
      ok (cs, left))
    else if format == b's'
    then (do
      (p, left) ← string_arg args
      val ← string_memory p
      cs ← copy_string space val
      ok (cs, left))
    else ok ([], args)

-- Where `format` stands: at a character of the loop, behind `%`, or behind the `l` or the `ll`
-- that `_safe_check_longlong` has read.
pub data Spot : Type 0 where
  ordinary : Spot
  percent : Spot
  one_l : Spot
  two_l : Spot

-- `*have_longlong`, as `_safe_check_longlong` leaves it.
abbrev pub longlong_at : Spot → Bool
longlong_at one_l = true
longlong_at two_l = true
longlong_at spot = false

-- `_safe_check_longlong` at a byte: the spot behind the `l` it skips, or none where it stays.
abbrev pub skips_l : Spot → ℕ → Bool
skips_l percent c = c == b'l'
skips_l one_l c = c == b'l'
skips_l spot c = false

abbrev pub behind_l : Spot → Spot
behind_l percent = one_l
behind_l spot = two_l

-- The loop of `_safe_vsnprintf`, with `space` bytes up to `end`: what it writes. A conversion that
-- the `switch` does not know is skipped, a NUL behind `%` too.
unfoldable pub format_loop : Spot → (format : List ℕ) → List Arg → (space : ℕ) → Run (List ℕ)
format_loop spot [] args space = fault
format_loop ordinary (c ∷ format) args space =
    let converted = format_loop percent format args space in
    let rest = format_loop ordinary format args (space - 1) in
    if c == 0
    then ok []
    else if c == b'%'
    then converted
    else if space == 0
    then ok []
    else (do cs ← rest; ok (c ∷ cs))
format_loop spot (c ∷ format) args space =
    let skipped = format_loop (behind_l spot) format args space in
    if skips_l spot c then skipped else (do
      (cs, left) ← conversion c (longlong_at spot) args space
      rest ← format_loop ordinary format left (space - length cs)
      ok (cs ++ rest))

-- The bytes before the NUL that ends them; their number is returned. With no room for the NUL the
-- store is out of bounds.
unfoldable pub safe_vsnprintf : (size : ℕ) (format : CharPtr) → List Arg → Run (List ℕ)
safe_vsnprintf zero format args = fault
safe_vsnprintf (suc size) (at format) args = format_loop ordinary format args size
safe_vsnprintf (suc size) format args = fault

unfoldable pub safe_snprintf : (n : ℕ) (fmt : CharPtr) → List Arg → Run (List ℕ)
safe_snprintf n fmt args = safe_vsnprintf n fmt args
