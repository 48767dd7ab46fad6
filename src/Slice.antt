-- ===== src/Slice.antt =====
-- src/common/slice.c: strings of up to 15 bytes inside the structure, longer ones in a block.
-- Bytes are numbers; a pointer is given by the bytes that can be read from it.
pub mod Strings
pub mod Stores
pub mod Copies
pub mod Create
use sample_sds_storage.Base.{
  ℕ, zero, suc, ◌+◌, ◌-◌, ◌<◌, Bool, true, false, ◌&&◌, ◌||◌, not, int_max, negsuc, Option, none,
  some, List, [], ◌∷◌, ◌++◌, ltb, leb, ◌==◌, if◌then◌else◌, ℤ, success, failure, is_success, length,
  take, drop, replicate, Run, ok, fault, ◌>>=◌,
}
use Strings.{CharPtr, null, at, wild, c_string, is_null}

abbrev pub slice_internal_size : ℕ
slice_internal_size = 16

-- What the union `data` holds: nothing written yet, the bytes of `buf` that have been written
-- (the others are indeterminate), the pointer `ptr` to NULL or to a block of the slice's own, or
-- a pointer to a block that has been freed.
pub data Content : Type 0 where
  raw : Content
  buf : List ℕ → Content
  ptr : Option (List ℕ) → Content
  dangling : Content

pub record Slice : Type 0 where
  pub content : Content
  pub size : ℕ

abbrev pub slice : Content → ℕ → Slice
slice c n = record { content = c; size = n }

-- `buf[i] = v` among bytes that are written up to `i` at least
abbrev pub put_byte : List ℕ → ℕ → ℕ → List ℕ
put_byte bs i v = take i bs ++ v ∷ drop (suc i) bs

-- `&se->data.buf` and `se->data.ptr`, whichever member was written last.
unfoldable pub buf_pointer : Content → CharPtr
buf_pointer (buf bs) = at bs
buf_pointer _ = wild

unfoldable pub ptr_pointer : Content → CharPtr
ptr_pointer (ptr none) = null
ptr_pointer (ptr (some bs)) = at bs
ptr_pointer _ = wild

unfoldable pub slice_value : Option Slice → CharPtr
unfolding buf_pointer ptr_pointer
slice_value none = null
slice_value (some se) =
    if ltb 0 se.size && ltb se.size slice_internal_size
    then buf_pointer se.content
    else if ltb 0 se.size && leb slice_internal_size se.size
    then ptr_pointer se.content
    else null

unfoldable pub slice_size : Option Slice → ℕ
slice_size none = 0
slice_size (some se) = se.size

-- `free` of the block: of NULL it does nothing, of a freed block it is undefined.
unfoldable pub free_ptr : Content → Run Content
free_ptr (ptr none) = ok (ptr none)
free_ptr (ptr (some bs)) = ok dangling
free_ptr _ = fault

unfoldable pub slice_deinit : Option Slice → Run (Option Slice)
unfolding free_ptr
slice_deinit none = ok none
slice_deinit (some se) =
    if ltb 0 se.size && leb slice_internal_size se.size
    then (do content ← free_ptr se.content; ok (some (slice content 0)))
    else ok (some se)

-- The size that the caller gives is what the structure's own block is freed after.
unfoldable pub slice_destroy : Option Slice → Run (Unit {0})
slice_destroy none = ok tt
slice_destroy (some se) = do _ ← slice_deinit (some se); ok tt

-- What `slice_print` writes: the string and the size, or nothing.
unfoldable pub slice_print : Option Slice → Run (Option (List ℕ × ℕ))
slice_print none = ok none
slice_print (some se) =
    if is_null (slice_value (some se))
    then ok none
    else (do text ← c_string (slice_value (some se)); ok (some (text, se.size)))

-- `strdup n` and `calloc n` say whether a block of `n` bytes can be had.
module _ (strdup : ℕ → Bool) where
  unfoldable pub init_string : List ℕ → Slice
  init_string v =
      if ltb (length v) slice_internal_size
      then slice (buf (put_byte v (length v) 0)) (length v)
      else slice (ptr (if strdup (suc (length v)) then some (v ++ 0 ∷ []) else none)) (length v)

  unfoldable pub slice_init : Option Slice → CharPtr → Run (ℤ × Option Slice)
  unfolding init_string
  slice_init none value = ok (failure, none)
  slice_init (some se) value =
      if is_null value
      then ok (failure, some (slice (ptr none) 0))
      else (do v ← c_string value; ok (success, some (init_string v)))

  unfoldable pub slice_repace_value : Option Slice → CharPtr → Run (ℤ × Option Slice)
  slice_repace_value se value = do se' ← slice_deinit se; slice_init se' value

  unfoldable pub slice_copy : Option Slice → Option Slice → Run (ℤ × Option Slice)
  slice_copy none src = ok (failure, none)
  slice_copy (some dest) none = ok (failure, some dest)
  slice_copy (some dest) (some src) = slice_init (some dest) (slice_value (some src))

  unfoldable pub slice_create : (calloc : ℕ → Bool) → CharPtr → Run (Option Slice)
  slice_create calloc value = if is_null value then ok none else (do
    (ret, se) ← slice_init (if calloc 1 then some (slice (ptr none) 0) else none) value
    ok (if is_success ret then se else none))

-- What the second `vsnprintf` and the NUL leave in zeroed bytes.
abbrev pub formatted : (n : ℕ) → List ℕ → List ℕ
formatted n text =
    let written = take n text in put_byte (written ++ replicate (suc n - length written) 0) n 0

-- The value returned is `none` where the function ends without a `return`.
module _ (calloc : ℕ → Bool) where
  strncpy_string : List ℕ → ℕ → Run Slice
  strncpy_string v n =
      let size = if ltb (length v) n then length v else n in
      if ltb (length v) slice_internal_size
      then (if ltb (suc (length v)) n
          then fault
          else ok (slice (buf (put_byte (take n (v ++ 0 ∷ [])) size 0)) size))
      else (if ltb slice_internal_size size then fault else ok (slice (buf (take size v)) size))

  unfoldable pub slice_strncpy : Option Slice → CharPtr → ℕ → Run (Option ℤ × Option Slice)
  unfolding strncpy_string
  slice_strncpy none str n = ok (none, none)
  slice_strncpy (some se) str n =
      if not (is_null str) && ltb 0 n
      then (do v ← c_string str; se' ← strncpy_string v n; ok (some success, some se'))
      else ok (none, some se)

  -- `text` is what `vsnprintf` makes of the format and its arguments.
  -- `size` is what the first `vsnprintf` returns, whose `va_list` has been ended. With a negative
  -- one `buf[size]` lies before the structure, and with the largest `size + 1` overflows.
  unfoldable pub slice_create_with_fmt : (size : ℤ) → List ℕ → Run Slice
  slice_create_with_fmt (negsuc k) text = fault
  slice_create_with_fmt (ℤ.pos n) text =
      if not (calloc 1) || not (ltb n int_max)
      then fault
      else if ltb n slice_internal_size
      then ok (slice (buf (formatted n text)) n)
      else if calloc (suc n)
      then ok (slice (ptr (some (formatted n text))) n)
      else fault
