-- ===== src/Log/Render.antt =====
-- `_safe_vsnprintf` of src/server/log.c writes the text of its format's items.
use sample_sds_storage.Base.{
  ℕ, suc, ◌^◌, ◌<◌, ◌≡◌, ◌≢◌, refl, true, false, List, [], ◌∷◌, ◌++◌, arith, ◌||◌, ◌==◌, take, ok,
}
use sample_sds_storage.Slice.Strings.{CharPtr, null, at, IsText}
use sample_sds_storage.Log.Items.{
  Width, plain_width, long_width, long_long_width, Letter, d, i, u, x, Item, literal, number,
  pointer, text, null_string, is_long, letter, integer, encode, arguments, Fits, AllFit, Reads,
  Renders,
}
use sample_sds_storage.Log.Format.{
  Arg, long_word, string, number_text, is_number, string_memory, format_loop, safe_vsnprintf,
}
use sample_sds_storage.Log.Hexadecimal.{
  number_text-long_hex, number_text-pointer, number_text-hex, number_text-unsigned,
}
use sample_sds_storage.Log.Decimal.{limit, below_limit, number_text-decimal}
use sample_sds_storage.Log.Conversions.{
  AreDigits-IsText, IsSigned-IsText, conversion-number, conversion-string, Writes, converted,
  literal_lem, end-Writes,
}

-- An item has a text, and the loop writes what fits of it before it goes on.
abbrev Shows : Item → Type 0
Shows item =
    (s : List ℕ) × Reads item s
    × ((items : List Item) (behind out : List ℕ)
        → Writes (encode items behind) (arguments items) out
        → Writes (encode (item ∷ items) behind) (arguments (item ∷ items)) (s ++ out))

number-Shows :
    (width : Width) (sort : Letter) (w : ℕ) (s : List ℕ)
    → Reads (number width sort w) s
    → number_text (letter sort) (is_long width) w ≡ ok (s ++ 0 ∷ [])
    → IsText s
    → is_number (letter sort) ≡ true
    → (letter sort == b'p' || is_long width) ≡ is_long width
    → (letter sort == b'l') ≡ false
    → Shows (number width sort w)
number-Shows width sort w s reads run h number_c same other = (
  s,
  reads,
  λ items behind out.
      converted width (letter sort) (encode items behind) (integer (is_long width) w)
        (arguments items) s out other
        (conversion-number (letter sort) (is_long width) (is_long width) w (arguments items) s
          number_c same run h),
)

decimal-Shows :
    (width : Width) (w : ℕ)
    → w < limit (is_long width)
    → w ≢ 2 ^ 63
    → Shows (number width d w) × Shows (number width i w)
decimal-Shows width w h not_least =
    let ((s, run, reads), (s', run', reads')) = number_text-decimal (is_long width) w h not_least in
    (
      number-Shows width d w s reads run (IsSigned-IsText _ s reads) refl refl refl,
      number-Shows width i w s' reads' run' (IsSigned-IsText _ s' reads') refl refl refl,
    )

unsigned-Shows : (width : Width) (w : ℕ) → w < limit (is_long width) → Shows (number width u w)
unsigned-Shows width w h =
    let (s, run, reads) =
      number_text-unsigned (is_long width) w (below_limit (is_long width) w h) in
    number-Shows width u w s reads run (AreDigits-IsText 10 s reads.digits) refl refl refl

hex-Shows :
    (width : Width) (w : ℕ) → w < limit (is_long width) → w ≢ 2 ^ 63 → Shows (number width x w)
hex-Shows plain_width w h not_least =
    let (s, run, reads) = number_text-hex w h in
    number-Shows plain_width x w s reads run (AreDigits-IsText 16 s reads.digits) refl refl refl
hex-Shows long_width w h not_least =
    let (s, run, reads) = number_text-long_hex w h not_least in
    number-Shows long_width x w s reads run (AreDigits-IsText 16 s reads.digits) refl refl refl
hex-Shows long_long_width w h not_least =
    let (s, run, reads) = number_text-long_hex w h not_least in
    number-Shows long_long_width x w s reads run (AreDigits-IsText 16 s reads.digits) refl refl refl

string-Shows :
    (item : Item) (p : CharPtr) (s after : List ℕ)
    → Reads item s
    → string_memory p ≡ ok (s ++ 0 ∷ after)
    → IsText s
    → (s : List ℕ) × Reads item s
      × ((format : List ℕ) (args : List Arg) (out : List ℕ)
          → Writes format args out
          → Writes (b'%' ∷ b's' ∷ format) (string p ∷ args) (s ++ out))
string-Shows item p s after reads memory h = (
  s,
  reads,
  λ format args out.
      converted plain_width b's' format (string p) args s out refl
        (conversion-string false p args s after memory h),
)

shows : (item : Item) → Fits item → Shows item
shows (literal c) (live, plain_c) = (
  c ∷ [],
  refl,
  λ items behind out. literal_lem c (encode items behind) (arguments items) out live plain_c,
)
shows (number width d w) (h, not_least) = (decimal-Shows width w h not_least).0
shows (number width i w) (h, not_least) = (decimal-Shows width w h not_least).1
shows (number width u w) h = unsigned-Shows width w h
shows (number width x w) (h, not_least) = hex-Shows width w h not_least
shows (pointer w) (h, not_least) =
    let (s, run, reads) = number_text-pointer w h not_least in
    (
      s,
      reads,
      λ items behind out.
          converted plain_width b'p' (encode items behind) (long_word w) (arguments items) s out
            refl
            (conversion-number b'p' false true w (arguments items) s refl refl run
              (AreDigits-IsText 16 s reads.digits)),
    )
shows (text v after) h =
    let (s, reads, go) = string-Shows (text v after) (at (v ++ 0 ∷ after)) v after refl refl h in
    (s, reads, λ items behind out. go (encode items behind) (arguments items) out)
shows null_string h =
    let text_h : IsText (b'(' ∷ b'n' ∷ b'u' ∷ b'l' ∷ b'l' ∷ b')' ∷ []) = (
      omega arith,
      (omega arith, (omega arith, (omega arith, (omega arith, (omega arith, tt))))),
    ) in
    let (s, reads, go) = string-Shows null_string null _ [] refl refl text_h in
    (s, reads, λ items behind out. go (encode items behind) (arguments items) out)

format_loop-Renders :
    (items : List Item) (behind : List ℕ)
    → AllFit items
    → (out : List ℕ) × Renders items out × Writes (encode items behind) (arguments items) out
unfolding format_loop
format_loop-Renders [] behind h = ([], refl, end-Writes behind [])
format_loop-Renders (item ∷ items) behind (h, fits) =
    let (rest, renders, writes) = format_loop-Renders items behind fits in
    let (s, reads, go) = shows item h in
    (s ++ rest, (s, rest, reads, renders, refl), go items behind rest writes)

-- `_safe_vsnprintf`, at a format of literal characters and of conversions it knows, whose arguments
-- fit them, writes the first `size - 1` bytes of the text that the format and its arguments
-- describe: a literal stands for itself, `%d` and `%i` for the signed number in base 10, `%u` for
-- the numeral in base 10, `%x` and `%p` for that in base 16, and `%s` for its string, or `(null)`.
pub safe_vsnprintf-Renders :
    (items : List Item) (behind : List ℕ)
    → AllFit items
    → (out : List ℕ) × Renders items out
      × ((size : ℕ)
          → safe_vsnprintf (suc size) (at (encode items behind)) (arguments items)
            ≡ ok (take size out))
unfolding safe_vsnprintf
safe_vsnprintf-Renders items behind fits = format_loop-Renders items behind fits
