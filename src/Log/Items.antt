-- ===== src/Log/Items.antt =====
-- What `_safe_vsnprintf` of src/server/log.c should write: the items of a format and their text.
use sample_sds_storage.Base.{ℕ, ◌^◌, ◌<◌, ◌≡◌, ◌≢◌, Bool, true, false, List, [], ◌∷◌, ◌++◌}
use sample_sds_storage.Slice.Strings.{null, at, IsText}
use sample_sds_storage.Log.Numerals.{IsNumeral, IsSigned}
use sample_sds_storage.Log.Format.{Arg, word, long_word, string}
use sample_sds_storage.Log.Decimal.{signed, limit}

pub data Width : Type 0 where
  plain_width : Width
  long_width : Width
  long_long_width : Width

pub data Letter : Type 0 where
  d : Letter
  i : Letter
  u : Letter
  x : Letter

-- A part of a format with the argument it takes. A text is a string with the bytes behind its NUL.
pub data Item : Type 0 where
  literal : ℕ → Item
  number : Width → Letter → ℕ → Item
  pointer : ℕ → Item
  text : (s behind : List ℕ) → Item
  null_string : Item

abbrev pub modifier : Width → List ℕ
modifier plain_width = []
modifier long_width = b'l' ∷ []
modifier long_long_width = b'l' ∷ b'l' ∷ []

abbrev pub is_long : Width → Bool
is_long plain_width = false
is_long width = true

abbrev pub letter : Letter → ℕ
letter d = b'd'
letter i = b'i'
letter u = b'u'
letter x = b'x'

abbrev pub integer : Bool → ℕ → Arg
integer false w = word w
integer true w = long_word w

-- The memory that holds the format that items stand for, with the bytes behind its NUL.
abbrev pub encode : List Item → (behind : List ℕ) → List ℕ
encode [] behind = 0 ∷ behind
encode (literal c ∷ items) behind = c ∷ encode items behind
encode (number width sort w ∷ items) behind =
    b'%' ∷ (modifier width ++ letter sort ∷ encode items behind)
encode (pointer w ∷ items) behind = b'%' ∷ b'p' ∷ encode items behind
encode (text s after ∷ items) behind = b'%' ∷ b's' ∷ encode items behind
encode (null_string ∷ items) behind = b'%' ∷ b's' ∷ encode items behind

abbrev pub arguments : List Item → List Arg
arguments [] = []
arguments (literal c ∷ items) = arguments items
arguments (number width sort w ∷ items) = integer (is_long width) w ∷ arguments items
arguments (pointer w ∷ items) = long_word w ∷ arguments items
arguments (text s behind ∷ items) = string (at (s ++ 0 ∷ behind)) ∷ arguments items
arguments (null_string ∷ items) = string null ∷ arguments items

-- What an argument may be: an integer of its width, the least of 64 bits only unsigned.
abbrev pub Fits : Item → Type 0
Fits (literal c) = (c ≢ 0) × (c ≢ b'%')
Fits (number width u w) = w < limit (is_long width)
Fits (number width sort w) = (w < limit (is_long width)) × (w ≢ 2 ^ 63)
Fits (pointer w) = (w < 2 ^ 64) × (w ≢ 2 ^ 63)
Fits (text s behind) = IsText s
Fits null_string = Unit

abbrev pub AllFit : List Item → Type 0
AllFit [] = Unit
AllFit (item ∷ items) = Fits item × AllFit items

-- `s` is the text of an item.
abbrev pub Reads : Item → List ℕ → Type 0
Reads (literal c) s = s ≡ c ∷ []
Reads (number width d w) s = IsSigned (signed (is_long width) w) s
Reads (number width i w) s = IsSigned (signed (is_long width) w) s
Reads (number width u w) s = IsNumeral 10 w s
Reads (number width x w) s = IsNumeral 16 w s
Reads (pointer w) s = IsNumeral 16 w s
Reads (text v behind) s = s ≡ v
Reads null_string s = s ≡ b'(' ∷ b'n' ∷ b'u' ∷ b'l' ∷ b'l' ∷ b')' ∷ []

-- `out` is the text of the items, one behind the other.
abbrev pub Renders : List Item → List ℕ → Type 0
Renders [] out = out ≡ []
Renders (item ∷ items) out =
    (s : List ℕ) × (rest : List ℕ) × Reads item s × Renders items rest × (out ≡ s ++ rest)
