-- ===== src/Examples/Strings.antt =====
-- Slices and file names of src/common at concrete inputs.
use sample_sds_storage.Base.{
  ℕ, ◌≡◌, refl, Bool, true, some, List, [], ◌∷◌, ◌++◌, arith, success, ok,
}
use sample_sds_storage.Slice.{Slice, slice, raw}
use sample_sds_storage.Slice.Strings.{at, IsText}
use sample_sds_storage.Slice.Stores.{Stores}
use sample_sds_storage.Utils.{parse_file_name}
use sample_sds_storage.Utils.FileName.{IsSplit, parse_file_name-IsSplit}

abbrev plenty : ℕ → Bool
plenty n = true

abbrev fresh : Slice
fresh = slice raw 0

abbrev long : List ℕ
long =
    b'a' ∷ b'b' ∷ b'c' ∷ b'd' ∷ b'e' ∷ b'f' ∷ b'g' ∷ b'h' ∷ b'i' ∷ b'j' ∷ b'k' ∷ b'l' ∷ b'm' ∷ b'n'
    ∷ b'o' ∷ b'p' ∷ b'q' ∷ []

abbrev path : List ℕ
path = b'.' ∷ b'/' ∷ b'a' ∷ b'/' ∷ b'b' ∷ []

path-IsText : IsText path
path-IsText = omega arith

parse_file_name-IsSplit_example :
    (dir : List ℕ) × (name : List ℕ) × (out : Slice) × IsSplit path dir name
    × (parse_file_name plenty (some fresh) (at (path ++ 0 ∷ [])) ≡ ok (success, some out))
    × Stores name out
parse_file_name-IsSplit_example =
    parse_file_name-IsSplit plenty fresh path [] path-IsText (omega arith) (λ n. refl)
