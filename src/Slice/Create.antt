-- ===== src/Slice/Create.antt =====
-- `slice_create`, `slice_create_with_fmt`, `slice_print` and `slice_destroy` of src/common/slice.c.
use sample_sds_storage.Base.{ℕ, Option, none, some, List, [], ◌∷◌, length}
use sample_sds_storage.Slice.Stores.{Stores}
use sample_sds_storage.Slice.{Slice}

-- What is printed of a slice that stores a text: nothing of the empty one.
abbrev pub shown : List ℕ → Option (List ℕ × ℕ)
shown [] = none
shown (c ∷ v) = some (c ∷ v, length (c ∷ v))
