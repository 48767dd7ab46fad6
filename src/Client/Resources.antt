-- ===== src/Client/Resources.antt =====
-- What the client of src/client makes of its configuration and of the name of a resource.
use sample_sds_storage.Base.{
  ℕ, ◌≡◌, ◌≢◌, refl, Bool, true, false, Bool-cases, inl, inr, List, [], ◌∷◌, ◌++◌, ◌==◌, ==_ne,
  if◌then◌else◌, length, ok,
}
use sample_sds_storage.Slice.{Slice}
use sample_sds_storage.Slice.Strings.{IsText, same_prefix, strncmp_equal}
use sample_sds_storage.Slice.Stores.{Stores, slice_value-at, slice_size-Stores}
use sample_sds_storage.Client.Main.{is_resource}

abbrev pub is_prefix : List ℕ → List ℕ → Bool
is_prefix [] w = true
is_prefix (c ∷ v) [] = false
is_prefix (c ∷ v) (e ∷ w) = let rest = is_prefix v w in if c == e then rest else false

same_prefix-is_prefix :
    (v w rest behind : List ℕ)
    → IsText v
    → same_prefix (length v) (v ++ 0 ∷ rest) (w ++ 0 ∷ behind) ≡ ok (is_prefix v w)
unfolding same_prefix
same_prefix-is_prefix [] w rest behind h = refl
same_prefix-is_prefix (c ∷ v) [] rest behind (live, h) = rw (==_ne c 0 live) refl
same_prefix-is_prefix (c ∷ v) (e ∷ w) rest behind (live, h) = elim (Bool-cases (c == e)) [
  | inl same ↦ rw (same, ==_ne c 0 live, same_prefix-is_prefix v w rest behind h) refl
  | inr other ↦ rw other refl
]

-- The client takes the name of a resource, a text that is not empty, for one of its own exactly
-- where it is a prefix of that.
pub is_resource-is_prefix :
    (v w behind : List ℕ) (se : Slice)
    → Stores v se
    → IsText v
    → v ≢ []
    → is_resource se (w ++ 0 ∷ behind) ≡ ok (is_prefix v w)
unfolding is_resource strncmp_equal
is_resource-is_prefix v w behind se s h ne =
    let (rest, e) = slice_value-at s ne in
    rw (slice_size-Stores s, e) (same_prefix-is_prefix v w rest behind h)
