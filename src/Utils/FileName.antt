-- ===== src/Utils/FileName.antt =====
-- `parse_file_name` of src/common/utils.c against the last component of a path.
use mathlib.Core.Path.{subst}
use mathlib.Core.List.{append_assoc, append-nil}
use sample_sds_storage.Base.{
  ℕ, ◌+◌, ◌≡◌, ◌≢◌, refl, sym, ◌∙◌, ap, ◌⊎◌, inl, inr, Bool, true, some, List, [], ◌∷◌, ◌++◌, arith,
  ◌==◌, Bool-cases, success, length, length-append, drop, ok, ltb, lt→ltb, int_max, ◌<◌, ◌^◌,
}
use sample_sds_storage.Slice.{Slice}
use sample_sds_storage.Slice.Strings.{at, c_string, IsText, until_nul-append}
use sample_sds_storage.Slice.Stores.{Stores, slice_init-Stores}
use sample_sds_storage.Utils.{name_position, parse_file_name}

abbrev pub NoSlash : List ℕ → Type 0
NoSlash [] = Unit
NoSlash (c ∷ v) = (c ≢ b'/') × NoSlash v

-- Empty, or ending in a slash.
abbrev pub IsDir : List ℕ → Type 0
IsDir dir = (dir ≡ []) ⊎ ((d : List ℕ) × (dir ≡ d ++ b'/' ∷ []))

-- The last component of a path: what stands behind the last slash.
pub record IsSplit (path dir name : List ℕ) : Type 0 where
  pub whole : path ≡ dir ++ name
  pub last : NoSlash name
  pub ends : IsDir dir

NoSlash-append : (v w : List ℕ) → NoSlash v → NoSlash w → NoSlash (v ++ w)
NoSlash-append [] w h k = k
NoSlash-append (c ∷ v) w (ne, h) k = (ne, NoSlash-append v w h k)

name_position-IsSplit :
    (dir name base : List ℕ)
    → NoSlash name
    → IsDir dir
    → length (dir ++ name) + length base < 2 ^ 31
    → (dir' : List ℕ) × (name' : List ℕ) × IsSplit ((dir ++ name) ++ base) dir' name'
      × (name_position base (length (dir ++ name)) (length dir) ≡ ok (length dir'))
unfolding name_position
name_position-IsSplit dir name [] h k few =
    (dir, name, record { whole = append-nil (dir ++ name); last = h; ends = k }, refl)
name_position-IsSplit dir name (c ∷ base) h k few =
    let step : ltb (length (dir ++ name)) int_max ≡ true = lt→ltb _ int_max (omega arith) in
    elim (Bool-cases (c == b'/')) [
      | inl slash ↦
          let grown : length ((dir ++ name) ++ c ∷ []) ≡ length (dir ++ name) + 1 =
            length-append (dir ++ name) (c ∷ []) in
          let e : c ≡ b'/' = ground arith in
          let seen = (dir ++ name) ++ c ∷ [] in
          let (d, n, split, run) =
            name_position-IsSplit seen [] base tt
              (inr (dir ++ name, ap (λ b. (dir ++ name) ++ b ∷ []) e))
              (omega (arith, grown, ap length (append-nil seen))) in
          (
            d,
            n,
            record {
              whole =
                  sym (append_assoc (dir ++ name) (c ∷ []) base)
                  ∙ ap (λ s. s ++ base) (sym (append-nil seen))
                  ∙ split.whole;
              last = split.last;
              ends = split.ends;
            },
            rw (step, slash) (rw (append-nil seen, grown) at run),
          )
      | inr other ↦
          let ne : c ≢ b'/' = ground arith in
          let regroup : dir ++ (name ++ c ∷ []) ≡ (dir ++ name) ++ c ∷ [] =
            sym (append_assoc dir name (c ∷ [])) in
          let grown : length (dir ++ (name ++ c ∷ [])) ≡ length (dir ++ name) + 1 =
            ap length regroup ∙ length-append (dir ++ name) (c ∷ []) in
          let (d, n, split, run) =
            name_position-IsSplit dir (name ++ c ∷ []) base
              (NoSlash-append name (c ∷ []) h (ne, tt)) k (omega arith) in
          (
            d,
            n,
            record {
              whole =
                  sym (append_assoc (dir ++ name) (c ∷ []) base)
                  ∙ ap (λ s. s ++ base) (sym regroup)
                  ∙ split.whole;
              last = split.last;
              ends = split.ends;
            },
            rw (step, other) (rw grown at run),
          )
    ]

drop-append : (v w : List ℕ) → drop (length v) (v ++ w) ≡ w
drop-append [] w = refl
drop-append (c ∷ v) w = drop-append v w

drop-IsSplit :
    {path dir name : List ℕ} (rest : List ℕ)
    → IsSplit path dir name
    → drop (length dir) (path ++ rest) ≡ name ++ rest
drop-IsSplit {dir} {name} rest split =
    rw (split.whole, append_assoc) (drop-append dir (name ++ rest))

pub IsText-append_right : (v w : List ℕ) → IsText (v ++ w) → IsText w
IsText-append_right [] w t = t
IsText-append_right (c ∷ v) w (_, t) = IsText-append_right v w t

-- Where there is memory, and for a path that is a text of fewer than 2 ^ 31 bytes,
-- `parse_file_name` makes the slice store what stands behind the last slash of the path, or the
-- whole path where it has none.
pub parse_file_name-IsSplit :
    (strdup : ℕ → Bool) (se : Slice) (path rest : List ℕ)
    → IsText path
    → length path < 2 ^ 31
    → ((n : ℕ) → strdup n ≡ true)
    → (dir : List ℕ) × (name : List ℕ) × (out : Slice) × IsSplit path dir name
      × (parse_file_name strdup (some se) (at (path ++ 0 ∷ rest)) ≡ ok (success, some out))
      × Stores name out
unfolding parse_file_name c_string
parse_file_name-IsSplit strdup se path rest t short room =
    let (dir, name, split, run) = name_position-IsSplit [] [] path tt (inl refl) (omega arith) in
    let text : IsText name = IsText-append_right dir name (subst IsText split.whole t) in
    let (out, init, stored) = (slice_init-Stores strdup se name rest text (room _)).0 in
    (
      dir,
      name,
      out,
      split,
      rw (until_nul-append path rest t, run, drop-IsSplit (0 ∷ rest) split, init) refl,
      stored,
    )
