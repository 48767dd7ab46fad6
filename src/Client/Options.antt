-- ===== src/Client/Options.antt =====
-- The options of the main program of src/client/sds_store_client.c.
use sample_sds_storage.Base.{
  ℕ, suc, ◌≡◌, refl, Bool, true, some, List, [], ◌∷◌, ◌++◌, map, length, ok, ◌>>=◌,
}
use sample_sds_storage.Slice.{Slice, slice, raw}
use sample_sds_storage.Slice.Strings.{CharPtr, at, IsText}
use sample_sds_storage.Slice.Stores.{Stores, slice_init-Stores, slice_deinit-Stores}
use sample_sds_storage.Client.Main.{
  Options, no_options, Given, long_option, short_option, found_of, take_argument, read_options,
  release,
}

-- An argument in the memory of the program.
abbrev pub argument : List ℕ → CharPtr
argument v = at (v ++ 0 ∷ [])

take_argument-Stores :
    (strdup : ℕ → Bool) (v : List ℕ)
    → IsText v
    → strdup (suc (length v)) ≡ true
    → (se : Slice) × (take_argument strdup (argument v) ≡ ok (some se)) × Stores v se
unfolding take_argument
take_argument-Stores strdup v text room =
    let ((se, taken, stores), _, _) = slice_init-Stores strdup (slice raw 0) v [] text room in
    (se, rw taken refl, stores)

-- The three options, the first two in their long form, which is the one that takes an argument.
abbrev pub usage : (resource type name : List ℕ) → List Given
usage resource type name =
    long_option b'r' (argument resource)
    ∷ long_option b't' (argument type)
    ∷ short_option b'd' (argument name)
    ∷ []

abbrev pub chosen : (resource type name : Slice) → Options
chosen resource type name = record {
  resource_name = some resource;
  op_type = some type;
  op_data = some name;
}

pub read_options-chosen :
    (strdup : ℕ → Bool) (resource type name : List ℕ)
    → ((n : ℕ) → strdup n ≡ true)
    → IsText resource
    → IsText type
    → IsText name
    → (r t d : Slice) × (read_options strdup (map found_of (usage resource type name)) no_options
        ≡ ok (some (chosen r t d)))
      × Stores resource r
      × Stores type t
      × Stores name d
unfolding read_options
read_options-chosen strdup resource type name room text_r text_t text_d =
    let (r, took_r, stores_r) = take_argument-Stores strdup resource text_r (room _) in
    let (t, took_t, stores_t) = take_argument-Stores strdup type text_t (room _) in
    let (d, took_d, stores_d) = take_argument-Stores strdup name text_d (room _) in
    (
      r,
      t,
      d,
      rw (◌>>=◌, took_r) (rw (◌>>=◌, took_t) (rw (◌>>=◌, took_d) refl)),
      stores_r,
      stores_t,
      stores_d,
    )

pub release-chosen :
    {resource type name : List ℕ} {r t d : Slice}
    → Stores resource r
    → Stores type t
    → Stores name d
    → release (chosen r t d) ≡ ok tt
unfolding release
release-chosen stores_r stores_t stores_d =
    let (_, t, _, _) = slice_deinit-Stores stores_t in
    let (_, r, _, _) = slice_deinit-Stores stores_r in
    let (_, d, _, _) = slice_deinit-Stores stores_d in
    rw (◌>>=◌, t) (rw (◌>>=◌, r) (rw (◌>>=◌, d) refl))
