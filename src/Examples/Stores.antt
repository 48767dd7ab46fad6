-- ===== src/Examples/Stores.antt =====
-- The store of src/server/sds_store.c and its configuration at concrete inputs.
use sample_sds_storage.Base.{
  ℕ, ◌≡◌, ◌≢◌, refl, Bool, true, false, none, List, [], ◌∷◌, ◌++◌, arith, pos, ok,
}
use sample_sds_storage.Slice.{slice, buf}
use sample_sds_storage.Slice.Strings.{null}
use sample_sds_storage.Slice.Stores.{Stores, inside}
use sample_sds_storage.Vector.{vector_at}
use sample_sds_storage.Vector.Contents.{Holds}
use sample_sds_storage.LinkedList.{Ptr, Heap}
use sample_sds_storage.Bucketset.{Bucketset, no_buckets, zeroed_slice}
use sample_sds_storage.Conf.{Json}
use sample_sds_storage.SdsStore.{SdsStore}
use sample_sds_storage.SdsStore.Adds.{Addition, IsLegal, add_all, add_all-forgets}
use sample_sds_storage.Examples.Transfers.{whole_numbers}

-- A library that parses nothing.
abbrev refusing : Json
refusing = record {
  Value = ℕ;
  loads = λ bs. none;
  object_get = λ root key. none;
  int_value = λ v. pos 0;
  string_value = λ v. null;
}

abbrev plenty : ℕ → Bool
plenty n = true

abbrev store : SdsStore refusing
store = record {
  sets = record { size = 0; cap = 2; tables = none ∷ none ∷ []; cb = false };
  cf = none;
}

store-Holds : Holds [] store.sets
store-Holds = record {
  block = refl;
  count = refl;
  fits = omega arith;
  slots = λ i p. absurd (omega arith);
}

abbrev photos : List ℕ
photos = b'p' ∷ b'h' ∷ []

abbrev photos_set : Bucketset
photos_set = record {
  data_dir = zeroed_slice;
  set_name = slice (buf (photos ++ 0 ∷ [])) 2;
  bucket_range_count = 512;
  bucket_size = 0;
  buckets = no_buckets;
  data_file_size_unit = 1;
}

photos-Stores : Stores photos photos_set.set_name
photos-Stores = inside [] (omega arith)

abbrev bare : Heap Ptr
bare = record { lists = λ p. none; nodes = λ p. none }

abbrev additions : List Addition
additions =
    record { list = 10; node = 20; address = 30; set = photos_set }
    ∷ record { list = 11; node = 21; address = 30; set = photos_set }
    ∷ []

photos-IsLegal :
    (list node : Ptr)
    → list ≢ 0
    → node ≢ 0
    → IsLegal (record { list = list; node = node; address = 30; set = photos_set })
photos-IsLegal list node ne ne' = record {
  some_list = ne;
  some_node = ne';
  name = photos;
  named = photos-Stores;
  filled = λ e. cc;
  short = omega arith;
}

add_all-forgets_example :
    (out : SdsStore refusing) × (g : Heap Ptr) × (add_all refusing plenty whole_numbers additions
        store bare
      ≡ ok (out, g))
    × Holds [] out.sets
    × (out.sets.cap ≡ 2)
    × ((i : ℕ) → vector_at out.sets i ≡ ok none)
add_all-forgets_example =
    add_all-forgets refusing plenty whole_numbers additions store bare store-Holds (omega arith) (
      photos-IsLegal 10 20 (omega arith) (omega arith),
      (photos-IsLegal 11 21 (omega arith) (omega arith), tt),
    )
