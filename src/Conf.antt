-- ===== src/Conf.antt =====
-- src/server/conf.c: the configuration of the server, read from a JSON object.
pub mod Keys
use sample_sds_storage.Base.{
  ℕ, zero, suc, Bool, true, false, Option, none, some, List, [], ◌∷◌, if◌then◌else◌, ℤ, pos, Run,
  ok, fault, ◌>>=◌, load,
}
use sample_sds_storage.Slice.{Slice, slice, ptr, slice_init, slice_deinit}
use sample_sds_storage.Slice.Strings.{CharPtr}

-- The jansson library: `loads` parses a text, `object_get` is NULL for a missing key, and
-- `int_value` is the integer with the cast to `int`.
pub record Json : Type 1 where
  pub Value : Type 0
  pub loads : List ℕ → Option Value
  pub object_get : Value → List ℕ → Option Value
  pub int_value : Option Value → ℤ
  pub string_value : Option Value → CharPtr

-- Two literals with no comma between them are one.
abbrev pub conf_keys : List (List ℕ)
conf_keys =
    (b'a' ∷ b'd' ∷ b'd' ∷ b'r' ∷ [])
    ∷ (b'p' ∷ b'o' ∷ b'r' ∷ b't' ∷ [])
    ∷ (b'b' ∷ b'a' ∷ b'c' ∷ b'k' ∷ b'l' ∷ b'o' ∷ b'g' ∷ b'd' ∷ b'a' ∷ b't' ∷ b'a' ∷ b'_' ∷ b'd'
        ∷ b'i' ∷ b'r' ∷ [])
    ∷ (b'd' ∷ b'a' ∷ b't' ∷ b'a' ∷ b'_' ∷ b'l' ∷ b'e' ∷ b'n' ∷ b'g' ∷ b't' ∷ b'h' ∷ [])
    ∷ []

pub data ConfKeysIndex : Type 0 where
  conf_addr conf_port conf_backlog conf_data_dir conf_data_length : ConfKeysIndex

abbrev pub index_of : ConfKeysIndex → ℕ
index_of conf_addr = 0
index_of conf_port = 1
index_of conf_backlog = 2
index_of conf_data_dir = 3
index_of conf_data_length = 4

module _ (json : Json) where
  open json use {Value, loads, object_get, int_value, string_value}

  pub record Conf : Type 0 where
    pub port : ℤ
    pub addr : Slice
    pub data_dir : Slice
    pub data_length : ℤ
    pub backlog : ℤ
    pub bucket_size : ℤ
    pub set_hash_range : ℤ
    pub ctx : Value

  abbrev zeroed_slice : Slice
  zeroed_slice = slice (ptr none) 0

  abbrev or_zeroed : Option Slice → Slice
  or_zeroed none = zeroed_slice
  or_zeroed (some se) = se

  -- `json_object_get(root, conf_keys[key])`
  unfoldable pub get_key : Value → ConfKeysIndex → Run (Option Value)
  get_key root key = do name ← load conf_keys (index_of key); ok (object_get root name)

  -- `read` is what `open` and `read` give, or `none` where one of them fails: then `cf` is tested
  -- before it was ever set.
  unfoldable pub conf_create : (calloc : ℕ → Bool) (read : Option (List ℕ)) → Run (Option Conf)
  conf_create calloc none = fault
  conf_create calloc (some buf) =
      if calloc 1
      then elim (loads buf) [
        | none ↦ ok none
        | some root ↦ do
          port ← get_key root conf_port
          addr ← get_key root conf_addr
          (_, addr_slice) ← slice_init calloc (some zeroed_slice) (string_value addr)
          backlog ← get_key root conf_backlog
          data_dir ← get_key root conf_data_dir
          (_, dir_slice) ← slice_init calloc (some zeroed_slice) (string_value data_dir)
          data_length ← get_key root conf_data_length
          ok (
              some (record {
                port = int_value port;
                addr = or_zeroed addr_slice;
                data_dir = or_zeroed dir_slice;
                data_length = int_value data_length;
                backlog = int_value backlog;
                bucket_size = pos 0;
                set_hash_range = pos 0;
                ctx = root;
              }))
      ]
      else ok none

  -- What `json_dumps` makes of the object.
  unfoldable pub conf_dump : {Text : Type 0} (dumps : Value → Text) → Conf → Text
  conf_dump dumps cf = dumps cf.ctx

  -- Only the local pointer is set to NULL.
  unfoldable pub conf_destroy : Option Conf → Run (Option Conf)
  conf_destroy none = ok none
  conf_destroy (some cf) = do
    addr ← slice_deinit (some cf.addr)
    data_dir ← slice_deinit (some cf.data_dir)
    ok (some (record cf { addr = or_zeroed addr; data_dir = or_zeroed data_dir }))
