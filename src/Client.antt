-- ===== src/Client.antt =====
-- src/client: the configuration of the client, its connection, and its main program.
pub mod Exchange
pub mod Main
pub mod Options
pub mod Requests
pub mod Resources
pub mod Settings
use sample_sds_storage.Base.{
  ℕ, Bool, true, false, Option, none, some, List, [], ◌∷◌, if◌then◌else◌, ℤ, pos, negsuc, success,
  failure, is_failure, Run, ok, fault, ◌>>=◌, load,
}
use sample_sds_storage.Slice.{Slice, slice, ptr, slice_init, slice_deinit}
use sample_sds_storage.Slice.Strings.{CharPtr, at}
use sample_sds_storage.Conf.{Json}

-- `conf_keys` and `enum conf_keys_index` of src/client/conf.c
abbrev pub client_keys : List (List ℕ)
client_keys =
    (b'a' ∷ b'd' ∷ b'd' ∷ b'r' ∷ [])
    ∷ (b'p' ∷ b'o' ∷ b'r' ∷ b't' ∷ [])
    ∷ (b'b' ∷ b'u' ∷ b'c' ∷ b'k' ∷ b'e' ∷ b't' ∷ b's' ∷ b'e' ∷ b't' ∷ [])
    ∷ []

abbrev pub client_addr : ℕ
client_addr = 0

abbrev pub client_port : ℕ
client_port = 1

-- `default_confs_path`
abbrev pub default_paths : List (List ℕ)
default_paths =
    (b'/' ∷ b'e' ∷ b't' ∷ b'c' ∷ b'/' ∷ b's' ∷ b'd' ∷ b's' ∷ b'/' ∷ b'c' ∷ b'l' ∷ b'i' ∷ b'e' ∷ b'n'
      ∷ b't' ∷ b'.' ∷ b'j' ∷ b's' ∷ b'o' ∷ b'n' ∷ [])
    ∷ (b'.' ∷ b'/' ∷ b'c' ∷ b'l' ∷ b'i' ∷ b'e' ∷ b'n' ∷ b't' ∷ b'.' ∷ b'j' ∷ b's' ∷ b'o' ∷ b'n'
        ∷ [])
    ∷ []

-- The loop of `check_conf`: the first of the paths that `stat` finds.
unfoldable pub first_path : (exists : List ℕ → Bool) → List (List ℕ) → Option (List ℕ)
first_path exists [] = none
first_path exists (path ∷ paths) =
    let rest = first_path exists paths in if exists path then some path else rest

unfoldable pub check_conf : (exists : List ℕ → Bool) → Option (List ℕ)
check_conf exists = first_path exists default_paths

-- What `socket` and `connect` return; the descriptor of a connection that failed is closed.
unfoldable pub connect_server : (socket connected : ℤ) → ℤ
connect_server socket connected = if is_failure connected then failure else socket

module _ (json : Json) where
  open json use {Value, loads, object_get, int_value, string_value}

  -- The `conf` of src/client/conf.h.
  pub record ClientConf : Type 0 where
    pub addr : Slice
    pub port : ℤ
    pub ctx : Value

  abbrev pub empty_slice : Slice
  empty_slice = slice (ptr none) 0

  abbrev or_empty : Option Slice → Slice
  or_empty none = empty_slice
  or_empty (some se) = se

  unfoldable pub client_key : Value → ℕ → Run (Option Value)
  client_key root key = do name ← load client_keys key; ok (object_get root name)

  -- The rest of `conf_create` once the text is parsed.
  unfoldable pub fill_conf : (strdup : ℕ → Bool) → Option Value → Run (Option ClientConf)
  fill_conf strdup none = ok none
  fill_conf strdup (some root) = do
    port ← client_key root client_port
    addr ← client_key root client_addr
    (_, named) ← slice_init strdup (some empty_slice) (string_value addr)
    ok (some (record { addr = or_empty named; port = int_value port; ctx = root }))

  -- `read` is what `open` and `read` give, or `none` where one of them fails: then `cf` is tested
  -- before it was ever set.
  unfoldable pub client_conf_create :
      (calloc : Bool) (strdup : ℕ → Bool) (read : Option (List ℕ)) → Run (Option ClientConf)
  client_conf_create calloc strdup none = fault
  client_conf_create calloc strdup (some buf) =
      if calloc then fill_conf strdup (loads buf) else ok none

  -- What `json_dumps` makes of the object.
  unfoldable pub client_conf_dump : {Text : Type 0} (dumps : Value → Text) → ClientConf → Text
  client_conf_dump dumps cf = dumps cf.ctx

  -- The structure is freed: nothing is left of it.
  unfoldable pub client_conf_destroy : Option ClientConf → Run (Option ClientConf)
  client_conf_destroy none = ok none
  client_conf_destroy (some cf) = do _ ← slice_deinit (some cf.addr); ok none
