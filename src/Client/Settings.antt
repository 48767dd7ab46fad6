-- ===== src/Client/Settings.antt =====
-- What src/client/conf.c reads from a configuration.
use sample_sds_storage.Base.{
  ℕ, suc, ◌≡◌, refl, true, Bool, some, List, [], ◌∷◌, ◌++◌, length, ok, load,
}
use sample_sds_storage.Slice.Strings.{at, IsText}
use sample_sds_storage.Slice.Stores.{Stores, slice_init-Stores}
use sample_sds_storage.Conf.{Json}
use sample_sds_storage.Client.{ClientConf, client_key, fill_conf, client_conf_create, empty_slice}

abbrev pub addr_key : List ℕ
addr_key = b'a' ∷ b'd' ∷ b'd' ∷ b'r' ∷ []

abbrev pub port_key : List ℕ
port_key = b'p' ∷ b'o' ∷ b'r' ∷ b't' ∷ []

-- From a JSON text whose address is a string, the client's `conf_create` makes a configuration that
-- stores that string, the port and the object itself, where there is memory.
pub client_conf_create-reads :
    (json : Json) (strdup : ℕ → Bool) (buf v rest : List ℕ) (root : json.Value)
    → json.loads buf ≡ some root
    → json.string_value (json.object_get root addr_key) ≡ at (v ++ 0 ∷ rest)
    → IsText v
    → strdup (suc (length v)) ≡ true
    → (cf : ClientConf json) × (client_conf_create json true strdup (some buf) ≡ ok (some cf))
      × Stores v cf.addr
      × (cf.port ≡ json.int_value (json.object_get root port_key))
      × (cf.ctx ≡ root)
unfolding client_conf_create fill_conf client_key load
client_conf_create-reads json strdup buf v rest root parsed address text_v room =
    let ((se, named, stores), _, _) =
      slice_init-Stores strdup (empty_slice json) v rest text_v room in
    (
      record { addr = se; port = json.int_value (json.object_get root port_key); ctx = root },
      rw (parsed, address, named) refl,
      stores,
      refl,
      refl,
    )
