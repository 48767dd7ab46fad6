-- ===== src/Client/Requests.antt =====
-- The main program of src/client/sds_store_client.c with all its options, from the configuration to
-- the answer.
use mathlib.Core.List.{append_assoc}
use sample_sds_storage.Base.{
  ℕ, ◌≤◌, ◌≡◌, ◌≢◌, refl, ◌∙◌, Bool, true, Option, some, List, [], ◌∷◌, ◌++◌, map, ℤ, pos, success,
  length, drop, ok, ◌>>=◌,
}
use sample_sds_storage.Slice.{Slice, slice_value}
use sample_sds_storage.Slice.Strings.{CharPtr, at, IsText, c_string, until_nul-append}
use sample_sds_storage.Slice.Stores.{Stores, slice_value-at, slice_deinit-Stores}
use sample_sds_storage.Utils.{got, Write, took, Read}
use sample_sds_storage.Utils.Receive.{joined, IsFull}
use sample_sds_storage.Conf.{Json}
use sample_sds_storage.Request.{Outcome}
use sample_sds_storage.Request.Outcomes.{request_put_bucketset_init-sends}
use sample_sds_storage.Client.{ClientConf, client_conf_destroy, check_conf, connect_server}
use sample_sds_storage.Client.Settings.{addr_key, port_key, client_conf_create-reads}
use sample_sds_storage.Client.Resources.{is_prefix, is_resource-is_prefix}
use sample_sds_storage.Client.Main.{
  Options, no_options, End, returned, destroy_conf, run_configured, Found, read_options,
  run_command, run_client, client_main,
}
use sample_sds_storage.Client.Options.{usage, chosen, read_options-chosen, release-chosen}

-- `buckset_name` before its NUL.
abbrev pub bucksets : List ℕ
bucksets = b'b' ∷ b'u' ∷ b'c' ∷ b'k' ∷ b's' ∷ b'e' ∷ b't' ∷ []

-- What the peer sends: 255 bytes and then 260, each in any number of chunks; in the 260 a text with
-- its NUL begins at the second byte.
pub record IsAnswer (first second : List (List ℕ)) : Type 0 where
  pub full_first : IsFull first
  pub size_first : length (joined first) ≡ 255
  pub full_second : IsFull second
  pub size_second : length (joined second) ≡ 260
  pub kind : ℕ
  pub name : List ℕ
  pub behind : List ℕ
  pub named : joined second ≡ kind ∷ (name ++ 0 ∷ behind)
  pub is_text : IsText name

module _ (calloc strdup : ℕ → Bool) (writes : List Write) (first second : List (List ℕ))
    (reads : List Read) (stack : List ℕ) where
  abbrev answered : Option End
  answered = some (returned (some (record { ret = success; sent = 2 ∷ []; ack = joined second })))

  run_command-requests :
      (sock : ℕ) {resource type name : List ℕ} {r t d : Slice}
      → calloc 255 ≡ true
      → IsAnswer first second
      → Stores resource r
      → Stores type t
      → Stores name d
      → IsText resource
      → resource ≢ []
      → is_prefix resource bucksets ≡ true
      → IsText name
      → name ≢ []
      → length name ≤ 255
      → run_command calloc strdup
          (took 1 ∷ writes)
          (map got first ++ (map got second ++ reads))
          stack
          (pos sock)
          (chosen r t d)
        ≡ ok answered
  unfolding run_command c_string
  run_command-requests sock {resource} {type} {name} {r} room answer stores_r stores_t stores_d
        text_r filled prefix text_d ne short =
      let (rest, points) = slice_value-at stores_d ne in
      let made =
        request_put_bucketset_init-sends calloc sock name rest writes first second reads room text_d
          short answer.full_first answer.size_first answer.full_second answer.size_second in
      let named = is_resource-is_prefix resource bucksets [] r stores_r text_r filled in
      let shown : c_string (at (drop 1 (joined second ++ drop (length (joined second)) stack)))
          ≡ ok answer.name =
        rw (answer.named, append_assoc answer.name)
          (until_nul-append answer.name (answer.behind ++ _) answer.is_text) in
      rw (◌>>=◌, named)
        (rw (prefix, points)
          (rw (◌>>=◌, made)
            (rw (◌>>=◌, shown) (rw (◌>>=◌, release-chosen stores_r stores_t stores_d) refl))))

-- One of the paths has a file of JSON text, in which the address is a string that is not empty.
pub record IsConfigured (json : Json) (exists : List ℕ → Bool) (read : List ℕ → Option (List ℕ))
    (address : List ℕ) : Type 0 where
  pub path : List ℕ
  pub buf : List ℕ
  pub root : json.Value
  pub behind : List ℕ
  pub found : check_conf exists ≡ some path
  pub text : read path ≡ some buf
  pub parsed : json.loads buf ≡ some root
  pub stored : json.string_value (json.object_get root addr_key) ≡ at (address ++ 0 ∷ behind)
  pub is_text : IsText address
  pub ne : address ≢ []

connect_server-connects :
    (connection : ℤ × ℤ) (sock : ℕ)
    → connection ≡ (pos sock, pos 0)
    → connect_server connection.0 connection.1 ≡ pos sock
unfolding connect_server
connect_server-connects connection sock e = rw e refl

run_client-runs :
    (calloc strdup : ℕ → Bool) (writes : List Write) (reads : List Read) (stack : List ℕ) (sock : ℕ)
    (found : List Found) (options : Options)
    → read_options strdup found no_options ≡ ok (some options)
    → run_client calloc strdup writes reads stack (pos sock) found
      ≡ run_command calloc strdup writes reads stack (pos sock) options
unfolding run_client
run_client-runs calloc strdup writes reads stack sock found options read = rw (◌>>=◌, read) refl

destroy_conf-ends :
    (json : Json) (cf : ClientConf json) {v : List ℕ} (made : Option Outcome)
    → Stores v cf.addr
    → destroy_conf json cf (some (returned made)) ≡ ok (some (returned made))
unfolding destroy_conf client_conf_destroy
destroy_conf-ends json cf made stores =
    let (_, freed, _, _) = slice_deinit-Stores stores in rw freed refl

-- With memory, and a configuration file there that holds a JSON text whose address is a string, not
-- the empty one: the client connects to that address and the port given with it, where that
-- succeeds, and reads its options, which are texts, the first two given in their long form. Where
-- the resource is a prefix of "buckset", not the empty one, the name is one of 1 to 255 bytes, the
-- socket takes a byte and the peer sends 255 bytes and then 260 with a NUL behind the second of
-- them, it returns with a request that succeeded, the last 260 bytes as the answer: and it has sent
-- one byte, whatever the name.
pub client_main-requests :
    (calloc strdup : ℕ → Bool) (writes : List Write) (first second : List (List ℕ))
    (reads : List Read) (stack : List ℕ) (json : Json) (exists : List ℕ → Bool)
    (read : List ℕ → Option (List ℕ)) (connect : CharPtr → ℤ → ℤ × ℤ) (sock : ℕ)
    (address resource type name : List ℕ)
    → ((n : ℕ) → strdup n ≡ true)
    → calloc 255 ≡ true
    → (cf : IsConfigured json exists read address)
    → ((rest : List ℕ)
        → connect (at (address ++ 0 ∷ rest)) (json.int_value (json.object_get cf.root port_key))
          ≡ (pos sock, pos 0))
    → IsAnswer first second
    → IsText resource
    → resource ≢ []
    → is_prefix resource bucksets ≡ true
    → IsText type
    → IsText name
    → name ≢ []
    → length name ≤ 255
    → client_main calloc strdup
        (took 1 ∷ writes)
        (map got first ++ (map got second ++ reads))
        stack
        json
        exists
        true
        read
        connect
        (usage resource type name)
      ≡ ok (some (returned (some (record { ret = success; sent = 2 ∷ []; ack = joined second }))))
unfolding client_main run_configured
client_main-requests calloc strdup writes first second reads stack json exists read connect sock
      address resource type name room room255 cf connects answer text_r filled prefix text_t text_d
      ne short =
    let (conf, created, stores_a, port, _) =
      client_conf_create-reads json strdup cf.buf address cf.behind cf.root cf.parsed cf.stored
        cf.is_text (room _) in
    let (rest, points) = slice_value-at stores_a cf.ne in
    let (r, t, d, options, stores_r, stores_t, stores_d) =
      read_options-chosen strdup resource type name room text_r text_t text_d in
    let ends =
      run_command-requests calloc strdup writes first second reads stack sock room255 answer
        stores_r stores_t stores_d text_r filled prefix text_d ne short in
    let place : connect (slice_value (some conf.addr)) conf.port ≡ (pos sock, pos 0) =
      rw (points, port) (connects rest) in
    rw (cf.found, cf.text)
      (rw (◌>>=◌, created)
        (rw (connect_server-connects _ sock place) (
          rw (◌>>=◌, run_client-runs calloc strdup _ _ stack sock _ _ options ∙ ends)
            (destroy_conf-ends json conf _ stores_a))))
