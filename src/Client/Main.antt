-- ===== src/Client/Main.antt =====
-- `main` of src/client/sds_store_client.c.
use sample_sds_storage.Base.{
  ℕ, ◌==◌, ◌++◌, map, drop, length, Bool, false, Option, none, some, List, [], ◌∷◌, if◌then◌else◌,
  ℤ, pos, failure, is_success, is_failure, Run, ok, ◌>>=◌, or_fault,
}
use sample_sds_storage.Slice.{Slice, slice, raw, slice_init, slice_value, slice_size, slice_deinit}
use sample_sds_storage.Slice.Strings.{CharPtr, at, null, c_string, strncmp_equal}
use sample_sds_storage.Utils.{Read, Write}
use sample_sds_storage.Conf.{Json}
use sample_sds_storage.Client.{
  check_conf, connect_server, client_conf_create, client_conf_destroy, ClientConf,
}
use sample_sds_storage.Request.{Outcome, request_put_bucketset_init}

-- The two entries of `op_resource_names`.
abbrev pub buckset_name : List ℕ
buckset_name = b'b' ∷ b'u' ∷ b'c' ∷ b'k' ∷ b's' ∷ b'e' ∷ b't' ∷ 0 ∷ []

abbrev pub object_name : List ℕ
object_name = b'o' ∷ b'b' ∷ b'j' ∷ b'e' ∷ b'c' ∷ b't' ∷ 0 ∷ []

-- The slices on the stack, none where `slice_init` has not been called.
pub record Options : Type 0 where
  pub resource_name : Option Slice
  pub op_type : Option Slice
  pub op_data : Option Slice

abbrev pub no_options : Options
no_options = record { resource_name = none; op_type = none; op_data = none }

-- How the program ends: `exit`, or the return of 0, with the request that was made.
pub data End : Type 0 where
  exited : ℤ → End
  returned : Option Outcome → End

-- The option that `getopt_long` finds, with `optarg`.
pub data Found : Type 0 where
  r_option : CharPtr → Found
  t_option : CharPtr → Found
  d_option : CharPtr → Found
  other_option : Found

-- An option as it is given, with the letter that it stands for: a short one with what is next to
-- it, or a long one with its argument.
pub data Given : Type 0 where
  short_option long_option : (letter : ℕ) (text : CharPtr) → Given

-- `options`
abbrev pub short_options : List ℕ
short_options = b'r' ∷ b't' ∷ b'd' ∷ b':' ∷ []

abbrev pub starts_with_colon : List ℕ → Bool
starts_with_colon [] = false
starts_with_colon (c ∷ letters) = c == b':'

-- The letter has a colon behind it.
abbrev pub takes_argument : ℕ → List ℕ → Bool
takes_argument letter [] = false
takes_argument letter (c ∷ letters) =
    let rest = takes_argument letter letters in
    if c == letter then starts_with_colon letters else rest

abbrev pub option_of : (letter : ℕ) (optarg : CharPtr) → Found
option_of letter optarg =
    if letter == b'r'
    then r_option optarg
    else if letter == b't'
    then t_option optarg
    else if letter == b'd'
    then d_option optarg
    else other_option

-- What `getopt_long` finds: `optarg` is NULL for a short option without an argument.
abbrev pub found_of : Given → Found
found_of (long_option letter text) = option_of letter text
found_of (short_option letter text) =
    option_of letter (if takes_argument letter short_options then text else null)

-- `slice_init(&se, optarg) != 0` ends the program: none.
unfoldable pub take_argument : (strdup : ℕ → Bool) → CharPtr → Run (Option Slice)
take_argument strdup optarg = do
  (ret, se) ← slice_init strdup (some (slice raw 0)) optarg
  ok (if is_success ret then se else none)

-- The loop over the options: none where one of them ends the program.
unfoldable pub read_options : (strdup : ℕ → Bool) → List Found → Options → Run (Option Options)
read_options strdup [] options = ok (some options)
read_options strdup (r_option optarg ∷ found) options = do
  se ← take_argument strdup optarg
  elim se [
    | none ↦ ok none
    | some name ↦ read_options strdup found (record options { resource_name = some name })
  ]
read_options strdup (t_option optarg ∷ found) options = do
  se ← take_argument strdup optarg
  elim se [
    | none ↦ ok none
    | some type ↦ read_options strdup found (record options { op_type = some type })
  ]
read_options strdup (d_option optarg ∷ found) options = do
  se ← take_argument strdup optarg
  elim se [
    | none ↦ ok none
    | some data_text ↦ read_options strdup found (record options { op_data = some data_text })
  ]
read_options strdup (other_option ∷ found) options = read_options strdup found options

-- `strncmp(slice_value(&resource_name), name, slice_size(&resource_name)) == 0`
unfoldable pub is_resource : Slice → List ℕ → Run Bool
is_resource se name = strncmp_equal (slice_value (some se)) name (slice_size (some se))

-- `out:` the slices are released, those that were never set too.
unfoldable pub release : Options → Run (Unit {0})
release options = do
  type ← or_fault options.op_type
  _ ← slice_deinit (some type)
  name ← or_fault options.resource_name
  _ ← slice_deinit (some name)
  op_data ← or_fault options.op_data
  _ ← slice_deinit (some op_data)
  ok tt

-- `conf_destroy` at the end of `main`, which `exit` does not come to.
unfoldable pub destroy_conf : (json : Json) → ClientConf json → Option End → Run (Option End)
destroy_conf json cf (some (returned made)) = do
  _ ← client_conf_destroy json (some cf)
  ok (some (returned made))
destroy_conf json cf end = ok end

-- `stack` is what lies in `ack` and behind it.
module _ (calloc strdup : ℕ → Bool) (writes : List Write) (reads : List Read) (stack : List ℕ) where
  -- What follows the options. The message on success prints `ack.ack.name`, which begins at the
  -- second byte; the log is open from the start, on descriptor 0. A `none` of the requests means
  -- that a loop still waits.
  unfoldable pub run_command : (sock : ℤ) → Options → Run (Option End)
  run_command sock options = do
    name ← or_fault options.resource_name
    buckset ← is_resource name buckset_name
    if buckset
        then (do
          op_data ← or_fault options.op_data
          made ← request_put_bucketset_init calloc sock (slice_value (some op_data)) writes reads
          elim made [
            | none ↦ ok none
            | some out ↦ if is_failure out.ret then ok (some (exited (pos 1))) else (do
              _ ← c_string (at (drop 1 (out.ack ++ drop (length out.ack) stack)))
              _ ← release options
              ok (some (returned (some out))))
          ])
        else (do _ ← is_resource name object_name; _ ← release options; ok (some (returned none)))

  -- `main` from the connection on.
  unfoldable pub run_client : (sock : ℤ) → List Found → Run (Option End)
  run_client sock found =
      if is_failure sock then (do _ ← release no_options; ok (some (returned none))) else (do
        options ← read_options strdup found no_options
        elim options [
          | none ↦ ok (some (exited failure))
          | some options' ↦ run_command sock options'
        ])

  -- `main` from the path of the configuration on. Through a NULL configuration its address is read.
  unfoldable pub run_configured :
      (json : Json) (room : Bool) (read : List ℕ → Option (List ℕ)) (connect : CharPtr → ℤ → ℤ × ℤ)
      → List Found
      → Option (List ℕ)
      → Run (Option End)
  run_configured json room read connect found none = ok (some (exited (pos 0)))
  run_configured json room read connect found (some path) = do
    created ← client_conf_create json room strdup (read path)
    cf ← or_fault created
    let (socket, connected) = connect (slice_value (some cf.addr)) cf.port
    end ← run_client (connect_server socket connected) found
    destroy_conf json cf end

  -- `main`.
  unfoldable pub client_main :
      (json : Json) (exists : List ℕ → Bool) (room : Bool) (read : List ℕ → Option (List ℕ))
      (connect : CharPtr → ℤ → ℤ × ℤ)
      → List Given
      → Run (Option End)
  client_main json exists room read connect options =
      run_configured json room read connect (map found_of options) (check_conf exists)
