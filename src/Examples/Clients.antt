-- ===== src/Examples/Clients.antt =====
-- The client of src/client at concrete inputs.
use sample_sds_storage.Base.{
  ℕ, ◌≡◌, ◌≢◌, refl, Bool, true, false, Option, some, map, ℤ, pos, success, List, [], ◌∷◌, ◌++◌,
  arith, ok, replicate,
}
use sample_sds_storage.Slice.{Slice, slice, buf}
use sample_sds_storage.Slice.Stores.{inside}
use sample_sds_storage.Client.Main.{buckset_name, is_resource, Given, returned, client_main}
use sample_sds_storage.Client.Resources.{is_resource-is_prefix}
use sample_sds_storage.Slice.Strings.{CharPtr}
use sample_sds_storage.Utils.{got, took}
use sample_sds_storage.Utils.Receive.{joined}
use sample_sds_storage.Request.{Outcome}
use sample_sds_storage.Client.{check_conf, first_path}
use sample_sds_storage.Client.Options.{usage}
use sample_sds_storage.Client.Requests.{IsAnswer, IsConfigured, client_main-requests}
use sample_sds_storage.Client.Exchange.{client_main-never}
use sample_sds_storage.Examples.Transfers.{whole_numbers}
use sample_sds_storage.Examples.Buckets.{same_name}
use sample_sds_storage.Examples.Requests.{plenty, name, request, reply}
use sample_sds_storage.Examples.Nets.{parsing, empty_store, one_event}

-- The name that the usage gives.
abbrev given : List ℕ
given = b'b' ∷ b'u' ∷ b'c' ∷ b'k' ∷ b'e' ∷ b't' ∷ b's' ∷ b'e' ∷ b't' ∷ []

abbrev given_slice : Slice
given_slice = slice (buf (given ++ 0 ∷ [])) 9

is_resource-is_prefix_example : is_resource given_slice buckset_name ≡ ok false
is_resource-is_prefix_example =
    is_resource-is_prefix given (b'b' ∷ b'u' ∷ b'c' ∷ b'k' ∷ b's' ∷ b'e' ∷ b't' ∷ []) [] given_slice
      (inside [] (omega arith)) (omega arith) (λ e. cc e)

-- The file system has the first path, with some text in its file.
abbrev exists : List ℕ → Bool
exists path = true

abbrev read : List ℕ → Option (List ℕ)
read path = some (b'{' ∷ b'}' ∷ 0 ∷ [])

abbrev connect : CharPtr → ℤ → ℤ × ℤ
connect address port = (pos 4, pos 0)

configured : IsConfigured parsing exists read (b'h' ∷ [])
unfolding check_conf first_path
configured = record {
  path = _;
  buf = b'{' ∷ b'}' ∷ 0 ∷ [];
  root = 1;
  behind = [];
  found = refl;
  text = refl;
  parsed = refl;
  stored = refl;
  is_text = omega arith;
  ne = λ e. cc e;
}

answered : IsAnswer request reply
answered = record {
  full_first = (omega arith, tt);
  size_first = refl;
  full_second = (omega arith, tt);
  size_second = refl;
  kind = 2;
  name = name;
  behind = replicate 257 0;
  named = refl;
  is_text = omega arith;
}

-- `--resource b --type c -d s`
abbrev options : List Given
options = usage (b'b' ∷ []) (b'c' ∷ []) name

client_main-requests_example :
    client_main plenty plenty
      (took 1 ∷ [])
      (map got request ++ (map got reply ++ []))
      []
      parsing
      exists
      true
      read
      connect
      options
    ≡ ok (some (returned (some (record { ret = success; sent = 2 ∷ []; ack = joined reply }))))
unfolding configured
client_main-requests_example =
    client_main-requests plenty plenty [] request reply [] [] parsing exists read connect 4
      (b'h' ∷ []) (b'b' ∷ []) (b'c' ∷ []) name (λ n. refl) refl configured (λ rest. refl) answered
      (omega arith) (λ e. cc e) refl (omega arith) (omega arith) (λ e. cc e) (omega arith)

abbrev any_outcome : Outcome
any_outcome = record { ret = success; sent = 2 ∷ []; ack = joined reply }

client_main-never_example :
    client_main plenty plenty (took 1 ∷ []) [] [] parsing exists true read connect options
    ≢ ok (some (returned (some any_outcome)))
client_main-never_example =
    client_main-never plenty plenty same_name whole_numbers empty_store empty_store []
      (λ response. response.name) (took 1 ∷ []) [] [] [] parsing exists true read connect options
      any_outcome one_event refl
