-- ===== src/Client/Exchange.antt =====
-- The client of src/client against the server of src/server: what the one sends is what the other
-- reads.
use sample_sds_storage.Base.{
  ℕ, ◌≡◌, ◌≢◌, refl, inl, inr, ◌⊎◌, Bool, Option, none, some, List, [], ◌∷◌, ◌++◌, map, ℤ, pos,
  failure, is_failure, ok, always_rules, Always, Always-after, Always-bind, Always-if, or_fault,
  Option-cases,
}
use sample_sds_storage.Slice.{slice_value}
use sample_sds_storage.Slice.Strings.{CharPtr}
use sample_sds_storage.Hash.Double.{Double}
use sample_sds_storage.Utils.{Read, got, failed, Write, read_loop, read_n}
use sample_sds_storage.Netsocket.{Store, Response}
use sample_sds_storage.Netsocket.Served.{Serves, HasByte, Serves-sends_nothing}
use sample_sds_storage.Request.{Outcome, read_ack, request_put_bucketset_init}
use sample_sds_storage.Request.Outcomes.{HasFailed, resume-HasFailed}
use sample_sds_storage.Conf.{Json}
use sample_sds_storage.Client.{
  check_conf, client_conf_create, client_conf_destroy, ClientConf, connect_server,
}
use sample_sds_storage.Client.Main.{
  buckset_name, object_name, Options, no_options, End, exited, returned, Found, Given, found_of,
  read_options, is_resource, release, run_command, run_client, run_configured, destroy_conf,
  client_main,
}

-- The bytes that calls of `read` deliver.
abbrev pub delivered : List Read → List ℕ
delivered [] = []
delivered (got bs ∷ calls) = bs ++ delivered calls
delivered (failed errno ∷ calls) = delivered calls

-- A peer that delivers nothing: the loop waits, or ends with nothing.
IsQuiet : Option (ℤ × List ℕ × List Read) → Type 0
IsQuiet o = (o ≡ none) ⊎ ((calls : List Read) × (o ≡ some (pos 0, [], calls)))

read_n-IsQuiet : (reads : List Read) → delivered reads ≡ [] → IsQuiet (read_n reads 255)
unfolding read_n read_loop IsQuiet
read_n-IsQuiet [] e = inl refl
read_n-IsQuiet (got [] ∷ calls) e = inr (calls, refl)
read_n-IsQuiet (got (c ∷ bs) ∷ calls) e = cc e
read_n-IsQuiet (failed errno ∷ calls) e = inr (calls, refl)

quiet-HasFailed :
    (sent : List ℕ) (reads : List Read)
    → delivered reads ≡ []
    → HasFailed (read_ack sent (read_n reads 255))
unfolding read_ack IsQuiet
quiet-HasFailed sent reads e = elim (read_n-IsQuiet reads e) [
  | inl waits ↦ rw waits tt
  | inr (calls, ended) ↦ rw ended refl
]

request_put_bucketset_init-HasFailed :
    (calloc : ℕ → Bool) (sock : ℤ) (set_name : CharPtr) (writes : List Write) (reads : List Read)
    → delivered reads ≡ []
    → Always HasFailed (request_put_bucketset_init calloc sock set_name writes reads)
unfolding request_put_bucketset_init
request_put_bucketset_init-HasFailed calloc sock set_name writes reads e =
    search (always_rules, resume-HasFailed, quiet-HasFailed) depth 20

-- The program has not returned with a request that was made.
abbrev HasNone : Option End → Type 0
HasNone (some (returned (some out))) = ⊥
HasNone _ = Unit

destroy_conf-HasNone :
    (json : Json) (cf : ClientConf json) (end : Option End)
    → HasNone end
    → Always HasNone (destroy_conf json cf end)
unfolding destroy_conf
destroy_conf-HasNone json cf none h = tt
destroy_conf-HasNone json cf (some (exited code)) h = tt
destroy_conf-HasNone json cf (some (returned none)) h =
    Always-after HasNone (client_conf_destroy json (some cf)) _ (λ _. tt)
destroy_conf-HasNone json cf (some (returned (some out))) h = absurd h

module _ (calloc strdup : ℕ → Bool) (writes : List Write) (reads : List Read) (stack : List ℕ)
    (quiet : delivered reads ≡ []) where
  run_command-HasNone :
      (sock : ℤ) (options : Options)
      → Always HasNone (run_command calloc strdup writes reads stack sock options)
  unfolding run_command
  run_command-HasNone sock options =
      let P = HasNone in
      Always-after P (or_fault options.resource_name) _ (λ name.
        Always-after P (is_resource name buckset_name) _ (λ buckset.
          Always-if P buckset _ _
            (λ _. Always-after P (or_fault options.op_data) _ (λ op_data.
              Always-bind HasFailed P
                (request_put_bucketset_init calloc sock (slice_value (some op_data)) writes reads) _
                (request_put_bucketset_init-HasFailed calloc sock (slice_value (some op_data))
                  writes reads quiet)
                (λ made fails. elim (Option-cases made) [
                  | inl e ↦ rw e tt
                  | inr (out, e) ↦ let lost : out.ret ≡ failure = rw e at fails in rw (e, lost) tt
                ])))
            (λ _.
              Always-after P (is_resource name object_name) _
                (λ _. Always-after P (release options) _ (λ _. tt)))))

  run_client-HasNone :
      (sock : ℤ) (found : List Found)
      → Always HasNone (run_client calloc strdup writes reads stack sock found)
  unfolding run_client
  run_client-HasNone sock found =
      let P = HasNone in
      Always-if P (is_failure sock) _ _ (λ _. Always-after P (release no_options) _ (λ _. tt))
        (λ _. Always-after P (read_options strdup found no_options) _ (λ options.
          elim (Option-cases options) [
            | inl e ↦ rw e tt
            | inr (options', e) ↦ rw e (run_command-HasNone sock options')
          ]))

  run_configured-HasNone :
      (json : Json) (room : Bool) (read : List ℕ → Option (List ℕ)) (connect : CharPtr → ℤ → ℤ × ℤ)
      (found : List Found) (path : Option (List ℕ))
      → Always HasNone
          (run_configured calloc strdup writes reads stack json room read connect found path)
  unfolding run_configured
  run_configured-HasNone json room read connect found none = tt
  run_configured-HasNone json room read connect found (some path) =
      let P = HasNone in
      Always-after P (client_conf_create json room strdup (read path)) _ (λ created.
        Always-after P (or_fault created) _ (λ cf.
          let (socket, connected) = connect (slice_value (some cf.addr)) cf.port in
          Always-bind P P
            (run_client calloc strdup writes reads stack (connect_server socket connected) found) _
            (run_client-HasNone (connect_server socket connected) found)
            (destroy_conf-HasNone json cf)))

-- What goes over the connection, given the bytes of each response.
abbrev pub wire : (encode : Response → List ℕ) → List Response → List ℕ
wire encode [] = []
wire encode (response ∷ sent) = encode response ++ wire encode sent

prefix-nil : (xs ys : List ℕ) → xs ++ ys ≡ [] → xs ≡ []
prefix-nil [] ys e = refl
prefix-nil (x ∷ xs) ys e = cc e

-- Whatever events the server has returned from, each with a `recv` that gave a byte, as it does for
-- the bytes that a client has sent: a client whose reads deliver no more than the server has sent
-- never returns with a bucket set that was made, for the server has sent nothing.
pub client_main-never :
    (calloc strdup : ℕ → Bool) (name_of : CharPtr → CharPtr → ℕ → ℕ → List ℕ) (d : Double)
    (st st' : Store) (sent : List Response) (encode : Response → List ℕ) (writes : List Write)
    (reads : List Read) (behind stack : List ℕ) (json : Json) (exists : List ℕ → Bool) (room : Bool)
    (read : List ℕ → Option (List ℕ)) (connect : CharPtr → ℤ → ℤ × ℤ) (given : List Given)
    (out : Outcome)
    → Serves HasByte calloc name_of d st [] st' sent
    → delivered reads ++ behind ≡ wire encode sent
    → client_main calloc strdup writes reads stack json exists room read connect given
      ≢ ok (some (returned (some out)))
unfolding client_main
client_main-never calloc strdup name_of d st st' sent encode writes reads behind stack json exists
      room read connect given out served arrived run =
    let none_sent = Serves-sends_nothing served in
    let quiet = prefix-nil (delivered reads) behind (rw none_sent at arrived) in
    rw run at (
      run_configured-HasNone calloc strdup writes reads stack quiet json room read connect
        (map found_of given) (check_conf exists))
