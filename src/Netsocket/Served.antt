-- ===== src/Netsocket/Served.antt =====
-- What the read callback of src/server/netsocket.c comes to, event after event.
use sample_sds_storage.Base.{
  ℕ, ◌≡◌, refl, ap, ◌∙◌, Bool, true, false, Option, none, some, List, [], ◌∷◌, Always, Always-bind,
  Always-after, Always-if, ℤ, failure, length, drop, ok, ◌||◌, ltb, fault,
}
use sample_sds_storage.Slice.Strings.{CharPtr, at, c_string}
use sample_sds_storage.Hash.Double.{Double}
use sample_sds_storage.Hash.Mix.{gfs_hashfn}
use sample_sds_storage.LinkedList.{Ptr}
use sample_sds_storage.Utils.{Read, got, failed, Write, read_n}
use sample_sds_storage.BucketObject.{BucketObject}
use sample_sds_storage.Bucket.{Files}
use sample_sds_storage.Netsocket.{
  Store, ev_io_watcher, ctx_of, Answer, Response, find_set, read_into, put_into, put_object,
  put_bucketset_size, answer, respond, received, type_of, read_cb,
}

-- The request was refused, and the store is as it was.
abbrev IsRefused : Store → Answer → Type 0
IsRefused st none = Unit
IsRefused st (some (st', name, ret)) = (st' ≡ st) × (ret ≡ failure)

-- A response that says of a put that it was refused.
abbrev pub IsRefusal : Response → Type 0
IsRefusal response = (response.req_type ≡ 0) × (response.ret ≡ failure)

abbrev pub AreRefusals : List Response → Type 0
AreRefusals [] = Unit
AreRefusals (response ∷ sent) = IsRefusal response × AreRefusals sent

-- The result of the callback: the same store, with a refusal at most.
abbrev Refuses : Store → Option (Store × Option Response) → Type 0
Refuses st none = Unit
Refuses st (some (st', none)) = st' ≡ st
Refuses st (some (st', some response)) = (st' ≡ st) × IsRefusal response

type_of_nothing : (recv : Read) → received recv ≡ false → type_of recv ≡ 0
type_of_nothing (got []) h = refl
type_of_nothing (got (c ∷ bs)) h = cc h
type_of_nothing (failed errno) h = refl

or_right : (a b : Bool) → (a || b) ≡ false → b ≡ false
or_right true b h = cc h
or_right false b h = h

or_true : (a b : Bool) → b ≡ true → (a || b) ≡ true
or_true true b h = refl
or_true false b h = h

abbrev pub responses : Option Response → List Response → List Response
responses none sent = sent
responses (some response) sent = response ∷ sent

module _ (fs : Files) (calloc : ℕ → Bool) (name_of : CharPtr → CharPtr → ℕ → ℕ → List ℕ)
    (d : Double) (fresh_list fresh_node address : Ptr) (obj : BucketObject) (ret : ℤ)
    (object_stack set_stack : List ℕ) (st : Store) where
  -- With no set, none is found.
  put_object-IsRefused :
      (read : Option (ℤ × List ℕ × List Read)) (puts : List Read) (writes : List Write)
      → st.sets.size ≡ 0
      → Always (IsRefused st) (
          put_object fs calloc name_of d fresh_list fresh_node address obj ret object_stack
            set_stack read puts writes st)
  unfolding put_object put_into find_set
  put_object-IsRefused none puts writes empty = tt
  put_object-IsRefused (some (_, arrived, _)) puts writes empty =
      let req = read_into arrived object_stack in
      Always-after (IsRefused st) (c_string (at (drop 510 req))) _ (λ uid.
        Always-after (IsRefused st) (gfs_hashfn (drop 510 req) (length uid)) _
          (λ hash. rw empty (refl, refl)))

  respond-Refuses :
      (answered : Answer)
      → IsRefused st answered
      → Always (Refuses st) (
          respond fs calloc name_of d fresh_list fresh_node address obj ret object_stack set_stack 0
            answered)
  unfolding respond
  respond-Refuses none h = tt
  respond-Refuses (some (st', name, result)) (same, refused) =
      Always-after (Refuses st) (c_string name) _ (λ copied.
        Always-if (Refuses st) (ltb put_bucketset_size (length copied)) fault
          (ok (some (st', some (record { req_type = 0; name = copied; ret = result })))) (λ _. tt)
          (λ _. (same, (refl, refused))))

  read_cb-Refuses :
      (error : Bool) (recv : Read) (reads puts : List Read) (writes : List Write)
      → st.sets.size ≡ 0
      → Always (Refuses st) (
          read_cb fs calloc name_of d fresh_list fresh_node address obj ret object_stack set_stack
            (ev_io_watcher st)
            error
            recv
            reads
            puts
            writes)
  unfolding read_cb ctx_of answer
  read_cb-Refuses error recv reads puts writes empty =
      let P = Refuses st in
      Always-if P (calloc 4194304) _ _
        (λ _.
          Always-if P (error || received recv) _ _ (λ _. refl)
            (λ quiet.
              let none_came : type_of recv ≡ 0 =
                type_of_nothing recv (or_right error (received recv) quiet) in
              rw none_came (
                Always-bind (IsRefused st) P
                  (put_object fs calloc name_of d fresh_list fresh_node address obj ret object_stack
                    set_stack (read_n reads 552) puts writes st)
                  _ (put_object-IsRefused (read_n reads 552) puts writes empty) respond-Refuses)))
        (λ _. tt)

  -- A byte that has come is taken for an error.
  abbrev IsDropped : Option (Store × Option Response) → Type 0
  IsDropped none = Unit
  IsDropped (some (st', response)) = response ≡ none

  read_cb-IsDropped :
      (error : Bool) (recv : Read) (reads puts : List Read) (writes : List Write)
      → received recv ≡ true
      → Always IsDropped (
          read_cb fs calloc name_of d fresh_list fresh_node address obj ret object_stack set_stack
            (ev_io_watcher st)
            error
            recv
            reads
            puts
            writes)
  unfolding read_cb ctx_of
  read_cb-IsDropped error recv reads puts writes came =
      Always-if IsDropped (calloc 4194304) _ _ (λ _. rw (or_true error (received recv) came) refl)
        (λ _. tt)

-- Events of the read callback, one after another, each with the machine and the stack that it finds
-- and with what its calls do, where `Allowed` says what `recv` may do: the callback returns, and
-- what it sends is added.
pub data Serves (Allowed : Read → Type 0) (calloc : ℕ → Bool)
    (name_of : CharPtr → CharPtr → ℕ → ℕ → List ℕ) (d : Double)
    : Store → List Response → Store → List Response → Type 0 where
  done : (st : Store) (sent : List Response) → Serves Allowed calloc name_of d st sent st sent
  event :
      {st st' st'' : Store} {sent sent'' : List Response} {response : Option Response} (fs : Files)
      (fresh_list fresh_node address : Ptr) (obj : BucketObject) (ret : ℤ)
      (object_stack set_stack : List ℕ) (error : Bool) (recv : Read) (reads puts : List Read)
      (writes : List Write)
      → Allowed recv
      → read_cb fs calloc name_of d fresh_list fresh_node address obj ret object_stack set_stack
          (ev_io_watcher st)
          error
          recv
          reads
          puts
          writes
        ≡ ok (some (st', response))
      → Serves Allowed calloc name_of d st' (responses response sent) st'' sent''
      → Serves Allowed calloc name_of d st sent st'' sent''

abbrev pub Anything : Read → Type 0
Anything recv = Unit

abbrev pub HasByte : Read → Type 0
HasByte recv = received recv ≡ true

added-AreRefusals :
    {st st' : Store} (response : Option Response) (sent : List Response)
    → Refuses st (some (st', response))
    → AreRefusals sent
    → (st' ≡ st) × AreRefusals (responses response sent)
added-AreRefusals none sent same refused = (same, refused)
added-AreRefusals (some response) sent (same, refusal) refused = (same, (refusal, refused))

module _ {calloc : ℕ → Bool} {name_of : CharPtr → CharPtr → ℕ → ℕ → List ℕ} {d : Double} where
  Serves-AreRefusals :
      {Allowed : Read → Type 0} {st st' : Store} {sent sent' : List Response}
      → st.sets.size ≡ 0
      → AreRefusals sent
      → Serves Allowed calloc name_of d st sent st' sent'
      → (st' ≡ st) × AreRefusals sent'
  Serves-AreRefusals empty refused (done st sent) = (refl, refused)
  Serves-AreRefusals {st} {sent} empty refused
        (event {st' = mid} {response = response} fs fresh_list fresh_node address obj ret
          object_stack set_stack error recv reads puts writes allowed run more) =
      let at : Refuses st (some (mid, response)) = rw run at (
        read_cb-Refuses fs calloc name_of d fresh_list fresh_node address obj ret object_stack
          set_stack st error recv reads puts writes empty) in
      let (same, all) = added-AreRefusals response sent at refused in
      let (later, rest) =
        Serves-AreRefusals (ap (λ (s : Store). s.sets.size) same ∙ empty) all more in
      (later ∙ same, rest)

  -- Of a store that counts no sets, as it is at the start: however many events the read callback
  -- returns from, whatever `recv` and the other calls do in each and whatever lies on the stack,
  -- the store is as it was, and every response that has been sent refuses a put. No set is made.
  pub Serves-refuses :
      {st st' : Store} {sent : List Response}
      → st.sets.size ≡ 0
      → Serves Anything calloc name_of d st [] st' sent
      → (st' ≡ st) × AreRefusals sent
  Serves-refuses empty served = Serves-AreRefusals empty tt served

  -- While `recv` gives bytes, nothing is sent.
  pub Serves-sends_nothing :
      {st st' : Store} {sent sent' : List Response}
      → Serves HasByte calloc name_of d st sent st' sent'
      → sent' ≡ sent
  Serves-sends_nothing (done st sent) = refl
  Serves-sends_nothing {st}
        (event {st' = mid} {sent = sent} {response = response} fs fresh_list fresh_node address obj
          ret object_stack set_stack error recv reads puts writes came run more) =
      let silent : response ≡ none = rw run at (
        read_cb-IsDropped fs calloc name_of d fresh_list fresh_node address obj ret object_stack
          set_stack st error recv reads puts writes came) in
      Serves-sends_nothing more ∙ ap (λ r. responses r sent) silent
