-- ===== src/Request/Outcomes.antt =====
-- What the requests of src/common/request.c come to.
use sample_sds_storage.Base.{
  sizes, ℕ, zero, suc, ◌≤◌, ◌<◌, ◌≡◌, refl, ap, Bool, true, false, Option, none, some, List, [],
  ◌∷◌, ◌++◌, map, arith, ltb, lt→ltb, le→ltb, ◌==◌, ℤ, pos, success, failure, length, ok, fault,
  ◌>>=◌, Always, Always-bind, Always-after, Always-if,
}
use sample_sds_storage.Slice.Strings.{CharPtr, at, IsText, c_string, until_nul-append}
use sample_sds_storage.Utils.{Read, got, Write, took, refused, read_n, write_loop, write_n}
use sample_sds_storage.Utils.Receive.{joined, IsFull, read_n-joined}
use sample_sds_storage.Request.{
  Outcome, Result, resume, read_ack, request_put_bucketset_init, fill_field, bytes_of,
  request_bytes, send_file, request_put_object_init,
}

-- A request that ends is reported as failed.
abbrev pub HasFailed : Option Outcome → Type 0
HasFailed none = Unit
HasFailed (some out) = out.ret ≡ failure

pub resume-HasFailed {ℓ} :
    {A : Type ℓ} (o : Option A) (next : A → Result)
    → ((a : A) → Always HasFailed (next a))
    → Always HasFailed (resume o next)
resume-HasFailed none next h = tt
resume-HasFailed (some a) next h = h a

-- What `send_file` offers lies past the end of the request.
overread :
    (writes : List Write) (req : List ℕ) → length req < 4194304 → write_n writes req 4194304 ≡ fault
unfolding write_n
overread writes req short = rw (lt→ltb (length req) 4194304 short) refl

send_file-HasFailed :
    (fuel : ℕ) (req sent : List ℕ) (left : ℕ) (writes : List Write) (reads : List Read)
    → length req < 4194304
    → Always HasFailed (send_file fuel req sent left writes reads)
unfolding send_file
send_file-HasFailed zero req sent left writes reads short = tt
send_file-HasFailed (suc fuel) req sent left writes reads short =
    Always-if HasFailed (left == 0) _ _ (λ _. refl)
      (λ _. resume-HasFailed (read_n reads 4194304) _ (λ r. rw (overread writes req short) tt))

fill_field-length :
    (size : ℕ) (text : List ℕ) → Always (λ out. length out ≡ size) (fill_field size text)
unfolding fill_field
fill_field-length size text =
    Always-if (λ out. length out ≡ size) (ltb size (length text)) _ _ (λ _. tt)
      (λ fits. let le : length text ≤ size = ground arith in grind sizes)

bytes_of-length : (left n : ℕ) → length (bytes_of left n) ≡ left
unfolding bytes_of
bytes_of-length zero n = refl
bytes_of-length (suc left) n = ap suc (bytes_of-length left _)

request_short :
    (first second : List ℕ) (size : ℕ)
    → length first ≡ 255
    → length second ≡ 255
    → length (request_bytes first second size) < 4194304
request_short first second size e e' = grind (sizes, bytes_of-length 8 size)

filled-HasFailed :
    (size : ℕ) (text : List ℕ) (next : List ℕ → Result)
    → ((out : List ℕ) → length out ≡ size → Always HasFailed (next out))
    → Always HasFailed (fill_field size text >>= next)
filled-HasFailed size text next h =
    Always-bind (λ out. length out ≡ size) HasFailed (fill_field size text) next
      (fill_field-length size text) h

sent-HasFailed :
    (first second sent : List ℕ) (size : ℕ) (writes : List Write) (reads : List Read)
    → length first ≡ 255
    → length second ≡ 255
    → Always HasFailed
        (send_file (suc (length reads)) (request_bytes first second size) sent size writes reads)
sent-HasFailed first second sent size writes reads e e' =
    send_file-HasFailed (suc (length reads)) (request_bytes first second size) sent size writes
      reads (request_short first second size e e')

-- What `search` may use of each call to show that a request fails.
ruleset failure_rules =
    (Always-if, filled-HasFailed, sent-HasFailed, resume-HasFailed, Always-after)

-- Whatever the file holds and the socket does, `request_put_object_init` never reports that an
-- object has been put: when it returns, it returns -1.
pub request_put_object_init-fails :
    (calloc strdup : ℕ → Bool) (sock : ℤ) (path set_name : CharPtr) (stat : Option ℕ)
    (opened : Bool) (chunks : List (Option (List ℕ))) (stack : List ℕ) (writes : List Write)
    (reads : List Read) (out : Outcome)
    → request_put_object_init calloc strdup sock path set_name stat opened chunks stack writes reads
      ≡ ok (some out)
    → out.ret ≡ failure
unfolding request_put_object_init
request_put_object_init-fails calloc strdup sock path set_name stat opened chunks stack writes reads
      out e =
    let always : Always HasFailed (
        request_put_object_init calloc strdup sock path set_name stat opened chunks stack writes
          reads) =
      search failure_rules depth 30 in
    rw e at always

pub type_sent :
    (writes : List Write) → write_n (took 1 ∷ writes) (2 ∷ []) 1 ≡ ok (some (pos 1, 2 ∷ [], writes))
unfolding write_n write_loop
type_sent [] = refl
type_sent (took n ∷ writes) = refl
type_sent (refused errno ∷ writes) = refl

-- With a socket that takes a byte, and a peer that sends 255 bytes and then 260, each in any number
-- of chunks, `request_put_bucketset_init` reports success with the last 260 as the answer; all that
-- it has sent is the type of the request, whatever the name of the set.
pub request_put_bucketset_init-sends :
    (calloc : ℕ → Bool) (sock : ℕ) (name behind : List ℕ) (writes : List Write)
    (first second : List (List ℕ)) (reads : List Read)
    → calloc 255 ≡ true
    → IsText name
    → length name ≤ 255
    → IsFull first
    → length (joined first) ≡ 255
    → IsFull second
    → length (joined second) ≡ 260
    → request_put_bucketset_init calloc
        (pos sock)
        (at (name ++ 0 ∷ behind))
        (took 1 ∷ writes)
        (map got first ++ (map got second ++ reads))
      ≡ ok (some (record { ret = success; sent = 2 ∷ []; ack = joined second }))
unfolding request_put_bucketset_init read_ack c_string
request_put_bucketset_init-sends calloc sock name behind writes first second reads room text_name
      short full255 size255 full260 size260 =
    let fits : ltb 255 (length name) ≡ false = le→ltb 255 (length name) short in
    rw (type_sent writes, room, until_nul-append name behind text_name, ◌>>=◌, fits)
      (rw (read_n-joined 255 (omega arith) first (map got second ++ reads) full255 size255)
        (rw (read_n-joined 260 (omega arith) second reads full260 size260) refl))
