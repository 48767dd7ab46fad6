-- ===== src/Request.antt =====
-- src/common/request.c: how the client puts an object and a bucket set.
pub mod Outcomes
pub mod Answers
pub mod Undefined
use sample_sds_storage.Base.{
  ℕ, zero, suc, ◌+◌, ◌-◌, ◌*◌, ◌/◌, ◌%◌, ◌^◌, Bool, true, false, ◌&&◌, not, Option, none, some,
  List, [], ◌∷◌, ◌++◌, ltb, ◌==◌, if◌then◌else◌, ℤ, pos, negsuc, success, failure, is_success,
  is_failure, to_size, length, take, replicate, Run, ok, fault, abort, ◌>>=◌, or_fault,
}
use sample_sds_storage.Slice.{Slice, slice, raw, slice_value, slice_size, slice_deinit}
use sample_sds_storage.Slice.Strings.{CharPtr, is_null, c_string}
use sample_sds_storage.Utils.{Read, Write, read_n, write_n, parse_file_name}
use sample_sds_storage.Md5.{md5_file}
use sample_sds_storage.Netsocket.{
  req_put_object, req_put_bucketset, put_object_size, put_bucketset_size,
}

-- `BUCKET_BUFFER_LENGTH`, `sizeof(response_ack)` and `REQUEST_READ_BUFFER_LENGTH`
abbrev pub name_length : ℕ
name_length = 255

abbrev pub ack_size : ℕ
ack_size = 260

abbrev pub read_buffer_length : ℕ
read_buffer_length = 4 * 1024 * 1024

-- What a request returns, the bytes that the socket has taken, and the answer that was read.
pub record Outcome : Type 0 where
  pub ret : ℤ
  pub sent : List ℕ
  pub ack : List ℕ

-- `none` means that the behaviours of the calls are used up and a loop still waits.
abbrev pub Result : Type 0
Result = Run (Option Outcome)

abbrev pub refused : List ℕ → Outcome
refused sent = record { ret = failure; sent = sent; ack = [] }

-- What follows a loop that has returned something.
abbrev pub resume {ℓ} : {A : Type ℓ} → Option A → (A → Result) → Result
resume none next = ok none
resume (some a) next = next a

-- What follows a `write_n`, with its result, what it has sent and the calls of `write` left.
abbrev pub after_write :
    Run (Option (ℤ × List ℕ × List Write)) → (ℤ × List ℕ × List Write → Result) → Result
after_write written next = do result ← written; resume result next

abbrev pub is_negative : ℤ → Bool
is_negative (pos n) = false
is_negative (negsuc n) = true

-- `sock` and `set_name` that can be used.
abbrev pub usable : ℤ → CharPtr → Bool
usable sock p = not (is_failure sock) && not (is_null p)

-- The end of `request_put_bucketset_init`: what is read goes into the request and the answer.
unfoldable pub read_ack : (sent : List ℕ) → Option (ℤ × List ℕ × List Read) → Option Outcome
read_ack sent none = none
read_ack sent (some (readn, req, reads)) =
    if to_size readn == put_bucketset_size
    then elim (read_n reads ack_size) [
      | none ↦ none
      | some (_, ack, _) ↦ some (record { ret = success; sent = sent; ack = ack })
    ]
    else some (refused sent)

-- The type of the request is sent; its name is copied into a request that is then read into.
unfoldable pub request_put_bucketset_init :
    (calloc : ℕ → Bool) (sock : ℤ) (set_name : CharPtr) → List Write → List Read → Result
request_put_bucketset_init calloc sock set_name writes reads =
    if usable sock set_name
    then after_write (write_n writes (req_put_bucketset ∷ []) 1) (λ (ret, sent, left).
      if calloc put_bucketset_size
      then (do
        name ← c_string set_name
        if ltb name_length (length name)
            then fault
            else ok (read_ack sent (read_n reads put_bucketset_size)))
      else abort)
    else ok (some (refused []))

-- `strncpy` into a field of so many bytes that were zero.
unfoldable pub fill_field : (size : ℕ) → List ℕ → Run (List ℕ)
fill_field size text =
    if ltb size (length text) then fault else ok (text ++ replicate (size - length text) 0)

-- The bytes of a number, the lowest first.
unfoldable pub bytes_of : (left : ℕ) → ℕ → List ℕ
bytes_of zero n = []
bytes_of (suc left) n = (n % 256) ∷ bytes_of left (n / 256)

-- The request as it lies in memory, with two bytes of padding; `uid` stays zero.
abbrev request_bytes : (object_name set_name : List ℕ) (data_length : ℕ) → List ℕ
request_bytes object_name set_name data_length =
    object_name ++ set_name ++ replicate 34 0 ++ bytes_of 8 data_length

-- `BUCKET_OBJECT_UID_SZ`
abbrev pub uid_size : ℕ
uid_size = 32

-- `md5_file` writes the digits and a NUL into `uid`. It returns 0 or -1.
unfoldable pub digest_into_uid : Option (ℤ × List ℕ) → Run (Option (Unit {0}))
digest_into_uid none = ok none
digest_into_uid (some (ret, digest)) =
    if is_success ret && ltb uid_size (length digest + 1) then fault else ok (some tt)

-- The answer is read from the file.
unfoldable pub read_answer : (sent : List ℕ) → List Read → Result
read_answer sent reads =
    resume (read_n reads ack_size)
      (λ (_, ack, _). ok (some (record { ret = success; sent = sent; ack = ack })))

-- The loop over the file, with `left` bytes still to read, and the end of the function. It offers
-- the request and what lies behind it, `read_buffer_length` bytes. Each round uses up one of
-- `reads`.
unfoldable pub send_file :
    (fuel : ℕ) (req sent : List ℕ) (left : ℕ) → List Write → List Read → Result
send_file zero req sent left writes reads = ok none
send_file (suc fuel) req sent left writes reads =
    if left == 0
    then ok (some (refused sent))
    else resume (read_n reads read_buffer_length) (λ (n, _, rest).
      after_write (write_n writes req read_buffer_length) (λ (ret, more, writes').
        let again = send_file fuel req (sent ++ more) (left - to_size n) writes' rest in
        if is_negative ret
        then ok (some (refused (sent ++ more)))
        else if is_success ret
        then read_answer (sent ++ more) rest
        else again))

abbrev pub is_found : Option ℕ → Bool
is_found none = false
is_found (some size) = true

abbrev pub size_of : Option ℕ → ℕ
size_of none = 0
size_of (some size) = size

-- `stat` is the size of the file, or none where it fails; `opened` and `chunks` are what `md5_file`
-- meets, and `stack` what lies in its buffer.
unfoldable pub request_put_object_init :
    (calloc strdup : ℕ → Bool) (sock : ℤ) (path set_name : CharPtr) (stat : Option ℕ)
    (opened : Bool) (chunks : List (Option (List ℕ))) (stack : List ℕ)
    → List Write
    → List Read
    → Result
request_put_object_init calloc strdup sock path set_name stat opened chunks stack writes reads =
    if usable sock path && is_found stat
    then (if calloc put_object_size
        then after_write (write_n writes (req_put_object ∷ []) 1) (λ (ret, sent, left). do
          (_, named) ← parse_file_name strdup (some (slice raw 0)) path
          object_name ← c_string (slice_value named)
          first ← fill_field name_length (take (slice_size named) object_name)
          set ← c_string set_name
          second ← fill_field name_length set
          digested ← digest_into_uid (md5_file opened chunks stack)
          _ ← slice_deinit named
          let req = request_bytes first second (size_of stat)
          resume digested (λ _.
              after_write (write_n left req put_object_size) (λ (ret', more, writes').
                if calloc read_buffer_length
                then send_file (suc (length reads)) req (sent ++ more) (size_of stat) writes' reads
                else abort)))
        else abort)
    else ok (some (refused []))
