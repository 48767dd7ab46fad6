-- ===== src/Request/Answers.antt =====
-- Every way in which the peer can answer `request_put_bucketset_init` of src/common/request.c.
use sample_sds_storage.Base.{
  ℕ, ◌^◌, ◌≤◌, ◌<◌, ◌≡◌, refl, Bool, true, false, some, List, [], ◌∷◌, ◌++◌, map, arith, ltb,
  le→ltb, ◌==◌, ==_ne, pos, success, to_size, length, ok, ◌>>=◌,
}
use sample_sds_storage.Slice.Strings.{at, IsText, c_string, until_nul-append}
use sample_sds_storage.Utils.{Read, got, failed, Write, took, read_n}
use sample_sds_storage.Utils.Transfer.{to_size_small}
use sample_sds_storage.Utils.Receive.{joined, IsFull, read_n-joined, read_n_short}
use sample_sds_storage.Request.{Outcome, refused, read_ack, request_put_bucketset_init}
use sample_sds_storage.Request.Outcomes.{type_sent, request_put_bucketset_init-sends}

-- A call of `read` after which nothing more is read: the end of the file, or an error.
pub data Ends : Read → Type 0 where
  end_of_file : Ends (got [])
  error : (errno : ℕ) → Ends (failed errno)

-- What the calls of `read` deliver, and what then comes of the request: 255 bytes and then 260; 255
-- and then fewer than 260; fewer than 255.
pub data Answers : List Read → Outcome → Type 0 where
  whole :
      (first second : List (List ℕ)) (calls : List Read)
      → IsFull first
      → length (joined first) ≡ 255
      → IsFull second
      → length (joined second) ≡ 260
      → Answers
          (map got first ++ (map got second ++ calls))
          (record { ret = success; sent = 2 ∷ []; ack = joined second })
  cut_answer :
      (first second : List (List ℕ)) (last : Read) (calls : List Read)
      → IsFull first
      → length (joined first) ≡ 255
      → IsFull second
      → length (joined second) < 260
      → Ends last
      → Answers
          (map got first ++ (map got second ++ last ∷ calls))
          (record { ret = success; sent = 2 ∷ []; ack = joined second })
  cut_request :
      (first : List (List ℕ)) (last : Read) (calls : List Read)
      → IsFull first
      → length (joined first) < 255
      → Ends last
      → Answers (map got first ++ last ∷ calls) (refused (2 ∷ []))

read_n-Ends :
    (len : ℕ) (chunks : List (List ℕ)) (last : Read) (calls : List Read)
    → len < 2 ^ 31
    → IsFull chunks
    → length (joined chunks) < len
    → Ends last
    → read_n (map got chunks ++ last ∷ calls) len
      ≡ some (pos (length (joined chunks)), joined chunks, calls)
read_n-Ends len chunks _ calls small full short end_of_file =
    (read_n_short len small chunks calls full short).0
read_n-Ends len chunks _ calls small full short (error errno) =
    (read_n_short len small chunks calls full short).1 errno

-- With memory, a name of at most 255 bytes and a socket that takes a byte, the request ends as the
-- peer answers it. Fewer than 255 bytes make it fail. From 255 on it succeeds, with as many of the
-- next 260 bytes as there are for the answer, also where they break off. In all cases nothing but
-- the type of the request has been sent, whatever the name of the set.
pub request_put_bucketset_init-Answers :
    (calloc : ℕ → Bool) (sock : ℕ) (name behind : List ℕ) (writes : List Write) (reads : List Read)
    (out : Outcome)
    → calloc 255 ≡ true
    → IsText name
    → length name ≤ 255
    → Answers reads out
    → request_put_bucketset_init calloc (pos sock) (at (name ++ 0 ∷ behind)) (took 1 ∷ writes) reads
      ≡ ok (some out)
unfolding request_put_bucketset_init read_ack c_string
request_put_bucketset_init-Answers calloc sock name behind writes _ _ room text short
      (whole first second calls full255 size255 full260 size260) =
    request_put_bucketset_init-sends calloc sock name behind writes first second calls room text
      short full255 size255 full260 size260
request_put_bucketset_init-Answers calloc sock name behind writes _ _ room text short
      (cut_answer first second last calls full255 size255 full260 size260 ends) =
    let fits : ltb 255 (length name) ≡ false = le→ltb 255 (length name) short in
    let rest = map got second ++ last ∷ calls in
    rw (type_sent writes, room, until_nul-append name behind text, ◌>>=◌, fits)
      (rw (read_n-joined 255 (omega arith) first rest full255 size255)
        (rw (read_n-Ends 260 second last calls (omega arith) full260 size260 ends) refl))
request_put_bucketset_init-Answers calloc sock name behind writes _ _ room text short
      (cut_request first last calls full size ends) =
    let fits : ltb 255 (length name) ≡ false = le→ltb 255 (length name) short in
    let count : to_size (pos (length (joined first))) ≡ length (joined first) =
      to_size_small (length (joined first)) (omega arith) in
    let other : (length (joined first) == 255) ≡ false = ==_ne _ 255 (ground arith) in
    rw (type_sent writes, room, until_nul-append name behind text, ◌>>=◌, fits)
      (rw (read_n-Ends 255 first last calls (omega arith) full size ends, count, other) refl)
