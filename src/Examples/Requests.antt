-- ===== src/Examples/Requests.antt =====
-- The requests of src/common/request.c at concrete inputs.
use sample_sds_storage.Base.{
  ℕ, ◌≡◌, refl, Bool, true, some, List, [], ◌∷◌, ◌++◌, map, arith, pos, success, replicate, ok,
  fault,
}
use sample_sds_storage.Slice.Strings.{at}
use sample_sds_storage.Utils.{got, failed, took}
use sample_sds_storage.Request.{request_put_bucketset_init, request_put_object_init}
use sample_sds_storage.Request.Undefined.{request_put_object_init-undefined}
use sample_sds_storage.Request.Answers.{cut_answer, error, request_put_bucketset_init-Answers}

abbrev pub plenty : ℕ → Bool
plenty n = true

abbrev pub name : List ℕ
name = b's' ∷ []

abbrev pub request : List (List ℕ)
request = replicate 255 7 ∷ []

abbrev pub reply : List (List ℕ)
reply = (2 ∷ b's' ∷ 0 ∷ replicate 257 0) ∷ []

request_put_bucketset_init-Answers_example :
    request_put_bucketset_init plenty
      (pos 4)
      (at (name ++ 0 ∷ []))
      (took 1 ∷ [])
      (map got request ++ (map got ((8 ∷ 8 ∷ []) ∷ []) ++ failed 4 ∷ []))
    ≡ ok (some (record { ret = success; sent = 2 ∷ []; ack = 8 ∷ 8 ∷ [] }))
request_put_bucketset_init-Answers_example =
    request_put_bucketset_init-Answers plenty 4 name [] []
      (map got request ++ (map got ((8 ∷ 8 ∷ []) ∷ []) ++ failed 4 ∷ []))
      (record { ret = success; sent = 2 ∷ []; ack = 8 ∷ 8 ∷ [] }) refl (omega arith) (omega arith)
      (cut_answer request ((8 ∷ 8 ∷ []) ∷ []) (failed 4) [] (omega arith, tt) refl (omega arith, tt)
        (omega arith) (error 4))

request_put_object_init-undefined_example :
    request_put_object_init plenty plenty
      (pos 4)
      (at ((b'f' ∷ []) ++ 0 ∷ []))
      (at (name ++ 0 ∷ []))
      (some 3)
      true
      (map some [] ++ some (1 ∷ 2 ∷ 3 ∷ []) ∷ [])
      (replicate 64 0)
      (took 1 ∷ [])
      []
    ≡ fault
request_put_object_init-undefined_example =
    request_put_object_init-undefined plenty plenty 4 (b'f' ∷ []) [] name [] 3 [] (1 ∷ 2 ∷ 3 ∷ [])
      (replicate 64 0) [] [] [] (λ n. refl) (λ n. refl) (omega arith) (omega arith) (omega arith) tt
      (omega arith) refl
