-- ===== src/Request/Undefined.antt =====
-- `request_put_object_init` of src/common/request.c on a file that `md5_file` can read.
use mathlib.Core.Path.{subst}
use sample_sds_storage.Base.{
  ℕ, ◌-◌, ◌≡◌, refl, ◌⊎◌, inl, inr, Bool, Bool-cases, true, Option, some, List, [], ◌∷◌, ◌++◌, map,
  ◌<◌, ◌^◌, ◌+◌, arith, ltb, lt→ltb, pos, length, take, replicate, ok, fault, ◌>>=◌,
}
use sample_sds_storage.Slice.{Slice, slice, raw, slice_value, slice_size}
use sample_sds_storage.Slice.Strings.{at, IsText, c_string, until_nul-append}
use sample_sds_storage.Slice.Stores.{Stores, slice_value-null, slice_value-Stores}
use sample_sds_storage.Utils.{Read, Write, took, refused, write_loop, write_n}
use sample_sds_storage.Utils.FileName.{IsText-append_right, parse_file_name-IsSplit}
use sample_sds_storage.Md5.Digest.{AreFull, digits-IsDigest, md5_file-IsDigest}
use sample_sds_storage.Md5.{to_hex}
use sample_sds_storage.Request.{request_put_object_init, fill_field, digest_into_uid}

fill_field_cases :
    (size : ℕ) (text : List ℕ)
    → (fill_field size text ≡ fault) ⊎ ((out : List ℕ) × (fill_field size text ≡ ok out))
unfolding fill_field
fill_field_cases size text = elim (Bool-cases (ltb size (length text))) [
  | inl long ↦ inl (rw long refl)
  | inr fits ↦ inr (text ++ replicate (size - length text) 0, rw fits refl)
]

c_string-at : (v behind : List ℕ) → IsText v → c_string (at (v ++ 0 ∷ behind)) ≡ ok v
unfolding c_string
c_string-at v behind text = until_nul-append v behind text

-- The name of no bytes is NULL for `slice_value`.
value_cases :
    {v : List ℕ} {se : Slice}
    → Stores v se
    → IsText v
    → (c_string (slice_value (some se)) ≡ fault) ⊎ (c_string (slice_value (some se)) ≡ ok v)
unfolding c_string
value_cases {v = []} stores text = inl (rw (slice_value-null stores refl) refl)
value_cases {v = c ∷ v} stores text = inr (slice_value-Stores stores text (λ e. cc e)).1

type_sent :
    (writes : List Write) → write_n (took 1 ∷ writes) (0 ∷ []) 1 ≡ ok (some (pos 1, 0 ∷ [], writes))
unfolding write_n write_loop
type_sent [] = refl
type_sent (took n ∷ writes) = refl
type_sent (refused errno ∷ writes) = refl

-- A file that can be opened and whose size is known, and that is read in full chunks of 4096 bytes
-- and a last, shorter one, cannot be put: with memory, names that are texts, the path of fewer than
-- 2 ^ 31 bytes, and a socket that takes a byte, `request_put_object_init` is undefined, whatever
-- the two names and the file's size.
pub request_put_object_init-undefined :
    (calloc strdup : ℕ → Bool) (sock : ℕ) (path path_behind set_name set_behind : List ℕ) (size : ℕ)
    (chunks : List (List ℕ)) (last stack : List ℕ) (left : List (Option (List ℕ)))
    (writes : List Write) (reads : List Read)
    → ((n : ℕ) → calloc n ≡ true)
    → ((n : ℕ) → strdup n ≡ true)
    → IsText path
    → length path < 2 ^ 31
    → IsText set_name
    → AreFull chunks
    → length last < 4096
    → length stack ≡ 64
    → request_put_object_init calloc strdup
        (pos sock)
        (at (path ++ 0 ∷ path_behind))
        (at (set_name ++ 0 ∷ set_behind))
        (some size)
        true
        (map some chunks ++ some last ∷ left)
        stack
        (took 1 ∷ writes)
        reads
      ≡ fault
unfolding request_put_object_init digest_into_uid
request_put_object_init-undefined calloc strdup sock path path_behind set_name set_behind size
      chunks last stack left writes reads room dup text_p short_p text_s full short buffer =
    let (digest, digested, is) = md5_file-IsDigest stack chunks last left buffer full short in
    let (dir, name, se, split, parsed, stores) =
      parse_file_name-IsSplit strdup (slice raw 0) path path_behind text_p short_p dup in
    let set_text = c_string-at set_name set_behind text_s in
    let text_n = IsText-append_right dir name (subst IsText split.whole text_p) in
    let overrun : ltb 32 (length (to_hex digest) + 1) ≡ true =
      lt→ltb 32 (length (to_hex digest) + 1) (omega (arith, digits-IsDigest is)) in
    rw (room 552, type_sent writes)
      (rw (◌>>=◌, parsed)
        (elim (value_cases stores text_n) [
          | inl none_there ↦ rw (◌>>=◌, none_there) refl
          | inr named ↦
              rw (◌>>=◌, named)
                (elim (fill_field_cases 255 (take (slice_size (some se)) name)) [
                  | inl long ↦ rw (◌>>=◌, long) refl
                  | inr (first, filled) ↦
                      rw (◌>>=◌, filled)
                        (rw (◌>>=◌, set_text)
                          (elim (fill_field_cases 255 set_name) [
                            | inl long ↦ rw (◌>>=◌, long) refl
                            | inr (second, filled') ↦
                                rw (◌>>=◌, filled') (rw (digested, overrun) refl)
                          ]))
                ])
        ]))
