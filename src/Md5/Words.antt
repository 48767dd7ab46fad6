-- ===== src/Md5/Words.antt =====
-- `md5_decode` and `md5_encode` of src/common/md5.c: bytes and words, the lowest byte first.
use mathlib.Core.Path.{ap₂}
use sample_sds_storage.Base.{
  ℕ, zero, suc, ◌+◌, ◌*◌, ◌/◌, ◌%◌, ◌^◌, ◌<◌, ◌≡◌, refl, ap, ◌∙◌, bit_or, bit_or-add, List, [], ◌∷◌,
  arith, length,
}
use sample_sds_storage.Md5.Transform.{u32, md5_decode, md5_encode}

-- Numbers below a bound.
abbrev pub AreBelow : ℕ → List ℕ → Type 0
AreBelow bound [] = Unit
AreBelow bound (n ∷ ns) = (n < bound) × AreBelow bound ns

-- A word of four bytes, by its arithmetic.
abbrev pub word_of : (b0 b1 b2 b3 : ℕ) → ℕ
word_of b0 b1 b2 b3 = b0 + b1 * 2 ^ 8 + b2 * 2 ^ 16 + b3 * 2 ^ 24

module _ (b0 b1 b2 b3 : ℕ) (h0 : b0 < 256) (h1 : b1 < 256) (h2 : b2 < 256) (h3 : b3 < 256) where
  word-lem :
      bit_or (bit_or (bit_or b0 (b1 * 2 ^ 8)) (b2 * 2 ^ 16)) (u32 (b3 * 2 ^ 24))
      ≡ word_of b0 b1 b2 b3
  word-lem =
      let whole : u32 (b3 * 2 ^ 24) ≡ b3 * 2 ^ 24 = omega arith in
      rw
        (
          whole,
          bit_or-add 8 b0 b1 (omega arith),
          bit_or-add 16 (b1 * 2 ^ 8 + b0) b2 (omega arith),
          bit_or-add 24 (b2 * 2 ^ 16 + (b1 * 2 ^ 8 + b0)) b3 (omega arith),
        )
        (omega arith)

  encode-word :
      (words : List ℕ)
      → md5_encode (word_of b0 b1 b2 b3 ∷ words) ≡ b0 ∷ b1 ∷ b2 ∷ b3 ∷ md5_encode words
  unfolding md5_encode
  encode-word words =
      let w = word_of b0 b1 b2 b3 in
      let e0 : w % 2 ^ 8 ≡ b0 = omega arith in
      let e1 : w / 2 ^ 8 % 2 ^ 8 ≡ b1 = omega arith in
      let e2 : w / 2 ^ 16 % 2 ^ 8 ≡ b2 = omega arith in
      let e3 : w / 2 ^ 24 % 2 ^ 8 ≡ b3 = omega arith in rw (e0, e1, e2, e3) refl

-- A word is that of its bytes.
word-bytes :
    (w : ℕ)
    → w < 2 ^ 32
    → word_of (w % 2 ^ 8) (w / 2 ^ 8 % 2 ^ 8) (w / 2 ^ 16 % 2 ^ 8) (w / 2 ^ 24 % 2 ^ 8) ≡ w
word-bytes w small = omega arith

decode-encode : (words : List ℕ) → AreBelow (2 ^ 32) words → md5_decode (md5_encode words) ≡ words
unfolding md5_decode md5_encode
decode-encode [] h = refl
decode-encode (w ∷ words) (small, h) =
    ap₂ ◌∷◌
      (word-lem (w % 2 ^ 8) (w / 2 ^ 8 % 2 ^ 8) (w / 2 ^ 16 % 2 ^ 8) (w / 2 ^ 24 % 2 ^ 8)
          (omega arith) (omega arith) (omega arith) (omega arith)
        ∙ word-bytes w small)
      (decode-encode words h)

encode-nil : md5_encode [] ≡ []
unfolding md5_encode
encode-nil = refl

encode-decode :
    (k : ℕ) (bytes : List ℕ)
    → AreBelow 256 bytes
    → length bytes ≡ 4 * k
    → md5_encode (md5_decode bytes) ≡ bytes
unfolding md5_decode
encode-decode zero [] h size = encode-nil
encode-decode zero (b ∷ bytes) h size = absurd (omega arith)
encode-decode (suc k) (b0 ∷ b1 ∷ b2 ∷ b3 ∷ bytes) (h0, (h1, (h2, (h3, h)))) size =
    ap (λ w. md5_encode (w ∷ md5_decode bytes)) (word-lem b0 b1 b2 b3 h0 h1 h2 h3)
    ∙ encode-word b0 b1 b2 b3 h0 h1 h2 h3 (md5_decode bytes)
    ∙ ap (λ rest. b0 ∷ b1 ∷ b2 ∷ b3 ∷ rest) (encode-decode k bytes h (omega arith))
encode-decode (suc k) [] h size = absurd (omega arith)
encode-decode (suc k) (b0 ∷ []) h size = absurd (omega arith)
encode-decode (suc k) (b0 ∷ b1 ∷ []) h size = absurd (omega arith)
encode-decode (suc k) (b0 ∷ b1 ∷ b2 ∷ []) h size = absurd (omega arith)

-- `md5_encode` and `md5_decode` are inverse to each other, on words of 32 bits and on bytes that
-- make up whole words.
pub md5_encode-md5_decode :
    (words bytes : List ℕ) (k : ℕ)
    → AreBelow (2 ^ 32) words
    → AreBelow 256 bytes
    → length bytes ≡ 4 * k
    → (md5_decode (md5_encode words) ≡ words) × (md5_encode (md5_decode bytes) ≡ bytes)
md5_encode-md5_decode words bytes k small_words small_bytes size =
    (decode-encode words small_words, encode-decode k bytes small_bytes size)
