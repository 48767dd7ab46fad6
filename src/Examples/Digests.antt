-- ===== src/Examples/Digests.antt =====
-- MD5 digests of src/common/md5.c at concrete inputs.
use mathlib.Core.List.{map}
use sample_sds_storage.Base.{
  ℕ, ◌≡◌, refl, true, none, some, List, [], ◌∷◌, ◌++◌, arith, length-replicate, replicate, success,
}
use sample_sds_storage.Md5.Words.{md5_encode-md5_decode}
use sample_sds_storage.Md5.Transform.{md5_decode, md5_transform, md5_encode}
use sample_sds_storage.Md5.{
  update_loop, add_count, md5_final, Context, md5_init, md5_update, to_hex, md5_string, md5_file,
}
use sample_sds_storage.Md5.Blocks.{joined}
use sample_sds_storage.Md5.Buffer.{Absorbed, md5_init-Absorbed}
use sample_sds_storage.Md5.Stream.{md5_update-Absorbed}
use sample_sds_storage.Md5.Digest.{IsDigest, md5_string-IsDigest, md5_file-IsDigest}

abbrev buffer : List ℕ
buffer = replicate 64 0

abbrev text : List ℕ
text = b'a' ∷ b'b' ∷ b'c' ∷ []

md5_update-Absorbed_example :
    (out : Context) × (md5_update (md5_init buffer) text ≡ some out) × Absorbed text out
md5_update-Absorbed_example = md5_update-Absorbed (md5_init-Absorbed buffer refl) text (omega arith)

md5_string-IsDigest_example :
    (digest : List ℕ) × (md5_string buffer text ≡ some (to_hex digest)) × IsDigest text digest
md5_string-IsDigest_example = md5_string-IsDigest buffer text refl (omega arith)

md5_file-IsDigest_example :
    (digest : List ℕ) × (md5_file true
        (map some (replicate 4096 7 ∷ []) ++ some text ∷ none ∷ [])
        buffer
      ≡ some (success, to_hex digest))
    × IsDigest (joined (replicate 4096 7 ∷ []) ++ text) digest
md5_file-IsDigest_example =
    md5_file-IsDigest buffer (replicate 4096 7 ∷ []) text (none ∷ []) refl
      (length-replicate {A = ℕ} 4096 7, tt) (omega arith)

-- The digest of "abc" in RFC 1321.
abc_digest :
    md5_string buffer text
    ≡ some (
        b'9' ∷ b'0' ∷ b'0' ∷ b'1' ∷ b'5' ∷ b'0' ∷ b'9' ∷ b'8' ∷ b'3' ∷ b'c' ∷ b'd' ∷ b'2' ∷ b'4'
        ∷ b'f' ∷ b'b' ∷ b'0' ∷ b'd' ∷ b'6' ∷ b'9' ∷ b'6' ∷ b'3' ∷ b'f' ∷ b'7' ∷ b'd' ∷ b'2' ∷ b'8'
        ∷ b'e' ∷ b'1' ∷ b'7' ∷ b'f' ∷ b'7' ∷ b'2' ∷ [])
unfolding md5_string md5_update md5_final md5_transform add_count to_hex md5_encode md5_init
    update_loop
abc_digest = refl

md5_encode-md5_decode_example :
    (md5_decode (md5_encode (0x12345678 ∷ [])) ≡ 0x12345678 ∷ [])
    × (md5_encode (md5_decode (1 ∷ 2 ∷ 3 ∷ 255 ∷ [])) ≡ 1 ∷ 2 ∷ 3 ∷ 255 ∷ [])
md5_encode-md5_decode_example =
    md5_encode-md5_decode (0x12345678 ∷ []) (1 ∷ 2 ∷ 3 ∷ 255 ∷ []) 1 (omega arith) (omega arith)
      (omega arith)
