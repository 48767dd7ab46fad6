-- ===== src/Md5/Transform.antt =====
-- The transform of src/common/md5.c: a block of 64 bytes taken into the state.
use Prim.Native.Nat.{bit_and}
use sample_sds_storage.Base.{
  ℕ, zero, suc, ◌+◌, ◌-◌, ◌*◌, ◌/◌, ◌%◌, ◌^◌, bit_or, bit_xor, List, [], ◌∷◌,
}

abbrev pub u32 : ℕ → ℕ
u32 n = n % 2 ^ 32

-- `~x`
abbrev pub complement : ℕ → ℕ
complement x = 2 ^ 32 - 1 - x

-- `F`, `G`, `H` and `I`
unfoldable pub mix_f : ℕ → ℕ → ℕ → ℕ
mix_f x y z = bit_or (bit_and x y) (bit_and (complement x) z)

unfoldable pub mix_g : ℕ → ℕ → ℕ → ℕ
mix_g x y z = bit_or (bit_and x z) (bit_and y (complement z))

unfoldable pub mix_h : ℕ → ℕ → ℕ → ℕ
mix_h x y z = bit_xor (bit_xor x y) z

unfoldable pub mix_i : ℕ → ℕ → ℕ → ℕ
mix_i x y z = bit_xor y (bit_or x (complement z))

unfoldable pub rotate_left : ℕ → ℕ → ℕ
rotate_left x n = bit_or (u32 (x * 2 ^ n)) (x / 2 ^ (32 - n))

-- `unsigned int state[4]`
pub record State : Type 0 where
  pub a : ℕ
  pub b : ℕ
  pub c : ℕ
  pub d : ℕ

abbrev pub initial : State
initial = record { a = 0x67452301; b = 0xEFCDAB89; c = 0x98BADCFE; d = 0x10325476 }

-- A block has 64 bytes, so each of the 16 words is there.
abbrev pub word_at : List ℕ → ℕ → ℕ
word_at [] k = 0
word_at (w ∷ x) zero = w
word_at (w ∷ x) (suc k) = word_at x k

-- One of the macros `FF`, `GG`, `HH` and `II`, whose names `a`, `b`, `c` and `d` then move on by
-- one: what was `d` stands first in the next step.
unfoldable pub step : (ℕ → ℕ → ℕ → ℕ) → List ℕ → ℕ × ℕ × ℕ → State → State
unfolding rotate_left
step mix x (k, s, ac) st =
    let word = word_at x k in
    let sum = u32 (st.a + mix st.b st.c st.d + word + ac) in
    record { a = st.d; b = u32 (rotate_left sum s + st.b); c = st.b; d = st.c }

unfoldable pub steps : (ℕ → ℕ → ℕ → ℕ) → List ℕ → List (ℕ × ℕ × ℕ) → State → State
unfolding step
steps mix x [] st = st
steps mix x (row ∷ rows) st = steps mix x rows (step mix x row st)

-- The four rounds: which word, by how much to rotate, and which constant.
abbrev pub round1 : List (ℕ × ℕ × ℕ)
round1 =
    (0, 7, 0xd76aa478)
    ∷ (1, 12, 0xe8c7b756)
    ∷ (2, 17, 0x242070db)
    ∷ (3, 22, 0xc1bdceee)
    ∷ (4, 7, 0xf57c0faf)
    ∷ (5, 12, 0x4787c62a)
    ∷ (6, 17, 0xa8304613)
    ∷ (7, 22, 0xfd469501)
    ∷ (8, 7, 0x698098d8)
    ∷ (9, 12, 0x8b44f7af)
    ∷ (10, 17, 0xffff5bb1)
    ∷ (11, 22, 0x895cd7be)
    ∷ (12, 7, 0x6b901122)
    ∷ (13, 12, 0xfd987193)
    ∷ (14, 17, 0xa679438e)
    ∷ (15, 22, 0x49b40821)
    ∷ []

abbrev pub round2 : List (ℕ × ℕ × ℕ)
round2 =
    (1, 5, 0xf61e2562)
    ∷ (6, 9, 0xc040b340)
    ∷ (11, 14, 0x265e5a51)
    ∷ (0, 20, 0xe9b6c7aa)
    ∷ (5, 5, 0xd62f105d)
    ∷ (10, 9, 0x2441453)
    ∷ (15, 14, 0xd8a1e681)
    ∷ (4, 20, 0xe7d3fbc8)
    ∷ (9, 5, 0x21e1cde6)
    ∷ (14, 9, 0xc33707d6)
    ∷ (3, 14, 0xf4d50d87)
    ∷ (8, 20, 0x455a14ed)
    ∷ (13, 5, 0xa9e3e905)
    ∷ (2, 9, 0xfcefa3f8)
    ∷ (7, 14, 0x676f02d9)
    ∷ (12, 20, 0x8d2a4c8a)
    ∷ []

abbrev pub round3 : List (ℕ × ℕ × ℕ)
round3 =
    (5, 4, 0xfffa3942)
    ∷ (8, 11, 0x8771f681)
    ∷ (11, 16, 0x6d9d6122)
    ∷ (14, 23, 0xfde5380c)
    ∷ (1, 4, 0xa4beea44)
    ∷ (4, 11, 0x4bdecfa9)
    ∷ (7, 16, 0xf6bb4b60)
    ∷ (10, 23, 0xbebfbc70)
    ∷ (13, 4, 0x289b7ec6)
    ∷ (0, 11, 0xeaa127fa)
    ∷ (3, 16, 0xd4ef3085)
    ∷ (6, 23, 0x4881d05)
    ∷ (9, 4, 0xd9d4d039)
    ∷ (12, 11, 0xe6db99e5)
    ∷ (15, 16, 0x1fa27cf8)
    ∷ (2, 23, 0xc4ac5665)
    ∷ []

abbrev pub round4 : List (ℕ × ℕ × ℕ)
round4 =
    (0, 6, 0xf4292244)
    ∷ (7, 10, 0x432aff97)
    ∷ (14, 15, 0xab9423a7)
    ∷ (5, 21, 0xfc93a039)
    ∷ (12, 6, 0x655b59c3)
    ∷ (3, 10, 0x8f0ccc92)
    ∷ (10, 15, 0xffeff47d)
    ∷ (1, 21, 0x85845dd1)
    ∷ (8, 6, 0x6fa87e4f)
    ∷ (15, 10, 0xfe2ce6e0)
    ∷ (6, 15, 0xa3014314)
    ∷ (13, 21, 0x4e0811a1)
    ∷ (4, 6, 0xf7537e82)
    ∷ (11, 10, 0xbd3af235)
    ∷ (2, 15, 0x2ad7d2bb)
    ∷ (9, 21, 0xeb86d391)
    ∷ []

-- Four bytes make a word, the lowest first; the lengths are multiples of 4.
unfoldable pub md5_decode : List ℕ → List ℕ
md5_decode (b0 ∷ b1 ∷ b2 ∷ b3 ∷ input) =
    bit_or (bit_or (bit_or b0 (b1 * 2 ^ 8)) (b2 * 2 ^ 16)) (u32 (b3 * 2 ^ 24)) ∷ md5_decode input
md5_decode input = []

unfoldable pub md5_encode : List ℕ → List ℕ
md5_encode [] = []
md5_encode (w ∷ input) =
    w % 2 ^ 8 ∷ w / 2 ^ 8 % 2 ^ 8 ∷ w / 2 ^ 16 % 2 ^ 8 ∷ w / 2 ^ 24 % 2 ^ 8 ∷ md5_encode input

unfoldable pub md5_transform : State → List ℕ → State
unfolding steps md5_decode mix_f mix_g mix_h mix_i
md5_transform st block =
    let x = md5_decode block in
    let out =
      steps mix_i x round4
        (steps mix_h x round3 (steps mix_g x round2 (steps mix_f x round1 st))) in
    record {
      a = u32 (st.a + out.a);
      b = u32 (st.b + out.b);
      c = u32 (st.c + out.c);
      d = u32 (st.d + out.d);
    }
