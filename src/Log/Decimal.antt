-- ===== src/Log/Decimal.antt =====
-- What `%d` and `%i` of src/server/log.c print: the signed number in base 10.
use sample_sds_storage.Base.{
  ℕ, ◌-◌, ◌^◌, ◌≤◌, ◌<◌, ◌≡◌, ◌≢◌, refl, ap, inl, inr, Bool, true, false, Bool-cases, ltb, ltb→lt,
  List, [], ◌∷◌, ◌++◌, arith, if◌then◌else◌, ℤ, pos, negsuc, int32, int32_small, Run, ok,
}
use sample_sds_storage.Log.Digits.{safe_itoa}
use sample_sds_storage.Log.Numerals.{magnitude, IsSigned, Shown, safe_itoa-IsSigned}
use sample_sds_storage.Log.Format.{int64, number_text}
use sample_sds_storage.Log.Hexadecimal.{int64_low, int64_high, int32_high}

-- The value of a pattern, and the patterns of 32 or 64 bits.
abbrev pub signed : (have_longlong : Bool) → ℕ → ℤ
signed have_longlong w = if have_longlong then int64 w else int32 w

abbrev pub limit : (have_longlong : Bool) → ℕ
limit have_longlong = if have_longlong then 2 ^ 64 else 2 ^ 32

pub below_limit : (have_longlong : Bool) (w : ℕ) → w < limit have_longlong → w < 2 ^ 64
below_limit true w h = h
below_limit false w h = omega arith

-- `_safe_itoa` can print the value.
abbrev IsPrintable : ℤ → Type 0
IsPrintable val = (magnitude val < 10 ^ 20) × (val ≢ negsuc (2 ^ 63 - 1))

abbrev predecessor : ℤ → ℕ
predecessor (pos n) = 0
predecessor (negsuc n) = n

pos-IsPrintable : (n : ℕ) → n < 2 ^ 63 → IsPrintable (pos n)
pos-IsPrintable n h = (omega arith, λ e. absurd (omega (arith, ap predecessor e)))

negsuc-IsPrintable : (n : ℕ) → n < 2 ^ 63 - 1 → IsPrintable (negsuc n)
negsuc-IsPrintable n h = (omega arith, λ e. absurd (omega (arith, ap predecessor e)))

signed-IsPrintable :
    (have_longlong : Bool) (w : ℕ)
    → w < limit have_longlong
    → w ≢ 2 ^ 63
    → IsPrintable (signed have_longlong w)
signed-IsPrintable true w h not_least = elim (Bool-cases (ltb w (2 ^ 63))) [
  | inl low ↦ let small = ltb→lt w (2 ^ 63) low in rw (int64_low w small) (pos-IsPrintable w small)
  | inr large ↦
      let big : 2 ^ 63 < w = ground arith in
      rw (int64_high w (omega arith) h) (negsuc-IsPrintable (2 ^ 64 - w - 1) (omega arith))
]
signed-IsPrintable false w h not_least = elim (Bool-cases (ltb w (2 ^ 31))) [
  | inl low ↦
      let small = ltb→lt w (2 ^ 31) low in
      rw (int32_small w small) (pos-IsPrintable w (omega arith))
  | inr large ↦
      let big : 2 ^ 31 ≤ w = ground arith in
      rw (int32_high w big h) (negsuc-IsPrintable (2 ^ 32 - w - 1) (omega arith))
]

-- The text of a signed number in front of a NUL.
abbrev pub SignedText : ℤ → Run (List ℕ) → Type 0
SignedText val result = (s : List ℕ) × (result ≡ ok (s ++ 0 ∷ [])) × IsSigned val s

decimal :
    (have_longlong : Bool) (w : ℕ)
    → w < limit have_longlong
    → w ≢ 2 ^ 63
    → Shown (IsSigned (signed have_longlong w)) (safe_itoa 10 (signed have_longlong w) 22) 21
decimal have_longlong w h not_least =
    let (fits, other) = signed-IsPrintable have_longlong w h not_least in
    safe_itoa-IsSigned (signed have_longlong w) 19 fits other

-- `%d` and `%i`, with or without `ll`, print the value of the pattern with its sign.
pub number_text-decimal :
    (have_longlong : Bool) (w : ℕ)
    → w < limit have_longlong
    → w ≢ 2 ^ 63
    → SignedText (signed have_longlong w) (number_text b'd' have_longlong w)
      × SignedText (signed have_longlong w) (number_text b'i' have_longlong w)
unfolding number_text
number_text-decimal have_longlong w h not_least =
    let (left, s, run, signed_s, used) = decimal have_longlong w h not_least in
    ((s, rw run refl, signed_s), (s, rw run refl, signed_s))
