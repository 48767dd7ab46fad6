-- ===== src/Log/Hexadecimal.antt =====
-- What `%x` of src/server/log.c prints: the numeral in base 16 of the unsigned pattern.
use native.Mathlib.Nat.{pow-succ', pow-zero, mul_assoc, add-mul, zero-mul, mul-le-mul_right}
use sample_sds_storage.Base.{
  sizes, ℕ, zero, suc, ◌+◌, ◌-◌, ◌*◌, ◌^◌, ◌≤◌, ◌<◌, ◌≡◌, ◌≢◌, refl, sym, ◌∙◌, ap, inl, inr, Bool,
  true, false, Bool-cases, ltb→lt, List, [], ◌∷◌, ◌++◌, arith, ltb, pos, negsuc, int32, int32_small,
  length, take, drop, take-append-drop, Run, ok,
}
use sample_sds_storage.Log.Digits.{safe_itoa, safe_utoa}
use sample_sds_storage.Log.Numerals.{
  value, value-append, digit_value, AreDigits, IsNumeral, Shown, safe_utoa-IsNumeral,
}
use sample_sds_storage.Log.Complement.{safe_itoa-IsPattern}
use sample_sds_storage.Log.Format.{int64, number_text}

sixteen : (a d p : ℕ) → (a * 16 + d) * p ≡ a * (16 * p) + d * p
sixteen a d p = add-mul (a * 16) d p ∙ ap (λ n. n + d * p) (mul_assoc a 16 p)

value_split : (s : List ℕ) (a : ℕ) → value 16 a s ≡ a * 16 ^ length s + value 16 0 s
value_split [] a = omega (arith, pow-zero 16)
value_split (c ∷ s) a =
    let d = digit_value c in
    let p = 16 ^ length s in
    let grown : 16 ^ suc (length s) ≡ 16 * p = pow-succ' 16 (length s) in
    let left : value 16 (a * 16 + d) s ≡ (a * 16 + d) * p + value 16 0 s =
      value_split s (a * 16 + d) in
    let right : value 16 (0 * 16 + d) s ≡ (0 * 16 + d) * p + value 16 0 s =
      value_split s (0 * 16 + d) in
    rw (left, right, sixteen a d p, sixteen 0 d p, grown, zero-mul (16 * p)) (omega arith)

value_lt : (s : List ℕ) → AreDigits 16 s → value 16 0 s < 16 ^ length s
value_lt [] h = omega (arith, pow-zero 16)
value_lt (c ∷ s) (d, low, h) =
    let p = 16 ^ length s in
    let grown : 16 ^ suc (length s) ≡ 16 * p = pow-succ' 16 (length s) in
    let split : value 16 (0 * 16 + digit_value c) s ≡ (0 * 16 + digit_value c) * p + value 16 0 s =
      value_split s (0 * 16 + digit_value c) in
    let first : digit_value c * p ≤ 15 * p = mul-le-mul_right p (omega arith) in
    omega (arith, value_lt s h, sixteen 0 (digit_value c) p, zero-mul (16 * p))

-- Digits that spell a number of their length are its numeral.
digits-IsNumeral :
    (s : List ℕ) (m n : ℕ)
    → AreDigits 16 s
    → length s ≡ suc m
    → value 16 0 s ≡ n
    → 16 ^ m ≤ n
    → IsNumeral 16 n s
digits-IsNumeral [] m n h whole spells large = absurd (omega arith)
digits-IsNumeral (c ∷ s) m n (d, low, h) whole spells large = record {
  digits = (d, low, h);
  spells = spells;
  filled = omega arith;
  lead = λ p e.
      let same : length s ≡ m = omega arith in
      let short : value 16 0 s < 16 ^ m = rw same at (value_lt s h) in
      let none_first : value 16 (0 * 16 + digit_value b'0') s ≡ n = rw e at spells in omega arith;
}

AreDigits-drop : (k : ℕ) (s : List ℕ) → AreDigits 16 s → AreDigits 16 (drop k s)
AreDigits-drop zero s h = h
AreDigits-drop (suc k) [] h = tt
AreDigits-drop (suc k) (c ∷ s) (d, low, h) = AreDigits-drop k s h

value-drop :
    (k : ℕ) (s : List ℕ)
    → AreDigits 16 s
    → (q : ℕ) × (value 16 0 s ≡ q * 16 ^ length (drop k s) + value 16 0 (drop k s))
      × (value 16 0 (drop k s) < 16 ^ length (drop k s))
value-drop k s h = (
  value 16 0 (take k s),
  ap (value 16 0) (sym (take-append-drop k s))
      ∙ value-append 16 0 (take k s) (drop k s)
      ∙ value_split (drop k s) (value 16 0 (take k s)),
  value_lt (drop k s) (AreDigits-drop k s h),
)

drop-append : (k : ℕ) (s t : List ℕ) → k ≤ length s → drop k (s ++ t) ≡ drop k s ++ t
drop-append zero s t h = refl
drop-append (suc k) [] t h = absurd (omega arith)
drop-append (suc k) (c ∷ s) t h = drop-append k s t (omega arith)

-- The text of a number in front of a NUL.
abbrev pub Texted : (base n : ℕ) → Run (List ℕ) → Type 0
Texted base n result = (s : List ℕ) × (result ≡ ok (s ++ 0 ∷ [])) × IsNumeral base n s

pub int64_low : (w : ℕ) → w < 2 ^ 63 → int64 w ≡ pos w
int64_low w h = ground (arith)

pub int64_high : (w : ℕ) → 2 ^ 63 ≤ w → w < 2 ^ 64 → int64 w ≡ negsuc (2 ^ 64 - w - 1)
int64_high w low high = ground (arith)

pub int32_high : (w : ℕ) → 2 ^ 31 ≤ w → w < 2 ^ 32 → int32 w ≡ negsuc (2 ^ 32 - w - 1)
int32_high w low high = ground (arith)

safe_itoa-pos : (base n room : ℕ) → safe_itoa base (pos n) room ≡ safe_utoa base n room
unfolding safe_itoa safe_utoa
safe_itoa-pos base n room = refl

unsigned_text :
    (base n : ℕ)
    → 2 ≤ base
    → base ≤ 16
    → n < 2 ^ 64
    → n < base ^ 21
    → Shown (IsNumeral base n) (safe_utoa base n 22) 21
unsigned_text base n least most small fits = safe_utoa-IsNumeral base least most n 20 fits

-- A 64-bit pattern; that of the least number is left out, which `_safe_itoa` cannot negate.
long_hex :
    (w : ℕ)
    → w < 2 ^ 64
    → w ≢ 2 ^ 63
    → (left : ℕ) × (s : List ℕ) × (safe_itoa 16 (int64 w) 22 ≡ ok (left, s ++ 0 ∷ []))
      × IsNumeral 16 w s
long_hex w high not_least = elim (Bool-cases (ltb w (2 ^ 63))) [
  | inl low ↦
      let small = ltb→lt w (2 ^ 63) low in
      let (left, s, run, numeral, used) =
        unsigned_text 16 w (omega arith) (omega arith) (omega arith) (omega arith) in
      (
        left,
        s,
        ap (λ v. safe_itoa 16 v 22) (int64_low w small) ∙ safe_itoa-pos 16 w 22 ∙ run,
        numeral,
      )
  | inr large ↦
      let big : 2 ^ 63 < w = ground arith in
      let n = 2 ^ 64 - w - 1 in
      let (left, s, run, pattern, used) = safe_itoa-IsPattern n 20 (omega arith) (omega arith) in
      let spells : value 16 0 s ≡ w = pattern.spells ∙ omega arith in
      (
        left,
        s,
        ap (λ v. safe_itoa 16 v 22) (int64_high w (omega arith) high) ∙ run,
        digits-IsNumeral s 15 w pattern.digits pattern.whole spells (omega arith),
      )
]

-- `%lx` and `%llx` print the 64-bit pattern of a number in base 16, and `%p` that of a pointer.
pub number_text-long_hex : (w : ℕ) → w < 2 ^ 64 → w ≢ 2 ^ 63 → Texted 16 w (number_text b'x' true w)
unfolding number_text
number_text-long_hex w high not_least =
    let (left, s, run, numeral) = long_hex w high not_least in (s, rw run refl, numeral)

pub number_text-pointer : (w : ℕ) → w < 2 ^ 64 → w ≢ 2 ^ 63 → Texted 16 w (number_text b'p' true w)
unfolding number_text
number_text-pointer w high not_least =
    let (left, s, run, numeral) = long_hex w high not_least in (s, rw run refl, numeral)

high_word : (w : ℕ) → 2 ^ 31 ≤ w → w < 2 ^ 32 → Texted 16 w (number_text b'x' false w)
unfolding number_text
high_word w low high =
    let n = 2 ^ 32 - w - 1 in
    let (left, s, run, pattern, used) = safe_itoa-IsPattern n 20 (omega arith) (omega arith) in
    let size : length (drop 8 s) ≡ 8 = grind (sizes, pattern.whole) in
    let (q, split, below) = value-drop 8 s pattern.digits in
    let split8 : value 16 0 s ≡ q * 16 ^ 8 + value 16 0 (drop 8 s) = rw size at split in
    let below8 : value 16 0 (drop 8 s) < 16 ^ 8 = rw size at below in
    let digits = AreDigits-drop 8 s pattern.digits in
    (
      drop 8 s,
      rw (int32_high w low high, run, drop-append 8 s (0 ∷ []) (omega (arith, pattern.whole))) refl,
      digits-IsNumeral (drop 8 s) 7 w digits size (omega (arith, pattern.spells)) (omega arith),
    )

-- `%x` prints the 32-bit pattern of a number in base 16: without `ll`, the leading digits of a
-- negative number are left out.
pub number_text-hex : (w : ℕ) → w < 2 ^ 32 → Texted 16 w (number_text b'x' false w)
unfolding number_text
number_text-hex w high = elim (Bool-cases (ltb w (2 ^ 31))) [
  | inl low ↦
      let small = ltb→lt w (2 ^ 31) low in
      let (left, s, run, numeral, used) =
        unsigned_text 16 w (omega arith) (omega arith) (omega arith) (omega arith) in
      (s, rw (int32_small w small, safe_itoa-pos 16 w 22, run) refl, numeral)
  | inr large ↦ high_word w (ground arith) high
]

-- `%u`, with or without `ll`, prints the numeral in base 10.
pub number_text-unsigned :
    (have_longlong : Bool) (w : ℕ) → w < 2 ^ 64 → Texted 10 w (number_text b'u' have_longlong w)
unfolding number_text
number_text-unsigned have_longlong w high =
    let (left, s, run, numeral, used) =
      unsigned_text 10 w (omega arith) (omega arith) high (omega arith) in
    (s, rw run refl, numeral)
