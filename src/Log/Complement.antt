-- ===== src/Log/Complement.antt =====
-- What `_safe_itoa` of src/server/log.c prints in base 16 for a negative number.
use native.Mathlib.Nat.{pow-succ', pow-zero, mul_assoc}
use sample_sds_storage.Base.{
  sizes, ℕ, zero, suc, ◌+◌, ◌-◌, ◌*◌, ◌^◌, ◌≤◌, ◌<◌, ◌≡◌, ◌≢◌, refl, sym, ◌∙◌, ap, Bool, true, List,
  [], ◌∷◌, ◌++◌, arith, leb, ◌&&◌, ◌||◌, not, ==_ne, ◌==◌, ℤ, negsuc, length, all_below,
  all_below-true, map, replicate, ◌>>=◌, to_size,
}
use sample_sds_storage.Log.Digits.{
  put_back, flip_digit, zeros_back, flip_back, before_nul, safe_itoa,
}
use sample_sds_storage.Log.Numerals.{
  value, digit_value, is_digit, AreDigits, AreDigits-append, IsNumeral, Shown,
  digits_loop-IsNumeral,
}

-- The 16 digits of the 64-bit pattern of a value.
pub record IsPattern (val : ℤ) (s : List ℕ) : Type 0 where
  pub digits : AreDigits 16 s
  pub whole : length s ≡ 16
  pub spells : value 16 0 s ≡ to_size val

-- A digit and its flip make 15.
abbrev is_flipped : ℕ → Bool
is_flipped c =
    not (is_digit c)
    || (is_digit (flip_digit c) && digit_value c + digit_value (flip_digit c) == 15)

flip_table : all_below 103 is_flipped ≡ true
unfolding flip_digit
flip_table = refl

flip_digit_lem :
    (c : ℕ)
    → is_digit c ≡ true
    → digit_value c < 16
    → (is_digit (flip_digit c) ≡ true) × (digit_value c + digit_value (flip_digit c) ≡ 15)
flip_digit_lem c d h =
    let small : c < 103 = ground arith in
    let row = all_below-true 103 is_flipped c flip_table small in ground arith

sixteen :
    (a b f d p : ℕ) → f + d ≡ 15 → (a * 16 + f + (b * 16 + d) + 1) * p ≡ (a + b + 1) * (16 * p)
sixteen a b f d p h =
    let total : a * 16 + f + (b * 16 + d) + 1 ≡ (a + b + 1) * 16 = omega arith in
    ap (λ n. n * p) total ∙ mul_assoc (a + b + 1) 16 p

map-flip_digit :
    (s : List ℕ) (a b : ℕ)
    → AreDigits 16 s
    → (AreDigits 16 (map flip_digit s) × (length (map flip_digit s) ≡ length s))
      × (value 16 a (map flip_digit s) + value 16 b s + 1 ≡ (a + b + 1) * 16 ^ length s)
map-flip_digit [] a b h = ((tt, refl), omega (arith, pow-zero 16))
map-flip_digit (c ∷ s) a b (d, low, h) =
    let (digit, flipped) = flip_digit_lem c d low in
    let ((digits, same), spells) =
      map-flip_digit s (a * 16 + digit_value (flip_digit c)) (b * 16 + digit_value c) h in
    (
      ((digit, omega arith, digits), omega arith),
      spells
          ∙ sixteen a b (digit_value (flip_digit c)) (digit_value c) (16 ^ length s) (omega arith)
          ∙ ap (λ n. (a + b + 1) * n) (sym (pow-succ' 16 (length s))),
    )

before_nul_lem : (s : List ℕ) → AreDigits 16 s → before_nul (s ++ 0 ∷ []) ≡ s
before_nul_lem [] h = refl
before_nul_lem (c ∷ s) (d, low, h) = rw (before_nul_lem s h, ==_ne c 0 (λ e. ground arith)) refl

zeros-AreDigits : (n : ℕ) → AreDigits 16 (replicate n b'0')
zeros-AreDigits zero = tt
zeros-AreDigits (suc n) = (refl, omega arith, zeros-AreDigits n)

value-zeros : (n : ℕ) (s : List ℕ) → value 16 0 (replicate n b'0' ++ s) ≡ value 16 0 s
value-zeros zero s = refl
value-zeros (suc n) s = value-zeros n s

length-flip_digit : (s : List ℕ) → length (map flip_digit s) ≡ length s
length-flip_digit [] = refl
length-flip_digit (c ∷ s) = ap suc (length-flip_digit s)

module _ (n : ℕ) (s : List ℕ) (numeral : IsNumeral 16 n s) (short : length s ≤ 16) where
  abbrev padded : List ℕ
  padded = replicate (16 - length s) b'0' ++ s

  length-padded : length padded ≡ 16
  length-padded = grind sizes

  flipped-IsPattern : n < 2 ^ 63 → IsPattern (negsuc n) (map flip_digit padded)
  flipped-IsPattern small =
      let digits : AreDigits 16 padded =
        AreDigits-append 16 (replicate (16 - length s) b'0') s (zeros-AreDigits (16 - length s))
          numeral.digits in
      let ((flipped, same), sum) = map-flip_digit padded 0 0 digits in
      let spelled : value 16 0 padded ≡ n = value-zeros (16 - length s) s ∙ numeral.spells in
      let total : value 16 0 (map flip_digit padded) + value 16 0 padded + 1
          ≡ (0 + 0 + 1) * 16 ^ 16 =
        rw length-padded at sum in
      record {
        digits = flipped;
        whole = same ∙ length-padded;
        spells = omega (arith, total, spelled);
      }

-- `_safe_itoa` in base 16 prints the 16 digits of the 64-bit pattern of a negative number in front
-- of a NUL, where the buffer has those 17 cells.
pub safe_itoa-IsPattern :
    (n room : ℕ)
    → n < 2 ^ 63 - 1
    → 15 ≤ room
    → Shown (IsPattern (negsuc n)) (safe_itoa 16 (negsuc n) (suc (suc room))) (suc room)
unfolding safe_itoa put_back zeros_back flip_back
safe_itoa-IsPattern n room small enough =
    let (left, s, run, numeral, used, length_le) =
      digits_loop-IsNumeral 16 (omega arith) (omega arith) 15 room n (0 ∷ []) (omega arith)
        enough in
    let other : n ≢ 2 ^ 63 - 1 = omega arith in
    let here : leb 16 (suc room) ≡ true = ground arith in
    let shown : before_nul (s ++ 0 ∷ []) ≡ s = before_nul_lem s numeral.digits in
    let pattern = flipped-IsPattern n s numeral length_le (omega arith) in
    (
      suc room - 16,
      map flip_digit (padded n s numeral length_le),
      rw (==_ne n (2 ^ 63 - 1) other, here, ◌>>=◌, run, ◌>>=◌, shown) refl,
      pattern,
      omega (arith, pattern.whole),
    )
