-- ===== src/Log/Numerals.antt =====
-- What `_safe_utoa` and `_safe_itoa` of src/server/log.c print, as the numerals of a base.
use mathlib.Core.List.{append_assoc}
use native.Mathlib.Nat.{pow-suc, pow-zero, zero-mul, mod-lt}
use sample_sds_storage.Base.{
  sizes, ℕ, zero, suc, ◌+◌, ◌-◌, ◌*◌, ◌/◌, ◌%◌, ◌^◌, ◌≤◌, ◌<◌, ◌≡◌, ◌≢◌, refl, sym, ◌∙◌, ap, inl,
  inr, Bool, true, List, [], ◌∷◌, ◌++◌, arith, ltb, leb, ◌&&◌, ◌||◌, ==_ne, ◌==◌, Bool-cases,
  if◌then◌else◌, ℤ, pos, negsuc, length, get_elem?, get_elem?_lt, all_below, all_below-true, ==_eq,
  none, some, load-ok, length-append, Run, ok, ◌>>=◌, load, quotient-lt, quotient-remainder,
}
use sample_sds_storage.Log.Digits.{hex, Back, put_back, digits_loop, safe_utoa, safe_itoa}

abbrev digit_char : ℕ → ℕ
digit_char n = if ltb n 10 then b'0' + n else b'a' + (n - 10)

abbrev pub digit_value : ℕ → ℕ
digit_value c = if leb c b'9' then c - b'0' else c - b'a' + 10

abbrev pub is_digit : ℕ → Bool
is_digit c = (leb b'0' c && leb c b'9') || leb b'a' c

-- The number that digits spell behind `n`.
abbrev pub value : (base n : ℕ) → List ℕ → ℕ
value base n [] = n
value base n (c ∷ s) = value base (n * base + digit_value c) s

abbrev pub AreDigits : ℕ → List ℕ → Type 0
AreDigits base [] = Unit
AreDigits base (c ∷ s) = (is_digit c ≡ true) × (digit_value c < base) × AreDigits base s

abbrev pub leading : List ℕ → ℕ
leading [] = 0
leading (c ∷ s) = c

-- `s` is the numeral of `n`: digits of the base that spell it, with no leading zero but in 0.
pub record IsNumeral (base n : ℕ) (s : List ℕ) : Type 0 where
  pub digits : AreDigits base s
  pub spells : value base 0 s ≡ n
  pub filled : 0 < length s
  pub lead : 0 < n → leading s ≢ b'0'

abbrev char_at : ℕ → ℕ
char_at n = elim (get_elem? hex n) [ none ↦ 0 | some c ↦ c ]

hex_table : all_below 16 (λ n. char_at n == digit_char n) ≡ true
hex_table = refl

load-hex : (n : ℕ) → n < 16 → load hex n ≡ ok (digit_char n)
load-hex n h =
    let (c, at) = get_elem?_lt hex n (omega arith) in
    let same =
      ==_eq (char_at n) (digit_char n)
        (all_below-true 16 (λ k. char_at k == digit_char k) n hex_table h) in
    load-ok hex n (at ∙ ap some (rw at at same))

digit_value-char :
    (n : ℕ) → n < 16 → (is_digit (digit_char n) ≡ true) × (digit_value (digit_char n) ≡ n)
digit_value-char n h = ground arith

pub value-append :
    (base n : ℕ) (s t : List ℕ) → value base n (s ++ t) ≡ value base (value base n s) t
value-append base n [] t = refl
value-append base n (c ∷ s) t = value-append base (n * base + digit_value c) s t

pub AreDigits-append :
    (base : ℕ) (s t : List ℕ) → AreDigits base s → AreDigits base t → AreDigits base (s ++ t)
AreDigits-append base [] t h k = k
AreDigits-append base (c ∷ s) t (a, b, h) k = (a, b, AreDigits-append base s t h k)

leading-append : (s t : List ℕ) → 0 < length s → leading (s ++ t) ≡ leading s
leading-append [] t h = absurd (omega arith)
leading-append (c ∷ s) t h = refl

-- What a call leaves for a value: its text in front of a NUL, in the cells given.
abbrev pub Shown : (Is : List ℕ → Type 0) → Run Back → (cells : ℕ) → Type 0
Shown Is result cells =
    (left : ℕ) × (s : List ℕ) × (result ≡ ok (left, s ++ 0 ∷ [])) × Is s × (left + length s ≡ cells)

module _ (base : ℕ) (least : 2 ≤ base) (most : base ≤ 16) where
  one_digit : (n : ℕ) → n < base → IsNumeral base n (digit_char n ∷ [])
  one_digit n h =
      let (low, same) = digit_value-char n (omega arith) in
      record {
        digits = (low, omega arith, tt);
        spells = omega arith;
        filled = omega arith;
        lead = λ p e. absurd (ground arith);
      }

  more_digits :
      (n : ℕ) (s : List ℕ)
      → 0 < n / base
      → IsNumeral base (n / base) s
      → IsNumeral base n (s ++ digit_char (n % base) ∷ [])
  more_digits n s rest h =
      let below : n % base < base = mod-lt n (omega arith) in
      let (low, same) = digit_value-char (n % base) (omega arith) in
      record {
        digits = AreDigits-append base s _ h.digits (low, omega arith, tt);
        spells = value-append base 0 s _ ∙ (rw (h.spells, same) (quotient-remainder base n));
        filled = grind sizes;
        lead = λ p. rw (leading-append s (digit_char (n % base) ∷ []) h.filled) (h.lead rest);
      }

  -- Printed into `room` cells, of which it takes at most `most_cells`.
  abbrev Printed : (most_cells room n : ℕ) → List ℕ → Type 0
  Printed most_cells room n out =
      (left : ℕ) × (s : List ℕ) × (digits_loop base n room out ≡ ok (left, s ++ out))
      × IsNumeral base n s
      × (left + length s ≡ room)
      × (length s ≤ most_cells)

  last_round : (k room n : ℕ) (out : List ℕ) → n / base ≡ 0 → Printed (suc k) (suc room) n out
  unfolding digits_loop
  last_round k room n out none_left =
      let below : n % base < base = mod-lt n (omega arith) in
      let whole : 0 * base + n % base ≡ n = rw none_left at (quotient-remainder base n) in
      let same : n % base ≡ n = omega (arith, zero-mul base, whole) in
      (
        room,
        digit_char (n % base) ∷ [],
        rw (load-hex (n % base) (omega arith), none_left) refl,
        rw same (one_digit n (omega arith)),
        omega arith,
        omega arith,
      )

  -- The loop puts the numeral in front of what is there, where its room is enough.
  pub digits_loop-IsNumeral :
      (k room n : ℕ) (out : List ℕ) → n < base ^ suc k → k ≤ room → Printed (suc k) (suc room) n out
  unfolding digits_loop
  digits_loop-IsNumeral zero room n out fits enough = last_round zero room n out (
      let small : n < 1 * base = rw (pow-suc, pow-zero) at fits in
      omega (arith, quotient-lt base 1 n (omega arith) small))
  digits_loop-IsNumeral (suc k) zero n out fits enough = absurd (omega arith)
  digits_loop-IsNumeral (suc k) (suc room) n out fits enough = elim (Bool-cases (n / base == 0)) [
    | inl last ↦ last_round (suc k) (suc room) n out (==_eq (n / base) 0 last)
    | inr more ↦
        let below : n % base < base = mod-lt n (omega arith) in
        let c = digit_char (n % base) in
        let smaller =
          quotient-lt base (base ^ suc k) n (omega arith) (omega (arith, pow-suc base (suc k))) in
        let (left, s, run, numeral, used, length_le) =
          digits_loop-IsNumeral k room (n / base) (c ∷ out) smaller (omega arith) in
        let size = length-append s (c ∷ []) in
        (
          left,
          s ++ c ∷ [],
          rw (load-hex (n % base) (omega arith), more)
              (run ∙ ap (λ w. ok (left, w)) (sym (append_assoc s (c ∷ []) out))),
          more_digits n s (ground arith) numeral,
          omega arith,
          omega arith,
        )
  ]

  -- `_safe_utoa` prints the numeral of its value in front of a NUL, where the buffer has a cell for
  -- each digit of the value and one for the NUL.
  pub safe_utoa-IsNumeral :
      (val room : ℕ)
      → val < base ^ suc room
      → Shown (IsNumeral base val) (safe_utoa base val (suc (suc room))) (suc room)
  unfolding safe_utoa put_back
  safe_utoa-IsNumeral val room fits =
      let (left, s, run, numeral, used, _) =
        digits_loop-IsNumeral room room val (0 ∷ []) fits (omega arith) in
      (left, s, run, numeral, used)

-- The text of a signed number in base 10.
pub data IsSigned : ℤ → List ℕ → Type 0 where
  plain : {n : ℕ} {s : List ℕ} → IsNumeral 10 n s → IsSigned (pos n) s
  minus : {n : ℕ} {s : List ℕ} → IsNumeral 10 (n + 1) s → IsSigned (negsuc n) (b'-' ∷ s)

abbrev pub magnitude : ℤ → ℕ
magnitude (pos n) = n
magnitude (negsuc n) = n + 1

put_minus :
    (n left : ℕ) (s : List ℕ) (cells : ℕ)
    → IsNumeral 10 (n + 1) s
    → 0 < left
    → left + length s ≡ cells
    → Shown (IsSigned (negsuc n)) (put_back b'-' (left, s ++ 0 ∷ [])) cells
unfolding put_back
put_minus n zero s cells numeral more used = absurd (omega arith)
put_minus n (suc left) s cells numeral more used =
    (left, b'-' ∷ s, refl, minus numeral, omega arith)

-- `_safe_itoa` in base 10 prints a 64-bit integer, the least one left out, with its sign, in front
-- of a NUL, where the buffer has a cell for each of its digits, one for the sign and one for the
-- NUL.
pub safe_itoa-IsSigned :
    (val : ℤ) (room : ℕ)
    → magnitude val < 10 ^ suc room
    → val ≢ negsuc (2 ^ 63 - 1)
    → Shown (IsSigned val) (safe_itoa 10 val (suc (suc (suc room)))) (suc (suc room))
unfolding safe_itoa put_back
safe_itoa-IsSigned (pos n) room fits not_least =
    let (left, s, run, numeral, used, _) =
      digits_loop-IsNumeral 10 (omega arith) (omega arith) room (suc room) n (0 ∷ []) fits
        (omega arith) in
    (left, s, run, plain numeral, used)
safe_itoa-IsSigned (negsuc n) room fits not_least =
    let (left, s, run, numeral, used, length_le) =
      digits_loop-IsNumeral 10 (omega arith) (omega arith) room (suc room) (n + 1) (0 ∷ []) fits
        (omega arith) in
    let other : n ≢ 2 ^ 63 - 1 = λ e. not_least (ap negsuc e) in
    rw (==_ne n (2 ^ 63 - 1) other, run, ◌>>=◌)
      (put_minus n left s (suc (suc room)) numeral (omega arith) used)
