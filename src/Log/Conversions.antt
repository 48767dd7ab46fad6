-- ===== src/Log/Conversions.antt =====
-- The loop of `_safe_vsnprintf` of src/server/log.c at one character and at one conversion.
use sample_sds_storage.Base.{
  ℕ, zero, suc, ◌-◌, ◌≡◌, ◌≢◌, refl, sym, ◌∙◌, ap, Bool, true, false, List, [], ◌∷◌, ◌++◌, arith,
  ◌||◌, ◌==◌, ==_ne, ℤ, length, take, take-all_ge, ok, ◌>>=◌,
}
use sample_sds_storage.Slice.Strings.{CharPtr, IsText}
use sample_sds_storage.Log.Items.{
  Width, plain_width, long_width, long_long_width, modifier, is_long, integer,
}
use sample_sds_storage.Log.Numerals.{IsSigned, AreDigits, plain, minus}
use sample_sds_storage.Log.Format.{
  Arg, string, ordinary, integer_arg, string_arg, number_text, copy_string, is_number,
  string_memory, conversion, format_loop,
}

pub AreDigits-IsText : (base : ℕ) (s : List ℕ) → AreDigits base s → IsText s
AreDigits-IsText base [] h = tt
AreDigits-IsText base (c ∷ s) (a, b, h) = (λ e. ground arith, AreDigits-IsText base s h)

pub IsSigned-IsText : (val : ℤ) (s : List ℕ) → IsSigned val s → IsText s
IsSigned-IsText val s (plain h) = AreDigits-IsText 10 s h.digits
IsSigned-IsText val (c ∷ s) (minus h) = (λ e. ground arith, AreDigits-IsText 10 _ h.digits)

pub copy_string-take :
    (space : ℕ) (s behind : List ℕ)
    → IsText s
    → copy_string space (s ++ 0 ∷ behind) ≡ ok (take space s)
unfolding copy_string
copy_string-take zero [] behind h = refl
copy_string-take zero (c ∷ s) behind h = refl
copy_string-take (suc space) [] behind h = refl
copy_string-take (suc space) (c ∷ s) behind (ne, h) =
    rw (==_ne c 0 ne, copy_string-take space s behind h) refl

pub take-append :
    (n : ℕ) (s t : List ℕ) → take n (s ++ t) ≡ take n s ++ take (n - length (take n s)) t
take-append zero [] t = refl
take-append zero (c ∷ s) t = refl
take-append (suc n) [] t = let same : suc n ≡ suc n - 0 = omega arith in ap (λ k. take k t) same
take-append (suc n) (c ∷ s) t =
    let same : n - length (take n s) ≡ suc n - suc (length (take n s)) = omega arith in
    ap (λ rest. c ∷ rest) (take-append n s t ∙ ap (λ k. take n s ++ take k t) same)

pub integer_arg-integer :
    (wide : Bool) (w : ℕ) (args : List Arg)
    → integer_arg wide (integer wide w ∷ args) ≡ ok (w, args)
unfolding integer_arg
integer_arg-integer true w args = refl
integer_arg-integer false w args = refl

pub conversion-number :
    (c : ℕ) (have_longlong wide : Bool) (w : ℕ) (args : List Arg) (s : List ℕ)
    → is_number c ≡ true
    → (c == b'p' || have_longlong) ≡ wide
    → number_text c wide w ≡ ok (s ++ 0 ∷ [])
    → IsText s
    → (space : ℕ)
    → conversion c have_longlong (integer wide w ∷ args) space ≡ ok (take space s, args)
unfolding conversion
conversion-number c have_longlong wide w args s number_c same run h space =
    rw (number_c, same, integer_arg-integer wide w args)
      (rw (◌>>=◌, run) (rw (◌>>=◌, copy_string-take space s [] h) refl))

pub conversion-string :
    (have_longlong : Bool) (p : CharPtr) (args : List Arg) (s behind : List ℕ)
    → string_memory p ≡ ok (s ++ 0 ∷ behind)
    → IsText s
    → (space : ℕ) → conversion b's' have_longlong (string p ∷ args) space ≡ ok (take space s, args)
unfolding conversion string_arg
conversion-string have_longlong p args s behind memory h space =
    rw memory (rw (◌>>=◌, copy_string-take space s behind h) refl)

-- The loop at a format, whatever the space, writes what fits of a text.
abbrev pub Writes : (format : List ℕ) → List Arg → List ℕ → Type 0
Writes format args out = (space : ℕ) → format_loop ordinary format args space ≡ ok (take space out)

pub converted :
    (width : Width) (c : ℕ) (format : List ℕ) (arg : Arg) (args : List Arg) (s out : List ℕ)
    → (c == b'l') ≡ false
    → ((space : ℕ) → conversion c (is_long width) (arg ∷ args) space ≡ ok (take space s, args))
    → Writes format args out
    → Writes (b'%' ∷ (modifier width ++ c ∷ format)) (arg ∷ args) (s ++ out)
unfolding format_loop
converted plain_width c format arg args s out other here rest space =
    rw (other, here space, ◌>>=◌, rest (space - length (take space s)), take-append space s out)
      refl
converted long_width c format arg args s out other here rest space =
    rw (other, here space, ◌>>=◌, rest (space - length (take space s)), take-append space s out)
      refl
converted long_long_width c format arg args s out other here rest space =
    rw (here space, ◌>>=◌, rest (space - length (take space s)), take-append space s out) refl

pub literal_lem :
    (c : ℕ) (format : List ℕ) (args : List Arg) (out : List ℕ)
    → c ≢ 0
    → c ≢ b'%'
    → Writes format args out
    → Writes (c ∷ format) args (c ∷ out)
unfolding format_loop
literal_lem c format args out live plain_c rest zero =
    rw (==_ne c 0 live, ==_ne c b'%' plain_c) refl
literal_lem c format args out live plain_c rest (suc space) =
    let step : suc space - 1 ≡ space = omega arith in
    let more : (suc space == 0) ≡ false = ground arith in
    rw (==_ne c 0 live, ==_ne c b'%' plain_c, step, rest space, more) refl

pub end-Writes : (behind : List ℕ) (args : List Arg) → Writes (0 ∷ behind) args []
unfolding format_loop
end-Writes behind args space = ap ok (sym (take-all_ge space [] (omega arith)))
