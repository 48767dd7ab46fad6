-- ===== src/Slice/Strings.antt =====
-- C strings: what a `char *` points at, and the bytes that `strlen` or `%s` read from it.
use sample_sds_storage.Base.{
  ℕ, zero, suc, ◌≡◌, ◌≢◌, refl, Bool, true, false, List, [], ◌∷◌, ◌++◌, arith, ◌==◌, if◌then◌else◌,
  Run, ok, fault, ◌>>=◌,
}

-- `at bs` is a valid pointer from which the bytes `bs` can be read; `wild` is one from which
-- nothing can: a freed block, or bytes that were never written.
pub data CharPtr : Type 0 where
  null : CharPtr
  at : List ℕ → CharPtr
  wild : CharPtr

abbrev pub is_null : CharPtr → Bool
is_null null = true
is_null _ = false

-- The bytes before the first NUL; reading on past the last byte is a fault.
unfoldable pub until_nul : List ℕ → Run (List ℕ)
until_nul [] = fault
until_nul (c ∷ bs) = let rest = until_nul bs in if c == 0 then ok [] else (do v ← rest; ok (c ∷ v))

unfoldable pub c_string : CharPtr → Run (List ℕ)
unfolding until_nul
c_string null = fault
c_string (at bs) = until_nul bs
c_string wild = fault

-- `strncmp(a, b, n) == 0`
unfoldable pub same_prefix : (n : ℕ) → List ℕ → List ℕ → Run Bool
same_prefix zero a b = ok true
same_prefix (suc n) [] b = fault
same_prefix (suc n) (c ∷ a) [] = fault
same_prefix (suc n) (c ∷ a) (e ∷ b) =
    let rest = same_prefix n a b in if c == e then (if c == 0 then ok true else rest) else ok false

-- `strncmp` of a pointer, which must not be NULL, for 0 bytes neither.
unfoldable pub strncmp_equal : CharPtr → List ℕ → (n : ℕ) → Run Bool
strncmp_equal (at a) b n = same_prefix n a b
strncmp_equal p b n = fault

-- No byte is NUL.
abbrev pub IsText : List ℕ → Type 0
IsText [] = Unit
IsText (c ∷ v) = (c ≢ 0) × IsText v

pub until_nul-append : (v rest : List ℕ) → IsText v → until_nul (v ++ 0 ∷ rest) ≡ ok v
unfolding until_nul
until_nul-append [] rest h = refl
until_nul-append (c ∷ v) rest (ne, h) =
    let live : (c == 0) ≡ false = ground arith in rw (live, until_nul-append v rest h) refl

-- A text with no NUL after it is read past its end.
pub until_nul-fault : (v : List ℕ) → IsText v → until_nul v ≡ fault
unfolding until_nul
until_nul-fault [] h = refl
until_nul-fault (c ∷ v) (ne, h) =
    let live : (c == 0) ≡ false = ground arith in rw (live, until_nul-fault v h) refl
