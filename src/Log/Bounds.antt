-- ===== src/Log/Bounds.antt =====
-- `_safe_vsnprintf` of src/server/log.c stays in its buffer.
use sample_sds_storage.Base.{
  sizes, Always, Always-bind, Always-if, anything, ℕ, zero, suc, ◌-◌, ◌≤◌, ◌<◌, ◌≡◌, Bool, true,
  false, List, [], ◌∷◌, ◌++◌, arith, ◌==◌, ◌||◌, length, Run, ok, ◌>>=◌,
}
use sample_sds_storage.Slice.Strings.{CharPtr, null, at, wild, IsText}
use sample_sds_storage.Log.Format.{
  Arg, Spot, ordinary, percent, one_l, two_l, skips_l, is_number, integer_arg, string_arg,
  number_text, string_memory, copy_string, conversion, format_loop, safe_vsnprintf,
}

-- `out` has at most `space` bytes, none of them NUL.
abbrev pub IsWithin : (space : ℕ) → List ℕ → Type 0
IsWithin space out = (length out ≤ space) × IsText out

copy_string-IsWithin : (space : ℕ) (val : List ℕ) → Always (IsWithin space) (copy_string space val)
unfolding copy_string
copy_string-IsWithin space [] = tt
copy_string-IsWithin zero (c ∷ val) = (omega arith, tt)
copy_string-IsWithin (suc space) (c ∷ val) =
    Always-if _ (c == 0) (ok []) _ (λ _. (omega arith, tt))
      (λ live.
        Always-bind (IsWithin space) _ (copy_string space val) _ (copy_string-IsWithin space val)
          (λ cs (le, h). (omega arith, (λ e. ground arith, h))))

IsText-append : (s t : List ℕ) → IsText s → IsText t → IsText (s ++ t)
IsText-append [] t h k = k
IsText-append (c ∷ s) t (live, h) k = (live, IsText-append s t h k)

-- What a conversion writes, beside the arguments it leaves.
abbrev IsConverted : (space : ℕ) → List ℕ × List Arg → Type 0
IsConverted space (cs, left) = IsWithin space cs

copied :
    (space : ℕ) (left : List Arg) (val : Run (List ℕ))
    → Always (IsConverted space) (do v ← val; cs ← copy_string space v; ok (cs, left))
copied space left val =
    Always-bind (λ _. Unit) (IsConverted space) val _ (anything val)
      (λ v _.
        Always-bind (IsWithin space) (IsConverted space) (copy_string space v) (λ cs. ok (cs, left))
          (copy_string-IsWithin space v) (λ cs h. h))

conversion-IsWithin :
    (c : ℕ) (have_longlong : Bool) (args : List Arg) (space : ℕ)
    → Always (IsConverted space) (conversion c have_longlong args space)
unfolding conversion
conversion-IsWithin c have_longlong args space =
    let wide = c == b'p' || have_longlong in
    Always-if _ (is_number c) _ _
      (λ _.
        Always-bind (λ _. Unit) (IsConverted space) (integer_arg wide args) _
          (anything (integer_arg wide args))
          (λ (w, left) _. copied space left (number_text c wide w)))
      (λ _.
        Always-if _ (c == b's') _ _
          (λ _.
            Always-bind (λ _. Unit) (IsConverted space) (string_arg args) _
              (anything (string_arg args)) (λ (p, left) _. copied space left (string_memory p)))
          (λ _. (omega arith, tt)))

-- Behind `%`, the loop goes on with the space that the conversion leaves.
converted-IsWithin :
    (c : ℕ) (have_longlong : Bool) (format : List ℕ) (args : List Arg) (space : ℕ)
    → ((left : List Arg) (space : ℕ)
        → Always (IsWithin space) (format_loop ordinary format left space))
    → Always (IsWithin space) (do
      (cs, left) ← conversion c have_longlong args space
      rest ← format_loop ordinary format left (space - length cs)
      ok (cs ++ rest))
converted-IsWithin c have_longlong format args space within =
    Always-bind (IsConverted space) (IsWithin space) (conversion c have_longlong args space) _
      (conversion-IsWithin c have_longlong args space)
      (λ (cs, left) (le, h).
        Always-bind (IsWithin (space - length cs)) (IsWithin space)
          (format_loop ordinary format left (space - length cs)) _ (within left (space - length cs))
          (λ rest (le', h'). (grind sizes, IsText-append cs rest h h')))

format_loop-IsWithin :
    (spot : Spot) (format : List ℕ) (args : List Arg) (space : ℕ)
    → Always (IsWithin space) (format_loop spot format args space)
unfolding format_loop
format_loop-IsWithin spot [] args space = tt
format_loop-IsWithin ordinary (c ∷ format) args space =
    let converted = format_loop-IsWithin percent format args space in
    let rest = format_loop-IsWithin ordinary format args (space - 1) in
    Always-if _ (c == 0) _ _ (λ _. (omega arith, tt))
      (λ live.
        Always-if _ (c == b'%') _ _ (λ _. converted)
          (λ _.
            Always-if _ (space == 0) _ _ (λ _. (omega arith, tt))
              (λ more.
                Always-bind (IsWithin (space - 1)) (IsWithin space)
                  (format_loop ordinary format args (space - 1)) _ rest
                  (λ cs (le, h). (ground arith, (λ e. ground arith, h))))))
format_loop-IsWithin percent (c ∷ format) args space =
    Always-if _ (skips_l percent c) _ _ (λ _. format_loop-IsWithin one_l format args space)
      (λ _. converted-IsWithin c false format args space (format_loop-IsWithin ordinary format))
format_loop-IsWithin one_l (c ∷ format) args space =
    Always-if _ (skips_l one_l c) _ _ (λ _. format_loop-IsWithin two_l format args space)
      (λ _. converted-IsWithin c true format args space (format_loop-IsWithin ordinary format))
format_loop-IsWithin two_l (c ∷ format) args space =
    converted-IsWithin c true format args space (format_loop-IsWithin ordinary format)

-- Whatever its format and its arguments, `_safe_vsnprintf` writes fewer bytes than `size` before
-- its NUL, and none of them is NUL, unless it reads what it must not.
pub safe_vsnprintf-lt :
    (size : ℕ) (format : CharPtr) (args : List Arg) (out : List ℕ)
    → safe_vsnprintf size format args ≡ ok out
    → (length out < size) × IsText out
unfolding safe_vsnprintf
safe_vsnprintf-lt zero format args out e = cc e
safe_vsnprintf-lt (suc size) null args out e = cc e
safe_vsnprintf-lt (suc size) wild args out e = cc e
safe_vsnprintf-lt (suc size) (at format) args out e =
    let (le, h) : IsWithin size out = rw e at (format_loop-IsWithin ordinary format args size) in
    (omega arith, h)
