-- ===== src/Log/Buffer.antt =====
-- How a line of src/server/log.c grows in its buffer.
use sample_sds_storage.Base.{
  sizes, ℕ, zero, suc, ◌-◌, ◌<◌, ◌≡◌, refl, ◌∙◌, ap, inl, inr, Bool-cases, ltb→lt, Option, none,
  some, List, [], ◌∷◌, ◌++◌, arith, ltb, lt→ltb, pos, length, take, Run, ok, ◌>>=◌,
}
use sample_sds_storage.Slice.Strings.{at}
use sample_sds_storage.Log.Format.{
  Arg, ordinary, conversion, format_loop, safe_vsnprintf, safe_snprintf,
}
use sample_sds_storage.Log.Items.{Item, encode, arguments, AllFit, Renders}
use sample_sds_storage.Log.Render.{safe_vsnprintf-Renders}
use sample_sds_storage.Log.Conversions.{Writes, literal_lem, end-Writes}
use sample_sds_storage.Log.Logger.{max_len, milliseconds_format}
use sample_sds_storage.Log.Write.{end_line, text_of, moved, vscnprintf, extend, extend_safe, dated}

pub end_line-ok :
    (size : ℕ) (line : List ℕ) → length line < size → end_line size line ≡ ok (line ++ 10 ∷ [])
unfolding end_line
end_line-ok size line h = rw (lt→ltb _ _ h) refl

-- The text of the items, cut at `space` bytes.
abbrev pub Cut : (items : List Item) (space : ℕ) → Run (List ℕ) → Type 0
Cut items space result = (out : List ℕ) × Renders items out × (result ≡ ok (take space out))

pub safe_vsnprintf-Cut :
    (items : List Item) (behind : List ℕ) (size : ℕ)
    → AllFit items
    → 0 < size
    → Cut items (size - 1) (safe_vsnprintf size (at (encode items behind)) (arguments items))
safe_vsnprintf-Cut items behind zero fits more = absurd (omega arith)
safe_vsnprintf-Cut items behind (suc size) fits more =
    let (out, renders, run) = safe_vsnprintf-Renders items behind fits in
    let same : size ≡ suc size - 1 = omega arith in
    (out, renders, run size ∙ ap (λ n. ok (take n out)) same)

-- What a step adds to a line leaves room for the NUL.
abbrev pub Grows : (size : ℕ) → List ℕ → Run (List ℕ) → Type 0
Grows size line result =
    (more : List ℕ) × (result ≡ ok (line ++ more)) × (length (line ++ more) < size)

pub cut_lt :
    (size : ℕ) (line out : List ℕ)
    → length line < size
    → length (line ++ take (size - length line - 1) out) < size
cut_lt size line out h = grind sizes

pub extend_safe-Grows :
    (items : List Item) (behind : List ℕ) (size : ℕ) (line : List ℕ)
    → AllFit items
    → length line < size
    → Grows size line (extend_safe size line (encode items behind) (arguments items))
unfolding extend_safe safe_snprintf
extend_safe-Grows items behind size line fits h =
    let (out, _, run) = safe_vsnprintf-Cut items behind (size - length line) fits (omega arith) in
    (take (size - length line - 1) out, rw run refl, cut_lt size line out h)

-- The formatter does not know `%0`: it skips those two characters and copies the others.
abbrev pub behind_zero : List ℕ
behind_zero = b'3' ∷ b'l' ∷ b'd' ∷ []

pub behind_zero-Writes : (args : List Arg) → Writes (behind_zero ++ 0 ∷ []) args behind_zero
behind_zero-Writes args = literal_lem b'3' _ args _ (omega arith) (omega arith) (
    literal_lem b'l' _ args _ (omega arith) (omega arith)
      (literal_lem b'd' _ args _ (omega arith) (omega arith) (end-Writes [] args)))

pub skip_zero :
    (args : List Arg) (space : ℕ)
    → format_loop ordinary milliseconds_format args space
      ≡ (do rest ← format_loop ordinary (behind_zero ++ 0 ∷ []) args (space - 0); ok ([] ++ rest))
unfolding format_loop conversion
skip_zero args space = refl

pub milliseconds_run :
    (args : List Arg) (size : ℕ)
    → 0 < size
    → safe_vsnprintf size (at milliseconds_format) args ≡ ok (take (size - 1) behind_zero)
unfolding safe_vsnprintf
milliseconds_run args zero more = absurd (omega arith)
milliseconds_run args (suc size) more =
    let same : size - 0 ≡ suc size - 1 = omega arith in
    skip_zero args size ∙ (rw (same, behind_zero-Writes args (suc size - 1)) refl)

pub milliseconds_lem :
    (args : List Arg) (size : ℕ) (line : List ℕ)
    → length line < size
    → Grows size line (extend_safe size line milliseconds_format args)
unfolding extend_safe safe_snprintf
milliseconds_lem args size line h = (
  take (size - length line - 1) behind_zero,
  rw (milliseconds_run args (size - length line) (omega arith)) refl,
  cut_lt size line behind_zero h,
)

-- `strftime` writes fewer bytes than it is given, before its NUL.
abbrev pub IsStamp : (ℕ → List ℕ) → Type 0
IsStamp strftime = (n : ℕ) → 0 < n → length (strftime n) < n

pub dated_lt : (strftime : ℕ → List ℕ) → IsStamp strftime → length (dated strftime) < max_len
dated_lt strftime h = omega (arith, h 4095 (omega arith))

-- `_vscnprintf` returns fewer bytes than it is given.
pub vscnprintf-lt :
    (size : ℕ) (made : Option (List ℕ))
    → 0 < size
    → (n : ℕ) × (vscnprintf size made ≡ pos n) × (n < size)
unfolding vscnprintf
vscnprintf-lt zero made more = absurd (omega arith)
vscnprintf-lt (suc size) none more = (0, refl, omega arith)
vscnprintf-lt (suc size) (some []) more = (0, refl, omega arith)
vscnprintf-lt (suc size) (some (c ∷ out)) more =
    elim (Bool-cases (ltb (suc (length out)) (suc size))) [
      | inl fits ↦ (suc (length out), rw fits refl, ltb→lt _ _ fits)
      | inr cut ↦ (size, rw cut refl, omega arith)
    ]

pub extend_lt :
    (size : ℕ) (line : List ℕ) (made : Option (List ℕ))
    → length line < size
    → length (extend size line made) < size
unfolding extend
extend_lt size line made h =
    let (n, run, lt) = vscnprintf-lt (size - length line) made (omega arith) in
    let same : extend size line made ≡ line ++ take n (text_of made) =
      ap (moved line (text_of made)) run in
    rw same (grind sizes)
