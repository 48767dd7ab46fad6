-- ===== src/Base/Results.antt =====
-- What every result of a run satisfies.
use mathlib.Core.Path.{◌≡◌, refl}
use mathlib.Core.Bool.{Bool, true, false}
use sample_sds_storage.Base.Checks.{if◌then◌else◌}
use sample_sds_storage.Base.Outcome.{Run, ok, fault, abort, ◌>>=◌}

-- A property of whatever a run returns.
abbrev pub Always {ℓ} : {A : Type ℓ} → (A → Type 0) → Run A → Type 0
Always P (ok a) = P a
Always P fault = Unit
Always P abort = Unit

pub Always-bind {ℓ κ} :
    {A : Type ℓ} {B : Type κ} (P : A → Type 0) (Q : B → Type 0) (r : Run A) (f : A → Run B)
    → Always P r
    → ((a : A) → P a → Always Q (f a))
    → Always Q (r >>= f)
Always-bind P Q (ok a) f h k = k a h
Always-bind P Q fault f h k = tt
Always-bind P Q abort f h k = tt

pub Always-if {ℓ} :
    {A : Type ℓ} (P : A → Type 0) (b : Bool) (r s : Run A)
    → (b ≡ true → Always P r)
    → (b ≡ false → Always P s)
    → Always P (if b then r else s)
Always-if P true r s h k = h refl
Always-if P false r s h k = k refl

pub anything {ℓ} : {A : Type ℓ} (r : Run A) → Always (λ _. Unit) r
anything (ok a) = tt
anything fault = tt
anything abort = tt

-- Whatever a bind starts with, where its rest always has the property.
pub Always-after {ℓ κ} :
    {A : Type ℓ} {B : Type κ} (Q : B → Type 0) (r : Run A) (f : A → Run B)
    → ((a : A) → Always Q (f a))
    → Always Q (r >>= f)
Always-after Q r f h = Always-bind (λ _. Unit) Q r f (anything r) (λ a _. h a)

-- The rules by which `search` walks a run.
pub ruleset always_rules = (Always-if, Always-after)
