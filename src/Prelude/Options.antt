-- ===== src/Prelude/Options.antt =====
-- Chains of results that may be missing.
use mathlib.Core.Path.{◌≡◌, refl}
use mathlib.Core.Bool.{Bool, true, false}
use mathlib.Core.Option.{Option, none, some}
use egui.Prelude.Tests.{if◌then◌else◌}

infixl 5 ◌>>=◌
abbrev pub ◌>>=◌ {ℓ κ} : {A : Type ℓ} {B : Type κ} → Option A → (A → Option B) → Option B
none >>= next = none
some a >>= next = next a

pub if-some {ℓ} :
    {A : Type ℓ} (b : Bool) (x : A) {y : A} → (if b then some x else none) ≡ some y → x ≡ y
if-some true x e = cc e
if-some false x e = absurd (cc e)

pub bind-some {ℓ κ} :
    {A : Type ℓ} {B : Type κ} (r : Option A) (k : A → Option B) {b : B}
    → (r >>= k) ≡ some b
    → (a : A) × (r ≡ some a) × (k a ≡ some b)
bind-some none k e = absurd (cc e)
bind-some (some a) k e = (a, refl, e)
