-- ===== src/Prelude/Results.antt =====
-- A call that returns a value or raises an exception.
use mathlib.Core.Path.{◌≡◌, refl}
use mathlib.Core.Bool.{Bool, true, false}
use inference_box.Prelude.Tests.{if◌then◌else◌}

pub data Result {ℓ} (E : Type ℓ) (A : Type ℓ) : Type ℓ where
  ok : A → Result E A
  raises : E → Result E A

infixl 5 ◌>>=◌
abbrev pub ◌>>=◌ {ℓ} : {E A B : Type ℓ} → Result E A → (A → Result E B) → Result E B
ok a >>= f = f a
raises e >>= f = raises e

-- A call behind a guard that raises has returned only past the guard.
pub guarded-ok {ℓ} :
    {E A : Type ℓ} (b : Bool) (e : E) (r : Result E A) (a : A)
    → (if b then raises e else r) ≡ ok a
    → (b ≡ false) × (r ≡ ok a)
guarded-ok true e r a h = cc
guarded-ok false e r a h = (refl, h)

pub bind-cong {ℓ} :
    {E A B : Type ℓ} (r : Result E A) (f g : A → Result E B)
    → ((a : A) → r ≡ ok a → f a ≡ g a)
    → (r >>= f) ≡ (r >>= g)
bind-cong (ok a) f g h = h a refl
bind-cong (raises e) f g h = refl

pub bind-ok {ℓ} :
    {E A B : Type ℓ} (r : Result E A) (f : A → Result E B) (b : B)
    → (r >>= f) ≡ ok b
    → (a : A) × (r ≡ ok a) × (f a ≡ ok b)
bind-ok (ok a) f b h = (a, refl, h)
bind-ok (raises e) f b h = cc

pub bind_assoc {ℓ} :
    {E A B C : Type ℓ} (r : Result E A) (f : A → Result E B) (g : B → Result E C)
    → ((r >>= f) >>= g) ≡ (r >>= λ a. f a >>= g)
bind_assoc (ok a) f g = refl
bind_assoc (raises e) f g = refl
