-- ===== src/Prelude/Results.antt =====
-- A Go result `(A, error)` with the errors of a component as a data type.
use mathlib.Core.Path.{◌≡◌, refl}
use mathlib.Core.Logic.{◌↔◌, ◌⊎◌, inl, inr}
use mathlib.Core.Bool.{Bool, true, false}

pub data Result {ℓ} (E A : Type ℓ) : Type ℓ where
  ok : A → Result E A
  err : E → Result E A

infixl 5 ◌>>=◌ ◌>>◌
abbrev pub ◌>>=◌ {ℓ} : {E A B : Type ℓ} → Result E A → (A → Result E B) → Result E B
ok a >>= f = f a
err e >>= f = err e

abbrev pub ◌>>◌ : {E B : Type 0} → Result E Unit → Result E B → Result E B
m >> k = m >>= λ _. k

-- `if b { return e }`
abbrev pub refuse_if : {E : Type 0} → Bool → E → Result E Unit
refuse_if true e = err e
refuse_if false e = ok tt

pub Result-cases {ℓ} :
    {E A : Type ℓ} (r : Result E A) → ((a : A) × (r ≡ ok a)) ⊎ ((e : E) × (r ≡ err e))
Result-cases (ok a) = inl (a, refl)
Result-cases (err e) = inr (e, refl)

-- `err == nil` of a check
abbrev pub is_ok : {E : Type 0} → Result E Unit → Bool
is_ok (ok t) = true
is_ok (err e) = false

pub is_ok_iff : {E : Type 0} (r : Result E Unit) → (is_ok r ≡ true) ↔ (r ≡ ok tt)
is_ok_iff (ok t) = (λ h. refl, λ h. refl)
is_ok_iff (err e) = (λ h. cc, λ h. cc)

-- Two checks pass where both do.
pub both-ok : {E : Type 0} → (r s : Result E Unit) → (r >> s) ≡ ok tt → (r ≡ ok tt) × (s ≡ ok tt)
both-ok (ok t) s h = (refl, h)
both-ok (err e) s h = cc

-- A step that is followed by another succeeded, where both did.
pub bind-ok {ℓ} :
    {E A B : Type ℓ} (r : Result E A) (f : A → Result E B) (b : B)
    → (r >>= f) ≡ ok b
    → (a : A) × (r ≡ ok a) × (f a ≡ ok b)
bind-ok (ok a) f b h = (a, refl, h)
bind-ok (err e) f b h = cc
