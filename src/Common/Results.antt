-- ===== src/Common/Results.antt =====
-- Go's `(T, error)` returns: a value or an error.
use mathlib.Core.Path.{◌≡◌, refl, ◌∙◌, ap}
use mathlib.Core.Logic.{◌↔◌}
use mathlib.Core.Bool.{Bool, true, false}
use garrison.Common.Tests.{if◌then◌else◌}

pub data Result {ℓ} (E A : Type ℓ) : Type ℓ where
  ok : A → Result E A
  err : E → Result E A

infixl 5 ◌>>=◌ ◌>>◌
abbrev pub ◌>>=◌ {ℓ} : {E A B : Type ℓ} → Result E A → (A → Result E B) → Result E B
ok a >>= f = f a
err e >>= f = err e

abbrev pub ◌>>◌ {ℓ} : {E A B : Type ℓ} → Result E A → Result E B → Result E B
m >> k = m >>= λ _. k

pub bind_iff :
    {E A B : Type 0} (m : Result E A) (f : A → Result E B) (b : B)
    → ((m >>= f) ≡ ok b) ↔ ((a : A) × (m ≡ ok a) × (f a ≡ ok b))
bind_iff (ok a) f b = ((λ h. (a, refl, h)), (λ (c, e, h). let q : a ≡ c = cc in ap f q ∙ h))
bind_iff (err e) f b = ((λ h. cc), (λ (c, q, h). cc))

pub then_iff :
    {E B : Type 0} (m : Result E Unit) (k : Result E B) (b : B)
    → ((m >> k) ≡ ok b) ↔ ((m ≡ ok tt) × (k ≡ ok b))
then_iff (ok u) k b = ((λ h. (refl, h)), (λ (e, h). h))
then_iff (err e) k b = ((λ h. cc), (λ (q, h). cc))

-- A check of the kind `if bad { return err }`.
abbrev pub reject : {E : Type 0} → Bool → E → Result E Unit
reject bad e = if bad then err e else ok tt

pub reject_iff : {E : Type 0} (bad : Bool) (e : E) → (reject bad e ≡ ok tt) ↔ (bad ≡ false)
reject_iff true e = ((λ h. cc), (λ h. cc))
reject_iff false e = ((λ h. refl), (λ h. refl))
