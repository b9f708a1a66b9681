-- ===== src/Common/Results.antt =====
-- Go's pair of a value and an error, of which one counts.
use mathlib.Core.Bool.{Bool}
use mathlib.Core.Option.{Option, none, some}
use mathlib.Core.Path.{◌≡◌, refl}
use mathlib.Core.Logic.{◌⊎◌, inl, inr}
use social_ai_backend.Common.Tests.{if◌then◌else◌}

pub data Attempt {ε ℓ} (E : Type ε) (A : Type ℓ) : Type (ε ⊔ ℓ) where
  err : E → Attempt E A
  ok : A → Attempt E A

infixl 5 ◌>>=◌ ◌>>◌
-- What comes after `if err != nil { return err }`.
abbrev pub ◌>>=◌ {ε ℓ κ} :
    {E : Type ε} {A : Type ℓ} {B : Type κ} → Attempt E A → (A → Attempt E B) → Attempt E B
err e >>= next = err e
ok a >>= next = next a

-- `if bad { return err }`.
abbrev pub refuse {ε} : {E : Type ε} → Bool → E → Attempt E (Unit {0})
refuse bad e = if bad then err e else ok tt

-- A missing value as an error.
abbrev pub found_or {ε ℓ} : {E : Type ε} {A : Type ℓ} → E → Option A → Attempt E A
found_or e o = elim o [ some a ↦ ok a | none ↦ err e ]

abbrev pub ◌>>◌ {ε ℓ} : {E : Type ε} {B : Type ℓ} → Attempt E (Unit {0}) → Attempt E B → Attempt E B
first >> second = first >>= λ _. second

-- A statement about the value, if there is one.
abbrev pub Ensures {ε ℓ κ} : {E : Type ε} {A : Type ℓ} → (A → Type κ) → Attempt E A → Type κ
Ensures P (err e) = Unit
Ensures P (ok a) = P a

pub Ensures->>= {ε ℓ κ θ ι} :
    {E : Type ε} {A : Type ℓ} {B : Type κ} (P : A → Type θ) (Q : B → Type ι) (m : Attempt E A)
    (f : A → Attempt E B)
    → Ensures P m
    → ((a : A) → P a → Ensures Q (f a))
    → Ensures Q (m >>= f)
Ensures->>= P Q (ok a) f h k = k a h
Ensures->>= P Q (err e) f h k = tt

-- The statement that says nothing.
pub Ensures-nothing {ε ℓ} : {E : Type ε} {A : Type ℓ} (m : Attempt E A) → Ensures (λ _. Unit {0}) m
Ensures-nothing (ok a) = tt
Ensures-nothing (err e) = tt

-- What follows a step that returns nothing.
pub after {ε ℓ κ} :
    {E : Type ε} {B : Type ℓ} (Q : B → Type κ) (m : Attempt E (Unit {0})) (k : Attempt E B)
    → Ensures Q k
    → Ensures Q (m >> k)
after Q m k h = Ensures->>= (λ _. Unit) Q m _ (Ensures-nothing m) (λ _ _. h)

pub found_or_self {ε ℓ} :
    {E : Type ε} {A : Type ℓ} (e : E) (o : Option A) → Ensures (λ a. o ≡ some a) (found_or e o)
found_or_self e none = tt
found_or_self e (some a) = refl

pub Attempt-cases {ε ℓ} :
    {E : Type ε} {A : Type ℓ} (m : Attempt E A) → ((a : A) × (m ≡ ok a)) ⊎ ((e : E) × (m ≡ err e))
Attempt-cases (ok a) = inl (a, refl)
Attempt-cases (err e) = inr (e, refl)
