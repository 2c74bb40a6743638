-- ===== src/Common/Results.antt =====
-- Results of code that may throw.
use mathlib.Core.Path.{◌≡◌, refl, subst}
use mathlib.Core.Logic.{◌≢◌, ◌⊎◌, inl, inr}

pub data Result {ℓ} (A : Type ℓ) : Type ℓ where
  ok : A → Result A
  thrown : Result A

infixl 5 ◌>>=◌ ◌>>◌
abbrev pub ◌>>=◌ {ℓ κ} : {A : Type ℓ} {B : Type κ} → Result A → (A → Result B) → Result B
ok a >>= f = f a
thrown >>= f = thrown

abbrev pub ◌>>◌ {ℓ κ} : {A : Type ℓ} {B : Type κ} → Result A → Result B → Result B
m >> k = m >>= λ _. k

-- The run ends normally, in a value that satisfies `P`.
abbrev pub Returns {ℓ κ} : {A : Type ℓ} → Result A → (A → Type κ) → Type (ℓ ⊔ κ)
Returns {A} r P = (a : A) × (r ≡ ok a) × P a

pub ok≢thrown {ℓ} : {A : Type ℓ} {a : A} → ok a ≢ thrown
ok≢thrown = λ e. cc e

-- A run that ends in a value with `P` ends in no other value.
pub Returns_ok {ℓ κ} :
    {A : Type ℓ} {P : A → Type κ} {r : Result A} {b : A} → Returns r P → r ≡ ok b → P b
Returns_ok {P = P} (a, e, p) f = subst P (cc (e, f)) p

pub ok_injective {ℓ} : {A : Type ℓ} {a b : A} → ok a ≡ ok b → a ≡ b
ok_injective e = cc e

pub bind_ok {ℓ κ} :
    {A : Type ℓ} {B : Type κ} (r : Result A) (f : A → Result B) (b : B)
    → (r >>= f) ≡ ok b
    → (a : A) × (r ≡ ok a) × (f a ≡ ok b)
bind_ok (ok a) f b e = (a, refl, e)
bind_ok thrown f b e = absurd (cc e)

pub Result-cases {ℓ} : {A : Type ℓ} (r : Result A) → (r ≡ thrown) ⊎ ((a : A) × (r ≡ ok a))
Result-cases (ok a) = inr (a, refl)
Result-cases thrown = inl refl
