-- ===== src/Base/Attempt.antt =====
-- What a function that may raise comes to: a value, or the error that it raises.
use coppermind.Base.{◌≡◌, ◌⊎◌, inl, inr, refl}

pub data Attempt {ℓ} (Raised : Type 0) (Value : Type ℓ) : Type ℓ where
  raises : Raised → Attempt Raised Value
  ok : Value → Attempt Raised Value

infixl 5 ◌>>=◌
abbrev pub ◌>>=◌ {ℓ κ} :
    {Raised : Type 0} {First : Type ℓ} {Then : Type κ}
    → Attempt Raised First
    → (First → Attempt Raised Then)
    → Attempt Raised Then
raises error >>= next = raises error
ok value >>= next = next value

-- Inversion of a successful bind.
pub >>=-eq-ok {ℓ κ} :
    {Raised : Type 0} {First : Type ℓ} {Then : Type κ} (before : Attempt Raised First)
    (next : First → Attempt Raised Then) {result : Then}
    → (before >>= next) ≡ ok result
    → (value : First) × (before ≡ ok value) × (next value ≡ ok result)
>>=-eq-ok (ok value) next h = (value, refl, h)
>>=-eq-ok (raises error) next h = cc

-- The same as data, for a chain whose steps are taken apart one by one.
pub data Succeeds {ℓ κ} {Raised : Type 0} {First : Type ℓ} {Then : Type κ}
    (before : Attempt Raised First) (next : First → Attempt Raised Then) (result : Then)
    : Type (ℓ ⊔ κ) where
  through :
      (value : First) → before ≡ ok value → next value ≡ ok result → Succeeds before next result

pub >>=-Succeeds {ℓ κ} :
    {Raised : Type 0} {First : Type ℓ} {Then : Type κ} (before : Attempt Raised First)
    (next : First → Attempt Raised Then) {result : Then}
    → (before >>= next) ≡ ok result
    → Succeeds before next result
>>=-Succeeds (ok value) next h = through value refl h
>>=-Succeeds (raises error) next h = cc

pub >>=-agree {ℓ κ} :
    {Raised : Type 0} {First : Type ℓ} {Then : Type κ} (before : Attempt Raised First)
    (f g : First → Attempt Raised Then)
    → ((value : First) → before ≡ ok value → f value ≡ g value)
    → (before >>= f) ≡ (before >>= g)
>>=-agree (ok value) f g h = h value refl
>>=-agree (raises error) f g h = refl

pub ok-injective {ℓ} :
    {Raised : Type 0} {Value : Type ℓ} {a b : Value}
    → ◌≡◌ {A = Attempt Raised Value} (ok a) (ok b)
    → a ≡ b
ok-injective h = cc

pub Attempt-cases {ℓ} :
    {Raised : Type 0} {Value : Type ℓ} (o : Attempt Raised Value)
    → ((e : Raised) × (o ≡ raises e)) ⊎ ((v : Value) × (o ≡ ok v))
Attempt-cases (raises e) = inl (e, refl)
Attempt-cases (ok v) = inr (v, refl)
