-- ===== src/Prelude/Results.antt =====
-- A call that returns, or that ends in `panic()`. `panic` does not return: the kernel halts.
use mathlib.Core.Path.{◌≡◌, refl, ap}
use mathlib.Core.Option.{some}

pub data Outcome {ℓ} (E : Type 0) (A : Type ℓ) : Type ℓ where
  ok : A → Outcome E A
  panic : E → Outcome E A

-- What follows a panic does not run.
module _ {E : Type 0} where
  infixl 5 ◌>>=◌ ◌>>◌
  abbrev pub ◌>>=◌ {ℓ κ} : {A : Type ℓ} {B : Type κ} → Outcome E A → (A → Outcome E B) → Outcome E B
  panic cause >>= rest = panic cause
  ok value >>= rest = rest value

  abbrev pub ◌>>◌ {κ} : {B : Type κ} → Outcome E (Unit {0}) → Outcome E B → Outcome E B
  first >> rest = first >>= λ done. rest

pub ok-injective {ℓ} :
    {E : Type 0} {A : Type ℓ} {a b : A} → ◌≡◌ {A = Outcome E A} (ok a) (ok b) → a ≡ b
ok-injective h = cc

pub eq_of_some {ℓ} : {A : Type ℓ} {a b : A} → some a ≡ some b → a ≡ b
eq_of_some h = cc

-- A chain of two calls that returns: both return.
pub >>=-eq-ok {ℓ κ} :
    {E : Type 0} {A : Type ℓ} {B : Type κ} (first : Outcome E A) (rest : A → Outcome E B)
    {result : B}
    → (first >>= rest) ≡ ok result
    → (value : A) × (first ≡ ok value) × (rest value ≡ ok result)
>>=-eq-ok (panic cause) rest same = cc
>>=-eq-ok (ok value) rest same = (value, refl, same)

-- A panic of a part, as one of the whole.
abbrev pub within {ℓ} : {E F : Type 0} {A : Type ℓ} → (E → F) → Outcome E A → Outcome F A
within cause (panic e) = panic (cause e)
within cause (ok value) = ok value

-- What holds of a panic and of what follows each value holds of the chain.
pub >>=-rule {ℓ κ μ} :
    {E : Type 0} {A : Type ℓ} {B : Type κ} (P : Outcome E B → Type μ) (first : Outcome E A)
    {rest : A → Outcome E B}
    → ((cause : E) → P (panic cause))
    → ((value : A) → first ≡ ok value → P (rest value))
    → P (first >>= rest)
>>=-rule P (panic cause) halts goes_on = halts cause
>>=-rule P (ok value) halts goes_on = goes_on value refl

pub within-eq-ok {ℓ} :
    {E F : Type 0} {A : Type ℓ} (cause : E → F) (o : Outcome E A) {value : A}
    → within cause o ≡ ok value
    → o ≡ ok value
within-eq-ok cause (panic e) h = cc
within-eq-ok cause (ok v) h = ap ok (ok-injective h)
