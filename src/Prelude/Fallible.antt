-- ===== src/Prelude/Fallible.antt =====
-- Code that may panic. A panic stops the kernel, so it carries its cause and nothing else.
use mathlib.Core.Path.{◌≡◌, refl}
use mathlib.Core.Bool.{Bool, true, false}
use mathlib.Core.Option.{Option, none, some}

-- `overflow` is the overflow check of the development profile, `out_of_bounds` the bounds check of
-- an index, `assertion_failed` an `assert!`, `expect_failed` an `unwrap` or `expect`, `explicit` a
-- `panic!`. `undefined` is no panic: it is an access through a pointer to memory that does not hold
-- what the pointer promises, which Rust leaves undefined.
pub data Panic : Type 0 where
  overflow out_of_bounds assertion_failed expect_failed explicit undefined : Panic

pub data Result {ℓ} (A : Type ℓ) : Type ℓ where
  ok : A → Result A
  panic : Panic → Result A

module _ {ℓ κ} {A : Type ℓ} {B : Type κ} where
  abbrev pub and_then : (A → Result B) → Result A → Result B
  and_then next (ok a) = next a
  and_then next (panic cause) = panic cause

  infixl 5 ◌>>=◌
  abbrev pub ◌>>=◌ : Result A → (A → Result B) → Result B
  r >>= next = and_then next r

infixl 5 ◌>>◌
abbrev pub ◌>>◌ {ℓ} : {B : Type ℓ} → Result (Unit {0}) → Result B → Result B
checked >> rest = and_then (λ _. rest) checked

-- `assert!`, with the panic that its failure is.
abbrev pub ensure : Bool → Panic → Result (Unit {0})
ensure holds cause = elim holds [ true ↦ ok tt | false ↦ panic cause ]

abbrev pub expect {ℓ} : {A : Type ℓ} → Option A → Panic → Result A
expect none e = panic e
expect (some a) e = ok a

-- The run ends without a panic, in a value with the property.
pub record Returns {ℓ κ} {A : Type ℓ} (P : A → Type κ) (r : Result A) : Type (ℓ ⊔ κ) where
  pub value : A
  pub returns : r ≡ ok value
  pub holds : P value

pub Returns-ok {ℓ κ} : {A : Type ℓ} {P : A → Type κ} (a : A) → P a → Returns P (ok a)
Returns-ok a h = record { value = a; returns = refl; holds = h }

pub Returns-bind {ℓ κ μ ν} :
    {A : Type ℓ} {B : Type κ} {P : A → Type μ} {Q : B → Type ν} {m : Result A} {f : A → Result B}
    → Returns P m
    → ((a : A) → P a → Returns Q (f a))
    → Returns Q (m >>= f)
Returns-bind r k =
    let s = k r.value r.holds in
    record { value = s.value; returns = rw (r.returns) s.returns; holds = s.holds }

pub Returns-mono {ℓ κ μ} :
    {A : Type ℓ} {P : A → Type κ} {Q : A → Type μ} {m : Result A}
    → Returns P m
    → ((a : A) → P a → Q a)
    → Returns Q m
Returns-mono r k = record { value = r.value; returns = r.returns; holds = k r.value r.holds }

-- Both parts of a chain that ends without a panic do.
pub and_then-ok {ℓ κ} :
    {B : Type κ} {A : Type ℓ} (next : A → Result B) (first : Result A) {last : B}
    → and_then next first ≡ ok last
    → (a : A) × (next a ≡ ok last) × (first ≡ ok a)
and_then-ok next (ok a) done = (a, done, refl)
and_then-ok next (panic cause) done = cc
