-- ===== src/Prelude/Lists.antt =====
-- Lists measured and indexed by native numbers, under the library's names, and a predicate on
-- all elements.
use Prim.Native.Nat.{ℕ, zero, suc, ◌+◌, ◌<◌}
use mathlib.Core.Path.{◌≡◌, refl, ap, subst}
use mathlib.Core.Logic.{◌≢◌}
use mathlib.Core.List.{List, [], ◌∷◌, ◌++◌}
use mathlib.Core.Option.{Option, none, some}
use native.Mathlib.Omega.{arith}

module _ {ℓ} {A : Type ℓ} where
  abbrev pub length : List A → ℕ
  length [] = 0
  length (x ∷ xs) = suc (length xs)

  abbrev pub get_elem? : List A → ℕ → Option A
  get_elem? [] i = none
  get_elem? (x ∷ xs) zero = some x
  get_elem? (x ∷ xs) (suc i) = get_elem? xs i

  abbrev pub get_or : List A → ℕ → A → A
  get_or [] i d = d
  get_or (x ∷ xs) zero d = x
  get_or (x ∷ xs) (suc i) d = get_or xs i d

  -- A write out of bounds changes nothing.
  abbrev pub set : List A → ℕ → A → List A
  set [] i v = []
  set (x ∷ xs) zero v = v ∷ xs
  set (x ∷ xs) (suc i) v = x ∷ set xs i v

  abbrev pub replicate : ℕ → A → List A
  replicate zero a = []
  replicate (suc n) a = a ∷ replicate n a

  pub length-append : (xs ys : List A) → length (xs ++ ys) ≡ length xs + length ys
  length-append [] ys = omega arith
  length-append (x ∷ xs) ys = omega (arith, length-append xs ys)

  pub length-set : (xs : List A) (i : ℕ) (v : A) → length (set xs i v) ≡ length xs
  length-set [] i v = refl
  length-set (x ∷ xs) zero v = refl
  length-set (x ∷ xs) (suc i) v = ap suc (length-set xs i v)

  pub get_elem?-set_self :
      (xs : List A) (i : ℕ) (v : A) → i < length xs → get_elem? (set xs i v) i ≡ some v
  get_elem?-set_self [] i v h = elim h [ ]
  get_elem?-set_self (x ∷ xs) zero v h = refl
  get_elem?-set_self (x ∷ xs) (suc i) v h = get_elem?-set_self xs i v (omega arith)

  pub get_elem?-set_ne :
      (xs : List A) (i j : ℕ) (v : A) → i ≢ j → get_elem? (set xs i v) j ≡ get_elem? xs j
  get_elem?-set_ne [] i j v h = refl
  get_elem?-set_ne (x ∷ xs) zero zero v h = absurd (h refl)
  get_elem?-set_ne (x ∷ xs) zero (suc j) v h = refl
  get_elem?-set_ne (x ∷ xs) (suc i) zero v h = refl
  get_elem?-set_ne (x ∷ xs) (suc i) (suc j) v h = get_elem?-set_ne xs i j v (λ e. h (ap suc e))

module _ {ℓ κ} {A : Type ℓ} where
  -- Every element has the property; it computes to a tuple with a part for each element.
  abbrev pub All : (A → Type κ) → List A → Type κ
  All P [] = Unit
  All P (first ∷ rest) = P first × All P rest

  pub All-append : (P : A → Type κ) (xs ys : List A) → All P xs → All P ys → All P (xs ++ ys)
  All-append P [] ys all_xs all_ys = all_ys
  All-append P (first ∷ rest) ys (h, all_rest) all_ys = (h, All-append P rest ys all_rest all_ys)

  pub All-after : (P : A → Type κ) (xs ys : List A) → All P (xs ++ ys) → All P ys
  All-after P [] ys h = h
  All-after P (x ∷ xs) ys (_, h) = All-after P xs ys h

  pub All-before : (P : A → Type κ) (xs ys : List A) → All P (xs ++ ys) → All P xs
  All-before P [] ys h = tt
  All-before P (x ∷ xs) ys (first, h) = (first, All-before P xs ys h)

  pub All-imp : (P Q : A → Type κ) → ((a : A) → P a → Q a) → (xs : List A) → All P xs → All Q xs
  All-imp P Q f [] all_xs = tt
  All-imp P Q f (first ∷ rest) (h, all_rest) = (f first h, All-imp P Q f rest all_rest)

  pub All-zip :
      (P Q R : A → Type κ)
      → ((a : A) → P a → Q a → R a)
      → (xs : List A) → All P xs
      → All Q xs
      → All R xs
  All-zip P Q R f [] ps qs = tt
  All-zip P Q R f (x ∷ xs) ps qs = (f x ps.0 qs.0, All-zip P Q R f xs ps.1 qs.1)

  -- An element in the middle, and the list without it.
  pub All-middle : (P : A → Type κ) (xs : List A) (x : A) (ys : List A) → All P (xs ++ x ∷ ys) → P x
  All-middle P [] x ys h = h.0
  All-middle P (y ∷ xs) x ys h = All-middle P xs x ys h.1

  pub All-remove :
      (P : A → Type κ) (xs : List A) (x : A) (ys : List A) → All P (xs ++ x ∷ ys) → All P (xs ++ ys)
  All-remove P [] x ys h = h.1
  All-remove P (y ∷ xs) x ys h = (h.0, All-remove P xs x ys h.1)

  pub All-insert :
      (P : A → Type κ) (xs : List A) (x : A) (ys : List A)
      → P x
      → All P (xs ++ ys)
      → All P (xs ++ x ∷ ys)
  All-insert P [] x ys p h = (p, h)
  All-insert P (y ∷ xs) x ys p h = (h.0, All-insert P xs x ys p h.1)

  -- Every two elements are related, the one that stands first on the left.
  abbrev pub AllPairs : (A → A → Type κ) → List A → Type κ
  AllPairs R [] = Unit
  AllPairs R (first ∷ rest) = All (R first) rest × AllPairs R rest

  pub AllPairs-remove :
      (R : A → A → Type κ) (xs : List A) (x : A) (ys : List A)
      → AllPairs R (xs ++ x ∷ ys)
      → AllPairs R (xs ++ ys)
  AllPairs-remove R [] x ys h = h.1
  AllPairs-remove R (y ∷ xs) x ys h = (All-remove (R y) xs x ys h.0, AllPairs-remove R xs x ys h.1)

  pub AllPairs-before :
      (R : A → A → Type κ) (xs ys : List A) → AllPairs R (xs ++ ys) → AllPairs R xs
  AllPairs-before R [] ys h = tt
  AllPairs-before R (x ∷ xs) ys h = (All-before (R x) xs ys h.0, AllPairs-before R xs ys h.1)

  -- Where the relation is symmetric, an element is related to all the others.
  pub AllPairs-middle :
      (R : A → A → Type κ)
      → ((a b : A) → R a b → R b a)
      → (xs : List A) (x : A) (ys : List A) → AllPairs R (xs ++ x ∷ ys)
      → All (R x) (xs ++ ys)
  AllPairs-middle R flip [] x ys h = h.0
  AllPairs-middle R flip (y ∷ xs) x ys h =
      (flip y x (All-middle (R y) xs x ys h.0), AllPairs-middle R flip xs x ys h.1)

  pub AllPairs-insert :
      (R : A → A → Type κ)
      → ((a b : A) → R a b → R b a)
      → (xs : List A) (x : A) (ys : List A) → All (R x) (xs ++ ys)
      → AllPairs R (xs ++ ys)
      → AllPairs R (xs ++ x ∷ ys)
  AllPairs-insert R flip [] x ys p h = (p, h)
  AllPairs-insert R flip (y ∷ xs) x ys p h =
      (All-insert (R y) xs x ys (flip x y p.0) h.0, AllPairs-insert R flip xs x ys p.1 h.1)

pub All-get_elem? {ℓ κ} :
    {A : Type ℓ} (P : A → Type κ) (xs : List A) (i : ℕ) {a : A}
    → All P xs
    → get_elem? xs i ≡ some a
    → P a
All-get_elem? P [] i h e = cc
All-get_elem? P (x ∷ xs) zero h e = subst P (cc) h.0
All-get_elem? P (x ∷ xs) (suc i) h e = All-get_elem? P xs i h.1 e

pub get_elem?-length {ℓ} :
    {A : Type ℓ} (xs : List A) (i : ℕ) {x : A} → get_elem? xs i ≡ some x → i < length xs
get_elem?-length [] i e = cc
get_elem?-length (x ∷ xs) zero e = omega arith
get_elem?-length (x ∷ xs) (suc i) e = omega (arith, get_elem?-length xs i e)

pub get_elem?-in_range {ℓ} :
    {A : Type ℓ} (xs : List A) (i : ℕ) → i < length xs → (x : A) × (get_elem? xs i ≡ some x)
get_elem?-in_range [] i h = absurd (omega arith)
get_elem?-in_range (x ∷ xs) zero h = (x, refl)
get_elem?-in_range (x ∷ xs) (suc i) h = get_elem?-in_range xs i (omega arith)
