-- ===== src/Common/Outcome.antt =====
-- What a run of C code comes to: a value, a fault, or a loop that has used up its fuel. A fault is a
-- failed `assert`, or undefined behaviour of C such as the use of NULL, whatever the machine does then.
use mathlib.Core.Path.{◌≡◌, ap}

pub data Outcome {ℓ} (A : Type ℓ) : Type ℓ where
  ok : A → Outcome A
  fault : Outcome A
  out_of_fuel : Outcome A

infixl 5 ◌>>=◌ ◌>>◌
abbrev pub ◌>>=◌ {ℓ κ} : {A : Type ℓ} {B : Type κ} → Outcome A → (A → Outcome B) → Outcome B
ok a >>= f = f a
fault >>= f = fault
out_of_fuel >>= f = out_of_fuel

abbrev pub ◌>>◌ {ℓ} : {B : Type ℓ} → Outcome (Unit {0}) → Outcome B → Outcome B
m >> k = m >>= λ _. k

-- Total correctness: the run gives a value, and the value has the property.
abbrev pub Returns : {A : Type 0} → (A → Type 0) → Outcome A → Type 0
Returns P (ok a) = P a
Returns P fault = ⊥
Returns P out_of_fuel = ⊥

module _ {A B : Type 0} {P : A → Type 0} (Q : B → Type 0) where
  pub Returns-bind :
      (r : Outcome A) (k : A → Outcome B)
      → Returns P r
      → ((a : A) → P a → Returns Q (k a))
      → Returns Q (r >>= k)
  Returns-bind (ok a) k h next = next a h
  Returns-bind fault k h next = elim h [ ]
  Returns-bind out_of_fuel k h next = elim h [ ]

module _ {A : Type 0} {P : A → Type 0} (Q : A → Type 0) where
  pub Returns-mono : (r : Outcome A) → Returns P r → ((a : A) → P a → Q a) → Returns Q r
  Returns-mono (ok a) h weaken = weaken a h
  Returns-mono fault h weaken = h
  Returns-mono out_of_fuel h weaken = h

module _ {A : Type 0} (P Q : A → Type 0) where
  pub Returns-both : (r : Outcome A) → Returns P r → Returns Q r → Returns (λ a. P a × Q a) r
  Returns-both (ok a) h k = (h, k)
  Returns-both fault h k = h
  Returns-both out_of_fuel h k = h

pub Returns-eq : {A : Type 0} (r : Outcome A) (a : A) → Returns (λ b. b ≡ a) r → r ≡ ok a
Returns-eq (ok b) a h = ap ok h
Returns-eq fault a h = elim h [ ]
Returns-eq out_of_fuel a h = elim h [ ]

-- Partial correctness: if the run gives a value, the value has the property.
abbrev pub Yields : {A : Type 0} → (A → Type 0) → Outcome A → Type 0
Yields P (ok a) = P a
Yields P fault = Unit {0}
Yields P out_of_fuel = Unit {0}

module _ {A B : Type 0} {P : A → Type 0} (Q : B → Type 0) where
  pub Yields-bind :
      (r : Outcome A) (k : A → Outcome B)
      → Yields P r
      → ((a : A) → P a → Yields Q (k a))
      → Yields Q (r >>= k)
  Yields-bind (ok a) k h next = next a h
  Yields-bind fault k h next = tt
  Yields-bind out_of_fuel k h next = tt

module _ {A : Type 0} {P : A → Type 0} (Q : A → Type 0) where
  pub Yields-mono : (r : Outcome A) → Yields P r → ((a : A) → P a → Q a) → Yields Q r
  Yields-mono (ok a) h weaken = weaken a h
  Yields-mono fault h weaken = tt
  Yields-mono out_of_fuel h weaken = tt

pub not-ok : {A : Type 0} (r : Outcome A) (a : A) → Yields (λ _. ⊥) r → ¬ (r ≡ ok a)
not-ok (ok b) a h e = h
not-ok fault a h e = cc
not-ok out_of_fuel a h e = cc

module _ {A : Type 0} (P Q : A → Type 0) where
  pub Returns-Yields : (r : Outcome A) → Returns P r → Yields Q r → Returns (λ a. P a × Q a) r
  Returns-Yields (ok a) h k = (h, k)
  Returns-Yields fault h k = h
  Returns-Yields out_of_fuel h k = h
