-- ===== src/Common/Lists.antt =====
-- Lists of native numbers: length, indexing, membership as a Boolean test, distinctness.
use Prim.Native.Nat.{ℕ, zero, suc}
use mathlib.Core.Path.{◌≡◌, ap}
use mathlib.Core.Logic.{◌≢◌}
use mathlib.Core.Bool.{Bool, true, false, ◌||◌}
use mathlib.Core.List.{List, [], ◌∷◌}
use mathlib.Core.Option.{Option, none, some}
use native.Mathlib.Omega.{arith}
use projet_pcsea.Common.Tests.{◌==◌}

module _ {ℓ} {A : Type ℓ} where
  abbrev pub length : List A → ℕ
  length [] = 0
  length (x ∷ xs) = suc (length xs)

  abbrev pub get_elem? : List A → ℕ → Option A
  get_elem? [] i = none
  get_elem? (x ∷ xs) zero = some x
  get_elem? (x ∷ xs) (suc i) = get_elem? xs i

  -- A write out of bounds changes nothing.
  abbrev pub set : List A → ℕ → A → List A
  set [] i v = []
  set (x ∷ xs) zero v = v ∷ xs
  set (x ∷ xs) (suc i) v = x ∷ set xs i v

  abbrev pub replicate : ℕ → A → List A
  replicate zero a = []
  replicate (suc n) a = a ∷ replicate n a

-- `mem y xs`: does `y` occur in `xs`?
abbrev pub mem : ℕ → List ℕ → Bool
mem y [] = false
mem y (x ∷ xs) = (y == x) || mem y xs

abbrev pub Distinct : List ℕ → Type 0
Distinct [] = Unit {0}
Distinct (x ∷ xs) = (mem x xs ≡ false) × Distinct xs

abbrev pub All {ℓ κ} : {A : Type ℓ} → (A → Type κ) → List A → Type κ
All P [] = Unit
All P (x ∷ xs) = P x × All P xs

-- A property of every element is one of each member.
pub All-mem : (P : ℕ → Type 0) (y : ℕ) (xs : List ℕ) → All P xs → mem y xs ≡ true → P y
All-mem P y [] h m = cc
All-mem P y (x ∷ xs) h m = ground (arith, All-mem P y xs, h.0)

pub All-mono :
    (P Q : ℕ → Type 0) (xs : List ℕ) → ((y : ℕ) → mem y xs ≡ true → P y → Q y) → All P xs → All Q xs
All-mono P Q [] f h = tt
All-mono P Q (x ∷ xs) f h =
    (f x (ground arith) h.0, All-mono P Q xs (λ y i k. f y (ground arith) k) h.1)

pub mem-ne : (y e : ℕ) (xs : List ℕ) → mem y xs ≡ true → mem e xs ≡ false → y ≢ e
mem-ne y e xs h k p = cc (ap (λ t. mem t xs) p)
