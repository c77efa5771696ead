-- ===== src/Queue/Spec.antt =====
-- What the queue of shared/queue.h promises: a list in ascending order of priority, in which a new
-- element goes in front of the equal ones and the last element comes out first. So the highest
-- priority comes out first, and among equals the oldest.
use projet_pcsea.Common.{
  ℕ, suc, ◌≤◌, ◌<◌, ◌≡◌, refl, Bool, true, false, ◌||◌, ◌==◌, ==_refl, ==_ne, ap, Bool-cases, inl,
  inr, ltb, if◌then◌else◌, List, [], ◌∷◌, ◌++◌, mem, Distinct, All, length, arith, Option, none,
  some,
}

-- The new element stops in front of the first that is not of smaller priority.
unfoldable pub insert : (ℕ → ℕ) → ℕ → List ℕ → List ℕ
insert prio e [] = e ∷ []
insert prio e (x ∷ xs) = if ltb (prio x) (prio e) then x ∷ insert prio e xs else e ∷ x ∷ xs

-- The last element behind `a`.
abbrev pub last : ℕ → List ℕ → ℕ
last a [] = a
last a (x ∷ xs) = last x xs

-- The last element, which is the one that comes out.
abbrev pub top : List ℕ → Option ℕ
top [] = none
top (x ∷ xs) = some (last x xs)

abbrev pub first : ℕ → List ℕ → ℕ
first a [] = a
first a (x ∷ xs) = x

abbrev pub is_nil : List ℕ → Bool
is_nil [] = true
is_nil (x ∷ xs) = false

-- All but the last element.
unfoldable pub rest : List ℕ → List ℕ
rest [] = []
rest (x ∷ []) = []
rest (x ∷ y ∷ xs) = x ∷ rest (y ∷ xs)

unfoldable pub remove : ℕ → List ℕ → List ℕ
remove e [] = []
remove e (x ∷ xs) = if x == e then xs else x ∷ remove e xs

-- Priorities ascend from the head of the list on.
abbrev pub IsSorted : (ℕ → ℕ) → List ℕ → Type 0
IsSorted prio [] = Unit {0}
IsSorted prio (x ∷ xs) = All (λ y. prio x ≤ prio y) xs × IsSorted prio xs

pub mem-insert :
    (prio : ℕ → ℕ) (e y : ℕ) (xs : List ℕ) → mem y (insert prio e xs) ≡ ((y == e) || mem y xs)
unfolding insert
mem-insert prio e y [] = refl
mem-insert prio e y (x ∷ xs) = ground (arith, mem-insert prio e y xs)

pub length-insert :
    (prio : ℕ → ℕ) (e : ℕ) (xs : List ℕ) → length (insert prio e xs) ≡ suc (length xs)
unfolding insert
length-insert prio e [] = refl
length-insert prio e (x ∷ xs) = ground (arith, length-insert prio e xs)

pub Distinct-insert :
    (prio : ℕ → ℕ) (e : ℕ) (xs : List ℕ)
    → Distinct xs
    → mem e xs ≡ false
    → Distinct (insert prio e xs)
unfolding insert
Distinct-insert prio e [] d out = ground arith
Distinct-insert prio e (x ∷ xs) d out =
    ground (arith, Distinct-insert prio e xs d.1, mem-insert prio e x xs)

pub All-insert :
    (P : ℕ → Type 0) (prio : ℕ → ℕ) (e : ℕ) (xs : List ℕ)
    → P e
    → All P xs
    → All P (insert prio e xs)
unfolding insert
All-insert P prio e [] p h = (p, tt)
All-insert P prio e (x ∷ xs) p h = ground (arith, All-insert P prio e xs p h.1)

All-le_trans :
    (prio : ℕ → ℕ) (m n : ℕ) (xs : List ℕ)
    → m ≤ n
    → All (λ y. n ≤ prio y) xs
    → All (λ y. m ≤ prio y) xs
All-le_trans prio m n [] h a = tt
All-le_trans prio m n (x ∷ xs) h a = (omega arith, All-le_trans prio m n xs h a.1)

pub All-le :
    (prio : ℕ → ℕ) (m n : ℕ) (xs : List ℕ)
    → m ≤ n
    → All (λ y. prio y ≤ m) xs
    → All (λ y. prio y ≤ n) xs
All-le prio m n [] h a = tt
All-le prio m n (x ∷ xs) h a = (omega arith, All-le prio m n xs h a.1)

-- Insertion keeps the order.
pub insert-IsSorted :
    (prio : ℕ → ℕ) (e : ℕ) (xs : List ℕ) → IsSorted prio xs → IsSorted prio (insert prio e xs)
unfolding insert
insert-IsSorted prio e [] s = (tt, tt)
insert-IsSorted prio e (x ∷ xs) s = ground (
  arith,
  insert-IsSorted prio e xs s.1,
  All-insert (λ y. prio x ≤ prio y) prio e xs,
  All-le_trans prio (prio e) (prio x) xs,
)

pub mem-last : (x : ℕ) (xs : List ℕ) → mem (last x xs) (x ∷ xs) ≡ true
mem-last x [] = ground arith
mem-last x (y ∷ xs) = ground (arith, mem-last y xs)

pub mem-rest : (y : ℕ) (xs : List ℕ) → mem y xs ≡ false → mem y (rest xs) ≡ false
unfolding rest
mem-rest y [] h = refl
mem-rest y (x ∷ []) h = refl
mem-rest y (x ∷ z ∷ xs) h = ground (arith, mem-rest y (z ∷ xs))

-- In a sorted list the last element is the greatest.
pub last-greatest :
    (prio : ℕ → ℕ) (x : ℕ) (xs : List ℕ)
    → IsSorted prio (x ∷ xs)
    → All (λ y. prio y ≤ prio (last x xs)) (x ∷ xs)
last-greatest prio x [] s = (omega arith, tt)
last-greatest prio x (y ∷ xs) s =
    let ih : All (λ z. prio z ≤ prio (last y xs)) (y ∷ xs) = last-greatest prio y xs s.1 in
    (omega arith, ih)

pub All-rest : (P : ℕ → Type 0) (xs : List ℕ) → All P xs → All P (rest xs)
unfolding rest
All-rest P [] h = tt
All-rest P (x ∷ []) h = tt
All-rest P (x ∷ y ∷ xs) h = (h.0, All-rest P (y ∷ xs) h.1)

pub rest-IsSorted : (prio : ℕ → ℕ) (xs : List ℕ) → IsSorted prio xs → IsSorted prio (rest xs)
unfolding rest
rest-IsSorted prio [] s = tt
rest-IsSorted prio (x ∷ []) s = tt
rest-IsSorted prio (x ∷ y ∷ xs) s =
    (All-rest (λ z. prio x ≤ prio z) (y ∷ xs) s.0, rest-IsSorted prio (y ∷ xs) s.1)

-- In a list without repetition, removing the last element leaves all but the last.
pub remove-last :
    (x : ℕ) (xs : List ℕ) → Distinct (x ∷ xs) → remove (last x xs) (x ∷ xs) ≡ rest (x ∷ xs)
unfolding remove rest
remove-last x [] d = rw ==_refl
remove-last x (y ∷ xs) d =
    let ne : (x == last y xs) ≡ false =
      ==_ne (λ e. cc (mem-last y xs, ap (λ t. mem t (y ∷ xs)) e)) in
    rw (ne, remove-last y xs d.1)

pub mem-remove :
    (e y : ℕ) (xs : List ℕ)
    → Distinct xs
    → mem y (remove e xs) ≡ (if y == e then false else mem y xs)
unfolding remove
mem-remove e y [] d = ground arith
mem-remove e y (x ∷ xs) d = ground (arith, mem-remove e y xs d.1)

pub remove-Distinct : (e : ℕ) (xs : List ℕ) → Distinct xs → Distinct (remove e xs)
unfolding remove
remove-Distinct e [] d = tt
remove-Distinct e (x ∷ xs) d = ground (arith, remove-Distinct e xs d.1, mem-remove e x xs d.1)

pub All-remove : (P : ℕ → Type 0) (e : ℕ) (xs : List ℕ) → All P xs → All P (remove e xs)
unfolding remove
All-remove P e [] h = tt
All-remove P e (x ∷ xs) h = ground (arith, All-remove P e xs h.1)

pub remove-IsSorted :
    (prio : ℕ → ℕ) (e : ℕ) (xs : List ℕ) → IsSorted prio xs → IsSorted prio (remove e xs)
unfolding remove
remove-IsSorted prio e [] s = tt
remove-IsSorted prio e (x ∷ xs) s =
    ground (arith, remove-IsSorted prio e xs s.1, All-remove (λ y. prio x ≤ prio y) e xs s.0)

-- Taking the last element leaves the others, and the order.
pub rest-Distinct : (x : ℕ) (xs : List ℕ) → Distinct (x ∷ xs) → Distinct (rest (x ∷ xs))
rest-Distinct x xs d = rw (← remove-last x xs d) (remove-Distinct (last x xs) (x ∷ xs) d)

pub mem-rest-last :
    (x y : ℕ) (xs : List ℕ)
    → Distinct (x ∷ xs)
    → mem y (rest (x ∷ xs)) ≡ (if y == last x xs then false else mem y (x ∷ xs))
mem-rest-last x y xs d = rw (← remove-last x xs d) (mem-remove (last x xs) y (x ∷ xs) d)

-- In a sorted list the new element stands behind all smaller ones and in front of all others: of
-- equal ones the oldest stays the last.
pub insert_place :
    (prio : ℕ → ℕ) (e : ℕ) (xs : List ℕ)
    → IsSorted prio xs
    → (before : List ℕ) × (behind : List ℕ) × (xs ≡ before ++ behind)
      × (insert prio e xs ≡ before ++ e ∷ behind)
      × All (λ y. prio y < prio e) before
      × All (λ y. prio e ≤ prio y) behind
unfolding insert
insert_place prio e [] s = ([], [], refl, refl, tt, tt)
insert_place prio e (x ∷ xs) s = elim (Bool-cases (ltb (prio x) (prio e))) [
  | inl pass ↦
      let (before, behind, split, put, low, high) = insert_place prio e xs s.1 in
      (x ∷ before, behind, rw (← split), rw (pass, put), (ground arith, low), high)
  | inr stop ↦ (
    [],
    x ∷ xs,
    refl,
    rw stop,
    tt,
    (ground arith, All-le_trans prio (prio e) (prio x) xs (ground arith) s.0),
  )
]
