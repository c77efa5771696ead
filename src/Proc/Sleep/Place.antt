-- ===== src/Proc/Sleep/Place.antt =====
-- The place that insert_endormi of kernel/proc.c finds among the sleepers, and the writes there.
use mathlib.Core.Path.{subst}
use projet_pcsea.Common.{
  ◌≤◌, All, ℕ, zero, suc, ◌<◌, ◌≡◌, refl, Bool, true, false, ◌==◌, ltb, ◌||◌, Bool-cases, inl, inr,
  if◌then◌else◌, some, none, List, [], Option, ◌∷◌, ◌++◌, mem, mem-ne, Distinct, arith, ap, sym,
  length,
}
use projet_pcsea.Common.Outcome.{ok}
use projet_pcsea.Queue.Spec.{IsSorted, last, mem-last}
use projet_pcsea.Proc.State.{Ptr, Process, Sched, with_suiv, set_suiv}
use projet_pcsea.Proc.Lists.{endormi_loop}
use projet_pcsea.Proc.Sleepers.{IsChain, IsChain-frame}

abbrev pub times : Sched → ℕ → ℕ
times s p = (s.process p).time_to_wake

-- A new sleeper stops in front of the first that wakes up later.
unfoldable pub wake_insert : (ℕ → ℕ) → ℕ → List ℕ → List ℕ
wake_insert t e [] = e ∷ []
wake_insert t e (x ∷ xs) = if ltb (t e) (t x) then e ∷ x ∷ xs else x ∷ wake_insert t e xs

-- The place behind `p` where it goes: between which two; `none` behind the last.
unfoldable pub place : (ℕ → ℕ) → ℕ → ℕ → List ℕ → Option (ℕ × ℕ)
place t e p [] = none
place t e p (x ∷ xs) = if ltb (t e) (t x) then some (p, x) else place t e x xs

abbrev pub linked : ℕ → Sched → Option (ℕ × ℕ) → Bool × Sched
linked e s none = (false, s)
linked e s (some (p, x)) = (true, set_suiv (some x) e (set_suiv (some e) p s))

-- The loop, behind the first sleeper, stops at that place.
pub endormi_loop_lem :
    (fuel e p : ℕ) (s : Sched) (xs : List ℕ)
    → length xs < fuel
    → IsChain s.process (s.process p).suiv xs
    → endormi_loop fuel e (s.process p).suiv (some p) false s
      ≡ ok (linked e s (place (times s) e p xs))
unfolding endormi_loop place
endormi_loop_lem zero e p s xs h c = absurd (omega arith)
endormi_loop_lem (suc fuel) e p s [] h c =
    subst (λ q. endormi_loop (suc fuel) e q (some p) false s ≡ ok (false, s)) (sym c) refl
endormi_loop_lem (suc fuel) e p s (x ∷ xs) h c =
    subst
      (λ q.
        endormi_loop (suc fuel) e q (some p) false s
        ≡ ok (linked e s (place (times s) e p (x ∷ xs))))
      (sym c.0)
      (elim (Bool-cases (ltb (times s e) (times s x))) [
        | inl hit ↦ rw hit
        | inr pass ↦ rw (pass, c.0) (endormi_loop_lem fuel e x s xs (omega arith) c.1)
      ])

pub place-mem :
    (t : ℕ → ℕ) (e p : ℕ) (xs : List ℕ) (q x : ℕ)
    → place t e p xs ≡ some (q, x)
    → mem q (p ∷ xs) ≡ true
unfolding place
place-mem t e p [] q x h = cc
place-mem t e p (y ∷ xs) q x h = ground (arith, place-mem t e y xs q x)

-- The two writes at that place put the sleeper into the chain.
pub IsChain-placed :
    (s : Sched) (e p q x : ℕ) (xs : List ℕ) (t : ℕ → ℕ)
    → place t e p xs ≡ some (q, x)
    → mem e (p ∷ xs) ≡ false
    → Distinct (p ∷ xs)
    → IsChain s.process (s.process p).suiv xs
    → let m = set_suiv (some x) e (set_suiv (some e) q s) in
      IsChain m.process (m.process p).suiv (wake_insert t e xs)
unfolding place wake_insert with_suiv
IsChain-placed s e p q x [] t h out d c = cc
IsChain-placed s e p q x (y ∷ xs) t h out d c = elim (Bool-cases (ltb (t e) (t y))) [
  | inl hit ↦
      let pq : p ≡ q = ground arith in
      let yx : y ≡ x = ground arith in
      rw hit (
        ground arith,
        (
          ground arith,
          (IsChain-frame s.process m.process (some y) (y ∷ xs)
              (λ z i.
                ground (arith, mem-ne z p (y ∷ xs) i d.0, mem-ne z e (y ∷ xs) i (ground arith)))
              (refl, c.1)).1,
        ),
      )
  | inr pass ↦
      let later : place t e y xs ≡ some (q, x) = rw pass at h in
      let in_rest : mem q (y ∷ xs) ≡ true = place-mem t e y xs q x later in
      rw pass (
        ground (arith, mem-ne q p (y ∷ xs) in_rest d.0, c.0),
        IsChain-placed s e y q x xs t later (ground arith) d.1 c.1,
      )
]
  where
    m : Sched
    m = set_suiv (some x) e (set_suiv (some e) q s)

-- Behind the last one the order is that of the list.
pub wake_insert-last :
    (t : ℕ → ℕ) (e p : ℕ) (xs : List ℕ) → place t e p xs ≡ none → wake_insert t e xs ≡ xs ++ e ∷ []
unfolding place wake_insert
wake_insert-last t e p [] h = refl
wake_insert-last t e p (x ∷ xs) h = ground (arith, wake_insert-last t e x xs)

pub last-wake_insert :
    (t : ℕ → ℕ) (e p : ℕ) (xs : List ℕ) (q x : ℕ)
    → place t e p xs ≡ some (q, x)
    → last p (wake_insert t e xs) ≡ last p xs
unfolding place wake_insert
last-wake_insert t e p [] q x h = cc
last-wake_insert t e p (y ∷ xs) q x h = ground (arith, last-wake_insert t e y xs q x)

pub last-append : (p e : ℕ) (xs : List ℕ) → last p (xs ++ e ∷ []) ≡ e
last-append p e [] = refl
last-append p e (x ∷ xs) = last-append x e xs

pub suiv-last :
    (f : ℕ → Process) (p : ℕ) (xs : List ℕ) → IsChain f (f p).suiv xs → (f (last p xs)).suiv ≡ none
suiv-last f p [] c = c
suiv-last f p (x ∷ xs) c = suiv-last f x xs c.1

-- Writing NULL into the last `suiv` field changes nothing.
pub IsChain-end :
    (s : Sched) (p : ℕ) (xs : List ℕ) (r : Ptr)
    → IsChain s.process r (p ∷ xs)
    → IsChain (set_suiv none (last p xs) s).process r (p ∷ xs)
unfolding with_suiv
IsChain-end s p xs r c =
    IsChain-frame s.process (set_suiv none (last p xs) s).process r (p ∷ xs)
      (λ y h. ground (arith, suiv-last s.process p xs c.1, same y)) c
  where
    same : (y : ℕ) → y ≡ last p xs → (s.process y).suiv ≡ (s.process (last p xs)).suiv
    same y e = ap (λ q. (s.process q).suiv) e

-- The writes at the end of the chain put the sleeper behind the last one.
pub IsChain-append :
    (s : Sched) (e p : ℕ) (xs : List ℕ)
    → mem e (p ∷ xs) ≡ false
    → Distinct (p ∷ xs)
    → IsChain s.process (s.process p).suiv xs
    → let m = set_suiv none e (set_suiv (some e) (last p xs) s) in
      IsChain m.process (m.process p).suiv (xs ++ e ∷ [])
unfolding with_suiv
IsChain-append s e p [] out d c = (ground arith, ground arith)
IsChain-append s e p (x ∷ xs) out d c = (
  ground (arith, mem-ne (last x xs) p (x ∷ xs) (mem-last x xs) d.0, c.0),
  IsChain-append s e x xs (ground arith) d.1 c.1,
)

pub mem-wake_insert :
    (t : ℕ → ℕ) (e y : ℕ) (xs : List ℕ) → mem y (wake_insert t e xs) ≡ ((y == e) || mem y xs)
unfolding wake_insert
mem-wake_insert t e y [] = refl
mem-wake_insert t e y (x ∷ xs) = ground (arith, mem-wake_insert t e y xs)

pub wake_insert-Distinct :
    (t : ℕ → ℕ) (e : ℕ) (xs : List ℕ)
    → Distinct xs
    → mem e xs ≡ false
    → Distinct (wake_insert t e xs)
unfolding wake_insert
wake_insert-Distinct t e [] d out = ground arith
wake_insert-Distinct t e (x ∷ xs) d out =
    ground (arith, wake_insert-Distinct t e xs d.1, mem-wake_insert t e x xs)

All-lower :
    (t : ℕ → ℕ) (m n : ℕ) (xs : List ℕ) → m ≤ n → All (λ y. n ≤ t y) xs → All (λ y. m ≤ t y) xs
All-lower t m n [] h k = tt
All-lower t m n (x ∷ xs) h k = (omega (arith, k.0), All-lower t m n xs h k.1)

All-wake_insert :
    (P : ℕ → Type 0) (t : ℕ → ℕ) (e : ℕ) (xs : List ℕ) → P e → All P xs → All P (wake_insert t e xs)
unfolding wake_insert
All-wake_insert P t e [] h k = (h, tt)
All-wake_insert P t e (x ∷ xs) h k = elim (Bool-cases (ltb (t e) (t x))) [
  | inl first ↦ rw first (h, k)
  | inr later ↦ rw later (k.0, All-wake_insert P t e xs h k.1)
]

-- Putting a sleeper at its place keeps the order in which they wake up.
pub wake_insert-IsSorted :
    (t : ℕ → ℕ) (e : ℕ) (xs : List ℕ) → IsSorted t xs → IsSorted t (wake_insert t e xs)
unfolding wake_insert
wake_insert-IsSorted t e [] h = (tt, tt)
wake_insert-IsSorted t e (x ∷ xs) h = elim (Bool-cases (ltb (t e) (t x))) [
  | inl first ↦ rw first ((ground arith, All-lower t (t e) (t x) xs (ground arith) h.0), h)
  | inr later ↦
      rw later (
        All-wake_insert (λ y. t x ≤ t y) t e xs (ground arith) h.0,
        wake_insert-IsSorted t e xs h.1,
      )
]

pub length-wake_insert :
    (t : ℕ → ℕ) (e : ℕ) (xs : List ℕ) → length (wake_insert t e xs) ≡ suc (length xs)
unfolding wake_insert
length-wake_insert t e [] = refl
length-wake_insert t e (x ∷ xs) = ground (arith, length-wake_insert t e xs)
