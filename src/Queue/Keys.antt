-- ===== src/Queue/Keys.antt =====
-- Lists in order by one key, and by another that agrees with it on the list.
use mathlib.Core.Path.{subst}
use projet_pcsea.Common.{ℕ, ◌≤◌, ◌≡◌, true, ==_refl, List, [], ◌∷◌, mem, All, arith, sym}
use projet_pcsea.Queue.Spec.{IsSorted}

All-same :
    (f g : ℕ → ℕ) (b : ℕ) (xs : List ℕ)
    → ((y : ℕ) → mem y xs ≡ true → g y ≡ f y)
    → All (λ y. b ≤ f y) xs
    → All (λ y. b ≤ g y) xs
All-same f g b [] same h = tt
All-same f g b (x ∷ xs) same (h, hs) = (
  subst (λ q. b ≤ q) (sym (same x (ground (arith, ==_refl x)))) h,
  All-same f g b xs (λ y m. same y (ground arith)) hs,
)

pub IsSorted-same :
    (f g : ℕ → ℕ) (xs : List ℕ)
    → ((y : ℕ) → mem y xs ≡ true → g y ≡ f y)
    → IsSorted f xs
    → IsSorted g xs
IsSorted-same f g [] same h = tt
IsSorted-same f g (x ∷ xs) same (h, hs) = (
  subst (λ q. All (λ y. q ≤ g y) xs) (sym (same x (ground (arith, ==_refl x))))
      (All-same f g (f x) xs (λ y m. same y (ground arith)) h),
  IsSorted-same f g xs (λ y m. same y (ground arith)) hs,
)
