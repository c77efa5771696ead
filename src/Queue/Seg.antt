-- ===== src/Queue/Seg.antt =====
-- Stretches of the circular list of shared/queue.h, and the list that a queue head stands for.
use projet_pcsea.Common.{ℕ, ◌≡◌, ◌≢◌, true, false, List, [], ◌∷◌, mem, Distinct, arith}
use projet_pcsea.Queue.{Links, null}

-- From the link `a` the `next` fields lead through `xs` to `b`, and the `prev` fields back.
abbrev pub IsSeg : Links → ℕ → List ℕ → ℕ → Type 0
IsSeg l a [] b = (l.next a ≡ b) × (l.prev b ≡ a)
IsSeg l a (x ∷ xs) b = (l.next a ≡ x) × (l.prev x ≡ a) × IsSeg l x xs b

-- The queue at `head` holds `xs`; every other link is unused.
pub record IsQueue (head : ℕ) (l : Links) (xs : List ℕ) : Type 0 where
  pub head_set : head ≢ null
  pub distinct : Distinct xs
  pub no_head : mem head xs ≡ false
  pub no_null : mem null xs ≡ false
  pub chain : IsSeg l head xs head
  pub unused : (y : ℕ) → y ≢ head → mem y xs ≡ false → (l.next y ≡ null) × (l.prev y ≡ null)

-- A stretch survives writes that spare the `next` fields of its first link and its inner links and
-- the `prev` fields of its inner links and its last link.
pub IsSeg-frame :
    (l m : Links) (a : ℕ) (xs : List ℕ) (b : ℕ)
    → m.next a ≡ l.next a
    → m.prev b ≡ l.prev b
    → ((y : ℕ) → mem y xs ≡ true → (m.next y ≡ l.next y) × (m.prev y ≡ l.prev y))
    → IsSeg l a xs b
    → IsSeg m a xs b
IsSeg-frame l m a [] b ea eb same s = ground arith
IsSeg-frame l m a (x ∷ xs) b ea eb same s = (
  ground arith,
  ground (arith, same x),
  IsSeg-frame l m x xs b (ground (arith, same x)) eb (λ y h. same y (ground arith)) s.2,
)
