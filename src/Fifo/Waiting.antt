-- ===== src/Fifo/Waiting.antt =====
-- What leaves a circular list of kernel/fifo_process.c, and the two walks over it.
use mathlib.Core.Path.{subst}
use projet_pcsea.Common.{
  ℕ, zero, suc, ◌≡◌, refl, ◌≢◌, false, ◌==◌, ==_refl, none, some, List, [], ◌∷◌, mem, mem-ne, All,
  arith, ap,
}
use projet_pcsea.Common.Outcome.{out_of_fuel, Returns}
use projet_pcsea.Proc.State.{Ptr}
use projet_pcsea.Fifo.{
  Cell, Store, set_next, extract_process, destroy_element, contains, size_loop, get_size,
}
use projet_pcsea.Fifo.Ring.{Leads, snoc, processes, IsFifo, Leads-frame, processes-same}

skip :
    {A : Type 0} (t z : ℕ) (s : Store A) (zs : List ℕ)
    → Leads s.cell z zs t
    → mem t zs ≡ false
    → Leads (set_next (s.cell z).next t s).cell t zs t
skip t z s [] l d = ground (arith, l)
skip t z s (w ∷ ws) (l, ls) d =
    let wt : w ≢ t = mem-ne w t (w ∷ ws) (ground (arith, ==_refl w)) d in
    let c : Cell = record { process = (s.cell t).process; next = (s.cell z).next } in
    (ground (arith, l), Leads-frame s.cell t c w ws t wt (ground arith) ls)

module _ {A : Type 0} (mem_alloc : ℕ → A → Ptr × A) (mem_free : ℕ → ℕ → A → A) where
  -- extract_process takes the first process out, and the others stay in their order.
  pub extract_process-first :
      (fifo : Ptr) (s : Store A) (x : ℕ) (xs : List ℕ)
      → IsFifo s.cell fifo (x ∷ xs)
      → Returns
          (λ out.
            IsFifo out.2.cell out.0 xs
            × (out.1 ≡ some (s.cell x).process)
            × (processes out.2.cell xs ≡ processes s.cell xs))
          (extract_process mem_alloc mem_free fifo s)
  unfolding extract_process destroy_element
  extract_process-first none s x xs h = cc
  extract_process-first (some t) s x xs ([], e, l, d) =
      let tx : t ≡ x = cc in rw (l, ==_refl t) (cc, ap (λ q. some (s.cell q).process) tx, refl)
  extract_process-first (some t) s x xs (z ∷ zs, e, (l, ls), d) =
      let zx : z ≡ x = cc in
      let ne : (z == t) ≡ false = ground arith in
      rw (l, ne)
        (
          (zs, cc, skip t z s zs ls (ground arith), ground arith),
          ap (λ q. some (s.cell q).process) zx,
          processes-same s.cell (set_next (s.cell z).next t s).cell xs (λ y. ground arith),
        )

module _ (cell : ℕ → Cell) (t : ℕ) (mid : List ℕ) (circle : Leads cell t mid t) where
  contains-walk :
      (pid_of : ℕ → ℕ) (pid fuel a : ℕ) (zs : List ℕ)
      → All (λ p. pid_of p ≢ pid) (processes cell (t ∷ mid))
      → All (λ p. pid_of p ≢ pid) (processes cell (a ∷ zs))
      → Leads cell a zs t
      → contains fuel cell pid_of (some a) pid ≡ out_of_fuel
  unfolding contains
  contains-walk pid_of pid zero a zs all here l = refl
  contains-walk pid_of pid (suc fuel) a [] all (ne, others) l =
      let e : (pid_of (cell a).process == pid) ≡ false = ground (arith, ne) in
      rw (e, l) (contains-walk pid_of pid fuel t mid all all circle)
  contains-walk pid_of pid (suc fuel) a (z ∷ zs) all (ne, others) (l, ls) =
      let e : (pid_of (cell a).process == pid) ≡ false = ground (arith, ne) in
      rw (e, l) (contains-walk pid_of pid fuel z zs all others ls)

  size-walk :
      (fuel a n : ℕ) (zs : List ℕ)
      → Leads cell a zs t
      → size_loop fuel cell (some a) n ≡ out_of_fuel
  unfolding size_loop
  size-walk zero a n zs l = refl
  size-walk (suc fuel) a n [] l = rw l (size-walk fuel t (suc n) mid circle)
  size-walk (suc fuel) a n (z ∷ zs) (l, ls) = rw l (size-walk fuel z (suc n) zs ls)

All-snoc :
    (P : ℕ → Type 0) (cell : ℕ → Cell) (zs : List ℕ) (t : ℕ)
    → All P (processes cell (snoc zs t))
    → All P (processes cell (t ∷ zs))
All-snoc P cell [] t h = h
All-snoc P cell (z ∷ zs) t (h, hs) = let r = All-snoc P cell zs t hs in (r.0, (h, r.1))

-- contains looks for a pid in the circular list and does not stop at its end: it never returns where
-- the pid is not there.
pub contains_none-endless :
    (cell : ℕ → Cell) (pid_of : ℕ → ℕ) (t pid fuel : ℕ) (xs : List ℕ)
    → IsFifo cell (some t) xs
    → All (λ p. pid_of p ≢ pid) (processes cell xs)
    → contains fuel cell pid_of (some t) pid ≡ out_of_fuel
contains_none-endless cell pid_of t pid fuel xs (mid, e, l, d) none_of =
    let all =
      All-snoc (λ p. pid_of p ≢ pid) cell mid t
        (subst (λ q. All (λ p. pid_of p ≢ pid) (processes cell q)) e none_of) in
    contains-walk cell t mid l pid_of pid fuel t mid all all l

-- getSize of a list that is not empty never returns.
pub get_size-endless :
    (cell : ℕ → Cell) (t fuel : ℕ) (xs : List ℕ)
    → IsFifo cell (some t) xs
    → get_size fuel cell (some t) ≡ out_of_fuel
unfolding get_size
get_size-endless cell t fuel xs (mid, e, l, d) = size-walk cell t mid l fuel t 0 mid l
