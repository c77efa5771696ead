-- ===== src/Fifo/Ring.antt =====
-- The circular lists of kernel/fifo_process.c, and add_process.
use mathlib.Core.Path.{subst}
use projet_pcsea.Common.{
  ℕ, ◌≡◌, refl, ◌≢◌, false, ◌==◌, ==_refl, ◌||◌, if◌then◌else◌, none, some, List, [], ◌∷◌, mem,
  mem-ne, arith, ap, sym, ◌∙◌,
}
use projet_pcsea.Common.Outcome.{Returns, Returns-mono}
use projet_pcsea.Proc.State.{Ptr}
use projet_pcsea.Fifo.{Cell, Store, set_next, cell_size, link, add_process, init_element}

-- `next` leads from x over the cells listed to y.
abbrev pub Leads : (ℕ → Cell) → ℕ → List ℕ → ℕ → Type 0
Leads cell x [] y = (cell x).next ≡ some y
Leads cell x (z ∷ zs) y = ((cell x).next ≡ some z) × Leads cell z zs y

-- The cells from the head on, the tail not counted.
abbrev pub snoc : List ℕ → ℕ → List ℕ
snoc [] x = x ∷ []
snoc (y ∷ ys) x = y ∷ snoc ys x

abbrev pub processes : (ℕ → Cell) → List ℕ → List ℕ
processes cell [] = []
processes cell (x ∷ xs) = (cell x).process ∷ processes cell xs

-- The list known by `fifo` has these cells, the first to leave first.
abbrev pub IsFifo : (ℕ → Cell) → Ptr → List ℕ → Type 0
IsFifo cell none xs = xs ≡ []
IsFifo cell (some t) xs =
    (mid : List ℕ) × (xs ≡ snoc mid t) × Leads cell t mid t × (mem t mid ≡ false)

pub Leads-frame :
    (cell : ℕ → Cell) (a : ℕ) (c : Cell) (x : ℕ) (zs : List ℕ) (y : ℕ)
    → x ≢ a
    → mem a zs ≡ false
    → Leads cell x zs y
    → Leads (λ b. if b == a then c else cell b) x zs y
Leads-frame cell a c x [] y ne out h = ground (arith, h)
Leads-frame cell a c x (z ∷ zs) y ne out (h, hs) =
    let nz : z ≢ a = mem-ne z a (z ∷ zs) (ground (arith, ==_refl z)) out in
    (ground (arith, h), Leads-frame cell a c z zs y nz (ground arith) hs)

Leads-snoc :
    (cell : ℕ → Cell) (x : ℕ) (zs : List ℕ) (t y : ℕ)
    → Leads cell x zs t
    → (cell t).next ≡ some y
    → Leads cell x (snoc zs t) y
Leads-snoc cell x [] t y h e = (h, e)
Leads-snoc cell x (z ∷ zs) t y (h, hs) e = (h, Leads-snoc cell z zs t y hs e)

mem-snoc : (x : ℕ) (zs : List ℕ) (t : ℕ) → mem x (snoc zs t) ≡ (mem x zs || (x == t))
mem-snoc x [] t = ground arith
mem-snoc x (z ∷ zs) t = ground (arith, mem-snoc x zs t)

pub processes-same :
    (cell cell' : ℕ → Cell) (xs : List ℕ)
    → ((y : ℕ) → (cell' y).process ≡ (cell y).process)
    → processes cell' xs ≡ processes cell xs
processes-same cell cell' [] h = refl
processes-same cell cell' (x ∷ xs) h = ground (arith, h x, processes-same cell cell' xs h)

processes-snoc :
    (cell : ℕ → Cell) (xs : List ℕ) (x : ℕ)
    → processes cell (snoc xs x) ≡ snoc (processes cell xs) (cell x).process
processes-snoc cell [] x = refl
processes-snoc cell (y ∷ ys) x = ap (λ q. (cell y).process ∷ q) (processes-snoc cell ys x)

turn :
    {A : Type 0} (t new : ℕ) (s : Store A) (mid : List ℕ)
    → Leads s.cell t mid t
    → mem t mid ≡ false
    → mem new mid ≡ false
    → new ≢ t
    → Leads (set_next (some new) t (set_next (s.cell t).next new s)).cell new (snoc mid t) new
turn t new s [] l d out ne = (ground (arith, l), ground arith)
turn t new s (z ∷ zs) (l, ls) d out ne =
    let zt : z ≢ t = mem-ne z t (z ∷ zs) (ground (arith, ==_refl z)) d in
    let zn : z ≢ new = mem-ne z new (z ∷ zs) (ground (arith, ==_refl z)) out in
    let s1 = set_next (s.cell t).next new s in
    let c1 : Cell = record { process = (s.cell new).process; next = (s.cell t).next } in
    let c2 : Cell = record { process = (s1.cell t).process; next = some new } in
    let m1 : Leads s1.cell z zs t = Leads-frame s.cell new c1 z zs t zn (ground arith) ls in
    let m2 : Leads (set_next (some new) t s1).cell z zs t =
      Leads-frame s1.cell t c2 z zs t zt (ground arith) m1 in
    (ground (arith, l), Leads-snoc (set_next (some new) t s1).cell z zs t new m2 (ground arith))

-- The new element, at an address that is not in use, becomes the last one.
link-IsFifo :
    {A : Type 0} (fifo : Ptr) (new : ℕ) (s : Store A) (xs : List ℕ)
    → IsFifo s.cell fifo xs
    → mem new xs ≡ false
    → Returns (λ out. IsFifo out.1.cell out.0 (snoc xs new)) (link fifo new s)
unfolding link
link-IsFifo none new s xs e out = ([], ap (λ q. snoc q new) e, ground arith, refl)
link-IsFifo (some t) new s xs (mid, e, l, d) out =
    let m : (mem new mid || (new == t)) ≡ false =
      sym (mem-snoc new mid t) ∙ ap (mem new) (sym e) ∙ out in
    let ne : new ≢ t = ground arith in
    (
      xs,
      refl,
      subst (λ q. Leads (set_next (some new) t (set_next (s.cell t).next new s)).cell new q new)
          (sym e) (turn t new s mid l d (ground arith) ne),
      out,
    )

link-process :
    {A : Type 0} (fifo : Ptr) (new : ℕ) (s : Store A)
    → Returns (λ out. (y : ℕ) → (out.1.cell y).process ≡ (s.cell y).process) (link fifo new s)
unfolding link
link-process none new s = λ y. ground arith
link-process (some t) new s = λ y. ground arith

linked :
    {A : Type 0} (fifo : Ptr) (new : ℕ) (s : Store A) (xs : List ℕ)
    → IsFifo s.cell fifo xs
    → mem new xs ≡ false
    → Returns
        (λ out.
          IsFifo out.1.cell out.0 (snoc xs new)
          × ((y : ℕ) → (out.1.cell y).process ≡ (s.cell y).process))
        (link fifo new s)
unfolding link
linked none new s xs h out = (link-IsFifo none new s xs h out, link-process none new s)
linked (some t) new s xs h out = (link-IsFifo (some t) new s xs h out, link-process (some t) new s)

-- A write to a cell that is not in use.
IsFifo-frame :
    (cell : ℕ → Cell) (a : ℕ) (c : Cell) (fifo : Ptr) (xs : List ℕ)
    → IsFifo cell fifo xs
    → mem a xs ≡ false
    → IsFifo (λ b. if b == a then c else cell b) fifo xs
IsFifo-frame cell a c none xs h out = h
IsFifo-frame cell a c (some t) xs (mid, e, l, d) out =
    let m : (mem a mid || (a == t)) ≡ false = sym (mem-snoc a mid t) ∙ ap (mem a) (sym e) ∙ out in
    let ne : t ≢ a = ground arith in (mid, e, Leads-frame cell a c t mid t ne (ground arith) l, d)

processes-frame :
    (cell : ℕ → Cell) (a : ℕ) (c : Cell) (xs : List ℕ)
    → mem a xs ≡ false
    → processes (λ b. if b == a then c else cell b) xs ≡ processes cell xs
processes-frame cell a c [] out = refl
processes-frame cell a c (x ∷ xs) out = ground (arith, processes-frame cell a c xs, out)

module _ {A : Type 0} (mem_alloc : ℕ → A → Ptr × A) (mem_free : ℕ → ℕ → A → A) where
  -- On a circular list, and with an allocator that gives an address out of use, add_process makes the
  -- process the last to leave.
  pub add_process-last :
      (fifo : Ptr) (p : ℕ) (s : Store A) (xs : List ℕ) (new : ℕ) (al : A)
      → IsFifo s.cell fifo xs
      → mem_alloc cell_size s.allocator ≡ (some new, al)
      → mem new xs ≡ false
      → Returns
          (λ out.
            IsFifo out.1.cell out.0 (snoc xs new)
            × (processes out.1.cell (snoc xs new) ≡ snoc (processes s.cell xs) p))
          (add_process mem_alloc mem_free fifo p s)
  unfolding add_process init_element
  add_process-last fifo p s xs new al h e out =
      let c : Cell = record { process = p; next = none } in
      let cell1 : ℕ → Cell = λ b. if b == new then c else s.cell b in
      rw e (
        Returns-mono _ (link fifo new (record { cell = cell1; allocator = al }))
          (linked fifo new (record { cell = cell1; allocator = al }) xs
            (IsFifo-frame s.cell new c fifo xs h out) out)
          (λ o l. (
            l.0,
            processes-snoc o.1.cell xs new
                ∙ ap (λ q. snoc q (o.1.cell new).process)
                    (processes-same cell1 o.1.cell xs l.1 ∙ processes-frame s.cell new c xs out)
                ∙ ap (snoc (processes s.cell xs)) (l.1 new ∙ ground arith),
          )))
