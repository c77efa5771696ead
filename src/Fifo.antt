-- ===== src/Fifo.antt =====
-- kernel/fifo_process.c: the waiting processes of a message queue, a circular list on the heap known
-- by its tail. mem_alloc and mem_free are the allocator's, which keeps a state of its own.
use projet_pcsea.Common.{ℕ, zero, suc, ◌+◌, Bool, true, false, ◌==◌, if◌then◌else◌, none, some}
use projet_pcsea.Common.Outcome.{Outcome, ok, fault, out_of_fuel, ◌>>=◌}
use projet_pcsea.Proc.State.{Ptr, deref, is_null, ptr_eq}
pub mod Ring
pub mod Waiting

-- `struct For_fifo_process`
pub record Cell : Type 0 where
  pub process : ℕ
  pub next : Ptr

-- The cells, by their address, and the state of the allocator.
pub record Store (A : Type 0) : Type 0 where
  pub cell : ℕ → Cell
  pub allocator : A

abbrev pub init_list : Ptr
init_list = none

abbrev pub is_empty : Ptr → Bool
is_empty = is_null

abbrev pub write : {A : Type 0} → ℕ → Cell → Store A → Store A
write a c s = record s { cell = λ b. if b == a then c else s.cell b }

-- `a->next = p`
abbrev pub set_next : {A : Type 0} → Ptr → ℕ → Store A → Store A
set_next p a s = write a (record { process = (s.cell a).process; next = p }) s

abbrev pub cell_size : ℕ
cell_size = 8

-- What add_process does with the new element.
unfoldable pub link : {A : Type 0} → Ptr → ℕ → Store A → Outcome (Ptr × Store A)
link none new s = ok (some new, set_next (some new) new s)
link (some fifo) new s =
    let s1 = set_next (s.cell fifo).next new s in ok (some new, set_next (some new) fifo s1)

module _ {A : Type 0} (mem_alloc : ℕ → A → Ptr × A) (mem_free : ℕ → ℕ → A → A) where
  -- A call of mem_alloc that fails gives NULL, which is then written through.
  unfoldable pub init_element : ℕ → Store A → Outcome (ℕ × Store A)
  init_element process s =
      let (p, al) = mem_alloc cell_size s.allocator in
      do
        a ← deref p
        ok (a, write a (record { process = process; next = none }) (record s { allocator = al }))

  unfoldable pub destroy_element : ℕ → Store A → Store A
  destroy_element a s = record s { allocator = mem_free a cell_size s.allocator }

  unfoldable pub add_process : Ptr → ℕ → Store A → Outcome (Ptr × Store A)
  unfolding init_element link
  add_process fifo process s = do (new, s1) ← init_element process s; link fifo new s1

  -- The second result is what `*process_extracted` is set to, if it is.
  unfoldable pub extract_process : Ptr → Store A → Outcome (Ptr × Ptr × Store A)
  unfolding destroy_element
  extract_process none s = ok (none, none, s)
  extract_process (some fifo) s = do
    temp ← deref (s.cell fifo).next
    let process = (s.cell temp).process
    ok (
        if temp == fifo
        then (none, some process, destroy_element temp s)
        else (some fifo, some process, destroy_element temp (set_next (s.cell temp).next fifo s)))

-- `pid_of` is the pid of a process.
unfoldable pub contains : ℕ → (ℕ → Cell) → (ℕ → ℕ) → Ptr → ℕ → Outcome Bool
contains zero cell pid_of tmp pid = out_of_fuel
contains (suc fuel) cell pid_of none pid = ok false
contains (suc fuel) cell pid_of (some a) pid =
    let rest = contains fuel cell pid_of (cell a).next pid in
    if pid_of (cell a).process == pid then ok true else rest

unfoldable pub size_loop : ℕ → (ℕ → Cell) → Ptr → ℕ → Outcome ℕ
size_loop zero cell temp size = out_of_fuel
size_loop (suc fuel) cell none size = ok size
size_loop (suc fuel) cell (some a) size = size_loop fuel cell (cell a).next (suc size)

unfoldable pub get_size : ℕ → (ℕ → Cell) → Ptr → Outcome ℕ
unfolding size_loop
get_size fuel cell fifo = size_loop fuel cell fifo 0
