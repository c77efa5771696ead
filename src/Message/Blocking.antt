-- ===== src/Message/Blocking.antt =====
-- psend at a full queue and preceive at an empty one, of kernel/message.c, up to the switch to another
-- process.
use projet_pcsea.Common.{
  ℕ, suc, ◌≡◌, refl, ◌≢◌, true, false, ◌==◌, ==_refl, some, none, Option, List, [], ◌∷◌, mem, arith,
  ap, sym, ◌∙◌,
}
use mathlib.Core.Path.{subst}
use projet_pcsea.Common.Int.{ℤ}
use projet_pcsea.Common.Outcome.{Returns-both, ◌>>=◌, Returns, Returns-bind}
use projet_pcsea.Proc.State.{is_endormi, with_state, Ptr, endormi, deref, set_state}
use projet_pcsea.Proc.Schedule.{ordonnance}
use projet_pcsea.Proc.System.{Before, Settled}
use projet_pcsea.Proc.System.Wake.{After, ordonnance-Settled, ordonnance-asleep}
use projet_pcsea.Proc.System.Block.{Before-blocked}
use projet_pcsea.Fifo.{Store, cell_size, add_process}
use projet_pcsea.Fifo.Ring.{IsFifo, snoc, processes, add_process-last}
use projet_pcsea.Message.{
  Messages, Called, returned, waits, number, invalid, wait, psend_full, psend_from, psend,
  FifoMessages, preceive_empty, preceive_from, preceive,
}

-- The caller `a` waits at queue `i`, behind the senders that waited in the cells `cells`, in the cell
-- `new`; the messages are as before; it sleeps, and the scheduler is settled, with at most the sleepers `xs`.
pub record Waits {A : Type 0} (i a : ℕ) (cells : List ℕ) (new : ℕ) (xs : List ℕ) (m m' : Messages A)
    : Type 0 where
  pub fifo : IsFifo m'.store.cell (m'.fifo_tab i).consum (snoc cells new)
  pub senders : processes m'.store.cell (snoc cells new) ≡ snoc (processes m.store.cell cells) a
  pub messages : (m'.fifo_tab i).tab_messages ≡ (m.fifo_tab i).tab_messages
  pub counts :
      ((m'.fifo_tab i).nb_element ≡ (m.fifo_tab i).nb_element)
      × ((m'.fifo_tab i).down ≡ (m.fifo_tab i).down)
  pub asleep : is_endormi (m'.sched.process a).state ≡ true
  pub after : After xs m'.sched

-- The caller `a` is the only receiver that waits at queue `i`, in the cell `new`.
pub record WaitsAlone {A : Type 0} (i a new : ℕ) (xs : List ℕ) (m m' : Messages A) : Type 0 where
  pub fifo : IsFifo m'.store.cell (m'.fifo_tab i).prod (new ∷ [])
  pub receivers : processes m'.store.cell (new ∷ []) ≡ a ∷ []
  pub messages : (m'.fifo_tab i).tab_messages ≡ (m.fifo_tab i).tab_messages
  pub counts :
      ((m'.fifo_tab i).nb_element ≡ (m.fifo_tab i).nb_element)
      × ((m'.fifo_tab i).down ≡ (m.fifo_tab i).down)
  pub asleep : is_endormi (m'.sched.process a).state ≡ true
  pub after : After xs m'.sched

-- The caller `a` sleeps; the queue `i` is `f` and the cells are those of `st`.
pub record Sleeping {A : Type 0} (i a : ℕ) (f : FifoMessages) (st : Store A) (xs : List ℕ)
    (m' : Messages A) : Type 0 where
  pub queue : m'.fifo_tab i ≡ f
  pub cells : m'.store ≡ st
  pub asleep : is_endormi (m'.sched.process a).state ≡ true
  pub after : After xs m'.sched

-- A call that waits.
abbrev pub Blocked : {R A : Type 0} → (ℕ → Messages A → Type 0) → Called R A → Type 0
Blocked P (returned r m) = ⊥
Blocked P (waits p m) = P p m

module _ {A : Type 0} (mem_alloc : ℕ → A → Ptr × A) (mem_free : ℕ → ℕ → A → A) where
  psend-full :
      (fuel : ℕ) (fid v : ℤ) (a : ℕ) (m : Messages A)
      → invalid fid m ≡ false
      → m.sched.actif ≡ some a
      → (m.fifo_tab (number fid)).nb_element ≡ (m.fifo_tab (number fid)).size
      → psend mem_alloc mem_free fuel fid v m ≡ psend_full mem_alloc mem_free fuel (number fid) a m
  unfolding psend
  psend-full fuel fid v a m valid runs full =
      let i = number fid in
      let e : ((m.fifo_tab i).nb_element == (m.fifo_tab i).size) ≡ true = ground arith in
      rw valid
        (ap (λ q. deref q >>= λ p. psend_from mem_alloc mem_free fuel i v p m) runs ∙ rw e refl)

  -- `wait` puts the caller to sleep, with `f` as the queue `i`.
  wait-Sleeping :
      (fuel i : ℕ) (f : FifoMessages) (st : Store A) (m : Messages A) (xs : List ℕ)
      (h : Settled m.sched xs)
      → 0 ≢ h.running
      → Returns
          (Sleeping i h.running f st xs)
          (wait mem_alloc mem_free (suc (suc fuel)) i h.running f st m)
  unfolding wait
  wait-Sleeping fuel i f st m xs h ne =
      let before : Before (set_state endormi h.running m.sched) h.running xs =
        Before-blocked m.sched xs h ne in
      let slept : is_endormi ((set_state endormi h.running m.sched).process h.running).state
          ≡ true =
        unfold with_state in ground (arith, ==_refl h.running) in
      Returns-bind _ (ordonnance (suc (suc fuel)) (set_state endormi h.running m.sched)) _
        (Returns-both _ _ (ordonnance (suc (suc fuel)) (set_state endormi h.running m.sched))
          (ordonnance-Settled fuel (set_state endormi h.running m.sched) h.running xs before)
          (ordonnance-asleep fuel (set_state endormi h.running m.sched) h.running xs before slept))
        (λ sc (r, q). record { queue = rw (==_refl i) refl; cells = refl; asleep = q; after = r })

  -- At a full queue psend makes the caller wait: it is put behind the senders that wait already, which stay in their order, and
  -- sleeps, the messages stay as they are, and the scheduler is settled again, with at most the sleepers
  -- from before. This takes a settled scheduler, a caller that is not idle, a circular list of senders, and
  -- an allocator that gives an address out of use.
  pub psend-Waits :
      (fuel : ℕ) (fid v : ℤ) (m : Messages A) (cells xs : List ℕ) (new : ℕ) (al : A)
      (h : Settled m.sched xs)
      → 0 ≢ h.running
      → invalid fid m ≡ false
      → (m.fifo_tab (number fid)).nb_element ≡ (m.fifo_tab (number fid)).size
      → IsFifo m.store.cell (m.fifo_tab (number fid)).consum cells
      → mem_alloc cell_size m.store.allocator ≡ (some new, al)
      → mem new cells ≡ false
      → Returns {A = Called ℤ A}
          (Blocked λ p m'. (p ≡ h.running) × Waits (number fid) h.running cells new xs m m')
          (psend mem_alloc mem_free (suc (suc fuel)) fid v m)
  psend-Waits fuel fid v m cells xs new al h ne valid full fifo alloc out =
      let i = number fid in
      let a = h.running in
      rw (psend-full (suc (suc fuel)) fid v a m valid h.before.ready.runs full) (
        unfold psend_full in
        Returns-bind _ (add_process mem_alloc mem_free (m.fifo_tab i).consum a m.store) _
          (add_process-last mem_alloc mem_free (m.fifo_tab i).consum a m.store cells new al fifo
            alloc out)
          (λ (l, st) (f, p).
            let fifo_i = record (m.fifo_tab i) { consum = l } in
            Returns-bind _ (wait mem_alloc mem_free (suc (suc fuel)) i a fifo_i st m) _
              (wait-Sleeping fuel i fifo_i st m xs h ne)
              (λ m' w. (
                refl,
                record {
                  fifo =
                      subst (λ c. IsFifo c (m'.fifo_tab i).consum (snoc cells new))
                        (ap (λ t. t.cell) (sym w.cells))
                        (subst (λ q. IsFifo st.cell q.consum (snoc cells new)) (sym w.queue) f);
                  senders = ap (λ t. processes t.cell (snoc cells new)) w.cells ∙ p;
                  messages = ap (λ q. q.tab_messages) w.queue;
                  counts = (ap (λ q. q.nb_element) w.queue, ap (λ q. q.down) w.queue);
                  asleep = w.asleep;
                  after = w.after;
                },
              ))))

  preceive-empty :
      (fuel : ℕ) (fid : ℤ) (a : ℕ) (m : Messages A)
      → invalid fid m ≡ false
      → m.sched.actif ≡ some a
      → (m.fifo_tab (number fid)).nb_element ≡ 0
      → preceive mem_alloc mem_free fuel fid m
        ≡ preceive_empty mem_alloc mem_free fuel (number fid) a m
  unfolding preceive
  preceive-empty fuel fid a m valid runs empty =
      let i = number fid in
      let e : ((m.fifo_tab i).nb_element == 0) ≡ true = ground arith in
      rw valid
        (ap (λ q. deref q >>= λ p. preceive_from mem_alloc mem_free fuel i p m) runs ∙ rw e refl)

  -- At an empty queue with no sender that waits preceive makes the caller wait, as the only receiver:
  -- those that waited already are no longer in the list. The caller sleeps, the messages stay, and the
  -- scheduler is settled again, with at most the sleepers from before. This takes a settled scheduler,
  -- a caller that is not idle, and an allocator that gives an address.
  pub preceive-WaitsAlone :
      (fuel : ℕ) (fid : ℤ) (m : Messages A) (xs : List ℕ) (new : ℕ) (al : A)
      (h : Settled m.sched xs)
      → 0 ≢ h.running
      → invalid fid m ≡ false
      → (m.fifo_tab (number fid)).nb_element ≡ 0
      → (m.fifo_tab (number fid)).consum ≡ none
      → mem_alloc cell_size m.store.allocator ≡ (some new, al)
      → Returns {A = Called (ℤ × Option ℤ) A}
          (Blocked λ p m'. (p ≡ h.running) × WaitsAlone (number fid) h.running new xs m m')
          (preceive mem_alloc mem_free (suc (suc fuel)) fid m)
  preceive-WaitsAlone fuel fid m xs new al h ne valid empty nobody alloc =
      let i = number fid in
      let a = h.running in
      rw (preceive-empty (suc (suc fuel)) fid a m valid h.before.ready.runs empty) (
        unfold preceive_empty in
        Returns-bind _ (add_process mem_alloc mem_free (m.fifo_tab i).consum a m.store) _
          (add_process-last mem_alloc mem_free (m.fifo_tab i).consum a m.store [] new al
            (subst (λ q. IsFifo m.store.cell q []) (sym nobody) refl) alloc refl)
          (λ (l, st) (f, p).
            let fifo_i = record (m.fifo_tab i) { prod = l } in
            Returns-bind _ (wait mem_alloc mem_free (suc (suc fuel)) i a fifo_i st m) _
              (wait-Sleeping fuel i fifo_i st m xs h ne)
              (λ m' w. (
                refl,
                record {
                  fifo =
                      subst (λ c. IsFifo c (m'.fifo_tab i).prod (new ∷ []))
                        (ap (λ t. t.cell) (sym w.cells))
                        (subst (λ q. IsFifo st.cell q.prod (new ∷ [])) (sym w.queue) f);
                  receivers = ap (λ t. processes t.cell (new ∷ [])) w.cells ∙ p;
                  messages = ap (λ q. q.tab_messages) w.queue;
                  counts = (ap (λ q. q.nb_element) w.queue, ap (λ q. q.down) w.queue);
                  asleep = w.asleep;
                  after = w.after;
                },
              ))))
