-- ===== src/Proc/Start.antt =====
-- start of kernel/proc.c: what it refuses, what it sets up, and the entry of the table it takes.
use mathlib.Core.Path.{subst}
use mathlib.Core.Bool.{false≢true}
use projet_pcsea.Common.{
  ℕ, ◌+◌, ◌-◌, ◌%◌, ◌^◌, ◌≤◌, ◌<◌, ◌≡◌, refl, ◌≢◌, true, false, ◌==◌, ltb, leb, ◌||◌, Bool-cases,
  Option-cases, ◌⊎◌, inl, inr, some, none, List, mem, arith, ap, sym, ◌∙◌, length,
}
use projet_pcsea.Common.Int.{ℤ, pos, negsuc, minus_one}
use projet_pcsea.Common.Outcome.{ok, ◌>>=◌, Returns, Returns-bind, Yields, Yields-bind, not-ok}
use projet_pcsea.Queue.Spec.{mem-insert}
use projet_pcsea.Proc.State.{
  Ptr, Sched, activable, code, fin, argument, deref, is_null, modify, prios, to_u32,
  with_premier_fils, with_dernier_fils, with_frere_droit, with_state, with_suiv, set_frere_droit,
  set_dernier_fils,
}
use projet_pcsea.Proc.Lists.{extract_mort}
use projet_pcsea.Proc.Activable.{activated, insert_activable_lem}
use projet_pcsea.Proc.Calls.{start, link_last, start_refuses_prio, install, fresh, add_child}

refuse_full :
    (pt_func ssize : ℕ) (prio : ℤ) (name : List ℕ) (arg : ℕ) (s : Sched)
    → s.process_alive ≡ 30
    → start pt_func ssize prio name arg s ≡ ok (minus_one, s)
unfolding start
refuse_full pt_func ssize prio name arg s h =
    let e : (s.process_alive == 30) ≡ true = ground arith in
    elim (Bool-cases (leb 0xffff_ffff ssize)) [
      | inl b ↦ rw b
      | inr b ↦ elim (Bool-cases (start_refuses_prio prio)) [
        | inl c ↦ rw (b, c)
        | inr c ↦ rw (b, c, e)
      ]
    ]

never_refuses : (prio : ℤ) → start_refuses_prio prio ≡ false
unfolding start_refuses_prio
never_refuses (pos n) = ground arith
never_refuses (negsuc n) = refl

-- start refuses a stack of 0xffffffff bytes or more and a full table, and then changes nothing.
pub start-refuses :
    (pt_func ssize : ℕ) (prio : ℤ) (name : List ℕ) (arg : ℕ) (s : Sched)
    → (0xffff_ffff ≤ ssize) ⊎ (s.process_alive ≡ 30)
    → start pt_func ssize prio name arg s ≡ ok (minus_one, s)
unfolding start
start-refuses pt_func ssize prio name arg s (inl h) =
    let e : leb 0xffff_ffff ssize ≡ true = ground arith in rw e
start-refuses pt_func ssize prio name arg s (inr h) = refuse_full pt_func ssize prio name arg s h

-- add_child writes the links between children only.
record Linked (s : Sched) (s' : Sched) : Type 0 where
  queue : s'.queue ≡ s.queue
  alive : s'.process_alive ≡ s.process_alive
  fields :
      (y : ℕ)
      → ((s'.process y).prio ≡ (s.process y).prio)
        × ((s'.process y).pid ≡ (s.process y).pid)
        × ((s'.process y).pere ≡ (s.process y).pere)
        × ((s'.process y).name ≡ (s.process y).name)
        × ((s'.process y).exec_stack ≡ (s.process y).exec_stack)

-- The father's list of children ends properly: a first child goes with a last one.
abbrev pub ChildrenOk : Ptr → Sched → Type 0
ChildrenOk none s = Unit {0}
ChildrenOk (some a) s =
    is_null (s.process a).premier_fils ≡ false → is_null (s.process a).dernier_fils ≡ false

link_last_lem :
    (index last a : ℕ) (s : Sched)
    → (s.process a).dernier_fils ≡ some last
    → link_last index last a s
      ≡ ok (set_dernier_fils (some index) a (set_frere_droit (some index) last s))
unfolding link_last with_frere_droit
link_last_lem index last a s h =
    let m : Sched = set_frere_droit (some index) last s in
    let e : (m.process a).dernier_fils ≡ some last = ground arith in
    rw e (ap (λ q. ok (set_dernier_fils q a m)) (ground arith))

add_child-Linked :
    (index : ℕ) (p : Ptr) (s : Sched) → ChildrenOk p s → Returns (Linked s) (add_child index p s)
unfolding add_child with_premier_fils with_dernier_fils with_frere_droit
add_child-Linked index none s h = record {
  queue = refl;
  alive = refl;
  fields = λ y. (refl, refl, refl, refl, refl);
}
add_child-Linked index (some a) s h = elim (Bool-cases (is_null (s.process a).premier_fils)) [
  | inl first ↦ rw first (record { queue = refl; alive = refl; fields = λ y. ground arith })
  | inr more ↦ elim (Option-cases (s.process a).dernier_fils) [
    | inl t ↦ absurd (false≢true (sym (h more) ∙ ap is_null t))
    | inr (last, t) ↦ rw more (
        subst (λ q. Returns (Linked s) (deref q >>= λ k. link_last index k a s)) (sym t)
          (rw (link_last_lem index last a s t)
            (record { queue = refl; alive = refl; fields = λ y. ground arith })))
  ]
]

-- What start sets up in the entry `i`.
pub record Started (s : Sched) (i pt_func : ℕ) (prio : ℤ) (name : List ℕ) (arg : ℕ)
    (out : ℤ × Sched) : Type 0 where
  pub result : out.0 ≡ pos i
  pub pid : (out.1.process i).pid ≡ i
  pub prio_set : (out.1.process i).prio ≡ to_u32 prio
  pub name_set : (out.1.process i).name ≡ name
  pub father : (out.1.process i).pere ≡ s.actif
  pub first_call : (out.1.process i).exec_stack 4093 ≡ code pt_func
  pub return_to : (out.1.process i).exec_stack 4094 ≡ fin
  pub parameter : (out.1.process i).exec_stack 4095 ≡ argument arg
  pub state : (out.1.process i).state ≡ activable
  pub queued : (y : ℕ) → mem y out.1.queue ≡ ((y == i) || mem y s.queue)
  pub alive : out.1.process_alive ≡ s.process_alive + 1
  pub others :
      (y : ℕ)
      → y ≢ i
      → ((out.1.process y).pid ≡ (s.process y).pid) × ((out.1.process y).prio ≡ (s.process y).prio)

module _ (pt_func i : ℕ) (prio : ℤ) (name : List ℕ) (arg : ℕ) (s : Sched) (small : i < 30)
    (positive : 0 < i) (short : length name < 15) where
  abbrev s0 : Sched
  s0 = modify (fresh i pt_func prio name arg s.actif) i s

  entry :
      (s' : Sched)
      → mem i s.queue ≡ false
      → s.process_alive < 2 ^ 32 - 1
      → Linked s0 s'
      → Started s i pt_func prio name arg (
        pos ((activated i s').process i).pid,
        record (activated i s') { process_alive = (s'.process_alive + 1) % 2 ^ 32 },
      )
  unfolding fresh with_suiv with_state
  entry s' out fits l =
      let f = l.fields i in
      let e : ((activated i s').process i).exec_stack
          ≡ (fresh i pt_func prio name arg s.actif (s.process i)).exec_stack =
        ground arith in
      record {
        result = ground arith;
        pid = ground arith;
        prio_set = ground arith;
        name_set = ground arith;
        father = ground arith;
        first_call = ap (λ g. g 4093) e;
        return_to = ap (λ g. g 4094) e;
        parameter = ap (λ g. g 4095) e;
        state = ground arith;
        queued = λ y. rw (mem-insert (prios s') i y s'.queue, l.queue);
        alive = ground arith;
        others = λ y ne. let g = l.fields y in ground arith;
      }

  install-Started :
      mem i s.queue ≡ false
      → s.process_alive < 2 ^ 32 - 1
      → ChildrenOk s0.actif s0
      → Returns (Started s i pt_func prio name arg) (install i pt_func prio name arg s)
  unfolding install
  install-Started out fits children =
      let e : ltb i 30 ≡ true = ground arith in
      let e' : ltb (length name) 15 ≡ true = ground arith in
      let e'' : ltb 0 i ≡ true = ground arith in
      rw (e, e')
        (Returns-bind _ (add_child i s0.actif s0) _ (add_child-Linked i s0.actif s0 children)
          (λ s' l.
            rw (e'', insert_activable_lem i s', ap (mem i) l.queue ∙ out) (entry s' out fits l)))

no_dead : (s : Sched) → s.dead_list ≡ none → extract_mort s ≡ ok (none, s)
unfolding extract_mort
no_dead s h = let e : is_null s.dead_list ≡ true = ap is_null h in rw e refl

start-install :
    (pt_func ssize : ℕ) (prio : ℤ) (name : List ℕ) (arg : ℕ) (s : Sched)
    → ssize < 0xffff_ffff
    → s.dead_list ≡ none
    → s.process_alive < 30
    → start pt_func ssize prio name arg s ≡ install s.process_alive pt_func prio name arg s
unfolding start
start-install pt_func ssize prio name arg s small dead few =
    let a : leb 0xffff_ffff ssize ≡ false = ground arith in
    let b : (s.process_alive == 30) ≡ false = ground arith in
    let c : start_refuses_prio prio ≡ false = never_refuses prio in
    rw (a, c, b, no_dead s dead) refl

-- On a table with no dead entry and from 1 to 29 processes alive, start takes entry `process_alive`,
-- provided that this entry is not in the queue, and returns its number, which is the pid. The new process
-- has its priority, name and father, on its stack the function, the return to fin and the argument; it is
-- ready, with those that were ready before, one process more is alive, and all others keep their pid and
-- priority. The size of the stack that is asked for is below
-- 2 ^ 32 - 1, the name has at most 14 bytes, and the father, if there is one, has a last child wherever
-- it has a first.
pub start-Started :
    (pt_func ssize : ℕ) (prio : ℤ) (name : List ℕ) (arg : ℕ) (s : Sched)
    → ssize < 0xffff_ffff
    → length name < 15
    → s.dead_list ≡ none
    → 0 < s.process_alive
    → s.process_alive < 30
    → mem s.process_alive s.queue ≡ false
    → ChildrenOk s.actif
        (modify (fresh s.process_alive pt_func prio name arg s.actif) s.process_alive s)
    → Returns
        (Started s s.process_alive pt_func prio name arg)
        (start pt_func ssize prio name arg s)
start-Started pt_func ssize prio name arg s small short dead positive few out children =
    rw (start-install pt_func ssize prio name arg s small dead few) (
      install-Started pt_func s.process_alive prio name arg s few positive short out (ground arith)
        children)

any : (p : Ptr) → Yields (λ _. Unit {0}) (deref p)
any none = tt
any (some p) = tt

keeps_queue :
    (index : ℕ) (p : Ptr) (s : Sched) → Yields (λ s'. s'.queue ≡ s.queue) (add_child index p s)
unfolding add_child link_last
keeps_queue index none s = refl
keeps_queue index (some a) s = elim (Bool-cases (is_null (s.process a).premier_fils)) [
  | inl first ↦ rw first refl
  | inr more ↦ rw more (
      Yields-bind {P = λ _. Unit {0}} _ (deref (s.process a).dernier_fils) _ (any _) (λ k _.
        Yields-bind {P = λ _. Unit {0}} _
          (deref ((set_frere_droit (some index) k s).process a).dernier_fils) _ (any _)
          (λ k' _. refl)))
]

-- With no dead entry, start takes entry `process_alive` of the table even where a process that is
-- ready has it; the assertion of the queue then stops the kernel.
pub start-clobbers :
    (pt_func ssize : ℕ) (prio : ℤ) (name : List ℕ) (arg : ℕ) (s : Sched) (out : ℤ × Sched)
    → ssize < 0xffff_ffff
    → s.dead_list ≡ none
    → 0 < s.process_alive
    → s.process_alive < 30
    → mem s.process_alive s.queue ≡ true
    → start pt_func ssize prio name arg s ≢ ok out
unfolding install
start-clobbers pt_func ssize prio name arg s out small dead positive few ready =
    let i = s.process_alive in
    let s1 : Sched = modify (fresh i pt_func prio name arg s.actif) i s in
    let e : ltb i 30 ≡ true = ground arith in
    let e' : ltb 0 i ≡ true = ground arith in
    rw (start-install pt_func ssize prio name arg s small dead few) (
      not-ok _ out (elim (Bool-cases (ltb (length name) 15)) [
        | inl f ↦
            rw (e, f)
              (Yields-bind _ (add_child i s1.actif s1) _ (keeps_queue i s1.actif s1)
                (λ s2 q. rw (e', insert_activable_lem i s2, ap (mem i) q ∙ ready) tt))
        | inr f ↦ rw (e, f) tt
      ]))
