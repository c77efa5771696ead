-- ===== src/Proc/Lists.antt =====
-- The three lists of kernel/proc.c: the dead, the processes to activate, and the sleepers.
use projet_pcsea.Common.{
  ℕ, zero, suc, Bool, true, false, ◌==◌, ltb, leb, ◌&&◌, not, if◌then◌else◌, none, some, mem,
}
use projet_pcsea.Common.Int.{ℤ, pos, minus_one}
use projet_pcsea.Common.Outcome.{Outcome, ok, fault, out_of_fuel, ◌>>=◌}
use projet_pcsea.Queue.Spec.{insert, remove, rest, top}
use projet_pcsea.Proc.State.{
  Ptr, activable, endormi, mort, Sched, deref, is_null, ptr_eq, set_state, set_suiv, set_time,
  prios,
}

-- queue_add, queue_del and the macros that read, on the list that the queue holds: `queue_add`
-- wants the link unused, `queue_del` wants it used.
unfoldable pub queue_add : ℕ → Sched → Outcome Sched
queue_add e s =
    if mem e s.queue then fault else ok (record s { queue = insert (prios s) e s.queue })

unfoldable pub queue_del : ℕ → Sched → Outcome Sched
queue_del e s = if mem e s.queue then ok (record s { queue = remove e s.queue }) else fault

unfoldable pub insert_mort : ℕ → Sched → Outcome Sched
insert_mort element s = do
  let s1 = set_state mort element s
  s2 ←
      (if is_null s1.dead_list
        then ok (record s1 { dead_list = some element; dead_tail = some element })
        else (do
          tail ← deref s1.dead_tail
          ok (record (set_suiv (some element) tail s1) { dead_tail = some element })))
  ok (set_suiv none element s2)

unfoldable pub extract_mort : Sched → Outcome (Ptr × Sched)
extract_mort s =
    if is_null s.dead_list
    then ok (none, s)
    else if ptr_eq s.dead_list s.dead_tail
    then ok (s.dead_list, record s { dead_list = none; dead_tail = none })
    else (do tmp ← deref s.dead_list; ok (some tmp, record s { dead_list = (s.process tmp).suiv }))

-- The process of highest priority, the oldest among equals; NULL if there is none.
unfoldable pub extract_activable : Sched → Ptr × Sched
extract_activable s = elim (top s.queue) [
  | none ↦ (none, s)
  | some tmp ↦ (some tmp, set_suiv none tmp (record s { queue = rest s.queue }))
]

unfoldable pub insert_activable : ℕ → Sched → Outcome Sched
unfolding queue_add
insert_activable element s =
    queue_add element (set_suiv none element (set_state activable element s))

unfoldable pub extract_endormi : Sched → Outcome (ℕ × Sched)
extract_endormi s = do
  s1 ←
      (if ptr_eq s.endormi_list s.endormi_tail
        then ok (record s { endormi_list = none; endormi_tail = none })
        else (do
          head ← deref s.endormi_list
          ok (record s { endormi_list = (s.process head).suiv })))
  tmp ← deref s.endormi_list
  ok (tmp, set_suiv none tmp s1)

-- The loop of insert_endormi; the result is `already_add`.
unfoldable pub endormi_loop : ℕ → ℕ → Ptr → Ptr → Bool → Sched → Outcome (Bool × Sched)
endormi_loop zero element tmp prec is_head s = out_of_fuel
endormi_loop (suc fuel) element none prec is_head s = ok (false, s)
endormi_loop (suc fuel) element (some tmp) prec is_head s =
    let next = (s.process tmp).suiv in
    let past_head = endormi_loop fuel element next prec false s in
    let past = (do p ← deref prec; endormi_loop fuel element next (s.process p).suiv is_head s) in
    if ltb (s.process element).time_to_wake (s.process tmp).time_to_wake
    then (if is_head
        then ok (true, set_suiv (some tmp) element (record s { endormi_list = some element }))
        else (do
          p ← deref prec
          ok (true, set_suiv (some tmp) element (set_suiv (some element) p s))))
    else if is_head
    then past_head
    else past

-- What follows the loop of insert_endormi.
unfoldable pub close_endormi : ℕ → Bool × Sched → Outcome Sched
close_endormi element (already_add, s) = do
  s1 ←
      (if already_add then ok s else (do
        tail ← deref s.endormi_tail
        ok (record (set_suiv (some element) tail s) { endormi_tail = some element })))
  tail ← deref s1.endormi_tail
  ok (set_suiv none tail s1)

unfoldable pub insert_endormi : ℕ → ℕ → ℕ → Sched → Outcome Sched
unfolding endormi_loop close_endormi
insert_endormi fuel element time s =
    let s1 = set_state endormi element (set_time time element s) in
    if is_null s1.endormi_tail
    then ok (record (set_suiv none element s1) {
      endormi_list = some element;
      endormi_tail = some element;
    })
    else endormi_loop fuel element s1.endormi_list s1.endormi_list true s1 >>= close_endormi element

-- A sleeper that is not the first leaves the list: `prec` stands before it, `tail` is the last.
unfoldable pub cut_sleeper : ℕ → ℕ → ℕ → Sched → Outcome Sched
unfolding insert_mort
cut_sleeper tail tmp prec s =
    let s1 =
      (if (s.process tmp).pid == (s.process tail).pid
        then record s { endormi_tail = some prec }
        else s) in
    insert_mort tmp (set_suiv none tmp (set_suiv (s1.process tmp).suiv prec s1))

-- The loop of sleep_del behind the first sleeper: it goes on after a hit, and returns -1.
unfoldable pub sleep_del_loop : ℕ → ℕ → Ptr → ℕ → Sched → Outcome (ℤ × Sched)
unfolding cut_sleeper
sleep_del_loop zero pid tmp prec s = out_of_fuel
sleep_del_loop (suc fuel) pid none prec s = ok (minus_one, s)
sleep_del_loop (suc fuel) pid (some tmp) prec s =
    let hit = (do
      tail ← deref s.endormi_tail
      s3 ← cut_sleeper tail tmp prec s
      sleep_del_loop fuel pid (s3.process tmp).suiv tmp s3) in
    let miss = sleep_del_loop fuel pid (s.process tmp).suiv tmp s in
    if (s.process tmp).pid == pid then hit else miss

-- The first sleeper leaves the list.
unfoldable pub cut_first : ℕ → Sched → Outcome Sched
unfolding insert_mort
cut_first head s =
    let s1 =
      (if ptr_eq s.endormi_list s.endormi_tail then record s { endormi_tail = none } else s) in
    insert_mort head (set_suiv none head (record s1 { endormi_list = (s.process head).suiv }))

unfoldable pub sleep_del_from : ℕ → ℕ → Ptr → Sched → Outcome (ℤ × Sched)
unfolding sleep_del_loop cut_first
sleep_del_from fuel pid none s = ok (minus_one, s)
sleep_del_from fuel pid (some head) s =
    if (s.process head).pid == pid
    then (do s3 ← cut_first head s; ok (pos 0, s3))
    else sleep_del_loop fuel pid (s.process head).suiv head s

unfoldable pub sleep_del : ℕ → ℕ → Sched → Outcome (ℤ × Sched)
unfolding sleep_del_from
sleep_del fuel pid s = sleep_del_from fuel pid s.endormi_list s

-- wake_process: `tmp` is read again after the process has left the list.
unfoldable pub wake_loop : ℕ → Ptr → Sched → Outcome Sched
unfolding extract_endormi insert_activable
wake_loop zero tmp s = out_of_fuel
wake_loop (suc fuel) none s = ok s
wake_loop (suc fuel) (some tmp) s =
    let next = (do
      (e, s1) ← extract_endormi s
      s2 ← insert_activable e s1
      wake_loop fuel (s2.process tmp).suiv s2) in
    if leb (s.process tmp).time_to_wake s.nb_tick && not (is_null s.endormi_tail)
    then next
    else ok s

unfoldable pub wake_process : ℕ → Sched → Outcome Sched
unfolding wake_loop
wake_process fuel s = wake_loop fuel s.endormi_list s
