-- ===== src/Proc/Schedule.antt =====
-- The scheduler of kernel/proc.c, the calls that put a process to sleep, and the end of a process.
-- A call of ctx_sw is recorded: the caller goes on when a later call switches back to it.
use projet_pcsea.Common.{
  ℕ, zero, suc, ◌+◌, ◌-◌, ◌%◌, ◌^◌, Bool, false, ◌==◌, leb, ◌&&◌, ◌||◌, not, if◌then◌else◌, none,
  some, ◌∷◌,
}
use projet_pcsea.Common.Int.{ℤ, pos}
use projet_pcsea.Common.Outcome.{Outcome, ok, out_of_fuel, ◌>>=◌}
use projet_pcsea.Queue.Spec.{top}
use projet_pcsea.Proc.State.{
  Ptr, zombie, is_endormi, is_zombie, Sched, deref, is_null, set_state, set_pere, set_frere_droit,
  set_retval, set_pid_ret_fils,
}
use projet_pcsea.Proc.Lists.{
  insert_mort, extract_activable, insert_activable, insert_endormi, wake_process,
}

abbrev pub ctx_sw : ℕ → ℕ → Sched → Sched
ctx_sw old new s = record s { switches = (old, new) ∷ s.switches }

-- `queue_top(…)->prio >= actif->prio || actif->state == ENDORMI`, for a queue that is not empty.
abbrev pub beats : Sched → ℕ → Ptr → Bool
beats s actif none = false
beats s actif (some best) =
    leb (s.process actif).prio (s.process best).prio || is_endormi (s.process actif).state

unfoldable pub must_switch : ℕ → Sched → Bool
must_switch actif s = beats s actif (top s.queue)

-- `new_actif`, and the state after extract_activable where that is called.
unfoldable pub choose : ℕ → Sched → Ptr × Sched
unfolding must_switch extract_activable
choose actif s = if must_switch actif s then extract_activable s else (some actif, s)

-- The old process goes back to the queue, unless it sleeps or goes on.
unfoldable pub hand_over : ℕ → ℕ → ℕ → Sched → Outcome Sched
unfolding insert_activable
hand_over old_pid actif new_actif s = do
  let next_pid = (s.process new_actif).pid
  s1 ←
      (if not (is_endormi (s.process actif).state) && not (actif == new_actif)
        then insert_activable actif s
        else ok s)
  ok (ctx_sw old_pid next_pid (record s1 { actif = some new_actif }))

-- What ordonnance does once the sleepers have been woken; without a process to take it returns.
unfoldable pub switch_to : ℕ → ℕ → Ptr × Sched → Outcome Sched
unfolding hand_over
switch_to old_pid actif (none, s) = ok s
switch_to old_pid actif (some new_actif, s) = hand_over old_pid actif new_actif s

unfoldable pub elect_from : ℕ → Sched → Outcome Sched
unfolding choose switch_to
elect_from actif s = switch_to (s.process actif).pid actif (choose actif s)

unfoldable pub elect : Sched → Outcome Sched
unfolding elect_from
elect s = do actif ← deref s.actif; elect_from actif s

unfoldable pub ordonnance : ℕ → Sched → Outcome Sched
unfolding wake_process elect
ordonnance fuel s = do s1 ← wake_process fuel s; elect s1

unfoldable pub sleep_until : ℕ → ℕ → Sched → Outcome Sched
unfolding insert_endormi ordonnance
sleep_until fuel time s = do
  actif ← deref s.actif
  s1 ← insert_endormi fuel actif time s
  ordonnance fuel s1

unfoldable pub dors : ℕ → ℕ → Sched → Outcome Sched
unfolding insert_endormi ordonnance
dors fuel nbr_secs s = do
  actif ← deref s.actif
  s1 ← insert_endormi fuel actif nbr_secs s
  ordonnance fuel s1

-- The children of a process that ends lose their father; its zombies are dead from now on.
unfoldable pub orphan_loop : ℕ → Ptr → Sched → Outcome Sched
unfolding insert_mort
orphan_loop zero fils s = out_of_fuel
orphan_loop (suc fuel) none s = ok s
orphan_loop (suc fuel) (some fils) s =
    let s1 = set_pere none fils s in
    let buried = (do s2 ← insert_mort fils s1; orphan_loop fuel (s1.process fils).frere_droit s2) in
    let alive = orphan_loop fuel (s1.process fils).frere_droit s1 in
    if is_zombie (s1.process fils).state then buried else alive

-- The walk through the brothers; it stops at once where the process has become a zombie.
unfoldable pub unlink_loop : ℕ → ℕ → Ptr → Ptr → Sched → Outcome Sched
unlink_loop zero actif prev cur s = out_of_fuel
unlink_loop (suc fuel) actif prev none s = ok s
unlink_loop (suc fuel) actif prev (some cur) s =
    let s1 =
      (if cur == actif
        then (elim prev [ none ↦ s | some p ↦ set_frere_droit (s.process cur).frere_droit p s ])
        else s) in
    let cur1 = (if (cur == actif) && is_null prev then (s.process cur).frere_droit else some cur) in
    let next = (do c ← deref cur1; unlink_loop fuel actif cur1 (s1.process c).frere_droit s1) in
    if is_zombie (s.process actif).state then ok s else next

-- The last part of fin_processus: another process is taken, and process 0 if there is none; then
-- `actif` keeps its value.
unfoldable pub depart : ℕ → Ptr × Sched → Outcome Sched
depart old_pid (none, s) =
    let s1 = record s { process_alive = (s.process_alive + 2 ^ 32 - 1) % 2 ^ 32 } in
    ok (ctx_sw old_pid 0 s1)
depart old_pid (some p, s) =
    let s1 = record s { process_alive = (s.process_alive + 2 ^ 32 - 1) % 2 ^ 32 } in
    ok (ctx_sw old_pid (s1.process p).pid (record s1 { actif = some p }))

unfoldable pub leave : ℕ → Sched → Outcome Sched
unfolding extract_activable depart
leave actif s = depart (s.process actif).pid (extract_activable s)

-- Without a father the process is dead at once; with one it becomes a zombie.
unfoldable pub mark : Ptr → ℕ → Sched → Outcome Sched
unfolding insert_mort
mark none actif s = insert_mort actif s
mark (some pere) actif s =
    let z = set_state zombie actif s in ok (set_pid_ret_fils (pos (z.process actif).pid) pere z)

-- fin_processus behind that branch: the walk through the father's children reads `actif->pere`. Where
-- it is NULL the model stops: the machine goes on with the word at the address of NULL->premier_fils.
unfoldable pub fin_from : ℕ → ℕ → Sched → Outcome Sched
unfolding orphan_loop unlink_loop leave
fin_from fuel actif s = do
  s1 ← orphan_loop fuel (s.process actif).premier_fils s
  pere ← deref (s1.process actif).pere
  s2 ← unlink_loop fuel actif none (s1.process pere).premier_fils s1
  leave actif s2

unfoldable pub fin_processus : ℕ → Sched → Outcome Sched
unfolding mark fin_from
fin_processus fuel s = do
  actif ← deref s.actif
  s1 ← mark (s.process actif).pere actif s
  fin_from fuel actif s1

-- exit never returns: the process has ended, and nothing switches back to it.
unfoldable pub exit : ℕ → ℤ → Sched → Outcome Sched
unfolding fin_processus
exit fuel retval s = do actif ← deref s.actif; fin_processus fuel (set_retval (some retval) actif s)
