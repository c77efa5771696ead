-- ===== src/Proc/Calls.antt =====
-- The system calls of kernel/proc.c on processes: start, kill, getprio, chprio and waitpid.
use projet_pcsea.Common.{
  ℕ, zero, suc, ◌+◌, ◌-◌, ◌%◌, ◌^◌, Bool, true, false, ◌==◌, ltb, leb, ◌&&◌, ◌||◌, if◌then◌else◌,
  none, some, List, [], ◌∷◌, length,
}
use projet_pcsea.Common.Int.{ℤ, pos, negsuc, minus_one}
use projet_pcsea.Common.Outcome.{Outcome, ok, fault, out_of_fuel, ◌>>=◌}
use projet_pcsea.Proc.State.{
  Ptr, stack_size_integer, process_table_size, max_prio, name_size, zombie, Word, code, fin,
  argument, Process, Sched, deref, is_null, modify, set_state, set_prio, set_frere_droit,
  set_premier_fils, set_dernier_fils, set_retval, to_u32, to_int,
}
use projet_pcsea.Proc.Lists.{queue_add, queue_del, extract_mort, insert_activable, sleep_del}
use projet_pcsea.Proc.Schedule.{ordonnance, fin_processus}

abbrev pub getpid : Sched → Outcome ℕ
getpid s = do actif ← deref s.actif; ok (s.process actif).pid

abbrev pub mon_nom : Sched → Outcome (List ℕ)
mon_nom s = do actif ← deref s.actif; ok (s.process actif).name

abbrev pub put : (ℕ → Word) → ℕ → Word → ℕ → Word
put f i w = λ j. if j == i then w else f j

-- The new entry of the table: what start writes into it. `state`, `time_to_wake` and `retval_fils`
-- keep the values of the process that had the entry before.
unfoldable pub fresh : ℕ → ℕ → ℤ → List ℕ → ℕ → Ptr → Process → Process
fresh index pt_func prio name arg actif old = record old {
  pid = index;
  name = name;
  prio = to_u32 prio;
  esp = stack_size_integer - 3;
  exec_stack =
      put
        (put (put old.exec_stack (stack_size_integer - 3) (code pt_func)) (stack_size_integer - 2)
          fin)
        (stack_size_integer - 1) (argument arg);
  pere = actif;
  dernier_fils = none;
  frere_droit = none;
  premier_fils = none;
  suiv = none;
  retval = none;
  pid_ret_fils = minus_one;
}

-- The new process becomes the last child of its father.
unfoldable pub link_last : ℕ → ℕ → ℕ → Sched → Outcome Sched
link_last index last actif s = do
  let s1 = set_frere_droit (some index) last s
  last1 ← deref (s1.process actif).dernier_fils
  ok (set_dernier_fils (s1.process last1).frere_droit actif s1)

unfoldable pub add_child : ℕ → Ptr → Sched → Outcome Sched
add_child index none s = ok s
add_child index (some actif) s =
    if is_null (s.process actif).premier_fils
    then ok (set_dernier_fils (some index) actif (set_premier_fils (some index) actif s))
    else (do last ← deref (s.process actif).dernier_fils; link_last index last actif s)

-- A name that does not fit, or an index past the table, is written out of bounds.
unfoldable pub install : ℕ → ℕ → ℤ → List ℕ → ℕ → Sched → Outcome (ℤ × Sched)
unfolding fresh add_child link_last insert_activable
install index pt_func prio name arg s =
    if ltb index process_table_size && ltb (length name) name_size
    then (do
      let s1 = modify (fresh index pt_func prio name arg s.actif) index s
      s2 ← add_child index s1.actif s1
      s3 ← (if ltb 0 index then insert_activable index s2 else ok s2)
      ok (
        pos (s3.process index).pid,
        record s3 { process_alive = (s3.process_alive + 1) % 2 ^ 32 },
      ))
    else fault

-- `prio >= MAX_PRIO && prio < 0`
unfoldable pub start_refuses_prio : ℤ → Bool
start_refuses_prio (pos n) = leb max_prio n && false
start_refuses_prio (negsuc n) = false && true

-- The entry of a dead process, or else the one that `process_alive` counts to.
abbrev pub slot : Ptr → Sched → ℕ
slot none s = s.process_alive
slot (some p) s = (s.process p).pid

unfoldable pub start : ℕ → ℕ → ℤ → List ℕ → ℕ → Sched → Outcome (ℤ × Sched)
unfolding start_refuses_prio extract_mort install
start pt_func ssize prio name arg s =
    if leb 0xffff_ffff ssize
    then ok (minus_one, s)
    else if start_refuses_prio prio
    then ok (minus_one, s)
    else if s.process_alive == process_table_size
    then ok (minus_one, s)
    else (do (new_p, s1) ← extract_mort s; install (slot new_p s1) pt_func prio name arg s1)

-- `struct Process process[…]` and the lists at rest, and idle as process 0.
unfoldable pub init_process : ℕ → List ℕ → Sched → Outcome Sched
unfolding start
init_process idle name s = do
  (pid, s1) ← start idle 512 (pos 1) name 0 s
  ok (record s1 { actif = some 0 })

-- `pid < 0 || pid > PROCESS_TABLE_SIZE - 1`
unfoldable pub bad_pid : ℤ → Bool
bad_pid (pos n) = ltb (process_table_size - 1) n
bad_pid (negsuc n) = true

-- The pid as a number, which it is where `bad_pid` is false.
abbrev pub number : ℤ → ℕ
number (pos n) = n
number (negsuc n) = 0

unfoldable pub is_pid_valid : ℤ → Sched → Outcome Bool
unfolding bad_pid
is_pid_valid pid s =
    if bad_pid pid
    then ok false
    else (do actif ← deref s.actif; ok ((s.process actif).pid == number pid))

-- The first process of the list with this pid.
unfoldable pub find_pid : (ℕ → Process) → ℕ → List ℕ → Ptr
find_pid process pid [] = none
find_pid process pid (p ∷ ps) = if (process p).pid == pid then some p else find_pid process pid ps

-- The result of sleep_del as that of kill.
abbrev pub kill_result : ℤ → ℤ
kill_result (pos n) = if n == 0 then pos 0 else minus_one
kill_result (negsuc n) = minus_one

-- kill of a process that does not run: in the queue, or among the sleepers.
unfoldable pub kill_other : ℕ → ℕ → Ptr → Sched → Outcome (ℤ × Sched)
unfolding queue_del sleep_del
kill_other fuel pid (some p) s = do s1 ← queue_del p (set_state zombie p s); ok (pos 0, s1)
kill_other fuel pid none s = do (r, s1) ← sleep_del fuel pid s; ok (kill_result r, s1)

unfoldable pub kill_from : ℕ → ℕ → ℕ → Sched → Outcome (ℤ × Sched)
unfolding find_pid kill_other fin_processus
kill_from fuel pid actif s =
    if (s.process actif).pid == pid
    then (do s1 ← fin_processus fuel (set_retval none actif s); ok (pos 0, s1))
    else kill_other fuel pid (find_pid s.process pid s.queue) s

unfoldable pub kill : ℕ → ℤ → Sched → Outcome (ℤ × Sched)
unfolding bad_pid kill_from
kill fuel pid s =
    if bad_pid pid || (number pid == 0)
    then ok (minus_one, s)
    else (do actif ← deref s.actif; kill_from fuel (number pid) actif s)

-- The walk along `suiv` through the sleepers.
unfoldable pub find_sleeper : ℕ → (ℕ → Process) → ℕ → Ptr → Outcome Ptr
find_sleeper zero process pid tmp = out_of_fuel
find_sleeper (suc fuel) process pid none = ok none
find_sleeper (suc fuel) process pid (some p) =
    let later = find_sleeper fuel process pid (process p).suiv in
    if (process p).pid == pid then ok (some p) else later

abbrev pub prio_or : Sched → Ptr → ℤ
prio_or s none = minus_one
prio_or s (some p) = to_int (s.process p).prio

-- getprio of a process that does not run.
unfoldable pub getprio_other : ℕ → ℕ → Ptr → Sched → Outcome ℤ
unfolding find_sleeper
getprio_other fuel pid (some p) s = ok (to_int (s.process p).prio)
getprio_other fuel pid none s = do
  found ← find_sleeper fuel s.process pid s.endormi_list
  ok (prio_or s found)

unfoldable pub getprio_from : ℕ → ℕ → ℕ → Sched → Outcome ℤ
unfolding find_pid getprio_other
getprio_from fuel pid actif s =
    if (s.process actif).pid == pid
    then ok (to_int (s.process actif).prio)
    else getprio_other fuel pid (find_pid s.process pid s.queue) s

unfoldable pub getprio : ℕ → ℤ → Sched → Outcome ℤ
unfolding bad_pid getprio_from
getprio fuel pid s =
    if bad_pid pid
    then ok minus_one
    else (do actif ← deref s.actif; getprio_from fuel (number pid) actif s)

abbrev pub head? : List ℕ → Ptr
head? [] = none
head? (x ∷ xs) = some x

-- The element of the queue behind `e`.
unfoldable pub after : ℕ → List ℕ → Ptr
after e [] = none
after e (x ∷ []) = none
after e (x ∷ y ∷ xs) = if x == e then some y else after e (y ∷ xs)

-- The loop of chprio over the queue: an element that is taken out and put back goes on from its new
-- place.
unfoldable pub requeue_loop : ℕ → ℕ → ℕ → Ptr → ℤ → Sched → Outcome (ℤ × Sched)
unfolding queue_add queue_del after
requeue_loop zero pid newprio tmp oldprio s = out_of_fuel
requeue_loop (suc fuel) pid newprio none oldprio s = ok (oldprio, s)
requeue_loop (suc fuel) pid newprio (some tmp) oldprio s =
    let hit = (do
      s1 ← queue_del tmp s
      s2 ← queue_add tmp (set_prio newprio tmp s1)
      requeue_loop fuel pid newprio (after tmp s2.queue) (to_int (s1.process tmp).prio) s2) in
    let miss = requeue_loop fuel pid newprio (after tmp s.queue) oldprio s in
    if (s.process tmp).pid == pid then hit else miss

-- The loop of chprio over the sleepers.
unfoldable pub resleep_loop : ℕ → ℕ → ℕ → Ptr → ℤ → Sched → Outcome (ℤ × Sched)
resleep_loop zero pid newprio tmp oldprio s = out_of_fuel
resleep_loop (suc fuel) pid newprio none oldprio s = ok (oldprio, s)
resleep_loop (suc fuel) pid newprio (some tmp) oldprio s =
    let hit =
      resleep_loop fuel pid newprio (s.process tmp).suiv (to_int (s.process tmp).prio)
        (set_prio newprio tmp s) in
    let miss = resleep_loop fuel pid newprio (s.process tmp).suiv oldprio s in
    if (s.process tmp).pid == pid then hit else miss

unfoldable pub bad_prio : ℤ → Bool
bad_prio (pos n) = ltb n 1 || ltb max_prio n
bad_prio (negsuc n) = true

-- The change itself, before ordonnance.
unfoldable pub chprio_from : ℕ → ℕ → ℕ → ℕ → Sched → Outcome (ℤ × Sched)
unfolding requeue_loop resleep_loop
chprio_from fuel pid newprio actif s =
    if (s.process actif).pid == pid
    then ok (to_int (s.process actif).prio, set_prio newprio actif s)
    else (do
      (old, s1) ← requeue_loop fuel pid newprio (head? s.queue) minus_one s
      resleep_loop fuel pid newprio s1.endormi_list old s1)

unfoldable pub chprio : ℕ → ℤ → ℤ → Sched → Outcome (ℤ × Sched)
unfolding bad_pid bad_prio chprio_from ordonnance
chprio fuel pid newprio s = if bad_pid pid || bad_prio newprio then ok (minus_one, s) else (do
  actif ← deref s.actif
  (oldprio, s1) ← chprio_from fuel (number pid) (number newprio) actif s
  s2 ← ordonnance fuel s1
  ok (oldprio, s2))
