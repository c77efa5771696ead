-- ===== src/Proc/Tests.antt =====
-- The theorems on kernel/proc.c at concrete systems.
use projet_pcsea.Common.{ℕ, ◌≡◌, refl, ◌==◌, if◌then◌else◌, some, none, [], ◌∷◌, arith}
use projet_pcsea.Common.Int.{ℤ, pos, minus_one}
use projet_pcsea.Common.Outcome.{Returns}
use projet_pcsea.Proc.State.{set_prio, Process, Sched, activable, endormi, zombie, unset}
use projet_pcsea.Proc.Lists.{insert_endormi}
use projet_pcsea.Proc.Schedule.{elect, ordonnance, fin_processus}
use projet_pcsea.Proc.Calls.{start, chprio}
use projet_pcsea.Proc.Sleepers.{Sleepers}
use projet_pcsea.Proc.Sleep.{Asleep, insert_endormi-Asleep}
use projet_pcsea.Proc.Elect.{Ready, Elected, elect-Elected}
use projet_pcsea.Proc.Ordonnance.{Ordered, ordonnance-Ordered}
use projet_pcsea.Proc.End.Father.{Ended, fin_processus-Ended}
use projet_pcsea.Proc.Start.{Started, start-Started}
use projet_pcsea.Proc.Priority.{chprio-Ordered}

-- Process i has priority i. Process 5 has the father 0 and the child 6, which is a zombie; 3 and 4
-- sleep, until ticks 5 and 9.
abbrev pub proc : ℕ → Process
proc i = record {
  pid = i;
  name = [];
  state =
      if i == 6 then zombie else if i == 3 then endormi else if i == 4 then endormi else activable;
  esp = 0;
  exec_stack = λ _. unset;
  time_to_wake = if i == 3 then 5 else 9;
  prio = i;
  suiv = if i == 3 then some 4 else none;
  premier_fils = if i == 5 then some 6 else none;
  dernier_fils = if i == 5 then some 6 else none;
  pere = if i == 5 then some 0 else none;
  frere_droit = none;
  retval = none;
  retval_fils = none;
  pid_ret_fils = minus_one;
}

-- Process 5 runs at tick 7.
abbrev pub sys : Sched
sys = record {
  process = proc;
  actif = some 5;
  queue = 1 ∷ 2 ∷ [];
  process_alive = 7;
  endormi_list = some 3;
  endormi_tail = some 4;
  dead_list = none;
  dead_tail = none;
  nb_tick = 7;
  switches = [];
}

sys-Ready : Ready sys 5
sys-Ready = record {
  runs = refl;
  sorted = ((omega arith, tt), (tt, tt));
  distinct = (refl, (refl, tt));
  out = refl;
}

sys-Sleepers : Sleepers sys (3 ∷ 4 ∷ [])
sys-Sleepers = record { chain = (refl, (refl, refl)); tail = refl; distinct = (refl, (refl, tt)) }

elect-Elected_example : Returns (Elected sys 5) (elect sys)
elect-Elected_example = elect-Elected sys 5 sys-Ready

ordonnance-Ordered_example : Returns (Ordered sys 5) (ordonnance 2 sys)
ordonnance-Ordered_example =
    ordonnance-Ordered 0 sys 5 (3 ∷ 4 ∷ []) sys-Ready sys-Sleepers (omega arith, refl)

insert_endormi-Asleep_example : Returns (Asleep sys 5 7 (3 ∷ 4 ∷ [])) (insert_endormi 3 5 7 sys)
insert_endormi-Asleep_example =
    insert_endormi-Asleep 3 5 7 sys (3 ∷ 4 ∷ []) sys-Sleepers refl (omega arith)

fin_processus-Ended_example : Returns (Ended sys 5 1 (2 ∷ []) (6 ∷ [])) (fin_processus 2 sys)
fin_processus-Ended_example =
    fin_processus-Ended 1 5 0 1 (2 ∷ []) (6 ∷ []) sys refl refl refl (refl, tt) (λ h. h)
      (refl, refl) refl (omega arith) (omega arith) (omega arith)

start-Started_example :
    Returns (Started sys 7 9 (pos 300) (65 ∷ []) 4) (start 9 512 (pos 300) (65 ∷ []) 4 sys)
start-Started_example =
    start-Started 9 512 (pos 300) (65 ∷ []) 4 sys (omega arith) (omega arith) refl (omega arith)
      (omega arith) refl (λ h. refl)

abbrev behind : Sched
behind = record sys { process_alive = 2 }

chprio-Ordered_example :
    Returns {A = ℤ × Sched}
      (λ out. (out.0 ≡ pos 5) × ((out.1.process 5).prio ≡ 1) × Ordered (set_prio 1 5 sys) 5 out.1)
      (chprio 2 (pos 5) (pos 1) sys)
chprio-Ordered_example =
    chprio-Ordered 0 5 1 5 sys (3 ∷ 4 ∷ []) sys-Ready refl (omega arith) (omega arith) (omega arith)
      sys-Sleepers (omega arith, refl)
