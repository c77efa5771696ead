-- ===== src/Proc/System/Tests.antt =====
-- The theorems on the state of the scheduler of kernel/proc.c at a concrete system.
use projet_pcsea.Common.{ℕ, ◌⊎◌, ◌≡◌, refl, inr, true, [], ◌∷◌, mem, arith}
use projet_pcsea.Common.Outcome.{Returns}
use projet_pcsea.Proc.Calls.{chprio, chprio_from}
use projet_pcsea.Proc.Lists.{
  close_endormi, endormi_loop, extract_activable, extract_endormi, insert_activable, insert_endormi,
  queue_add, queue_del, wake_loop, wake_process,
}
use projet_pcsea.Proc.Schedule.{
  choose, elect, elect_from, hand_over, must_switch, ordonnance, sleep_until, switch_to,
}
use projet_pcsea.Proc.System.Step.{do_priority, do_tick}
use projet_pcsea.Queue.Spec.{insert, rest}
use projet_pcsea.Proc.State.{with_suiv, with_state, with_prio, with_time}
use projet_pcsea.Proc.Tests.{sys, proc}
use projet_pcsea.Common.{◌==◌, if◌then◌else◌, some}
use projet_pcsea.Common.Outcome.{◌>>=◌}
use projet_pcsea.Proc.State.{mort}
use projet_pcsea.Proc.Schedule.{exit}
use projet_pcsea.Proc.End.Exit.{exit-waitpid}
use projet_pcsea.Proc.State.{Sched}
use projet_pcsea.Common.Int.{ℤ, pos, minus_one}
use projet_pcsea.Common.{Option, none, false}
use projet_pcsea.Common.Outcome.{ok}
use projet_pcsea.Proc.State.{zombie}
use projet_pcsea.Proc.Calls.{kill}
use projet_pcsea.Proc.Args.{OwnPids}
use projet_pcsea.Proc.Delete.{Gone}
use projet_pcsea.Proc.Kill.{kill-Settled, kill-Gone}
use projet_pcsea.Proc.Wait.{waitpid}
use projet_pcsea.Proc.Collect.Zombie.{first_zombie}
use projet_pcsea.Proc.Collect.{waitpid-refuses}
use projet_pcsea.Proc.System.{Before, Settled}
use projet_pcsea.Proc.System.Step.{tick, sleep, priority, do_call, run, Good}
use projet_pcsea.Proc.System.Calls.{run-Good}
use projet_pcsea.Proc.System.Wake.{Up}
use projet_pcsea.Proc.System.Progress.{ticks-Up}

-- At tick 9 process 5 runs, process 0 is idle and 1 and 2 are ready; 3 and 4 sleep, until ticks 5
-- and 9.
abbrev pub calm : Sched
calm = record sys { queue = 0 ∷ 1 ∷ 2 ∷ []; nb_tick = 9 }

calm-Before : Before calm 5 (3 ∷ 4 ∷ [])
calm-Before = record {
  ready = record {
    runs = refl;
    sorted = ((omega arith, (omega arith, tt)), ((omega arith, tt), (tt, tt)));
    distinct = (refl, (refl, (refl, tt)));
    out = refl;
  };
  sleepers = record { chain = (refl, (refl, refl)); tail = refl; distinct = (refl, (refl, tt)) };
  waking = ((omega arith, tt), (tt, tt));
  asleep = λ y i. ground arith;
  awake = λ y i. ground arith;
  idle = inr refl;
  later = λ i. ground arith;
}

pub calm-Settled : Settled calm (3 ∷ 4 ∷ [])
calm-Settled = record {
  running = 5;
  before = calm-Before;
  running_awake = refl;
  highest = (omega arith, (omega arith, (omega arith, tt)));
}

run-Good_example : Returns (Good 6) (run 20 (priority 1 ∷ tick ∷ sleep 13 ∷ tick ∷ []) calm)
unfolding do_call chprio chprio_from close_endormi endormi_loop extract_activable extract_endormi
    insert_activable insert_endormi queue_add queue_del wake_loop wake_process choose elect
    elect_from hand_over must_switch ordonnance sleep_until switch_to do_priority do_tick insert
    rest with_suiv with_state with_prio with_time
run-Good_example =
    run-Good 18 (priority 1 ∷ tick ∷ sleep 13 ∷ tick ∷ []) calm (3 ∷ 4 ∷ []) calm-Settled
      (tt, (tt, ((refl {a = false}, omega arith, omega arith), (tt, tt)))) (omega arith)

ticks-Up_example :
    Returns
      (λ s'. Settled s' [] × ((y : ℕ) → (mem y (3 ∷ 4 ∷ []) ≡ true) ⊎ Up calm y → Up s' y))
      (run 2 (tick ∷ tick ∷ []) calm)
ticks-Up_example =
    ticks-Up 0 calm (3 ∷ 4 ∷ []) calm-Settled (omega arith, (omega arith, tt)) (omega arith)

calm-OwnPids : OwnPids calm
calm-OwnPids p = refl

kill-Settled_example :
    Returns {A = ℤ × Sched}
      (λ out.
        (out.0 ≡ pos 0)
        × ((out.1.process 2).state ≡ zombie)
        × (mem 2 out.1.queue ≡ false)
        × Settled out.1 (3 ∷ 4 ∷ []))
      (kill 3 (pos 2) calm)
kill-Settled_example =
    kill-Settled 3 2 (3 ∷ 4 ∷ []) calm (omega arith) (omega arith) calm-OwnPids calm-Settled refl

kill-Gone_example :
    Returns {A = ℤ × Sched} (λ out. Gone (3 ∷ 4 ∷ []) 4 out.0 out.1) (kill 3 (pos 4) calm)
kill-Gone_example =
    kill-Gone 3 4 5 (3 ∷ 4 ∷ []) calm (omega arith) (omega arith) refl (λ e. ground arith)
      calm-OwnPids (λ h. h) calm-Before.sleepers refl refl (λ z i e. cc) (omega arith)

waitpid-refuses_example : waitpid (λ n s. s) 2 (pos 3) true calm ≡ ok (minus_one, none, calm)
waitpid-refuses_example =
    waitpid-refuses (λ n s. s) 2 3 5 true (6 ∷ []) calm refl (refl, refl) (λ c i e. ground arith)
      (omega arith)

-- Process 5 is the only child of process 0, which is ready.
abbrev family : Sched
family = record sys {
  process = λ p. if p == 0 then record (proc 0) { premier_fils = some 5 } else proc p;
  queue = 0 ∷ [];
}

exit-waitpid_example :
    Returns {A = ℤ × Option ℤ × Sched}
      (λ out.
        (out.0 ≡ pos 5)
        × (out.1 ≡ some (pos 42))
        × ((out.2.process 5).state ≡ mort)
        × (out.2.actif ≡ some 0))
      (exit 2 (pos 42) family >>= waitpid (λ n t. t) 1 minus_one true)
unfolding first_zombie
exit-waitpid_example =
    exit-waitpid (pos 42) 1 5 0 0 [] (6 ∷ []) (5 ∷ []) family refl refl refl (refl, tt) (λ h. h)
      (refl, refl) refl (omega arith) (omega arith) (omega arith) refl (refl, refl) refl
      (λ y i. ground arith) refl 1 (omega arith)
