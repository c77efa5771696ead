-- ===== src/Tests.antt =====
-- The theorems on the message queues, the hash table, the screen, the clock and the program break at
-- concrete states.
use mathlib.Core.Bool.{false≢true}
use projet_pcsea.Common.{
  ℕ, ◌+◌, ◌-◌, ◌^◌, ◌≤◌, ◌<◌, ◌≡◌, refl, ◌≢◌, ◌⊎◌, inl, inr, true, false, ◌==◌, if◌then◌else◌,
  Option, some, none, [], ◌∷◌, arith,
}
use projet_pcsea.Common.Int.{ℤ, pos, minus_one}
use projet_pcsea.Common.Outcome.{ok, Returns}
use projet_pcsea.Proc.State.{Ptr, Process, Sched, activable, unset}
use projet_pcsea.Fifo.{Store}
use projet_pcsea.Fifo.Ring.{IsFifo}
use projet_pcsea.Message.{
  FifoMessages, Messages, Called, pcreate, psend, preceive, pdelete, invalid,
}
use projet_pcsea.Message.Blocking.{WaitsAlone, preceive-WaitsAlone, Waits, Blocked, psend-Waits}
use projet_pcsea.Proc.System.{Settled}
use projet_pcsea.Message.Buffer.{BufferOk, Put, Got}
use projet_pcsea.Message.Exchange.{AtOnce, Only, Ready, psend-Put, preceive-first}
use projet_pcsea.Message.Create.{AllUsed, Opened, pcreate-Opened}
use projet_pcsea.Message.Release.{pdelete-endless}
use projet_pcsea.Hash.{sl_active, HashMap, empty_slot, hash_set, hash_get}
use projet_pcsea.Hash.Lookup.{hash_set-get}
use projet_pcsea.Display.{Display, traite_car}
use projet_pcsea.Display.Cursor.{Inside, traite_car-Inside}
use projet_pcsea.Clock.{Time, count_tick, seconds, count_tick-seconds}
use projet_pcsea.Sbrk.{sbrk, sbrk-grows}

-- An allocator that hands out ever higher addresses, and keeps the next one.
abbrev bump : ℕ → ℕ → Ptr × ℕ
bump size next = (some next, next + size)

abbrev free : ℕ → ℕ → ℕ → ℕ
free a size next = next

-- Processes 3 and 4 wait, in the cells 20 and 10.
abbrev waiting : Store ℕ
waiting = record {
  cell = λ a.
      if a == 10
      then record { process = 4; next = some 20 }
      else record { process = 3; next = some 10 };
  allocator = 100;
}

waiting-IsFifo : IsFifo waiting.cell (some 10) (20 ∷ 10 ∷ [])
waiting-IsFifo = (20 ∷ [], refl, (refl, refl), refl)

abbrev idle : Process
idle = record {
  pid = 0;
  name = [];
  state = activable;
  esp = 0;
  exec_stack = λ _. unset;
  time_to_wake = 0;
  prio = 1;
  suiv = none;
  premier_fils = none;
  dernier_fils = none;
  pere = none;
  frere_droit = none;
  retval = none;
  retval_fils = none;
  pid_ret_fils = minus_one;
}

abbrev system : Sched
system = record {
  process = λ p. record idle { pid = p };
  actif = some 2;
  queue = [];
  process_alive = 3;
  endormi_list = none;
  endormi_tail = none;
  dead_list = none;
  dead_tail = none;
  nb_tick = 0;
  switches = [];
}

-- A queue of size 3 with the messages 7 and 8, the first in the last place of the array.
abbrev two_messages : FifoMessages
two_messages = record {
  consum = none;
  prod = none;
  tab_at = some 50;
  tab_messages = λ i. if i == 2 then pos 7 else pos 8;
  size = 3;
  nb_element = 2;
  down = 2;
  fid = 1;
  used = true;
}

abbrev kernel : Messages ℕ
kernel = record {
  sched = system;
  store = waiting;
  fifo_tab = λ i. if i == 1 then two_messages else record two_messages { used = false };
  should_receive_negative_one = none;
}

two_messages-BufferOk : BufferOk two_messages
two_messages-BufferOk = record {
  tab = 50;
  allocated = refl;
  inside = omega arith;
  fits = omega arith;
  whole = omega arith;
}

kernel-Ready : Ready (pos 1) 2 kernel
unfolding invalid
kernel-Ready = record {
  valid = refl;
  caller = refl;
  refused = refl;
  buffer = two_messages-BufferOk;
  no_consum = refl;
  no_prod = refl;
}

pcreate-Opened_example :
    ((pcreate bump free (pos 5) kernel ≡ (minus_one, kernel)) × AllUsed 10 0 kernel.fifo_tab)
    ⊎ Opened 5 2 kernel (pcreate bump free (pos 5) kernel)
pcreate-Opened_example =
    pcreate-Opened bump free 5 2 100 kernel (omega arith) (omega arith) refl refl refl

psend-Put_example :
    Returns {A = Called ℤ ℕ}
      (AtOnce λ r m'. (r ≡ pos 0) × Put two_messages (pos 9) (m'.fifo_tab 1) × Only 1 kernel m')
      (psend bump free 1 (pos 1) (pos 9) kernel)
psend-Put_example = psend-Put bump free 0 (pos 1) (pos 9) 2 kernel kernel-Ready (omega arith)

preceive-first_example :
    Returns {A = Called (ℤ × Option ℤ) ℕ}
      (AtOnce λ r m'.
        (r.0 ≡ pos 0)
        × (r.1 ≡ some (pos 7))
        × Got two_messages (pos 8 ∷ []) (m'.fifo_tab 1)
        × Only 1 kernel m')
      (preceive bump free 1 (pos 1) kernel)
preceive-first_example =
    preceive-first bump free 0 (pos 1) (pos 7) (pos 8 ∷ []) 2 kernel kernel-Ready refl

abbrev awaited : Messages ℕ
awaited = record kernel { fifo_tab = λ i. record two_messages { prod = some 10 } }

pdelete-endless_example : pdelete bump free 9 (pos 1) awaited ≢ ok (pos 0, kernel)
unfolding invalid
pdelete-endless_example = pdelete-endless bump free 9 (pos 1) awaited (pos 0, kernel) refl refl

abbrev small_map : HashMap
small_map = record {
  fill = 1;
  count = 1;
  mask = 7;
  table_at = 40;
  table = λ i.
      if i == 5 then record { key = 13; value = 1; hash = 13; mode = sl_active } else empty_slot;
  hfunc = λ k. k;
  cmp = λ a b. a == b;
}

hash_set-get_example :
    Returns {A = ℤ × Option HashMap × ℕ}
      (λ out. (out.0 ≡ pos 0) × (hash_get 4 out.1 21 0 ≡ ok 33))
      (hash_set bump free 4 (some small_map) 21 33 100)
hash_set-get_example =
    hash_set-get bump free 4 1 21 33 0 small_map 100 refl (omega arith)
      (record { not_full = omega arith; not_sparse = inl (omega arith) })

abbrev at_end : Display
at_end = record { cell = λ i. i; curs_lig_pos = 24; curs_col_pos = 79; ports = [] }

abbrev at_start : Display
at_start = record { cell = λ i. i; curs_lig_pos = 3; curs_col_pos = 79; ports = [] }

traite_car-Inside_example : Inside (traite_car 65 at_start)
traite_car-Inside_example =
    traite_car-Inside 65 at_start (omega arith, omega arith, omega arith) (inl (omega arith))

abbrev one_minute : Time
one_minute = record { sec = 59; min = 0; hour = 0 }

count_tick-seconds_example :
    (seconds (count_tick 6000 one_minute) ≡ 60)
    × ((count_tick 6000 one_minute).sec < 60)
    × ((count_tick 6000 one_minute).min < 60)
count_tick-seconds_example =
    count_tick-seconds 5999 one_minute (omega arith) (omega arith) (omega arith) refl

sbrk-grows_example :
    ((sbrk 8192 (pos 16) 4096 ≡ (2 ^ 32 - 1, 4096)) × (8192 < 4112))
    ⊎ ((sbrk 8192 (pos 16) 4096 ≡ (4096, 4112)) × (4112 ≤ 8192))
sbrk-grows_example = sbrk-grows 8192 16 4096 (omega arith) (omega arith) (omega arith)

-- Process 2 runs and 0 is ready; the queue is full, and 3 and 4 wait to send.
abbrev crowded : Messages ℕ
crowded = record kernel {
  sched = record system { queue = 0 ∷ [] };
  fifo_tab = λ i. record two_messages { consum = some 10; size = 2; down = 1 };
}

abbrev crowded-Settled : Settled crowded.sched []
crowded-Settled = record {
  running = 2;
  before = record {
    ready = record { runs = refl; sorted = (tt, tt); distinct = (refl, tt); out = refl };
    sleepers = record { chain = refl; tail = refl; distinct = tt };
    waking = tt;
    asleep = λ y i. absurd (false≢true i);
    awake = λ y i. refl;
    idle = inr refl;
    later = λ i. absurd (false≢true i);
  };
  running_awake = refl;
  highest = (omega arith, tt);
}

psend-Waits_example :
    Returns {A = Called ℤ ℕ}
      (Blocked λ p m'. (p ≡ 2) × Waits 1 2 (20 ∷ 10 ∷ []) 100 [] crowded m')
      (psend bump free 2 (pos 1) (pos 9) crowded)
unfolding invalid
psend-Waits_example =
    psend-Waits bump free 0 (pos 1) (pos 9) crowded (20 ∷ 10 ∷ []) [] 100 108 crowded-Settled
      (λ e. ground arith) refl refl waiting-IsFifo refl refl

-- The queue is empty, and 3 and 4 wait to receive.
abbrev starving : Messages ℕ
starving = record crowded {
  fifo_tab = λ i. record two_messages { consum = none; prod = some 10; nb_element = 0 };
}

preceive-WaitsAlone_example :
    Returns {A = Called (ℤ × Option ℤ) ℕ}
      (Blocked λ p m'. (p ≡ 2) × WaitsAlone 1 2 100 [] starving m')
      (preceive bump free 2 (pos 1) starving)
unfolding invalid
preceive-WaitsAlone_example =
    preceive-WaitsAlone bump free 0 (pos 1) starving [] 100 108 crowded-Settled (λ e. ground arith)
      refl refl refl refl
