-- ===== src/Proc/State.antt =====
-- kernel/proc.h and the globals of kernel/proc.c. A `struct Process *` always points into the table
-- `process`, so a pointer is an index of it, or NULL.
use projet_pcsea.Common.{
  ℕ, ◌-◌, ◌%◌, ◌^◌, Bool, true, false, ◌==◌, ltb, if◌then◌else◌, Option, none, some, List,
}
use projet_pcsea.Common.Int.{ℤ, pos, negsuc}
use projet_pcsea.Common.Outcome.{Outcome, ok, fault}

abbrev pub Ptr : Type 0
Ptr = Option ℕ

abbrev pub stack_size_integer : ℕ
stack_size_integer = 4096

abbrev pub process_table_size : ℕ
process_table_size = 30

abbrev pub max_prio : ℕ
max_prio = 256

-- The bytes of `name`, with the final 0.
abbrev pub name_size : ℕ
name_size = 15

-- `enum process_state`
pub data ProcessState : Type 0 where
  elu activable endormi mort zombie semaphore : ProcessState

abbrev pub is_endormi : ProcessState → Bool
is_endormi endormi = true
is_endormi _ = false

abbrev pub is_zombie : ProcessState → Bool
is_zombie zombie = true
is_zombie _ = false

abbrev pub is_mort : ProcessState → Bool
is_mort mort = true
is_mort _ = false

-- A word of `exec_stack`: an address of code, the address of fin_processus, an argument.
pub data Word : Type 0 where
  unset : Word
  code : ℕ → Word
  fin : Word
  argument : ℕ → Word

-- `struct Process`, less `my_link`, which is the queue's. `esp` is `regs[1]`, as an index of
-- `exec_stack`; the other registers are only moved by ctx_sw. `time_to_wake` is a double that holds
-- whole numbers below 2^32. A pointer to a returned value is here what it points at: the frame of a
-- process that has ended, on whose stack nothing runs.
pub record Process : Type 0 where
  pub pid : ℕ
  pub name : List ℕ
  pub state : ProcessState
  pub esp : ℕ
  pub exec_stack : ℕ → Word
  pub time_to_wake : ℕ
  pub prio : ℕ
  pub suiv : Ptr
  pub premier_fils : Ptr
  pub dernier_fils : Ptr
  pub pere : Ptr
  pub frere_droit : Ptr
  pub retval : Option ℤ
  pub retval_fils : Option ℤ
  pub pid_ret_fils : ℤ

-- The globals. `queue` is what the queue at `head_queue` holds, from `next` on. `switches` are the
-- calls of ctx_sw, as the pids of the two processes, the latest first.
pub record Sched : Type 0 where
  pub process : ℕ → Process
  pub actif : Ptr
  pub queue : List ℕ
  pub process_alive : ℕ
  pub endormi_list : Ptr
  pub endormi_tail : Ptr
  pub dead_list : Ptr
  pub dead_tail : Ptr
  pub nb_tick : ℕ
  pub switches : List (ℕ × ℕ)

-- A NULL pointer faults: the first page is not mapped.
abbrev pub deref : Ptr → Outcome ℕ
deref none = fault
deref (some p) = ok p

abbrev pub is_null : Ptr → Bool
is_null none = true
is_null (some p) = false

abbrev pub ptr_eq : Ptr → Ptr → Bool
ptr_eq none none = true
ptr_eq none (some q) = false
ptr_eq (some p) none = false
ptr_eq (some p) (some q) = p == q

-- A write of one field of a process.
unfoldable pub with_state : ProcessState → Process → Process
with_state v p = record p { state = v }

unfoldable pub with_suiv : Ptr → Process → Process
with_suiv v p = record p { suiv = v }

unfoldable pub with_prio : ℕ → Process → Process
with_prio v p = record p { prio = v }

unfoldable pub with_time : ℕ → Process → Process
with_time v p = record p { time_to_wake = v }

unfoldable pub with_pere : Ptr → Process → Process
with_pere v p = record p { pere = v }

unfoldable pub with_frere_droit : Ptr → Process → Process
with_frere_droit v p = record p { frere_droit = v }

unfoldable pub with_premier_fils : Ptr → Process → Process
with_premier_fils v p = record p { premier_fils = v }

unfoldable pub with_dernier_fils : Ptr → Process → Process
with_dernier_fils v p = record p { dernier_fils = v }

unfoldable pub with_retval : Option ℤ → Process → Process
with_retval v p = record p { retval = v }

unfoldable pub with_retval_fils : Option ℤ → Process → Process
with_retval_fils v p = record p { retval_fils = v }

unfoldable pub with_pid_ret_fils : ℤ → Process → Process
with_pid_ret_fils v p = record p { pid_ret_fils = v }

-- `p->field = v`
abbrev pub modify : (Process → Process) → ℕ → Sched → Sched
modify f p s = record s { process = λ q. if q == p then f (s.process q) else s.process q }

abbrev pub set_state : ProcessState → ℕ → Sched → Sched
set_state v = modify (with_state v)

abbrev pub set_suiv : Ptr → ℕ → Sched → Sched
set_suiv v = modify (with_suiv v)

abbrev pub set_prio : ℕ → ℕ → Sched → Sched
set_prio v = modify (with_prio v)

abbrev pub set_time : ℕ → ℕ → Sched → Sched
set_time v = modify (with_time v)

abbrev pub set_pere : Ptr → ℕ → Sched → Sched
set_pere v = modify (with_pere v)

abbrev pub set_frere_droit : Ptr → ℕ → Sched → Sched
set_frere_droit v = modify (with_frere_droit v)

abbrev pub set_premier_fils : Ptr → ℕ → Sched → Sched
set_premier_fils v = modify (with_premier_fils v)

abbrev pub set_dernier_fils : Ptr → ℕ → Sched → Sched
set_dernier_fils v = modify (with_dernier_fils v)

abbrev pub set_retval : Option ℤ → ℕ → Sched → Sched
set_retval v = modify (with_retval v)

abbrev pub set_retval_fils : Option ℤ → ℕ → Sched → Sched
set_retval_fils v = modify (with_retval_fils v)

abbrev pub set_pid_ret_fils : ℤ → ℕ → Sched → Sched
set_pid_ret_fils v = modify (with_pid_ret_fils v)

-- The priority of each process, as the queue reads it.
abbrev pub prios : Sched → ℕ → ℕ
prios s p = (s.process p).prio

-- `int` to `uint32_t`, and back.
abbrev pub to_u32 : ℤ → ℕ
to_u32 (pos n) = n % 2 ^ 32
to_u32 (negsuc n) = 2 ^ 32 - 1 - n % 2 ^ 32

abbrev pub to_int : ℕ → ℤ
to_int w = if ltb w (2 ^ 31) then pos w else negsuc (2 ^ 32 - w - 1)
