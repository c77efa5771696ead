-- ===== src/Debugger.antt =====
-- kernel/debugger.c: what the task of an exception does. It shows the registers on the screen and waits
-- for keys, or lets a remote debugger work on the task that was interrupted.
pub mod Paging
pub mod Dump
pub mod Keys
pub mod Resume
pub mod Task
mod Tests
use Prim.Native.Nat.{bit_and}
use projet_pcsea.Common.{
  ℕ, ◌+◌, ◌*◌, ◌%◌, ◌/◌, ◌^◌, Bool, true, false, ◌==◌, if◌then◌else◌, List, [], ◌∷◌,
}
use projet_pcsea.Segments.Tables.{X86Tss}
use projet_pcsea.Debugger.Paging.{Client, copy_client_paging_registers}
use projet_pcsea.Debugger.Dump.{Video, dump_registers}
use projet_pcsea.Debugger.Keys.{
  Mode, polling, space_held, leave_held, debug_held, left, debugging, rebooting, Console, keys,
}

-- `struct gdb_state`
pub record GdbState : Type 0 where
  pub eax : ℕ
  pub ecx : ℕ
  pub edx : ℕ
  pub ebx : ℕ
  pub esp : ℕ
  pub ebp : ℕ
  pub esi : ℕ
  pub edi : ℕ
  pub eip : ℕ
  pub eflags : ℕ
  pub cs : ℕ
  pub ss : ℕ
  pub ds : ℕ
  pub es : ℕ
  pub fs : ℕ
  pub gs : ℕ

pub data GdbAction : Type 0 where
  gdb_more gdb_cont gdb_run gdb_kill gdb_detach : GdbAction

abbrev pub sigill : ℕ
sigill = 4

abbrev pub sigtrap : ℕ
sigtrap = 5

abbrev pub sigfpe : ℕ
sigfpe = 8

abbrev pub sigsegv : ℕ
sigsegv = 11

-- Is the number among these?
abbrev pub one_of : List ℕ → ℕ → Bool
one_of [] n = false
one_of (x ∷ xs) n = if n == x then true else one_of xs n

-- The first switch of debugger.
unfoldable pub signal : ℕ → ℕ
signal trapno =
    if one_of (0 ∷ 4 ∷ 5 ∷ 7 ∷ 8 ∷ 9 ∷ 15 ∷ []) trapno
    then sigfpe
    else (if one_of (1 ∷ 3 ∷ []) trapno
        then sigtrap
        else (if one_of (10 ∷ 11 ∷ 12 ∷ 13 ∷ 14 ∷ []) trapno then sigsegv else sigill))

unfoldable pub load_state : X86Tss → GdbState
load_state t = record {
  eax = t.eax;
  ecx = t.ecx;
  edx = t.edx;
  ebx = t.ebx;
  esp = t.esp;
  ebp = t.ebp;
  esi = t.esi;
  edi = t.edi;
  eip = t.eip;
  eflags = t.eflags;
  cs = t.cs;
  ss = t.ss;
  ds = t.ds;
  es = t.es;
  fs = t.fs;
  gs = t.gs;
}

unfoldable pub store_state : GdbState → X86Tss → X86Tss
store_state state t = record t {
  eax = state.eax;
  ecx = state.ecx;
  edx = state.edx;
  ebx = state.ebx;
  esp = state.esp;
  ebp = state.ebp;
  esi = state.esi;
  edi = state.edi;
  eip = state.eip;
  eflags = state.eflags;
  cs = state.cs;
  ss = state.ss;
  ds = state.ds;
  es = state.es;
  fs = state.fs;
  gs = state.gs;
}

-- tss_sel_2_tss, over the descriptors of `gdt`: bytes 2 to 4 and byte 7 of an entry.
unfoldable pub tss_sel_2_tss : (ℕ → ℕ) → ℕ → ℕ
tss_sel_2_tss gdt sel =
    let pdesc = gdt (sel / 2 ^ 3) in
    bit_and (pdesc / 2 ^ 16 % 2 ^ 32) 0xffffff + pdesc / 2 ^ 56 % 2 ^ 8 * 2 ^ 24

-- Where the interrupted task is, from the selector in tr; `tss_at` is what lies at an address.
unfoldable pub interrupted : (ℕ → ℕ) → (ℕ → X86Tss) → ℕ → ℕ
unfolding tss_sel_2_tss
interrupted gdt tss_at tr = tss_sel_2_tss gdt (tss_at (tss_sel_2_tss gdt tr)).back_link

-- How trap_handler ends: it goes back to the task, whose segment is given with the flag do_debug, the
-- screen and what the debugger works on; the machine starts again; or it waits for more keys.
pub data Ended (S : Type 0) : Type 0 where
  resumed : Bool → X86Tss → Video → S → Ended S
  rebooted : Ended S
  waits : Video → Ended S

-- gdb_serial_converse is a parameter: from the signal, the registers and the paging registers of the
-- program, the screen, and the rest `S` of the memory its result, the new registers, the new screen and
-- the new rest. The remote debugger can write any memory.
module _ {S : Type 0}
    (gdb_serial_converse : ℕ → GdbState → Client → Video → S → GdbAction × GdbState × Video × S)
    (task_dump_screen : ℕ → ℕ) (cr0 cr4 : ℕ) where
  -- The second switch of debugger, and what follows.
  unfoldable pub after_converse : GdbAction → GdbState → Bool → X86Tss → Video → S → Ended S
  unfolding store_state
  after_converse gdb_more state do_debug t screen s =
      resumed do_debug (store_state state t) screen s
  after_converse gdb_cont state do_debug t screen s =
      resumed do_debug (store_state state t) screen s
  after_converse gdb_run state do_debug t screen s = resumed do_debug (store_state state t) screen s
  after_converse gdb_kill state do_debug t screen s = rebooted
  after_converse gdb_detach state do_debug t screen s = resumed false (store_state state t) screen s

  unfoldable pub debugger : ℕ → Bool → X86Tss → Video → S → Ended S
  unfolding signal load_state after_converse
  debugger trapno do_debug t screen s0 =
      let client = copy_client_paging_registers cr0 t.cr3 cr4 in
      let (action, state, screen1, s) =
        gdb_serial_converse (signal trapno) (load_state t) client screen s0 in
      after_converse action state do_debug t screen1 s

  -- What follows the loop over the keys.
  unfoldable pub after_keys : ℕ → X86Tss → S → Mode → Video → Ended S
  unfolding debugger
  after_keys trapno t s polling screen = waits screen
  after_keys trapno t s space_held screen = waits screen
  after_keys trapno t s leave_held screen = waits screen
  after_keys trapno t s debug_held screen = waits screen
  after_keys trapno t s left screen = resumed false t screen s
  after_keys trapno t s debugging screen = debugger trapno true t screen s
  after_keys trapno t s rebooting screen = rebooted

  -- `cs` are the bytes that port 0x60 gives, one after the other; `t` is the task segment of the
  -- interrupted task, at `address`.
  unfoldable pub trap_handler : ℕ → ℕ → ℕ → X86Tss → Bool → List ℕ → Video → S → Ended S
  unfolding dump_registers keys after_keys debugger
  trap_handler trapno error_code address t do_debug cs screen s =
      let dump = dump_registers task_dump_screen trapno error_code address t in
      let k = keys dump screen cs (record { mode = polling; d = true; screen = dump screen }) in
      if do_debug
      then debugger trapno do_debug t screen s
      else after_keys trapno t s k.mode k.screen
