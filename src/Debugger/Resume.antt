-- ===== src/Debugger/Resume.antt =====
-- trap_handler of kernel/debugger.c: what it leaves to the task that was interrupted.
use projet_pcsea.Common.{
  ℕ, zero, suc, ◌≤◌, ◌≡◌, ◌≢◌, refl, Bool, true, false, not, ◌==◌, ltb, Bool-cases, inl, inr,
  if◌then◌else◌, arith, ap, ◌∙◌, List, [], ◌∷◌, ◌++◌, ◌&&◌, All, replicate,
}
use projet_pcsea.Segments.Tables.{X86Tss}
use projet_pcsea.Debugger.Paging.{Client, copy_client_paging_registers}
use projet_pcsea.Debugger.{
  GdbState, GdbAction, gdb_more, gdb_cont, gdb_run, gdb_kill, gdb_detach, Ended, resumed, rebooted,
  waits, signal, load_state, after_converse, debugger, after_keys, trap_handler,
}
use projet_pcsea.Debugger.Dump.{Video, dump_registers}
use projet_pcsea.Debugger.Dump.Shown.{dump_registers-Dumped}
use projet_pcsea.Debugger.Keys.{
  Mode, polling, space_held, leave_held, debug_held, left, debugging, rebooting, Console, put_back,
  toggle, react, key, keys,
}

abbrev Same : Video → Video → Type 0
Same v w = (a : ℕ) → v a ≡ w a

-- While the handler shows the registers, `d` says which of the two screens there is; once it is about to
-- leave, the screen is the one from before. Behind the screen nothing changes.
module _ (dump : Video → Video) (video_mem : Video)
    (outside : (v : Video) (a : ℕ) → 4000 ≤ a → dump v a ≡ v a) where
  abbrev pub Own : Mode → Console → Type 0
  Own polling k =
      (k.d ≡ false → Same k.screen video_mem) × ((a : ℕ) → 4000 ≤ a → k.screen a ≡ video_mem a)
  Own space_held k =
      (k.d ≡ false → Same k.screen video_mem) × ((a : ℕ) → 4000 ≤ a → k.screen a ≡ video_mem a)
  Own leave_held k = Same k.screen video_mem
  Own debug_held k = Same k.screen video_mem
  Own left k = Same k.screen video_mem
  Own debugging k = Same k.screen video_mem
  Own rebooting k = Unit {0}

  restored :
      (v : Video) → ((a : ℕ) → 4000 ≤ a → v a ≡ video_mem a) → Same (put_back video_mem v) video_mem
  restored v h a = elim (Bool-cases (ltb a 4000)) [
    | inl e ↦ rw e refl
    | inr e ↦ rw e (h a (ground arith))
  ]

  false_screen : (v : Video) → true ≡ false → Same v video_mem
  false_screen v e = cc

  toggled :
      (d : Bool) (v : Video)
      → ((a : ℕ) → 4000 ≤ a → v a ≡ video_mem a)
      → (d ≡ false → Same (if d then dump v else put_back video_mem v) video_mem)
        × ((a : ℕ) → 4000 ≤ a → (if d then dump v else put_back video_mem v) a ≡ video_mem a)
  toggled true v h = (λ e. false_screen _ e, λ a l. outside v a l ∙ h a l)
  toggled false v h = (λ e. restored v h, λ a l. restored v h a)

  react-Own :
      (c : ℕ) (k : Console)
      → Own polling k
      → Own (react dump video_mem c k).mode (react dump video_mem c k)
  unfolding react toggle
  react-Own c k (s, h) = elim (Bool-cases (c == 0x39)) [
    | inl a ↦ rw a (toggled (not k.d) k.screen h)
    | inr a ↦ elim (Bool-cases (c == 1)) [
      | inl b ↦ rw (a, b) tt
      | inr b ↦ elim (Bool-cases (c == 0x17)) [
        | inl f ↦ rw (a, b, f) (restored k.screen h)
        | inr f ↦ elim (Bool-cases (c == 0x20)) [
          | inl g ↦ rw (a, b, f, g) (restored k.screen h)
          | inr g ↦ rw (a, b, f, g) (s, h)
        ]
      ]
    ]
  ]

  key-Own :
      (c : ℕ) (m : Mode) (k : Console)
      → Own m k
      → Own (key dump video_mem c m k).mode (key dump video_mem c m k)
  unfolding key
  key-Own c polling k h = react-Own c k h
  key-Own c space_held k h = elim (Bool-cases (c == 0x39)) [ inl e ↦ rw e h | inr e ↦ rw e h ]
  key-Own c leave_held k h = elim (Bool-cases (c == 0x17)) [ inl e ↦ rw e h | inr e ↦ rw e h ]
  key-Own c debug_held k h = elim (Bool-cases (c == 0x20)) [ inl e ↦ rw e h | inr e ↦ rw e h ]
  key-Own c left k h = h
  key-Own c debugging k h = h
  key-Own c rebooting k h = h

  keys-Own :
      (cs : List ℕ) (k : Console)
      → Own k.mode k
      → Own (keys dump video_mem cs k).mode (keys dump video_mem cs k)
  unfolding keys
  keys-Own [] k h = h
  keys-Own (c ∷ cs) k h = keys-Own cs (key dump video_mem c k.mode k) (key-Own c k.mode k h)

-- Keys that trap_handler does not act on.
abbrev idle : ℕ → Bool
idle c = not (c == 0x39) && not (c == 1) && not (c == 0x17) && not (c == 0x20)

module _ (dump : Video → Video) (video_mem : Video) (d : Bool) (v : Video) where
  abbrev in_mode : Mode → Console
  in_mode m = record { mode = m; d = d; screen = v }

  react-idle : (c : ℕ) → idle c ≡ true → react dump video_mem c (in_mode polling) ≡ in_mode polling
  unfolding react
  react-idle c h =
      let a : (c == 0x39) ≡ false = ground arith in
      let b : (c == 1) ≡ false = ground arith in
      let e : (c == 0x17) ≡ false = ground arith in
      let f : (c == 0x20) ≡ false = ground arith in rw (a, b, e, f) refl

  keys-idle :
      (cs ds : List ℕ)
      → All (λ c. idle c ≡ true) cs
      → keys dump video_mem (cs ++ ds) (in_mode polling) ≡ keys dump video_mem ds (in_mode polling)
  unfolding keys key
  keys-idle [] ds h = refl
  keys-idle (c ∷ cs) ds h =
      ap (keys dump video_mem (cs ++ ds)) (react-idle c h.0) ∙ keys-idle cs ds h.1

  keys-held :
      (n c : ℕ)
      → (c == 0x17) ≡ false
      → keys dump video_mem (replicate n 0x17 ++ (c ∷ [])) (in_mode leave_held) ≡ in_mode left
  unfolding keys key
  keys-held zero c h = rw h refl
  keys-held (suc n) c h = keys-held n c h

abbrev pub stays_on : GdbAction → Bool → Bool
stays_on gdb_detach do_debug = false
stays_on gdb_more do_debug = do_debug
stays_on gdb_cont do_debug = do_debug
stays_on gdb_run do_debug = do_debug
stays_on gdb_kill do_debug = do_debug

module _ {S : Type 0}
    (converse : ℕ → GdbState → Client → Video → S → GdbAction × GdbState × Video × S) (text : ℕ → ℕ)
    (cr0 cr4 trapno error_code address : ℕ) (t : X86Tss) (screen : Video) (s : S) where
  -- The screen that the task finds when it goes on is `screen`, and behind it nothing changes.
  abbrev pub ScreenKept : Ended S → Type 0
  ScreenKept (resumed do_debug t' v s') = (a : ℕ) → v a ≡ screen a
  ScreenKept rebooted = Unit {0}
  ScreenKept (waits v) = (a : ℕ) → 4000 ≤ a → v a ≡ screen a

  -- What the remote debugger sends does not write to the screen.
  abbrev pub LeavesScreen : Type 0
  LeavesScreen =
      (signo : ℕ) (state : GdbState) (client : Client) (v : Video) (r : S) (a : ℕ)
      → (converse signo state client v r).2 a ≡ v a

  after_converse-ScreenKept :
      (action : GdbAction) (state : GdbState) (do_debug : Bool) (v : Video) (s' : S)
      → ((a : ℕ) → v a ≡ screen a)
      → ScreenKept (after_converse converse text cr0 cr4 action state do_debug t v s')
  unfolding after_converse
  after_converse-ScreenKept gdb_more state do_debug v s' h = h
  after_converse-ScreenKept gdb_cont state do_debug v s' h = h
  after_converse-ScreenKept gdb_run state do_debug v s' h = h
  after_converse-ScreenKept gdb_kill state do_debug v s' h = tt
  after_converse-ScreenKept gdb_detach state do_debug v s' h = h

  debugger-ScreenKept :
      LeavesScreen
      → (do_debug : Bool) (v : Video) → ((a : ℕ) → v a ≡ screen a)
      → ScreenKept (debugger converse text cr0 cr4 trapno do_debug t v s)
  unfolding debugger
  debugger-ScreenKept leaves_screen do_debug v h =
      let r =
        converse (signal trapno) (load_state t) (copy_client_paging_registers cr0 t.cr3 cr4) v s in
      after_converse-ScreenKept r.0 r.1 do_debug r.2 r.3
        (λ a. leaves_screen (signal trapno) (load_state t) _ v s a ∙ h a)

  -- The task segment `t'` has the registers of the remote debugger, and of `t` those that it does not
  -- know.
  abbrev pub Registers : GdbState → X86Tss → Type 0
  Registers state t' =
      (load_state t' ≡ state)
      × (t'.back_link ≡ t.back_link)
      × (t'.esp0 ≡ t.esp0)
      × (t'.ss0 ≡ t.ss0)
      × (t'.esp1 ≡ t.esp1)
      × (t'.ss1 ≡ t.ss1)
      × (t'.esp2 ≡ t.esp2)
      × (t'.ss2 ≡ t.ss2)
      × (t'.cr3 ≡ t.cr3)
      × (t'.ldt ≡ t.ldt)
      × (t'.trace_trap ≡ t.trace_trap)
      × (t'.io_bit_map_offset ≡ t.io_bit_map_offset)

  -- The task goes on with the registers `state`, the debugger stays on but for a detach; a kill starts
  -- the machine again.
  abbrev pub GoesOn : GdbAction → GdbState → Bool → S → Ended S → Type 0
  GoesOn action state do_debug s' (resumed still t' v s1) =
      Registers state t' × (action ≢ gdb_kill) × (still ≡ stays_on action do_debug) × (s1 ≡ s')
  GoesOn action state do_debug s' rebooted = action ≡ gdb_kill
  GoesOn action state do_debug s' (waits v) = ⊥

  abbrev dump : Video → Video
  dump = dump_registers text trapno error_code address t

  dump-outside : (v : Video) (a : ℕ) → 4000 ≤ a → dump v a ≡ v a
  dump-outside v a h = (dump_registers-Dumped text trapno error_code address t v).outside a h

  abbrev start : Console
  start = record { mode = polling; d = true; screen = dump screen }

  after_keys-ScreenKept :
      LeavesScreen
      → (m : Mode) (k : Console) → Own dump screen dump-outside m k
      → ScreenKept (after_keys converse text cr0 cr4 trapno t s m k.screen)
  unfolding after_keys
  after_keys-ScreenKept quiet polling k h = h.1
  after_keys-ScreenKept quiet space_held k h = h.1
  after_keys-ScreenKept quiet leave_held k h = λ a l. h a
  after_keys-ScreenKept quiet debug_held k h = λ a l. h a
  after_keys-ScreenKept quiet left k h = h
  after_keys-ScreenKept quiet debugging k h = debugger-ScreenKept quiet true k.screen h
  after_keys-ScreenKept quiet rebooting k h = tt

  -- Whatever keys are pressed, trap_handler leaves the screen as it was before the exception when it goes
  -- back to the task, provided that the remote debugger does not write to the screen.
  pub trap_handler-ScreenKept :
      LeavesScreen
      → (do_debug : Bool) (cs : List ℕ)
      → ScreenKept
          (trap_handler converse text cr0 cr4 trapno error_code address t do_debug cs screen s)
  unfolding trap_handler
  trap_handler-ScreenKept quiet true cs = debugger-ScreenKept quiet true screen (λ a. refl)
  trap_handler-ScreenKept quiet false cs =
      let own : Own dump screen dump-outside polling start =
        (λ e. false_screen dump screen dump-outside _ e, dump-outside screen) in
      let k = keys dump screen cs start in
      after_keys-ScreenKept quiet k.mode k (keys-Own dump screen dump-outside cs start own)

  -- Where no debugger works, the key with code 0x17, held for a while and let go, makes trap_handler go
  -- back to the task with its registers as they were, whatever other keys without an effect came first.
  pub trap_handler-leaves :
      (cs : List ℕ) (n c : ℕ)
      → All (λ c. idle c ≡ true) cs
      → (c == 0x17) ≡ false
      → trap_handler converse text cr0 cr4 trapno error_code address t false
          (cs ++ (0x17 ∷ (replicate n 0x17 ++ (c ∷ []))))
          screen
          s
        ≡ resumed false t (put_back screen (dump screen)) s
  unfolding trap_handler
  trap_handler-leaves cs n c idle_keys released =
      ap (λ k. after_keys converse text cr0 cr4 trapno t s k.mode k.screen)
        (keys-idle dump screen true (dump screen) cs _ idle_keys
          ∙ keys-held dump screen true (put_back screen (dump screen)) n c released)
