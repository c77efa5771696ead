-- ===== src/Debugger/Keys.antt =====
-- kernel/debugger.c: the loop of trap_handler over the keys.
use projet_pcsea.Common.{ℕ, Bool, not, ◌==◌, ltb, if◌then◌else◌, List, [], ◌∷◌}
use projet_pcsea.Debugger.Dump.{Video}

-- How far trap_handler is in its loop. It waits for the key that it has acted on to be released.
pub data Mode : Type 0 where
  polling space_held leave_held debug_held left debugging rebooting : Mode

-- `d`, and the screen.
pub record Console : Type 0 where
  pub mode : Mode
  pub d : Bool
  pub screen : Video

-- `memcpy(screen_base, video_mem, sizeof(video_mem))`
abbrev pub put_back : Video → Video → Video
put_back video_mem screen = λ a. if ltb a 4000 then video_mem a else screen a

-- What the handler does at one byte `c` from port 0x60; `dump` is dump_registers.
module _ (dump : Video → Video) (video_mem : Video) where
  unfoldable pub toggle : Console → Console
  toggle k = record {
    mode = space_held;
    d = not k.d;
    screen = if not k.d then dump k.screen else put_back video_mem k.screen;
  }

  unfoldable pub react : ℕ → Console → Console
  unfolding toggle
  react c k =
      if c == 0x39
      then toggle k
      else (if c == 1
          then record k { mode = rebooting }
          else (if c == 0x17
              then record k { mode = leave_held; screen = put_back video_mem k.screen }
              else (if c == 0x20
                  then record k { mode = debug_held; screen = put_back video_mem k.screen }
                  else record k { mode = polling })))

  -- In mode `m`; the last three read no more keys.
  unfoldable pub key : ℕ → Mode → Console → Console
  unfolding react
  key c polling k = react c k
  key c space_held k = record k { mode = if c == 0x39 then space_held else polling }
  key c leave_held k = record k { mode = if c == 0x17 then leave_held else left }
  key c debug_held k = record k { mode = if c == 0x20 then debug_held else debugging }
  key c left k = record k { mode = left }
  key c debugging k = record k { mode = debugging }
  key c rebooting k = record k { mode = rebooting }

  unfoldable pub keys : List ℕ → Console → Console
  unfolding key
  keys [] k = k
  keys (c ∷ cs) k = keys cs (key c k.mode k)
