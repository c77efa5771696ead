-- ===== src/Clock.antt =====
-- kernel/clock.c: the clock of the screen, and the interrupt that counts the ticks. sprintf is a
-- parameter: the characters that it makes of the hours, the minutes and the seconds.
use projet_pcsea.Common.{
  ℕ, suc, ◌+◌, ◌*◌, ◌-◌, ◌%◌, ◌/◌, ◌^◌, ◌≤◌, ◌<◌, ◌≡◌, false, ◌==◌, ltb, Bool-cases, inl, inr,
  if◌then◌else◌, List, [], ◌∷◌, arith, ◌∙◌,
}
use projet_pcsea.Common.Outcome.{Outcome, ok, ◌>>=◌}
use projet_pcsea.Proc.State.{Sched}
use projet_pcsea.Proc.Schedule.{ordonnance, sleep_until}
use projet_pcsea.Display.{Display, ecrit_car, outb}

abbrev pub clockfreq : ℕ
clockfreq = 100

abbrev pub schedfreq : ℕ
schedfreq = 50

-- The counters.
pub record Time : Type 0 where
  pub sec : ℕ
  pub min : ℕ
  pub hour : ℕ

pub record Clock : Type 0 where
  pub time : Time
  pub display : Display
  pub sched : Sched

-- The counters after change_clock; 32-bit words.
unfoldable pub carry : Time → Time
carry t =
    let new_minute = t.sec / 60 in
    let sec = t.sec - new_minute * 60 in
    let min = (t.min + new_minute) % 2 ^ 32 in
    let new_hour = min / 60 in
    let min1 = min - new_hour * 60 in
    let hour = (t.hour + new_hour) % 2 ^ 32 in
    if ltb 99 hour
    then record { hour = 99; min = 59; sec = 59 }
    else record { hour = hour; min = min1; sec = sec }

-- The part of tic_PIT_CLOCK between the count and ordonnance, for the counters.
unfoldable pub count_tick : ℕ → Time → Time
unfolding carry
count_tick nb_tick t =
    if nb_tick % clockfreq == 0 then carry (record t { sec = (t.sec + 1) % 2 ^ 32 }) else t

module _ (sprintf : ℕ → ℕ → ℕ → List ℕ) where
  -- The nine bytes of `time`, the final 0 included.
  abbrev pub write_time : ℕ → List ℕ → Display → Display
  write_time i [] d = d
  write_time i (c ∷ cs) d = write_time (suc i) cs (ecrit_car 0 (71 + i) c 15 0 0 d)

  unfoldable pub affiche_clock : Time → Display → Display
  affiche_clock t d = write_time 0 (sprintf t.hour t.min t.sec) d

  unfoldable pub tic_pit_clock : ℕ → Clock → Outcome Clock
  unfolding affiche_clock count_tick ordonnance
  tic_pit_clock fuel k =
      let nb_tick = (k.sched.nb_tick + 1) % 2 ^ 32 in
      let time = count_tick nb_tick k.time in
      let d1 = outb 0x20 0x20 k.display in
      let d2 = if nb_tick % clockfreq == 0 then affiche_clock time d1 else d1 in
      do
        s ← ordonnance fuel (record k.sched { nb_tick = nb_tick })
        ok (record { time = time; display = d2; sched = s })

-- The argument of sleep_until is in ticks, the one of wait_clock is divided by their frequency.
unfoldable pub wait_clock : ℕ → ℕ → Sched → Outcome Sched
unfolding sleep_until
wait_clock fuel clock s = sleep_until fuel (clock / clockfreq) s

unfoldable pub current_clock : Clock → ℕ
current_clock k = k.sched.nb_tick

-- The seconds that the clock shows.
abbrev pub seconds : Time → ℕ
seconds t = t.hour * 3600 + t.min * 60 + t.sec

carry-seconds :
    (t : Time)
    → t.sec ≤ 60
    → t.min < 60
    → seconds t < 360000
    → (seconds (carry t) ≡ seconds t) × ((carry t).sec < 60) × ((carry t).min < 60)
unfolding carry
carry-seconds t hs hm h = elim (Bool-cases (ltb t.sec 60)) [
  | inl e ↦
      let q : t.sec / 60 ≡ 0 = ground arith in
      let w : (t.min + 0) % 2 ^ 32 ≡ t.min = ground arith in
      let q2 : t.min / 60 ≡ 0 = ground arith in
      let w2 : (t.hour + 0) % 2 ^ 32 ≡ t.hour = ground arith in
      let l : ltb 99 t.hour ≡ false = ground arith in
      rw (q, w, q2, w2, l) (ground arith, ground arith, ground arith)
  | inr e ↦
      let q : t.sec / 60 ≡ 1 = ground arith in
      let w : (t.min + 1) % 2 ^ 32 ≡ t.min + 1 = ground arith in
      elim (Bool-cases (ltb t.min 59)) [
        | inl f ↦
            let q2 : (t.min + 1) / 60 ≡ 0 = ground arith in
            let w2 : (t.hour + 0) % 2 ^ 32 ≡ t.hour = ground arith in
            let l : ltb 99 t.hour ≡ false = ground arith in
            rw (q, w, q2, w2, l) (ground arith, ground arith, ground arith)
        | inr f ↦
            let q2 : (t.min + 1) / 60 ≡ 1 = ground arith in
            let w2 : (t.hour + 1) % 2 ^ 32 ≡ t.hour + 1 = ground arith in
            let l : ltb 99 (t.hour + 1) ≡ false = ground arith in
            rw (q, w, q2, w2, l) (ground arith, ground arith, ground arith)
      ]
]

-- A clock that shows the whole seconds of `nb_tick` ticks, less than a hundred hours, shows those of
-- one tick more after that tick, with its minutes and seconds below 60.
pub count_tick-seconds :
    (nb_tick : ℕ) (t : Time)
    → t.sec < 60
    → t.min < 60
    → nb_tick + 1 < 36000000
    → seconds t ≡ nb_tick / 100
    → (seconds (count_tick (nb_tick + 1) t) ≡ (nb_tick + 1) / 100)
      × ((count_tick (nb_tick + 1) t).sec < 60)
      × ((count_tick (nb_tick + 1) t).min < 60)
unfolding count_tick
count_tick-seconds nb_tick t hs hm small h = elim (Bool-cases ((nb_tick + 1) % 100 == 0)) [
  | inl e ↦
      let w : (t.sec + 1) % 2 ^ 32 ≡ t.sec + 1 = ground arith in
      let n : (nb_tick + 1) / 100 ≡ nb_tick / 100 + 1 = ground arith in
      let c = carry-seconds (record t { sec = t.sec + 1 }) (ground arith) hm (ground arith) in
      rw (e, w) (c.0 ∙ ground arith, c.1, c.2)
  | inr e ↦ rw e (ground arith, hs, hm)
]
