-- ===== src/Proc/Sleep.antt =====
-- insert_endormi of kernel/proc.c.
pub mod Place
use mathlib.Core.Path.{subst}
use projet_pcsea.Common.{
  ℕ, zero, suc, ◌<◌, ◌≡◌, refl, ◌≢◌, Bool, true, false, ◌==◌, ltb, ◌||◌, Bool-cases, inl, inr,
  if◌then◌else◌, some, none, List, [], Option, ◌∷◌, ◌++◌, mem, mem-ne, Distinct, arith, ap, sym,
  ◌∙◌, length,
}
use projet_pcsea.Common.Outcome.{ok, ◌>>=◌, Returns}
use projet_pcsea.Queue.Spec.{last, mem-last}
use projet_pcsea.Proc.State.{
  Ptr, Process, Sched, endormi, deref, is_null, with_suiv, with_state, with_time, set_suiv,
  set_state, set_time,
}
use projet_pcsea.Proc.Lists.{endormi_loop, close_endormi, insert_endormi}
use projet_pcsea.Proc.Sleepers.{IsChain, IsChain-frame, Sleepers}
use projet_pcsea.Proc.Sleep.Place.{
  times, wake_insert, place, linked, endormi_loop_lem, place-mem, IsChain-placed, wake_insert-last,
  last-wake_insert, last-append, suiv-last, IsChain-end, IsChain-append, mem-wake_insert,
  wake_insert-Distinct,
}

-- The state in which insert_endormi looks for the place.
abbrev pub drowsy : ℕ → ℕ → Sched → Sched
drowsy e time s = set_state endormi e (set_time time e s)

drowsy-Sleepers :
    (s : Sched) (e time : ℕ) (xs : List ℕ) → Sleepers s xs → Sleepers (drowsy e time s) xs
unfolding with_state with_time
drowsy-Sleepers s e time xs l = record {
  chain =
      IsChain-frame s.process (drowsy e time s).process s.endormi_list xs (λ y h. ground arith)
        l.chain;
  tail = l.tail;
  distinct = l.distinct;
}

-- What insert_endormi promises: the sleepers are those of before and the new one, at its place, and
-- the rest of the system is as before.
pub record Asleep (s : Sched) (e time : ℕ) (xs : List ℕ) (s' : Sched) : Type 0 where
  pub sleepers : Sleepers s' (wake_insert (times (drowsy e time s)) e xs)
  pub state : (s'.process e).state ≡ endormi
  pub time_set : (s'.process e).time_to_wake ≡ time
  pub queue : s'.queue ≡ s.queue
  pub actif : s'.actif ≡ s.actif
  pub others :
      (y : ℕ)
      → y ≢ e
      → ((s'.process y).state ≡ (s.process y).state)
        × ((s'.process y).prio ≡ (s.process y).prio)
        × ((s'.process y).time_to_wake ≡ (s.process y).time_to_wake)
        × ((s'.process y).pid ≡ (s.process y).pid)
  pub tick : s'.nb_tick ≡ s.nb_tick

close-added :
    (e k : ℕ) (s : Sched)
    → s.endormi_tail ≡ some k
    → close_endormi e (true, s) ≡ ok (set_suiv none k s)
unfolding close_endormi
close-added e k s h = ap (λ p. deref p >>= λ tail. ok (set_suiv none tail s)) h

close-behind :
    (e k : ℕ) (s : Sched)
    → s.endormi_tail ≡ some k
    → close_endormi e (false, s)
      ≡ ok (set_suiv none e (record (set_suiv (some e) k s) { endormi_tail = some e }))
unfolding close_endormi
close-behind e k s h =
    ap
      (λ p.
        (do tail ← deref p; ok (record (set_suiv (some e) tail s) { endormi_tail = some e }))
        >>= λ s1. deref s1.endormi_tail >>= λ tail. ok (set_suiv none tail s1))
      h

module _ (s : Sched) (e time x : ℕ) (xs : List ℕ) (l : Sleepers s (x ∷ xs))
    (out : mem e (x ∷ xs) ≡ false) where
  abbrev t : ℕ → ℕ
  t = times (drowsy e time s)

  abbrev d : Sched
  d = drowsy e time s

  -- in front of all others
  abbrev first : Sched
  first = set_suiv (some x) e (record d { endormi_list = some e })

  still : Sleepers d (x ∷ xs)
  still = drowsy-Sleepers s e time (x ∷ xs) l

  IsChain-first : IsChain first.process (some e) (e ∷ x ∷ xs)
  unfolding with_suiv
  IsChain-first = (
    refl,
    (
      ground arith,
      (IsChain-frame d.process first.process (some x) (x ∷ xs)
          (λ y h. ground (arith, mem-ne y e (x ∷ xs) h out)) (refl, still.chain.1)).1,
    ),
  )

  Asleep-first :
      ltb (t e) (t x) ≡ true → Returns (Asleep s e time (x ∷ xs)) (close_endormi e (true, first))
  unfolding with_suiv with_state with_time wake_insert
  Asleep-first hit = rw (close-added e (last x xs) first l.tail) (record {
    sleepers = rw hit (record {
      chain = IsChain-end first e (x ∷ xs) (some e) IsChain-first;
      tail = l.tail;
      distinct = (out, l.distinct);
    });
    state = ground arith;
    time_set = ground arith;
    queue = refl;
    actif = refl;
    others = λ y ne. ground arith;
    tick = refl;
  })

  all-Distinct : Distinct (wake_insert t e (x ∷ xs))
  all-Distinct = wake_insert-Distinct t e (x ∷ xs) l.distinct out

  Asleep-later :
      ltb (t e) (t x) ≡ false
      → (o : Option (ℕ × ℕ)) → place t e x xs ≡ o
      → Returns (Asleep s e time (x ∷ xs)) (close_endormi e (linked e d o))
  unfolding with_suiv with_state with_time wake_insert
  Asleep-later pass none h = rw (close-behind e (last x xs) d l.tail) (record {
    sleepers =
        rw (pass, wake_insert-last t e x xs h)
          (record {
            chain = (still.chain.0, IsChain-append d e x xs out still.distinct still.chain.1);
            tail = rw (last-append x e xs);
            distinct = rw (pass, wake_insert-last t e x xs h) at all-Distinct;
          });
    state = ground arith;
    time_set = ground arith;
    queue = refl;
    actif = refl;
    others = λ y ne. ground arith;
    tick = refl;
  })
  Asleep-later pass (some (q, y)) h =
      let m : Sched = (linked e d (some (q, y))).1 in
      rw (close-added e (last x xs) m l.tail) (record {
        sleepers = rw pass (record {
          chain =
              subst
                (λ k. IsChain (set_suiv none k m).process m.endormi_list (x ∷ wake_insert t e xs))
                (last-wake_insert t e x xs q y h)
                (IsChain-end m x (wake_insert t e xs) m.endormi_list (
                  still.chain.0,
                  IsChain-placed d e x q y xs t h out still.distinct still.chain.1,
                ));
          tail = l.tail ∙ ap some (sym (last-wake_insert t e x xs q y h));
          distinct = rw pass at all-Distinct;
        });
        state = ground arith;
        time_set = ground arith;
        queue = refl;
        actif = refl;
        others = λ z ne. ground arith;
        tick = refl;
      })

-- insert_endormi returns, and puts the process to sleep: it goes in front of the first sleeper that
-- wakes up later, and behind the last where there is none. The sleepers form a proper list with a
-- tail, the process is not among them, and the loop has more rounds than there are sleepers. The
-- queue, the running process, the clock, and the states, priorities and times of the others stay.
pub insert_endormi-Asleep :
    (fuel e time : ℕ) (s : Sched) (xs : List ℕ)
    → Sleepers s xs
    → mem e xs ≡ false
    → length xs < fuel
    → Returns (Asleep s e time xs) (insert_endormi fuel e time s)
unfolding insert_endormi with_suiv with_state with_time wake_insert
insert_endormi-Asleep fuel e time s [] l out h = rw (ap is_null l.tail) (record {
  sleepers = record { chain = (refl, ground arith); tail = refl; distinct = (refl, tt) };
  state = ground arith;
  time_set = ground arith;
  queue = refl;
  actif = refl;
  others = λ y ne. ground arith;
  tick = refl;
})
insert_endormi-Asleep zero e time s (x ∷ xs) l out h = absurd (omega arith)
insert_endormi-Asleep (suc fuel) e time s (x ∷ xs) l out h = rw (ap is_null l.tail) (
    subst
      (λ p.
        Returns (Asleep s e time (x ∷ xs))
          (endormi_loop (suc fuel) e p p true (drowsy e time s) >>= close_endormi e))
      (sym l.chain.0)
      (unfold endormi_loop in
        elim (Bool-cases (ltb (times (drowsy e time s) e) (times (drowsy e time s) x))) [
          | inl hit ↦ rw hit (Asleep-first s e time x xs l out hit)
          | inr pass ↦
              rw
                (
                  pass,
                  endormi_loop_lem fuel e x (drowsy e time s) xs (omega arith)
                      (still s e time x xs l out).chain.1,
                )
                (Asleep-later s e time x xs l out pass _ refl)
        ]))
