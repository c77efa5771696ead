-- ===== src/Proc/Elect.antt =====
-- The choice of the next process in ordonnance of kernel/proc.c.
pub mod Framed
use mathlib.Core.Path.{subst}
use mathlib.Core.Bool.{false≢true}
use projet_pcsea.Common.{
  ◌∙◌, ℕ, ◌≤◌, ◌≡◌, refl, ◌≢◌, true, false, ◌==◌, ==_iff, ==_refl, ==_ne, Bool-cases, inl, inr,
  some, none, List, [], ◌∷◌, mem, ◌⊎◌, mem-ne, Distinct, All, arith, sym,
}
use projet_pcsea.Common.Outcome.{ok, ◌>>=◌, Returns}
use projet_pcsea.Queue.Spec.{
  insert, rest, last, top, IsSorted, last-greatest, All-le, mem-last, mem-rest, mem-insert,
  insert-IsSorted, rest-IsSorted, rest-Distinct, mem-rest-last, All-rest, Distinct-insert,
  All-insert,
}
use projet_pcsea.Proc.State.{deref, Sched, with_suiv, set_suiv, prios, is_endormi}
use projet_pcsea.Proc.Activable.{
  activated, insert_activable_lem, extract_activable_lem, prios-activated, prios-modify,
}
use projet_pcsea.Proc.Schedule.{beats, must_switch, choose, hand_over, switch_to, elect_from, elect}

-- The process `a` runs, and the queue is in order, without repetition and without `a`.
pub record Ready (s : Sched) (a : ℕ) : Type 0 where
  pub runs : s.actif ≡ some a
  pub sorted : IsSorted (prios s) s.queue
  pub distinct : Distinct s.queue
  pub out : mem a s.queue ≡ false

-- No ready process has a higher priority than `a`.
abbrev pub Highest : Sched → ℕ → Type 0
Highest s a = All (λ y. prios s y ≤ prios s a) s.queue

-- `choose` keeps the running process only if nothing in the queue is as high.
All-le_top :
    (s : Sched) (a : ℕ) (xs : List ℕ)
    → IsSorted (prios s) xs
    → beats s a (top xs) ≡ false
    → All (λ y. prios s y ≤ prios s a) xs
All-le_top s a [] o h = tt
All-le_top s a (x ∷ xs) o h =
    All-le (prios s) (prios s (last x xs)) (prios s a) (x ∷ xs) (ground arith)
      (last-greatest (prios s) x xs o)

hand_over-stay :
    (s : Sched) (a pid : ℕ)
    → hand_over pid a a s
      ≡ ok (record s { actif = some a; switches = (pid, (s.process a).pid) ∷ s.switches })
unfolding hand_over
hand_over-stay s a pid = ground arith

hand_over-asleep :
    (s : Sched) (a k pid : ℕ)
    → is_endormi (s.process a).state ≡ true
    → hand_over pid a k s
      ≡ ok (record s { actif = some k; switches = (pid, (s.process k).pid) ∷ s.switches })
unfolding hand_over
hand_over-asleep s a k pid e = ground arith

hand_over-awake :
    (s : Sched) (a k pid : ℕ)
    → is_endormi (s.process a).state ≡ false
    → a ≢ k
    → mem a s.queue ≡ false
    → hand_over pid a k s
      ≡ ok (record (activated a s) {
        actif = some k;
        switches = (pid, (s.process k).pid) ∷ s.switches;
      })
unfolding hand_over
hand_over-awake s a k pid e ne out = rw (e, ==_ne ne, insert_activable_lem, out)

-- What elect promises: process `b` runs, no ready process is above it, and none is lost; the process
-- that ran before is still ready, unless it runs on or sleeps. No priority changes.
pub record Elected (s : Sched) (a : ℕ) (s' : Sched) : Type 0 where
  pub chosen : ℕ
  pub ready : Ready s' chosen
  pub highest : Highest s' chosen
  pub kept : (y : ℕ) → mem y s.queue ≡ true → (y ≡ chosen) ⊎ (mem y s'.queue ≡ true)
  pub old : (is_endormi (s.process a).state ≡ false) → (a ≡ chosen) ⊎ (mem a s'.queue ≡ true)
  pub same_prios : prios s' ≡ prios s

elect-stay :
    (s : Sched) (a : ℕ)
    → Ready s a
    → must_switch a s ≡ false
    → Returns (Elected s a) (elect_from a s)
unfolding elect_from choose
elect-stay s a r stay =
    rw (stay, switch_to)
      (rw (hand_over-stay s a (s.process a).pid) (record {
        chosen = a;
        ready = record { runs = refl; sorted = r.sorted; distinct = r.distinct; out = r.out };
        highest = unfold must_switch in All-le_top s a s.queue r.sorted stay;
        kept = λ y m. inr m;
        old = λ e. inl refl;
        same_prios = refl;
      }))

module _ (s : Sched) (a x : ℕ) (xs : List ℕ) (q : s.queue ≡ x ∷ xs) (r : Ready s a)
    (wins : must_switch a s ≡ true) where
  abbrev k : ℕ
  k = last x xs

  -- the state after extract_activable
  abbrev taken : Sched
  taken = set_suiv none k (record s { queue = rest (x ∷ xs) })

  -- The facts of `Ready` and of the test, at the queue as it is written here.
  out : mem a (x ∷ xs) ≡ false
  out = subst (λ l. mem a l ≡ false) q r.out

  distinct : Distinct (x ∷ xs)
  distinct = subst Distinct q r.distinct

  sorted : IsSorted (prios s) (x ∷ xs)
  sorted = subst (IsSorted (prios s)) q r.sorted

  beaten : beats s a (some k) ≡ true
  unfolding must_switch
  beaten = subst (λ l. beats s a (top l) ≡ true) q wins

  prios-taken : prios taken ≡ prios s
  unfolding with_suiv
  prios-taken = prios-modify (with_suiv none) k (record s { queue = rest (x ∷ xs) }) (λ v. refl)

  a-ne-k : a ≢ k
  a-ne-k e = mem-ne k a (x ∷ xs) (mem-last x xs) out (sym e)

  state-taken : (taken.process a).state ≡ (s.process a).state
  unfolding with_suiv
  state-taken = ground arith

  -- What the queue without its last element has.
  IsSorted-rest : IsSorted (prios s) (rest (x ∷ xs))
  IsSorted-rest = rest-IsSorted (prios s) (x ∷ xs) sorted

  highest_rest : All (λ y. prios s y ≤ prios s k) (rest (x ∷ xs))
  highest_rest =
      All-rest (λ y. prios s y ≤ prios s k) (x ∷ xs) (last-greatest (prios s) x xs sorted)

  kept_rest : (y : ℕ) → mem y s.queue ≡ true → (y ≡ k) ⊎ (mem y (rest (x ∷ xs)) ≡ true)
  kept_rest y m =
      let m' : mem y (x ∷ xs) ≡ true = subst (λ l. mem y l ≡ true) q m in
      elim (Bool-cases (y == k)) [
        | inl same ↦ inl ((==_iff y k).0 same)
        | inr other ↦ inr (rw (mem-rest-last x y xs distinct, other) m')
      ]

  elect-asleep : is_endormi (s.process a).state ≡ true → Returns (Elected s a) (elect_from a s)
  unfolding elect_from choose
  elect-asleep e =
      rw (wins, extract_activable_lem s x xs q, switch_to)
        (rw (hand_over-asleep taken a k (s.process a).pid (rw state-taken e)) (record {
          chosen = k;
          ready = record {
            runs = refl;
            sorted = rw prios-taken IsSorted-rest;
            distinct = rest-Distinct x xs distinct;
            out = rw (mem-rest-last x k xs distinct, ==_refl k);
          };
          highest = rw prios-taken highest_rest;
          kept = kept_rest;
          old = λ f. cc (e, f);
          same_prios = prios-taken;
        }))

  out_rest : mem a (rest (x ∷ xs)) ≡ false
  out_rest = mem-rest a (x ∷ xs) out

  a-le-k : is_endormi (s.process a).state ≡ false → prios s a ≤ prios s k
  a-le-k e = let b : beats s a (some k) ≡ true = beaten in ground arith

  kept_insert :
      (y : ℕ)
      → (y ≡ k) ⊎ (mem y (rest (x ∷ xs)) ≡ true)
      → (y ≡ k) ⊎ (mem y (insert (prios taken) a (rest (x ∷ xs))) ≡ true)
  kept_insert y (inl h) = inl h
  kept_insert y (inr h) = inr (ground (arith, mem-insert (prios taken) a y (rest (x ∷ xs))))

  elect-awake : is_endormi (s.process a).state ≡ false → Returns (Elected s a) (elect_from a s)
  unfolding elect_from choose
  elect-awake e =
      rw (wins, extract_activable_lem s x xs q, switch_to)
        (rw (hand_over-awake taken a k (s.process a).pid (rw state-taken e) a-ne-k out_rest)
          (record {
            chosen = k;
            ready = record {
              runs = refl;
              sorted =
                  rw (prios-activated a taken, prios-taken)
                    (insert-IsSorted (prios s) a (rest (x ∷ xs)) IsSorted-rest);
              distinct = rw prios-taken (
                  Distinct-insert (prios s) a (rest (x ∷ xs)) (rest-Distinct x xs distinct)
                    out_rest);
              out = rw (
                mem-insert (prios taken) a k (rest (x ∷ xs)),
                mem-rest-last x k xs distinct,
                ==_refl k,
                ==_ne (λ h. a-ne-k (sym h)),
              );
            };
            highest =
                rw (prios-activated a taken, prios-taken)
                  (All-insert (λ y. prios s y ≤ prios s k) (prios s) a (rest (x ∷ xs)) (a-le-k e)
                    highest_rest);
            kept = λ y m. kept_insert y (kept_rest y m);
            old = λ f. inr (rw (mem-insert (prios taken) a a (rest (x ∷ xs)), ==_refl a));
            same_prios = prios-activated a taken ∙ prios-taken;
          }))

elect_from-Elected :
    (s : Sched) (a : ℕ) (l : List ℕ)
    → s.queue ≡ l
    → Ready s a
    → must_switch a s ≡ true
    → Returns (Elected s a) (elect_from a s)
unfolding must_switch
elect_from-Elected s a [] q r wins =
    absurd (false≢true (subst (λ l. beats s a (top l) ≡ true) q wins))
elect_from-Elected s a (x ∷ xs) q r wins = elim (Bool-cases (is_endormi (s.process a).state)) [
  | inl e ↦ elect-asleep s a x xs q r wins e
  | inr e ↦ elect-awake s a x xs q r wins e
]

-- If the queue is in order, elect chooses a process such that none in the queue has a higher
-- priority; it keeps the queue in order and loses no ready process: the one that ran goes back to
-- the queue, unless it runs on or sleeps.
pub elect-Elected : (s : Sched) (a : ℕ) → Ready s a → Returns (Elected s a) (elect s)
unfolding elect
elect-Elected s a r =
    subst (λ p. Returns (Elected s a) (deref p >>= λ actif. elect_from actif s)) (sym r.runs)
      (elim (Bool-cases (must_switch a s)) [
        | inl wins ↦ elect_from-Elected s a s.queue refl r wins
        | inr stay ↦ elect-stay s a r stay
      ])
