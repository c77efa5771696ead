-- ===== src/Proc/Elect/Framed.antt =====
-- What elect of kernel/proc.c leaves as it was: the sleepers, and all but two processes.
use mathlib.Core.Path.{subst}
use mathlib.Core.Bool.{false≢true}
use projet_pcsea.Common.{
  ℕ, ◌≡◌, refl, ◌≢◌, true, false, ◌==◌, ==_iff, ==_ne, ◌||◌, Bool-cases, inl, inr, some, List, [],
  ◌∷◌, mem, ◌⊎◌, arith, ap, sym, ◌∙◌,
}
use projet_pcsea.Common.Outcome.{◌>>=◌, Returns}
use projet_pcsea.Queue.Spec.{rest, last, top, mem-last, mem-rest, mem-insert}
use projet_pcsea.Proc.State.{deref, Sched, with_suiv, with_state, prios, is_endormi}
use projet_pcsea.Proc.Activable.{extract_activable_lem}
use projet_pcsea.Proc.Schedule.{must_switch, choose, switch_to, elect_from, elect, beats}
use projet_pcsea.Proc.Elect.{
  Ready, hand_over-stay, hand_over-asleep, hand_over-awake, taken, state-taken, a-ne-k, out_rest,
}

-- The process that elect chooses: a ready one, or the one that runs already.
abbrev pub From : Sched → ℕ → ℕ → Type 0
From s a b =
    (mem b s.queue ≡ true) ⊎ ((b ≡ a) × ((is_endormi (s.process a).state ≡ false) ⊎ (s.queue ≡ [])))

pub record Framed (s : Sched) (a : ℕ) (s' : Sched) : Type 0 where
  pub chosen : ℕ
  pub runs : s'.actif ≡ some chosen
  pub from : From s a chosen
  pub lists : (s'.endormi_list ≡ s.endormi_list) × (s'.endormi_tail ≡ s.endormi_tail)
  pub tick : s'.nb_tick ≡ s.nb_tick
  pub within :
      (y : ℕ)
      → mem y s'.queue ≡ true
      → (mem y s.queue ≡ true) ⊎ ((y ≡ a) × (is_endormi (s.process a).state ≡ false))
  pub untouched : (y : ℕ) → y ≢ a → mem y s.queue ≡ false → s'.process y ≡ s.process y
  pub self : is_endormi (s.process a).state ≡ true → s'.process a ≡ s.process a
  pub still_awake :
      (y : ℕ) → is_endormi (s.process y).state ≡ false → is_endormi (s'.process y).state ≡ false

stay-why :
    (s : Sched) (a : ℕ) (l : List ℕ)
    → s.queue ≡ l
    → must_switch a s ≡ false
    → (is_endormi (s.process a).state ≡ false) ⊎ (s.queue ≡ [])
unfolding must_switch
stay-why s a [] q stay = inr q
stay-why s a (x ∷ xs) q stay =
    let b : beats s a (some (last x xs)) ≡ false = subst (λ l. beats s a (top l) ≡ false) q stay in
    inl (ground arith)

elect-stay_Framed :
    (s : Sched) (a : ℕ) → must_switch a s ≡ false → Returns (Framed s a) (elect_from a s)
unfolding elect_from choose
elect-stay_Framed s a stay =
    rw (stay, switch_to)
      (rw (hand_over-stay s a (s.process a).pid) (record {
        chosen = a;
        runs = refl;
        from = inr (refl, stay-why s a s.queue refl stay);
        lists = (refl, refl);
        tick = refl;
        within = λ y m. inl m;
        untouched = λ y ne m. refl;
        self = λ e. refl;
        still_awake = λ y e. e;
      }))

module _ (s : Sched) (a x : ℕ) (xs : List ℕ) (q : s.queue ≡ x ∷ xs) (r : Ready s a)
    (wins : must_switch a s ≡ true) where
  abbrev k : ℕ
  k = last x xs

  in_queue : mem k s.queue ≡ true
  in_queue = subst (λ l. mem k l ≡ true) (sym q) (mem-last x xs)

  not_k : (y : ℕ) → mem y s.queue ≡ false → (y == k) ≡ false
  not_k y m = ==_ne (λ e. false≢true (sym m ∙ ap (λ p. mem p s.queue) e ∙ in_queue))

  rest_within : (y : ℕ) → mem y (rest (x ∷ xs)) ≡ true → mem y s.queue ≡ true
  rest_within y m = elim (Bool-cases (mem y (x ∷ xs))) [
    | inl i ↦ subst (λ l. mem y l ≡ true) (sym q) i
    | inr o ↦ absurd (false≢true (sym (mem-rest y (x ∷ xs) o) ∙ m))
  ]

  elect-asleep_Framed :
      is_endormi (s.process a).state ≡ true → Returns (Framed s a) (elect_from a s)
  unfolding elect_from choose with_suiv
  elect-asleep_Framed e =
      rw (wins, extract_activable_lem s x xs q, switch_to)
        (rw
          (hand_over-asleep (taken s a x xs q r wins) a k (s.process a).pid
            (rw (state-taken s a x xs q r wins) e))
          (record {
            chosen = k;
            runs = refl;
            from = inl in_queue;
            lists = (refl, refl);
            tick = refl;
            within = λ y m. inl (rest_within y m);
            untouched = λ y ne m. rw (not_k y m) refl;
            self = λ h. rw (not_k a r.out) refl;
            still_awake = λ y h. ground arith;
          }))

  elect-awake_Framed :
      is_endormi (s.process a).state ≡ false → Returns (Framed s a) (elect_from a s)
  unfolding elect_from choose with_suiv with_state
  elect-awake_Framed e =
      let m : Sched = taken s a x xs q r wins in
      rw (wins, extract_activable_lem s x xs q, switch_to)
        (rw
          (hand_over-awake m a k (s.process a).pid (rw (state-taken s a x xs q r wins) e)
            (a-ne-k s a x xs q r wins) (out_rest s a x xs q r wins))
          (record {
            chosen = k;
            runs = refl;
            from = inl in_queue;
            lists = (refl, refl);
            tick = refl;
            within = λ y i.
                let j : ((y == a) || mem y (rest (x ∷ xs))) ≡ true =
                  sym (mem-insert (prios m) a y (rest (x ∷ xs))) ∙ i in
                elim (Bool-cases (y == a)) [
                  | inl h ↦ inr ((==_iff y a).0 h, e)
                  | inr h ↦ inl (rest_within y (ground arith))
                ];
            untouched = λ y ne i. rw (not_k y i, ==_ne ne) refl;
            self = λ h. absurd (false≢true (sym e ∙ h));
            still_awake = λ y h. ground arith;
          }))

elect_from-Framed :
    (s : Sched) (a : ℕ) (l : List ℕ)
    → s.queue ≡ l
    → Ready s a
    → must_switch a s ≡ true
    → Returns (Framed s a) (elect_from a s)
unfolding must_switch
elect_from-Framed s a [] q r wins =
    absurd (false≢true (subst (λ l. beats s a (top l) ≡ true) q wins))
elect_from-Framed s a (x ∷ xs) q r wins = elim (Bool-cases (is_endormi (s.process a).state)) [
  | inl e ↦ elect-asleep_Framed s a x xs q r wins e
  | inr e ↦ elect-awake_Framed s a x xs q r wins e
]

pub elect-Framed : (s : Sched) (a : ℕ) → Ready s a → Returns (Framed s a) (elect s)
unfolding elect
elect-Framed s a r =
    subst (λ p. Returns (Framed s a) (deref p >>= λ actif. elect_from actif s)) (sym r.runs)
      (elim (Bool-cases (must_switch a s)) [
        | inl wins ↦ elect_from-Framed s a s.queue refl r wins
        | inr stay ↦ elect-stay_Framed s a stay
      ])
