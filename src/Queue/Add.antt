-- ===== src/Queue/Add.antt =====
-- queue_add and INIT_LIST_HEAD of shared/queue.h against the list that the queue holds.
use projet_pcsea.Common.{
  ℕ, zero, suc, ◌<◌, ◌≡◌, refl, ◌≢◌, true, false, ◌==◌, ltb, Bool-cases, ==_refl, mem-ne, inl, inr,
  List, [], ◌∷◌, mem, Distinct, length, arith,
}
use projet_pcsea.Common.Outcome.{Returns, Returns-mono, Returns-bind}
use projet_pcsea.Queue.{Links, null, init_list_head, find_place, link_before, queue_add}
use projet_pcsea.Queue.Seg.{IsSeg, IsQueue, IsSeg-frame}
use projet_pcsea.Queue.Spec.{insert, mem-insert, Distinct-insert}

-- What the search from `a` through `xs` and the four writes leave: the element stands at its place,
-- and no other link is touched.
record Inserted (head : ℕ) (l : Links) (prio : ℕ → ℕ) (e a : ℕ) (xs : List ℕ) (m : Links)
    : Type 0 where
  chain : IsSeg m a (insert prio e xs) head
  next_same : (y : ℕ) → y ≢ a → y ≢ e → mem y xs ≡ false → m.next y ≡ l.next y
  prev_same : (y : ℕ) → y ≢ head → y ≢ e → mem y xs ≡ false → m.prev y ≡ l.prev y

module _ (head : ℕ) (l : Links) (prio : ℕ → ℕ) (e : ℕ) (e_head : e ≢ head) where
  link_before-nil :
      (a : ℕ) → e ≢ a → IsSeg l a [] head → Inserted head l prio e a [] (link_before l e head)
  unfolding link_before insert
  link_before-nil a ea s = record {
    chain = ground arith;
    next_same = λ y p q h. ground arith;
    prev_same = λ y p q h. ground arith;
  }

  link_before-cons :
      (a x : ℕ) (xs : List ℕ)
      → e ≢ a
      → Distinct (x ∷ xs)
      → mem a (x ∷ xs) ≡ false
      → mem head (x ∷ xs) ≡ false
      → mem e (x ∷ xs) ≡ false
      → IsSeg l a (x ∷ xs) head
      → ltb (prio x) (prio e) ≡ false
      → Inserted head l prio e a (x ∷ xs) (link_before l e x)
  unfolding link_before insert
  link_before-cons a x xs ea d na nh ne s stop = record {
    chain = rw stop (
      ground arith,
      ground arith,
      (
        ground arith,
        ground arith,
        IsSeg-frame l (link_before l e x) x xs head (ground arith) (ground arith)
            (λ y h. spares y h) s.2,
      ),
    );
    next_same = λ y p q h. ground arith;
    prev_same = λ y p q h. ground arith;
  }
    where
      spares :
          (y : ℕ)
          → mem y xs ≡ true
          → ((link_before l e x).next y ≡ l.next y) × ((link_before l e x).prev y ≡ l.prev y)
      spares y h =
          let n1 : y ≢ e = mem-ne y e xs h (ground arith) in
          let n2 : y ≢ a = mem-ne y a xs h (ground arith) in
          let n3 : y ≢ x = mem-ne y x xs h d.0 in ground arith

  Inserted-cons :
      (a x : ℕ) (xs : List ℕ) (m : Links)
      → e ≢ a
      → Distinct (x ∷ xs)
      → mem a (x ∷ xs) ≡ false
      → mem head (x ∷ xs) ≡ false
      → mem e (x ∷ xs) ≡ false
      → IsSeg l a (x ∷ xs) head
      → ltb (prio x) (prio e) ≡ true
      → Inserted head l prio e x xs m
      → Inserted head l prio e a (x ∷ xs) m
  unfolding insert
  Inserted-cons a x xs m ea d na nh ne s pass i = record {
    chain = rw pass (ground (arith, i.next_same a), ground (arith, i.prev_same x), i.chain);
    next_same = λ y p q h. ground (arith, i.next_same y);
    prev_same = λ y p q h. ground (arith, i.prev_same y);
  }

  -- The search stops at the right place, and the writes there put the element into the list.
  find_place-Inserted :
      (fuel a : ℕ) (xs : List ℕ)
      → length xs < fuel
      → e ≢ a
      → Distinct xs
      → mem a xs ≡ false
      → mem head xs ≡ false
      → mem e xs ≡ false
      → IsSeg l a xs head
      → Returns
          (λ cur. Inserted head l prio e a xs (link_before l e cur))
          (find_place fuel head l prio (prio e) a)
  unfolding find_place
  find_place-Inserted zero a xs h ea d na nh ne s = absurd (omega arith)
  find_place-Inserted (suc fuel) a [] h ea d na nh ne s =
      rw (s.0, ==_refl head) (link_before-nil a ea s)
  find_place-Inserted (suc fuel) a (x ∷ xs) h ea d na nh ne s =
      let xh : (x == head) ≡ false = ground arith in
      elim (Bool-cases (ltb (prio x) (prio e))) [
        | inl pass ↦
            rw (s.0, xh, pass)
              (Returns-mono _ (find_place fuel head l prio (prio e) x)
                (find_place-Inserted fuel x xs (omega arith) (ground arith) d.1 d.0 (ground arith)
                  (ground arith) s.2)
                (λ cur i. Inserted-cons a x xs (link_before l e cur) ea d na nh ne s pass i))
        | inr stop ↦ rw (s.0, xh, stop) (link_before-cons a x xs ea d na nh ne s stop)
      ]

-- queue_add on the queue that holds `xs` returns the queue that holds `insert prio e xs`, if `e` is
-- not in it and the loop has more rounds than the queue has elements.
pub queue_add-insert :
    (fuel head : ℕ) (l : Links) (prio : ℕ → ℕ) (e : ℕ) (xs : List ℕ)
    → IsQueue head l xs
    → e ≢ null
    → e ≢ head
    → mem e xs ≡ false
    → length xs < fuel
    → Returns (λ m. IsQueue head m (insert prio e xs)) (queue_add fuel head l prio e)
unfolding queue_add
queue_add-insert fuel head l prio e xs q e0 eh out more =
    rw ((q.unused e eh out).0, (q.unused e eh out).1)
      (Returns-bind _ (find_place fuel head l prio (prio e) head) _
        (find_place-Inserted head l prio e eh fuel head xs more eh q.distinct q.no_head q.no_head
          out q.chain)
        (λ cur i. record {
          head_set = q.head_set;
          distinct = Distinct-insert prio e xs q.distinct out;
          no_head = ground (arith, mem-insert prio e head xs, q.no_head);
          no_null = ground (arith, mem-insert prio e null xs, q.no_null);
          chain = i.chain;
          unused = λ y p h.
              ground (arith, mem-insert prio e y xs, i.next_same y, i.prev_same y, q.unused y);
        }))

-- INIT_LIST_HEAD makes the empty queue, if no link is in use.
pub init_list_head-empty :
    (head : ℕ) (l : Links)
    → head ≢ null
    → ((y : ℕ) → (l.next y ≡ null) × (l.prev y ≡ null))
    → IsQueue head (init_list_head head l) []
unfolding init_list_head
init_list_head-empty head l h u = record {
  head_set = h;
  distinct = tt;
  no_head = refl;
  no_null = refl;
  chain = ground arith;
  unused = λ y p m. ground (arith, u y);
}
