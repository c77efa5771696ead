-- ===== src/Queue/Remove.antt =====
-- queue_del, queue_out, queue_top, queue_bottom and queue_for_each of shared/queue.h against the
-- list that the queue holds.
use mathlib.Core.Path.{ap₂, fun_ext}
use projet_pcsea.Common.{
  ℕ, zero, suc, ◌<◌, ◌≡◌, refl, ◌≢◌, true, false, ◌==◌, List, [], ◌∷◌, mem, mem-ne, Distinct,
  length, arith, ==_iff, ==_refl, ==_ne, ◌∙◌, Bool-cases, inl, inr,
}
use projet_pcsea.Common.Outcome.{ok, Returns}
use projet_pcsea.Queue.{
  Links, null, unlink, queue_del, queue_out, queue_top, queue_bottom, queue_empty, queue_for_each,
  for_each_from,
}
use projet_pcsea.Queue.Seg.{IsSeg, IsQueue, IsSeg-frame}
use projet_pcsea.Queue.Spec.{
  last, first, is_nil, rest, remove, mem-last, remove-last, mem-remove, remove-Distinct,
}

-- What taking `e` out of the stretch from `a` through `xs` leaves.
record Removed (head : ℕ) (l : Links) (e a : ℕ) (xs : List ℕ) (m : Links) : Type 0 where
  chain : IsSeg m a (remove e xs) head
  next_same : (y : ℕ) → y ≢ a → mem y xs ≡ false → m.next y ≡ l.next y
  prev_same : (y : ℕ) → y ≢ head → mem y xs ≡ false → m.prev y ≡ l.prev y

module _ (head : ℕ) (l : Links) (e : ℕ) (e_head : e ≢ head) where
  unlink-head :
      (a x : ℕ) (xs : List ℕ)
      → x ≡ e
      → e ≢ a
      → mem a xs ≡ false
      → mem head xs ≡ false
      → Distinct (x ∷ xs)
      → IsSeg l a (x ∷ xs) head
      → IsSeg (unlink l e) a xs head
  unfolding unlink
  unlink-head a x [] eq ea na nh d s = ground arith
  unlink-head a x (z ∷ xs) eq ea na nh d s = (
    ground arith,
    ground arith,
    IsSeg-frame l (unlink l e) z xs head (ground arith) (ground arith)
        (λ y h.
          let n1 : y ≢ x = mem-ne y x xs h (ground arith) in
          let n2 : y ≢ a = mem-ne y a xs h (ground arith) in
          let n3 : y ≢ z = mem-ne y z xs h d.1.0 in ground arith)
        s.2.2,
  )

  next-ne : (x y : ℕ) (xs : List ℕ) → IsSeg l x xs head → y ≢ head → mem y xs ≡ false → y ≢ l.next x
  next-ne x y [] s p h q = p (q ∙ s.0)
  next-ne x y (z ∷ xs) s p h q = ground arith

  unlink-hit :
      (a x : ℕ) (xs : List ℕ)
      → x ≡ e
      → e ≢ a
      → mem a xs ≡ false
      → mem head xs ≡ false
      → Distinct (x ∷ xs)
      → IsSeg l a (x ∷ xs) head
      → Removed head l e a (x ∷ xs) (unlink l e)
  unfolding unlink remove
  unlink-hit a x xs eq ea na nh d s =
      let hit : (x == e) ≡ true = (==_iff x e).1 eq in
      record {
        chain = rw hit (unlink-head a x xs eq ea na nh d s);
        next_same = λ y p h. ground arith;
        prev_same = λ y p h. ground (arith, next-ne x y xs s.2 p);
      }

  unlink-Removed :
      (a : ℕ) (xs : List ℕ)
      → e ≢ a
      → mem a xs ≡ false
      → mem head xs ≡ false
      → mem e xs ≡ true
      → Distinct xs
      → IsSeg l a xs head
      → Removed head l e a xs (unlink l e)
  unfolding remove
  unlink-Removed a [] ea na nh m d s = cc
  unlink-Removed a (x ∷ xs) ea na nh m d s = elim (Bool-cases (x == e)) [
    | inl hit ↦ unlink-hit a x xs ((==_iff x e).0 hit) ea (ground arith) (ground arith) d s
    | inr miss ↦
        let i : Removed head l e x xs (unlink l e) =
          unlink-Removed x xs (ground arith) d.0 (ground arith) (ground arith) d.1 s.2 in
        record {
          chain = rw miss (ground (arith, i.next_same a), ground (arith, i.prev_same x), i.chain);
          next_same = λ y p h. ground (arith, i.next_same y);
          prev_same = λ y p h. ground (arith, i.prev_same y);
        }
  ]

prev-last :
    (head : ℕ) (l : Links) (a : ℕ) (xs : List ℕ) → IsSeg l a xs head → l.prev head ≡ last a xs
prev-last head l a [] s = s.1
prev-last head l a (x ∷ xs) s = prev-last head l x xs s.2

-- Every link of the list has a next and a previous one.
in_use :
    (head : ℕ) (l : Links) (e a : ℕ) (xs : List ℕ)
    → head ≢ null
    → a ≢ null
    → mem null xs ≡ false
    → mem e xs ≡ true
    → IsSeg l a xs head
    → (l.next e ≢ null) × (l.prev e ≢ null)
in_use head l e a [] h0 a0 n0 m s = cc
in_use head l e a (x ∷ []) h0 a0 n0 m s = ground arith
in_use head l e a (x ∷ y ∷ xs) h0 a0 n0 m s = ground (arith, in_use head l e x (y ∷ xs) h0)

unlink-cleared :
    (l : Links) (e y : ℕ) → y ≡ e → ((unlink l e).next y ≡ null) × ((unlink l e).prev y ≡ null)
unfolding unlink
unlink-cleared l e y h = ground arith

unlink-IsQueue :
    (head : ℕ) (l : Links) (e : ℕ) (xs : List ℕ)
    → IsQueue head l xs
    → mem e xs ≡ true
    → IsQueue head (unlink l e) (remove e xs)
unlink-IsQueue head l e xs q m =
    let eh : e ≢ head = mem-ne e head xs m q.no_head in
    let i : Removed head l e head xs (unlink l e) =
      unlink-Removed head l e eh head xs eh q.no_head q.no_head m q.distinct q.chain in
    record {
      head_set = q.head_set;
      distinct = remove-Distinct e xs q.distinct;
      no_head = ground (arith, mem-remove e head xs q.distinct, q.no_head);
      no_null = ground (arith, mem-remove e null xs q.distinct, q.no_null);
      chain = i.chain;
      unused = λ y p h. ground (
        arith,
        unlink-cleared l e y,
        mem-remove e y xs q.distinct,
        i.next_same y,
        i.prev_same y,
        q.unused y,
      );
    }

-- queue_del of an element of the queue leaves the queue without it; the assert holds.
pub queue_del-remove :
    (head : ℕ) (l : Links) (e : ℕ) (xs : List ℕ)
    → IsQueue head l xs
    → mem e xs ≡ true
    → Returns (λ m. IsQueue head m (remove e xs)) (queue_del l e)
unfolding queue_del
queue_del-remove head l e xs q m =
    let (n, p) = in_use head l e head xs q.head_set q.head_set q.no_null m q.chain in
    rw (==_ne n, ==_ne p) (unlink-IsQueue head l e xs q m)

next-last :
    (head : ℕ) (l : Links) (a x : ℕ) (xs : List ℕ)
    → IsSeg l a (x ∷ xs) head
    → l.next (last x xs) ≡ head
next-last head l a x [] s = s.2.0
next-last head l a x (y ∷ xs) s = next-last head l x y xs s.2

-- The writes of queue_out are those of queue_del at the last element.
queue_out_writes :
    (head : ℕ) (l : Links) (k : ℕ)
    → l.prev head ≡ k
    → l.next k ≡ head
    → k ≢ head
    → (l.next head == head) ≡ false
    → queue_out head l ≡ (k, unlink l k)
unfolding queue_out queue_empty unlink
queue_out_writes head l k p n kh ne =
    rw (ne, p)
      (ap₂ (λ f g. (k, record { prev = f; next = g })) (fun_ext λ a. ground arith)
        (fun_ext λ a. ground arith))

queue_out-unlink :
    (head : ℕ) (l : Links) (x : ℕ) (xs : List ℕ)
    → IsQueue head l (x ∷ xs)
    → queue_out head l ≡ (last x xs, unlink l (last x xs))
queue_out-unlink head l x xs q =
    queue_out_writes head l (last x xs) (prev-last head l head (x ∷ xs) q.chain)
      (next-last head l head x xs q.chain)
      (mem-ne (last x xs) head (x ∷ xs) (mem-last x xs) q.no_head) (ground (arith, q.no_head))

-- queue_out of a queue that holds something gives its last element, and leaves the queue without it.
pub queue_out-rest :
    (head : ℕ) (l : Links) (x : ℕ) (xs : List ℕ)
    → IsQueue head l (x ∷ xs)
    → ((queue_out head l).0 ≡ last x xs) × IsQueue head (queue_out head l).1 (rest (x ∷ xs))
queue_out-rest head l x xs q =
    rw (queue_out-unlink head l x xs q, ← remove-last x xs q.distinct)
      (refl, unlink-IsQueue head l (last x xs) (x ∷ xs) q (mem-last x xs))

-- queue_out of an empty queue gives NULL and changes nothing.
pub queue_out-empty : (head : ℕ) (l : Links) → IsQueue head l [] → queue_out head l ≡ (null, l)
unfolding queue_out queue_empty
queue_out-empty head l q = rw (q.chain.0, ==_refl head)

-- queue_empty tells whether the queue holds nothing; queue_top gives the element that queue_out
-- would, and queue_bottom the first; both give NULL from an empty queue.
pub queue_ends :
    (head : ℕ) (l : Links) (xs : List ℕ)
    → IsQueue head l xs
    → (queue_empty head l ≡ is_nil xs)
      × (queue_top head l ≡ last null xs)
      × (queue_bottom head l ≡ first null xs)
unfolding queue_empty queue_top queue_bottom
queue_ends head l [] q = rw (q.chain.0, ==_refl head) (refl, refl, refl)
queue_ends head l (x ∷ xs) q =
    let ne : (l.next head == head) ≡ false = ground (arith, q.no_head) in
    rw ne (refl, prev-last head l head (x ∷ xs) q.chain, q.chain.0)

for_each_from_lem :
    (fuel head : ℕ) (l : Links) (a : ℕ) (xs : List ℕ)
    → length xs < fuel
    → mem head xs ≡ false
    → IsSeg l a xs head
    → for_each_from fuel head l (l.next a) ≡ ok xs
unfolding for_each_from
for_each_from_lem zero head l a xs h nh s = absurd (omega arith)
for_each_from_lem (suc fuel) head l a [] h nh s = rw (s.0, ==_refl head)
for_each_from_lem (suc fuel) head l a (x ∷ xs) h nh s =
    let ne : (x == head) ≡ false = ground arith in
    rw (s.0, ne, for_each_from_lem fuel head l x xs (omega arith) (ground arith) s.2)

-- queue_for_each visits the elements in the order of the list, each once, and ends if it has more
-- rounds than the queue has elements.
pub queue_for_each_lem :
    (fuel head : ℕ) (l : Links) (xs : List ℕ)
    → IsQueue head l xs
    → length xs < fuel
    → queue_for_each fuel head l ≡ ok xs
unfolding queue_for_each
queue_for_each_lem fuel head l xs q h = for_each_from_lem fuel head l head xs h q.no_head q.chain
