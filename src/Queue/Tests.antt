-- ===== src/Queue/Tests.antt =====
-- Runs of shared/queue.h, and its theorems at concrete queues.
use projet_pcsea.Common.{ℕ, ◌≡◌, refl, ◌==◌, if◌then◌else◌, [], ◌∷◌, arith}
use projet_pcsea.Common.Outcome.{Outcome, ok, fault, ◌>>=◌, Returns}
use projet_pcsea.Queue.{Links, init_list_head, queue_add, queue_del, queue_for_each}
use projet_pcsea.Queue.Seg.{IsQueue}
use projet_pcsea.Queue.Spec.{insert, remove}
use projet_pcsea.Queue.Add.{queue_add-insert}
use projet_pcsea.Queue.Remove.{queue_del-remove}

abbrev clear : Links
clear = record { prev = λ _. 0; next = λ _. 0 }

-- The head is at 1; the element at `a` has priority `a / 10`.
abbrev empty : Links
empty = init_list_head 1 clear

abbrev prio : ℕ → ℕ
prio a = if a == 20 then 2 else if a == 21 then 2 else 5

three : Outcome Links
unfolding queue_add
three = do l ← queue_add 9 1 empty prio 20; l ← queue_add 9 1 l prio 50; queue_add 9 1 l prio 21

three_in_order : (three >>= queue_for_each 9 1) ≡ ok (21 ∷ 20 ∷ 50 ∷ [])
unfolding three queue_for_each init_list_head
three_in_order = refl

add_twice : (three >>= λ l. queue_add 9 1 l prio 20) ≡ fault
unfolding three init_list_head
add_twice = refl

abbrev two : Links
two = record {
  prev = λ a. if a == 1 then 50 else if a == 50 then 20 else if a == 20 then 1 else 0;
  next = λ a. if a == 1 then 20 else if a == 20 then 50 else if a == 50 then 1 else 0;
}

two-IsQueue : IsQueue 1 two (20 ∷ 50 ∷ [])
two-IsQueue = record {
  head_set = omega arith;
  distinct = (refl, (refl, tt));
  no_head = refl;
  no_null = refl;
  chain = (refl, refl, (refl, refl, (refl, refl)));
  unused = λ y p h. ground arith;
}

queue_add-insert_example :
    Returns (λ m. IsQueue 1 m (insert prio 21 (20 ∷ 50 ∷ []))) (queue_add 3 1 two prio 21)
queue_add-insert_example =
    queue_add-insert 3 1 two prio 21 (20 ∷ 50 ∷ []) two-IsQueue (omega arith) (omega arith) refl
      (omega arith)

queue_del-remove_example : Returns (λ m. IsQueue 1 m (remove 20 (20 ∷ 50 ∷ []))) (queue_del two 20)
queue_del-remove_example = queue_del-remove 1 two 20 (20 ∷ 50 ∷ []) two-IsQueue refl
