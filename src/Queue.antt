-- ===== src/Queue.antt =====
-- shared/queue.h: the priority queue as a circular doubly linked list through `link` fields. A
-- pointer to a `link` is an address, NULL is 0. `queue_entry` and the macros' `diff` only pass from
-- the address of a `link` to that of the structure that holds it: an element goes here by the
-- address of its link, and `prio` reads its priority field. A loop runs on fuel.
pub mod Spec
pub mod Keys
pub mod Seg
pub mod Add
pub mod Remove
mod Tests
use projet_pcsea.Common.{ℕ, zero, suc, Bool, ◌&&◌, not, ◌==◌, ltb, if◌then◌else◌, List, [], ◌∷◌}
use projet_pcsea.Common.Outcome.{Outcome, ok, fault, out_of_fuel, ◌>>=◌}

abbrev pub null : ℕ
null = 0

-- What the `prev` and `next` fields of the link at each address hold.
pub record Links : Type 0 where
  pub prev : ℕ → ℕ
  pub next : ℕ → ℕ

-- `p->field = v`
abbrev pub write : (ℕ → ℕ) → ℕ → ℕ → ℕ → ℕ
write f p v = λ a. if a == p then v else f a

abbrev pub set_next : Links → ℕ → ℕ → Links
set_next l p v = record l { next = write l.next p v }

abbrev pub set_prev : Links → ℕ → ℕ → Links
set_prev l p v = record l { prev = write l.prev p v }

-- INIT_LIST_HEAD
pub init_list_head : ℕ → Links → Links
init_list_head head l = set_prev (set_next l head head) head head

pub queue_empty : ℕ → Links → Bool
queue_empty head l = l.next head == head

-- The `do … while` of queue_add: on from `cur`, past the links of smaller priority.
pub find_place : ℕ → ℕ → Links → (ℕ → ℕ) → ℕ → ℕ → Outcome ℕ
find_place zero head l prio p cur = out_of_fuel
find_place (suc fuel) head l prio p cur =
    let next = l.next cur in
    let rest = find_place fuel head l prio p next in
    if not (next == head) && ltb (prio next) p then rest else ok next

-- The four writes that put the link `e` in front of `cur`.
pub link_before : Links → ℕ → ℕ → Links
link_before l e cur =
    let l1 = set_next l e cur in
    let l2 = set_prev l1 e (l1.prev cur) in
    let l3 = set_next l2 (l2.prev cur) e in set_prev l3 cur e

-- queue_add: `assert` wants the link of the element unused.
pub queue_add : ℕ → ℕ → Links → (ℕ → ℕ) → ℕ → Outcome Links
unfolding find_place link_before
queue_add fuel head l prio e =
    if (l.prev e == null) && (l.next e == null)
    then (do cur ← find_place fuel head l prio (prio e) head; ok (link_before l e cur))
    else fault

-- __queue_out: the last link of the list, taken out and cleared; NULL from an empty queue.
pub queue_out : ℕ → Links → ℕ × Links
unfolding queue_empty
queue_out head l =
    let last = l.prev head in
    let l1 = set_prev l head (l.prev last) in
    let l2 = set_next l1 (l1.prev head) head in
    if queue_empty head l then (null, l) else (last, set_next (set_prev l2 last null) last null)

-- The four writes that take the link `e` out and clear it.
pub unlink : Links → ℕ → Links
unlink l e =
    let l1 = set_next l (l.prev e) (l.next e) in
    let l2 = set_prev l1 (l1.next e) (l1.prev e) in set_prev (set_next l2 e null) e null

-- queue_del: `assert` wants the link of the element in use.
pub queue_del : Links → ℕ → Outcome Links
unfolding unlink
queue_del l e = if not (l.prev e == null) && not (l.next e == null) then ok (unlink l e) else fault

-- __queue_top and __queue_bottom: the element to come out first, and the one to come out last.
pub queue_top : ℕ → Links → ℕ
unfolding queue_empty
queue_top head l = if queue_empty head l then null else l.prev head

pub queue_bottom : ℕ → Links → ℕ
unfolding queue_empty
queue_bottom head l = if queue_empty head l then null else l.next head

-- queue_for_each: the elements that the loop visits, in order.
for_each_from : ℕ → ℕ → Links → ℕ → Outcome (List ℕ)
for_each_from zero head l cur = out_of_fuel
for_each_from (suc fuel) head l cur =
    let rest = (do xs ← for_each_from fuel head l (l.next cur); ok (cur ∷ xs)) in
    if cur == head then ok [] else rest

pub queue_for_each : ℕ → ℕ → Links → Outcome (List ℕ)
unfolding for_each_from
queue_for_each fuel head l = for_each_from fuel head l (l.next head)
