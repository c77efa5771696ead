-- ===== src/Message.antt =====
-- kernel/message.c and kernel/message.h: the message queues. A call that has to wait is two
-- functions: up to the return of the ordonnance that switches away, and from the switch back on. The
-- memory allocator is a parameter, as in Fifo.
use projet_pcsea.Common.{
  ℕ, zero, suc, ◌+◌, ◌*◌, ◌-◌, ◌%◌, ◌^◌, Bool, true, false, ◌==◌, ltb, leb, ◌||◌, not,
  if◌then◌else◌, Option, none, some,
}
use projet_pcsea.Common.Int.{ℤ, pos, negsuc, minus_one}
use projet_pcsea.Common.Outcome.{Outcome, ok, fault, out_of_fuel, ◌>>=◌}
use projet_pcsea.Proc.State.{to_int, Ptr, endormi, Sched, deref, set_state}
use projet_pcsea.Proc.Lists.{insert_activable}
use projet_pcsea.Proc.Schedule.{ordonnance}
use projet_pcsea.Fifo.{Store, init_list, is_empty, add_process, extract_process, contains, get_size}
pub mod Buffer
pub mod Exchange
pub mod Create
pub mod Blocking
pub mod Release

abbrev pub nbqueue : ℕ
nbqueue = 10

-- `Fifo_messages`: `tab_at` is the address in `tab_messages`, `tab_messages` the array there. The `int`
-- `nbElement` is a word of 32 bits, -1 the highest one.
pub record FifoMessages : Type 0 where
  pub consum : Ptr
  pub prod : Ptr
  pub tab_at : Ptr
  pub tab_messages : ℕ → ℤ
  pub size : ℕ
  pub nb_element : ℕ
  pub down : ℕ
  pub fid : ℕ
  pub used : Bool

pub record Messages (A : Type 0) : Type 0 where
  pub sched : Sched
  pub store : Store A
  pub fifo_tab : ℕ → FifoMessages
  pub should_receive_negative_one : Ptr

-- What a call comes to: its result, or the process that waits, and the state.
pub data Called (R A : Type 0) : Type 0 where
  returned : R → Messages A → Called R A
  waits : ℕ → Messages A → Called R A

abbrev pub set_fifo : {A : Type 0} → ℕ → FifoMessages → Messages A → Messages A
set_fifo i f m = record m { fifo_tab = λ j. if j == i then f else m.fifo_tab j }

abbrev pub with_used : Bool → FifoMessages → FifoMessages
with_used b f = record f { used = b }

unfoldable pub clear_loop : {A : Type 0} → ℕ → ℕ → Messages A → Messages A
clear_loop zero i m = m
clear_loop (suc n) i m = clear_loop n (suc i) (set_fifo i (with_used false (m.fifo_tab i)) m)

unfoldable pub initialisation_fifo_tab : {A : Type 0} → Messages A → Messages A
unfolding clear_loop
initialisation_fifo_tab m = clear_loop nbqueue 0 m

-- The loop of pcreate: the first queue, from i on, that is not used.
unfoldable pub find_location : ℕ → ℕ → (ℕ → FifoMessages) → Option ℕ
find_location zero i tab = none
find_location (suc n) i tab =
    let later = find_location n (suc i) tab in if not (tab i).used then some i else later

-- `fid < 0 || fid >= NBQUEUE`
unfoldable pub bad_fid : ℤ → Bool
bad_fid (pos n) = leb nbqueue n
bad_fid (negsuc n) = true

abbrev pub number : ℤ → ℕ
number (pos n) = n
number (negsuc n) = 0

-- `|| fifo_tab[fid].used == false`
unfoldable pub invalid : {A : Type 0} → ℤ → Messages A → Bool
unfolding bad_fid
invalid fid m = bad_fid fid || not (m.fifo_tab (number fid)).used

-- A place below 0, or a size of 0, is a fault.
unfoldable pub write_message : ℤ → FifoMessages → Outcome FifoMessages
write_message message f =
    let place = (f.down + f.nb_element) % 2 ^ 32 in
    let written = (do
      tab ← deref f.tab_at
      ok (record f {
        tab_messages = λ i. if i == place % f.size then message else f.tab_messages i;
        nb_element = (f.nb_element + 1) % 2 ^ 32;
      })) in
    if f.size == 0 || leb (2 ^ 31) place then fault else written

-- `*message` and the queue without it.
unfoldable pub read_message : FifoMessages → Outcome (ℤ × FifoMessages)
read_message f = do
  tab ← deref f.tab_at
  ok (
    f.tab_messages f.down,
    record f {
      nb_element = (f.nb_element + 2 ^ 32 - 1) % 2 ^ 32;
      down = if f.down + 1 == f.size then 0 else f.down + 1;
    },
  )

module _ {A : Type 0} (mem_alloc : ℕ → A → Ptr × A) (mem_free : ℕ → ℕ → A → A) where
  unfoldable pub create : ℕ → ℕ → Messages A → ℤ × Messages A
  create count i m =
      let (tab, al) = mem_alloc (4 * count % 2 ^ 32) m.store.allocator in
      (
        pos i,
        set_fifo i
            (record (m.fifo_tab i) {
              fid = i;
              down = 0;
              size = count;
              consum = init_list;
              prod = init_list;
              used = true;
              nb_element = 0;
              tab_at = tab;
            })
            (record m { store = record m.store { allocator = al } }),
      )

  abbrev pub created : ℕ → Option ℕ → Messages A → ℤ × Messages A
  created count none m = (minus_one, m)
  created count (some i) m = create count i m

  unfoldable pub pcreate : ℤ → Messages A → ℤ × Messages A
  unfolding find_location create
  pcreate (negsuc n) m = (minus_one, m)
  pcreate (pos n) m =
      if ltb n 1 then (minus_one, m) else created n (find_location nbqueue 0 m.fifo_tab) m

  -- The process taken out of a list of waiting ones, where there is one, becomes ready.
  unfoldable pub wake : Ptr → Messages A → Outcome (Ptr × Messages A)
  unfolding extract_process insert_activable
  wake list m = do
    (list1, tmp, st) ← extract_process mem_alloc mem_free list m.store
    p ← deref tmp
    sc ← insert_activable p m.sched
    ok (list1, record m { store = st; sched = sc })

  -- A process that will get -1: the list that add_process gives back is dropped.
  unfoldable pub announce : Ptr → Messages A → Outcome (Messages A)
  unfolding add_process
  announce tmp m = do
    p ← deref tmp
    (list, st) ← add_process mem_alloc mem_free m.should_receive_negative_one p m.store
    ok (record m { store = st })

  -- One turn of the loops of pdelete and preset, on the list `list` of queue i.
  unfoldable pub release : ℕ → Ptr → Messages A → Outcome (Messages A)
  unfolding extract_process insert_activable announce
  release i list m = do
    (list1, tmp, st) ← extract_process mem_alloc mem_free list m.store
    p ← deref tmp
    sc ← insert_activable p m.sched
    let m1 : Messages A = record m { store = st; sched = sc }
    announce tmp (set_fifo i (record (m1.fifo_tab i) { consum = list1 }) m1)

  unfoldable pub consum_loop : ℕ → ℕ → Messages A → Outcome (Messages A)
  unfolding release
  consum_loop zero i m = out_of_fuel
  consum_loop (suc fuel) i m =
      let more = (do m1 ← release i (m.fifo_tab i).consum m; consum_loop fuel i m1) in
      if is_empty (m.fifo_tab i).consum then ok m else more

  -- The second loop tests `prod` and writes `consum`.
  unfoldable pub prod_loop : ℕ → ℕ → Messages A → Outcome (Messages A)
  unfolding release
  prod_loop zero i m = out_of_fuel
  prod_loop (suc fuel) i m =
      let more = (do m1 ← release i (m.fifo_tab i).prod m; prod_loop fuel i m1) in
      if is_empty (m.fifo_tab i).prod then ok m else more

  unfoldable pub pdelete : ℕ → ℤ → Messages A → Outcome (ℤ × Messages A)
  unfolding invalid consum_loop prod_loop
  pdelete fuel fid m =
      let i = number fid in
      let f = with_used false (m.fifo_tab i) in
      let free : A → A =
        λ al. elim f.tab_at [ none ↦ al | some a ↦ mem_free a (4 * f.size % 2 ^ 32) al ] in
      let m1 : Messages A =
        set_fifo i f (record m { store = record m.store { allocator = free m.store.allocator } }) in
      if invalid fid m
      then ok (minus_one, m)
      else (do m2 ← consum_loop fuel i m1; m3 ← prod_loop fuel i m2; ok (pos 0, m3))

  unfoldable pub preset : ℕ → ℤ → Messages A → Outcome (ℤ × Messages A)
  unfolding invalid consum_loop prod_loop
  preset fuel fid m =
      let i = number fid in
      if invalid fid m then ok (minus_one, m) else (do
        let m1 : Messages A = set_fifo i (record (m.fifo_tab i) { down = 0; nb_element = 0 }) m
        m2 ← consum_loop fuel i m1
        m3 ← prod_loop fuel i m2
        ok (pos 0, m3))

  -- psend and preceive once `tmp` is not (any longer) waiting.
  unfoldable pub woken_up : ℕ → ℕ → Messages A → Outcome Bool
  unfolding contains
  woken_up fuel tmp m =
      contains fuel m.store.cell (λ p. (m.sched.process p).pid) m.should_receive_negative_one
        (m.sched.process tmp).pid

  unfoldable pub deliver : ℕ → ℤ → Messages A → Outcome (ℤ × Messages A)
  unfolding write_message wake
  deliver i message m = do
    f ← write_message message (m.fifo_tab i)
    let m1 : Messages A = set_fifo i f m
    m2 ←
        (if is_empty f.prod
          then ok m1
          else (do (l, m2) ← wake f.prod m1; ok (set_fifo i (record f { prod = l }) m2)))
    ok (pos 0, m2)

  unfoldable pub psend_end : ℕ → ℕ → ℤ → ℕ → Messages A → Outcome (ℤ × Messages A)
  unfolding woken_up deliver
  psend_end fuel i message tmp m = do
    refused ← woken_up fuel tmp m
    if refused then ok (minus_one, m) else deliver i message m

  unfoldable pub take : ℕ → Messages A → Outcome (ℤ × Option ℤ × Messages A)
  unfolding read_message wake
  take i m = do
    (message, f) ← read_message (m.fifo_tab i)
    let m1 : Messages A = set_fifo i f m
    m2 ←
        (if is_empty f.consum
          then ok m1
          else (do (l, m2) ← wake f.consum m1; ok (set_fifo i (record f { consum = l }) m2)))
    ok (pos 0, some message, m2)

  unfoldable pub preceive_end : ℕ → ℕ → ℕ → Messages A → Outcome (ℤ × Option ℤ × Messages A)
  unfolding woken_up take
  preceive_end fuel i tmp m = do
    refused ← woken_up fuel tmp m
    if refused then ok (minus_one, none, m) else take i m

  -- The caller goes to sleep; `f` is its queue, in whose list of waiting processes it is by then.
  unfoldable pub wait : ℕ → ℕ → ℕ → FifoMessages → Store A → Messages A → Outcome (Messages A)
  unfolding ordonnance
  wait fuel i tmp f st m = do
    let m1 : Messages A = set_fifo i f (record m { store = st })
    sc ← ordonnance fuel (set_state endormi tmp m1.sched)
    ok (record m1 { sched = sc })

  unfoldable pub psend_full : ℕ → ℕ → ℕ → Messages A → Outcome (Called ℤ A)
  unfolding add_process wait
  psend_full fuel i tmp m = do
    (l, st) ← add_process mem_alloc mem_free (m.fifo_tab i).consum tmp m.store
    m1 ← wait fuel i tmp (record (m.fifo_tab i) { consum = l }) st m
    ok (waits tmp m1)

  unfoldable pub psend_from : ℕ → ℕ → ℤ → ℕ → Messages A → Outcome (Called ℤ A)
  unfolding psend_full psend_end
  psend_from fuel i message tmp m =
      let at_once = (do (r, m1) ← psend_end fuel i message tmp m; ok (returned r m1)) in
      if (m.fifo_tab i).nb_element == (m.fifo_tab i).size then psend_full fuel i tmp m else at_once

  unfoldable pub psend : ℕ → ℤ → ℤ → Messages A → Outcome (Called ℤ A)
  unfolding invalid psend_from
  psend fuel fid message m =
      if invalid fid m
      then ok (returned minus_one m)
      else (do tmp ← deref m.sched.actif; psend_from fuel (number fid) message tmp m)

  -- The new list of receivers is made from that of the senders.
  unfoldable pub preceive_empty : ℕ → ℕ → ℕ → Messages A → Outcome (Called (ℤ × Option ℤ) A)
  unfolding add_process wait
  preceive_empty fuel i tmp m = do
    (l, st) ← add_process mem_alloc mem_free (m.fifo_tab i).consum tmp m.store
    m1 ← wait fuel i tmp (record (m.fifo_tab i) { prod = l }) st m
    ok (waits tmp m1)

  unfoldable pub preceive_from : ℕ → ℕ → ℕ → Messages A → Outcome (Called (ℤ × Option ℤ) A)
  unfolding preceive_empty preceive_end
  preceive_from fuel i tmp m =
      let at_once = (do (r, v, m1) ← preceive_end fuel i tmp m; ok (returned (r, v) m1)) in
      if (m.fifo_tab i).nb_element == 0 then preceive_empty fuel i tmp m else at_once

  -- The result, and what `*message` is set to, if it is.
  unfoldable pub preceive : ℕ → ℤ → Messages A → Outcome (Called (ℤ × Option ℤ) A)
  unfolding invalid preceive_from
  preceive fuel fid m =
      if invalid fid m
      then ok (returned (minus_one, none) m)
      else (do tmp ← deref m.sched.actif; preceive_from fuel (number fid) tmp m)

abbrev pub negated : ℕ → ℤ
negated zero = pos 0
negated (suc n) = negsuc n

-- What `*count` is set to, if it is.
abbrev pub count_of : ℕ → ℕ → Option ℤ
count_of consum data_size =
    if not (consum == 0)
    then some (negated consum)
    else if not (data_size == 0)
    then some (to_int data_size)
    else none

unfoldable pub pcount : {A : Type 0} → ℕ → ℤ → Messages A → Outcome (ℤ × Option ℤ)
unfolding bad_fid get_size
pcount fuel fid m =
    let f = m.fifo_tab (number fid) in
    if bad_fid fid then ok (minus_one, none) else (do
      consum ← get_size fuel m.store.cell f.consum
      prod ← get_size fuel m.store.cell f.prod
      ok (pos 0, count_of consum ((prod + f.nb_element) % 2 ^ 32)))
