-- ===== src/Hash.antt =====
-- kernel/hash.c and kernel/hash.h: the hash table with open addressing. Pointers and longs are 32-bit
-- words; mem_alloc and mem_free are the allocator's.
use Prim.Native.Nat.{bit_and, bit_xor}
use projet_pcsea.Common.{
  ℕ, zero, suc, ◌+◌, ◌*◌, ◌-◌, ◌%◌, ◌/◌, ◌^◌, Bool, true, false, ◌==◌, ltb, leb, ◌&&◌, ◌||◌, not,
  if◌then◌else◌, Option, none, some, List, [], ◌∷◌,
}
use projet_pcsea.Common.Int.{ℤ, pos, negsuc, minus_one}
use projet_pcsea.Common.Outcome.{Outcome, ok, fault, out_of_fuel, ◌>>=◌}
use projet_pcsea.Proc.State.{Ptr}
pub mod Lookup

abbrev pub hash_minsize : ℕ
hash_minsize = 8

abbrev pub slot_size : ℕ
slot_size = 16

-- `enum slot_mode`
pub data SlotMode : Type 0 where
  sl_empty sl_active sl_deleted : SlotMode

abbrev pub is_sl_empty : SlotMode → Bool
is_sl_empty sl_empty = true
is_sl_empty _ = false

abbrev pub is_sl_active : SlotMode → Bool
is_sl_active sl_active = true
is_sl_active _ = false

abbrev pub is_sl_deleted : SlotMode → Bool
is_sl_deleted sl_deleted = true
is_sl_deleted _ = false

-- `hash_slot_t`
pub record Slot : Type 0 where
  pub key : ℕ
  pub value : ℕ
  pub hash : ℕ
  pub mode : SlotMode

-- `hash_t`: `table_at` is the address in `table`, `table` the slots there.
pub record HashMap : Type 0 where
  pub fill : ℕ
  pub count : ℕ
  pub mask : ℕ
  pub table_at : ℕ
  pub table : ℕ → Slot
  pub hfunc : ℕ → ℕ
  pub cmp : ℕ → ℕ → Bool

abbrev pub empty_slot : Slot
empty_slot = record { key = 0; value = 0; hash = 0; mode = sl_empty }

abbrev pub write_slot : ℕ → Slot → HashMap → HashMap
write_slot i v m = record m { table = λ j. if j == i then v else m.table j }

abbrev pub or_slot : Ptr → ℕ → ℕ
or_slot none i = i
or_slot (some f) i = f

-- The slot holds the key.
abbrev pub holds : HashMap → ℕ → ℕ → Slot → Bool
holds m key hash v =
    is_sl_active v.mode && ((v.key == key) || ((v.hash == hash) && m.cmp v.key key))

abbrev pub first_free : Ptr → ℕ → Slot → Ptr
first_free none i v = if is_sl_deleted v.mode then some i else none
first_free (some f) i v = some f

unfoldable pub lookup_loop : ℕ → HashMap → ℕ → ℕ → ℕ → ℕ → Ptr → Outcome ℕ
lookup_loop zero m key hash index perturb freeslot = out_of_fuel
lookup_loop (suc fuel) m key hash index perturb freeslot =
    let i = bit_and index m.mask in
    let v = m.table i in
    let next =
      lookup_loop fuel m key hash ((5 * index + perturb + 1) % 2 ^ 32) (perturb / 32)
        (first_free freeslot i v) in
    if is_sl_empty v.mode
    then ok (or_slot freeslot i)
    else if holds m key hash v
    then ok i
    else next

-- The index of the slot. The first index is `hash & mask`.
unfoldable pub hash_lookup : ℕ → HashMap → ℕ → ℕ → Outcome ℕ
unfolding lookup_loop
hash_lookup fuel m key hash = lookup_loop fuel m key hash (bit_and hash m.mask) hash none

unfoldable pub copy_loop : ℕ → ℕ → ℕ → (ℕ → Slot) → HashMap → Outcome HashMap
unfolding hash_lookup
copy_loop fuel zero i old m = ok m
copy_loop fuel (suc n) i old m =
    let v = old i in
    let copied = (do
      j ← hash_lookup fuel m v.key (m.hfunc v.key)
      let m1 : HashMap = write_slot j (record v { mode = sl_active }) m
      copy_loop fuel n (suc i) old (record m1 { fill = m1.fill + 1; count = m1.count + 1 })) in
    let skipped = copy_loop fuel n (suc i) old m in if is_sl_active v.mode then copied else skipped

unfoldable pub hash_copy : ℕ → (ℕ → Slot) → ℕ → HashMap → Outcome HashMap
unfolding copy_loop
hash_copy fuel oldtable oldsize m = copy_loop fuel oldsize 0 oldtable m

-- The new size, where the table changes its size; -1 on an overflow.
pub data Resize : Type 0 where
  keep overflow : Resize
  resize : ℕ → Resize

unfoldable pub resizing : HashMap → Resize
resizing m =
    let old_size = m.mask + 1 in
    if leb (2 * old_size) (3 * m.fill)
    then (if leb (2 ^ 31) (2 * old_size) then overflow else resize (2 * old_size))
    else if ltb hash_minsize old_size && leb (4 * m.count) old_size
    then resize (old_size / 2)
    else keep

-- What hash_set does to the slot it has found.
unfoldable pub fill_slot : ℕ → ℕ → ℕ → ℕ → HashMap → HashMap
fill_slot i key value hash m =
    let v = m.table i in
    if is_sl_active v.mode
    then write_slot i (record v { value = value }) m
    else record (write_slot i (record { key = key; value = value; hash = hash; mode = sl_active })
        m) { count = m.count + 1; fill = if is_sl_empty v.mode then m.fill + 1 else m.fill }

unfoldable pub clear_slot : ℕ → HashMap → HashMap
clear_slot i m =
    record (write_slot i (record { key = 0; value = 0; hash = 0; mode = sl_deleted }) m) {
      count = m.count - 1;
    }

unfoldable pub hash_isset : ℕ → Option HashMap → ℕ → Outcome Bool
unfolding hash_lookup
hash_isset fuel none key = ok false
hash_isset fuel (some m) key = do
  i ← hash_lookup fuel m key (m.hfunc key)
  ok (is_sl_active (m.table i).mode)

unfoldable pub hash_get : ℕ → Option HashMap → ℕ → ℕ → Outcome ℕ
unfolding hash_lookup
hash_get fuel none key default_value = ok default_value
hash_get fuel (some m) key default_value = do
  i ← hash_lookup fuel m key (m.hfunc key)
  ok (if is_sl_active (m.table i).mode then (m.table i).value else default_value)

abbrev pub hash_direct_cmp : ℕ → ℕ → Bool
hash_direct_cmp key1 key2 = key1 == key2

abbrev pub hash_direct_hfunc : ℕ → ℕ
hash_direct_hfunc key = key

-- A `char` is signed.
abbrev pub sign_extend : ℕ → ℕ
sign_extend c = if ltb c 128 then c else c + 2 ^ 32 - 256

-- The loop of hash_string_hfunc, over the bytes of the string before its final 0.
unfoldable pub hash_chars : List ℕ → ℕ → ℕ
hash_chars [] hash = hash
hash_chars (c ∷ cs) hash =
    hash_chars cs (bit_xor ((hash * 2 ^ 5 % 2 ^ 32 + hash) % 2 ^ 32) (sign_extend c))

unfoldable pub hash_string_hfunc : List ℕ → ℕ
unfolding hash_chars
hash_string_hfunc key = hash_chars key 5381

abbrev pub same_string : List ℕ → List ℕ → Bool
same_string [] [] = true
same_string [] (d ∷ ds) = false
same_string (c ∷ cs) [] = false
same_string (c ∷ cs) (d ∷ ds) = (c == d) && same_string cs ds

module _ {A : Type 0} (mem_alloc : ℕ → A → Ptr × A) (mem_free : ℕ → ℕ → A → A) where
  abbrev pub initialized : ℕ → HashMap → Ptr × A → ℤ × HashMap × A
  initialized size m (none, al) = (minus_one, m, al)
  initialized size m (some p, al) = (
    pos 0,
    record m { fill = 0; count = 0; mask = size - 1; table_at = p; table = λ i. empty_slot },
    al,
  )

  unfoldable pub hash_initialize : ℕ → HashMap → A → ℤ × HashMap × A
  hash_initialize size m al = initialized size m (mem_alloc (size * slot_size % 2 ^ 32) al)

  abbrev pub with_functions : (ℕ → ℕ) → (ℕ → ℕ → Bool) → ℤ × HashMap × A → ℤ × HashMap × A
  with_functions hfunc cmp (pos n, m, al) = (pos 0, record m { hfunc = hfunc; cmp = cmp }, al)
  with_functions hfunc cmp (negsuc n, m, al) = (minus_one, m, al)

  unfoldable pub hash_init : (ℕ → ℕ) → (ℕ → ℕ → Bool) → HashMap → A → ℤ × HashMap × A
  unfolding hash_initialize
  hash_init hfunc cmp m al = with_functions hfunc cmp (hash_initialize hash_minsize m al)

  unfoldable pub hash_init_direct : HashMap → A → ℤ × HashMap × A
  unfolding hash_init
  hash_init_direct m al = hash_init hash_direct_hfunc hash_direct_cmp m al

  -- `string` is what a pointer points at; two strings are compared by strcmp.
  unfoldable pub hash_init_string : (ℕ → List ℕ) → HashMap → A → ℤ × HashMap × A
  unfolding hash_init hash_string_hfunc
  hash_init_string string m al =
      hash_init (λ k. hash_string_hfunc (string k)) (λ a b. same_string (string a) (string b)) m al

  abbrev pub refilled : ℕ → HashMap → ℤ × HashMap × A → Outcome (ℤ × HashMap × A)
  refilled fuel old (negsuc n, m, al) = ok (minus_one, m, al)
  refilled fuel old (pos n, m, al) = do
    m1 ← hash_copy fuel old.table (old.mask + 1) m
    ok (pos 0, m1, mem_free old.table_at ((old.mask + 1) * slot_size % 2 ^ 32) al)

  abbrev pub resized : ℕ → Resize → HashMap → A → Outcome (ℤ × HashMap × A)
  resized fuel keep m al = ok (pos 0, m, al)
  resized fuel overflow m al = ok (minus_one, m, al)
  resized fuel (resize size) m al = refilled fuel m (hash_initialize size m al)

  unfoldable pub hash_update : ℕ → HashMap → A → Outcome (ℤ × HashMap × A)
  unfolding resizing hash_initialize hash_copy
  hash_update fuel m al = resized fuel (resizing m) m al

  -- With an active slot the size is not looked at.
  unfoldable pub hash_set_at : ℕ → ℕ → ℕ → ℕ → HashMap → A → Outcome (ℤ × HashMap × A)
  unfolding fill_slot hash_update
  hash_set_at fuel i key value m al =
      let m1 = fill_slot i key value (m.hfunc key) m in
      if is_sl_active (m.table i).mode then ok (pos 0, m1, al) else hash_update fuel m1 al

  abbrev pub with_map : ℤ × HashMap × A → ℤ × Option HashMap × A
  with_map (r, m, al) = (r, some m, al)

  unfoldable pub hash_set : ℕ → Option HashMap → ℕ → ℕ → A → Outcome (ℤ × Option HashMap × A)
  unfolding hash_lookup hash_set_at
  hash_set fuel none key value al = ok (minus_one, none, al)
  hash_set fuel (some m) key value al = do
    i ← hash_lookup fuel m key (m.hfunc key)
    out ← hash_set_at fuel i key value m al
    ok (with_map out)

  unfoldable pub hash_del : ℕ → Option HashMap → ℕ → A → Outcome (ℤ × Option HashMap × A)
  unfolding hash_lookup clear_slot hash_update
  hash_del fuel none key al = ok (minus_one, none, al)
  hash_del fuel (some m) key al = do
    i ← hash_lookup fuel m key (m.hfunc key)
    out ←
        (if is_sl_active (m.table i).mode
          then hash_update fuel (clear_slot i m) al
          else ok (pos 0, m, al))
    ok (with_map out)

  unfoldable pub hash_destroy : HashMap → A → A
  hash_destroy m al = mem_free m.table_at ((m.mask + 1) * slot_size % 2 ^ 32) al
