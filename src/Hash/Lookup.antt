-- ===== src/Hash/Lookup.antt =====
-- Lookup in the table of kernel/hash.c after a write by hash_set.
use Prim.Native.Nat.{bit_and}
use projet_pcsea.Common.{
  ℕ, zero, suc, ◌+◌, ◌*◌, ◌%◌, ◌/◌, ◌^◌, ◌≡◌, refl, ◌≢◌, ◌<◌, ◌≤◌, ◌⊎◌, leb, ltb, ◌&&◌, Option,
  Bool, true, false, ◌==◌, ==_refl, ==_iff, Bool-cases, inl, inr, if◌then◌else◌, none, some, arith,
  ap, sym, ◌∙◌,
}
use projet_pcsea.Common.Int.{ℤ, pos}
use projet_pcsea.Common.Outcome.{ok, Returns}
use projet_pcsea.Proc.State.{Ptr}
use projet_pcsea.Hash.{
  Slot, HashMap, hash_minsize, or_slot, sl_active, is_sl_empty, is_sl_active, is_sl_deleted,
  write_slot, holds, first_free, lookup_loop, hash_lookup, keep, resizing, fill_slot, hash_get,
  hash_set_at, hash_set, resized,
}

-- The map once the slot x has been written.
abbrev written : ℕ → Slot → ℕ → ℕ → HashMap → HashMap
written x v count fill m = record (write_slot x v m) { count = count; fill = fill }

first_free-other :
    (free : Ptr) (i x : ℕ) (v : Slot)
    → free ≢ some x
    → (i == x) ≡ false
    → first_free free i v ≢ some x
first_free-other none i x v h ne = elim (Bool-cases (is_sl_deleted v.mode)) [
  | inl e ↦ rw e (λ q. let p : i ≡ x = cc in ground arith)
  | inr e ↦ rw e h
]
first_free-other (some f) i x v h ne = h

module _ (m : HashMap) (key hash value x count fill : ℕ) where
  lookup_loop-new :
      (fuel index perturb : ℕ) (free : Ptr)
      → free ≢ some x
      → lookup_loop fuel m key hash index perturb free ≡ ok x
      → lookup_loop fuel
          (written x
            (record { key = key; value = value; hash = hash; mode = sl_active })
            count
            fill
            m)
          key
          hash
          index
          perturb
          free
        ≡ ok x
  unfolding lookup_loop
  lookup_loop-new zero index perturb free other h = cc
  lookup_loop-new (suc fuel) index perturb free other h =
      let i = bit_and index m.mask in
      let v = m.table i in
      elim (Bool-cases (i == x)) [
        | inl e ↦ rw (e, ==_refl key) (ap ok ((==_iff i x).0 e))
        | inr ne ↦ elim (Bool-cases (is_sl_empty v.mode)) [
          | inl e ↦ rw (ne, e) (rw e at h)
          | inr ee ↦ elim (Bool-cases (holds m key hash v)) [
            | inl e ↦ rw (ne, ee, e) (rw (ee, e) at h)
            | inr e ↦
                rw (ne, ee, e)
                  (lookup_loop-new fuel _ _ (first_free free i v)
                    (first_free-other free i x v other ne) (rw (ee, e) at h))
          ]
        ]
      ]

first_free-mode :
    (free : Ptr) (i : ℕ) (v w : Slot) → v.mode ≡ w.mode → first_free free i v ≡ first_free free i w
first_free-mode none i v w h = ap (λ q. if is_sl_deleted q then some i else none) h
first_free-mode (some f) i v w h = refl

module _ (m : HashMap) (x value : ℕ) where
  abbrev updated : HashMap
  updated = write_slot x (record (m.table x) { value = value }) m

  same :
      {B : Type 0} (f : Slot → B) (i : ℕ)
      → f (record (m.table x) { value = value }) ≡ f (m.table x)
      → f (updated.table i) ≡ f (m.table i)
  same f i h = elim (Bool-cases (i == x)) [
    | inl e ↦ rw e (h ∙ ap (λ q. f (m.table q)) (sym ((==_iff i x).0 e)))
    | inr e ↦ rw e refl
  ]

  lookup_loop-updated :
      (key hash fuel index perturb : ℕ) (free : Ptr)
      → lookup_loop fuel updated key hash index perturb free
        ≡ lookup_loop fuel m key hash index perturb free
  unfolding lookup_loop
  lookup_loop-updated key hash zero index perturb free = refl
  lookup_loop-updated key hash (suc fuel) index perturb free =
      let i = bit_and index m.mask in
      let e1 : is_sl_empty (updated.table i).mode ≡ is_sl_empty (m.table i).mode =
        same (λ v. is_sl_empty v.mode) i refl in
      let e2 : holds m key hash (updated.table i) ≡ holds m key hash (m.table i) =
        same (holds m key hash) i refl in
      let e3 : first_free free i (updated.table i) ≡ first_free free i (m.table i) =
        same (first_free free i) i (first_free-mode free i _ _ refl) in
      rw
        (
          e1,
          e2,
          e3,
          lookup_loop-updated key hash fuel ((5 * index + perturb + 1) % 2 ^ 32) (perturb / 32)
              (first_free free i (m.table i)),
        )
        refl

get-new :
    (fuel key value i c f default_value : ℕ) (m : HashMap)
    → hash_lookup fuel m key (m.hfunc key) ≡ ok i
    → hash_get fuel
        (some (
          written i
            (record { key = key; value = value; hash = m.hfunc key; mode = sl_active })
            c
            f
            m))
        key
        default_value
      ≡ ok value
unfolding hash_get
get-new fuel key value i c f default_value m h =
    rw
      (
        lookup_loop-new m key (m.hfunc key) value i c f fuel (bit_and (m.hfunc key) m.mask)
            (m.hfunc key) none (λ q. cc) h,
        ==_refl i,
      )
      refl

get-updated :
    (fuel key value i default_value : ℕ) (m : HashMap)
    → hash_lookup fuel m key (m.hfunc key) ≡ ok i
    → is_sl_active (m.table i).mode ≡ true
    → hash_get fuel (some (updated m i value)) key default_value ≡ ok value
unfolding hash_get
get-updated fuel key value i default_value m h a =
    rw
      (
        lookup_loop-updated m i value key (m.hfunc key) fuel (bit_and (m.hfunc key) m.mask)
            (m.hfunc key) none,
        h,
        ==_refl i,
        a,
      )
      refl

otherwise : {B : Type 0} (b : Bool) (x y : B) → b ≡ false → (if b then x else y) ≡ y
otherwise b x y h = rw h refl

kept :
    {A : Type 0} (mem_alloc : ℕ → A → Ptr × A) (mem_free : ℕ → ℕ → A → A) (fuel key value i : ℕ)
    (m : HashMap) (al : A)
    → is_sl_active (m.table i).mode ≡ false
    → resizing (fill_slot i key value (m.hfunc key) m) ≡ keep
    → hash_set_at mem_alloc mem_free fuel i key value m al
      ≡ ok (pos 0, fill_slot i key value (m.hfunc key) m, al)
unfolding hash_set_at
kept mem_alloc mem_free fuel key value i m al e h =
    otherwise _ _ _ e
    ∙ ap (λ r. resized mem_alloc mem_free fuel r (fill_slot i key value (m.hfunc key) m) al) h

fill_slot-new :
    (i key value hash : ℕ) (m : HashMap)
    → is_sl_active (m.table i).mode ≡ false
    → fill_slot i key value hash m
      ≡ written i
          (record { key = key; value = value; hash = hash; mode = sl_active })
          (m.count + 1)
          (if is_sl_empty (m.table i).mode then m.fill + 1 else m.fill)
          m
unfolding fill_slot
fill_slot-new i key value hash m e = rw e refl

-- The n-th index behind `index` at which the algorithm of the comment, that of CPython's dict, looks.
abbrev pub probe : ℕ → ℕ → ℕ → ℕ
probe zero index perturb = index
probe (suc n) index perturb = probe n ((5 * index + perturb + 1) % 2 ^ 32) (perturb / 32)

-- The search ends where it meets an empty slot, if not before.
lookup_loop-ends :
    (n fuel key hash index perturb : ℕ) (free : Ptr) (m : HashMap)
    → is_sl_empty (m.table (bit_and (probe n index perturb) m.mask)).mode ≡ true
    → n < fuel
    → (i : ℕ) × (lookup_loop fuel m key hash index perturb free ≡ ok i)
unfolding lookup_loop
lookup_loop-ends n zero key hash index perturb free m e h = absurd (omega arith)
lookup_loop-ends zero (suc fuel) key hash index perturb free m e h =
    (or_slot free (bit_and index m.mask), rw e refl)
lookup_loop-ends (suc n) (suc fuel) key hash index perturb free m e h =
    let i = bit_and index m.mask in
    elim (Bool-cases (is_sl_empty (m.table i).mode)) [
      | inl c ↦ (or_slot free i, rw c refl)
      | inr c ↦ elim (Bool-cases (holds m key hash (m.table i))) [
        | inl d ↦ (i, rw (c, d) refl)
        | inr d ↦
            let (j, q) =
              lookup_loop-ends n fuel key hash ((5 * index + perturb + 1) % 2 ^ 32) (perturb / 32)
                (first_free free i (m.table i)) m e (omega arith) in
            (j, rw (c, d) q)
      ]
    ]

-- A table that keeps its size with one more key in it.
pub record HasRoom (m : HashMap) : Type 0 where
  pub not_full : 3 * (m.fill + 1) < 2 * (m.mask + 1)
  pub not_sparse : (m.mask + 1 ≤ hash_minsize) ⊎ (m.mask + 1 < 4 * (m.count + 1))

HasRoom-keep :
    (i key value hash : ℕ) (m : HashMap)
    → HasRoom m
    → is_sl_active (m.table i).mode ≡ false
    → resizing (fill_slot i key value hash m) ≡ keep
unfolding resizing fill_slot
HasRoom-keep i key value hash m r e = rw e (
    let full : leb (2 * (m.mask + 1))
          (3 * (if is_sl_empty (m.table i).mode then m.fill + 1 else m.fill))
        ≡ false =
      ground (arith, r.not_full) in
    let sparse : (ltb hash_minsize (m.mask + 1) && leb (4 * (m.count + 1)) (m.mask + 1)) ≡ false =
      elim r.not_sparse [ inl q ↦ ground arith | inr q ↦ ground arith ] in
    rw (full, sparse) refl)

-- Where one of the first `fuel` slots that the search for the key looks at is empty, hash_set ends and
-- returns 0, and hash_get of this key then ends and gives the value, for every default; both loops
-- have `fuel` rounds. The table has room for one more key, so that it keeps its size.
pub hash_set-get :
    {A : Type 0} (mem_alloc : ℕ → A → Ptr × A) (mem_free : ℕ → ℕ → A → A)
    (fuel n key value default_value : ℕ) (m : HashMap) (al : A)
    → is_sl_empty
        (m.table (bit_and (probe n (bit_and (m.hfunc key) m.mask) (m.hfunc key)) m.mask)).mode
      ≡ true
    → n < fuel
    → HasRoom m
    → Returns {A = ℤ × Option HashMap × A}
        (λ out. (out.0 ≡ pos 0) × (hash_get fuel out.1 key default_value ≡ ok value))
        (hash_set mem_alloc mem_free fuel (some m) key value al)
unfolding hash_set hash_lookup
hash_set-get mem_alloc mem_free fuel n key value default_value m al empty enough room =
    let (i, h) =
      lookup_loop-ends n fuel key (m.hfunc key) (bit_and (m.hfunc key) m.mask) (m.hfunc key) none m
        empty enough in
    rw h (elim (Bool-cases (is_sl_active (m.table i).mode)) [
      | inl e ↦ rw e (refl, get-updated fuel key value i default_value m h e)
      | inr e ↦
          rw
            (
              kept mem_alloc mem_free fuel key value i m al e
                  (HasRoom-keep i key value (m.hfunc key) m room e),
              fill_slot-new i key value (m.hfunc key) m e,
            )
            (refl, get-new fuel key value i (m.count + 1) _ default_value m h)
    ])
