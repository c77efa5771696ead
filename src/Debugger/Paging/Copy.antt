-- ===== src/Debugger/Paging/Copy.antt =====
-- gdb_copyin of kernel/gdb_serial_support.c: it copies across pages, byte by byte as the page tables say.
use Prim.Native.Nat.{bit_and}
use projet_pcsea.Common.{
  ℕ, ◌+◌, ◌*◌, ◌-◌, ◌%◌, ◌/◌, ◌^◌, ◌<◌, ◌≡◌, ◌≢◌, refl, true, false, ◌==◌, Bool-cases, inl, inr,
  arith, ap, sym, ◌∙◌,
}
use projet_pcsea.Common.Bits.{bit_and-low}
use projet_pcsea.Debugger.Paging.{Bytes, word, Client, lin2pdenum, lin2ptenum, phys_addr_lookup}

abbrev pub paddr : Client → Bytes → ℕ → ℕ
paddr client bytes va = (phys_addr_lookup client bytes va).0

-- How many bytes are there from `va` on; 0 where nothing is mapped.
abbrev pub room : Client → Bytes → ℕ → ℕ
room client bytes va = (phys_addr_lookup client bytes va).1

abbrev pub pde : Client → Bytes → ℕ → ℕ
pde client bytes va = word bytes (bit_and client.cr3 0xfffff000 + 4 * lin2pdenum va)

abbrev pub pte : Client → Bytes → ℕ → ℕ
pte client bytes va = word bytes (bit_and (pde client bytes va) 0xfffff000 + 4 * lin2ptenum va)

-- What a look-up gives, by the bits that it tests.
module _ (client : Client) (bytes : Bytes) (va : ℕ) where
  pub lookup-off :
      (bit_and client.cr0 0x80000000 == 0) ≡ true
      → phys_addr_lookup client bytes va ≡ (va, 0xffffffff)
  unfolding phys_addr_lookup
  lookup-off e = rw e refl

  module _ (on : (bit_and client.cr0 0x80000000 == 0) ≡ false) where
    pub lookup-absent :
        (bit_and (pde client bytes va) 1 == 0) ≡ true → phys_addr_lookup client bytes va ≡ (0, 0)
    unfolding phys_addr_lookup
    lookup-absent e = rw (on, e) refl

    module _ (valid : (bit_and (pde client bytes va) 1 == 0) ≡ false) where
      pub lookup-hole :
          (bit_and (pde client bytes va) 0x80 == 0) ≡ true
          → (bit_and (pte client bytes va) 1 == 0) ≡ true
          → phys_addr_lookup client bytes va ≡ (0, 0)
      unfolding phys_addr_lookup
      lookup-hole e f = rw (on, valid, e, f) refl

      pub lookup-small :
          (bit_and (pde client bytes va) 0x80 == 0) ≡ true
          → (bit_and (pte client bytes va) 1 == 0) ≡ false
          → phys_addr_lookup client bytes va
            ≡ (bit_and (pte client bytes va) 0xfffff000 + va % 4096, 4096 - va % 4096)
      unfolding phys_addr_lookup
      lookup-small e f = rw (on, valid, e, f, bit_and-low 12 va) refl

      pub lookup-large :
          (bit_and (pde client bytes va) 0x80 == 0) ≡ false
          → phys_addr_lookup client bytes va
            ≡ (bit_and (pde client bytes va) 0xffc00000 + va % 2 ^ 22, 2 ^ 22 - va % 2 ^ 22)
      unfolding phys_addr_lookup
      lookup-large e = rw (on, valid, e, bit_and-low 22 va) refl

-- The byte `k` behind `va` is where the look-up of `va` says, as the look-up of its own address says.
abbrev pub Within : Client → Bytes → ℕ → ℕ → Type 0
Within client bytes va k =
    (paddr client bytes (va + k) ≡ paddr client bytes va + k) × (room client bytes (va + k) ≢ 0)

module _ (client : Client) (bytes : Bytes) (va k : ℕ) (w : va + k < 2 ^ 32) where
  same_pde : (va + k) / 2 ^ 22 ≡ va / 2 ^ 22 → pde client bytes (va + k) ≡ pde client bytes va
  same_pde e = ap (λ t. word bytes (bit_and client.cr3 0xfffff000 + 4 * bit_and t 0x3ff)) e

  same_pte : (va + k) / 2 ^ 12 ≡ va / 2 ^ 12 → pte client bytes (va + k) ≡ pte client bytes va
  same_pte e =
      let d : (va + k) / 2 ^ 22 ≡ va / 2 ^ 22 = omega arith in
      ap (λ t. word bytes (bit_and t 0xfffff000 + 4 * lin2ptenum (va + k))) (same_pde d)
      ∙ ap (λ t. word bytes (bit_and (pde client bytes va) 0xfffff000 + 4 * bit_and t 0x3ff)) e

  off-Within : (bit_and client.cr0 0x80000000 == 0) ≡ true → Within client bytes va k
  off-Within e =
      let l = lookup-off client bytes (va + k) e in
      (
        ap (λ x. x.0) l ∙ ap (λ x. x.0 + k) (sym (lookup-off client bytes va e)),
        λ z. absurd (omega (arith, ap (λ x. x.1) l)),
      )

  module _ (on : (bit_and client.cr0 0x80000000 == 0) ≡ false)
      (valid : (bit_and (pde client bytes va) 1 == 0) ≡ false) where
    small-Within :
        (bit_and (pde client bytes va) 0x80 == 0) ≡ true
        → (bit_and (pte client bytes va) 1 == 0) ≡ false
        → k < room client bytes va
        → Within client bytes va k
    small-Within e f h =
        let r : room client bytes va ≡ 4096 - va % 4096 =
          ap (λ x. x.1) (lookup-small client bytes va on valid e f) in
        let d : pde client bytes (va + k) ≡ pde client bytes va = same_pde (omega arith) in
        let t : pte client bytes (va + k) ≡ pte client bytes va = same_pte (omega arith) in
        let v' : (bit_and (pde client bytes (va + k)) 1 == 0) ≡ false =
          ap (λ x. bit_and x 1 == 0) d ∙ valid in
        let e' : (bit_and (pde client bytes (va + k)) 0x80 == 0) ≡ true =
          ap (λ x. bit_and x 0x80 == 0) d ∙ e in
        let f' : (bit_and (pte client bytes (va + k)) 1 == 0) ≡ false =
          ap (λ x. bit_and x 1 == 0) t ∙ f in
        let l = lookup-small client bytes (va + k) on v' e' f' in
        (
          ap (λ x. x.0) l
              ∙ omega (
                arith,
                ap (λ x. bit_and x 0xfffff000) t,
                ap (λ x. x.0) (lookup-small client bytes va on valid e f),
              ),
          λ z. absurd (omega (arith, ap (λ x. x.1) l)),
        )

    large-Within :
        (bit_and (pde client bytes va) 0x80 == 0) ≡ false
        → k < room client bytes va
        → Within client bytes va k
    large-Within e h =
        let r : room client bytes va ≡ 2 ^ 22 - va % 2 ^ 22 =
          ap (λ x. x.1) (lookup-large client bytes va on valid e) in
        let d : pde client bytes (va + k) ≡ pde client bytes va = same_pde (omega arith) in
        let v' : (bit_and (pde client bytes (va + k)) 1 == 0) ≡ false =
          ap (λ x. bit_and x 1 == 0) d ∙ valid in
        let e' : (bit_and (pde client bytes (va + k)) 0x80 == 0) ≡ false =
          ap (λ x. bit_and x 0x80 == 0) d ∙ e in
        let l = lookup-large client bytes (va + k) on v' e' in
        (
          ap (λ x. x.0) l
              ∙ omega (
                arith,
                ap (λ x. bit_and x 0xffc00000) d,
                ap (λ x. x.0) (lookup-large client bytes va on valid e),
              ),
          λ z. absurd (omega (arith, ap (λ x. x.1) l)),
        )

  -- The bytes that a look-up promises are where it says.
  pub lookup-Within : k < room client bytes va → Within client bytes va k
  lookup-Within h = elim (Bool-cases (bit_and client.cr0 0x80000000 == 0)) [
    | inl off ↦ off-Within off
    | inr on ↦ elim (Bool-cases (bit_and (pde client bytes va) 1 == 0)) [
      | inl a ↦ absurd (omega (arith, ap (λ x. x.1) (lookup-absent client bytes va on a)))
      | inr valid ↦ elim (Bool-cases (bit_and (pde client bytes va) 0x80 == 0)) [
        | inl e ↦ elim (Bool-cases (bit_and (pte client bytes va) 1 == 0)) [
          | inl f ↦ absurd (omega (arith, ap (λ x. x.1) (lookup-hole client bytes va on valid e f)))
          | inr f ↦ small-Within on valid e f h
        ]
        | inr e ↦ large-Within on valid e h
      ]
    ]
  ]
