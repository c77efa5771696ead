-- ===== src/Segments/Tables/Traps.antt =====
-- cpu_init of kernel/boot/processor_structs.c: the segments of the kernel and of its user, and how an
-- exception finds its task.
use projet_pcsea.Common.{
  ℕ, zero, suc, ◌+◌, ◌*◌, ◌/◌, ◌^◌, ◌≤◌, ◌<◌, ◌≡◌, refl, true, false, ◌==◌, leb, ltb, Bool-cases,
  inl, inr, if◌then◌else◌, ◌&&◌, arith, ap, sym, ◌∙◌,
}
use projet_pcsea.Segments.{
  kernel_cs, kernel_ds, user_cs, user_ds, fill_descriptor, access_byte, gate_selector,
}
use projet_pcsea.Segments.Fields.{Describes, Leads, fill_descriptor-Describes, fill_gate-Leads}
use projet_pcsea.Segments.Tables.{
  X86Tss, Layout, Cpu, fill_trap_descriptors, fill_segments, setup_gdt, fill_trap_tss, trap_gate,
  fill_traps, setup_idt, setup_tss, cpu_init, blank, gdt_entries, idt_entries,
}

-- A loop that writes entry `i` and then those behind it writes all from `i` on.
module _ {A : Type 0} (n i k : ℕ) (new here old : A) (same : k ≡ i → here ≡ new) where
  one_more :
      (if leb (suc i) k && ltb k (suc i + n) then new else if k == i then here else old)
      ≡ (if leb i k && ltb k (i + suc n) then new else old)
  one_more = elim (Bool-cases (k == i)) [
    | inl e ↦
        let q : k ≡ i = ground arith in
        let a : leb (suc i) k ≡ false = ground arith in
        let b : (leb i k && ltb k (i + suc n)) ≡ true = ground arith in rw (a, b, e) (same q)
    | inr e ↦
        let a : (leb (suc i) k && ltb k (suc i + n)) ≡ (leb i k && ltb k (i + suc n)) =
          ground arith in
        rw (a, e) refl
  ]

-- The entries of the table from 10 on, after the loop of setup_gdt, and those before.
trap_descriptors :
    (n i k : ℕ) (at : Layout) (gdt : ℕ → ℕ)
    → fill_trap_descriptors n i at gdt (k + 10) ≡ (
        if leb i k && ltb k (i + n)
        then fill_descriptor (at.trap_tss_address + 104 * k) 103 0x89 0
        else gdt (k + 10))
unfolding fill_trap_descriptors
trap_descriptors zero i k at gdt = ground arith
trap_descriptors (suc n) i k at gdt =
    let e : ((k + 10) == (i + 10)) ≡ (k == i) = ground arith in
    trap_descriptors n (suc i) k at _
    ∙ rw e (
        one_more n i k _ _ (gdt (k + 10))
          (λ q. ap (λ t. fill_descriptor (at.trap_tss_address + 104 * t) 103 0x89 0) (sym q)))

before_traps :
    (n i k : ℕ) (at : Layout) (gdt : ℕ → ℕ) → k < 10 → fill_trap_descriptors n i at gdt k ≡ gdt k
unfolding fill_trap_descriptors
before_traps zero i k at gdt h = refl
before_traps (suc n) i k at gdt h =
    let e : (k == (i + 10)) ≡ false = ground arith in before_traps n (suc i) k at _ h ∙ rw e refl

traps_idt :
    (n i k : ℕ) (at : Layout) (t : ℕ → X86Tss) (g : ℕ → ℕ)
    → (fill_traps n i at (t, g)).1 k ≡ (if leb i k && ltb k (i + n) then trap_gate k else g k)
unfolding fill_traps
traps_idt zero i k at t g = ground arith
traps_idt (suc n) i k at t g =
    traps_idt n (suc i) k at _ _ ∙ one_more n i k _ _ (g k) (λ e. ap trap_gate (sym e))

traps_tss :
    (n i k : ℕ) (at : Layout) (t : ℕ → X86Tss) (g : ℕ → ℕ)
    → (fill_traps n i at (t, g)).0 k
      ≡ (if leb i k && ltb k (i + n) then fill_trap_tss at k (t k) else t k)
unfolding fill_traps
traps_tss zero i k at t g = ground arith
traps_tss (suc n) i k at t g = elim (Bool-cases (k == i)) [
  | inl e ↦
      let q : k ≡ i = ground arith in
      let a : leb (suc i) k ≡ false = ground arith in
      let b : (leb i k && ltb k (i + suc n)) ≡ true = ground arith in
      traps_tss n (suc i) k at _ _ ∙ rw (a, b, e) (ap (λ j. fill_trap_tss at j (t j)) (sym q))
  | inr e ↦
      let a : (leb (suc i) k && ltb k (suc i + n)) ≡ (leb i k && ltb k (i + suc n)) =
        ground arith in
      traps_tss n (suc i) k at _ _ ∙ rw (a, e) refl
]

-- A segment of all 4 GB, at the privilege level and with the type of `access`.
abbrev pub Flat : ℕ → ℕ → Type 0
Flat access = Describes 0 0xffffffff access 4

-- The registers, and the segments that they and the selectors refer to.
pub record Segmented (at : Layout) (c : Cpu) : Type 0 where
  pub kernel_code : Flat 0x1a (c.gdt (c.cs / 8))
  pub kernel_data : Flat 0x12 (c.gdt (c.ds / 8))
  pub kernel_stack : c.ss ≡ c.ds
  pub user_code : Flat 0x7a (c.gdt (user_cs / 8))
  pub user_data : Flat 0x72 (c.gdt (user_ds / 8))
  pub task : Describes at.tss_address 103 0x89 0 (c.gdt (c.tr / 8))
  pub task_stack : c.tss.esp0 ≡ at.first_stack + 16384
  pub no_selector_0 : c.gdt 0 ≡ 0

-- An exception `i` goes by a task gate, which a program may call if `i` is 3, to the task segment
-- of its own, in which its handler starts on the trap stack, with the kernel's segments and page
-- directory.
pub record Handled (at : Layout) (i : ℕ) (c : Cpu) : Type 0 where
  pub gate : access_byte (c.idt i) ≡ (if i == 3 then 0xe5 else 0x85)
  pub task :
      Describes (at.trap_tss_address + 104 * i) 103 0x89 0 (c.gdt (gate_selector (c.idt i) / 8))
  pub handler : (c.trap_tss i).eip ≡ at.exception_handler_tasks i
  pub code : (c.trap_tss i).cs ≡ kernel_cs
  pub stack : ((c.trap_tss i).ss ≡ kernel_ds) × ((c.trap_tss i).esp ≡ at.trap_stack + 16384)
  pub directory : (c.trap_tss i).cr3 ≡ at.pgdir

trap_gate-Leads :
    (i : ℕ) → i < 32 → Leads 0 (80 + 8 * i) (5 + (if i == 3 then 0x60 else 0)) (trap_gate i)
unfolding trap_gate
trap_gate-Leads i h =
    fill_gate-Leads 0 (80 + 8 * i) (5 + (if i == 3 then 0x60 else 0)) (omega arith) (omega arith)
      (ground arith)

module _ {S : Type 0} (outb : ℕ → ℕ → S → S) (at : Layout) (c : Cpu) (s : S) where
  -- cpu_init leaves the segment registers on flat segments of the kernel, the selectors of the user on
  -- flat segments at level 3, and the task register on the task segment, whose stack is the first one;
  -- selector 0 refers to nothing. The task segment has an address of 32 bits.
  pub cpu_init-Segmented : at.tss_address < 2 ^ 32 → Segmented at (cpu_init outb at (c, s)).0
  unfolding cpu_init setup_tss setup_idt setup_gdt fill_segments
  cpu_init-Segmented h =
      let old : (k : ℕ) → k < 10 → _ =
        λ (k : ℕ) l. before_traps 32 0 k at (fill_segments at (blank gdt_entries c.gdt)) l in
      let flat : (access : ℕ) → Flat access (fill_descriptor 0 0xffffffff access 4) = λ access.
        fill_descriptor-Describes 0 0xffffffff access 4 (omega arith) (omega arith) (omega arith) in
      record {
        kernel_code = rw (old 2 (omega arith)) (flat 0x1a);
        kernel_data = rw (old 3 (omega arith)) (flat 0x12);
        kernel_stack = refl;
        user_code = rw (old 8 (omega arith)) (flat 0x7a);
        user_data = rw (old 9 (omega arith)) (flat 0x72);
        task =
            rw (old 1 (omega arith))
              (fill_descriptor-Describes at.tss_address 103 0x89 0 h (omega arith) (omega arith));
        task_stack = refl;
        no_selector_0 = old 0 (omega arith);
      }

  -- After cpu_init each of the 32 exceptions goes by a task gate to a task segment of its own, in which
  -- its handler starts on the trap stack. The task segments lie in the 32-bit address space.
  pub cpu_init-Handled :
      (i : ℕ)
      → i < 32
      → at.trap_tss_address + 104 * 32 ≤ 2 ^ 32
      → Handled at i (cpu_init outb at (c, s)).0
  unfolding cpu_init setup_tss setup_idt setup_gdt fill_trap_tss
  cpu_init-Handled i h room =
      let range : (leb 0 i && ltb i (0 + 32)) ≡ true = ground arith in
      let g : (fill_traps 32 0 at (c.trap_tss, blank idt_entries c.idt)).1 i ≡ trap_gate i =
        traps_idt 32 0 i at _ _ ∙ rw range refl in
      let t : (fill_traps 32 0 at (c.trap_tss, blank idt_entries c.idt)).0 i
          ≡ fill_trap_tss at i (c.trap_tss i) =
        traps_tss 32 0 i at _ _ ∙ rw range refl in
      let d : fill_trap_descriptors 32 0 at (fill_segments at (blank gdt_entries c.gdt)) (i + 10)
          ≡ fill_descriptor (at.trap_tss_address + 104 * i) 103 0x89 0 =
        trap_descriptors 32 0 i at _ ∙ rw range refl in
      let l = trap_gate-Leads i h in
      let k : gate_selector (trap_gate i) / 8 ≡ i + 10 = omega (arith, l.segment) in
      record {
        gate = rw g (l.rights ∙ ground arith);
        task =
            rw (g, k, d)
              (fill_descriptor-Describes (at.trap_tss_address + 104 * i) 103 0x89 0 (omega arith)
                (omega arith) (omega arith));
        handler = ap (λ x. x.eip) t;
        code = ap (λ x. x.cs) t;
        stack = (ap (λ x. x.ss) t, ap (λ x. x.esp) t);
        directory = ap (λ x. x.cr3) t;
      }
