-- ===== src/Sbrk.antt =====
-- The program break: sbrk of kernel/mem.c, over the kernel's heap, and of user/lib/sbrk.c, over a
-- fixed one. The two have the same text, and differ in the bounds of the heap.
use projet_pcsea.Common.{
  ℕ, suc, ◌+◌, ◌-◌, ◌%◌, ◌^◌, ◌≤◌, ◌<◌, ◌≡◌, refl, true, false, ltb, ◌||◌, Bool-cases, ◌⊎◌, inl,
  inr, if◌then◌else◌, arith,
}
use projet_pcsea.Common.Int.{ℤ, pos, negsuc}

-- Pointers are 32-bit words, and the increment a signed one.
abbrev pub moved : ℕ → ℤ → ℕ
moved s (pos n) = (s + n) % 2 ^ 32
moved s (negsuc n) = (s + 2 ^ 32 - suc n) % 2 ^ 32

-- The result, which is (void *)-1 on an error, and `curptr` (`current`) afterwards.
unfoldable pub sbrk : ℕ → ℤ → ℕ → ℕ × ℕ
sbrk mem_heap_end diff curptr =
    let c = moved curptr diff in
    if ltb c curptr || ltb mem_heap_end c then (2 ^ 32 - 1, curptr) else (curptr, c)

-- A growth by n bytes either fails, and changes nothing, or gives the old break as the start of n
-- bytes that end at the new one, within the heap.
pub sbrk-grows :
    (mem_heap_end n curptr : ℕ)
    → mem_heap_end < 2 ^ 32
    → curptr ≤ mem_heap_end
    → n < 2 ^ 31
    → ((sbrk mem_heap_end (pos n) curptr ≡ (2 ^ 32 - 1, curptr)) × (mem_heap_end < curptr + n))
      ⊎ ((sbrk mem_heap_end (pos n) curptr ≡ (curptr, curptr + n)) × (curptr + n ≤ mem_heap_end))
unfolding sbrk
sbrk-grows mem_heap_end n curptr top inside small =
    elim (Bool-cases (ltb mem_heap_end (curptr + n))) [
      | inl e ↦
          let t : (ltb ((curptr + n) % 2 ^ 32) curptr || ltb mem_heap_end ((curptr + n) % 2 ^ 32))
              ≡ true =
            ground arith in
          inl (rw t refl, ground arith)
      | inr e ↦
          let w : (curptr + n) % 2 ^ 32 ≡ curptr + n = ground arith in
          let t : (ltb (curptr + n) curptr || ltb mem_heap_end (curptr + n)) ≡ false =
            ground arith in
          inr (rw (w, t) refl, ground arith)
    ]
