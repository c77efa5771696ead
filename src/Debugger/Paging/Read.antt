-- ===== src/Debugger/Paging/Read.antt =====
-- gdb_copyin of kernel/gdb_serial_support.c: it copies across pages, byte by byte as the page tables say.
use projet_pcsea.Common.{
  ℕ, zero, suc, ◌+◌, ◌-◌, ◌%◌, ◌^◌, ◌≤◌, ◌<◌, ◌≡◌, ◌≢◌, ◌⊎◌, refl, true, false, ◌==◌, leb, ltb,
  ◌&&◌, Bool-cases, inl, inr, arith, ap, sym, ◌∙◌,
}
use mathlib.Core.Path.{subst}
use projet_pcsea.Common.Int.{ℤ, pos, minus_one}
use projet_pcsea.Common.Outcome.{ok, Returns, Returns-mono}
use projet_pcsea.Debugger.Paging.{Bytes, Client, memcpy, smaller, copyin_loop, gdb_copyin}
use projet_pcsea.Debugger.Paging.Copy.{paddr, room, lookup-Within}

-- Every byte from `src` on and before `src + size` that is asked for has arrived, or the result is -1
-- because one of them is not there; nothing else is written.
pub record Read (client : Client) (bytes : Bytes) (src dest size : ℕ) (before : Bytes) (r : ℤ)
    (after : Bytes) : Type 0 where
  pub all :
      ((k : ℕ) → k < size → room client bytes (src + k) ≢ 0)
      → (r ≡ pos 0) × ((k : ℕ) → k < size → after (dest + k) ≡ bytes (paddr client bytes (src + k)))
  pub missing : (k : ℕ) → k < size → room client bytes (src + k) ≡ 0 → r ≡ minus_one
  pub outside : (a : ℕ) → (a < dest) ⊎ (dest + size ≤ a) → after a ≡ before a

==→≡ : (a b : ℕ) → (a == b) ≡ true → a ≡ b
==→≡ a b e = ground arith

smaller-bounds :
    (r size : ℕ)
    → 1 ≤ size
    → (r == 0) ≡ false
    → (1 ≤ smaller r size) × (smaller r size ≤ r) × (smaller r size ≤ size)
smaller-bounds r size n e = elim (Bool-cases (ltb size r)) [
  | inl l ↦ rw l (n, ground arith, omega arith)
  | inr l ↦ rw l (ground arith, omega arith, ground arith)
]

module _ (client : Client) (bytes : Bytes) (saved : ℕ) where
  loop-done :
      (fuel src dest : ℕ) (buffer : Bytes)
      → copyin_loop (suc fuel) client saved bytes src dest 0 buffer ≡ ok (pos 0, buffer, saved)
  unfolding copyin_loop
  loop-done fuel src dest buffer = refl

  module _ (fuel src dest size : ℕ) (buffer : Bytes) (more : size == 0 ≡ false) where
    loop-stop :
        (room client bytes src == 0) ≡ true
        → copyin_loop (suc fuel) client saved bytes src dest size buffer
          ≡ ok (minus_one, buffer, saved)
    unfolding copyin_loop
    loop-stop e = rw (more, e) refl

    loop-next :
        (room client bytes src == 0) ≡ false
        → copyin_loop (suc fuel) client saved bytes src dest size buffer ≡ (
            let sz = smaller (room client bytes src) size in
            copyin_loop fuel client saved bytes
              ((src + sz) % 2 ^ 32)
              (dest + sz)
              (size - sz)
              (memcpy dest (paddr client bytes src) sz bytes buffer))
    unfolding copyin_loop
    loop-next e = rw (more, e) refl

  -- A chunk of `sz` bytes, and then the rest.
  module _ (src dest size sz : ℕ) (before : Bytes) (r : ℤ) (after : Bytes) (s : sz ≤ size)
      (there : (k : ℕ)
        → k < sz
        → (paddr client bytes (src + k) ≡ paddr client bytes src + k)
          × (room client bytes (src + k) ≢ 0))
      (rest : Read client bytes
        (src + sz)
        (dest + sz)
        (size - sz)
        (memcpy dest (paddr client bytes src) sz bytes before)
        r
        after) where
    chunk-byte : (k : ℕ) → k < sz → after (dest + k) ≡ bytes (paddr client bytes (src + k))
    chunk-byte k h =
        let t : (leb dest (dest + k) && ltb (dest + k) (dest + sz)) ≡ true = ground arith in
        let d : dest + k - dest ≡ k = omega arith in
        rest.outside (dest + k) (inl (omega arith)) ∙ rw (t, d) (ap bytes (sym (there k h).0))

    shifted : (k : ℕ) → sz ≤ k → src + sz + (k - sz) ≡ src + k
    shifted k h = omega arith

    chunk-rest :
        ((k : ℕ) → k < size → room client bytes (src + k) ≢ 0)
        → (k : ℕ) → k < size - sz
        → room client bytes (src + sz + k) ≢ 0
    chunk-rest f k h =
        let e : src + (sz + k) ≡ src + sz + k = omega arith in
        subst (λ a. room client bytes a ≢ 0) e (f (sz + k) (omega arith))

    chunk-Read : Read client bytes src dest size before r after
    chunk-Read = record {
      all = λ f. (
        (rest.all (chunk-rest f)).0,
        λ k h. elim (Bool-cases (ltb k sz)) [
          | inl e ↦ chunk-byte k (ground arith)
          | inr e ↦
              let l : sz ≤ k = ground arith in
              let d : dest + sz + (k - sz) ≡ dest + k = omega arith in
              ap after (sym d)
              ∙ (rest.all (chunk-rest f)).1 (k - sz) (omega arith)
              ∙ ap (λ a. bytes (paddr client bytes a)) (shifted k l)
        ],
      );
      missing = λ k h e. elim (Bool-cases (ltb k sz)) [
        | inl t ↦ absurd ((there k (ground arith)).1 e)
        | inr t ↦
            let l : sz ≤ k = ground arith in
            rest.missing (k - sz) (omega arith) (ap (room client bytes) (shifted k l) ∙ e)
      ];
      outside = λ a h.
          let t : (leb dest a && ltb a (dest + sz)) ≡ false = elim h [
            | inl q ↦ ground arith
            | inr q ↦ ground arith
          ] in
          rest.outside a (elim h [ inl q ↦ inl (omega arith) | inr q ↦ inr (omega arith) ])
          ∙ rw t refl;
    }

  nothing-Read :
      (src dest : ℕ) (buffer : Bytes) → Read client bytes src dest 0 buffer (pos 0) buffer
  nothing-Read src dest buffer = record {
    all = λ f. (refl, λ k h. absurd (omega arith));
    missing = λ k h e. absurd (omega arith);
    outside = λ a h. refl;
  }

  -- The rest of a copy, from where the address may have wrapped around, if nothing is left.
  rest-Read :
      (fuel src dest size : ℕ) (buffer : Bytes)
      → src + size ≤ 2 ^ 32
      → (src < 2 ^ 32
          → Returns
              (λ out. Read client bytes src dest size buffer out.0 out.1 × (out.2 ≡ saved))
              (copyin_loop (suc fuel) client saved bytes src dest size buffer))
      → Returns
          (λ out. Read client bytes src dest size buffer out.0 out.1 × (out.2 ≡ saved))
          (copyin_loop (suc fuel) client saved bytes (src % 2 ^ 32) dest size buffer)
  rest-Read fuel src dest zero buffer w go =
      rw (loop-done fuel (src % 2 ^ 32) dest buffer) (nothing-Read src dest buffer, refl)
  rest-Read fuel src dest (suc size) buffer w go =
      let e : src % 2 ^ 32 ≡ src = omega arith in rw e (go (omega arith))

  copyin_loop-Read :
      (fuel src dest size : ℕ) (buffer : Bytes)
      → size ≤ fuel
      → src + size ≤ 2 ^ 32
      → Returns
          (λ out. Read client bytes src dest size buffer out.0 out.1 × (out.2 ≡ saved))
          (copyin_loop (suc fuel) client saved bytes src dest size buffer)
  copyin_loop-Read fuel src dest zero buffer f w =
      rw (loop-done fuel src dest buffer) (nothing-Read src dest buffer, refl)
  copyin_loop-Read zero src dest (suc size) buffer f w = absurd (omega arith)
  copyin_loop-Read (suc fuel) src dest (suc size) buffer f w =
      let more : (suc size == 0) ≡ false = ground arith in
      elim (Bool-cases (room client bytes src == 0)) [
        | inl e ↦
            let z : room client bytes (src + 0) ≡ 0 =
              ap (room client bytes) (omega arith) ∙ ==→≡ (room client bytes src) 0 e in
            rw (loop-stop (suc fuel) src dest (suc size) buffer more e) (
              record {
                all = λ g. absurd (g 0 (omega arith) z);
                missing = λ k h z. refl;
                outside = λ a h. refl;
              },
              refl,
            )
        | inr e ↦
            let sz = smaller (room client bytes src) (suc size) in
            let b = smaller-bounds (room client bytes src) (suc size) (omega arith) e in
            rw (loop-next (suc fuel) src dest (suc size) buffer more e) (
              Returns-mono _
                (copyin_loop (suc fuel) client saved bytes ((src + sz) % 2 ^ 32) (dest + sz)
                  (suc size - sz) (memcpy dest (paddr client bytes src) sz bytes buffer))
                (rest-Read fuel (src + sz) (dest + sz) (suc size - sz) _ (omega arith) (λ l.
                  copyin_loop-Read fuel (src + sz) (dest + sz) (suc size - sz) _ (omega arith)
                    (omega arith)))
                (λ out (q, c). (
                  chunk-Read src dest (suc size) sz buffer out.0 out.1 (omega arith)
                      (λ k h. lookup-Within client bytes src k (omega arith) (omega arith)) q,
                  c,
                )))
      ]

-- gdb_copyin returns, with the register cr0 as it was. It gives 0 with every byte of the range in the
-- buffer, as the page tables say where it is, if all of them are mapped, and -1 if one is not; it writes
-- nothing outside the range of the buffer. The range does not go beyond the 32-bit address space, the buffer is
-- apart from the memory, and the loop has more rounds than there are bytes.
pub gdb_copyin-Read :
    (client : Client) (cr0 fuel src dest size : ℕ) (bytes buffer : Bytes)
    → size ≤ fuel
    → src + size ≤ 2 ^ 32
    → Returns
        (λ out. Read client bytes src dest size buffer out.0 out.1 × (out.2 ≡ cr0))
        (gdb_copyin (suc fuel) client cr0 bytes src dest size buffer)
unfolding gdb_copyin
gdb_copyin-Read client cr0 fuel src dest size bytes buffer f w =
    copyin_loop-Read client bytes cr0 fuel src dest size buffer f w
