-- ===== src/Message/Create.antt =====
-- pcreate of kernel/message.c: the queue it gives, and what can be done with it.
use projet_pcsea.Common.{
  ℕ, ◌^◌, ◌%◌, zero, suc, ◌≡◌, ◌≢◌, refl, ◌∙◌, ap, ◌+◌, ◌*◌, ==_refl, ==_ne, ◌≤◌, ◌<◌, true, false,
  none, some, [], ◌⊎◌, inl, inr, arith, Bool-cases, ltb, leb,
}
use projet_pcsea.Common.Int.{ℤ, pos, minus_one}
use projet_pcsea.Proc.State.{Ptr}
use projet_pcsea.Message.{
  nbqueue, FifoMessages, Messages, find_location, invalid, bad_fid, create, pcreate,
}
use projet_pcsea.Message.Buffer.{contents}
use projet_pcsea.Message.Exchange.{Ready}

-- The first queue that is not used, among `n` from `i` on.
record FirstFree (n i : ℕ) (tab : ℕ → FifoMessages) : Type 0 where
  place : ℕ
  found : find_location n i tab ≡ some place
  from : i ≤ place
  below : place < i + n
  unused : (tab place).used ≡ false
  earlier : (j : ℕ) → i ≤ j → j < place → (tab j).used ≡ true

abbrev pub AllUsed : ℕ → ℕ → (ℕ → FifoMessages) → Type 0
AllUsed n i tab = (j : ℕ) → i ≤ j → j < i + n → (tab j).used ≡ true

used_from :
    (tab : ℕ → FifoMessages) (i j : ℕ)
    → (tab i).used ≡ true
    → i ≤ j
    → (i < j → (tab j).used ≡ true)
    → (tab j).used ≡ true
used_from tab i j u l f = elim (Bool-cases (ltb i j)) [
  | inl e ↦ f (ground arith)
  | inr e ↦ let same : j ≡ i = ground arith in ap (λ k. (tab k).used) same ∙ u
]

find_location-first :
    (n i : ℕ) (tab : ℕ → FifoMessages)
    → ((find_location n i tab ≡ none) × AllUsed n i tab) ⊎ FirstFree n i tab
unfolding find_location
find_location-first zero i tab = inl (refl, λ j l b. absurd (omega arith))
find_location-first (suc n) i tab = elim (Bool-cases (tab i).used) [
  | inr free ↦ inr (record {
    place = i;
    found = rw free refl;
    from = omega arith;
    below = omega arith;
    unused = free;
    earlier = λ j l b. absurd (omega arith);
  })
  | inl taken ↦ elim (find_location-first n (suc i) tab) [
    | inl all ↦ inl (
      rw taken all.0,
      λ j l b. used_from tab i j taken l (λ h. all.1 j (omega arith) (omega arith)),
    )
    | inr first ↦ inr (record {
      place = first.place;
      found = rw taken first.found;
      from = omega (arith, first.from);
      below = omega (arith, first.below);
      unused = first.unused;
      earlier = λ j l b. used_from tab i j taken l (λ h. first.earlier j (omega arith) b);
    })
  ]
]

-- What pcreate does for a caller `tmp` that no queue's end concerns: queue `i` is its, for `count`
-- messages, empty and ready for psend and preceive, and the other queues are as they were.
pub record Opened {A : Type 0} (count tmp : ℕ) (m : Messages A) (out : ℤ × Messages A)
    : Type 0 where
  pub i : ℕ
  pub number_of : out.0 ≡ pos i
  pub below : i < nbqueue
  pub unused : (m.fifo_tab i).used ≡ false
  pub earlier : (j : ℕ) → j < i → (m.fifo_tab j).used ≡ true
  pub ready : Ready (pos i) tmp out.1
  pub empty : contents (out.1.fifo_tab i) ≡ []
  pub room : (out.1.fifo_tab i).size ≡ count
  pub others : (j : ℕ) → j ≢ i → out.1.fifo_tab j ≡ m.fifo_tab j
  pub sched : out.1.sched ≡ m.sched

module _ {A : Type 0} (mem_alloc : ℕ → A → Ptr × A) (mem_free : ℕ → ℕ → A → A) where
  create-Opened :
      (count tmp at : ℕ) (m : Messages A) (f : FirstFree nbqueue 0 m.fifo_tab)
      → 0 < count
      → count < 2 ^ 30
      → m.sched.actif ≡ some tmp
      → m.should_receive_negative_one ≡ none
      → (mem_alloc (4 * count % 2 ^ 32) m.store.allocator).0 ≡ some at
      → Opened count tmp m (create mem_alloc mem_free count f.place m)
  unfolding create invalid bad_fid
  create-Opened count tmp at m f positive small active nobody allocated =
      let low : leb nbqueue f.place ≡ false = ground (arith, f.below) in
      record {
        i = f.place;
        number_of = refl;
        below = f.below;
        unused = f.unused;
        earlier = λ j b. f.earlier j (omega arith) b;
        ready = record {
          valid = rw (low, ==_refl f.place) refl;
          caller = active;
          refused = nobody;
          buffer = rw (==_refl f.place) (record {
            tab = at;
            allocated = allocated;
            inside = positive;
            fits = omega arith;
            whole = small;
          });
          no_consum = rw (==_refl f.place) refl;
          no_prod = rw (==_refl f.place) refl;
        };
        empty = rw (==_refl f.place) refl;
        room = rw (==_refl f.place) refl;
        others = λ j ne. rw (==_ne ne) refl;
        sched = refl;
      }

  -- For a number of messages above 0 and below 2 ^ 30, so that its size in bytes does not wrap around, when the allocator has a place for them: pcreate returns -1 and
  -- changes nothing, and then all ten queues are used; or it returns the number of the first queue that
  -- was not used. That queue is then empty, has room for so many messages, and nobody waits at it; the
  -- other queues and the scheduler are as they were.
  pub pcreate-Opened :
      (count tmp at : ℕ) (m : Messages A)
      → 0 < count
      → count < 2 ^ 30
      → m.sched.actif ≡ some tmp
      → m.should_receive_negative_one ≡ none
      → (mem_alloc (4 * count % 2 ^ 32) m.store.allocator).0 ≡ some at
      → ((pcreate mem_alloc mem_free (pos count) m ≡ (minus_one, m)) × AllUsed nbqueue 0 m.fifo_tab)
        ⊎ Opened count tmp m (pcreate mem_alloc mem_free (pos count) m)
  unfolding pcreate
  pcreate-Opened count tmp at m positive small active nobody allocated =
      let enough : ltb count 1 ≡ false = ground arith in
      elim (find_location-first nbqueue 0 m.fifo_tab) [
        | inl all ↦ inl (rw (enough, all.0) refl, all.1)
        | inr f ↦ inr (
            rw (enough, f.found)
              (create-Opened count tmp at m f positive small active nobody allocated))
      ]
