-- ===== src/Message/Exchange.antt =====
-- psend and preceive of kernel/message.c where the caller does not have to wait.
use projet_pcsea.Common.{
  ℕ, zero, suc, ◌≡◌, refl, ◌≢◌, true, false, ◌==◌, ==_refl, if◌then◌else◌, none, some, Option, List,
  ◌∷◌, arith, ap, ◌∙◌,
}
use projet_pcsea.Common.Int.{ℤ, pos}
use projet_pcsea.Common.Outcome.{ok, ◌>>=◌, Returns, Returns-bind}
use projet_pcsea.Proc.State.{Ptr, deref, is_null}
use projet_pcsea.Fifo.{contains}
use projet_pcsea.Message.{
  Messages, Called, returned, waits, number, invalid, write_message, read_message, woken_up,
  deliver, psend_end, psend_from, psend, take, preceive_end, preceive_from, preceive,
}
use projet_pcsea.Message.Buffer.{
  BufferOk, messages, contents, Put, Got, write_message-Put, read_message-first,
}

-- A call that returns at once, with a result and a state that have the property.
abbrev pub AtOnce : {R A : Type 0} → (R → Messages A → Type 0) → Called R A → Type 0
AtOnce P (returned r m) = P r m
AtOnce P (waits p m) = ⊥

-- Only the queue i has changed.
pub record Only {A : Type 0} (i : ℕ) (m m' : Messages A) : Type 0 where
  pub sched : m'.sched ≡ m.sched
  pub store : m'.store ≡ m.store
  pub refused : m'.should_receive_negative_one ≡ m.should_receive_negative_one
  pub others : (j : ℕ) → m'.fifo_tab j ≡ (if j == i then m'.fifo_tab i else m.fifo_tab j)

-- A call on queue i, which no process waits at, and with no process to be refused.
pub record Ready {A : Type 0} (fid : ℤ) (tmp : ℕ) (m : Messages A) : Type 0 where
  pub valid : invalid fid m ≡ false
  pub caller : m.sched.actif ≡ some tmp
  pub refused : m.should_receive_negative_one ≡ none
  pub buffer : BufferOk (m.fifo_tab (number fid))
  pub no_consum : (m.fifo_tab (number fid)).consum ≡ none
  pub no_prod : (m.fifo_tab (number fid)).prod ≡ none

not_empty :
    (tab : ℕ → ℤ) (size n i : ℕ) (v : ℤ) (vs : List ℤ)
    → messages tab size n i ≡ v ∷ vs
    → (n == 0) ≡ false
not_empty tab size zero i v vs h = cc
not_empty tab size (suc n) i v vs h = ground arith

module _ {A : Type 0} (mem_alloc : ℕ → A → Ptr × A) (mem_free : ℕ → ℕ → A → A) where
  deliver-Put :
      (i : ℕ) (v : ℤ) (m : Messages A)
      → BufferOk (m.fifo_tab i)
      → (m.fifo_tab i).nb_element ≢ (m.fifo_tab i).size
      → (m.fifo_tab i).prod ≡ none
      → Returns {A = ℤ × Messages A}
          (λ out. (out.0 ≡ pos 0) × Put (m.fifo_tab i) v (out.1.fifo_tab i) × Only i m out.1)
          (deliver mem_alloc mem_free i v m)
  unfolding deliver
  deliver-Put i v m b room none_waits =
      Returns-bind _ (write_message v (m.fifo_tab i)) _ (write_message-Put v (m.fifo_tab i) b room)
        (λ g p.
          let e : is_null g.prod ≡ true = ap is_null (ap (λ q. q.prod) p.rest ∙ none_waits) in
          rw (e, ==_refl i)
            (
              refl,
              p,
              record {
                sched = refl;
                store = refl;
                refused = refl;
                others = λ j. rw (==_refl i) refl;
              },
            ))

  nobody :
      (fuel tmp : ℕ) (m : Messages A)
      → m.should_receive_negative_one ≡ none
      → woken_up mem_alloc mem_free (suc fuel) tmp m ≡ ok false
  unfolding woken_up contains
  nobody fuel tmp m h =
      ap
        (λ q.
          contains (suc fuel) m.store.cell (λ p. (m.sched.process p).pid) q
            (m.sched.process tmp).pid)
        h

  psend_end-deliver :
      (fuel i : ℕ) (v : ℤ) (tmp : ℕ) (m : Messages A)
      → m.should_receive_negative_one ≡ none
      → psend_end mem_alloc mem_free (suc fuel) i v tmp m ≡ deliver mem_alloc mem_free i v m
  unfolding psend_end
  psend_end-deliver fuel i v tmp m h = rw (nobody fuel tmp m h) refl

  psend-deliver :
      (fuel : ℕ) (fid v : ℤ) (tmp : ℕ) (m : Messages A)
      → Ready fid tmp m
      → (m.fifo_tab (number fid)).nb_element ≢ (m.fifo_tab (number fid)).size
      → psend mem_alloc mem_free (suc fuel) fid v m
        ≡ (deliver mem_alloc mem_free (number fid) v m >>= λ out. ok (returned out.0 out.1))
  unfolding psend
  psend-deliver fuel fid v tmp m r room =
      let i = number fid in
      let e : ((m.fifo_tab i).nb_element == (m.fifo_tab i).size) ≡ false = ground (arith, room) in
      rw r.valid (
        ap (λ q. deref q >>= λ p. psend_from mem_alloc mem_free (suc fuel) i v p m) r.caller
        ∙ (rw e (
            ap (λ o. o >>= λ out. ok (returned out.0 out.1))
              (psend_end-deliver fuel i v tmp m r.refused))))

  -- On a valid queue that is not full, at which no process waits, psend puts the message behind the
  -- others and returns 0 at once. Of the queue only the array and the number of messages change; the
  -- other queues, the scheduler and the lists of waiting processes stay. The array has fewer than 2 ^ 32
  -- bytes, and no process is to be refused.
  pub psend-Put :
      (fuel : ℕ) (fid v : ℤ) (tmp : ℕ) (m : Messages A)
      → Ready fid tmp m
      → (m.fifo_tab (number fid)).nb_element ≢ (m.fifo_tab (number fid)).size
      → Returns {A = Called ℤ A}
          (AtOnce λ r m'.
            (r ≡ pos 0)
            × Put (m.fifo_tab (number fid)) v (m'.fifo_tab (number fid))
            × Only (number fid) m m')
          (psend mem_alloc mem_free (suc fuel) fid v m)
  psend-Put fuel fid v tmp m r room = rw (psend-deliver fuel fid v tmp m r room) (
      Returns-bind _ (deliver mem_alloc mem_free (number fid) v m) _
        (deliver-Put (number fid) v m r.buffer room r.no_prod) (λ out h. h))

  take-first :
      (i : ℕ) (v : ℤ) (vs : List ℤ) (m : Messages A)
      → BufferOk (m.fifo_tab i)
      → contents (m.fifo_tab i) ≡ v ∷ vs
      → (m.fifo_tab i).consum ≡ none
      → Returns {A = ℤ × Option ℤ × Messages A}
          (λ out.
            (out.0 ≡ pos 0)
            × (out.1 ≡ some v)
            × Got (m.fifo_tab i) vs (out.2.fifo_tab i)
            × Only i m out.2)
          (take mem_alloc mem_free i m)
  unfolding take
  take-first i v vs m b h none_waits =
      Returns-bind _ (read_message (m.fifo_tab i)) _ (read_message-first v vs (m.fifo_tab i) b h)
        (λ (got, g) (a, p).
          let e : is_null g.consum ≡ true = ap is_null (ap (λ q. q.consum) p.rest ∙ none_waits) in
          rw (e, ==_refl i)
            (
              refl,
              ap some a,
              p,
              record {
                sched = refl;
                store = refl;
                refused = refl;
                others = λ j. rw (==_refl i) refl;
              },
            ))

  preceive_end-take :
      (fuel i tmp : ℕ) (m : Messages A)
      → m.should_receive_negative_one ≡ none
      → preceive_end mem_alloc mem_free (suc fuel) i tmp m ≡ take mem_alloc mem_free i m
  unfolding preceive_end
  preceive_end-take fuel i tmp m h = rw (nobody fuel tmp m h) refl

  preceive-take :
      (fuel : ℕ) (fid v : ℤ) (vs : List ℤ) (tmp : ℕ) (m : Messages A)
      → Ready fid tmp m
      → contents (m.fifo_tab (number fid)) ≡ v ∷ vs
      → preceive mem_alloc mem_free (suc fuel) fid m
        ≡ (take mem_alloc mem_free (number fid) m >>= λ out. ok (returned (out.0, out.1) out.2))
  unfolding preceive
  preceive-take fuel fid v vs tmp m r h =
      let i = number fid in
      let f = m.fifo_tab i in
      let e : (f.nb_element == 0) ≡ false =
        not_empty f.tab_messages f.size f.nb_element f.down v vs h in
      rw r.valid (
        ap (λ q. deref q >>= λ p. preceive_from mem_alloc mem_free (suc fuel) i p m) r.caller
        ∙ (rw e (
            ap (λ o. o >>= λ out. ok (returned (out.0, out.1) out.2))
              (preceive_end-take fuel i tmp m r.refused))))

  -- From a valid queue with a message, at which no process waits, preceive takes the oldest one
  -- and returns 0 at once. Of the queue only the place of the oldest message and the number of messages
  -- change; the other queues, the scheduler and the lists of waiting processes stay. The array has fewer
  -- than 2 ^ 32 bytes, and no process is to be refused.
  pub preceive-first :
      (fuel : ℕ) (fid v : ℤ) (vs : List ℤ) (tmp : ℕ) (m : Messages A)
      → Ready fid tmp m
      → contents (m.fifo_tab (number fid)) ≡ v ∷ vs
      → Returns {A = Called (ℤ × Option ℤ) A}
          (AtOnce λ r m'.
            (r.0 ≡ pos 0)
            × (r.1 ≡ some v)
            × Got (m.fifo_tab (number fid)) vs (m'.fifo_tab (number fid))
            × Only (number fid) m m')
          (preceive mem_alloc mem_free (suc fuel) fid m)
  preceive-first fuel fid v vs tmp m r h = rw (preceive-take fuel fid v vs tmp m r h) (
      Returns-bind _ (take mem_alloc mem_free (number fid) m) _
        (take-first (number fid) v vs m r.buffer h r.no_consum) (λ out q. q))
