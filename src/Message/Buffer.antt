-- ===== src/Message/Buffer.antt =====
-- The array of a message queue of kernel/message.c as a bounded sequence of messages.
use mathlib.Core.Path.{subst}
use native.Mathlib.Nat.{mod-eq_of_lt, mod-eq-sub-mod}
use projet_pcsea.Common.{
  ℕ, zero, suc, ◌+◌, ◌-◌, ◌%◌, ◌^◌, leb, ◌≤◌, ◌<◌, ◌≡◌, refl, ◌≢◌, false, ◌==◌, ltb, Bool-cases,
  inl, inr, if◌then◌else◌, some, List, [], ◌∷◌, arith, ap, sym, ◌∙◌,
}
use projet_pcsea.Common.Int.{ℤ}
use projet_pcsea.Common.Outcome.{ok, ◌>>=◌, Returns}
use projet_pcsea.Proc.State.{deref}
use projet_pcsea.Message.{FifoMessages, write_message, read_message}

abbrev pub next : ℕ → ℕ → ℕ
next size i = if i + 1 == size then 0 else i + 1

abbrev pub snoc : List ℤ → ℤ → List ℤ
snoc [] v = v ∷ []
snoc (w ∷ ws) v = w ∷ snoc ws v

-- `n` messages of the array, the one at index i first.
abbrev pub messages : (ℕ → ℤ) → ℕ → ℕ → ℕ → List ℤ
messages tab size zero i = []
messages tab size (suc n) i = tab i ∷ messages tab size n (next size i)

abbrev pub contents : FifoMessages → List ℤ
contents f = messages f.tab_messages f.size f.nb_element f.down

-- A queue that is in use, with an array of fewer than 2 ^ 32 bytes.
pub record BufferOk (f : FifoMessages) : Type 0 where
  pub tab : ℕ
  pub allocated : f.tab_at ≡ some tab
  pub inside : f.down < f.size
  pub fits : f.nb_element ≤ f.size
  pub whole : f.size < 2 ^ 30

abbrev wrap : ℕ → ℕ → ℕ
wrap size i = if ltb i size then i else i - size

mod-wrap : (i size : ℕ) → i < size + size → i % size ≡ wrap size i
mod-wrap i size h = elim (Bool-cases (ltb i size)) [
  | inl e ↦ rw e (mod-eq_of_lt (ground arith))
  | inr e ↦ rw e (
      mod-eq-sub-mod {n = i} {m = size} (ground arith)
      ∙ mod-eq_of_lt {n = i - size} {m = size} (ground arith))
]

messages-write :
    (tab : ℕ → ℤ) (size n i p : ℕ) (v : ℤ)
    → i < size
    → n < size
    → p ≡ wrap size (i + n)
    → messages (λ j. if j == p then v else tab j) size (suc n) i ≡ snoc (messages tab size n i) v
messages-write tab size zero i p v hi hn e = ground arith
messages-write tab size (suc n) i p v hi hn e =
    let rest =
      messages-write tab size n (next size i) p v (ground arith) (ground arith) (ground arith) in
    let ne : (i == p) ≡ false = ground arith in rw ne (ap (λ q. tab i ∷ q) rest)

-- What a send does to a queue f, which is now g: of the fields only the array and the number of
-- messages change.
pub record Put (f : FifoMessages) (v : ℤ) (g : FifoMessages) : Type 0 where
  pub well_formed : BufferOk g
  pub put : contents g ≡ snoc (contents f) v
  pub rest : g ≡ record f { tab_messages = g.tab_messages; nb_element = g.nb_element }

-- Into a queue that is not full write_message puts the message behind all the others, and the array
-- stays well formed.
pub write_message-Put :
    (v : ℤ) (f : FifoMessages)
    → BufferOk f
    → f.nb_element ≢ f.size
    → Returns (Put f v) (write_message v f)
unfolding write_message
write_message-Put v f b room =
    let e1 : f.nb_element + 1 ≡ suc f.nb_element = omega arith in
    let e : (f.size == 0) ≡ false = ground (arith, b.inside) in
    let m = mod-wrap (f.down + f.nb_element) f.size (ground (arith, b.inside, b.fits)) in
    let small : f.nb_element < f.size = omega (arith, b.fits, room) in
    let w : (f.down + f.nb_element) % 2 ^ 32 ≡ f.down + f.nb_element =
      omega (arith, b.inside, b.whole) in
    let c : (f.nb_element + 1) % 2 ^ 32 ≡ f.nb_element + 1 = omega (arith, b.whole) in
    let low : leb (2 ^ 31) (f.down + f.nb_element) ≡ false = ground (arith, b.inside, b.whole) in
    rw (w, c, e, low)
      (subst
        (λ q. Returns (Put f v) (
          deref q >>= λ _. ok (record f {
            tab_messages =
                λ i. if i == (f.down + f.nb_element) % f.size then v else f.tab_messages i;
            nb_element = f.nb_element + 1;
          })))
        (sym b.allocated)
        (record {
          well_formed = record {
            tab = b.tab;
            allocated = b.allocated;
            inside = b.inside;
            fits = ground (arith, b.fits);
            whole = b.whole;
          };
          put =
              ap
                (λ k.
                  messages
                    (λ j. if j == (f.down + f.nb_element) % f.size then v else f.tab_messages j)
                    f.size k f.down)
                e1
              ∙ messages-write f.tab_messages f.size f.nb_element f.down _ v b.inside
                  (ground (arith, b.fits)) m;
          rest = refl;
        }))

messages-first :
    (tab : ℕ → ℤ) (size n i : ℕ) (v : ℤ) (vs : List ℤ)
    → messages tab size n i ≡ v ∷ vs
    → (tab i ≡ v) × (messages tab size (n - 1) (next size i) ≡ vs)
messages-first tab size zero i v vs h = cc
messages-first tab size (suc n) i v vs h =
    let t : messages tab size n (next size i) ≡ vs = cc in
    (cc, ap (λ k. messages tab size k (next size i)) (omega arith) ∙ t)

messages-some :
    (tab : ℕ → ℤ) (size n i : ℕ) (v : ℤ) (vs : List ℤ) → messages tab size n i ≡ v ∷ vs → 0 < n
messages-some tab size zero i v vs h = cc
messages-some tab size (suc n) i v vs h = omega arith

-- What a receive does to a queue f, which is now g, with the messages vs: of the
-- fields only the place of the oldest message and the number of messages change.
pub record Got (f : FifoMessages) (vs : List ℤ) (g : FifoMessages) : Type 0 where
  pub well_formed : BufferOk g
  pub left : contents g ≡ vs
  pub rest : g ≡ record f { nb_element = g.nb_element; down = g.down }

-- read_message takes the oldest message out of a queue that is not empty.
pub read_message-first :
    (v : ℤ) (vs : List ℤ) (f : FifoMessages)
    → BufferOk f
    → contents f ≡ v ∷ vs
    → Returns (λ out. (out.0 ≡ v) × Got f vs out.1) (read_message f)
unfolding read_message
read_message-first v vs f b h =
    let r = messages-first f.tab_messages f.size f.nb_element f.down v vs h in
    let some_message : 0 < f.nb_element =
      messages-some f.tab_messages f.size f.nb_element f.down v vs h in
    let c : (f.nb_element + 2 ^ 32 - 1) % 2 ^ 32 ≡ f.nb_element - 1 =
      omega (arith, b.fits, b.whole) in
    let g : FifoMessages = record f { nb_element = f.nb_element - 1; down = next f.size f.down } in
    let after : Got f vs g = record {
      well_formed = record {
        tab = b.tab;
        allocated = b.allocated;
        inside = ground (arith, b.inside);
        fits = ground (arith, b.fits);
        whole = b.whole;
      };
      left = r.1;
      rest = refl;
    } in
    rw c (
      subst
        (λ q.
          Returns {A = ℤ × FifoMessages} (λ out. (out.0 ≡ v) × Got f vs out.1)
            (deref q >>= λ _. ok (
              f.tab_messages f.down,
              record f { nb_element = f.nb_element - 1; down = next f.size f.down },
            )))
        (sym b.allocated) (r.0, after))
