-- ===== src/Ring/Threads/Frame.antt =====
-- What one thread knows while another one moves.
use libchan.Base.{
  ℕ, suc, ◌-◌, ◌≤◌, false, Option, some, List, ◌++◌, ◌==◌, ==_iff, ==_refl, if_true, if_false,
  Bool-cases, update, ◌≡◌, refl, sym, ap, subst, ◌∙◌, inl, inr, arith,
}
use libchan.Ring.{Ring}
use libchan.Ring.Valid.{HasShape}
use libchan.Ring.Threads.{
  Place, idle, push_start, push_loaded, push_tested, push_reserved, push_written, push_turn, pushed,
  pop_start, pop_loaded, pop_tested, pop_reserved, pop_read, pop_turn, popped, Threads,
}
use libchan.Ring.Threads.Tickets.{Tickets-same}
use libchan.Ring.Threads.Inv.{push_ticket, pop_ticket, at, Marks, Knows, window, Cursors, Inv}

-- The marks only grow, and nothing changes that a thread at this place still reads.
pub record Kept {A : Type 0} (m m' : Marks) (r r' : Ring A) (p : Place A) : Type 0 where
  pub prod_head_le : m.prod_head ≤ m'.prod_head
  pub prod_tail_le : m.prod_tail ≤ m'.prod_tail
  pub cons_head_le : m.cons_head ≤ m'.cons_head
  pub cons_tail_le : m.cons_tail ≤ m'.cons_tail
  pub capacity_same : r'.capacity ≡ r.capacity
  pub push_slot : (c : ℕ) → push_ticket p ≡ some c → at r' c ≡ at r c
  pub pop_slot : (c : ℕ) → pop_ticket p ≡ some c → at r' c ≡ at r c
  pub push_tail : (c : ℕ) → push_ticket p ≡ some c → r.prod_tail ≡ c → r'.prod_tail ≡ c
  pub pop_tail : (c : ℕ) → pop_ticket p ≡ some c → r.cons_tail ≡ c → r'.cons_tail ≡ c

module _ {A : Type 0} where
  pub Knows-Kept :
      (base : ℕ) (m m' : Marks) (r r' : Ring A) (p : Place A)
      → Kept m m' r r' p
      → Knows base m r p
      → Knows base m' r' p
  Knows-Kept base m m' r r' idle k h = tt
  Knows-Kept base m m' r r' (push_start x) k h = tt
  Knows-Kept base m m' r r' (push_loaded x ph) k (i, e, l) =
      (i, e, omega (arith, l, k.prod_head_le))
  Knows-Kept base m m' r r' (push_tested x ph) k (i, e, l, o) =
      (i, e, omega (arith, l, k.prod_head_le), omega (arith, o, k.cons_tail_le, k.capacity_same))
  Knows-Kept base m m' r r' (push_reserved x ph) k h = tt
  Knows-Kept base m m' r r' (push_written x ph) k h = k.push_slot ph refl ∙ h
  Knows-Kept base m m' r r' (push_turn x ph) k (h, t) =
      (k.push_slot ph refl ∙ h, k.push_tail ph refl t)
  Knows-Kept base m m' r r' (pushed b) k h = tt
  Knows-Kept base m m' r r' pop_start k h = tt
  Knows-Kept base m m' r r' (pop_loaded ch) k (i, e, l) = (i, e, omega (arith, l, k.cons_head_le))
  Knows-Kept base m m' r r' (pop_tested ch) k (i, e, l) = (i, e, omega (arith, l, k.prod_tail_le))
  Knows-Kept base m m' r r' (pop_reserved ch) k h = tt
  Knows-Kept base m m' r r' (pop_read ch v) k h = k.pop_slot ch refl ∙ h
  Knows-Kept base m m' r r' (pop_turn ch v) k (h, t) =
      (k.pop_slot ch refl ∙ h, k.pop_tail ch refl t)
  Knows-Kept base m m' r r' (popped o) k h = tt

  pub update-own : (place : ℕ → Place A) (n : ℕ) (p : Place A) → update place n p n ≡ p
  update-own place n p = if_true _ _ (==_refl n)

  pub update-other :
      (place : ℕ → Place A) (n : ℕ) (p : Place A) (k : ℕ)
      → (k == n) ≡ false
      → update place n p k ≡ place k
  update-other place n p k e = if_false _ _ e

  -- A ticket that the moving thread keeps.
  pub update-ticket :
      (f : Place A → Option ℕ) (place : ℕ → Place A) (n : ℕ) (p : Place A)
      → f p ≡ f (place n)
      → (k : ℕ) → f (update place n p k) ≡ f (place k)
  update-ticket f place n p e k = elim (Bool-cases (k == n)) [
    | inl same ↦
        ap f (if_true _ _ same) ∙ e ∙ ap (λ (x : ℕ). f (place x)) (sym ((==_iff k n).0 same))
    | inr other ↦ ap f (if_false _ _ other)
  ]

  pub Knows-update :
      (base : ℕ) (m m' : Marks) (r r' : Ring A) (place : ℕ → Place A) (n : ℕ) (p : Place A)
      → ((k : ℕ) → (k == n) ≡ false → Kept m m' r r' (place k))
      → ((k : ℕ) → Knows base m r (place k))
      → Knows base m' r' p
      → (k : ℕ) → Knows base m' r' (update place n p k)
  Knows-update base m m' r r' place n p kept old new k = elim (Bool-cases (k == n)) [
    | inl same ↦ subst (Knows base m' r') (sym (if_true _ _ same)) new
    | inr other ↦
        subst (Knows base m' r') (sym (if_false _ _ other))
          (Knows-Kept base m m' r r' (place k) (kept k other) (old k))
  ]

  pub HasShape-same :
      {r r' : Ring A} → r'.capacity ≡ r.capacity → r'.mask ≡ r.mask → HasShape r → HasShape r'
  HasShape-same c m h = record {
    bits = h.bits;
    bits_le = h.bits_le;
    capacity_lem = c ∙ h.capacity_lem;
    mask_lem = m ∙ h.mask_lem ∙ ap (λ (t : ℕ). t - 1) (sym c);
  }

  -- A ring of which only a cursor of the producers, or of the consumers, has changed.
  pub Kept-moved :
      (m m' : Marks) (r r' : Ring A) (p : Place A)
      → m.prod_head ≤ m'.prod_head
      → m.prod_tail ≤ m'.prod_tail
      → m.cons_head ≤ m'.cons_head
      → m.cons_tail ≤ m'.cons_tail
      → r'.capacity ≡ r.capacity
      → ((c : ℕ) → at r' c ≡ at r c)
      → ((c : ℕ) → push_ticket p ≡ some c → r.prod_tail ≡ c → r'.prod_tail ≡ c)
      → ((c : ℕ) → pop_ticket p ≡ some c → r.cons_tail ≡ c → r'.cons_tail ≡ c)
      → Kept m m' r r' p
  Kept-moved m m' r r' p a b c d e slots f g = record {
    prod_head_le = a;
    prod_tail_le = b;
    cons_head_le = c;
    cons_tail_le = d;
    capacity_same = e;
    push_slot = λ x t. slots x;
    pop_slot = λ x t. slots x;
    push_tail = f;
    pop_tail = g;
  }

  pub Cursors-limit :
      {base limit : ℕ} {m : Marks} {r : Ring A}
      → Cursors base limit m r
      → Cursors base (suc limit) m r
  Cursors-limit c = record {
    shape = c.shape;
    prod_head_lem = c.prod_head_lem;
    prod_tail_lem = c.prod_tail_lem;
    cons_head_lem = c.cons_head_lem;
    cons_tail_lem = c.cons_tail_lem;
    cons_le = c.cons_le;
    between_le = c.between_le;
    prod_le = c.prod_le;
    fits = c.fits;
    small = omega (arith, c.small);
  }

  -- A thread that changes neither the ring nor a ticket.
  pub quiet-Inv :
      {base limit : ℕ} {past : List A} {s : Threads A} (n : ℕ) (p : Place A) (given got : List A)
      → push_ticket p ≡ push_ticket (s.place n)
      → pop_ticket p ≡ pop_ticket (s.place n)
      → given ≡ s.given
      → got ≡ s.got
      → (i : Inv base past limit s) → Knows base i.marks s.ring p
      → Inv base past
          (suc limit)
          (record { ring = s.ring; place = update s.place n p; given = given; got = got })
  quiet-Inv {base} {past = past} {s = s} n p given got e f g h i new = record {
    marks = i.marks;
    cursors = Cursors-limit i.cursors;
    pushes = Tickets-same (update-ticket push_ticket s.place n p e) i.pushes;
    pops = Tickets-same (update-ticket pop_ticket s.place n p f) i.pops;
    knows =
        Knows-update base i.marks i.marks s.ring s.ring s.place n p
          (λ k other.
            Kept-moved i.marks i.marks s.ring s.ring (s.place k) (omega arith) (omega arith)
              (omega arith) (omega arith) refl (λ c. refl) (λ c e t. t) (λ c e t. t))
          i.knows new;
    queue = ap (λ t. t ++ window base i.marks s.ring) h ∙ i.queue ∙ ap (λ t. past ++ t) (sym g);
  }
