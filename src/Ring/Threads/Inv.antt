-- ===== src/Ring/Threads/Inv.antt =====
-- What holds between any two accesses: the cursors in order, the tickets of both sides, and what each
-- thread knows where it stands.
use libchan.Base.{
  ℕ, ◌+◌, ◌-◌, ◌%◌, ◌≤◌, ◌<◌, Option, none, some, List, ◌++◌, add32, bit_and, tabulate, ◌≡◌, ◌≢◌,
  sym, ◌∙◌, ◌⊎◌, inl, inr, u32-mod_zero, mod_step, add-mod-cases, arith,
}
use libchan.Ring.{Ring}
use libchan.Ring.Valid.{HasShape, slot-eq, slot-lt, capacity-dvd}
use libchan.Ring.Threads.{
  Place, push_loaded, push_tested, push_reserved, push_written, push_turn, pop_loaded, pop_tested,
  pop_reserved, pop_read, pop_turn, Threads,
}
use libchan.Ring.Threads.Tickets.{Tickets}

module _ {A : Type 0} where
  -- The ticket of a push that has its slot, and that of a pop.
  abbrev pub push_ticket : Place A → Option ℕ
  push_ticket (push_reserved x ph) = some ph
  push_ticket (push_written x ph) = some ph
  push_ticket (push_turn x ph) = some ph
  push_ticket p = none

  abbrev pub pop_ticket : Place A → Option ℕ
  pop_ticket (pop_reserved ch) = some ch
  pop_ticket (pop_read ch v) = some ch
  pop_ticket (pop_turn ch v) = some ch
  pop_ticket p = none

  -- The slot that a cursor value names.
  abbrev pub at : Ring A → ℕ → A
  at r c = r.slots (bit_and c r.mask)

-- A cursor that was read when it stood at a number below `top`.
abbrev pub Before : ℕ → ℕ → ℕ → Type 0
Before base top c = (i : ℕ) × (c ≡ add32 base i) × (i < top)

-- The numbers that the four cursors stand at, counted from `base` without wrapping.
pub record Marks : Type 0 where
  pub prod_head : ℕ
  pub prod_tail : ℕ
  pub cons_head : ℕ
  pub cons_tail : ℕ

module _ {A : Type 0} where
  -- What a thread knows where it stands.
  abbrev pub Knows : ℕ → Marks → Ring A → Place A → Type 0
  Knows base m r (push_loaded x ph) = Before base (m.prod_head + 1) ph
  Knows base m r (push_tested x ph) =
      (i : ℕ) × (ph ≡ add32 base i) × (i < m.prod_head + 1) × (i < m.cons_tail + r.capacity)
  Knows base m r (push_written x ph) = at r ph ≡ x
  Knows base m r (push_turn x ph) = (at r ph ≡ x) × (r.prod_tail ≡ ph)
  Knows base m r (pop_loaded ch) = Before base (m.cons_head + 1) ch
  Knows base m r (pop_tested ch) = (i : ℕ) × (ch ≡ add32 base i) × (i < m.prod_tail)
  Knows base m r (pop_read ch v) = at r ch ≡ v
  Knows base m r (pop_turn ch v) = (at r ch ≡ v) × (r.cons_tail ≡ ch)
  Knows base m r p = Unit

  -- The committed elements that no pop has committed, oldest first.
  abbrev pub window : ℕ → Marks → Ring A → List A
  window base m r = tabulate (m.prod_tail - m.cons_tail) (λ j. at r (add32 base (m.cons_tail + j)))

-- The cursors.
pub record Cursors {A : Type 0} (base limit : ℕ) (m : Marks) (r : Ring A) : Type 0 where
  pub shape : HasShape r
  pub prod_head_lem : r.prod_head ≡ add32 base m.prod_head
  pub prod_tail_lem : r.prod_tail ≡ add32 base m.prod_tail
  pub cons_head_lem : r.cons_head ≡ add32 base m.cons_head
  pub cons_tail_lem : r.cons_tail ≡ add32 base m.cons_tail
  pub cons_le : m.cons_tail ≤ m.cons_head
  pub between_le : m.cons_head ≤ m.prod_tail
  pub prod_le : m.prod_tail ≤ m.prod_head
  pub fits : m.prod_head ≤ m.cons_tail + r.capacity
  pub small : m.prod_head ≤ limit

-- From the ring whose `cons.head` was `base` and that held `past`, with at most `limit` slots taken.
pub record Inv {A : Type 0} (base : ℕ) (past : List A) (limit : ℕ) (s : Threads A) : Type 0 where
  pub marks : Marks
  pub cursors : Cursors base limit marks s.ring
  pub pushes : Tickets base (λ n. push_ticket (s.place n)) marks.prod_tail marks.prod_head
  pub pops : Tickets base (λ n. pop_ticket (s.place n)) marks.cons_tail marks.cons_head
  pub knows : (n : ℕ) → Knows base marks s.ring (s.place n)
  pub queue : s.got ++ window base marks s.ring ≡ past ++ s.given

module _ {A : Type 0} where
  -- Two numbers less than the capacity apart name different slots.
  pub slots-apart :
      (r : Ring A) (base i j : ℕ)
      → HasShape r
      → i < j
      → j < i + r.capacity
      → bit_and (add32 base i) r.mask ≢ bit_and (add32 base j) r.mask
  slots-apart r base i j h l m e =
      let a = (base + i) % r.capacity in
      let same : a ≡ (a + (j - i)) % r.capacity =
        sym (named i)
        ∙ e
        ∙ named j
        ∙ mod_step (base + i) (j - i) r.capacity (base + j) (omega (arith, l)) in
      elim (add-mod-cases a (j - i) r.capacity (slot-lt h (base + i)) (omega (arith, m))) [
        | inl (small, eq) ↦ omega (arith, l, same, eq)
        | inr (large, eq) ↦ omega (arith, l, m, same, eq, large)
      ]
    where
      named : (k : ℕ) → bit_and (add32 base k) r.mask ≡ (base + k) % r.capacity
      named k = slot-eq h (add32 base k) ∙ u32-mod_zero (base + k) r.capacity (capacity-dvd h)

  pub numbers-apart :
      (r : Ring A) (base i j : ℕ)
      → HasShape r
      → i ≢ j
      → j < i + r.capacity
      → i < j + r.capacity
      → bit_and (add32 base i) r.mask ≢ bit_and (add32 base j) r.mask
  numbers-apart r base i j h ne l m e = elim (order i j ne) [
    | inl lt ↦ slots-apart r base i j h lt l e
    | inr gt ↦ slots-apart r base j i h gt m (sym e)
  ]
    where
      order : (i j : ℕ) → i ≢ j → (i < j) ⊎ (j < i)
      order i j ne = ground (arith, ne)
