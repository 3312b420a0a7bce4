-- ===== src/Ring/Threads/Fifo.antt =====
-- The ring as a first-in first-out queue, under any schedule of its threads.
use libchan.Base.{
  ℕ, ◌+◌, ◌-◌, ◌%◌, ◌^◌, ◌≤◌, ◌<◌, true, Option, none, some, List, ◌++◌, append-nil, length, ltb,
  ltb→lt, Bool-cases, add32, sub32, bit_and, tabulate, tabulate-congr, u32-mod, u32-mod_zero, ◌≡◌,
  ◌≢◌, refl, sym, ap, ◌∙◌, inl, inr, arith,
}
use mathlib.Core.Option.{some-injective}
use libchan.Ring.{Ring}
use libchan.Ring.Valid.{IsValid, HasShape, contents, slot-eq, capacity-dvd, slot_at}
use libchan.Ring.Threads.{
  Place, idle, push_start, push_loaded, push_tested, push_reserved, push_written, push_turn, pushed,
  pop_start, pop_loaded, pop_tested, pop_reserved, pop_read, pop_turn, popped, Threads, Act, is_out,
  run, begin,
}
use libchan.Ring.Threads.Tickets.{Tickets}
use libchan.Ring.Threads.Inv.{
  push_ticket, pop_ticket, at, Marks, window, Cursors, Inv, numbers-apart,
}
use libchan.Ring.Threads.Steps.{run-Inv, outside}

module _ {A : Type 0} where
  -- What lies between `cons.tail` and `prod.tail`: committed, and not freed by a pop.
  abbrev pub in_slots : Ring A → List A
  in_slots r = tabulate (sub32 r.prod_tail r.cons_tail) (λ j. slot_at r (r.cons_tail + j))

  at-slot_at :
      (r : Ring A) (base c j : ℕ)
      → HasShape r
      → at r (add32 base (c + j)) ≡ slot_at r (add32 base c + j)
  at-slot_at r base c j h = ap r.slots (
      slot-eq h (add32 base (c + j))
      ∙ u32-mod_zero (base + (c + j)) r.capacity (capacity-dvd h)
      ∙ ap (λ (t : ℕ). t % r.capacity) (omega arith)
      ∙ sym (u32-mod (base + c) j r.capacity (capacity-dvd h)))

  window-in_slots :
      (base limit : ℕ) (m : Marks) (r : Ring A)
      → Cursors base limit m r
      → limit < 2 ^ 32
      → window base m r ≡ in_slots r
  window-in_slots base limit m r c small =
      tabulate-congr (m.prod_tail - m.cons_tail) (λ j. at r (add32 base (m.cons_tail + j)))
        (λ j. slot_at r (r.cons_tail + j))
        (λ j lt.
          at-slot_at r base m.cons_tail j c.shape
          ∙ ap (λ (t : ℕ). slot_at r (t + j)) (sym c.cons_tail_lem))
      ∙ ap (λ (k : ℕ). tabulate k (λ j. slot_at r (r.cons_tail + j)))
          (omega (
            arith, c.prod_tail_lem, c.cons_tail_lem, c.cons_le, c.between_le, c.prod_le, c.small,
            small,
          ))

  begin-Inv : (r : Ring A) → IsValid r → Inv r.cons_head (contents r) r.capacity (begin r)
  begin-Inv r v = record {
    marks = record {
      prod_head = sub32 r.prod_head r.cons_head;
      prod_tail = sub32 r.prod_head r.cons_head;
      cons_head = 0;
      cons_tail = 0;
    };
    cursors = record {
      shape = v.shape;
      prod_head_lem = omega (arith, v.prod_lt, v.cons_lt);
      prod_tail_lem = omega (arith, v.prod_lt, v.cons_lt, v.prod_done);
      cons_head_lem = omega (arith, v.cons_lt);
      cons_tail_lem = omega (arith, v.cons_lt, v.cons_done);
      cons_le = omega arith;
      between_le = omega arith;
      prod_le = omega arith;
      fits = omega (arith, v.fits);
      small = v.fits;
    };
    pushes = none_held _ _;
    pops = none_held _ _;
    knows = λ n. tt;
    queue =
        ap (λ (k : ℕ). tabulate k (λ j. at r (add32 r.cons_head (0 + j))))
          {x = sub32 r.prod_head r.cons_head - 0} {y = sub32 r.prod_head r.cons_head} (omega arith)
        ∙ tabulate-congr (sub32 r.prod_head r.cons_head) (λ j. at r (add32 r.cons_head (0 + j)))
            (λ j. slot_at r (r.cons_head + j))
            (λ j lt.
              at-slot_at r r.cons_head 0 j v.shape
              ∙ ap (λ (t : ℕ). slot_at r (t + j)) {y = r.cons_head} (omega (arith, v.cons_lt)))
        ∙ ap (λ (t : ℕ). tabulate (sub32 t r.cons_head) (λ j. slot_at r (r.cons_head + j)))
            v.prod_done
        ∙ sym (append-nil (contents r));
  }
    where
      none_held : (base k : ℕ) → Tickets base (λ n. none) k k
      none_held base k = record {
        within = λ n p e. cc;
        unique = λ n m p e f. cc;
        owner = λ i l m. absurd (omega (arith, l, m));
      }

  pub reached :
      (r : Ring A) (acts : List (Act A))
      → IsValid r
      → r.capacity + length acts < 2 ^ 32
      → Inv r.cons_head (contents r) (r.capacity + length acts) (run (begin r) acts)
  reached r acts v small = run-Inv acts (begin r) r.capacity small (begin-Inv r v)

  -- Any number of threads push and pop, from a ring with no operation under way, under every schedule
  -- of fewer than 2 ^ 32 accesses less the capacity: what the pops have given out, in the order of
  -- their stores to `cons.tail`, and then what lies between `cons.tail` and `prod.tail`, is what the
  -- ring held and what the pushes have brought in, in the order of their stores to `prod.tail`. No
  -- element is lost, doubled, or overtaken, and no more lie there than the capacity.
  pub run-fifo :
      (r : Ring A) (acts : List (Act A))
      → IsValid r
      → r.capacity + length acts < 2 ^ 32
      → let s = run (begin r) acts in
        (s.got ++ in_slots s.ring ≡ contents r ++ s.given)
        × (sub32 s.ring.prod_tail s.ring.cons_tail ≤ s.ring.capacity)
  run-fifo r acts v small =
      let i = reached r acts v small in
      let s = run (begin r) acts in
      let c = i.cursors in
      (
        ap (λ t. s.got ++ t)
              (sym (window-in_slots r.cons_head (r.capacity + length acts) i.marks s.ring c small))
            ∙ i.queue,
        omega (
          arith, c.prod_tail_lem, c.cons_tail_lem, c.cons_le, c.between_le, c.prod_le, c.fits,
          c.small, small,
        ),
      )

  -- The slot that a thread copies into or out of.
  abbrev pub copies : Place A → Option ℕ
  copies (push_reserved x ph) = some ph
  copies (pop_reserved ch) = some ch
  copies p = none

  -- From a ring with no operation under way, under every schedule of any number of threads with fewer
  -- than 2 ^ 32 accesses less the capacity: while a thread copies an element into its slot, no other
  -- thread copies into or out of that slot.
  pub run-no_race :
      (r : Ring A) (acts : List (Act A)) (n k : ℕ) (x : A) (ph c : ℕ)
      → IsValid r
      → r.capacity + length acts < 2 ^ 32
      → n ≢ k
      → (run (begin r) acts).place n ≡ push_reserved x ph
      → copies ((run (begin r) acts).place k) ≡ some c
      → bit_and ph (run (begin r) acts).ring.mask ≢ bit_and c (run (begin r) acts).ring.mask
  run-no_race r acts n k x ph c v small ne here there =
      apart ((run (begin r) acts).place k) refl there
    where
      s : Threads A
      s = run (begin r) acts

      i : Inv r.cons_head (contents r) (r.capacity + length acts) s
      i = reached r acts v small

      mine : push_ticket (s.place n) ≡ some ph
      mine = ap push_ticket here

      differ :
          (a b : ℕ)
          → ph ≡ add32 r.cons_head a
          → c ≡ add32 r.cons_head b
          → bit_and (add32 r.cons_head a) s.ring.mask ≢ bit_and (add32 r.cons_head b) s.ring.mask
          → bit_and ph s.ring.mask ≢ bit_and c s.ring.mask
      differ a b e f d g = d (
          ap (λ (t : ℕ). bit_and t s.ring.mask) (sym e)
          ∙ g
          ∙ ap (λ (t : ℕ). bit_and t s.ring.mask) f)

      apart :
          (p : Place A)
          → s.place k ≡ p
          → copies p ≡ some c
          → bit_and ph s.ring.mask ≢ bit_and c s.ring.mask
      apart (push_reserved y qh) at_k e =
          let q = some-injective _ _ e in
          let (a, ea, la, ha) = i.pushes.within n ph mine in
          let (b, eb, lb, hb) = i.pushes.within k c (ap push_ticket at_k ∙ e) in
          differ a b ea eb (
            numbers-apart s.ring r.cons_head a b i.cursors.shape
              (λ same. ne (
                i.pushes.unique n k ph mine (
                  ap push_ticket at_k
                  ∙ e
                  ∙ ap some (eb ∙ ap (add32 r.cons_head) (sym same) ∙ sym ea))))
              (omega (arith, hb, la, i.cursors.fits, i.cursors.cons_le, i.cursors.between_le))
              (omega (arith, ha, lb, i.cursors.fits, i.cursors.cons_le, i.cursors.between_le)))
      apart (pop_reserved ch) at_k e =
          let (a, ea, la, ha) = i.pushes.within n ph mine in
          let (b, eb, lb, hb) = i.pops.within k c (ap pop_ticket at_k ∙ e) in
          differ a b ea eb (
            numbers-apart s.ring r.cons_head a b i.cursors.shape
              (λ same. omega (arith, same, hb, la, i.cursors.between_le))
              (omega (arith, hb, la, i.cursors.between_le)) (omega (arith, ha, lb, i.cursors.fits)))
      apart idle at_k e = cc
      apart (push_start y) at_k e = cc
      apart (push_loaded y qh) at_k e = cc
      apart (push_tested y qh) at_k e = cc
      apart (push_written y qh) at_k e = cc
      apart (push_turn y qh) at_k e = cc
      apart (pushed b) at_k e = cc
      apart pop_start at_k e = cc
      apart (pop_loaded ch) at_k e = cc
      apart (pop_tested ch) at_k e = cc
      apart (pop_read ch w) at_k e = cc
      apart (pop_turn ch w) at_k e = cc
      apart (popped o) at_k e = cc

  -- From a ring with no operation under way, after every schedule of any number of threads with fewer
  -- than 2 ^ 32 accesses less the capacity: when all threads are back from their calls, the ring again
  -- has no operation under way, and what the pops have given out and then what it holds is what it held
  -- and then what the pushes have brought in.
  pub run-quiet :
      (r : Ring A) (acts : List (Act A))
      → IsValid r
      → r.capacity + length acts < 2 ^ 32
      → ((n : ℕ) → is_out ((run (begin r) acts).place n) ≡ true)
      → let s = run (begin r) acts in
        IsValid s.ring × (s.got ++ contents s.ring ≡ contents r ++ s.given)
  run-quiet r acts v small out = (
    record {
      shape = c.shape;
      prod_done = c.prod_head_lem ∙ ap (add32 r.cons_head) (sym pushed_all) ∙ sym c.prod_tail_lem;
      cons_done = c.cons_head_lem ∙ ap (add32 r.cons_head) (sym popped_all) ∙ sym c.cons_tail_lem;
      prod_lt = omega (arith, c.prod_head_lem);
      cons_lt = omega (arith, c.cons_head_lem);
      fits = omega (
        arith, c.prod_head_lem, c.cons_head_lem, c.fits, popped_all, c.between_le, c.prod_le,
        c.small, small,
      );
    },
    ap (λ (t : ℕ). s.got ++ tabulate (sub32 s.ring.prod_tail t) (λ j. slot_at s.ring (t + j)))
          (c.cons_head_lem ∙ ap (add32 r.cons_head) (sym popped_all) ∙ sym c.cons_tail_lem)
        ∙ (run-fifo r acts v small).0,
  )
    where
      s : Threads A
      s = run (begin r) acts

      i : Inv r.cons_head (contents r) (r.capacity + length acts) s
      i = reached r acts v small

      c : Cursors r.cons_head (r.capacity + length acts) i.marks s.ring
      c = i.cursors

      closed :
          (held : ℕ → Option ℕ) (lo hi : ℕ)
          → ((n : ℕ) → held n ≡ none)
          → lo ≤ hi
          → Tickets r.cons_head held lo hi
          → lo ≡ hi
      closed held lo hi free le t = elim (Bool-cases (ltb lo hi)) [
        | inl open_ ↦
            let (n, e) = t.owner lo (omega arith) (ltb→lt lo hi open_) in cc (sym e ∙ free n)
        | inr e ↦ ground (arith, e, le)
      ]

      pushed_all : i.marks.prod_tail ≡ i.marks.prod_head
      pushed_all = closed _ _ _ (λ n. (outside (s.place n) (out n)).0) c.prod_le i.pushes

      popped_all : i.marks.cons_tail ≡ i.marks.cons_head
      popped_all = closed _ _ _ (λ n. (outside (s.place n) (out n)).1) c.cons_le i.pops
