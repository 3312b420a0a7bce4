-- ===== src/Ring/Threads/Pops.antt =====
-- The accesses of a pop that change the ring.
use libchan.Base.{
  ℕ, suc, ◌+◌, ◌-◌, ◌^◌, ◌<◌, some, List, [], ◌∷◌, ◌++◌, append_assoc, update, add32, tabulate,
  tabulate-congr, ◌≡◌, refl, sym, ap, ap₂, subst, ◌∙◌, arith,
}
use libchan.Ring.{pop_commit}
use libchan.Ring.Threads.{pop_tested, pop_reserved, pop_turn, popped, Threads}
use libchan.Ring.Threads.Tickets.{
  Tickets-same, Tickets-take, Tickets-leave, other-ticket, add32-injective,
}
use libchan.Ring.Threads.Inv.{push_ticket, pop_ticket, at, Marks, Knows, window, Inv}
use libchan.Ring.Threads.Frame.{
  Kept-moved, HasShape-same, update-own, update-other, update-ticket, Knows-update,
}

module _ {A : Type 0} {base limit : ℕ} {past : List A} {s : Threads A} where
  -- The compare-exchange that succeeds.
  pub reserve_pop-Inv :
      (n ch : ℕ) (given got : List A)
      → s.place n ≡ pop_tested ch
      → s.ring.cons_head ≡ ch
      → given ≡ s.given
      → got ≡ s.got
      → limit < 2 ^ 32
      → Inv base past limit s
      → Inv base past (suc limit) (record {
        ring = record s.ring { cons_head = add32 ch 1 };
        place = update s.place n (pop_reserved ch);
        given = given;
        got = got;
      })
  reserve_pop-Inv n ch given got here head g h small inv =
      let m = inv.marks in
      let c = inv.cursors in
      let m' : Marks = record m { cons_head = m.cons_head + 1 } in
      let (i, e, l) = subst (Knows base m s.ring) here (inv.knows n) in
      let now : i ≡ m.cons_head =
        add32-injective base i m.cons_head (omega (arith, l, c.prod_le, c.small, small))
          (omega (arith, c.between_le, c.prod_le, c.small, small))
          (sym e ∙ sym head ∙ c.cons_head_lem) in
      let ticket : ch ≡ add32 base m.cons_head = sym head ∙ c.cons_head_lem in
      record {
        marks = m';
        cursors = record {
          shape = HasShape-same refl refl c.shape;
          prod_head_lem = c.prod_head_lem;
          prod_tail_lem = c.prod_tail_lem;
          cons_head_lem = omega (arith, ticket);
          cons_tail_lem = c.cons_tail_lem;
          cons_le = omega (arith, c.cons_le);
          between_le = omega (arith, l, now);
          prod_le = c.prod_le;
          fits = c.fits;
          small = omega (arith, c.small);
        };
        pushes =
            Tickets-same
              (update-ticket push_ticket s.place n (pop_reserved ch) (sym (ap push_ticket here)))
              inv.pushes;
        pops =
            Tickets-take n (ap pop_ticket here)
              (ap pop_ticket (update-own s.place n (pop_reserved ch)) ∙ ap some ticket)
              (λ k other. ap pop_ticket (update-other s.place n (pop_reserved ch) k other))
              c.cons_le (omega (arith, c.between_le, c.prod_le, c.small, small)) inv.pops;
        knows =
            Knows-update base m m' s.ring (record s.ring { cons_head = add32 ch 1 }) s.place n
              (pop_reserved ch)
              (λ k other.
                Kept-moved m m' s.ring (record s.ring { cons_head = add32 ch 1 }) (s.place k)
                  (omega arith) (omega arith) (omega arith) (omega arith) refl (λ y. refl)
                  (λ y f t. t) (λ y f t. t))
              inv.knows tt;
        queue = ap (λ t. t ++ window base m s.ring) h ∙ inv.queue ∙ ap (λ t. past ++ t) (sym g);
      }

  -- The store to `cons.tail`.
  pub commit_pop-Inv :
      (n ch : ℕ) (v : A) (given got : List A)
      → s.place n ≡ pop_turn ch v
      → given ≡ s.given
      → got ≡ s.got ++ (v ∷ [])
      → limit < 2 ^ 32
      → Inv base past limit s
      → Inv base past (suc limit) (record {
        ring = pop_commit ch s.ring;
        place = update s.place n (popped (some v));
        given = given;
        got = got;
      })
  commit_pop-Inv n ch v given got here g h small inv =
      let m = inv.marks in
      let c = inv.cursors in
      let m' : Marks = record m { cons_tail = m.cons_tail + 1 } in
      let r = s.ring in
      let r' = pop_commit ch r in
      let mine : pop_ticket (s.place n) ≡ some ch = ap pop_ticket here in
      let (read, turn) = subst (Knows base m r) here (inv.knows n) in
      let (i, e, l, o) = inv.pops.within n ch mine in
      let ticket : ch ≡ add32 base m.cons_tail = sym turn ∙ c.cons_tail_lem in
      let top : m.cons_head < 2 ^ 32 = omega (arith, c.between_le, c.prod_le, c.small, small) in
      let next : i ≡ m.cons_tail =
        add32-injective base i m.cons_tail (omega (arith, o, top)) (omega (arith, c.cons_le, top))
          (sym e ∙ ticket) in
      record {
        marks = m';
        cursors = record {
          shape = HasShape-same refl refl c.shape;
          prod_head_lem = c.prod_head_lem;
          prod_tail_lem = c.prod_tail_lem;
          cons_head_lem = c.cons_head_lem;
          cons_tail_lem = omega (arith, ticket);
          cons_le = omega (arith, o, next);
          between_le = c.between_le;
          prod_le = c.prod_le;
          fits = omega (arith, c.fits);
          small = omega (arith, c.small);
        };
        pushes =
            Tickets-same
              (update-ticket push_ticket s.place n (popped (some v)) (sym (ap push_ticket here)))
              inv.pushes;
        pops =
            Tickets-leave n (mine ∙ ap some ticket)
              (ap pop_ticket (update-own s.place n (popped (some v))))
              (λ k other. ap pop_ticket (update-other s.place n (popped (some v)) k other)) top
              inv.pops;
        knows =
            Knows-update base m m' r r' s.place n (popped (some v))
              (λ k other.
                Kept-moved m m' r r' (s.place k) (omega arith) (omega arith) (omega arith)
                  (omega arith) refl (λ y. refl) (λ y f t. t)
                  (λ y f t. other-ticket n k ch y inv.pops mine other f (sym turn ∙ t)))
              inv.knows tt;
        queue =
            ap (λ t. t ++ window base m' r') h
            ∙ append_assoc s.got (v ∷ []) (window base m' r')
            ∙ ap (λ t. s.got ++ t)
                (ap₂ ◌∷◌
                    (sym read
                      ∙ ap (at r) ticket
                      ∙ ap (λ (t : ℕ). at r (add32 base t)) {y = m.cons_tail + 0} (omega arith))
                    (tabulate-congr (m.prod_tail - (m.cons_tail + 1))
                      (λ j. at r (add32 base (m.cons_tail + 1 + j)))
                      (λ j. at r (add32 base (m.cons_tail + suc j)))
                      (λ j lt. ap (λ (t : ℕ). at r (add32 base t)) (omega arith)))
                  ∙ ap (λ (t : ℕ). tabulate t (λ j. at r (add32 base (m.cons_tail + j))))
                      {x = suc (m.prod_tail - (m.cons_tail + 1))} {y = m.prod_tail - m.cons_tail}
                      (omega (arith, o, next, c.between_le)))
            ∙ inv.queue
            ∙ ap (λ t. past ++ t) (sym g);
      }
