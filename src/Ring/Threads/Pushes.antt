-- ===== src/Ring/Threads/Pushes.antt =====
-- The accesses of a push that change the ring.
use libchan.Base.{
  ℕ, suc, ◌+◌, ◌-◌, ◌^◌, ◌≤◌, ◌<◌, true, some, List, [], ◌∷◌, ◌++◌, append_assoc, update, add32,
  bit_and, memcpy, memcpy_inside, memcpy_below, memcpy_above, tabulate, tabulate-add,
  tabulate-congr, ◌≡◌, ◌≢◌, refl, sym, ap, ap₂, subst, ◌∙◌, ◌⊎◌, inl, inr, arith,
}
use libchan.Ring.{push_write, push_commit}
use libchan.Ring.Threads.{push_tested, push_reserved, push_written, push_turn, pushed, Threads}
use libchan.Ring.Threads.Tickets.{
  Tickets-same, Tickets-take, Tickets-leave, other-ticket, add32-injective,
}
use libchan.Ring.Threads.Inv.{push_ticket, pop_ticket, at, Marks, Knows, window, Inv, numbers-apart}
use libchan.Ring.Threads.Frame.{
  Kept-moved, HasShape-same, update-own, update-other, update-ticket, Knows-update,
}

module _ {A : Type 0} {base limit : ℕ} {past : List A} {s : Threads A} where
  -- The compare-exchange that succeeds.
  pub reserve_push-Inv :
      (n : ℕ) (x : A) (ph : ℕ) (given got : List A)
      → s.place n ≡ push_tested x ph
      → s.ring.prod_head ≡ ph
      → given ≡ s.given
      → got ≡ s.got
      → suc limit < 2 ^ 32
      → Inv base past limit s
      → Inv base past (suc limit) (record {
        ring = record s.ring { prod_head = add32 ph 1 };
        place = update s.place n (push_reserved x ph);
        given = given;
        got = got;
      })
  reserve_push-Inv n x ph given got here head g h small inv =
      let m = inv.marks in
      let c = inv.cursors in
      let m' : Marks = record m { prod_head = m.prod_head + 1 } in
      let (i, e, l, o) = subst (Knows base m s.ring) here (inv.knows n) in
      let now : i ≡ m.prod_head =
        add32-injective base i m.prod_head (omega (arith, l, c.small, small))
          (omega (arith, c.small, small)) (sym e ∙ sym head ∙ c.prod_head_lem) in
      let ticket : ph ≡ add32 base m.prod_head = sym head ∙ c.prod_head_lem in
      record {
        marks = m';
        cursors = record {
          shape = HasShape-same refl refl c.shape;
          prod_head_lem = omega (arith, ticket);
          prod_tail_lem = c.prod_tail_lem;
          cons_head_lem = c.cons_head_lem;
          cons_tail_lem = c.cons_tail_lem;
          cons_le = c.cons_le;
          between_le = c.between_le;
          prod_le = omega (arith, c.prod_le);
          fits = omega (arith, o, now);
          small = omega (arith, c.small);
        };
        pushes =
            Tickets-take n (ap push_ticket here)
              (ap push_ticket (update-own s.place n (push_reserved x ph)) ∙ ap some ticket)
              (λ k other. ap push_ticket (update-other s.place n (push_reserved x ph) k other))
              c.prod_le (omega (arith, c.small, small)) inv.pushes;
        pops =
            Tickets-same
              (update-ticket pop_ticket s.place n (push_reserved x ph) (sym (ap pop_ticket here)))
              inv.pops;
        knows =
            Knows-update base m m' s.ring (record s.ring { prod_head = add32 ph 1 }) s.place n
              (push_reserved x ph)
              (λ k other.
                Kept-moved m m' s.ring (record s.ring { prod_head = add32 ph 1 }) (s.place k)
                  (omega arith) (omega arith) (omega arith) (omega arith) refl (λ y. refl)
                  (λ y f t. t) (λ y f t. t))
              inv.knows tt;
        queue = ap (λ t. t ++ window base m s.ring) h ∙ inv.queue ∙ ap (λ t. past ++ t) (sym g);
      }

  -- The copy into the slot of the ticket.
  pub write_push-Inv :
      (n : ℕ) (x : A) (ph : ℕ) (given got : List A)
      → s.place n ≡ push_reserved x ph
      → given ≡ s.given
      → got ≡ s.got
      → limit < 2 ^ 32
      → Inv base past limit s
      → Inv base past (suc limit) (record {
        ring = push_write ph (λ i. x) 0 s.ring;
        place = update s.place n (push_written x ph);
        given = given;
        got = got;
      })
  write_push-Inv n x ph given got here g h small inv =
      let m = inv.marks in
      let c = inv.cursors in
      let r = s.ring in
      let r' = push_write ph (λ i. x) 0 r in
      let mine : push_ticket (s.place n) ≡ some ph = ap push_ticket here in
      let (i, e, l, o) = inv.pushes.within n ph mine in
      -- A slot of another number is left alone.
      let spared : (j : ℕ)
          → j ≢ i
          → m.cons_tail ≤ j
          → j < m.prod_head
          → at r' (add32 base j) ≡ at r (add32 base j) =
        λ j ne a b. outside r.slots (bit_and ph r.mask) (bit_and (add32 base j) r.mask) x (λ same.
          numbers-apart r base j i c.shape ne (omega (arith, o, c.fits, a))
            (omega (arith, b, l, c.fits, c.cons_le, c.between_le))
            (same ∙ ap (λ (t : ℕ). bit_and t r.mask) e)) in
      record {
        marks = m;
        cursors = record {
          shape = HasShape-same refl refl c.shape;
          prod_head_lem = c.prod_head_lem;
          prod_tail_lem = c.prod_tail_lem;
          cons_head_lem = c.cons_head_lem;
          cons_tail_lem = c.cons_tail_lem;
          cons_le = c.cons_le;
          between_le = c.between_le;
          prod_le = c.prod_le;
          fits = c.fits;
          small = omega (arith, c.small);
        };
        pushes =
            Tickets-same (update-ticket push_ticket s.place n (push_written x ph) (sym mine))
              inv.pushes;
        pops =
            Tickets-same
              (update-ticket pop_ticket s.place n (push_written x ph) (sym (ap pop_ticket here)))
              inv.pops;
        knows =
            Knows-update base m m r r' s.place n (push_written x ph)
              (λ k other. record {
                prod_head_le = omega arith;
                prod_tail_le = omega arith;
                cons_head_le = omega arith;
                cons_tail_le = omega arith;
                capacity_same = refl;
                push_slot = λ y f.
                    let (j, e', l', o') = inv.pushes.within k y f in
                    ap (at r') e'
                    ∙ spared j
                        (λ same.
                          other-ticket n k ph y inv.pushes mine other f
                            (e ∙ ap (add32 base) (sym same) ∙ sym e'))
                        (omega (arith, l', c.cons_le, c.between_le)) o'
                    ∙ ap (at r) (sym e');
                pop_slot = λ y f.
                    let (j, e', l', o') = inv.pops.within k y f in
                    ap (at r') e'
                    ∙ spared j (λ same. omega (arith, same, l, o', c.between_le)) l'
                        (omega (arith, o', c.between_le, c.prod_le))
                    ∙ ap (at r) (sym e');
                push_tail = λ y f t. t;
                pop_tail = λ y f t. t;
              })
              inv.knows
              (memcpy_inside r.slots (bit_and ph r.mask) (λ t. x) 0 1 _ (omega arith)
                (omega arith));
        queue =
            ap₂ ◌++◌ h (
              tabulate-congr (m.prod_tail - m.cons_tail) (λ j. at r' (add32 base (m.cons_tail + j)))
                (λ j. at r (add32 base (m.cons_tail + j)))
                (λ j lt.
                  spared (m.cons_tail + j) (λ same. omega (arith, same, lt, l)) (omega arith)
                    (omega (arith, lt, c.prod_le))))
            ∙ inv.queue
            ∙ ap (λ t. past ++ t) (sym g);
      }
    where
      outside : (slots : ℕ → A) (a q : ℕ) (x : A) → q ≢ a → memcpy slots a (λ t. x) 0 1 q ≡ slots q
      outside slots a q x ne = elim (apart q a ne) [
        | inl below ↦ memcpy_below slots a (λ t. x) 0 1 q below
        | inr above ↦ memcpy_above slots a (λ t. x) 0 1 q above
      ]
        where
          apart : (q a : ℕ) → q ≢ a → (q < a) ⊎ (a + 1 ≤ q)
          apart q a ne = ground (arith, ne)

  -- The store to `prod.tail`.
  pub commit_push-Inv :
      (n : ℕ) (x : A) (ph : ℕ) (given got : List A)
      → s.place n ≡ push_turn x ph
      → given ≡ s.given ++ (x ∷ [])
      → got ≡ s.got
      → limit < 2 ^ 32
      → Inv base past limit s
      → Inv base past (suc limit) (record {
        ring = push_commit ph s.ring;
        place = update s.place n (pushed true);
        given = given;
        got = got;
      })
  commit_push-Inv n x ph given got here g h small inv =
      let m = inv.marks in
      let c = inv.cursors in
      let m' : Marks = record m { prod_tail = m.prod_tail + 1 } in
      let r = s.ring in
      let r' = push_commit ph r in
      let mine : push_ticket (s.place n) ≡ some ph = ap push_ticket here in
      let (written, turn) = subst (Knows base m r) here (inv.knows n) in
      let (i, e, l, o) = inv.pushes.within n ph mine in
      let ticket : ph ≡ add32 base m.prod_tail = sym turn ∙ c.prod_tail_lem in
      let next : i ≡ m.prod_tail =
        add32-injective base i m.prod_tail (omega (arith, o, c.small, small))
          (omega (arith, c.prod_le, c.small, small)) (sym e ∙ ticket) in
      record {
        marks = m';
        cursors = record {
          shape = HasShape-same refl refl c.shape;
          prod_head_lem = c.prod_head_lem;
          prod_tail_lem = omega (arith, ticket);
          cons_head_lem = c.cons_head_lem;
          cons_tail_lem = c.cons_tail_lem;
          cons_le = c.cons_le;
          between_le = omega (arith, c.between_le);
          prod_le = omega (arith, o, next);
          fits = c.fits;
          small = omega (arith, c.small);
        };
        pushes =
            Tickets-leave n (mine ∙ ap some ticket)
              (ap push_ticket (update-own s.place n (pushed true)))
              (λ k other. ap push_ticket (update-other s.place n (pushed true) k other))
              (omega (arith, c.small, small)) inv.pushes;
        pops =
            Tickets-same
              (update-ticket pop_ticket s.place n (pushed true) (sym (ap pop_ticket here)))
              inv.pops;
        knows =
            Knows-update base m m' r r' s.place n (pushed true)
              (λ k other.
                Kept-moved m m' r r' (s.place k) (omega arith) (omega arith) (omega arith)
                  (omega arith) refl (λ y. refl)
                  (λ y f t. other-ticket n k ph y inv.pushes mine other f (sym turn ∙ t))
                  (λ y f t. t))
              inv.knows tt;
        queue =
            ap₂ ◌++◌ h (
              ap (λ (t : ℕ). tabulate t (λ j. at r (add32 base (m.cons_tail + j))))
                {y = m.prod_tail - m.cons_tail + 1} (omega (arith, c.cons_le, c.between_le))
              ∙ tabulate-add (m.prod_tail - m.cons_tail) 1
                  (λ j. at r (add32 base (m.cons_tail + j)))
              ∙ ap (λ t. window base m r ++ (t ∷ []))
                  (ap (λ (t : ℕ). at r (add32 base t)) {y = m.prod_tail}
                      (omega (arith, c.cons_le, c.between_le))
                    ∙ ap (at r) (sym ticket)
                    ∙ written))
            ∙ sym (append_assoc s.got (window base m r) (x ∷ []))
            ∙ ap (λ t. t ++ (x ∷ [])) inv.queue
            ∙ append_assoc past s.given (x ∷ [])
            ∙ ap (λ t. past ++ t) (sym g);
      }
