-- ===== src/Chan/Recv/Burst.antt =====
-- `chan_try_recv_burst` on a channel where nobody is parked.
use libchan.Base.{
  ℕ, ◌+◌, ◌-◌, ◌^◌, ◌<◌, min, false, some, List, ◌++◌, Option, ◌≡◌, inl, inr, refl, sym, ap, subst,
  ◌∙◌, length, tabulate, Bool-cases, if_true, if_false, if◌then◌else◌, ◌==◌, ltb, ==_iff, arith,
}
use libchan.Ring
use libchan.Ring.{Ring}
use libchan.Ring.Valid.{IsValid, contents}
use libchan.Ring.Burst.{dequeue_burst_takes}
use libchan.Chan.{World, Chan}
use libchan.Chan.Idle.{IsIdle, with_ring, with_ring-IsIdle, zero-eq, pos-eq}
use libchan.Chan.Recv.{serve_senders, try_recv_burst}

module _ {A : Type 0} where
  -- The end of the call, after the burst out of the ring.
  abbrev burst_end : Chan A → World A → ℕ × Ring A × (ℕ → A) → ℕ × Option (Chan A) × World A
  burst_end c w (got, ring, cell) =
      let (c', w') = serve_senders (record c { ring = ring }) (record w { cell = cell }) in
      if got == 0 then (0, some (record c { ring = ring }), w) else (got, some c', w')

  -- What a burst into the cells from `p` on took from the contents `q`.
  record Took (c : Chan A) (p n : ℕ) (q : List A) (res : ℕ × Option (Chan A) × World A)
      : Type 0 where
    got : ℕ
    after : Chan A
    memory : World A
    result : res ≡ (got, some after, memory)
    amount : got ≡ min n (length q)
    in_order : tabulate got (λ j. memory.cell (p + j)) ++ contents after.ring ≡ q
    idle : IsIdle after

  burst_end-idle :
      {c : Chan A} (w : World A) (p n : ℕ) (q : List A) (t : ℕ × Ring A × (ℕ → A))
      → IsIdle c
      → IsValid t.1
      → t.0 ≡ min n (length q)
      → tabulate t.0 (λ j. t.2 (p + j)) ++ contents t.1 ≡ q
      → Took c p n q (burst_end c w t)
  burst_end-idle {c} w p n q (got, ring, cell) i v amount order = elim (Bool-cases (got == 0)) [
    | inl e ↦
        let none_got = (==_iff got 0).0 e in
        record {
          got = 0;
          after = with_ring c ring;
          memory = w;
          result = if_true _ _ e;
          amount = sym none_got ∙ amount;
          in_order =
              subst (λ (k : ℕ). tabulate k (λ j. cell (p + j)) ++ contents ring ≡ q) none_got order;
          idle = with_ring-IsIdle ring i v;
        }
    | inr e ↦ record {
      got = got;
      after = with_ring c ring;
      memory = record w { cell = cell };
      result =
          if_false _ _ e
          ∙ ap (λ (t : Chan A × World A). (got, some t.0, t.1))
              (if_true _ _ (zero-eq c.send_waiter_cnt i.no_send_cnt));
      amount = amount;
      in_order = order;
      idle = with_ring-IsIdle ring i v;
    }
  ]

  try_recv_burst-ring :
      {c : Chan A} (w : World A) (p n : ℕ)
      → IsIdle c
      → n < 2 ^ 32
      → (n == 0) ≡ false
      → try_recv_burst (some c) w (some p) n ≡ burst_end c w (Ring.dequeue_burst c.ring w.cell p n)
  unfolding try_recv_burst
  try_recv_burst-ring {c} w p n i small some_wanted =
      if_false _ _ some_wanted
      ∙ if_false _ _ (pos-eq c.capacity i.capacity_pos)
      ∙ ap (λ (m : ℕ). burst_end c w (Ring.dequeue_burst c.ring w.cell p m))
          (if_false {b = ltb (2 ^ 32 - 1) n} _ _ (ground arith))

  none-wanted :
      {c : Chan A} (w : World A) (p n : ℕ)
      → n ≡ 0
      → try_recv_burst (some c) w (some p) n ≡ (0, some c, w)
  unfolding try_recv_burst
  none-wanted w p n e = if_true _ _ (zero-eq n e)

  -- `chan_try_recv_burst` of fewer than 2 ^ 32 elements on a buffered channel where nobody is
  -- parked, open or closed: it reports as many elements as are wanted and there, these are the
  -- oldest of the contents, in order in the cells from `p` on, the others stay, and the channel is
  -- again one where nobody is parked.
  pub try_recv_burst_takes :
      {c : Chan A} (w : World A) (p n : ℕ)
      → IsIdle c
      → n < 2 ^ 32
      → (k : ℕ) × (c' : Chan A) × (w' : World A) × (try_recv_burst (some c) w (some p) n
          ≡ (k, some c', w'))
        × (k ≡ min n (length (contents c.ring)))
        × (tabulate k (λ j. w'.cell (p + j)) ++ contents c'.ring ≡ contents c.ring)
        × IsIdle c'
  try_recv_burst_takes {c} w p n i small = elim (Bool-cases (n == 0)) [
    | inl e ↦
        let zero_wanted = (==_iff n 0).0 e in
        (0, c, w, none-wanted w p n zero_wanted, omega (arith, zero_wanted), refl, i)
    | inr e ↦
        let (count, order, v) = dequeue_burst_takes w.cell p n i.ring_valid in
        let t =
          burst_end-idle w p n (contents c.ring) (Ring.dequeue_burst c.ring w.cell p n) i v count
            order in
        (
          t.got,
          t.after,
          t.memory,
          try_recv_burst-ring w p n i small e ∙ t.result,
          t.amount,
          t.in_order,
          t.idle,
        )
  ]
