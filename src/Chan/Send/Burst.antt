-- ===== src/Chan/Send/Burst.antt =====
-- `chan_try_send_burst` on a channel where nobody is parked.
use libchan.Base.{
  ℕ, ◌+◌, ◌-◌, ◌^◌, ◌<◌, min, false, some, ◌++◌, Option, ◌≡◌, inl, inr, sym, ap, ◌∙◌, length,
  tabulate, append-nil, Bool-cases, if_true, if_false, if◌then◌else◌, ◌==◌, ltb, ==_iff, arith,
}
use libchan.Ring
use libchan.Ring.{Ring}
use libchan.Ring.Valid.{contents}
use libchan.Ring.Burst.{enqueue_burst_appends}
use libchan.Chan.{World, Chan}
use libchan.Chan.Idle.{IsIdle, with_ring, with_ring-IsIdle, zero-eq, pos-eq}
use libchan.Chan.Send.{serve_receivers, try_send_burst}

module _ {A : Type 0} where
  -- The end of the call, after the burst into the ring.
  abbrev burst_end : Chan A → World A → ℕ × Ring A → ℕ × Option (Chan A) × World A
  burst_end c w (got, ring) =
      let (c', w') = serve_receivers (record c { ring = ring }) w in
      if got == 0 then (0, some (record c { ring = ring }), w) else (got, some c', w')

  burst_end-idle :
      {c : Chan A} (w : World A) (t : ℕ × Ring A)
      → IsIdle c
      → burst_end c w t ≡ (t.0, some (with_ring c t.1), w)
  burst_end-idle {c} w (got, ring) i = elim (Bool-cases (got == 0)) [
    | inl e ↦
        if_true _ _ e ∙ ap (λ (k : ℕ). (k, some (with_ring c ring), w)) (sym ((==_iff got 0).0 e))
    | inr e ↦
        if_false _ _ e
        ∙ ap (λ (t : Chan A × World A). (got, some t.0, t.1))
            (if_true _ _ (zero-eq c.recv_waiter_cnt i.no_recv_cnt))
  ]

  try_send_burst-ring :
      {c : Chan A} (w : World A) (p n : ℕ)
      → IsIdle c
      → c.closed ≡ false
      → n < 2 ^ 32
      → (n == 0) ≡ false
      → try_send_burst (some c) w (some p) n ≡ burst_end c w (Ring.enqueue_burst c.ring w.cell p n)
  unfolding try_send_burst
  try_send_burst-ring {c} w p n i o small some_wanted =
      if_false _ _ some_wanted
      ∙ if_false _ _ (pos-eq c.capacity i.capacity_pos)
      ∙ if_false _ _ o
      ∙ ap (λ (m : ℕ). burst_end c w (Ring.enqueue_burst c.ring w.cell p m))
          (if_false {b = ltb (2 ^ 32 - 1) n} _ _ (ground arith))

  none-wanted :
      {c : Chan A} (w : World A) (p n : ℕ)
      → n ≡ 0
      → try_send_burst (some c) w (some p) n ≡ (0, some c, w)
  unfolding try_send_burst
  none-wanted w p n e = if_true _ _ (zero-eq n e)

  -- `chan_try_send_burst` of fewer than 2 ^ 32 elements on an open buffered channel where nobody is
  -- parked: it reports as many elements as are wanted and fit the ring, appends exactly those to the
  -- contents, in order, and leaves memory as it is and a channel where nobody is parked.
  pub try_send_burst_appends :
      {c : Chan A} (w : World A) (p n : ℕ)
      → IsIdle c
      → c.closed ≡ false
      → n < 2 ^ 32
      → (k : ℕ) × (c' : Chan A) × (try_send_burst (some c) w (some p) n ≡ (k, some c', w))
        × (k ≡ min n (c.ring.capacity - length (contents c.ring)))
        × (contents c'.ring ≡ contents c.ring ++ tabulate k (λ j. w.cell (p + j)))
        × IsIdle c'
  try_send_burst_appends {c} w p n i o small = elim (Bool-cases (n == 0)) [
    | inl e ↦
        let zero_wanted = (==_iff n 0).0 e in
        (
          0,
          c,
          none-wanted w p n zero_wanted,
          omega (arith, zero_wanted),
          sym (append-nil (contents c.ring)),
          i,
        )
    | inr e ↦
        let t = Ring.enqueue_burst c.ring w.cell p n in
        let (count, appended, v) = enqueue_burst_appends w.cell p n i.ring_valid in
        (
          t.0,
          with_ring c t.1,
          try_send_burst-ring w p n i o small e ∙ burst_end-idle w t i,
          count,
          appended,
          with_ring-IsIdle t.1 i v,
        )
  ]
