-- ===== src/Chan/Recv/Rounds.antt =====
-- The spin loops of `chan_recv_impl` where nobody is parked.
use libchan.Base.{
  ℕ, zero, suc, pos, Bool, true, false, ◌≡◌, refl, ap, ◌∙◌, if_true, if_false, if-map,
  if◌then◌else◌, lt→ltb, arith,
}
use libchan.Ring
use libchan.Ring.{Ring}
use libchan.Ring.Valid.{IsValid, capacity-le, recache-IsValid}
use libchan.Ring.Burst.{size}
use libchan.Ring.Push.{pop-empty}
use libchan.Ring.Spsc.{ConsumerCache, reloaded_prod, spsc_pop-eq-pop}
use libchan.Chan.{ChanErr, err_closed, err_would_block, World, Chan}
use libchan.Chan.Idle.{
  IsIdle, with_ring, with_ring-IsIdle, zero-test, zero-eq, pos-eq, pop_claimed-nobody,
}
use libchan.Chan.Send.{fastpath_spin, returned, Round, moved, give_up, again, spin_on}
use libchan.Chan.Recv.{
  round_end, mpmc_round, spsc_round, fast_path, first_try, partner, recv_empty, recv_buffered,
  recv_locked,
}

module _ {A : Type 0} where
  -- How a round ends where nobody is parked.
  abbrev pub plain_end : Chan A → World A → Bool × Ring A × (ℕ → A) → Round × Chan A × World A
  plain_end c w (true, ring, cell) = (moved, with_ring c ring, record w { cell = cell })
  plain_end c w (false, ring, cell) = (if c.closed then give_up else again, with_ring c ring, w)

  pub round_end-idle :
      {c : Chan A} (w : World A) (t : Bool × Ring A × (ℕ → A))
      → IsIdle c
      → round_end c w t ≡ plain_end c w t
  round_end-idle {c} w (true, ring, cell) i =
      ap (λ (t : Chan A × World A). (moved, t.0, t.1))
        (if_true _ _ (zero-eq c.send_waiter_cnt i.no_send_cnt))
  round_end-idle w (false, ring, cell) i = refl

  pub mpmc_round-idle :
      {c : Chan A} (w : World A) (p : ℕ)
      → IsIdle c
      → mpmc_round c w p ≡ plain_end c w (Ring.pop c.ring w.cell p)
  unfolding mpmc_round
  mpmc_round-idle {c} w p i =
      if_false _ _ (zero-test c.send_waiter_cnt i.no_send_cnt)
      ∙ if_false _ _ (zero-test c.recv_waiter_cnt i.no_recv_cnt)
      ∙ round_end-idle w (Ring.pop c.ring w.cell p) i

  pub spsc_round-idle :
      {c : Chan A} (w : World A) (p : ℕ)
      → IsIdle c
      → spsc_round c w p ≡ plain_end c w (Ring.spsc_pop c.ring w.cell p)
  unfolding spsc_round
  spsc_round-idle {c} w p i = round_end-idle w (Ring.spsc_pop c.ring w.cell p) i

  pub spin_on-moved :
      (round : Chan A → World A → ℕ → Round × Chan A × World A) (left : ℕ) (c : Chan A)
      (w : World A) (p : ℕ)
      → spin_on round left (moved, c, w) p ≡ (true, c, w)
  unfolding spin_on
  spin_on-moved round left c w p = refl

  -- A round that moves nothing and changes nothing ends the loop with nothing moved.
  pub spin_on-idle :
      (round : Chan A → World A → ℕ → Round × Chan A × World A) (c : Chan A) (w : World A) (p : ℕ)
      (b : Bool)
      → round c w p ≡ (if b then give_up else again, c, w)
      → (left : ℕ) → spin_on round left (round c w p) p ≡ (false, c, w)
  unfolding spin_on
  spin_on-idle round c w p true e left = ap (λ t. spin_on round left t p) e
  spin_on-idle round c w p false e zero = ap (λ t. spin_on round zero t p) e
  spin_on-idle round c w p false e (suc left) =
      ap (λ t. spin_on round (suc left) t p) e ∙ spin_on-idle round c w p false e left

  -- The locked path after a fast path that moved nothing.
  pub recv_locked-empty :
      {c : Chan A} (w : World A) (self p : ℕ)
      → IsIdle c
      → Ring.pop c.ring w.cell p ≡ (false, c.ring, w.cell)
      → recv_locked c w self p (pos 0)
        ≡ (returned (if c.closed then err_closed else err_would_block), c, w)
  unfolding recv_locked recv_buffered recv_empty
  recv_locked-empty {c} w self p i e =
      if_false _ _ (pos-eq c.capacity i.capacity_pos)
      ∙ ap (first_try c w self p (pos 0)) e
      ∙ ap (partner c self p (pos 0)) (pop_claimed-nobody c.send_waiters w i.no_senders)
      ∙ if-map (λ (x : ChanErr). (returned x, c, w)) c.closed err_closed err_would_block

  abbrev pub recached : Chan A → ℕ → Chan A
  recached c x = with_ring c (record c.ring { cached_prod_tail = x })

  pub recached-IsIdle : {c : Chan A} (x : ℕ) → IsIdle c → IsIdle (recached c x)
  recached-IsIdle {c} x i =
      with_ring-IsIdle (record c.ring { cached_prod_tail = x }) i
        (recache-IsValid c.ring.cached_cons_tail x i.ring_valid)

  pub spsc_round-reloads :
      {c : Chan A} (w : World A) (p : ℕ)
      → IsIdle c
      → ConsumerCache c.ring
      → size c.ring ≡ 0
      → spsc_round c w p
        ≡ (if c.closed then give_up else again, recached c (reloaded_prod c.ring), w)
  spsc_round-reloads {c} w p i k none_left =
      spsc_round-idle w p i
      ∙ ap (plain_end c w) (
          (spsc_pop-eq-pop w.cell p i.ring_valid k).0
          ∙ ap
              (λ (t : Bool × Ring A × (ℕ → A)).
                (t.0, record t.1 { cached_prod_tail = reloaded_prod c.ring }, t.2))
              (pop-empty w.cell p i.ring_valid none_left))

  -- The reloaded cache is still a valid one.
  pub reloaded-cache :
      {r : Ring A}
      → IsValid r
      → ConsumerCache r
      → size r ≡ 0
      → ConsumerCache (record r { cached_prod_tail = reloaded_prod r })
  reloaded-cache {r} v k none_left = ground (arith, capacity-le v.shape)

  pub first-round :
      {c : Chan A} (w : World A) (p : ℕ) {b : Bool}
      → c.closed ≡ b
      → IsIdle c
      → ConsumerCache c.ring
      → size c.ring ≡ 0
      → spsc_round c w p ≡ (if b then give_up else again, recached c (reloaded_prod c.ring), w)
  first-round {c} w p d i k none_left =
      spsc_round-reloads w p i k none_left
      ∙ ap (λ (b : Bool). (if b then give_up else again, recached c (reloaded_prod c.ring), w)) d

  -- The SPSC loop on an empty ring ends with nothing moved, and only reloads the cache.
  pub spin_on-spsc_empty :
      (left : ℕ) (c : Chan A) (w : World A) (p : ℕ) (b : Bool)
      → c.closed ≡ b
      → IsIdle c
      → ConsumerCache c.ring
      → size c.ring ≡ 0
      → (x : ℕ) × (spin_on spsc_round left (spsc_round c w p) p ≡ (false, recached c x, w))
  unfolding spin_on
  spin_on-spsc_empty left c w p true d i k none_left = (
    reloaded_prod c.ring,
    ap (λ t. spin_on spsc_round left t p) (first-round w p d i k none_left),
  )
  spin_on-spsc_empty zero c w p false d i k none_left = (
    reloaded_prod c.ring,
    ap (λ t. spin_on spsc_round zero t p) (first-round w p d i k none_left),
  )
  spin_on-spsc_empty (suc left) c w p false d i k none_left =
      let x = reloaded_prod c.ring in
      let (y, rest) =
        spin_on-spsc_empty left (recached c x) w p false d (recached-IsIdle x i)
          (reloaded-cache i.ring_valid k none_left) none_left in
      (y, ap (λ t. spin_on spsc_round (suc left) t p) (first-round w p d i k none_left) ∙ rest)

  pub fast_path-mpmc :
      {c : Chan A} (w : World A) (p : ℕ)
      → IsIdle c
      → c.spsc ≡ false
      → fast_path c w p ≡ spin_on mpmc_round fastpath_spin (mpmc_round c w p) p
  unfolding fast_path
  fast_path-mpmc {c} w p i m = if_false _ _ m ∙ if_true _ _ (lt→ltb 0 c.capacity i.capacity_pos)

  pub fast_path-spsc :
      (c : Chan A) (w : World A) (p : ℕ)
      → c.spsc ≡ true
      → fast_path c w p ≡ spin_on spsc_round fastpath_spin (spsc_round c w p) p
  unfolding fast_path
  fast_path-spsc c w p m = if_true _ _ m
