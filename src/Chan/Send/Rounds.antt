-- ===== src/Chan/Send/Rounds.antt =====
-- The spin loops of `chan_send_impl` where nobody is parked.
use libchan.Base.{
  ℕ, zero, suc, pos, Bool, true, false, ◌≡◌, refl, ap, ◌∙◌, if_true, if_false, arith,
}
use libchan.Ring
use libchan.Ring.{Ring}
use libchan.Ring.Valid.{IsValid, capacity-le, recache-IsValid}
use libchan.Ring.Burst.{size}
use libchan.Ring.Push.{push-full}
use libchan.Ring.Spsc.{ProducerCache, reloaded_tail, spsc_push-eq-push}
use libchan.Chan.{err_would_block, World, Chan}
use libchan.Chan.Idle.{
  IsIdle, with_ring, with_ring-IsIdle, zero-test, zero-eq, pos-eq, deliver_ring-nobody,
}
use libchan.Chan.Send.{
  returned, Round, moved, again, round_end, mpmc_round, spsc_round, spin_on, first_try,
  send_buffered, send_locked,
}

module _ {A : Type 0} where
  -- How a round ends where nobody is parked.
  abbrev pub plain_end : Chan A → World A → Bool × Ring A → Round × Chan A × World A
  plain_end c w (true, ring) = (moved, with_ring c ring, w)
  plain_end c w (false, ring) = (again, with_ring c ring, w)

  pub round_end-idle :
      {c : Chan A} (w : World A) (t : Bool × Ring A) → IsIdle c → round_end c w t ≡ plain_end c w t
  round_end-idle {c} w (true, ring) i =
      ap (λ (t : Chan A × World A). (moved, t.0, t.1))
        (if_true _ _ (zero-eq c.recv_waiter_cnt i.no_recv_cnt))
  round_end-idle w (false, ring) i = refl

  pub mpmc_round-idle :
      {c : Chan A} (w : World A) (p : ℕ)
      → IsIdle c
      → c.closed ≡ false
      → mpmc_round c w p ≡ plain_end c w (Ring.push c.ring w.cell p)
  unfolding mpmc_round
  mpmc_round-idle {c} w p i o =
      if_false _ _ o
      ∙ if_false _ _ (zero-test c.send_waiter_cnt i.no_send_cnt)
      ∙ if_false _ _ (zero-test c.recv_waiter_cnt i.no_recv_cnt)
      ∙ round_end-idle w (Ring.push c.ring w.cell p) i

  pub spin_on-again :
      (round : Chan A → World A → ℕ → Round × Chan A × World A) (c : Chan A) (w : World A) (p : ℕ)
      → round c w p ≡ (again, c, w)
      → (left : ℕ) → spin_on round left (again, c, w) p ≡ (false, c, w)
  unfolding spin_on
  spin_on-again round c w p e zero = refl
  spin_on-again round c w p e (suc left) =
      ap (λ t. spin_on round left t p) e ∙ spin_on-again round c w p e left

  -- The locked path after a fast path that moved nothing.
  pub send_locked-full :
      {c : Chan A} (w : World A) (self p : ℕ)
      → IsIdle c
      → c.closed ≡ false
      → Ring.push c.ring w.cell p ≡ (false, c.ring)
      → send_locked c w self p (pos 0) ≡ (returned err_would_block, c, w)
  unfolding send_locked send_buffered
  send_locked-full {c} w self p i o e =
      if_false _ _ o
      ∙ if_false _ _ (pos-eq c.capacity i.capacity_pos)
      ∙ ap (first_try c w self p (pos 0)) e
      ∙ ap (λ (t : Chan A × World A). (returned err_would_block, t.0, t.1))
          (deliver_ring-nobody c w i.no_receivers)

  abbrev pub recached : Chan A → ℕ → Chan A
  recached c x = with_ring c (record c.ring { cached_cons_tail = x })

  pub recached-IsIdle : {c : Chan A} (x : ℕ) → IsIdle c → IsIdle (recached c x)
  recached-IsIdle {c} x i =
      with_ring-IsIdle (record c.ring { cached_cons_tail = x }) i
        (recache-IsValid x c.ring.cached_prod_tail i.ring_valid)

  pub spsc_round-idle :
      {c : Chan A} (w : World A) (p : ℕ)
      → IsIdle c
      → c.closed ≡ false
      → spsc_round c w p ≡ plain_end c w (Ring.spsc_push c.ring w.cell p)
  unfolding spsc_round
  spsc_round-idle {c} w p i o = if_false _ _ o ∙ round_end-idle w (Ring.spsc_push c.ring w.cell p) i

  pub spsc_round-reloads :
      {c : Chan A} (w : World A) (p : ℕ)
      → IsIdle c
      → c.closed ≡ false
      → ProducerCache c.ring
      → size c.ring ≡ c.ring.capacity
      → spsc_round c w p ≡ (again, recached c (reloaded_tail c.ring), w)
  spsc_round-reloads {c} w p i o k full =
      spsc_round-idle w p i o
      ∙ ap (plain_end c w) (
          (spsc_push-eq-push w.cell p i.ring_valid k).0
          ∙ ap
              (λ (t : Bool × Ring A). (t.0, record t.1 { cached_cons_tail = reloaded_tail c.ring }))
              (push-full w.cell p i.ring_valid full))

  -- The reloaded cache is still a valid one.
  pub spsc_push-cache :
      {r : Ring A} (src : ℕ → A) (p : ℕ)
      → IsValid r
      → ProducerCache r
      → size r ≡ r.capacity
      → ProducerCache (record r { cached_cons_tail = reloaded_tail r })
  spsc_push-cache {r} src p v k full = ground (arith, capacity-le v.shape)

  -- The SPSC loop on a full ring runs out, and only reloads the cache.
  pub spin_on-spsc_full :
      (left : ℕ) (c : Chan A) (w : World A) (p : ℕ)
      → IsIdle c
      → c.closed ≡ false
      → ProducerCache c.ring
      → size c.ring ≡ c.ring.capacity
      → (x : ℕ) × (spin_on spsc_round left (spsc_round c w p) p ≡ (false, recached c x, w))
  unfolding spin_on
  spin_on-spsc_full zero c w p i o k full = (
    reloaded_tail c.ring,
    ap (λ t. spin_on spsc_round zero t p) (spsc_round-reloads w p i o k full),
  )
  spin_on-spsc_full (suc left) c w p i o k full =
      let x = reloaded_tail c.ring in
      let (y, rest) =
        spin_on-spsc_full left (recached c x) w p (recached-IsIdle x i) o
          (spsc_push-cache w.cell p i.ring_valid k full) full in
      (y, ap (λ t. spin_on spsc_round (suc left) t p) (spsc_round-reloads w p i o k full) ∙ rest)
