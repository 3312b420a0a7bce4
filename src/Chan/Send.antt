-- ===== src/Chan/Send.antt =====
-- src/chan_send.c. A call runs up to its return or to its wait on a park; `resume` is the code
-- behind the wait. The spin loops are shown where no other thread acts between two rounds.
pub mod Burst
pub mod Rounds
pub mod Closed
pub mod Try
use libchan.Base.{
  ℕ, zero, suc, ◌+◌, ◌-◌, ◌^◌, ℤ, is_zero, is_neg, Bool, true, false, not, ◌&&◌, Option, none, some,
  List, [], ◌∷◌, ◌++◌, mem, erase, ltb, ◌==◌, if◌then◌else◌,
}
use libchan.Ring
use libchan.Ring.{Ring}
use libchan.Chan.{
  ChanErr, chan_ok, err_closed, err_timeout, err_would_block, err_invalid, op_send, World, Chan,
  init_waiter, set_result, finish, copy, pop_claimed, deliver_ring,
}

-- LIBCHAN_FASTPATH_SPIN
abbrev pub fastpath_spin : ℕ
fastpath_spin = 64

-- Where a blocked call stands: on the unbuffered path, on the buffered one, in the bounded wait of
-- an SPSC channel, or in the unbounded one after it.
pub data Place : Type 0 where
  rendezvous buffered backstop forever : Place

-- A call has returned, or waits.
pub data Outcome : Type 0 where
  returned : ChanErr → Outcome
  waiting : Place → Outcome

-- How a round of a spin loop ends.
pub data Round : Type 0 where
  moved give_up again : Round

module _ {A : Type 0} where
  -- After a push on a fast path: parked receivers are served.
  abbrev pub serve_receivers : Chan A → World A → Chan A × World A
  serve_receivers c w = if c.recv_waiter_cnt == 0 then (c, w) else deliver_ring c w

  -- The end of a round, after the push.
  abbrev pub round_end : Chan A → World A → Bool × Ring A → Round × Chan A × World A
  round_end c w (true, ring) =
      let (c', w') = serve_receivers (record c { ring = ring }) w in (moved, c', w')
  round_end c w (false, ring) = (again, record c { ring = ring }, w)

  pub spsc_round : Chan A → World A → ℕ → Round × Chan A × World A
  spsc_round c w p =
      if c.closed then (give_up, c, w) else round_end c w (Ring.spsc_push c.ring w.cell p)

  pub mpmc_round : Chan A → World A → ℕ → Round × Chan A × World A
  mpmc_round c w p =
      if c.closed
      then (give_up, c, w)
      else if not (c.send_waiter_cnt == 0)
      then (give_up, c, w)
      else if not (c.recv_waiter_cnt == 0)
      then (give_up, c, w)
      else round_end c w (Ring.push c.ring w.cell p)

  -- The `for` loop after a round, with the rounds that are left.
  unfoldable pub spin_on :
      (Chan A → World A → ℕ → Round × Chan A × World A)
      → ℕ
      → Round × Chan A × World A
      → ℕ
      → Bool × Chan A × World A
  spin_on round left (moved, c, w) p = (true, c, w)
  spin_on round left (give_up, c, w) p = (false, c, w)
  spin_on round zero (again, c, w) p = (false, c, w)
  spin_on round (suc left) (again, c, w) p = spin_on round left (round c w p) p

  abbrev pub spin :
      (Chan A → World A → ℕ → Round × Chan A × World A)
      → ℕ
      → Chan A
      → World A
      → ℕ
      → Bool × Chan A × World A
  spin round left c w p = spin_on round left (round c w p) p

  -- Both fast paths: whether the element went in.
  pub fast_path : Chan A → World A → ℕ → Bool × Chan A × World A
  fast_path c w p =
      if c.spsc
      then spin spsc_round fastpath_spin c w p
      else if ltb 0 c.capacity
      then spin mpmc_round fastpath_spin c w p
      else (false, c, w)

  -- The waiter `self` joins the queue, or leaves the count.
  abbrev pub enlist : Chan A → ℕ → Chan A
  enlist c self = record c {
    send_waiter_cnt = c.send_waiter_cnt + 1;
    send_waiters = c.send_waiters ++ (self ∷ []);
  }

  abbrev pub leave : Chan A → Chan A
  leave c = record c { send_waiter_cnt = c.send_waiter_cnt - 1 }

  -- The unbuffered part of the locked path, after the search for a receiver.
  abbrev pub meet : Chan A → ℕ → ℕ → ℤ → Option ℕ × List ℕ × World A → Outcome × Chan A × World A
  meet c self p timeout_ns (some r, rest, w) = (
    returned chan_ok,
    record c { recv_waiters = rest },
    finish (copy w (w.node r).buf p) r chan_ok,
  )
  meet c self p timeout_ns (none, rest, w) =
      let c₁ = record c { recv_waiters = rest } in
      if is_zero timeout_ns
      then (returned err_would_block, c₁, w)
      else (waiting rendezvous, enlist c₁ self, init_waiter w self p op_send)

  pub send_rendezvous : Chan A → World A → ℕ → ℕ → ℤ → Outcome × Chan A × World A
  send_rendezvous c w self p timeout_ns = meet c self p timeout_ns (pop_claimed c.recv_waiters w)

  -- The second try of the ring, with the waiter `self` registered: the waiter is taken out again,
  -- or the call waits.
  abbrev pub recheck : Chan A → World A → ℕ → ℤ → Bool × Ring A → Outcome × Chan A × World A
  recheck c w self timeout_ns (true, ring) =
      let (c', w') =
        deliver_ring (record (leave c) { ring = ring; send_waiters = erase self c.send_waiters })
          w in
      (returned chan_ok, c', w')
  recheck c w self timeout_ns (false, ring) = (
    waiting (if c.spsc && is_neg timeout_ns then backstop else buffered),
    record c { ring = ring },
    w,
  )

  -- From the registration of the waiter to the wait.
  pub send_register : Chan A → World A → ℕ → ℕ → ℤ → Outcome × Chan A × World A
  send_register c w self p timeout_ns =
      let w₁ = init_waiter w self p op_send in
      recheck (enlist c self) w₁ self timeout_ns (Ring.push c.ring w₁.cell p)

  -- The first try of the ring under the lock.
  abbrev pub first_try : Chan A → World A → ℕ → ℕ → ℤ → Bool × Ring A → Outcome × Chan A × World A
  first_try c w self p timeout_ns (true, ring) =
      let (c₁, w₁) = deliver_ring (record c { ring = ring }) w in (returned chan_ok, c₁, w₁)
  first_try c w self p timeout_ns (false, ring) =
      let (c₁, w₁) = deliver_ring (record c { ring = ring }) w in
      if is_zero timeout_ns
      then (returned err_would_block, c₁, w₁)
      else send_register c₁ w₁ self p timeout_ns

  -- The buffered part of the locked path.
  pub send_buffered : Chan A → World A → ℕ → ℕ → ℤ → Outcome × Chan A × World A
  send_buffered c w self p timeout_ns = first_try c w self p timeout_ns (Ring.push c.ring w.cell p)

  pub send_locked : Chan A → World A → ℕ → ℕ → ℤ → Outcome × Chan A × World A
  send_locked c w self p timeout_ns =
      if c.closed
      then (returned err_closed, c, w)
      else if c.capacity == 0
      then send_rendezvous c w self p timeout_ns
      else send_buffered c w self p timeout_ns

  -- After the fast path.
  abbrev pub after_fast : ℕ → ℕ → ℤ → Bool × Chan A × World A → Outcome × Chan A × World A
  after_fast self p timeout_ns (true, c, w) = (returned chan_ok, c, w)
  after_fast self p timeout_ns (false, c, w) = send_locked c w self p timeout_ns

  -- `chan_send_impl` up to its return or its first wait, on a channel and data that are not NULL.
  pub send_start : Chan A → World A → ℕ → ℕ → ℤ → Outcome × Chan A × World A
  send_start c w self p timeout_ns = after_fast self p timeout_ns (fast_path c w p)

  -- `chan_send_impl`: `none` is NULL.
  pub send_impl : Option (Chan A) → World A → ℕ → Option ℕ → ℤ → Outcome × Option (Chan A) × World A
  send_impl none w self src timeout_ns = (returned err_invalid, none, w)
  send_impl (some c) w self none timeout_ns = (returned err_invalid, some c, w)
  send_impl (some c) w self (some p) timeout_ns =
      let (out, c', w') = send_start c w self p timeout_ns in (out, some c', w')

  -- After the bounded wait of an SPSC channel has run out.
  pub resume_backstop : Chan A → World A → ℕ → ℕ → Outcome × Chan A × World A
  resume_backstop c w self p =
      let c₁ = record c { send_waiters = erase self c.send_waiters } in
      let (done, ring) = Ring.push c₁.ring w.cell p in
      if not (mem self c.send_waiters)
      then (returned (w.node self).result, leave c, w)
      else if c.closed
      then (returned err_closed, leave c₁, set_result w self err_closed)
      else if done
      then (returned chan_ok, leave (record c₁ { ring = ring }), set_result w self chan_ok)
      else (
        waiting forever,
        record c₁ { ring = ring; send_waiters = c₁.send_waiters ++ (self ∷ []) },
        w,
      )

  -- The code behind `chan_park_wait`, given whether the waiter was woken.
  pub resume : Place → Bool → Chan A → World A → ℕ → ℕ → Outcome × Chan A × World A
  resume rendezvous false c w self p =
      (returned err_timeout, leave (record c { send_waiters = erase self c.send_waiters }), w)
  resume buffered false c w self p = (
    returned (if mem self c.send_waiters then err_timeout else (w.node self).result),
    leave (record c { send_waiters = erase self c.send_waiters }),
    w,
  )
  resume backstop false c w self p = resume_backstop c w self p
  resume _ _ c w self p = (returned (w.node self).result, leave c, w)

  -- `chan_try_send_burst`: the number of elements sent from the array at `p`.
  pub try_send_burst : Option (Chan A) → World A → Option ℕ → ℕ → ℕ × Option (Chan A) × World A
  try_send_burst none w src n = (0, none, w)
  try_send_burst (some c) w none n = (0, some c, w)
  try_send_burst (some c) w (some p) n =
      let want = if ltb (2 ^ 32 - 1) n then 2 ^ 32 - 1 else n in
      let (got, ring) = Ring.enqueue_burst c.ring w.cell p want in
      let (c', w') = serve_receivers (record c { ring = ring }) w in
      if n == 0
      then (0, some c, w)
      else if c.capacity == 0
      then (0, some c, w)
      else if c.closed
      then (0, some c, w)
      else if got == 0
      then (0, some (record c { ring = ring }), w)
      else (got, some c', w')
