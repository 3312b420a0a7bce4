-- ===== src/Chan/Recv.antt =====
-- src/chan_recv.c, as `Chan.Send` shows src/chan_send.c. The element goes to the cell `p`.
pub mod Burst
pub mod Rounds
pub mod Meets
pub mod Try
use libchan.Base.{
  ℕ, ◌+◌, ◌-◌, ◌^◌, ℤ, is_zero, is_neg, Bool, true, false, not, ◌&&◌, Option, none, some, List, [],
  ◌∷◌, ◌++◌, mem, erase, ltb, ◌==◌, if◌then◌else◌,
}
use libchan.Ring
use libchan.Ring.{Ring}
use libchan.Chan.{
  chan_ok, err_closed, err_timeout, err_would_block, err_invalid, op_recv, World, Chan, init_waiter,
  set_result, finish, copy, pop_claimed, admit_senders,
}
use libchan.Chan.Send.{
  fastpath_spin, Place, rendezvous, buffered, backstop, forever, Outcome, returned, waiting, Round,
  moved, give_up, again, spin,
}

module _ {A : Type 0} where
  -- After a pop on a fast path: parked senders are admitted.
  abbrev pub serve_senders : Chan A → World A → Chan A × World A
  serve_senders c w = if c.send_waiter_cnt == 0 then (c, w) else admit_senders c w

  -- The end of a round, after the pop.
  abbrev pub round_end : Chan A → World A → Bool × Ring A × (ℕ → A) → Round × Chan A × World A
  round_end c w (true, ring, cell) =
      let (c', w') = serve_senders (record c { ring = ring }) (record w { cell = cell }) in
      (moved, c', w')
  round_end c w (false, ring, cell) =
      (if c.closed then give_up else again, record c { ring = ring }, w)

  pub spsc_round : Chan A → World A → ℕ → Round × Chan A × World A
  spsc_round c w p = round_end c w (Ring.spsc_pop c.ring w.cell p)

  pub mpmc_round : Chan A → World A → ℕ → Round × Chan A × World A
  mpmc_round c w p =
      if not (c.send_waiter_cnt == 0)
      then (give_up, c, w)
      else if not (c.recv_waiter_cnt == 0)
      then (give_up, c, w)
      else round_end c w (Ring.pop c.ring w.cell p)

  -- Both fast paths: whether an element came out.
  pub fast_path : Chan A → World A → ℕ → Bool × Chan A × World A
  fast_path c w p =
      if c.spsc
      then spin spsc_round fastpath_spin c w p
      else if ltb 0 c.capacity
      then spin mpmc_round fastpath_spin c w p
      else (false, c, w)

  -- The waiter `self` joins the queue, or leaves the count.
  abbrev pub enlist : Chan A → ℕ → Chan A
  enlist c self = record c {
    recv_waiter_cnt = c.recv_waiter_cnt + 1;
    recv_waiters = c.recv_waiters ++ (self ∷ []);
  }

  abbrev pub leave : Chan A → Chan A
  leave c = record c { recv_waiter_cnt = c.recv_waiter_cnt - 1 }

  -- The unbuffered part of the locked path, after the search for a sender.
  abbrev pub meet : Chan A → ℕ → ℕ → ℤ → Option ℕ × List ℕ × World A → Outcome × Chan A × World A
  meet c self p timeout_ns (some s, rest, w) = (
    returned chan_ok,
    record c { send_waiters = rest },
    finish (copy w p (w.node s).buf) s chan_ok,
  )
  meet c self p timeout_ns (none, rest, w) =
      let c₁ = record c { send_waiters = rest } in
      if c.closed
      then (returned err_closed, c₁, w)
      else if is_zero timeout_ns
      then (returned err_would_block, c₁, w)
      else (waiting rendezvous, enlist c₁ self, init_waiter w self p op_recv)

  pub recv_rendezvous : Chan A → World A → ℕ → ℕ → ℤ → Outcome × Chan A × World A
  recv_rendezvous c w self p timeout_ns = meet c self p timeout_ns (pop_claimed c.send_waiters w)

  -- After a pop under the lock: the first sender's element takes the free slot.
  pub help_push : Chan A → World A → Chan A × World A
  help_push c w =
      let (o, rest, w₁) = pop_claimed c.send_waiters w in
      elim o [
        | none ↦ (record c { send_waiters = rest }, w₁)
        | some s ↦
            let (done, ring) = Ring.push c.ring w₁.cell (w₁.node s).buf in
            if done
            then (record c { ring = ring; send_waiters = rest }, finish w₁ s chan_ok)
            else (record c { ring = ring; send_waiters = s ∷ rest }, w₁)
      ]

  -- The second try of the ring, with the waiter `self` registered.
  abbrev pub recheck :
      Chan A → World A → ℕ → ℤ → Bool × Ring A × (ℕ → A) → Outcome × Chan A × World A
  recheck c w self timeout_ns (true, ring, cell) = (
    returned chan_ok,
    record (leave c) { ring = ring; recv_waiters = erase self c.recv_waiters },
    record w { cell = cell },
  )
  recheck c w self timeout_ns (false, ring, cell) = (
    waiting (if c.spsc && is_neg timeout_ns then backstop else buffered),
    record c { ring = ring },
    w,
  )

  -- From the registration of the waiter to the wait.
  pub recv_register : Chan A → World A → ℕ → ℕ → ℤ → Outcome × Chan A × World A
  recv_register c w self p timeout_ns =
      let w₁ = init_waiter w self p op_recv in
      recheck (enlist c self) w₁ self timeout_ns (Ring.pop c.ring w₁.cell p)

  -- The locked path of a buffered channel whose ring is empty, after the search for a sender.
  abbrev pub partner : Chan A → ℕ → ℕ → ℤ → Option ℕ × List ℕ × World A → Outcome × Chan A × World A
  partner c self p timeout_ns (some s, rest, w) = (
    returned chan_ok,
    record c { send_waiters = rest },
    finish (copy w p (w.node s).buf) s chan_ok,
  )
  partner c self p timeout_ns (none, rest, w) =
      let c₁ = record c { send_waiters = rest } in
      if c.closed
      then (returned err_closed, c₁, w)
      else if is_zero timeout_ns
      then (returned err_would_block, c₁, w)
      else recv_register c₁ w self p timeout_ns

  pub recv_empty : Chan A → World A → ℕ → ℕ → ℤ → Outcome × Chan A × World A
  recv_empty c w self p timeout_ns = partner c self p timeout_ns (pop_claimed c.send_waiters w)

  -- The first try of the ring under the lock.
  abbrev pub first_try :
      Chan A → World A → ℕ → ℕ → ℤ → Bool × Ring A × (ℕ → A) → Outcome × Chan A × World A
  first_try c w self p timeout_ns (true, ring, cell) =
      let (c₁, w₁) = help_push (record c { ring = ring }) (record w { cell = cell }) in
      (returned chan_ok, c₁, w₁)
  first_try c w self p timeout_ns (false, ring, cell) =
      recv_empty (record c { ring = ring }) w self p timeout_ns

  pub recv_buffered : Chan A → World A → ℕ → ℕ → ℤ → Outcome × Chan A × World A
  recv_buffered c w self p timeout_ns = first_try c w self p timeout_ns (Ring.pop c.ring w.cell p)

  pub recv_locked : Chan A → World A → ℕ → ℕ → ℤ → Outcome × Chan A × World A
  recv_locked c w self p timeout_ns =
      if c.capacity == 0
      then recv_rendezvous c w self p timeout_ns
      else recv_buffered c w self p timeout_ns

  -- After the fast path.
  abbrev pub after_fast : ℕ → ℕ → ℤ → Bool × Chan A × World A → Outcome × Chan A × World A
  after_fast self p timeout_ns (true, c, w) = (returned chan_ok, c, w)
  after_fast self p timeout_ns (false, c, w) = recv_locked c w self p timeout_ns

  -- `chan_recv_impl` up to its return or its first wait, on a channel and buffer that are not NULL.
  pub recv_start : Chan A → World A → ℕ → ℕ → ℤ → Outcome × Chan A × World A
  recv_start c w self p timeout_ns = after_fast self p timeout_ns (fast_path c w p)

  -- `chan_recv_impl`: `none` is NULL.
  pub recv_impl : Option (Chan A) → World A → ℕ → Option ℕ → ℤ → Outcome × Option (Chan A) × World A
  recv_impl none w self out timeout_ns = (returned err_invalid, none, w)
  recv_impl (some c) w self none timeout_ns = (returned err_invalid, some c, w)
  recv_impl (some c) w self (some p) timeout_ns =
      let (res, c', w') = recv_start c w self p timeout_ns in (res, some c', w')

  -- After the bounded wait of an SPSC channel has run out.
  pub resume_backstop : Chan A → World A → ℕ → ℕ → Outcome × Chan A × World A
  resume_backstop c w self p =
      let c₁ = record c { recv_waiters = erase self c.recv_waiters } in
      let (done, ring, cell) = Ring.pop c₁.ring w.cell p in
      if not (mem self c.recv_waiters)
      then (returned (w.node self).result, leave c, w)
      else if done
      then (
        returned chan_ok,
        leave (record c₁ { ring = ring }),
        set_result (record w { cell = cell }) self chan_ok,
      )
      else if c.closed
      then (returned err_closed, leave c₁, set_result w self err_closed)
      else (
        waiting forever,
        record c₁ { ring = ring; recv_waiters = c₁.recv_waiters ++ (self ∷ []) },
        w,
      )

  -- The code behind `chan_park_wait`, given whether the waiter was woken.
  pub resume : Place → Bool → Chan A → World A → ℕ → ℕ → Outcome × Chan A × World A
  resume rendezvous false c w self p =
      (returned err_timeout, leave (record c { recv_waiters = erase self c.recv_waiters }), w)
  resume buffered false c w self p = (
    returned (if mem self c.recv_waiters then err_timeout else (w.node self).result),
    leave (record c { recv_waiters = erase self c.recv_waiters }),
    w,
  )
  resume backstop false c w self p = resume_backstop c w self p
  resume _ _ c w self p = (returned (w.node self).result, leave c, w)

  -- `chan_try_recv_burst`: the number of elements received into the array at `p`.
  pub try_recv_burst : Option (Chan A) → World A → Option ℕ → ℕ → ℕ × Option (Chan A) × World A
  try_recv_burst none w out n = (0, none, w)
  try_recv_burst (some c) w none n = (0, some c, w)
  try_recv_burst (some c) w (some p) n =
      let want = if ltb (2 ^ 32 - 1) n then 2 ^ 32 - 1 else n in
      let (got, ring, cell) = Ring.dequeue_burst c.ring w.cell p want in
      let (c', w') = serve_senders (record c { ring = ring }) (record w { cell = cell }) in
      if n == 0
      then (0, some c, w)
      else if c.capacity == 0
      then (0, some c, w)
      else if got == 0
      then (0, some (record c { ring = ring }), w)
      else (got, some c', w')
