-- ===== src/Chan.antt =====
-- The channel of include/libchan.h and src/libchan_internal.h: its fields, the waiter nodes that
-- blocked threads put into its queues, and the helpers that claim, deliver to and wake waiters.
--
-- Memory is a `World`: one element in each cell, a waiter node, a park word and a shared `select`
-- state at each address. A wait queue is the list of its waiters' addresses, first to last, as
-- `WaitQueue` shows of the pointers. The code between a lock and the unlock, or one lock-free
-- operation, is one function; a blocking call is such functions up to each wait and after it.
mod Tests
pub mod Handed
pub mod Core
pub mod Send
pub mod Recv
pub mod Claim
pub mod Idle
pub mod Deliver
use libchan.Base.{
  ℕ, zero, suc, ◌+◌, ◌-◌, Bool, true, false, Option, none, some, List, [], ◌∷◌, ◌++◌, length, ◌==◌,
  if◌then◌else◌, memcpy, update,
}
use libchan.Ring
use libchan.Ring.{Ring}

-- `chan_err_t`
pub data ChanErr : Type 0 where
  chan_ok err_closed err_timeout err_would_block err_invalid err_no_mem : ChanErr

-- `chan_op_t`
pub data ChanOp : Type 0 where
  op_send op_recv : ChanOp

-- `chan_waiter_t`, by address: `buf` is `data`, `wake_park` and `select_state` are addresses.
-- The node's own park has the node's address.
pub record Waiter : Type 0 where
  pub buf : ℕ
  pub op : ChanOp
  pub result : ChanErr
  pub case_idx : Option ℕ
  pub wake_park : ℕ
  pub select_state : Option ℕ

pub record World (A : Type 0) : Type 0 where
  pub cell : ℕ → A
  pub node : ℕ → Waiter
  pub word : ℕ → ℕ
  pub state : ℕ → ℕ

-- `struct chan`, without its mutex. The ring of an unbuffered channel is never read.
pub record Chan (A : Type 0) : Type 0 where
  pub elem_size : ℕ
  pub capacity : ℕ
  pub spsc : Bool
  pub ring : Ring A
  pub send_waiter_cnt : ℕ
  pub recv_waiter_cnt : ℕ
  pub send_waiters : List ℕ
  pub recv_waiters : List ℕ
  pub closed : Bool
  pub refcount : ℕ

-- WAITER_WAITING and WAITER_WOKEN
abbrev pub waiter_waiting : ℕ
waiter_waiting = 0

abbrev pub waiter_woken : ℕ
waiter_woken = 1

module _ {A : Type 0} where
  -- `waiter_init`, in a node on the caller's stack.
  abbrev pub init_waiter : World A → ℕ → ℕ → ChanOp → World A
  init_waiter w self p op = record w {
    node = update w.node self (record {
      buf = p;
      op = op;
      result = chan_ok;
      case_idx = none;
      wake_park = self;
      select_state = none;
    });
    word = update w.word self 0;
  }

  -- `w->result = e`
  abbrev pub set_result : World A → ℕ → ChanErr → World A
  set_result w n e = record w { node = update w.node n (record (w.node n) { result = e }) }

  -- `chan_park_wake(w->wake_park)`, on both backends: the word (or flag) is set.
  abbrev pub wake : World A → ℕ → World A
  wake w n = record w { word = update w.word (w.node n).wake_park 1 }

  -- The result of a waiter, and its wakeup.
  abbrev pub finish : World A → ℕ → ChanErr → World A
  finish w n e = wake (set_result w n e) n

  -- `memcpy(p, q, elem_size)`
  abbrev pub copy : World A → ℕ → ℕ → World A
  copy w p q = record w { cell = memcpy w.cell p w.cell q 1 }

  -- `waiter_try_claim`: a compare-exchange on the shared state of a `select`.
  pub try_claim : World A → ℕ → Bool × World A
  try_claim w n = elim (w.node n).select_state [
    | none ↦ (true, w)
    | some s ↦
        if w.state s == waiter_waiting
        then (true, record w { state = update w.state s waiter_woken })
        else (false, w)
  ]

  -- `waitq_pop_sender` and `waitq_pop_receiver`
  pub pop_claimed : List ℕ → World A → Option ℕ × List ℕ × World A
  pop_claimed [] w = (none, [], w)
  pop_claimed (x ∷ xs) w = elim (try_claim w x).0 [
    | true ↦ (some x, xs, (try_claim w x).1)
    | false ↦ pop_claimed xs (try_claim w x).1
  ]

  -- `waitq_close_all`
  pub close_all : List ℕ → World A → World A
  close_all [] w = w
  close_all (x ∷ xs) w = elim (try_claim w x).0 [
    | true ↦ close_all xs (finish (try_claim w x).1 x err_closed)
    | false ↦ close_all xs (try_claim w x).1
  ]

  -- A round of `chan_deliver_ring_to_receivers_locked`, after the pop for the receiver `r`: `again`
  -- is the rest of the loop. Where the pop failed, `r` goes back to the front.
  abbrev pub deliver_to :
      (Chan A → World A → Chan A × World A)
      → Chan A
      → ℕ
      → List ℕ
      → World A
      → Bool × Ring A × (ℕ → A)
      → Chan A × World A
  deliver_to again c r rest w (true, ring, cell) =
      again (record c { ring = ring; recv_waiters = rest })
        (finish (record w { cell = cell }) r chan_ok)
  deliver_to again c r rest w (false, ring, cell) =
      (record c { ring = ring; recv_waiters = r ∷ rest }, w)

  -- The same, after the search for a receiver.
  abbrev pub deliver_next :
      (Chan A → World A → Chan A × World A)
      → Chan A
      → Option ℕ × List ℕ × World A
      → Chan A × World A
  deliver_next again c (none, rest, w) = (record c { recv_waiters = rest }, w)
  deliver_next again c (some r, rest, w) =
      deliver_to again c r rest w (Ring.pop c.ring w.cell (w.node r).buf)

  -- The loop. Each round takes a waiter off the queue, so as many rounds as there are waiters are
  -- enough.
  pub deliver_rounds : ℕ → Chan A → World A → Chan A × World A
  deliver_rounds zero c w = (c, w)
  deliver_rounds (suc fuel) c w = elim (Ring.is_empty c.ring) [
    | true ↦ (c, w)
    | false ↦ deliver_next (deliver_rounds fuel) c (pop_claimed c.recv_waiters w)
  ]

  -- `chan_deliver_ring_to_receivers`
  pub deliver_ring : Chan A → World A → Chan A × World A
  deliver_ring c w = deliver_rounds (length c.recv_waiters) c w

  -- `chan_admit_senders_to_ring`, likewise.
  abbrev pub admit_from :
      (Chan A → World A → Chan A × World A)
      → Chan A
      → ℕ
      → List ℕ
      → World A
      → Bool × Ring A
      → Chan A × World A
  admit_from again c s rest w (true, ring) =
      again (record c { ring = ring; send_waiters = rest }) (finish w s chan_ok)
  admit_from again c s rest w (false, ring) = (record c { ring = ring; send_waiters = s ∷ rest }, w)

  abbrev pub admit_next :
      (Chan A → World A → Chan A × World A)
      → Chan A
      → Option ℕ × List ℕ × World A
      → Chan A × World A
  admit_next again c (none, rest, w) = (record c { send_waiters = rest }, w)
  admit_next again c (some s, rest, w) =
      admit_from again c s rest w (Ring.push c.ring w.cell (w.node s).buf)

  pub admit_rounds : ℕ → Chan A → World A → Chan A × World A
  admit_rounds zero c w = (c, w)
  admit_rounds (suc fuel) c w = elim (Ring.is_full c.ring) [
    | true ↦ (c, w)
    | false ↦ admit_next (admit_rounds fuel) c (pop_claimed c.send_waiters w)
  ]

  pub admit_senders : Chan A → World A → Chan A × World A
  admit_senders c w = admit_rounds (length c.send_waiters) c w
