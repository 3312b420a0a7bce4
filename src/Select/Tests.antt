-- ===== src/Select/Tests.antt =====
-- Runs of the cases of a `chan_select` on an unbuffered and on a full channel.
use libchan.Base.{
  ℕ, ◌+◌, ◌≡◌, ◌⊎◌, refl, Bool, true, false, none, some, List, [], ◌∷◌, ◌==◌, if◌then◌else◌, arith,
}
use libchan.Ring.{Ring}
use libchan.Ring.Valid.{IsValid}
use libchan.Chan.{chan_ok, err_closed, err_would_block, op_send, op_recv, World, Chan}
use libchan.Select.{Case, case_ready, execute_case_locked}
use libchan.Select.Call.{lock_order}
use libchan.Select.Call.Locks.{Increasing, lock_order-Increasing}
use libchan.Select.Exec.{recv-ready, recv-stale_stubs, send-full_with_receiver}

-- A full ring of four slots.
abbrev full : Ring ℕ
full = record {
  prod_head = 3;
  prod_tail = 3;
  cached_cons_tail = 4294967295;
  cons_head = 4294967295;
  cons_tail = 4294967295;
  cached_prod_tail = 3;
  mask = 3;
  capacity = 4;
  elem_size = 8;
  slots = λ i. 10 + i;
}

full-IsValid : IsValid full
full-IsValid = record {
  shape = record { bits = 2; bits_le = omega arith; capacity_lem = refl; mask_lem = refl };
  prod_done = refl;
  cons_done = refl;
  prod_lt = omega arith;
  cons_lt = omega arith;
  fits = omega arith;
}

abbrev channel : ℕ → Bool → List ℕ → List ℕ → Chan ℕ
channel capacity closed senders receivers = record {
  elem_size = 8;
  capacity = capacity;
  spsc = false;
  ring = full;
  send_waiter_cnt = 0;
  recv_waiter_cnt = 0;
  send_waiters = senders;
  recv_waiters = receivers;
  closed = closed;
  refcount = 1;
}

-- Waiters from 50 on are stubs of a `select` that has been claimed.
abbrev memory : World ℕ
memory = record {
  cell = λ i. 1000 + i;
  node = λ n. record {
    buf = 200 + n;
    op = op_recv;
    result = chan_ok;
    case_idx = none;
    wake_park = n;
    select_state = if n == 50 then some 90 else none;
  };
  word = λ a. 0;
  state = λ s. 1;
}

-- Three cases over two channels.
abbrev three_cases : List Case
three_cases =
    record { ch = 40; op = op_send; buf = 1; result = chan_ok }
    ∷ record { ch = 8; op = op_recv; buf = 2; result = chan_ok }
    ∷ record { ch = 40; op = op_recv; buf = 3; result = chan_ok }
    ∷ []

lock_order-Increasing_example : Increasing (lock_order three_cases)
lock_order-Increasing_example = lock_order-Increasing three_cases

recv_is_ready : case_ready op_recv (channel 0 false (1 ∷ []) []) ≡ true
unfolding case_ready
recv_is_ready = refl

recv-ready_example :
    ((execute_case_locked op_recv (channel 0 false (1 ∷ []) []) memory 5).0 ≡ chan_ok)
    ⊎ (((execute_case_locked op_recv (channel 0 false (1 ∷ []) []) memory 5).0 ≡ err_closed)
        × (false ≡ true))
recv-ready_example = recv-ready (channel 0 false (1 ∷ []) []) memory 5 (refl, tt) recv_is_ready

recv-stale_stubs_example :
    (case_ready op_recv (channel 0 false (50 ∷ []) []) ≡ true)
    × ((execute_case_locked op_recv (channel 0 false (50 ∷ []) []) memory 5).0 ≡ err_would_block)
recv-stale_stubs_example =
    recv-stale_stubs (channel 0 false (50 ∷ []) []) memory 5 refl refl refl
      ((90, refl, omega arith), tt)

send-full_with_receiver_example :
    let (e, c', w') = execute_case_locked op_send (channel 4 false [] (1 ∷ [])) memory 5 in
    (case_ready op_send (channel 4 false [] (1 ∷ [])) ≡ true)
    × (e ≡ chan_ok)
    × ((w'.node 1).result ≡ chan_ok)
    × (w'.word 1 ≡ 1)
    × (c'.ring ≡ full)
    × (w'.cell ≡ memory.cell)
send-full_with_receiver_example =
    send-full_with_receiver (channel 4 false [] (1 ∷ [])) memory 5 1 [] (omega arith) refl
      full-IsValid (omega arith) refl refl
