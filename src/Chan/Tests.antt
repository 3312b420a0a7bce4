-- ===== src/Chan/Tests.antt =====
-- Runs of a channel's operations on a buffered and an unbuffered channel.
use libchan.Base.{
  ◌-◌, min, length, tabulate, ◌++◌, ℕ, ◌+◌, ◌≡◌, refl, inl, pos, Bool, true, false, none, some,
  List, [], ◌∷◌, if◌then◌else◌, ◌==◌, arith,
}
use libchan.Fifo.{put, get}
use libchan.Ring.{Ring}
use libchan.Ring.Valid.{IsValid, contents}
use libchan.Chan.{chan_ok, err_timeout, op_recv, World, Chan, deliver_ring}
use libchan.Chan.Idle.{IsIdle}
use libchan.Chan.Handed.{CanServe, Delivered}
use libchan.Chan.Deliver.{deliver_ring_serves}
use libchan.Chan.Core.{close}
use libchan.Chan.Core.Close.{close_ends, AllRefused}
use libchan.Chan.Core.Closing.{Ended}
use libchan.Chan.Send.{send_start, returned, rendezvous, resume}
use libchan.Chan.Send.{try_send_burst}
use libchan.Chan.Send.Burst.{try_send_burst_appends}
use libchan.Chan.Recv.{try_recv_burst}
use libchan.Chan.Recv.Burst.{try_recv_burst_takes}
use libchan.Chan.Send.Try.{sent, try_send_refines}
use libchan.Chan.Send.Closed.{send-meets}
use libchan.Chan.Recv.{recv_start}
use libchan.Chan.Recv.Try.{received, taken, try_recv_refines}
use libchan.Chan.Recv.Meets.{send-timeout_after_meeting}

-- A ring of four slots with two elements, across the wrap of the cursors.
abbrev two : Ring ℕ
two = record {
  prod_head = 1;
  prod_tail = 1;
  cached_cons_tail = 4294967295;
  cons_head = 4294967295;
  cons_tail = 4294967295;
  cached_prod_tail = 1;
  mask = 3;
  capacity = 4;
  elem_size = 8;
  slots = λ i. 10 + i;
}

two-IsValid : IsValid two
two-IsValid = record {
  shape = record { bits = 2; bits_le = omega arith; capacity_lem = refl; mask_lem = refl };
  prod_done = refl;
  cons_done = refl;
  prod_lt = omega arith;
  cons_lt = omega arith;
  fits = omega arith;
}

-- A channel of a capacity, with waiters in its queues.
abbrev channel : ℕ → Bool → Bool → List ℕ → List ℕ → Chan ℕ
channel capacity spsc closed senders receivers = record {
  elem_size = 8;
  capacity = capacity;
  spsc = spsc;
  ring = two;
  send_waiter_cnt = 0;
  recv_waiter_cnt = 0;
  send_waiters = senders;
  recv_waiters = receivers;
  closed = closed;
  refcount = 1;
}

-- The waiter at `n` has the buffer at `200 + n`, and cell `i` holds `1000 + i`.
abbrev memory : World ℕ
memory = record {
  cell = λ i. 1000 + i;
  node = λ n. record {
    buf = 200 + n;
    op = op_recv;
    result = chan_ok;
    case_idx = none;
    wake_park = n;
    select_state = none;
  };
  word = λ a. 0;
  state = λ s. 0;
}

open_spsc-IsIdle : IsIdle (channel 4 true false [] [])
open_spsc-IsIdle = record {
  capacity_pos = omega arith;
  ring_valid = two-IsValid;
  no_senders = refl;
  no_receivers = refl;
  no_send_cnt = refl;
  no_recv_cnt = refl;
}

shut-IsIdle : IsIdle (channel 4 false true [] [])
shut-IsIdle = record {
  capacity_pos = omega arith;
  ring_valid = two-IsValid;
  no_senders = refl;
  no_receivers = refl;
  no_send_cnt = refl;
  no_recv_cnt = refl;
}

try_send_refines_example :
    let (out, c', w') = send_start (channel 4 true false [] []) memory 1 5 (pos 0) in
    ((out, contents c'.ring) ≡ sent (put 4 (contents two) 1005))
    × IsIdle c'
    × (c'.closed ≡ false)
    × (w' ≡ memory)
try_send_refines_example =
    try_send_refines memory 1 5 open_spsc-IsIdle refl (omega arith, omega arith)

try_recv_refines_example :
    let (out, c', w') = recv_start (channel 4 false true [] []) memory 1 5 (pos 0) in
    ((out, contents c'.ring, taken out (w'.cell 5)) ≡ received true (get (contents two)))
    × IsIdle c'
    × (c'.closed ≡ true)
try_recv_refines_example = try_recv_refines memory 1 5 shut-IsIdle (omega arith, inl (omega arith))

-- Three receivers and two elements.
abbrev parked : List ℕ
parked = 1 ∷ 2 ∷ 3 ∷ []

parked-CanServe : CanServe memory parked
parked-CanServe = record {
  regular = (refl, (refl, (refl, tt)));
  distinct = ((omega arith, (omega arith, tt)), ((omega arith, tt), (tt, tt)));
  apart = ((omega arith, (omega arith, tt)), ((omega arith, tt), (tt, tt)));
}

deliver_ring_serves_example :
    let (c', w') = deliver_ring (channel 4 false false [] parked) memory in
    Delivered memory w' parked (contents two) c'.recv_waiters (contents c'.ring) × IsValid c'.ring
deliver_ring_serves_example =
    deliver_ring_serves (channel 4 false false [] parked) memory two-IsValid parked-CanServe

close_ends_example :
    (c' : Chan ℕ) × (w' : World ℕ) × (close (some (channel 4 false false (4 ∷ []) parked)) memory
      ≡ (chan_ok, some c', w'))
    × (c'.closed ≡ true)
    × (c'.send_waiters ≡ [])
    × (c'.recv_waiters ≡ [])
    × IsValid c'.ring
    × AllRefused memory w' (4 ∷ [])
    × Ended memory w' parked (contents two) (contents c'.ring)
close_ends_example =
    close_ends (channel 4 false false (4 ∷ []) parked) memory refl (omega arith) two-IsValid
      (refl, tt) (tt, tt) parked-CanServe
      ((omega arith, tt), ((omega arith, tt), ((omega arith, tt), tt)))

send-meets_example :
    let (out, c', w') = send_start (channel 0 false false [] parked) memory 7 5 (pos 9) in
    (out ≡ returned chan_ok)
    × (c' ≡ channel 0 false false [] (2 ∷ 3 ∷ []))
    × (w'.cell 201 ≡ (if 201 == 201 then 1005 else 1201))
    × ((w'.node 1).result ≡ chan_ok)
    × (w'.word 1 ≡ 1)
send-meets_example = send-meets memory 7 5 1 201 (2 ∷ 3 ∷ []) (pos 9) refl refl refl refl refl

send-timeout_after_meeting_example :
    let (out, c', w') = recv_start (channel 0 false false parked []) memory 7 5 (pos 9) in
    (out ≡ returned chan_ok)
    × (w'.cell 5 ≡ 1201)
    × ((w'.node 1).result ≡ chan_ok)
    × ((resume rendezvous false c' w' 1 201).0 ≡ returned err_timeout)
send-timeout_after_meeting_example =
    send-timeout_after_meeting (channel 0 false false parked []) memory 7 5 1 201 (2 ∷ 3 ∷ [])
      (pos 9) refl refl refl refl

try_send_burst_appends_example :
    (k : ℕ) × (c' : Chan ℕ) × (try_send_burst (some (channel 4 true false [] [])) memory (some 5) 3
      ≡ (k, some c', memory))
    × (k ≡ min 3 (4 - length (contents two)))
    × (contents c'.ring ≡ contents two ++ tabulate k (λ j. memory.cell (5 + j)))
    × IsIdle c'
try_send_burst_appends_example =
    try_send_burst_appends memory 5 3 open_spsc-IsIdle refl (omega arith)

try_recv_burst_takes_example :
    (k : ℕ) × (c' : Chan ℕ) × (w' : World ℕ) × (try_recv_burst
        (some (channel 4 false true [] []))
        memory
        (some 5)
        3
      ≡ (k, some c', w'))
    × (k ≡ min 3 (length (contents two)))
    × (tabulate k (λ j. w'.cell (5 + j)) ++ contents c'.ring ≡ contents two)
    × IsIdle c'
try_recv_burst_takes_example = try_recv_burst_takes memory 5 3 shut-IsIdle (omega arith)
