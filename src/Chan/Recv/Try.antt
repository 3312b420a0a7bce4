-- ===== src/Chan/Recv/Try.antt =====
-- `chan_try_recv` on a channel where nobody is parked, against a queue.
use libchan.Base.{
  ℕ, ◌<◌, pos, Bool, true, false, Option, none, some, List, [], ◌≡◌, inl, inr, refl, sym, ap, ◌∙◌,
  Bool-cases, if◌then◌else◌, bit_and, memcpy, arith,
}
use native.Mathlib.Decide.{dec_lt}
use libchan.Fifo.{get}
use libchan.Ring
use libchan.Ring.{Ring}
use libchan.Ring.Valid.{IsValid, contents, contents-nil}
use libchan.Ring.Burst.{size, dequeued, dequeued-IsValid}
use libchan.Ring.Push.{pop_refines, pop-empty, pop-some}
use libchan.Ring.Spsc.{ConsumerCache, reloaded_prod, spsc_pop-eq-pop}
use libchan.Chan.{chan_ok, err_closed, err_would_block, World, Chan}
use libchan.Chan.Idle.{IsIdle, with_ring, with_ring-IsIdle}
use libchan.Chan.Send.{fastpath_spin, Outcome, returned, spin_on}
use libchan.Chan.Recv.{mpmc_round, spsc_round, recv_start, after_fast}
use libchan.Chan.Recv.Rounds.{
  plain_end, mpmc_round-idle, spsc_round-idle, spin_on-moved, spin_on-idle, recv_locked-empty,
  recached, recached-IsIdle, spin_on-spsc_empty, fast_path-mpmc, fast_path-spsc,
}

-- What a try to receive answers: the element, if there was one, and the rest.
abbrev pub received : {A : Type 0} → Bool → Option (A × List A) → Outcome × List A × Option A
received closed (some (x, q)) = (returned chan_ok, q, some x)
received closed none = (returned (if closed then err_closed else err_would_block), [], none)

-- What the caller has in its buffer after a call.
abbrev pub taken : {A : Type 0} → Outcome → A → Option A
taken (returned chan_ok) x = some x
taken _ x = none

module _ {A : Type 0} where
  -- A call that left everything but the ring and the buffer alone, and answered as a get.
  record Tried (c : Chan A) (w : World A) (p : ℕ) (res : Outcome × Chan A × World A) : Type 0 where
    out : Outcome
    ring : Ring A
    cell : ℕ → A
    result : res ≡ (out, with_ring c ring, record w { cell = cell })
    refines : (out, contents ring, taken out (cell p)) ≡ received c.closed (get (contents c.ring))
    valid : IsValid ring

  abbrev popped : Bool × Ring A × (ℕ → A) → ℕ → Option (A × List A)
  popped (done, ring, cell) p = if done then some (cell p, contents ring) else none

  empty-refines :
      {r : Ring A} (closed : Bool) (cell : ℕ → A) (p : ℕ)
      → IsValid r
      → size r ≡ 0
      → (
        returned (if closed then err_closed else err_would_block),
        contents r,
        taken (returned (if closed then err_closed else err_would_block)) (cell p),
      )
        ≡ received closed (get (contents r))
  empty-refines {r} true cell p v none_left =
      ap (λ q. (returned err_closed, q, none)) (contents-nil v none_left)
      ∙ sym (ap (λ q. received true (get q)) (contents-nil v none_left))
  empty-refines {r} false cell p v none_left =
      ap (λ q. (returned err_would_block, q, none)) (contents-nil v none_left)
      ∙ sym (ap (λ q. received false (get q)) (contents-nil v none_left))

  some-refines :
      {r : Ring A} (closed : Bool) (cell : ℕ → A) (p : ℕ)
      → IsValid r
      → 0 < size r
      → (
        returned chan_ok,
        contents (dequeued r 1),
        some (memcpy cell p r.slots (bit_and r.cons_head r.mask) 1 p),
      )
        ≡ received closed (get (contents r))
  some-refines {r} closed cell p v left = ap (received closed) (
      sym (
        (pop_refines cell p v).0
        ∙ ap (λ (t : Bool × Ring A × (ℕ → A)). popped t p) (pop-some cell p v left)))

  module _ {c : Chan A} (w : World A) (self p : ℕ) (i : IsIdle c) where
    abbrev call : Outcome × Chan A × World A
    call = recv_start c w self p (pos 0)

    try-mpmc_empty : c.spsc ≡ false → size c.ring ≡ 0 → Tried c w p call
    unfolding recv_start
    try-mpmc_empty m none_left = record {
      out = returned (if c.closed then err_closed else err_would_block);
      ring = c.ring;
      cell = w.cell;
      result =
          ap (after_fast self p (pos 0)) (
            fast_path-mpmc w p i m
            ∙ spin_on-idle mpmc_round c w p c.closed
                (mpmc_round-idle w p i ∙ ap (plain_end c w) refused) fastpath_spin)
          ∙ recv_locked-empty w self p i refused;
      refines = empty-refines c.closed w.cell p i.ring_valid none_left;
      valid = i.ring_valid;
    }
      where
        refused : Ring.pop c.ring w.cell p ≡ (false, c.ring, w.cell)
        refused = pop-empty w.cell p i.ring_valid none_left

    try-spsc_empty : c.spsc ≡ true → ConsumerCache c.ring → size c.ring ≡ 0 → Tried c w p call
    unfolding recv_start
    try-spsc_empty m k none_left =
        let (x, ran_out) = spin_on-spsc_empty fastpath_spin c w p c.closed refl i k none_left in
        let j : IsIdle (recached c x) = recached-IsIdle x i in
        record {
          out = returned (if c.closed then err_closed else err_would_block);
          ring = record c.ring { cached_prod_tail = x };
          cell = w.cell;
          result =
              ap (after_fast self p (pos 0)) (fast_path-spsc c w p m ∙ ran_out)
              ∙ recv_locked-empty w self p j (pop-empty w.cell p j.ring_valid none_left);
          refines = empty-refines c.closed w.cell p i.ring_valid none_left;
          valid = j.ring_valid;
        }

    -- The buffer after a pop of the oldest element.
    abbrev filled : ℕ → A
    filled = memcpy w.cell p c.ring.slots (bit_and c.ring.cons_head c.ring.mask) 1

    try-mpmc_some : c.spsc ≡ false → 0 < size c.ring → Tried c w p call
    unfolding recv_start
    try-mpmc_some m left = record {
      out = returned chan_ok;
      ring = dequeued c.ring 1;
      cell = filled;
      result = ap (after_fast self p (pos 0)) (
          fast_path-mpmc w p i m
          ∙ ap (λ t. spin_on mpmc_round fastpath_spin t p)
              (mpmc_round-idle w p i ∙ ap (plain_end c w) (pop-some w.cell p i.ring_valid left))
          ∙ spin_on-moved mpmc_round fastpath_spin (with_ring c (dequeued c.ring 1))
              (record w { cell = filled }) p);
      refines = some-refines c.closed w.cell p i.ring_valid left;
      valid = dequeued-IsValid 1 i.ring_valid left;
    }

    try-spsc_some : c.spsc ≡ true → ConsumerCache c.ring → 0 < size c.ring → Tried c w p call
    unfolding recv_start
    try-spsc_some m k left =
        let x = reloaded_prod c.ring in
        let j : IsIdle (recached c x) = recached-IsIdle x i in
        record {
          out = returned chan_ok;
          ring = record (dequeued c.ring 1) { cached_prod_tail = x };
          cell = filled;
          result = ap (after_fast self p (pos 0)) (
              fast_path-spsc c w p m
              ∙ ap (λ t. spin_on spsc_round fastpath_spin t p)
                  (spsc_round-idle w p i
                    ∙ ap (plain_end c w) (
                        (spsc_pop-eq-pop w.cell p i.ring_valid k).0
                        ∙ ap
                            (λ (t : Bool × Ring A × (ℕ → A)).
                              (t.0, record t.1 { cached_prod_tail = x }, t.2))
                            (pop-some w.cell p i.ring_valid left)))
              ∙ spin_on-moved spsc_round fastpath_spin
                  (with_ring c (record (dequeued c.ring 1) { cached_prod_tail = x }))
                  (record w { cell = filled }) p);
          refines = some-refines c.closed w.cell p i.ring_valid left;
          valid = dequeued-IsValid 1 j.ring_valid left;
        }

    try-Tried : ConsumerCache c.ring → Tried c w p call
    try-Tried k = elim (Bool-cases c.spsc) [
      | inl s ↦ elim (dec_lt 0 (size c.ring)) [
        | yes left ↦ try-spsc_some s k left
        | no done ↦ try-spsc_empty s k (omega arith)
      ]
      | inr m ↦ elim (dec_lt 0 (size c.ring)) [
        | yes left ↦ try-mpmc_some m left
        | no done ↦ try-mpmc_empty m (omega arith)
      ]
    ]

  -- `chan_try_recv` on a buffered channel where nobody is parked, SPSC (with a consumer's cache in
  -- bounds) or not, open or closed: it answers as a get from the contents of the ring. An element
  -- comes with CHAN_OK, also after close; from an empty ring the answer is CHAN_ERR_CLOSED or
  -- CHAN_ERR_WOULDBLOCK, by whether the channel is closed. The rest stays in order, and the channel
  -- is again one where nobody is parked.
  pub try_recv_refines :
      {c : Chan A} (w : World A) (self p : ℕ)
      → IsIdle c
      → ConsumerCache c.ring
      → let (out, c', w') = recv_start c w self p (pos 0) in
        ((out, contents c'.ring, taken out (w'.cell p)) ≡ received c.closed (get (contents c.ring)))
        × IsIdle c'
        × (c'.closed ≡ c.closed)
  try_recv_refines {c} w self p i k =
      let t = try-Tried w self p i k in
      rw (t.result) (t.refines, with_ring-IsIdle t.ring i t.valid, refl)
