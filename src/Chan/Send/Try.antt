-- ===== src/Chan/Send/Try.antt =====
-- `chan_try_send` on a channel where nobody is parked, against a bounded queue.
use libchan.Base.{
  ℕ, ◌<◌, pos, Bool, true, false, List, ◌≡◌, inl, inr, refl, sym, ap, ◌∙◌, Bool-cases, if_true,
  if_false, lt→ltb, arith,
}
use native.Mathlib.Decide.{dec_lt}
use libchan.Fifo.{put}
use libchan.Ring
use libchan.Ring.{Ring}
use libchan.Ring.Valid.{IsValid, contents}
use libchan.Ring.Burst.{size, enqueued, enqueued-IsValid}
use libchan.Ring.Push.{push_refines, push-full, push-room}
use libchan.Ring.Spsc.{ProducerCache, reloaded_tail, spsc_push-eq-push}
use libchan.Chan.{chan_ok, err_would_block, World, Chan}
use libchan.Chan.Idle.{IsIdle, with_ring, with_ring-IsIdle}
use libchan.Chan.Send.{
  fastpath_spin, Outcome, returned, again, mpmc_round, spsc_round, spin_on, fast_path, send_start,
  after_fast,
}
use libchan.Chan.Send.Rounds.{
  plain_end, mpmc_round-idle, spin_on-again, send_locked-full, recached, recached-IsIdle,
  spsc_round-idle, spin_on-spsc_full,
}

-- What a try to send answers, by what the put on the queue gives.
abbrev pub sent : {A : Type 0} → Bool × List A → Outcome × List A
sent (true, q) = (returned chan_ok, q)
sent (false, q) = (returned err_would_block, q)

module _ {A : Type 0} where
  -- A call that left everything but the ring alone, and answered as a put on its contents.
  record Tried (c : Chan A) (w : World A) (p : ℕ) (res : Outcome × Chan A × World A) : Type 0 where
    out : Outcome
    ring : Ring A
    result : res ≡ (out, with_ring c ring, w)
    refines : (out, contents ring) ≡ sent (put c.ring.capacity (contents c.ring) (w.cell p))
    valid : IsValid ring

  full-refines :
      {r : Ring A} (src : ℕ → A) (p : ℕ)
      → IsValid r
      → size r ≡ r.capacity
      → (returned err_would_block, contents r) ≡ sent (put r.capacity (contents r) (src p))
  full-refines {r} src p v full =
      ap (λ (t : Bool × Ring A). sent (t.0, contents t.1)) (sym (push-full src p v full))
      ∙ ap sent (push_refines src p v).0

  room-refines :
      {r : Ring A} (src : ℕ → A) (p : ℕ)
      → IsValid r
      → size r < r.capacity
      → (returned chan_ok, contents (enqueued r src p 1))
        ≡ sent (put r.capacity (contents r) (src p))
  room-refines {r} src p v room =
      ap (λ (t : Bool × Ring A). sent (t.0, contents t.1)) (sym (push-room src p v room))
      ∙ ap sent (push_refines src p v).0

  fast_path-mpmc :
      {c : Chan A} (w : World A) (p : ℕ)
      → IsIdle c
      → c.spsc ≡ false
      → fast_path c w p ≡ spin_on mpmc_round fastpath_spin (mpmc_round c w p) p
  unfolding fast_path
  fast_path-mpmc {c} w p i m = if_false _ _ m ∙ if_true _ _ (lt→ltb 0 c.capacity i.capacity_pos)

  fast_path-spsc :
      (c : Chan A) (w : World A) (p : ℕ)
      → c.spsc ≡ true
      → fast_path c w p ≡ spin_on spsc_round fastpath_spin (spsc_round c w p) p
  unfolding fast_path
  fast_path-spsc c w p m = if_true _ _ m

  module _ {c : Chan A} (w : World A) (self p : ℕ) (i : IsIdle c) (o : c.closed ≡ false) where
    try-mpmc_full :
        c.spsc ≡ false → size c.ring ≡ c.ring.capacity → Tried c w p (send_start c w self p (pos 0))
    unfolding send_start
    try-mpmc_full m full = record {
      out = returned err_would_block;
      ring = c.ring;
      result =
          ap (after_fast self p (pos 0)) (
            fast_path-mpmc w p i m
            ∙ ap (λ t. spin_on mpmc_round fastpath_spin t p) stuck
            ∙ spin_on-again mpmc_round c w p stuck fastpath_spin)
          ∙ send_locked-full w self p i o refused;
      refines = full-refines w.cell p i.ring_valid full;
      valid = i.ring_valid;
    }
      where
        refused : Ring.push c.ring w.cell p ≡ (false, c.ring)
        refused = push-full w.cell p i.ring_valid full

        stuck : mpmc_round c w p ≡ (again, c, w)
        stuck = mpmc_round-idle w p i o ∙ ap (plain_end c w) refused

    try-mpmc_room :
        c.spsc ≡ false → size c.ring < c.ring.capacity → Tried c w p (send_start c w self p (pos 0))
    unfolding send_start spin_on
    try-mpmc_room m room = record {
      out = returned chan_ok;
      ring = enqueued c.ring w.cell p 1;
      result = ap (after_fast self p (pos 0)) (
          fast_path-mpmc w p i m
          ∙ ap (λ t. spin_on mpmc_round fastpath_spin t p)
              (mpmc_round-idle w p i o
                ∙ ap (plain_end c w) (push-room w.cell p i.ring_valid room)));
      refines = room-refines w.cell p i.ring_valid room;
      valid = enqueued-IsValid w.cell p 1 i.ring_valid (omega arith);
    }

    try-spsc_full :
        c.spsc ≡ true
        → ProducerCache c.ring
        → size c.ring ≡ c.ring.capacity
        → Tried c w p (send_start c w self p (pos 0))
    unfolding send_start
    try-spsc_full m k full =
        let (x, ran_out) = spin_on-spsc_full fastpath_spin c w p i o k full in
        let j : IsIdle (recached c x) = recached-IsIdle x i in
        record {
          out = returned err_would_block;
          ring = record c.ring { cached_cons_tail = x };
          result =
              ap (after_fast self p (pos 0)) (fast_path-spsc c w p m ∙ ran_out)
              ∙ send_locked-full w self p j o (push-full w.cell p j.ring_valid full);
          refines = full-refines w.cell p i.ring_valid full;
          valid = j.ring_valid;
        }

    try-spsc_room :
        c.spsc ≡ true
        → ProducerCache c.ring
        → size c.ring < c.ring.capacity
        → Tried c w p (send_start c w self p (pos 0))
    unfolding send_start spin_on
    try-spsc_room m k room =
        let x = reloaded_tail c.ring in
        let j : IsIdle (recached c x) = recached-IsIdle x i in
        record {
          out = returned chan_ok;
          ring = record (enqueued c.ring w.cell p 1) { cached_cons_tail = x };
          result = ap (after_fast self p (pos 0)) (
              fast_path-spsc c w p m
              ∙ ap (λ t. spin_on spsc_round fastpath_spin t p)
                  (spsc_round-idle w p i o
                    ∙ ap (plain_end c w) (
                        (spsc_push-eq-push w.cell p i.ring_valid k).0
                        ∙ ap (λ (t : Bool × Ring A). (t.0, record t.1 { cached_cons_tail = x }))
                            (push-room w.cell p i.ring_valid room))));
          refines = room-refines w.cell p i.ring_valid room;
          valid = enqueued-IsValid w.cell p 1 j.ring_valid (omega arith);
        }

    try-Tried : ProducerCache c.ring → Tried c w p (send_start c w self p (pos 0))
    try-Tried k = elim (Bool-cases c.spsc) [
      | inl s ↦ elim (dec_lt (size c.ring) c.ring.capacity) [
        | yes room ↦ try-spsc_room s k room
        | no full ↦ try-spsc_full s k (omega (arith, i.ring_valid.fits))
      ]
      | inr m ↦ elim (dec_lt (size c.ring) c.ring.capacity) [
        | yes room ↦ try-mpmc_room m room
        | no full ↦ try-mpmc_full m (omega (arith, i.ring_valid.fits))
      ]
    ]

  -- `chan_try_send` on an open buffered channel where nobody is parked, SPSC (with a producer's
  -- cache less than 2 ^ 32 behind) or not: the answer is CHAN_OK or CHAN_ERR_WOULDBLOCK as a put on
  -- the contents of the ring, the contents become what that put leaves, the channel is again one
  -- where nobody is parked, and memory is not written.
  pub try_send_refines :
      {c : Chan A} (w : World A) (self p : ℕ)
      → IsIdle c
      → c.closed ≡ false
      → ProducerCache c.ring
      → let (out, c', w') = send_start c w self p (pos 0) in
        ((out, contents c'.ring) ≡ sent (put c.ring.capacity (contents c.ring) (w.cell p)))
        × IsIdle c'
        × (c'.closed ≡ false)
        × (w' ≡ w)
  try_send_refines {c} w self p i o k =
      let t = try-Tried w self p i o k in
      rw (t.result) (t.refines, with_ring-IsIdle t.ring i t.valid, o, refl)
