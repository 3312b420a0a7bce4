-- ===== src/Select/Exec.antt =====
-- `case_ready` against `execute_case_locked`: when a case that is ready goes through.
use libchan.Base.{
  ℕ, ◌<◌, Bool, true, false, not, ◌&&◌, ◌||◌, Option, none, some, List, [], ◌∷◌, ◌≡◌, ◌⊎◌, inl, inr,
  refl, ap, ◌∙◌, if◌then◌else◌, if_true, if_false, ◌==◌, Bool-cases, Option-cases, arith,
}
use libchan.Ring
use libchan.Ring.{Ring}
use libchan.Ring.Valid.{IsValid, capacity-pos}
use libchan.Ring.Burst.{size}
use libchan.Ring.Push.{push-full}
use libchan.Ring.Levels.{is_empty-false}
use libchan.Chan.{
  ChanErr, chan_ok, err_closed, err_would_block, op_send, op_recv, World, Chan, finish, pop_claimed,
}
use libchan.Chan.Claim.{
  IsRegular, AllRegular, AllTaken, pop_claimed-regular, pop_claimed-taken, finish-result,
  finish-wakes,
}
use libchan.Chan.Idle.{pos-eq, zero-eq, pop_claimed-nobody}
use libchan.Select.{
  is_nil, case_ready, hand_over, take_over, send_ring, recv_ring, closed_or_block,
  execute_case_locked,
}

no-waiters : (xs : List ℕ) → is_nil xs ≡ true → xs ≡ []
no-waiters [] e = refl
no-waiters (x ∷ xs) e = cc

some-waiter :
    (closed : Bool) (xs : List ℕ)
    → (if closed then false else not (is_nil xs)) ≡ true
    → is_nil xs ≡ false
some-waiter true xs e = cc
some-waiter false [] e = cc
some-waiter false (x ∷ xs) e = refl

and_false : (b : Bool) → (b && false) ≡ false
and_false true = refl
and_false false = refl

or_true : (b : Bool) → (b || true) ≡ true
or_true true = refl
or_true false = refl

module _ {A : Type 0} where
  -- A queue of regular waiters that is not empty yields one.
  claims-one :
      (w : World A) (xs : List ℕ)
      → AllRegular w xs
      → is_nil xs ≡ false
      → (x : ℕ) × (rest : List ℕ) × (pop_claimed xs w ≡ (some x, rest, w))
  claims-one w [] reg e = cc
  claims-one w (x ∷ xs) reg e = (x, xs, pop_claimed-regular w x xs reg.0)

  hand_over-ok :
      (c : Chan A) (w : World A) (p : ℕ) (otherwise : Chan A → World A → ChanErr × Chan A × World A)
      → AllRegular w c.recv_waiters
      → is_nil c.recv_waiters ≡ false
      → (hand_over c w p otherwise).0 ≡ chan_ok
  hand_over-ok c w p otherwise reg e =
      let (x, rest, claimed) = claims-one w c.recv_waiters reg e in rw (claimed, hand_over) refl

  take_over-ok :
      (c : Chan A) (w : World A) (p : ℕ) (otherwise : Chan A → World A → ChanErr × Chan A × World A)
      → AllRegular w c.send_waiters
      → is_nil c.send_waiters ≡ false
      → (take_over c w p otherwise).0 ≡ chan_ok
  take_over-ok c w p otherwise reg e =
      let (x, rest, claimed) = claims-one w c.send_waiters reg e in rw (claimed, take_over) refl

  take_over-closed :
      (c : Chan A) (w : World A) (p : ℕ)
      → is_nil c.send_waiters ≡ true
      → c.closed ≡ true
      → (take_over c w p closed_or_block).0 ≡ err_closed
  take_over-closed c w p e shut =
      rw (pop_claimed-nobody c.send_waiters w (no-waiters c.send_waiters e), take_over)
        (if_true _ _ shut)

  recv_ring-ok : (c : Chan A) (w : World A) (p : ℕ) → (recv_ring c w p).0 ≡ chan_ok
  unfolding recv_ring
  recv_ring-ok c w p =
      elim (Option-cases
        (pop_claimed c.send_waiters (record w { cell = (Ring.pop c.ring w.cell p).2 })).0) [
          | inl e ↦ rw (e, recv_ring) refl
          | inr (s, e) ↦ rw (e, recv_ring) refl
        ]

  -- A SEND case that is ready goes through, where the waiting receivers are no `select` stubs:
  -- its result is CHAN_OK.
  pub send-ready :
      (c : Chan A) (w : World A) (p : ℕ)
      → AllRegular w c.recv_waiters
      → case_ready op_send c ≡ true
      → (execute_case_locked op_send c w p).0 ≡ chan_ok
  unfolding execute_case_locked case_ready send_ring
  send-ready c w p reg ready = elim (Bool-cases (c.capacity == 0)) [
    | inl e ↦ rw e (
        hand_over-ok c w p (λ c₁ w₁. (err_would_block, c₁, w₁)) reg
          (some-waiter c.closed c.recv_waiters (rw (e, case_ready) at ready)))
    | inr e ↦ elim (Bool-cases (is_nil c.recv_waiters)) [
      | inl n ↦ rw (e, n, execute_case_locked) refl
      | inr n ↦ elim (Bool-cases (Ring.is_empty c.ring)) [
        | inl m ↦
            rw (e, n, m, execute_case_locked)
              (hand_over-ok c w p (λ c₁ w₁. send_ring c₁ w₁ p) reg n)
        | inr m ↦ rw (e, n, m, execute_case_locked) refl
      ]
    ]
  ]

  -- A RECV case that is ready goes through, where the waiting senders are no `select` stubs: its
  -- result is CHAN_OK, or it is CHAN_ERR_CLOSED and the channel is closed.
  pub recv-ready :
      (c : Chan A) (w : World A) (p : ℕ)
      → AllRegular w c.send_waiters
      → case_ready op_recv c ≡ true
      → ((execute_case_locked op_recv c w p).0 ≡ chan_ok)
        ⊎ (((execute_case_locked op_recv c w p).0 ≡ err_closed) × (c.closed ≡ true))
  unfolding execute_case_locked case_ready
  recv-ready c w p reg ready = elim (Bool-cases (is_nil c.send_waiters)) [
    | inr n ↦ elim (Bool-cases (c.capacity == 0)) [
      | inl e ↦ rw e (inl (take_over-ok c w p closed_or_block reg n))
      | inr e ↦ elim (Bool-cases (Ring.is_empty c.ring)) [
        | inl m ↦ rw (e, m, execute_case_locked) (inl (take_over-ok c w p closed_or_block reg n))
        | inr m ↦ rw (e, m, execute_case_locked) (inl (recv_ring-ok c w p))
      ]
    ]
    | inl n ↦ elim (Bool-cases (c.capacity == 0)) [
      | inl e ↦
          let shut : c.closed ≡ true = rw (e, n, case_ready) at ready in
          rw e (inr (take_over-closed c w p n shut, shut))
      | inr e ↦ elim (Bool-cases (Ring.is_empty c.ring)) [
        | inl m ↦
            let shut : c.closed ≡ true = rw (e, m, n, case_ready) at ready in
            rw (e, m, execute_case_locked) (inr (take_over-closed c w p n shut, shut))
        | inr m ↦ rw (e, m, execute_case_locked) (inl (recv_ring-ok c w p))
      ]
    ]
  ]

  -- A RECV case on an open unbuffered channel in whose queue only stubs of other `select`s are left
  -- that have been claimed already: the case counts as ready, and its result is
  -- CHAN_ERR_WOULDBLOCK all the same.
  pub recv-stale_stubs :
      (c : Chan A) (w : World A) (p : ℕ)
      → c.capacity ≡ 0
      → c.closed ≡ false
      → is_nil c.send_waiters ≡ false
      → AllTaken w c.send_waiters
      → (case_ready op_recv c ≡ true) × ((execute_case_locked op_recv c w p).0 ≡ err_would_block)
  unfolding execute_case_locked case_ready
  recv-stale_stubs c w p e o n taken = (
    rw (zero-eq c.capacity e, n, case_ready) refl,
    rw (zero-eq c.capacity e)
        (rw (pop_claimed-taken w c.send_waiters taken, take_over) (if_false _ _ o)),
  )

  send_ring-full :
      (c : Chan A) (w : World A) (p r : ℕ) (rest : List ℕ)
      → IsValid c.ring
      → size c.ring ≡ c.ring.capacity
      → c.recv_waiters ≡ r ∷ rest
      → IsRegular w r
      → send_ring c w p ≡ (chan_ok, record c { recv_waiters = rest }, finish w r chan_ok)
  unfolding send_ring
  send_ring-full c w p r rest v full q reg =
      ap
        (λ (t : Bool × Ring A).
          let (o, left, w₁) = pop_claimed c.recv_waiters w in
          let x : ChanErr × Chan A × World A = (
            chan_ok,
            record c { ring = t.1; recv_waiters = left },
            (elim o [ none ↦ w₁ | some s ↦ finish w₁ s chan_ok ]),
          ) in
          x)
        (push-full w.cell p v full)
      ∙ ap
          (λ (t : Option ℕ × List ℕ × World A).
            let x : ChanErr × Chan A × World A = (
              chan_ok,
              record c { recv_waiters = t.1 },
              (elim t.0 [ none ↦ t.2 | some s ↦ finish t.2 s chan_ok ]),
            ) in
            x)
          (ap (λ xs. pop_claimed xs w) q ∙ pop_claimed-regular w r rest reg)

  -- A SEND case on an open buffered channel whose ring is full, with a receiver `r` in front that
  -- is no `select` stub: the case counts as ready, its result is CHAN_OK, and `r` gets CHAN_OK and
  -- is woken; but the ring is the same as before, and so is every cell, the buffer of `r` too.
  pub send-full_with_receiver :
      (c : Chan A) (w : World A) (p r : ℕ) (rest : List ℕ)
      → 0 < c.capacity
      → c.closed ≡ false
      → IsValid c.ring
      → size c.ring ≡ c.ring.capacity
      → c.recv_waiters ≡ r ∷ rest
      → IsRegular w r
      → let (e, c', w') = execute_case_locked op_send c w p in
        (case_ready op_send c ≡ true)
        × (e ≡ chan_ok)
        × ((w'.node r).result ≡ chan_ok)
        × (w'.word (w.node r).wake_park ≡ 1)
        × (c'.ring ≡ c.ring)
        × (w'.cell ≡ w.cell)
  unfolding execute_case_locked case_ready
  send-full_with_receiver c w p r rest buffered o v full q reg =
      let there : is_nil c.recv_waiters ≡ false = ap is_nil q in
      let busy : Ring.is_empty c.ring ≡ false =
        is_empty-false v (omega (arith, capacity-pos v.shape)) in
      let ready : (not (Ring.is_full c.ring) || not (is_nil c.recv_waiters)) ≡ true =
        ap (λ b. not (Ring.is_full c.ring) || not b) there ∙ or_true (not (Ring.is_full c.ring)) in
      let run : execute_case_locked op_send c w p
          ≡ (chan_ok, record c { recv_waiters = rest }, finish w r chan_ok) =
        if_false _ _ (pos-eq c.capacity buffered)
        ∙ if_false _ _ (
            ap (λ b. not (is_nil c.recv_waiters) && b) busy
            ∙ and_false (not (is_nil c.recv_waiters)))
        ∙ send_ring-full c w p r rest v full q reg in
      rw run (
        if_false _ _ o ∙ if_false _ _ (pos-eq c.capacity buffered) ∙ ready,
        refl,
        finish-result w r chan_ok,
        finish-wakes w r chan_ok,
        refl,
        refl,
      )
