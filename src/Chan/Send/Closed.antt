-- ===== src/Chan/Send/Closed.antt =====
-- `chan_send_impl` on a closed channel, on an unbuffered one with a receiver waiting, and the
-- timeout of a send.
use libchan.Base.{
  ℕ, ◌+◌, ◌-◌, ℤ, is_zero, true, false, List, [], ◌∷◌, ◌++◌, ◌≡◌, refl, ap, ◌∙◌, Bool-cases, inl,
  inr, erase, NotIn, if_true, if_false, if◌then◌else◌, ltb, ◌==◌, arith,
}
use libchan.Chan.{chan_ok, err_closed, err_timeout, op_send, World, Chan, init_waiter, pop_claimed}
use libchan.Chan.Claim.{IsRegular, pop_claimed-regular}
use libchan.Chan.Idle.{zero-eq, pop_claimed-nobody}
use libchan.Chan.Send.{
  fastpath_spin, returned, waiting, rendezvous, mpmc_round, spsc_round, spin_on, fast_path, meet,
  send_rendezvous, send_locked, send_start, after_fast, resume,
}

erase-last : (x : ℕ) (xs : List ℕ) → NotIn x xs → erase x (xs ++ (x ∷ [])) ≡ xs
erase-last x [] h = ground arith
erase-last x (y ∷ xs) h = ground (arith, erase-last x xs h.1)

module _ {A : Type 0} where
  fast_path-closed :
      {c : Chan A} (w : World A) (p : ℕ) → c.closed ≡ true → fast_path c w p ≡ (false, c, w)
  unfolding fast_path mpmc_round spsc_round spin_on
  fast_path-closed {c} w p shut = elim (Bool-cases c.spsc) [
    | inl s ↦ if_true _ _ s ∙ ap (λ t. spin_on spsc_round fastpath_spin t p) (if_true _ _ shut)
    | inr m ↦ elim (Bool-cases (ltb 0 c.capacity)) [
      | inl b ↦
          if_false _ _ m
          ∙ if_true _ _ b
          ∙ ap (λ t. spin_on mpmc_round fastpath_spin t p) (if_true _ _ shut)
      | inr u ↦ if_false _ _ m ∙ if_false _ _ u
    ]
  ]

  -- `chan_send_impl` on a closed channel, buffered or not, SPSC or not, returns CHAN_ERR_CLOSED
  -- whatever the timeout: it never waits, and changes neither the channel nor memory.
  pub send-closed :
      {c : Chan A} (w : World A) (self p : ℕ) (timeout_ns : ℤ)
      → c.closed ≡ true
      → send_start c w self p timeout_ns ≡ (returned err_closed, c, w)
  unfolding send_start send_locked
  send-closed {c} w self p timeout_ns shut =
      ap (after_fast self p timeout_ns) (fast_path-closed w p shut) ∙ if_true _ _ shut

  fast_path-unbuffered :
      {c : Chan A} (w : World A) (p : ℕ)
      → c.capacity ≡ 0
      → c.spsc ≡ false
      → fast_path c w p ≡ (false, c, w)
  unfolding fast_path
  fast_path-unbuffered {c} w p e m = if_false _ _ m ∙ if_false _ _ none_there
    where
      none_there : ltb 0 c.capacity ≡ false
      none_there = ground arith

  locked-unbuffered :
      (c : Chan A) (w : World A) (self p : ℕ) (timeout_ns : ℤ)
      → c.capacity ≡ 0
      → c.spsc ≡ false
      → c.closed ≡ false
      → send_start c w self p timeout_ns ≡ meet c self p timeout_ns (pop_claimed c.recv_waiters w)
  unfolding send_start send_locked send_rendezvous
  locked-unbuffered c w self p timeout_ns e m o =
      ap (after_fast self p timeout_ns) (fast_path-unbuffered w p e m)
      ∙ if_false _ _ o
      ∙ if_true _ _ (zero-eq c.capacity e)

  -- A send on an open unbuffered channel whose first waiting receiver `r` is no `select` stub
  -- returns CHAN_OK whatever the timeout: `r` leaves the queue, its buffer holds the sender's
  -- element, its result is CHAN_OK and its park is woken; other cells stay as they are.
  pub send-meets :
      {c : Chan A} (w : World A) (self p r x : ℕ) (rest : List ℕ) (timeout_ns : ℤ)
      → c.capacity ≡ 0
      → c.spsc ≡ false
      → c.closed ≡ false
      → c.recv_waiters ≡ r ∷ rest
      → IsRegular w r
      → let (out, c', w') = send_start c w self p timeout_ns in
        (out ≡ returned chan_ok)
        × (c' ≡ record c { recv_waiters = rest })
        × (w'.cell x ≡ (if x == (w.node r).buf then w.cell p else w.cell x))
        × ((w'.node r).result ≡ chan_ok)
        × (w'.word (w.node r).wake_park ≡ 1)
  send-meets {c} w self p r x rest timeout_ns e m o q reg =
      rw
        (locked-unbuffered c w self p timeout_ns e m o
          ∙ ap (meet c self p timeout_ns)
              (ap (λ xs. pop_claimed xs w) q ∙ pop_claimed-regular w r rest reg))
        (refl, refl, ground arith, ground arith, ground arith)

  -- A send that finds nobody on an open unbuffered channel waits, unless its timeout is zero; when
  -- the wait runs out with nothing having happened in between, it returns CHAN_ERR_TIMEOUT and the
  -- channel is exactly as it was before the call.
  pub send-times_out :
      {c : Chan A} (w : World A) (self p : ℕ) (timeout_ns : ℤ)
      → c.capacity ≡ 0
      → c.spsc ≡ false
      → c.closed ≡ false
      → c.recv_waiters ≡ []
      → NotIn self c.send_waiters
      → is_zero timeout_ns ≡ false
      → let (out, c', w') = send_start c w self p timeout_ns in
        (out ≡ waiting rendezvous)
        × (resume rendezvous false c' w' self p ≡ (returned err_timeout, c, w'))
  unfolding resume
  send-times_out {c} w self p timeout_ns e m o q ni nz =
      rw
        (locked-unbuffered c w self p timeout_ns e m o
          ∙ ap (meet c self p timeout_ns) (pop_claimed-nobody c.recv_waiters w q)
          ∙ if_false _ _ nz)
        (refl, ap (λ t. (returned err_timeout, t, init_waiter w self p op_send)) undone)
    where
      undone :
          record c {
            send_waiter_cnt = c.send_waiter_cnt + 1 - 1;
            send_waiters = erase self (c.send_waiters ++ (self ∷ []));
          }
          ≡ c
      undone =
          ap
            (λ (n : ℕ). record c {
              send_waiter_cnt = n;
              send_waiters = erase self (c.send_waiters ++ (self ∷ []));
            })
            (omega arith)
          ∙ ap (λ xs. record c { send_waiters = xs }) (erase-last self c.send_waiters ni)

  -- The end of a wait on the unbuffered path does not look at the waiter's result.
  pub resume-times_out :
      (c : Chan A) (w : World A) (self p : ℕ)
      → (resume rendezvous false c w self p).0 ≡ returned err_timeout
  unfolding resume
  resume-times_out c w self p = refl
