-- ===== src/Chan/Recv/Meets.antt =====
-- `chan_recv_impl` on an unbuffered channel with a sender waiting, and the timeout of that sender.
use libchan.Base.{
  ℕ, ℤ, true, false, List, [], ◌∷◌, ◌≡◌, refl, ap, ◌∙◌, if_true, if_false, if◌then◌else◌, ltb, ◌==◌,
  ==_refl, arith,
}
use libchan.Chan.{chan_ok, err_closed, err_timeout, World, Chan, pop_claimed}
use libchan.Chan.Claim.{IsRegular, pop_claimed-regular}
use libchan.Chan.Idle.{zero-eq, pop_claimed-nobody}
use libchan.Chan.Send
use libchan.Chan.Send.{Outcome, returned, rendezvous}
use libchan.Chan.Send.Closed.{resume-times_out}
use libchan.Chan.Recv.{fast_path, meet, recv_rendezvous, recv_locked, recv_start, after_fast}

module _ {A : Type 0} where
  fast_path-unbuffered :
      {c : Chan A} (w : World A) (p : ℕ)
      → c.capacity ≡ 0
      → c.spsc ≡ false
      → fast_path c w p ≡ (false, c, w)
  unfolding fast_path
  fast_path-unbuffered {c} w p e m = if_false _ _ m ∙ if_false _ _ none_there
    where
      none_there : ltb 0 c.capacity ≡ false
      none_there = ground arith

  locked-unbuffered :
      (c : Chan A) (w : World A) (self p : ℕ) (timeout_ns : ℤ)
      → c.capacity ≡ 0
      → c.spsc ≡ false
      → recv_start c w self p timeout_ns ≡ meet c self p timeout_ns (pop_claimed c.send_waiters w)
  unfolding recv_start recv_locked recv_rendezvous
  locked-unbuffered c w self p timeout_ns e m =
      ap (after_fast self p timeout_ns) (fast_path-unbuffered w p e m)
      ∙ if_true _ _ (zero-eq c.capacity e)

  -- A receive on an unbuffered channel whose first waiting sender `s` is no `select` stub returns
  -- CHAN_OK whatever the timeout: `s` leaves the queue, the caller's cell holds its element, no
  -- other cell changes, and `s` gets CHAN_OK and is woken.
  pub recv-meets :
      {c : Chan A} (w : World A) (self p s x : ℕ) (rest : List ℕ) (timeout_ns : ℤ)
      → c.capacity ≡ 0
      → c.spsc ≡ false
      → c.send_waiters ≡ s ∷ rest
      → IsRegular w s
      → let (out, c', w') = recv_start c w self p timeout_ns in
        (out ≡ returned chan_ok)
        × (c' ≡ record c { send_waiters = rest })
        × (w'.cell x ≡ (if x == p then w.cell (w.node s).buf else w.cell x))
        × ((w'.node s).result ≡ chan_ok)
        × (w'.word (w.node s).wake_park ≡ 1)
  recv-meets {c} w self p s x rest timeout_ns e m q reg =
      rw
        (locked-unbuffered c w self p timeout_ns e m
          ∙ ap (meet c self p timeout_ns)
              (ap (λ xs. pop_claimed xs w) q ∙ pop_claimed-regular w s rest reg))
        (refl, refl, ground arith, ground arith, ground arith)

  -- A receive on a closed unbuffered channel where no sender waits returns CHAN_ERR_CLOSED
  -- whatever the timeout, and changes nothing.
  pub recv-closed :
      {c : Chan A} (w : World A) (self p : ℕ) (timeout_ns : ℤ)
      → c.capacity ≡ 0
      → c.spsc ≡ false
      → c.closed ≡ true
      → c.send_waiters ≡ []
      → recv_start c w self p timeout_ns ≡ (returned err_closed, c, w)
  recv-closed {c} w self p timeout_ns e m shut q =
      locked-unbuffered c w self p timeout_ns e m
      ∙ ap (meet c self p timeout_ns) (pop_claimed-nobody c.send_waiters w q)
      ∙ if_true _ _ shut

  -- A sender `s` whose wait on an unbuffered channel runs out at the moment when a receiver has
  -- already taken its element: the receiver has the element and CHAN_OK, and still the send
  -- returns CHAN_ERR_TIMEOUT.
  pub send-timeout_after_meeting :
      (c : Chan A) (w : World A) (self p s q : ℕ) (rest : List ℕ) (timeout_ns : ℤ)
      → c.capacity ≡ 0
      → c.spsc ≡ false
      → c.send_waiters ≡ s ∷ rest
      → IsRegular w s
      → let (out, c', w') = recv_start c w self p timeout_ns in
        (out ≡ returned chan_ok)
        × (w'.cell p ≡ w.cell (w.node s).buf)
        × ((w'.node s).result ≡ chan_ok)
        × ((Send.resume rendezvous false c' w' s q).0 ≡ returned err_timeout)
  send-timeout_after_meeting c w self p s q rest timeout_ns e m l reg =
      let (ok, _, got, res, _) = recv-meets w self p s p rest timeout_ns e m l reg in
      (ok, got ∙ if_true _ _ (==_refl p), res, resume-times_out _ _ s q)
