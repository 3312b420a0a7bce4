-- ===== src/Chan/Core/Close.antt =====
-- `chan_close` of src/chan_core.c as a whole.
use libchan.Base.{
  ℕ, ◌<◌, true, false, some, List, [], ◌∷◌, ◌≡◌, ◌≢◌, refl, sym, ap, subst, ◌∙◌, ◌==◌, if_true,
  if_false, mem, NotIn, Distinct, Bool-cases, inl, inr, arith,
}
use libchan.Ring.Valid.{IsValid, contents}
use libchan.Chan.{chan_ok, err_closed, Waiter, World, Chan, close_all}
use libchan.Chan.Claim.{AllRegular, close_all-node, close_all-finishes}
use libchan.Chan.Handed.{CanServe, bufs}
use libchan.Chan.Core.{close_receivers, close}
use libchan.Chan.Core.Closing.{Ended, close_receivers-Closes}

-- No address of the first list is in the second.
abbrev pub Disjoint : List ℕ → List ℕ → Type 0
Disjoint [] ss = Unit
Disjoint (r ∷ rs) ss = NotIn r ss × Disjoint rs ss

NotIn-ne : (x y : ℕ) (ys : List ℕ) → NotIn x ys → mem y ys ≡ true → y ≢ x
NotIn-ne x y [] h m = cc
NotIn-ne x y (z ∷ ys) h m = elim (Bool-cases (z == y)) [
  | inl e ↦ ground arith
  | inr e ↦ NotIn-ne x y ys h.1 (rw e at m)
]

ne-NotIn : (n : ℕ) (rs ss : List ℕ) → Disjoint rs ss → mem n ss ≡ true → NotIn n rs
ne-NotIn n [] ss d m = tt
ne-NotIn n (r ∷ rs) ss d m = (NotIn-ne r n ss d.0 m, ne-NotIn n rs ss d.1 m)

module _ {A : Type 0} where
  module _ (w : World A) (ss : List ℕ) (reg : AllRegular w ss) (once : Distinct ss) where
    kept-bufs : (rs : List ℕ) → Disjoint rs ss → bufs (close_all ss w) rs ≡ bufs w rs
    kept-bufs [] d = refl
    kept-bufs (r ∷ rs) d = rw (close_all-node ss w r reg once d.0, kept-bufs rs d.1)

    kept-regular : (rs : List ℕ) → Disjoint rs ss → AllRegular w rs → AllRegular (close_all ss w) rs
    kept-regular [] d h = tt
    kept-regular (r ∷ rs) d h = (
      ap (λ (v : Waiter). v.select_state) (close_all-node ss w r reg once d.0) ∙ h.0,
      kept-regular rs d.1 h.1,
    )

    kept-CanServe : (rs : List ℕ) → Disjoint rs ss → CanServe w rs → CanServe (close_all ss w) rs
    kept-CanServe rs d can = record {
      regular = kept-regular rs d can.regular;
      distinct = can.distinct;
      apart = subst Distinct (sym (kept-bufs rs d)) can.apart;
    }

    kept-Ended :
        (w' : World A) (rs : List ℕ) (q q' : List A)
        → Disjoint rs ss
        → Ended (close_all ss w) w' rs q q'
        → Ended w w' rs q q'
    kept-Ended w' [] q q' d h = h
    kept-Ended w' (r ∷ rs) [] q' d (res, woken, h) = (
      res,
      ap (λ (v : Waiter). w'.word v.wake_park) (sym (close_all-node ss w r reg once d.0)) ∙ woken,
      kept-Ended w' rs [] q' d.1 h,
    )
    kept-Ended w' (r ∷ rs) (x ∷ q) q' d (res, got, woken, h) =
        let e = sym (close_all-node ss w r reg once d.0) in
        (
          res,
          ap (λ (v : Waiter). w'.cell v.buf) e ∙ got,
          ap (λ (v : Waiter). w'.word v.wake_park) e ∙ woken,
          kept-Ended w' rs q q' d.1 h,
        )

  -- A second close returns CHAN_ERR_CLOSED and does nothing.
  pub close-again :
      (c : Chan A) (w : World A) → c.closed ≡ true → close (some c) w ≡ (err_closed, some c, w)
  unfolding close
  close-again c w shut = if_true _ _ shut

  -- Each sender of a queue got CHAN_ERR_CLOSED and is woken.
  abbrev pub AllRefused : World A → World A → List ℕ → Type 0
  AllRefused w w' [] = Unit
  AllRefused w w' (n ∷ ss) =
      ((w'.node n).result ≡ err_closed) × (w'.word (w.node n).wake_park ≡ 1) × AllRefused w w' ss

  refused-all :
      (w w' : World A) (ss : List ℕ)
      → ((n : ℕ)
          → mem n ss ≡ true
          → ((w'.node n).result ≡ err_closed) × (w'.word (w.node n).wake_park ≡ 1))
      → AllRefused w w' ss
  refused-all w w' [] h = tt
  refused-all w w' (n ∷ ss) h =
      let (res, woken) = h n (ground arith) in
      (res, woken, refused-all w w' ss (λ m e. h m (ground arith)))

  -- `chan_close` on an open buffered channel, its ring between two operations and its waiters no
  -- `select` stubs, each in one queue once, receivers with buffers of their own: it returns CHAN_OK, the channel is
  -- closed, both queues are empty, every parked sender gets CHAN_ERR_CLOSED, the parked receivers
  -- get what is in the ring in order and after that CHAN_ERR_CLOSED, and all are woken. What no
  -- receiver took stays in the ring, which stays valid.
  pub close_ends :
      (c : Chan A) (w : World A)
      → c.closed ≡ false
      → 0 < c.capacity
      → IsValid c.ring
      → AllRegular w c.send_waiters
      → Distinct c.send_waiters
      → CanServe w c.recv_waiters
      → Disjoint c.recv_waiters c.send_waiters
      → (c' : Chan A) × (w' : World A) × (close (some c) w ≡ (chan_ok, some c', w'))
        × (c'.closed ≡ true)
        × (c'.send_waiters ≡ [])
        × (c'.recv_waiters ≡ [])
        × IsValid c'.ring
        × AllRefused w w' c.send_waiters
        × Ended w w' c.recv_waiters (contents c.ring) (contents c'.ring)
  unfolding close
  close_ends c w o buffered v reg once can apart =
      let shut = record c { closed = true; send_waiters = [] } in
      let w₁ = close_all c.send_waiters w in
      let e = close_receivers c.recv_waiters shut w₁ in
      let s =
        close_receivers-Closes c.recv_waiters shut w₁ buffered v
          (kept-CanServe w c.send_waiters reg once c.recv_waiters apart can) in
      (
        e.0,
        e.1,
        if_false _ _ o,
        s.closed_lem,
        s.nobody.1,
        s.nobody.0,
        s.valid,
        refused-all w e.1 c.send_waiters (λ n m.
            let (res, woken) = close_all-finishes c.send_waiters w n reg once m in
            (
              ap (λ (t : Waiter). t.result)
                    (s.beyond.nodes n (ne-NotIn n c.recv_waiters c.send_waiters apart m))
                  ∙ res,
              s.beyond.words (w.node n).wake_park woken,
            )),
        kept-Ended w c.send_waiters reg once e.1 c.recv_waiters _ _ apart s.ended,
      )
