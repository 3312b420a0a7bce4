-- ===== src/Chan/Deliver.antt =====
-- `chan_deliver_ring_to_receivers` of src/libchan_internal.h: the elements of the ring and the
-- receivers that are parked.
use libchan.Base.{
  ℕ, zero, suc, ◌<◌, Bool, true, false, List, [], ◌∷◌, ◌≡◌, refl, sym, ap, subst, ◌∙◌, length,
  NotIn, Distinct, arith,
}
use native.Mathlib.Decide.{dec_lt}
use libchan.Ring.{Ring}
use libchan.Ring.Valid.{IsValid, contents, contents-nil}
use libchan.Ring.Burst.{size, dequeued, dequeued-IsValid}
use libchan.Ring.Levels.{is_empty-true}
use libchan.Chan.{
  chan_ok, Waiter, World, Chan, pop_claimed, deliver_next, deliver_rounds, deliver_ring,
}
use libchan.Chan.Claim.{finish-result, finish-wakes}
use libchan.Chan.Handed.{
  bufs, Delivered, CanServe, Beyond, with_receivers, carried, handed, deliver_rounds-step,
  handed-node, handed-cell, handed-word, bufs-congr, regular-congr, Delivered-congr,
  contents-handed,
}

module _ {A : Type 0} where
  -- What a run of the loop on the receivers `rs` and `ring` ends in.
  record Served (w : World A) (rs : List ℕ) (ring : Ring A) (end : Chan A × World A) : Type 0 where
    delivered : Delivered w end.1 rs (contents ring) end.0.recv_waiters (contents end.0.ring)
    valid : IsValid end.0.ring
    beyond : Beyond w end.1 rs (bufs w rs)

  Served-nobody :
      (w : World A) (rs : List ℕ) (c : Chan A)
      → IsValid c.ring
      → contents c.ring ≡ []
      → c.recv_waiters ≡ rs
      → Served w rs c.ring (c, w)
  Served-nobody w [] c v e q = record {
    delivered = (q, refl);
    valid = v;
    beyond = record { nodes = λ n h. refl; cells = λ p h. refl; words = λ a h. h };
  }
  Served-nobody w (r ∷ rs) c v e q = record {
    delivered =
        subst (λ (t : List A). Delivered w w (r ∷ rs) t c.recv_waiters (contents c.ring)) (sym e)
          (q, e);
    valid = v;
    beyond = record { nodes = λ n h. refl; cells = λ p h. refl; words = λ a h. h };
  }

  -- One more receiver in front.
  Served-step :
      (w : World A) (ring : Ring A) (r : ℕ) (rs : List ℕ) (end : Chan A × World A)
      → IsValid ring
      → 0 < size ring
      → CanServe w (r ∷ rs)
      → Served (handed w ring r) rs (dequeued ring 1) end
      → Served w (r ∷ rs) ring end
  Served-step w ring r rs end v left can s = record {
    delivered =
        subst
          (λ (t : List A). Delivered w end.1 (r ∷ rs) t end.0.recv_waiters (contents end.0.ring))
          (sym (contents-handed w ring r v left))
          (
            ap (λ (t : Waiter). t.result) (s.beyond.nodes r can.distinct.0)
                ∙ finish-result (carried w ring r) r chan_ok,
            s.beyond.cells (w.node r).buf fresh_buf,
            s.beyond.words (w.node r).wake_park (finish-wakes (carried w ring r) r chan_ok),
            Delivered-congr w (handed w ring r) end.1 r rs _ _ _ (handed-node w ring r)
                can.distinct.0 s.delivered,
          );
    valid = s.valid;
    beyond = record {
      nodes = λ n h. s.beyond.nodes n h.1 ∙ handed-node w ring r n h.0;
      cells = λ p h. s.beyond.cells p (subst (NotIn p) (sym same) h.1) ∙ handed-cell w ring r p h.0;
      words = λ a h. s.beyond.words a (handed-word w ring r a h);
    };
  }
    where
      same : bufs (handed w ring r) rs ≡ bufs w rs
      same = bufs-congr w (handed w ring r) r rs (handed-node w ring r) can.distinct.0

      fresh_buf : NotIn (w.node r).buf (bufs (handed w ring r) rs)
      fresh_buf = subst (NotIn (w.node r).buf) (sym same) can.apart.0

  pub CanServe-handed :
      (w : World A) (ring : Ring A) (r : ℕ) (rs : List ℕ)
      → CanServe w (r ∷ rs)
      → CanServe (handed w ring r) rs
  CanServe-handed w ring r rs can = record {
    regular =
        regular-congr w (handed w ring r) r rs (handed-node w ring r) can.distinct.0 can.regular.1;
    distinct = can.distinct.1;
    apart =
        subst Distinct
          (sym (bufs-congr w (handed w ring r) r rs (handed-node w ring r) can.distinct.0))
          can.apart.1;
  }

  deliver_rounds-empty :
      (n : ℕ) (c : Chan A) (w : World A)
      → IsValid c.ring
      → size c.ring ≡ 0
      → deliver_rounds n c w ≡ (c, w)
  unfolding deliver_rounds
  deliver_rounds-empty zero c w v e = refl
  deliver_rounds-empty (suc n) c w v e =
      ap
        (λ (b : Bool).
          let t : Chan A × World A = elim b [
            | true ↦ (c, w)
            | false ↦ deliver_next (deliver_rounds n) c (pop_claimed c.recv_waiters w)
          ] in
          t)
        (is_empty-true v e)

  deliver_rounds-serves :
      (rs : List ℕ) (c : Chan A) (w : World A) (ring : Ring A)
      → IsValid ring
      → CanServe w rs
      → Served w rs ring (deliver_rounds (length rs) (with_receivers c ring rs) w)
  unfolding deliver_rounds
  deliver_rounds-serves [] c w ring v can = record {
    delivered = (refl, refl);
    valid = v;
    beyond = record { nodes = λ n h. refl; cells = λ p h. refl; words = λ a h. h };
  }
  deliver_rounds-serves (r ∷ rs) c w ring v can = elim (dec_lt 0 (size ring)) [
    | yes left ↦
        subst (Served w (r ∷ rs) ring)
          (sym (deliver_rounds-step (length rs) c w ring r rs v left can.regular.0))
          (Served-step w ring r rs _ v left can (
            deliver_rounds-serves rs c (handed w ring r) (dequeued ring 1)
              (dequeued-IsValid 1 v (omega arith)) (CanServe-handed w ring r rs can)))
    | no stuck ↦
        subst (Served w (r ∷ rs) ring)
          (sym (
            deliver_rounds-empty (length (r ∷ rs)) (with_receivers c ring (r ∷ rs)) w v
              (omega arith)))
          (Served-nobody w (r ∷ rs) (with_receivers c ring (r ∷ rs)) v
            (contents-nil v (omega arith)) refl)
  ]

  -- `chan_deliver_ring_to_receivers` on a valid ring and parked receivers that are no `select`
  -- stubs, each queued once and with a buffer of its own: the first receivers get the oldest
  -- elements, one each and in order, CHAN_OK and a wakeup; either no receiver or no element is
  -- left over, the others stay in order, and the ring stays valid.
  pub deliver_ring_serves :
      (c : Chan A) (w : World A)
      → IsValid c.ring
      → CanServe w c.recv_waiters
      → let (c', w') = deliver_ring c w in
        Delivered w w' c.recv_waiters (contents c.ring) c'.recv_waiters (contents c'.ring)
        × IsValid c'.ring
  unfolding deliver_ring
  deliver_ring_serves c w v can =
      let s = deliver_rounds-serves c.recv_waiters c w c.ring v can in (s.delivered, s.valid)
