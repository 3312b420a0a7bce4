-- ===== src/Chan/Core/Closing.antt =====
-- `chan_close` of src/chan_core.c: what every parked waiter gets.
use libchan.Base.{
  ℕ, ◌<◌, Bool, true, false, ◌&&◌, List, [], ◌∷◌, ◌≡◌, ◌≢◌, refl, sym, ap, subst, ◌∙◌, ltb, lt→ltb,
  NotIn, Distinct, arith,
}
use native.Mathlib.Decide.{dec_lt}
use libchan.Ring
use libchan.Ring.{Ring}
use libchan.Ring.Valid.{IsValid, contents, contents-nil}
use libchan.Ring.Burst.{size, dequeued, dequeued-IsValid}
use libchan.Ring.Push.{pop-some, pop-empty}
use libchan.Chan.{chan_ok, err_closed, Waiter, World, Chan, finish}
use libchan.Chan.Claim.{
  IsRegular, try_claim-regular, finish-node, finish-result, finish-word, finish-wakes,
}
use libchan.Chan.Handed.{
  CanServe, Beyond, bufs, bufs-congr, regular-congr, carried, handed, handed-node, handed-cell,
  handed-word, contents-handed,
}
use libchan.Chan.Deliver.{CanServe-handed}
use libchan.Chan.Core.{close_receivers}

module _ {A : Type 0} where
  -- Receivers met the elements `q` when the channel was closed: in order, each that got one has it
  -- in its buffer and CHAN_OK, every later one has CHAN_ERR_CLOSED; all are woken, and `q'` is left.
  abbrev pub Ended : World A → World A → List ℕ → List A → List A → Type 0
  Ended w w' [] q q' = q' ≡ q
  Ended w w' (r ∷ rs) [] q' =
      ((w'.node r).result ≡ err_closed) × (w'.word (w.node r).wake_park ≡ 1) × Ended w w' rs [] q'
  Ended w w' (r ∷ rs) (x ∷ q) q' =
      ((w'.node r).result ≡ chan_ok)
      × (w'.cell (w.node r).buf ≡ x)
      × (w'.word (w.node r).wake_park ≡ 1)
      × Ended w w' rs q q'

  Ended-congr :
      (w w₁ w' : World A) (r : ℕ) (rs : List ℕ) (q q' : List A)
      → ((n : ℕ) → n ≢ r → w₁.node n ≡ w.node n)
      → NotIn r rs
      → Ended w₁ w' rs q q'
      → Ended w w' rs q q'
  Ended-congr w w₁ w' r [] q q' same ni d = d
  Ended-congr w w₁ w' r (x ∷ rs) [] q' same ni (res, woken, d) = (
    res,
    ap (λ (v : Waiter). w'.word v.wake_park) (sym (same x (λ f. ni.0 (sym f)))) ∙ woken,
    Ended-congr w w₁ w' r rs [] q' same ni.1 d,
  )
  Ended-congr w w₁ w' r (x ∷ rs) (y ∷ q) q' same ni (res, got, woken, d) =
      let e : w₁.node x ≡ w.node x = same x (λ f. ni.0 (sym f)) in
      (
        res,
        ap (λ (v : Waiter). w'.cell v.buf) (sym e) ∙ got,
        ap (λ (v : Waiter). w'.word v.wake_park) (sym e) ∙ woken,
        Ended-congr w w₁ w' r rs q q' same ni.1 d,
      )

  -- What the waking of the receivers `rs` ends in.
  pub record Closes (w : World A) (rs : List ℕ) (c : Chan A) (end : Chan A × World A) : Type 0 where
    pub ended : Ended w end.1 rs (contents c.ring) (contents end.0.ring)
    pub valid : IsValid end.0.ring
    pub closed_lem : end.0.closed ≡ c.closed
    pub nobody : (end.0.recv_waiters ≡ []) × (end.0.send_waiters ≡ c.send_waiters)
    pub beyond : Beyond w end.1 rs (bufs w rs)

  -- A step, by the claim of the receiver and the answer of the pop.
  abbrev closes_next :
      List ℕ → Chan A → ℕ → Bool × World A → Bool → Bool × Ring A × (ℕ → A) → Chan A × World A
  closes_next rs c r t buffered (done, ring, cell) = elim t.0 [
    | false ↦ close_receivers rs c t.1
    | true ↦ elim (buffered && done) [
      | true ↦
          close_receivers rs (record c { ring = ring })
            (finish (record t.1 { cell = cell }) r chan_ok)
      | false ↦ close_receivers rs c (finish t.1 r err_closed)
    ]
  ]

  close_receivers-claims :
      (rs : List ℕ) (c : Chan A) (w : World A) (r : ℕ)
      → 0 < c.capacity
      → IsRegular w r
      → close_receivers (r ∷ rs) c w
        ≡ closes_next rs c r (true, w) true (Ring.pop c.ring w.cell (w.node r).buf)
  unfolding close_receivers
  close_receivers-claims rs c w r buffered reg =
      ap
        (λ (t : Bool × World A).
          closes_next rs c r t (ltb 0 c.capacity) (Ring.pop c.ring t.1.cell (t.1.node r).buf))
        (try_claim-regular w r reg)
      ∙ ap (λ b. closes_next rs c r (true, w) b (Ring.pop c.ring w.cell (w.node r).buf))
          (lt→ltb 0 c.capacity buffered)

  abbrev with_ring : Chan A → Ring A → Chan A
  with_ring c ring = record c { ring = ring }

  close_receivers-some :
      (rs : List ℕ) (c : Chan A) (w : World A) (r : ℕ)
      → 0 < c.capacity
      → IsRegular w r
      → IsValid c.ring
      → 0 < size c.ring
      → close_receivers (r ∷ rs) c w
        ≡ close_receivers rs (with_ring c (dequeued c.ring 1)) (handed w c.ring r)
  close_receivers-some rs c w r buffered reg v left =
      close_receivers-claims rs c w r buffered reg
      ∙ ap (closes_next rs c r (true, w) true) (pop-some w.cell (w.node r).buf v left)

  close_receivers-none :
      (rs : List ℕ) (c : Chan A) (w : World A) (r : ℕ)
      → 0 < c.capacity
      → IsRegular w r
      → IsValid c.ring
      → size c.ring ≡ 0
      → close_receivers (r ∷ rs) c w ≡ close_receivers rs c (finish w r err_closed)
  close_receivers-none rs c w r buffered reg v empty =
      close_receivers-claims rs c w r buffered reg
      ∙ ap (closes_next rs c r (true, w) true) (pop-empty w.cell (w.node r).buf v empty)

  finished-node : (w : World A) (r n : ℕ) → n ≢ r → (finish w r err_closed).node n ≡ w.node n
  finished-node w r n ne = finish-node w r err_closed n ne

  Closes-some :
      (w : World A) (rs : List ℕ) (r : ℕ) (c : Chan A) (end : Chan A × World A)
      → IsValid c.ring
      → 0 < size c.ring
      → CanServe w (r ∷ rs)
      → Closes (handed w c.ring r) rs (with_ring c (dequeued c.ring 1)) end
      → Closes w (r ∷ rs) c end
  Closes-some w rs r c end v left can s = record {
    ended =
        subst (λ (t : List A). Ended w end.1 (r ∷ rs) t (contents end.0.ring))
          (sym (contents-handed w c.ring r v left))
          (
            ap (λ (t : Waiter). t.result) (s.beyond.nodes r can.distinct.0)
                ∙ finish-result (carried w c.ring r) r chan_ok,
            s.beyond.cells (w.node r).buf (subst (NotIn (w.node r).buf) (sym same) can.apart.0),
            s.beyond.words (w.node r).wake_park (finish-wakes (carried w c.ring r) r chan_ok),
            Ended-congr w (handed w c.ring r) end.1 r rs _ _ (handed-node w c.ring r) can.distinct.0
                s.ended,
          );
    valid = s.valid;
    closed_lem = s.closed_lem;
    nobody = s.nobody;
    beyond = record {
      nodes = λ n h. s.beyond.nodes n h.1 ∙ handed-node w c.ring r n h.0;
      cells =
          λ p h. s.beyond.cells p (subst (NotIn p) (sym same) h.1) ∙ handed-cell w c.ring r p h.0;
      words = λ a h. s.beyond.words a (handed-word w c.ring r a h);
    };
  }
    where
      same : bufs (handed w c.ring r) rs ≡ bufs w rs
      same = bufs-congr w (handed w c.ring r) r rs (handed-node w c.ring r) can.distinct.0

  Closes-none :
      (w : World A) (rs : List ℕ) (r : ℕ) (c : Chan A) (end : Chan A × World A)
      → IsValid c.ring
      → size c.ring ≡ 0
      → CanServe w (r ∷ rs)
      → Closes (finish w r err_closed) rs c end
      → Closes w (r ∷ rs) c end
  Closes-none w rs r c end v empty can s = record {
    ended =
        subst (λ (t : List A). Ended w end.1 (r ∷ rs) t (contents end.0.ring)) (sym drained)
          (
            ap (λ (t : Waiter). t.result) (s.beyond.nodes r can.distinct.0)
                ∙ finish-result w r err_closed,
            s.beyond.words (w.node r).wake_park (finish-wakes w r err_closed),
            subst (λ (t : List A). Ended w end.1 rs t (contents end.0.ring)) drained
                (Ended-congr w (finish w r err_closed) end.1 r rs _ _ (finished-node w r)
                  can.distinct.0 s.ended),
          );
    valid = s.valid;
    closed_lem = s.closed_lem;
    nobody = s.nobody;
    beyond = record {
      nodes = λ n h. s.beyond.nodes n h.1 ∙ finished-node w r n h.0;
      cells = λ p h. s.beyond.cells p (subst (NotIn p) (sym same) h.1);
      words = λ a h. s.beyond.words a (finish-word w r err_closed a h);
    };
  }
    where
      same : bufs (finish w r err_closed) rs ≡ bufs w rs
      same = bufs-congr w (finish w r err_closed) r rs (finished-node w r) can.distinct.0

      drained : contents c.ring ≡ []
      drained = contents-nil v empty

  CanServe-finished :
      (w : World A) (r : ℕ) (rs : List ℕ)
      → CanServe w (r ∷ rs)
      → CanServe (finish w r err_closed) rs
  CanServe-finished w r rs can = record {
    regular =
        regular-congr w (finish w r err_closed) r rs (finished-node w r) can.distinct.0
          can.regular.1;
    distinct = can.distinct.1;
    apart =
        subst Distinct
          (sym (bufs-congr w (finish w r err_closed) r rs (finished-node w r) can.distinct.0))
          can.apart.1;
  }

  pub close_receivers-Closes :
      (rs : List ℕ) (c : Chan A) (w : World A)
      → 0 < c.capacity
      → IsValid c.ring
      → CanServe w rs
      → Closes w rs c (close_receivers rs c w)
  unfolding close_receivers
  close_receivers-Closes [] c w buffered v can = record {
    ended = refl;
    valid = v;
    closed_lem = refl;
    nobody = (refl, refl);
    beyond = record { nodes = λ n h. refl; cells = λ p h. refl; words = λ a h. h };
  }
  close_receivers-Closes (r ∷ rs) c w buffered v can = elim (dec_lt 0 (size c.ring)) [
    | yes left ↦
        subst (Closes w (r ∷ rs) c)
          (sym (close_receivers-some rs c w r buffered can.regular.0 v left))
          (Closes-some w rs r c _ v left can (
            close_receivers-Closes rs (with_ring c (dequeued c.ring 1)) (handed w c.ring r) buffered
              (dequeued-IsValid 1 v (omega arith)) (CanServe-handed w c.ring r rs can)))
    | no none_left ↦
        subst (Closes w (r ∷ rs) c)
          (sym (close_receivers-none rs c w r buffered can.regular.0 v (omega arith)))
          (Closes-none w rs r c _ v (omega arith) can (
            close_receivers-Closes rs c (finish w r err_closed) buffered v
              (CanServe-finished w r rs can)))
  ]
