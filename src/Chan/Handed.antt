-- ===== src/Chan/Handed.antt =====
-- One element of the ring handed to one parked receiver: what changes, and what stays.
use libchan.Base.{
  ℕ, suc, ◌<◌, Bool, true, false, none, some, List, [], ◌∷◌, ◌≡◌, ◌≢◌, refl, sym, ap, subst, ◌∙◌,
  if◌then◌else◌, NotIn, Distinct, memcpy, bit_and, arith,
}
use libchan.Fifo.{get}
use libchan.Ring.{Ring}
use libchan.Ring.Valid.{IsValid, contents}
use libchan.Ring.Burst.{size, dequeued}
use libchan.Ring.Push.{pop-some, pop_refines}
use libchan.Ring.Levels.{is_empty-false}
use libchan.Chan.{
  chan_ok, Waiter, World, Chan, finish, pop_claimed, deliver_to, deliver_next, deliver_rounds,
}
use libchan.Chan.Claim.{IsRegular, AllRegular, pop_claimed-regular}

module _ {A : Type 0} where
  -- The buffers of waiters.
  abbrev pub bufs : World A → List ℕ → List ℕ
  bufs w [] = []
  bufs w (r ∷ rs) = (w.node r).buf ∷ bufs w rs

  -- Receivers `rs` met elements `q`, in order: each that got one has it in its buffer, has
  -- CHAN_OK and is woken. The rest are `rs'` and `q'`.
  abbrev pub Delivered : World A → World A → List ℕ → List A → List ℕ → List A → Type 0
  Delivered w w' [] q rs' q' = (rs' ≡ []) × (q' ≡ q)
  Delivered w w' (r ∷ rs) [] rs' q' = (rs' ≡ r ∷ rs) × (q' ≡ [])
  Delivered w w' (r ∷ rs) (x ∷ q) rs' q' =
      ((w'.node r).result ≡ chan_ok)
      × (w'.cell (w.node r).buf ≡ x)
      × (w'.word (w.node r).wake_park ≡ 1)
      × Delivered w w' rs q rs' q'

  -- Parked receivers that the loop can serve: no stubs, each once, with buffers of their own.
  pub record CanServe (w : World A) (rs : List ℕ) : Type 0 where
    pub regular : AllRegular w rs
    pub distinct : Distinct rs
    pub apart : Distinct (bufs w rs)

  -- What a world owes to the one before, away from some nodes and cells.
  pub record Beyond (w w' : World A) (rs ps : List ℕ) : Type 0 where
    pub nodes : (n : ℕ) → NotIn n rs → w'.node n ≡ w.node n
    pub cells : (p : ℕ) → NotIn p ps → w'.cell p ≡ w.cell p
    pub words : (a : ℕ) → w.word a ≡ 1 → w'.word a ≡ 1

  abbrev pub with_receivers : Chan A → Ring A → List ℕ → Chan A
  with_receivers c ring rs = record c { ring = ring; recv_waiters = rs }

  -- The memory after the oldest element of `ring` went to the receiver `r`, before and after its
  -- wakeup.
  abbrev pub carried : World A → Ring A → ℕ → World A
  carried w ring r = record w {
    cell = memcpy w.cell (w.node r).buf ring.slots (bit_and ring.cons_head ring.mask) 1;
  }

  abbrev pub handed : World A → Ring A → ℕ → World A
  handed w ring r = finish (carried w ring r) r chan_ok

  pub deliver_rounds-step :
      (n : ℕ) (c : Chan A) (w : World A) (ring : Ring A) (r : ℕ) (rs : List ℕ)
      → IsValid ring
      → 0 < size ring
      → IsRegular w r
      → deliver_rounds (suc n) (with_receivers c ring (r ∷ rs)) w
        ≡ deliver_rounds n (with_receivers c (dequeued ring 1) rs) (handed w ring r)
  unfolding deliver_rounds
  deliver_rounds-step n c w ring r rs v left reg =
      ap
        (λ (b : Bool).
          let t : Chan A × World A = elim b [
            | true ↦ (with_receivers c ring (r ∷ rs), w)
            | false ↦
                deliver_next (deliver_rounds n) (with_receivers c ring (r ∷ rs))
                  (pop_claimed (r ∷ rs) w)
          ] in
          t)
        (is_empty-false v left)
      ∙ ap (deliver_next (deliver_rounds n) (with_receivers c ring (r ∷ rs)))
          (pop_claimed-regular w r rs reg)
      ∙ ap (deliver_to (deliver_rounds n) (with_receivers c ring (r ∷ rs)) r rs w)
          (pop-some w.cell (w.node r).buf v left)

  pub handed-node :
      (w : World A) (ring : Ring A) (r n : ℕ) → n ≢ r → (handed w ring r).node n ≡ w.node n
  handed-node w ring r n ne = ground arith

  pub handed-cell :
      (w : World A) (ring : Ring A) (r p : ℕ)
      → p ≢ (w.node r).buf
      → (handed w ring r).cell p ≡ w.cell p
  handed-cell w ring r p ne = ground arith

  pub handed-word :
      (w : World A) (ring : Ring A) (r a : ℕ) → w.word a ≡ 1 → (handed w ring r).word a ≡ 1
  handed-word w ring r a h = ground arith

  -- The rest of the receivers, where one node changed that is none of theirs.
  pub bufs-congr :
      (w w₁ : World A) (r : ℕ) (rs : List ℕ)
      → ((n : ℕ) → n ≢ r → w₁.node n ≡ w.node n)
      → NotIn r rs
      → bufs w₁ rs ≡ bufs w rs
  bufs-congr w w₁ r [] same ni = refl
  bufs-congr w w₁ r (x ∷ rs) same ni =
      rw (same x (λ e. ni.0 (sym e)), bufs-congr w w₁ r rs same ni.1)

  pub regular-congr :
      (w w₁ : World A) (r : ℕ) (rs : List ℕ)
      → ((n : ℕ) → n ≢ r → w₁.node n ≡ w.node n)
      → NotIn r rs
      → AllRegular w rs
      → AllRegular w₁ rs
  regular-congr w w₁ r [] same ni h = tt
  regular-congr w w₁ r (x ∷ rs) same ni h = (
    ap (λ (v : Waiter). v.select_state) (same x (λ e. ni.0 (sym e))) ∙ h.0,
    regular-congr w w₁ r rs same ni.1 h.1,
  )

  pub Delivered-congr :
      (w w₁ w' : World A) (r : ℕ) (rs : List ℕ) (q : List A) (rs' : List ℕ) (q' : List A)
      → ((n : ℕ) → n ≢ r → w₁.node n ≡ w.node n)
      → NotIn r rs
      → Delivered w₁ w' rs q rs' q'
      → Delivered w w' rs q rs' q'
  Delivered-congr w w₁ w' r [] q rs' q' same ni d = d
  Delivered-congr w w₁ w' r (x ∷ rs) [] rs' q' same ni d = d
  Delivered-congr w w₁ w' r (x ∷ rs) (y ∷ q) rs' q' same ni (res, got, woken, d) =
      let e : w₁.node x ≡ w.node x = same x (λ f. ni.0 (sym f)) in
      (
        res,
        ap (λ (v : Waiter). w'.cell v.buf) (sym e) ∙ got,
        ap (λ (v : Waiter). w'.word v.wake_park) (sym e) ∙ woken,
        Delivered-congr w w₁ w' r rs q rs' q' same ni.1 d,
      )

  pub get-inv : (q : List A) (x : A) (q' : List A) → get q ≡ some (x, q') → q ≡ x ∷ q'
  get-inv [] x q' e = cc
  get-inv (y ∷ q) x q' e = cc

  -- The receiver's buffer holds the oldest element, and the ring the rest.
  pub contents-handed :
      (w : World A) (ring : Ring A) (r : ℕ)
      → IsValid ring
      → 0 < size ring
      → contents ring ≡ (handed w ring r).cell (w.node r).buf ∷ contents (dequeued ring 1)
  contents-handed w ring r v left = get-inv (contents ring) _ _ (
      subst
        (λ (t : Bool × Ring A × (ℕ → A)).
          get (contents ring) ≡ (if t.0 then some (t.2 (w.node r).buf, contents t.1) else none))
        (pop-some w.cell (w.node r).buf v left) ((pop_refines w.cell (w.node r).buf v).0))
