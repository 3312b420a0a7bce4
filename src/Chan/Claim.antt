-- ===== src/Chan/Claim.antt =====
-- Which waiters `waitq_pop_sender` and `waitq_close_all` claim, and what they leave alone.
use libchan.Base.{
  ℕ, Bool, true, false, Option, none, some, List, [], ◌∷◌, ◌≡◌, ◌≢◌, inl, inr, refl, sym, ap, subst,
  ◌∙◌, ◌==◌, NotIn, Distinct, mem, Bool-cases, Option-cases, arith,
}
use libchan.Chan.{ChanErr, err_closed, World, try_claim, pop_claimed, close_all, finish}

module _ {A : Type 0} where
  -- A waiter that is no `select` stub: nobody else can have claimed it.
  abbrev pub IsRegular : World A → ℕ → Type 0
  IsRegular w n = (w.node n).select_state ≡ none

  -- A stub whose `select` has been claimed already.
  abbrev pub IsTaken : World A → ℕ → Type 0
  IsTaken w n = (s : ℕ) × ((w.node n).select_state ≡ some s) × (w.state s ≢ 0)

  pub try_claim-regular : (w : World A) (n : ℕ) → IsRegular w n → try_claim w n ≡ (true, w)
  unfolding try_claim
  try_claim-regular w n h = rw (h, try_claim)

  pub try_claim-taken : (w : World A) (n : ℕ) → IsTaken w n → try_claim w n ≡ (false, w)
  unfolding try_claim
  try_claim-taken w n (s, h, e) = rw (h, try_claim) (ground arith)

  -- A claim changes no node, no cell and no park word.
  pub try_claim-keeps :
      (w : World A) (n : ℕ)
      → ((try_claim w n).1.node ≡ w.node)
        × ((try_claim w n).1.cell ≡ w.cell)
        × ((try_claim w n).1.word ≡ w.word)
  unfolding try_claim
  try_claim-keeps w n = elim (Option-cases (w.node n).select_state) [
    | inl e ↦ rw (e, try_claim) (refl, refl, refl)
    | inr (s, e) ↦ elim (Bool-cases (w.state s == 0)) [
      | inl f ↦ rw (e, try_claim) (rw f (refl, refl, refl))
      | inr f ↦ rw (e, try_claim) (rw f (refl, refl, refl))
    ]
  ]

  -- The first waiter, if it is regular, is the one that is claimed.
  pub pop_claimed-regular :
      (w : World A) (x : ℕ) (xs : List ℕ) → IsRegular w x → pop_claimed (x ∷ xs) w ≡ (some x, xs, w)
  unfolding pop_claimed
  pop_claimed-regular w x xs h =
      ap
        (λ (t : Bool × World A).
          let r : Option ℕ × List ℕ × World A = elim t.0 [
            | true ↦ (some x, xs, t.1)
            | false ↦ pop_claimed xs t.1
          ] in
          r)
        (try_claim-regular w x h)

  abbrev pub AllTaken : World A → List ℕ → Type 0
  AllTaken w [] = Unit
  AllTaken w (x ∷ xs) = IsTaken w x × AllTaken w xs

  -- Stubs that are taken are dropped, and nobody is claimed.
  pub pop_claimed-taken :
      (w : World A) (xs : List ℕ) → AllTaken w xs → pop_claimed xs w ≡ (none, [], w)
  unfolding pop_claimed
  pop_claimed-taken w [] h = refl
  pop_claimed-taken w (x ∷ xs) h =
      ap
        (λ (t : Bool × World A).
          let r : Option ℕ × List ℕ × World A = elim t.0 [
            | true ↦ (some x, xs, t.1)
            | false ↦ pop_claimed xs t.1
          ] in
          r)
        (try_claim-taken w x h.0)
      ∙ pop_claimed-taken w xs h.1

  abbrev pub AllRegular : World A → List ℕ → Type 0
  AllRegular w [] = Unit
  AllRegular w (x ∷ xs) = IsRegular w x × AllRegular w xs

  -- The end of one waiter leaves every other node as it is, and no node turns into a stub.
  pub finish-node :
      (w : World A) (x : ℕ) (e : ChanErr) (y : ℕ) → y ≢ x → (finish w x e).node y ≡ w.node y
  finish-node w x e y ne = ground arith

  pub finish-result : (w : World A) (x : ℕ) (e : ChanErr) → ((finish w x e).node x).result ≡ e
  finish-result w x e = ground arith

  pub finish-AllRegular :
      (w : World A) (x : ℕ) (e : ChanErr) (ys : List ℕ)
      → NotIn x ys
      → AllRegular w ys
      → AllRegular (finish w x e) ys
  finish-AllRegular w x e [] n h = tt
  finish-AllRegular w x e (y ∷ ys) n h = (
    ap (λ v. v.select_state) (finish-node w x e y (λ q. n.0 (sym q))) ∙ h.0,
    finish-AllRegular w x e ys n.1 h.1,
  )

  -- `waitq_close_all` on a queue with a regular waiter in front.
  close_all-step :
      (w : World A) (x : ℕ) (xs : List ℕ)
      → IsRegular w x
      → close_all (x ∷ xs) w ≡ close_all xs (finish w x err_closed)
  unfolding close_all
  close_all-step w x xs h =
      ap
        (λ (t : Bool × World A).
          let r : World A = elim t.0 [
            | true ↦ close_all xs (finish t.1 x err_closed)
            | false ↦ close_all xs t.1
          ] in
          r)
        (try_claim-regular w x h)

  pub close_all-node :
      (xs : List ℕ) (w : World A) (n : ℕ)
      → AllRegular w xs
      → Distinct xs
      → NotIn n xs
      → (close_all xs w).node n ≡ w.node n
  unfolding close_all
  close_all-node [] w n h d ni = refl
  close_all-node (x ∷ xs) w n h d ni = rw (close_all-step w x xs h.0) (
      close_all-node xs (finish w x err_closed) n (finish-AllRegular w x err_closed xs d.0 h.1) d.1
        ni.1
      ∙ finish-node w x err_closed n ni.0)

  pub finish-word :
      (w : World A) (x : ℕ) (e : ChanErr) (a : ℕ) → w.word a ≡ 1 → (finish w x e).word a ≡ 1
  finish-word w x e a h = ground arith

  pub close_all-word :
      (xs : List ℕ) (w : World A) (a : ℕ)
      → AllRegular w xs
      → Distinct xs
      → w.word a ≡ 1
      → (close_all xs w).word a ≡ 1
  unfolding close_all
  close_all-word [] w a h d e = e
  close_all-word (x ∷ xs) w a h d e = rw (close_all-step w x xs h.0) (
      close_all-word xs (finish w x err_closed) a (finish-AllRegular w x err_closed xs d.0 h.1) d.1
        (finish-word w x err_closed a e))

  pub finish-wakes :
      (w : World A) (x : ℕ) (e : ChanErr) → (finish w x e).word (w.node x).wake_park ≡ 1
  finish-wakes w x e = ground arith

  -- `waitq_close_all` gives each waiter of the queue that is no `select` stub CHAN_ERR_CLOSED, and
  -- sets the word of its park.
  pub close_all-finishes :
      (xs : List ℕ) (w : World A) (n : ℕ)
      → AllRegular w xs
      → Distinct xs
      → mem n xs ≡ true
      → (((close_all xs w).node n).result ≡ err_closed)
        × ((close_all xs w).word (w.node n).wake_park ≡ 1)
  unfolding close_all
  close_all-finishes [] w n h d m = cc
  close_all-finishes (x ∷ xs) w n h d m = elim (Bool-cases (x == n)) [
    | inl here ↦
        let e : n ≡ x = ground arith in
        rw (close_all-step w x xs h.0, e)
          (
            ap (λ v. v.result) (close_all-node xs (finish w x err_closed) x later d.1 d.0)
                ∙ finish-result w x err_closed,
            close_all-word xs (finish w x err_closed) (w.node x).wake_park later d.1
                (finish-wakes w x err_closed),
          )
    | inr there ↦
        let apart : n ≢ x = ground arith in
        let (r, k) = close_all-finishes xs (finish w x err_closed) n later d.1 (rw there at m) in
        rw (close_all-step w x xs h.0) (
          r,
          subst (λ v. (close_all xs (finish w x err_closed)).word (v.wake_park) ≡ 1)
              (finish-node w x err_closed n apart) k,
        )
  ]
    where
      later : AllRegular (finish w x err_closed) xs
      later = finish-AllRegular w x err_closed xs d.0 h.1
