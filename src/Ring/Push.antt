-- ===== src/Ring/Push.antt =====
-- `ring_lf_push` and `ring_lf_pop` against a bounded queue.
use libchan.Base.{
  ℕ, ◌+◌, ◌%◌, ◌<◌, bit_and, ◌≡◌, sym, ap, ◌∙◌, ◌⊎◌, inl, inr, ◌≢◌, true, false, none, some,
  if◌then◌else◌, memcpy, memcpy_inside, tabulate, add-zero, arith,
}
use libchan.Fifo.{put, get}
use libchan.Ring.{Ring, push, pop}
use libchan.Ring.Valid.{IsValid, contents, slot_at, slot-lt, slot-eq, length-contents}
use libchan.Ring.Runs.{write_run_one}
use libchan.Ring.Burst.{
  size, enqueued, dequeued, enqueued-IsValid, contents-enqueued, dequeued-IsValid,
  contents-dequeued,
}

module _ {A : Type 0} where
  prod-slot-lt : {r : Ring A} → IsValid r → bit_and r.prod_head r.mask < r.capacity
  prod-slot-lt {r} v = rw (slot-eq v.shape r.prod_head) (slot-lt v.shape r.prod_head)

  -- A push on a valid ring is refused when it is full, or is a burst of one.
  pub push-enqueued :
      {r : Ring A} (src : ℕ → A) (p : ℕ)
      → IsValid r
      → ((push r src p ≡ (false, r)) × (size r ≡ r.capacity))
        ⊎ ((push r src p ≡ (true, enqueued r src p 1)) × (size r < r.capacity))
  unfolding push
  push-enqueued {r} src p v = ground (
    arith,
    write_run_one r.slots r.capacity (bit_and r.prod_head r.mask) src p 1 (prod-slot-lt v),
  )

  -- A pop on a valid ring is refused when it is empty, or takes the oldest element.
  pub pop-dequeued :
      {r : Ring A} (out : ℕ → A) (p : ℕ)
      → IsValid r
      → ((pop r out p ≡ (false, r, out)) × (size r ≡ 0))
        ⊎ ((pop r out p ≡ (true, dequeued r 1, memcpy out p r.slots (bit_and r.cons_head r.mask) 1))
            × (0 < size r))
  unfolding pop
  pop-dequeued {r} out p v = ground arith

  -- `ring_lf_push` on a ring with no operation under way answers as a put on its contents, leaves
  -- the contents that the put leaves, and keeps the ring valid.
  pub push_refines :
      {r : Ring A} (src : ℕ → A) (p : ℕ)
      → IsValid r
      → let (done, r') = push r src p in
        ((done, contents r') ≡ put r.capacity (contents r) (src p)) × IsValid r'
  push_refines {r} src p v = elim (push-enqueued src p v) [
    | inl (e, f) ↦ rw e (ground (arith, length-contents v), v)
    | inr (e, f) ↦ rw e (
      ground (
        arith,
        length-contents v,
        contents-enqueued src p 1 v (omega arith),
        ap src (add-zero p),
      ),
      enqueued-IsValid src p 1 v (omega arith),
    )
  ]

  -- `ring_lf_pop` on such a ring answers as a get on its contents: the element goes to cell `p`
  -- of `out`, and the rest stays; an empty ring gives false. The ring stays valid.
  pub pop_refines :
      {r : Ring A} (out : ℕ → A) (p : ℕ)
      → IsValid r
      → let (done, r', out') = pop r out p in
        (get (contents r) ≡ (if done then some (out' p, contents r') else none)) × IsValid r'
  pop_refines {r} out p v = elim (pop-dequeued out p v) [
    | inl (e, f) ↦ rw e (
      ap (λ (n : ℕ). get (tabulate n (λ j. slot_at r (r.cons_head + j)))) {y = 0}
          (omega (arith, v.prod_done)),
      v,
    )
    | inr (e, f) ↦ rw e (
      ap get (contents-dequeued 1 v (omega arith))
          ∙ ap (λ x. some (x, contents (dequeued r 1))) (sym oldest),
      dequeued-IsValid 1 v (omega arith),
    )
  ]
    where
      oldest : memcpy out p r.slots (bit_and r.cons_head r.mask) 1 p ≡ slot_at r (r.cons_head + 0)
      oldest =
          memcpy_inside out p r.slots (bit_and r.cons_head r.mask) 1 p (omega arith) (omega arith)
          ∙ ap r.slots (
              ap (λ (t : ℕ). bit_and r.cons_head r.mask + t) (omega arith)
              ∙ add-zero _
              ∙ slot-eq v.shape r.cons_head
              ∙ ap (λ (t : ℕ). t % r.capacity) (sym (add-zero r.cons_head)))

  -- A pop writes no cell but `p`.
  pub pop_leaves :
      {r : Ring A} (out : ℕ → A) (p q : ℕ) → IsValid r → q ≢ p → (pop r out p).2 q ≡ out q
  pop_leaves {r} out p q v ne = elim (pop-dequeued out p v) [
    | inl (e, f) ↦ rw e
    | inr (e, f) ↦ rw e (ground arith)
  ]

  -- A full ring refuses, as it stands.
  pub push-full :
      {r : Ring A} (src : ℕ → A) (p : ℕ)
      → IsValid r
      → size r ≡ r.capacity
      → push r src p ≡ (false, r)
  push-full {r} src p v full = elim (push-enqueued src p v) [
    | inl (e, _) ↦ e
    | inr (_, f) ↦ absurd (omega arith)
  ]

  pub push-room :
      {r : Ring A} (src : ℕ → A) (p : ℕ)
      → IsValid r
      → size r < r.capacity
      → push r src p ≡ (true, enqueued r src p 1)
  push-room {r} src p v room = elim (push-enqueued src p v) [
    | inl (_, f) ↦ absurd (omega arith)
    | inr (e, _) ↦ e
  ]

  pub pop-empty :
      {r : Ring A} (out : ℕ → A) (p : ℕ) → IsValid r → size r ≡ 0 → pop r out p ≡ (false, r, out)
  pop-empty {r} out p v none_left = elim (pop-dequeued out p v) [
    | inl (e, _) ↦ e
    | inr (_, f) ↦ absurd (omega arith)
  ]

  pub pop-some :
      {r : Ring A} (out : ℕ → A) (p : ℕ)
      → IsValid r
      → 0 < size r
      → pop r out p ≡ (true, dequeued r 1, memcpy out p r.slots (bit_and r.cons_head r.mask) 1)
  pop-some {r} out p v left = elim (pop-dequeued out p v) [
    | inl (_, f) ↦ absurd (omega arith)
    | inr (e, _) ↦ e
  ]
