-- ===== src/Ring/Overrun.antt =====
-- The cached push of src/libchan_internal.h behind bursts, which do not reload the producer's cache.
use libchan.Base.{
  ℕ, ◌+◌, ◌-◌, ◌^◌, ◌≡◌, refl, ap, ◌∙◌, true, false, memcpy, memcpy_inside, memcpy_above, arith,
}
use libchan.Ring.{Ring, fresh, push, pop, spsc_push, enqueue_burst, dequeue_burst, count}

module _ {A : Type 0} (src out : ℕ → A) where
  -- `ring_lf_enqueue_burst` and `ring_lf_dequeue_burst` of so many elements.
  abbrev pub in_burst : ℕ → Ring A → Ring A
  in_burst n r = (enqueue_burst r src 0 n).1

  abbrev pub out_burst : ℕ → Ring A → Ring A
  out_burst n r = (dequeue_burst r out 0 n).1

  -- A new ring of 2 ^ 31 slots behind three bursts in, and two out.
  abbrev pub burst_round : ℕ → (ℕ → A) → Ring A
  burst_round elem_size slots = in_burst (2 ^ 31 - 1) (
      out_burst (2 ^ 31 - 1) (
        in_burst (2 ^ 31)
          (out_burst (2 ^ 31) (in_burst (2 ^ 31) (fresh (2 ^ 31) elem_size slots)))))

  -- A copy of one element, read where it went.
  copied : (dst from : ℕ → A) (i j : ℕ) → memcpy dst i from j 1 i ≡ from j
  copied dst from i j =
      memcpy_inside dst i from j 1 i (omega arith) (omega arith)
      ∙ ap from {x = j + (i - i)} {y = j} (omega arith)

  -- What bursts make of the last slot.
  last_slot :
      (slots : ℕ → A)
      → memcpy
          (memcpy (memcpy slots 0 src 0 (2 ^ 31)) 0 src 0 (2 ^ 31))
          0
          src
          0
          (2 ^ 31 - 1)
          (2 ^ 31 - 1)
        ≡ src (2 ^ 31 - 1)
  last_slot slots =
      let twice : ℕ → A = memcpy (memcpy slots 0 src 0 (2 ^ 31)) 0 src 0 (2 ^ 31) in
      memcpy_above twice 0 src 0 (2 ^ 31 - 1) (2 ^ 31 - 1) (omega arith)
      ∙ memcpy_inside (memcpy slots 0 src 0 (2 ^ 31)) 0 src 0 (2 ^ 31) (2 ^ 31 - 1) (omega arith)
          (omega arith)

  -- `ring_spsc_push` can overwrite a full ring. After three bursts in and two out, a new ring of 2 ^ 31
  -- slots is full: its oldest element is the last of the second burst in, and `ring_lf_push` refuses
  -- one more. `ring_spsc_push` accepts it, and the next pop returns that element in place of the oldest.
  pub spsc_push_overruns :
      (elem_size : ℕ) (slots x : ℕ → A) (p q : ℕ)
      → let r = burst_round elem_size slots in
        (count r ≡ r.capacity)
        × ((pop r out q).2 q ≡ src (2 ^ 31 - 1))
        × ((push r x p).0 ≡ false)
        × ((spsc_push r x p).0 ≡ true)
        × ((pop (spsc_push r x p).1 out q).2 q ≡ x p)
  unfolding enqueue_burst dequeue_burst count push spsc_push pop
  spsc_push_overruns elem_size slots x p q =
      let full : ℕ → A =
        memcpy (memcpy (memcpy slots 0 src 0 (2 ^ 31)) 0 src 0 (2 ^ 31)) 0 src 0 (2 ^ 31 - 1) in
      let over : ℕ → A = memcpy full (2 ^ 31 - 1) x p 1 in
      (
        refl,
        copied out full q (2 ^ 31 - 1) ∙ last_slot slots,
        refl,
        refl,
        copied out over q (2 ^ 31 - 1) ∙ copied full x (2 ^ 31 - 1) p,
      )
