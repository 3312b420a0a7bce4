-- ===== src/Ring/Burst.antt =====
-- What `ring_lf_enqueue_burst` and `ring_lf_dequeue_burst` do to the contents of a ring.
use libchan.Base.{
  ℕ, ◌+◌, ◌-◌, ◌%◌, ◌≤◌, ◌<◌, min, bit_and, ◌≡◌, refl, sym, ap, ◌∙◌, ◌⊎◌, inl, inr, ◌++◌, length,
  tabulate, tabulate-congr, tabulate-add, append-nil, u32-mod, u32-mod_zero, sub32, add32, arith,
}
use native.Mathlib.Nat.{mod-add-mod}
use libchan.Ring.{Ring, write_run, read_run, enqueue_burst, dequeue_burst}
use libchan.Ring.Valid.{
  IsValid, slot_at, contents, capacity-pos, capacity-le, capacity-dvd, slot-eq, slot-lt,
  length-contents,
}
use libchan.Ring.Runs.{tabulate-write_run, read_run_inside, read_run_outside}

module _ {A : Type 0} where
  -- How many elements lie between the cursors.
  abbrev pub size : Ring A → ℕ
  size r = sub32 r.prod_head r.cons_head

  -- The ring with `k` elements of `src` behind those that it holds.
  abbrev pub enqueued : Ring A → (ℕ → A) → ℕ → ℕ → Ring A
  enqueued r src p k = record r {
    prod_head = add32 r.prod_head k;
    slots = write_run r.slots r.capacity (bit_and r.prod_head r.mask) src p k;
    prod_tail = add32 r.prod_head k;
  }

  -- The ring without its `k` oldest elements.
  abbrev pub dequeued : Ring A → ℕ → Ring A
  dequeued r k = record r { cons_head = add32 r.cons_head k; cons_tail = add32 r.cons_head k }

  pub prod-slot :
      {r : Ring A} → IsValid r → bit_and r.prod_head r.mask ≡ (r.cons_head + size r) % r.capacity
  prod-slot {r} v =
      slot-eq v.shape r.prod_head
      ∙ ap (λ (t : ℕ). t % r.capacity) (omega (arith, v.prod_lt, v.cons_lt))
      ∙ u32-mod_zero (r.cons_head + size r) r.capacity (capacity-dvd v.shape)

  pub cons-slot-lt : {r : Ring A} → IsValid r → bit_and r.cons_head r.mask < r.capacity
  cons-slot-lt {r} v = rw (slot-eq v.shape r.cons_head) (slot-lt v.shape r.cons_head)

  pub cons-slot_step :
      {r : Ring A}
      → IsValid r
      → (j : ℕ) → (bit_and r.cons_head r.mask + j) % r.capacity ≡ (r.cons_head + j) % r.capacity
  cons-slot_step {r} v j =
      ap (λ (t : ℕ). (t + j) % r.capacity) (slot-eq v.shape r.cons_head)
      ∙ mod-add-mod r.cons_head r.capacity j

  pub enqueued-IsValid :
      {r : Ring A} (src : ℕ → A) (p k : ℕ)
      → IsValid r
      → size r + k ≤ r.capacity
      → IsValid (enqueued r src p k)
  enqueued-IsValid src p k v h = record {
    shape = record {
      bits = v.shape.bits;
      bits_le = v.shape.bits_le;
      capacity_lem = v.shape.capacity_lem;
      mask_lem = v.shape.mask_lem;
    };
    prod_done = refl;
    cons_done = v.cons_done;
    prod_lt = omega arith;
    cons_lt = v.cons_lt;
    fits = omega (arith, v.prod_lt, v.cons_lt, h, capacity-le v.shape);
  }

  pub contents-enqueued :
      {r : Ring A} (src : ℕ → A) (p k : ℕ)
      → IsValid r
      → size r + k ≤ r.capacity
      → contents (enqueued r src p k) ≡ contents r ++ tabulate k (λ j. src (p + j))
  contents-enqueued {r} src p k v h =
      ap (λ (n : ℕ). tabulate n (λ j. (enqueued r src p k).slots ((r.cons_head + j) % r.capacity)))
        longer
      ∙ ap
          (λ (i : ℕ).
            tabulate (size r + k)
              (λ j. write_run r.slots r.capacity i src p k ((r.cons_head + j) % r.capacity)))
          (prod-slot v)
      ∙ tabulate-write_run r.slots r.capacity src p r.cons_head (size r) k (capacity-pos v.shape) h
      ∙ ap
          (λ (t : ℕ).
            tabulate (sub32 t r.cons_head) (λ j. slot_at r (r.cons_head + j))
            ++ tabulate k (λ j. src (p + j)))
          v.prod_done
    where
      longer : sub32 (add32 r.prod_head k) r.cons_head ≡ size r + k
      longer = omega (arith, v.prod_lt, v.cons_lt, h, capacity-le v.shape)

  pub dequeued-IsValid : {r : Ring A} (k : ℕ) → IsValid r → k ≤ size r → IsValid (dequeued r k)
  dequeued-IsValid k v h = record {
    shape = record {
      bits = v.shape.bits;
      bits_le = v.shape.bits_le;
      capacity_lem = v.shape.capacity_lem;
      mask_lem = v.shape.mask_lem;
    };
    prod_done = v.prod_done;
    cons_done = refl;
    prod_lt = v.prod_lt;
    cons_lt = omega arith;
    fits = omega (arith, v.prod_lt, v.cons_lt, h, v.fits);
  }

  pub contents-dequeued :
      {r : Ring A} (k : ℕ)
      → IsValid r
      → k ≤ size r
      → contents r ≡ tabulate k (λ j. slot_at r (r.cons_head + j)) ++ contents (dequeued r k)
  contents-dequeued {r} k v h =
      ap (λ (n : ℕ). tabulate n (λ j. slot_at r (r.cons_head + j))) split
      ∙ tabulate-add k (sub32 r.prod_tail (add32 r.cons_head k)) _
      ∙ ap (λ t. tabulate k (λ j. slot_at r (r.cons_head + j)) ++ t)
          (tabulate-congr (sub32 r.prod_tail (add32 r.cons_head k)) _ _
            (λ j lt. ap r.slots (moved j)))
    where
      split : sub32 r.prod_tail r.cons_head ≡ k + sub32 r.prod_tail (add32 r.cons_head k)
      split = omega (arith, v.prod_done, v.prod_lt, v.cons_lt, h)

      moved :
          (j : ℕ) → (r.cons_head + (k + j)) % r.capacity ≡ (add32 r.cons_head k + j) % r.capacity
      moved j =
          ap (λ (t : ℕ). t % r.capacity) (omega arith)
          ∙ sym (u32-mod (r.cons_head + k) j r.capacity (capacity-dvd v.shape))

  -- How many elements a burst of `n` may put into the ring, or take from it.
  abbrev pub room : Ring A → ℕ → ℕ
  room r n = min n (r.capacity - size r)

  abbrev pub avail : Ring A → ℕ → ℕ
  avail r n = min n (size r)

  pub enqueue_burst-enqueued :
      {r : Ring A} (src : ℕ → A) (p n : ℕ)
      → IsValid r
      → ((enqueue_burst r src p n ≡ (0, r)) × (room r n ≡ 0))
        ⊎ ((enqueue_burst r src p n ≡ (room r n, enqueued r src p (room r n))) × (0 < room r n))
  unfolding enqueue_burst
  enqueue_burst-enqueued {r} src p n v = ground (arith, capacity-le v.shape)

  pub dequeue_burst-dequeued :
      {r : Ring A} (out : ℕ → A) (p n : ℕ)
      → IsValid r
      → ((dequeue_burst r out p n ≡ (0, r, out)) × (avail r n ≡ 0))
        ⊎ ((dequeue_burst r out p n ≡ (
          avail r n,
          dequeued r (avail r n),
          read_run r.slots r.capacity (bit_and r.cons_head r.mask) out p (avail r n),
        ))
            × (0 < avail r n))
  unfolding dequeue_burst
  dequeue_burst-dequeued {r} out p n v = ground (arith, capacity-le v.shape)

  -- On a ring with no operation under way, `ring_lf_enqueue_burst` moves as many of the `n`
  -- elements as there are free slots, appends exactly those to the contents, in order and across
  -- the end of the slots, and leaves the ring valid.
  pub enqueue_burst_appends :
      {r : Ring A} (src : ℕ → A) (p n : ℕ)
      → IsValid r
      → let (k, r') = enqueue_burst r src p n in
        (k ≡ min n (r.capacity - length (contents r)))
        × (contents r' ≡ contents r ++ tabulate k (λ j. src (p + j)))
        × IsValid r'
  enqueue_burst_appends {r} src p n v = elim (enqueue_burst-enqueued src p n v) [
    | inl (e, z) ↦ rw e (omega (arith, length-contents v, z), sym (append-nil (contents r)), v)
    | inr (e, _) ↦ rw e (
      omega (arith, length-contents v),
      contents-enqueued src p (room r n) v (omega (arith, v.fits)),
      enqueued-IsValid src p (room r n) v (omega (arith, v.fits)),
    )
  ]

  -- On a ring with no operation under way, `ring_lf_dequeue_burst` moves as many elements as are
  -- wanted and there, the oldest first and in order, into the cells from `p` on, keeps the rest of
  -- the contents, and leaves the ring valid.
  pub dequeue_burst_takes :
      {r : Ring A} (out : ℕ → A) (p n : ℕ)
      → IsValid r
      → let (k, r', out') = dequeue_burst r out p n in
        (k ≡ min n (length (contents r)))
        × (tabulate k (λ j. out' (p + j)) ++ contents r' ≡ contents r)
        × IsValid r'
  dequeue_burst_takes {r} out p n v = elim (dequeue_burst-dequeued out p n v) [
    | inl (e, z) ↦ rw e (omega (arith, length-contents v, z), refl, v)
    | inr (e, _) ↦ rw e (
      omega (arith, length-contents v),
      ap (λ t. t ++ contents (dequeued r (avail r n))) (tabulate-congr (avail r n) _ _ moved)
          ∙ sym (contents-dequeued (avail r n) v (omega arith)),
      dequeued-IsValid (avail r n) v (omega arith),
    )
  ]
    where
      moved :
          (j : ℕ)
          → j < avail r n
          → read_run r.slots r.capacity (bit_and r.cons_head r.mask) out p (avail r n) (p + j)
            ≡ slot_at r (r.cons_head + j)
      moved j lt =
          read_run_inside r.slots r.capacity (bit_and r.cons_head r.mask) out p (avail r n) j
            (cons-slot-lt v) (omega (arith, v.fits)) lt
          ∙ ap r.slots (cons-slot_step v j)

  -- `ring_lf_dequeue_burst` on a ring with no operation under way writes no cell of `out` outside
  -- the elements that it moves.
  pub dequeue_burst_leaves :
      {r : Ring A} (out : ℕ → A) (p n q : ℕ)
      → IsValid r
      → (q < p) ⊎ (p + (dequeue_burst r out p n).0 ≤ q)
      → (dequeue_burst r out p n).2 q ≡ out q
  dequeue_burst_leaves {r} out p n q v o = elim (dequeue_burst-dequeued out p n v) [
    | inl (e, _) ↦ rw e
    | inr (e, _) ↦ rw e (
        read_run_outside r.slots r.capacity (bit_and r.cons_head r.mask) out p (avail r n) q
          (cons-slot-lt v) (omega (arith, v.fits)) (rw e at o))
  ]
