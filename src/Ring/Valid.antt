-- ===== src/Ring/Valid.antt =====
-- The shape of a ring, its contents, and when no operation is under way on it.
use libchan.Base.{
  ℕ, ◌+◌, ◌-◌, ◌%◌, ◌^◌, ◌≤◌, ◌<◌, bit_and, ◌≡◌, sym, ap, ◌∙◌, List, [], length, tabulate,
  length-tabulate, bit_and-mask, sub32, subst, two-pow-dvd, arith,
}
use Prim.Native.Nat.{◌∣◌}
use native.Mathlib.Nat.{one-le-pow, pow-le-pow_right, mod-lt}
use libchan.Ring.{Ring}

-- What `ring_lf_init` fixes: the capacity is a power of two that fits a `uint32_t`.
pub record HasShape {A : Type 0} (r : Ring A) : Type 0 where
  pub bits : ℕ
  pub bits_le : bits ≤ 31
  pub capacity_lem : r.capacity ≡ 2 ^ bits
  pub mask_lem : r.mask ≡ r.capacity - 1

-- No reservation is open, and the cursors lie at most `capacity` apart.
pub record IsValid {A : Type 0} (r : Ring A) : Type 0 where
  pub shape : HasShape r
  pub prod_done : r.prod_head ≡ r.prod_tail
  pub cons_done : r.cons_head ≡ r.cons_tail
  pub prod_lt : r.prod_head < 2 ^ 32
  pub cons_lt : r.cons_head < 2 ^ 32
  pub fits : sub32 r.prod_head r.cons_head ≤ r.capacity

module _ {A : Type 0} where
  -- The element in the slot that a cursor value names.
  abbrev pub slot_at : Ring A → ℕ → A
  slot_at r x = r.slots (x % r.capacity)

  -- The committed elements that no consumer has taken, oldest first.
  abbrev pub contents : Ring A → List A
  contents r = tabulate (sub32 r.prod_tail r.cons_head) (λ j. slot_at r (r.cons_head + j))

  pub capacity-pos : {r : Ring A} → HasShape r → 0 < r.capacity
  capacity-pos h = omega (arith, h.capacity_lem, one-le-pow h.bits 2 (omega arith))

  pub capacity-le : {r : Ring A} → HasShape r → r.capacity ≤ 2 ^ 31
  capacity-le h = omega (
    arith,
    h.capacity_lem,
    pow-le-pow_right {n = 2} (omega arith) {i = h.bits} {j = 31} h.bits_le,
  )

  pub capacity-dvd : {r : Ring A} → HasShape r → r.capacity ∣ 2 ^ 32
  capacity-dvd h =
      subst (λ (t : ℕ). t ∣ 2 ^ 32) (sym h.capacity_lem) (two-pow-dvd h.bits 32 (omega arith))

  -- Masking a cursor gives its slot, which lies in the allocation.
  pub slot-eq : {r : Ring A} → HasShape r → (x : ℕ) → bit_and x r.mask ≡ x % r.capacity
  slot-eq {r} h x =
      ap (bit_and x) (omega (arith, h.mask_lem, h.capacity_lem))
      ∙ bit_and-mask h.bits x
      ∙ ap (λ (t : ℕ). x % t) (sym h.capacity_lem)

  pub slot-lt : {r : Ring A} → HasShape r → (x : ℕ) → x % r.capacity < r.capacity
  slot-lt h x = mod-lt x (capacity-pos h)

  pub length-contents :
      {r : Ring A} → IsValid r → length (contents r) ≡ sub32 r.prod_head r.cons_head
  length-contents {r} v =
      length-tabulate _ _ ∙ ap (λ (t : ℕ). sub32 t r.cons_head) (sym v.prod_done)

  -- The private caches play no part in it.
  pub recache-IsValid :
      {r : Ring A} (x y : ℕ)
      → IsValid r
      → IsValid (record r { cached_cons_tail = x; cached_prod_tail = y })
  recache-IsValid x y v = record {
    shape = record {
      bits = v.shape.bits;
      bits_le = v.shape.bits_le;
      capacity_lem = v.shape.capacity_lem;
      mask_lem = v.shape.mask_lem;
    };
    prod_done = v.prod_done;
    cons_done = v.cons_done;
    prod_lt = v.prod_lt;
    cons_lt = v.cons_lt;
    fits = v.fits;
  }

  pub contents-nil : {r : Ring A} → IsValid r → sub32 r.prod_head r.cons_head ≡ 0 → contents r ≡ []
  contents-nil {r} v e =
      ap (λ (n : ℕ). tabulate n (λ j. slot_at r (r.cons_head + j))) {y = 0}
        (omega (arith, v.prod_done))
