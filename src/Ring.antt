-- ===== src/Ring.antt =====
-- src/ring_lf.c and src/ring_lf.h: the ring of slots behind a buffered channel, and the helpers
-- over it in src/libchan_internal.h. A slot holds one element; `memcpy` counts elements where
-- the code counts `elem_size` bytes for each.
mod Tests
pub mod Valid
pub mod Runs
pub mod Burst
pub mod Pow2
pub mod Init
pub mod Push
pub mod Spsc
pub mod Overrun
pub mod Levels
pub mod Threads
use libchan.Base.{
  ℕ, ◌+◌, ◌-◌, ◌*◌, ◌/◌, ◌%◌, ◌^◌, bit_and, bit_or, Bool, true, false, ◌||◌, Option, none, some,
  ltb, leb, ◌==◌, if◌then◌else◌, add32, sub32, u32, memcpy,
}

-- `chan_ring_lf_t`: the cursors of both sides, `uint32_t` each, and the slots.
pub record Ring (A : Type 0) : Type 0 where
  pub prod_head : ℕ
  pub prod_tail : ℕ
  pub cached_cons_tail : ℕ
  pub cons_head : ℕ
  pub cons_tail : ℕ
  pub cached_prod_tail : ℕ
  pub mask : ℕ
  pub capacity : ℕ
  pub elem_size : ℕ
  pub slots : ℕ → A

-- `n |= n >> s`
unfoldable pub or_shift : ℕ → ℕ → ℕ
or_shift s n = bit_or n (n / 2 ^ s)

unfoldable pub smear : ℕ → ℕ
smear n = or_shift 16 (or_shift 8 (or_shift 4 (or_shift 2 (or_shift 1 n))))

unfoldable pub next_pow2 : ℕ → ℕ
next_pow2 n = if n == 0 then 1 else add32 (smear (n - 1)) 1

-- `(int32_t)(a - b) >= 0`
abbrev pub not_before : ℕ → ℕ → Bool
not_before a b = ltb (sub32 a b) (2 ^ 31)

module _ {A : Type 0} where
  abbrev pub fresh : ℕ → ℕ → (ℕ → A) → Ring A
  fresh actual elem_size slots = record {
    prod_head = 0;
    prod_tail = 0;
    cached_cons_tail = 0;
    cons_head = 0;
    cons_tail = 0;
    cached_prod_tail = 0;
    mask = actual - 1;
    capacity = actual;
    elem_size = elem_size;
    slots = slots;
  }

  -- `ring_lf_init`. `malloc` is the C library's: asked for a number of bytes it gives memory with
  -- some contents, or nothing. The product of two `size_t` wraps.
  unfoldable pub init : (ℕ → Option (ℕ → A)) → ℕ → ℕ → Option (Ring A)
  init malloc cap elem_size =
      if cap == 0 || elem_size == 0
      then none
      else let actual = next_pow2 (u32 cap) in
        elim (malloc (actual * elem_size % 2 ^ 64)) [
          | none ↦ none
          | some slots ↦ some (fresh actual elem_size slots)
        ]

  -- Phase 1 of `ring_lf_push`: the full test, and the compare-exchange that takes the slot.
  abbrev pub push_reserve : Ring A → Option (ℕ × Ring A)
  push_reserve r =
      if leb r.capacity (sub32 r.prod_head r.cons_tail)
      then none
      else some (r.prod_head, record r { prod_head = add32 r.prod_head 1 })

  -- Phase 2: the element at index `p` of `data` goes into the slot.
  abbrev pub push_write : ℕ → (ℕ → A) → ℕ → Ring A → Ring A
  push_write ph src p r = record r { slots = memcpy r.slots (bit_and ph r.mask) src p 1 }

  -- Phase 3, once `prod.tail` has come up to `ph`.
  abbrev pub push_commit : ℕ → Ring A → Ring A
  push_commit ph r = record r { prod_tail = add32 ph 1 }

  pub push : Ring A → (ℕ → A) → ℕ → Bool × Ring A
  push r src p = elim (push_reserve r) [
    | none ↦ (false, r)
    | some (ph, r₁) ↦ (true, push_commit ph (push_write ph src p r₁))
  ]

  -- Phase 1 of `ring_lf_pop`.
  abbrev pub pop_reserve : Ring A → Option (ℕ × Ring A)
  pop_reserve r =
      if r.prod_tail == r.cons_head
      then none
      else some (r.cons_head, record r { cons_head = add32 r.cons_head 1 })

  -- Phase 2: the slot's element goes to index `p` of `out`.
  abbrev pub pop_read : ℕ → Ring A → (ℕ → A) → ℕ → ℕ → A
  pop_read ch r out p = memcpy out p r.slots (bit_and ch r.mask) 1

  -- Phase 3, once `cons.tail` has come up to `ch`.
  abbrev pub pop_commit : ℕ → Ring A → Ring A
  pop_commit ch r = record r { cons_tail = add32 ch 1 }

  pub pop : Ring A → (ℕ → A) → ℕ → Bool × Ring A × (ℕ → A)
  pop r out p = elim (pop_reserve r) [
    | none ↦ (false, r, out)
    | some (ch, r₁) ↦ (true, pop_commit ch r₁, pop_read ch r₁ out p)
  ]

  -- The two copies of a run of `k` elements that may cross the end of the slots.
  abbrev pub write_run : (ℕ → A) → ℕ → ℕ → (ℕ → A) → ℕ → ℕ → ℕ → A
  write_run slots capacity idx src p k =
      let first = capacity - idx in
      if leb k first
      then memcpy slots idx src p k
      else memcpy (memcpy slots idx src p first) 0 src (p + first) (k - first)

  abbrev pub read_run : (ℕ → A) → ℕ → ℕ → (ℕ → A) → ℕ → ℕ → ℕ → A
  read_run slots capacity idx out p k =
      let first = capacity - idx in
      if leb k first
      then memcpy out p slots idx k
      else memcpy (memcpy out p slots idx first) (p + first) slots 0 (k - first)

  -- `ring_lf_enqueue_burst`: how many elements went in, and the ring.
  pub enqueue_burst : Ring A → (ℕ → A) → ℕ → ℕ → ℕ × Ring A
  enqueue_burst r src p n =
      let ph = r.prod_head in
      let free_entries = sub32 r.capacity (sub32 ph r.cons_tail) in
      let k = if ltb n free_entries then n else free_entries in
      if n == 0 then (0, r) else if free_entries == 0 then (0, r) else (
        k,
        record r {
          prod_head = add32 ph k;
          slots = write_run r.slots r.capacity (bit_and ph r.mask) src p k;
          prod_tail = add32 ph k;
        },
      )

  -- `ring_lf_dequeue_burst`
  pub dequeue_burst : Ring A → (ℕ → A) → ℕ → ℕ → ℕ × Ring A × (ℕ → A)
  dequeue_burst r out p n =
      let ch = r.cons_head in
      let avail = sub32 r.prod_tail ch in
      let k = if ltb n avail then n else avail in
      if n == 0 then (0, r, out) else if avail == 0 then (0, r, out) else (
        k,
        record r { cons_head = add32 ch k; cons_tail = add32 ch k },
        read_run r.slots r.capacity (bit_and ch r.mask) out p k,
      )

  -- `ring_lf_count`, `ring_full` and `ring_empty`
  pub count : Ring A → ℕ
  count r = sub32 r.prod_tail r.cons_head

  pub is_full : Ring A → Bool
  is_full r = leb r.capacity (sub32 r.prod_head r.cons_tail)

  pub is_empty : Ring A → Bool
  is_empty r = r.prod_tail == r.cons_head

  -- The end of `ring_spsc_push`, past its full test.
  abbrev pub spsc_put : Ring A → (ℕ → A) → ℕ → Bool × Ring A
  spsc_put r src p = (
    true,
    record r {
      slots = memcpy r.slots (bit_and r.prod_head r.mask) src p 1;
      prod_tail = add32 r.prod_head 1;
      prod_head = add32 r.prod_head 1;
    },
  )

  -- `ring_spsc_push`: the hot cursor is read only where the private cache says "maybe full".
  pub spsc_push : Ring A → (ℕ → A) → ℕ → Bool × Ring A
  spsc_push r src p =
      let r₁ = record r { cached_cons_tail = r.cons_tail } in
      if leb r.capacity (sub32 r.prod_head r.cached_cons_tail)
      then if leb r.capacity (sub32 r.prod_head r.cons_tail) then (false, r₁) else spsc_put r₁ src p
      else spsc_put r src p

  abbrev pub spsc_take : Ring A → (ℕ → A) → ℕ → Bool × Ring A × (ℕ → A)
  spsc_take r out p = (
    true,
    record r { cons_tail = add32 r.cons_head 1; cons_head = add32 r.cons_head 1 },
    memcpy out p r.slots (bit_and r.cons_head r.mask) 1,
  )

  -- `ring_spsc_pop`
  pub spsc_pop : Ring A → (ℕ → A) → ℕ → Bool × Ring A × (ℕ → A)
  spsc_pop r out p =
      let r₁ = record r { cached_prod_tail = r.prod_tail } in
      if not_before r.cons_head r.cached_prod_tail
      then if not_before r.cons_head r.prod_tail then (false, r₁, out) else spsc_take r₁ out p
      else spsc_take r out p
