-- ===== src/Select.antt =====
-- src/select.c: the order of locks, readiness, and the execution of one case under the locks. The
-- lock-free pass is `Select.Fast`, and the whole call `Select.Call`.
mod Tests
pub mod Exec
pub mod Fast
pub mod Call
use libchan.Base.{
  ℕ, zero, suc, ◌+◌, Bool, true, false, not, ◌&&◌, ◌||◌, Option, none, some, List, [], ◌∷◌, ◌++◌,
  length, get_elem?, set, ltb, ◌==◌, if◌then◌else◌,
}
use libchan.Ring
use libchan.Chan.{
  ChanErr, chan_ok, err_closed, err_would_block, ChanOp, op_send, op_recv, World, Chan, finish,
  copy, pop_claimed,
}

-- `chan_select_case_t`: `ch` is the channel's address, and `buf` is `data`.
pub record Case : Type 0 where
  pub ch : ℕ
  pub op : ChanOp
  pub buf : ℕ
  pub result : ChanErr

-- The channel that a case in the array names; past the end no code reads.
abbrev pub ch_of : List Case → ℕ → ℕ
ch_of cases i = elim (get_elem? cases i) [ none ↦ 0 | some c ↦ c.ch ]

-- The inner loop of `sort_order`. The list is `order[j-1]` down to `order[0]`.
abbrev pub insert_order : List Case → ℕ → List ℕ → List ℕ
insert_order cases key [] = key ∷ []
insert_order cases key (x ∷ xs) =
    if ltb (ch_of cases key) (ch_of cases x) then x ∷ insert_order cases key xs else key ∷ x ∷ xs

-- The outer loop: `i` runs up, over the part that is sorted, last first.
abbrev pub sort_rounds : List Case → ℕ → ℕ → List ℕ → List ℕ
sort_rounds cases zero i sorted = sorted
sort_rounds cases (suc left) i sorted = sort_rounds cases left (i + 1) (insert_order cases i sorted)

abbrev pub reverse_onto : List ℕ → List ℕ → List ℕ
reverse_onto [] ys = ys
reverse_onto (x ∷ xs) ys = reverse_onto xs (x ∷ ys)

-- `sort_order`
pub sort_order : List Case → List ℕ
sort_order cases = reverse_onto (sort_rounds cases (length cases) 0 []) []

-- `sort_order_2`
pub sort_order_2 : List Case → List ℕ
sort_order_2 cases = if ltb (ch_of cases 1) (ch_of cases 0) then 1 ∷ 0 ∷ [] else 0 ∷ 1 ∷ []

-- The channels that `lock_all` and `unlock_all` go through, in their order: `prev` is the
-- channel of the index before.
abbrev pub lock_from : List Case → ℕ → List ℕ → List ℕ
lock_from cases prev [] = []
lock_from cases prev (i ∷ is) =
    if ch_of cases i == prev
    then lock_from cases (ch_of cases i) is
    else ch_of cases i ∷ lock_from cases (ch_of cases i) is

pub lock_all : List Case → List ℕ → List ℕ
lock_all cases [] = []
lock_all cases (i ∷ is) = ch_of cases i ∷ lock_from cases (ch_of cases i) is

-- `waitq_empty`
abbrev pub is_nil : List ℕ → Bool
is_nil [] = true
is_nil (_ ∷ _) = false

module _ {A : Type 0} where
  -- `case_ready`
  pub case_ready : ChanOp → Chan A → Bool
  case_ready op_send c =
      if c.closed
      then false
      else if c.capacity == 0
      then not (is_nil c.recv_waiters)
      else not (Ring.is_full c.ring) || not (is_nil c.recv_waiters)
  case_ready op_recv c =
      if c.capacity == 0
      then not (is_nil c.send_waiters) || c.closed
      else not (Ring.is_empty c.ring) || (not (is_nil c.send_waiters) || c.closed)

  -- A receiver is handed the element at `p` directly; without one, `otherwise`.
  abbrev pub hand_over :
      Chan A
      → World A
      → ℕ
      → (Chan A → World A → ChanErr × Chan A × World A)
      → ChanErr × Chan A × World A
  hand_over c w p otherwise =
      let (o, rest, w₁) = pop_claimed c.recv_waiters w in
      let c₁ = record c { recv_waiters = rest } in
      elim o [
        | some r ↦ (chan_ok, c₁, finish (copy w₁ (w₁.node r).buf p) r chan_ok)
        | none ↦ otherwise c₁ w₁
      ]

  -- A sender hands over its element into the cell `p`.
  abbrev pub take_over :
      Chan A
      → World A
      → ℕ
      → (Chan A → World A → ChanErr × Chan A × World A)
      → ChanErr × Chan A × World A
  take_over c w p otherwise =
      let (o, rest, w₁) = pop_claimed c.send_waiters w in
      let c₁ = record c { send_waiters = rest } in
      elim o [
        | some s ↦ (chan_ok, c₁, finish (copy w₁ p (w₁.node s).buf) s chan_ok)
        | none ↦ otherwise c₁ w₁
      ]

  -- The SEND case that goes through the ring: the result of the push is not looked at, and a
  -- receiver that is claimed gets its result and wakeup, but no element.
  pub send_ring : Chan A → World A → ℕ → ChanErr × Chan A × World A
  send_ring c w p =
      let (_, ring) = Ring.push c.ring w.cell p in
      let (o, rest, w₁) = pop_claimed c.recv_waiters w in
      (
        chan_ok,
        record c { ring = ring; recv_waiters = rest },
        (elim o [ none ↦ w₁ | some r ↦ finish w₁ r chan_ok ]),
      )

  -- The RECV case that goes through the ring: a sender's element takes the free slot.
  pub recv_ring : Chan A → World A → ℕ → ChanErr × Chan A × World A
  recv_ring c w p =
      let (_, ring, cell) = Ring.pop c.ring w.cell p in
      let (o, rest, w₁) = pop_claimed c.send_waiters (record w { cell = cell }) in
      elim o [
        | none ↦ (chan_ok, record c { ring = ring; send_waiters = rest }, w₁)
        | some s ↦
            let (_, ring₁) = Ring.push ring w₁.cell (w₁.node s).buf in
            (chan_ok, record c { ring = ring₁; send_waiters = rest }, finish w₁ s chan_ok)
      ]

  -- What is left when no partner was found.
  abbrev pub closed_or_block : Chan A → World A → ChanErr × Chan A × World A
  closed_or_block c w = (if c.closed then err_closed else err_would_block, c, w)

  -- `execute_case_locked`
  pub execute_case_locked : ChanOp → Chan A → World A → ℕ → ChanErr × Chan A × World A
  execute_case_locked op_send c w p =
      if c.capacity == 0
      then hand_over c w p (λ c₁ w₁. (err_would_block, c₁, w₁))
      else if not (is_nil c.recv_waiters) && Ring.is_empty c.ring
      then hand_over c w p (λ c₁ w₁. send_ring c₁ w₁ p)
      else send_ring c w p
  execute_case_locked op_recv c w p =
      if c.capacity == 0
      then take_over c w p closed_or_block
      else if Ring.is_empty c.ring
      then take_over c w p closed_or_block
      else recv_ring c w p
