-- ===== src/Select/Fast.antt =====
-- `chan_select_fast` of src/select.c: the pass over the cases that takes no lock.
use libchan.Base.{
  ℕ, zero, suc, ◌+◌, ◌%◌, ◌^◌, Bool, false, not, ◌&&◌, Option, none, some, List, [], ◌∷◌, length,
  get_elem?, update, ◌==◌, if◌then◌else◌,
}
use libchan.Ring
use libchan.Chan.{ChanErr, chan_ok, err_closed, ChanOp, op_send, op_recv, World, Chan}
use libchan.Select.{Case}

-- The channels by address, and the memory.
pub record Store (A : Type 0) : Type 0 where
  pub chan : ℕ → Chan A
  pub world : World A

module _ {A : Type 0} where
  -- Both waiter counts are zero.
  abbrev pub quiet : Chan A → Bool
  quiet c = c.send_waiter_cnt == 0 && c.recv_waiter_cnt == 0

  abbrev pub drained : ChanOp → Chan A → Bool
  drained op_send c = false
  drained op_recv c = c.closed && (quiet c && Ring.is_empty c.ring)

  -- Step 1: the first RECV case on a channel that is closed and empty.
  pub first_drained : Store A → List Case → ℕ → Option ℕ
  first_drained s [] i = none
  first_drained s (k ∷ ks) i =
      if drained k.op (s.chan k.ch) then some i else first_drained s ks (i + 1)

  -- Step 2 on one case: its result, or `none` to go on.
  pub fast_case : Store A → Case → Option ChanErr × Store A
  fast_case s k =
      let c = s.chan k.ch in
      let (sent, ring_s) = Ring.push c.ring s.world.cell k.buf in
      let (got, ring_r, cell) = Ring.pop c.ring s.world.cell k.buf in
      if c.capacity == 0 then (none, s) else if not (quiet c) then (none, s) else elim k.op [
        | op_send ↦
            if c.closed
            then (some err_closed, s)
            else if sent
            then (some chan_ok, record s { chan = update s.chan k.ch (record c { ring = ring_s }) })
            else (none, s)
        | op_recv ↦
            if got
            then (
              some chan_ok,
              record {
                chan = update s.chan k.ch (record c { ring = ring_r });
                world = record s.world { cell = cell };
              },
            )
            else (none, s)
      ]

  -- The loop of step 2: the case tried in the round `j` has index `(start + j) % n`.
  pub fast_rounds : ℕ → Store A → List Case → ℕ → ℕ → Option (ℕ × ChanErr) × Store A
  fast_rounds zero s cases start j = (none, s)
  fast_rounds (suc left) s cases start j =
      let i = (start + j) % length cases in
      let rest = fast_rounds left s cases start (j + 1) in
      elim (get_elem? cases i) [
        | none ↦ (none, s)
        | some k ↦
            let (o, s₁) = fast_case s k in elim o [ some e ↦ (some (i, e), s₁) | none ↦ rest ]
      ]

  -- `chan_select_fast`: the winning case with its result, and the thread's next `rr` (a `size_t`).
  pub select_fast : Store A → List Case → ℕ → Option (ℕ × ChanErr) × Store A × ℕ
  select_fast s cases rr = elim (first_drained s cases 0) [
    | some i ↦ (some (i, err_closed), s, rr)
    | none ↦
        let (o, s₁) = fast_rounds (length cases) s cases (rr % length cases) 0 in
        (o, s₁, (rr + 1) % 2 ^ 64)
  ]
