-- ===== src/Select/Call.antt =====
-- `chan_select_impl` of src/select.c, up to its return or its wait, and after the wait.
pub mod Locks
use libchan.Base.{
  ℕ, ◌+◌, ◌*◌, ◌/◌, ◌%◌, ◌^◌, ℤ, is_zero, bit_or, bit_xor, Bool, not, ◌&&◌, Option, none, some,
  List, [], ◌∷◌, ◌++◌, length, get_elem?, set, update, erase, ltb, ◌==◌, if◌then◌else◌, u32,
}
use libchan.Chan.{ChanErr, err_timeout, err_would_block, op_send, op_recv, waiter_waiting}
use libchan.Select.{Case, case_ready, execute_case_locked, sort_order, sort_order_2, lock_all}
use libchan.Select.Fast.{Store, select_fast}

-- SEL_INLINE
abbrev pub sel_inline : ℕ
sel_inline = 16

-- The thread-local variables `rr` and `rng_state`.
pub record Local : Type 0 where
  pub rr : ℕ
  pub rng_state : ℕ

-- Where the call's own objects lie: `stubs[i]`, `shared_state` and `shared_park`.
pub record Frame : Type 0 where
  pub stub : ℕ → ℕ
  pub shared_state : ℕ
  pub shared_park : ℕ

-- One step of xorshift32 on a `uint32_t`.
pub xorshift : ℕ → ℕ
xorshift x =
    let a = bit_xor x (u32 (x * 2 ^ 13)) in
    let b = bit_xor a (a / 2 ^ 17) in bit_xor b (u32 (b * 2 ^ 5))

-- The seed from `pthread_self()`, if the state is zero.
pub seed : ℕ → ℕ → ℕ
seed thread_id state = if state == 0 then bit_or (u32 thread_id) 1 else state

-- A returned index (`none` is -1), or the wait on the shared park.
pub data Verdict : Type 0 where
  index : Option ℕ → Verdict
  parked : Verdict

-- Every case gets the result `e`.
abbrev pub set_results : ChanErr → List Case → List Case
set_results e [] = []
set_results e (k ∷ ks) = record k { result = e } ∷ set_results e ks

abbrev pub set_result_at : List Case → ℕ → ChanErr → List Case
set_result_at cases i e = elim (get_elem? cases i) [
  | none ↦ cases
  | some k ↦ set cases i (record k { result = e })
]

-- The choice among the ready cases.
pub choose : ℕ → Local → List ℕ → Option ℕ × Local
choose thread_id t [] = (none, t)
choose thread_id t (i ∷ []) = (some i, t)
choose thread_id t is =
    let x = xorshift (seed thread_id t.rng_state) in
    (get_elem? is (x % length is), record t { rng_state = x })

-- The locks that the call takes, in their order: both times the same.
pub lock_order : List Case → List ℕ
lock_order cases =
    lock_all cases (if length cases == 2 then sort_order_2 cases else sort_order cases)

module _ {A : Type 0} where
  -- Pass 1: the indices of the ready cases, in order.
  pub ready_cases : Store A → List Case → ℕ → List ℕ
  ready_cases s [] i = []
  ready_cases s (k ∷ ks) i =
      if case_ready k.op (s.chan k.ch)
      then i ∷ ready_cases s ks (i + 1)
      else ready_cases s ks (i + 1)

  -- The winner runs under the locks.
  pub run_case : Store A → List Case → ℕ → List Case × Store A
  run_case s cases i = elim (get_elem? cases i) [
    | none ↦ (cases, s)
    | some k ↦
        let (e, c, w) = execute_case_locked k.op (s.chan k.ch) s.world k.buf in
        (set_result_at cases i e, record { chan = update s.chan k.ch c; world = w })
  ]

  -- Pass 2: a stub for each case, in its channel's queue; the waiter counts stay.
  abbrev pub add_stub : Frame → Store A → Case → ℕ → Store A
  add_stub f s k i =
      let c = s.chan k.ch in
      record {
        chan = update s.chan k.ch (elim k.op [
          | op_send ↦ record c { send_waiters = c.send_waiters ++ (f.stub i ∷ []) }
          | op_recv ↦ record c { recv_waiters = c.recv_waiters ++ (f.stub i ∷ []) }
        ]);
        world = record s.world {
          node = update s.world.node (f.stub i) (record {
            buf = k.buf;
            op = k.op;
            result = err_would_block;
            case_idx = some i;
            wake_park = f.shared_park;
            select_state = some f.shared_state;
          });
        };
      }

  pub register : Frame → Store A → List Case → ℕ → Store A
  register f s [] i = s
  register f s (k ∷ ks) i = register f (add_stub f s k i) ks (i + 1)

  -- `shared_state` and `shared_park` before the wait.
  abbrev pub init_shared : Frame → Store A → Store A
  init_shared f s = record s {
    world = record s.world {
      state = update s.world.state f.shared_state waiter_waiting;
      word = update s.world.word f.shared_park 0;
    };
  }

  -- The part of `chan_select_impl` under the locks.
  pub select_locked :
      Frame → ℕ → Store A → List Case → Local → ℤ → Verdict × List Case × Store A × Local
  select_locked f thread_id s cases t timeout_ns =
      let (winner, t₁) = choose thread_id t (ready_cases s cases 0) in
      elim winner [
        | some i ↦ let (cases₁, s₁) = run_case s cases i in (index (some i), cases₁, s₁, t₁)
        | none ↦
            if is_zero timeout_ns
            then (index none, set_results err_would_block cases, s, t)
            else (parked, cases, register f (init_shared f s) cases 0, t)
      ]

  -- `chan_select_impl` up to its return or its wait. `order_ok` is whether `malloc` gave the
  -- array `order`, which only more than `sel_inline` cases need.
  pub select_start :
      Frame → Bool → ℕ → Store A → List Case → Local → ℤ → Verdict × List Case × Store A × Local
  select_start f order_ok thread_id s [] t timeout_ns = (index none, [], s, t)
  select_start f order_ok thread_id s (k ∷ ks) t timeout_ns =
      let cases = k ∷ ks in
      let (o, s₁, rr) = select_fast s cases t.rr in
      let t₁ = record t { rr = rr } in
      elim o [
        | some (i, e) ↦ (index (some i), set_result_at cases i e, s₁, t₁)
        | none ↦
            if ltb sel_inline (length cases) && not order_ok
            then (index none, cases, s₁, t₁)
            else select_locked f thread_id s₁ cases t₁ timeout_ns
      ]

  -- The cleanup after the wait: a stub with a result names the winner, any other is taken out.
  pub clean_up :
      Frame → Store A → List Case → List Case → ℕ → Option ℕ → Option ℕ × List Case × Store A
  clean_up f s [] cases i winner = (winner, cases, s)
  clean_up f s (k ∷ ks) cases i winner =
      let c = s.chan k.ch in
      let s₁ = record s {
        chan = update s.chan k.ch (elim k.op [
          | op_send ↦ record c { send_waiters = erase (f.stub i) c.send_waiters }
          | op_recv ↦ record c { recv_waiters = erase (f.stub i) c.recv_waiters }
        ]);
      } in
      let e = (s.world.node (f.stub i)).result in
      elim e [
        | err_would_block ↦ clean_up f s₁ ks cases (i + 1) winner
        | other ↦ clean_up f s ks (set_result_at cases i other) (i + 1) (some i)
      ]

  -- `chan_select_impl` from the end of its wait, which was a wakeup or not.
  pub select_resume : Frame → Bool → Store A → List Case → Option ℕ × List Case × Store A
  select_resume f woken s cases =
      let (winner, cases₁, s₁) = clean_up f s cases cases 0 none in
      let failed : Option ℕ × List Case × Store A = (none, set_results err_timeout cases₁, s₁) in
      elim winner [ none ↦ failed | some i ↦ if woken then (some i, cases₁, s₁) else failed ]
