-- ===== src/Park/Spin.antt =====
-- src/util.c: the pause between two looks.
use libchan.Base.{ℕ, ltb, if◌then◌else◌}

-- What the thread does: an instruction that the processor takes as a hint, or a system call.
pub data Hint : Type 0 where
  pause sched_yield : Hint

-- `chan_spin_hint`
unfoldable pub spin_hint : ℕ → Hint
spin_hint iteration = if ltb iteration 8 then pause else sched_yield
