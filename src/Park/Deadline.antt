-- ===== src/Park/Deadline.antt =====
-- src/park.c without LIBCHAN_USE_FUTEX: the time up to which a wait waits.
use libchan.Base.{
  ℕ, ◌+◌, ◌*◌, ◌%◌, ◌<◌, leb, if_true, if_false, Bool-cases, ◌≡◌, sym, subst, inl, inr, arith,
}
use libchan.Park.Times.{Timespec, billion}
use libchan.Park.Pthread

-- The deadline of the wait on the condition variable is the time of day and the timeout added up, in
-- nanoseconds, and a time that `pthread_cond_timedwait` accepts, its nanoseconds being fewer than a
-- second.
pub deadline-lem :
    (now : Timespec) (n : ℕ)
    → now.tv_nsec < billion
    → let abs = Pthread.deadline now n in
      (abs.tv_nsec < billion)
      × (abs.tv_sec * billion + abs.tv_nsec ≡ now.tv_sec * billion + now.tv_nsec + n)
unfolding Pthread.deadline
deadline-lem now n h = elim (Bool-cases (leb billion (now.tv_nsec + n % billion))) [
  | inl e ↦ subst Sums (sym (if_true _ _ e)) (ground arith, ground arith)
  | inr e ↦ subst Sums (sym (if_false _ _ e)) (ground arith, ground arith)
]
  where
    Sums : Timespec → Type 0
    Sums abs =
        (abs.tv_nsec < billion)
        × (abs.tv_sec * billion + abs.tv_nsec ≡ now.tv_sec * billion + now.tv_nsec + n)
