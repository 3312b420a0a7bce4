-- ===== src/Park/Pthread.antt =====
-- src/park.c without LIBCHAN_USE_FUTEX: a thread in `chan_park_wait` and one in `chan_park_wake`, one
-- call on the mutex or the condition variable, or one access to the flag, at a time.
use libchan.Base.{
  ℕ, zero, suc, ◌+◌, ◌-◌, ◌/◌, ◌%◌, Bool, true, false, Option, none, some, List, [], ◌∷◌, leb,
  if◌then◌else◌, ℤ, is_zero, is_neg, pos, negsuc,
}
use libchan.Park.Times.{Timespec, billion}
use libchan.Park.Schedule.{Event, waits, wakes, interrupts, times_out}

-- What the thread library does, which is not code of this one: whether a lock of a mutex that is held,
-- or free, has to wait; whether the only thread that waits for a condition waits on after a signal; and
-- whether a wait up to this time, or with none, may end in ETIMEDOUT.
pub record Threads : Type 0 where
  pub blocks : Bool → Bool
  pub waits_on : Bool
  pub expires : Option Timespec → Bool

-- Where a thread stands in `chan_park_wait`. It holds the mutex from `peeking` to `unlocking`, from
-- `testing` to `starting`, and in `ending` and `leaving`.
pub data Place : Type 0 where
  locking : ℕ → Place  -- before a lock, with this many rounds of the spin loop left
  peeking : ℕ → Place  -- before it reads the flag
  unlocking : ℕ → Bool → Place  -- in the spin loop, with `s` read
  testing : Place  -- before the test of a `while` loop
  starting : Place  -- before `pthread_cond_wait` or `pthread_cond_timedwait`
  asleep : Place  -- in that call, with the mutex released
  relocking : Bool → Place  -- in that call, about to lock again; whether it gives ETIMEDOUT
  ending : Place  -- behind the loop, before it sets `woken`
  leaving : Bool → Place  -- before the last unlock
  returned : Bool → Place

-- Where a thread stands in `chan_park_wake`. It holds the mutex in the three in the middle.
pub data Waker : Type 0 where
  before_lock : Waker
  before_store : Waker
  before_signal : Waker
  before_unlock : Waker
  woke : Waker

-- A park with the two. `held`: the mutex is held.
pub record Park : Type 0 where
  pub signaled : Bool
  pub held : Bool
  pub waiter : Place
  pub waker : Waker

-- `chan_park_init`, with a wait for `spin_limit` rounds that has begun.
unfoldable pub park_init : ℕ → Park
park_init spin_limit = record {
  signaled = false;
  held = false;
  waiter = locking spin_limit;
  waker = before_lock;
}

-- `abs`: the time of day and a timeout that is not negative.
unfoldable pub deadline : Timespec → ℕ → Timespec
deadline now n =
    let tv_sec = now.tv_sec + n / billion in
    let tv_nsec = now.tv_nsec + n % billion in
    if leb billion tv_nsec
    then record { tv_sec = tv_sec + 1; tv_nsec = tv_nsec - billion }
    else record { tv_sec = tv_sec; tv_nsec = tv_nsec }

-- The limit of a wait for the condition, which `pthread_cond_wait` has not. `now` is what
-- `clock_gettime` answers.
unfoldable pub limit : Timespec → ℤ → Option Timespec
limit now (pos n) = some (deadline now n)
limit now (negsuc n) = none

-- The next call or access of `chan_park_wait`: what it leaves of the mutex, and where the thread
-- stands then.
unfoldable pub park_wait : Threads → ℤ → Bool → Bool → Place → Bool × Place
park_wait threads timeout_ns signaled held (locking i) =
    if threads.blocks held then (held, locking i) else (true, peeking i)
park_wait threads timeout_ns signaled held (peeking zero) =
    if signaled
    then (held, leaving true)
    else if is_zero timeout_ns
    then (held, leaving false)
    else (held, testing)
park_wait threads timeout_ns signaled held (peeking (suc i)) = (held, unlocking i signaled)
park_wait threads timeout_ns signaled held (unlocking i s) =
    (false, if s then returned true else locking i)
park_wait threads timeout_ns signaled held testing = (held, if signaled then ending else starting)
park_wait threads timeout_ns signaled held starting = (false, asleep)
park_wait threads timeout_ns signaled held asleep = (held, asleep)
park_wait threads timeout_ns signaled held (relocking timed_out) =
    if threads.blocks held
    then (held, relocking timed_out)
    else (true, if timed_out then ending else testing)
park_wait threads timeout_ns signaled held ending =
    (held, leaving (if is_neg timeout_ns then true else signaled))
park_wait threads timeout_ns signaled held (leaving woken) = (false, returned woken)
park_wait threads timeout_ns signaled held (returned woken) = (held, returned woken)

-- `pthread_cond_signal`
unfoldable pub cond_signal : Threads → Place → Place
cond_signal threads asleep = if threads.waits_on then asleep else relocking false
cond_signal threads p = p

-- The next call or access of `chan_park_wake`.
unfoldable pub park_wake : Threads → Park → Park
park_wake threads s = elim s.waker [
  | before_lock ↦
      if threads.blocks s.held then s else record s { held = true; waker = before_store }
  | before_store ↦ record s { signaled = true; waker = before_signal }
  | before_signal ↦ record s { waiter = cond_signal threads s.waiter; waker = before_unlock }
  | before_unlock ↦ record s { held = false; waker = woke }
  | woke ↦ s
]

-- The wait for the condition ends for no reason; and with ETIMEDOUT.
unfoldable pub interrupt : Place → Place
interrupt asleep = relocking false
interrupt p = p

unfoldable pub time_out : Threads → Timespec → ℤ → Place → Place
time_out threads now timeout_ns asleep =
    if threads.expires (limit now timeout_ns) then relocking true else asleep
time_out threads now timeout_ns p = p

unfoldable pub step : Threads → Timespec → ℤ → Park → Event → Park
step threads now timeout_ns s waits =
    let (held, place) = park_wait threads timeout_ns s.signaled s.held s.waiter in
    record s { held = held; waiter = place }
step threads now timeout_ns s wakes = park_wake threads s
step threads now timeout_ns s interrupts = record s { waiter = interrupt s.waiter }
step threads now timeout_ns s times_out = record s {
  waiter = time_out threads now timeout_ns s.waiter;
}

unfoldable pub run : Threads → Timespec → ℤ → Park → List Event → Park
run threads now timeout_ns s [] = s
run threads now timeout_ns s (e ∷ es) =
    run threads now timeout_ns (step threads now timeout_ns s e) es
