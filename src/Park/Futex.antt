-- ===== src/Park/Futex.antt =====
-- src/park.c with LIBCHAN_USE_FUTEX: a thread in `chan_park_wait` and one in `chan_park_wake`, one
-- access to the word or one system call at a time.
use libchan.Base.{
  ℕ, zero, suc, Bool, true, false, not, Option, none, some, List, [], ◌∷◌, ◌==◌, if◌then◌else◌, ℤ,
  is_zero, pos, negsuc,
}
use libchan.Park.Times.{Timespec, relative}
use libchan.Park.Schedule.{Event, waits, wakes, interrupts, times_out}

-- What the kernel does, which is not code of the library: whether FUTEX_WAIT goes to sleep where the
-- word has the first value and the call expects the second; whether a thread that sleeps alone at a
-- word sleeps on after a FUTEX_WAKE for this many; and whether a sleep with this limit, or with none,
-- may end in ETIMEDOUT.
pub record Kernel : Type 0 where
  pub sleeps : ℕ → ℕ → Bool
  pub sleeps_on : ℕ → Bool
  pub expires : Option Timespec → Bool

-- Where a thread stands in `chan_park_wait`.
pub data Place : Type 0 where
  looking : ℕ → Place  -- before a load, with this many rounds of the spin loop left
  looping : Place  -- before the load in the test of the `while` loop
  calling : Place  -- before the call of FUTEX_WAIT
  asleep : Place  -- in the call
  returned : Bool → Place

-- Where a thread stands in `chan_park_wake`.
pub data Waker : Type 0 where
  before_store : Waker
  before_wake : Waker
  woke : Waker

-- A park with the two.
pub record Park : Type 0 where
  pub word : ℕ
  pub waiter : Place
  pub waker : Waker

-- `chan_park_init`, with a wait for `spin_limit` rounds that has begun.
unfoldable pub park_init : ℕ → Park
park_init spin_limit = record { word = 0; waiter = looking spin_limit; waker = before_store }

-- `tsp`
unfoldable pub timeout_of : ℤ → Option Timespec
timeout_of (pos n) = some (relative n)
timeout_of (negsuc n) = none

-- The next access or call of `chan_park_wait`, where it starts one.
unfoldable pub park_wait : Kernel → ℤ → ℕ → Place → Place
park_wait kernel timeout_ns word (looking zero) =
    if not (word == 0)
    then returned true
    else if is_zero timeout_ns
    then returned false
    else looping
park_wait kernel timeout_ns word (looking (suc i)) =
    if not (word == 0) then returned true else looking i
park_wait kernel timeout_ns word looping = if word == 0 then calling else returned true
park_wait kernel timeout_ns word calling = if kernel.sleeps word 0 then asleep else looping
park_wait kernel timeout_ns word asleep = asleep
park_wait kernel timeout_ns word (returned woken) = returned woken

-- FUTEX_WAKE for `count` threads.
unfoldable pub futex_wake : Kernel → ℕ → Place → Place
futex_wake kernel count asleep = if kernel.sleeps_on count then asleep else looping
futex_wake kernel count p = p

-- The next access or call of `chan_park_wake`.
unfoldable pub park_wake : Kernel → Park → Park
park_wake kernel s = elim s.waker [
  | before_store ↦ record s { word = 1; waker = before_wake }
  | before_wake ↦ record s { waiter = futex_wake kernel 1 s.waiter; waker = woke }
  | woke ↦ s
]

-- FUTEX_WAIT returns with EINTR, or for no reason; and with ETIMEDOUT.
unfoldable pub interrupt : Place → Place
interrupt asleep = looping
interrupt p = p

unfoldable pub time_out : Kernel → ℤ → Place → Place
time_out kernel timeout_ns asleep =
    if kernel.expires (timeout_of timeout_ns) then returned false else asleep
time_out kernel timeout_ns p = p

unfoldable pub step : Kernel → ℤ → Park → Event → Park
step kernel timeout_ns s waits = record s { waiter = park_wait kernel timeout_ns s.word s.waiter }
step kernel timeout_ns s wakes = park_wake kernel s
step kernel timeout_ns s interrupts = record s { waiter = interrupt s.waiter }
step kernel timeout_ns s times_out = record s { waiter = time_out kernel timeout_ns s.waiter }

unfoldable pub run : Kernel → ℤ → Park → List Event → Park
run kernel timeout_ns s [] = s
run kernel timeout_ns s (e ∷ es) = run kernel timeout_ns (step kernel timeout_ns s e) es
