-- ===== src/Park/Tests.antt =====
-- Runs of the wait in the two builds.
use libchan.Base.{
  ℕ, suc, ◌==◌, true, false, none, some, List, [], ◌∷◌, ◌≡◌, ◌≢◌, refl, negsuc, pos, arith,
}
use libchan.Park.Futex
use libchan.Park.Futex.{Kernel, returned}
use libchan.Park.Schedule.{Event, waits, wakes, interrupts}
use libchan.Park.Times.{Timespec}
use libchan.Park.Pthread
use libchan.Park.Sleep
use libchan.Park.Sleep.{futex-wakes}
use libchan.Park.Signal
use libchan.Park.Wakeup.{pthread-wakes}

-- A kernel that does what is documented.
abbrev kernel : Kernel
kernel = record {
  sleeps = λ word expected. word == expected;
  sleeps_on = λ n. n == 0;
  expires = λ tsp. elim tsp [ none ↦ false | some t ↦ true ];
}

not_same : (i j : ℕ) → i ≢ j → (i == j) ≡ false
not_same i j e = ground arith

kernel-Documented : Sleep.Documented kernel
kernel-Documented = record {
  refuses = λ word expected e. not_same word expected e;
  wakes_one = λ n. not_same (suc n) 0 (omega arith);
  unlimited = refl;
}

-- The waiter goes to sleep, is interrupted and sleeps again before the other thread wakes it.
abbrev asleep_first : List Event
asleep_first = waits ∷ waits ∷ waits ∷ waits ∷ interrupts ∷ waits ∷ waits ∷ wakes ∷ wakes ∷ []

futex_ended : (Futex.run kernel (negsuc 0) (Futex.park_init 1) asleep_first).waker ≡ Futex.woke
unfolding Futex.run Futex.step Futex.park_init Futex.park_wake Futex.park_wait
futex_ended = refl

futex-wakes_example :
    (Futex.run kernel
      (negsuc 0)
      (Futex.run kernel (negsuc 0) (Futex.park_init 1) asleep_first)
      (waits ∷ waits ∷ [])).waiter
    ≡ returned true
futex-wakes_example =
    futex-wakes kernel 1 (negsuc 0) asleep_first (waits ∷ waits ∷ []) kernel-Documented refl tt
      futex_ended (omega arith)

-- A thread library that does what is documented.
abbrev threads : Pthread.Threads
threads = record {
  blocks = λ held. held;
  waits_on = false;
  expires = λ tsp. elim tsp [ none ↦ false | some t ↦ true ];
}

threads-Documented : Signal.Documented threads
threads-Documented = record { excludes = λ held. refl; wakes_one = refl; unlimited = refl }

abbrev noon : Timespec
noon = record { tv_sec = 43200; tv_nsec = 999999999 }

-- The wake meets the mutex held, and the sleep ends once for no reason.
abbrev signal_late : List Event
signal_late =
    waits ∷ wakes ∷ waits ∷ waits ∷ waits ∷ wakes ∷ waits ∷ waits ∷ waits ∷ interrupts ∷ waits
    ∷ waits ∷ waits ∷ wakes ∷ wakes ∷ wakes ∷ waits ∷ wakes ∷ []

pthread_ended :
    (Pthread.run threads noon (pos 5) (Pthread.park_init 1) signal_late).waker ≡ Pthread.woke
unfolding Pthread.run Pthread.step Pthread.park_init Pthread.park_wake Pthread.park_wait
    Pthread.interrupt Pthread.cond_signal
pthread_ended = refl

pthread-wakes_example :
    (Pthread.run threads noon
      (pos 5)
      (Pthread.run threads noon (pos 5) (Pthread.park_init 1) signal_late)
      (waits ∷ waits ∷ waits ∷ waits ∷ [])).waiter
    ≡ Pthread.returned true
pthread-wakes_example =
    pthread-wakes threads noon 1 (pos 5) signal_late (waits ∷ waits ∷ waits ∷ waits ∷ [])
      threads-Documented refl refl pthread_ended (omega arith)
