-- ===== src/Park/Wakeup.antt =====
-- The end of a wait on the condition variable, once the wake is over.
use libchan.Base.{
  ℕ, zero, suc, ◌≤◌, Bool, true, false, ◌||◌, List, [], ◌∷◌, if◌then◌else◌, if_false, ℤ, is_zero,
  is_neg, ◌≡◌, refl, sym, ap, subst, ◌∙◌, arith,
}
use libchan.Park.Times.{Timespec}
use libchan.Park.Pthread.{
  Threads, Place, locking, peeking, unlocking, testing, starting, asleep, relocking, ending,
  leaving, returned, Waker, before_lock, before_store, before_signal, before_unlock, woke, Park,
  park_init, park_wait, park_wake, interrupt, time_out, step, run,
}
use libchan.Park.Schedule.{Event, waits, wakes, interrupts, times_out, InTime, turns}
use libchan.Park.Signal.{Documented, waiter_holds, Told, Sound, run-Sound}

-- Once it was woken, a wait that is not asleep returns true within so many of its own moves.
Due : ℕ → Place → Type 0
Due n (locking i) = 3 ≤ n
Due n (peeking i) = 2 ≤ n
Due n (unlocking i true) = 1 ≤ n
Due n (unlocking i false) = 4 ≤ n
Due n testing = 3 ≤ n
Due n starting = ⊥
Due n asleep = ⊥
Due n (relocking timed_out) = (timed_out ≡ false) × (4 ≤ n)
Due n ending = 2 ≤ n
Due n (leaving woken) = (woken ≡ true) × (1 ≤ n)
Due n (returned woken) = woken ≡ true

Told-Due : (n : ℕ) (p : Place) → 4 ≤ n → Told true woke p → Due n p
unfolding Due
Told-Due n (locking i) le h = omega (arith, le)
Told-Due n (peeking i) le h = omega (arith, le)
Told-Due n (unlocking i true) le h = omega (arith, le)
Told-Due n (unlocking i false) le h = le
Told-Due n testing le h = omega (arith, le)
Told-Due n starting le h = cc
Told-Due n asleep le h = elim h [ ]
Told-Due n (relocking b) le h = (h, le)
Told-Due n ending le h = omega (arith, le)
Told-Due n (leaving woken) le h = (h, omega (arith, le))
Told-Due n (returned woken) le h = h

no_more-Due : (p : Place) → Due 0 p → p ≡ returned true
unfolding Due
no_more-Due (locking i) h = absurd (omega (arith, h))
no_more-Due (peeking i) h = absurd (omega (arith, h))
no_more-Due (unlocking i true) h = absurd (omega (arith, h))
no_more-Due (unlocking i false) h = absurd (omega (arith, h))
no_more-Due testing h = absurd (omega (arith, h))
no_more-Due starting h = elim h [ ]
no_more-Due asleep h = elim h [ ]
no_more-Due (relocking b) (_, h) = absurd (omega (arith, h))
no_more-Due ending h = absurd (omega (arith, h))
no_more-Due (leaving woken) (_, h) = absurd (omega (arith, h))
no_more-Due (returned woken) h = ap returned h

interrupt-Due : (n : ℕ) (p : Place) → Due n p → interrupt p ≡ p
unfolding Due interrupt
interrupt-Due n (locking i) h = refl
interrupt-Due n (peeking i) h = refl
interrupt-Due n (unlocking i s) h = refl
interrupt-Due n testing h = refl
interrupt-Due n starting h = refl
interrupt-Due n asleep h = elim h [ ]
interrupt-Due n (relocking b) h = refl
interrupt-Due n ending h = refl
interrupt-Due n (leaving woken) h = refl
interrupt-Due n (returned woken) h = refl

module _ (threads : Threads) (documented : Documented threads) (now : Timespec) (t : ℤ) where
  time_out-Due : (n : ℕ) (p : Place) → Due n p → time_out threads now t p ≡ p
  unfolding Due time_out
  time_out-Due n (locking i) h = refl
  time_out-Due n (peeking i) h = refl
  time_out-Due n (unlocking i s) h = refl
  time_out-Due n testing h = refl
  time_out-Due n starting h = refl
  time_out-Due n asleep h = elim h [ ]
  time_out-Due n (relocking b) h = refl
  time_out-Due n ending h = refl
  time_out-Due n (leaving woken) h = refl
  time_out-Due n (returned woken) h = refl

  -- A move, where no other thread holds the mutex.
  abbrev Moves : ℕ → Bool × Place → Type 0
  Moves n r = (r.0 ≡ waiter_holds r.1) × Due n r.1

  lock_free : (x y : Bool × Place) → (if threads.blocks false then x else y) ≡ y
  lock_free x y = if_false x y (documented.excludes false)

  wait-Due :
      (n : ℕ) (p : Place) → Due (suc n) p → Moves n (park_wait threads t true (waiter_holds p) p)
  unfolding Due park_wait
  wait-Due n (locking i) h =
      subst (Moves n) (sym (lock_free (false, locking i) (true, peeking i)))
        (refl, omega (arith, h))
  wait-Due n (peeking zero) h = (refl, (refl, omega (arith, h)))
  wait-Due n (peeking (suc i)) h = (refl, omega (arith, h))
  wait-Due n (unlocking i true) h = (refl, refl)
  wait-Due n (unlocking i false) h = (refl, omega (arith, h))
  wait-Due n testing h = (refl, omega (arith, h))
  wait-Due n starting h = elim h [ ]
  wait-Due n asleep h = elim h [ ]
  wait-Due n (relocking true) (b, h) = cc
  wait-Due n (relocking false) (b, h) =
      subst (Moves n) (sym (lock_free (false, relocking false) (true, testing)))
        (refl, omega (arith, h))
  wait-Due n ending h = (refl, (either_true (is_neg t), omega (arith, h)))
    where
      either_true : (b : Bool) → (if b then true else true) ≡ true
      either_true true = refl
      either_true false = refl
  wait-Due n (leaving woken) (b, h) = (refl, b)
  wait-Due n (returned woken) h = (refl, h)

  abbrev woken_up : Bool → Place → Park
  woken_up held p = record { signaled = true; held = held; waiter = p; waker = woke }

  run-Due :
      (fs : List Event) (held : Bool) (p : Place)
      → held ≡ waiter_holds p
      → Due (turns fs) p
      → (run threads now t (woken_up held p) fs).waiter ≡ returned true
  unfolding run step park_wake
  run-Due [] held p e h = no_more-Due p h
  run-Due (waits ∷ fs) held p e h =
      let (e', h') = wait-Due (turns fs) p h in
      ap (λ b. (run threads now t (woken_up b p) (waits ∷ fs)).waiter) e ∙ run-Due fs _ _ e' h'
  run-Due (wakes ∷ fs) held p e h = run-Due fs held p e h
  run-Due (interrupts ∷ fs) held p e h =
      ap (λ q. (run threads now t (woken_up held q) fs).waiter) (interrupt-Due (turns fs) p h)
      ∙ run-Due fs held p e h
  run-Due (times_out ∷ fs) held p e h =
      ap (λ q. (run threads now t (woken_up held q) fs).waiter) (time_out-Due (turns fs) p h)
      ∙ run-Due fs held p e h

  no_waker : (b : Bool) → (b || false) ≡ b
  no_waker true = refl
  no_waker false = refl

  woken-returns :
      (fs : List Event) (signaled held : Bool) (p : Place) (w : Waker)
      → w ≡ woke
      → Sound (record { signaled = signaled; held = held; waiter = p; waker = w })
      → 4 ≤ turns fs
      → (run threads now t
          (record { signaled = signaled; held = held; waiter = p; waker = w })
          fs).waiter
        ≡ returned true
  woken-returns fs signaled held p before_lock e h le = cc
  woken-returns fs signaled held p before_store e h le = cc
  woken-returns fs signaled held p before_signal e h le = cc
  woken-returns fs signaled held p before_unlock e h le = cc
  woken-returns fs false held p woke e (x, s, h) le = cc
  woken-returns fs true held p woke e (x, s, h) le =
      run-Due fs held p (x.0 ∙ no_waker (waiter_holds p)) (Told-Due (turns fs) p le h)

-- The wait on the condition variable loses no wake-up. In every interleaving of a wait and a wake, with
-- a timeout that is not 0, with a thread library that does what is documented and however often it ends
-- the sleep for no reason: once `chan_park_wake` is done, and no sleep has timed out before, the wait
-- returns true within four more moves of its thread.
pub pthread-wakes :
    (threads : Threads) (now : Timespec) (spin_limit : ℕ) (t : ℤ) (es fs : List Event)
    → Documented threads
    → is_zero t ≡ false
    → InTime t es
    → (run threads now t (park_init spin_limit) es).waker ≡ woke
    → 4 ≤ turns fs
    → (run threads now t (run threads now t (park_init spin_limit) es) fs).waiter ≡ returned true
unfolding park_init
pthread-wakes threads now spin_limit t es fs documented n k e le =
    let s = run threads now t (park_init spin_limit) es in
    woken-returns threads documented now t fs s.signaled s.held s.waiter s.waker e
      (run-Sound threads documented now t es (park_init spin_limit) n k ((refl, refl), tt, tt)) le
