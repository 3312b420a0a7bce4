-- ===== src/Park/Sleep.antt =====
-- No sleep is left behind: the wait on the futex and the wake.
use libchan.Base.{
  ℕ, zero, suc, ◌≤◌, Bool, true, false, not, none, List, [], ◌∷◌, ◌==◌, if◌then◌else◌, if_false, ℤ,
  is_zero, pos, negsuc, ◌≡◌, ◌≢◌, refl, sym, ap, subst, ◌∙◌, arith,
}
use libchan.Park.Futex.{
  Kernel, Place, looking, looping, calling, asleep, returned, Waker, before_store, before_wake,
  woke, Park, park_init, timeout_of, park_wait, futex_wake, park_wake, interrupt, time_out, step,
  run,
}
use libchan.Park.Schedule.{Event, waits, wakes, interrupts, times_out, InTime, InTime-same, turns}

-- What the manual pages promise: FUTEX_WAIT returns at once where the word is not what it expects,
-- FUTEX_WAKE for one thread or more wakes the only sleeper, and a sleep with no limit never times out.
pub record Documented (kernel : Kernel) : Type 0 where
  pub refuses : (word expected : ℕ) → word ≢ expected → kernel.sleeps word expected ≡ false
  pub wakes_one : (n : ℕ) → kernel.sleeps_on (suc n) ≡ false
  pub unlimited : kernel.expires none ≡ false

-- The word is set once the store is behind, whoever sleeps has the wake still before it, and a wait
-- that is over was woken.
abbrev Pending : Waker → Type 0
Pending before_store = Unit
Pending before_wake = Unit
Pending woke = ⊥

abbrev Stored : Waker → ℕ → Type 0
Stored before_store word = Unit
Stored before_wake word = word ≡ 1
Stored woke word = word ≡ 1

abbrev Told : Waker → Place → Type 0
Told w (looking i) = Unit
Told w looping = Unit
Told w calling = Unit
Told w asleep = Pending w
Told w (returned woken) = woken ≡ true

abbrev Sound : Park → Type 0
Sound s = Stored s.waker s.word × Told s.waker s.waiter

-- What holds of both ways of a test.
either_way : (P : Place → Type 0) (b : Bool) (p q : Place) → P p → P q → P (if b then p else q)
either_way P true p q h k = h
either_way P false p q h k = k

module _ (kernel : Kernel) (documented : Documented kernel) (t : ℤ) where
  wait-Told :
      (w : Waker) (word : ℕ) (p : Place)
      → is_zero t ≡ false
      → Stored w word
      → Told w p
      → Told w (park_wait kernel t word p)
  unfolding park_wait
  wait-Told w word (looking zero) n s h =
      either_way (Told w) (not (word == 0)) (returned true)
        (if is_zero t then returned false else looping) refl
        (subst (Told w) (sym (if_false (returned false) looping n)) tt)
  wait-Told w word (looking (suc i)) n s h =
      either_way (Told w) (not (word == 0)) (returned true) (looking i) refl tt
  wait-Told w word looping n s h = either_way (Told w) (word == 0) calling (returned true) tt refl
  wait-Told before_store word calling n s h =
      either_way (Told before_store) (kernel.sleeps word 0) asleep looping tt tt
  wait-Told before_wake word calling n s h =
      either_way (Told before_wake) (kernel.sleeps word 0) asleep looping tt tt
  wait-Told woke word calling n s h =
      subst (Told woke)
        (sym (if_false asleep looping (documented.refuses word 0 (λ z. omega (arith, s, z))))) tt
  wait-Told w word asleep n s h = h
  wait-Told w word (returned woken) n s h = h

  stored-Told : (p : Place) → Told before_store p → Told before_wake p
  stored-Told (looking i) h = tt
  stored-Told looping h = tt
  stored-Told calling h = tt
  stored-Told asleep h = tt
  stored-Told (returned woken) h = h

  woke-Told : (p : Place) → Told before_wake p → Told woke (futex_wake kernel 1 p)
  unfolding futex_wake
  woke-Told (looking i) h = tt
  woke-Told looping h = tt
  woke-Told calling h = tt
  woke-Told asleep h = subst (Told woke) (sym (if_false asleep looping (documented.wakes_one 0))) tt
  woke-Told (returned woken) h = h

  interrupt-Told : (w : Waker) (p : Place) → Told w p → Told w (interrupt p)
  unfolding interrupt
  interrupt-Told w (looking i) h = tt
  interrupt-Told w looping h = tt
  interrupt-Told w calling h = tt
  interrupt-Told w asleep h = tt
  interrupt-Told w (returned woken) h = h

  -- With no limit, a time-out does nothing.
  no_time_out : (p : Place) → timeout_of t ≡ none → time_out kernel t p ≡ p
  unfolding time_out
  no_time_out (looking i) e = refl
  no_time_out looping e = refl
  no_time_out calling e = refl
  no_time_out asleep e =
      if_false (returned false) asleep (ap kernel.expires e ∙ documented.unlimited)
  no_time_out (returned woken) e = refl

  wake-Sound :
      (w : Waker) (word : ℕ) (p : Place)
      → Stored w word
      → Told w p
      → Sound (park_wake kernel (record { word = word; waiter = p; waker = w }))
  unfolding park_wake
  wake-Sound before_store word p s h = (refl, stored-Told p h)
  wake-Sound before_wake word p s h = (s, woke-Told p h)
  wake-Sound woke word p s h = (s, h)

unlimited-time_out :
    (kernel : Kernel) (n : ℕ) (p : Place) → Documented kernel → time_out kernel (negsuc n) p ≡ p
unfolding timeout_of
unlimited-time_out kernel n p documented = no_time_out kernel documented (negsuc n) p refl

module _ (kernel : Kernel) (documented : Documented kernel) where
  run-Sound :
      (t : ℤ) (es : List Event) (s : Park)
      → is_zero t ≡ false
      → InTime t es
      → Sound s
      → Sound (run kernel t s es)
  unfolding run step
  run-Sound t [] s n k h = h
  run-Sound t (waits ∷ es) s n k h =
      run-Sound t es _ n (InTime-same t (waits ∷ es) es refl k)
        (h.0, wait-Told kernel documented t s.waker s.word s.waiter n h.0 h.1)
  run-Sound t (wakes ∷ es) s n k h =
      run-Sound t es _ n (InTime-same t (wakes ∷ es) es refl k)
        (wake-Sound kernel documented t s.waker s.word s.waiter h.0 h.1)
  run-Sound t (interrupts ∷ es) s n k h =
      run-Sound t es _ n (InTime-same t (interrupts ∷ es) es refl k)
        (h.0, interrupt-Told kernel documented t s.waker s.waiter h.1)
  run-Sound (pos i) (times_out ∷ es) s n k h = cc
  run-Sound (negsuc i) (times_out ∷ es) s n k h =
      run-Sound (negsuc i) es _ n k
        (h.0, subst (Told s.waker) (sym (unlimited-time_out kernel i s.waiter documented)) h.1)

  -- Once it was woken, a wait that is not asleep returns true within so many of its own moves.
  Due : ℕ → Place → Type 0
  Due n (looking i) = 1 ≤ n
  Due n looping = 1 ≤ n
  Due n calling = 2 ≤ n
  Due n asleep = ⊥
  Due n (returned woken) = woken ≡ true

  Told-Due : (n : ℕ) (p : Place) → 2 ≤ n → Told woke p → Due n p
  unfolding Due
  Told-Due n (looking i) le h = omega (arith, le)
  Told-Due n looping le h = omega (arith, le)
  Told-Due n calling le h = le
  Told-Due n asleep le h = elim h [ ]
  Told-Due n (returned woken) le h = h

  wait-Due : (t : ℤ) (n : ℕ) (p : Place) → Due (suc n) p → Due n (park_wait kernel t 1 p)
  unfolding Due park_wait
  wait-Due t n (looking zero) h = refl
  wait-Due t n (looking (suc i)) h = refl
  wait-Due t n looping h = refl
  wait-Due t n calling h =
      subst (Due n) (sym (if_false asleep looping (documented.refuses 1 0 (λ z. omega (arith, z)))))
        (omega (arith, h))
  wait-Due t n asleep h = elim h [ ]
  wait-Due t n (returned woken) h = h

  interrupt-Due : (n : ℕ) (p : Place) → Due n p → interrupt p ≡ p
  unfolding Due interrupt
  interrupt-Due n (looking i) h = refl
  interrupt-Due n looping h = refl
  interrupt-Due n calling h = refl
  interrupt-Due n asleep h = elim h [ ]
  interrupt-Due n (returned woken) h = refl

  time_out-Due : (t : ℤ) (n : ℕ) (p : Place) → Due n p → time_out kernel t p ≡ p
  unfolding Due time_out
  time_out-Due t n (looking i) h = refl
  time_out-Due t n looping h = refl
  time_out-Due t n calling h = refl
  time_out-Due t n asleep h = elim h [ ]
  time_out-Due t n (returned woken) h = refl

  no_more-Due : (p : Place) → Due 0 p → p ≡ returned true
  unfolding Due
  no_more-Due (looking i) h = absurd (omega (arith, h))
  no_more-Due looping h = absurd (omega (arith, h))
  no_more-Due calling h = absurd (omega (arith, h))
  no_more-Due asleep h = elim h [ ]
  no_more-Due (returned woken) h = ap returned h

  abbrev woken_up : Place → Park
  woken_up p = record { word = 1; waiter = p; waker = woke }

  run-Due :
      (t : ℤ) (fs : List Event) (p : Place)
      → Due (turns fs) p
      → (run kernel t (woken_up p) fs).waiter ≡ returned true
  unfolding run step park_wake
  run-Due t [] p h = no_more-Due p h
  run-Due t (waits ∷ fs) p h = run-Due t fs (park_wait kernel t 1 p) (wait-Due t (turns fs) p h)
  run-Due t (wakes ∷ fs) p h = run-Due t fs p h
  run-Due t (interrupts ∷ fs) p h =
      ap (λ q. (run kernel t (woken_up q) fs).waiter) (interrupt-Due (turns fs) p h)
      ∙ run-Due t fs p h
  run-Due t (times_out ∷ fs) p h =
      ap (λ q. (run kernel t (woken_up q) fs).waiter) (time_out-Due t (turns fs) p h)
      ∙ run-Due t fs p h

  woken-returns :
      (t : ℤ) (fs : List Event) (word : ℕ) (p : Place) (w : Waker)
      → w ≡ woke
      → Stored w word
      → Told w p
      → 2 ≤ turns fs
      → (run kernel t (record { word = word; waiter = p; waker = w }) fs).waiter ≡ returned true
  woken-returns t fs word p before_store e s h le = cc
  woken-returns t fs word p before_wake e s h le = cc
  woken-returns t fs word p woke e s h le =
      ap (λ (i : ℕ). (run kernel t (record { word = i; waiter = p; waker = woke }) fs).waiter) s
      ∙ run-Due t fs p (Told-Due (turns fs) p le h)

-- The wait on the futex loses no wake-up. In every interleaving of a wait and a wake, with a timeout
-- that is not 0, with a kernel that does what is documented and however often it interrupts the sleep:
-- once `chan_park_wake` is done, and the kernel has not timed out the sleep before, the wait returns
-- true within two more moves of its thread.
pub futex-wakes :
    (kernel : Kernel) (spin_limit : ℕ) (t : ℤ) (es fs : List Event)
    → Documented kernel
    → is_zero t ≡ false
    → InTime t es
    → (run kernel t (park_init spin_limit) es).waker ≡ woke
    → 2 ≤ turns fs
    → (run kernel t (run kernel t (park_init spin_limit) es) fs).waiter ≡ returned true
unfolding park_init
futex-wakes kernel spin_limit t es fs documented n k e le =
    let s = run kernel t (park_init spin_limit) es in
    let (stored, told) = run-Sound kernel documented t es (park_init spin_limit) n k (tt, tt) in
    woken-returns kernel documented t fs s.word s.waiter s.waker e stored told le
