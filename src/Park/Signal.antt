-- ===== src/Park/Signal.antt =====
-- No sleep is left behind: the wait on the condition variable and the wake.
use libchan.Base.{
  ℕ, zero, suc, Bool, true, false, ◌||◌, ◌&&◌, none, List, [], ◌∷◌, if◌then◌else◌, if_true,
  if_false, ℤ, is_zero, is_neg, pos, negsuc, ◌≡◌, refl, sym, ap, subst, ◌∙◌, arith,
}
use libchan.Park.Times.{Timespec}
use libchan.Park.Pthread.{
  Threads, Place, locking, peeking, unlocking, testing, starting, asleep, relocking, ending,
  leaving, returned, Waker, before_lock, before_store, before_signal, before_unlock, woke, Park,
  limit, park_wait, cond_signal, park_wake, interrupt, time_out, step, run,
}
use libchan.Park.Schedule.{Event, waits, wakes, interrupts, times_out, InTime, InTime-same}

-- What POSIX promises: a lock waits while the mutex is held, and only then; a signal wakes the only
-- thread that waits; and `pthread_cond_wait` never times out.
pub record Documented (threads : Threads) : Type 0 where
  pub excludes : (held : Bool) → threads.blocks held ≡ held
  pub wakes_one : threads.waits_on ≡ false
  pub unlimited : threads.expires none ≡ false

-- Who holds the mutex.
abbrev pub waiter_holds : Place → Bool
waiter_holds (locking i) = false
waiter_holds (peeking i) = true
waiter_holds (unlocking i s) = true
waiter_holds testing = true
waiter_holds starting = true
waiter_holds asleep = false
waiter_holds (relocking timed_out) = false
waiter_holds ending = true
waiter_holds (leaving woken) = true
waiter_holds (returned woken) = false

abbrev pub waker_holds : Waker → Bool
waker_holds before_lock = false
waker_holds before_store = true
waker_holds before_signal = true
waker_holds before_unlock = true
waker_holds woke = false

-- The flag is up once it was stored.
abbrev pub Stored : Waker → Bool → Type 0
Stored before_lock signaled = Unit
Stored before_store signaled = Unit
Stored before_signal signaled = signaled ≡ true
Stored before_unlock signaled = signaled ≡ true
Stored woke signaled = signaled ≡ true

-- A signal is still to come.
abbrev pub Pending : Waker → Type 0
Pending before_lock = Unit
Pending before_store = Unit
Pending before_signal = Unit
Pending before_unlock = ⊥
Pending woke = ⊥

abbrev pub Told : Bool → Waker → Place → Type 0
Told signaled w (locking i) = Unit
Told signaled w (peeking i) = Unit
Told signaled w (unlocking i s) = Unit
Told signaled w testing = Unit
Told signaled w starting = signaled ≡ false
Told signaled w asleep = Pending w
Told signaled w (relocking timed_out) = timed_out ≡ false
Told signaled w ending = signaled ≡ true
Told signaled w (leaving woken) = woken ≡ true
Told signaled w (returned woken) = woken ≡ true

-- One thread at a time holds the mutex.
abbrev pub Exclusive : Bool → Waker → Place → Type 0
Exclusive held w p =
    (held ≡ (waiter_holds p || waker_holds w)) × ((waiter_holds p && waker_holds w) ≡ false)

abbrev pub Sound : Park → Type 0
Sound s =
    Exclusive s.held s.waker s.waiter × Stored s.waker s.signaled × Told s.signaled s.waker s.waiter

flag_or : (b signaled : Bool) → signaled ≡ true → (if b then true else signaled) ≡ true
flag_or b signaled h = ground arith

takes : (b : Bool) → false ≡ (b || false) → (true ≡ (b || true)) × ((b && true) ≡ false)
takes true e = cc
takes false e = (refl, refl)

gives : (b : Bool) → (b && true) ≡ false → (false ≡ (b || false)) × ((b && false) ≡ false)
gives true e = cc
gives false e = (refl, refl)

module _ (threads : Threads) (documented : Documented threads) (t : ℤ) where
  free : (x y : Bool × Place) → (if threads.blocks false then x else y) ≡ y
  free x y = if_false x y (documented.excludes false)

  busy : (x y : Bool × Place) → (if threads.blocks true then x else y) ≡ x
  busy x y = if_true x y (documented.excludes true)

  abbrev Fine : Bool → Waker → Bool × Place → Type 0
  Fine signaled w r = Exclusive r.0 w r.1 × Told signaled w r.1

  wait-Fine :
      (signaled held : Bool) (w : Waker) (p : Place)
      → is_zero t ≡ false
      → Stored w signaled
      → Exclusive held w p
      → Told signaled w p
      → Fine signaled w (park_wait threads t signaled held p)
  unfolding park_wait
  wait-Fine signaled true w (locking i) n s x h =
      subst (Fine signaled w) (sym (busy (true, locking i) (true, peeking i))) (x, tt)
  wait-Fine signaled false w (locking i) n s x h =
      subst (Fine signaled w) (sym (free (false, locking i) (true, peeking i)))
        ((refl, sym x.0), tt)
  wait-Fine true held w (peeking zero) n s x h = (x, refl)
  wait-Fine false held w (peeking zero) n s x h =
      subst (Fine false w) (sym (if_false (held, leaving false) (held, testing) n)) (x, tt)
  wait-Fine signaled held w (peeking (suc i)) n s x h = (x, tt)
  wait-Fine signaled held w (unlocking i true) n s x h = ((sym x.1, refl), refl)
  wait-Fine signaled held w (unlocking i false) n s x h = ((sym x.1, refl), tt)
  wait-Fine true held w testing n s x h = (x, refl)
  wait-Fine false held w testing n s x h = (x, refl)
  wait-Fine signaled held before_lock starting n s x h = ((refl, refl), tt)
  wait-Fine signaled held before_store starting n s x h = ((sym x.1, refl), tt)
  wait-Fine signaled held before_signal starting n s x h = ((sym x.1, refl), tt)
  wait-Fine signaled held before_unlock starting n s x h = cc
  wait-Fine signaled held woke starting n s x h = cc
  wait-Fine signaled held w asleep n s x h = (x, h)
  wait-Fine signaled true w (relocking b) n s x h =
      subst (Fine signaled w) (sym (busy (true, relocking b) (true, if b then ending else testing)))
        (x, h)
  wait-Fine signaled false w (relocking true) n s x h = cc
  wait-Fine signaled false w (relocking false) n s x h =
      subst (Fine signaled w) (sym (free (false, relocking false) (true, testing)))
        ((refl, sym x.0), tt)
  wait-Fine signaled held w ending n s x h = (x, flag_or (is_neg t) signaled h)
  wait-Fine signaled held w (leaving woken) n s x h = ((sym x.1, refl), h)
  wait-Fine signaled held w (returned woken) n s x h = (x, h)

  Told-later :
      (signaled : Bool) (w v : Waker) (p : Place)
      → (Pending w → Pending v)
      → Told signaled w p
      → Told signaled v p
  Told-later signaled w v (locking i) f h = tt
  Told-later signaled w v (peeking i) f h = tt
  Told-later signaled w v (unlocking i s) f h = tt
  Told-later signaled w v testing f h = tt
  Told-later signaled w v starting f h = h
  Told-later signaled w v asleep f h = f h
  Told-later signaled w v (relocking b) f h = h
  Told-later signaled w v ending f h = h
  Told-later signaled w v (leaving woken) f h = h
  Told-later signaled w v (returned woken) f h = h

  -- The store, while the other thread does not hold the mutex.
  store-Told :
      (signaled : Bool) (p : Place)
      → (waiter_holds p && true) ≡ false
      → Told signaled before_store p
      → Told true before_signal p
  store-Told signaled (locking i) x h = tt
  store-Told signaled (peeking i) x h = tt
  store-Told signaled (unlocking i s) x h = tt
  store-Told signaled testing x h = tt
  store-Told signaled starting x h = cc
  store-Told signaled asleep x h = tt
  store-Told signaled (relocking b) x h = h
  store-Told signaled ending x h = refl
  store-Told signaled (leaving woken) x h = h
  store-Told signaled (returned woken) x h = h

  signal-Fine :
      (signaled held : Bool) (p : Place)
      → Exclusive held before_signal p
      → Told signaled before_signal p
      → Fine signaled before_unlock (held, cond_signal threads p)
  unfolding cond_signal
  signal-Fine signaled held (locking i) x h = (x, tt)
  signal-Fine signaled held (peeking i) x h = (x, tt)
  signal-Fine signaled held (unlocking i s) x h = (x, tt)
  signal-Fine signaled held testing x h = (x, tt)
  signal-Fine signaled held starting x h = (x, h)
  signal-Fine signaled held asleep x h =
      subst (λ p. Fine signaled before_unlock (held, p))
        (sym (if_false asleep (relocking false) documented.wakes_one)) (x, refl)
  signal-Fine signaled held (relocking b) x h = (x, h)
  signal-Fine signaled held ending x h = (x, h)
  signal-Fine signaled held (leaving woken) x h = (x, h)
  signal-Fine signaled held (returned woken) x h = (x, h)

  abbrev park : Bool → Bool → Place → Waker → Park
  park signaled held p w = record { signaled = signaled; held = held; waiter = p; waker = w }

  wake-Sound :
      (signaled held : Bool) (p : Place) (w : Waker)
      → Sound (park signaled held p w)
      → Sound (park_wake threads (park signaled held p w))
  unfolding park_wake
  wake-Sound signaled true p before_lock (x, s, h) =
      subst Sound
        (sym (
          if_true (park signaled true p before_lock) (park signaled true p before_store)
            (documented.excludes true)))
        (x, s, h)
  wake-Sound signaled false p before_lock (x, s, h) =
      subst Sound
        (sym (
          if_false (park signaled false p before_lock) (park signaled true p before_store)
            (documented.excludes false)))
        (takes (waiter_holds p) x.0, tt, Told-later signaled before_lock before_store p (λ u. tt) h)
  wake-Sound signaled held p before_store (x, s, h) = (x, refl, store-Told signaled p x.1 h)
  wake-Sound signaled held p before_signal (x, s, h) =
      let (x', h') = signal-Fine signaled held p x h in (x', s, h')
  wake-Sound signaled held p before_unlock (x, s, h) =
      (gives (waiter_holds p) x.1, s, Told-later signaled before_unlock woke p (λ u. u) h)
  wake-Sound signaled held p woke h = h

  -- What the system does.
  interrupt-Fine :
      (signaled held : Bool) (w : Waker) (p : Place)
      → Fine signaled w (held, p)
      → Fine signaled w (held, interrupt p)
  unfolding interrupt
  interrupt-Fine signaled held w (locking i) h = h
  interrupt-Fine signaled held w (peeking i) h = h
  interrupt-Fine signaled held w (unlocking i s) h = h
  interrupt-Fine signaled held w testing h = h
  interrupt-Fine signaled held w starting h = h
  interrupt-Fine signaled held w asleep h = (h.0, refl)
  interrupt-Fine signaled held w (relocking b) h = h
  interrupt-Fine signaled held w ending h = h
  interrupt-Fine signaled held w (leaving woken) h = h
  interrupt-Fine signaled held w (returned woken) h = h

  no_time_out : (now : Timespec) (p : Place) → limit now t ≡ none → time_out threads now t p ≡ p
  unfolding time_out
  no_time_out now (locking i) e = refl
  no_time_out now (peeking i) e = refl
  no_time_out now (unlocking i s) e = refl
  no_time_out now testing e = refl
  no_time_out now starting e = refl
  no_time_out now asleep e =
      if_false (relocking true) asleep (ap threads.expires e ∙ documented.unlimited)
  no_time_out now (relocking b) e = refl
  no_time_out now ending e = refl
  no_time_out now (leaving woken) e = refl
  no_time_out now (returned woken) e = refl

unlimited-time_out :
    (threads : Threads) (now : Timespec) (n : ℕ) (p : Place)
    → Documented threads
    → time_out threads now (negsuc n) p ≡ p
unfolding limit
unlimited-time_out threads now n p documented = no_time_out threads documented (negsuc n) now p refl

module _ (threads : Threads) (documented : Documented threads) (now : Timespec) where
  pub run-Sound :
      (t : ℤ) (es : List Event) (s : Park)
      → is_zero t ≡ false
      → InTime t es
      → Sound s
      → Sound (run threads now t s es)
  unfolding run step
  run-Sound t [] s n k h = h
  run-Sound t (waits ∷ es) s n k (x, f, h) =
      let (x', h') = wait-Fine threads documented t s.signaled s.held s.waker s.waiter n f x h in
      run-Sound t es _ n (InTime-same t (waits ∷ es) es refl k) (x', f, h')
  run-Sound t (wakes ∷ es) s n k h =
      run-Sound t es _ n (InTime-same t (wakes ∷ es) es refl k)
        (wake-Sound threads documented t s.signaled s.held s.waiter s.waker h)
  run-Sound t (interrupts ∷ es) s n k (x, f, h) =
      let (x', h') =
        interrupt-Fine threads documented t s.signaled s.held s.waker s.waiter (x, h) in
      run-Sound t es _ n (InTime-same t (interrupts ∷ es) es refl k) (x', f, h')
  run-Sound (pos i) (times_out ∷ es) s n k h = cc
  run-Sound (negsuc i) (times_out ∷ es) s n k h = run-Sound (negsuc i) es _ n k (
      subst (λ p. Sound (record s { waiter = p }))
        (sym (unlimited-time_out threads now i s.waiter documented)) h)
