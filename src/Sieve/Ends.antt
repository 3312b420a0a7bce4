-- ===== src/Sieve/Ends.antt =====
-- The end of the sieve.
use libchan.Base.{
  ℕ, zero, suc, ◌+◌, ◌%◌, ◌≤◌, ◌<◌, Bool, true, false, ◌&&◌, Option, none, some, List, [], ◌∷◌,
  ◌++◌, length, leb, ◌==◌, if_true, if_false, Bool-cases, ◌≡◌, refl, sym, ap, subst, ◌∙◌, inl, inr,
  arith,
}
use libchan.Sieve.{
  limit, Chain, generate, filter, receive, generate_step, received, thread_step, Main, sieved,
  Event, threads, mains, step, run, begin,
}
use libchan.Sieve.Stream.{up_from, stream, Tidy, receive-stream, receive-Tidy}
use libchan.Sieve.Output.{length-survivors, sieved-Sieving, Sieving, run-Sieving}
use libchan.Sieve.Primes.{primes, begin-Sieving, over-printed}
use libchan.Sieve.Pull.{
  threads_run, depth, Comes, Pulled, later-Pulled, after-Pulled, sucs, sucs-run, run-Tidy,
  run-stream, run-depth, receive-depth,
}

generate-Pulled : (i : ℕ) (q : List ℕ) (closed : Bool) → Pulled (generate i q closed)
unfolding generate_step
generate-Pulled i (x ∷ q) closed = ([], inl (_, refl))
generate-Pulled i [] true = ([], inr refl)
generate-Pulled i [] false = elim (Bool-cases (leb i limit)) [
  | inl e ↦
      later-Pulled 0 (generate i [] false) (generate (i + 1) (i ∷ []) false)
        (if_true (generate (i + 1) (i ∷ []) false) (generate i [] true) e) ([], inl (_, refl))
  | inr e ↦
      later-Pulled 0 (generate i [] false) (generate i [] true)
        (if_false (generate (i + 1) (i ∷ []) false) (generate i [] true) e) ([], inr refl)
]

held-Pulled : (p i : ℕ) (up : Chain) → Pulled (filter p (some i) [] false up)
held-Pulled p i up =
    later-Pulled 0 (filter p (some i) [] false up) (filter p none (i ∷ []) false up) refl
      ([], inl (_, refl))

-- A number that came to the filter, or the end, and what to do with a chain that has fewer to come.
came-Pulled :
    (p : ℕ) (up : Chain) (o : Option (ℕ × Chain))
    → receive up ≡ o
    → Comes up
    → Tidy up
    → ((u : Chain)
        → length (stream u) < length (stream up)
        → depth u ≡ depth up
        → Tidy u
        → Pulled (filter p none [] false u))
    → Pulled (received p [] up o)
came-Pulled p up none e (inl (t, f)) h again = cc (sym e ∙ f)
came-Pulled p up none e (inr c) h again = ([], inr (ap (λ (b : Bool). b && true) c))
came-Pulled p up (some (i, up')) e c h again =
    let dropped : Chain = filter p none [] false up' in
    let kept : Chain = filter p (some i) [] false up' in
    elim (Bool-cases (i % p == 0)) [
      | inl d ↦ subst Pulled (sym (if_true dropped kept d)) (
          again up' (omega (arith, ap length (receive-stream up i up' e)))
            (receive-depth up i up' e) (receive-Tidy up i up' e h))
      | inr d ↦ subst Pulled (sym (if_false dropped kept d)) (held-Pulled p i up')
    ]

module _ (d : ℕ) (pulls : (up : Chain) → depth up ≤ d → Tidy up → Pulled up) where
  filter-Pulled :
      (k p : ℕ) (up : Chain)
      → length (stream up) < k
      → depth up ≤ d
      → Tidy up
      → Pulled (filter p none [] false up)
  filter-Pulled zero p up short deep h = absurd (omega (arith, short))
  filter-Pulled (suc k) p up short deep h =
      let (ns, c) = pulls up deep h in
      let up' = threads_run ns up in
      after-Pulled (sucs ns) (filter p none [] false up) (filter p none [] false up')
        (sucs-run ns p none [] false up)
        (later-Pulled 0 (filter p none [] false up') (received p [] up' (receive up')) refl (
          came-Pulled p up' (receive up') refl c (run-Tidy ns up h) (λ u fewer same tidy.
            filter-Pulled k p u (omega (arith, fewer, short, ap length (run-stream ns up)))
              (omega (arith, deep, same, run-depth ns up)) tidy)))

pull : (d : ℕ) (ch : Chain) → depth ch ≤ d → Tidy ch → Pulled ch
pull d (generate i q closed) deep h = generate-Pulled i q closed
pull zero (filter p hand q closed up) deep h = absurd (omega (arith, deep))
pull (suc d) (filter p hand (x ∷ q) closed up) deep h = ([], inl (_, refl))
pull (suc d) (filter p hand [] true up) deep h = ([], inr refl)
pull (suc d) (filter p (some i) [] false up) deep h = held-Pulled p i up
pull (suc d) (filter p none [] false up) deep h =
    filter-Pulled d (pull d) (suc (length (stream up))) p up (omega arith) (omega (arith, deep)) h.1

abbrev as_events : List ℕ → List Event
as_events [] = []
as_events (n ∷ ns) = threads n ∷ as_events ns

threads-run :
    (ns : List ℕ) (m : Main) → run m (as_events ns) ≡ record m { chain = threads_run ns m.chain }
unfolding run
threads-run [] m = refl
threads-run (n ∷ ns) m = threads-run ns (record m { chain = thread_step n m.chain })

run-append : (m : Main) (es fs : List Event) → run m (es ++ fs) ≡ run (run m es) fs
unfolding run
run-append m [] fs = refl
run-append m (e ∷ es) fs = run-append (step m e) es fs

-- `main` goes on from a number that came, or ends.
taken :
    (all : List ℕ) (m : Main) (o : Option (ℕ × Chain))
    → receive m.chain ≡ o
    → Comes m.chain
    → ((t : Main)
        → length (stream t.chain) < length (stream m.chain)
        → t.over ≡ false
        → Sieving all t
        → (fs : List Event) × ((run t fs).over ≡ true))
    → Sieving all (sieved m o)
    → (fs : List Event) × ((run (sieved m o) fs).over ≡ true)
unfolding run stream
taken all m none e (inl (t, f)) again h = cc (sym e ∙ f)
taken all m none e (inr c) again h = ([], c)
taken all m (some (p, up)) e c again h =
    again (sieved m (some (p, up)))
      (omega (arith, length-survivors p (stream up), ap length (receive-stream m.chain p up e)))
      refl h

resumed :
    (t : Main) (fs : List Event)
    → t.over ≡ false
    → run t (mains ∷ fs) ≡ run (sieved t (receive t.chain)) fs
unfolding run
resumed t fs e = ap (λ u. run u fs) (if_false t (sieved t (receive t.chain)) e)

finish :
    (all : List ℕ) (k : ℕ) (m : Main)
    → length (stream m.chain) < k
    → m.over ≡ false
    → Sieving all m
    → (fs : List Event) × ((run m fs).over ≡ true)
finish all zero m short going h = absurd (omega (arith, short))
finish all (suc k) m short going h =
    let (ns, c) = pull (depth m.chain) m.chain (omega arith) h.tidy in
    let t : Main = record m { chain = threads_run ns m.chain } in
    let pulled : Sieving all t =
      subst (Sieving all) (threads-run ns m) (run-Sieving all (as_events ns) m h) in
    let (fs, ended_there) =
      taken all t (receive t.chain) refl c
        (λ u fewer still_going g.
          finish all k u (omega (arith, fewer, short, ap length (run-stream ns m.chain)))
            still_going g)
        (sieved-Sieving all t (receive t.chain) refl going pulled) in
    (
      as_events ns ++ (mains ∷ fs),
      ap (λ (u : Main). u.over)
            (run-append m (as_events ns) (mains ∷ fs)
              ∙ ap (λ u. run u (mains ∷ fs)) (threads-run ns m)
              ∙ resumed t fs going)
          ∙ ended_there,
    )

way : (m : Main) → Sieving (up_from 2) m → (fs : List Event) × ((run m fs).over ≡ true)
unfolding run
way m h = elim (Bool-cases m.over) [
  | inl e ↦ ([], e)
  | inr e ↦ finish (up_from 2) (suc (length (stream m.chain))) m (omega arith) e h
]

-- The sieve is never at a standstill: after every schedule of the threads there is a way to go on, after
-- which the loop of `main` is over, and `main` has printed the primes up to 541, in order, and nothing else.
pub ends_with_primes :
    (es : List Event)
    → (fs : List Event) × ((run begin (es ++ fs)).over ≡ true)
      × ((run begin (es ++ fs)).printed ≡ primes (up_from 2))
ends_with_primes es =
    let m = run begin es in
    let h = run-Sieving (up_from 2) es begin begin-Sieving in
    let (fs, over) = way m h in
    let all_over : (run begin (es ++ fs)).over ≡ true =
      ap (λ (u : Main). u.over) (run-append begin es fs) ∙ over in
    (fs, all_over, over-printed (es ++ fs) all_over)
