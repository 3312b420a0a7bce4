-- ===== src/Ring/Threads/Tests.antt =====
-- Two threads on a ring of four slots that holds two elements across the wrap at 2 ^ 32.
use libchan.Base.{
  ℕ, ◌+◌, ◌≤◌, true, false, List, [], ◌∷◌, ◌++◌, ◌==◌, Bool-cases, add32, sub32, bit_and, ◌≡◌, ◌≢◌,
  refl, ◌⊎◌, inl, inr, arith,
}
use libchan.Ring.{Ring}
use libchan.Ring.Valid.{IsValid, contents}
use libchan.Ring.Threads.{pushed, Act, calls_push, calls_pop, moves, is_out, move, act, run, begin}
use libchan.Ring.Threads.Fifo.{in_slots, run-fifo, run-no_race, run-quiet}
use libchan.Ring.Threads.Progress.{alone, run-commits}

abbrev two : Ring ℕ
two = record {
  prod_head = 1;
  prod_tail = 1;
  cached_cons_tail = 0;
  cons_head = 4294967295;
  cons_tail = 4294967295;
  cached_prod_tail = 0;
  mask = 3;
  capacity = 4;
  elem_size = 8;
  slots = λ i. 10 + i;
}

two-IsValid : IsValid two
two-IsValid = record {
  shape = record { bits = 2; bits_le = omega arith; capacity_lem = refl; mask_lem = refl };
  prod_done = refl;
  cons_done = refl;
  prod_lt = omega arith;
  cons_lt = omega arith;
  fits = omega arith;
}

-- Thread 0 pushes 77 and thread 1 pops, up to their copies.
abbrev both : List (Act ℕ)
both =
    calls_push 0 77
    ∷ calls_pop 1
    ∷ moves 0 false
    ∷ moves 1 false
    ∷ moves 1 false
    ∷ moves 0 false
    ∷ moves 0 true
    ∷ moves 1 false
    ∷ moves 0 false
    ∷ moves 0 false
    ∷ moves 0 false
    ∷ []

run-fifo_example :
    let s = run (begin two) both in
    (s.got ++ in_slots s.ring ≡ contents two ++ s.given)
    × (sub32 s.ring.prod_tail s.ring.cons_tail ≤ s.ring.capacity)
run-fifo_example = run-fifo two both two-IsValid (omega arith)

run-no_race_example :
    bit_and 1 (run (begin two) both).ring.mask ≢ bit_and 4294967295 (run (begin two) both).ring.mask
unfolding run act move
run-no_race_example =
    run-no_race two both 0 1 77 1 4294967295 two-IsValid (omega arith) (omega arith) refl refl

run-commits_example :
    let s = run (begin two) both in
    ((s.ring.prod_tail ≡ s.ring.prod_head)
      ⊎ ((n k : ℕ) × (k ≤ 3) × ((run s (alone n k)).ring.prod_tail ≡ add32 s.ring.prod_tail 1)))
    × ((s.ring.cons_tail ≡ s.ring.cons_head)
        ⊎ ((n k : ℕ) × (k ≤ 3) × ((run s (alone n k)).ring.cons_tail ≡ add32 s.ring.cons_tail 1)))
run-commits_example = run-commits two both two-IsValid (omega arith)

-- Thread 0 pushes alone.
abbrev whole_push : List (Act ℕ)
whole_push = calls_push 0 77 ∷ alone 0 6

whole_push-out : (n : ℕ) → is_out ((run (begin two) whole_push).place n) ≡ true
unfolding run act move
whole_push-out n = elim (Bool-cases (n == 0)) [ inl e ↦ rw e refl | inr e ↦ rw e refl ]

run-quiet_example :
    let s = run (begin two) whole_push in
    IsValid s.ring × (s.got ++ contents s.ring ≡ contents two ++ s.given)
run-quiet_example = run-quiet two whole_push two-IsValid (omega arith) whole_push-out

-- Thread 0 reads `prod.head`; thread 1 pushes twice and thread 2 pops three times; then thread 0 takes
-- the ring for full, that holds one of four.
abbrev stale : List (Act ℕ)
stale =
    (calls_push 0 77 ∷ moves 0 false ∷ calls_push 1 1 ∷ alone 1 6)
    ++ ((calls_push 1 2 ∷ alone 1 6)
        ++ ((calls_pop 2 ∷ alone 2 6)
            ++ ((calls_pop 2 ∷ alone 2 6) ++ ((calls_pop 2 ∷ alone 2 6) ++ (moves 0 false ∷ [])))))

refused_below_capacity :
    let s = run (begin two) stale in (s.place 0 ≡ pushed false) × (contents s.ring ≡ 2 ∷ [])
unfolding run act move
refused_below_capacity = (refl, refl)
