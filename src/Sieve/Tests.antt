-- ===== src/Sieve/Tests.antt =====
-- A run of the sieve.
use libchan.Base.{true, ℕ, ◌+◌, ◌≤◌, false, List, [], ◌∷◌, ◌++◌, length, ◌≡◌, refl, ◌⊎◌}
use libchan.Sieve.{Event, threads, mains, generate_step, run, begin}
use libchan.Sieve.Stream.{up_from}
use libchan.Sieve.Ends.{ends_with_primes}
use libchan.Sieve.Primes.{primes, max_stage, prints_primes}

-- 2 and 3 come through, and 4 is on its way.
abbrev early : List Event
early = threads 0 ∷ mains ∷ threads 1 ∷ threads 0 ∷ threads 0 ∷ mains ∷ threads 2 ∷ threads 1 ∷ []

prints_primes_example :
    let m = run begin early in
    ((rest : List ℕ) × (m.printed ++ rest ≡ primes (up_from 2)))
    × ((m.over ≡ false) ⊎ (m.printed ≡ primes (up_from 2)))
    × (2 + length m.printed ≤ max_stage)
prints_primes_example = prints_primes early

early-prints : (run begin early).printed ≡ 2 ∷ 3 ∷ []
unfolding run generate_step
early-prints = refl

ends_with_primes_example :
    (fs : List Event) × ((run begin (early ++ fs)).over ≡ true)
    × ((run begin (early ++ fs)).printed ≡ primes (up_from 2))
ends_with_primes_example = ends_with_primes early
