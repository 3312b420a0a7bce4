-- ===== src/Sieve/Primes.antt =====
-- What the sieve prints, against prime numbers by trial division.
use libchan.Base.{
  true, ℕ, zero, suc, ◌+◌, ◌-◌, ◌%◌, ◌≤◌, Bool, false, ◌||◌, List, [], ◌∷◌, ◌++◌, append-nil,
  length, length-append, Bool-cases, ◌⊎◌, inl, inr, ◌==◌, if◌then◌else◌, ◌≡◌, refl, sym, ap, ◌∙◌,
  arith,
}
use libchan.Sieve.{limit, Event, run, begin}
use libchan.Sieve.Stream.{up_from, survivors, stream}
use libchan.Sieve.Output.{sieve, Sieving, run-Sieving}

-- Whether one of the `n` numbers from `d` on divides `x`, and the primes among some numbers from 2 on.
unfoldable pub divided : ℕ → ℕ → ℕ → Bool
divided zero d x = false
divided (suc n) d x = x % d == 0 || divided n (d + 1) x

unfoldable pub primes : List ℕ → List ℕ
primes [] = []
primes (x ∷ xs) = let rest = primes xs in if divided (x - 2) 2 x then rest else x ∷ rest

pub sieve-primes : sieve limit (up_from 2) ≡ primes (up_from 2)
unfolding sieve survivors primes divided
sieve-primes = refl

pub begin-Sieving : Sieving (up_from 2) begin
unfolding stream
begin-Sieving = record { output = refl; short = omega arith; tidy = λ c. cc; finished = λ c. cc }

-- MAXSTAGE
abbrev pub max_stage : ℕ
max_stage = 256

length-primes : length (primes (up_from 2)) ≡ 100
unfolding primes divided
length-primes = refl

pub over-printed :
    (es : List Event) → (run begin es).over ≡ true → (run begin es).printed ≡ primes (up_from 2)
unfolding sieve
over-printed es c =
    let m = run begin es in
    let h = run-Sieving (up_from 2) es begin begin-Sieving in
    sym (append-nil m.printed)
    ∙ ap (λ t. m.printed ++ sieve limit t) (sym (h.finished c))
    ∙ h.output
    ∙ sieve-primes

-- Under every schedule of the threads, what `main` has printed is the start of the list of the primes up
-- to 541, in order; it is still in its loop, or it has printed all of them; and its arrays have room for
-- one more filter, besides `generate` and the filters of the primes that it has printed.
pub prints_primes :
    (es : List Event)
    → let m = run begin es in
      ((rest : List ℕ) × (m.printed ++ rest ≡ primes (up_from 2)))
      × ((m.over ≡ false) ⊎ (m.printed ≡ primes (up_from 2)))
      × (2 + length m.printed ≤ max_stage)
unfolding sieve
prints_primes es =
    let m = run begin es in
    let h = run-Sieving (up_from 2) es begin begin-Sieving in
    let shown = h.output ∙ sieve-primes in
    (
      (sieve limit (stream m.chain), shown),
      elim (Bool-cases m.over) [ inl c ↦ inr (over-printed es c) | inr c ↦ inl c ],
      omega (
        arith,
        length-append m.printed (sieve limit (stream m.chain)),
        ap length shown,
        length-primes,
      ),
    )
