-- ===== src/Pipeline/Checker.antt =====
-- What the accounts of a path prove about the packets that came, whatever they were.
use libchan.Base.{
  ℕ, suc, ◌+◌, ◌^◌, ◌≤◌, ◌<◌, true, not, List, [], ◌∷◌, ltb, length, tabulate, tabulate-congr,
  if_true, if_false, Bool-cases, ◌≡◌, refl, sym, ap, ap₂, subst, ◌∙◌, inl, inr, arith,
}
use libchan.Pipeline.Plane.{PathStat, stat_on_recv}

-- A path after these packets came, in this order.
unfoldable pub received : PathStat → List ℕ → PathStat
received s [] = s
received s (i ∷ is) = received (stat_on_recv s i) is

-- Every number is below 2 ^ 32 - 1.
abbrev pub Small : List ℕ → Type 0
Small [] = Unit
Small (i ∷ is) = (i < 4294967295) × Small is

-- The accounts after `k` packets, where no counter has passed its end.
pub record Balanced (s : PathStat) (k : ℕ) : Type 0 where
  pub enabled_lem : s.enabled ≡ true
  pub came : s.recv + s.dup ≡ k
  pub covered : s.lost + s.recv ≡ s.next_expected
  pub next_small : s.next_expected ≤ 4294967295

-- What one packet does, where the path is enabled.
record Next (s s' : PathStat) (i k : ℕ) : Type 0 where
  balanced : Balanced s' k
  in_turn :
      s'.lost ≡ 0
      → s'.dup ≡ 0
      → (i ≡ s.next_expected) × (s'.next_expected ≡ i + 1) × (s.lost ≡ 0) × (s.dup ≡ 0)

stat_on_recv-Next :
    (s : PathStat) (i k : ℕ)
    → Balanced s k
    → i < 4294967295
    → k < 2 ^ 63
    → Next s (stat_on_recv s i) i (k + 1)
unfolding stat_on_recv
stat_on_recv-Next s i k b small few =
    subst (λ t. Next s t i (k + 1)) (sym (if_false _ _ (ap not b.enabled_lem)))
      (elim (Bool-cases (ltb i s.next_expected)) [
        | inl e ↦
            subst (λ t. Next s t i (k + 1)) (sym (if_true _ _ e))
              (record {
                balanced = record {
                  enabled_lem = b.enabled_lem;
                  came = omega (arith, b.came, few);
                  covered = b.covered;
                  next_small = b.next_small;
                };
                in_turn = λ h g. absurd (omega (arith, b.came, few, g));
              })
        | inr e ↦
            subst (λ t. Next s t i (k + 1)) (sym (if_false _ _ e))
              (elim (Bool-cases (ltb s.next_expected i)) [
                | inl f ↦
                    let l : s.next_expected < i = ground arith in
                    subst (λ t. Next s t i (k + 1)) (sym (if_true _ _ f))
                      (record {
                        balanced = record {
                          enabled_lem = b.enabled_lem;
                          came = omega (arith, b.came, few);
                          covered = omega (arith, b.covered, l, small, few, b.came);
                          next_small = omega (arith, small);
                        };
                        in_turn = λ h g. absurd (omega (arith, b.covered, l, small, h));
                      })
                | inr f ↦
                    let same : i ≡ s.next_expected = ground arith in
                    subst (λ t. Next s t i (k + 1)) (sym (if_false _ _ f))
                      (record {
                        balanced = record {
                          enabled_lem = b.enabled_lem;
                          came = omega (arith, b.came, few);
                          covered = omega (arith, b.covered, same, small);
                          next_small = omega (arith, small, same);
                        };
                        in_turn = λ h g. (same, omega (arith, same, small), h, g);
                      })
              ])
      ])

received-Balanced :
    (is : List ℕ) (s : PathStat) (k : ℕ)
    → Balanced s k
    → Small is
    → k + length is < 2 ^ 63
    → Balanced (received s is) (k + length is)
unfolding received
received-Balanced [] s k b small few = subst (Balanced s) {x = k} {y = k + 0} (omega arith) b
received-Balanced (i ∷ is) s k b small few =
    subst (Balanced (received (stat_on_recv s i) is)) {x = k + 1 + length is}
      {y = k + suc (length is)} (omega arith)
      (received-Balanced is (stat_on_recv s i) (k + 1)
        (stat_on_recv-Next s i k b small.0 (omega (arith, few))).balanced small.1
        (omega (arith, few)))

received-in_order :
    (is : List ℕ) (s : PathStat) (k : ℕ)
    → Balanced s k
    → Small is
    → k + length is < 2 ^ 63
    → (received s is).lost ≡ 0
    → (received s is).dup ≡ 0
    → (is ≡ tabulate (length is) (λ j. s.next_expected + j)) × (s.lost ≡ 0) × (s.dup ≡ 0)
unfolding received
received-in_order [] s k b small few l d = (refl, l, d)
received-in_order (i ∷ is) s k b small few l d =
    let n = stat_on_recv-Next s i k b small.0 (omega (arith, few)) in
    let (rest, lost, dup) =
      received-in_order is (stat_on_recv s i) (k + 1) n.balanced small.1 (omega (arith, few)) l d in
    let (same, next, lost_before, dup_before) = n.in_turn lost dup in
    (
      ap₂ (λ (h : ℕ) t. h ∷ t) (omega (arith, same))
          (rest
            ∙ tabulate-congr (length is) (λ j. (stat_on_recv s i).next_expected + j)
                (λ j. s.next_expected + suc j) (λ j m. omega (arith, same, next))),
      lost_before,
      dup_before,
    )

-- An enabled path on which nothing was received.
abbrev pub fresh : PathStat
fresh = record { enabled = true; sent = 0; recv = 0; dup = 0; lost = 0; next_expected = 0 }

fresh-Balanced : Balanced fresh 0
fresh-Balanced = record {
  enabled_lem = refl;
  came = refl;
  covered = refl;
  next_small = omega arith;
}

-- Every packet that comes is counted, as received or as duplicate, and the number expected next is the
-- number received and lost.
pub received-Balanced-fresh :
    (is : List ℕ) → Small is → length is < 2 ^ 63 → Balanced (received fresh is) (length is)
received-Balanced-fresh is small few =
    subst (Balanced (received fresh is)) {x = 0 + length is} {y = length is} (omega arith)
      (received-Balanced is fresh 0 fresh-Balanced small (omega (arith, few)))

-- The checks of `stat_on_recv` are sound for whatever comes on an enabled path, in whatever order, as
-- long as the numbers are below 2 ^ 32 - 1 and fewer than 2 ^ 63 come: if no packet was counted as lost
-- or as duplicate, then what came are the numbers from 0 on, each once and in order, and all of them
-- were counted as received.
pub received-lem :
    (is : List ℕ)
    → Small is
    → length is < 2 ^ 63
    → (received fresh is).lost ≡ 0
    → (received fresh is).dup ≡ 0
    → (is ≡ tabulate (length is) (λ j. j)) × ((received fresh is).recv ≡ length is)
received-lem is small few l d = (
  (received-in_order is fresh 0 fresh-Balanced small (omega (arith, few)) l d).0
      ∙ tabulate-congr (length is) (λ j. 0 + j) (λ j. j) (λ j m. omega arith),
  omega (arith, (received-Balanced-fresh is small few).came, d),
)
