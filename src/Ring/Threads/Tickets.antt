-- ===== src/Ring/Threads/Tickets.antt =====
-- The tickets of one side of the ring: a compare-exchange takes the next one, and the stores to the
-- tail give them back in order.
use libchan.Base.{
  ℕ, ◌+◌, ◌^◌, ◌≤◌, ◌<◌, false, Option, none, some, ◌==◌, ==_iff, ==_refl, Bool-cases, add32, ◌≡◌,
  sym, ap, ◌∙◌, inl, inr, arith,
}
use mathlib.Core.Option.{some-injective}

-- Every ticket that a thread holds is one of those from number `lo` to `hi`, counted from the cursor
-- `base`; no two threads hold the same, and each of them is held.
pub record Tickets (base : ℕ) (held : ℕ → Option ℕ) (lo hi : ℕ) : Type 0 where
  pub within : (n p : ℕ) → held n ≡ some p → (i : ℕ) × (p ≡ add32 base i) × (lo ≤ i) × (i < hi)
  pub unique : (n k p : ℕ) → held n ≡ some p → held k ≡ some p → n ≡ k
  pub owner : (i : ℕ) → lo ≤ i → i < hi → (n : ℕ) × (held n ≡ some (add32 base i))

pub add32-injective : (base i j : ℕ) → i < 2 ^ 32 → j < 2 ^ 32 → add32 base i ≡ add32 base j → i ≡ j
add32-injective base i j hi hj e = omega arith

module _ {base : ℕ} {held held' : ℕ → Option ℕ} {lo hi : ℕ} where
  pub Tickets-same :
      ((n : ℕ) → held' n ≡ held n) → Tickets base held lo hi → Tickets base held' lo hi
  Tickets-same same t = record {
    within = λ n p e. t.within n p (sym (same n) ∙ e);
    unique = λ n k p e f. t.unique n k p (sym (same n) ∙ e) (sym (same k) ∙ f);
    owner = λ i l m. let (n, e) = t.owner i l m in (n, same n ∙ e);
  }

  -- Thread `n` takes the next ticket.
  pub Tickets-take :
      (n : ℕ)
      → held n ≡ none
      → held' n ≡ some (add32 base hi)
      → ((k : ℕ) → (k == n) ≡ false → held' k ≡ held k)
      → lo ≤ hi
      → hi < 2 ^ 32
      → Tickets base held lo hi
      → Tickets base held' lo (hi + 1)
  Tickets-take n free took others le small t = record {
    within = λ k p e. elim (Bool-cases (k == n)) [
      | inl same ↦
          (hi, some-injective _ _ (sym e ∙ ap held' ((==_iff k n).0 same) ∙ took), le, omega arith)
      | inr other ↦
          let (i, f, l, m) = t.within k p (sym (others k other) ∙ e) in (i, f, l, omega (arith, m))
    ];
    unique = λ k j p e f. elim (Bool-cases (k == n)) [
      | inl same ↦ elim (Bool-cases (j == n)) [
        | inl same' ↦ (==_iff k n).0 same ∙ sym ((==_iff j n).0 same')
        | inr other ↦ absurd (new j p other f (sym e ∙ ap held' ((==_iff k n).0 same) ∙ took))
      ]
      | inr other ↦ elim (Bool-cases (j == n)) [
        | inl same' ↦ absurd (new k p other e (sym f ∙ ap held' ((==_iff j n).0 same') ∙ took))
        | inr other' ↦ t.unique k j p (sym (others k other) ∙ e) (sym (others j other') ∙ f)
      ]
    ];
    owner = λ i l m. elim (Bool-cases (i == hi)) [
      | inl last ↦ (n, took ∙ ap (λ (x : ℕ). some (add32 base x)) (sym ((==_iff i hi).0 last)))
      | inr before ↦
          let (k, e) = t.owner i l (less i before m) in
          elim (Bool-cases (k == n)) [
            | inl same ↦ cc (sym e ∙ ap held ((==_iff k n).0 same) ∙ free)
            | inr other ↦ (k, others k other ∙ e)
          ]
    ];
  }
    where
      new : (k p : ℕ) → (k == n) ≡ false → held' k ≡ some p → some p ≡ some (add32 base hi) → ⊥
      new k p other e f =
          let (i, g, l, m) = t.within k p (sym (others k other) ∙ e) in
          let same =
            add32-injective base i hi (omega (arith, m, small)) small
              (sym g ∙ some-injective p (add32 base hi) f) in
          omega (arith, same, m)

      less : (i : ℕ) → (i == hi) ≡ false → i < hi + 1 → i < hi
      less i before m = ground arith

  -- Thread `n` gives the oldest ticket back.
  pub Tickets-leave :
      (n : ℕ)
      → held n ≡ some (add32 base lo)
      → held' n ≡ none
      → ((k : ℕ) → (k == n) ≡ false → held' k ≡ held k)
      → hi < 2 ^ 32
      → Tickets base held lo hi
      → Tickets base held' (lo + 1) hi
  Tickets-leave n had free others small t = record {
    within = λ k p e. elim (Bool-cases (k == n)) [
      | inl same ↦ cc (sym e ∙ ap held' ((==_iff k n).0 same) ∙ free)
      | inr other ↦
          let e' = sym (others k other) ∙ e in
          let (i, f, l, m) = t.within k p e' in (i, f, later k p i other e' f l, m)
    ];
    unique = λ k j p e f. elim (Bool-cases (k == n)) [
      | inl same ↦ cc (sym e ∙ ap held' ((==_iff k n).0 same) ∙ free)
      | inr other ↦ elim (Bool-cases (j == n)) [
        | inl same' ↦ cc (sym f ∙ ap held' ((==_iff j n).0 same') ∙ free)
        | inr other' ↦ t.unique k j p (sym (others k other) ∙ e) (sym (others j other') ∙ f)
      ]
    ];
    owner = λ i l m.
        let (k, e) = t.owner i (omega (arith, l)) m in
        elim (Bool-cases (k == n)) [
          | inl same ↦
              let again = some-injective _ _ (sym e ∙ ap held ((==_iff k n).0 same) ∙ had) in
              let (j, f, l', m') = t.within n _ had in
              absurd (
                omega (
                  arith,
                  l,
                  add32-injective base i lo (omega (arith, m, small)) (omega (arith, l, m, small))
                      again,
                ))
          | inr other ↦ (k, others k other ∙ e)
        ];
  }
    where
      later :
          (k p i : ℕ) → (k == n) ≡ false → held k ≡ some p → p ≡ add32 base i → lo ≤ i → lo + 1 ≤ i
      later k p i other e f l = elim (Bool-cases (lo == i)) [
        | inl first ↦
            let g = ap (λ (x : ℕ). some (add32 base x)) ((==_iff lo i).0 first) in
            let same = t.unique k n p e (had ∙ g ∙ ap some (sym f)) in
            cc (sym other ∙ ap (λ (x : ℕ). x == n) same ∙ ==_refl n)
        | inr past ↦ ground (arith, l)
      ]

-- Another thread does not hold the ticket of this one.
pub other-ticket {ℓ} :
    {X : Type ℓ} {base lo hi : ℕ} {held : ℕ → Option ℕ} (n k c d : ℕ)
    → Tickets base held lo hi
    → held n ≡ some c
    → (k == n) ≡ false
    → held k ≡ some d
    → c ≡ d
    → X
other-ticket n k c d t mine other theirs e =
    cc (sym other ∙ ap (λ (x : ℕ). x == n) (t.unique k n d theirs (mine ∙ ap some e)) ∙ ==_refl n)
