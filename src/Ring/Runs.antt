-- ===== src/Ring/Runs.antt =====
-- The copies of a run of slots that may cross the end of the allocation.
use libchan.Base.{
  ℕ, ◌+◌, ◌-◌, ◌%◌, ◌≤◌, ◌<◌, ◌≡◌, ap₂, fun_ext, ◌∙◌, ◌⊎◌, inl, inr, ◌++◌, memcpy, tabulate,
  tabulate-add, tabulate-congr, mod_step, add-mod-cases, arith,
}
use native.Mathlib.Nat.{mod-lt}
use libchan.Ring.{write_run, read_run}

module _ {A : Type 0} (slots : ℕ → A) (cap idx : ℕ) (buf : ℕ → A) (p k : ℕ) where
  -- The `m`th element of a run lands `m` slots on, going round at the capacity.
  pub write_run_inside :
      (m q : ℕ)
      → idx < cap
      → k ≤ cap
      → m < k
      → q ≡ (idx + m) % cap
      → write_run slots cap idx buf p k q ≡ buf (p + m)
  write_run_inside m q hi hk hm e = elim (add-mod-cases idx m cap hi (omega arith)) [
    | inl c ↦ ground (arith, c)
    | inr c ↦ ground (arith, c)
  ]

  -- A slot from which the run's start is `d` on is left alone, if the run ends before it.
  pub write_run_outside :
      (d q : ℕ)
      → q < cap
      → 0 < d
      → d + k ≤ cap
      → idx ≡ (q + d) % cap
      → write_run slots cap idx buf p k q ≡ slots q
  write_run_outside d q hq hd hk e = elim (add-mod-cases q d cap hq (omega arith)) [
    | inl c ↦ ground (arith, c)
    | inr c ↦ ground (arith, c)
  ]

  pub read_run_inside :
      (m : ℕ)
      → idx < cap
      → k ≤ cap
      → m < k
      → read_run slots cap idx buf p k (p + m) ≡ slots ((idx + m) % cap)
  read_run_inside m hi hk hm = elim (add-mod-cases idx m cap hi (omega arith)) [
    | inl c ↦ ground (arith, c)
    | inr c ↦ ground (arith, c)
  ]

  -- The reader writes nothing outside the `k` cells that it was given.
  pub read_run_outside :
      (q : ℕ)
      → idx < cap
      → k ≤ cap
      → (q < p) ⊎ (p + k ≤ q)
      → read_run slots cap idx buf p k q ≡ buf q
  read_run_outside q hi hk o = ground arith

  -- A run of one element is a single copy.
  pub write_run_one : idx < cap → memcpy slots idx buf p 1 ≡ write_run slots cap idx buf p 1
  write_run_one h = fun_ext (λ q. ground arith)

  pub read_run_one : idx < cap → memcpy buf p slots idx 1 ≡ read_run slots cap idx buf p 1
  read_run_one h = fun_ext (λ q. ground arith)

module _ {A : Type 0} (slots : ℕ → A) (cap : ℕ) (src : ℕ → A) (p : ℕ) where
  -- A run written behind `n` elements extends what the slots hold by that run.
  pub tabulate-write_run :
      (h n k : ℕ)
      → 0 < cap
      → n + k ≤ cap
      → tabulate (n + k) (λ j. write_run slots cap ((h + n) % cap) src p k ((h + j) % cap))
        ≡ tabulate n (λ j. slots ((h + j) % cap)) ++ tabulate k (λ j. src (p + j))
  tabulate-write_run h n k pos room =
      tabulate-add n k _
      ∙ ap₂ ◌++◌
          (tabulate-congr n _ _ λ j lt.
            write_run_outside slots cap ((h + n) % cap) src p k (n - j) ((h + j) % cap)
              (mod-lt (h + j) pos) (omega arith) (omega arith)
              (mod_step (h + j) (n - j) cap (h + n) (omega arith)))
          (tabulate-congr k _ _ λ j lt.
            write_run_inside slots cap ((h + n) % cap) src p k j ((h + (n + j)) % cap)
              (mod-lt (h + n) pos) (omega arith) lt
              (mod_step (h + n) j cap (h + (n + j)) (omega arith)))
