-- ===== src/Ring/Init.antt =====
-- The ring that `ring_lf_init` returns.
use libchan.Base.{
  ℕ, ◌*◌, ◌%◌, ◌^◌, ◌≤◌, ◌<◌, ◌≡◌, refl, ap, subst, ◌∙◌, Option, none, some, [], ◌==◌, ◌||◌, u32,
  Bool-cases, inl, inr, arith,
}
use mathlib.Core.Option.{some-injective}
use libchan.Ring.{Ring, fresh, init, next_pow2}
use libchan.Ring.Valid.{IsValid, contents}
use libchan.Ring.Pow2.{next_pow2-least}

module _ {A : Type 0} where
  from_malloc :
      (o : Option (ℕ → A)) (actual elem_size : ℕ) {r : Ring A}
      → (let p : Option (Ring A) = elim o [
        | none ↦ none
        | some slots ↦ some (fresh actual elem_size slots)
      ] in
          p)
        ≡ some r
      → (slots : ℕ → A) × (fresh actual elem_size slots ≡ r)
  from_malloc none actual elem_size e = cc
  from_malloc (some slots) actual elem_size e = (slots, some-injective _ _ e)

  pub init-fresh :
      (malloc : ℕ → Option (ℕ → A)) (cap elem_size : ℕ) {r : Ring A}
      → init malloc cap elem_size ≡ some r
      → (slots : ℕ → A) × (fresh (next_pow2 (u32 cap)) elem_size slots ≡ r)
  unfolding init
  init-fresh malloc cap elem_size e = elim (Bool-cases (cap == 0 || elem_size == 0)) [
    | inl bad ↦ cc (rw (bad, init) at e)
    | inr good ↦
        from_malloc (malloc (next_pow2 (u32 cap) * elem_size % 2 ^ 64)) (next_pow2 (u32 cap))
          elem_size (rw (good, init) at e)
  ]

  fresh-IsValid :
      (k elem_size : ℕ) (slots : ℕ → A) {actual : ℕ}
      → k ≤ 31
      → actual ≡ 2 ^ k
      → IsValid (fresh actual elem_size slots)
  fresh-IsValid k elem_size slots h e = record {
    shape = record { bits = k; bits_le = h; capacity_lem = e; mask_lem = refl };
    prod_done = refl;
    cons_done = refl;
    prod_lt = omega arith;
    cons_lt = omega arith;
    fits = omega arith;
  }

  -- For a capacity of 1 to 2 ^ 31, `ring_lf_init` gives a valid empty ring whose capacity is at least
  -- the one asked for and less than twice that.
  pub init-IsValid :
      (malloc : ℕ → Option (ℕ → A)) (cap elem_size : ℕ) {r : Ring A}
      → 0 < cap
      → cap ≤ 2 ^ 31
      → init malloc cap elem_size ≡ some r
      → IsValid r × (contents r ≡ []) × (cap ≤ r.capacity) × (r.capacity < 2 * cap)
  init-IsValid malloc cap elem_size {r} pos le e =
      let (slots, made) = init-fresh malloc cap elem_size e in
      let (k, small, pow, lower, upper) = next_pow2-least cap pos le in
      let asked : next_pow2 (u32 cap) ≡ 2 ^ k = ap next_pow2 (omega arith) ∙ pow in
      subst (λ t. IsValid t × (contents t ≡ []) × (cap ≤ t.capacity) × (t.capacity < 2 * cap)) made
        (fresh-IsValid k elem_size slots small asked, refl, omega arith, omega arith)
