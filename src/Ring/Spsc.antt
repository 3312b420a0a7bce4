-- ===== src/Ring/Spsc.antt =====
-- The cursor-cached variants `ring_spsc_push` and `ring_spsc_pop` of src/libchan_internal.h.
use libchan.Base.{ℕ, ◌+◌, ◌^◌, ◌≤◌, ◌<◌, ◌≡◌, ◌⊎◌, if◌then◌else◌, leb, sub32, arith}
use libchan.Ring.{Ring, push, pop, spsc_push, spsc_pop, not_before}
use libchan.Ring.Valid.{IsValid, capacity-pos, capacity-le}
use libchan.Ring.Burst.{size}

module _ {A : Type 0} where
  -- The producer's cache lies behind `cons.tail`, and less than 2 ^ 32 behind `prod.head`.
  abbrev pub ProducerCache : Ring A → Type 0
  ProducerCache r =
      (r.cached_cons_tail < 2 ^ 32) × (size r + sub32 r.cons_tail r.cached_cons_tail < 2 ^ 32)

  -- The consumer's cache lies between `cons.head` and `prod.tail`, or less than 2 ^ 31 behind
  -- `cons.head`.
  abbrev pub ConsumerCache : Ring A → Type 0
  ConsumerCache r =
      (r.cached_prod_tail < 2 ^ 32)
      × ((sub32 r.cached_prod_tail r.cons_head ≤ size r)
          ⊎ (sub32 r.cons_head r.cached_prod_tail < 2 ^ 31))

  -- The cache after a push, and after a pop.
  abbrev pub reloaded_tail : Ring A → ℕ
  reloaded_tail r =
      if leb r.capacity (sub32 r.prod_head r.cached_cons_tail)
      then r.cons_tail
      else r.cached_cons_tail

  abbrev pub reloaded_prod : Ring A → ℕ
  reloaded_prod r =
      if not_before r.cons_head r.cached_prod_tail then r.prod_tail else r.cached_prod_tail

  -- On a valid ring whose producer cache lies behind `cons.tail` and less than 2 ^ 32 behind
  -- `prod.head`, `ring_spsc_push` does what `ring_lf_push` does, and else only reloads the cache,
  -- which then is again such a cache.
  pub spsc_push-eq-push :
      {r : Ring A} (src : ℕ → A) (p : ℕ)
      → IsValid r
      → ProducerCache r
      → let (done, r') = push r src p in
        (spsc_push r src p ≡ (done, record r' { cached_cons_tail = reloaded_tail r }))
        × ProducerCache (spsc_push r src p).1
  unfolding push spsc_push
  spsc_push-eq-push {r} src p v c = ground (arith, capacity-le v.shape, capacity-pos v.shape)

  -- On a valid ring whose consumer cache lies between `cons.head` and `prod.tail`, or less than
  -- 2 ^ 31 behind `cons.head`, `ring_spsc_pop` does what `ring_lf_pop` does, and else only reloads
  -- the cache, which then is again such a cache.
  pub spsc_pop-eq-pop :
      {r : Ring A} (out : ℕ → A) (p : ℕ)
      → IsValid r
      → ConsumerCache r
      → let (done, r', out') = pop r out p in
        (spsc_pop r out p ≡ (done, record r' { cached_prod_tail = reloaded_prod r }, out'))
        × ConsumerCache (spsc_pop r out p).1
  unfolding pop spsc_pop
  spsc_pop-eq-pop {r} out p v c = ground (arith, capacity-le v.shape, capacity-pos v.shape)
