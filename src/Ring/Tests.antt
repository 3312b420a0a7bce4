-- ===== src/Ring/Tests.antt =====
-- Runs of the ring's operations on small rings, with cursors at the wrap at 2 ^ 32.
use libchan.Base.{
  ℕ, ◌+◌, ◌-◌, ◌^◌, ◌≡◌, refl, true, false, none, some, ◌++◌, length, tabulate, min, if◌then◌else◌,
  arith,
}
use libchan.Fifo.{put, get}
use libchan.Ring.{Ring, push, pop, spsc_push, count, enqueue_burst, dequeue_burst}
use libchan.Ring.Valid.{IsValid, contents}
use libchan.Ring.Burst.{enqueue_burst_appends, dequeue_burst_takes}
use libchan.Ring.Push.{push_refines, pop_refines}
use libchan.Ring.Spsc.{reloaded_tail, ProducerCache, spsc_push-eq-push}
use libchan.Ring.Overrun.{burst_round, spsc_push_overruns}

-- Cell `i` holds `100 + i`, slot `i` holds `10 + i`.
abbrev buffer : ℕ → ℕ
buffer i = 100 + i

abbrev slots_4 : ℕ → ℕ
slots_4 i = 10 + i

-- A ring of four slots between the cursors `cons` and `prod`, with its caches.
abbrev ring_4 : ℕ → ℕ → ℕ → ℕ → Ring ℕ
ring_4 cons prod cached_cons cached_prod = record {
  prod_head = prod;
  prod_tail = prod;
  cached_cons_tail = cached_cons;
  cons_head = cons;
  cons_tail = cons;
  cached_prod_tail = cached_prod;
  mask = 3;
  capacity = 4;
  elem_size = 8;
  slots = slots_4;
}

-- Two elements, across the wrap.
abbrev two : Ring ℕ
two = ring_4 4294967295 1 4294967295 1

two-IsValid : IsValid two
two-IsValid = record {
  shape = record { bits = 2; bits_le = omega arith; capacity_lem = refl; mask_lem = refl };
  prod_done = refl;
  cons_done = refl;
  prod_lt = omega arith;
  cons_lt = omega arith;
  fits = omega arith;
}

enqueue_burst_appends_example :
    let (k, r') = enqueue_burst two buffer 0 3 in
    (k ≡ min 3 (4 - length (contents two)))
    × (contents r' ≡ contents two ++ tabulate k (λ j. buffer (0 + j)))
    × IsValid r'
enqueue_burst_appends_example = enqueue_burst_appends buffer 0 3 two-IsValid

dequeue_burst_takes_example :
    let (k, r', out') = dequeue_burst two buffer 5 3 in
    (k ≡ min 3 (length (contents two)))
    × (tabulate k (λ j. out' (5 + j)) ++ contents r' ≡ contents two)
    × IsValid r'
dequeue_burst_takes_example = dequeue_burst_takes buffer 5 3 two-IsValid

push_refines_example :
    let (done, r') = push two buffer 7 in
    ((done, contents r') ≡ put 4 (contents two) (buffer 7)) × IsValid r'
push_refines_example = push_refines buffer 7 two-IsValid

pop_refines_example :
    let (done, r', out') = pop two buffer 7 in
    (get (contents two) ≡ (if done then some (out' 7, contents r') else none)) × IsValid r'
pop_refines_example = pop_refines buffer 7 two-IsValid

spsc_push-eq-push_example :
    let (done, r') = push two buffer 7 in
    (spsc_push two buffer 7 ≡ (done, record r' { cached_cons_tail = reloaded_tail two }))
    × ProducerCache (spsc_push two buffer 7).1
spsc_push-eq-push_example = spsc_push-eq-push buffer 7 two-IsValid (omega arith, omega arith)

-- A full ring of 2 ^ 31 slots, and the element 107.
spsc_push_overruns_example :
    let r = burst_round buffer buffer 8 slots_4 in
    (count r ≡ r.capacity)
    × ((pop r buffer 3).2 3 ≡ buffer (2 ^ 31 - 1))
    × ((push r buffer 7).0 ≡ false)
    × ((spsc_push r buffer 7).0 ≡ true)
    × ((pop (spsc_push r buffer 7).1 buffer 3).2 3 ≡ buffer 7)
spsc_push_overruns_example = spsc_push_overruns buffer buffer 8 slots_4 buffer 7 3
