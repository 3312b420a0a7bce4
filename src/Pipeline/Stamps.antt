-- ===== src/Pipeline/Stamps.antt =====
-- The latency of a packet is noted once, from when it was sent to when it was received.
use native.Mathlib.Nat.{two-pow-succ, mul_assoc}
use libchan.Base.{
  ℕ, zero, suc, ◌+◌, ◌-◌, ◌*◌, ◌^◌, ◌≤◌, ◌<◌, true, false, ◌||◌, some, ◌==◌, ==_refl, leb, ltb,
  lt→ltb, le→ltb, if◌then◌else◌, if_true, if_false, Bool-cases, or_right, ◌≡◌, refl, sym, ap, subst,
  ◌∙◌, inl, inr, arith,
}
use libchan.Pipeline.Plane.{u64}
use libchan.Pipeline.Latency.{
  PathLatency, doubled, resized, latency_grow_send, store, latency_push, stamped, latency_on_send,
  latency_on_recv,
}

-- The loop ends when there are rounds enough, with no overflow on the way.
doubled-lem :
    (fuel new_cap need : ℕ)
    → need ≤ new_cap * 2 ^ fuel
    → need ≤ 2 ^ 32
    → (r : ℕ) × (doubled fuel new_cap need ≡ some r) × (need ≤ r)
unfolding doubled
doubled-lem zero new_cap need h small =
    (new_cap, if_false {b = ltb new_cap need} _ _ (ground (arith, h)), omega (arith, h))
doubled-lem (suc fuel) new_cap need h small = elim (Bool-cases (ltb new_cap need)) [
  | inl e ↦
      let fits : u64 (new_cap * 2) ≡ new_cap * 2 = ground arith in
      let (r, ends, enough) =
        doubled-lem fuel (u64 (new_cap * 2)) need
          (subst (λ t. need ≤ t) (scaled ∙ ap (λ (t : ℕ). t * 2 ^ fuel) (sym fits)) h) small in
      (r, if_true _ _ e ∙ ends, enough)
  | inr e ↦ (new_cap, if_false _ _ e, ground arith)
]
  where
    scaled : new_cap * 2 ^ suc fuel ≡ new_cap * 2 * 2 ^ fuel
    scaled =
        ap (λ (t : ℕ). new_cap * t) {x = 2 ^ suc fuel} {y = 2 * 2 ^ fuel}
          (omega (arith, two-pow-succ fuel))
        ∙ sym (mul_assoc new_cap 2 (2 ^ fuel))

-- The part of the record that `latency_grow_send` changes.
abbrev timed : PathLatency → (ℕ → ℕ) → ℕ → PathLatency
timed lat times room = record lat { send_ts = times; send_cap = room }

-- What it leaves there, for a number below the new capacity.
record Grown (lat : PathLatency) (seq : ℕ) : Type 0 where
  times : ℕ → ℕ
  room : ℕ
  ends : latency_grow_send lat seq true ≡ some (true, timed lat times room)
  holds : seq < room
  kept : (i : ℕ) → i < lat.send_cap → times i ≡ lat.send_ts i
  cleared : (i : ℕ) → lat.send_cap ≤ i → i < room → times i ≡ 0

latency_grow_send-Grown : (lat : PathLatency) (seq : ℕ) → seq < 2 ^ 32 → Grown lat seq
unfolding latency_grow_send
latency_grow_send-Grown lat seq small = elim (Bool-cases (leb (seq + 1) lat.send_cap)) [
  | inl e ↦ record {
    times = lat.send_ts;
    room = lat.send_cap;
    ends = if_true _ _ e;
    holds = ground arith;
    kept = λ i l. refl;
    cleared = λ i l m. absurd (omega (arith, l, m));
  }
  | inr e ↦
      let (r, ends, enough) = doubled-lem 33 new_cap (seq + 1) room (omega (arith, small)) in
      record {
        times = λ i. if ltb i lat.send_cap then lat.send_ts i else 0;
        room = r;
        ends = if_false _ _ e ∙ ap (resized lat true) ends;
        holds = omega (arith, enough);
        kept = λ i l. if_true _ _ (lt→ltb i lat.send_cap l);
        cleared = λ i l m. if_false _ _ (le→ltb i lat.send_cap l);
      }
]
  where
    new_cap : ℕ
    new_cap = if lat.send_cap == 0 then 4096 else lat.send_cap

    room : seq + 1 ≤ new_cap * 2 ^ 33
    room = ground arith

-- `latency_grow_send` ends for every sequence number of 32 bits, and where `realloc` succeeds it
-- succeeds: the number is then below the capacity, the times that were noted are still there, and the
-- new places hold 0.
pub latency_grow_send-ends :
    (lat : PathLatency) (seq : ℕ)
    → seq < 2 ^ 32
    → (grown : PathLatency) × (latency_grow_send lat seq true ≡ some (true, grown))
      × (seq < grown.send_cap)
      × ((i : ℕ) → i < lat.send_cap → grown.send_ts i ≡ lat.send_ts i)
      × ((i : ℕ) → lat.send_cap ≤ i → i < grown.send_cap → grown.send_ts i ≡ 0)
latency_grow_send-ends lat seq small =
    let g = latency_grow_send-Grown lat seq small in
    (timed lat g.times g.room, g.ends, g.holds, g.kept, g.cleared)

-- The record after a sample, with the time it came from cleared.
abbrev noted : PathLatency → ℕ → ℕ → PathLatency
noted lat seq ns = record {
  send_ts = store lat.send_ts seq 0;
  send_cap = lat.send_cap;
  samples = store lat.samples lat.n ns;
  n = u64 (lat.n + 1);
  cap = if leb lat.cap lat.n then (if lat.cap == 0 then 4096 else u64 (lat.cap * 2)) else lat.cap;
  sum = u64 (lat.sum + ns);
}

latency_on_recv-noted :
    (lat : PathLatency) (seq t0 done_ns : ℕ)
    → lat.send_ts seq ≡ t0
    → seq < lat.send_cap
    → 1 ≤ t0
    → t0 < done_ns
    → latency_on_recv lat seq done_ns true ≡ noted lat seq (done_ns - t0)
unfolding latency_on_recv latency_push
latency_on_recv-noted lat seq t0 done_ns stamp low set after =
    if_false _ _ (there (lat.send_ts seq) (lat.send_cap) low (omega (arith, stamp, set)))
    ∙ either
    ∙ ap (noted lat seq) (
        if_true {b = ltb (lat.send_ts seq) done_ns} _ _ (lt→ltb _ _ (omega (arith, stamp, after)))
        ∙ ap (λ (t : ℕ). done_ns - t) stamp)
  where
    there : (t room : ℕ) → seq < room → 1 ≤ t → (leb room seq || t == 0) ≡ false
    there t room l m = ground arith

    delta : ℕ
    delta = if ltb (lat.send_ts seq) done_ns then done_ns - lat.send_ts seq else 1

    either :
        (if leb lat.cap lat.n
          then (if true
              then noted lat seq delta
              else record lat { send_ts = store lat.send_ts seq 0 })
          else noted lat seq delta)
        ≡ noted lat seq delta
    either = elim (Bool-cases (leb lat.cap lat.n)) [
      | inl e ↦ if_true _ _ e
      | inr e ↦ if_false _ _ e
    ]

latency_on_recv-twice :
    (lat : PathLatency) (seq ns later : ℕ)
    → latency_on_recv (noted lat seq ns) seq later true ≡ noted lat seq ns
unfolding latency_on_recv
latency_on_recv-twice lat seq ns later =
    if_true _ _
      (or_right (leb lat.send_cap seq) _ (ap (λ (t : ℕ). t == 0) (if_true _ _ (==_refl seq))))

-- The round trip of a time, where `realloc` succeeds: a packet whose number has 32 bits, sent at a time
-- that is not 0 and received later, on a path with fewer than 2 ^ 62 samples, leaves one sample more,
-- the difference of the times, added to the sum; a second receipt of it changes nothing.
pub latency_on_recv-latency_on_send :
    (lat : PathLatency) (seq t0 done_ns : ℕ)
    → seq < 2 ^ 32
    → 1 ≤ t0
    → t0 < done_ns
    → lat.n < 2 ^ 62
    → (kept : PathLatency) × (latency_on_send lat seq t0 true ≡ some kept)
      × (let noted = latency_on_recv kept seq done_ns true in
          (noted.n ≡ lat.n + 1)
          × (noted.samples lat.n ≡ done_ns - t0)
          × (noted.sum ≡ u64 (lat.sum + (done_ns - t0)))
          × ((later : ℕ) → latency_on_recv noted seq later true ≡ noted))
unfolding latency_on_send
latency_on_recv-latency_on_send lat seq t0 done_ns small set after few =
    let g = latency_grow_send-Grown lat seq small in
    let kept : PathLatency = timed lat (store g.times seq t0) g.room in
    (
      kept,
      ap (stamped seq t0 lat) g.ends,
      subst
          (λ (got : PathLatency).
            (got.n ≡ lat.n + 1)
            × (got.samples lat.n ≡ done_ns - t0)
            × (got.sum ≡ u64 (lat.sum + (done_ns - t0)))
            × ((later : ℕ) → latency_on_recv got seq later true ≡ got))
          (sym (
            latency_on_recv-noted kept seq t0 done_ns (if_true _ _ (==_refl seq)) g.holds set
              after))
          (
            omega (arith, few),
            if_true _ _ (==_refl lat.n),
            refl,
            latency_on_recv-twice kept seq (done_ns - t0),
          ),
    )
