-- ===== src/Pipeline/Latency.antt =====
-- examples/dplane_pipeline.c: when packets were sent and how long each took, per path.
--
-- Times are natural numbers of nanoseconds, 0 where none is noted. Whether `realloc` succeeds is an
-- argument. Arrays are functions, of which the code uses the indices below the capacity.
use libchan.Base.{
  ℕ, zero, suc, ◌+◌, ◌-◌, ◌*◌, Bool, true, false, ◌||◌, Option, none, some, ◌==◌, leb, ltb,
  if◌then◌else◌,
}
use libchan.Pipeline.Plane.{u64}

-- `path_latency_t`
pub record PathLatency : Type 0 where
  pub send_ts : ℕ → ℕ
  pub send_cap : ℕ
  pub samples : ℕ → ℕ
  pub n : ℕ
  pub cap : ℕ
  pub sum : ℕ

-- `while (new_cap < need) new_cap *= 2`, in so many rounds at most.
unfoldable pub doubled : ℕ → ℕ → ℕ → Option ℕ
doubled zero new_cap need = if ltb new_cap need then none else some new_cap
doubled (suc fuel) new_cap need =
    let more = doubled fuel (u64 (new_cap * 2)) need in
    if ltb new_cap need then more else some new_cap

-- The array after `realloc` and `memset`.
abbrev pub regrown : PathLatency → ℕ → PathLatency
regrown lat new_cap = record lat {
  send_ts = λ i. if ltb i lat.send_cap then lat.send_ts i else 0;
  send_cap = new_cap;
}

abbrev pub resized : PathLatency → Bool → Option ℕ → Option (Bool × PathLatency)
resized lat ok none = none
resized lat ok (some new_cap) = some (if ok then (true, regrown lat new_cap) else (false, lat))

-- `latency_grow_send`. A round for each bit of `seq` and one more is enough.
unfoldable pub latency_grow_send : PathLatency → ℕ → Bool → Option (Bool × PathLatency)
latency_grow_send lat seq ok =
    let need = seq + 1 in
    let new_cap = if lat.send_cap == 0 then 4096 else lat.send_cap in
    if leb need lat.send_cap then some (true, lat) else resized lat ok (doubled 33 new_cap need)

abbrev pub store : (ℕ → ℕ) → ℕ → ℕ → ℕ → ℕ
store f k v i = if i == k then v else f i

-- `latency_push`, of which the callers do not use the result.
unfoldable pub latency_push : PathLatency → ℕ → Bool → PathLatency
latency_push lat ns ok =
    let full = leb lat.cap lat.n in
    let new_cap = if lat.cap == 0 then 4096 else u64 (lat.cap * 2) in
    let stored : PathLatency = record lat {
      samples = store lat.samples lat.n ns;
      n = u64 (lat.n + 1);
      cap = if full then new_cap else lat.cap;
      sum = u64 (lat.sum + ns);
    } in
    if full then (if ok then stored else lat) else stored

abbrev pub stamped : ℕ → ℕ → PathLatency → Option (Bool × PathLatency) → Option PathLatency
stamped seq now lat none = none
stamped seq now lat (some (false, grown)) = some grown
stamped seq now lat (some (true, grown)) =
    some (record grown { send_ts = store grown.send_ts seq now })

-- `latency_on_send`, at the time `now`.
unfoldable pub latency_on_send : PathLatency → ℕ → ℕ → Bool → Option PathLatency
latency_on_send lat seq now ok = stamped seq now lat (latency_grow_send lat seq ok)

-- `latency_on_recv`
unfoldable pub latency_on_recv : PathLatency → ℕ → ℕ → Bool → PathLatency
latency_on_recv lat seq done_ns ok =
    let t0 = lat.send_ts seq in
    let delta = if ltb t0 done_ns then done_ns - t0 else 1 in
    if leb lat.send_cap seq || t0 == 0
    then lat
    else latency_push (record lat { send_ts = store lat.send_ts seq 0 }) delta ok
