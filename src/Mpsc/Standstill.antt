-- ===== src/Mpsc/Standstill.antt =====
-- The drain of that run.
use libchan.Base.{
  ℕ, suc, ◌+◌, ◌^◌, ◌≤◌, ◌<◌, Bool, true, false, not, ◌&&◌, Option, none, some, List, [], ◌∷◌,
  length, length-append, ltb, Bool-cases, ◌≡◌, ◌≢◌, refl, sym, ap, subst, ◌∙◌, inl, inr, if_true,
  if_false, if◌then◌else◌, arith,
}
use libchan.Pipeline.Topology.{PathId, Packet, Node, tun, forward, tunnel}
use libchan.Pipeline.Plane.{PathStat}
use libchan.Pipeline.Totals.{all_paths, all_drained}
use libchan.Mpsc.Boxes.{
  Box, in_tun, in_forward, Boxes, node_receive, node_send, poll_done_try, receives, sends, polls,
  step, start,
}
use libchan.Mpsc.Traffic.{
  Moment, meanwhile, Main, Ran, still, failed, went, ◌>>=◌, inject_round, repeat, drain_loop,
  drain_remaining, run_traffic, status, begin,
}
use libchan.Mpsc.Sends.{cost}
use libchan.Mpsc.Loops.{Holds}
use libchan.Mpsc.Counts.{run_traffic-clears}
use libchan.Mpsc.Halts.{Passes, drain-ends}
use libchan.Mpsc.Jam.{Jam, step-Jam}
use libchan.Mpsc.Scene.{scene, Boxes-ext, back, out, tunnel-send, forward-receive}
use libchan.Mpsc.Stuck.{
  two_paths, at_start, tun_turn, tunnel_turn, no_turn, filling, slow_forward, cost-alike, at_main,
  below,
}
use libchan.Mpsc.Filling.{begun, filled}

-- The nodes and the polls of a drain leave the two as they are.
module _ (x y : Packet) where
  meanwhile-Jam : (s : Boxes) (ts : List (Node × Bool)) → Jam x y s → Jam x y (meanwhile s ts)
  unfolding step
  meanwhile-Jam s [] j = j
  meanwhile-Jam s ((n, true) ∷ ts) j =
      meanwhile-Jam (node_receive n s) ts (step-Jam x y s (receives n) j)
  meanwhile-Jam s ((n, false) ∷ ts) j =
      meanwhile-Jam (node_send n s) ts (step-Jam x y s (sends n) j)

  drain_loop-Jam :
      (deadline : ℕ) (done : Boxes → Bool) (ms : List Moment) (s : Boxes)
      → Jam x y s
      → Holds (λ t. Jam x y t.boxes) (drain_loop deadline done s ms)
  unfolding step
  drain_loop-Jam deadline done [] s j = tt
  drain_loop-Jam deadline done (m ∷ ms) s j =
      let s' = meanwhile s m.others in
      let j' = meanwhile-Jam s m.others j in
      let found : Ran = went (at_main s' ms) in
      let later = drain_loop deadline done (poll_done_try s') ms in
      let P : Main → Type 0 = λ t. Jam x y t.boxes in
      elim (Bool-cases (ltb m.now deadline)) [
        | inl early ↦
            subst (Holds P) (sym (if_true (if done s' then found else later) (failed s') early))
              (elim (Bool-cases (done s')) [
                | inl d ↦ subst (Holds P) {x = found} (sym (if_true found later d)) j'
                | inr d ↦
                    subst (Holds P) (sym (if_false found later d)) (
                      drain_loop-Jam deadline done ms (poll_done_try s') (step-Jam x y s' polls j'))
              ])
        | inr late ↦
            subst (Holds P) {x = failed s'}
              (sym (if_false (if done s' then found else later) (failed s') late)) tt
      ]

-- In its first look of the drain `main` finds the two waiting for each other.
waiting :
    (k j o : ℕ) (qt qf qn : List Packet) (st : PathId → PathStat)
    → length qt ≡ 4096
    → suc (length qf) ≡ 8192
    → Jam (out k) (back o) (
        meanwhile
          (scene (some (in_forward, out k)) none (some (in_forward, back j)) qt (back o ∷ qf) qn st)
          ((forward, true) ∷ (tunnel, false) ∷ []))
waiting k j o qt qf qn st lt lf =
    let ht : Option (Box × Packet) = some (in_forward, out k) in
    let hf : Option (Box × Packet) = some (in_tun, back o) in
    subst (Jam (out k) (back o))
      (sym (
        ap (node_send tunnel) (forward-receive ht none (some (in_forward, back j)) qt qf qn st o)
        ∙ tunnel-send ht hf none qt qf qn st (back j)
            (below 8192 _ (length qf) refl (omega (arith, lf)))))
      (record {
        tun_holds = refl;
        forward_holds = refl;
        full_out = not_below 8192 _ (omega (arith, lf, length-append qf (back j ∷ [])));
        full_back = not_below 4096 _ lt;
      })
  where
    not_below : (m i : ℕ) → i ≡ m → ltb i m ≡ false
    not_below m i e = ground arith

-- Several paths at once, for a count.
parallel-goes :
    (count : ℕ) (s t : Main)
    → repeat count (inject_round all_paths) s ≡ went t
    → run_traffic true none count s ≡ drain_remaining t
unfolding run_traffic
parallel-goes count s t e = ap (λ r. r >>= drain_remaining) (if_false _ _ (and_not_true _) ∙ e)
  where
    and_not_true : (b : Bool) → (b && not true) ≡ false
    and_not_true b = ground arith

only_failed :
    (P : Main → Type 0) (r : Ran)
    → r ≢ still
    → Holds P r
    → ((t : Main) → r ≡ went t → P t → ⊥)
    → status r ≡ some 1
only_failed P still ends h clash = absurd (ends refl)
only_failed P (failed b) ends h clash = refl
only_failed P (went t) ends h clash = absurd (clash t refl h)

costs : (fs : List Moment) → cost (slow_forward fs) ≤ cost fs + 100000
costs fs =
    let last : List Moment = at_start ((forward, true) ∷ (tunnel, false) ∷ []) ∷ fs in
    omega (
      arith,
      cost-alike 4095 tun_turn tunnel_turn (filling fs),
      cost-alike 4095 no_turn no_turn last,
    )

-- The program can come to a standstill. With the two paths `tunnel-forward-tun` and `tun-forward-tunnel`,
-- sent at once, a count of 8193, and `forward_node` slow, `main` returns 1 whatever the nodes do from the
-- drain on, once its clock is past the timeout of the drain and in fewer than 2 ^ 63 events.
pub run_traffic-stuck :
    (fs : List Moment)
    → Passes 30000000000 fs
    → cost fs < 2 ^ 63
    → status (run_traffic true none 8193 (begin two_paths (slow_forward fs))) ≡ some 1
run_traffic-stuck fs late few =
    let m = at_start ((forward, true) ∷ (tunnel, false) ∷ []) in
    let done : Boxes → Bool = λ s. all_drained s.stats in
    let r = run_traffic true none 8193 (begin two_paths (slow_forward fs)) in
    let (k, j, o, qt, qf, qn, st, runs, lt, lf) = filled 8193 4095 (m ∷ fs) refl refl in
    let s =
      scene (some (in_forward, out k)) none (some (in_forward, back j)) qt (back o ∷ qf) qn st in
    let stopped : Main → Type 0 = λ t. Jam (out k) (back o) t.boxes in
    let drains : r ≡ drain_remaining (at_main s (m ∷ fs)) =
      ap (λ b. run_traffic true none 8193 (at_main b (slow_forward fs)))
        (Boxes-ext (start two_paths) (scene none none none [] [] [] begun)
          (refl, refl, refl, refl, refl, refl) (refl, refl, refl, refl, refl) refl)
      ∙ parallel-goes 8193 _ _ runs in
    only_failed stopped r (λ e. drain-ends done 30 s m fs late (sym drains ∙ e))
      (subst (Holds stopped) (sym drains) (
        drain_loop-Jam (out k) (back o) 30000000000 done fs (meanwhile s m.others)
          (waiting k j o qt qf qn st lt lf)))
      (λ t e h.
        let (a, b, c, hands) =
          run_traffic-clears true none 8193 two_paths (slow_forward fs) t
            (omega (arith, few, costs fs)) e in
        cc (sym h.tun_holds ∙ hands tun))
