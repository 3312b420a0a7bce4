-- ===== src/Mpsc/Stuck.antt =====
-- A run of the pipeline with inboxes for a count of 8193, with the options `-P` and `-l 3,4`: what the
-- nodes do at each look of `main`.
use libchan.Base.{
  ℕ, zero, suc, ◌+◌, ◌*◌, ◌<◌, Bool, true, false, ◌||◌, none, List, [], ◌∷◌, ◌++◌, length,
  length-append, ltb, ◌==◌, ◌≡◌, refl, ap, ◌∙◌, arith,
}
use libchan.Pipeline.Topology.{
  PathId, path_tunnel_forward_tun, path_tun_forward_tunnel, Packet, Node, tun, forward, tunnel,
  path_id,
}
use libchan.Pipeline.Plane.{PathStat}
use libchan.Pipeline.Totals.{all_paths}
use libchan.Mpsc.Boxes.{Boxes, node_send}
use libchan.Mpsc.Traffic.{Moment, Main, Ran, still, failed, went, ◌>>=◌, inject_round, repeat}
use libchan.Mpsc.Sends.{cost}
use libchan.Mpsc.Scene.{
  scene, back, out, number, more, tun-receive, tun-send, tunnel-receive, tunnel-send, wait-back,
  wait-out, OnlyTwo, two-round,
}

abbrev pub two_paths : PathId → Bool
two_paths p = path_id p == 2 || path_id p == 3

abbrev pub at_start : List (Node × Bool) → Moment
at_start others = record { others = others; now = 0 }

-- The moments of `n` rounds that are alike, and what follows.
unfoldable pub alike : ℕ → Moment → Moment → List Moment → List Moment
alike zero a b ms = ms
alike (suc n) a b ms = a ∷ b ∷ alike n a b ms

abbrev pub tun_turn : Moment
tun_turn = at_start ((tun, true) ∷ (tun, false) ∷ [])

abbrev pub tunnel_turn : Moment
tunnel_turn = at_start ((tunnel, true) ∷ (tunnel, false) ∷ [])

abbrev pub no_turn : Moment
no_turn = at_start []

-- `forward_node` gets no turn before the drain. In the first 4096 rounds all packets come into its inbox;
-- in a round and the next, `tunnel_node` and `tun_node` each take one more packet; in the last 4095 the
-- inbox of `tun_node` fills. Then `forward_node` takes its first packet, and `tunnel_node` sends.
abbrev pub filling : List Moment → List Moment
filling ms =
    tun_turn
    ∷ at_start ((tunnel, true) ∷ [])
    ∷ at_start ((tun, true) ∷ [])
    ∷ no_turn
    ∷ alike 4095 no_turn no_turn (at_start ((forward, true) ∷ (tunnel, false) ∷ []) ∷ ms)

abbrev pub slow_forward : List Moment → List Moment
slow_forward ms = no_turn ∷ tunnel_turn ∷ alike 4095 tun_turn tunnel_turn (filling ms)

pub cost-alike :
    (n : ℕ) (a b : Moment) (ms : List Moment)
    → cost (alike n a b ms) ≡ n * (4 + (length a.others + length b.others)) + cost ms
unfolding alike
cost-alike zero a b ms = omega arith
cost-alike (suc n) a b ms = omega (arith, cost-alike n a b ms)

-- A state of `main`.
abbrev pub at_main : Boxes → List Moment → Main
at_main s ms = record { boxes = s; ahead = ms }

bind-went :
    (r : Ran) (f g h : Main → Ran) (t : Main)
    → ((u : Main) → f u ≡ went t → g u ≡ h t)
    → (r >>= f) ≡ went t
    → (r >>= g) ≡ h t
bind-went still f g h t again e = cc
bind-went (failed b) f g h t again e = cc
bind-went (went u) f g h t again e = again u e

pub repeat-went :
    (n k : ℕ) (f : Main → Ran) (s t : Main)
    → repeat n f s ≡ went t
    → repeat (n + k) f s ≡ repeat k f t
repeat-went zero k f s t e =
    ap (λ (i : ℕ). repeat i f s) {x = 0 + k} {y = k} (omega arith) ∙ ap (λ r. r >>= repeat k f) e
repeat-went (suc n) k f s t e =
    ap (λ (i : ℕ). repeat i f s) {x = suc n + k} {y = suc (n + k)} (omega arith)
    ∙ bind-went (f s) (repeat n f) (repeat (n + k) f) (repeat k f) t
        (λ u g. repeat-went n k f u t g) e

pub once : (k : ℕ) (f : Main → Ran) (s t : Main) → f s ≡ went t → repeat (suc k) f s ≡ repeat k f t
once k f s t e = ap (λ r. r >>= repeat k f) e

abbrev pub both : (PathId → PathStat) → PathId → PathStat
both st = more path_tun_forward_tunnel (more path_tunnel_forward_tun st)

-- The first round.
pub first_round :
    (st : PathId → PathStat) (ms : List Moment)
    → OnlyTwo st
    → inject_round all_paths
        (at_main (scene none none none [] [] [] st) (no_turn ∷ tunnel_turn ∷ ms))
      ≡ went (
          at_main
            (scene none none none
              (out (number path_tun_forward_tunnel (more path_tunnel_forward_tun st)) ∷ [])
              (back (number path_tunnel_forward_tun st) ∷ [])
              []
              (both st))
            ms)
first_round st ms on =
    let st₁ = more path_tunnel_forward_tun st in
    let i = number path_tunnel_forward_tun st in
    let k = number path_tun_forward_tunnel st₁ in
    two-round (at_main (scene none none none [] [] [] st) (no_turn ∷ tunnel_turn ∷ ms))
      (at_main (scene none none none [] [] (back i ∷ []) st₁) (tunnel_turn ∷ ms))
      (at_main (scene none none none (out k ∷ []) (back i ∷ []) [] (both st)) ms) on on on
      (wait-back none none none [] [] [] st (scene none none none [] [] [] st) no_turn
        (tunnel_turn ∷ ms) refl on.2 refl)
      (wait-out none none none [] (back i ∷ []) [] st₁
        (scene none none none [] [] (back i ∷ []) st₁) tunnel_turn ms
        (ap (node_send tunnel) (tunnel-receive none none none [] [] [] st₁ i)
          ∙ tunnel-send none none none [] [] [] st₁ (back i) refl)
        on.3 refl)

-- A round in which `tun_node` and `tunnel_node` send on what came before.
steady_round :
    (i : ℕ) (qf : List Packet) (st : PathId → PathStat) (ms : List Moment)
    → OnlyTwo st
    → ltb (length qf) 8192 ≡ true
    → ltb (length (qf ++ (out i ∷ []))) 8192 ≡ true
    → inject_round all_paths
        (at_main (scene none none none (out i ∷ []) qf [] st) (tun_turn ∷ tunnel_turn ∷ ms))
      ≡ went (
          at_main
            (scene none none none
              (out (number path_tun_forward_tunnel (more path_tunnel_forward_tun st)) ∷ [])
              ((qf ++ (out i ∷ [])) ++ (back (number path_tunnel_forward_tun st) ∷ []))
              []
              (both st))
            ms)
steady_round i qf st ms on room room' =
    let st₁ = more path_tunnel_forward_tun st in
    let j = number path_tunnel_forward_tun st in
    let qf₁ = qf ++ (out i ∷ []) in
    let k = number path_tun_forward_tunnel st₁ in
    two-round (at_main (scene none none none (out i ∷ []) qf [] st) (tun_turn ∷ tunnel_turn ∷ ms))
      (at_main (scene none none none [] qf₁ (back j ∷ []) st₁) (tunnel_turn ∷ ms))
      (at_main (scene none none none (out k ∷ []) (qf₁ ++ (back j ∷ [])) [] (both st)) ms) on on on
      (wait-back none none none [] qf₁ [] st (scene none none none (out i ∷ []) qf [] st) tun_turn
        (tunnel_turn ∷ ms)
        (ap (node_send tun) (tun-receive none none none [] qf [] st i)
          ∙ tun-send none none none [] qf [] st (out i) room)
        on.2 refl)
      (wait-out none none none [] (qf₁ ++ (back j ∷ [])) [] st₁
        (scene none none none [] qf₁ (back j ∷ []) st₁) tunnel_turn ms
        (ap (node_send tunnel) (tunnel-receive none none none [] qf₁ [] st₁ j)
          ∙ tunnel-send none none none [] qf₁ [] st₁ (back j) room')
        on.3 refl)

pub below : (m i j : ℕ) → i ≡ j → j < m → ltb i m ≡ true
below m i j e h = ground arith

pub steady_rounds :
    (n i o : ℕ) (qf : List Packet) (st : PathId → PathStat) (ms : List Moment)
    → OnlyTwo st
    → length qf + (n + n) < 8192
    → (i' : ℕ) × (qf' : List Packet) × (st' : PathId → PathStat) × (repeat n
          (inject_round all_paths)
          (at_main
            (scene none none none (out i ∷ []) (back o ∷ qf) [] st)
            (alike n tun_turn tunnel_turn ms))
        ≡ went (at_main (scene none none none (out i' ∷ []) (back o ∷ qf') [] st') ms))
      × (length qf' ≡ length qf + (n + n))
      × OnlyTwo st'
unfolding alike
steady_rounds zero i o qf st ms on fits = (i, qf, st, refl, omega arith, on)
steady_rounds (suc n) i o qf st ms on fits =
    let j = number path_tunnel_forward_tun st in
    let k = number path_tun_forward_tunnel (more path_tunnel_forward_tun st) in
    let qf₁ = (qf ++ (out i ∷ [])) ++ (back j ∷ []) in
    let l = length-append qf (out i ∷ []) in
    let l' = length-append (qf ++ (out i ∷ [])) (back j ∷ []) in
    let (i', qf', st', runs, long, on') =
      steady_rounds n k o qf₁ (both st) ms on (omega (arith, l, l', fits)) in
    (
      i',
      qf',
      st',
      once n (inject_round all_paths)
            (at_main (scene none none none (out i ∷ []) (back o ∷ qf) [] st)
              (alike (suc n) tun_turn tunnel_turn ms))
            (at_main (scene none none none (out k ∷ []) (back o ∷ qf₁) [] (both st))
              (alike n tun_turn tunnel_turn ms))
            (steady_round i (back o ∷ qf) st (alike n tun_turn tunnel_turn ms) on
              (below 8192 _ (suc (length qf)) refl (omega (arith, fits)))
              (below 8192 _ (suc (suc (length qf))) (omega (arith, l)) (omega (arith, fits))))
          ∙ runs,
      omega (arith, l, l', long),
      on',
    )
