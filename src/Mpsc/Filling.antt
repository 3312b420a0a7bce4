-- ===== src/Mpsc/Filling.antt =====
-- The end of the rounds in that run, in which the inbox of `tun_node` fills.
use libchan.Base.{
  ℕ, zero, suc, ◌+◌, ◌≤◌, true, Option, none, some, List, [], ◌∷◌, ◌++◌, length, length-append, ltb,
  ◌≡◌, refl, ap, ◌∙◌, arith,
}
use libchan.Pipeline.Topology.{
  PathId, path_tunnel_forward_tun, path_tun_forward_tunnel, Packet, tun, tunnel,
}
use libchan.Pipeline.Plane.{PathStat}
use libchan.Pipeline.Totals.{all_paths}
use libchan.Mpsc.Boxes.{Box, in_forward, node_send, start}
use libchan.Mpsc.Traffic.{Moment, went, inject_round, repeat}
use libchan.Mpsc.Scene.{
  scene, back, out, number, more, tun-receive, tun-send, tunnel-receive, wait-back, wait-out,
  OnlyTwo, two-round,
}
use libchan.Mpsc.Stuck.{
  two_paths, at_start, alike, tun_turn, tunnel_turn, no_turn, at_main, repeat-went, once, both,
  first_round, steady_rounds, below,
}

-- The round in which `tunnel_node` takes a packet that it cannot send.
tunnel_round :
    (i : ℕ) (qf : List Packet) (st : PathId → PathStat) (ms : List Moment)
    → OnlyTwo st
    → ltb (length qf) 8192 ≡ true
    → inject_round all_paths (
        at_main
          (scene none none none (out i ∷ []) qf [] st)
          (tun_turn ∷ at_start ((tunnel, true) ∷ []) ∷ ms))
      ≡ went (
          at_main
            (scene none none
              (some (in_forward, back (number path_tunnel_forward_tun st)))
              (out (number path_tun_forward_tunnel (more path_tunnel_forward_tun st)) ∷ [])
              (qf ++ (out i ∷ []))
              []
              (both st))
            ms)
tunnel_round i qf st ms on room =
    let st₁ = more path_tunnel_forward_tun st in
    let j = number path_tunnel_forward_tun st in
    let k = number path_tun_forward_tunnel st₁ in
    let qf₁ = qf ++ (out i ∷ []) in
    let hn : Option (Box × Packet) = some (in_forward, back j) in
    let m = at_start ((tunnel, true) ∷ []) in
    two-round (at_main (scene none none none (out i ∷ []) qf [] st) (tun_turn ∷ m ∷ ms))
      (at_main (scene none none none [] qf₁ (back j ∷ []) st₁) (m ∷ ms))
      (at_main (scene none none hn (out k ∷ []) qf₁ [] (both st)) ms) on on on
      (wait-back none none none [] qf₁ [] st (scene none none none (out i ∷ []) qf [] st) tun_turn
        (m ∷ ms)
        (ap (node_send tun) (tun-receive none none none [] qf [] st i)
          ∙ tun-send none none none [] qf [] st (out i) room)
        on.2 refl)
      (wait-out none none hn [] qf₁ [] st₁ (scene none none none [] qf₁ (back j ∷ []) st₁) m ms
        (tunnel-receive none none none [] qf₁ [] st₁ j) on.3 refl)

-- The round in which `tun_node` does.
tun_round :
    (i : ℕ) (hn : Option (Box × Packet)) (qf : List Packet) (st : PathId → PathStat)
    (ms : List Moment)
    → OnlyTwo st
    → inject_round all_paths (
        at_main
          (scene none none hn (out i ∷ []) qf [] st)
          (at_start ((tun, true) ∷ []) ∷ no_turn ∷ ms))
      ≡ went (
          at_main
            (scene
              (some (in_forward, out i))
              none
              hn
              (out (number path_tun_forward_tunnel (more path_tunnel_forward_tun st)) ∷ [])
              qf
              (back (number path_tunnel_forward_tun st) ∷ [])
              (both st))
            ms)
tun_round i hn qf st ms on =
    let st₁ = more path_tunnel_forward_tun st in
    let j = number path_tunnel_forward_tun st in
    let k = number path_tun_forward_tunnel st₁ in
    let ht : Option (Box × Packet) = some (in_forward, out i) in
    let m = at_start ((tun, true) ∷ []) in
    two-round (at_main (scene none none hn (out i ∷ []) qf [] st) (m ∷ no_turn ∷ ms))
      (at_main (scene ht none hn [] qf (back j ∷ []) st₁) (no_turn ∷ ms))
      (at_main (scene ht none hn (out k ∷ []) qf (back j ∷ []) (both st)) ms) on on on
      (wait-back ht none hn [] qf [] st (scene none none hn (out i ∷ []) qf [] st) m (no_turn ∷ ms)
        (tun-receive none none hn [] qf [] st i) on.2 refl)
      (wait-out ht none hn [] qf (back j ∷ []) st₁ (scene ht none hn [] qf (back j ∷ []) st₁)
        no_turn ms refl on.3 refl)

-- Rounds in which no node has a turn.
quiet_rounds :
    (n : ℕ) (ht hn : Option (Box × Packet)) (qt qf qn : List Packet) (st : PathId → PathStat)
    (ms : List Moment)
    → OnlyTwo st
    → length qt + n ≤ 4096
    → length qn + n ≤ 8192
    → (qt' qn' : List Packet) × (st' : PathId → PathStat) × (repeat n
          (inject_round all_paths)
          (at_main (scene ht none hn qt qf qn st) (alike n no_turn no_turn ms))
        ≡ went (at_main (scene ht none hn qt' qf qn' st') ms))
      × (length qt' ≡ length qt + n)
unfolding alike
quiet_rounds zero ht hn qt qf qn st ms on fits fits' = (qt, qn, st, refl, omega arith)
quiet_rounds (suc n) ht hn qt qf qn st ms on fits fits' =
    let st₁ = more path_tunnel_forward_tun st in
    let x = back (number path_tunnel_forward_tun st) in
    let y = out (number path_tun_forward_tunnel st₁) in
    let rest = alike n no_turn no_turn ms in
    let l = length-append qt (y ∷ []) in
    let l' = length-append qn (x ∷ []) in
    let (qt', qn', st', runs, long) =
      quiet_rounds n ht hn (qt ++ (y ∷ [])) qf (qn ++ (x ∷ [])) (both st) ms on
        (omega (arith, l, fits)) (omega (arith, l', fits')) in
    (
      qt',
      qn',
      st',
      once n (inject_round all_paths)
            (at_main (scene ht none hn qt qf qn st) (no_turn ∷ no_turn ∷ rest))
            (at_main (scene ht none hn (qt ++ (y ∷ [])) qf (qn ++ (x ∷ [])) (both st)) rest)
            (two-round (at_main (scene ht none hn qt qf qn st) (no_turn ∷ no_turn ∷ rest))
              (at_main (scene ht none hn qt qf (qn ++ (x ∷ [])) st₁) (no_turn ∷ rest))
              (at_main (scene ht none hn (qt ++ (y ∷ [])) qf (qn ++ (x ∷ [])) (both st)) rest) on on
              on
              (wait-back ht none hn qt qf qn st (scene ht none hn qt qf qn st) no_turn
                (no_turn ∷ rest) refl on.2
                (below 8192 (length qn) (length qn) refl (omega (arith, fits'))))
              (wait-out ht none hn qt qf (qn ++ (x ∷ [])) st₁
                (scene ht none hn qt qf (qn ++ (x ∷ [])) st₁) no_turn rest refl on.3
                (below 4096 (length qt) (length qt) refl (omega (arith, fits)))))
          ∙ runs,
      omega (arith, l, long),
    )

abbrev pub begun : PathId → PathStat
begun = (start two_paths).stats

begun-OnlyTwo : OnlyTwo begun
begun-OnlyTwo = (refl, refl, refl, refl, refl, refl)

-- The rounds before the drain. Each of the two nodes holds a packet, and `forward_node` has not begun.
pub filled :
    (c n : ℕ) (ms : List Moment)
    → n ≡ 4095
    → c ≡ suc (n + suc (suc n))
    → (k j o : ℕ) × (qt qf qn : List Packet) × (st : PathId → PathStat) × (repeat c
          (inject_round all_paths)
          (at_main (scene none none none [] [] [] begun) (
            no_turn
            ∷ tunnel_turn
            ∷ alike n tun_turn tunnel_turn (
                tun_turn
                ∷ at_start ((tunnel, true) ∷ [])
                ∷ at_start ((tun, true) ∷ [])
                ∷ no_turn
                ∷ alike n no_turn no_turn ms)))
        ≡ went (
            at_main
              (scene
                (some (in_forward, out k))
                none
                (some (in_forward, back j))
                qt
                (back o ∷ qf)
                qn
                st)
              ms))
      × (length qt ≡ 4096)
      × (suc (length qf) ≡ 8192)
filled c n ms e ec =
    let f = inject_round all_paths in
    let i₀ = number path_tunnel_forward_tun begun in
    let k₀ = number path_tun_forward_tunnel (more path_tunnel_forward_tun begun) in
    let last : List Moment = alike n no_turn no_turn ms in
    let turning : List Moment =
      tun_turn ∷ at_start ((tunnel, true) ∷ []) ∷ at_start ((tun, true) ∷ []) ∷ no_turn ∷ last in
    let s₀ =
      at_main (scene none none none [] [] [] begun)
        (no_turn ∷ tunnel_turn ∷ alike n tun_turn tunnel_turn turning) in
    let s₁ =
      at_main (scene none none none (out k₀ ∷ []) (back i₀ ∷ []) [] (both begun))
        (alike n tun_turn tunnel_turn turning) in
    let (i, qf, st, runs, long, on) =
      steady_rounds n k₀ i₀ [] (both begun) turning begun-OnlyTwo (omega (arith, e)) in
    let j = number path_tunnel_forward_tun st in
    let k = number path_tun_forward_tunnel (more path_tunnel_forward_tun st) in
    let hn : Option (Box × Packet) = some (in_forward, back j) in
    let qf₁ = qf ++ (out i ∷ []) in
    let l = length-append qf (out i ∷ []) in
    let k₁ = number path_tun_forward_tunnel (more path_tunnel_forward_tun (both st)) in
    let j₁ = number path_tunnel_forward_tun (both st) in
    let s₂ = at_main (scene none none none (out i ∷ []) (back i₀ ∷ qf) [] st) turning in
    let s₃ =
      at_main (scene none none hn (out k ∷ []) (back i₀ ∷ qf₁) [] (both st))
        (at_start ((tun, true) ∷ []) ∷ no_turn ∷ last) in
    let s₄ =
      at_main
        (scene (some (in_forward, out k)) none hn (out k₁ ∷ []) (back i₀ ∷ qf₁) (back j₁ ∷ [])
          (both (both st)))
        last in
    let (qt, qn, st', runs', long') =
      quiet_rounds n (some (in_forward, out k)) hn (out k₁ ∷ []) (back i₀ ∷ qf₁) (back j₁ ∷ [])
        (both (both st)) ms on (omega (arith, e)) (omega (arith, e)) in
    (
      k,
      j,
      i₀,
      qt,
      qf₁,
      qn,
      st',
      ap (λ (a : ℕ). repeat a f s₀) ec
          ∙ once (n + suc (suc n)) f s₀ s₁
              (first_round begun (alike n tun_turn tunnel_turn turning) begun-OnlyTwo)
          ∙ repeat-went n (suc (suc n)) f s₁ s₂ runs
          ∙ once (suc n) f s₂ s₃ (
              tunnel_round i (back i₀ ∷ qf) st (at_start ((tun, true) ∷ []) ∷ no_turn ∷ last) on
                (below 8192 _ (suc (length qf)) refl (omega (arith, e, long))))
          ∙ once n f s₃ s₄ (tun_round k hn (back i₀ ∷ qf₁) (both st) last on)
          ∙ runs',
      omega (arith, long', e),
      omega (arith, l, long, e),
    )
