-- ===== src/Pipeline/Exit.antt =====
-- What `main` may conclude where its drain loop ends.
use libchan.Base.{
  ℕ, ◌+◌, ◌^◌, ◌<◌, Bool, true, false, not, List, [], ◌∷◌, ltb, leb, length, if◌then◌else◌, if_true,
  if_false, Bool-cases, ◌≡◌, refl, sym, ap, ◌∙◌, inl, inr, arith,
}
use libchan.Pipeline.Topology.{
  PathId, path_tun_forward_enc_tunnel, path_tunnel_enc_forward_tun, path_tunnel_forward_tun,
  path_tun_forward_tunnel, path_tunnel_forward_oam, path_oam_forward_tunnel,
}
use libchan.Pipeline.Plane.{PathStat, Event, u64, path_ok, path_drained, run, start}
use libchan.Pipeline.Order.{flight}
use libchan.Pipeline.Accounts.{Accounts, enabled-drained, drained-ok}
use libchan.Pipeline.Schedule.{after-Accounts}
use libchan.Pipeline.Totals.{
  all_paths, total, total_sent, total_recv, drained_on, all_drained, first_failure, exit_status,
}

-- A statement on each of these paths.
abbrev Each : (PathId → Type 0) → List PathId → Type 0
Each P [] = Unit
Each P (p ∷ ps) = P p × Each P ps

Each-all : (P : PathId → Type 0) → Each P all_paths → (p : PathId) → P p
Each-all P e path_tun_forward_enc_tunnel = e.0
Each-all P e path_tunnel_enc_forward_tun = e.1.0
Each-all P e path_tunnel_forward_tun = e.1.1.0
Each-all P e path_tun_forward_tunnel = e.1.1.1.0
Each-all P e path_tunnel_forward_oam = e.1.1.1.1.0
Each-all P e path_oam_forward_tunnel = e.1.1.1.1.1.0

module _ (stats : PathId → PathStat) where
  drained_on-Each :
      (ps : List PathId)
      → drained_on stats ps ≡ true
      → Each (λ p. (stats p).enabled ≡ true → path_drained (stats p) ≡ true) ps
  unfolding path_drained
  drained_on-Each [] h = tt
  drained_on-Each (p ∷ ps) h = elim (Bool-cases (stats p).enabled) [
    | inl on ↦
        let g = sym (if_false _ _ (ap not on)) ∙ h in
        elim (Bool-cases (ltb (u64 ((stats p).recv + (stats p).dup)) (stats p).sent)) [
          | inl less ↦ cc (sym (if_true _ _ less) ∙ g)
          | inr more ↦ (
            λ e. turn (u64 ((stats p).recv + (stats p).dup)) (stats p).sent more,
            drained_on-Each ps (sym (if_false _ _ more) ∙ g),
          )
        ]
    | inr out ↦ (λ e. cc, drained_on-Each ps (sym (if_true _ _ (ap not out)) ∙ h))
  ]
    where
      turn : (a b : ℕ) → ltb a b ≡ false → leb b a ≡ true
      turn a b e = ground arith

  first_failure-none :
      (ps : List PathId) → ((p : PathId) → path_ok (stats p) ≡ true) → first_failure stats ps ≡ 0
  first_failure-none [] ok = refl
  first_failure-none (p ∷ ps) ok = if_false _ _ (ap not (ok p)) ∙ first_failure-none ps ok

  total-equal :
      (f g : PathStat → ℕ) (ps : List PathId) (n : ℕ)
      → ((p : PathId) → f (stats p) ≡ g (stats p))
      → total f stats ps n ≡ total g stats ps n
  total-equal f g [] n same = refl
  total-equal f g (p ∷ ps) n same =
      ap (λ (k : ℕ). total f stats ps (if (stats p).enabled then u64 (n + k) else n)) (same p)
      ∙ total-equal f g ps (if (stats p).enabled then u64 (n + g (stats p)) else n) same

-- The accounts of all paths, with what is under way on each.
module _ (stats : PathId → PathStat) (under_way : PathId → List ℕ) (m : ℕ) where
  pub all_drained-each :
      ((p : PathId) → Accounts (stats p) (under_way p) m)
      → m < 2 ^ 64
      → all_drained stats ≡ true
      → (p : PathId)
      → ((stats p).recv ≡ (stats p).sent) × (path_ok (stats p) ≡ true) × (under_way p ≡ [])
  all_drained-each accounts few h p = drained-ok (stats p) (under_way p) m few (accounts p) (
      enabled-drained (stats p) (under_way p) m (accounts p) (
        Each-all (λ q. (stats q).enabled ≡ true → path_drained (stats q) ≡ true)
          (drained_on-Each stats all_paths h) p))

  pub all_drained-settled :
      ((p : PathId) → Accounts (stats p) (under_way p) m)
      → m < 2 ^ 64
      → all_drained stats ≡ true
      → (exit_status stats ≡ 0)
        × (total_recv stats ≡ total_sent stats)
        × ((p : PathId) → under_way p ≡ [])
  all_drained-settled accounts few h =
      let each = all_drained-each accounts few h in
      (
        first_failure-none stats all_paths (λ p. (each p).1),
        total-equal stats (λ s. s.recv) (λ s. s.sent) all_paths 0 (λ p. (each p).0),
        λ p. (each p).2,
      )

-- Under every schedule of fewer than 2 ^ 64 events: where `all_drained` ends the drain loop, `main`
-- returns 0, as many packets were received as sent, and no packet is left in a channel of a route or
-- in a node's hands.
pub all_drained-exit_status :
    (on_path : PathId → Bool) (es : List Event)
    → length es < 2 ^ 64
    → all_drained (run (start on_path) es).stats ≡ true
    → let pl = run (start on_path) es in
      (exit_status pl.stats ≡ 0)
      × (total_recv pl.stats ≡ total_sent pl.stats)
      × ((p : PathId) → flight pl p ≡ [])
all_drained-exit_status on_path es few =
    all_drained-settled (run (start on_path) es).stats (flight (run (start on_path) es)) (length es)
      (after-Accounts on_path es) few
