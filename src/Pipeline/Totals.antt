-- ===== src/Pipeline/Totals.antt =====
-- examples/dplane_pipeline.c: what `main` makes of the accounts of all paths.
use libchan.Base.{ℕ, suc, ◌+◌, Bool, true, false, not, List, [], ◌∷◌, ltb, if◌then◌else◌}
use libchan.Pipeline.Topology.{
  PathId, path_tun_forward_enc_tunnel, path_tunnel_enc_forward_tun, path_tunnel_forward_tun,
  path_tun_forward_tunnel, path_tunnel_forward_oam, path_oam_forward_tunnel,
}
use libchan.Pipeline.Plane.{PathStat, u64, path_ok}

-- The paths in the order of `path_id_t`.
abbrev pub all_paths : List PathId
all_paths =
    path_tun_forward_enc_tunnel ∷ path_tunnel_enc_forward_tun ∷ path_tunnel_forward_tun
    ∷ path_tun_forward_tunnel ∷ path_tunnel_forward_oam ∷ path_oam_forward_tunnel ∷ []

-- The sum of a counter over the enabled ones of these paths, from `n` on.
abbrev pub total : (PathStat → ℕ) → (PathId → PathStat) → List PathId → ℕ → ℕ
total field stats [] n = n
total field stats (p ∷ ps) n =
    total field stats ps (if (stats p).enabled then u64 (n + field (stats p)) else n)

-- `total_sent` and `total_recv`
abbrev pub total_sent : (PathId → PathStat) → ℕ
total_sent stats = total (λ s. s.sent) stats all_paths 0

abbrev pub total_recv : (PathId → PathStat) → ℕ
total_recv stats = total (λ s. s.recv) stats all_paths 0

-- `all_drained`
abbrev pub drained_on : (PathId → PathStat) → List PathId → Bool
drained_on stats [] = true
drained_on stats (p ∷ ps) =
    let rest = drained_on stats ps in
    if not (stats p).enabled
    then rest
    else if ltb (u64 ((stats p).recv + (stats p).dup)) (stats p).sent
    then false
    else rest

abbrev pub all_drained : (PathId → PathStat) → Bool
all_drained stats = drained_on stats all_paths

-- `enabled_path_count`
abbrev pub count_on : (PathId → PathStat) → List PathId → ℕ
count_on stats [] = 0
count_on stats (p ∷ ps) =
    let rest = count_on stats ps in if (stats p).enabled then suc rest else rest

abbrev pub enabled_path_count : (PathId → PathStat) → ℕ
enabled_path_count stats = count_on stats all_paths

-- The status that `main` returns where `run_traffic` returned 0.
abbrev pub first_failure : (PathId → PathStat) → List PathId → ℕ
first_failure stats [] = 0
first_failure stats (p ∷ ps) =
    let rest = first_failure stats ps in if not (path_ok (stats p)) then 1 else rest

abbrev pub exit_status : (PathId → PathStat) → ℕ
exit_status stats = first_failure stats all_paths
