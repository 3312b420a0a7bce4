-- ===== src/Pipeline/Tests.antt =====
-- Runs of the pipeline, and of what it prints and parses.
use libchan.Base.{
  ℕ, suc, ◌+◌, ◌-◌, ◌≤◌, true, some, List, [], ◌∷◌, ◌==◌, leb, length, tabulate, u32, if◌then◌else◌,
  if_true, if_false, Bool-cases, ℤ, pos, ◌≡◌, refl, sym, subst, inl, inr, arith,
}
use libchan.Pipeline.Topology.{
  PathId, path_tunnel_forward_tun, tun, forward, tunnel, forward_to_tun, inj_tunnel,
  tunnel_to_forward, done_tun,
}
use libchan.Pipeline.Plane.{
  Event, receives, sends, injects, polls, u64, run, step, start, node_receive, node_send,
  inject_packet, poll_done, stat_on_recv,
}
use libchan.Pipeline.Order.{flight}
use libchan.Pipeline.Schedule.{run_in_order}
use libchan.Pipeline.Totals.{total_recv, total_sent, exit_status}
use libchan.Pipeline.Exit.{all_drained-exit_status}
use libchan.Pipeline.Latency.{PathLatency, latency_on_send, latency_on_recv}
use libchan.Pipeline.Stamps.{latency_on_recv-latency_on_send}
use libchan.Pipeline.Args.{Opt, opt_l, opt_c, opt_m, Conversions, parse_args}
use libchan.Pipeline.Usable.{Usable, parse_args-Usable}
use libchan.Pipeline.Checker.{received, fresh, received-lem}

-- One packet, from `tunnel_node` by way of `forward_node` to `tun_node` and the accounts.
abbrev journey : List Event
journey =
    injects path_tunnel_forward_tun
    ∷ receives tunnel inj_tunnel
    ∷ sends tunnel
    ∷ receives forward tunnel_to_forward
    ∷ sends forward
    ∷ receives tun forward_to_tun
    ∷ sends tun
    ∷ polls done_tun
    ∷ []

run_in_order_example :
    let pl = run (start (λ p. true)) journey in
    let s = pl.stats path_tunnel_forward_tun in
    (s.lost ≡ 0)
    × (s.dup ≡ 0)
    × (s.recv ≤ s.sent)
    × (flight pl path_tunnel_forward_tun ≡ tabulate (s.sent - s.recv) (λ j. u32 (s.recv + j)))
run_in_order_example = run_in_order (λ p. true) journey path_tunnel_forward_tun (omega arith)

all_drained-exit_status_example :
    let pl = run (start (λ p. true)) journey in
    (exit_status pl.stats ≡ 0)
    × (total_recv pl.stats ≡ total_sent pl.stats)
    × ((p : PathId) → flight pl p ≡ [])
unfolding run step node_receive node_send inject_packet poll_done stat_on_recv
all_drained-exit_status_example = all_drained-exit_status (λ p. true) journey (omega arith) refl

abbrev no_times : PathLatency
no_times = record { send_ts = λ i. 0; send_cap = 1; samples = λ i. 0; n = 0; cap = 1; sum = 0 }

latency_on_recv-latency_on_send_example :
    (kept : PathLatency) × (latency_on_send no_times 5 100 true ≡ some kept)
    × (let noted = latency_on_recv kept 5 350 true in
        (noted.n ≡ 0 + 1)
        × (noted.samples 0 ≡ 350 - 100)
        × (noted.sum ≡ u64 (0 + (350 - 100)))
        × ((later : ℕ) → latency_on_recv noted 5 later true ≡ noted))
latency_on_recv-latency_on_send_example =
    latency_on_recv-latency_on_send no_times 5 100 350 (omega arith) (omega arith) (omega arith)
      (omega arith)

-- Reads one digit.
abbrev digit : List ℕ → ℕ × List ℕ
digit [] = (0, [])
digit (c ∷ s) = if leb 48 c then (c - 48, s) else (0, c ∷ s)

abbrev signed : List ℕ → ℤ × List ℕ
signed s = (pos (digit s).0, (digit s).1)

signed-within : (s : List ℕ) → length (signed s).1 ≤ length s
signed-within [] = omega arith
signed-within (c ∷ s) = elim (Bool-cases (leb 48 c)) [
  | inl e ↦
      subst (λ (t : ℕ × List ℕ). length t.1 ≤ suc (length s)) (sym (if_true _ _ e)) (omega arith)
  | inr e ↦
      subst (λ (t : ℕ × List ℕ). length t.1 ≤ suc (length s)) (sym (if_false _ _ e)) (omega arith)
]

received-lem_example :
    (0 ∷ 1 ∷ 2 ∷ [] ≡ tabulate 3 (λ j. j)) × ((received fresh (0 ∷ 1 ∷ 2 ∷ [])).recv ≡ 3)
unfolding received stat_on_recv
received-lem_example =
    received-lem (0 ∷ 1 ∷ 2 ∷ []) (omega arith, (omega arith, (omega arith, tt))) (omega arith) refl
      refl

-- A C library whose numbers are digits.
abbrev digits : Conversions ℕ
digits = record {
  strtol = signed;
  strtoul = digit;
  strtoull = λ s. (digit s).0;
  strtod = λ s. (digit s).0;
  zero_double = 0;
  le_zero = λ d. d == 0;
}

-- -l 3,1 -c 7 -m block
abbrev options : List Opt
options = opt_l (51 ∷ 44 ∷ 49 ∷ []) ∷ opt_c (55 ∷ []) ∷ opt_m (98 ∷ 108 ∷ 111 ∷ 99 ∷ 107 ∷ []) ∷ []

parse_args-Usable_example : Usable digits (parse_args digits options)
parse_args-Usable_example = parse_args-Usable digits options signed-within
