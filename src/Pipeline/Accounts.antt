-- ===== src/Pipeline/Accounts.antt =====
-- What the accounts of a path say of the packets that are under way on it.
use libchan.Base.{
  ℕ, zero, suc, ◌+◌, ◌-◌, ◌^◌, ◌≤◌, ◌<◌, true, false, not, List, [], ◌∷◌, ◌++◌, ◌≡◌, sym, ap, ap₂,
  subst, ◌∙◌, ltb, if_false, ◌⊎◌, inl, inr, tabulate, tabulate-add, tabulate-congr, u32, arith,
}
use libchan.Pipeline.Plane.{PathStat, stat_on_recv, u64, path_drained, path_ok}

-- `n` packets were injected on a path and `r` of them counted: the accounts say so, and the packets
-- from number `r` on are under way, in order.
pub record Accounts (s : PathStat) (under_way : List ℕ) (m : ℕ) : Type 0 where
  pub injected : ℕ
  pub counted : ℕ
  pub counted_le : counted ≤ injected
  pub injected_le : injected ≤ m
  pub sent_lem : s.sent ≡ u64 injected
  pub recv_lem : s.recv ≡ u64 counted
  pub dup_lem : s.dup ≡ 0
  pub lost_lem : s.lost ≡ 0
  pub next_lem : s.next_expected ≡ u32 counted
  pub live : (s.enabled ≡ true) ⊎ (injected ≡ 0)
  pub window : under_way ≡ tabulate (injected - counted) (λ j. u32 (counted + j))

pub more-Accounts : (s : PathStat) (u : List ℕ) (m : ℕ) → Accounts s u m → Accounts s u (suc m)
more-Accounts s u m h = record {
  injected = h.injected;
  counted = h.counted;
  counted_le = h.counted_le;
  injected_le = omega (arith, h.injected_le);
  sent_lem = h.sent_lem;
  recv_lem = h.recv_lem;
  dup_lem = h.dup_lem;
  lost_lem = h.lost_lem;
  next_lem = h.next_lem;
  live = h.live;
  window = h.window;
}

-- A packet that was injected.
pub inject-Accounts :
    (s : PathStat) (u : List ℕ) (m : ℕ)
    → s.enabled ≡ true
    → Accounts s u m
    → Accounts (record s { sent = u64 (s.sent + 1) }) (u ++ (u32 s.sent ∷ [])) (suc m)
inject-Accounts s u m e h = record {
  injected = suc h.injected;
  counted = h.counted;
  counted_le = omega (arith, h.counted_le);
  injected_le = omega (arith, h.injected_le);
  sent_lem = omega (arith, h.sent_lem);
  recv_lem = h.recv_lem;
  dup_lem = h.dup_lem;
  lost_lem = h.lost_lem;
  next_lem = h.next_lem;
  live = inl e;
  window =
      ap₂ (λ t (i : ℕ). t ++ (i ∷ [])) h.window (omega (arith, h.sent_lem, h.counted_le))
      ∙ sym (tabulate-add (h.injected - h.counted) 1 (λ j. u32 (h.counted + j)))
      ∙ ap (λ (k : ℕ). tabulate k (λ j. u32 (h.counted + j))) (omega (arith, h.counted_le));
}

cons-inv : (i j : ℕ) (u v : List ℕ) → i ∷ u ≡ j ∷ v → (i ≡ j) × (u ≡ v)
cons-inv i j u v e = (cc, cc)

-- The oldest packet under way.
window-head :
    (k c i : ℕ) (u : List ℕ)
    → i ∷ u ≡ tabulate k (λ j. u32 (c + j))
    → (0 < k) × (i ≡ u32 c) × (u ≡ tabulate (k - 1) (λ j. u32 (suc c + j)))
window-head zero c i u e = cc
window-head (suc k) c i u e =
    let (first, others) = cons-inv i (u32 (c + 0)) u (tabulate k (λ j. u32 (c + suc j))) e in
    (
      omega arith,
      omega (arith, first),
      others
          ∙ tabulate-congr k (λ j. u32 (c + suc j)) (λ j. u32 (suc c + j)) (λ j l. omega arith)
          ∙ ap (λ (t : ℕ). tabulate t (λ j. u32 (suc c + j))) {x = k} {y = suc k - 1} (omega arith),
    )

stat_on_recv-next :
    (s : PathStat)
    → s.enabled ≡ true
    → stat_on_recv s s.next_expected
      ≡ record s { next_expected = u32 (s.next_expected + 1); recv = u64 (s.recv + 1) }
unfolding stat_on_recv
stat_on_recv-next s e =
    if_false _ _ (ap not e)
    ∙ if_false _ _ (irreflexive s.next_expected)
    ∙ if_false _ _ (irreflexive s.next_expected)
  where
    irreflexive : (k : ℕ) → ltb k k ≡ false
    irreflexive k = ground arith

pub count-Accounts :
    (s : PathStat) (i : ℕ) (u : List ℕ) (m : ℕ)
    → Accounts s (i ∷ u) m
    → Accounts (stat_on_recv s i) u (suc m)
count-Accounts s i u m h =
    let (some_left, first, others) = window-head (h.injected - h.counted) h.counted i u h.window in
    let enabled : s.enabled ≡ true = elim h.live [
      | inl e ↦ e
      | inr z ↦ absurd (omega (arith, some_left, z))
    ] in
    subst (λ t. Accounts t u (suc m))
      (sym (ap (stat_on_recv s) (first ∙ sym h.next_lem) ∙ stat_on_recv-next s enabled))
      (record {
        injected = h.injected;
        counted = suc h.counted;
        counted_le = omega (arith, some_left);
        injected_le = omega (arith, h.injected_le);
        sent_lem = h.sent_lem;
        recv_lem = omega (arith, h.recv_lem);
        dup_lem = h.dup_lem;
        lost_lem = h.lost_lem;
        next_lem = omega (arith, h.next_lem);
        live = inl enabled;
        window =
            others
            ∙ ap (λ (t : ℕ). tabulate t (λ j. u32 (suc h.counted + j)))
                {x = h.injected - h.counted - 1} {y = h.injected - suc h.counted} (omega arith);
      })

pub same-Accounts :
    (s : PathStat) (u u' : List ℕ) (m : ℕ) → u' ≡ u → Accounts s u m → Accounts s u' (suc m)
same-Accounts s u u' m e h = subst (λ t. Accounts s t (suc m)) (sym e) (more-Accounts s u m h)

module _ (s : PathStat) (u : List ℕ) (m : ℕ) where
  -- Before the counters come round.
  pub settled :
      m < 2 ^ 64
      → Accounts s u m
      → (s.lost ≡ 0)
        × (s.dup ≡ 0)
        × (s.recv ≤ s.sent)
        × (u ≡ tabulate (s.sent - s.recv) (λ j. u32 (s.recv + j)))
  settled few a = (
    a.lost_lem,
    a.dup_lem,
    omega (arith, few, a.injected_le, a.counted_le, a.sent_lem, a.recv_lem),
    a.window
        ∙ ap₂ (λ (k c : ℕ). tabulate k (λ j. u32 (c + j)))
            (omega (arith, few, a.injected_le, a.counted_le, a.sent_lem, a.recv_lem))
            (omega (arith, few, a.injected_le, a.counted_le, a.recv_lem)),
  )

  -- A path that is not enabled is drained, since nothing was sent on it.
  pub enabled-drained :
      Accounts s u m → (s.enabled ≡ true → path_drained s ≡ true) → path_drained s ≡ true
  unfolding path_drained
  enabled-drained a h = elim a.live [
    | inl on ↦ h on
    | inr none_in ↦ nothing s (omega (arith, none_in, a.sent_lem))
  ]
    where
      nothing : (t : PathStat) → t.sent ≡ 0 → path_drained t ≡ true
      nothing t e = ground arith

  -- When `path_drained` says of a path that it is drained, all that was sent was received, `path_ok`
  -- accepts its accounts, and none of its packets is left under way.
  pub drained-ok :
      m < 2 ^ 64
      → Accounts s u m
      → path_drained s ≡ true
      → (s.recv ≡ s.sent) × (path_ok s ≡ true) × (u ≡ [])
  unfolding path_drained path_ok
  drained-ok few a drained =
      let (lost, dup, le, under_way) = settled few a in
      let all = all_in s dup le (omega (arith, a.recv_lem)) drained in
      (all, accepted s lost dup all, under_way ∙ none_left s.sent s.recv all)
    where
      all_in :
          (t : PathStat)
          → t.dup ≡ 0
          → t.recv ≤ t.sent
          → t.recv < 2 ^ 64
          → path_drained t ≡ true
          → t.recv ≡ t.sent
      all_in t dup le small d = ground arith

      accepted : (t : PathStat) → t.lost ≡ 0 → t.dup ≡ 0 → t.recv ≡ t.sent → path_ok t ≡ true
      accepted t lost dup all = ground arith

      none_left : (i n : ℕ) → n ≡ i → tabulate (i - n) (λ j. u32 (n + j)) ≡ []
      none_left i n e =
          ap (λ (k : ℕ). tabulate k (λ j. u32 (n + j))) {x = i - n} {y = 0} (omega arith)
