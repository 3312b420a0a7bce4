-- ===== src/Mpsc/Halts.antt =====
-- When the loops of `main` of the pipeline with inboxes end.
use libchan.Base.{
  ℕ, zero, suc, ◌+◌, ◌*◌, ◌≤◌, Bool, true, not, List, [], ◌∷◌, length, ◌≡◌, ◌≢◌, refl, sym, ap,
  subst, ◌∙◌, ltb, if◌then◌else◌, if_true, if_false, Bool-cases, ◌⊎◌, inl, inr, arith,
}
use libchan.Pipeline.Topology.{PathId}
use libchan.Mpsc.Boxes.{Boxes, inject_inbox, has_room, inject_packet, poll_done_try}
use libchan.Mpsc.Traffic.{
  Moment, meanwhile, Main, Ran, still, failed, went, ◌>>=◌, inject_wait, inject_round, until,
  drain_loop, drain,
}
use libchan.Mpsc.Loops.{Holds, Holds-bind, Holds-map}

-- One of the moments is at this time or later.
abbrev pub Passes : ℕ → List Moment → Type 0
Passes deadline [] = ⊥
Passes deadline (m ∷ ms) = (deadline ≤ m.now) ⊎ Passes deadline ms

drain_loop-ends :
    (deadline : ℕ) (done : Boxes → Bool) (ms : List Moment) (s : Boxes)
    → Passes deadline ms
    → drain_loop deadline done s ms ≢ still
drain_loop-ends deadline done [] s h = elim h [ ]
drain_loop-ends deadline done (m ∷ ms) s h =
    let s' = meanwhile s m.others in
    let later = drain_loop deadline done (poll_done_try s') ms in
    let found : Ran = went (record { boxes = s'; ahead = ms }) in
    elim (Bool-cases (ltb m.now deadline)) [
      | inr late ↦ λ e. cc (sym (if_false (if done s' then found else later) (failed s') late) ∙ e)
      | inl early ↦ elim (Bool-cases (done s')) [
        | inl d ↦ λ e. cc (
            sym
              (if_true (if done s' then found else later) (failed s') early ∙ if_true found later d)
            ∙ e)
        | inr d ↦ elim h [
          | inl due ↦ absurd (omega (arith, before m.now deadline early, due))
          | inr passes ↦ λ e. drain_loop-ends deadline done ms (poll_done_try s') passes (
              sym (
                if_true (if done s' then found else later) (failed s') early
                ∙ if_false found later d)
              ∙ e)
        ]
      ]
    ]
  where
    before : (a b : ℕ) → ltb a b ≡ true → suc a ≤ b
    before a b e = ground arith

-- `drain_remaining` and `drain_path` end: once a look at the clock finds that the timeout is over, at
-- the latest, whatever they test and whatever the nodes do.
pub drain-ends :
    (done : Boxes → Bool) (timeout_sec : ℕ) (s : Boxes) (m : Moment) (ms : List Moment)
    → Passes (m.now + timeout_sec * 1000000000) ms
    → drain done timeout_sec (record { boxes = s; ahead = m ∷ ms }) ≢ still
drain-ends done timeout_sec s m ms h =
    drain_loop-ends (m.now + timeout_sec * 1000000000) done ms (meanwhile s m.others) h

-- A run leaves fewer moments than there were, or as many.
abbrev Within : ℕ → Main → Type 0
Within n s = length s.ahead ≤ n

inject_wait-Within :
    (p : PathId) (ms : List Moment) (s : Boxes) → Holds (Within (length ms)) (inject_wait p s ms)
inject_wait-Within p [] s = tt
inject_wait-Within p (m ∷ ms) s =
    let s' = meanwhile s m.others in
    let sent : Ran = went (record { boxes = poll_done_try (inject_packet p s'); ahead = ms }) in
    elim (Bool-cases (has_room s' (inject_inbox p))) [
      | inl e ↦
          subst (Holds (Within (suc (length ms)))) {x = sent}
            (sym (if_true sent (inject_wait p s' ms) e)) (omega arith)
      | inr e ↦
          subst (Holds (Within (suc (length ms)))) (sym (if_false sent (inject_wait p s' ms) e)) (
            Holds-map (Within (length ms)) (Within (suc (length ms))) (inject_wait p s' ms)
              (inject_wait-Within p ms s') (λ t h. omega (arith, h)))
    ]

pub inject_round-Within :
    (ps : List PathId) (s : Main) → Holds (Within (length s.ahead)) (inject_round ps s)
inject_round-Within [] s = omega arith
inject_round-Within (p ∷ ps) s =
    let this : Ran = inject_wait p s.boxes s.ahead in
    elim (Bool-cases (not (s.boxes.stats p).enabled)) [
      | inl e ↦
          subst (Holds (Within (length s.ahead)))
            (sym (if_true (inject_round ps s) (this >>= inject_round ps) e))
            (inject_round-Within ps s)
      | inr e ↦
          subst (Holds (Within (length s.ahead)))
            (sym (if_false (inject_round ps s) (this >>= inject_round ps) e))
            (Holds-bind (Within (length s.ahead)) (Within (length s.ahead)) this (inject_round ps)
              (inject_wait-Within p s.ahead s.boxes)
              (λ t h.
                Holds-map (Within (length t.ahead)) (Within (length s.ahead)) (inject_round ps t)
                  (inject_round-Within ps t) (λ u l. omega (arith, h, l))))
    ]

bind-same :
    (P : Main → Type 0) (r : Ran) (f g : Main → Ran)
    → Holds P r
    → ((t : Main) → P t → f t ≡ g t)
    → r >>= f ≡ r >>= g
bind-same P still f g h e = refl
bind-same P (failed s) f g h e = refl
bind-same P (went s) f g h e = e s h

-- The timed loop makes no more rounds than there are moments to come: with that many, and one for the
-- last look, more would change nothing.
pub until-enough :
    (n more deadline : ℕ) (f : Main → Ran) (s : Main)
    → ((t : Main) → Holds (Within (length t.ahead)) (f t))
    → length s.ahead ≤ n
    → n ≤ more
    → until (suc more) deadline f s ≡ until (suc n) deadline f s
until-enough n more deadline f s within le le' = go n more s.boxes s.ahead le le'
  where
    go :
        (k l : ℕ) (b : Boxes) (ms : List Moment)
        → length ms ≤ k
        → k ≤ l
        → until (suc l) deadline f (record { boxes = b; ahead = ms })
          ≡ until (suc k) deadline f (record { boxes = b; ahead = ms })
    go k l b [] h g = refl
    go zero l b (m ∷ ms) h g = absurd (omega (arith, h))
    go (suc k) zero b (m ∷ ms) h g = absurd (omega (arith, g))
    go (suc k) (suc l) b (m ∷ ms) h g =
        let t : Main = record { boxes = meanwhile b m.others; ahead = ms } in
        ap (λ (r : Ran). if ltb m.now deadline then r else went t)
          (bind-same (Within (length ms)) (f t) (until (suc l) deadline f)
            (until (suc k) deadline f) (within t)
            (λ u w. go k l u.boxes u.ahead (omega (arith, w, h)) (omega (arith, g))))
