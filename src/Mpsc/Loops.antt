-- ===== src/Mpsc/Loops.antt =====
-- The loops of `main` of the pipeline with inboxes: what a round adds to the packets sent.
use libchan.Base.{
  ℕ, zero, suc, ◌+◌, ◌*◌, Bool, true, false, not, ◌&&◌, Option, none, some, List, [], ◌∷◌, ◌≡◌, sym,
  ap, subst, ◌∙◌, ◌==◌, if◌then◌else◌, if_true, if_false, Bool-cases, inl, inr, arith,
}
use libchan.Pipeline.Topology.{PathId, path_id}
use libchan.Pipeline.Plane.{u64}
use libchan.Mpsc.Boxes.{Boxes, inject_inbox, has_room}
use libchan.Mpsc.Traffic.{
  Moment, meanwhile, Main, Ran, still, failed, went, ◌>>=◌, inject_wait, inject_round, repeat,
  looks,
}
use libchan.Mpsc.Sends.{Sends, one_more, meanwhile-Sends, inject-Sends}

-- Where the run has returned 0.
abbrev pub Holds : (Main → Type 0) → Ran → Type 0
Holds P still = Unit
Holds P (failed s) = Unit
Holds P (went s) = P s

pub Holds-bind :
    (P Q : Main → Type 0) (r : Ran) (f : Main → Ran)
    → Holds P r
    → ((s : Main) → P s → Holds Q (f s))
    → Holds Q (r >>= f)
Holds-bind P Q still f h g = tt
Holds-bind P Q (failed s) f h g = tt
Holds-bind P Q (went s) f h g = g s h

pub Holds-map : (P Q : Main → Type 0) (r : Ran) → Holds P r → ((s : Main) → P s → Q s) → Holds Q r
Holds-map P Q still h g = tt
Holds-map P Q (failed s) h g = tt
Holds-map P Q (went s) h g = g s h

-- How often a path is among the enabled ones of these.
abbrev pub times : (PathId → Bool) → List PathId → PathId → ℕ
times on_path [] q = 0
times on_path (p ∷ ps) q =
    (if on_path p && path_id q == path_id p then 1 else 0) + times on_path ps q

module _ (bound : ℕ) (on_path : PathId → Bool) where
  -- The counts of packets sent are `k`; with a duration, they are some.
  abbrev pub SendsAt : (PathId → ℕ) → Main → Type 0
  SendsAt k s = Sends bound on_path k s.boxes s.ahead

  abbrev pub Reaches : Option ℕ → (PathId → ℕ) → Main → Type 0
  Reaches none k s = SendsAt k s
  Reaches (some duration) k s = (j : PathId → ℕ) × SendsAt j s

  same-count :
      (k j : PathId → ℕ) (s : Main) → ((q : PathId) → k q ≡ j q) → SendsAt k s → SendsAt j s
  same-count k j s e h = record {
    events = h.events;
    order = h.order;
    budget = h.budget;
    enabled_lem = h.enabled_lem;
    sent_lem = λ q. h.sent_lem q ∙ ap u64 (e q);
  }

  pub lift :
      (duration : Option ℕ) (k d : PathId → ℕ) (s : Main) (r : Ran)
      → ((j : PathId → ℕ) → SendsAt j s → Holds (SendsAt (λ q. j q + d q)) r)
      → Reaches duration k s
      → Holds (Reaches duration (λ q. k q + d q)) r
  lift none k d s r f h = f k h
  lift (some duration) k d s r f (j, h) =
      Holds-map (SendsAt (λ q. j q + d q)) (Reaches (some duration) (λ q. k q + d q)) r (f j h)
        (λ t g. (λ q. j q + d q, g))

  pub same-Reaches :
      (duration : Option ℕ) (k j : PathId → ℕ) (s : Main)
      → ((q : PathId) → k q ≡ j q)
      → Reaches duration k s
      → Reaches duration j s
  same-Reaches none k j s e h = same-count k j s e h
  same-Reaches (some duration) k j s e h = h

  pub inject_wait-Sends :
      (p : PathId) (k : PathId → ℕ) (ms : List Moment) (s : Boxes)
      → on_path p ≡ true
      → Sends bound on_path k s ms
      → Holds (SendsAt (one_more p k)) (inject_wait p s ms)
  inject_wait-Sends p k [] s live h = tt
  inject_wait-Sends p k (m ∷ ms) s live h =
      let room = has_room (meanwhile s m.others) (inject_inbox p) in
      elim (Bool-cases room) [
        | inl e ↦
            subst (Holds (SendsAt (one_more p k))) (sym (if_true _ _ e))
              (inject-Sends bound on_path k s m ms p live e h)
        | inr e ↦ subst (Holds (SendsAt (one_more p k))) (sym (if_false _ _ e)) (
            inject_wait-Sends p k ms (meanwhile s m.others) live
              (meanwhile-Sends bound on_path k s m ms h))
      ]

  one_more-times :
      (p q : PathId) (k : PathId → ℕ) (ps : List PathId)
      → on_path p ≡ true
      → one_more p k q + times on_path ps q ≡ k q + times on_path (p ∷ ps) q
  one_more-times p q k ps live = rw live (omega arith)

  pub times-skip :
      (p q : PathId) (ps : List PathId)
      → on_path p ≡ false
      → times on_path ps q ≡ times on_path (p ∷ ps) q
  times-skip p q ps dead = rw dead (omega arith)

  pub inject_round-Sends :
      (ps : List PathId) (k : PathId → ℕ) (s : Main)
      → SendsAt k s
      → Holds (SendsAt (λ q. k q + times on_path ps q)) (inject_round ps s)
  inject_round-Sends [] k s h = same-count k (λ q. k q + 0) s (λ q. omega arith) h
  inject_round-Sends (p ∷ ps) k s h = elim (Bool-cases (on_path p)) [
    | inl live ↦
        subst (Holds (SendsAt (λ q. k q + times on_path (p ∷ ps) q)))
          (sym (if_false _ _ (ap not (h.enabled_lem p ∙ live))))
          (Holds-bind (SendsAt (one_more p k)) (SendsAt (λ q. k q + times on_path (p ∷ ps) q))
            (inject_wait p s.boxes s.ahead) (inject_round ps)
            (inject_wait-Sends p k s.ahead s.boxes live h)
            (λ t g.
              Holds-map (SendsAt (λ q. one_more p k q + times on_path ps q))
                (SendsAt (λ q. k q + times on_path (p ∷ ps) q)) (inject_round ps t)
                (inject_round-Sends ps (one_more p k) t g)
                (λ u.
                  same-count (λ q. one_more p k q + times on_path ps q)
                    (λ q. k q + times on_path (p ∷ ps) q) u (λ q. one_more-times p q k ps live))))
    | inr dead ↦
        subst (Holds (SendsAt (λ q. k q + times on_path (p ∷ ps) q)))
          (sym (if_true _ _ (ap not (h.enabled_lem p ∙ dead))))
          (Holds-map (SendsAt (λ q. k q + times on_path ps q))
            (SendsAt (λ q. k q + times on_path (p ∷ ps) q)) (inject_round ps s)
            (inject_round-Sends ps k s h)
            (λ u.
              same-count (λ q. k q + times on_path ps q) (λ q. k q + times on_path (p ∷ ps) q) u
                (λ q. ap (λ (i : ℕ). k q + i) (times-skip p q ps dead))))
  ]

  module _ (d : PathId → ℕ) (f : Main → Ran)
      (sends : (k : PathId → ℕ) (s : Main)
        → SendsAt k s
        → Holds (SendsAt (λ q. k q + d q)) (f s)) where
    pub repeat-Sends :
        (n : ℕ) (k : PathId → ℕ) (s : Main)
        → SendsAt k s
        → Holds (SendsAt (λ q. k q + n * d q)) (repeat n f s)
    repeat-Sends zero k s h = same-count k (λ q. k q + 0 * d q) s (λ q. omega arith) h
    repeat-Sends (suc n) k s h =
        Holds-bind (SendsAt (λ q. k q + d q)) (SendsAt (λ q. k q + suc n * d q)) (f s) (repeat n f)
          (sends k s h)
          (λ t g.
            Holds-map (SendsAt (λ q. (k q + d q) + n * d q)) (SendsAt (λ q. k q + suc n * d q))
              (repeat n f t) (repeat-Sends n (λ q. k q + d q) t g)
              (λ u.
                same-count (λ q. (k q + d q) + n * d q) (λ q. k q + suc n * d q) u
                  (λ q. once_more (k q) (d q) n)))
      where
        once_more : (a b c : ℕ) → (a + b) + c * b ≡ a + suc c * b
        once_more a b c = omega arith

  -- A look at the clock.
  pub looks-Sends :
      (Q : Main → Type 0) (k : PathId → ℕ) (b : Boxes) (ms : List Moment) (g : ℕ → Main → Ran)
      → Sends bound on_path k b ms
      → ((now : ℕ) (t : Main) → SendsAt k t → Holds Q (g now t))
      → Holds Q (looks (record { boxes = b; ahead = ms }) g)
  looks-Sends Q k b [] g h step = tt
  looks-Sends Q k b (m ∷ ms) g h step =
      step m.now (record { boxes = meanwhile b m.others; ahead = ms })
        (meanwhile-Sends bound on_path k b m ms h)
