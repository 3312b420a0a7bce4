-- ===== src/Mpsc/Delivers.antt =====
-- What a run of `run_traffic` that returns 0 has done.
use libchan.Base.{
  ℕ, zero, suc, ◌+◌, ◌*◌, Bool, true, not, Option, none, some, List, [], ◌∷◌, length, ◌≡◌, refl,
  sym, ap, subst, ◌∙◌, ◌==◌, ltb, if◌then◌else◌, if_true, if_false, Bool-cases, inl, inr, arith,
}
use libchan.Pipeline.Topology.{PathId, path_id}
use libchan.Pipeline.Plane.{path_drained}
use libchan.Mpsc.Boxes.{Boxes}
use libchan.Mpsc.Traffic.{
  Moment, meanwhile, Main, Ran, still, failed, went, ◌>>=◌, inject_wait, until, rounds, drain_loop,
  drain, drain_sec, drain_path, run_traffic_sequential,
}
use libchan.Mpsc.Sends.{Sends, meanwhile-Sends, poll-Sends}
use libchan.Mpsc.Loops.{
  Holds, Holds-bind, Holds-map, SendsAt, Reaches, times, same-Reaches, inject_wait-Sends,
  repeat-Sends, looks-Sends, times-skip,
}

module _ (bound : ℕ) (on_path : PathId → Bool) where
  abbrev Some : Main → Type 0
  Some s = (j : PathId → ℕ) × SendsAt bound on_path j s

  -- A round that sends `d` more on each path.
  module _ (d : PathId → ℕ) (f : Main → Ran)
      (sends : (k : PathId → ℕ) (s : Main)
        → SendsAt bound on_path k s
        → Holds (SendsAt bound on_path (λ q. k q + d q)) (f s)) where
    until-Some :
        (fuel deadline : ℕ) (k : PathId → ℕ) (s : Main)
        → SendsAt bound on_path k s
        → Holds Some (until fuel deadline f s)
    until-Some zero deadline k s h = tt
    until-Some (suc fuel) deadline k s h =
        looks-Sends bound on_path Some k s.boxes s.ahead
          (λ now t. if ltb now deadline then (f t >>= until fuel deadline f) else went t) h
          (λ now t g. elim (Bool-cases (ltb now deadline)) [
            | inl e ↦ subst (Holds Some) (sym (if_true _ (went t) e)) (
                Holds-bind (SendsAt bound on_path (λ q. k q + d q)) Some (f t)
                  (until fuel deadline f) (sends k t g)
                  (λ u l. until-Some fuel deadline (λ q. k q + d q) u l))
            | inr e ↦
                let here : Some t = (k, g) in
                subst (Holds Some) {x = went t}
                  (sym (if_false (f t >>= until fuel deadline f) (went t) e)) here
          ])

    pub rounds-Reaches :
        (duration : Option ℕ) (count : ℕ) (k : PathId → ℕ) (s : Main)
        → Reaches bound on_path duration k s
        → Holds
            (Reaches bound on_path duration (λ q. k q + count * d q))
            (rounds duration count f s)
    rounds-Reaches none count k s h = repeat-Sends bound on_path d f sends count k s h
    rounds-Reaches (some duration) count k s (j, h) =
        looks-Sends bound on_path Some j s.boxes s.ahead _ h
          (λ now t g. until-Some (suc (length t.ahead)) (now + duration) j t g)

  -- A drain sends nothing, and returns 0 where its test held.
  module _ (done : Boxes → Bool) (k : PathId → ℕ) where
    abbrev Drained : Main → Type 0
    Drained s = SendsAt bound on_path k s × (done s.boxes ≡ true)

    drain_loop-Drained :
        (deadline : ℕ) (ms : List Moment) (s : Boxes)
        → Sends bound on_path k s ms
        → Holds Drained (drain_loop deadline done s ms)
    drain_loop-Drained deadline [] s h = tt
    drain_loop-Drained deadline (m ∷ ms) s h = elim (Bool-cases (ltb m.now deadline)) [
      | inr late ↦ subst (Holds Drained) (sym (if_false _ _ late)) tt
      | inl early ↦
          subst (Holds Drained) (sym (if_true _ _ early))
            (elim (Bool-cases (done (meanwhile s m.others))) [
              | inl e ↦
                  subst (Holds Drained) (sym (if_true _ _ e))
                    (meanwhile-Sends bound on_path k s m ms h, e)
              | inr e ↦
                  subst (Holds Drained) (sym (if_false _ _ e))
                    (drain_loop-Drained deadline ms _ (poll-Sends bound on_path k s m ms h))
            ])
    ]

    drain-Drained :
        (timeout_sec : ℕ) (s : Main)
        → SendsAt bound on_path k s
        → Holds Drained (drain done timeout_sec s)
    drain-Drained timeout_sec s h =
        looks-Sends bound on_path Drained k s.boxes s.ahead _ h
          (λ now t g. drain_loop-Drained (now + timeout_sec * 1000000000) t.ahead t.boxes g)

  enabled-Reaches :
      (duration : Option ℕ) (k : PathId → ℕ) (s : Main) (p : PathId)
      → Reaches bound on_path duration k s
      → (s.boxes.stats p).enabled ≡ on_path p
  enabled-Reaches none k s p h = h.enabled_lem p
  enabled-Reaches (some duration) k s p (j, h) = h.enabled_lem p

  pub drain-Reaches :
      (duration : Option ℕ) (done : Boxes → Bool) (timeout_sec : ℕ) (k : PathId → ℕ) (s : Main)
      → Reaches bound on_path duration k s
      → Holds
          (λ t. Reaches bound on_path duration k t × (done t.boxes ≡ true))
          (drain done timeout_sec s)
  drain-Reaches none done timeout_sec k s h = drain-Drained done k timeout_sec s h
  drain-Reaches (some duration) done timeout_sec k s (j, h) =
      Holds-map (Drained done j) (λ t. Some t × (done t.boxes ≡ true)) (drain done timeout_sec s)
        (drain-Drained done j timeout_sec s h) (λ t g. ((j, g.0), g.1))

  -- One path of the sequential traffic.
  abbrev of_path : PathId → PathId → ℕ
  of_path p q = if path_id q == path_id p then 1 else 0

  path-times :
      (p q : PathId) (a count : ℕ) (ps : List PathId)
      → on_path p ≡ true
      → (a + count * of_path p q) + count * times on_path ps q
        ≡ a + count * times on_path (p ∷ ps) q
  path-times p q a count ps live = rw live (distribute (of_path p q) (times on_path ps q))
    where
      distribute : (b t : ℕ) → (a + count * b) + count * t ≡ a + count * (b + t)
      distribute b t = omega arith

  path-Reaches :
      (duration : Option ℕ) (count : ℕ) (p : PathId) (k : PathId → ℕ) (s : Main)
      → on_path p ≡ true
      → Reaches bound on_path duration k s
      → Holds
          (Reaches bound on_path duration (λ q. k q + count * of_path p q))
          (rounds duration count (λ u. inject_wait p u.boxes u.ahead) s >>= drain_path p)
  path-Reaches duration count p k s live h =
      let k' : PathId → ℕ = λ q. k q + count * of_path p q in
      Holds-bind (Reaches bound on_path duration k') (Reaches bound on_path duration k')
        (rounds duration count (λ u. inject_wait p u.boxes u.ahead) s) (drain_path p)
        (rounds-Reaches (of_path p) (λ u. inject_wait p u.boxes u.ahead)
          (λ j u g. inject_wait-Sends bound on_path p j u.ahead u.boxes live g) duration count k s
          h)
        (λ t g.
          Holds-map
            (λ v. Reaches bound on_path duration k' v × (path_drained (v.boxes.stats p) ≡ true))
            (Reaches bound on_path duration k') (drain_path p t)
            (drain-Reaches duration (λ b. path_drained (b.stats p)) drain_sec k' t g) (λ v l. l.0))

  bind_assoc : (r : Ran) (f g : Main → Ran) → (r >>= f) >>= g ≡ r >>= (λ t. f t >>= g)
  bind_assoc still f g = refl
  bind_assoc (failed s) f g = refl
  bind_assoc (went s) f g = refl

  pub sequential-Reaches :
      (duration : Option ℕ) (count : ℕ) (ps : List PathId) (k : PathId → ℕ) (s : Main)
      → Reaches bound on_path duration k s
      → Holds
          (Reaches bound on_path duration (λ q. k q + count * times on_path ps q))
          (run_traffic_sequential duration count ps s)
  sequential-Reaches duration count [] k s h =
      same-Reaches bound on_path duration k (λ q. k q + count * 0) s (λ q. omega arith) h
  sequential-Reaches duration count (p ∷ ps) k s h =
      let j : PathId → ℕ = λ q. k q + count * times on_path (p ∷ ps) q in
      let go : Main → Ran = run_traffic_sequential duration count ps in
      let this : Ran = rounds duration count (λ u. inject_wait p u.boxes u.ahead) s in
      elim (Bool-cases (on_path p)) [
        | inl live ↦
            let k' : PathId → ℕ = λ q. k q + count * of_path p q in
            subst (Holds (Reaches bound on_path duration j))
              (bind_assoc this (drain_path p) go
                ∙ sym (
                    if_false (go s) (this >>= (λ t. drain_path p t >>= go))
                      (ap not (enabled-Reaches duration k s p h ∙ live))))
              (Holds-bind (Reaches bound on_path duration k') (Reaches bound on_path duration j)
                (this >>= drain_path p) go (path-Reaches duration count p k s live h)
                (λ t g.
                  Holds-map
                    (Reaches bound on_path duration (λ q. k' q + count * times on_path ps q))
                    (Reaches bound on_path duration j) (go t)
                    (sequential-Reaches duration count ps k' t g)
                    (λ w.
                      same-Reaches bound on_path duration (λ q. k' q + count * times on_path ps q) j
                        w (λ q. path-times p q (k q) count ps live))))
        | inr dead ↦
            subst (Holds (Reaches bound on_path duration j))
              (sym (
                if_true (go s) (this >>= (λ t. drain_path p t >>= go))
                  (ap not (enabled-Reaches duration k s p h ∙ dead))))
              (Holds-map (Reaches bound on_path duration (λ q. k q + count * times on_path ps q))
                (Reaches bound on_path duration j) (go s)
                (sequential-Reaches duration count ps k s h)
                (λ w.
                  same-Reaches bound on_path duration (λ q. k q + count * times on_path ps q) j w
                    (λ q. ap (λ (i : ℕ). k q + count * i) (times-skip bound on_path p q ps dead))))
      ]
