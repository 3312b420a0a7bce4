-- ===== src/Pipeline/Flight.antt =====
-- The packets of one path that are under way, in the order of its route, and what a move of one
-- packet to the next channel does to them.
use libchan.Base.{
  ℕ, true, false, not, ◌&&◌, List, [], ◌∷◌, ◌++◌, append_assoc, append-nil, ◌≡◌, refl, sym, ap, ap₂,
  ◌∙◌, ◌==◌, ==_refl, if◌then◌else◌, if_true, if_false, Bool-cases, and_left, and_right, not-false,
  or_left, or_right, or_false_left, or_false_right, or_drop, inl, inr,
}
use libchan.Pipeline.Topology.{PathId, Packet, Port, port_id, path_id, on}
use libchan.Pipeline.Route.{follows, same-port}

-- The sequence numbers of the packets of a path.
abbrev pub pick : PathId → List Packet → List ℕ
pick p [] = []
pick p (x ∷ xs) = if path_id x.path == path_id p then x.seq ∷ pick p xs else pick p xs

pub pick-append : (p : PathId) (xs ys : List Packet) → pick p (xs ++ ys) ≡ pick p xs ++ pick p ys
pick-append p [] ys = refl
pick-append p (x ∷ xs) ys = elim (Bool-cases (path_id x.path == path_id p)) [
  | inl e ↦ rw e (ap (λ t. x.seq ∷ t) (pick-append p xs ys))
  | inr e ↦ rw e (pick-append p xs ys)
]

pub pick-own :
    (p : PathId) (x : Packet) (xs : List Packet) → x.path ≡ p → pick p (x ∷ xs) ≡ x.seq ∷ pick p xs
pick-own p x xs e = if_true _ _ (ap (λ q. path_id q == path_id p) e ∙ ==_refl (path_id p))

pub pick-other :
    (p : PathId) (x : Packet) (xs : List Packet)
    → (path_id x.path == path_id p) ≡ false
    → pick p (x ∷ xs) ≡ pick p xs
pick-other p x xs e = if_false _ _ e

-- What lies in the channels of a route, from its end to its start.
abbrev pub along : (Port → List Packet) → PathId → List Port → List ℕ
along f p [] = []
along f p (a ∷ rest) = along f p rest ++ pick p (f a)

-- The first packet `x` of `a` is now the last of `b`.
pub record Moved (f f' : Port → List Packet) (a b : Port) (x : Packet) : Type 0 where
  pub left : f a ≡ x ∷ f' a
  pub came : f' b ≡ f b ++ (x ∷ [])
  pub others :
      (c : Port) → (port_id c == port_id a) ≡ false → (port_id c == port_id b) ≡ false → f' c ≡ f c

pub along-congr :
    (f f' : Port → List Packet) (p : PathId) (cs : List Port)
    → ((c : Port) → on c cs ≡ true → pick p (f' c) ≡ pick p (f c))
    → along f' p cs ≡ along f p cs
along-congr f f' p [] same = refl
along-congr f f' p (c ∷ cs) same =
    ap₂ ◌++◌ (along-congr f f' p cs (λ d h. same d (or_right _ _ h)))
      (same c (or_left _ _ (==_refl (port_id c))))

-- A packet of another path is not seen.
pub along-other :
    (f f' : Port → List Packet) (a b : Port) (x : Packet) (p : PathId) (cs : List Port)
    → Moved f f' a b x
    → (path_id x.path == path_id p) ≡ false
    → along f' p cs ≡ along f p cs
along-other f f' a b x p cs m e = along-congr f f' p cs (λ c h. same c)
  where
    same : (c : Port) → pick p (f' c) ≡ pick p (f c)
    same c = elim (Bool-cases (port_id c == port_id a)) [
      | inl ca ↦
          let eq = same-port c a ca in
          ap (λ t. pick p (f' t)) eq
          ∙ sym (pick-other p x (f' a) e)
          ∙ ap (pick p) (sym m.left)
          ∙ ap (λ t. pick p (f t)) (sym eq)
      | inr ca ↦ elim (Bool-cases (port_id c == port_id b)) [
        | inl cb ↦
            let eq = same-port c b cb in
            ap (λ t. pick p (f' t)) eq
            ∙ ap (pick p) m.came
            ∙ pick-append p (f b) (x ∷ [])
            ∙ ap (λ t. pick p (f b) ++ t) (pick-other p x [] e)
            ∙ append-nil (pick p (f b))
            ∙ ap (λ t. pick p (f t)) (sym eq)
        | inr cb ↦ ap (pick p) (m.others c ca cb)
      ]
    ]

pub off :
    (a c : Port) (cs : List Port)
    → on a cs ≡ false
    → on c cs ≡ true
    → (port_id c == port_id a) ≡ false
off a c [] h k = cc
off a c (d ∷ cs) h k = elim (Bool-cases (port_id d == port_id c)) [
  | inl e ↦
      let eq = same-port d c e in
      ap (λ (t : Port). port_id t == port_id a) (sym eq) ∙ or_false_left _ _ h
  | inr e ↦ off a c cs (or_false_right _ _ h) (or_drop _ _ e k)
]

regroup :
    (xs ys : List ℕ) (n : ℕ) (zs : List ℕ) → (xs ++ (ys ++ (n ∷ []))) ++ zs ≡ (xs ++ ys) ++ (n ∷ zs)
regroup xs ys n zs = simp append_assoc

-- A packet of the path, moved one channel on along its route, is at the same place among those
-- under way.
pub along-Moved :
    (f f' : Port → List Packet) (a b : Port) (x : Packet) (p : PathId) (cs : List Port)
    → Moved f f' a b x
    → x.path ≡ p
    → follows a b cs ≡ true
    → along f' p cs ≡ along f p cs
along-Moved f f' a b x p [] m e h = refl
along-Moved f f' a b x p (c ∷ []) m e h = cc
along-Moved f f' a b x p (c ∷ d ∷ cs) m e h = elim (Bool-cases (port_id c == port_id a)) [
  | inl ca ↦
      let g = sym (if_true _ _ ca) ∙ h in
      let apart = and_right (port_id d == port_id b) (not (on a (d ∷ cs)) && not (on b cs)) g in
      let db =
        same-port d b
          (and_left (port_id d == port_id b) (not (on a (d ∷ cs)) && not (on b cs)) g) in
      let eq = same-port c a ca in
      let a_off = not-false (on a (d ∷ cs)) (and_left _ (not (on b cs)) apart) in
      let b_off = not-false (on b cs) (and_right (not (on a (d ∷ cs))) _ apart) in
      let rest = along-congr f f' p cs (λ t k. ap (pick p) (
        m.others t (off a t cs (or_false_right (port_id d == port_id a) _ a_off) k)
          (off b t cs b_off k))) in
      ap₂ (λ u v. (along f' p cs ++ pick p (f' u)) ++ pick p (f' v)) db eq
      ∙ ap (λ t. (along f' p cs ++ t) ++ pick p (f' a))
          (ap (pick p) m.came
            ∙ pick-append p (f b) (x ∷ [])
            ∙ ap (λ t. pick p (f b) ++ t) (pick-own p x [] e))
      ∙ ap (λ t. (t ++ (pick p (f b) ++ (x.seq ∷ []))) ++ pick p (f' a)) rest
      ∙ regroup (along f p cs) (pick p (f b)) x.seq (pick p (f' a))
      ∙ ap (λ t. (along f p cs ++ pick p (f b)) ++ t)
          (sym (pick-own p x (f' a) e) ∙ ap (pick p) (sym m.left))
      ∙ ap₂ (λ u v. (along f p cs ++ pick p (f u)) ++ pick p (f v)) (sym db) (sym eq)
  | inr ca ↦
      let g = sym (if_false _ _ ca) ∙ h in
      ap₂ ◌++◌ (along-Moved f f' a b x p (d ∷ cs) m e (and_right _ _ g))
        (ap (pick p) (m.others c ca (not-false _ (and_left _ _ g))))
]
