-- ===== src/Pipeline/Ends.antt =====
-- The ends of a route: a channel that grows by an injected packet, and one that loses a packet to the
-- accounts.
use libchan.Base.{
  false, none, List, [], ◌∷◌, ◌++◌, append_assoc, append-nil, ◌≡◌, sym, ap, ap₂, ◌∙◌, ◌==◌,
  if◌then◌else◌, if_true, if_false, Bool-cases, inl, inr,
}
use libchan.Pipeline.Topology.{PathId, Packet, Port, port_id, path_id, on}
use libchan.Pipeline.Plane.{Plane, set_queue}
use libchan.Pipeline.Route.{producer, same-port}
use libchan.Pipeline.Flight.{pick, pick-append, pick-own, pick-other, along, along-congr, off}
use libchan.Pipeline.Moves.{held_by, full}

-- A channel that grew by a packet at its back, where no send is pending.
pub grown-full :
    (pl : Plane) (a c : Port) (x : Packet)
    → producer a ≡ none
    → full (set_queue pl a (pl.queue a ++ (x ∷ []))) c
      ≡ (if port_id c == port_id a then full pl a ++ (x ∷ []) else full pl c)
grown-full pl a c x alone = elim (Bool-cases (port_id c == port_id a)) [
  | inl e ↦
      ap₂ ◌++◌ (if_true _ _ e) (
        ap (λ t. held_by (producer t) pl.hand t) (same-port c a e)
        ∙ ap (λ o. held_by o pl.hand a) alone)
      ∙ append-nil (pl.queue a ++ (x ∷ []))
      ∙ ap (λ t. t ++ (x ∷ []))
          (sym (append-nil (pl.queue a))
            ∙ ap (λ t. pl.queue a ++ t) (sym (ap (λ o. held_by o pl.hand a) alone)))
      ∙ sym (if_true _ _ e)
  | inr e ↦ ap (λ t. t ++ held_by (producer c) pl.hand c) (if_false _ _ e) ∙ sym (if_false _ _ e)
]

-- One that lost the packet in front.
pub shrunk-full :
    (pl : Plane) (a c : Port) (rest : List Packet)
    → (port_id c == port_id a) ≡ false
    → full (set_queue pl a rest) c ≡ full pl c
shrunk-full pl a c rest e = ap (λ t. t ++ held_by (producer c) pl.hand c) (if_false _ _ e)

module _ (f f' : Port → List Packet) (a : Port) (x : Packet) where
  -- The first channel of a route grew.
  pub along-grown :
      (p : PathId) (rest : List Port)
      → on a rest ≡ false
      → f' a ≡ f a ++ (x ∷ [])
      → ((c : Port) → (port_id c == port_id a) ≡ false → f' c ≡ f c)
      → x.path ≡ p
      → along f' p (a ∷ rest) ≡ along f p (a ∷ rest) ++ (x.seq ∷ [])
  along-grown p rest o e others mine =
      ap₂ ◌++◌ (along-congr f f' p rest (λ c h. ap (pick p) (others c (off a c rest o h)))) (
        ap (pick p) e
        ∙ pick-append p (f a) (x ∷ [])
        ∙ ap (λ t. pick p (f a) ++ t) (pick-own p x [] mine))
      ∙ sym (append_assoc (along f p rest) (pick p (f a)) (x.seq ∷ []))

  along-split :
      (g : Port → List Packet) (p : PathId) (cs : List Port)
      → along g p (cs ++ (a ∷ [])) ≡ pick p (g a) ++ along g p cs
  along-split g p [] = sym (append-nil (pick p (g a)))
  along-split g p (c ∷ cs) =
      ap (λ t. t ++ pick p (g c)) (along-split g p cs)
      ∙ append_assoc (pick p (g a)) (along g p cs) (pick p (g c))

  -- The last channel of a route lost its first packet.
  pub along-shrunk :
      (p : PathId) (cs : List Port)
      → on a cs ≡ false
      → f a ≡ x ∷ f' a
      → ((c : Port) → (port_id c == port_id a) ≡ false → f' c ≡ f c)
      → x.path ≡ p
      → along f p (cs ++ (a ∷ [])) ≡ x.seq ∷ along f' p (cs ++ (a ∷ []))
  along-shrunk p cs o e others mine =
      along-split f p cs
      ∙ ap₂ ◌++◌ (ap (pick p) e ∙ pick-own p x (f' a) mine)
          (sym (along-congr f f' p cs (λ c h. ap (pick p) (others c (off a c cs o h)))))
      ∙ ap (λ t. x.seq ∷ t) (sym (along-split f' p cs))

  -- Neither shows on another path.
  pub pick-grown :
      (p : PathId) (c : Port)
      → f' a ≡ f a ++ (x ∷ [])
      → ((c : Port) → (port_id c == port_id a) ≡ false → f' c ≡ f c)
      → (path_id x.path == path_id p) ≡ false
      → pick p (f' c) ≡ pick p (f c)
  pick-grown p c e others other = elim (Bool-cases (port_id c == port_id a)) [
    | inl ca ↦
        ap (λ t. pick p (f' t)) (same-port c a ca)
        ∙ ap (pick p) e
        ∙ pick-append p (f a) (x ∷ [])
        ∙ ap (λ t. pick p (f a) ++ t) (pick-other p x [] other)
        ∙ append-nil (pick p (f a))
        ∙ ap (λ t. pick p (f t)) (sym (same-port c a ca))
    | inr ca ↦ ap (pick p) (others c ca)
  ]

  pub pick-shrunk :
      (p : PathId) (c : Port)
      → f a ≡ x ∷ f' a
      → ((c : Port) → (port_id c == port_id a) ≡ false → f' c ≡ f c)
      → (path_id x.path == path_id p) ≡ false
      → pick p (f' c) ≡ pick p (f c)
  pick-shrunk p c e others other = elim (Bool-cases (port_id c == port_id a)) [
    | inl ca ↦
        ap (λ t. pick p (f' t)) (same-port c a ca)
        ∙ sym (pick-other p x (f' a) other)
        ∙ ap (pick p) (sym e)
        ∙ ap (λ t. pick p (f t)) (sym (same-port c a ca))
    | inr ca ↦ ap (pick p) (others c ca)
  ]
