-- ===== src/Chan/Core/Life.antt =====
-- `chan_create_impl`, `chan_retain` and `chan_destroy` of src/chan_core.c.
use libchan.Base.{
  ℕ, ◌+◌, ◌*◌, ◌-◌, ◌^◌, ◌≤◌, ◌<◌, Bool, true, false, Option, none, some, [], ◌≡◌, refl, sym, ap,
  subst, ◌∙◌, inl, if_false, ◌==◌, lt→ltb, arith,
}
use libchan.Ring
use libchan.Ring.{Ring}
use libchan.Ring.Valid.{contents}
use libchan.Ring.Init.{init-IsValid, init-fresh}
use libchan.Ring.Spsc.{ProducerCache, ConsumerCache}
use libchan.Chan.{World, Chan}
use libchan.Chan.Idle.{IsIdle, pos-eq}
use libchan.Chan.Core.{created, create_impl, retain, destroy}

module _ {A : Type 0} where
  -- A channel that someone holds beside the caller outlives a retain and a destroy: they cancel.
  pub retain-destroy :
      (c : Chan A) (w : World A) → 0 < c.refcount → destroy (retain (some c)) w ≡ (some c, w)
  unfolding destroy retain
  retain-destroy c w held =
      if_false {b = c.refcount + 1 == 1} _ _ (ground arith)
      ∙ ap (λ (n : ℕ). (some (record c { refcount = n }), w)) {x = c.refcount + 1 - 1} (omega arith)

  pick-ring :
      (o : Option (Ring A)) (elem_size capacity : ℕ) (spsc : Bool) (c : Chan A)
      → (elim o [ none ↦ none | some ring ↦ some (created elem_size capacity spsc ring) ]) ≡ some c
      → (ring : Ring A) × (o ≡ some ring) × (created elem_size capacity spsc ring ≡ c)
  pick-ring none elem_size capacity spsc c e = cc
  pick-ring (some ring) elem_size capacity spsc c e = (ring, refl, cc)

  created-cap :
      (calloc : Bool) (malloc : ℕ → Option (ℕ → A)) (zeroed : ℕ → A) (elem_size cap : ℕ)
      (spsc : Bool) (c : Chan A)
      → 0 < elem_size
      → 0 < cap
      → create_impl calloc malloc zeroed elem_size cap spsc ≡ some c
      → (ring : Ring A) × (Ring.init malloc cap elem_size ≡ some ring)
        × (created elem_size cap spsc ring ≡ c)
  unfolding create_impl
  created-cap false malloc zeroed elem_size cap spsc c sized pos e =
      cc (sym (if_false _ _ (pos-eq elem_size sized)) ∙ e)
  created-cap true malloc zeroed elem_size cap spsc c sized pos e =
      pick-ring (Ring.init malloc cap elem_size) elem_size cap spsc c (
        ap
          (λ (b : Bool).
            let t : Option (Chan A) = elim b [
              | false ↦
                  some (created elem_size cap spsc (record (Ring.fresh 0 0 zeroed) { mask = 0 }))
              | true ↦ elim (Ring.init malloc cap elem_size) [
                | none ↦ none
                | some ring ↦ some (created elem_size cap spsc ring)
              ]
            ] in
            t)
          (sym (lt→ltb 0 cap pos))
        ∙ sym (if_false _ _ (pos-eq elem_size sized))
        ∙ e)

  -- What `chan_create_impl` gives for a capacity of 1 to 2 ^ 31 and elements of positive size, when
  -- it gives a channel: it is open, nobody is parked on it, its ring is valid and empty and holds
  -- at least the capacity and less than twice that, one reference is counted, and the caches are
  -- ones that the SPSC operations may trust.
  pub create-IsIdle :
      (calloc : Bool) (malloc : ℕ → Option (ℕ → A)) (zeroed : ℕ → A) (elem_size cap : ℕ)
      (spsc : Bool) (c : Chan A)
      → 0 < elem_size
      → 0 < cap
      → cap ≤ 2 ^ 31
      → create_impl calloc malloc zeroed elem_size cap spsc ≡ some c
      → IsIdle c
        × (contents c.ring ≡ [])
        × (cap ≤ c.ring.capacity)
        × (c.ring.capacity < 2 * cap)
        × (c.capacity ≡ cap)
        × (c.closed ≡ false)
        × (c.refcount ≡ 1)
        × ProducerCache c.ring
        × ConsumerCache c.ring
  create-IsIdle calloc malloc zeroed elem_size cap spsc c sized pos le e =
      let (ring, made, is) = created-cap calloc malloc zeroed elem_size cap spsc c sized pos e in
      let (v, empty, enough, tight) = init-IsValid malloc cap elem_size pos le made in
      let (slots, shape) = init-fresh malloc cap elem_size made in
      subst
        (λ (t : Chan A).
          IsIdle t
          × (contents t.ring ≡ [])
          × (cap ≤ t.ring.capacity)
          × (t.ring.capacity < 2 * cap)
          × (t.capacity ≡ cap)
          × (t.closed ≡ false)
          × (t.refcount ≡ 1)
          × ProducerCache t.ring
          × ConsumerCache t.ring)
        is
        (
          record {
            capacity_pos = pos;
            ring_valid = v;
            no_senders = refl;
            no_receivers = refl;
            no_send_cnt = refl;
            no_recv_cnt = refl;
          },
          empty,
          enough,
          tight,
          refl,
          refl,
          refl,
          subst ProducerCache shape (ground arith),
          subst ConsumerCache shape (omega arith, inl (omega arith)),
        )
