-- ===== src/Chan/Core.antt =====
-- src/chan_core.c: the life of a channel, and `chan_close`. A NULL channel is `none`.
mod Tests
pub mod Life
pub mod Close
pub mod Closing
use libchan.Base.{
  ℕ, ◌+◌, ◌-◌, Bool, true, false, Option, none, some, List, [], ◌∷◌, ◌==◌, ◌&&◌, ltb, if◌then◌else◌,
}
use Prim.Native.String.{String}
use libchan.Ring
use libchan.Ring.{Ring, fresh}
use libchan.Chan.{
  ChanErr, chan_ok, err_closed, err_timeout, err_would_block, err_invalid, err_no_mem, World, Chan,
  finish, try_claim, close_all,
}

module _ {A : Type 0} where
  -- The fields that `chan_create_impl` sets, over a ring.
  abbrev pub created : ℕ → ℕ → Bool → Ring A → Chan A
  created elem_size capacity spsc ring = record {
    elem_size = elem_size;
    capacity = capacity;
    spsc = spsc && ltb 0 capacity;
    ring = ring;
    send_waiter_cnt = 0;
    recv_waiter_cnt = 0;
    send_waiters = [];
    recv_waiters = [];
    closed = false;
    refcount = 1;
  }

  -- `chan_create_impl`. `calloc` is whether the C library gave the channel, `malloc` is what it
  -- gives for the slots, and `zeroed` stands for the slots of a ring that is never set up.
  pub create_impl : Bool → (ℕ → Option (ℕ → A)) → (ℕ → A) → ℕ → ℕ → Bool → Option (Chan A)
  create_impl calloc malloc zeroed elem_size capacity spsc =
      if elem_size == 0 then none else elim calloc [
        | false ↦ none
        | true ↦ elim (ltb 0 capacity) [
          | false ↦ some (created elem_size capacity spsc (record (fresh 0 0 zeroed) { mask = 0 }))
          | true ↦ elim (Ring.init malloc capacity elem_size) [
            | none ↦ none
            | some ring ↦ some (created elem_size capacity spsc ring)
          ]
        ]
      ]

  -- `chan_create` and `chan_create_spsc`
  pub create : Bool → (ℕ → Option (ℕ → A)) → (ℕ → A) → ℕ → ℕ → Option (Chan A)
  create calloc malloc zeroed elem_size capacity =
      create_impl calloc malloc zeroed elem_size capacity false

  pub create_spsc : Bool → (ℕ → Option (ℕ → A)) → (ℕ → A) → ℕ → ℕ → Option (Chan A)
  create_spsc calloc malloc zeroed elem_size capacity =
      create_impl calloc malloc zeroed elem_size capacity true

  -- `chan_free`, up to the release of the memory: every waiter that is left is told.
  abbrev pub free : Chan A → World A → World A
  free c w = close_all c.recv_waiters (close_all c.send_waiters w)

  -- `chan_retain`
  pub retain : Option (Chan A) → Option (Chan A)
  retain none = none
  retain (some c) = some (record c { refcount = c.refcount + 1 })

  -- `chan_destroy`: `none` once the channel is freed.
  pub destroy : Option (Chan A) → World A → Option (Chan A) × World A
  destroy none w = (none, w)
  destroy (some c) w =
      if c.refcount == 1
      then (none, free c w)
      else (some (record c { refcount = c.refcount - 1 }), w)

  -- The waking of the receivers in `chan_close`: what is still in the ring goes to them first.
  pub close_receivers : List ℕ → Chan A → World A → Chan A × World A
  close_receivers [] c w = (record c { recv_waiters = [] }, w)
  close_receivers (r ∷ rs) c w =
      let w₁ = (try_claim w r).1 in
      let (done, ring, cell) = Ring.pop c.ring w₁.cell (w₁.node r).buf in
      elim (try_claim w r).0 [
        | false ↦ close_receivers rs c w₁
        | true ↦ elim (ltb 0 c.capacity && done) [
          | true ↦
              close_receivers rs (record c { ring = ring })
                (finish (record w₁ { cell = cell }) r chan_ok)
          | false ↦ close_receivers rs c (finish w₁ r err_closed)
        ]
      ]

  -- `chan_close`
  pub close : Option (Chan A) → World A → ChanErr × Option (Chan A) × World A
  close none w = (err_invalid, none, w)
  close (some c) w =
      let (c', w') =
        close_receivers c.recv_waiters (record c { closed = true; send_waiters = [] })
          (close_all c.send_waiters w) in
      if c.closed then (err_closed, some c, w) else (chan_ok, some c', w')

  -- `chan_is_closed`, `chan_len` and `chan_cap`
  pub is_closed : Option (Chan A) → Bool
  is_closed none = true
  is_closed (some c) = c.closed

  pub len : Option (Chan A) → ℕ
  len none = 0
  len (some c) = if c.capacity == 0 then 0 else Ring.count c.ring

  pub capacity_of : Option (Chan A) → ℕ
  capacity_of none = 0
  capacity_of (some c) = c.capacity

-- `chan_strerror`
pub strerror : ChanErr → String
strerror chan_ok = "ok"
strerror err_closed = "channel closed"
strerror err_timeout = "timeout"
strerror err_would_block = "would block"
strerror err_invalid = "invalid argument"
strerror err_no_mem = "out of memory"
