-- ===== src/Chan/Idle.antt =====
-- A buffered channel on which no call is blocked, and the helpers that then find nobody.
use libchan.Base.{ℕ, ◌<◌, true, false, not, none, List, [], ◌≡◌, sym, ap, ◌∙◌, length, ◌==◌, arith}
use libchan.Ring.{Ring}
use libchan.Ring.Valid.{IsValid}
use libchan.Chan.{
  World, Chan, pop_claimed, deliver_ring, deliver_rounds, admit_senders, admit_rounds,
}

-- Buffered, its ring between two operations, and nobody parked.
pub record IsIdle {A : Type 0} (c : Chan A) : Type 0 where
  pub capacity_pos : 0 < c.capacity
  pub ring_valid : IsValid c.ring
  pub no_senders : c.send_waiters ≡ []
  pub no_receivers : c.recv_waiters ≡ []
  pub no_send_cnt : c.send_waiter_cnt ≡ 0
  pub no_recv_cnt : c.recv_waiter_cnt ≡ 0

-- A count of zero in the code's form of the test.
pub zero-test : (n : ℕ) → n ≡ 0 → not (n == 0) ≡ false
zero-test n e = ground arith

pub zero-eq : (n : ℕ) → n ≡ 0 → (n == 0) ≡ true
zero-eq n e = ground arith

pub pos-eq : (n : ℕ) → 0 < n → (n == 0) ≡ false
pos-eq n e = ground arith

module _ {A : Type 0} where
  abbrev pub with_ring : Chan A → Ring A → Chan A
  with_ring c ring = record c { ring = ring }

  pub with_ring-IsIdle :
      {c : Chan A} (ring : Ring A) → IsIdle c → IsValid ring → IsIdle (with_ring c ring)
  with_ring-IsIdle ring i v = record {
    capacity_pos = i.capacity_pos;
    ring_valid = v;
    no_senders = i.no_senders;
    no_receivers = i.no_receivers;
    no_send_cnt = i.no_send_cnt;
    no_recv_cnt = i.no_recv_cnt;
  }

  pub deliver_ring-nobody :
      (c : Chan A) (w : World A) → c.recv_waiters ≡ [] → deliver_ring c w ≡ (c, w)
  unfolding deliver_ring deliver_rounds
  deliver_ring-nobody c w e = ap (λ xs. deliver_rounds (length xs) c w) e

  pub admit_senders-nobody :
      (c : Chan A) (w : World A) → c.send_waiters ≡ [] → admit_senders c w ≡ (c, w)
  unfolding admit_senders admit_rounds
  admit_senders-nobody c w e = ap (λ xs. admit_rounds (length xs) c w) e

  pub pop_claimed-nobody : (xs : List ℕ) (w : World A) → xs ≡ [] → pop_claimed xs w ≡ (none, xs, w)
  unfolding pop_claimed
  pop_claimed-nobody xs w e = ap (λ ys. pop_claimed ys w) e ∙ ap (λ ys. (none, ys, w)) (sym e)
