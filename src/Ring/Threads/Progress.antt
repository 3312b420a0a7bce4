-- ===== src/Ring/Threads/Progress.antt =====
-- Whom a thread waits for that waits for its turn.
use libchan.Base.{
  ℕ, zero, suc, ◌+◌, ◌^◌, ◌≤◌, ◌<◌, false, some, List, [], ◌∷◌, length, ltb, ltb→lt, ==_iff,
  if_true, Bool-cases, add32, ◌≡◌, refl, sym, ap, ◌∙◌, ◌⊎◌, inl, inr, arith,
}
use mathlib.Core.Option.{some-injective}
use libchan.Ring.{Ring}
use libchan.Ring.Valid.{IsValid, contents}
use libchan.Ring.Threads.{
  Place, idle, push_start, push_loaded, push_tested, push_reserved, push_written, push_turn, pushed,
  pop_start, pop_loaded, pop_tested, pop_reserved, pop_read, pop_turn, popped, Threads, Act, moves,
  move, act, run, begin,
}
use libchan.Ring.Threads.Inv.{push_ticket, pop_ticket, at, Cursors, Inv}
use libchan.Ring.Threads.Frame.{update-own}
use libchan.Ring.Threads.Fifo.{reached}

module _ {A : Type 0} where
  -- The same thread makes so many accesses.
  abbrev pub alone : ℕ → ℕ → List (Act A)
  alone n zero = []
  alone n (suc k) = moves n false ∷ alone n k

  module _ (s : Threads A) (n : ℕ) where
    -- What an access of the thread at the place `p` leaves.
    act-place :
        (p : Place A) → s.place n ≡ p → (act s (moves n false)).place n ≡ (move false s.ring p).1
    unfolding act
    act-place p e =
        update-own s.place n (move false s.ring (s.place n)).1 ∙ ap (λ t. (move false s.ring t).1) e

    act-ring :
        (p : Place A) → s.place n ≡ p → (act s (moves n false)).ring ≡ (move false s.ring p).0
    unfolding act
    act-ring p e = ap (λ t. (move false s.ring t).0) e

  -- How many accesses a push with a ticket needs when its turn has come, and a pop.
  abbrev pub push_left : Place A → ℕ
  push_left (push_reserved x ph) = 3
  push_left (push_written x ph) = 2
  push_left p = 1

  abbrev pub pop_left : Place A → ℕ
  pop_left (pop_reserved ch) = 3
  pop_left (pop_read ch v) = 2
  pop_left p = 1

  push_turn-commits :
      (s : Threads A) (n : ℕ) (x : A) (ph : ℕ)
      → s.place n ≡ push_turn x ph
      → (run s (alone n 1)).ring.prod_tail ≡ add32 ph 1
  unfolding run move
  push_turn-commits s n x ph e = ap (λ (t : Ring A). t.prod_tail) (act-ring s n (push_turn x ph) e)

  push_written-commits :
      (s : Threads A) (n : ℕ) (x : A) (ph : ℕ)
      → s.place n ≡ push_written x ph
      → s.ring.prod_tail ≡ ph
      → (run s (alone n 2)).ring.prod_tail ≡ add32 ph 1
  unfolding run move
  push_written-commits s n x ph e turn =
      push_turn-commits (act s (moves n false)) n x ph
        (act-place s n (push_written x ph) e ∙ if_true _ _ ((==_iff s.ring.prod_tail ph).1 turn))

  push_reserved-commits :
      (s : Threads A) (n : ℕ) (x : A) (ph : ℕ)
      → s.place n ≡ push_reserved x ph
      → s.ring.prod_tail ≡ ph
      → (run s (alone n 3)).ring.prod_tail ≡ add32 ph 1
  unfolding run move
  push_reserved-commits s n x ph e turn =
      push_written-commits (act s (moves n false)) n x ph (act-place s n (push_reserved x ph) e)
        (ap (λ (t : Ring A). t.prod_tail) (act-ring s n (push_reserved x ph) e) ∙ turn)

  push-commits :
      (s : Threads A) (n ph : ℕ) (p : Place A)
      → s.place n ≡ p
      → push_ticket p ≡ some ph
      → s.ring.prod_tail ≡ ph
      → (run s (alone n (push_left p))).ring.prod_tail ≡ add32 ph 1
  push-commits s n ph (push_reserved x q) e f turn =
      push_reserved-commits s n x q e (turn ∙ sym (some-injective q ph f))
      ∙ ap (λ (t : ℕ). add32 t 1) (some-injective q ph f)
  push-commits s n ph (push_written x q) e f turn =
      push_written-commits s n x q e (turn ∙ sym (some-injective q ph f))
      ∙ ap (λ (t : ℕ). add32 t 1) (some-injective q ph f)
  push-commits s n ph (push_turn x q) e f turn =
      push_turn-commits s n x q e ∙ ap (λ (t : ℕ). add32 t 1) (some-injective q ph f)
  push-commits s n ph idle e f turn = cc
  push-commits s n ph (push_start x) e f turn = cc
  push-commits s n ph (push_loaded x q) e f turn = cc
  push-commits s n ph (push_tested x q) e f turn = cc
  push-commits s n ph (pushed b) e f turn = cc
  push-commits s n ph pop_start e f turn = cc
  push-commits s n ph (pop_loaded q) e f turn = cc
  push-commits s n ph (pop_tested q) e f turn = cc
  push-commits s n ph (pop_reserved q) e f turn = cc
  push-commits s n ph (pop_read q v) e f turn = cc
  push-commits s n ph (pop_turn q v) e f turn = cc
  push-commits s n ph (popped o) e f turn = cc

  pop_turn-commits :
      (s : Threads A) (n ch : ℕ) (v : A)
      → s.place n ≡ pop_turn ch v
      → (run s (alone n 1)).ring.cons_tail ≡ add32 ch 1
  unfolding run move
  pop_turn-commits s n ch v e = ap (λ (t : Ring A). t.cons_tail) (act-ring s n (pop_turn ch v) e)

  pop_read-commits :
      (s : Threads A) (n ch : ℕ) (v : A)
      → s.place n ≡ pop_read ch v
      → s.ring.cons_tail ≡ ch
      → (run s (alone n 2)).ring.cons_tail ≡ add32 ch 1
  unfolding run move
  pop_read-commits s n ch v e turn =
      pop_turn-commits (act s (moves n false)) n ch v
        (act-place s n (pop_read ch v) e ∙ if_true _ _ ((==_iff s.ring.cons_tail ch).1 turn))

  pop_reserved-commits :
      (s : Threads A) (n ch : ℕ)
      → s.place n ≡ pop_reserved ch
      → s.ring.cons_tail ≡ ch
      → (run s (alone n 3)).ring.cons_tail ≡ add32 ch 1
  unfolding run move
  pop_reserved-commits s n ch e turn =
      pop_read-commits (act s (moves n false)) n ch (at s.ring ch)
        (act-place s n (pop_reserved ch) e)
        (ap (λ (t : Ring A). t.cons_tail) (act-ring s n (pop_reserved ch) e) ∙ turn)

  pop-commits :
      (s : Threads A) (n ch : ℕ) (p : Place A)
      → s.place n ≡ p
      → pop_ticket p ≡ some ch
      → s.ring.cons_tail ≡ ch
      → (run s (alone n (pop_left p))).ring.cons_tail ≡ add32 ch 1
  pop-commits s n ch (pop_reserved q) e f turn =
      pop_reserved-commits s n q e (turn ∙ sym (some-injective q ch f))
      ∙ ap (λ (t : ℕ). add32 t 1) (some-injective q ch f)
  pop-commits s n ch (pop_read q v) e f turn =
      pop_read-commits s n q v e (turn ∙ sym (some-injective q ch f))
      ∙ ap (λ (t : ℕ). add32 t 1) (some-injective q ch f)
  pop-commits s n ch (pop_turn q v) e f turn =
      pop_turn-commits s n q v e ∙ ap (λ (t : ℕ). add32 t 1) (some-injective q ch f)
  pop-commits s n ch idle e f turn = cc
  pop-commits s n ch (push_start x) e f turn = cc
  pop-commits s n ch (push_loaded x q) e f turn = cc
  pop-commits s n ch (push_tested x q) e f turn = cc
  pop-commits s n ch (push_reserved x q) e f turn = cc
  pop-commits s n ch (push_written x q) e f turn = cc
  pop-commits s n ch (push_turn x q) e f turn = cc
  pop-commits s n ch (pushed b) e f turn = cc
  pop-commits s n ch pop_start e f turn = cc
  pop-commits s n ch (pop_loaded q) e f turn = cc
  pop-commits s n ch (pop_tested q) e f turn = cc
  pop-commits s n ch (popped o) e f turn = cc

  -- From a ring with no operation under way, after every schedule of any number of threads with fewer
  -- than 2 ^ 32 accesses less the capacity: where `prod.tail` is not `prod.head`, there is a thread
  -- that advances `prod.tail` in at most three accesses of its own, and where `cons.tail` is not
  -- `cons.head`, one that so advances `cons.tail`.
  pub run-commits :
      (r : Ring A) (acts : List (Act A))
      → IsValid r
      → r.capacity + length acts < 2 ^ 32
      → let s = run (begin r) acts in
        ((s.ring.prod_tail ≡ s.ring.prod_head)
          ⊎ ((n k : ℕ) × (k ≤ 3) × ((run s (alone n k)).ring.prod_tail ≡ add32 s.ring.prod_tail 1)))
        × ((s.ring.cons_tail ≡ s.ring.cons_head)
            ⊎ ((n k : ℕ) × (k ≤ 3)
                × ((run s (alone n k)).ring.cons_tail ≡ add32 s.ring.cons_tail 1)))
  run-commits r acts v small = (pushes, pops)
    where
      s : Threads A
      s = run (begin r) acts

      i : Inv r.cons_head (contents r) (r.capacity + length acts) s
      i = reached r acts v small

      c : Cursors r.cons_head (r.capacity + length acts) i.marks s.ring
      c = i.cursors

      push_few : (p : Place A) → push_left p ≤ 3
      push_few p = ground arith

      pop_few : (p : Place A) → pop_left p ≤ 3
      pop_few p = ground arith

      pushes :
          (s.ring.prod_tail ≡ s.ring.prod_head)
          ⊎ ((n k : ℕ) × (k ≤ 3) × ((run s (alone n k)).ring.prod_tail ≡ add32 s.ring.prod_tail 1))
      pushes = elim (Bool-cases (ltb i.marks.prod_tail i.marks.prod_head)) [
        | inl e ↦
            let (n, h) = i.pushes.owner i.marks.prod_tail (omega arith) (ltb→lt _ _ e) in
            let here = h ∙ ap some (sym c.prod_tail_lem) in
            inr (
              n,
              push_left (s.place n),
              push_few (s.place n),
              push-commits s n _ (s.place n) refl here refl,
            )
        | inr e ↦ inl (
            c.prod_tail_lem
            ∙ ap (add32 r.cons_head) (level i.marks.prod_tail i.marks.prod_head e c.prod_le)
            ∙ sym c.prod_head_lem)
      ]
        where
          level : (a b : ℕ) → ltb a b ≡ false → a ≤ b → a ≡ b
          level a b e l = ground arith

      pops :
          (s.ring.cons_tail ≡ s.ring.cons_head)
          ⊎ ((n k : ℕ) × (k ≤ 3) × ((run s (alone n k)).ring.cons_tail ≡ add32 s.ring.cons_tail 1))
      pops = elim (Bool-cases (ltb i.marks.cons_tail i.marks.cons_head)) [
        | inl e ↦
            let (n, h) = i.pops.owner i.marks.cons_tail (omega arith) (ltb→lt _ _ e) in
            let here = h ∙ ap some (sym c.cons_tail_lem) in
            inr (
              n,
              pop_left (s.place n),
              pop_few (s.place n),
              pop-commits s n _ (s.place n) refl here refl,
            )
        | inr e ↦ inl (
            c.cons_tail_lem
            ∙ ap (add32 r.cons_head) (level i.marks.cons_tail i.marks.cons_head e c.cons_le)
            ∙ sym c.cons_head_lem)
      ]
        where
          level : (a b : ℕ) → ltb a b ≡ false → a ≤ b → a ≡ b
          level a b e l = ground arith
