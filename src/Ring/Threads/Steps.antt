-- ===== src/Ring/Threads/Steps.antt =====
-- The accesses of all threads against the invariant of the ring.
use libchan.Base.{
  ℕ, suc, ◌+◌, ◌^◌, ◌<◌, Bool, true, false, not, ◌||◌, none, List, [], ◌∷◌, ◌++◌, append-nil,
  length, leb, ◌==◌, ==_iff, if◌then◌else◌, if_true, if_false, Bool-cases, or_false_right, update,
  add32, sub32, ◌≡◌, ◌≢◌, refl, sym, ap, subst, ◌∙◌, inl, inr, arith,
}
use libchan.Ring.{Ring}
use libchan.Ring.Threads.{
  Place, idle, push_start, push_loaded, push_tested, push_reserved, push_written, push_turn, pushed,
  pop_start, pop_loaded, pop_tested, pop_reserved, pop_read, pop_turn, popped, Threads, Act,
  calls_push, calls_pop, moves, push_loop, pop_loop, move, puts, gets, is_out, enter, act, run,
}
use libchan.Ring.Threads.Inv.{push_ticket, pop_ticket, at, Marks, Knows, Inv}
use libchan.Ring.Threads.Frame.{quiet-Inv, Cursors-limit}
use libchan.Ring.Threads.Pushes.{reserve_push-Inv, write_push-Inv, commit_push-Inv}
use libchan.Ring.Threads.Pops.{reserve_pop-Inv, commit_pop-Inv}

module _ {A : Type 0} where
  -- A thread at the place `p` moves on.
  abbrev stepped : Threads A → ℕ → Place A → Ring A × Place A → Threads A
  stepped s n p (r, p') = record {
    ring = r;
    place = update s.place n p';
    given = s.given ++ puts p;
    got = s.got ++ gets p;
  }

  -- A thread that is not in a call holds no ticket.
  pub outside : (q : Place A) → is_out q ≡ true → (push_ticket q ≡ none) × (pop_ticket q ≡ none)
  outside idle h = (refl, refl)
  outside (pushed b) h = (refl, refl)
  outside (popped o) h = (refl, refl)
  outside (push_start x) h = cc
  outside (push_loaded x ph) h = cc
  outside (push_tested x ph) h = cc
  outside (push_reserved x ph) h = cc
  outside (push_written x ph) h = cc
  outside (push_turn x ph) h = cc
  outside pop_start h = cc
  outside (pop_loaded ch) h = cc
  outside (pop_tested ch) h = cc
  outside (pop_reserved ch) h = cc
  outside (pop_read ch v) h = cc
  outside (pop_turn ch v) h = cc

module _ {A : Type 0} {base limit : ℕ} {past : List A} (s : Threads A) (n : ℕ)
    (small : suc limit < 2 ^ 32) (inv : Inv base past limit s) where
  -- It changes neither the ring nor a ticket.
  quiet :
      (p p' : Place A)
      → s.place n ≡ p
      → push_ticket p' ≡ push_ticket p
      → pop_ticket p' ≡ pop_ticket p
      → puts p ≡ []
      → gets p ≡ []
      → Knows base inv.marks s.ring p'
      → Inv base past (suc limit) (stepped s n p (s.ring, p'))
  quiet p p' here e f g h k =
      quiet-Inv n p' (s.given ++ puts p) (s.got ++ gets p) (e ∙ sym (ap push_ticket here))
        (f ∙ sym (ap pop_ticket here)) (ap (λ t. s.given ++ t) g ∙ append-nil s.given)
        (ap (λ t. s.got ++ t) h ∙ append-nil s.got) inv k

  -- It does so on one of two ways.
  either :
      (b : Bool) (p p' q : Place A)
      → (b ≡ true → Inv base past (suc limit) (stepped s n p (s.ring, p')))
      → (b ≡ false → Inv base past (suc limit) (stepped s n p (s.ring, q)))
      → Inv base past (suc limit) (stepped s n p (s.ring, if b then p' else q))
  either true p p' q f g = f refl
  either false p p' q f g = g refl

  push_loaded-Inv :
      (x : A) (ph : ℕ)
      → s.place n ≡ push_loaded x ph
      → Inv base past
          (suc limit)
          (stepped s n (push_loaded x ph) (move true s.ring (push_loaded x ph)))
  unfolding move
  push_loaded-Inv x ph here =
      either (leb s.ring.capacity (sub32 ph s.ring.cons_tail)) (push_loaded x ph) (pushed false)
        (push_tested x ph)
        (λ full. quiet (push_loaded x ph) (pushed false) here refl refl refl refl tt)
        (λ room.
          let (i, e, l) = subst (Knows base inv.marks s.ring) here (inv.knows n) in
          quiet (push_loaded x ph) (push_tested x ph) here refl refl refl refl
            (i, e, l, below i e l (roomy s.ring.capacity (sub32 ph s.ring.cons_tail) room)))
    where
      roomy : (c k : ℕ) → leb c k ≡ false → k < c
      roomy c k h = ground arith

      below :
          (i : ℕ)
          → ph ≡ add32 base i
          → i < inv.marks.prod_head + 1
          → sub32 ph s.ring.cons_tail < s.ring.capacity
          → i < inv.marks.cons_tail + s.ring.capacity
      below i e l room = omega (
        arith, e, l, room, small, inv.cursors.cons_tail_lem, inv.cursors.small, inv.cursors.cons_le,
        inv.cursors.between_le, inv.cursors.prod_le,
      )

  push_tested-Inv :
      (spurious : Bool) (x : A) (ph : ℕ)
      → s.place n ≡ push_tested x ph
      → Inv base past (suc limit) (stepped s n (push_tested x ph) (push_loop spurious s.ring x ph))
  push_tested-Inv spurious x ph here =
      elim (Bool-cases (spurious || not (s.ring.prod_head == ph))) [
        | inl failed ↦
            subst (λ t. Inv base past (suc limit) (stepped s n (push_tested x ph) t))
              (sym (if_true _ _ failed))
              (quiet (push_tested x ph) (push_start x) here refl refl refl refl tt)
        | inr won ↦
            subst (λ t. Inv base past (suc limit) (stepped s n (push_tested x ph) t))
              (sym (if_false _ _ won))
              (reserve_push-Inv n x ph _ _ here
                (same s.ring.prod_head ph (or_false_right spurious _ won)) (append-nil s.given)
                (append-nil s.got) small inv)
      ]
    where
      same : (a b : ℕ) → not (a == b) ≡ false → a ≡ b
      same a b h = ground arith

  pop_tested-Inv :
      (spurious : Bool) (ch : ℕ)
      → s.place n ≡ pop_tested ch
      → Inv base past (suc limit) (stepped s n (pop_tested ch) (pop_loop spurious s.ring ch))
  pop_tested-Inv spurious ch here = elim (Bool-cases (spurious || not (s.ring.cons_head == ch))) [
    | inl failed ↦
        subst (λ t. Inv base past (suc limit) (stepped s n (pop_tested ch) t))
          (sym (if_true _ _ failed)) (quiet (pop_tested ch) pop_start here refl refl refl refl tt)
    | inr won ↦
        subst (λ t. Inv base past (suc limit) (stepped s n (pop_tested ch) t))
          (sym (if_false _ _ won))
          (reserve_pop-Inv n ch _ _ here (same s.ring.cons_head ch (or_false_right spurious _ won))
            (append-nil s.given) (append-nil s.got) (omega (arith, small)) inv)
  ]
    where
      same : (a b : ℕ) → not (a == b) ≡ false → a ≡ b
      same a b h = ground arith

  -- `prod.tail` and `cons.head` differ, and the latter was read before.
  pop_loaded-Inv :
      (ch : ℕ)
      → s.place n ≡ pop_loaded ch
      → Inv base past (suc limit) (stepped s n (pop_loaded ch) (move true s.ring (pop_loaded ch)))
  unfolding move
  pop_loaded-Inv ch here =
      either (s.ring.prod_tail == ch) (pop_loaded ch) (popped none) (pop_tested ch)
        (λ empty. quiet (pop_loaded ch) (popped none) here refl refl refl refl tt)
        (λ some_left.
          let (i, e, l) = subst (Knows base inv.marks s.ring) here (inv.knows n) in
          quiet (pop_loaded ch) (pop_tested ch) here refl refl refl refl
            (i, e, ahead i e l (differ s.ring.prod_tail ch some_left)))
    where
      differ : (a b : ℕ) → (a == b) ≡ false → a ≢ b
      differ a b h = ground arith

      ahead :
          (i : ℕ)
          → ch ≡ add32 base i
          → i < inv.marks.cons_head + 1
          → s.ring.prod_tail ≢ ch
          → i < inv.marks.prod_tail
      ahead i e l ne = elim (Bool-cases (i == inv.marks.prod_tail)) [
        | inl same ↦ absurd (
            ne (
              inv.cursors.prod_tail_lem
              ∙ ap (add32 base) (sym ((==_iff i inv.marks.prod_tail).0 same))
              ∙ sym e))
        | inr other ↦ ground (arith, other, l, inv.cursors.between_le)
      ]

  move-Inv :
      (spurious : Bool) (p : Place A)
      → s.place n ≡ p
      → Inv base past (suc limit) (stepped s n p (move spurious s.ring p))
  unfolding move
  move-Inv spurious idle here = quiet idle idle here refl refl refl refl tt
  move-Inv spurious (push_start x) here =
      quiet (push_start x) (push_loaded x s.ring.prod_head) here refl refl refl refl
        (inv.marks.prod_head, inv.cursors.prod_head_lem, omega arith)
  move-Inv spurious (push_loaded x ph) here = push_loaded-Inv x ph here
  move-Inv spurious (push_tested x ph) here = push_tested-Inv spurious x ph here
  move-Inv spurious (push_reserved x ph) here =
      write_push-Inv n x ph _ _ here (append-nil s.given) (append-nil s.got) (omega (arith, small))
        inv
  move-Inv spurious (push_written x ph) here =
      let known = subst (Knows base inv.marks s.ring) here (inv.knows n) in
      either (s.ring.prod_tail == ph) (push_written x ph) (push_turn x ph) (push_written x ph)
        (λ e.
          quiet (push_written x ph) (push_turn x ph) here refl refl refl refl
            (known, (==_iff s.ring.prod_tail ph).0 e))
        (λ e. quiet (push_written x ph) (push_written x ph) here refl refl refl refl known)
  move-Inv spurious (push_turn x ph) here =
      commit_push-Inv n x ph _ _ here refl (append-nil s.got) (omega (arith, small)) inv
  move-Inv spurious (pushed b) here = quiet (pushed b) (pushed b) here refl refl refl refl tt
  move-Inv spurious pop_start here =
      quiet pop_start (pop_loaded s.ring.cons_head) here refl refl refl refl
        (inv.marks.cons_head, inv.cursors.cons_head_lem, omega arith)
  move-Inv spurious (pop_loaded ch) here = pop_loaded-Inv ch here
  move-Inv spurious (pop_tested ch) here = pop_tested-Inv spurious ch here
  move-Inv spurious (pop_reserved ch) here =
      quiet (pop_reserved ch) (pop_read ch (at s.ring ch)) here refl refl refl refl refl
  move-Inv spurious (pop_read ch v) here =
      let known = subst (Knows base inv.marks s.ring) here (inv.knows n) in
      either (s.ring.cons_tail == ch) (pop_read ch v) (pop_turn ch v) (pop_read ch v)
        (λ e.
          quiet (pop_read ch v) (pop_turn ch v) here refl refl refl refl
            (known, (==_iff s.ring.cons_tail ch).0 e))
        (λ e. quiet (pop_read ch v) (pop_read ch v) here refl refl refl refl known)
  move-Inv spurious (pop_turn ch v) here =
      commit_pop-Inv n ch v _ _ here (append-nil s.given) refl (omega (arith, small)) inv
  move-Inv spurious (popped o) here = quiet (popped o) (popped o) here refl refl refl refl tt

  -- A call.
  enter-Inv :
      (p q : Place A)
      → s.place n ≡ q
      → push_ticket p ≡ none
      → pop_ticket p ≡ none
      → ((m : Marks) → Knows base m s.ring p)
      → Inv base past (suc limit) (enter s n p)
  enter-Inv p q here e f k = elim (Bool-cases (is_out (s.place n))) [
    | inl out ↦ subst (Inv base past (suc limit)) (sym (if_true _ _ out)) (
        quiet-Inv n p s.given s.got (e ∙ sym (outside (s.place n) out).0)
          (f ∙ sym (outside (s.place n) out).1) refl refl inv (k inv.marks))
    | inr inside ↦ subst (Inv base past (suc limit)) (sym (if_false _ _ inside)) (longer inv)
  ]
    where
      longer : Inv base past limit s → Inv base past (suc limit) s
      longer i = record {
        marks = i.marks;
        cursors = Cursors-limit i.cursors;
        pushes = i.pushes;
        pops = i.pops;
        knows = i.knows;
        queue = i.queue;
      }

module _ {A : Type 0} {base : ℕ} {past : List A} where
  act-Inv :
      (s : Threads A) (limit : ℕ) (a : Act A)
      → suc limit < 2 ^ 32
      → Inv base past limit s
      → Inv base past (suc limit) (act s a)
  unfolding act
  act-Inv s limit (calls_push n x) small inv =
      enter-Inv s n small inv (push_start x) (s.place n) refl refl refl (λ m. tt)
  act-Inv s limit (calls_pop n) small inv =
      enter-Inv s n small inv pop_start (s.place n) refl refl refl (λ m. tt)
  act-Inv s limit (moves n spurious) small inv = move-Inv s n small inv spurious (s.place n) refl

  pub run-Inv :
      (acts : List (Act A)) (s : Threads A) (limit : ℕ)
      → limit + length acts < 2 ^ 32
      → Inv base past limit s
      → Inv base past (limit + length acts) (run s acts)
  unfolding run
  run-Inv [] s limit small inv =
      subst (λ (t : ℕ). Inv base past t s) {x = limit} {y = limit + 0} (omega arith) inv
  run-Inv (a ∷ acts) s limit small inv =
      subst (λ (t : ℕ). Inv base past t (run (act s a) acts)) {x = suc limit + length acts}
        {y = limit + suc (length acts)} (omega arith)
        (run-Inv acts (act s a) (suc limit) (omega (arith, small))
          (act-Inv s limit a (omega (arith, small)) inv))
