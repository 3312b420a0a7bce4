-- ===== src/Ring/Threads.antt =====
-- src/ring_lf.c: any number of threads in `ring_lf_push` and `ring_lf_pop` on one ring, one shared
-- access at a time.
--
-- A thread stands between two accesses, with the local variables that are live there. The element
-- of a push and the answer of a pop are values; `data` and `out` are the caller's own memory. Every
-- access sees the latest value of what it reads.
pub mod Tickets
pub mod Inv
pub mod Frame
pub mod Pushes
pub mod Pops
pub mod Steps
pub mod Fifo
pub mod Progress
mod Tests
use libchan.Base.{
  ℕ, Bool, true, false, not, ◌||◌, Option, none, some, List, [], ◌∷◌, ◌++◌, leb, ◌==◌,
  if◌then◌else◌, add32, sub32, bit_and, update,
}
use libchan.Ring.{Ring, push_write, push_commit, pop_commit}

-- Where a thread stands in `ring_lf_push` or `ring_lf_pop`.
pub data Place (A : Type 0) : Type 0 where
  idle : Place A
  push_start : A → Place A  -- before the load of `prod.head`
  push_loaded : A → ℕ → Place A  -- before the load of `cons.tail` and the full test
  push_tested : A → ℕ → Place A  -- before the compare-exchange
  push_reserved : A → ℕ → Place A  -- before the copy into the slot
  push_written : A → ℕ → Place A  -- in the wait for `prod.tail`
  push_turn : A → ℕ → Place A  -- before the store to `prod.tail`
  pushed : Bool → Place A  -- back from `ring_lf_push`
  pop_start : Place A  -- before the load of `cons.head`
  pop_loaded : ℕ → Place A  -- before the load of `prod.tail` and the empty test
  pop_tested : ℕ → Place A  -- before the compare-exchange
  pop_reserved : ℕ → Place A  -- before the copy out of the slot
  pop_read : ℕ → A → Place A  -- in the wait for `cons.tail`
  pop_turn : ℕ → A → Place A  -- before the store to `cons.tail`
  popped : Option A → Place A  -- back from `ring_lf_pop`

module _ {A : Type 0} where
  -- The next access of a thread in `ring_lf_push` or `ring_lf_pop`. A weak compare-exchange may fail
  -- for no reason.
  abbrev pub push_loop : Bool → Ring A → A → ℕ → Ring A × Place A
  push_loop spurious r x ph =
      if spurious || not (r.prod_head == ph)
      then (r, push_start x)
      else (record r { prod_head = add32 ph 1 }, push_reserved x ph)

  abbrev pub pop_loop : Bool → Ring A → ℕ → Ring A × Place A
  pop_loop spurious r ch =
      if spurious || not (r.cons_head == ch)
      then (r, pop_start)
      else (record r { cons_head = add32 ch 1 }, pop_reserved ch)

  unfoldable pub move : Bool → Ring A → Place A → Ring A × Place A
  move spurious r idle = (r, idle)
  move spurious r (push_start x) = (r, push_loaded x r.prod_head)
  move spurious r (push_loaded x ph) =
      (r, if leb r.capacity (sub32 ph r.cons_tail) then pushed false else push_tested x ph)
  move spurious r (push_tested x ph) = push_loop spurious r x ph
  move spurious r (push_reserved x ph) = (push_write ph (λ i. x) 0 r, push_written x ph)
  move spurious r (push_written x ph) =
      (r, if r.prod_tail == ph then push_turn x ph else push_written x ph)
  move spurious r (push_turn x ph) = (push_commit ph r, pushed true)
  move spurious r (pushed b) = (r, pushed b)
  move spurious r pop_start = (r, pop_loaded r.cons_head)
  move spurious r (pop_loaded ch) = (r, if r.prod_tail == ch then popped none else pop_tested ch)
  move spurious r (pop_tested ch) = pop_loop spurious r ch
  move spurious r (pop_reserved ch) = (r, pop_read ch (r.slots (bit_and ch r.mask)))
  move spurious r (pop_read ch v) = (r, if r.cons_tail == ch then pop_turn ch v else pop_read ch v)
  move spurious r (pop_turn ch v) = (pop_commit ch r, popped (some v))
  move spurious r (popped o) = (r, popped o)

  -- What the next access commits: an element that comes in, or one that goes out.
  abbrev pub puts : Place A → List A
  puts (push_turn x ph) = x ∷ []
  puts p = []

  abbrev pub gets : Place A → List A
  gets (pop_turn ch v) = v ∷ []
  gets p = []

  -- A thread that is not in a call.
  abbrev pub is_out : Place A → Bool
  is_out idle = true
  is_out (pushed b) = true
  is_out (popped o) = true
  is_out p = false

-- The ring and the threads, with what the code does not hold: the elements that were committed by the
-- stores to `prod.tail`, and those by the stores to `cons.tail`, in the order of these stores.
pub record Threads (A : Type 0) : Type 0 where
  pub ring : Ring A
  pub place : ℕ → Place A
  pub given : List A
  pub got : List A

-- A thread calls, or makes its next access.
pub data Act (A : Type 0) : Type 0 where
  calls_push : ℕ → A → Act A
  calls_pop : ℕ → Act A
  moves : ℕ → Bool → Act A

module _ {A : Type 0} where
  abbrev pub enter : Threads A → ℕ → Place A → Threads A
  enter s n p = if is_out (s.place n) then record s { place = update s.place n p } else s

  unfoldable pub act : Threads A → Act A → Threads A
  act s (calls_push n x) = enter s n (push_start x)
  act s (calls_pop n) = enter s n pop_start
  act s (moves n spurious) =
      let (r, p) = move spurious s.ring (s.place n) in
      record {
        ring = r;
        place = update s.place n p;
        given = s.given ++ puts (s.place n);
        got = s.got ++ gets (s.place n);
      }

  unfoldable pub run : Threads A → List (Act A) → Threads A
  run s [] = s
  run s (a ∷ rest) = run (act s a) rest

  -- No thread is in a call.
  abbrev pub begin : Ring A → Threads A
  begin r = record { ring = r; place = λ n. idle; given = []; got = [] }
