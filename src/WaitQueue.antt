-- ===== src/WaitQueue.antt =====
-- The intrusive wait queue of src/libchan_internal.h: `waitq_push` to `waitq_remove`. A waiter
-- node is its address, a number. The children compare the queue with a list of addresses.
mod Tests
pub mod Linked
pub mod Ops
pub mod Remove
use libchan.Base.{ℕ, zero, suc, Bool, true, false, Option, none, some, ◌==◌, if◌then◌else◌}

-- `chan_waitq_t`, with `w->next` for every node `w`; `none` is NULL.
pub record WaitQueue : Type 0 where
  pub head : Option ℕ
  pub tail : Option ℕ
  pub next : ℕ → Option ℕ

abbrev pub set_next : (ℕ → Option ℕ) → ℕ → Option ℕ → ℕ → Option ℕ
set_next next w v x = if x == w then v else next x

-- `if (p) p->next = v; else q->head = v;`
abbrev pub relink : Option ℕ → Option ℕ → WaitQueue → WaitQueue
relink none v q = record q { head = v }
relink (some p) v q = record q { next = set_next q.next p v }

-- `waitq_push`
pub push : WaitQueue → ℕ → WaitQueue
push q w = record (relink q.tail (some w) (record q { next = set_next q.next w none })) {
  tail = some w;
}

-- `waitq_push_front`
pub push_front : WaitQueue → ℕ → WaitQueue
push_front q w = record {
  head = some w;
  tail = elim q.head [ none ↦ some w | some _ ↦ q.tail ];
  next = set_next q.next w q.head;
}

-- `waitq_pop`
pub pop : WaitQueue → Option ℕ × WaitQueue
pop q = elim q.head [
  | none ↦ (none, q)
  | some w ↦ (
    some w,
    record {
      head = q.next w;
      tail = elim (q.next w) [ none ↦ none | some _ ↦ q.tail ];
      next = set_next q.next w none;
    },
  )
]

-- The body of the loop of `waitq_remove` where it has found the target.
abbrev pub unlink : ℕ → Option ℕ → WaitQueue → WaitQueue
unlink cur prev q =
    let q₁ = relink prev (q.next cur) q in
    record q₁ {
      tail = elim q₁.tail [ none ↦ none | some t ↦ if t == cur then prev else some t ];
      next = set_next q₁.next cur none;
    }

-- The loop of `waitq_remove`, on fuel: `none` means that the fuel ran out.
pub remove_from : ℕ → WaitQueue → ℕ → Option ℕ → Option ℕ → Option (Bool × WaitQueue)
remove_from zero q target prev cur = none
remove_from (suc fuel) q target prev none = some (false, q)
remove_from (suc fuel) q target prev (some cur) =
    let rest = remove_from fuel q target (some cur) (q.next cur) in
    if cur == target then some (true, unlink cur prev q) else rest

-- `waitq_remove`
pub remove : ℕ → WaitQueue → ℕ → Option (Bool × WaitQueue)
remove fuel q target = remove_from fuel q target none q.head

-- `waitq_empty`
pub is_empty : WaitQueue → Bool
is_empty q = elim q.head [ none ↦ true | some _ ↦ false ]
