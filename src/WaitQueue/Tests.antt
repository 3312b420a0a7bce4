-- ===== src/WaitQueue/Tests.antt =====
-- Runs of the wait queue's operations on a queue of three waiters.
use libchan.Base.{ℕ, ◌≡◌, refl, none, some, List, [], ◌∷◌, if◌then◌else◌, ◌==◌, mem, erase, arith}
use libchan.WaitQueue.{WaitQueue, remove}
use libchan.WaitQueue.Linked.{Holds}
use libchan.WaitQueue.Remove.{remove-Holds}

abbrev queued : List ℕ
queued = 1 ∷ 2 ∷ 3 ∷ []

-- The waiters 1, 2 and 3.
abbrev three : WaitQueue
three = record {
  head = some 1;
  tail = some 3;
  next = λ n. if n == 1 then some 2 else if n == 2 then some 3 else none;
}

three-Holds : Holds three queued
three-Holds = record {
  chain = (refl, (refl, (refl, (refl, refl))));
  distinct = ((omega arith, (omega arith, tt)), ((omega arith, tt), (tt, tt)));
}

remove-Holds_example :
    (q' : WaitQueue) × (remove 4 three 3 ≡ some (mem 3 queued, q')) × Holds q' (erase 3 queued)
remove-Holds_example = remove-Holds 4 3 queued three-Holds (omega arith)
