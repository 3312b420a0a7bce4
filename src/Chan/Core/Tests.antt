-- ===== src/Chan/Core/Tests.antt =====
-- The creation of a buffered channel, where the C library gives memory.
use libchan.Base.{ℕ, ◌*◌, ◌≤◌, ◌<◌, ◌≡◌, refl, true, false, some, [], arith}
use libchan.Ring.{init, fresh, next_pow2, smear, or_shift}
use libchan.Ring.Valid.{contents}
use libchan.Ring.Spsc.{ProducerCache, ConsumerCache}
use libchan.Chan.{Chan}
use libchan.Chan.Idle.{IsIdle}
use libchan.Chan.Core.{created, create_impl}
use libchan.Chan.Core.Life.{create-IsIdle}

abbrev slots : ℕ → ℕ
slots i = i

-- Capacity 3 in a ring of four slots.
abbrev three : Chan ℕ
three = created 8 3 true (fresh 4 8 slots)

create_3 : create_impl true (λ bytes. some slots) slots 8 3 true ≡ some three
unfolding create_impl init next_pow2 smear or_shift
create_3 = refl

create-IsIdle_example :
    IsIdle three
    × (contents three.ring ≡ [])
    × (3 ≤ three.ring.capacity)
    × (three.ring.capacity < 2 * 3)
    × (three.capacity ≡ 3)
    × (three.closed ≡ false)
    × (three.refcount ≡ 1)
    × ProducerCache three.ring
    × ConsumerCache three.ring
create-IsIdle_example =
    create-IsIdle true (λ bytes. some slots) slots 8 3 true three (omega arith) (omega arith)
      (omega arith) create_3
