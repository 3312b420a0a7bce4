-- ===== src/Park/Times.antt =====
-- src/park.c: the times that a wait gives to the system.
use libchan.Base.{ℕ, ◌/◌, ◌%◌}

-- `struct timespec`
pub record Timespec : Type 0 where
  pub tv_sec : ℕ
  pub tv_nsec : ℕ

-- 10 ^ 9
abbrev pub billion : ℕ
billion = 1000000000

-- `ts`, for a timeout that is not negative.
unfoldable pub relative : ℕ → Timespec
relative n = record { tv_sec = n / billion; tv_nsec = n % billion }
