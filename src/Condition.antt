-- ===== src/Condition.antt =====
-- Condition::waitRelative of sutils/Condition.cpp for POSIX: the time that it gives to
-- pthread_cond_timedwait. The waiting itself is a call of the system.
use vmodule.Base.{ℕ, ◌+◌, ◌-◌, ◌*◌, ◌/◌, ◌%◌, ◌<◌, ◌≡◌, leb, if◌then◌else◌, arith}

abbrev pub billion : ℕ
billion = 1000000000

-- The `if` that carries a second over.
abbrev pub carry : (sec nsec : ℕ) → ℕ × ℕ
carry sec nsec = if leb billion nsec then (sec + 1, nsec - billion) else (sec, nsec)

-- tv_sec and tv_nsec, for a clock at `sec` and `nsec` and a `reltime` that is not negative.
unfoldable pub wait_deadline : (sec nsec reltime : ℕ) → ℕ × ℕ
wait_deadline sec nsec reltime = carry (sec + reltime / billion) (nsec + reltime % billion)

pub wait_deadline-exact :
    (sec nsec reltime : ℕ)
    → nsec < billion
    → let deadline = wait_deadline sec nsec reltime in
      (deadline.0 * billion + deadline.1 ≡ sec * billion + nsec + reltime) × (deadline.1 < billion)
unfolding wait_deadline
wait_deadline-exact sec nsec reltime h = (ground arith, ground arith)
