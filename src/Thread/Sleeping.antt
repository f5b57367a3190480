-- ===== src/Thread/Sleeping.antt =====
-- How long CThread::Sleep of sutils/Thread.cpp waits: the nanoseconds that it gives to
-- Condition::waitRelative, and the deadline that this computes.
use vmodule.Base.{ℕ, ◌+◌, ◌*◌, ◌≤◌, ◌<◌, ◌≡◌, ◌↔◌, arith}
use vmodule.Condition.{billion, wait_deadline, wait_deadline-exact}
use vmodule.Thread.{sleep_nanoseconds}

sleep-exact_iff :
    (milliseconds : ℕ)
    → (sleep_nanoseconds milliseconds ≡ milliseconds * 1000000) ↔ (milliseconds ≤ 4294)
unfolding sleep_nanoseconds
sleep-exact_iff milliseconds = (λ e. omega arith, λ h. omega arith)

-- At a clock with less than a second of nanoseconds, the deadline that waitRelative computes for
-- Sleep is the clock's time and the milliseconds asked for exactly up to 4294 milliseconds.
pub sleep-deadline_iff :
    (sec nsec milliseconds : ℕ)
    → nsec < billion
    → let deadline = wait_deadline sec nsec (sleep_nanoseconds milliseconds) in
      (deadline.0 * billion + deadline.1 ≡ sec * billion + nsec + milliseconds * 1000000)
      ↔ (milliseconds ≤ 4294)
sleep-deadline_iff sec nsec milliseconds h =
    let (exact, _) = wait_deadline-exact sec nsec (sleep_nanoseconds milliseconds) h in
    let (short, fits) = sleep-exact_iff milliseconds in
    (λ e. short (omega arith), λ small. let n = fits small in omega arith)
