-- ===== src/Thread.antt =====
-- CThread of sutils/Thread.cpp: the fields that the threads share, one function per operation, and
-- _threadLoop in steps, each of which takes the lock at most once. Something else holds an sp to the
-- object, so that promote succeeds; logging and names are left out.
pub mod Machine
pub mod Running
pub mod Waiting
pub mod Exiting
pub mod Sleeping
use vmodule.Base.{
  ℕ, suc, ◌*◌, ◌%◌, ◌^◌, Bool, true, false, ◌||◌, not, Option, none, some, ◌==◌, if◌then◌else◌, ℤ,
  pos, negsuc,
}
use vmodule.System.{no_error, unknown_error, invalid_operation, would_block}

-- m_ThreadId is `none` for -1; hold_self tells whether mHoldSelf points to the object.
pub record CThread : Type 0 where
  pub thread_id : Option ℕ
  pub status : ℤ
  pub exit_pending : Bool
  pub running : Bool
  pub hold_self : Bool

abbrev pub new_thread : CThread
new_thread = record {
  thread_id = none;
  status = no_error;
  exit_pending = false;
  running = false;
  hold_self = false;
}

-- What run does with the id that createRawThread gives, or with its failure.
abbrev pub started : Option ℕ → ℤ × CThread
started (some id) = (
  no_error,
  record {
    thread_id = some id;
    status = no_error;
    exit_pending = false;
    running = true;
    hold_self = true;
  },
)
started none = (
  unknown_error,
  record {
    thread_id = none;
    status = unknown_error;
    exit_pending = false;
    running = false;
    hold_self = false;
  },
)

-- run, under the lock.
unfoldable pub run : (created : Option ℕ) → CThread → ℤ × CThread
run created t = if t.running then (invalid_operation, t) else started created

unfoldable pub request_exit : CThread → CThread
request_exit t = record t { exit_pending = true }

unfoldable pub is_running : CThread → Bool
is_running t = t.running

-- Where a raw thread stands in _threadLoop.
pub data Phase : Type 0 where
  starting : Phase
  first_round : Phase
  may_loop : Phase
  looping : Phase
  leaving : (result : Bool) → Phase
  between : Phase
  over : Phase

-- mStatus = readyToRun(); result = (mStatus == NO_ERROR)
abbrev pub after_ready : ℤ → Phase
after_ready (pos n) = if n == 0 then may_loop else leaving false
after_ready (negsuc n) = leaving false

-- A step of _threadLoop, where readyToRun would give `ready` and threadLoop `goes_on`.
unfoldable pub thread_loop_step : (ready : ℤ) (goes_on : Bool) → CThread → Phase → CThread × Phase
thread_loop_step ready goes_on t starting = (record t { hold_self = false }, first_round)
thread_loop_step ready goes_on t first_round = (record t { status = ready }, after_ready ready)
thread_loop_step ready goes_on t may_loop = (t, if t.exit_pending then leaving true else looping)
thread_loop_step ready goes_on t looping = (t, leaving goes_on)
thread_loop_step ready goes_on t (leaving result) =
    if not result || t.exit_pending
    then (record t { exit_pending = true; running = false; thread_id = none }, over)
    else (t, between)
thread_loop_step ready goes_on t between = (t, looping)
thread_loop_step ready goes_on t over = (t, over)

-- A call of requestExitAndWait or join: it has returned, or waits on mExitedCondition.
pub data Call : Type 0 where
  returned : ℤ → Call
  waiting : (exits : Bool) → Call

-- The loop of a call and what follows it; `exits` tells requestExitAndWait from join.
unfoldable pub wait_exited : (exits : Bool) → CThread → CThread × Call
wait_exited exits t =
    if t.running
    then (t, waiting exits)
    else (if exits then record t { exit_pending = false } else t, returned t.status)

abbrev pub is_self : Option ℕ → ℕ → Bool
is_self none self = false
is_self (some id) self = id == self

-- requestExitAndWait and join, called by the thread `self`.
unfoldable pub request_exit_and_wait : (self : ℕ) → CThread → CThread × Call
unfolding wait_exited
request_exit_and_wait self t =
    let going = wait_exited true (record t { exit_pending = true }) in
    if is_self t.thread_id self then (t, returned would_block) else going

unfoldable pub join : (self : ℕ) → CThread → CThread × Call
unfolding wait_exited
join self t =
    let going = wait_exited false t in
    if is_self t.thread_id self then (t, returned would_block) else going

-- milliseconds*1000000 of Sleep, the nanoseconds of waitRelative, and milliseconds*1000, the
-- microseconds of usleep; both are unsigned int.
unfoldable pub sleep_nanoseconds : ℕ → ℕ
sleep_nanoseconds milliseconds = (milliseconds * 1000000) % 2 ^ 32

unfoldable pub sleep_microseconds : ℕ → ℕ
sleep_microseconds milliseconds = (milliseconds * 1000) % 2 ^ 32
