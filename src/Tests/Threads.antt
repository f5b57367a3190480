-- ===== src/Tests/Threads.antt =====
-- A thread that was started, has begun its loop and is asked to exit.
use vmodule.Base.{◌+◌, ◌*◌, ◌≤◌, ◌≡◌, ◌↔◌, refl, true, false, none, some, List, [], ◌∷◌, pos, arith}
use vmodule.Thread.{
  CThread, is_running, request_exit, request_exit_and_wait, join, wait_exited, sleep_nanoseconds,
}
use vmodule.Thread.Machine.{
  Machine, new_machine, Move, runs, requests, joins, works, looks, move, Reach, start, later,
}
use vmodule.Thread.Running.{live, new, total, number, running-live}
use vmodule.Thread.Waiting.{Guarded, Waited, wait_exited-Waited}
use vmodule.Thread.Exiting.{steps_while_running, exits_soon}
use vmodule.Condition.{billion, wait_deadline}
use vmodule.Thread.Sleeping.{sleep-deadline_iff}

abbrev begun : Machine
begun = move (works 0 (pos 0) true) (move (joins 2) (move (runs (some 7)) new_machine))

abbrev asked : Machine
asked = move requests begun

begun-Reach : Reach begun
begun-Reach = later (works 0 (pos 0) true) (later (joins 2) (later (runs (some 7)) start))

running-live_example :
    (total live begun.workers ≡ number (is_running begun.shared))
    × (total new begun.workers ≡ number begun.shared.hold_self)
    × (is_running begun.shared ≡ false → begun.shared.thread_id ≡ none)
running-live_example = running-live begun-Reach

wait_exited-Waited_example :
    let pending : CThread = record (asked.shared) { exit_pending = true } in
    Guarded asked 2 true pending (request_exit_and_wait 2 asked.shared)
    × Guarded asked 2 false asked.shared (join 2 asked.shared)
    × Waited false asked.shared (total live asked.workers) (wait_exited false asked.shared)
wait_exited-Waited_example = wait_exited-Waited (later requests begun-Reach) 2 false

-- The raw thread is asked for four steps, and is over before the last.
abbrev history : List Move
history =
    works 0 (pos 0) true
    ∷ works 0 (pos 0) true
    ∷ works 0 (pos 0) true
    ∷ works 0 (pos 0) true
    ∷ looks 0
    ∷ []

exits_soon_example : steps_while_running history asked ≤ 4
unfolding move request_exit
exits_soon_example = exits_soon (later requests begun-Reach) refl history

sleep-deadline_iff_example :
    let deadline = wait_deadline 7 999999999 (sleep_nanoseconds 5000) in
    (deadline.0 * billion + deadline.1 ≡ 7 * billion + 999999999 + 5000 * 1000000) ↔ (5000 ≤ 4294)
sleep-deadline_iff_example = sleep-deadline_iff 7 999999999 5000 (omega arith)
