-- ===== src/Thread/Exiting.antt =====
-- What becomes of a CThread whose exit is pending.
use vmodule.Base.{
  ℕ, zero, suc, ◌+◌, ◌*◌, ◌≤◌, ◌<◌, ◌≡◌, refl, Bool, true, false, none, some, List, [], ◌∷◌,
  if◌then◌else◌, ℤ, pos, negsuc, arith,
}
use vmodule.Thread.{
  CThread, run, request_exit, Phase, starting, first_round, may_loop, looping, leaving, between,
  over, after_ready, thread_loop_step, Call, returned, waiting, wait_exited, is_self,
  request_exit_and_wait, join,
}
use vmodule.Thread.Machine.{
  Machine, Move, runs, requests, exits_and_waits, joins, works, looks, work, look_at, move, Reach,
}
use vmodule.Thread.Running.{live, total, number_small, Reach-IsCounted}

-- The steps that a raw thread has still to take once its exit is pending.
abbrev pub steps_left : Phase → ℕ
steps_left over = 0
steps_left (leaving result) = 1
steps_left looping = 2
steps_left between = 3
steps_left may_loop = 2
steps_left first_round = 3
steps_left starting = 4

-- Whether the step of the `i`-th raw thread is one of a live one.
abbrev pub is_step : ℕ → List Phase → ℕ
is_step i [] = 0
is_step zero (p ∷ ws) = live p
is_step (suc i) (p ∷ ws) = is_step i ws

abbrev pub steps : Move → Machine → ℕ
steps (works i ready goes_on) m = is_step i m.workers
steps (runs created) m = 0
steps requests m = 0
steps (exits_and_waits self) m = 0
steps (joins self) m = 0
steps (looks i) m = 0

after_ready-steps : (ready : ℤ) → steps_left (after_ready ready) < 3
after_ready-steps (pos n) = ground arith
after_ready-steps (negsuc n) = omega arith

-- A step of a live raw thread is one less to take.
step-steps_left :
    (ready : ℤ) (goes_on : Bool) (t : CThread) (p : Phase)
    → t.exit_pending ≡ true
    → let next = thread_loop_step ready goes_on t p in
      ((next.0).exit_pending ≡ true) × (steps_left (next.1) + live p ≤ steps_left p)
unfolding thread_loop_step
step-steps_left ready goes_on t starting e = (e, omega arith)
step-steps_left ready goes_on t first_round e = let h = after_ready-steps ready in (e, omega arith)
step-steps_left ready goes_on t may_loop e = (e, rw e (omega arith))
step-steps_left ready goes_on t looping e = (e, omega arith)
step-steps_left ready goes_on t (leaving true) e = rw e (refl, omega arith)
step-steps_left ready goes_on t (leaving false) e = (refl, omega arith)
step-steps_left ready goes_on t between e = (e, omega arith)
step-steps_left ready goes_on t over e = (e, omega arith)

work-steps_left :
    (ready : ℤ) (goes_on : Bool) (t : CThread) (i : ℕ) (ws : List Phase)
    → t.exit_pending ≡ true
    → let next = work ready goes_on t i ws in
      ((next.0).exit_pending ≡ true)
      × (total steps_left (next.1) + is_step i ws ≤ total steps_left ws)
unfolding work
work-steps_left ready goes_on t i [] e = (e, omega arith)
work-steps_left ready goes_on t zero (p ∷ ws) e =
    let (kept, less) = step-steps_left ready goes_on t p e in (kept, omega arith)
work-steps_left ready goes_on t (suc i) (p ∷ ws) e =
    let (kept, less) = work-steps_left ready goes_on t i ws e in (kept, omega arith)

steps_left-live : (ws : List Phase) → total steps_left ws ≤ 4 * total live ws
steps_left-live [] = omega arith
steps_left-live (p ∷ ws) = let h = steps_left-live ws in let g = one p in omega arith
  where
    one : (p : Phase) → steps_left p ≤ 4 * live p
    one starting = omega arith
    one first_round = omega arith
    one may_loop = omega arith
    one looping = omega arith
    one (leaving result) = omega arith
    one between = omega arith
    one over = omega arith

-- A call that waits on a running thread does not touch it.
look-still :
    (t : CThread) (i : ℕ) (cs : List Call)
    → t.running ≡ true
    → t.exit_pending ≡ true
    → ((look_at t i cs).0).exit_pending ≡ true
unfolding look_at wait_exited
look-still t i [] e p = p
look-still t zero (returned r ∷ cs) e p = p
look-still t zero (waiting exits ∷ cs) e p = rw (e, p) refl
look-still t (suc i) (c ∷ cs) e p = look-still t i cs e p

either-pending :
    (b : Bool) (x y : CThread × Call)
    → (x.0).exit_pending ≡ true
    → (y.0).exit_pending ≡ true
    → ((if b then x else y).0).exit_pending ≡ true
either-pending true x y h h' = h
either-pending false x y h h' = h'

-- Every move keeps the exit pending, and one of the live raw thread uses up one of its steps.
move-steps_left :
    (next : Move) (m : Machine)
    → m.shared.running ≡ true
    → m.shared.exit_pending ≡ true
    → ((move next m).shared.exit_pending ≡ true)
      × (total steps_left (move next m).workers + steps next m ≤ total steps_left m.workers)
unfolding move run request_exit request_exit_and_wait join wait_exited
move-steps_left (runs (some id)) m e p = rw (e, p) (refl, omega arith)
move-steps_left (runs none) m e p = rw (e, p) (refl, omega arith)
move-steps_left requests m e p = (refl, omega arith)
move-steps_left (exits_and_waits self) m e p =
    (either-pending (is_self m.shared.thread_id self) _ _ p (rw e refl), omega arith)
move-steps_left (joins self) m e p =
    (either-pending (is_self m.shared.thread_id self) _ _ p (rw (e, p) refl), omega arith)
move-steps_left (works i ready goes_on) m e p = work-steps_left ready goes_on m.shared i m.workers p
move-steps_left (looks i) m e p = (look-still m.shared i m.calls e p, omega arith)

-- The steps of raw threads in a history, up to the end of the thread.
abbrev pub steps_while_running : List Move → Machine → ℕ
steps_while_running [] m = 0
steps_while_running (next ∷ ms) m =
    let rest = steps_while_running ms (move next m) in
    if m.shared.running then steps next m + rest else 0

bounded_steps :
    (ms : List Move) (m : Machine)
    → m.shared.exit_pending ≡ true
    → steps_while_running ms m ≤ total steps_left m.workers
bounded_steps [] m p = omega arith
bounded_steps (next ∷ ms) m p = go (bounded_steps ms (move next m)) m.shared.running refl
  where
    go :
        ((move next m).shared.exit_pending ≡ true
          → steps_while_running ms (move next m) ≤ total steps_left (move next m).workers)
        → (b : Bool) → m.shared.running ≡ b
        → (if b then steps next m + steps_while_running ms (move next m) else 0)
          ≤ total steps_left m.workers
    go then_bounded true e =
        let (kept, less) = move-steps_left next m e p in let rest = then_bounded kept in omega arith
    go then_bounded false e = omega arith

-- From every reachable state with the exit pending, whatever the calls and steps that follow, the
-- raw thread takes at most four more steps before the thread is no longer running.
pub exits_soon :
    {m : Machine}
    → Reach m
    → m.shared.exit_pending ≡ true
    → (ms : List Move) → steps_while_running ms m ≤ 4
exits_soon {m} r p ms =
    let c = (Reach-IsCounted r).lives in
    let one = number_small m.shared.running in
    let a = bounded_steps ms m p in let b = steps_left-live m.workers in omega arith

-- The nanoseconds that Sleep computes in 32 bits are those of its milliseconds exactly up to 4294
-- milliseconds.
