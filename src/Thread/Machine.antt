-- ===== src/Thread/Machine.antt =====
-- A CThread with the raw threads that run _threadLoop for it and the calls that wait for its end: any
-- order of their steps.
use vmodule.Base.{ℕ, zero, suc, Bool, true, false, Option, none, some, List, [], ◌∷◌, ℤ}
use vmodule.Thread.{
  CThread, new_thread, run, request_exit, Phase, starting, thread_loop_step, Call, returned,
  waiting, wait_exited, request_exit_and_wait, join,
}

-- The phases of the raw threads, in the order of their starts.
pub record Machine : Type 0 where
  pub shared : CThread
  pub workers : List Phase
  pub calls : List Call

abbrev pub new_machine : Machine
new_machine = record { shared = new_thread; workers = []; calls = [] }

-- What happens next: a call of run, of requestExit or of one that waits; a step of the `i`-th raw
-- thread; or the `i`-th call that waits looks again, whatever woke it.
pub data Move : Type 0 where
  runs : (created : Option ℕ) → Move
  requests : Move
  exits_and_waits : (self : ℕ) → Move
  joins : (self : ℕ) → Move
  works : (i : ℕ) (ready : ℤ) (goes_on : Bool) → Move
  looks : (i : ℕ) → Move

-- A raw thread starts where run made one.
abbrev pub with_worker : Option ℕ → Bool → List Phase → List Phase
with_worker (some id) false ws = starting ∷ ws
with_worker none false ws = ws
with_worker created true ws = ws

unfoldable pub work : (ready : ℤ) (goes_on : Bool) → CThread → ℕ → List Phase → CThread × List Phase
work ready goes_on t i [] = (t, [])
work ready goes_on t zero (p ∷ ws) =
    let next = thread_loop_step ready goes_on t p in (next.0, next.1 ∷ ws)
work ready goes_on t (suc i) (p ∷ ws) = let next = work ready goes_on t i ws in (next.0, p ∷ next.1)

abbrev pub look : CThread → Call → CThread × Call
look t (returned r) = (t, returned r)
look t (waiting exits) = wait_exited exits t

unfoldable pub look_at : CThread → ℕ → List Call → CThread × List Call
look_at t i [] = (t, [])
look_at t zero (c ∷ cs) = let next = look t c in (next.0, next.1 ∷ cs)
look_at t (suc i) (c ∷ cs) = let next = look_at t i cs in (next.0, c ∷ next.1)

abbrev pub with_call : Machine → CThread × Call → Machine
with_call m (t, c) = record m { shared = t; calls = c ∷ m.calls }

unfoldable pub move : Move → Machine → Machine
unfolding work look_at
move (runs created) m = record m {
  shared = (run created m.shared).1;
  workers = with_worker created m.shared.running m.workers;
}
move requests m = record m { shared = request_exit m.shared }
move (exits_and_waits self) m = with_call m (request_exit_and_wait self m.shared)
move (joins self) m = with_call m (join self m.shared)
move (works i ready goes_on) m =
    let next = work ready goes_on m.shared i m.workers in
    record m { shared = next.0; workers = next.1 }
move (looks i) m =
    let next = look_at m.shared i m.calls in record m { shared = next.0; calls = next.1 }

-- What a new object comes to.
pub data Reach : Machine → Type 0 where
  start : Reach new_machine
  later : {m : Machine} → (next : Move) → Reach m → Reach (move next m)
