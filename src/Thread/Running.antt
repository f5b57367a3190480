-- ===== src/Thread/Running.antt =====
-- mRunning of a CThread against its raw threads, in every reachable state.
use vmodule.Base.{
  ℕ, zero, suc, ◌+◌, ◌≡◌, ◌≤◌, refl, ap, subst, ◌∙◌, Bool, true, false, not, ◌||◌, Bool-cases, inl,
  inr, Option, none, some, List, [], ◌∷◌, ◌==◌, if◌then◌else◌, ℤ, pos, negsuc, arith,
}
use vmodule.System.{invalid_operation}
use vmodule.Thread.{
  CThread, started, run, request_exit, Phase, starting, first_round, may_loop, looping, leaving,
  between, over, is_running, after_ready, thread_loop_step, Call, returned, waiting, wait_exited,
  is_self, request_exit_and_wait, join,
}
use vmodule.Thread.Machine.{
  Machine, Move, runs, requests, exits_and_waits, joins, works, looks, with_worker, work, look_at,
  move, Reach, start, later,
}

-- A raw thread that may still call threadLoop, and one that has still to take mHoldSelf.
abbrev pub live : Phase → ℕ
live over = 0
live starting = 1
live first_round = 1
live may_loop = 1
live looping = 1
live (leaving result) = 1
live between = 1

abbrev pub new : Phase → ℕ
new starting = 1
new first_round = 0
new may_loop = 0
new looping = 0
new (leaving result) = 0
new between = 0
new over = 0

abbrev pub total : (Phase → ℕ) → List Phase → ℕ
total w [] = 0
total w (p ∷ ws) = w p + total w ws

abbrev pub number : Bool → ℕ
number true = 1
number false = 0

-- One raw thread is live while mRunning is set, and none else; one is new while mHoldSelf is set.
pub record Counted (t : CThread) (alive fresh : ℕ) : Type 0 where
  pub lives : alive ≡ number t.running
  pub holds : fresh ≡ number t.hold_self
  pub no_id : t.running ≡ false → t.thread_id ≡ none

pub number_small : (b : Bool) → number b ≤ 1
number_small true = omega arith
number_small false = omega arith

-- Only the status changes.
with_status :
    (t : CThread) (status : ℤ) (alive fresh : ℕ)
    → Counted t alive fresh
    → Counted (record t { status = status }) alive fresh
with_status t status alive fresh inv = record {
  lives = inv.lives;
  holds = inv.holds;
  no_id = inv.no_id;
}

after_ready-live : (ready : ℤ) → (live (after_ready ready) ≡ 1) × (new (after_ready ready) ≡ 0)
after_ready-live (pos n) = elim (Bool-cases (n == 0)) [
  | inl y ↦ rw y (refl, refl)
  | inr y ↦ rw y (refl, refl)
]
after_ready-live (negsuc n) = (refl, refl)

step-Counted :
    (ready : ℤ) (goes_on : Bool) (t : CThread) (p : Phase) (alive fresh : ℕ)
    → Counted t (live p + alive) (new p + fresh)
    → let next = thread_loop_step ready goes_on t p in
      Counted (next.0) (live (next.1) + alive) (new (next.1) + fresh)
unfolding thread_loop_step
step-Counted ready goes_on t starting alive fresh inv =
    let small = number_small t.hold_self in
    let h = inv.holds in record { lives = inv.lives; holds = omega arith; no_id = inv.no_id }
step-Counted ready goes_on t first_round alive fresh inv =
    let (l, n) = after_ready-live ready in
    rw (l, n) (with_status t ready (1 + alive) (0 + fresh) inv)
step-Counted ready goes_on t may_loop alive fresh inv = go t.exit_pending
  where
    go :
        (b : Bool)
        → Counted t
            (live (if b then leaving true else looping) + alive)
            (new (if b then leaving true else looping) + fresh)
    go true = inv
    go false = inv
step-Counted ready goes_on t looping alive fresh inv = inv
step-Counted ready goes_on t (leaving result) alive fresh inv =
    let small = number_small t.running in
    let l = inv.lives in
    elim (Bool-cases (not result || t.exit_pending)) [
      | inl y ↦ rw y (record { lives = omega arith; holds = inv.holds; no_id = λ e. refl })
      | inr y ↦ rw y inv
    ]
step-Counted ready goes_on t between alive fresh inv = inv
step-Counted ready goes_on t over alive fresh inv = inv

-- The other raw threads, seen so far, are counted apart.
work-Counted :
    (ready : ℤ) (goes_on : Bool) (t : CThread) (i : ℕ) (ws : List Phase) (alive fresh : ℕ)
    → Counted t (total live ws + alive) (total new ws + fresh)
    → let next = work ready goes_on t i ws in
      Counted (next.0) (total live (next.1) + alive) (total new (next.1) + fresh)
unfolding work
work-Counted ready goes_on t i [] alive fresh inv = inv
work-Counted ready goes_on t zero (p ∷ ws) alive fresh inv =
    let next = thread_loop_step ready goes_on t p in
    let l : (live (next.1) + total live ws) + alive ≡ live (next.1) + (total live ws + alive) =
      omega arith in
    let n : (new (next.1) + total new ws) + fresh ≡ new (next.1) + (total new ws + fresh) =
      omega arith in
    let l' : (live p + total live ws) + alive ≡ live p + (total live ws + alive) = omega arith in
    let n' : (new p + total new ws) + fresh ≡ new p + (total new ws + fresh) = omega arith in
    let inv' : Counted t (live p + (total live ws + alive)) (new p + (total new ws + fresh)) =
      subst (λ a. Counted t a (new p + (total new ws + fresh))) l' (subst (Counted t _) n' inv) in
    rw (l, n) (step-Counted ready goes_on t p (total live ws + alive) (total new ws + fresh) inv')
work-Counted ready goes_on t (suc i) (p ∷ ws) alive fresh inv =
    let next = work ready goes_on t i ws in
    let l : (live p + total live (next.1)) + alive ≡ total live (next.1) + (live p + alive) =
      omega arith in
    let n : (new p + total new (next.1)) + fresh ≡ total new (next.1) + (new p + fresh) =
      omega arith in
    let l' : (live p + total live ws) + alive ≡ total live ws + (live p + alive) = omega arith in
    let n' : (new p + total new ws) + fresh ≡ total new ws + (new p + fresh) = omega arith in
    let inv' : Counted t (total live ws + (live p + alive)) (total new ws + (new p + fresh)) =
      subst (λ a. Counted t a (total new ws + (new p + fresh))) l' (subst (Counted t _) n' inv) in
    rw (l, n) (work-Counted ready goes_on t i ws (live p + alive) (new p + fresh) inv')

with_pending :
    (b : Bool) (t : CThread) (alive fresh : ℕ)
    → Counted t alive fresh
    → Counted (record t { exit_pending = b }) alive fresh
with_pending b t alive fresh inv = record {
  lives = inv.lives;
  holds = inv.holds;
  no_id = inv.no_id;
}

either-Counted :
    (b : Bool) (x y : CThread × Call) (alive fresh : ℕ)
    → Counted (x.0) alive fresh
    → Counted (y.0) alive fresh
    → Counted ((if b then x else y).0) alive fresh
either-Counted true x y alive fresh inv inv' = inv
either-Counted false x y alive fresh inv inv' = inv'

wait-Counted :
    (exits : Bool) (t : CThread) (alive fresh : ℕ)
    → Counted t alive fresh
    → Counted ((wait_exited exits t).0) alive fresh
unfolding wait_exited
wait-Counted true t alive fresh inv =
    either-Counted t.running _ _ alive fresh inv (with_pending false t alive fresh inv)
wait-Counted false t alive fresh inv = either-Counted t.running _ _ alive fresh inv inv

look-Counted :
    (t : CThread) (i : ℕ) (cs : List Call) (alive fresh : ℕ)
    → Counted t alive fresh
    → Counted ((look_at t i cs).0) alive fresh
unfolding look_at
look-Counted t i [] alive fresh inv = inv
look-Counted t zero (returned r ∷ cs) alive fresh inv = inv
look-Counted t zero (waiting exits ∷ cs) alive fresh inv = wait-Counted exits t alive fresh inv
look-Counted t (suc i) (c ∷ cs) alive fresh inv = look-Counted t i cs alive fresh inv

-- The raw threads of a machine, counted.
abbrev pub IsCounted : Machine → Type 0
IsCounted m = Counted m.shared (total live m.workers) (total new m.workers)

new_live : (ws : List Phase) → total new ws ≤ total live ws
new_live [] = omega arith
new_live (p ∷ ws) = let h = new_live ws in let g = one p in omega arith
  where
    one : (p : Phase) → new p ≤ live p
    one starting = omega arith
    one first_round = omega arith
    one may_loop = omega arith
    one looping = omega arith
    one (leaving result) = omega arith
    one between = omega arith
    one over = omega arith

runs-IsCounted :
    (created : Option ℕ) (m : Machine) → IsCounted m → IsCounted (move (runs created) m)
unfolding move run
runs-IsCounted created m inv = go created m.shared.running refl
  where
    go :
        (created : Option ℕ) (b : Bool)
        → m.shared.running ≡ b
        → Counted
            ((if b then (invalid_operation, m.shared) else started created).1)
            (total live (with_worker created b m.workers))
            (total new (with_worker created b m.workers))
    go (some id) true y = inv
    go none true y = inv
    go (some id) false y =
        let l = inv.lives ∙ ap number y in
        let n = new_live m.workers in
        record { lives = omega arith; holds = omega arith; no_id = λ e. absurd (ground arith) }
    go none false y =
        let l = inv.lives ∙ ap number y in
        let n = new_live m.workers in
        record { lives = omega arith; holds = omega arith; no_id = λ e. refl }

move-IsCounted : (next : Move) (m : Machine) → IsCounted m → IsCounted (move next m)
unfolding move run request_exit request_exit_and_wait join
move-IsCounted (runs created) m inv = runs-IsCounted created m inv
move-IsCounted requests m inv = with_pending true m.shared _ _ inv
move-IsCounted (exits_and_waits self) m inv =
    either-Counted (is_self m.shared.thread_id self) _ _ _ _ inv (
      wait-Counted true (record (m.shared) { exit_pending = true }) _ _
        (with_pending true m.shared _ _ inv))
move-IsCounted (joins self) m inv =
    either-Counted (is_self m.shared.thread_id self) _ _ _ _ inv
      (wait-Counted false m.shared _ _ inv)
move-IsCounted (works i ready goes_on) m inv =
    without_more (work-Counted ready goes_on m.shared i m.workers 0 0 (with_no_more inv))
  where
    with_no_more : {t : CThread} {a f : ℕ} → Counted t a f → Counted t (a + 0) (f + 0)
    with_no_more {a} {f} c =
        let l : a + 0 ≡ a = omega arith in let n : f + 0 ≡ f = omega arith in rw (l, n) c

    without_more : {t : CThread} {a f : ℕ} → Counted t (a + 0) (f + 0) → Counted t a f
    without_more {t} {a} {f} c =
        let l : a + 0 ≡ a = omega arith in
        let n : f + 0 ≡ f = omega arith in
        subst (λ x. Counted t x f) l (subst (Counted t (a + 0)) n c)
move-IsCounted (looks i) m inv = look-Counted m.shared i m.calls _ _ inv

pub Reach-IsCounted : {m : Machine} → Reach m → IsCounted m
Reach-IsCounted start = record { lives = refl; holds = refl; no_id = λ e. refl }
Reach-IsCounted (later {m} next r) = move-IsCounted next m (Reach-IsCounted r)

-- In every state that calls of run, requestExit, requestExitAndWait and join and the steps of the
-- raw threads can lead to, in any order, one raw thread at most is between its start and the end of
-- its loop, and exactly while isRunning says so; one at most has still to take mHoldSelf, and
-- exactly while that is set; and m_ThreadId is -1 while the thread is not running.
pub running-live :
    {m : Machine}
    → Reach m
    → (total live m.workers ≡ number (is_running m.shared))
      × (total new m.workers ≡ number m.shared.hold_self)
      × (is_running m.shared ≡ false → m.shared.thread_id ≡ none)
unfolding is_running
running-live r = let c = Reach-IsCounted r in (c.lives, c.holds, c.no_id)
