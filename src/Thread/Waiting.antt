-- ===== src/Thread/Waiting.antt =====
-- What requestExitAndWait and join of a CThread do, in every reachable state.
use vmodule.Base.{
  ℕ, ◌≡◌, ◌⊎◌, refl, ap, sym, ◌∙◌, Bool, true, false, Bool-cases, inl, inr, Option, none, some,
  ◌==◌, if◌then◌else◌, arith,
}
use vmodule.System.{would_block}
use vmodule.Thread.{
  CThread, Call, returned, waiting, wait_exited, is_self, request_exit_and_wait, join,
}
use vmodule.Thread.Machine.{Machine, Reach}
use vmodule.Thread.Running.{live, total, number, Reach-IsCounted}

-- The end of a call that has reached the loop in the state t, with `alive` raw threads in theirs: it
-- waits and changes nothing, or returns the status and, if it is requestExitAndWait, resets
-- mExitPending.
abbrev pub Waited : (exits : Bool) → CThread → (alive : ℕ) → CThread × Call → Type 0
Waited exits t alive (t', waiting e) = (t.running ≡ true) × (alive ≡ 1) × (e ≡ exits) × (t' ≡ t)
Waited exits t alive (t', returned r) =
    (t.running ≡ false)
    × (alive ≡ 0)
    × (r ≡ t.status)
    × (t' ≡ (if exits then record t { exit_pending = false } else t))

-- A call by the thread `self`: the raw thread itself gets WOULD_BLOCK, and any other thread goes on
-- to the loop in the state t.
abbrev pub Guarded : Machine → (self : ℕ) → (exits : Bool) → CThread → CThread × Call → Type 0
Guarded m self exits t got =
    ((m.shared.thread_id ≡ some self)
      × (got ≡ (m.shared, returned would_block))
      × (total live m.workers ≡ 1))
    ⊎ ((m.shared.thread_id ≡ some self → ⊥) × Waited exits t (total live m.workers) got)

wait-Waited :
    {m : Machine}
    → Reach m
    → (exits b : Bool)
    → let t : CThread = record (m.shared) { exit_pending = b } in
      Waited exits t (total live m.workers) (wait_exited exits t)
unfolding wait_exited
wait-Waited {m} r exits b = go m.shared.running refl
  where
    t : CThread
    t = record (m.shared) { exit_pending = b }

    go :
        (running : Bool)
        → m.shared.running ≡ running
        → Waited exits t (total live m.workers) (
            if running
            then (t, waiting exits)
            else (if exits then record t { exit_pending = false } else t, returned m.shared.status))
    go true y = let l = (Reach-IsCounted r).lives ∙ ap number y in (y, l, refl, refl)
    go false y = let l = (Reach-IsCounted r).lives ∙ ap number y in (y, l, refl, refl)

-- While m_ThreadId is set, one raw thread is in its loop.
named_live :
    {m : Machine} → Reach m → (self : ℕ) → m.shared.thread_id ≡ some self → total live m.workers ≡ 1
named_live {m} r self e = elim (Bool-cases (m.shared.running)) [
  | inl y ↦ (Reach-IsCounted r).lives ∙ ap number y
  | inr y ↦ let n = (Reach-IsCounted r).no_id y in absurd (apart (sym n ∙ e))
]
  where
    apart : none ≡ some self → ⊥
    apart e = cc

is_self-cases :
    (id : Option ℕ) (self : ℕ)
    → ((id ≡ some self) × (is_self id self ≡ true))
      ⊎ ((id ≡ some self → ⊥) × (is_self id self ≡ false))
is_self-cases none self = inr ((λ e. cc), refl)
is_self-cases (some id) self = elim (Bool-cases (id == self)) [
  | inl y ↦ let e : id ≡ self = ground arith in inl (ap some e, y)
  | inr y ↦ inr ((λ e. apart e y), y)
]
  where
    apart : some id ≡ some self → (id == self) ≡ false → ⊥
    apart e y =
        let e' : is_self (some id) self ≡ is_self (some self) self = ap (λ o. is_self o self) e in
        ground arith

unless_self-Guarded :
    {m : Machine}
    → Reach m
    → (self : ℕ) (exits : Bool) (t : CThread) (got : CThread × Call)
    → Waited exits t (total live m.workers) got
    → Guarded m self exits t
        (if is_self m.shared.thread_id self then (m.shared, returned would_block) else got)
unless_self-Guarded {m} r self exits t got h = elim (is_self-cases m.shared.thread_id self) [
  | inl mine ↦ rw (mine.1) (inl (mine.0, refl, named_live r self (mine.0)))
  | inr other ↦ rw (other.1) (inr (other.0, h))
]

-- In every reachable state, requestExitAndWait and join give WOULD_BLOCK and change nothing exactly
-- where the raw thread itself calls them, while it is in its loop; for any other thread, and where
-- a call looks again, they wait exactly while mRunning is set, with one raw thread in its loop, and
-- else return the status with none left; requestExitAndWait sets mExitPending when it is called and
-- resets it when it returns.
pub wait_exited-Waited :
    {m : Machine}
    → Reach m
    → (self : ℕ) (exits : Bool)
    → Guarded m self true
        (record (m.shared) { exit_pending = true })
        (request_exit_and_wait self m.shared)
      × Guarded m self false m.shared (join self m.shared)
      × Waited exits m.shared (total live m.workers) (wait_exited exits m.shared)
unfolding request_exit_and_wait join
wait_exited-Waited {m} r self exits = (
  unless_self-Guarded r self true _ _ (wait-Waited r true true),
  unless_self-Guarded r self false _ _ (wait-Waited r false m.shared.exit_pending),
  wait-Waited r exits m.shared.exit_pending,
)
