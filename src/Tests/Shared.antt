-- ===== src/Tests/Shared.antt =====
-- Two threads with one object.
use vmodule.Base.{ℕ, ◌≡◌, refl, Bool, true, ◌≤◌, inl, some, [], ◌∷◌, arith}
use vmodule.RefBase.{inc_strong, new_ref_base, first_ref}
use vmodule.RefBase.Threads.{Place, idle, creating_weak, attempting, loading, Thread}
use vmodule.RefBase.Threads.Machine.{
  Machine, move, makes, steps, gives_weak, calls_create_weak, calls_attempt_inc_strong,
}
use vmodule.RefBase.Threads.Safe.{Reach, begin, later}
use vmodule.RefBase.Threads.Alone.{Finished, run_alone, run_alone_ends}
use vmodule.RefBase.Threads.Held.{move_no_fault, reference_keeps, Settled, Reach-Settled}

abbrev agreeing : ℕ → Bool
agreeing flags = true

abbrev machine : (strong weak : ℕ) → (first second : Thread) → Machine
machine s w t u = record {
  refs = record {
    strong = s;
    weak = w;
    flags = 0;
    object_alive = true;
    impl_alive = true;
    log = first_ref ∷ [];
  };
  threads = t ∷ u ∷ [];
}

abbrev thread : (strong weak : ℕ) → Place → Thread
thread s w p = record { strong = s; weak = w; at = p }

-- The first thread makes a weak reference, hands it over, and the second begins to promote it.
abbrev maker_only : Machine
maker_only = machine 1 1 (thread 1 0 idle) (thread 0 0 idle)

abbrev both : Machine
both = machine 1 2 (thread 1 0 idle) (thread 0 1 idle)

both_known : Reach agreeing both
unfolding move inc_strong new_ref_base
both_known =
    later {m = machine 1 2 (thread 1 1 idle) (thread 0 0 idle)} (gives_weak 0 1)
      (later {m = machine 1 1 (thread 0 0 creating_weak) (thread 0 0 idle)} (steps 0)
        (later {m = maker_only} (makes 0 calls_create_weak) (begin (1, inl (refl, refl)))
          (omega arith) refl)
        (omega arith) refl)
      (omega arith) refl

promoting : Reach agreeing (machine 1 3 (thread 1 0 idle) (thread 0 0 loading))
unfolding move
promoting =
    later {m = machine 1 2 (thread 1 0 idle) (thread 0 0 attempting)} (steps 1)
      (later {m = both} (makes 1 calls_attempt_inc_strong) both_known (omega arith) refl)
      (omega arith) refl

move_no_fault_example :
    (m' : Machine) × (move agreeing (steps 1) (machine 1 3 (thread 1 0 idle) (thread 0 0 loading))
      ≡ some m')
move_no_fault_example = move_no_fault agreeing promoting (omega arith) (steps 1)

reference_keeps_example : (1 ≤ 1 → (true ≡ true) × (true ≡ true)) × (1 ≤ 0 → true ≡ true)
reference_keeps_example = reference_keeps agreeing promoting 0 (thread 1 0 idle) refl

Reach-Settled_example : Settled both.refs 1 1
Reach-Settled_example = Reach-Settled agreeing both_known (refl, (refl, tt))

run_alone_ends_example :
    Finished agreeing 1
      (run_alone agreeing 7 1 (machine 1 3 (thread 1 0 idle) (thread 0 0 loading)))
run_alone_ends_example = run_alone_ends agreeing promoting (omega arith) 1 (thread 0 0 loading) refl
