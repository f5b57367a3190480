-- ===== src/RefBase/Race.antt =====
-- The compare-and-swap loops of sutils/RefBase.cpp against other threads.
use vmodule.Base.{
  ℕ, zero, suc, ◌≤◌, ◌≡◌, refl, sym, ap, subst, Bool, true, false, Option, none, some, List, [],
  ◌∷◌, arith, ◌==◌, if◌then◌else◌, length, Bool-cases, inl, inr, ==_iff,
}
use vmodule.Atomic.{positive}
use vmodule.RefBase.{Refs, Event, on_weak}
use vmodule.RefBase.Promote.{
  Others, Interference, next_count, cas_loop, attempt_inc_strong, attempt_inc_weak,
}
use vmodule.RefBase.Refine.{refs, shape, shape_of}
use vmodule.RefBase.Phase.{normal, lapsed, Represents, IsSmall}

-- The counter after the first k of the other threads' changes.
abbrev pub after : ℕ → Others → ℕ → ℕ
after zero others v = v
after (suc k) [] v = v
after (suc k) (other ∷ others) v = after k others (other v)

-- The loop took effect in one step, at a moment between two changes of the other threads: there
-- it saw `v`, and put `next v` in its place if `v` passed the test.
abbrev pub OneStep : (ℕ → Bool) → (ℕ → ℕ) → Others → Refs → Option (ℕ × Refs) → Type 0
OneStep test next others r none = ⊥
OneStep test next others r (some (v, r')) =
    (k : ℕ) × (k ≤ length others)
    × (v ≡ after k others r.weak)
    × (r' ≡ record r { weak = if test v then next v else v })

==_refl : (n : ℕ) → (n == n) ≡ true
==_refl n = ground arith

module _ (test : ℕ → Bool) (next : ℕ → ℕ) where
  later :
      (other : ℕ → ℕ) (others : Others) (r : Refs) (o : Option (ℕ × Refs))
      → OneStep test next others (record r { weak = other r.weak }) o
      → OneStep test next (other ∷ others) r o
  later other others r none h = h
  later other others r (some (v, r')) (k, le, e, e') = (suc k, omega arith, e, e')

  here :
      (others : Others) (r : Refs) (b : Bool)
      → test r.weak ≡ b
      → OneStep test next others r
          (some (r.weak, record r { weak = if b then next r.weak else r.weak }))
  here others r b h = (zero, omega arith, refl, rw h)

  cas_loop-OneStep :
      (others : Others) (r : Refs)
      → r.impl_alive ≡ true
      → OneStep test next others r (cas_loop on_weak test next others r.weak r)
  unfolding cas_loop on_weak
  cas_loop-OneStep [] r a = elim (Bool-cases (test r.weak)) [
    | inl e ↦ rw (e, a, ==_refl r.weak) (zero, omega arith, refl, rw e)
    | inr e ↦ rw e (zero, omega arith, refl, rw e)
  ]
  cas_loop-OneStep (other ∷ others) r a = elim (Bool-cases (test r.weak)) [
    | inl e ↦ elim (Bool-cases (other r.weak == r.weak)) [
      | inl same ↦ rw (e, a, same) (1, omega arith, sym ((==_iff _ _).0 same), rw e)
      | inr changed ↦
          rw (e, a, changed)
            (later other others (record r { impl_alive = true }) _
              (cas_loop-OneStep others (record r { weak = other r.weak; impl_alive = true }) refl))
    ]
    | inr e ↦ rw e (zero, omega arith, refl, rw e)
  ]

-- attemptIncWeak took effect in one step too: there it saw the count `v`, and took a weak
-- reference if there was one, answering whether it did.
abbrev pub Attempted : Others → Refs → Option (Bool × Refs) → Type 0
Attempted others r none = ⊥
Attempted others r (some (b, r')) =
    (k : ℕ) × (k ≤ length others)
    × (b ≡ positive (after k others r.weak))
    × (r' ≡ record r {
      weak = if b then next_count (after k others r.weak) else after k others r.weak;
    })

answer :
    (others : Others) (r : Refs) (o : Option (ℕ × Refs))
    → OneStep positive next_count others r o
    → Attempted others r (elim o [ none ↦ none | some (v, r') ↦ some (positive v, r') ])
answer others r none h = h
answer others r (some (v, r')) (k, le, e, e') = (k, le, ap positive e, rw e' (rw e))

-- Whatever other threads do to the weak count meanwhile, attemptIncWeak on a weakref_impl in memory
-- ends, and its test and its increment take effect at one moment between their changes: it answers
-- whether the count was positive there, and raises it exactly if it was.
pub attempt_inc_weak-Attempted :
    (others : Others) (r : Refs)
    → r.impl_alive ≡ true
    → Attempted others r (attempt_inc_weak others r)
unfolding attempt_inc_weak on_weak
attempt_inc_weak-Attempted others r a = rw a (
    answer others (record r { impl_alive = true }) _
      (cas_loop-OneStep positive next_count others (record r { impl_alive = true }) refl))

lapsed_run :
    (agrees : ℕ → Bool) (easy first fix_up : Others) (w : ℕ) (log : List Event)
    → IsSmall (lapsed w)
    → attempt_inc_strong agrees
        (record { easy = easy; first = first; fix_up = fix_up })
        (shape normal (lapsed w) log)
      ≡ some (false, shape normal (lapsed w) log)
unfolding attempt_inc_strong refs
lapsed_run agrees [] first fix_up w log s = ground arith
lapsed_run agrees (other ∷ others) first fix_up w log s = ground arith

-- AttemptIncStrong on an object of normal lifetime that has lost its last strong reference answers
-- false and leaves everything as it was, whatever the object's hook says and whatever interference
-- the loops would meet.
pub attempt_inc_strong-lapsed :
    (agrees : ℕ → Bool) (others : Interference) (w : ℕ) (r : Refs)
    → IsSmall (lapsed w)
    → Represents normal (lapsed w) r
    → attempt_inc_strong agrees others r ≡ some (false, r)
unfolding attempt_inc_strong
attempt_inc_strong-lapsed agrees others w r s h =
    subst (λ t. attempt_inc_strong agrees others t ≡ some (false, t))
      (shape_of normal (lapsed w) r (λ e. cc) h)
      (lapsed_run agrees others.easy others.first others.fix_up w r.log s)
