-- ===== src/Pointers/Session/Kept.antt =====
-- The state of a program that is to hold between its operations, and the parts of an operation.
use vmodule.Base.{ℕ, ◌+◌, ◌≤◌, ◌≡◌, refl, Option, none, some, List, length, All}
use vmodule.RefBase.Phase.{Lifetime}
use vmodule.Pointers.{World}
use vmodule.Pointers.Strong.{Sp}
use vmodule.Pointers.Weak.{Wp}
use vmodule.Pointers.Held.{held, watched, IsWhole, Owned, Runs}
use vmodule.Pointers.Owners.{Counted-same}
use vmodule.Pointers.Session.{Pocket, Run, keeping, if_there}

-- The pointers are counted, and there are at most `n`.
abbrev pub Safe : (ℕ → Lifetime) → ℕ → Pocket → World → Type 0
Safe m n p w = Owned m (p.0) (p.1) w × (length (p.0) + length (p.1) ≤ n)

pub keeping-Runs :
    {A : Type 0} (Q : Pocket → World → Type 0) (f : A → Pocket) (run : Option (A × World))
    → Runs (λ a. Q (f a)) run
    → Runs Q (keeping f run)
keeping-Runs Q f none h = h
keeping-Runs Q f (some (a, w)) h = h

pub if_there-Runs :
    {A : Type 0} (Q : Pocket → World → Type 0) (o : Option A) (does : A → Run) (idle : Run)
    → Runs Q idle
    → ((a : A) → o ≡ some a → Runs Q (does a))
    → Runs Q (if_there o does idle)
if_there-Runs Q none does idle h h' = h
if_there-Runs Q (some a) does idle h h' = h' a refl

-- The counters know the pointers by their numbers only.
pub recounted :
    (m : ℕ → Lifetime) (ss ss' : List Sp) (ws ws' : List Wp) (w : World)
    → Owned m ss ws w
    → ((a : ℕ) → held a ss ≡ held a ss')
    → ((a : ℕ) → watched a ws ≡ watched a ws')
    → All IsWhole ws'
    → Owned m ss' ws' w
recounted m ss ss' ws ws' w o same same' whole = record {
  agree =
      Counted-same m (λ a. held a ss) (λ a. watched a ws) (λ a. held a ss') (λ a. watched a ws') w
        (λ a. (same a, same' a)) o.agree;
  whole = whole;
}
