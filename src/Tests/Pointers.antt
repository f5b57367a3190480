-- ===== src/Tests/Pointers.antt =====
-- A program with one object, at address 7, that one sp and one wp point to.
use vmodule.Base.{
  none, List, ℕ, refl, some, [], ◌∷◌, arith, ◌==◌, if◌then◌else◌, Bool-cases, true, inl, inr,
}
use vmodule.RefBase.{Refs, initial_strong_value}
use vmodule.RefBase.Phase.{Lifetime, normal}
use vmodule.RefBase.Promote.{quiet}
use vmodule.Pointers.{World}
use vmodule.Pointers.Strong.{Sp, sp}
use vmodule.Pointers.Weak.{Wp, wp, promote}
use vmodule.Pointers.Session.{
  Command, copies, drops, assigns, watches, copies_weak, drops_weak, assigns_weak, promotes,
  session,
}
use vmodule.Pointers.Session.Safe.{session-Safe}
use vmodule.Pointers.Held.{Owned, Runs}
use vmodule.Pointers.Promotion.{Granted, promote-Granted}

abbrev counts : ℕ → ℕ → Refs
counts s w = record {
  strong = s;
  weak = w;
  flags = 0;
  object_alive = true;
  impl_alive = true;
  log = [];
}

abbrev world : World
world a = if 7 == a then counts 1 2 else counts initial_strong_value 0

abbrev plain : ℕ → Lifetime
plain a = normal

abbrev strong : Sp
strong = sp (some 7)

abbrev weak : Wp
weak = wp (some 7) (some 7)

-- The state in which every test starts.
at_start : Owned plain (strong ∷ []) (weak ∷ []) world
at_start = record {
  agree = λ a. elim (Bool-cases (7 == a)) [
    | inl e ↦ rw e (refl, refl, refl, refl, refl)
    | inr e ↦ rw e (inr (refl, refl, refl, refl, refl))
  ];
  whole = (refl, tt);
}

promote-Granted_example :
    Runs
      (Granted plain (strong ∷ []) (weak ∷ []) (some 7))
      (promote (λ flags. true) quiet weak world)
promote-Granted_example =
    promote-Granted plain (strong ∷ []) (weak ∷ []) world weak refl at_start (omega arith)
      (omega arith)

-- A copy, a wp to it, both sps gone, a promotion that finds nothing, and the wps gone.
abbrev errands : List Command
errands =
    copies 0
    ∷ watches none 1
    ∷ assigns 0 1
    ∷ assigns_weak 1 0
    ∷ drops 1
    ∷ copies_weak 0
    ∷ drops 0
    ∷ promotes 0
    ∷ drops_weak 2
    ∷ []

session-Safe_example :
    Runs (λ p'. Owned plain (p'.0) (p'.1)) (session errands (strong ∷ [], weak ∷ []) world)
session-Safe_example =
    session-Safe plain errands 2 (strong ∷ [], weak ∷ []) world (omega arith)
      (at_start, omega arith)
