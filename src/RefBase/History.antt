-- ===== src/RefBase/History.antt =====
-- Whole lives of a RefBase: requests one after another, and what was deleted by the end.
use vmodule.Base.{
  ℕ, zero, suc, ◌≡◌, refl, subst, Bool, Option, none, some, List, [], ◌∷◌, ◌++◌, arith,
}
use vmodule.RefBase.{
  Refs, M, pure, ◌>>◌, Event, object_deleted, impl_deleted, new_ref_base, extend_object_lifetime,
}
use vmodule.RefBase.Phase.{
  Lifetime, normal, extended, Phase, fresh, live, lapsed, gone, Represents, IsSmall, Request,
  add_strong, drop_strong, force_strong, add_weak, drop_weak, promote, add_weak_if, Effect, respond,
  perform,
}
use vmodule.RefBase.Refine.{Follows, perform-Follows}

-- How often the object, and how often its weakref_impl, was deleted.
abbrev pub objects : List Event → ℕ
objects [] = 0
objects (e ∷ es) = elim e [ object_deleted ↦ suc (objects es) | _ ↦ objects es ]

abbrev pub impls : List Event → ℕ
impls [] = 0
impls (e ∷ es) = elim e [ impl_deleted ↦ suc (impls es) | _ ↦ impls es ]

-- The deletions that a phase has behind it.
abbrev pub Tally : Lifetime → Phase → List Event → Type 0
Tally m (fresh w) log = (objects log ≡ 0) × (impls log ≡ 0)
Tally m (live s w) log = (objects log ≡ 0) × (impls log ≡ 0)
Tally normal (lapsed w) log = (objects log ≡ 1) × (impls log ≡ 0)
Tally extended (lapsed w) log = (objects log ≡ 0) × (impls log ≡ 0)
Tally m gone log = (objects log ≡ 1) × (impls log ≡ 1)

-- A list of requests that keeps the rules and the limits at every step.
pub data Keeps (m : Lifetime) : Phase → List Request → Phase → Type 0 where
  done : {p : Phase} → Keeps m p [] p
  next :
      {p q : Phase} {a : Request} {as' : List Request} (e : Effect)
      → IsSmall p
      → respond m a p ≡ some e
      → Keeps m e.phase as' q
      → Keeps m p (a ∷ as') q

unfoldable pub perform_all : List Request → M (Unit {0})
perform_all [] = pure tt
perform_all (a ∷ as') = perform a >> perform_all as'

abbrev pub Ends : Lifetime → Phase → Option (Unit {0} × Refs) → Type 0
Ends m p none = ⊥
Ends m p (some (u, r)) = Represents m p r × Tally m p r.log

abbrev Tallies : Lifetime → List Event → Option Effect → Type 0
Tallies m log none = Unit {0}
Tallies m log (some e) = Tally m e.phase (e.events ++ log)

respond-Tallies :
    (m : Lifetime) (a : Request) (p : Phase) (log : List Event)
    → Tally m p log
    → Tallies m log (respond m a p)
unfolding respond
respond-Tallies normal add_strong (fresh w) log t = ground arith
respond-Tallies normal add_strong _ log t = ground arith
respond-Tallies extended add_strong (fresh w) log t = ground arith
respond-Tallies extended add_strong _ log t = ground arith
respond-Tallies normal force_strong (fresh w) log t = ground arith
respond-Tallies normal force_strong _ log t = ground arith
respond-Tallies extended force_strong (fresh w) log t = ground arith
respond-Tallies extended force_strong _ log t = ground arith
respond-Tallies normal drop_strong (live zero zero) log t = ground arith
respond-Tallies normal drop_strong (live zero (suc w)) log t = ground arith
respond-Tallies normal drop_strong _ log t = ground arith
respond-Tallies extended drop_strong (live zero zero) log t = ground arith
respond-Tallies extended drop_strong (live zero (suc w)) log t = ground arith
respond-Tallies extended drop_strong _ log t = ground arith
respond-Tallies normal add_weak (fresh w) log t = ground arith
respond-Tallies normal add_weak _ log t = ground arith
respond-Tallies extended add_weak (fresh w) log t = ground arith
respond-Tallies extended add_weak _ log t = ground arith
respond-Tallies normal drop_weak (fresh (suc zero)) log t = ground arith
respond-Tallies normal drop_weak (live s (suc w)) log t = ground arith
respond-Tallies normal drop_weak (lapsed zero) log t = ground arith
respond-Tallies normal drop_weak _ log t = ground arith
respond-Tallies extended drop_weak (fresh (suc zero)) log t = ground arith
respond-Tallies extended drop_weak (live s (suc w)) log t = ground arith
respond-Tallies extended drop_weak (lapsed zero) log t = ground arith
respond-Tallies extended drop_weak _ log t = ground arith
respond-Tallies normal promote (fresh w) log t = ground arith
respond-Tallies normal promote _ log t = ground arith
respond-Tallies extended promote (fresh w) log t = ground arith
respond-Tallies extended promote _ log t = ground arith
respond-Tallies normal add_weak_if (fresh zero) log t = ground arith
respond-Tallies normal add_weak_if _ log t = ground arith
respond-Tallies extended add_weak_if (fresh zero) log t = ground arith
respond-Tallies extended add_weak_if _ log t = ground arith

respond-Tally :
    (m : Lifetime) (a : Request) (p : Phase) (e : Effect) (log : List Event)
    → respond m a p ≡ some e
    → Tally m p log
    → Tally m e.phase (e.events ++ log)
respond-Tally m a p e log h t = subst (Tallies m log) h (respond-Tallies m a p log t)

-- One request, then the others.
Ends-bind :
    (m : Lifetime) (q : Phase) (e : Effect) (log : List Event) (k : M (Unit {0}))
    (run : Option (Bool × Refs))
    → ((r : Refs) → Represents m e.phase r → r.log ≡ e.events ++ log → Ends m q (k r))
    → Follows m e log run
    → Ends m q (elim run [ none ↦ none | some (b, r) ↦ k r ])
Ends-bind m q e log k none f h = h
Ends-bind m q e log k (some (b, r)) f h = f r h.1 h.2

run-Ends :
    (m : Lifetime) {p q : Phase} {as' : List Request} (r : Refs)
    → Keeps m p as' q
    → Represents m p r
    → Tally m p r.log
    → Ends m q (perform_all as' r)
unfolding perform_all
run-Ends m r done rep t = (rep, t)
run-Ends m {p} {q} r (next {a} {as'} e small h rest) rep t =
    Ends-bind m q e r.log (perform_all as') (perform a r)
      (λ r' rep' l. run-Ends m r' rest rep' (rw l (respond-Tally m a p e r.log h t)))
      (perform-Follows m a p e r h small rep)

-- Any history of requests that keeps the rules and the limits, on a new object, runs without a
-- fault and ends in counters that represent its phase, with the object and its weakref_impl deleted
-- as often as that phase says: never while references of their kind are left, once afterwards.
pub life :
    (p : Phase) (as' : List Request)
    → Keeps normal (fresh 0) as' p
    → Ends normal p (perform_all as' new_ref_base)
unfolding new_ref_base
life p as' k = run-Ends normal new_ref_base k (refl, refl, refl, refl, refl) (refl, refl)

-- Any history of requests that keeps the rules and the limits, on a new object after
-- extendObjectLifetime(OBJECT_LIFETIME_WEAK), runs without a fault and ends in counters that
-- represent its phase, with the object and its weakref_impl deleted as often as that phase says:
-- never while a reference of any kind is left, once afterwards.
pub extended_life :
    (p : Phase) (as' : List Request)
    → Keeps extended (fresh 0) as' p
    → Ends extended p ((extend_object_lifetime 1 >> perform_all as') new_ref_base)
unfolding new_ref_base extend_object_lifetime
extended_life p as' k = run-Ends extended _ k (refl, refl, refl, refl, refl) (refl, refl)
