-- ===== src/RefBase/Refine.antt =====
-- The counters of sutils/RefBase.cpp implement the phases of RefBase/Phase.antt.
use vmodule.Base.{
  ℕ, zero, suc, ◌+◌, ◌≡◌, refl, ◌≢◌, subst, Bool, true, false, Option, none, some, List, ◌++◌,
  arith,
}
use vmodule.RefBase.{
  Refs, Event, initial_strong_value, inc_weak, inc_strong, dec_weak, dec_strong, force_inc_strong,
}
use vmodule.RefBase.Promote.{attempt_inc_strong, attempt_inc_weak}
use vmodule.RefBase.Phase.{
  Lifetime, mode, normal, extended, Phase, fresh, live, lapsed, gone, Represents, IsSmall, Request,
  add_strong, drop_strong, force_strong, add_weak, drop_weak, promote, add_weak_if, Effect, respond,
  perform,
}

-- The run ends without a fault, with the effect's answer, in its phase and after its events.
abbrev pub Follows : Lifetime → Effect → List Event → Option (Bool × Refs) → Type 0
Follows m e log none = ⊥
Follows m e log (some (b, r)) = (b ≡ e.answer) × Represents m e.phase r × (r.log ≡ e.events ++ log)

abbrev Answers : Lifetime → List Event → Option Effect → Option (Bool × Refs) → Type 0
Answers m log none run = Unit {0}
Answers m log (some e) run = Follows m e log run

unfoldable pub refs : ℕ → ℕ → ℕ → Bool → List Event → Refs
refs strong weak flags alive log = record {
  strong = strong;
  weak = weak;
  flags = flags;
  object_alive = alive;
  impl_alive = true;
  log = log;
}

-- The one state that stands for a phase and a log, but for the contents of freed memory.
abbrev pub shape : Lifetime → Phase → List Event → Refs
shape m (fresh w) log = refs initial_strong_value w (mode m) true log
shape m (live s w) log = refs (s + 1) (s + 1 + w) (mode m) true log
shape normal (lapsed w) log = refs 0 (w + 1) 0 false log
shape extended (lapsed w) log = refs 0 (w + 1) 1 true log
shape m gone log = refs 0 0 0 false log

abbrev Meets : Request → Lifetime → Phase → List Event → Type 0
Meets q m p log = Answers m log (respond m q p) (perform q (shape m p log))

add_strong-Meets :
    (m : Lifetime) (p : Phase) (log : List Event) → IsSmall p → Meets add_strong m p log
unfolding respond perform inc_strong refs
add_strong-Meets normal (fresh w) log s = ground arith
add_strong-Meets extended (fresh w) log s = ground arith
add_strong-Meets normal (live c w) log s = ground arith
add_strong-Meets extended (live c w) log s = ground arith
add_strong-Meets normal (lapsed w) log s = ground arith
add_strong-Meets extended (lapsed w) log s = ground arith
add_strong-Meets normal gone log s = ground arith
add_strong-Meets extended gone log s = ground arith

force_strong-Meets :
    (m : Lifetime) (p : Phase) (log : List Event) → IsSmall p → Meets force_strong m p log
unfolding respond perform force_inc_strong refs
force_strong-Meets normal (fresh w) log s = ground arith
force_strong-Meets extended (fresh w) log s = ground arith
force_strong-Meets normal (live c w) log s = ground arith
force_strong-Meets extended (live c w) log s = ground arith
force_strong-Meets normal (lapsed w) log s = ground arith
force_strong-Meets extended (lapsed w) log s = ground arith
force_strong-Meets normal gone log s = ground arith
force_strong-Meets extended gone log s = ground arith

drop_strong-Meets :
    (m : Lifetime) (p : Phase) (log : List Event) → IsSmall p → Meets drop_strong m p log
unfolding respond perform dec_strong refs
drop_strong-Meets normal (fresh w) log s = ground arith
drop_strong-Meets extended (fresh w) log s = ground arith
drop_strong-Meets normal (live zero zero) log s = ground arith
drop_strong-Meets extended (live zero zero) log s = ground arith
drop_strong-Meets normal (live zero (suc w)) log s = ground arith
drop_strong-Meets extended (live zero (suc w)) log s = ground arith
drop_strong-Meets normal (live (suc c) w) log s = ground arith
drop_strong-Meets extended (live (suc c) w) log s = ground arith
drop_strong-Meets normal (lapsed w) log s = ground arith
drop_strong-Meets extended (lapsed w) log s = ground arith
drop_strong-Meets normal gone log s = ground arith
drop_strong-Meets extended gone log s = ground arith

add_weak-Meets : (m : Lifetime) (p : Phase) (log : List Event) → IsSmall p → Meets add_weak m p log
unfolding respond perform inc_weak refs
add_weak-Meets normal (fresh w) log s = ground arith
add_weak-Meets extended (fresh w) log s = ground arith
add_weak-Meets normal (live c w) log s = ground arith
add_weak-Meets extended (live c w) log s = ground arith
add_weak-Meets normal (lapsed w) log s = ground arith
add_weak-Meets extended (lapsed w) log s = ground arith
add_weak-Meets normal gone log s = ground arith
add_weak-Meets extended gone log s = ground arith

drop_weak-Meets :
    (m : Lifetime) (p : Phase) (log : List Event) → IsSmall p → Meets drop_weak m p log
unfolding respond perform dec_weak refs
drop_weak-Meets normal (fresh zero) log s = ground arith
drop_weak-Meets extended (fresh zero) log s = ground arith
drop_weak-Meets normal (fresh (suc zero)) log s = ground arith
drop_weak-Meets extended (fresh (suc zero)) log s = ground arith
drop_weak-Meets normal (fresh (suc (suc w))) log s = ground arith
drop_weak-Meets extended (fresh (suc (suc w))) log s = ground arith
drop_weak-Meets normal (live c zero) log s = ground arith
drop_weak-Meets extended (live c zero) log s = ground arith
drop_weak-Meets normal (live c (suc w)) log s = ground arith
drop_weak-Meets extended (live c (suc w)) log s = ground arith
drop_weak-Meets normal (lapsed zero) log s = ground arith
drop_weak-Meets extended (lapsed zero) log s = ground arith
drop_weak-Meets normal (lapsed (suc w)) log s = ground arith
drop_weak-Meets extended (lapsed (suc w)) log s = ground arith
drop_weak-Meets normal gone log s = ground arith
drop_weak-Meets extended gone log s = ground arith

promote-Meets : (m : Lifetime) (p : Phase) (log : List Event) → IsSmall p → Meets promote m p log
unfolding respond perform attempt_inc_strong refs
promote-Meets normal (fresh w) log s = ground arith
promote-Meets extended (fresh w) log s = ground arith
promote-Meets normal (live c w) log s = ground arith
promote-Meets extended (live c w) log s = ground arith
promote-Meets normal (lapsed w) log s = ground arith
promote-Meets extended (lapsed w) log s = ground arith
promote-Meets normal gone log s = ground arith
promote-Meets extended gone log s = ground arith

add_weak_if-Meets :
    (m : Lifetime) (p : Phase) (log : List Event) → IsSmall p → Meets add_weak_if m p log
unfolding respond perform attempt_inc_weak refs
add_weak_if-Meets normal (fresh zero) log s = ground arith
add_weak_if-Meets extended (fresh zero) log s = ground arith
add_weak_if-Meets normal (fresh (suc w)) log s = ground arith
add_weak_if-Meets extended (fresh (suc w)) log s = ground arith
add_weak_if-Meets normal (live c w) log s = ground arith
add_weak_if-Meets extended (live c w) log s = ground arith
add_weak_if-Meets normal (lapsed w) log s = ground arith
add_weak_if-Meets extended (lapsed w) log s = ground arith
add_weak_if-Meets normal gone log s = ground arith
add_weak_if-Meets extended gone log s = ground arith

perform-Meets :
    (q : Request) (m : Lifetime) (p : Phase) (log : List Event) → IsSmall p → Meets q m p log
perform-Meets add_strong = add_strong-Meets
perform-Meets force_strong = force_strong-Meets
perform-Meets drop_strong = drop_strong-Meets
perform-Meets add_weak = add_weak-Meets
perform-Meets drop_weak = drop_weak-Meets
perform-Meets promote = promote-Meets
perform-Meets add_weak_if = add_weak_if-Meets

pub shape_of :
    (m : Lifetime) (p : Phase) (r : Refs) → p ≢ gone → Represents m p r → shape m p r.log ≡ r
unfolding refs
shape_of normal (fresh w) r n h = ground arith
shape_of extended (fresh w) r n h = ground arith
shape_of normal (live s w) r n h = ground arith
shape_of extended (live s w) r n h = ground arith
shape_of normal (lapsed w) r n h = ground arith
shape_of extended (lapsed w) r n h = ground arith
shape_of m gone r n h = absurd (n refl)

respond-gone : (m : Lifetime) (q : Request) → respond m q gone ≡ none
unfolding respond
respond-gone normal add_strong = refl
respond-gone extended add_strong = refl
respond-gone normal force_strong = refl
respond-gone extended force_strong = refl
respond-gone m drop_strong = refl
respond-gone m add_weak = refl
respond-gone m drop_weak = refl
respond-gone normal promote = refl
respond-gone extended promote = refl
respond-gone m add_weak_if = refl

Answers-Follows :
    (m : Lifetime) (log : List Event) (o : Option Effect) (e : Effect) (run : Option (Bool × Refs))
    → o ≡ some e
    → Answers m log o run
    → Follows m e log run
Answers-Follows m log o e run h a = subst (λ o. Answers m log o run) h a

at_shape :
    (m : Lifetime) (q : Request) (p : Phase) (e : Effect) (r : Refs)
    → p ≢ gone
    → respond m q p ≡ some e
    → IsSmall p
    → Represents m p r
    → Follows m e r.log (perform q r)
at_shape m q p e r n h s rep =
    subst (λ t. Follows m e r.log (perform q t)) (shape_of m p r n rep)
      (Answers-Follows m r.log (respond m q p) e _ h (perform-Meets q m p r.log s))

-- A request (incStrong, decStrong, forceIncStrong, incWeak, decWeak, attemptIncStrong or
-- attemptIncWeak, run with no other thread in between and on an object that agrees to be revived)
-- that keeps the rules, on counters that represent a phase within its limits, does not fault, gives
-- the phase machine's answer, leaves counters that represent its next phase, and adds exactly its
-- callbacks and deletions to the log.
pub perform-Follows :
    (m : Lifetime) (q : Request) (p : Phase) (e : Effect) (r : Refs)
    → respond m q p ≡ some e
    → IsSmall p
    → Represents m p r
    → Follows m e r.log (perform q r)
perform-Follows m q (fresh w) e r h s rep = at_shape m q (fresh w) e r (λ g. cc) h s rep
perform-Follows m q (live c w) e r h s rep = at_shape m q (live c w) e r (λ g. cc) h s rep
perform-Follows m q (lapsed w) e r h s rep = at_shape m q (lapsed w) e r (λ g. cc) h s rep
perform-Follows m q gone e r h s rep = cc (respond-gone m q)
