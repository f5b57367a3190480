-- ===== src/RefBase/Phase.antt =====
-- What sutils/RefBase.cpp promises of one object, without counters: the phase of its life, how
-- each operation moves it, and which callbacks and deletions happen on the way.
use vmodule.Base.{
  ℕ, zero, suc, ◌+◌, ◌^◌, ◌<◌, ◌≡◌, Bool, true, false, Option, none, some, List, [], ◌∷◌,
}
use vmodule.RefBase.{
  Refs, M, Event, first_ref, last_strong_ref, last_weak_ref, object_deleted, impl_deleted,
  initial_strong_value, pure, ◌>>◌, inc_strong, dec_strong, force_inc_strong, inc_weak, dec_weak,
}
use vmodule.RefBase.Promote.{quiet, attempt_inc_strong, attempt_inc_weak}

-- OBJECT_LIFETIME_STRONG and OBJECT_LIFETIME_WEAK
pub data Lifetime : Type 0 where
  normal extended : Lifetime

abbrev pub mode : Lifetime → ℕ
mode normal = 0
mode extended = 1

-- `fresh w`: no strong reference yet, w weak ones. `live s w`: s + 1 strong references and w weak
-- ones besides. `lapsed w`: no strong reference any more, w + 1 weak ones. `gone`: all is freed.
pub data Phase : Type 0 where
  fresh : ℕ → Phase
  live : ℕ → ℕ → Phase
  lapsed : ℕ → Phase
  gone : Phase

-- The counters that stand for a phase, and who is still in memory.
abbrev pub Represents : Lifetime → Phase → Refs → Type 0
Represents m (fresh w) r =
    (r.strong ≡ initial_strong_value)
    × (r.weak ≡ w)
    × (r.flags ≡ mode m)
    × (r.object_alive ≡ true)
    × (r.impl_alive ≡ true)
Represents m (live s w) r =
    (r.strong ≡ s + 1)
    × (r.weak ≡ s + 1 + w)
    × (r.flags ≡ mode m)
    × (r.object_alive ≡ true)
    × (r.impl_alive ≡ true)
Represents normal (lapsed w) r =
    (r.strong ≡ 0)
    × (r.weak ≡ w + 1)
    × (r.flags ≡ 0)
    × (r.object_alive ≡ false)
    × (r.impl_alive ≡ true)
Represents extended (lapsed w) r =
    (r.strong ≡ 0)
    × (r.weak ≡ w + 1)
    × (r.flags ≡ 1)
    × (r.object_alive ≡ true)
    × (r.impl_alive ≡ true)
Represents m gone r = (r.object_alive ≡ false) × (r.impl_alive ≡ false)

-- Few enough references for the counters; one below INITIAL_STRONG_VALUE is the limit.
abbrev pub IsSmall : Phase → Type 0
IsSmall (fresh w) = w + 1 < 2 ^ 31
IsSmall (live s w) = (s + 2 < initial_strong_value) × (s + 2 + w < 2 ^ 31)
IsSmall (lapsed w) = w + 2 < 2 ^ 31
IsSmall gone = Unit {0}

-- What a holder of references may ask for. `drop_strong` gives back a strong reference that the
-- caller holds; `promote` goes through a weak reference.
pub data Request : Type 0 where
  add_strong drop_strong force_strong : Request
  add_weak drop_weak promote add_weak_if : Request

-- The events are listed newest first; the Boolean is the answer of the promotions.
pub record Effect : Type 0 where
  pub phase : Phase
  pub answer : Bool
  pub events : List Event

abbrev effect : Phase → Bool → List Event → Option Effect
effect p b es = some (record { phase = p; answer = b; events = es })

-- `none`: the caller broke the rules, by giving back a reference that does not exist, using a
-- weak reference that nobody holds, or touching an object that is gone.
unfoldable pub respond : Lifetime → Request → Phase → Option Effect
respond m add_strong (fresh w) = effect (live 0 w) true (first_ref ∷ [])
respond m add_strong (live s w) = effect (live (suc s) w) true []
respond extended add_strong (lapsed w) = effect (live 0 (suc w)) true []
respond normal add_strong (lapsed w) = none
respond m add_strong gone = none
respond m force_strong (fresh w) = effect (live 0 w) true (first_ref ∷ [])
respond m force_strong (live s w) = effect (live (suc s) w) true []
respond extended force_strong (lapsed w) = effect (live 0 (suc w)) true (first_ref ∷ [])
respond normal force_strong (lapsed w) = none
respond m force_strong gone = none
respond m drop_strong (live (suc s) w) = effect (live s w) true []
respond m drop_strong (live zero (suc w)) = elim m [
  | normal ↦ effect (lapsed w) true (object_deleted ∷ last_strong_ref ∷ [])
  | extended ↦ effect (lapsed w) true (last_strong_ref ∷ [])
]
respond m drop_strong (live zero zero) = elim m [
  | normal ↦ effect gone true (impl_deleted ∷ object_deleted ∷ last_strong_ref ∷ [])
  | extended ↦
      effect gone true (impl_deleted ∷ object_deleted ∷ last_weak_ref ∷ last_strong_ref ∷ [])
]
respond m drop_strong _ = none
respond m add_weak (fresh w) = effect (fresh (suc w)) true []
respond m add_weak (live s w) = effect (live s (suc w)) true []
respond m add_weak (lapsed w) = effect (lapsed (suc w)) true []
respond m add_weak gone = none
respond m drop_weak (fresh (suc (suc w))) = effect (fresh (suc w)) true []
respond m drop_weak (fresh (suc zero)) = elim m [
  | normal ↦ effect gone true (impl_deleted ∷ object_deleted ∷ [])
  | extended ↦ effect gone true (impl_deleted ∷ object_deleted ∷ last_weak_ref ∷ [])
]
respond m drop_weak (fresh zero) = none
respond m drop_weak (live s (suc w)) = effect (live s w) true []
respond m drop_weak (live s zero) = none
respond m drop_weak (lapsed (suc w)) = effect (lapsed w) true []
respond m drop_weak (lapsed zero) = elim m [
  | normal ↦ effect gone true (impl_deleted ∷ [])
  | extended ↦ effect gone true (impl_deleted ∷ object_deleted ∷ last_weak_ref ∷ [])
]
respond m drop_weak gone = none
respond m promote (fresh w) = effect (live 0 w) true []
respond m promote (live s w) = effect (live (suc s) w) true []
respond normal promote (lapsed w) = effect (lapsed w) false []
respond extended promote (lapsed w) = effect (live 0 (suc w)) true []
respond m promote gone = none
respond m add_weak_if (fresh (suc w)) = effect (fresh (suc (suc w))) true []
respond m add_weak_if (fresh zero) = effect (fresh zero) false []
respond m add_weak_if (live s w) = effect (live s (suc w)) true []
respond m add_weak_if (lapsed w) = effect (lapsed (suc w)) true []
respond m add_weak_if gone = none

-- The code, run with no other thread in between, on an object that agrees to be revived.
unfoldable pub perform : Request → M Bool
perform add_strong = inc_strong >> pure true
perform drop_strong = dec_strong >> pure true
perform force_strong = force_inc_strong >> pure true
perform add_weak = inc_weak >> pure true
perform drop_weak = dec_weak >> pure true
perform promote = attempt_inc_strong (λ flags. true) quiet
perform add_weak_if = attempt_inc_weak []
