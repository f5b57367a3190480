-- ===== src/RefBase/Threads/Machine.antt =====
-- Several threads at one object of sutils/RefBase.cpp: their calls, and any order of their steps.
use vmodule.Base.{◌≡◌, ◌⊎◌, ℕ, zero, suc, ◌+◌, Bool, Option, none, some, List, [], ◌∷◌, get_elem?}
use vmodule.RefBase.{Refs, new_ref_base, inc_strong, inc_weak}
use vmodule.RefBase.Threads.{
  Place, idle, raising_weak, dropping, dropping_weak, creating_weak, adding_weak, attempting,
  weak_loading, Thread, act,
}

-- The calls, each on a reference that the thread has.
pub data Call : Type 0 where
  calls_inc_strong calls_dec_strong calls_create_weak : Call
  calls_inc_weak calls_dec_weak calls_attempt_inc_strong calls_attempt_inc_weak : Call

abbrev pub on_one_strong : Place → ℕ → Thread → Thread
on_one_strong p zero t = t
on_one_strong p (suc s) t = record t { strong = s; at = p }

abbrev pub on_one_weak : Place → ℕ → Thread → Thread
on_one_weak p zero t = t
on_one_weak p (suc w) t = record t { weak = w; at = p }

abbrev enters : Call → Thread → Thread
enters calls_inc_strong t = on_one_strong raising_weak t.strong t
enters calls_dec_strong t = on_one_strong dropping t.strong t
enters calls_create_weak t = on_one_strong creating_weak t.strong t
enters calls_inc_weak t = on_one_weak adding_weak t.weak t
enters calls_dec_weak t = on_one_weak dropping_weak t.weak t
enters calls_attempt_inc_strong t = on_one_weak attempting t.weak t
enters calls_attempt_inc_weak t = on_one_weak weak_loading t.weak t

-- A thread in a call, or without the reference that the call needs, does nothing.
abbrev pub enter : Call → Place → Thread → Thread
enter c idle t = enters c t
enter c p t = t

-- The object with the threads that know of it.
pub record Machine : Type 0 where
  pub refs : Refs
  pub threads : List Thread

abbrev pub replace : ℕ → Thread → List Thread → List Thread
replace i t [] = []
replace zero t (u ∷ us) = t ∷ us
replace (suc i) t (u ∷ us) = u ∷ replace i t us

-- A thread that is outside every call hands a reference over.
abbrev pub taken_strong : Place → ℕ → Thread → Option Thread
taken_strong idle (suc s) t = some (record t { strong = s })
taken_strong p s t = none

abbrev pub taken_weak : Place → ℕ → Thread → Option Thread
taken_weak idle (suc w) t = some (record t { weak = w })
taken_weak p w t = none

abbrev pub given_strong : Thread → Thread
given_strong t = record t { strong = t.strong + 1 }

abbrev pub given_weak : Thread → Thread
given_weak t = record t { weak = t.weak + 1 }

-- What happens next: a thread makes a call, or takes its next step, or hands a reference to another.
pub data Move : Type 0 where
  makes : (i : ℕ) → Call → Move
  steps : (i : ℕ) → Move
  gives_strong gives_weak : (i j : ℕ) → Move

abbrev pub changes : (Thread → Thread) → ℕ → Machine → Machine
changes f i m = elim (get_elem? m.threads i) [
  | none ↦ m
  | some t ↦ record m { threads = replace i (f t) m.threads }
]

-- The reference is not lost where there is no such receiver.
abbrev pub hands : (Thread → Option Thread) → (Thread → Thread) → (i j : ℕ) → Machine → Machine
hands take give i j m = elim (get_elem? m.threads i) [
  | none ↦ m
  | some t ↦ elim (take t) [
    | none ↦ m
    | some t' ↦ elim (get_elem? (replace i t' m.threads) j) [
      | none ↦ m
      | some u ↦ record m { threads = replace j (give u) (replace i t' m.threads) }
    ]
  ]
]

abbrev pub with_threads : ℕ → List Thread → Option (Thread × Refs) → Option Machine
with_threads i ts none = none
with_threads i ts (some (t, r)) = some (record { refs = r; threads = replace i t ts })

module _ (agrees : ℕ → Bool) where
  -- `none`: a fault.
  unfoldable pub move : Move → Machine → Option Machine
  unfolding act
  move (makes i c) m = some (changes (λ t. enter c t.at t) i m)
  move (steps i) m = elim (get_elem? m.threads i) [
    | none ↦ some m
    | some t ↦ with_threads i m.threads (act agrees t.at t m.refs)
  ]
  move (gives_strong i j) m = some (hands (λ t. taken_strong t.at t.strong t) given_strong i j m)
  move (gives_weak i j) m = some (hands (λ t. taken_weak t.at t.weak t) given_weak i j m)

-- Threads that have no reference yet.
abbrev pub strangers : ℕ → List Thread
strangers zero = []
strangers (suc n) = record { strong = 0; weak = 0; at = idle } ∷ strangers n

-- The object is shared once its maker has taken the first reference, strong or weak.
abbrev pub Begins : Machine → Type 0
Begins m =
    (n : ℕ) × (((inc_strong new_ref_base ≡ some (tt, m.refs))
        × (m.threads ≡ record { strong = 1; weak = 0; at = idle } ∷ strangers n))
      ⊎ ((inc_weak new_ref_base ≡ some (tt, m.refs))
          × (m.threads ≡ record { strong = 0; weak = 1; at = idle } ∷ strangers n)))
