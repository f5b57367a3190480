-- ===== src/RefBase/Threads/Held.antt =====
-- What the threads that share an object can rely on.
use vmodule.Base.{
  ℕ, zero, suc, ◌+◌, ◌≤◌, ◌≡◌, ◌⊎◌, refl, Bool, true, false, inl, inr, Option, none, some, List, [],
  ◌∷◌, arith, get_elem?, All,
}
use vmodule.RefBase.{Refs, initial_strong_value}
use vmodule.RefBase.Threads.{idle, Thread}
use vmodule.RefBase.Threads.Machine.{Machine, Move, move}
use vmodule.RefBase.Threads.Counts.{
  strong_refs, weak_refs, settled, dying, looking, last_object, last_impl, total, total-get,
}
use vmodule.RefBase.Threads.Life.{Sound, IsFew}
use vmodule.RefBase.Threads.Reading.{still, some_left, life_settled, life_unheld}
use vmodule.RefBase.Threads.Safe.{Reach, Reach-IsSound, SoundAfter, move-SoundAfter}

goes_on :
    (agrees : ℕ → Bool) (o : Option Machine) → SoundAfter agrees o → (m : Machine) × (o ≡ some m)
goes_on agrees none h = absurd h
goes_on agrees (some m) h = (m, refl)

-- Threads that share an object of normal lifetime, in every state that their calls of incStrong,
-- decStrong, createWeak, incWeak, decWeak, attemptIncStrong and attemptIncWeak, cut at every access
-- to a counter, and the handing over of references can lead to in any order, after its maker has
-- taken the first reference, and while the references stay below the limit: whatever thread moves
-- next, there is no fault, so that no freed memory is touched, no deleted object called, and
-- nothing deleted twice.
pub move_no_fault :
    (agrees : ℕ → Bool) {m : Machine}
    → Reach agrees m
    → IsFew (total m.threads)
    → (next : Move) → (m' : Machine) × (move agrees next m ≡ some m')
move_no_fault agrees {m} r few next =
    goes_on agrees _ (move-SoundAfter agrees next m few (Reach-IsSound agrees r))

-- In every state that threads sharing an object of normal lifetime can lead to, a thread that has a
-- strong reference at hand has the object and its weakref_impl in memory, and one that has a weak
-- reference the weakref_impl, wherever the others stand in their calls.
pub reference_keeps :
    (agrees : ℕ → Bool) {m : Machine}
    → Reach agrees m
    → (i : ℕ) (t : Thread) → get_elem? m.threads i ≡ some t
    → (1 ≤ t.strong → (m.refs.object_alive ≡ true) × (m.refs.impl_alive ≡ true))
      × (1 ≤ t.weak → m.refs.impl_alive ≡ true)
reference_keeps agrees {m} r i t e =
    let h = Reach-IsSound agrees r in
    let w = total-get i m.threads t weak_refs e in
    let d = total-get i m.threads t settled e in
    (
      (λ one.
          let u = still (omega arith) h in
          let (es, eo, el, ey) = life_settled u (omega arith) in (eo, u.impl_eq)),
      (λ one. (still (omega arith) h).impl_eq),
    )

-- Sums of what idle threads have.
abbrev pub strong_held : List Thread → ℕ
strong_held [] = 0
strong_held (t ∷ ts) = t.strong + strong_held ts

abbrev pub weak_held : List Thread → ℕ
weak_held [] = 0
weak_held (t ∷ ts) = t.weak + weak_held ts

-- At rest, nothing is counted but what the threads have.
record AtRest (ts : List Thread) : Type 0 where
  strong_total : total ts strong_refs ≡ strong_held ts
  weak_total : total ts weak_refs ≡ strong_held ts + weak_held ts
  settled_total : total ts settled ≡ strong_held ts
  no_dying : total ts dying ≡ 0
  no_last : total ts looking + total ts last_object + total ts last_impl ≡ 0

idle-AtRest : (ts : List Thread) → All (λ t. t.at ≡ idle) ts → AtRest ts
idle-AtRest [] h = record {
  strong_total = refl;
  weak_total = refl;
  settled_total = refl;
  no_dying = refl;
  no_last = refl;
}
idle-AtRest (t ∷ ts) (e, h) =
    let g = idle-AtRest ts h in
    let a = g.strong_total in
    let b = g.weak_total in
    let c = g.settled_total in
    let d = g.no_dying in
    let f = g.no_last in
    rw e (record {
      strong_total = omega arith;
      weak_total = omega arith;
      settled_total = omega arith;
      no_dying = omega arith;
      no_last = omega arith;
    })

-- What all threads outside of calls mean for the counters and the memory.
abbrev pub Settled : Refs → (strong weak : ℕ) → Type 0
Settled r zero zero = (r.object_alive ≡ false) × (r.impl_alive ≡ false)
Settled r zero (suc w) =
    (r.weak ≡ suc w)
    × (r.impl_alive ≡ true)
    × (((r.strong ≡ initial_strong_value) × (r.object_alive ≡ true))
        ⊎ ((r.strong ≡ 0) × (r.object_alive ≡ false)))
Settled r (suc s) w =
    (r.strong ≡ suc s) × (r.weak ≡ suc s + w) × (r.object_alive ≡ true) × (r.impl_alive ≡ true)

-- In every state that threads sharing an object of normal lifetime can lead to and where none of
-- them is in a call: with s strong references among them, mStrong is s and mWeak the number of all
-- references, with both in memory; with weak references only, mWeak is their number, and either
-- mStrong is INITIAL_STRONG_VALUE and the object in memory, or mStrong is 0 and the object deleted;
-- with none, the object and its weakref_impl are deleted.
pub Reach-Settled :
    (agrees : ℕ → Bool) {m : Machine}
    → Reach agrees m
    → All (λ t. t.at ≡ idle) m.threads
    → Settled m.refs (strong_held m.threads) (weak_held m.threads)
Reach-Settled agrees {m} r q =
    let g = idle-AtRest m.threads q in go _ _ refl refl g (Reach-IsSound agrees r)
  where
    go :
        (s w : ℕ)
        → strong_held m.threads ≡ s
        → weak_held m.threads ≡ w
        → AtRest m.threads
        → Sound m.refs (total m.threads)
        → Settled m.refs s w
    go zero zero es ew g (inl u) =
        let b = g.weak_total in let c = g.no_last in let l = some_left u in absurd (omega arith)
    go zero zero es ew g (inr gone) = (gone.object_eq, gone.impl_eq)
    go zero (suc w) es ew g h =
        let a = g.strong_total in
        let b = g.weak_total in
        let c = g.no_dying in
        let u = still (omega arith) h in
        let e = u.weak_eq in (omega arith, u.impl_eq, life_unheld u (omega arith) (omega arith))
    go (suc s) w es ew g h =
        let a = g.strong_total in
        let b = g.weak_total in
        let c = g.settled_total in
        let u = still (omega arith) h in
        let (eq, eo, el, ey) = life_settled u (omega arith) in
        let e = u.weak_eq in (omega arith, omega arith, eo, u.impl_eq)
