-- ===== src/RefBase/Threads/Alone.antt =====
-- A thread that runs alone finishes its call.
use vmodule.Base.{
  ℕ, zero, suc, ◌+◌, ◌-◌, ◌≤◌, ◌<◌, ◌≡◌, refl, Bool, true, false, inl, inr, Option, none, some,
  List, [], ◌∷◌, arith, ◌==◌, if◌then◌else◌, get_elem?,
}
use vmodule.Atomic.{
  vmodule_atomic_inc, vmodule_atomic_dec, vmodule_atomic_add, vmodule_atomic_load,
  vmodule_atomic_release_cas,
}
use vmodule.RefBase.{
  Refs, Event, on_weak, on_strong, on_flags, hook, delete_object, delete_impl, mark_deleted,
  initial_strong_value,
}
use vmodule.RefBase.Threads.{
  Place, idle, raising_weak, raising_strong, fixing, telling_first, dropping, telling_last,
  deleting, dropping_weak, last_weak_gone, freeing_object, freeing_impl, creating_weak, adding_weak,
  attempting, loading, first_loading, taking, telling_claim, fix_loading, trying, first_trying,
  fix_trying, weak_loading, weak_trying, Thread, act, in_object,
}
use vmodule.RefBase.Threads.Machine.{Machine, move, steps, replace, with_threads}
use vmodule.RefBase.Threads.Counts.{Class, weigh, weak_refs, total, total-get, total-replace}
use vmodule.RefBase.Threads.Life.{Sound}
use vmodule.RefBase.Threads.Rules.{thread, state}
use vmodule.RefBase.Threads.Safe.{Reach, later, Reach-IsSound}
use vmodule.RefBase.Threads.Held.{move_no_fault}

-- The steps that are left at most.
abbrev pub left : Place → Refs → ℕ
left idle r = 0
left freeing_object r = 1
left freeing_impl r = 1
left last_weak_gone r = 2
left dropping_weak r = 3
left deleting r = 4
left telling_last r = 5
left dropping r = 6
left creating_weak r = 1
left adding_weak r = 1
left telling_first r = 1
left fixing r = 2
left raising_strong r = 3
left raising_weak r = 4
left fix_loading r = 2
left (fix_trying cur) r = if cur == r.strong then 1 else 3
left telling_claim r = 3
left taking r = 4
left first_loading r = 5
left (first_trying cur) r = if cur == r.strong then 4 else 6
left loading r = 6
left (trying cur) r = if cur == r.strong then 5 else 7
left attempting r = 7
left weak_loading r = 2
left (weak_trying cur) r = if cur == r.weak then 1 else 3

-- A step takes one from what is left, and no more than one weak reference.
abbrev pub Nearer : (left weak : ℕ) → Option (Thread × Refs) → Type 0
Nearer n w none = Unit {0}
Nearer n w (some (t, r)) = (left t.at r ≤ n - 1) × (weigh weak_refs t ≤ w + 1)

module _ (agrees : ℕ → Bool) where
  used-Nearer :
      (p : Place) (a b s w : ℕ) (o : Bool) (log : List Event)
      → Nearer
          (left p (state s w 0 o true log))
          (weigh weak_refs (thread a b p))
          (act agrees p (thread a b p) (state s w 0 o true log))
  unfolding act in_object on_weak on_strong on_flags hook delete_object delete_impl mark_deleted
      vmodule_atomic_inc vmodule_atomic_dec vmodule_atomic_add vmodule_atomic_load
      vmodule_atomic_release_cas
  used-Nearer idle a b s w o log = ground arith
  used-Nearer p a b s w o log = ground arith

  gone-Nearer :
      (p : Place) (a b s w f : ℕ) (log : List Event)
      → Nearer
          (left p (state s w f false false log))
          (weigh weak_refs (thread a b p))
          (act agrees p (thread a b p) (state s w f false false log))
  unfolding act in_object on_weak on_strong on_flags hook delete_object delete_impl mark_deleted
      vmodule_atomic_inc vmodule_atomic_dec vmodule_atomic_add vmodule_atomic_load
      vmodule_atomic_release_cas
  gone-Nearer idle a b s w f log = ground arith
  gone-Nearer p a b s w f log = ground arith

  act-Nearer :
      (p : Place) (a b s w f : ℕ) (o i : Bool) (log : List Event) (n : Class → ℕ)
      → Sound (state s w f o i log) n
      → Nearer
          (left p (state s w f o i log))
          (weigh weak_refs (thread a b p))
          (act agrees p (thread a b p) (state s w f o i log))
  act-Nearer p a b s w f o i log n (inl u) =
      rw (u.flags_eq, u.impl_eq) (used-Nearer p a b s w o log)
  act-Nearer p a b s w f o i log n (inr g) =
      rw (g.object_eq, g.impl_eq) (gone-Nearer p a b s w f log)

  -- Thread i takes n steps, and no other moves.
  unfoldable pub run_alone : ℕ → ℕ → Machine → Option Machine
  unfolding move
  run_alone zero i m = some m
  run_alone (suc n) i m = elim (move agrees (steps i) m) [
    | none ↦ none
    | some m' ↦ run_alone n i m'
  ]

  -- The call is over, and the state one that the threads can lead to.
  abbrev pub Finished : ℕ → Option Machine → Type 0
  Finished i none = ⊥
  Finished i (some m) =
      Reach agrees m × ((t : Thread) × (get_elem? m.threads i ≡ some t) × (t.at ≡ idle))

  none_left : (p : Place) (r : Refs) → left p r ≡ 0 → p ≡ idle
  none_left idle r e = refl
  none_left (fix_trying cur) r e = absurd (ground arith)
  none_left (first_trying cur) r e = absurd (ground arith)
  none_left (trying cur) r e = absurd (ground arith)
  none_left (weak_trying cur) r e = absurd (ground arith)
  none_left p r e = absurd (omega arith)

  moved :
      (i : ℕ) (m : Machine) (t : Thread) (o : Option (Thread × Refs))
      → get_elem? m.threads i ≡ some t
      → act agrees t.at t m.refs ≡ o
      → move agrees (steps i) m ≡ with_threads i m.threads o
  unfolding move
  moved i m t o e ea = rw (move, e, ea) refl

  get-replace :
      (i : ℕ) (ts : List Thread) (t u : Thread)
      → get_elem? ts i ≡ some t
      → get_elem? (replace i u ts) i ≡ some u
  get-replace i [] t u e = absurd (ground (arith, e))
  get-replace zero (v ∷ ts) t u e = refl
  get-replace (suc i) (v ∷ ts) t u e = get-replace i ts t u e

  run_alone-Finished :
      (n i : ℕ) (m : Machine) (t : Thread)
      → Reach agrees m
      → get_elem? m.threads i ≡ some t
      → left t.at m.refs ≤ n
      → total m.threads weak_refs + n + 2 < initial_strong_value
      → Finished i (run_alone n i m)
  unfolding run_alone
  run_alone-Finished zero i m t r e l few = (r, (t, e, none_left t.at m.refs (omega arith)))
  run_alone-Finished (suc n) i m t r e l few =
      let near = act-Nearer t.at t.strong t.weak _ _ _ _ _ _ _ (Reach-IsSound agrees r) in
      let next = moved i m t _ e refl in
      go (act agrees t.at t m.refs) next near (λ m' t' r'. run_alone-Finished n i m' t' r')
    where
      go :
          (o : Option (Thread × Refs))
          → move agrees (steps i) m ≡ with_threads i m.threads o
          → Nearer (left t.at m.refs) (weigh weak_refs t) o
          → ((m' : Machine) (t' : Thread)
              → Reach agrees m'
              → get_elem? m'.threads i ≡ some t'
              → left t'.at m'.refs ≤ n
              → total m'.threads weak_refs + n + 2 < initial_strong_value
              → Finished i (run_alone n i m'))
          → Finished i (run_alone (suc n) i m)
      go none em h again =
          let (m', e') = move_no_fault agrees r (omega arith) (steps i) in
          absurd (ground (arith, em, e'))
      go (some (t', r')) em (nearer, lighter) again =
          let w = total-get i m.threads t weak_refs e in
          let w' = total-replace i m.threads t t' weak_refs e in
          rw (Finished, run_alone, em)
            (again (record { refs = r'; threads = replace i t' m.threads }) t'
              (later (steps i) r (omega arith) em) (get-replace i m.threads t t' e) (omega arith)
              (omega arith))

  left_small : (p : Place) (r : Refs) → left p r ≤ 7
  left_small (fix_trying cur) r = ground arith
  left_small (first_trying cur) r = ground arith
  left_small (trying cur) r = ground arith
  left_small (weak_trying cur) r = ground arith
  left_small p r = omega arith

  -- From every state that threads sharing an object of normal lifetime can lead to, with room for
  -- some more references, a thread that runs while no other moves comes to the end of its call
  -- within seven steps and without a fault, wherever the others stopped in theirs: no thread waits
  -- for another.
  pub run_alone_ends :
      {m : Machine}
      → Reach agrees m
      → total m.threads weak_refs + 9 < initial_strong_value
      → (i : ℕ) (t : Thread) → get_elem? m.threads i ≡ some t
      → Finished i (run_alone 7 i m)
  run_alone_ends {m} r few i t e =
      run_alone-Finished 7 i m t r e (left_small t.at m.refs) (omega arith)
