-- ===== src/RefBase/Threads/Safe.antt =====
-- Threads that share one object of normal lifetime, in every order of their steps.
use vmodule.Base.{
  ℕ, zero, suc, ◌≡◌, refl, sym, subst, ap, Bool, true, inl, inr, Option, none, some, [], ◌∷◌, arith,
  get_elem?, Option-cases,
}
use mathlib.Core.Path.{fun_ext}
use vmodule.Atomic.{vmodule_atomic_inc, vmodule_atomic_add}
use vmodule.RefBase.{
  Refs, initial_strong_value, inc_strong, inc_weak, on_weak, on_strong, fix_first, hook,
  new_ref_base, first_ref,
}
use vmodule.RefBase.Threads.{idle, Thread, act}
use vmodule.RefBase.Threads.Machine.{
  Machine, Move, makes, steps, gives_strong, gives_weak, move, Begins, strangers, with_threads,
}
use vmodule.RefBase.Threads.Counts.{
  Class, weak_refs, strong_refs, settled, dying, looking, last_object, last_impl, odd, total, rest,
  total-get, total-replace, rest-Kept,
}
use vmodule.RefBase.Threads.Life.{fresh, living, used, Sound, IsFew}
use vmodule.RefBase.Threads.Rules.{Fine, thread, joined, state}
use vmodule.RefBase.Threads.Handing.{
  IsSound, makes-IsSound, gives_strong-IsSound, gives_weak-IsSound,
}
use vmodule.RefBase.Threads.Acting.{act-IsSafe}

-- The states that the threads can lead to, in any order of their moves, as long as there are fewer
-- references than INITIAL_STRONG_VALUE at once.
pub data Reach (agrees : ℕ → Bool) : Machine → Type 0 where
  begin : {m : Machine} → Begins m → Reach agrees m
  later :
      {m m' : Machine} (next : Move)
      → Reach agrees m
      → IsFew (total m.threads)
      → move agrees next m ≡ some m'
      → Reach agrees m'

total-strangers : (n : ℕ) (c : Class) → total (strangers n) c ≡ 0
total-strangers zero c = refl
total-strangers (suc n) strong_refs = let e = total-strangers n strong_refs in omega arith
total-strangers (suc n) c = let e = total-strangers n c in omega arith

abbrev made_strong : Refs
made_strong = state 1 1 0 true true (first_ref ∷ [])

abbrev made_weak : Refs
made_weak = state initial_strong_value 1 0 true true []

Begins-IsSound : (m : Machine) → Begins m → IsSound m
unfolding inc_strong inc_weak on_weak on_strong vmodule_atomic_inc vmodule_atomic_add fix_first hook
    new_ref_base
Begins-IsSound m (n, inl (e, et)) =
    let er : made_strong ≡ m.refs = ap (λ o. elim o [ none ↦ m.refs | some x ↦ x.1 ]) e in
    let z = total-strangers n in
    subst (λ ts. Sound m.refs (total ts)) (sym et)
      (subst (λ r. Sound r (total (thread 1 0 idle ∷ strangers n))) er
        (inl (record {
          life = living;
          stage = used;
          strong_eq = (omega (arith, z strong_refs), refl, omega arith, omega (arith, z dying));
          stage_eq = (
            omega arith,
            omega (arith, z looking),
            omega (arith, z last_object),
            omega (arith, z last_impl),
          );
          agree = tt;
          weak_eq = omega (arith, z weak_refs);
          flags_eq = refl;
          impl_eq = refl;
          odd_eq = omega (arith, z odd);
        })))
Begins-IsSound m (n, inr (e, et)) =
    let er : made_weak ≡ m.refs = ap (λ o. elim o [ none ↦ m.refs | some x ↦ x.1 ]) e in
    let z = total-strangers n in
    subst (λ ts. Sound m.refs (total ts)) (sym et)
      (subst (λ r. Sound r (total (thread 0 1 idle ∷ strangers n))) er
        (inl (record {
          life = fresh;
          stage = used;
          strong_eq = (
            omega (arith, z strong_refs),
            refl,
            omega (arith, z settled),
            omega (arith, z dying),
          );
          stage_eq = (
            omega arith,
            omega (arith, z looking),
            omega (arith, z last_object),
            omega (arith, z last_impl),
          );
          agree = tt;
          weak_eq = omega (arith, z weak_refs);
          flags_eq = refl;
          impl_eq = refl;
          odd_eq = omega (arith, z odd);
        })))

module _ (agrees : ℕ → Bool) where
  -- A move is no fault, and what it leaves is sound.
  abbrev pub SoundAfter : Option Machine → Type 0
  SoundAfter none = ⊥
  SoundAfter (some m) = IsSound m

  steps-SoundAfter :
      (i : ℕ) (m : Machine) (t : Thread)
      → get_elem? m.threads i ≡ some t
      → (o : Option (Thread × Refs)) → Fine (rest i m.threads) o
      → SoundAfter (with_threads i m.threads o)
  steps-SoundAfter i m t e none h = absurd h
  steps-SoundAfter i m t e (some (u, r)) h =
      subst (Sound r) (fun_ext (λ c. sym (total-replace i m.threads t u c e))) h

  pub move-SoundAfter :
      (next : Move) (m : Machine)
      → IsFew (total m.threads)
      → IsSound m
      → SoundAfter (move agrees next m)
  unfolding move
  move-SoundAfter (makes i call) m few h = makes-IsSound i call m h
  move-SoundAfter (gives_strong i j) m few h = gives_strong-IsSound i j m h
  move-SoundAfter (gives_weak i j) m few h = gives_weak-IsSound i j m h
  move-SoundAfter (steps i) m few h = elim (Option-cases (get_elem? m.threads i)) [
    | inl e ↦ rw (SoundAfter, e) h
    | inr (t, e) ↦ rw (SoundAfter, e) (steps-SoundAfter i m t e _ (after t e))
  ]
    where
      after :
          (t : Thread)
          → get_elem? m.threads i ≡ some t
          → Fine (rest i m.threads) (act agrees t.at t m.refs)
      after t e =
          let n : total m.threads ≡ joined t (rest i m.threads) =
            fun_ext (λ c. total-get i m.threads t c e) in
          act-IsSafe agrees t.at t.strong t.weak _ _ _ _ _ _ _ (rest-Kept i m.threads)
            (subst IsFew n few) (subst (Sound m.refs) n h)

  pub Reach-IsSound : {m : Machine} → Reach agrees m → IsSound m
  Reach-IsSound {m} (begin b) = Begins-IsSound m b
  Reach-IsSound (later {m} next r few e) =
      subst SoundAfter e (move-SoundAfter next m few (Reach-IsSound r))
