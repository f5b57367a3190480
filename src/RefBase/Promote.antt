-- ===== src/RefBase/Promote.antt =====
-- weakref_type::attemptIncStrong and attemptIncWeak of sutils/RefBase.cpp. Their loops retry a
-- compare-and-swap. What other threads do to the counter is an argument of each loop: a list of
-- functions, of which each failed or successful attempt but the last is preceded by one; once the
-- list is used up, no other thread touches the counter, and the next attempt is the last.
use vmodule.Base.{
  ℕ, ◌+◌, ◌-◌, ◌%◌, ◌^◌, Bool, true, false, not, ◌&&◌, List, [], ◌∷◌, none, some, ◌==◌, leb, ltb,
  if◌then◌else◌,
}
use vmodule.Atomic.{
  word, positive, vmodule_atomic_inc, vmodule_atomic_load, vmodule_atomic_release_cas,
}
use vmodule.RefBase.{
  M, pure, ◌>>=◌, ◌>>◌, initial_strong_value, choose, on_strong, on_weak, on_flags, hook,
  last_strong_ref, inc_weak, dec_weak,
}

abbrev pub Others : Type 0
Others = List (ℕ → ℕ)

module _ (on : (ℕ → ℕ × ℕ) → M ℕ) (test : ℕ → Bool) (next : ℕ → ℕ) where
  -- The round that no other thread disturbs.
  undisturbed : M ℕ
  unfolding vmodule_atomic_load vmodule_atomic_release_cas
  undisturbed = do
    cur ← on vmodule_atomic_load
    choose (test cur) (on (vmodule_atomic_release_cas cur (next cur)) >> pure cur) (pure cur)

  -- while (test(cur)) { if (cmpxchg(cur, next(cur)) == 0) break; cur = *addr; }
  unfoldable pub cas_loop : Others → ℕ → M ℕ
  unfolding undisturbed vmodule_atomic_load vmodule_atomic_release_cas
  cas_loop [] cur = choose (test cur) attempt (pure cur)
    where
      attempt : M ℕ
      attempt = do
        failed ← on (vmodule_atomic_release_cas cur (next cur))
        choose (failed == 0) (pure cur) undisturbed
  cas_loop (other ∷ others) cur = choose (test cur) (attempt (cas_loop others)) (pure cur)
    where
      attempt : (ℕ → M ℕ) → M ℕ
      attempt again = do
        on (λ v. (v, other v))
        failed ← on (vmodule_atomic_release_cas cur (next cur))
        choose (failed == 0) (pure cur) (on vmodule_atomic_load >>= again)

-- The interference met by each of the three loops of attemptIncStrong.
pub record Interference : Type 0 where
  pub easy : Others
  pub first : Others
  pub fix_up : Others

abbrev pub quiet : Interference
quiet = record { easy = []; first = []; fix_up = [] }

-- The signed comparison curCount >= INITIAL_STRONG_VALUE.
abbrev pub not_fixed : ℕ → Bool
not_fixed c = leb initial_strong_value c && ltb c (2 ^ 31)

abbrev pub shared : ℕ → Bool
shared c = positive c && not (c == initial_strong_value)

abbrev pub next_count : ℕ → ℕ
next_count c = (c + 1) % word

fix_up : Others → M Bool
unfolding cas_loop on_strong vmodule_atomic_load
fix_up others = do
  cur ← on_strong vmodule_atomic_load
  cas_loop on_strong not_fixed (λ c. c - initial_strong_value) others cur
  pure true

give_up : M Bool
unfolding dec_weak
give_up = dec_weak >> pure false

-- The object holds a strong reference already: drop the hook's claim to one.
revived : Others → ℕ → M Bool
unfolding hook fix_up
revived others cur = do
  choose (positive cur && ltb cur initial_strong_value) (hook last_strong_ref) (pure tt)
  fix_up others

-- A virtual call needs the object.
call_object : M (Unit {0})
call_object r = if r.object_alive then some (tt, r) else none

-- `agrees` is the object's onIncStrongAttempted.
module _ (agrees : ℕ → Bool) (others : Interference) where
  -- There never was a strong reference, or all of them are gone.
  harder : ℕ → M Bool
  unfolding give_up revived call_object cas_loop on_strong on_flags vmodule_atomic_load
      vmodule_atomic_inc
  harder cur = do
    flags ← on_flags vmodule_atomic_load
    choose (flags % 2 == 0) (choose (positive cur) promoted give_up) (
        call_object
        >> choose (agrees 1) (on_strong vmodule_atomic_inc >>= revived others.fix_up) give_up)
    where
      promoted : M Bool
      promoted = do
        cur' ← cas_loop on_strong positive next_count others.first cur
        choose (positive cur') (revived others.fix_up cur') give_up

  unfoldable pub attempt_inc_strong : M Bool
  unfolding harder inc_weak on_strong cas_loop fix_up vmodule_atomic_load
  attempt_inc_strong = do
    inc_weak
    cur ← on_strong vmodule_atomic_load
    cur' ← cas_loop on_strong shared next_count others.easy cur
    choose (shared cur') (fix_up others.fix_up) (harder cur')

unfoldable pub attempt_inc_weak : Others → M Bool
unfolding on_weak cas_loop vmodule_atomic_load
attempt_inc_weak others = do
  cur ← on_weak vmodule_atomic_load
  cur' ← cas_loop on_weak positive next_count others cur
  pure (positive cur')
