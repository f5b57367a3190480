-- ===== src/RefBase/Threads.antt =====
-- sutils/RefBase.cpp with several threads at one object. A call is cut where it touches shared
-- memory: a program counter says which atomic operation on mStrong or mWeak, callback or deletion
-- comes next, and the tests on what was read belong to the step that needs their answer. A deletion
-- of the object is one step with what its destructor reads and deletes: no other thread has a
-- reference then. Steps of different threads come in any order. mFlags is read, never written.
pub mod Machine
pub mod Counts
pub mod Life
pub mod Rules
pub mod Reading
pub mod Going
pub mod Steps
pub mod Handing
pub mod Acting
pub mod Safe
pub mod Held
pub mod Alone
use vmodule.Base.{
  ◌≡◌, ◌⊎◌, ℕ, zero, suc, ◌+◌, ◌-◌, ◌%◌, Bool, true, false, not, ◌&&◌, Option, none, some, List, [],
  ◌∷◌, ◌==◌, ltb, if◌then◌else◌, get_elem?,
}
use vmodule.Atomic.{
  word, positive, vmodule_atomic_inc, vmodule_atomic_dec, vmodule_atomic_add, vmodule_atomic_load,
  vmodule_atomic_release_cas,
}
use vmodule.RefBase.{
  Refs, M, pure, ◌>>=◌, ◌>>◌, choose, initial_strong_value, on_strong, on_weak, on_flags, hook,
  first_ref, last_strong_ref, last_weak_ref, delete_object, delete_impl, new_ref_base, inc_strong,
  inc_weak,
}
use vmodule.RefBase.Promote.{not_fixed, shared, next_count}

-- Where a thread stands: outside every call; in incStrong; in decStrong; in decWeak; in createWeak
-- and incWeak; in attemptIncStrong; in attemptIncWeak. A loop's counter carries curCount.
pub data Place : Type 0 where
  idle : Place
  raising_weak raising_strong fixing telling_first : Place
  dropping telling_last deleting : Place
  dropping_weak last_weak_gone freeing_object freeing_impl : Place
  creating_weak adding_weak : Place
  attempting loading first_loading taking telling_claim fix_loading : Place
  trying first_trying fix_trying : ℕ → Place
  weak_loading : Place
  weak_trying : ℕ → Place

-- The references that a thread has at hand. One that a call goes through stays with the call until
-- it returns.
pub record Thread : Type 0 where
  pub strong : ℕ
  pub weak : ℕ
  pub at : Place

abbrev pub goes : Place → Thread → Thread
goes p t = record t { at = p }

-- A call returns, and leaves the thread so many references more.
abbrev pub completes : (strong weak : ℕ) → Thread → Thread
completes s w t = record { strong = t.strong + s; weak = t.weak + w; at = idle }

-- attemptIncStrong fails: its own weak reference is given back by decWeak.
abbrev pub gives_up : Thread → Thread
gives_up t = record { strong = t.strong; weak = t.weak + 1; at = dropping_weak }

-- mRefs is read in the object.
unfoldable pub in_object : M (Unit {0})
in_object r = if r.object_alive then some (tt, r) else none

-- What follows a read: curCount is below INITIAL_STRONG_VALUE, but not null.
abbrev pub claimed : ℕ → Place
claimed cur = if positive cur && ltb cur initial_strong_value then telling_claim else fix_loading

-- The next step of a thread. `agrees` is the object's onIncStrongAttempted.
module _ (agrees : ℕ → Bool) where
  unfoldable pub act : Place → Thread → M Thread
  unfolding in_object on_strong on_weak on_flags hook vmodule_atomic_inc vmodule_atomic_dec
      vmodule_atomic_add vmodule_atomic_load vmodule_atomic_release_cas
  act idle t = pure t
  act raising_weak t = do in_object; on_weak vmodule_atomic_inc; pure (goes raising_strong t)
  act raising_strong t = do
    c ← on_strong vmodule_atomic_inc
    pure (if c == initial_strong_value then goes fixing t else completes 2 0 t)
  act fixing t = do
    on_strong (vmodule_atomic_add (word - initial_strong_value))
    pure (goes telling_first t)
  act telling_first t = do hook first_ref; pure (completes 2 0 t)
  act dropping t = do
    in_object
    c ← on_strong vmodule_atomic_dec
    pure (goes (if c == 1 then telling_last else dropping_weak) t)
  act telling_last t = do
    hook last_strong_ref
    flags ← on_flags vmodule_atomic_load
    pure (goes (if flags % 2 == 0 then deleting else dropping_weak) t)
  act deleting t = do delete_object; pure (goes dropping_weak t)
  act dropping_weak t = do
    c ← on_weak vmodule_atomic_dec
    pure (goes (if c == 1 then last_weak_gone else idle) t)
  act last_weak_gone t = do
    flags ← on_flags vmodule_atomic_load
    strong ← on_strong vmodule_atomic_load
    choose (flags % 2 == 0)
        (pure (goes (if strong == initial_strong_value then freeing_object else freeing_impl) t))
        (hook last_weak_ref >> pure (goes (if flags % 2 == 1 then freeing_object else idle) t))
  act freeing_object t = do delete_object; pure (goes idle t)
  act freeing_impl t = do delete_impl; pure (goes idle t)
  act creating_weak t = do in_object; on_weak vmodule_atomic_inc; pure (completes 1 1 t)
  act adding_weak t = do on_weak vmodule_atomic_inc; pure (completes 0 2 t)
  act attempting t = do on_weak vmodule_atomic_inc; pure (goes loading t)
  act loading t = do cur ← on_strong vmodule_atomic_load; pure (goes (trying cur) t)
  act (trying cur) t = choose (shared cur) attempt only_weak
    where
      attempt : M Thread
      attempt = do
        failed ← on_strong (vmodule_atomic_release_cas cur (next_count cur))
        pure (goes (if failed == 0 then fix_loading else loading) t)

      only_weak : M Thread
      only_weak = do
        flags ← on_flags vmodule_atomic_load
        choose (flags % 2 == 0)
            (pure (if positive cur then goes (first_trying cur) t else gives_up t))
            (in_object >> pure (if agrees 1 then goes taking t else gives_up t))
  act first_loading t = do cur ← on_strong vmodule_atomic_load; pure (goes (first_trying cur) t)
  act (first_trying cur) t = choose (positive cur) attempt (pure (gives_up t))
    where
      attempt : M Thread
      attempt = do
        failed ← on_strong (vmodule_atomic_release_cas cur (next_count cur))
        pure (goes (if failed == 0 then claimed cur else first_loading) t)
  act taking t = do cur ← on_strong vmodule_atomic_inc; pure (goes (claimed cur) t)
  act telling_claim t = do hook last_strong_ref; pure (goes fix_loading t)
  act fix_loading t = do cur ← on_strong vmodule_atomic_load; pure (goes (fix_trying cur) t)
  act (fix_trying cur) t = choose (not_fixed cur) attempt (pure (completes 1 1 t))
    where
      attempt : M Thread
      attempt = do
        failed ← on_strong (vmodule_atomic_release_cas cur (cur - initial_strong_value))
        pure (if failed == 0 then completes 1 1 t else goes fix_loading t)
  act weak_loading t = do cur ← on_weak vmodule_atomic_load; pure (goes (weak_trying cur) t)
  act (weak_trying cur) t = choose (positive cur) attempt (pure (completes 0 1 t))
    where
      attempt : M Thread
      attempt = do
        failed ← on_weak (vmodule_atomic_release_cas cur (next_count cur))
        pure (if failed == 0 then completes 0 2 t else goes weak_loading t)
