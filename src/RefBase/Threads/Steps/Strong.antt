-- ===== src/RefBase/Threads/Steps/Strong.antt =====
-- The steps of incStrong, decStrong and decWeak that change mStrong or delete.
use vmodule.Base.{ℕ, ◌≡◌, ◌≢◌, refl, Bool, true, false, inl, inr, arith, Bool-cases, ◌==◌, ==_iff}
use vmodule.Atomic.{vmodule_atomic_inc, vmodule_atomic_dec, vmodule_atomic_load}
use vmodule.RefBase.{
  on_weak, on_strong, on_flags, hook, delete_object, delete_impl, mark_deleted,
  initial_strong_value,
}
use vmodule.RefBase.Threads.{
  raising_strong, dropping, telling_last, deleting, last_weak_gone, freeing_object, freeing_impl,
  act, in_object,
}
use vmodule.RefBase.Threads.Life.{object_next, impl_next, living, ending, lapsed, fresh}
use vmodule.RefBase.Threads.Rules.{IsFine}
use vmodule.RefBase.Threads.Reading.{
  life_settled, life_dying, stage_unused, stage_object, stage_impl, life_unheld,
}
use vmodule.RefBase.Threads.Going.{same_weak, still_used}

module _ (agrees : ℕ → Bool) where
  pub raising_strong-IsFine : IsFine agrees raising_strong
  unfolding act on_strong vmodule_atomic_inc
  raising_strong-IsFine a b s w o log k kept few u =
      let (es, eo, el, ey) = life_settled u (omega arith) in
      let ks = kept.by_weak in
      let n : (s == initial_strong_value) ≡ false = ground arith in
      rw (n, eo)
        (inl (
          same_weak u (omega arith) living (omega arith, refl, omega arith, omega arith)
            (omega arith) (omega arith) (omega arith) (omega arith) (omega arith)))

  pub dropping-IsFine : IsFine agrees dropping
  unfolding act in_object on_strong vmodule_atomic_dec
  dropping-IsFine a b s w o log k kept few u =
      let (es, eo, el, ey) = life_settled u (omega arith) in
      let ks = kept.by_weak in
      let ds = kept.by_strong in
      elim (Bool-cases (s == 1)) [
        | inl c ↦
            let one = (==_iff s 1).0 c in
            rw (eo, c)
              (inl (
                same_weak u (omega arith) ending
                  (omega arith, refl, omega arith, omega arith, omega arith) (omega arith)
                  (omega arith) (omega arith) (omega arith) (omega arith)))
        | inr c ↦
            let n : s ≢ 1 = ground arith in
            rw (eo, c)
              (inl (
                same_weak u (omega arith) living (omega arith, refl, omega arith, omega arith)
                  (omega arith) (omega arith) (omega arith) (omega arith) (omega arith)))
      ]

  pub telling_last-IsFine : IsFine agrees telling_last
  unfolding act hook on_flags vmodule_atomic_load
  telling_last-IsFine a b s w o log k kept few u =
      let (es, eo, el, ed, ey) = life_dying u (omega arith) in
      rw eo (inl (still_used u eo (omega arith) (omega arith) w u.weak_eq (omega arith)))

  pub deleting-IsFine : IsFine agrees deleting
  unfolding act delete_object mark_deleted on_strong on_flags on_weak vmodule_atomic_load
      delete_impl
  deleting-IsFine a b s w o log k kept few u =
      let (es, eo, el, ed, ey) = life_dying u (omega arith) in
      let n : (s == initial_strong_value) ≡ false = ground arith in
      rw (eo, n)
        (inl (
          same_weak u (omega arith) lapsed
            (omega arith, refl, omega arith, omega arith, omega arith) (omega arith) (omega arith)
            (omega arith) (omega arith) (omega arith)))

  -- Only an object that never had a strong reference, or has been deleted, is without references.
  pub last_weak_gone-IsFine : IsFine agrees last_weak_gone
  unfolding act on_strong on_flags vmodule_atomic_load
  last_weak_gone-IsFine a b s w o log k kept few u =
      let ks = kept.by_weak in
      let ds = kept.by_strong in
      let st = stage_unused u (omega arith) in
      let e = u.weak_eq in
      let y = u.odd_eq in
      elim (life_unheld u (omega arith) (omega arith)) [
        | inl (es, eo) ↦
            let n : (s == initial_strong_value) ≡ true = ground arith in
            rw n (
              inl (record {
                life = fresh;
                stage = object_next;
                strong_eq = (omega arith, eo, omega arith, omega arith);
                stage_eq = omega arith;
                agree = tt;
                weak_eq = omega arith;
                flags_eq = refl;
                impl_eq = refl;
                odd_eq = omega arith;
              }))
        | inr (es, eo) ↦
            let n : (s == initial_strong_value) ≡ false = ground arith in
            rw n (
              inl (record {
                life = lapsed;
                stage = impl_next;
                strong_eq = (omega arith, eo, omega arith, omega arith, omega arith);
                stage_eq = omega arith;
                agree = tt;
                weak_eq = omega arith;
                flags_eq = refl;
                impl_eq = refl;
                odd_eq = omega arith;
              }))
      ]

  pub freeing_object-IsFine : IsFine agrees freeing_object
  unfolding act delete_object mark_deleted on_strong on_flags on_weak vmodule_atomic_load
      delete_impl
  freeing_object-IsFine a b s w o log k kept few u =
      let ks = kept.by_weak in
      let (ew, x, y, z, es, eo) = stage_object u (omega arith) in
      let q = u.odd_eq in
      let n : (s == initial_strong_value) ≡ true = ground arith in
      rw (eo, n)
        (inr (record {
          object_eq = refl;
          impl_eq = refl;
          no_weak = omega arith;
          no_looking = omega arith;
          no_object = omega arith;
          no_impl = omega arith;
          no_odd = omega arith;
        }))

  pub freeing_impl-IsFine : IsFine agrees freeing_impl
  unfolding act delete_impl
  freeing_impl-IsFine a b s w o log k kept few u =
      let (ew, x, y, z, eo) = stage_impl u (omega arith) in
      let q = u.odd_eq in
      inr (record {
        object_eq = eo;
        impl_eq = refl;
        no_weak = omega arith;
        no_looking = omega arith;
        no_object = omega arith;
        no_impl = omega arith;
        no_odd = omega arith;
      })
