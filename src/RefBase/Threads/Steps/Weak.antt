-- ===== src/RefBase/Threads/Steps/Weak.antt =====
-- The steps that change mWeak.
use vmodule.Base.{ℕ, ◌+◌, ◌%◌, ◌≢◌, refl, Bool, inl, inr, arith, Bool-cases, ◌==◌, ==_iff}
use vmodule.Atomic.{
  word, positive, vmodule_atomic_inc, vmodule_atomic_dec, vmodule_atomic_load,
  vmodule_atomic_release_cas,
}
use vmodule.RefBase.{on_weak}
use vmodule.RefBase.Threads.{
  raising_weak, dropping_weak, creating_weak, adding_weak, attempting, weak_loading, weak_trying,
  act, in_object,
}
use vmodule.RefBase.Threads.Life.{unused}
use vmodule.RefBase.Threads.Rules.{IsFine}
use vmodule.RefBase.Threads.Reading.{stage_used, life_settled}
use vmodule.RefBase.Threads.Going.{same_life, still_used}

module _ (agrees : ℕ → Bool) where
  pub adding_weak-IsFine : IsFine agrees adding_weak
  unfolding act on_weak vmodule_atomic_inc
  adding_weak-IsFine a b s w o log k kept few u =
      let e = u.weak_eq in
      inl
        (still_used u refl (omega arith) (omega arith) ((w + 1) % word) (omega arith) (omega arith))

  pub attempting-IsFine : IsFine agrees attempting
  unfolding act on_weak vmodule_atomic_inc
  attempting-IsFine a b s w o log k kept few u =
      let e = u.weak_eq in
      inl
        (still_used u refl (omega arith) (omega arith) ((w + 1) % word) (omega arith) (omega arith))

  pub creating_weak-IsFine : IsFine agrees creating_weak
  unfolding act in_object on_weak vmodule_atomic_inc
  creating_weak-IsFine a b s w o log k kept few u =
      let e = u.weak_eq in
      let (es, eo, el, ey) = life_settled u (omega arith) in
      rw eo (
        inl (
          still_used u eo (omega arith) (omega arith) ((w + 1) % word) (omega arith) (omega arith)))

  pub raising_weak-IsFine : IsFine agrees raising_weak
  unfolding act in_object on_weak vmodule_atomic_inc
  raising_weak-IsFine a b s w o log k kept few u =
      let e = u.weak_eq in
      let (es, eo, el, ey) = life_settled u (omega arith) in
      rw eo (
        inl (
          still_used u eo (omega arith) (omega arith) ((w + 1) % word) (omega arith) (omega arith)))

  -- decWeak: the thread that takes the count from one to zero is alone.
  pub dropping_weak-IsFine : IsFine agrees dropping_weak
  unfolding act on_weak vmodule_atomic_dec
  dropping_weak-IsFine a b s w o log k kept few u =
      let e = u.weak_eq in
      let (x, y, z) = stage_used u (omega arith) in
      elim (Bool-cases (w == 1)) [
        | inl c ↦
            let one = (==_iff w 1).0 c in
            rw c (
              inl (
                same_life u refl unused tt _ (omega arith) (omega arith) (omega arith) (omega arith)
                  (omega arith) (omega arith)))
        | inr c ↦
            let n : w ≢ 1 = ground arith in
            rw c (inl (still_used u refl (omega arith) (omega arith) _ (omega arith) (omega arith)))
      ]

  pub weak_loading-IsFine : IsFine agrees weak_loading
  unfolding act on_weak vmodule_atomic_load
  weak_loading-IsFine a b s w o log k kept few u =
      let e = u.weak_eq in
      inl (still_used u refl (omega arith) (omega arith) w (omega arith) (omega arith))

  pub weak_trying-IsFine : (cur : ℕ) → IsFine agrees (weak_trying cur)
  unfolding act on_weak vmodule_atomic_release_cas
  weak_trying-IsFine cur a b s w o log k kept few u =
      let e = u.weak_eq in
      elim (Bool-cases (positive cur)) [
        | inl p ↦ elim (Bool-cases (w == cur)) [
          | inl c ↦
              let e' = (==_iff w cur).0 c in
              rw (p, c)
                (inl (still_used u refl (omega arith) (omega arith) _ (omega arith) (omega arith)))
          | inr c ↦
              rw (p, c)
                (inl (still_used u refl (omega arith) (omega arith) w (omega arith) (omega arith)))
        ]
        | inr p ↦
            rw p (inl (still_used u refl (omega arith) (omega arith) w (omega arith) (omega arith)))
      ]
