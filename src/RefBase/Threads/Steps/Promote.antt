-- ===== src/RefBase/Threads/Steps/Promote.antt =====
-- The steps of attemptIncStrong.
use vmodule.Base.{
  ℕ, ◌≤◌, ◌≡◌, refl, Bool, true, false, inl, inr, arith, sym, Bool-cases, ◌==◌, ==_iff, ltb, ◌&&◌,
}
use vmodule.Atomic.{positive, vmodule_atomic_load, vmodule_atomic_release_cas}
use vmodule.RefBase.{on_strong, on_flags, hook, initial_strong_value}
use vmodule.RefBase.Promote.{not_fixed, shared}
use vmodule.RefBase.Threads.{
  loading, first_loading, telling_claim, fix_loading, trying, first_trying, fix_trying, act,
}
use vmodule.RefBase.Threads.Life.{living, fresh}
use vmodule.RefBase.Threads.Rules.{IsFine}
use vmodule.RefBase.Threads.Reading.{life_strong}
use vmodule.RefBase.Threads.Going.{same_weak, still_used, take_one}

module _ (agrees : ℕ → Bool) where
  pub loading-IsFine : IsFine agrees loading
  unfolding act on_strong vmodule_atomic_load
  loading-IsFine a b s w o log k kept few u =
      inl (still_used u refl (omega arith) (omega arith) w u.weak_eq (omega arith))

  pub first_loading-IsFine : IsFine agrees first_loading
  unfolding act on_strong vmodule_atomic_load
  first_loading-IsFine a b s w o log k kept few u =
      inl (still_used u refl (omega arith) (omega arith) w u.weak_eq (omega arith))

  pub telling_claim-IsFine : IsFine agrees telling_claim
  unfolding act hook
  telling_claim-IsFine a b s w o log k kept few u =
      let (eo, ey, r) = life_strong u (omega arith) in
      rw eo (inl (still_used u eo (omega arith) (omega arith) w u.weak_eq (omega arith)))

  pub fix_loading-IsFine : IsFine agrees fix_loading
  unfolding act on_strong vmodule_atomic_load
  fix_loading-IsFine a b s w o log k kept few u =
      let (eo, ey, r) = life_strong u (omega arith) in
      let ks = kept.by_weak in
      elim r [
        | inl (es, ed) ↦
            let n : not_fixed s ≡ true = ground arith in
            inl (
              same_weak u (omega arith) fresh (omega arith, eo, rw n (omega arith), omega arith)
                (omega arith) (omega arith) (omega arith) (omega arith) (omega arith))
        | inr es ↦
            let n : not_fixed s ≡ false = ground arith in
            inl (
              same_weak u (omega arith) living (omega arith, eo, omega arith, omega arith)
                (omega arith) (omega arith) (omega arith) (omega arith) (omega arith))
      ]

  pub trying-IsFine : (cur : ℕ) → IsFine agrees (trying cur)
  unfolding act on_strong on_flags vmodule_atomic_load vmodule_atomic_release_cas
  trying-IsFine cur a b s w o log k kept few u =
      let ks = kept.by_weak in
      let e = u.weak_eq in
      elim (Bool-cases (shared cur)) [
        | inl p ↦ elim (Bool-cases (s == cur)) [
          | inl c ↦
              let e = (==_iff s cur).0 c in
              let q : 1 ≤ s = ground arith in
              rw (p, c, sym e)
                (inl (
                  take_one u q (omega arith) (omega arith) few (omega arith) (omega arith)
                    (omega arith) (omega arith) (omega arith) (omega arith) (omega arith)
                    (omega arith)))
          | inr c ↦
              rw (p, c)
                (inl (still_used u refl (omega arith) (omega arith) w (omega arith) (omega arith)))
        ]
        | inr p ↦ elim (Bool-cases (positive cur)) [
          | inl q ↦
              rw (p, q)
                (inl (still_used u refl (omega arith) (omega arith) w (omega arith) (omega arith)))
          | inr q ↦
              rw (p, q)
                (inl (still_used u refl (omega arith) (omega arith) w (omega arith) (omega arith)))
        ]
      ]

  pub first_trying-IsFine : (cur : ℕ) → IsFine agrees (first_trying cur)
  unfolding act on_strong vmodule_atomic_release_cas
  first_trying-IsFine cur a b s w o log k kept few u =
      let ks = kept.by_weak in
      let e = u.weak_eq in
      elim (Bool-cases (positive cur)) [
        | inl p ↦ elim (Bool-cases (s == cur)) [
          | inl c ↦
              let e = (==_iff s cur).0 c in
              let q : 1 ≤ s = ground arith in
              elim (Bool-cases (positive cur && ltb cur initial_strong_value)) [
                | inl l ↦
                    rw (l, p, c, sym e)
                      (inl (
                        take_one u q (omega arith) (omega arith) few (omega arith) (omega arith)
                          (omega arith) (omega arith) (omega arith) (omega arith) (omega arith)
                          (omega arith)))
                | inr l ↦
                    rw (l, p, c, sym e)
                      (inl (
                        take_one u q (omega arith) (omega arith) few (omega arith) (omega arith)
                          (omega arith) (omega arith) (omega arith) (omega arith) (omega arith)
                          (omega arith)))
              ]
          | inr c ↦
              rw (p, c)
                (inl (still_used u refl (omega arith) (omega arith) w (omega arith) (omega arith)))
        ]
        | inr p ↦
            rw p (inl (still_used u refl (omega arith) (omega arith) w (omega arith) (omega arith)))
      ]

  -- The fix-up: INITIAL_STRONG_VALUE is taken off by one thread, and others see that it is.
  pub fix_trying-IsFine : (cur : ℕ) → IsFine agrees (fix_trying cur)
  unfolding act on_strong vmodule_atomic_release_cas
  fix_trying-IsFine cur a b s w o log k kept few u =
      let ks = kept.by_weak in
      let ew = u.weak_eq in
      let (eo, ey, r) = life_strong u (omega arith) in
      elim (Bool-cases (not_fixed cur)) [
        | inl p ↦ elim (Bool-cases (s == cur)) [
          | inl c ↦
              let e = (==_iff s cur).0 c in
              let big : initial_strong_value ≤ s = ground arith in
              rw (p, c, sym e)
                (inl (
                  same_weak u (omega arith) living (omega arith, eo, omega arith, omega arith)
                    (omega arith) (omega arith) (omega arith) (omega arith) (omega arith)))
          | inr c ↦
              rw (p, c)
                (inl (
                  still_used u refl (omega arith) (omega arith) w (omega arith)
                    (rw p (omega arith))))
        ]
        | inr p ↦ rw p (
            inl
              (still_used u refl (omega arith) (omega arith) w (omega arith) (rw p (omega arith))))
      ]
