-- ===== src/RefBase/Fallback.antt =====
-- attemptIncWeak of sutils/RefBase.cpp over either version of vmodule_atomic_cmpxchg, where no
-- other thread touches the count.
use vmodule.Base.{
  ℕ, zero, suc, ◌+◌, ◌^◌, ◌<◌, ◌≤◌, ◌≡◌, refl, ap, ◌∙◌, Bool, true, false, inl, inr, lt_or_ge, ◌==◌,
  if◌then◌else◌, arith,
}
use vmodule.Atomic.{positive, vmodule_atomic_release_cas}
use vmodule.Atomic.Fallback.{cmpxchg}

-- Where a call stands after some rounds of its loop: curCount + 1 has overflowed; it goes on, with
-- curCount and mWeak; or it has returned, with mWeak.
pub data Attempt : Type 0 where
  overflowed : Attempt
  retrying : (cur count : ℕ) → Attempt
  answered : Bool → (count : ℕ) → Attempt

abbrev pub after_cas : (ℕ → ℕ → Attempt) → ℕ × ℕ → Attempt
after_cas again (failed, count) =
    let next = again count count in if failed == 0 then answered true count else next

-- while (curCount > 0) { if (cmpxchg(curCount, curCount + 1, &mWeak) == 0) break; curCount = mWeak; }
unfoldable pub attempt_rounds : (cas : ℕ → ℕ → ℕ → ℕ × ℕ) (rounds : ℕ) (cur count : ℕ) → Attempt
attempt_rounds cas zero cur count = retrying cur count
attempt_rounds cas (suc rounds) cur count =
    let next = after_cas (attempt_rounds cas rounds) (cas cur (cur + 1) count) in
    if positive cur then (if cur + 1 == 2 ^ 31 then overflowed else next) else answered false count

module _ (w : ℕ) (some_weak : 0 < w) where
  -- A round of the fallback raises the count and is taken for a failure.
  round_raises :
      (rounds : ℕ)
      → w + 1 < 2 ^ 31
      → attempt_rounds cmpxchg (suc rounds) w w ≡ attempt_rounds cmpxchg rounds (w + 1) (w + 1)
  unfolding attempt_rounds cmpxchg
  round_raises rounds small =
      let more : positive w ≡ true = ground arith in
      let fits : (w + 1 == 2 ^ 31) ≡ false = ground arith in
      let same : (w == w) ≡ true = ground arith in rw (more, fits, same) refl

  round_overflows :
      (rounds : ℕ) → w + 1 ≡ 2 ^ 31 → attempt_rounds cmpxchg (suc rounds) w w ≡ overflowed
  unfolding attempt_rounds
  round_overflows rounds e =
      let more : positive w ≡ true = ground arith in
      let full : (w + 1 == 2 ^ 31) ≡ true = ground arith in rw (more, full) refl

  standard_round :
      (rounds : ℕ)
      → w + 1 < 2 ^ 31
      → attempt_rounds vmodule_atomic_release_cas (suc rounds) w w ≡ answered true (w + 1)
  unfolding attempt_rounds vmodule_atomic_release_cas
  standard_round rounds small =
      let more : positive w ≡ true = ground arith in
      let fits : (w + 1 == 2 ^ 31) ≡ false = ground arith in
      let same : (w == w) ≡ true = ground arith in rw (more, fits, same) refl

goes_on :
    (rounds w : ℕ)
    → 0 < w
    → w + rounds < 2 ^ 31
    → attempt_rounds cmpxchg rounds w w ≡ retrying (w + rounds) (w + rounds)
unfolding attempt_rounds
goes_on zero w some_weak small = let e : w + 0 ≡ w = omega arith in rw e refl
goes_on (suc rounds) w some_weak small =
    let e : (w + 1) + rounds ≡ w + suc rounds = omega arith in
    round_raises w some_weak rounds (omega arith)
    ∙ goes_on rounds (w + 1) (omega arith) (omega arith)
    ∙ ap (λ c. retrying c c) e

overflows_at_last :
    (rounds w : ℕ)
    → 0 < w
    → w < 2 ^ 31
    → 2 ^ 31 ≤ w + rounds
    → attempt_rounds cmpxchg rounds w w ≡ overflowed
overflows_at_last zero w some_weak small far = absurd (omega arith)
overflows_at_last (suc rounds) w some_weak small far = elim (lt_or_ge (w + 1) (2 ^ 31)) [
  | inl fits ↦
      round_raises w some_weak rounds fits
      ∙ overflows_at_last rounds (w + 1) (omega arith) fits (omega arith)
  | inr full ↦ round_overflows w some_weak rounds (omega arith)
]

-- For a weak count w from 1 to 2 ^ 31 - 2 that no other thread touches, attemptIncWeak returns true
-- in its first round with the standard atomics, with the count raised by one; with the fallback of
-- vmodule_atomic_cmpxchg it never returns: after any number of rounds that keeps the count below 2
-- ^ 31 it goes on, with the count raised in each of them, and after more its addition has
-- overflowed.
pub attempt_inc_weak-fallback :
    (w rounds : ℕ)
    → 0 < w
    → w + 1 < 2 ^ 31
    → (attempt_rounds vmodule_atomic_release_cas (suc rounds) w w ≡ answered true (w + 1))
      × (w + rounds < 2 ^ 31
          → attempt_rounds cmpxchg rounds w w ≡ retrying (w + rounds) (w + rounds))
      × (2 ^ 31 ≤ w + rounds → attempt_rounds cmpxchg rounds w w ≡ overflowed)
attempt_inc_weak-fallback w rounds some_weak small = (
  standard_round w some_weak rounds small,
  (λ h. goes_on rounds w some_weak h),
  (λ h. overflows_at_last rounds w some_weak (omega arith) h),
)
