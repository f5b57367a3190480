-- ===== src/Tests/Others.antt =====
-- Times, buffers and the fallback of the atomic operations.
use vmodule.Base.{
  ℕ, suc, ◌+◌, ◌*◌, ◌≡◌, refl, Bool, true, false, Option, none, some, arith, ◌==◌, if◌then◌else◌,
  inr, ap, ◌^◌, ◌<◌, ◌≤◌, pos, negsuc,
}
use vmodule.Atomic.{vmodule_atomic_release_cas}
use vmodule.Atomic.Fallback.{cmpxchg, add}
use vmodule.RefBase.Fallback.{
  overflowed, retrying, answered, attempt_rounds, attempt_inc_weak-fallback,
}
use vmodule.Timers.{
  to_millisecond_timeout_delay, system_maketime, IsAnswer, later_by, february, days_of_years,
  days_before, to_millisecond_timeout_delay-IsAnswer, system_maketime-calendar,
}
use vmodule.AutoBuffer.{
  Allocator, Buffer, allocate, IsSettled, IsStandard, is_at, allocate-IsSettled,
}

attempt_inc_weak-fallback_example :
    (attempt_rounds vmodule_atomic_release_cas 4 2 2 ≡ answered true 3)
    × (5 < 2 ^ 31 → attempt_rounds cmpxchg 3 2 2 ≡ retrying 5 5)
    × (2 ^ 31 ≤ 5 → attempt_rounds cmpxchg 3 2 2 ≡ overflowed)
attempt_inc_weak-fallback_example = attempt_inc_weak-fallback 2 3 (omega arith) (omega arith)

-- INT_MAX and 1 overflow, and -1 and 1 do not.
add_runs : (add 1 2147483647 ≡ none) × (add 1 4294967295 ≡ some (0, 0))
unfolding add
add_runs = (refl, refl)

-- From a time before the epoch to one after it.
to_millisecond_timeout_delay-IsAnswer_example :
    IsAnswer 3 (to_millisecond_timeout_delay (negsuc 1) (later_by 3 (negsuc 1)))
    × (to_millisecond_timeout_delay (later_by 2 (negsuc 1)) (negsuc 1) ≡ some (pos 0))
to_millisecond_timeout_delay-IsAnswer_example = to_millisecond_timeout_delay-IsAnswer (negsuc 1) 3 2

-- A deadline of INT_MAX milliseconds is within the documented range.
delay_runs :
    (to_millisecond_timeout_delay (negsuc 999999) (pos 500000) ≡ some (pos 2))
    × (to_millisecond_timeout_delay (pos 0) (pos 2147483647000000) ≡ some (negsuc 0))
    × (to_millisecond_timeout_delay (negsuc 0) (pos 9223372036854775807) ≡ none)
unfolding to_millisecond_timeout_delay
delay_runs = (refl, refl, refl)

system_maketime-calendar_example :
    system_maketime 2000 2 29 23 59 58
    ≡ (((days_of_years 30 + days_before 2000 february + 28) * 24 + 23) * 60 + 59) * 60 + 58
system_maketime-calendar_example =
    system_maketime-calendar 30 february 29 23 59 58 (omega arith) (omega arith) (omega arith)
      (omega arith) (omega arith) (omega arith)

-- A heap that hands out one address after the other.
abbrev Heap : Type 0
Heap = ℕ × (ℕ → Bool)

abbrev at : Option ℕ → ℕ → Bool
at none x = false
at (some a) x = a == x

abbrev counting : Allocator Heap
counting = record {
  live = λ h x. h.1 x;
  malloc = λ n h. (some h.0, (suc h.0, λ x. if h.0 == x then true else h.1 x));
  realloc = λ p n h.
      (some h.0, (suc h.0, λ x. if h.0 == x then true else if at p x then false else h.1 x));
  free = λ p h. (h.0, λ x. if at p x then false else h.1 x);
}

same_at : (p : Option ℕ) (x : ℕ) → at p x ≡ is_at counting p x
same_at none x = refl
same_at (some a) x = refl

counting-IsStandard : IsStandard counting
counting-IsStandard = (
  (λ p h x. ap (λ b. if b then false else h.1 x) (same_at p x)),
  (λ n h x. refl),
  (λ p n h x. ap (λ b. if h.0 == x then true else if b then false else h.1 x) (same_at p x)),
)

abbrev buffer : Buffer
buffer = record { p = some 2; s = 8 }

abbrev heap : Heap
heap = (5, λ x. x == 2)

allocate-IsSettled_example : IsSettled counting buffer heap 16 (allocate counting 16 buffer heap)
allocate-IsSettled_example =
    allocate-IsSettled counting counting-IsStandard 16 buffer heap
      (inr (2, refl, refl, omega arith))
