-- ===== src/Atomic/Fallback.antt =====
-- include/sutils/Atomic.h where no standard atomics are at hand: the operations under a
-- mutex, which makes each of them one step. `none` where the addition of two int32_t overflows,
-- which is undefined.
use Prim.Native.Nat.{bit_or}
use vmodule.Base.{
  ℕ, ◌+◌, ◌-◌, ◌%◌, ◌^◌, Bool, not, ◌&&◌, ◌||◌, Option, none, some, ◌==◌, leb, if◌then◌else◌,
}
use vmodule.Atomic.{word}

unfoldable pub cmpxchg : (oldvalue newvalue : ℕ) → ℕ → ℕ × ℕ
cmpxchg oldvalue newvalue v = if oldvalue == v then (1, newvalue) else (0, v)

abbrev pub is_negative : ℕ → Bool
is_negative v = leb (2 ^ 31) v

-- Two values of the same sign have a sum of the other one.
abbrev pub overflows : ℕ → ℕ → Bool
overflows value v =
    let sum = (v + value) % word in
    (is_negative value && is_negative v && not (is_negative sum))
    || (not (is_negative value) && not (is_negative v) && is_negative sum)

unfoldable pub add : ℕ → ℕ → Option (ℕ × ℕ)
add value v = let sum = (v + value) % word in if overflows value v then none else some (sum, sum)

unfoldable pub or : ℕ → ℕ → ℕ × ℕ
or value v = (v, bit_or v value)

unfoldable pub inc : ℕ → Option (ℕ × ℕ)
inc v = if v == 2 ^ 31 - 1 then none else some (v, (v + 1) % word)

unfoldable pub dec : ℕ → Option (ℕ × ℕ)
dec v = if v == 2 ^ 31 then none else some (v, (v + (word - 1)) % word)
