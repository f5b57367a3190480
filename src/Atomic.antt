-- ===== src/Atomic.antt =====
-- include/sutils/Atomic.h: the atomic operations on a 32-bit counter. A counter is its bit pattern,
-- a number below 2 ^ 32; an operation takes the stored pattern to what it returns and what it
-- leaves behind. The memory orders are not modelled: every operation is one indivisible step.
pub mod Fallback
use Prim.Native.Nat.{bit_or}
use vmodule.Base.{ℕ, ◌+◌, ◌-◌, ◌%◌, ◌^◌, Bool, ◌&&◌, ◌==◌, ltb, if◌then◌else◌}

abbrev pub word : ℕ
word = 2 ^ 32

-- The pattern of an int32_t above zero.
abbrev pub positive : ℕ → Bool
positive c = ltb 0 c && ltb c (2 ^ 31)

unfoldable pub vmodule_atomic_inc : ℕ → ℕ × ℕ
vmodule_atomic_inc v = (v, (v + 1) % word)

unfoldable pub vmodule_atomic_dec : ℕ → ℕ × ℕ
vmodule_atomic_dec v = (v, (v + (word - 1)) % word)

unfoldable pub vmodule_atomic_add : ℕ → ℕ → ℕ × ℕ
vmodule_atomic_add value v = (v, (v + value) % word)

unfoldable pub vmodule_atomic_or : ℕ → ℕ → ℕ × ℕ
vmodule_atomic_or value v = (v, bit_or v value)

unfoldable pub vmodule_atomic_load : ℕ → ℕ × ℕ
vmodule_atomic_load v = (v, v)

-- 0 if the new value was stored, 1 if not.
unfoldable pub vmodule_atomic_release_cas : (oldvalue newvalue : ℕ) → ℕ → ℕ × ℕ
vmodule_atomic_release_cas oldvalue newvalue v = if v == oldvalue then (0, newvalue) else (1, v)
