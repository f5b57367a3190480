-- ===== src/Tests/Arrays.antt =====
-- Arrays of two objects with every constructor and destructor of their own.
use vmodule.Base.{
  true, ltb, negsuc, ℕ, zero, suc, ◌<◌, ◌≡◌, inl, inr, refl, false, none, some, arith, ◌==◌,
  if◌then◌else◌,
}
use vmodule.TypeHelpers.{
  compare_type, hash_int64, KeyValuePair, key_value_less, Traits, Cells, move_forward_type,
  move_backward_type, copy_type, splat_type, construct_type,
}
use vmodule.TypeHelpers.Moves.{Movable}
use vmodule.TypeHelpers.Relocation.{Relocated, move_type-Relocated}
use vmodule.TypeHelpers.Copies.{Full, Vacant, Restored, then_destroyed}
use vmodule.TypeHelpers.Restored.{destroy_type-construct_type}

abbrev own : Traits
own = record {
  is_pointer = false;
  trivial_ctor = false;
  trivial_dtor = false;
  trivial_copy = false;
  trivial_move = false;
}

-- Objects at 1 and 2.
abbrev two : Cells ℕ
two a = if a == 1 then some 10 else if a == 2 then some 20 else none

two-Full : Full 1 2 two
two-Full zero l = (10, refl)
two-Full (suc zero) l = (20, refl)
two-Full (suc (suc i)) l = absurd (omega arith)

two-Movable : Movable own 2 1 2 two
two-Movable = record { full = two-Full; room = λ e i l o. ground arith }

two-Vacant : Vacant own 5 2 two
two-Vacant e i l = ground arith

move_type-Relocated_example :
    (1 < 2 → Relocated own 2 1 2 two (move_forward_type own 2 1 2 two))
    × (2 < 1 → Relocated own 2 1 2 two (move_backward_type own 2 1 2 two))
move_type-Relocated_example = move_type-Relocated own 2 1 2 two two-Movable

destroy_type-construct_type_example :
    Restored own two (then_destroyed own 5 2 (copy_type own 5 1 2 two))
    × Restored own two (then_destroyed own 5 2 (splat_type own 5 1 2 two))
    × (false ≡ false → Restored own two (then_destroyed own 5 2 (construct_type own 7 5 2 two)))
destroy_type-construct_type_example =
    destroy_type-construct_type own 5 2 two two-Vacant 1 10 7 refl (inr (omega arith)) two-Full
      (inl (omega arith)) refl

-- Three is before five; a 64-bit value with both halves set; a pair goes by its key.
before : compare_type ltb 3 5 ≡ negsuc 0
unfolding compare_type
before = refl

both_halves : hash_int64 4294967298 ≡ 3
unfolding hash_int64
both_halves = refl

abbrev pair : (k v : ℕ) → KeyValuePair ℕ ℕ
pair k v = record { key = k; value = v }

by_key : key_value_less ltb (pair 3 9) (pair 5 1) ≡ true
unfolding key_value_less
by_key = refl
