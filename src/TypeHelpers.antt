-- ===== src/TypeHelpers.antt =====
-- include/sutils/TypeHelpers.h: type traits, and the construction, destruction, copy and move of
-- arrays over them. Memory is cells of sizeof(TYPE) each: an object's value, or raw. Reading or
-- destroying a raw cell is a fault (`none`), and so is a constructor over an object that has a
-- destructor to run. memcpy and memmove copy what the cells hold.
pub mod Moves
pub mod Backward
pub mod Relocation
pub mod Copies
pub mod Restored
use Prim.Native.Nat.{bit_xor}
use vmodule.Base.{
  ℕ, zero, suc, ◌+◌, ◌-◌, ◌*◌, ◌/◌, ◌%◌, ◌^◌, Bool, true, false, not, ◌&&◌, ◌||◌, Option, none,
  some, ◌==◌, ltb, leb, if◌then◌else◌, ℤ, pos, negsuc,
}

-- The traits that a type declares for itself, and whether it is a pointer.
pub record Traits : Type 0 where
  pub is_pointer : Bool
  pub trivial_ctor : Bool
  pub trivial_dtor : Bool
  pub trivial_copy : Bool
  pub trivial_move : Bool

abbrev pub has_trivial_ctor : Traits → Bool
has_trivial_ctor t = t.is_pointer || t.trivial_ctor

abbrev pub has_trivial_dtor : Traits → Bool
has_trivial_dtor t = t.is_pointer || t.trivial_dtor

abbrev pub has_trivial_copy : Traits → Bool
has_trivial_copy t = t.is_pointer || t.trivial_copy

abbrev pub has_trivial_move : Traits → Bool
has_trivial_move t = t.is_pointer || t.trivial_move

-- aggregate_traits, as key_value_pair_t declares them.
unfoldable pub aggregate_traits : (t u : Traits) → Traits
aggregate_traits t u = record {
  is_pointer = false;
  trivial_ctor = has_trivial_ctor t && has_trivial_ctor u;
  trivial_dtor = has_trivial_dtor t && has_trivial_dtor u;
  trivial_copy = has_trivial_copy t && has_trivial_copy u;
  trivial_move = has_trivial_move t && has_trivial_move u;
}

-- `less` is the type's operator <.
module _ {T : Type 0} (less : T → T → Bool) where
  unfoldable pub strictly_order_type : (lhs rhs : T) → ℕ
  strictly_order_type lhs rhs = if less lhs rhs then 1 else 0

  -- A difference of two numbers that are 0 or 1.
  unfoldable pub compare_type : (lhs rhs : T) → ℤ
  unfolding strictly_order_type
  compare_type lhs rhs = minus (strictly_order_type rhs lhs) (strictly_order_type lhs rhs)
    where
      minus : ℕ → ℕ → ℤ
      minus a b = if ltb a b then negsuc (b - a - 1) else pos (a - b)

-- hash_t of an integer of at most 32 bits, of a 64-bit one, and of a pointer, given as bit patterns.
unfoldable pub hash_int32 : ℕ → ℕ
hash_int32 value = value % 2 ^ 32

unfoldable pub hash_int64 : ℕ → ℕ
hash_int64 value = bit_xor (value / 2 ^ 32) value % 2 ^ 32

abbrev pub moves_block : Traits → Bool
moves_block t = has_trivial_dtor t && has_trivial_copy t || has_trivial_move t

abbrev pub Cells : Type 0 → Type 0
Cells T = ℕ → Option T

module _ {T : Type 0} where
  abbrev pub set_cell : ℕ → Option T → Cells T → Cells T
  set_cell a c m b = if b == a then c else m b

  -- p->~TYPE()
  unfoldable pub destroy_cell : ℕ → Cells T → Option (Cells T)
  destroy_cell p m = elim (m p) [ none ↦ none | some v ↦ some (set_cell p none m) ]

  unfoldable pub destroy_loop : ℕ → ℕ → Cells T → Option (Cells T)
  unfolding destroy_cell
  destroy_loop p zero m = some m
  destroy_loop p (suc n) m = elim (destroy_cell p m) [
    | none ↦ none
    | some m' ↦ destroy_loop (p + 1) n m'
  ]

  -- memcpy and memmove of n cells: the documented effect, memcpy's for blocks that do not overlap.
  abbrev pub block : (d s n : ℕ) → Cells T → Cells T
  block d s n m a = if leb d a && ltb a (d + n) then m (s + (a - d)) else m a

  module _ (t : Traits) where
    -- Room for a constructor.
    abbrev pub free : Option T → Bool
    free none = true
    free (some v) = has_trivial_dtor t

    -- new(p) TYPE(v)
    unfoldable pub new_cell : ℕ → T → Cells T → Option (Cells T)
    new_cell p v m = if free (m p) then some (set_cell p (some v) m) else none

    -- new(d) TYPE(*s), or *d = *s where the copy is trivial.
    unfoldable pub copy_cell : (d s : ℕ) → Cells T → Option (Cells T)
    unfolding new_cell
    copy_cell d s m = elim (m s) [
      | none ↦ none
      | some v ↦ if has_trivial_copy t then some (set_cell d (some v) m) else new_cell d v m
    ]

    -- The step of both moves.
    unfoldable pub move_cell : (d s : ℕ) → Cells T → Option (Cells T)
    unfolding copy_cell destroy_cell
    move_cell d s m = elim (copy_cell d s m) [
      | none ↦ none
      | some m' ↦ if has_trivial_dtor t then some m' else destroy_cell s m'
    ]

    -- `made` is what the default constructor makes.
    unfoldable pub construct_loop : (made : T) → ℕ → ℕ → Cells T → Option (Cells T)
    unfolding new_cell
    construct_loop made p zero m = some m
    construct_loop made p (suc n) m = elim (new_cell p made m) [
      | none ↦ none
      | some m' ↦ construct_loop made (p + 1) n m'
    ]

    unfoldable pub construct_type : (made : T) → ℕ → ℕ → Cells T → Option (Cells T)
    unfolding construct_loop
    construct_type made p n m = if has_trivial_ctor t then some m else construct_loop made p n m

    unfoldable pub destroy_type : ℕ → ℕ → Cells T → Option (Cells T)
    unfolding destroy_loop
    destroy_type p n m = if has_trivial_dtor t then some m else destroy_loop p n m

    unfoldable pub copy_loop : (d s n : ℕ) → Cells T → Option (Cells T)
    unfolding copy_cell
    copy_loop d s zero m = some m
    copy_loop d s (suc n) m = elim (copy_cell d s m) [
      | none ↦ none
      | some m' ↦ copy_loop (d + 1) (s + 1) n m'
    ]

    unfoldable pub copy_type : (d s n : ℕ) → Cells T → Option (Cells T)
    unfolding copy_loop
    copy_type d s n m = if has_trivial_copy t then some (block d s n m) else copy_loop d s n m

    unfoldable pub splat_type : (where_ what n : ℕ) → Cells T → Option (Cells T)
    unfolding copy_cell
    splat_type where_ what zero m = some m
    splat_type where_ what (suc n) m = elim (copy_cell where_ what m) [
      | none ↦ none
      | some m' ↦ splat_type (where_ + 1) what n m'
    ]

    -- From the last cell to the first.
    unfoldable pub move_forward_loop : (d s n : ℕ) → Cells T → Option (Cells T)
    unfolding move_cell
    move_forward_loop d s zero m = some m
    move_forward_loop d s (suc n) m = elim (move_cell (d + n) (s + n) m) [
      | none ↦ none
      | some m' ↦ move_forward_loop d s n m'
    ]

    unfoldable pub move_forward_type : (d s n : ℕ) → Cells T → Option (Cells T)
    unfolding move_forward_loop
    move_forward_type d s n m =
        if moves_block t then some (block d s n m) else move_forward_loop d s n m

    unfoldable pub move_backward_loop : (d s n : ℕ) → Cells T → Option (Cells T)
    unfolding move_cell
    move_backward_loop d s zero m = some m
    move_backward_loop d s (suc n) m = elim (move_cell d s m) [
      | none ↦ none
      | some m' ↦ move_backward_loop (d + 1) (s + 1) n m'
    ]

    unfoldable pub move_backward_type : (d s n : ℕ) → Cells T → Option (Cells T)
    unfolding move_backward_loop
    move_backward_type d s n m =
        if moves_block t then some (block d s n m) else move_backward_loop d s n m

-- key_value_pair_t, with the traits that it declares and its order.
pub record KeyValuePair (K V : Type 0) : Type 0 where
  pub key : K
  pub value : V

module _ {K V : Type 0} (less : K → K → Bool) where
  unfoldable pub key_value_less : KeyValuePair K V → KeyValuePair K V → Bool
  unfolding strictly_order_type
  key_value_less p o = not (strictly_order_type less p.key o.key == 0)
