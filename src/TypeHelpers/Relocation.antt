-- ===== src/TypeHelpers/Relocation.antt =====
-- Both moves of include/sutils/TypeHelpers.h against memmove, whatever the type's traits are.
use vmodule.Base.{
  ℕ, ◌+◌, ◌-◌, ◌<◌, ◌≡◌, inl, inr, refl, sym, ap, ◌∙◌, true, false, ◌&&◌, Bool-cases, Option, none,
  some, arith, leb, ltb,
}
use vmodule.TypeHelpers.{
  Traits, has_trivial_dtor, Cells, block, moves_block, move_forward_type, move_backward_type,
}
use vmodule.TypeHelpers.Moves.{Outside, Moves, Movable, forward-Moves}
use vmodule.TypeHelpers.Backward.{backward-Moves}

module _ {T : Type 0} where
  -- The cells from d on are what memmove makes of them; those in neither range are as before; and of
  -- the old ones nothing is left where they were destroyed.
  abbrev pub Relocated : Traits → (d s n : ℕ) → Cells T → Option (Cells T) → Type 0
  Relocated t d s n m none = ⊥
  Relocated t d s n m (some m') =
      ((i : ℕ) → i < n → m' (d + i) ≡ block d s n m (d + i))
      × ((a : ℕ) → Outside d n a → Outside s n a → m' a ≡ m a)
      × (moves_block t ≡ false
          → has_trivial_dtor t ≡ false
          → (i : ℕ) → i < n
          → Outside d n (s + i)
          → m' (s + i) ≡ none)

  pub block_in : (d s n i : ℕ) (m : Cells T) → i < n → block d s n m (d + i) ≡ m (s + i)
  block_in d s n i m l =
      let inside : (leb d (d + i) && ltb (d + i) (d + n)) ≡ true = ground arith in
      let e : s + (d + i - d) ≡ s + i = omega arith in rw inside (ap m e)

  pub block_out : (d s n a : ℕ) (m : Cells T) → Outside d n a → block d s n m a ≡ m a
  block_out d s n a m o =
      let outside : (leb d a && ltb a (d + n)) ≡ false = ground arith in rw outside refl

  block-Relocated :
      (t : Traits) (d s n : ℕ) (m : Cells T)
      → moves_block t ≡ true
      → Relocated t d s n m (some (block d s n m))
  block-Relocated t d s n m b =
      ((λ i l. refl), (λ a o o'. block_out d s n a m o), (λ e. absurd (cc)))

  loop-Relocated :
      (t : Traits) (d s n : ℕ) (m : Cells T) (o : Option (Cells T))
      → Moves (has_trivial_dtor t) d s n m o
      → Relocated t d s n m o
  loop-Relocated t d s n m none x = x
  loop-Relocated t d s n m (some m') x = (
    (λ i l. x.there i l ∙ sym (block_in d s n i m l)),
    (λ a o o'. x.kept a o (inl (λ i l. omega arith))),
    (λ e. x.left),
  )

  -- Whatever the type's traits are, move_forward_type to a higher address and move_backward_type to
  -- a lower one, on objects in a range that may overlap the new one, with no object in the rest of
  -- the new range where destructors run, do not fault, make the new range what memmove makes of it,
  -- and leave the memory outside both ranges alone; where they go object by object and destructors
  -- run, what is left of the old range is raw.
  pub move_type-Relocated :
      (t : Traits) (d s n : ℕ) (m : Cells T)
      → Movable t d s n m
      → (s < d → Relocated t d s n m (move_forward_type t d s n m))
        × (d < s → Relocated t d s n m (move_backward_type t d s n m))
  unfolding move_forward_type move_backward_type
  move_type-Relocated t d s n m h = elim (Bool-cases (moves_block t)) [
    | inl e ↦
        rw (move_forward_type, move_backward_type, e)
          ((λ l. block-Relocated t d s n m e), (λ l. block-Relocated t d s n m e))
    | inr e ↦
        rw (move_forward_type, move_backward_type, e)
          (
            (λ l. loop-Relocated t d s n m _ (forward-Moves t n d s m l h)),
            (λ l. loop-Relocated t d s n m _ (backward-Moves t n d s m l h)),
          )
  ]
