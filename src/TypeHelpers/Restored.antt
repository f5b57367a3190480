-- ===== src/TypeHelpers/Restored.antt =====
-- Arrays of include/sutils/TypeHelpers.h from their making to their destruction.
use vmodule.Base.{ℕ, ◌+◌, ◌≤◌, ◌≡◌, ◌⊎◌, refl, false, some}
use vmodule.TypeHelpers.{
  Traits, has_trivial_ctor, has_trivial_dtor, Cells, construct_type, copy_type, splat_type,
}
use vmodule.TypeHelpers.Moves.{Outside}
use vmodule.TypeHelpers.Copies.{
  Filled, Full, Vacant, Restored, then_destroyed, copy_type-Filled, splat_type-Filled,
  construct_loop-Filled, destroyed-Restored,
}

module _ {T : Type 0} (t : Traits) (d n : ℕ) (m : Cells T) (r : Vacant t d n m) where
  construct_type-Filled :
      (made : T)
      → has_trivial_ctor t ≡ false
      → Filled d n (λ i. some made) m (construct_type t made d n m)
  unfolding construct_type
  construct_type-Filled made e =
      rw (Filled, construct_type, e) (construct_loop-Filled t n d made m r)

  pub copies-Filled :
      (s : ℕ) (v : T)
      → (d + n ≤ s) ⊎ (s + n ≤ d)
      → Full s n m
      → Outside d n s
      → m s ≡ some v
      → Filled d n (λ i. m (s + i)) m (copy_type t d s n m)
        × Filled d n (λ i. some v) m (splat_type t d s n m)
  copies-Filled s v a h o e =
      (copy_type-Filled t d s n m a h r, splat_type-Filled t n d s m v o e r)

  -- For a type with a destructor to run, and a range of raw memory apart from the objects copied:
  -- copy_type, splat_type, and construct_type where there is a constructor to run, followed by
  -- destroy_type, do not fault and leave the memory as it was.
  pub destroy_type-construct_type :
      (s : ℕ) (v made : T)
      → has_trivial_dtor t ≡ false
      → (d + n ≤ s) ⊎ (s + n ≤ d)
      → Full s n m
      → Outside d n s
      → m s ≡ some v
      → Restored t m (then_destroyed t d n (copy_type t d s n m))
        × Restored t m (then_destroyed t d n (splat_type t d s n m))
        × (has_trivial_ctor t ≡ false
            → Restored t m (then_destroyed t d n (construct_type t made d n m)))
  destroy_type-construct_type s v made nt a h o e =
      let (c, sp) = copies-Filled s v a h o e in
      (
        destroyed-Restored t d n _ m _ nt r h c,
        destroyed-Restored t d n _ m _ nt r (λ i l. (v, refl)) sp,
        (λ ct.
            destroyed-Restored t d n (λ i. some made) m _ nt r (λ i l. (made, refl))
              (construct_type-Filled made ct)),
      )
