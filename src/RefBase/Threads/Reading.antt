-- ===== src/RefBase/Threads/Reading.antt =====
-- What the life of a shared object says at a place.
use vmodule.Base.{ℕ, ◌+◌, ◌≤◌, ◌≡◌, Bool, true, false, inl, inr, arith, ◌⊎◌}
use vmodule.RefBase.{initial_strong_value}
use vmodule.RefBase.Threads.Counts.{
  Class, strong_refs, weak_refs, settled, dying, looking, last_object, last_impl, odd,
}
use vmodule.RefBase.Threads.Life.{
  Life, fresh, living, ending, lapsed, IsLife, Stage, used, unused, object_next, impl_next, IsStage,
  Agree, Uses, Gone,
}

module _ {s w f : ℕ} {o i : Bool} {n : Class → ℕ} where
  -- Nobody is at a place where everything is gone.
  pub still :
      1 ≤ n weak_refs + n looking + n last_object + n last_impl + n odd
      → Uses s w f o i n ⊎ Gone o i n
      → Uses s w f o i n
  still h (inl u) = u
  still h (inr g) =
      let a = g.no_weak in
      let b = g.no_looking in
      let c = g.no_object in let d = g.no_impl in let e = g.no_odd in absurd (omega arith)

  module _ (u : Uses s w f o i n) where
    pub stage_used : 1 ≤ n weak_refs → (n looking ≡ 0) × (n last_object ≡ 0) × (n last_impl ≡ 0)
    stage_used h = go u.stage u.stage_eq
      where
        go :
            (st : Stage)
            → IsStage st (n weak_refs) (n looking) (n last_object) (n last_impl)
            → (n looking ≡ 0) × (n last_object ≡ 0) × (n last_impl ≡ 0)
        go used (e, a, b, c) = (a, b, c)
        go unused e = absurd (omega arith)
        go object_next e = absurd (omega arith)
        go impl_next e = absurd (omega arith)

    -- Somebody has a reference, or is left to delete.
    pub some_left : 1 ≤ n weak_refs + n looking + n last_object + n last_impl
    some_left = go u.stage u.stage_eq
      where
        go :
            (st : Stage)
            → IsStage st (n weak_refs) (n looking) (n last_object) (n last_impl)
            → 1 ≤ n weak_refs + n looking + n last_object + n last_impl
        go used e = omega arith
        go unused e = omega arith
        go object_next e = omega arith
        go impl_next e = omega arith

    -- The thread that gave back the last reference.
    pub stage_unused :
        1 ≤ n looking
        → (n weak_refs ≡ 0) × (n looking ≡ 1) × (n last_object ≡ 0) × (n last_impl ≡ 0)
    stage_unused h = go u.stage u.stage_eq
      where
        go :
            (st : Stage)
            → IsStage st (n weak_refs) (n looking) (n last_object) (n last_impl)
            → (n weak_refs ≡ 0) × (n looking ≡ 1) × (n last_object ≡ 0) × (n last_impl ≡ 0)
        go used e = absurd (omega arith)
        go unused e = e
        go object_next e = absurd (omega arith)
        go impl_next e = absurd (omega arith)

    pub stage_object :
        1 ≤ n last_object
        → (n weak_refs ≡ 0)
          × (n looking ≡ 0)
          × (n last_object ≡ 1)
          × (n last_impl ≡ 0)
          × (s ≡ initial_strong_value + n strong_refs)
          × (o ≡ true)
    stage_object h = go u.stage u.life u.agree u.stage_eq u.strong_eq
      where
        go :
            (st : Stage) (l : Life)
            → Agree st l
            → IsStage st (n weak_refs) (n looking) (n last_object) (n last_impl)
            → IsLife l s o (n strong_refs) (n settled) (n dying)
            → (n weak_refs ≡ 0)
              × (n looking ≡ 0)
              × (n last_object ≡ 1)
              × (n last_impl ≡ 0)
              × (s ≡ initial_strong_value + n strong_refs)
              × (o ≡ true)
        go used l a e el = absurd (omega arith)
        go unused l a e el = absurd (omega arith)
        go object_next fresh a (w, x, y, z) (el, eo, ed, ey) = (w, x, y, z, el, eo)
        go object_next living a e el = absurd a
        go object_next ending a e el = absurd a
        go object_next lapsed a e el = absurd a
        go impl_next l a e el = absurd (omega arith)

    pub stage_impl :
        1 ≤ n last_impl
        → (n weak_refs ≡ 0)
          × (n looking ≡ 0)
          × (n last_object ≡ 0)
          × (n last_impl ≡ 1)
          × (o ≡ false)
    stage_impl h = go u.stage u.life u.agree u.stage_eq u.strong_eq
      where
        go :
            (st : Stage) (l : Life)
            → Agree st l
            → IsStage st (n weak_refs) (n looking) (n last_object) (n last_impl)
            → IsLife l s o (n strong_refs) (n settled) (n dying)
            → (n weak_refs ≡ 0)
              × (n looking ≡ 0)
              × (n last_object ≡ 0)
              × (n last_impl ≡ 1)
              × (o ≡ false)
        go used l a e el = absurd (omega arith)
        go unused l a e el = absurd (omega arith)
        go object_next l a e el = absurd (omega arith)
        go impl_next fresh a e el = absurd a
        go impl_next living a e el = absurd a
        go impl_next ending a e el = absurd a
        go impl_next lapsed a (w, x, y, z) (el, eo, es, ed, ey) = (w, x, y, z, eo)

    -- Nobody has a strong reference, or is deleting the object.
    pub life_unheld :
        n strong_refs ≡ 0
        → n dying ≡ 0
        → ((s ≡ initial_strong_value) × (o ≡ true)) ⊎ ((s ≡ 0) × (o ≡ false))
    life_unheld hs hd = go u.life u.strong_eq
      where
        go :
            (l : Life)
            → IsLife l s o (n strong_refs) (n settled) (n dying)
            → ((s ≡ initial_strong_value) × (o ≡ true)) ⊎ ((s ≡ 0) × (o ≡ false))
        go fresh (e, eo, ed, ey) = inl (omega arith, eo)
        go living e = absurd (omega arith)
        go ending e = absurd (omega arith)
        go lapsed (e, eo, es, ed, ey) = inr (e, eo)

    -- A fixed-up strong reference.
    pub life_settled :
        1 ≤ n settled → (s ≡ n strong_refs) × (o ≡ true) × (1 ≤ n strong_refs) × (n dying ≡ 0)
    life_settled h = go u.life u.strong_eq
      where
        go :
            (l : Life)
            → IsLife l s o (n strong_refs) (n settled) (n dying)
            → (s ≡ n strong_refs) × (o ≡ true) × (1 ≤ n strong_refs) × (n dying ≡ 0)
        go fresh e = absurd (omega arith)
        go living e = e
        go ending e = absurd (omega arith)
        go lapsed e = absurd (omega arith)

    -- Any strong reference.
    pub life_strong :
        1 ≤ n strong_refs
        → (o ≡ true)
          × (n dying ≡ 0)
          × (((s ≡ initial_strong_value + n strong_refs) × (n settled ≡ 0)) ⊎ (s ≡ n strong_refs))
    life_strong h = go u.life u.strong_eq
      where
        go :
            (l : Life)
            → IsLife l s o (n strong_refs) (n settled) (n dying)
            → (o ≡ true)
              × (n dying ≡ 0)
              × (((s ≡ initial_strong_value + n strong_refs) × (n settled ≡ 0))
                  ⊎ (s ≡ n strong_refs))
        go fresh (e, eo, ed, ey) = (eo, ey, inl (e, ed))
        go living (e, eo, es, ey) = (eo, ey, inr e)
        go ending e = absurd (omega arith)
        go lapsed e = absurd (omega arith)

    -- A counter above zero.
    pub life_counted :
        1 ≤ s
        → (o ≡ true)
          × (n dying ≡ 0)
          × (((s ≡ initial_strong_value + n strong_refs) × (n settled ≡ 0))
              ⊎ ((s ≡ n strong_refs) × (1 ≤ n strong_refs)))
    life_counted h = go u.life u.strong_eq
      where
        go :
            (l : Life)
            → IsLife l s o (n strong_refs) (n settled) (n dying)
            → (o ≡ true)
              × (n dying ≡ 0)
              × (((s ≡ initial_strong_value + n strong_refs) × (n settled ≡ 0))
                  ⊎ ((s ≡ n strong_refs) × (1 ≤ n strong_refs)))
        go fresh (e, eo, ed, ey) = (eo, ey, inl (e, ed))
        go living (e, eo, es, ey) = (eo, ey, inr (e, es))
        go ending e = absurd (omega arith)
        go lapsed e = absurd (omega arith)

    -- The object is about to be deleted.
    pub life_dying :
        1 ≤ n dying → (s ≡ 0) × (o ≡ true) × (n strong_refs ≡ 0) × (n settled ≡ 0) × (n dying ≡ 1)
    life_dying h = go u.life u.strong_eq
      where
        go :
            (l : Life)
            → IsLife l s o (n strong_refs) (n settled) (n dying)
            → (s ≡ 0) × (o ≡ true) × (n strong_refs ≡ 0) × (n settled ≡ 0) × (n dying ≡ 1)
        go fresh e = absurd (omega arith)
        go living e = absurd (omega arith)
        go ending e = e
        go lapsed e = absurd (omega arith)
