-- ===== src/RefBase/Threads/Going.antt =====
-- How the life of a shared object goes on after a step.
use vmodule.Base.{ℕ, ◌+◌, ◌≤◌, ◌≡◌, sym, subst, ◌∙◌, Bool, inl, inr, arith}
use vmodule.RefBase.Promote.{next_count}
use vmodule.RefBase.Threads.Counts.{
  Class, strong_refs, weak_refs, settled, dying, looking, last_object, last_impl, odd,
}
use vmodule.RefBase.Threads.Life.{
  Life, fresh, living, IsLife, Stage, used, IsStage, Agree, Uses, IsFew,
}
use vmodule.RefBase.Threads.Rules.{Same}
use vmodule.RefBase.Threads.Reading.{stage_used, life_counted}

module _ {s w f : ℕ} {o i : Bool} {n : Class → ℕ} where
  module _ (u : Uses s w f o i n) where
    -- The life goes on as it was; the weak references change.
    module _ {n' : Class → ℕ} where
      pub same_life :
          {o' : Bool}
          → o ≡ o'
          → (st : Stage) → Agree st u.life
          → (w' : ℕ) → w' ≡ n' weak_refs
          → IsStage st (n' weak_refs) (n' looking) (n' last_object) (n' last_impl)
          → n' strong_refs ≡ n strong_refs
          → n' settled ≡ n settled
          → n' dying ≡ n dying
          → n' odd ≡ n odd
          → Uses s w' f o' i n'
      same_life eo st a w' ew es e1 e2 e3 e4 = record {
        life = u.life;
        stage = st;
        strong_eq =
            rw (e1, e2, e3)
              (subst (λ o. IsLife u.life s o (n strong_refs) (n settled) (n dying)) eo u.strong_eq);
        stage_eq = es;
        agree = a;
        weak_eq = ew;
        flags_eq = u.flags_eq;
        impl_eq = u.impl_eq;
        odd_eq = e4 ∙ u.odd_eq;
      }

      -- Somebody had a weak reference and somebody has.
      pub still_used :
          {o' : Bool}
          → o ≡ o'
          → 1 ≤ n weak_refs
          → 1 ≤ n' weak_refs
          → (w' : ℕ) → w' ≡ n' weak_refs
          → Same n n'
          → Uses s w' f o' i n'
      still_used eo h h' w' ew (e1, e2, e3, e4, e5, e6, e7) =
          let (a, b, c) = stage_used u h in
          same_life eo used tt w' ew (h', e4 ∙ a, e5 ∙ b, e6 ∙ c) e1 e2 e3 e7

      -- The life changes, while somebody has a weak reference and no new one is counted.
      pub same_weak :
          {s' : ℕ} {o' : Bool}
          → 1 ≤ n weak_refs
          → (l : Life) → IsLife l s' o' (n' strong_refs) (n' settled) (n' dying)
          → n' weak_refs ≡ n weak_refs
          → n' looking ≡ n looking
          → n' last_object ≡ n last_object
          → n' last_impl ≡ n last_impl
          → n' odd ≡ n odd
          → Uses s' w f o' i n'
      same_weak {s'} {o'} h l il e1 e2 e3 e4 e5 =
          let (a, b, c) = stage_used u h in
          record {
            life = l;
            stage = used;
            strong_eq = il;
            stage_eq = (omega arith, e2 ∙ a, e3 ∙ b, e4 ∙ c);
            agree = tt;
            weak_eq = u.weak_eq ∙ sym e1;
            flags_eq = u.flags_eq;
            impl_eq = u.impl_eq;
            odd_eq = e5 ∙ u.odd_eq;
          }

      -- A positive count is raised by one.
      pub take_one :
          1 ≤ s
          → 1 ≤ n weak_refs
          → n strong_refs ≤ n weak_refs
          → IsFew n
          → n' strong_refs ≡ n strong_refs + 1
          → n' settled ≡ n settled
          → n' dying ≡ n dying
          → n' weak_refs ≡ n weak_refs
          → n' looking ≡ n looking
          → n' last_object ≡ n last_object
          → n' last_impl ≡ n last_impl
          → n' odd ≡ n odd
          → Uses (next_count s) w f o i n'
      take_one p h le few e1 e2 e3 e4 e5 e6 e7 e8 =
          let (eo, ey, r) = life_counted u p in
          elim r [
            | inl (es, ed) ↦
                same_weak h fresh (omega arith, eo, omega arith, omega arith) e4 e5 e6 e7 e8
            | inr (es, el) ↦
                same_weak h living (omega arith, eo, omega arith, omega arith) e4 e5 e6 e7 e8
          ]
