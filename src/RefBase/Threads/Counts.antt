-- ===== src/RefBase/Threads/Counts.antt =====
-- What the counters of an object in use by several threads should be: the references that the
-- threads have, those in the middle of a call included, class by class.
use vmodule.Base.{
  ℕ, zero, suc, ◌+◌, ◌≤◌, ◌≡◌, refl, Bool, true, false, some, List, [], ◌∷◌, if◌then◌else◌,
  get_elem?, arith, some_inj, ap,
}
use vmodule.RefBase.Promote.{not_fixed}
use vmodule.RefBase.Threads.{
  Place, idle, raising_weak, raising_strong, fixing, telling_first, dropping, telling_last,
  deleting, dropping_weak, last_weak_gone, freeing_object, freeing_impl, creating_weak, adding_weak,
  attempting, loading, first_loading, taking, telling_claim, fix_loading, trying, first_trying,
  fix_trying, weak_loading, weak_trying, Thread,
}
use vmodule.RefBase.Threads.Machine.{replace}

-- Strong references, counted in mStrong; weak ones and the weak one of every strong one, counted in
-- mWeak; strong references that are fixed up; threads that delete the object after the last strong
-- reference; those that look what to delete after the last weak one, delete the object there, or its
-- weakref_impl; and those at places that no thread should reach.
pub data Class : Type 0 where
  strong_refs weak_refs settled dying looking last_object last_impl odd : Class

abbrev strong_at : Place → ℕ
strong_at raising_weak = 1
strong_at raising_strong = 1
strong_at fixing = 2
strong_at telling_first = 2
strong_at dropping = 1
strong_at creating_weak = 1
strong_at telling_claim = 1
strong_at fix_loading = 1
strong_at (fix_trying cur) = 1
strong_at p = 0

abbrev weak_at : Place → ℕ
weak_at raising_weak = 1
weak_at raising_strong = 2
weak_at fixing = 2
weak_at telling_first = 2
weak_at dropping = 1
weak_at telling_last = 1
weak_at deleting = 1
weak_at dropping_weak = 1
weak_at creating_weak = 1
weak_at adding_weak = 1
weak_at attempting = 1
weak_at loading = 2
weak_at first_loading = 2
weak_at taking = 2
weak_at telling_claim = 2
weak_at fix_loading = 2
weak_at (trying cur) = 2
weak_at (first_trying cur) = 2
weak_at (fix_trying cur) = 2
weak_at weak_loading = 1
weak_at (weak_trying cur) = 1
weak_at p = 0

abbrev settled_at : Place → ℕ
settled_at raising_weak = 1
settled_at raising_strong = 1
settled_at fixing = 2
settled_at telling_first = 2
settled_at dropping = 1
settled_at creating_weak = 1
settled_at (fix_trying cur) = if not_fixed cur then 0 else 1
settled_at p = 0

abbrev dying_at : Place → ℕ
dying_at telling_last = 1
dying_at deleting = 1
dying_at p = 0

abbrev looking_at : Place → ℕ
looking_at last_weak_gone = 1
looking_at p = 0

abbrev object_at : Place → ℕ
object_at freeing_object = 1
object_at p = 0

abbrev impl_at : Place → ℕ
impl_at freeing_impl = 1
impl_at p = 0

abbrev odd_at : Place → ℕ
odd_at fixing = 1
odd_at telling_first = 1
odd_at taking = 1
odd_at p = 0

abbrev pub weigh : Class → Thread → ℕ
weigh strong_refs t = t.strong + strong_at t.at
weigh weak_refs t = t.strong + t.weak + weak_at t.at
weigh settled t = t.strong + settled_at t.at
weigh dying t = dying_at t.at
weigh looking t = looking_at t.at
weigh last_object t = object_at t.at
weigh last_impl t = impl_at t.at
weigh odd t = odd_at t.at

abbrev pub total : List Thread → Class → ℕ
total [] c = 0
total (t ∷ ts) c = weigh c t + total ts c

-- All but the i-th.
abbrev pub rest : ℕ → List Thread → Class → ℕ
rest i [] c = 0
rest zero (t ∷ ts) c = total ts c
rest (suc i) (t ∷ ts) c = weigh c t + rest i ts c

pub total-get :
    (i : ℕ) (ts : List Thread) (t : Thread) (c : Class)
    → get_elem? ts i ≡ some t
    → total ts c ≡ weigh c t + rest i ts c
total-get i [] t c h = absurd (ground (arith, h))
total-get zero (u ∷ ts) t c h = let e = some_inj h in ap (λ (v : Thread). weigh c v + total ts c) e
total-get (suc i) (u ∷ ts) t c h = let g = total-get i ts t c h in omega arith

pub total-replace :
    (i : ℕ) (ts : List Thread) (t u : Thread) (c : Class)
    → get_elem? ts i ≡ some t
    → total (replace i u ts) c ≡ weigh c u + rest i ts c
total-replace i [] t u c h = absurd (ground (arith, h))
total-replace zero (v ∷ ts) t u c h = refl
total-replace (suc i) (v ∷ ts) t u c h = let g = total-replace i ts t u c h in omega arith

-- A strong reference and a deletion both keep a weak one, and a fixed-up reference is a reference.
pub record Kept (n : Class → ℕ) : Type 0 where
  pub by_weak : n strong_refs + n dying ≤ n weak_refs
  pub by_strong : n settled ≤ n strong_refs

weigh-Kept : (t : Thread) → Kept (λ c. weigh c t)
weigh-Kept t = record { by_weak = go_weak t.at; by_strong = go_strong t.at }
  where
    go_weak : (p : Place) → t.strong + strong_at p + dying_at p ≤ t.strong + t.weak + weak_at p
    go_weak idle = omega arith
    go_weak p = omega arith

    go_strong : (p : Place) → t.strong + settled_at p ≤ t.strong + strong_at p
    go_strong (fix_trying cur) = either (not_fixed cur)
      where
        either : (b : Bool) → t.strong + (if b then 0 else 1) ≤ t.strong + 1
        either true = omega arith
        either false = omega arith
    go_strong p = omega arith

pub rest-Kept : (i : ℕ) (ts : List Thread) → Kept (rest i ts)
rest-Kept i [] = record { by_weak = omega arith; by_strong = omega arith }
rest-Kept zero (t ∷ ts) = total-Kept ts
  where
    total-Kept : (ts : List Thread) → Kept (total ts)
    total-Kept [] = record { by_weak = omega arith; by_strong = omega arith }
    total-Kept (t ∷ ts) =
        let h = weigh-Kept t in
        let g = total-Kept ts in
        let w = h.by_weak in
        let w' = g.by_weak in
        let s = h.by_strong in
        let s' = g.by_strong in record { by_weak = omega arith; by_strong = omega arith }
rest-Kept (suc i) (t ∷ ts) =
    let h = weigh-Kept t in
    let g = rest-Kept i ts in
    let w = h.by_weak in
    let w' = g.by_weak in
    let s = h.by_strong in
    let s' = g.by_strong in record { by_weak = omega arith; by_strong = omega arith }
