-- ===== src/RefBase/Threads/Acting.antt =====
-- A step at any place.
use vmodule.Base.{ℕ, ◌+◌, ◌≤◌, refl, Bool, List, arith}
use vmodule.RefBase.{Event}
use vmodule.RefBase.Threads.{
  Place, idle, raising_weak, raising_strong, fixing, telling_first, dropping, telling_last,
  deleting, dropping_weak, last_weak_gone, freeing_object, freeing_impl, creating_weak, adding_weak,
  attempting, loading, first_loading, taking, telling_claim, fix_loading, trying, first_trying,
  fix_trying, weak_loading, weak_trying, act,
}
use vmodule.RefBase.Threads.Counts.{
  Class, Kept, weak_refs, looking, last_object, last_impl, odd, weigh,
}
use vmodule.RefBase.Threads.Life.{Sound, IsFew}
use vmodule.RefBase.Threads.Rules.{IsFine, Fine, thread, joined, state}
use vmodule.RefBase.Threads.Reading.{still}
use vmodule.RefBase.Threads.Steps.Weak.{
  adding_weak-IsFine, attempting-IsFine, creating_weak-IsFine, raising_weak-IsFine,
  dropping_weak-IsFine, weak_loading-IsFine, weak_trying-IsFine,
}
use vmodule.RefBase.Threads.Steps.Strong.{
  raising_strong-IsFine, dropping-IsFine, telling_last-IsFine, deleting-IsFine,
  last_weak_gone-IsFine, freeing_object-IsFine, freeing_impl-IsFine,
}
use vmodule.RefBase.Threads.Steps.Promote.{
  loading-IsFine, first_loading-IsFine, telling_claim-IsFine, fix_loading-IsFine, trying-IsFine,
  first_trying-IsFine, fix_trying-IsFine,
}

module _ (agrees : ℕ → Bool) where
  -- In any sound state.
  abbrev pub IsSafe : Place → Type 0
  IsSafe p =
      (a b s w f : ℕ) (o i : Bool) (log : List Event) (k : Class → ℕ)
      → Kept k
      → IsFew (joined (thread a b p) k)
      → Sound (state s w f o i log) (joined (thread a b p) k)
      → Fine k (act agrees p (thread a b p) (state s w f o i log))

  -- Nobody stands at such a place once everything is deleted.
  at_place :
      (p : Place)
      → ((a b : ℕ) (k : Class → ℕ)
          → let n = joined (thread a b p) k in
            1 ≤ n weak_refs + n looking + n last_object + n last_impl + n odd)
      → IsFine agrees p
      → IsSafe p
  at_place p some_left fine a b s w f o i log k kept few h =
      let u = still (some_left a b k) h in
      rw (u.flags_eq, u.impl_eq)
        (fine a b s w o log k kept few (record {
          life = u.life;
          stage = u.stage;
          strong_eq = u.strong_eq;
          stage_eq = u.stage_eq;
          agree = u.agree;
          weak_eq = u.weak_eq;
          flags_eq = refl;
          impl_eq = refl;
          odd_eq = u.odd_eq;
        }))

  -- A place that no thread reaches.
  never_at : (p : Place) → ((a b : ℕ) → 1 ≤ weigh odd (thread a b p)) → IsFine agrees p
  never_at p h a b s w o log k kept few u =
      let e = u.odd_eq in let g = h a b in absurd (omega arith)

  pub act-IsSafe : (p : Place) → IsSafe p
  unfolding act
  act-IsSafe idle = λ a b s w f o i log k kept few h. h
  act-IsSafe raising_weak = at_place _ (λ a b k. omega arith) (raising_weak-IsFine agrees)
  act-IsSafe raising_strong = at_place _ (λ a b k. omega arith) (raising_strong-IsFine agrees)
  act-IsSafe fixing = at_place _ (λ a b k. omega arith) (never_at _ (λ a b. omega arith))
  act-IsSafe telling_first = at_place _ (λ a b k. omega arith) (never_at _ (λ a b. omega arith))
  act-IsSafe dropping = at_place _ (λ a b k. omega arith) (dropping-IsFine agrees)
  act-IsSafe telling_last = at_place _ (λ a b k. omega arith) (telling_last-IsFine agrees)
  act-IsSafe deleting = at_place _ (λ a b k. omega arith) (deleting-IsFine agrees)
  act-IsSafe dropping_weak = at_place _ (λ a b k. omega arith) (dropping_weak-IsFine agrees)
  act-IsSafe last_weak_gone = at_place _ (λ a b k. omega arith) (last_weak_gone-IsFine agrees)
  act-IsSafe freeing_object = at_place _ (λ a b k. omega arith) (freeing_object-IsFine agrees)
  act-IsSafe freeing_impl = at_place _ (λ a b k. omega arith) (freeing_impl-IsFine agrees)
  act-IsSafe creating_weak = at_place _ (λ a b k. omega arith) (creating_weak-IsFine agrees)
  act-IsSafe adding_weak = at_place _ (λ a b k. omega arith) (adding_weak-IsFine agrees)
  act-IsSafe attempting = at_place _ (λ a b k. omega arith) (attempting-IsFine agrees)
  act-IsSafe loading = at_place _ (λ a b k. omega arith) (loading-IsFine agrees)
  act-IsSafe first_loading = at_place _ (λ a b k. omega arith) (first_loading-IsFine agrees)
  act-IsSafe taking = at_place _ (λ a b k. omega arith) (never_at _ (λ a b. omega arith))
  act-IsSafe telling_claim = at_place _ (λ a b k. omega arith) (telling_claim-IsFine agrees)
  act-IsSafe fix_loading = at_place _ (λ a b k. omega arith) (fix_loading-IsFine agrees)
  act-IsSafe (trying cur) = at_place _ (λ a b k. omega arith) (trying-IsFine agrees cur)
  act-IsSafe (first_trying cur) = at_place _ (λ a b k. omega arith) (first_trying-IsFine agrees cur)
  act-IsSafe (fix_trying cur) = at_place _ (λ a b k. omega arith) (fix_trying-IsFine agrees cur)
  act-IsSafe weak_loading = at_place _ (λ a b k. omega arith) (weak_loading-IsFine agrees)
  act-IsSafe (weak_trying cur) = at_place _ (λ a b k. omega arith) (weak_trying-IsFine agrees cur)
