-- ===== src/Pointers/Owners.antt =====
-- What each command of the smart pointers does to the counters, when they are the numbers of
-- pointers: `grab` and `release` for the sps, `watch` and `forget` for the wps.
use vmodule.Base.{ℕ, zero, suc, ◌+◌, ◌<◌, ◌≡◌, refl, subst, Option, none, some, arith}
use vmodule.RefBase
use vmodule.RefBase.{Refs, inc_strong, dec_strong, inc_weak, dec_weak}
use vmodule.RefBase.Phase.{Lifetime}
use vmodule.Pointers.{World, if_set, at}
use vmodule.Pointers.Weak.{through}
use vmodule.Pointers.Ownership.{
  Agree, HasRoom, Acts, inc_strong-Agree, dec_strong-Agree, inc_weak-Agree, dec_weak-Agree,
}
use vmodule.Pointers.Held.{hits, hits_self, hits_other, Runs, Counted, at-Counted, Matches}

-- The pointer is null, or one of these points where it points.
abbrev pub InPlay : Option ℕ → (ℕ → ℕ) → Type 0
InPlay none count = Unit
InPlay (some p) count = 0 < count p

module _ (m : ℕ → Lifetime) (p : ℕ) (r : Refs) where
  grab_one :
      (s n t : ℕ)
      → t ≡ 1
      → HasRoom s n
      → 0 < s
      → Agree (m p) s n r
      → Acts (λ u. Agree (m p) (t + s) n) (inc_strong r)
  grab_one zero n t e room pos h = absurd (omega arith)
  grab_one (suc s) n t e room pos h =
      let e' : t + suc s ≡ suc (suc s) = omega arith in rw e' (inc_strong-Agree (m p) s n r room h)

  release_one :
      (s n t : ℕ)
      → t ≡ 1
      → HasRoom (t + s) n
      → Agree (m p) (t + s) n r
      → Acts (λ u. Agree (m p) s n) (dec_strong r)
  release_one s n t e room h =
      let e' : t + s ≡ suc s = omega arith in
      dec_strong-Agree (m p) s n r (omega arith) (subst (λ k. Agree (m p) k n r) e' h)

  watch_one :
      (s n t : ℕ)
      → t ≡ 1
      → HasRoom s n
      → 0 < s + n
      → Agree (m p) s n r
      → Acts (λ u. Agree (m p) s (t + n)) (inc_weak r)
  watch_one s n t e room pos h =
      let e' : t + n ≡ suc n = omega arith in rw e' (inc_weak-Agree (m p) s n r room pos h)

  forget_one :
      (s n t : ℕ)
      → t ≡ 1
      → HasRoom s (t + n)
      → Agree (m p) s (t + n) r
      → Acts (λ u. Agree (m p) s n) (dec_weak r)
  forget_one s n t e room h =
      let e' : t + n ≡ suc n = omega arith in
      dec_weak-Agree (m p) s n r (omega arith) (subst (λ k. Agree (m p) s k r) e' h)

pub Counted-same :
    (m : ℕ → Lifetime) (s n s' n' : ℕ → ℕ) (w : World)
    → ((a : ℕ) → (s a ≡ s' a) × (n a ≡ n' a))
    → Counted m s n w
    → Counted m s' n' w
Counted-same m s n s' n' w e h a = rw (← (e a).0, ← (e a).1) (h a)

-- No counter comes near its limit.
abbrev pub Small : (ℕ → ℕ) → (ℕ → ℕ) → Type 0
Small s n = (a : ℕ) → HasRoom (s a) (n a)

module _ (m : ℕ → Lifetime) (s n : ℕ → ℕ) (w : World) where
  pub grab :
      (p : Option ℕ)
      → Small s n
      → InPlay p s
      → Counted m s n w
      → Runs (λ u. Counted m (λ a. hits a p + s a) n) (if_set p inc_strong w)
  unfolding if_set
  grab none small play h = Counted-same m s n _ n w (λ a. (omega arith, refl)) h
  grab (some p) small play h =
      at-Counted m s n (λ u a. hits a (some p) + s a) (λ u. n) p inc_strong w h
        (λ u q miss. (omega (arith, hits_other q p miss), refl))
        (grab_one m p (w p) (s p) (n p) _ (hits_self p) (small p) play (h p))

  pub release :
      (p : Option ℕ)
      → Small (λ a. hits a p + s a) n
      → Counted m (λ a. hits a p + s a) n w
      → Runs (λ u. Counted m s n) (if_set p dec_strong w)
  unfolding if_set
  release none small h = Counted-same m _ n s n w (λ a. (omega arith, refl)) h
  release (some p) small h =
      at-Counted m (λ a. hits a (some p) + s a) n (λ u. s) (λ u. n) p dec_strong w h
        (λ u q miss. (omega (arith, hits_other q p miss), refl))
        (release_one m p (w p) (s p) (n p) _ (hits_self p) (small p) (h p))

  pub watch_set :
      (p : Option ℕ)
      → Small s n
      → InPlay p (λ a. s a + n a)
      → Counted m s n w
      → Runs (λ u. Counted m s (λ a. hits a p + n a)) (if_set p inc_weak w)
  unfolding if_set
  watch_set none small play h = Counted-same m s n s _ w (λ a. (refl, omega arith)) h
  watch_set (some p) small play h =
      at-Counted m s n (λ u. s) (λ u a. hits a (some p) + n a) p inc_weak w h
        (λ u q miss. (refl, omega (arith, hits_other q p miss)))
        (watch_one m p (w p) (s p) (n p) _ (hits_self p) (small p) play (h p))

  pub forget_set :
      (p : Option ℕ)
      → Small s (λ a. hits a p + n a)
      → Counted m s (λ a. hits a p + n a) w
      → Runs (λ u. Counted m s n) (if_set p dec_weak w)
  unfolding if_set
  forget_set none small h = Counted-same m s _ s n w (λ a. (refl, omega arith)) h
  forget_set (some p) small h =
      at-Counted m s (λ a. hits a (some p) + n a) (λ u. s) (λ u. n) p dec_weak w h
        (λ u q miss. (refl, omega (arith, hits_other q p miss)))
        (forget_one m p (w p) (s p) (n p) _ (hits_self p) (small p) (h p))

-- A whole wp reaches its weakref_impl as its object is reached.
pub through-if_set :
    (p refs : Option ℕ) (c : RefBase.M (Unit {0})) (w : World)
    → Matches p refs
    → through p refs (λ w. some (tt, w)) (λ r. at r c) w ≡ if_set p c w
unfolding through if_set
through-if_set none refs c w h = refl
through-if_set (some p) none c w h = cc
through-if_set (some p) (some r) c w h = ground arith
