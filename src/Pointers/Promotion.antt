-- ===== src/Pointers/Promotion.antt =====
-- wp::promote in a program: the counters of all objects stay equal to the numbers of the sps and wps
-- that it holds.
use vmodule.Base.{
  ℕ, suc, ◌+◌, ◌-◌, ◌==◌, All, ◌≡◌, refl, Bool, true, false, Option, none, some, List, ◌∷◌, ◌⊎◌,
  inl, inr, arith, if◌then◌else◌,
}
use vmodule.RefBase.{Refs}
use vmodule.RefBase.Phase.{Lifetime}
use vmodule.RefBase.Promote.{quiet, attempt_inc_strong}
use vmodule.Pointers.{World, at}
use vmodule.Pointers.Strong.{Sp, sp, sp_null, set_pointer}
use vmodule.Pointers.Weak.{Wp, promote, promote_at}
use vmodule.Pointers.Ownership.{Agree, Acts, Promoted, attempt_inc_strong-Promoted}
use vmodule.Pointers.Held.{
  hits, held, watched, hits_self, hits_other, held-le, watched-le, Runs, Counted, Room, Owned,
  at-Counted_and, Matches, IsWhole,
}
use vmodule.Pointers.Owners.{InPlay, Counted-same}

abbrev granted : ℕ → Bool → Option ℕ
granted p true = some p
granted p false = none

abbrev Unheld : Option ℕ → List Sp → Type 0
Unheld none ss = Unit
Unheld (some p) ss = held p ss ≡ 0

-- The promotion gave the wp's pointer, or a null one where no sp held the object.
abbrev pub Granted : (ℕ → Lifetime) → List Sp → List Wp → Option ℕ → Sp → World → Type 0
Granted m ss ws p s w = ((s.m_ptr ≡ p) ⊎ ((s.m_ptr ≡ none) × Unheld p ss)) × Owned m (s ∷ ss) ws w

Acts-Promoted :
    (m : Lifetime) (p s n : ℕ) (o : Option (Bool × Refs))
    → Acts (Promoted m s n) o
    → Acts (λ b r. Agree m (hits p (granted p b) + s) n r × ((b ≡ true) ⊎ (s ≡ 0))) o
Acts-Promoted m p s n none h = h
Acts-Promoted m p s n (some (true, r)) h =
    let e : hits p (some p) + s ≡ suc s = omega (arith, hits_self p) in (rw e h, inl refl)
Acts-Promoted m p s n (some (false, r)) h = let e : 0 + s ≡ s = omega arith in (rw e h.0, inr h.1)

module _ (m : ℕ → Lifetime) (ss : List Sp) (ws : List Wp) (w : World) where
  promote_one :
      (p n : ℕ)
      → watched p ws ≡ suc n
      → Owned m ss ws w
      → Room ss ws
      → Acts
          (Promoted (m p) (held p ss) (watched p ws))
          (attempt_inc_strong (λ flags. true) quiet (w p))
  promote_one p n e o room = rw e (
      attempt_inc_strong-Promoted (m p) (held p ss) n (w p)
        (omega (arith, held-le p ss, watched-le p ws)) (rw e at (o.agree p)))

  settle :
      (p : ℕ)
      → All IsWhole ws
      → (run : Option (Bool × World))
      → Runs
          (λ b w'.
            Counted m (λ a. hits a (granted p b) + held a ss) (λ a. watched a ws) w'
            × ((b ≡ true) ⊎ (held p ss ≡ 0)))
          run
      → Runs (Granted m ss ws (some p)) (elim run [
        | none ↦ none
        | some (b, w) ↦ some (if b then set_pointer sp_null (some p) else sp_null, w)
      ])
  unfolding set_pointer sp_null
  settle p whole none h = h
  settle p whole (some (true, w')) h = (inl refl, record { agree = h.0; whole = whole })
  settle p whole (some (false, w')) h =
      (inr (refl, ground arith), record { agree = h.0; whole = whole })

  promote_set :
      (p n : ℕ)
      → watched p ws ≡ suc n
      → Owned m ss ws w
      → Room ss ws
      → Runs (Granted m ss ws (some p)) (promote_at (λ flags. true) quiet (some p) (some p) w)
  unfolding promote_at
  promote_set p n e o room = settle p o.whole (at p (attempt_inc_strong (λ flags. true) quiet) w) (
      at-Counted_and m (λ a. held a ss) (λ a. watched a ws)
        (λ b a. hits a (granted p b) + held a ss) (λ b a. watched a ws) p
        (attempt_inc_strong (λ flags. true) quiet) w (λ b. (b ≡ true) ⊎ (held p ss ≡ 0)) o.agree
        (λ b q miss. (untouched b q miss, refl))
        (Acts-Promoted (m p) p (held p ss) (watched p ws)
          (attempt_inc_strong (λ flags. true) quiet (w p)) (promote_one p n e o room)))
    where
      untouched :
          (b : Bool) (q : ℕ) → (p == q) ≡ false → hits q (granted p b) + held q ss ≡ held q ss
      untouched true q miss = omega (arith, hits_other q p miss)
      untouched false q miss = omega arith

  promote_at-Granted :
      (p refs : Option ℕ)
      → Matches p refs
      → Owned m ss ws w
      → Room ss ws
      → InPlay p (λ a. watched a ws)
      → Runs (Granted m ss ws p) (promote_at (λ flags. true) quiet p refs w)
  unfolding promote_at
  promote_at-Granted none refs whole o room play = (
    inl refl,
    record {
      agree =
          Counted-same m (λ a. held a ss) (λ a. watched a ws) (λ a. held a (sp none ∷ ss))
            (λ a. watched a ws) w (λ a. (omega arith, refl)) o.agree;
      whole = o.whole;
    },
  )
  promote_at-Granted (some p) refs whole o room play =
      rw whole (promote_set p (watched p ws - 1) (omega arith) o room)

  -- Wp::promote of a wp that is held and whole, where the counters of every object are the numbers
  -- of the sps and wps that point to it, with room, no other thread in between and an object that
  -- agrees to be revived, ends without a fault; the answer is the wp's pointer, or null where no sp
  -- held the object, and the counters agree with the pointers again when the answer counts as an
  -- sp.
  pub promote-Granted :
      (this : Wp)
      → IsWhole this
      → Owned m ss ws w
      → Room ss ws
      → InPlay this.m_ptr (λ a. watched a ws)
      → Runs (Granted m ss ws this.m_ptr) (promote (λ flags. true) quiet this w)
  unfolding promote
  promote-Granted this whole o room play =
      promote_at-Granted this.m_ptr this.m_refs whole o room play
