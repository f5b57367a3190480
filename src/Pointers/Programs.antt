-- ===== src/Pointers/Programs.antt =====
-- Every operation of sp and wp keeps the counters of all objects equal to the numbers of the sps
-- and wps that a program holds.
use vmodule.Base.{ℕ, ◌+◌, ◌≡◌, refl, Option, none, some, List, ◌∷◌, arith}
use vmodule.RefBase.{inc_strong, dec_strong, inc_weak, dec_weak}
use vmodule.RefBase.Phase.{Lifetime}
use vmodule.Pointers.{World, Cmd, pure, ◌>>=◌, ◌>>◌, if_set, at}
use vmodule.Pointers.Strong.{Sp, sp_copy, sp_destroy, sp_assign}
use vmodule.Pointers.Weak.{Wp, wp, wp_of_sp, wp_copy, wp_destroy, wp_assign, if_held, or_junk}
use vmodule.Pointers.Held.{
  held, watched, held-le, watched-le, Runs, seq_Runs, mono_Runs, Count, Room, Owned, Matches,
  IsWhole,
}
use vmodule.Pointers.Owners.{
  InPlay, Small, grab, release, watch_set, forget_set, through-if_set, Counted-same,
}

-- The sp points nowhere, or where one of these sps or wps points.
abbrev pub Reachable : Option ℕ → List Sp → List Wp → Type 0
Reachable p ss ws = InPlay p (λ a. held a ss + watched a ws)

small : (ss : List Sp) (ws : List Wp) → Room ss ws → Small (λ a. held a ss) (λ a. watched a ws)
small ss ws room a = omega (arith, held-le a ss, watched-le a ws)

or_junk-Matches : (p junk : Option ℕ) → Matches p (or_junk p junk)
or_junk-Matches none junk = tt
or_junk-Matches (some p) junk = refl

-- A unit command, a value, and a function of the value.
Runs-twice :
    {A B : Type 0} (f : A → B) (P : B → World → Type 0) (c : Cmd (Unit {0})) (a : A) (w : World)
    → Runs (λ u. P (f a)) (c w)
    → Runs P (((c >> pure a) >>= λ x. pure (f x)) w)
Runs-twice {A} {B} f P c a w h = go (c w) h
  where
    go :
        (run : Option (Unit {0} × World))
        → Runs (λ u. P (f a)) run
        → Runs P
            (elim (elim run as (λ x. Option (A × World)) [
              | none ↦ none
              | some (u, w) ↦ some (a, w)
            ])
              as (λ x. Option (B × World)) [ none ↦ none | some (x, w) ↦ some (f x, w) ])
    go none h = h
    go (some (u, w)) h = h

module _ (m : ℕ → Lifetime) (ss : List Sp) (ws : List Wp) (w : World) where
  -- The answer is `x`, and now counts among the sps; or among the wps.
  abbrev pub NewSp : Sp → Sp → World → Type 0
  NewSp x s w' = (s ≡ x) × Owned m (s ∷ ss) ws w'

  abbrev pub NewWp : Wp → Wp → World → Type 0
  NewWp x s w' = (s ≡ x) × Owned m ss (s ∷ ws) w'

  -- Copying an sp that is held ends without a fault, gives an equal sp, and the counters of every
  -- object are the numbers of the sps and wps that point to it, the copy included.
  pub sp_copy-Owned :
      (other : Sp)
      → Owned m ss ws w
      → Room ss ws
      → InPlay other.m_ptr (λ a. held a ss)
      → Runs (NewSp other) (sp_copy other w)
  unfolding sp_copy
  sp_copy-Owned other o room play =
      seq_Runs (Count m (other ∷ ss) ws) (NewSp other) (if_set other.m_ptr inc_strong) (pure other)
        w
        (grab m (λ a. held a ss) (λ a. watched a ws) w other.m_ptr (small ss ws room) play o.agree)
        λ w' c. (refl, record { agree = c; whole = o.whole })

  -- The destructor of an sp ends without a fault, and the counters of every object are the numbers
  -- of the sps and wps that are left.
  pub sp_destroy-Owned :
      (this : Sp)
      → Owned m (this ∷ ss) ws w
      → Room (this ∷ ss) ws
      → Runs (λ u. Owned m ss ws) (sp_destroy this w)
  unfolding sp_destroy
  sp_destroy-Owned this o room =
      mono_Runs (λ u. Count m ss ws) (λ u. Owned m ss ws) (if_set this.m_ptr dec_strong w)
        (λ u w' c. record { agree = c; whole = o.whole })
        (release m (λ a. held a ss) (λ a. watched a ws) w this.m_ptr (small (this ∷ ss) ws room)
          o.agree)

  -- Assigning to an sp from an sp that is held, which may be the same one, ends without a fault,
  -- gives the source's pointer, and keeps the counters of every object equal to the numbers of the
  -- sps and wps that point to it.
  pub sp_assign-Owned :
      (this other : Sp)
      → Owned m (this ∷ ss) ws w
      → Room (other ∷ this ∷ ss) ws
      → InPlay other.m_ptr (λ a. held a (this ∷ ss))
      → Runs (NewSp other) (sp_assign this other w)
  unfolding sp_assign
  sp_assign-Owned this other o room play =
      seq_Runs (Count m (other ∷ this ∷ ss) ws) (NewSp other) (if_set other.m_ptr inc_strong)
        (if_set this.m_ptr dec_strong >> pure other) w
        (grab m (λ a. held a (this ∷ ss)) (λ a. watched a ws) w other.m_ptr
          (λ a. omega (arith, held-le a (this ∷ ss), watched-le a ws)) play o.agree)
        λ w' c.
          seq_Runs (Count m (other ∷ ss) ws) (NewSp other) (if_set this.m_ptr dec_strong)
            (pure other) w'
            (release m (λ a. held a (other ∷ ss)) (λ a. watched a ws) w' this.m_ptr
              (λ a. omega (arith, held-le a (this ∷ other ∷ ss), watched-le a ws))
              (Counted-same m (λ a. held a (other ∷ this ∷ ss)) (λ a. watched a ws)
                (λ a. held a (this ∷ other ∷ ss)) (λ a. watched a ws) w' (λ a. (omega arith, refl))
                c))
            λ w'' c. (refl, record { agree = c; whole = o.whole })

  -- Making a wp from an sp to an object that an sp or a wp points to ends without a fault, gives a
  -- wp to that object, and the counters of every object are the numbers of the sps and wps that
  -- point to it, the new one included; a wp to no object has the m_refs that its memory held.
  pub wp_of_sp-Owned :
      (junk : Option ℕ) (other : Sp)
      → Owned m ss ws w
      → Room ss ws
      → Reachable other.m_ptr ss ws
      → Runs (NewWp (wp other.m_ptr (or_junk other.m_ptr junk))) (wp_of_sp junk other w)
  unfolding wp_of_sp
  wp_of_sp-Owned junk other o room play =
      let x = wp other.m_ptr (or_junk other.m_ptr junk) in
      mono_Runs (NewWp x) (NewWp x) (wp_of_sp junk other w) (λ s w' h. h)
        (Runs-twice (λ p. wp other.m_ptr (or_junk p junk)) (NewWp x) (if_set other.m_ptr inc_weak)
          other.m_ptr w
          (mono_Runs (λ u. Count m ss (x ∷ ws)) (λ u. NewWp x x) (if_set other.m_ptr inc_weak w)
            (λ u w' c.
              (refl, record { agree = c; whole = (or_junk-Matches other.m_ptr junk, o.whole) }))
            (watch_set m (λ a. held a ss) (λ a. watched a ws) w other.m_ptr (small ss ws room) play
              o.agree)))

  -- Copying a whole wp to an object that an sp or a wp points to ends without a fault, gives an
  -- equal wp, and the counters of every object are the numbers of the sps and wps that point to it,
  -- the copy included.
  pub wp_copy-Owned :
      (other : Wp)
      → IsWhole other
      → Owned m ss ws w
      → Room ss ws
      → Reachable other.m_ptr ss ws
      → Runs (NewWp other) (wp_copy other w)
  unfolding wp_copy
  wp_copy-Owned other whole o room play =
      seq_Runs (Count m ss (other ∷ ws)) (NewWp other) (if_held other (λ r. at r inc_weak))
        (pure other) w
        (rw (through-if_set other.m_ptr other.m_refs inc_weak w whole) (
          watch_set m (λ a. held a ss) (λ a. watched a ws) w other.m_ptr (small ss ws room) play
            o.agree))
        λ w' c. (refl, record { agree = c; whole = (whole, o.whole) })

  -- The destructor of a wp ends without a fault, and the counters of every object are the numbers
  -- of the sps and wps that are left.
  pub wp_destroy-Owned :
      (this : Wp)
      → Owned m ss (this ∷ ws) w
      → Room ss (this ∷ ws)
      → Runs (λ u. Owned m ss ws) (wp_destroy this w)
  unfolding wp_destroy
  wp_destroy-Owned this o room =
      mono_Runs (λ u. Count m ss ws) (λ u. Owned m ss ws) (wp_destroy this w)
        (λ u w' c. record { agree = c; whole = o.whole.1 })
        (rw (through-if_set this.m_ptr this.m_refs dec_weak w o.whole.0) (
          forget_set m (λ a. held a ss) (λ a. watched a ws) w this.m_ptr (small ss (this ∷ ws) room)
            o.agree))

  -- Assigning to a wp from a whole wp to an object that an sp or a wp points to, which may be the
  -- same wp, ends without a fault, gives the source, and keeps the counters of every object equal
  -- to the numbers of the sps and wps that point to it.
  pub wp_assign-Owned :
      (this other : Wp)
      → IsWhole other
      → Owned m ss (this ∷ ws) w
      → Room ss (other ∷ this ∷ ws)
      → Reachable other.m_ptr ss (this ∷ ws)
      → Runs (NewWp other) (wp_assign this other w)
  unfolding wp_assign
  wp_assign-Owned this other whole o room play =
      seq_Runs (Count m ss (other ∷ this ∷ ws)) (NewWp other) (if_held other (λ r. at r inc_weak))
        (if_held this (λ r. at r dec_weak) >> pure other) w
        (rw (through-if_set other.m_ptr other.m_refs inc_weak w whole) (
          watch_set m (λ a. held a ss) (λ a. watched a (this ∷ ws)) w other.m_ptr
            (λ a. omega (arith, held-le a ss, watched-le a (this ∷ ws))) play o.agree))
        λ w' c.
          seq_Runs (Count m ss (other ∷ ws)) (NewWp other) (if_held this (λ r. at r dec_weak))
            (pure other) w'
            (rw (through-if_set this.m_ptr this.m_refs dec_weak w' o.whole.0) (
              forget_set m (λ a. held a ss) (λ a. watched a (other ∷ ws)) w' this.m_ptr
                (λ a. omega (arith, held-le a ss, watched-le a (this ∷ other ∷ ws)))
                (Counted-same m (λ a. held a ss) (λ a. watched a (other ∷ this ∷ ws))
                  (λ a. held a ss) (λ a. watched a (this ∷ other ∷ ws)) w'
                  (λ a. (refl, omega arith)) c)))
            λ w'' c. (refl, record { agree = c; whole = (whole, o.whole.1) })
