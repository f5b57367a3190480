-- ===== src/Pointers/Session.antt =====
-- A program that holds any number of sps and wps and runs operations of include/sutils/StrongPointer.h
-- and include/sutils/RefBase.h on them, one after the other.
pub mod Places
pub mod Kept
pub mod Safe
use vmodule.Base.{ℕ, zero, suc, Bool, true, Option, none, some, List, [], ◌∷◌, get_elem?}
use vmodule.RefBase.Promote.{quiet}
use vmodule.Pointers.{World}
use vmodule.Pointers.Strong.{Sp, sp_copy, sp_destroy, sp_assign}
use vmodule.Pointers.Weak.{Wp, wp_of_sp, wp_copy, wp_destroy, wp_assign, promote}

abbrev pub Pocket : Type 0
Pocket = List Sp × List Wp

-- An operation, on the pointers at these places of the two lists.
pub data Command : Type 0 where
  copies : (i : ℕ) → Command
  drops : (i : ℕ) → Command
  assigns : (i j : ℕ) → Command
  watches : (junk : Option ℕ) (i : ℕ) → Command
  copies_weak : (i : ℕ) → Command
  drops_weak : (i : ℕ) → Command
  assigns_weak : (i j : ℕ) → Command
  promotes : (i : ℕ) → Command

-- The element at a place, and the others.
abbrev pub pick {ℓ} : {A : Type ℓ} → ℕ → List A → Option (A × List A)
pick i [] = none
pick zero (x ∷ xs) = some (x, xs)
pick (suc i) (x ∷ xs) = elim (pick i xs) [ none ↦ none | some p ↦ some (p.0, x ∷ p.1) ]

abbrev pub Run : Type 0
Run = Option (Pocket × World)

abbrev pub keeping : {A : Type 0} → (A → Pocket) → Option (A × World) → Run
keeping f none = none
keeping f (some (a, w)) = some (f a, w)

-- Nothing happens at a place that is not there.
abbrev pub if_there : {A : Type 0} → Option A → (A → Run) → Run → Run
if_there none act idle = idle
if_there (some a) act idle = act a

unfoldable pub act : Command → Pocket → World → Run
act (copies i) (ss, ws) w =
    if_there (get_elem? ss i) (λ s. keeping (λ s'. (s' ∷ ss, ws)) (sp_copy s w))
      (some ((ss, ws), w))
act (drops i) (ss, ws) w =
    if_there (pick i ss) (λ p. keeping (λ u. (p.1, ws)) (sp_destroy (p.0) w)) (some ((ss, ws), w))
act (assigns i j) (ss, ws) w =
    if_there (pick i ss)
      (λ p.
        if_there (get_elem? ss j)
          (λ other. keeping (λ s'. (s' ∷ p.1, ws)) (sp_assign (p.0) other w)) (some ((ss, ws), w)))
      (some ((ss, ws), w))
act (watches junk i) (ss, ws) w =
    if_there (get_elem? ss i) (λ s. keeping (λ x. (ss, x ∷ ws)) (wp_of_sp junk s w))
      (some ((ss, ws), w))
act (copies_weak i) (ss, ws) w =
    if_there (get_elem? ws i) (λ x. keeping (λ x'. (ss, x' ∷ ws)) (wp_copy x w))
      (some ((ss, ws), w))
act (drops_weak i) (ss, ws) w =
    if_there (pick i ws) (λ p. keeping (λ u. (ss, p.1)) (wp_destroy (p.0) w)) (some ((ss, ws), w))
act (assigns_weak i j) (ss, ws) w =
    if_there (pick i ws)
      (λ p.
        if_there (get_elem? ws j)
          (λ other. keeping (λ x'. (ss, x' ∷ p.1)) (wp_assign (p.0) other w)) (some ((ss, ws), w)))
      (some ((ss, ws), w))
act (promotes i) (ss, ws) w =
    if_there (get_elem? ws i) (λ x. keeping (λ s. (s ∷ ss, ws)) (promote (λ flags. true) quiet x w))
      (some ((ss, ws), w))

abbrev pub then_acts : (Pocket → World → Run) → Run → Run
then_acts rest none = none
then_acts rest (some (p, w)) = rest p w

unfoldable pub session : List Command → Pocket → World → Run
unfolding act
session [] p w = some (p, w)
session (c ∷ cs) p w = then_acts (session cs) (act c p w)
