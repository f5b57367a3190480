-- ===== src/Pointers/Session/Safe.antt =====
-- Every operation of a program on its sps and wps keeps the counters of all objects in step with them.
use vmodule.Base.{
  ℕ, suc, ◌+◌, ◌<◌, ◌≡◌, refl, true, Option, none, some, List, [], ◌∷◌, length, get_elem?, arith,
}
use vmodule.RefBase.{initial_strong_value}
use vmodule.RefBase.Phase.{Lifetime}
use vmodule.RefBase.Promote.{quiet}
use vmodule.Pointers.{World}
use vmodule.Pointers.Strong.{Sp, sp_copy, sp_destroy, sp_assign}
use vmodule.Pointers.Weak.{Wp, wp, or_junk, wp_of_sp, wp_copy, wp_destroy, wp_assign, promote}
use vmodule.Pointers.Held.{held, watched, Owned, Runs, mono_Runs}
use vmodule.Pointers.Programs.{
  NewSp, NewWp, sp_copy-Owned, sp_destroy-Owned, sp_assign-Owned, wp_of_sp-Owned, wp_copy-Owned,
  wp_destroy-Owned, wp_assign-Owned,
}
use vmodule.Pointers.Promotion.{Granted, promote-Granted}
use vmodule.Pointers.Session.Places.{InPlay-more, get-held, get-watched, pick-held, pick-watched}
use vmodule.Pointers.Session.{
  Pocket, Command, copies, drops, assigns, watches, copies_weak, drops_weak, assigns_weak, promotes,
  pick, Run, act, then_acts, session,
}
use vmodule.Pointers.Session.Kept.{Safe, keeping-Runs, if_there-Runs, recounted}

module _ (m : ℕ → Lifetime) (n : ℕ) (room : n + 5 < initial_strong_value) (ss : List Sp)
    (ws : List Wp) (w : World) (safe : Safe m n (ss, ws) w) where
  abbrev After : Run → Type 0
  After = Runs (Safe m (suc n))

  idle : After (some ((ss, ws), w))
  idle = (safe.0, omega (arith, safe.1))

  act-copies : (i : ℕ) → After (act (copies i) (ss, ws) w)
  unfolding act
  act-copies i = if_there-Runs (Safe m (suc n)) (get_elem? ss i) _ _ idle (λ s e.
      keeping-Runs (Safe m (suc n)) (λ s'. (s' ∷ ss, ws)) (sp_copy s w)
        (mono_Runs (NewSp m ss ws w s) (λ s'. Safe m (suc n) (s' ∷ ss, ws)) (sp_copy s w)
          (λ s' w' h. (h.1, omega (arith, safe.1)))
          (sp_copy-Owned m ss ws w s (safe.0) (omega (arith, safe.1)) (get-held ss i s e))))

  picked :
      (i : ℕ) (p : Sp × List Sp)
      → pick i ss ≡ some p
      → Owned m (p.0 ∷ p.1) ws w × (length ss ≡ suc (length (p.1)))
  picked i p e =
      let (count, size) = pick-held ss i p e in
      (recounted m ss (p.0 ∷ p.1) ws ws w (safe.0) count (λ a. refl) ((safe.0).whole), size)

  picked_weak :
      (i : ℕ) (p : Wp × List Wp)
      → pick i ws ≡ some p
      → Owned m ss (p.0 ∷ p.1) w × (length ws ≡ suc (length (p.1)))
  picked_weak i p e =
      let (count, size, one, others) = pick-watched ws i p e ((safe.0).whole) in
      (recounted m ss ss ws (p.0 ∷ p.1) w (safe.0) (λ a. refl) count (one, others), size)

  act-drops : (i : ℕ) → After (act (drops i) (ss, ws) w)
  unfolding act
  act-drops i = if_there-Runs (Safe m (suc n)) (pick i ss) _ _ idle (λ p e.
      let (o, size) = picked i p e in
      keeping-Runs (Safe m (suc n)) (λ u. (p.1, ws)) (sp_destroy (p.0) w)
        (mono_Runs (λ u. Owned m (p.1) ws) (λ u. Safe m (suc n) (p.1, ws)) (sp_destroy (p.0) w)
          (λ u w' h. (h, omega (arith, safe.1, size)))
          (sp_destroy-Owned m (p.1) ws w (p.0) o (omega (arith, safe.1, size)))))

  act-assigns : (i j : ℕ) → After (act (assigns i j) (ss, ws) w)
  unfolding act
  act-assigns i j = if_there-Runs (Safe m (suc n)) (pick i ss) _ _ idle (λ p e.
      let (o, size) = picked i p e in
      let count = (pick-held ss i p e).0 in
      if_there-Runs (Safe m (suc n)) (get_elem? ss j) _ _ idle (λ s e'.
        keeping-Runs (Safe m (suc n)) (λ s'. (s' ∷ p.1, ws)) (sp_assign (p.0) s w)
          (mono_Runs (NewSp m (p.1) ws w s) (λ s'. Safe m (suc n) (s' ∷ p.1, ws))
            (sp_assign (p.0) s w) (λ s' w' h. (h.1, omega (arith, safe.1, size)))
            (sp_assign-Owned m (p.1) ws w (p.0) s o (omega (arith, safe.1, size)) (
              InPlay-more s.m_ptr (λ a. held a ss) (λ a. held a (p.0 ∷ p.1))
                (λ a. omega (arith, count a)) (get-held ss j s e'))))))

  act-watches : (junk : Option ℕ) (i : ℕ) → After (act (watches junk i) (ss, ws) w)
  unfolding act
  act-watches junk i = if_there-Runs (Safe m (suc n)) (get_elem? ss i) _ _ idle (λ s e.
      keeping-Runs (Safe m (suc n)) (λ x. (ss, x ∷ ws)) (wp_of_sp junk s w)
        (mono_Runs (NewWp m ss ws w (wp s.m_ptr (or_junk s.m_ptr junk)))
          (λ x. Safe m (suc n) (ss, x ∷ ws)) (wp_of_sp junk s w)
          (λ x w' h. (h.1, omega (arith, safe.1)))
          (wp_of_sp-Owned m ss ws w junk s (safe.0) (omega (arith, safe.1)) (
            InPlay-more s.m_ptr (λ a. held a ss) (λ a. held a ss + watched a ws) (λ a. omega arith)
              (get-held ss i s e)))))

  act-copies_weak : (i : ℕ) → After (act (copies_weak i) (ss, ws) w)
  unfolding act
  act-copies_weak i = if_there-Runs (Safe m (suc n)) (get_elem? ws i) _ _ idle (λ x e.
      let (play, whole) = get-watched ws i x e ((safe.0).whole) in
      keeping-Runs (Safe m (suc n)) (λ x'. (ss, x' ∷ ws)) (wp_copy x w)
        (mono_Runs (NewWp m ss ws w x) (λ x'. Safe m (suc n) (ss, x' ∷ ws)) (wp_copy x w)
          (λ x' w' h. (h.1, omega (arith, safe.1)))
          (wp_copy-Owned m ss ws w x whole (safe.0) (omega (arith, safe.1)) (
            InPlay-more x.m_ptr (λ a. watched a ws) (λ a. held a ss + watched a ws)
              (λ a. omega arith) play))))

  act-drops_weak : (i : ℕ) → After (act (drops_weak i) (ss, ws) w)
  unfolding act
  act-drops_weak i = if_there-Runs (Safe m (suc n)) (pick i ws) _ _ idle (λ p e.
      let (o, size) = picked_weak i p e in
      keeping-Runs (Safe m (suc n)) (λ u. (ss, p.1)) (wp_destroy (p.0) w)
        (mono_Runs (λ u. Owned m ss (p.1)) (λ u. Safe m (suc n) (ss, p.1)) (wp_destroy (p.0) w)
          (λ u w' h. (h, omega (arith, safe.1, size)))
          (wp_destroy-Owned m ss (p.1) w (p.0) o (omega (arith, safe.1, size)))))

  act-assigns_weak : (i j : ℕ) → After (act (assigns_weak i j) (ss, ws) w)
  unfolding act
  act-assigns_weak i j = if_there-Runs (Safe m (suc n)) (pick i ws) _ _ idle (λ p e.
      let (o, size) = picked_weak i p e in
      let count = (pick-watched ws i p e ((safe.0).whole)).0 in
      if_there-Runs (Safe m (suc n)) (get_elem? ws j) _ _ idle (λ x e'.
        let (play, whole) = get-watched ws j x e' ((safe.0).whole) in
        keeping-Runs (Safe m (suc n)) (λ x'. (ss, x' ∷ p.1)) (wp_assign (p.0) x w)
          (mono_Runs (NewWp m ss (p.1) w x) (λ x'. Safe m (suc n) (ss, x' ∷ p.1))
            (wp_assign (p.0) x w) (λ x' w' h. (h.1, omega (arith, safe.1, size)))
            (wp_assign-Owned m ss (p.1) w (p.0) x whole o (omega (arith, safe.1, size)) (
              InPlay-more x.m_ptr (λ a. watched a ws) (λ a. held a ss + watched a (p.0 ∷ p.1))
                (λ a. omega (arith, count a)) play)))))

  act-promotes : (i : ℕ) → After (act (promotes i) (ss, ws) w)
  unfolding act
  act-promotes i = if_there-Runs (Safe m (suc n)) (get_elem? ws i) _ _ idle (λ x e.
      let (play, whole) = get-watched ws i x e ((safe.0).whole) in
      keeping-Runs (Safe m (suc n)) (λ s. (s ∷ ss, ws)) (promote (λ flags. true) quiet x w)
        (mono_Runs (Granted m ss ws x.m_ptr) (λ s. Safe m (suc n) (s ∷ ss, ws))
          (promote (λ flags. true) quiet x w) (λ s w' h. (h.1, omega (arith, safe.1)))
          (promote-Granted m ss ws w x whole (safe.0) (omega (arith, safe.1)) play)))

  act-Safe : (c : Command) → After (act c (ss, ws) w)
  act-Safe (copies i) = act-copies i
  act-Safe (drops i) = act-drops i
  act-Safe (assigns i j) = act-assigns i j
  act-Safe (watches junk i) = act-watches junk i
  act-Safe (copies_weak i) = act-copies_weak i
  act-Safe (drops_weak i) = act-drops_weak i
  act-Safe (assigns_weak i j) = act-assigns_weak i j
  act-Safe (promotes i) = act-promotes i

-- A program that holds sps and wps, with the counters of every object equal to the numbers of those
-- that point to it, and with room for one more pointer per operation, runs any sequence of copies,
-- assignments and destructors of sps and wps, of wps made from sps and of promotions, on any of its
-- pointers, without a fault, and ends with the counters of every object equal to the numbers of the
-- sps and wps that it then holds; no other thread comes in between, and an object agrees to be
-- revived.
pub session-Safe :
    (m : ℕ → Lifetime) (cs : List Command) (n : ℕ) (p : Pocket) (w : World)
    → n + length cs + 5 < initial_strong_value
    → Safe m n p w
    → Runs (λ p'. Owned m (p'.0) (p'.1)) (session cs p w)
unfolding session
session-Safe m [] n p w room safe = safe.0
session-Safe m (c ∷ cs) n (ss, ws) w room safe =
    go (session-Safe m cs (suc n)) (act c (ss, ws) w) (act-Safe m n (omega arith) ss ws w safe c)
  where
    go :
        ((p : Pocket) (w : World)
          → suc n + length cs + 5 < initial_strong_value
          → Safe m (suc n) p w
          → Runs (λ p'. Owned m (p'.0) (p'.1)) (session cs p w))
        → (run : Run) → Runs (Safe m (suc n)) run
        → Runs (λ p'. Owned m (p'.0) (p'.1)) (then_acts (session cs) run)
    go rest none h = h
    go rest (some (p, w')) h = rest p w' (omega arith) h
