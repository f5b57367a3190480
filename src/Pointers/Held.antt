-- ===== src/Pointers/Held.antt =====
-- How many of a program's smart pointers point to an address, and what one command does when the
-- counters of every object are these numbers.
use vmodule.Base.{
  ℕ, ◌+◌, ◌<◌, ◌≤◌, ◌≡◌, subst, false, Option, none, some, List, [], ◌∷◌, arith, ◌==◌,
  if◌then◌else◌, length, Bool-cases, inl, inr, ==_iff, All,
}
use vmodule.RefBase
use vmodule.RefBase.{Refs, initial_strong_value}
use vmodule.RefBase.Phase.{Lifetime}
use vmodule.Pointers.{World, Cmd, update, at, ◌>>◌}
use vmodule.Pointers.Strong.{Sp}
use vmodule.Pointers.Weak.{Wp}
use vmodule.Pointers.Ownership.{Agree, Acts}

-- 1 if the pointer is the address, 0 if not.
abbrev pub hits : ℕ → Option ℕ → ℕ
hits a none = 0
hits a (some p) = if p == a then 1 else 0

abbrev pub held : ℕ → List Sp → ℕ
held a [] = 0
held a (s ∷ ss) = hits a s.m_ptr + held a ss

abbrev pub watched : ℕ → List Wp → ℕ
watched a [] = 0
watched a (w ∷ ws) = hits a w.m_ptr + watched a ws

-- m_refs belongs to the object of m_ptr.
abbrev pub Matches : Option ℕ → Option ℕ → Type 0
Matches none refs = Unit
Matches (some p) refs = refs ≡ some p

abbrev pub IsWhole : Wp → Type 0
IsWhole w = Matches w.m_ptr w.m_refs

-- The counters of every object are the numbers of the sps and wps that point to it.
pub record Owned (m : ℕ → Lifetime) (ss : List Sp) (ws : List Wp) (w : World) : Type 0 where
  pub agree : (a : ℕ) → Agree (m a) (held a ss) (watched a ws) (w a)
  pub whole : All IsWhole ws

-- So few pointers that no counter comes near its limit.
abbrev pub Room : List Sp → List Wp → Type 0
Room ss ws = length ss + length ws + 2 < initial_strong_value

pub hits-le : (a : ℕ) (p : Option ℕ) → hits a p ≤ 1
hits-le a none = omega arith
hits-le a (some p) = ground arith

pub held-le : (a : ℕ) (ss : List Sp) → held a ss ≤ length ss
held-le a [] = omega arith
held-le a (s ∷ ss) = omega (arith, held-le a ss, hits-le a s.m_ptr)

pub watched-le : (a : ℕ) (ws : List Wp) → watched a ws ≤ length ws
watched-le a [] = omega arith
watched-le a (w ∷ ws) = omega (arith, watched-le a ws, hits-le a w.m_ptr)

pub hits_self : (a : ℕ) → hits a (some a) ≡ 1
hits_self a = ground arith

pub hits_other : (a p : ℕ) → (p == a) ≡ false → hits a (some p) ≡ 0
hits_other a p h = rw h

-- The command ends without a fault, and with P.
abbrev pub Runs : {A : Type 0} → (A → World → Type 0) → Option (A × World) → Type 0
Runs P none = ⊥
Runs P (some (a, w)) = P a w

pub seq_Runs :
    {B : Type 0} (P : World → Type 0) (Q : B → World → Type 0) (c : Cmd (Unit {0})) (k : Cmd B)
    (w : World)
    → Runs (λ u. P) (c w)
    → ((w' : World) → P w' → Runs Q (k w'))
    → Runs Q ((c >> k) w)
seq_Runs P Q c k w p h = go (c w) p
  where
    go :
        (run : Option (Unit {0} × World))
        → Runs (λ u. P) run
        → Runs Q (elim run [ none ↦ none | some (u, w) ↦ k w ])
    go none p = p
    go (some (u, w)) p = h w p

pub mono_Runs :
    {A : Type 0} (P Q : A → World → Type 0) (run : Option (A × World))
    → ((a : A) (w : World) → P a w → Q a w)
    → Runs P run
    → Runs Q run
mono_Runs P Q none h p = p
mono_Runs P Q (some (a, w)) h p = h a w p

-- The numbers of pointers to each address, in place of the pointers.
abbrev pub Counted : (ℕ → Lifetime) → (ℕ → ℕ) → (ℕ → ℕ) → World → Type 0
Counted m s n w = (a : ℕ) → Agree (m a) (s a) (n a) (w a)

-- The pointers of two lists.
abbrev pub Count : (ℕ → Lifetime) → List Sp → List Wp → World → Type 0
Count m ss ws = Counted m (λ a. held a ss) (λ a. watched a ws)

module _ (m : ℕ → Lifetime) {A : Type 0} (s n : ℕ → ℕ) (s' n' : A → ℕ → ℕ) (p : ℕ) (c : RefBase.M A)
    (w : World) where
  stored :
      (a : A) (r : Refs)
      → Counted m s n w
      → ((q : ℕ) → (p == q) ≡ false → (s' a q ≡ s q) × (n' a q ≡ n q))
      → Agree (m p) (s' a p) (n' a p) r
      → Counted m (s' a) (n' a) (update w p r)
  unfolding update
  stored a r all same one q = elim (Bool-cases (p == q)) [
    | inl hit ↦ rw hit (subst (λ t. Agree (m t) (s' a t) (n' a t) r) ((==_iff p q).0 hit) one)
    | inr miss ↦ rw (miss, (same q miss).0, (same q miss).1) (all q)
  ]

  -- A call on one object that moves its counters along with the pointers to it.
  pub at-Counted :
      Counted m s n w
      → ((a : A) (q : ℕ) → (p == q) ≡ false → (s' a q ≡ s q) × (n' a q ≡ n q))
      → Acts (λ a. Agree (m p) (s' a p) (n' a p)) (c (w p))
      → Runs (λ a. Counted m (s' a) (n' a)) (at p c w)
  unfolding at
  at-Counted all same acts = go (c (w p)) acts
    where
      go :
          (o : Option (A × Refs))
          → Acts (λ a. Agree (m p) (s' a p) (n' a p)) o
          → Runs
              (λ a. Counted m (s' a) (n' a))
              (elim o [ none ↦ none | some (a, r) ↦ some (a, update w p r) ])
      go none acts = acts
      go (some (a, r)) acts = stored a r all (same a) acts

  -- The same, with a fact about the answer.
  pub at-Counted_and :
      (E : A → Type 0)
      → Counted m s n w
      → ((a : A) (q : ℕ) → (p == q) ≡ false → (s' a q ≡ s q) × (n' a q ≡ n q))
      → Acts (λ a r. Agree (m p) (s' a p) (n' a p) r × E a) (c (w p))
      → Runs (λ a w'. Counted m (s' a) (n' a) w' × E a) (at p c w)
  unfolding at
  at-Counted_and E all same acts = go (c (w p)) acts
    where
      go :
          (o : Option (A × Refs))
          → Acts (λ a r. Agree (m p) (s' a p) (n' a p) r × E a) o
          → Runs
              (λ a w'. Counted m (s' a) (n' a) w' × E a)
              (elim o [ none ↦ none | some (a, r) ↦ some (a, update w p r) ])
      go none acts = acts
      go (some (a, r)) acts = (stored a r all (same a) acts.0, acts.1)
