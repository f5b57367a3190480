-- ===== src/Pointers/Ownership.antt =====
-- The contract between the smart pointers and the objects: the counters of an object are the
-- numbers of sps and wps that point to it. Here one object at a time; Owners has whole programs.
use vmodule.Base.{
  ℕ, zero, suc, ◌+◌, ◌<◌, ◌≡◌, refl, Bool, true, false, Option, none, some, List, ◌⊎◌, inl, inr,
  arith, Option-cases,
}
use vmodule.RefBase.{Refs, Event, inc_strong, dec_strong, inc_weak, dec_weak, initial_strong_value}
use vmodule.RefBase.Promote.{quiet, attempt_inc_strong}
use vmodule.RefBase.Phase.{
  Lifetime, normal, extended, Phase, fresh, live, lapsed, gone, Represents, IsSmall, Effect,
  Request, add_strong, drop_strong, add_weak, drop_weak, promote, respond, perform,
}
use vmodule.RefBase.Refine.{Follows, perform-Follows}

-- An object that `s` sps and `n` wps point to. With no sp left it either never had one or lost the
-- last; with no pointer at all it is unborn or gone.
abbrev pub Agree : Lifetime → ℕ → ℕ → Refs → Type 0
Agree m zero zero r = Represents m gone r ⊎ Represents m (fresh 0) r
Agree m zero (suc n) r = Represents m (fresh (suc n)) r ⊎ Represents m (lapsed n) r
Agree m (suc s) n r = Represents m (live s n) r

abbrev pub HasRoom : ℕ → ℕ → Type 0
HasRoom s n = s + n + 2 < initial_strong_value

abbrev pub Acts : {A : Type 0} → (A → Refs → Type 0) → Option (A × Refs) → Type 0
Acts P none = ⊥
Acts P (some (a, r)) = P a r

-- What a request leads to, if it keeps the rules.
abbrev Leads : Lifetime → Option Effect → Option (Bool × Refs) → Type 0
Leads m none run = Unit
Leads m (some e) run = Acts (λ b r. (b ≡ e.answer) × Represents m e.phase r) run

follow :
    (m : Lifetime) (e : Effect) (log : List Event) (run : Option (Bool × Refs))
    → Follows m e log run
    → Leads m (some e) run
follow m e log none f = f
follow m e log (some (b, r)) f = (f.0, f.1)

perform-Leads :
    (m : Lifetime) (q : Request) (p : Phase) (r : Refs)
    → IsSmall p
    → Represents m p r
    → Leads m (respond m q p) (perform q r)
perform-Leads m q p r small rep = elim (Option-cases (respond m q p)) [
  | inl broken ↦ rw broken tt
  | inr (e, kept) ↦ rw kept (follow m e r.log _ (perform-Follows m q p e r kept small rep))
]

mono :
    {A : Type 0} (P Q : A → Refs → Type 0) (o : Option (A × Refs))
    → ((a : A) (r : Refs) → P a r → Q a r)
    → Acts P o
    → Acts Q o
mono P Q none h a = a
mono P Q (some (a, r)) h p = h a r p

-- From a request's run, `m >> pure true`, back to the command.
silent :
    (P Q : Refs → Type 0) (o : Option (Unit {0} × Refs))
    → ((r : Refs) → P r → Q r)
    → Acts (λ b r. (b ≡ true) × P r) (elim o [ none ↦ none | some (u, r) ↦ some (true, r) ])
    → Acts (λ u. Q) o
silent P Q none h f = f
silent P Q (some (u, r)) h f = h r f.1

module _ (m : Lifetime) where
  pub inc_strong-Agree :
      (s n : ℕ) (r : Refs)
      → HasRoom (suc s) n
      → Agree m (suc s) n r
      → Acts (λ u. Agree m (suc (suc s)) n) (inc_strong r)
  unfolding perform respond
  inc_strong-Agree s n r room h =
      silent _ _ _ (λ r h. h) (perform-Leads m add_strong (live s n) r (omega arith) h)

  pub inc_weak-Agree :
      (s n : ℕ) (r : Refs)
      → HasRoom s n
      → 0 < s + n
      → Agree m s n r
      → Acts (λ u. Agree m s (suc n)) (inc_weak r)
  unfolding perform respond
  inc_weak-Agree zero zero r room some_left h = absurd (omega arith)
  inc_weak-Agree zero (suc n) r room some_left (inl h) =
      silent _ _ _ (λ r. inl) (perform-Leads m add_weak (fresh (suc n)) r (omega arith) h)
  inc_weak-Agree zero (suc n) r room some_left (inr h) =
      silent _ _ _ (λ r. inr) (perform-Leads m add_weak (lapsed n) r (omega arith) h)
  inc_weak-Agree (suc s) n r room some_left h =
      silent _ _ _ (λ r h. h) (perform-Leads m add_weak (live s n) r (omega arith) h)

pub dec_strong-Agree :
    (m : Lifetime) (s n : ℕ) (r : Refs)
    → HasRoom (suc s) n
    → Agree m (suc s) n r
    → Acts (λ u. Agree m s n) (dec_strong r)
unfolding perform respond
dec_strong-Agree m (suc s) n r room h =
    silent _ _ _ (λ r h. h) (perform-Leads m drop_strong (live (suc s) n) r (omega arith) h)
dec_strong-Agree normal zero zero r room h =
    silent _ _ _ (λ r. inl) (perform-Leads normal drop_strong (live 0 0) r (omega arith) h)
dec_strong-Agree extended zero zero r room h =
    silent _ _ _ (λ r. inl) (perform-Leads extended drop_strong (live 0 0) r (omega arith) h)
dec_strong-Agree normal zero (suc n) r room h =
    silent _ _ _ (λ r. inr) (perform-Leads normal drop_strong (live 0 (suc n)) r (omega arith) h)
dec_strong-Agree extended zero (suc n) r room h =
    silent _ _ _ (λ r. inr) (perform-Leads extended drop_strong (live 0 (suc n)) r (omega arith) h)

pub dec_weak-Agree :
    (m : Lifetime) (s n : ℕ) (r : Refs)
    → HasRoom s (suc n)
    → Agree m s (suc n) r
    → Acts (λ u. Agree m s n) (dec_weak r)
unfolding perform respond
dec_weak-Agree m (suc s) n r room h =
    silent _ _ _ (λ r h. h) (perform-Leads m drop_weak (live s (suc n)) r (omega arith) h)
dec_weak-Agree m zero (suc n) r room (inl h) =
    silent _ _ _ (λ r. inl) (perform-Leads m drop_weak (fresh (suc (suc n))) r (omega arith) h)
dec_weak-Agree m zero (suc n) r room (inr h) =
    silent _ _ _ (λ r. inr) (perform-Leads m drop_weak (lapsed (suc n)) r (omega arith) h)
dec_weak-Agree normal zero zero r room (inl h) =
    silent _ _ _ (λ r. inl) (perform-Leads normal drop_weak (fresh 1) r (omega arith) h)
dec_weak-Agree extended zero zero r room (inl h) =
    silent _ _ _ (λ r. inl) (perform-Leads extended drop_weak (fresh 1) r (omega arith) h)
dec_weak-Agree normal zero zero r room (inr h) =
    silent _ _ _ (λ r. inl) (perform-Leads normal drop_weak (lapsed 0) r (omega arith) h)
dec_weak-Agree extended zero zero r room (inr h) =
    silent _ _ _ (λ r. inl) (perform-Leads extended drop_weak (lapsed 0) r (omega arith) h)

-- A promotion through a wp that is held takes a strong reference or changes nothing. It succeeds
-- if there is an sp.
abbrev pub Promoted : Lifetime → ℕ → ℕ → Bool → Refs → Type 0
Promoted m s n true r = Agree m (suc s) n r
Promoted m s n false r = Agree m s n r × (s ≡ 0)

pub attempt_inc_strong-Promoted :
    (m : Lifetime) (s n : ℕ) (r : Refs)
    → HasRoom s (suc n)
    → Agree m s (suc n) r
    → Acts (Promoted m s (suc n)) (attempt_inc_strong (λ flags. true) quiet r)
unfolding perform respond
attempt_inc_strong-Promoted m (suc s) n r room h =
    mono _ (Promoted m (suc s) (suc n)) _ (λ b r p. rw p.0 p.1)
      (perform-Leads m promote (live s (suc n)) r (omega arith) h)
attempt_inc_strong-Promoted m zero n r room (inl h) =
    mono _ (Promoted m 0 (suc n)) _ (λ b r p. rw p.0 p.1)
      (perform-Leads m promote (fresh (suc n)) r (omega arith) h)
attempt_inc_strong-Promoted normal zero n r room (inr h) =
    mono _ (Promoted normal 0 (suc n)) _ (λ b r p. rw p.0 (inr p.1, refl))
      (perform-Leads normal promote (lapsed n) r (omega arith) h)
attempt_inc_strong-Promoted extended zero n r room (inr h) =
    mono _ (Promoted extended 0 (suc n)) _ (λ b r p. rw p.0 p.1)
      (perform-Leads extended promote (lapsed n) r (omega arith) h)
