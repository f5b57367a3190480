-- ===== src/Pointers/Session/Places.antt =====
-- The pointers at a place of a list, counted.
use vmodule.Base.{
  ℕ, zero, suc, ◌+◌, ◌≤◌, ◌≡◌, refl, subst, Option, none, some, some_inj, List, [], ◌∷◌, length,
  get_elem?, All, arith,
}
use vmodule.Pointers.Strong.{Sp}
use vmodule.Pointers.Weak.{Wp}
use vmodule.Pointers.Held.{hits, held, watched, hits_self, IsWhole}
use vmodule.Pointers.Owners.{InPlay}
use vmodule.Pointers.Session.{pick}

pub InPlay-more : (p : Option ℕ) (f g : ℕ → ℕ) → ((a : ℕ) → f a ≤ g a) → InPlay p f → InPlay p g
InPlay-more none f g more h = tt
InPlay-more (some p) f g more h = let m = more p in omega arith

-- The object of a pointer that is held is in play.
pub get-held :
    (ss : List Sp) (i : ℕ) (s : Sp) → get_elem? ss i ≡ some s → InPlay s.m_ptr (λ a. held a ss)
get-held [] i s e = absurd (cc)
get-held (x ∷ ss) zero s e =
    let same : x ≡ s = some_inj e in
    subst (λ y. InPlay y.m_ptr (λ a. held a (x ∷ ss))) same (here x.m_ptr)
  where
    here : (p : Option ℕ) → InPlay p (λ a. hits a p + held a ss)
    here none = tt
    here (some p) = let h = hits_self p in omega arith
get-held (x ∷ ss) (suc i) s e =
    InPlay-more s.m_ptr (λ a. held a ss) (λ a. held a (x ∷ ss)) (λ a. omega arith)
      (get-held ss i s e)

pub get-watched :
    (ws : List Wp) (i : ℕ) (x : Wp)
    → get_elem? ws i ≡ some x
    → All IsWhole ws
    → InPlay x.m_ptr (λ a. watched a ws) × IsWhole x
get-watched [] i x e whole = absurd (cc)
get-watched (y ∷ ws) zero x e whole =
    let same : y ≡ x = some_inj e in
    subst (λ z. InPlay z.m_ptr (λ a. watched a (y ∷ ws)) × IsWhole z) same (here y.m_ptr, whole.0)
  where
    here : (p : Option ℕ) → InPlay p (λ a. hits a p + watched a ws)
    here none = tt
    here (some p) = let h = hits_self p in omega arith
get-watched (y ∷ ws) (suc i) x e whole =
    let (play, w) = get-watched ws i x e (whole.1) in
    (InPlay-more x.m_ptr (λ a. watched a ws) (λ a. watched a (y ∷ ws)) (λ a. omega arith) play, w)

-- What is picked and the others count as much as the whole list.
pub pick-held :
    (ss : List Sp) (i : ℕ) (p : Sp × List Sp)
    → pick i ss ≡ some p
    → ((a : ℕ) → held a ss ≡ held a (p.0 ∷ p.1)) × (length ss ≡ suc (length (p.1)))
pick-held [] i p e = absurd (cc)
pick-held (x ∷ ss) zero p e =
    subst
      (λ q.
        ((a : ℕ) → held a (x ∷ ss) ≡ held a (q.0 ∷ q.1)) × (length (x ∷ ss) ≡ suc (length (q.1))))
      (some_inj e) ((λ a. refl), refl)
pick-held (x ∷ ss) (suc i) p e = go (pick i ss) (pick-held ss i) e
  where
    go :
        (o : Option (Sp × List Sp))
        → ((p : Sp × List Sp)
            → o ≡ some p
            → ((a : ℕ) → held a ss ≡ held a (p.0 ∷ p.1)) × (length ss ≡ suc (length (p.1))))
        → elim o [ none ↦ none | some q ↦ some (q.0, x ∷ q.1) ] ≡ some p
        → ((a : ℕ) → held a (x ∷ ss) ≡ held a (p.0 ∷ p.1)) × (length (x ∷ ss) ≡ suc (length (p.1)))
    go none h e = absurd (cc)
    go (some q) h e =
        let (count, size) = h q refl in
        subst
          (λ r.
            ((a : ℕ) → held a (x ∷ ss) ≡ held a (r.0 ∷ r.1))
            × (length (x ∷ ss) ≡ suc (length (r.1))))
          (some_inj e) ((λ a. let c = count a in omega arith), omega arith)

-- The same of wps, which stay whole.
abbrev pub PickedWp : List Wp → Wp × List Wp → Type 0
PickedWp ws q =
    ((a : ℕ) → watched a ws ≡ watched a (q.0 ∷ q.1))
    × (length ws ≡ suc (length (q.1)))
    × IsWhole (q.0)
    × All IsWhole (q.1)

pub pick-watched :
    (ws : List Wp) (i : ℕ) (p : Wp × List Wp) → pick i ws ≡ some p → All IsWhole ws → PickedWp ws p
pick-watched [] i p e whole = absurd (cc)
pick-watched (x ∷ ws) zero p e whole =
    subst (PickedWp (x ∷ ws)) (some_inj e) ((λ a. refl), refl, whole.0, whole.1)
pick-watched (x ∷ ws) (suc i) p e whole = go (pick i ws) (pick-watched ws i) e
  where
    go :
        (o : Option (Wp × List Wp))
        → ((p : Wp × List Wp) → o ≡ some p → All IsWhole ws → PickedWp ws p)
        → elim o [ none ↦ none | some q ↦ some (q.0, x ∷ q.1) ] ≡ some p
        → PickedWp (x ∷ ws) p
    go none h e = absurd (cc)
    go (some q) h e =
        let (count, size, one, others) = h q refl (whole.1) in
        subst (PickedWp (x ∷ ws)) (some_inj e)
          ((λ a. let c = count a in omega arith), omega arith, one, (whole.0, others))
