-- ===== src/TypeHelpers/Copies.antt =====
-- construct_type, destroy_type, copy_type and splat_type of include/sutils/TypeHelpers.h.
use vmodule.Base.{
  ℕ, zero, suc, ◌+◌, ◌-◌, ◌<◌, ◌≤◌, ◌⊎◌, ◌≡◌, inl, inr, refl, sym, ap, ◌∙◌, true, false, Bool-cases,
  Option, none, some, arith, ◌==◌, lt_or_ge,
}
use vmodule.TypeHelpers.{
  Traits, has_trivial_dtor, has_trivial_copy, Cells, set_cell, free, new_cell, destroy_cell,
  construct_loop, destroy_loop, destroy_type, copy_loop, copy_type, splat_type,
}
use vmodule.TypeHelpers.Moves.{Outside, copy_cell_lem}
use vmodule.TypeHelpers.Relocation.{block_in, block_out}

module _ {T : Type 0} where
  -- The n cells from d on are now those of `f`, and the others as before.
  abbrev pub Filled : (d n : ℕ) → (ℕ → Option T) → Cells T → Option (Cells T) → Type 0
  Filled d n f m none = ⊥
  Filled d n f m (some m') =
      ((i : ℕ) → i < n → m' (d + i) ≡ f i) × ((a : ℕ) → Outside d n a → m' a ≡ m a)

  set_at : (d : ℕ) (c : Option T) (m : Cells T) → set_cell d c m d ≡ c
  set_at d c m = let n : (d == d) ≡ true = ground arith in rw n refl

  set_off : (d a : ℕ) (c : Option T) (m : Cells T) → Outside d 1 a → set_cell d c m a ≡ m a
  set_off d a c m h = let n : (a == d) ≡ false = ground arith in rw n refl

  -- The first cell, and then the others.
  Filled-step :
      (d n : ℕ) (f : ℕ → Option T) (m : Cells T) (o : Option (Cells T))
      → Filled (d + 1) n (λ i. f (i + 1)) (set_cell d (f 0) m) o
      → Filled d (suc n) f m o
  Filled-step d n f m none x = x
  Filled-step d n f m (some m') (there, kept) = (
    (λ i l. elim (lt_or_ge 0 i) [
      | inl above ↦
          let e : d + i ≡ d + 1 + (i - 1) = omega arith in
          let e' : i - 1 + 1 ≡ i = omega arith in ap m' e ∙ there (i - 1) (omega arith) ∙ ap f e'
      | inr first ↦
          let e : d + i ≡ d = omega arith in
          let e' : 0 ≡ i = omega arith in
          ap m' e ∙ kept d (inl (omega arith)) ∙ set_at d (f 0) m ∙ ap f e'
    ]),
    (λ a h. kept a (omega arith) ∙ set_off d a (f 0) m (omega arith)),
  )

  -- Objects in a range, and room for constructors there.
  abbrev pub Full : (s n : ℕ) → Cells T → Type 0
  Full s n m = (i : ℕ) → i < n → (v : T) × (m (s + i) ≡ some v)

  abbrev pub Vacant : Traits → (d n : ℕ) → Cells T → Type 0
  Vacant t d n m = has_trivial_dtor t ≡ false → (i : ℕ) → i < n → m (d + i) ≡ none

  destroy_loop-Filled :
      (n p : ℕ) (m : Cells T) → Full p n m → Filled p n (λ i. none) m (destroy_loop p n m)
  unfolding destroy_loop destroy_cell
  destroy_loop-Filled zero p m h = ((λ i l. absurd (omega arith)), (λ a o. refl))
  destroy_loop-Filled (suc n) p m h =
      let (v, e') = h 0 (omega arith) in
      let z : p ≡ p + 0 = omega arith in
      let e : m p ≡ some v = ap m z ∙ e' in
      rw (Filled, destroy_loop, destroy_cell, e)
        (Filled-step p n (λ i. none) m _
          (destroy_loop-Filled n (p + 1) (set_cell p none m) (λ i l.
            let (w, x) = h (i + 1) (omega arith) in
            let y : p + 1 + i ≡ p + (i + 1) = omega arith in
            (w, set_off p (p + 1 + i) none m (inr (omega arith)) ∙ ap m y ∙ x))))

  Filled-same :
      (d n : ℕ) (f g : ℕ → Option T) (m : Cells T) (o : Option (Cells T))
      → ((i : ℕ) → i < n → f i ≡ g i)
      → Filled d n f m o
      → Filled d n g m o
  Filled-same d n f g m none e x = x
  Filled-same d n f g m (some m') e (there, kept) = ((λ i l. there i l ∙ e i l), kept)

  module _ (t : Traits) where
    -- Room for the others, once the first cell is set.
    room_rest :
        (d n : ℕ) (c : Option T) (m : Cells T)
        → Vacant t d (suc n) m
        → Vacant t (d + 1) n (set_cell d c m)
    room_rest d n c m h x i l =
        let e : d + 1 + i ≡ d + (i + 1) = omega arith in
        set_off d (d + 1 + i) c m (inr (omega arith)) ∙ ap m e ∙ h x (i + 1) (omega arith)

    room_first :
        (d n : ℕ) (m : Cells T) → Vacant t d (suc n) m → has_trivial_dtor t ≡ false → m d ≡ none
    room_first d n m h x = let e : d ≡ d + 0 = omega arith in ap m e ∙ h x 0 (omega arith)

    copy_loop-Filled :
        (n d s : ℕ) (m : Cells T)
        → (d + n ≤ s) ⊎ (s + n ≤ d)
        → Full s n m
        → Vacant t d n m
        → Filled d n (λ i. m (s + i)) m (copy_loop t d s n m)
    unfolding copy_loop
    copy_loop-Filled zero d s m a h r = ((λ i l. absurd (omega arith)), (λ a o. refl))
    copy_loop-Filled (suc n) d s m a h r =
        let (v, e') = h 0 (omega arith) in
        let z : s ≡ s + 0 = omega arith in
        let e : m s ≡ some v = ap m z ∙ e' in
        let m1 = set_cell d (some v) m in
        let off : (i : ℕ) → i < n → m1 (s + 1 + i) ≡ m (s + (i + 1)) = λ i l.
          let y : s + 1 + i ≡ s + (i + 1) = omega arith in
          set_off d (s + 1 + i) (some v) m (omega arith) ∙ ap m y in
        let full : Full (s + 1) n m1 =
          λ i l. let (w, x) = h (i + 1) (omega arith) in (w, off i l ∙ x) in
        let rest =
          copy_loop-Filled n (d + 1) (s + 1) m1 (omega arith) full (room_rest d n (some v) m r) in
        rw (Filled, copy_loop, copy_cell_lem t d s m v e (room_first d n m r))
          (Filled-step d n (λ i. m (s + i)) m _
            (rw e'
              (Filled-same (d + 1) n (λ i. m1 (s + 1 + i)) (λ i. m (s + (i + 1))) m1 _ off rest)))

    pub splat_type-Filled :
        (n d s : ℕ) (m : Cells T) (v : T)
        → Outside d n s
        → m s ≡ some v
        → Vacant t d n m
        → Filled d n (λ i. some v) m (splat_type t d s n m)
    unfolding splat_type
    splat_type-Filled zero d s m v a e r = ((λ i l. absurd (omega arith)), (λ a o. refl))
    splat_type-Filled (suc n) d s m v a e r =
        let e' = set_off d s (some v) m (omega arith) ∙ e in
        let rest =
          splat_type-Filled n (d + 1) s (set_cell d (some v) m) v (omega arith) e'
            (room_rest d n (some v) m r) in
        rw (Filled, splat_type, copy_cell_lem t d s m v e (room_first d n m r))
          (Filled-step d n (λ i. some v) m _ rest)

    new_cell_lem :
        (d : ℕ) (v : T) (m : Cells T)
        → (has_trivial_dtor t ≡ false → m d ≡ none)
        → new_cell t d v m ≡ some (set_cell d (some v) m)
    unfolding new_cell
    new_cell_lem d v m r = rw (new_cell, free_of (m d) r) refl
      where
        free_of : (o : Option T) → (has_trivial_dtor t ≡ false → o ≡ none) → free t o ≡ true
        free_of none r = refl
        free_of (some w) r = ground (arith, r)

    pub construct_loop-Filled :
        (n d : ℕ) (made : T) (m : Cells T)
        → Vacant t d n m
        → Filled d n (λ i. some made) m (construct_loop t made d n m)
    unfolding construct_loop
    construct_loop-Filled zero d made m r = ((λ i l. absurd (omega arith)), (λ a o. refl))
    construct_loop-Filled (suc n) d made m r =
        rw (Filled, construct_loop, new_cell_lem d made m (room_first d n m r))
          (Filled-step d n (λ i. some made) m _
            (construct_loop-Filled n (d + 1) made (set_cell d (some made) m)
              (room_rest d n (some made) m r)))

    pub copy_type-Filled :
        (d s n : ℕ) (m : Cells T)
        → (d + n ≤ s) ⊎ (s + n ≤ d)
        → Full s n m
        → Vacant t d n m
        → Filled d n (λ i. m (s + i)) m (copy_type t d s n m)
    unfolding copy_type
    copy_type-Filled d s n m a h r = elim (Bool-cases (has_trivial_copy t)) [
      | inl e ↦
          rw (Filled, copy_type, e) ((λ i l. block_in d s n i m l), (λ a o. block_out d s n a m o))
      | inr e ↦ rw (Filled, copy_type, e) (copy_loop-Filled n d s m a h r)
    ]

    -- A copy, or a range of new objects, that is destroyed.
    abbrev pub then_destroyed : (d n : ℕ) → Option (Cells T) → Option (Cells T)
    then_destroyed d n none = none
    then_destroyed d n (some m) = destroy_type t d n m

    abbrev pub Restored : Cells T → Option (Cells T) → Type 0
    Restored m none = ⊥
    Restored m (some m') = (a : ℕ) → m' a ≡ m a

    pub destroyed-Restored :
        (d n : ℕ) (f : ℕ → Option T) (m : Cells T) (o : Option (Cells T))
        → has_trivial_dtor t ≡ false
        → Vacant t d n m
        → ((i : ℕ) → i < n → (v : T) × (f i ≡ some v))
        → Filled d n f m o
        → Restored m (then_destroyed d n o)
    unfolding destroy_type
    destroyed-Restored d n f m none nt r h x = x
    destroyed-Restored d n f m (some m') nt r h (there, kept) =
        rw (Restored, destroy_type, nt) (go (destroy_loop d n m') (destroy_loop-Filled n d m' full))
      where
        full : Full d n m'
        full i l = let (v, e) = h i l in (v, there i l ∙ e)

        go : (o : Option (Cells T)) → Filled d n (λ i. none) m' o → Restored m o
        go none x = x
        go (some m'') (gone, same) = λ a. elim (lt_or_ge a d) [
          | inl low ↦ same a (inl low) ∙ kept a (inl low)
          | inr ge ↦ elim (lt_or_ge a (d + n)) [
            | inl l ↦
                let e : a ≡ d + (a - d) = omega arith in
                ap m'' e
                ∙ gone (a - d) (omega arith)
                ∙ sym (r nt (a - d) (omega arith))
                ∙ ap m (sym e)
            | inr high ↦ same a (inr high) ∙ kept a (inr high)
          ]
        ]
