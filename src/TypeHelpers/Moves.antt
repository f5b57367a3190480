-- ===== src/TypeHelpers/Moves.antt =====
-- move_forward_type and move_backward_type of include/sutils/TypeHelpers.h on ranges that overlap.
use vmodule.Base.{
  ℕ, zero, suc, ◌+◌, ◌≤◌, ◌<◌, ◌≡◌, ◌≢◌, ◌⊎◌, inl, inr, refl, ◌∙◌, ap, Bool, true, false, lt_or_ge,
  Bool-cases, Option, none, some, arith, ◌==◌, if◌then◌else◌,
}
use native.Mathlib.Decide.{ℕ_discrete}
use vmodule.TypeHelpers.{
  Traits, has_trivial_dtor, has_trivial_copy, Cells, set_cell, copy_cell, new_cell, free,
  destroy_cell, move_cell, move_forward_loop,
}

-- The address is not one of the n from `a` on.
abbrev pub Outside : (a n b : ℕ) → Type 0
Outside a n b = (b < a) ⊎ (a + n ≤ b)

module _ {T : Type 0} where
  -- The n cells from s on have come to d; where destructors run, what is not in the new range is raw.
  pub record Moved (dtor : Bool) (d s n : ℕ) (m m' : Cells T) : Type 0 where
    pub there : (i : ℕ) → i < n → m' (d + i) ≡ m (s + i)
    pub left : dtor ≡ false → (i : ℕ) → i < n → Outside d n (s + i) → m' (s + i) ≡ none
    pub kept : (a : ℕ) → Outside d n a → ((i : ℕ) → i < n → a ≢ s + i) ⊎ (dtor ≡ true) → m' a ≡ m a

  -- A move that does not fault.
  abbrev pub Moves : Bool → (d s n : ℕ) → Cells T → Option (Cells T) → Type 0
  Moves dtor d s n m none = ⊥
  Moves dtor d s n m (some m') = Moved dtor d s n m m'

  module _ (t : Traits) where
    -- Objects to move, and room for them.
    pub record Movable (d s n : ℕ) (m : Cells T) : Type 0 where
      pub full : (i : ℕ) → i < n → (v : T) × (m (s + i) ≡ some v)
      pub room :
          has_trivial_dtor t ≡ false → (i : ℕ) → i < n → Outside s n (d + i) → m (d + i) ≡ none

    -- One cell.
    abbrev pub one_moved : Bool → (d s : ℕ) → Cells T → Cells T
    one_moved dtor d s m = if dtor then set_cell d (m s) m else set_cell s none (set_cell d (m s) m)

    pub copy_cell_lem :
        (d s : ℕ) (m : Cells T) (v : T)
        → m s ≡ some v
        → (has_trivial_dtor t ≡ false → m d ≡ none)
        → copy_cell t d s m ≡ some (set_cell d (some v) m)
    unfolding copy_cell new_cell
    copy_cell_lem d s m v e r = rw (copy_cell, e) (go (has_trivial_copy t))
      where
        have_room : (o : Option T) → (has_trivial_dtor t ≡ false → o ≡ none) → free t o ≡ true
        have_room none r = refl
        have_room (some w) r = ground (arith, r)

        go :
            (b : Bool)
            → (if b then some (set_cell d (some v) m) else new_cell t d v m)
              ≡ some (set_cell d (some v) m)
        go true = refl
        go false = rw (new_cell, have_room (m d) r) refl

    pub move_cell_lem :
        (d s : ℕ) (m : Cells T) (v : T)
        → d ≢ s
        → m s ≡ some v
        → (has_trivial_dtor t ≡ false → m d ≡ none)
        → move_cell t d s m ≡ some (one_moved (has_trivial_dtor t) d s m)
    unfolding move_cell destroy_cell
    move_cell_lem d s m v ne e r =
        let n : (s == d) ≡ false = ground arith in
        rw (move_cell, copy_cell_lem d s m v e r) (go (has_trivial_dtor t) n)
      where
        go :
            (b : Bool)
            → (s == d) ≡ false
            → (if b then some (set_cell d (some v) m) else destroy_cell s (set_cell d (some v) m))
              ≡ some (one_moved b d s m)
        go true n = rw e refl
        go false n = rw (one_moved, destroy_cell, n, e) refl

    module _ (d s : ℕ) (m : Cells T) (ne : d ≢ s) where
      pub one_there : (b : Bool) → one_moved b d s m d ≡ m s
      one_there true = let n : (d == d) ≡ true = ground arith in rw n refl
      one_there false =
          let n : (d == d) ≡ true = ground arith in
          let n' : (d == s) ≡ false = ground arith in rw (n', n) refl

      pub one_left : (b : Bool) → b ≡ false → one_moved b d s m s ≡ none
      one_left true e = absurd (ground arith)
      one_left false e = let n : (s == s) ≡ true = ground arith in rw n refl

      pub one_kept : (b : Bool) (a : ℕ) → a ≢ d → (a ≢ s) ⊎ (b ≡ true) → one_moved b d s m a ≡ m a
      one_kept true a na h = let n : (a == d) ≡ false = ground arith in rw n refl
      one_kept false a na (inl ns) =
          let n : (a == d) ≡ false = ground arith in
          let n' : (a == s) ≡ false = ground arith in rw (n', n) refl
      one_kept false a na (inr e) = absurd (ground arith)

    pub forward-Moves :
        (n d s : ℕ) (m : Cells T)
        → s < d
        → Movable d s n m
        → Moves (has_trivial_dtor t) d s n m (move_forward_loop t d s n m)
    unfolding move_forward_loop
    forward-Moves zero d s m lt h = record {
      there = λ i l. absurd (omega arith);
      left = λ e i l. absurd (omega arith);
      kept = λ a o e. refl;
    }
    forward-Moves (suc n) d s m lt h =
        let dt = has_trivial_dtor t in
        let (v, e) = h.full n (omega arith) in
        let r : dt ≡ false → m (d + n) ≡ none = λ x. h.room x n (omega arith) (omega arith) in
        let ne : d + n ≢ s + n = omega arith in
        let m1 = one_moved dt (d + n) (s + n) m in
        rw (Moves, move_cell_lem (d + n) (s + n) m v ne e r)
          (grown dt (move_forward_loop t d s n m1) (forward-Moves n d s m1 lt (remaining dt refl)))
      where
        differ : d + n ≢ s + n
        differ = omega arith

        remaining :
            (b : Bool) → has_trivial_dtor t ≡ b → Movable d s n (one_moved b (d + n) (s + n) m)
        remaining b eb = record {
          full = λ i l.
              let (v, e) = h.full i (omega arith) in
              (
                v,
                one_kept (d + n) (s + n) m differ b (s + i) (omega arith) (inl (omega arith)) ∙ e,
              );
          room = λ x i l o. elim (Bool-cases b) [
            | inl y ↦ absurd (cc)
            | inr y ↦ elim (ℕ_discrete (d + i) (s + n)) [
              | yes q ↦ ap (one_moved b (d + n) (s + n) m) q ∙ one_left (d + n) (s + n) m differ b y
              | no q ↦
                  one_kept (d + n) (s + n) m differ b (d + i) (omega arith) (inl q)
                  ∙ h.room x i (omega arith) (omega arith)
            ]
          ];
        }

        grown :
            (b : Bool) (o : Option (Cells T))
            → Moves b d s n (one_moved b (d + n) (s + n) m) o
            → Moves b d s (suc n) m o
        grown b none x = x
        grown b (some m') x = record {
          there = λ i l. elim (lt_or_ge i n) [
            | inl below ↦
                x.there i below
                ∙ one_kept (d + n) (s + n) m differ b (s + i) (omega arith) (inl (omega arith))
            | inr last ↦
                let e : i ≡ n = omega arith in
                rw e (
                  x.kept (d + n) (inr (omega arith)) (inl (λ j k. omega arith))
                  ∙ one_there (d + n) (s + n) m differ b)
          ];
          left = λ y i l o. elim (lt_or_ge i n) [
            | inl below ↦ x.left y i below (omega arith)
            | inr last ↦
                let e : i ≡ n = omega arith in
                rw e (
                  x.kept (s + n) (omega arith) (inl (λ j k. omega arith))
                  ∙ one_left (d + n) (s + n) m differ b y)
          ];
          kept = λ a o no. elim no [
            | inl away ↦
                x.kept a (omega arith) (inl (λ i l. away i (omega arith)))
                ∙ one_kept (d + n) (s + n) m differ b a (omega arith) (inl (away n (omega arith)))
            | inr yes_b ↦
                x.kept a (omega arith) (inr yes_b)
                ∙ one_kept (d + n) (s + n) m differ b a (omega arith) (inr yes_b)
          ];
        }
