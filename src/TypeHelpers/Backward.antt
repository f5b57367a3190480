-- ===== src/TypeHelpers/Backward.antt =====
-- The loop of move_backward_type of include/sutils/TypeHelpers.h.
use vmodule.Base.{
  ℕ, zero, suc, ◌+◌, ◌-◌, ◌<◌, ◌≡◌, ◌≢◌, inl, inr, refl, sym, ◌∙◌, ap, Bool, false, lt_or_ge,
  Bool-cases, Option, none, some, arith,
}
use native.Mathlib.Decide.{ℕ_discrete}
use vmodule.TypeHelpers.{Traits, has_trivial_dtor, Cells, move_backward_loop}
use vmodule.TypeHelpers.Moves.{
  Moves, Movable, one_moved, one_there, one_left, one_kept, move_cell_lem,
}

module _ {T : Type 0} (t : Traits) where
  pub backward-Moves :
      (n d s : ℕ) (m : Cells T)
      → d < s
      → Movable t d s n m
      → Moves (has_trivial_dtor t) d s n m (move_backward_loop t d s n m)
  unfolding move_backward_loop
  backward-Moves zero d s m lt h = record {
    there = λ i l. absurd (omega arith);
    left = λ e i l. absurd (omega arith);
    kept = λ a o e. refl;
  }
  backward-Moves (suc n) d s m lt h =
      let dt = has_trivial_dtor t in
      let (v, e') = h.full 0 (omega arith) in
      let z : s + 0 ≡ s = omega arith in
      let z' : d + 0 ≡ d = omega arith in
      let e : m s ≡ some v = ap m (sym z) ∙ e' in
      let r : dt ≡ false → m d ≡ none =
        λ x. ap m (sym z') ∙ h.room x 0 (omega arith) (omega arith) in
      let ne : d ≢ s = omega arith in
      let m1 = one_moved t dt d s m in
      rw (Moves, move_cell_lem t d s m v ne e r)
        (grown dt (move_backward_loop t (d + 1) (s + 1) n m1)
          (backward-Moves n (d + 1) (s + 1) m1 (omega arith) (remaining dt refl)))
    where
      differ : d ≢ s
      differ = omega arith

      remaining :
          (b : Bool) → has_trivial_dtor t ≡ b → Movable t (d + 1) (s + 1) n (one_moved t b d s m)
      remaining b eb = record {
        full = λ i l.
            let (v, e) = h.full (i + 1) (omega arith) in
            let e' : s + 1 + i ≡ s + (i + 1) = omega arith in
            (
              v,
              one_kept t d s m differ b (s + 1 + i) (omega arith) (inl (omega arith)) ∙ ap m e' ∙ e,
            );
        room = λ x i l o. elim (Bool-cases b) [
          | inl y ↦ absurd (cc)
          | inr y ↦ elim (ℕ_discrete (d + 1 + i) s) [
            | yes q ↦ ap (one_moved t b d s m) q ∙ one_left t d s m differ b y
            | no q ↦
                let e : d + 1 + i ≡ d + (i + 1) = omega arith in
                one_kept t d s m differ b (d + 1 + i) (omega arith) (inl q)
                ∙ ap m e
                ∙ h.room x (i + 1) (omega arith) (omega arith)
          ]
        ];
      }

      grown :
          (b : Bool) (o : Option (Cells T))
          → Moves b (d + 1) (s + 1) n (one_moved t b d s m) o
          → Moves b d s (suc n) m o
      grown b none x = x
      grown b (some m') x = record {
        there = λ i l. elim (lt_or_ge 0 i) [
          | inl above ↦
              let e : d + i ≡ d + 1 + (i - 1) = omega arith in
              let e' : s + 1 + (i - 1) ≡ s + i = omega arith in
              ap m' e
              ∙ x.there (i - 1) (omega arith)
              ∙ ap (one_moved t b d s m) e'
              ∙ one_kept t d s m differ b (s + i) (omega arith) (inl (omega arith))
          | inr first ↦
              let e : d + i ≡ d = omega arith in
              let e' : s ≡ s + i = omega arith in
              ap m' e
              ∙ x.kept d (inl (omega arith)) (inl (λ j k. omega arith))
              ∙ one_there t d s m differ b
              ∙ ap m e'
        ];
        left = λ y i l o. elim (lt_or_ge 0 i) [
          | inl above ↦
              let e : s + i ≡ s + 1 + (i - 1) = omega arith in
              ap m' e ∙ x.left y (i - 1) (omega arith) (omega arith)
          | inr first ↦
              let e : s + i ≡ s = omega arith in
              ap m' e
              ∙ x.kept s (omega arith) (inl (λ j k. omega arith))
              ∙ one_left t d s m differ b y
        ];
        kept = λ a o no. elim no [
          | inl away ↦
              let g : a ≢ s = let w = away 0 (omega arith) in omega arith in
              x.kept a (omega arith)
                (inl (λ i l. let w = away (i + 1) (omega arith) in omega arith))
              ∙ one_kept t d s m differ b a (omega arith) (inl g)
          | inr yes_b ↦
              x.kept a (omega arith) (inr yes_b)
              ∙ one_kept t d s m differ b a (omega arith) (inr yes_b)
        ];
      }
