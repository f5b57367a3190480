-- ===== src/Pointers/Compare.antt =====
-- The comparisons of sp and wp, which the macros COMPARE and COMPARE_WEAK write out for every
-- operator: the operator on two pointers is an argument.
use vmodule.Base.{
  ℕ, ◌≡◌, refl, subst, Bool, true, false, not, ◌&&◌, Option, some, ◌==◌, if◌then◌else◌,
}
use vmodule.Pointers.Strong.{Sp}
use vmodule.Pointers.Weak.{Wp, same_ptr, wp_eq, wp_ne}
use vmodule.Pointers.Held.{IsWhole, Matches}

abbrev pub Comparison : Type 0
Comparison = Option ℕ → Option ℕ → Bool

unfoldable sp_compare : Comparison → Sp → Sp → Bool
sp_compare op this o = op this.m_ptr o.m_ptr

unfoldable sp_compare_raw : Comparison → Sp → Option ℕ → Bool
sp_compare_raw op this o = op this.m_ptr o

unfoldable sp_compare_wp : Comparison → Sp → Wp → Bool
sp_compare_wp op this o = op this.m_ptr o.m_ptr

unfoldable wp_compare_sp : Comparison → Wp → Sp → Bool
wp_compare_sp op this o = op this.m_ptr o.m_ptr

unfoldable wp_compare_raw : Comparison → Wp → Option ℕ → Bool
wp_compare_raw op this o = op this.m_ptr o

-- operator== for another type.
unfoldable pub wp_eq_u : Wp → Wp → Bool
unfolding same_ptr
wp_eq_u this o = same_ptr this.m_ptr o.m_ptr

-- operator> and operator<, at the order on pointers.
unfoldable wp_order : Comparison → Wp → Wp → Bool
unfolding same_ptr
wp_order op this o =
    if same_ptr this.m_ptr o.m_ptr then op this.m_refs o.m_refs else op this.m_ptr o.m_ptr

-- operator<= at >, and operator>= at <.
unfoldable wp_order_not : Comparison → Wp → Wp → Bool
unfolding wp_order
wp_order_not op this o = not (wp_order op this o)

&&-same : (b : Bool) → (b && b) ≡ b
&&-same true = refl
&&-same false = refl

-- Of two whole wps that point to objects, == and != are opposites, and == tells whether it is the
-- same object, for wps of one type and of two.
pub wp_eq-wp_ne :
    (this o : Wp) (p q : ℕ)
    → this.m_ptr ≡ some p
    → o.m_ptr ≡ some q
    → IsWhole this
    → IsWhole o
    → (wp_eq this o ≡ (p == q)) × (wp_ne this o ≡ not (p == q)) × (wp_eq_u this o ≡ (p == q))
unfolding wp_eq wp_ne wp_eq_u same_ptr
wp_eq-wp_ne this o p q e f whole whole' =
    let r : this.m_refs ≡ some p = subst (λ t. Matches t this.m_refs) e whole in
    let s : o.m_refs ≡ some q = subst (λ t. Matches t o.m_refs) f whole' in
    (
      rw (wp_eq, same_ptr, e, f, r, s) (&&-same (p == q)),
      rw (wp_ne, same_ptr, r, s) refl,
      rw (wp_eq_u, same_ptr, e, f) refl,
    )
