-- ===== src/Pointers/Weak.antt =====
-- include/sutils/RefBase.h: wp. A null m_refs is `none`; where a constructor leaves m_refs as it
-- found it, what the memory held is the argument `junk`.
use vmodule.Base.{ℕ, Bool, not, ◌&&◌, Option, none, some, ◌==◌, true, false, if◌then◌else◌}
use vmodule.RefBase.{inc_weak, dec_weak}
use vmodule.RefBase.Promote.{Interference, attempt_inc_strong}
use vmodule.Pointers.{Cmd, pure, ◌>>=◌, ◌>>◌, at, if_set}
use vmodule.Pointers.Strong.{Sp, sp_null, set_pointer}

pub record Wp : Type 0 where
  pub m_ptr : Option ℕ
  pub m_refs : Option ℕ

abbrev pub wp : Option ℕ → Option ℕ → Wp
wp p r = record { m_ptr = p; m_refs = r }

abbrev is_set : Option ℕ → Bool
is_set none = false
is_set (some p) = true

unfoldable pub same_ptr : Option ℕ → Option ℕ → Bool
same_ptr none none = true
same_ptr none (some q) = false
same_ptr (some p) none = false
same_ptr (some p) (some q) = p == q

-- if (ptr) refs->call(), where refs is dereferenced unchecked.
unfoldable pub through :
    Option ℕ → Option ℕ → Cmd (Unit {0}) → (ℕ → Cmd (Unit {0})) → Cmd (Unit {0})
through none refs skip call = skip
through (some p) none skip call = λ w. none
through (some p) (some r) skip call = call r

unfoldable pub if_held : Wp → (ℕ → Cmd (Unit {0})) → Cmd (Unit {0})
unfolding through
if_held this call = through this.m_ptr this.m_refs (pure tt) call

-- other ? other->createWeak(this) : 0
unfoldable pub create_weak : Option ℕ → Cmd (Option ℕ)
unfolding if_set
create_weak other = if_set other inc_weak >> pure other

unfoldable pub wp_null : Option ℕ → Wp
wp_null junk = wp none junk

abbrev pub or_junk : Option ℕ → Option ℕ → Option ℕ
or_junk none junk = junk
or_junk (some p) junk = some p

unfoldable pub wp_of_raw : Option ℕ → Option ℕ → Cmd Wp
unfolding create_weak
wp_of_raw junk other = do refs ← create_weak other; pure (wp other (or_junk refs junk))

unfoldable pub wp_of_sp : Option ℕ → Sp → Cmd Wp
unfolding create_weak
wp_of_sp junk other = do refs ← create_weak other.m_ptr; pure (wp other.m_ptr (or_junk refs junk))

unfoldable pub wp_copy : Wp → Cmd Wp
unfolding if_held at
wp_copy other = if_held other (λ r. at r inc_weak) >> pure other

-- The copy of a wp for another type takes m_refs only if there is an object.
unfoldable pub wp_convert : Option ℕ → Wp → Cmd Wp
unfolding if_held at
wp_convert junk other =
    if_held other (λ r. at r inc_weak)
    >> pure (wp other.m_ptr (if is_set other.m_ptr then other.m_refs else junk))

unfoldable pub wp_destroy : Wp → Cmd (Unit {0})
unfolding if_held at
wp_destroy this = if_held this (λ r. at r dec_weak)

unfoldable pub wp_assign_raw : Wp → Option ℕ → Cmd Wp
unfolding create_weak if_held at
wp_assign_raw this other = do
  refs ← create_weak other
  if_held this (λ r. at r dec_weak)
  pure (wp other refs)

unfoldable pub wp_assign : Wp → Wp → Cmd Wp
unfolding if_held at
wp_assign this other = do
  if_held other (λ r. at r inc_weak)
  if_held this (λ r. at r dec_weak)
  pure other

unfoldable pub wp_assign_sp : Wp → Sp → Cmd Wp
unfolding create_weak if_held at
wp_assign_sp this other = do
  refs ← create_weak other.m_ptr
  if_held this (λ r. at r dec_weak)
  pure (wp other.m_ptr refs)

unfoldable pub set_object_and_refs : Wp → Wp → Cmd Wp
unfolding if_held at
set_object_and_refs this other = do
  if_held other (λ r. at r inc_weak)
  if_held this (λ r. at r dec_weak)
  pure other

unfoldable pub wp_clear : Wp → Cmd Wp
unfolding if_held at
wp_clear this =
    if_held this (λ r. at r dec_weak)
    >> pure (if is_set this.m_ptr then record this { m_ptr = none } else this)

-- `agrees` is the object's onIncStrongAttempted.
unfoldable pub promote_at : (ℕ → Bool) → Interference → Option ℕ → Option ℕ → Cmd Sp
unfolding at sp_null set_pointer
promote_at agrees others none refs = pure sp_null
promote_at agrees others (some p) none = λ w. none
promote_at agrees others (some p) (some r) = do
  done ← at r (attempt_inc_strong agrees others)
  pure (if done then set_pointer sp_null (some p) else sp_null)

unfoldable pub promote : (ℕ → Bool) → Interference → Wp → Cmd Sp
unfolding promote_at
promote agrees others this = promote_at agrees others this.m_ptr this.m_refs

-- operator== and operator!= of two wps of one type.
unfoldable pub wp_eq : Wp → Wp → Bool
unfolding same_ptr
wp_eq this o = same_ptr this.m_ptr o.m_ptr && same_ptr this.m_refs o.m_refs

unfoldable pub wp_ne : Wp → Wp → Bool
unfolding same_ptr
wp_ne this o = not (same_ptr this.m_refs o.m_refs)
