-- ===== src/Pointers/Convert.antt =====
-- The versions of sp's and wp's constructors and assignments for a pointer to another type U. The
-- conversion of the pointer to T* does not change its address. (The copy of a wp for U is with wp.)
use vmodule.Base.{ℕ, Option}
use vmodule.RefBase.{inc_strong, dec_strong, inc_weak, dec_weak}
use vmodule.Pointers.{Cmd, pure, ◌>>=◌, ◌>>◌, at, if_set}
use vmodule.Pointers.Strong.{Sp, sp}
use vmodule.Pointers.Weak.{Wp, wp, create_weak, if_held, or_junk}

unfoldable sp_of_raw_u : Option ℕ → Cmd Sp
unfolding if_set
sp_of_raw_u other = if_set other inc_strong >> pure (sp other)

unfoldable sp_convert : Sp → Cmd Sp
unfolding if_set
sp_convert other = if_set other.m_ptr inc_strong >> pure (sp other.m_ptr)

unfoldable sp_assign_u : Sp → Sp → Cmd Sp
unfolding if_set
sp_assign_u this other = do
  if_set other.m_ptr inc_strong
  if_set this.m_ptr dec_strong
  pure (sp other.m_ptr)

unfoldable sp_assign_raw_u : Sp → Option ℕ → Cmd Sp
unfolding if_set
sp_assign_raw_u this other = do
  if_set other inc_strong
  if_set this.m_ptr dec_strong
  pure (sp other)

unfoldable wp_of_raw_u : Option ℕ → Option ℕ → Cmd Wp
unfolding create_weak
wp_of_raw_u junk other = do refs ← create_weak other; pure (wp other (or_junk refs junk))

unfoldable wp_of_sp_u : Option ℕ → Sp → Cmd Wp
unfolding create_weak
wp_of_sp_u junk other = do refs ← create_weak other.m_ptr; pure (wp other.m_ptr (or_junk refs junk))

unfoldable wp_assign_raw_u : Wp → Option ℕ → Cmd Wp
unfolding create_weak if_held at
wp_assign_raw_u this other = do
  refs ← create_weak other
  if_held this (λ r. at r dec_weak)
  pure (wp other refs)

unfoldable wp_assign_u : Wp → Wp → Cmd Wp
unfolding if_held at
wp_assign_u this other = do
  if_held other (λ r. at r inc_weak)
  if_held this (λ r. at r dec_weak)
  pure (wp other.m_ptr other.m_refs)

unfoldable wp_assign_sp_u : Wp → Sp → Cmd Wp
unfolding create_weak if_held at
wp_assign_sp_u this other = do
  refs ← create_weak other.m_ptr
  if_held this (λ r. at r dec_weak)
  pure (wp other.m_ptr refs)
