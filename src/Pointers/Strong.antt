-- ===== src/Pointers/Strong.antt =====
-- include/sutils/StrongPointer.h: sp. A constructor returns the pointer that it makes, a method the
-- pointer as it leaves it. The versions for another type U change only the static type, and are
-- the same functions.
use vmodule.Base.{ℕ, Option, none, some}
use vmodule.RefBase.{inc_strong, dec_strong, force_inc_strong}
use vmodule.Pointers.{Cmd, pure, ◌>>◌, at, if_set}

pub record Sp : Type 0 where
  pub m_ptr : Option ℕ

abbrev pub sp : Option ℕ → Sp
sp p = record { m_ptr = p }

unfoldable pub sp_null : Sp
sp_null = sp none

unfoldable pub sp_of_raw : Option ℕ → Cmd Sp
unfolding if_set
sp_of_raw other = if_set other inc_strong >> pure (sp other)

unfoldable pub sp_copy : Sp → Cmd Sp
unfolding if_set
sp_copy other = if_set other.m_ptr inc_strong >> pure (sp other.m_ptr)

unfoldable pub sp_destroy : Sp → Cmd (Unit {0})
unfolding if_set
sp_destroy this = if_set this.m_ptr dec_strong

unfoldable pub sp_assign : Sp → Sp → Cmd Sp
unfolding if_set
sp_assign this other = do
  if_set other.m_ptr inc_strong
  if_set this.m_ptr dec_strong
  pure (sp other.m_ptr)

unfoldable pub sp_assign_raw : Sp → Option ℕ → Cmd Sp
unfolding if_set
sp_assign_raw this other = do if_set other inc_strong; if_set this.m_ptr dec_strong; pure (sp other)

-- The argument is dereferenced unchecked, and what `this` held is not given back.
unfoldable pub force_set : Sp → Option ℕ → Cmd Sp
unfolding at
force_set this none w = none
force_set this (some p) w = (at p force_inc_strong >> pure (sp (some p))) w

unfoldable pub sp_clear : Sp → Cmd Sp
unfolding if_set
sp_clear this = if_set this.m_ptr dec_strong >> pure (sp none)

unfoldable pub set_pointer : Sp → Option ℕ → Sp
set_pointer this ptr = record this { m_ptr = ptr }
