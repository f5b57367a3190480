-- ===== src/Pointers.antt =====
-- The reference-counted objects that smart pointers point to. An address stands for an object and
-- for its weakref_impl alike (mRefs and mBase are constant); a null pointer is `none`.
pub mod Session
pub mod Strong
pub mod Weak
pub mod Ownership
pub mod Held
pub mod Owners
pub mod Programs
pub mod Promotion
pub mod Convert
pub mod Compare
use vmodule.Base.{ℕ, Bool, true, false, Option, none, some, ◌==◌, if◌then◌else◌}
use vmodule.RefBase
use vmodule.RefBase.{Refs}

abbrev pub World : Type 0
World = ℕ → Refs

abbrev pub Cmd : Type 0 → Type 0
Cmd A = World → Option (A × World)

abbrev pub pure : {A : Type 0} → A → Cmd A
pure a w = some (a, w)

infixl 5 ◌>>=◌ ◌>>◌
abbrev pub ◌>>=◌ : {A B : Type 0} → Cmd A → (A → Cmd B) → Cmd B
◌>>=◌ m f w = elim (m w) [ none ↦ none | some (a, w') ↦ f a w' ]

abbrev pub ◌>>◌ : {A B : Type 0} → Cmd A → Cmd B → Cmd B
m >> k = m >>= λ _. k

unfoldable pub update : World → ℕ → Refs → World
update w p r q = if p == q then r else w q

-- A call on the object, or the weakref_impl, at an address.
unfoldable pub at : {A : Type 0} → ℕ → RefBase.M A → Cmd A
at p m w = elim (m (w p)) [ none ↦ none | some (a, r) ↦ some (a, update w p r) ]

-- if (ptr) ptr->call()
unfoldable pub if_set : Option ℕ → RefBase.M (Unit {0}) → Cmd (Unit {0})
unfolding at
if_set none m = pure tt
if_set (some p) m = at p m
