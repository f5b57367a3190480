-- ===== src/RefBase.antt =====
-- sutils/RefBase.cpp: the reference counts of one object. `Refs` is a RefBase together with its
-- weakref_impl; the calls of its virtual functions and the two deletions are written to a log,
-- newest first. Touching a deleted weakref_impl, calling a deleted object or deleting anything a
-- second time is a fault (`none`).
pub mod Promote
pub mod Phase
pub mod Refine
pub mod History
pub mod Race
pub mod Threads
pub mod Fallback
use vmodule.Base.{
  ℕ, ◌-◌, ◌%◌, ◌^◌, Bool, true, false, not, Option, none, some, List, [], ◌∷◌, ◌==◌, if◌then◌else◌,
}
use vmodule.Atomic.{
  word, vmodule_atomic_inc, vmodule_atomic_dec, vmodule_atomic_add, vmodule_atomic_or,
  vmodule_atomic_load,
}

-- INITIAL_STRONG_VALUE
abbrev pub initial_strong_value : ℕ
initial_strong_value = 2 ^ 28

pub data Event : Type 0 where
  first_ref last_strong_ref last_weak_ref : Event
  object_deleted impl_deleted : Event

pub record Refs : Type 0 where
  pub strong : ℕ
  pub weak : ℕ
  pub flags : ℕ
  pub object_alive : Bool
  pub impl_alive : Bool
  pub log : List Event

abbrev pub M : Type 0 → Type 0
M A = Refs → Option (A × Refs)

abbrev pub pure : {A : Type 0} → A → M A
pure a r = some (a, r)

infixl 5 ◌>>=◌ ◌>>◌
abbrev pub ◌>>=◌ : {A B : Type 0} → M A → (A → M B) → M B
◌>>=◌ m f r = elim (m r) [ none ↦ none | some (a, r') ↦ f a r' ]

abbrev pub ◌>>◌ : {A B : Type 0} → M A → M B → M B
m >> k = m >>= λ _. k

-- A branch of a command.
abbrev pub choose : {A : Type 0} → Bool → M A → M A → M A
choose b m n r = if b then m r else n r

-- The constructor: RefBase::RefBase and weakref_impl::weakref_impl.
unfoldable pub new_ref_base : Refs
new_ref_base = record {
  strong = initial_strong_value;
  weak = 0;
  flags = 0;
  object_alive = true;
  impl_alive = true;
  log = [];
}

-- An atomic operation on mStrong, on mWeak and on mFlags.
unfoldable pub on_strong : (ℕ → ℕ × ℕ) → M ℕ
on_strong op r =
    if r.impl_alive then some ((op r.strong).0, record r { strong = (op r.strong).1 }) else none

unfoldable pub on_weak : (ℕ → ℕ × ℕ) → M ℕ
on_weak op r =
    if r.impl_alive then some ((op r.weak).0, record r { weak = (op r.weak).1 }) else none

unfoldable pub on_flags : (ℕ → ℕ × ℕ) → M ℕ
on_flags op r =
    if r.impl_alive then some ((op r.flags).0, record r { flags = (op r.flags).1 }) else none

-- A virtual call on the object.
unfoldable pub hook : Event → M (Unit {0})
hook e r = if r.object_alive then some (tt, record r { log = e ∷ r.log }) else none

-- `delete impl`
unfoldable pub delete_impl : M (Unit {0})
delete_impl r =
    if r.impl_alive
    then some (tt, record r { impl_alive = false; log = impl_deleted ∷ r.log })
    else none

unfoldable mark_deleted : M (Unit {0})
mark_deleted r =
    if r.object_alive
    then some (tt, record r { object_alive = false; log = object_deleted ∷ r.log })
    else none

-- `delete this` and `delete mBase`, with RefBase::~RefBase.
unfoldable pub delete_object : M (Unit {0})
unfolding mark_deleted on_strong on_flags on_weak vmodule_atomic_load delete_impl
delete_object = do
  mark_deleted
  strong ← on_strong vmodule_atomic_load
  flags ← on_flags vmodule_atomic_load
  weak ← on_weak vmodule_atomic_load
  choose (strong == initial_strong_value) delete_impl
      (choose (flags % 2 == 0) (pure tt) (choose (weak == 0) delete_impl (pure tt)))

unfoldable pub extend_object_lifetime : ℕ → M (Unit {0})
unfolding on_flags vmodule_atomic_or
extend_object_lifetime mode = do on_flags (vmodule_atomic_or mode); pure tt

unfoldable pub inc_weak : M (Unit {0})
unfolding on_weak vmodule_atomic_inc
inc_weak = do on_weak vmodule_atomic_inc; pure tt

-- What decWeak does once the last weak reference is gone.
last_weak : M (Unit {0})
unfolding on_flags on_strong vmodule_atomic_load delete_object delete_impl hook
last_weak = do
  flags ← on_flags vmodule_atomic_load
  strong ← on_strong vmodule_atomic_load
  choose (flags % 2 == 0) (choose (strong == initial_strong_value) delete_object delete_impl)
      still_extended
  where
    still_extended : M (Unit {0})
    still_extended = do
      hook last_weak_ref
      flags ← on_flags vmodule_atomic_load
      choose (flags % 2 == 1) delete_object (pure tt)

unfoldable pub dec_weak : M (Unit {0})
unfolding on_weak vmodule_atomic_dec last_weak
dec_weak = do c ← on_weak vmodule_atomic_dec; choose (c == 1) last_weak (pure tt)

-- The first strong reference: take INITIAL_STRONG_VALUE off the count and tell the object.
unfoldable fix_first : M (Unit {0})
unfolding on_strong vmodule_atomic_add hook
fix_first = do on_strong (vmodule_atomic_add (word - initial_strong_value)); hook first_ref

unfoldable pub inc_strong : M (Unit {0})
unfolding inc_weak on_strong vmodule_atomic_inc fix_first hook
inc_strong = do
  inc_weak
  c ← on_strong vmodule_atomic_inc
  choose (c == initial_strong_value) fix_first (pure tt)

-- What decStrong does once the last strong reference is gone.
last_strong : M (Unit {0})
unfolding hook on_flags vmodule_atomic_load delete_object
last_strong = do
  hook last_strong_ref
  flags ← on_flags vmodule_atomic_load
  choose (flags % 2 == 0) delete_object (pure tt)

unfoldable pub dec_strong : M (Unit {0})
unfolding on_strong vmodule_atomic_dec last_strong dec_weak
dec_strong = do c ← on_strong vmodule_atomic_dec; choose (c == 1) last_strong (pure tt); dec_weak

unfoldable pub force_inc_strong : M (Unit {0})
unfolding inc_weak on_strong vmodule_atomic_inc fix_first hook
force_inc_strong = do
  inc_weak
  c ← on_strong vmodule_atomic_inc
  choose (c == initial_strong_value) fix_first (choose (c == 0) (hook first_ref) (pure tt))

unfoldable pub get_strong_count : M ℕ
unfolding on_strong vmodule_atomic_load
get_strong_count = on_strong vmodule_atomic_load

unfoldable pub get_weak_count : M ℕ
unfolding on_weak vmodule_atomic_load
get_weak_count = on_weak vmodule_atomic_load

-- The body of RefBase::onIncStrongAttempted, which a subclass may override; FIRST_INC_STRONG is 1.
unfoldable pub on_inc_strong_attempted : ℕ → Bool
on_inc_strong_attempted flags = not (flags % 2 == 0)
