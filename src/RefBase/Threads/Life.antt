-- ===== src/RefBase/Threads/Life.antt =====
-- The lives of an object that several threads use: what the counters and the memory are, while the
-- references are so many.
use vmodule.Base.{ℕ, ◌+◌, ◌≤◌, ◌<◌, ◌≡◌, ◌⊎◌, Bool, true, false}
use vmodule.RefBase.{Refs, initial_strong_value}
use vmodule.RefBase.Threads.Counts.{
  Class, strong_refs, weak_refs, settled, dying, looking, last_object, last_impl, odd,
}

-- `fresh`: INITIAL_STRONG_VALUE is still in mStrong, and every strong reference is one that an
-- attemptIncStrong has still to fix up.
pub data Life : Type 0 where
  fresh living ending lapsed : Life

abbrev pub IsLife : Life → (strong : ℕ) → (object : Bool) → (s d y : ℕ) → Type 0
IsLife fresh strong object s d y =
    (strong ≡ initial_strong_value + s) × (object ≡ true) × (d ≡ 0) × (y ≡ 0)
IsLife living strong object s d y = (strong ≡ s) × (object ≡ true) × (1 ≤ s) × (y ≡ 0)
IsLife ending strong object s d y = (strong ≡ 0) × (object ≡ true) × (s ≡ 0) × (d ≡ 0) × (y ≡ 1)
IsLife lapsed strong object s d y = (strong ≡ 0) × (object ≡ false) × (s ≡ 0) × (d ≡ 0) × (y ≡ 0)

-- Whether anybody has a reference, and if not, how far the thread is that gave the last one back.
pub data Stage : Type 0 where
  used unused object_next impl_next : Stage

abbrev pub IsStage : Stage → (w l0 l1 l2 : ℕ) → Type 0
IsStage used w l0 l1 l2 = (1 ≤ w) × (l0 ≡ 0) × (l1 ≡ 0) × (l2 ≡ 0)
IsStage unused w l0 l1 l2 = (w ≡ 0) × (l0 ≡ 1) × (l1 ≡ 0) × (l2 ≡ 0)
IsStage object_next w l0 l1 l2 = (w ≡ 0) × (l0 ≡ 0) × (l1 ≡ 1) × (l2 ≡ 0)
IsStage impl_next w l0 l1 l2 = (w ≡ 0) × (l0 ≡ 0) × (l1 ≡ 0) × (l2 ≡ 1)

-- The object is deleted last only if it never had a strong reference, the weakref_impl only after it.
abbrev pub Agree : Stage → Life → Type 0
Agree object_next fresh = Unit {0}
Agree object_next life = ⊥
Agree impl_next lapsed = Unit {0}
Agree impl_next life = ⊥
Agree stage life = Unit {0}

-- While the weakref_impl is in memory.
pub record Uses (strong weak flags : ℕ) (object impl : Bool) (n : Class → ℕ) : Type 0 where
  pub life : Life
  pub stage : Stage
  pub strong_eq : IsLife life strong object (n strong_refs) (n settled) (n dying)
  pub stage_eq : IsStage stage (n weak_refs) (n looking) (n last_object) (n last_impl)
  pub agree : Agree stage life
  pub weak_eq : weak ≡ n weak_refs
  pub flags_eq : flags ≡ 0
  pub impl_eq : impl ≡ true
  pub odd_eq : n odd ≡ 0

-- Everything is deleted, and nobody is left to touch it.
pub record Gone (object impl : Bool) (n : Class → ℕ) : Type 0 where
  pub object_eq : object ≡ false
  pub impl_eq : impl ≡ false
  pub no_weak : n weak_refs ≡ 0
  pub no_looking : n looking ≡ 0
  pub no_object : n last_object ≡ 0
  pub no_impl : n last_impl ≡ 0
  pub no_odd : n odd ≡ 0

abbrev pub Sound : Refs → (Class → ℕ) → Type 0
Sound r n =
    Uses r.strong r.weak r.flags r.object_alive r.impl_alive n ⊎ Gone r.object_alive r.impl_alive n

-- Fewer references at once than INITIAL_STRONG_VALUE.
abbrev pub IsFew : (Class → ℕ) → Type 0
IsFew n = n weak_refs + 2 < initial_strong_value
