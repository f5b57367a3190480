-- ===== src/RefBase/Threads/Rules.antt =====
-- What the life of a shared object says at a place, and how a step goes on with it.
use vmodule.Base.{ℕ, ◌+◌, ◌≡◌, Bool, true, Option, none, some, List}
use vmodule.RefBase.{Refs, Event}
use vmodule.RefBase.Threads.{Thread, Place, act}
use vmodule.RefBase.Threads.Counts.{
  Class, strong_refs, settled, dying, looking, last_object, last_impl, odd, weigh, Kept,
}
use vmodule.RefBase.Threads.Life.{Uses, Sound, IsFew}

abbrev pub state : (strong weak flags : ℕ) (object impl : Bool) → List Event → Refs
state s w f o i log = record {
  strong = s;
  weak = w;
  flags = f;
  object_alive = o;
  impl_alive = i;
  log = log;
}

abbrev pub thread : (strong weak : ℕ) → Place → Thread
thread a b p = record { strong = a; weak = b; at = p }

abbrev pub joined : Thread → (Class → ℕ) → Class → ℕ
joined t k c = weigh c t + k c

-- The step was no fault, and the counts are sound again. `k` counts the other threads.
abbrev pub Fine : (Class → ℕ) → Option (Thread × Refs) → Type 0
Fine k none = ⊥
Fine k (some (t, r)) = Sound r (joined t k)

abbrev pub Same : (n n' : Class → ℕ) → Type 0
Same n n' =
    (n' strong_refs ≡ n strong_refs)
    × (n' settled ≡ n settled)
    × (n' dying ≡ n dying)
    × (n' looking ≡ n looking)
    × (n' last_object ≡ n last_object)
    × (n' last_impl ≡ n last_impl)
    × (n' odd ≡ n odd)

-- A step at a place is fine whatever the state is there.
abbrev pub IsFine : (ℕ → Bool) → Place → Type 0
IsFine agrees p =
    (a b s w : ℕ) (o : Bool) (log : List Event) (k : Class → ℕ)
    → Kept k
    → IsFew (joined (thread a b p) k)
    → Uses s w 0 o true (joined (thread a b p) k)
    → Fine k (act agrees p (thread a b p) (state s w 0 o true log))
