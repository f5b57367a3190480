-- ===== src/Tests/RefBase.antt =====
-- Lives of single objects.
use vmodule.Base.{ℕ, ◌+◌, refl, false, true, [], ◌∷◌, arith}
use vmodule.RefBase.{
  first_ref, Refs, new_ref_base, last_strong_ref, object_deleted, impl_deleted, ◌>>◌,
  extend_object_lifetime,
}
use vmodule.RefBase.Promote.{Interference, attempt_inc_weak}
use vmodule.RefBase.Phase.{
  Phase, normal, extended, fresh, live, lapsed, gone, Effect, add_strong, drop_strong, add_weak,
  promote, respond, perform,
}
use vmodule.RefBase.Refine.{Follows, perform-Follows}
use vmodule.RefBase.History.{Keeps, done, next, Ends, perform_all, life, extended_life}
use vmodule.RefBase.Race.{Attempted, attempt_inc_weak-Attempted}

abbrev counts : ℕ → ℕ → Refs
counts s w = record {
  strong = s;
  weak = w;
  flags = 0;
  object_alive = true;
  impl_alive = true;
  log = [];
}

abbrev dead : Refs
dead = record { strong = 0; weak = 1; flags = 0; object_alive = false; impl_alive = true; log = [] }

abbrev the_end : Effect
the_end = record {
  phase = gone;
  answer = true;
  events = impl_deleted ∷ object_deleted ∷ last_strong_ref ∷ [];
}

perform-Follows_example : Follows normal the_end [] (perform drop_strong (counts 1 1))
unfolding respond
perform-Follows_example =
    perform-Follows normal drop_strong (live 0 0) the_end (counts 1 1) refl
      (omega arith, omega arith) (refl, refl, refl, refl, refl)

abbrev quietly : Phase → Effect
quietly p = record { phase = p; answer = true; events = [] }

abbrev first_one : ℕ → Effect
first_one w = record { phase = live 0 w; answer = true; events = first_ref ∷ [] }

short_life : Keeps normal (fresh 0) (add_strong ∷ drop_strong ∷ []) gone
unfolding respond
short_life =
    next (first_one 0) (omega arith) refl (next the_end (omega arith, omega arith) refl done)

life_example : Ends normal gone (perform_all (add_strong ∷ drop_strong ∷ []) new_ref_base)
life_example = life gone (add_strong ∷ drop_strong ∷ []) short_life

abbrev asleep : Effect
asleep = record { phase = lapsed 0; answer = true; events = last_strong_ref ∷ [] }

second_life :
    Keeps extended (fresh 0) (add_weak ∷ add_strong ∷ drop_strong ∷ promote ∷ []) (live 0 1)
unfolding respond
second_life = next (quietly (fresh 1)) (omega arith) refl (
    next (first_one 1) (omega arith) refl (
      next asleep (omega arith, omega arith) refl
        (next (quietly (live 0 1)) (omega arith) refl done)))

extended_life_example : Ends extended (live 0 1) (
    (extend_object_lifetime 1 >> perform_all (add_weak ∷ add_strong ∷ drop_strong ∷ promote ∷ []))
      new_ref_base)
extended_life_example =
    extended_life (live 0 1) (add_weak ∷ add_strong ∷ drop_strong ∷ promote ∷ []) second_life

attempt_inc_weak-Attempted_example :
    Attempted
      ((λ c. c + 1) ∷ (λ c. 0) ∷ [])
      (counts 2 3)
      (attempt_inc_weak ((λ c. c + 1) ∷ (λ c. 0) ∷ []) (counts 2 3))
attempt_inc_weak-Attempted_example =
    attempt_inc_weak-Attempted ((λ c. c + 1) ∷ (λ c. 0) ∷ []) (counts 2 3) refl

abbrev busy : Interference
busy = record { easy = (λ c. 5) ∷ []; first = []; fix_up = [] }
