-- ===== src/RefBase/Threads/Handing.antt =====
-- The moves outside the code: a thread hands a reference to another, or makes a call.
use vmodule.Base.{
  ℕ, zero, suc, ◌+◌, ◌≡◌, refl, sym, subst, inl, inr, Option, some, arith, get_elem?, Option-cases,
  some_inj,
}
use mathlib.Core.Path.{fun_ext}
use vmodule.RefBase.Threads.{
  Place, idle, raising_weak, dropping, dropping_weak, creating_weak, adding_weak, attempting,
  weak_loading, Thread,
}
use vmodule.RefBase.Threads.Machine.{
  Machine, enter, changes, hands, taken_strong, taken_weak, given_strong, given_weak, replace, Call,
  calls_inc_strong, calls_dec_strong, calls_create_weak, calls_inc_weak, calls_dec_weak,
  calls_attempt_inc_strong, calls_attempt_inc_weak, on_one_strong, on_one_weak,
}
use vmodule.RefBase.Threads.Counts.{
  Class, weak_refs, strong_refs, settled, weigh, total, total-get, total-replace,
}
use vmodule.RefBase.Threads.Rules.{thread}
use vmodule.RefBase.Threads.Life.{Sound}

-- The counters and the memory fit the references that the threads have.
abbrev pub IsSound : Machine → Type 0
IsSound m = Sound m.refs (total m.threads)

-- Moves of a reference from thread to thread keep every count.
module _ (take : Thread → Option Thread) (give : Thread → Thread) (d : Class → ℕ)
    (takes_one : (t t' : Thread) (c : Class) → take t ≡ some t' → weigh c t ≡ weigh c t' + d c)
    (gives_one : (t : Thread) (c : Class) → weigh c (give t) ≡ weigh c t + d c) where
  total-hands :
      (i j : ℕ) (m : Machine) (c : Class)
      → total ((hands take give i j m).threads) c ≡ total m.threads c
  total-hands i j m c = elim (Option-cases (get_elem? m.threads i)) [
    | inl e ↦ rw (total, e) refl
    | inr (t, e) ↦ elim (Option-cases (take t)) [
      | inl x ↦ rw (total, e, x) refl
      | inr (t', x) ↦ elim (Option-cases (get_elem? (replace i t' m.threads) j)) [
        | inl y ↦ rw (total, e, x, y) refl
        | inr (u, y) ↦
            let a = total-get i m.threads t c e in
            let b = total-replace i m.threads t t' c e in
            let a' = total-get j (replace i t' m.threads) u c y in
            let b' = total-replace j (replace i t' m.threads) u (give u) c y in
            let g = takes_one t t' c x in
            let g' = gives_one u c in rw (total, e, x, y) (omega arith)
      ]
    ]
  ]

  refs-hands : (i j : ℕ) (m : Machine) → (hands take give i j m).refs ≡ m.refs
  refs-hands i j m = elim (Option-cases (get_elem? m.threads i)) [
    | inl e ↦ rw (hands, e) refl
    | inr (t, e) ↦ elim (Option-cases (take t)) [
      | inl x ↦ rw (hands, e, x) refl
      | inr (t', x) ↦ elim (Option-cases (get_elem? (replace i t' m.threads) j)) [
        | inl y ↦ rw (hands, e, x, y) refl
        | inr (u, y) ↦ rw (hands, e, x, y) refl
      ]
    ]
  ]

  pub hands-IsSound : (i j : ℕ) (m : Machine) → IsSound m → IsSound (hands take give i j m)
  hands-IsSound i j m h =
      subst (λ r. Sound r (total (hands take give i j m).threads)) (sym (refs-hands i j m))
        (subst (Sound m.refs) (fun_ext (λ c. sym (total-hands i j m c))) h)

abbrev one_strong : Class → ℕ
one_strong strong_refs = 1
one_strong weak_refs = 1
one_strong settled = 1
one_strong c = 0

abbrev one_weak : Class → ℕ
one_weak weak_refs = 1
one_weak c = 0

takes_strong :
    (t t' : Thread) (c : Class)
    → taken_strong t.at t.strong t ≡ some t'
    → weigh c t ≡ weigh c t' + one_strong c
takes_strong t t' c e = go t.at t.strong refl refl e
  where
    go :
        (p : Place) (s : ℕ)
        → t.at ≡ p
        → t.strong ≡ s
        → taken_strong p s t ≡ some t'
        → weigh c t ≡ weigh c t' + one_strong c
    go idle (suc s) ep es h =
        let e : record t { strong = s } ≡ t' = some_inj h in
        subst (λ (v : Thread). weigh c t ≡ weigh c v + one_strong c) e (one c)
      where
        one : (c : Class) → weigh c t ≡ weigh c (record t { strong = s }) + one_strong c
        one strong_refs = omega arith
        one c = omega arith
    go p s ep es h = absurd (ground arith)

takes_weak :
    (t t' : Thread) (c : Class)
    → taken_weak t.at t.weak t ≡ some t'
    → weigh c t ≡ weigh c t' + one_weak c
takes_weak t t' c e = go t.at t.weak refl refl e
  where
    go :
        (p : Place) (w : ℕ)
        → t.at ≡ p
        → t.weak ≡ w
        → taken_weak p w t ≡ some t'
        → weigh c t ≡ weigh c t' + one_weak c
    go idle (suc w) ep es h =
        let e : record t { weak = w } ≡ t' = some_inj h in
        subst (λ (v : Thread). weigh c t ≡ weigh c v + one_weak c) e (one c)
      where
        one : (c : Class) → weigh c t ≡ weigh c (record t { weak = w }) + one_weak c
        one strong_refs = omega arith
        one c = omega arith
    go p s ep es h = absurd (ground arith)

gives_strong_one : (t : Thread) (c : Class) → weigh c (given_strong t) ≡ weigh c t + one_strong c
gives_strong_one t strong_refs = omega arith
gives_strong_one t c = omega arith

gives_weak_one : (t : Thread) (c : Class) → weigh c (given_weak t) ≡ weigh c t + one_weak c
gives_weak_one t strong_refs = omega arith
gives_weak_one t c = omega arith

pub gives_strong-IsSound :
    (i j : ℕ) (m : Machine)
    → IsSound m
    → IsSound (hands (λ t. taken_strong t.at t.strong t) given_strong i j m)
gives_strong-IsSound = hands-IsSound _ _ one_strong takes_strong gives_strong_one

pub gives_weak-IsSound :
    (i j : ℕ) (m : Machine)
    → IsSound m
    → IsSound (hands (λ t. taken_weak t.at t.weak t) given_weak i j m)
gives_weak-IsSound = hands-IsSound _ _ one_weak takes_weak gives_weak_one

-- A call takes its reference along.
module _ (q : Place) (h : (c : Class) → weigh c (thread 0 0 q) ≡ one_strong c) where
  on_one_strong-weigh :
      (s w : ℕ) (c : Class)
      → weigh c (on_one_strong q s (thread s w idle)) ≡ weigh c (thread s w idle)
  on_one_strong-weigh zero w c = refl
  on_one_strong-weigh (suc s) w strong_refs = let e = h strong_refs in omega arith
  on_one_strong-weigh (suc s) w c = let e = h c in omega arith

module _ (q : Place) (h : (c : Class) → weigh c (thread 0 0 q) ≡ one_weak c) where
  on_one_weak-weigh :
      (s w : ℕ) (c : Class)
      → weigh c (on_one_weak q w (thread s w idle)) ≡ weigh c (thread s w idle)
  on_one_weak-weigh s zero c = refl
  on_one_weak-weigh s (suc w) strong_refs = let e = h strong_refs in omega arith
  on_one_weak-weigh s (suc w) c = let e = h c in omega arith

raising_weak_one : (c : Class) → weigh c (thread 0 0 raising_weak) ≡ one_strong c
raising_weak_one strong_refs = refl
raising_weak_one c = refl

dropping_one : (c : Class) → weigh c (thread 0 0 dropping) ≡ one_strong c
dropping_one strong_refs = refl
dropping_one c = refl

creating_weak_one : (c : Class) → weigh c (thread 0 0 creating_weak) ≡ one_strong c
creating_weak_one strong_refs = refl
creating_weak_one c = refl

adding_weak_one : (c : Class) → weigh c (thread 0 0 adding_weak) ≡ one_weak c
adding_weak_one strong_refs = refl
adding_weak_one c = refl

dropping_weak_one : (c : Class) → weigh c (thread 0 0 dropping_weak) ≡ one_weak c
dropping_weak_one strong_refs = refl
dropping_weak_one c = refl

attempting_one : (c : Class) → weigh c (thread 0 0 attempting) ≡ one_weak c
attempting_one strong_refs = refl
attempting_one c = refl

weak_loading_one : (c : Class) → weigh c (thread 0 0 weak_loading) ≡ one_weak c
weak_loading_one strong_refs = refl
weak_loading_one c = refl

enter-weigh :
    (call : Call) (p : Place) (s w : ℕ) (c : Class)
    → weigh c (enter call p (thread s w p)) ≡ weigh c (thread s w p)
enter-weigh calls_inc_strong idle s w = on_one_strong-weigh raising_weak raising_weak_one s w
enter-weigh calls_dec_strong idle s w = on_one_strong-weigh dropping dropping_one s w
enter-weigh calls_create_weak idle s w = on_one_strong-weigh creating_weak creating_weak_one s w
enter-weigh calls_inc_weak idle s w = on_one_weak-weigh adding_weak adding_weak_one s w
enter-weigh calls_dec_weak idle s w = on_one_weak-weigh dropping_weak dropping_weak_one s w
enter-weigh calls_attempt_inc_strong idle s w = on_one_weak-weigh attempting attempting_one s w
enter-weigh calls_attempt_inc_weak idle s w = on_one_weak-weigh weak_loading weak_loading_one s w
enter-weigh call p s w = λ c. refl

pub makes-IsSound :
    (i : ℕ) (call : Call) (m : Machine) → IsSound m → IsSound (changes (λ t. enter call t.at t) i m)
makes-IsSound i call m h = elim (Option-cases (get_elem? m.threads i)) [
  | inl e ↦ rw (changes, e) h
  | inr (t, e) ↦ rw (changes, e) (subst (Sound m.refs) (fun_ext (λ c. same t c e)) h)
]
  where
    same :
        (t : Thread) (c : Class)
        → get_elem? m.threads i ≡ some t
        → total m.threads c ≡ total (replace i (enter call t.at t) m.threads) c
    same t c e =
        let a = total-get i m.threads t c e in
        let b = total-replace i m.threads t (enter call t.at t) c e in
        let g = enter-weigh call t.at t.strong t.weak c in omega arith
