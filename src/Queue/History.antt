-- ===== src/Queue/History.antt =====
-- Any sequence of EnQueue, DeQueue and Remove on one CQueue, against a list of items.
use vmodule.Base.{
  ℕ, ◌≡◌, refl, sym, ap, subst, ◌∙◌, Bool, true, false, not, ◌||◌, Option, none, some, List, [],
  ◌∷◌, ◌++◌, arith, ◌==◌, ==_iff, has, Bool-cases, inl, inr, if◌then◌else◌, All,
}
use vmodule.Queue.{Store, write, is_member, is_member_of_any_queue, en_queue, de_queue, remove}
use vmodule.Queue.Chain.{write-same, write-other}
use vmodule.Queue.Fifo.{
  IsQueue, linked, en_queue-linked, en_queue-IsQueue, de_queue-unlinked, de_queue-Taken,
  remove-unlinked, remove-IsQueue,
}

pub data Call : Type 0 where
  enqueues : ℕ → Call
  dequeues : Call
  removes : ℕ → Call

-- The calls in their order, with what DeQueue gives each time, and the store afterwards.
unfoldable pub run_calls : ℕ → List Call → Store → List (Option ℕ) × Store
unfolding en_queue de_queue remove
run_calls h [] st = ([], st)
run_calls h (enqueues item ∷ calls) st = run_calls h calls (en_queue h item st)
run_calls h (removes item ∷ calls) st = run_calls h calls (remove h (some item) st)
run_calls h (dequeues ∷ calls) st =
    let (item, st') = de_queue h st in
    let (items, end) = run_calls h calls st' in (item ∷ items, end)

-- The list without an item.
abbrev pub without : ℕ → List ℕ → List ℕ
without item [] = []
without item (x ∷ xs) = let rest = without item xs in if item == x then xs else x ∷ rest

abbrev pub first : List ℕ → Option ℕ
first [] = none
first (x ∷ xs) = some x

abbrev pub rest_of : List ℕ → List ℕ
rest_of [] = []
rest_of (x ∷ xs) = xs

-- An item joins at the end unless it is in this queue or in another one.
abbrev pub queued : (ℕ → Bool) → ℕ → List ℕ → List ℕ
queued elsewhere item xs = if has item xs || elsewhere item then xs else xs ++ item ∷ []

-- What the calls do to a list of items.
unfoldable pub run_list : (elsewhere : ℕ → Bool) → List Call → List ℕ → List (Option ℕ) × List ℕ
run_list elsewhere [] xs = ([], xs)
run_list elsewhere (enqueues item ∷ calls) xs = run_list elsewhere calls (queued elsewhere item xs)
run_list elsewhere (removes item ∷ calls) xs = run_list elsewhere calls (without item xs)
run_list elsewhere (dequeues ∷ calls) xs =
    let (items, end) = run_list elsewhere calls (rest_of xs) in (first xs ∷ items, end)

-- fHead is private and never an item.
abbrev pub IsNotHead : ℕ → Call → Type 0
IsNotHead h (enqueues item) = (item == h) ≡ false
IsNotHead h dequeues = Unit
IsNotHead h (removes item) = (item == h) ≡ false

-- Whether an item's mQueue is another queue.
abbrev pub is_apart : ℕ → Option ℕ → Bool
is_apart h none = false
is_apart h (some q) = not (q == h)

-- The store holds the queue and knows which items are in other queues.
abbrev pub Holds : (ℕ → Bool) → ℕ → Store → List ℕ → Type 0
Holds elsewhere h st xs = IsQueue st h xs × ((i : ℕ) → is_apart h (st.queue i) ≡ elsewhere i)

is_apart-write :
    (queue : ℕ → Option ℕ) (h item : ℕ) (v : Option ℕ)
    → is_apart h (queue item) ≡ false
    → is_apart h v ≡ false
    → (i : ℕ) → is_apart h (write queue item v i) ≡ is_apart h (queue i)
is_apart-write queue h item v before after i = elim (Bool-cases (item == i)) [
  | inl e ↦
      let same : i ≡ item = sym ((==_iff item i).0 e) in
      rw (same, write-same queue item v) (after ∙ sym before)
  | inr e ↦ rw (write-other queue item v i e) refl
]

member_apart : (h : ℕ) (o : Option ℕ) → is_member h o ≡ true → is_apart h o ≡ false
member_apart h none e = refl
member_apart h (some q) e = rw e refl

-- Where an item stands.
split_at :
    (item : ℕ) (xs : List ℕ)
    → has item xs ≡ true
    → (ps : List ℕ) × (qs : List ℕ) × (xs ≡ ps ++ item ∷ qs) × (without item xs ≡ ps ++ qs)
split_at item [] e = cc
split_at item (x ∷ xs) e = elim (Bool-cases (item == x)) [
  | inl y ↦
      let same : x ≡ item = sym ((==_iff item x).0 y) in ([], xs, ap (λ a. a ∷ xs) same, rw y refl)
  | inr y ↦
      let e' : has item xs ≡ true = sym (rw y refl) ∙ e in
      let (ps, qs, at, off) = split_at item xs e' in
      (x ∷ ps, qs, ap (λ l. x ∷ l) at, rw y (ap (λ l. x ∷ l) off))
]

without-absent : (item : ℕ) (xs : List ℕ) → has item xs ≡ false → without item xs ≡ xs
without-absent item [] e = refl
without-absent item (x ∷ xs) e = elim (Bool-cases (item == x)) [
  | inl y ↦ let e' : has item (x ∷ xs) ≡ true = rw y refl in cc
  | inr y ↦
      let e' : has item xs ≡ false = sym (rw y refl) ∙ e in
      rw y (ap (λ l. x ∷ l) (without-absent item xs e'))
]

remove-absent :
    (h item : ℕ) (st : Store)
    → (item == h) ≡ false
    → is_member h (st.queue item) ≡ false
    → remove h (some item) st ≡ st
unfolding remove
remove-absent h item st other e = rw (remove, other, e) refl

en_queue-held :
    (h item held_by : ℕ) (st : Store) → st.queue item ≡ some held_by → en_queue h item st ≡ st
unfolding en_queue is_member_of_any_queue
en_queue-held h item held_by st e = rw (en_queue, is_member_of_any_queue, e) refl

module _ (elsewhere : ℕ → Bool) (h : ℕ) where
  removes-Holds :
      (item : ℕ) (st : Store) (xs : List ℕ)
      → Holds elsewhere h st xs
      → (item == h) ≡ false
      → Holds elsewhere h (remove h (some item) st) (without item xs)
  removes-Holds item st xs (q, away) other = elim (Bool-cases (has item xs)) [
    | inl y ↦
        let (ps, qs, at, off) = split_at item xs y in
        let q' = subst (IsQueue st h) at q in
        let member : is_apart h (st.queue item) ≡ false =
          member_apart h (st.queue item) (q.3 item ∙ y) in
        (
          subst (IsQueue (remove h (some item) st) h) (sym off) (remove-IsQueue st h ps item qs q'),
          λ i.
              rw (remove-unlinked st h ps item qs q')
                (is_apart-write st.queue h item none member refl i ∙ away i),
        )
    | inr y ↦
        let stays : remove h (some item) st ≡ st = remove-absent h item st other (q.3 item ∙ y) in
        rw (stays, without-absent item xs y) (q, away)
  ]

  dequeues-Holds :
      (st : Store) (xs : List ℕ)
      → Holds elsewhere h st xs
      → ((de_queue h st).0 ≡ first xs) × Holds elsewhere h ((de_queue h st).1) (rest_of xs)
  dequeues-Holds st [] (q, away) = rw (de_queue-Taken st h [] q) (refl, (q, away))
  dequeues-Holds st (x ∷ xs) (q, away) =
      let (got, left) = de_queue-Taken st h (x ∷ xs) q in
      let member : is_apart h (st.queue x) ≡ false =
        member_apart h (st.queue x)
          (q.3 x ∙ (let e : (x == x) ≡ true = ground arith in rw e refl)) in
      (
        got,
        (
          left,
          λ i.
              rw (de_queue-unlinked st h x xs q)
                (is_apart-write st.queue h x none member refl i ∙ away i),
        ),
      )

  enqueues-Holds :
      (item : ℕ) (st : Store) (xs : List ℕ)
      → Holds elsewhere h st xs
      → (item == h) ≡ false
      → Holds elsewhere h (en_queue h item st) (queued elsewhere item xs)
  enqueues-Holds item st xs (q, away) other = go (st.queue item) refl
    where
      go :
          (o : Option ℕ)
          → st.queue item ≡ o
          → Holds elsewhere h (en_queue h item st) (queued elsewhere item xs)
      go none e =
          let absent : has item xs ≡ false = sym (q.3 item) ∙ ap (is_member h) e in
          let nowhere : elsewhere item ≡ false = sym (away item) ∙ ap (is_apart h) e in
          let joins : en_queue h item st ≡ linked h item (st.prev h) st =
            en_queue-linked st h item (st.prev h) e refl in
          rw (absent, nowhere)
            (
              en_queue-IsQueue st h item xs q e other,
              λ i.
                  rw joins
                    (is_apart-write st.queue h item (some h) (ap (is_apart h) e) own i ∙ away i),
            )
        where
          own : is_apart h (some h) ≡ false
          own = let same : (h == h) ≡ true = ground arith in rw same refl
      go (some held_by) e =
          let stays : en_queue h item st ≡ st = en_queue-held h item held_by st e in
          let somewhere : has item xs || elsewhere item ≡ true =
            rw (sym (q.3 item), sym (away item), e) (either (held_by == h)) in
          rw (stays, somewhere) (q, away)
        where
          either : (b : Bool) → b || not b ≡ true
          either true = refl
          either false = refl

  -- For any sequence of EnQueue, DeQueue and Remove on a queue, with items other than fHead:
  -- DeQueue gives, each time, what it gives on a list to which EnQueue adds its item at the end,
  -- unless the item is in this queue or in another, and from which DeQueue takes the first item and
  -- Remove the one that it names; and the queue holds that list afterwards.
  pub run_calls-run_list :
      (calls : List Call) (st : Store) (xs : List ℕ)
      → Holds elsewhere h st xs
      → All (IsNotHead h) calls
      → ((run_calls h calls st).0 ≡ (run_list elsewhere calls xs).0)
        × Holds elsewhere h ((run_calls h calls st).1) ((run_list elsewhere calls xs).1)
  unfolding run_calls run_list
  run_calls-run_list [] st xs holds others = (refl, holds)
  run_calls-run_list (enqueues item ∷ calls) st xs holds (other, others) =
      run_calls-run_list calls (en_queue h item st) (queued elsewhere item xs)
        (enqueues-Holds item st xs holds other) others
  run_calls-run_list (removes item ∷ calls) st xs holds (other, others) =
      run_calls-run_list calls (remove h (some item) st) (without item xs)
        (removes-Holds item st xs holds other) others
  run_calls-run_list (dequeues ∷ calls) st xs holds (other, others) =
      let (got, holds') = dequeues-Holds st xs holds in
      let (items, end) = run_calls-run_list calls ((de_queue h st).1) (rest_of xs) holds' others in
      (rw (got, items) refl, end)
