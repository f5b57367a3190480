-- ===== src/Queue/Fifo.antt =====
-- CQueue as a list of items: EnQueue at the end, DeQueue at the front, Remove from anywhere.
use vmodule.Base.{
  ℕ, suc, ◌≡◌, refl, sym, ap, subst, ◌∙◌, Bool, true, false, ◌||◌, Option, none, some, List, [],
  ◌∷◌, ◌++◌, arith, ◌==◌, ==_iff, length, length-append, has, Bool-cases, inl, inr, pos, inc, dec,
}
use vmodule.Queue.{
  Store, write, is_member, is_member_of_any_queue, new_queue, en_queue, de_queue, unlink, remove,
}
use vmodule.Queue.Chain.{
  Chain, Chain-extend, Chain-unlink, last, last-prev, prev-last, is_distinct, is_distinct-cons,
  write-same, write-other, has-append, has-append_false, has-cons, ==_false,
}

-- The queue at `h` holds the items `xs`, the first in front.
abbrev pub IsQueue : Store → ℕ → List ℕ → Type 0
IsQueue st h xs =
    Chain st.next st.prev h xs h
    × (is_distinct (h ∷ xs) ≡ true)
    × (st.length h ≡ pos (length xs))
    × ((i : ℕ) → is_member h (st.queue i) ≡ has i xs)

or-true : (b : Bool) → (b || true) ≡ true
or-true true = refl
or-true false = refl

or-false : (b : Bool) → (b || false) ≡ b
or-false true = refl
or-false false = refl

member-write :
    (queue : ℕ → Option ℕ) (h item : ℕ) (xs : List ℕ)
    → ((i : ℕ) → is_member h (queue i) ≡ has i xs)
    → (i : ℕ) → is_member h (write queue item (some h) i) ≡ has i (xs ++ item ∷ [])
member-write queue h item xs m i = elim (Bool-cases (item == i)) [
  | inl e ↦
      let i_is : i ≡ item = sym ((==_iff item i).0 e) in
      rw
        (
          i_is,
          write-same queue item (some h),
          (==_iff h h).1 refl,
          has-append item xs (item ∷ []),
          (==_iff item item).1 refl,
        )
        (sym (or-true (has item xs)))
  | inr e ↦
      rw (write-other queue item (some h) i e, has-append i xs (item ∷ []), ==_false item i e)
        (m i ∙ sym (or-false (has i xs)))
]

distinct-snoc :
    (xs : List ℕ) (item : ℕ)
    → is_distinct xs ≡ true
    → has item xs ≡ false
    → is_distinct (xs ++ item ∷ []) ≡ true
distinct-snoc [] item d h = refl
distinct-snoc (x ∷ xs) item d h =
    let (once, d') = is_distinct-cons x xs d in
    let (other, rest) = has-cons item x xs h in
    rw (has-append x xs (item ∷ []), once, ==_false item x other) (distinct-snoc xs item d' rest)

abbrev pub linked : ℕ → ℕ → ℕ → Store → Store
linked h item tail st = record {
  next = write (write st.next tail item) item h;
  prev = write (write st.prev item tail) h item;
  queue = write st.queue item (some h);
  length = write st.length h (inc (st.length h));
}

pub en_queue-linked :
    (st : Store) (h item tail : ℕ)
    → st.queue item ≡ none
    → st.prev h ≡ tail
    → en_queue h item st ≡ linked h item tail st
unfolding en_queue is_member_of_any_queue
en_queue-linked st h item tail free e = rw (en_queue, is_member_of_any_queue, free, e) refl

-- EnQueue of an item that is in no queue and is not fHead, on a queue that holds the items xs,
-- leaves one that holds xs and then the item, with both directions of links, the length and the
-- membership of every item in step.
pub en_queue-IsQueue :
    (st : Store) (h item : ℕ) (xs : List ℕ)
    → IsQueue st h xs
    → st.queue item ≡ none
    → (item == h) ≡ false
    → IsQueue (en_queue h item st) h (xs ++ item ∷ [])
en_queue-IsQueue st h item xs (c, d, n, m) free other =
    let (h_once, d') = is_distinct-cons h xs d in
    let absent : has item xs ≡ false = sym (m item) ∙ ap (is_member h) free in
    let fresh : has item (h ∷ xs) ≡ false = rw (other, absent) refl in
    subst (λ s. IsQueue s h (xs ++ item ∷ []))
      (sym (en_queue-linked st h item (last h xs) free (last-prev st.next st.prev h xs h c)))
      (
        Chain-extend st.next st.prev h xs h item d fresh h_once other c,
        distinct-snoc (h ∷ xs) item d fresh,
        write-same st.length h (inc (st.length h))
            ∙ ap inc n
            ∙ ap pos (omega (arith, length-append xs (item ∷ []))),
        member-write st.queue h item xs m,
      )

abbrev pub unlinked : ℕ → ℕ → ℕ → ℕ → Store → Store
unlinked h item before after st = record {
  next = write st.next before after;
  prev = write st.prev after before;
  queue = write st.queue item none;
  length = write st.length h (dec (st.length h));
}

gone :
    (ps : List ℕ) (item : ℕ) (qs : List ℕ)
    → is_distinct (ps ++ item ∷ qs) ≡ true
    → has item (ps ++ qs) ≡ false
gone [] item qs d = (is_distinct-cons item qs d).0
gone (x ∷ ps) item qs d =
    let (once, d') = is_distinct-cons x (ps ++ item ∷ qs) d in
    let (p, q) = has-append_false x ps (item ∷ qs) once in
    rw (==_false x item (has-cons x item qs q).0) (gone ps item qs d')

member-clear :
    (queue : ℕ → Option ℕ) (h item : ℕ) (ps qs : List ℕ)
    → is_distinct (ps ++ item ∷ qs) ≡ true
    → ((i : ℕ) → is_member h (queue i) ≡ has i (ps ++ item ∷ qs))
    → (i : ℕ) → is_member h (write queue item none i) ≡ has i (ps ++ qs)
member-clear queue h item ps qs d m i = elim (Bool-cases (item == i)) [
  | inl e ↦
      let i_is : i ≡ item = sym ((==_iff item i).0 e) in
      rw (i_is, write-same queue item none) (sym (gone ps item qs d))
  | inr e ↦
      rw (write-other queue item none i e, has-append i ps qs)
        (m i
          ∙ has-append i ps (item ∷ qs)
          ∙ ap (λ b. has i ps || (b || has i qs)) (==_false item i e))
]

distinct-without :
    (ps : List ℕ) (item : ℕ) (qs : List ℕ)
    → is_distinct (ps ++ item ∷ qs) ≡ true
    → is_distinct (ps ++ qs) ≡ true
distinct-without [] item qs d = (is_distinct-cons item qs d).1
distinct-without (x ∷ ps) item qs d =
    let (once, d') = is_distinct-cons x (ps ++ item ∷ qs) d in
    let (p, q) = has-append_false x ps (item ∷ qs) once in
    rw (has-append x ps qs, p, (has-cons x item qs q).1) (distinct-without ps item qs d')

unlinked-IsQueue :
    (st : Store) (h : ℕ) (ps : List ℕ) (item : ℕ) (qs : List ℕ)
    → IsQueue st h (ps ++ item ∷ qs)
    → IsQueue (unlinked h item (last h ps) (st.next item) st) h (ps ++ qs)
unlinked-IsQueue st h ps item qs (c, d, n, m) =
    let (h_once, d') = is_distinct-cons h (ps ++ item ∷ qs) d in
    (
      Chain-unlink st.next st.prev h ps item qs h d h_once c,
      distinct-without (h ∷ ps) item qs d,
      write-same st.length h (dec (st.length h)) ∙ ap dec (n ∙ ap pos size) ∙ refl,
      member-clear st.queue h item ps qs d' m,
    )
  where
    size : length (ps ++ item ∷ qs) ≡ suc (length (ps ++ qs))
    size = omega (arith, length-append ps (item ∷ qs), length-append ps qs)

-- What DeQueue promises of a queue of these items.
abbrev pub Taken : Store → ℕ → List ℕ → Option ℕ × Store → Type 0
Taken st h [] taken = taken ≡ (none, st)
Taken st h (item ∷ rest) taken = (taken.0 ≡ some item) × IsQueue taken.1 h rest

pub de_queue-unlinked :
    (st : Store) (h item : ℕ) (rest : List ℕ)
    → IsQueue st h (item ∷ rest)
    → de_queue h st ≡ (some item, unlinked h item h (st.next item) st)
unfolding de_queue
de_queue-unlinked st h item rest ((first, before, c), d, n, m) =
    rw
      (
        de_queue,
        n,
        first,
        write-other st.next h (st.next item) item
            (has-cons h item rest (is_distinct-cons h (item ∷ rest) d).0).0,
      )
      refl

-- DeQueue on a queue that holds items gives the first and leaves a queue of the others; on an empty
-- queue it gives null and changes nothing.
pub de_queue-Taken :
    (st : Store) (h : ℕ) (xs : List ℕ) → IsQueue st h xs → Taken st h xs (de_queue h st)
de_queue-Taken st h [] (c, d, n, m) = unfold de_queue in rw (de_queue, n) refl
de_queue-Taken st h (item ∷ rest) q =
    subst (Taken st h (item ∷ rest)) (sym (de_queue-unlinked st h item rest q))
      (refl, unlinked-IsQueue st h [] item rest q)

has-middle : (ps : List ℕ) (item : ℕ) (qs : List ℕ) → has item (ps ++ item ∷ qs) ≡ true
has-middle [] item qs = rw ((==_iff item item).1 refl) refl
has-middle (x ∷ ps) item qs = rw (has-middle ps item qs) (or-true (item == x))

last-other :
    (h : ℕ) (ps : List ℕ) (item : ℕ) (qs : List ℕ)
    → is_distinct (h ∷ (ps ++ item ∷ qs)) ≡ true
    → (last h ps == item) ≡ false
last-other h [] item qs d = (has-cons h item qs (is_distinct-cons h (item ∷ qs) d).0).0
last-other h (x ∷ ps) item qs d =
    last-other x ps item qs (is_distinct-cons h (x ∷ (ps ++ item ∷ qs)) d).1

pub remove-unlinked :
    (st : Store) (h : ℕ) (ps : List ℕ) (item : ℕ) (qs : List ℕ)
    → IsQueue st h (ps ++ item ∷ qs)
    → remove h (some item) st ≡ unlinked h item (last h ps) (st.next item) st
unfolding remove unlink
remove-unlinked st h ps item qs (c, d, n, m) =
    let (p_h, r_h) = has-append_false h ps (item ∷ qs) (is_distinct-cons h (ps ++ item ∷ qs) d).0 in
    rw
      (
        remove,
        ==_false h item (has-cons h item qs r_h).0,
        m item,
        has-middle ps item qs,
        unlink,
        prev-last st.next st.prev h ps item qs h c,
        write-other st.next (last h ps) (st.next item) item (last-other h ps item qs d),
      )
      refl

-- Remove of an item that stands anywhere in a queue leaves a queue of the other items in their
-- order.
pub remove-IsQueue :
    (st : Store) (h : ℕ) (ps : List ℕ) (item : ℕ) (qs : List ℕ)
    → IsQueue st h (ps ++ item ∷ qs)
    → IsQueue (remove h (some item) st) h (ps ++ qs)
remove-IsQueue st h ps item qs q =
    subst (λ s. IsQueue s h (ps ++ qs)) (sym (remove-unlinked st h ps item qs q))
      (unlinked-IsQueue st h ps item qs q)

-- A new queue that no item names as its own is empty, whatever its memory held before.
pub new_queue-IsQueue :
    (st : Store) (h : ℕ)
    → ((i : ℕ) → is_member h (st.queue i) ≡ false)
    → IsQueue (new_queue h st) h []
unfolding new_queue
new_queue-IsQueue st h unused =
    ((write-same st.next h h, write-same st.prev h h), refl, write-same st.length h (pos 0), unused)
