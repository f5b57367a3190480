-- ===== src/Queue/Iterate.antt =====
-- CQueueIterator over the items that a queue holds.
use vmodule.Base.{
  ℕ, suc, ◌≡◌, refl, ap, ◌∙◌, true, Option, none, some, List, [], ◌∷◌, ==_iff, length, pos,
}
use vmodule.Queue.{Store, get_head_item, get_tail_item, new_iterator, iterator_next, visit}
use vmodule.Queue.Chain.{Chain, last-prev, is_distinct, is_distinct-cons, last-has}
use vmodule.Queue.Fifo.{IsQueue}

abbrev then : ℕ → Option (List ℕ) → Option (List ℕ)
then x none = none
then x (some rest) = some (x ∷ rest)

abbrev onward : ℕ → ℕ → Store → ℕ → Option (Option ℕ) → Option (List ℕ)
onward fuel h st x none = none
onward fuel h st x (some current) = then x (visit fuel h st current)

visit-step :
    (fuel h : ℕ) (st : Store) (x : ℕ) (current : Option ℕ) (rest : List ℕ)
    → iterator_next h st (some x) ≡ some current
    → visit fuel h st current ≡ some rest
    → visit (suc fuel) h st (some x) ≡ some (x ∷ rest)
unfolding visit
visit-step fuel h st x current rest e r = ap (onward fuel h st x) e ∙ ap (then x) r

visit-rest :
    (st : Store) (h x : ℕ) (xs : List ℕ) (n : ℕ)
    → st.length h ≡ pos (suc n)
    → Chain st.next st.prev x xs h
    → is_distinct (x ∷ xs) ≡ true
    → visit (length (x ∷ xs)) h st (some x) ≡ some (x ∷ xs)
unfolding iterator_next get_tail_item
visit-rest st h x [] n some_items (e, f) d =
    visit-step 0 h st x none []
      (rw (iterator_next, get_tail_item, some_items, f, (==_iff x x).1 refl) refl)
      (unfold visit in refl)
visit-rest st h x (y ∷ ys) n some_items (e, f, c) d =
    visit-step (length (y ∷ ys)) h st x (some y) (y ∷ ys)
      (rw
        (
          iterator_next,
          get_tail_item,
          some_items,
          last-prev st.next st.prev y ys h c,
          last-has y ys x (is_distinct-cons x (y ∷ ys) d).0,
          e,
        )
        refl)
      (visit-rest st h y ys n some_items c (is_distinct-cons x (y ∷ ys) d).1)

-- An iterator over a queue that holds the items xs visits exactly xs, in order, and is done after
-- as many steps.
pub visit-all :
    (st : Store) (h : ℕ) (xs : List ℕ)
    → IsQueue st h xs
    → visit (length xs) h st (new_iterator h st) ≡ some xs
unfolding new_iterator get_head_item
visit-all st h [] (c, d, n, m) = rw (new_iterator, get_head_item, n) (unfold visit in refl)
visit-all st h (x ∷ xs) ((e, f, c), d, n, m) =
    rw (new_iterator, get_head_item, n, e)
      (visit-rest st h x xs (length xs) n c (is_distinct-cons h (x ∷ xs) d).1)
