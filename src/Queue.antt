-- ===== src/Queue.antt =====
-- include/sutils/Queue.hpp: CQueue, CQueueItem and CQueueIterator. The items live in a store of
-- addresses; a queue is known by the address of its fHead, which also stands for the queue in an
-- item's mQueue. A null pointer is `none`; the links of items that were never linked are not read.
pub mod Chain
pub mod Fifo
pub mod Iterate
pub mod History
use vmodule.Base.{
  ℕ, zero, suc, Bool, true, false, Option, none, some, ◌==◌, if◌then◌else◌, not, ℤ, pos, negsuc,
  inc, dec, List, [], ◌∷◌,
}

-- next, prev and mQueue of every item, fHead included, and the fLength of every queue, an int, of
-- which the model leaves out the overflow at 2 ^ 31 items.
pub record Store : Type 0 where
  pub next : ℕ → ℕ
  pub prev : ℕ → ℕ
  pub queue : ℕ → Option ℕ
  pub length : ℕ → ℤ

unfoldable pub write {ℓ} : {A : Type ℓ} → (ℕ → A) → ℕ → A → ℕ → A
write f a v x = if a == x then v else f x

abbrev pub is_member : ℕ → Option ℕ → Bool
is_member h none = false
is_member h (some q) = q == h

-- fLength > 0
abbrev pub is_positive : ℤ → Bool
is_positive (pos zero) = false
is_positive (pos (suc n)) = true
is_positive (negsuc n) = false

-- The constructors.
unfoldable pub new_queue : ℕ → Store → Store
unfolding write
new_queue h st = record {
  next = write st.next h h;
  prev = write st.prev h h;
  queue = st.queue;
  length = write st.length h (pos 0);
}

unfoldable pub new_item : ℕ → Store → Store
unfolding write
new_item item st = record {
  next = st.next;
  prev = st.prev;
  queue = write st.queue item none;
  length = st.length;
}

unfoldable pub is_member_of_any_queue : ℕ → Store → Bool
is_member_of_any_queue item st = elim (st.queue item) [ none ↦ false | some q ↦ true ]

unfoldable pub en_queue : ℕ → ℕ → Store → Store
unfolding write is_member_of_any_queue
en_queue h item st =
    if is_member_of_any_queue item st
    then st
    else (let next' = write st.next (st.prev h) item in
        let prev' = write st.prev item (st.prev h) in
        record {
          next = write next' item h;
          prev = write prev' h item;
          queue = write st.queue item (some h);
          length = write st.length h (inc (st.length h));
        })

unfoldable pub de_queue : ℕ → Store → Option ℕ × Store
unfolding write
de_queue h st =
    if is_positive (st.length h)
    then (let item = st.next h in
        let next' = write st.next h (st.next item) in
        (
          some item,
          record {
            next = next';
            prev = write st.prev (next' item) h;
            queue = write st.queue item none;
            length = write st.length h (dec (st.length h));
          },
        ))
    else (none, st)

unfoldable pub get_head_item : ℕ → Store → Option ℕ
get_head_item h st = if is_positive (st.length h) then some (st.next h) else none

unfoldable pub get_tail_item : ℕ → Store → Option ℕ
get_tail_item h st = if is_positive (st.length h) then some (st.prev h) else none

-- The end of Remove, past the guards.
unfoldable pub unlink : ℕ → ℕ → Store → Store
unfolding write
unlink h item st =
    let next' = write st.next (st.prev item) (st.next item) in
    record {
      next = next';
      prev = write st.prev (next' item) (st.prev item);
      queue = write st.queue item none;
      length = write st.length h (dec (st.length h));
    }

unfoldable pub remove : ℕ → Option ℕ → Store → Store
unfolding unlink
remove h none st = st
remove h (some item) st =
    if item == h then st else if is_member h (st.queue item) then unlink h item st else st

-- CQueueItem::Remove
unfoldable pub remove_item : ℕ → Store → Store
unfolding remove
remove_item item st = elim (st.queue item) [ none ↦ st | some h ↦ remove h (some item) st ]

-- CQueueIterator: fCurrentItem. The second constructor leaves it unset, `none` here, for an item
-- that is not in the queue.
unfoldable pub new_iterator : ℕ → Store → Option ℕ
unfolding get_head_item
new_iterator h st = get_head_item h st

unfoldable pub new_iterator_at : ℕ → Option ℕ → Store → Option (Option ℕ)
new_iterator_at h none st = some none
new_iterator_at h (some item) st = if is_member h (st.queue item) then some (some item) else none

abbrev same_item : Option ℕ → Option ℕ → Bool
same_item none none = true
same_item (some a) none = false
same_item none (some b) = false
same_item (some a) (some b) = a == b

-- Next; `none` is a read through a null pointer.
unfoldable pub iterator_next : ℕ → Store → Option ℕ → Option (Option ℕ)
unfolding get_tail_item
iterator_next h st current =
    if same_item current (get_tail_item h st)
    then some none
    else elim current [ none ↦ none | some item ↦ some (some (st.next item)) ]

-- for (it.Reset(); !it.IsDone(); it.Next()), on fuel: the items that are visited.
unfoldable pub visit : ℕ → ℕ → Store → Option ℕ → Option (List ℕ)
unfolding iterator_next
visit zero h st current = elim current [ none ↦ some [] | some item ↦ none ]
visit (suc fuel) h st current = elim current [
  | none ↦ some []
  | some item ↦ elim (iterator_next h st (some item)) [
    | none ↦ none
    | some current' ↦ elim (visit fuel h st current') [
      | none ↦ none
      | some rest ↦ some (item ∷ rest)
    ]
  ]
]
