-- ===== src/VmQueue.antt =====
-- sutils/VmQueue.cpp: the queue of items in C, over the store of Queue. A mqueue is known by an
-- address `mq`, and has its head, which may be null, apart. `none` is a failed assert or an access
-- through a null pointer.
use vmodule.Base.{
  ℕ, zero, suc, ◌≡◌, refl, Bool, true, false, Option, none, some, if◌then◌else◌, ◌==◌, ℤ, pos,
  negsuc, inc, dec,
}
use vmodule.Queue.{Store, write, is_member, is_member_of_any_queue, en_queue, de_queue}

abbrev is_zero : ℤ → Bool
is_zero (pos zero) = true
is_zero (pos (suc n)) = false
is_zero (negsuc n) = false

abbrev is_one : ℤ → Bool
is_one (pos n) = n == 1
is_one (negsuc n) = false

-- The links of an empty ring, and a length of 0.
unfoldable emptied : ℕ → ℕ → Store → Store
unfolding write
emptied mq h st = record {
  next = write st.next h h;
  prev = write st.prev h h;
  queue = st.queue;
  length = write st.length mq (pos 0);
}

-- `h` is the address that malloc gave.
unfoldable mqueue_init : ℕ → ℕ → Store → Store
unfolding emptied
mqueue_init mq h st = emptied mq h st

unfoldable mqueue_clear : ℕ → Option ℕ → Store → Store
unfolding emptied
mqueue_clear mq none st = st
mqueue_clear mq (some h) st = emptied mq h st

unfoldable pub mqueue_push : ℕ → Option ℕ → ℕ → Store → Option Store
unfolding write is_member_of_any_queue
mqueue_push mq none item st = none
mqueue_push mq (some h) item st =
    if is_member_of_any_queue item st
    then none
    else (let next' = write st.next (st.prev h) item in
        let prev' = write st.prev item (st.prev h) in
        some (record {
          next = write next' item h;
          prev = write prev' h item;
          queue = write st.queue item (some mq);
          length = write st.length mq (inc (st.length mq));
        }))

-- The end of mqueue_pop, for a queue that is not empty.
unfoldable popped : ℕ → Option ℕ → Store → Option (Option ℕ × Store)
unfolding write
popped mq none st = none
popped mq (some h) st =
    let item = st.next h in
    let next' = write st.next h (st.next item) in
    some (
      some item,
      record {
        next = next';
        prev = write st.prev (next' item) h;
        queue = write st.queue item none;
        length = write st.length mq (dec (st.length mq));
      },
    )

unfoldable pub mqueue_pop : ℕ → Option ℕ → Store → Option (Option ℕ × Store)
unfolding popped
mqueue_pop mq head st = if is_zero (st.length mq) then some (none, st) else popped mq head st

-- The end of mqueue_remove, after the pop.
unfoldable after_pop : ℕ → ℕ → Option (Option ℕ × Store) → Option Store
unfolding write
after_pop mq elem none = none
after_pop mq elem (some (item, st)) = some (record st {
  queue = write st.queue elem none;
  length = write st.length mq (dec (st.length mq));
})

unfoldable mqueue_remove : ℕ → Option ℕ → ℕ → Store → Option Store
unfolding mqueue_pop after_pop
mqueue_remove mq head elem st =
    if is_member elem head
    then none
    else if is_member mq (st.queue elem)
    then (if is_one (st.length mq) then after_pop mq elem (mqueue_pop mq head st) else some st)
    else none

unfoldable mqueue_getlength : ℕ → Store → ℤ
mqueue_getlength mq st = st.length mq

-- Where the item is in no queue and the length is not negative, mqueue_push and mqueue_pop on a
-- mqueue that shares its address with its head do what EnQueue and DeQueue of CQueue do, and fail
-- no assert.
pub mqueue-CQueue :
    (st : Store) (h item n : ℕ)
    → st.queue item ≡ none
    → st.length h ≡ pos n
    → (mqueue_push h (some h) item st ≡ some (en_queue h item st))
      × (mqueue_pop h (some h) st ≡ some (de_queue h st))
unfolding mqueue_push mqueue_pop popped en_queue de_queue is_member_of_any_queue
mqueue-CQueue st h item n free size =
    (rw (mqueue_push, en_queue, is_member_of_any_queue, free) refl, pops n size)
  where
    pops : (n : ℕ) → st.length h ≡ pos n → mqueue_pop h (some h) st ≡ some (de_queue h st)
    pops zero e = rw (mqueue_pop, de_queue, e) refl
    pops (suc n) e = rw (mqueue_pop, popped, de_queue, e) refl
