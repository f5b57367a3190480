-- ===== src/BlockingQueue/Filled.antt =====
-- CBlockingQueue of include/sutils/Queue.hpp on CQueue.
use vmodule.Base.{
  ℕ, zero, suc, ◌≡◌, refl, sym, ap, ◌∙◌, has, ◌++◌, Bool, true, false, not, Option, none, some,
  List, [], ◌∷◌, ◌==◌, ℤ, pos, negsuc, All, if◌then◌else◌,
}
use vmodule.Queue.{Store, is_member, is_member_of_any_queue, en_queue, de_queue}
use vmodule.Queue.Fifo.{IsQueue}
use vmodule.Queue.Fifo.{en_queue-IsQueue, de_queue-Taken}
use vmodule.BlockingQueue.{Buffer, Blocking, Move, run_moves, all_enqueued}
use vmodule.BlockingQueue.Order.{BufferView, IsBuffer, PopLaw, ProperMove, run_moves-InOrder}

-- GetLength() == 0
abbrev pub is_zero : ℤ → Bool
is_zero (pos zero) = true
is_zero (pos (suc n)) = false
is_zero (negsuc n) = false

-- The queue whose fHead is at `h`.
abbrev pub queue_at : ℕ → Buffer Store
queue_at h = record {
  push = en_queue h;
  pop = de_queue h;
  is_empty = λ st. is_zero (st.length h);
  accepts = λ item st. not (is_member_of_any_queue item st);
}

abbrev pub queue_view : ℕ → BufferView Store
queue_view h = record { Holds = λ st xs. IsQueue st h xs; Proper = λ item. (item == h) ≡ false }

free : (item : ℕ) (st : Store) → not (is_member_of_any_queue item st) ≡ true → st.queue item ≡ none
unfolding is_member_of_any_queue
free item st e = go (st.queue item) e
  where
    go : (o : Option ℕ) → not (elim o [ none ↦ false | some q ↦ true ]) ≡ true → o ≡ none
    go none e = refl
    go (some q) e = absurd (cc)

refused :
    (h item : ℕ) (st : Store)
    → not (is_member_of_any_queue item st) ≡ false
    → en_queue h item st ≡ st
unfolding en_queue
refused h item st e = go (is_member_of_any_queue item st) _ e
  where
    go : (b : Bool) (other : Store) → not b ≡ false → (if b then st else other) ≡ st
    go true other e = refl
    go false other e = absurd (cc)

pub queue_at-IsBuffer : (h : ℕ) → IsBuffer (queue_at h) (queue_view h)
queue_at-IsBuffer h = record {
  pushes = λ item st xs q proper e. en_queue-IsQueue st h item xs q (free item st e) proper;
  refuses = λ item st e. refused h item st e;
  pops = pops;
}
  where
    pops :
        (st : Store) (xs : List ℕ)
        → IsQueue st h xs
        → PopLaw (queue_at h) (queue_view h) xs st (de_queue h st)
    pops st [] q = de_queue-Taken st h [] q
    pops st (x ∷ xs) q = de_queue-Taken st h (x ∷ xs) q

-- EnQueue takes no item that the queue holds already.
pub accepts-has :
    (h item : ℕ) (st : Store) (xs : List ℕ)
    → IsQueue st h xs
    → not (is_member_of_any_queue item st) ≡ true
    → has item xs ≡ false
accepts-has h item st xs (chain, distinct, size, members) e =
    sym (members item) ∙ ap (is_member h) (free item st e)

-- On a new CBlockingQueue on a CQueue, whatever calls of EnQueue (of items other than fHead) and
-- DeQueue come in any order, and whenever and for whatever reason their waits end, the items that
-- DeQueue has returned and then those that the queue holds are the items that EnQueue took, in
-- order.
pub all_enqueued-InOrder :
    (h : ℕ) (ms : List Move) (b : Blocking Store)
    → All (ProperMove (queue_view h)) ms
    → IsQueue b.held h []
    → b.taken ≡ []
    → (xs : List ℕ) × IsQueue ((run_moves (queue_at h) ms b).held) h xs
      × ((run_moves (queue_at h) ms b).taken ++ xs ≡ all_enqueued (queue_at h) ms b)
all_enqueued-InOrder h ms b proper empty none_taken =
    run_moves-InOrder (queue_at-IsBuffer h) ms [] b proper ([], empty, rw none_taken refl)
