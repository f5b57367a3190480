-- ===== src/BlockingQueue.antt =====
-- CBlockingQueue of include/sutils/Queue.hpp over an interface of the queue under its mutex. Each
-- function is split where it waits on the condition, which gives the mutex back; what wakes a waiter
-- (a signal, ExitQueue, the end of its time, or nothing at all) is left open. VmBlockingQueue of
-- sutils/VmBlockingQueue.cpp is the same code over a mqueue.
pub mod Order
pub mod Filled
use vmodule.Base.{
  ℕ, zero, suc, ◌+◌, Bool, true, false, ◌&&◌, Option, none, some, List, [], ◌∷◌, ◌++◌,
  if◌then◌else◌,
}

-- The queue: EnQueue, DeQueue and GetLength() == 0, and whether EnQueue takes an item.
pub record Buffer (S : Type 0) : Type 0 where
  pub push : ℕ → S → S
  pub pop : S → Option ℕ × S
  pub is_empty : S → Bool
  pub accepts : ℕ → S → Bool

-- The queue; for each thread that waits in DeQueue whether its wait has an end; and what the calls of
-- DeQueue have returned so far: the items in their order, and how many nulls.
pub record Blocking (S : Type 0) : Type 0 where
  pub held : S
  pub waiting : List Bool
  pub taken : List ℕ
  pub nulls : ℕ

module _ {S : Type 0} (buffer : Buffer S) where
  unfoldable pub blocking_en_queue : ℕ → Blocking S → Blocking S
  blocking_en_queue item b = record b { held = buffer.push item b.held }

  abbrev pub returns : Option ℕ × S → Blocking S → Blocking S
  returns (none, s) b = record b { held = s; nulls = b.nulls + 1 }
  returns (some item, s) b = record b { held = s; taken = b.taken ++ item ∷ [] }

  -- DeQueue, up to its wait; `timed` tells whether waitDuration is not -1.
  unfoldable pub blocking_de_queue : (timed : Bool) → Blocking S → Blocking S
  blocking_de_queue timed b =
      let gone = returns (buffer.pop b.held) b in
      if buffer.is_empty b.held then record b { waiting = timed ∷ b.waiting } else gone

  -- The rest of DeQueue, where the wait was `timed` and ended by TIMED_OUT or not.
  abbrev pub after_wait : (timed timed_out : Bool) → Blocking S → Blocking S
  after_wait timed timed_out b =
      let gone = returns (buffer.pop b.held) b in
      if timed && timed_out then record b { nulls = b.nulls + 1 } else gone

  abbrev pub pick : ℕ → List Bool → Option (Bool × List Bool)
  pick i [] = none
  pick zero (timed ∷ rest) = some (timed, rest)
  pick (suc i) (timed ∷ rest) = elim (pick i rest) [
    | none ↦ none
    | some p ↦ some (p.0, timed ∷ p.1)
  ]

  -- The `i`-th waiter wakes.
  unfoldable pub wake : (i : ℕ) (timed_out : Bool) → Blocking S → Blocking S
  wake i timed_out b = elim (pick i b.waiting) [
    | none ↦ b
    | some p ↦ after_wait (p.0) timed_out (record b { waiting = p.1 })
  ]

pub data Move : Type 0 where
  enqueues : (item : ℕ) → Move
  dequeues : (timed : Bool) → Move
  wakes : (i : ℕ) (timed_out : Bool) → Move

module _ {S : Type 0} (buffer : Buffer S) where
  unfoldable pub move : Move → Blocking S → Blocking S
  unfolding blocking_en_queue blocking_de_queue wake
  move (enqueues item) b = blocking_en_queue buffer item b
  move (dequeues timed) b = blocking_de_queue buffer timed b
  move (wakes i timed_out) b = wake buffer i timed_out b

  unfoldable pub run_moves : List Move → Blocking S → Blocking S
  unfolding move
  run_moves [] b = b
  run_moves (m ∷ ms) b = run_moves ms (move m b)

  -- The items that the queue took, in the order of their calls.
  abbrev pub enqueued : Move → Blocking S → List ℕ
  enqueued (enqueues item) b = if buffer.accepts item b.held then item ∷ [] else []
  enqueued (dequeues timed) b = []
  enqueued (wakes i timed_out) b = []

  unfoldable pub all_enqueued : List Move → Blocking S → List ℕ
  unfolding run_moves
  all_enqueued [] b = []
  all_enqueued (m ∷ ms) b = enqueued m b ++ all_enqueued ms (move m b)
