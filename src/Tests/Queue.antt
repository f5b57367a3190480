-- ===== src/Tests/Queue.antt =====
-- The queue at address 0, with the items 1, 2 and 3.
use vmodule.Base.{◌≡◌, refl, none, some, List, [], ◌∷◌, pos, false}
use vmodule.Queue.{Store, new_queue, en_queue, de_queue, remove}
use vmodule.Queue.History.{
  Call, enqueues, dequeues, removes, run_calls, run_list, Holds, run_calls-run_list,
}
use vmodule.Queue.Fifo.{
  IsQueue, Taken, new_queue-IsQueue, en_queue-IsQueue, de_queue-Taken, remove-IsQueue,
}

abbrev blank : Store
blank = record { next = λ a. 9; prev = λ a. 9; queue = λ a. none; length = λ a. pos 4 }

abbrev none_yet : Store
none_yet = new_queue 0 blank

abbrev one : Store
one = en_queue 0 1 none_yet

abbrev two : Store
two = en_queue 0 2 one

one-IsQueue : IsQueue one 0 (1 ∷ [])
unfolding new_queue
one-IsQueue = en_queue-IsQueue none_yet 0 1 [] (new_queue-IsQueue blank 0 (λ i. refl)) refl refl

two_free : (one.queue 2) ≡ none
unfolding en_queue new_queue
two_free = refl

en_queue-IsQueue_example : IsQueue two 0 (1 ∷ 2 ∷ [])
en_queue-IsQueue_example = en_queue-IsQueue one 0 2 (1 ∷ []) one-IsQueue two_free refl

two-IsQueue : IsQueue two 0 (1 ∷ 2 ∷ [])
two-IsQueue = en_queue-IsQueue one 0 2 (1 ∷ []) one-IsQueue two_free refl

de_queue-Taken_example : Taken two 0 (1 ∷ 2 ∷ []) (de_queue 0 two)
de_queue-Taken_example = de_queue-Taken two 0 (1 ∷ 2 ∷ []) two-IsQueue

remove-IsQueue_example : IsQueue (remove 0 (some 2) two) 0 (1 ∷ [])
remove-IsQueue_example = remove-IsQueue two 0 (1 ∷ []) 2 [] two-IsQueue

one_size : one.length 0 ≡ pos 1
unfolding en_queue new_queue
one_size = refl

-- Both items come, the first one a second time to no effect, the first one goes by Remove.
abbrev calls : List Call
calls = enqueues 1 ∷ enqueues 2 ∷ enqueues 1 ∷ removes 1 ∷ dequeues ∷ dequeues ∷ enqueues 1 ∷ []

none_yet-Holds : Holds (λ i. false) 0 none_yet []
unfolding new_queue
none_yet-Holds = (new_queue-IsQueue blank 0 (λ i. refl), λ i. refl)

run_calls-run_list_example :
    ((run_calls 0 calls none_yet).0 ≡ (run_list (λ i. false) calls []).0)
    × Holds (λ i. false) 0 ((run_calls 0 calls none_yet).1) ((run_list (λ i. false) calls []).1)
run_calls-run_list_example =
    run_calls-run_list (λ i. false) 0 calls none_yet [] none_yet-Holds
      (refl, (refl, (refl, (refl, (tt, (tt, (refl, tt)))))))

calls_run : (run_calls 0 calls none_yet).0 ≡ some 2 ∷ none ∷ []
unfolding run_calls new_queue
calls_run = refl
