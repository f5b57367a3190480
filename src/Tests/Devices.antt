-- ===== src/Tests/Devices.antt =====
-- A serial port, a blocking queue and a logger.
use vmodule.Base.{
  ℤ, map, ℕ, suc, ◌≡◌, ◌↔◌, ◌⊎◌, refl, Bool, true, false, none, some, List, [], ◌∷◌, ◌++◌, ◌==◌,
  length, pos, negsuc, arith,
}
use vmodule.Queue.{Store, new_queue}
use vmodule.Queue.Fifo.{IsQueue, new_queue-IsQueue}
use vmodule.SerialPort.{Termios, no_settings, configure, received, read_all}
use vmodule.SerialPort.Settings.{IsSetUp, odd_parity, configure-Configured}
use vmodule.SerialPort.Reader.{read_all-fits}
use vmodule.BlockingQueue.{Blocking, Move, enqueues, dequeues, wakes, run_moves, all_enqueued}
use vmodule.Logger.Delivery.{
  Turn, sends, receives, Delivery, take_turns, all_sent, written, all_sent-Delivers,
}
use vmodule.BlockingQueue.Filled.{queue_at-IsBuffer, accepts-has, queue_at, all_enqueued-InOrder}
use vmodule.Logger.{Outcome, deadlock, ended, Logger, set_log_level, at_least}
use vmodule.Logger.Level.{Returns, is_level, set_log_level-Returns_iff}
use vmodule.Logger.Writer.{Stdio}
use vmodule.Logger.Writer.Lines.{Writes}
use vmodule.Tests.Machines.{Wire, wire, wire-IsStream}

-- 'O', eight bits, two stop bits.
configure-Configured_example :
    (tio : Termios) × (configure 79 8 2 no_settings ≡ some tio) × IsSetUp 8 odd_parity true tio
configure-Configured_example = configure-Configured 79 8 2 no_settings (omega arith) (omega arith)

abbrev coming : Wire
coming = (5 ∷ 6 ∷ [], [], 0)

read_all-fits_example :
    (buffer : List ℕ) × (k' : Wire) × (read_all wire 9
        (record { m_file = some 3; read_task = true })
        []
        coming
      ≡ some (received buffer (suc (length buffer)) k'))
    × (5 ∷ 6 ∷ [] ≡ buffer ++ k'.0)
read_all-fits_example = read_all-fits wire-IsStream 3 true 9 coming (omega arith) (omega arith)

abbrev nowhere : Store
nowhere = record { next = λ a. 0; prev = λ a. 0; queue = λ a. none; length = λ a. negsuc 4 }

abbrev idle : Blocking Store
idle = record { held = new_queue 0 nowhere; waiting = []; taken = []; nulls = 0 }

-- A thread waits, two items come, it wakes and another call follows.
abbrev busy : List Move
busy = dequeues false ∷ enqueues 4 ∷ enqueues 5 ∷ wakes 0 false ∷ dequeues true ∷ []

all_enqueued-InOrder_example :
    (xs : List ℕ) × IsQueue ((run_moves (queue_at 0) busy idle).held) 0 xs
    × ((run_moves (queue_at 0) busy idle).taken ++ xs ≡ all_enqueued (queue_at 0) busy idle)
all_enqueued-InOrder_example =
    all_enqueued-InOrder 0 busy idle (tt, (refl, (refl, (tt, (tt, tt)))))
      (new_queue-IsQueue nowhere 0 (λ a. refl)) refl

abbrev quiet : Logger
quiet = record { log_level = pos 3; locked = false; lines = [] }

-- In a build with _DEBUG the level 0 is not set either.
set_log_level-Returns_iff_example :
    Returns (
      set_log_level true
        (λ c. c == 32)
        (λ level. [])
        (67 ∷ [])
        (37 ∷ [])
        (λ level. [])
        (pos 0)
        quiet)
    ↔ ((true ≡ false)
        × ((pos 0 ≡ pos 0) ⊎ ((is_level (pos 0) ≡ false) × (at_least 1 (pos 3) ≡ false))))
set_log_level-Returns_iff_example =
    set_log_level-Returns_iff true (λ c. c == 32) (λ level. []) (67 ∷ []) (37 ∷ []) (λ level. [])
      quiet refl (pos 0)

-- Without it the level 0 is set, and a level of 9 is not while the level is 3.
abbrev outcome : ℤ → Outcome
outcome level =
    set_log_level false (λ c. c == 32) (λ level. []) (67 ∷ []) (37 ∷ []) (λ level. []) level quiet

set_log_level_runs :
    (outcome (pos 0) ≡ ended (record quiet { log_level = pos 0 })) × (outcome (pos 9) ≡ deadlock)
unfolding set_log_level
set_log_level_runs = (refl, refl)

abbrev write_block : List ℕ → List ℕ → Bool × List ℕ
write_block [] k = (false, k)
write_block (c ∷ text) k = (true, k ++ c ∷ text)

abbrev paper : Stdio (List ℕ)
paper = record {
  remove_path = λ path k. k;
  rename_path = λ from to k. k;
  fopen = λ path k. (true, []);
  fwrite = write_block;
  fflush = λ k. k;
  fclose = λ k. k;
  print = λ text k. k;
}

paper-Writes : Writes paper (λ k. k)
paper-Writes = record {
  blocks = λ c text k. (refl, refl);
  nothing = λ k. (refl, refl);
  flushes = λ k. refl;
  prints = λ text k. refl;
}

-- Two messages; the second has a zero byte. The logger thread has taken one so far.
abbrev talk : List Turn
talk = receives ∷ sends 4 (65 ∷ []) ∷ sends 5 (66 ∷ 0 ∷ 67 ∷ []) ∷ receives ∷ []

abbrev silence : Delivery Store (List ℕ)
silence = record { held = new_queue 0 nowhere; objects = λ item. []; disk = 35 ∷ [] }

abbrev after_talk : Delivery Store (List ℕ)
after_talk =
    take_turns (queue_at 0) paper (record { thread_running = true; has_file = true }) talk silence

all_sent-Delivers_example :
    (xs : List ℕ) × IsQueue after_talk.held 0 xs
    × (after_talk.disk ++ written (map after_talk.objects xs)
        ≡ 35 ∷ []
          ++ written (
              all_sent
                (queue_at 0)
                paper
                (record { thread_running = true; has_file = true })
                talk
                silence))
all_sent-Delivers_example =
    all_sent-Delivers (queue_at-IsBuffer 0) (λ item s xs q e. accepts-has 0 item s xs q e)
      paper-Writes (record { thread_running = true; has_file = true }) refl talk silence
      (tt, (refl, (refl, (tt, tt)))) (new_queue-IsQueue nowhere 0 (λ a. refl))
