-- ===== src/Logger/Writer.antt =====
-- LoggerThread of sutils/LoggerThread.cpp for POSIX: the log file and the loop of the logger thread,
-- over an interface of the stdio calls. Memory of the items and Android's log are left out.
pub mod Lines
use vmodule.Base.{ℕ, Bool, true, false, ◌&&◌, Option, none, some, List, [], ◌∷◌, if◌then◌else◌, ℤ}
use vmodule.StringUtils.Text.{Text}

-- fopen tells whether it gave a file, and fwrite of one block whether it wrote it.
pub record Stdio (K : Type 0) : Type 0 where
  pub remove_path : Text → K → K
  pub rename_path : (from to : Text) → K → K
  pub fopen : Text → K → Bool × K
  pub fwrite : Text → K → Bool × K
  pub fflush : K → K
  pub fclose : K → K
  pub print : Text → K → K

-- mRunning, and whether there is an m_file.
pub record LoggerThread : Type 0 where
  pub thread_running : Bool
  pub has_file : Bool

abbrev pub new_line : Text
new_line = 10 ∷ []

-- start, where createRawThread gives `created`. The status becomes a bool, true for anything but 0.
unfoldable pub start_logger : (created : Bool) → LoggerThread → Bool × LoggerThread
start_logger created t =
    let made : Bool × LoggerThread =
      if created
      then (false, record t { thread_running = true })
      else (true, record t { thread_running = false }) in
    if t.thread_running then (true, t) else made

unfoldable pub stop_logger : LoggerThread → LoggerThread
stop_logger t = record t { thread_running = false }

module _ {K : Type 0} (io : Stdio K) where
  abbrev pub with_bom : Bool × K → LoggerThread → Bool × LoggerThread × K
  with_bom (false, k) t = (false, t, k)
  with_bom (true, k) t =
      (true, record t { has_file = true }, (io.fwrite (239 ∷ 187 ∷ 191 ∷ []) k).1)

  unfoldable pub open_log_file :
      (log_name backup_name : Text) → LoggerThread → K → Bool × LoggerThread × K
  open_log_file log_name backup_name t k =
      let made =
        with_bom
          (io.fopen log_name (io.rename_path log_name backup_name (io.remove_path backup_name k)))
          t in
      if t.has_file then (false, t, k) else made

  unfoldable pub close_log_file : LoggerThread → K → LoggerThread × K
  close_log_file t k = if t.has_file then (record t { has_file = false }, io.fclose k) else (t, k)

  -- The second fwrite, where the first went well.
  abbrev pub end_line : Bool × K → Bool × K
  end_line (false, k) = (false, io.fflush k)
  end_line (true, k) = let ended = io.fwrite new_line k in (ended.0, io.fflush (ended.1))

  unfoldable pub write_string_to_log : Text → LoggerThread → K → Bool × K
  write_string_to_log text t k =
      let written = end_line (io.fwrite text k) in if t.has_file then written else (false, k)

  abbrev pub handle_item : LoggerThread → Option Text → K → K
  handle_item t none k = k
  handle_item t (some text) k = (write_string_to_log text t (io.print text k)).1

  -- _threadLoop, by its rounds: mRunning at their starts, and what DeQueue gives.
  unfoldable pub log_loop : LoggerThread → List (Bool × Option Text) → K → K
  unfolding write_string_to_log
  log_loop t [] k = k
  log_loop t ((false, item) ∷ rounds) k = k
  log_loop t ((true, item) ∷ rounds) k = log_loop t rounds (handle_item t item k)
