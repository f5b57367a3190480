-- ===== src/Logger.antt =====
-- Logger of sutils/Logger.cpp: levels, Log and SetLogLevel, with the mutex critSec, which is not
-- recursive. What FormatV, Format and the local time give are arguments; Logger prints to the logger
-- thread, as with DEBUG_ENABLE, which src/CMakeLists.txt defines.
pub mod Level
pub mod Writer
pub mod Delivery
use vmodule.Base.{
  ℕ, zero, suc, Bool, true, false, not, ◌&&◌, Option, none, some, List, [], ◌∷◌, ◌++◌, leb,
  if◌then◌else◌, ℤ, pos, negsuc,
}
use vmodule.StringUtils.Text.{Text, is_empty}
use vmodule.StringUtils.Trim.{trim_right}
use vmodule.StringUtils.Search.{replace}

-- n <= level
abbrev pub at_least : ℕ → ℤ → Bool
at_least n (pos m) = leb n m
at_least n (negsuc m) = false

abbrev pub log_unknown : ℕ
log_unknown = 0

abbrev pub log_verbose : ℕ
log_verbose = 2

abbrev pub log_debug : ℕ
log_debug = 3

abbrev pub log_error : ℕ
log_error = 6

abbrev pub log_silent : ℕ
log_silent = 8

-- IsLogLevelLogged, where m_logLevel is `current`; `debug` tells whether _DEBUG or PROFILE is
-- defined, as src/CMakeLists.txt does.
unfoldable pub is_log_level_logged : (debug : Bool) → (current level : ℤ) → Bool
is_log_level_logged debug current level =
    if debug
    then true
    else if at_least log_debug current
    then true
    else if not (at_least (suc log_unknown) current)
    then false
    else at_least log_verbose level

-- m_logLevel, whether the calling thread holds critSec, and the lines given to the logger thread.
pub record Logger : Type 0 where
  pub log_level : ℤ
  pub locked : Bool
  pub lines : List Text

-- How a call ends: it waits for a mutex that its own thread holds; it reads past the end of an array;
-- it runs out of fuel, which StringUtils shows not to happen; or it returns.
pub data Outcome : Type 0 where
  deadlock : Outcome
  out_of_bounds : Outcome
  endless : Outcome
  ended : Logger → Outcome

-- The spaces that FormatLogString puts after a line break.
abbrev pub margin : ℕ → Text
margin zero = []
margin (suc n) = 32 ∷ margin n

-- levelNames has names for the levels from 0 to 8 only.
abbrev pub has_level_name : ℤ → Bool
has_level_name (pos n) = leb n log_silent
has_level_name (negsuc n) = false

-- tag ": " or "Logger:"
abbrev pub tag_info : Text → Text
tag_info [] = 76 ∷ 111 ∷ 103 ∷ 103 ∷ 101 ∷ 114 ∷ 58 ∷ []
tag_info (c ∷ tag) = (c ∷ tag) ++ 58 ∷ 32 ∷ []

abbrev pub unlock : Outcome → Outcome
unlock deadlock = deadlock
unlock out_of_bounds = out_of_bounds
unlock endless = endless
unlock (ended lg) = ended (record lg { locked = false })

module _ (debug : Bool) (isspace : ℕ → Bool) (prefix : ℤ → Text) where
  abbrev pub send_line : ℤ → Logger → Option (Text × ℕ) → Outcome
  send_line level lg none = endless
  send_line level lg (some (text, n)) =
      if has_level_name level
      then ended (record lg { lines = lg.lines ++ (prefix level ++ text) ∷ [] })
      else out_of_bounds

  unfoldable pub format_log_string : ℤ → Text → Logger → Outcome
  format_log_string level text lg = send_line level lg (replace text (10 ∷ []) (10 ∷ margin 44))

  unfoldable pub log_string : ℤ → Text → Logger → Outcome
  unfolding format_log_string
  log_string level text lg =
      let trimmed = trim_right isspace text in
      let sent = format_log_string level trimmed lg in
      if lg.locked then deadlock else if is_empty trimmed then ended lg else sent

  -- Log, where FormatV gives `message`.
  unfoldable pub log : ℤ → (tag message : Text) → Logger → Outcome
  unfolding log_string is_log_level_logged
  log level tag message lg =
      if is_log_level_logged debug lg.log_level level
      then log_string level (tag_info tag ++ message) lg
      else ended lg

  -- The call of Log inside SetLogLevel for a valid level. `logLevelNames[m_logLevel + 1]` has names
  -- up to the index 8.
  abbrev pub announce : ℤ → (tag : Text) → (name : ℤ → Text) → Logger → Outcome
  announce level tag name lg =
      let said = log (pos log_verbose) tag (name level) (record lg { log_level = level }) in
      if at_least log_silent level then out_of_bounds else said

  -- SetLogLevel; `names` are logLevelNames one place further on, and the two other texts those of its
  -- calls of Log.
  unfoldable pub set_log_level : (changed invalid : Text) (name : ℤ → Text) → ℤ → Logger → Outcome
  unfolding log
  set_log_level changed invalid name level lg =
      let held : Logger = record lg { locked = true } in
      let told = unlock (announce level changed name held) in
      let complains = unlock (log (pos log_error) invalid (name level) held) in
      if lg.locked
      then deadlock
      else if at_least log_unknown level && not (at_least (suc log_silent) level)
      then told
      else complains
