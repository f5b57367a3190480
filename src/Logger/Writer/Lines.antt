-- ===== src/Logger/Writer/Lines.antt =====
-- What the logger thread of sutils/LoggerThread.cpp writes to its file.
use vmodule.Base.{
  ℕ, ◌≡◌, sym, ap, ◌∙◌, Bool, true, false, Option, none, some, List, [], ◌∷◌, ◌++◌, append-nil,
  append_assoc,
}
use vmodule.StringUtils.Text.{Text}
use vmodule.Logger.Writer.{
  Stdio, LoggerThread, new_line, end_line, write_string_to_log, handle_item, log_loop,
}

-- A line in the file; an empty message has none.
abbrev pub line : Option Text → Text
line none = []
line (some []) = []
line (some (c ∷ text)) = (c ∷ text) ++ new_line

-- The lines of the rounds up to the stop.
abbrev pub lines : List (Bool × Option Text) → Text
lines [] = []
lines ((false, item) ∷ rounds) = []
lines ((true, item) ∷ rounds) = line item ++ lines rounds

module _ {K : Type 0} (io : Stdio K) (file : K → Text) where
  -- fwrite writes its block, and one without bytes not at all; the others leave the file alone.
  pub record Writes : Type 0 where
    pub blocks :
        (c : ℕ) (text : Text) (k : K)
        → ((io.fwrite (c ∷ text) k).0 ≡ true)
          × (file ((io.fwrite (c ∷ text) k).1) ≡ file k ++ c ∷ text)
    pub nothing : (k : K) → ((io.fwrite [] k).0 ≡ false) × (file ((io.fwrite [] k).1) ≡ file k)
    pub flushes : (k : K) → file (io.fflush k) ≡ file k
    pub prints : (text : Text) (k : K) → file (io.print text k) ≡ file k

module _ {K : Type 0} {io : Stdio K} {file : K → Text} (law : Writes io file) where
  end_line-written :
      (got : Bool × K) → got.0 ≡ true → file ((end_line io got).1) ≡ file (got.1) ++ new_line
  end_line-written (false, k) e = absurd (cc)
  end_line-written (true, k) e = law.flushes _ ∙ (law.blocks 10 [] k).1

  end_line-nothing : (got : Bool × K) → got.0 ≡ false → file ((end_line io got).1) ≡ file (got.1)
  end_line-nothing (false, k) e = law.flushes k
  end_line-nothing (true, k) e = absurd (cc)

  pub handle-line :
      (t : LoggerThread) (item : Option Text) (k : K)
      → t.has_file ≡ true
      → file (handle_item io t item k) ≡ file k ++ line item
  unfolding write_string_to_log
  handle-line t none k h = sym (append-nil (file k))
  handle-line t (some []) k h =
      let printed = io.print [] k in
      rw h (
        end_line-nothing (io.fwrite [] printed) ((law.nothing printed).0)
        ∙ (law.nothing printed).1
        ∙ law.prints [] k
        ∙ sym (append-nil (file k)))
  handle-line t (some (c ∷ text)) k h =
      let printed = io.print (c ∷ text) k in
      rw h (
        end_line-written (io.fwrite (c ∷ text) printed) ((law.blocks c text printed).0)
        ∙ ap (λ f. f ++ new_line)
            ((law.blocks c text printed).1 ∙ ap (λ f. f ++ c ∷ text) (law.prints (c ∷ text) k))
        ∙ append_assoc (file k) (c ∷ text) new_line)

  -- With a log file that is open and on which no fwrite fails, the loop of the logger thread writes
  -- each message that DeQueue gives it, and a line break, in order, up to the stop, and nothing for
  -- an empty one.
  pub log_loop-lines :
      (t : LoggerThread) (rounds : List (Bool × Option Text)) (k : K)
      → t.has_file ≡ true
      → file (log_loop io t rounds k) ≡ file k ++ lines rounds
  unfolding log_loop
  log_loop-lines t [] k h = sym (append-nil (file k))
  log_loop-lines t ((false, item) ∷ rounds) k h = sym (append-nil (file k))
  log_loop-lines t ((true, item) ∷ rounds) k h =
      log_loop-lines t rounds (handle_item io t item k) h
      ∙ ap (λ f. f ++ lines rounds) (handle-line t item k h)
      ∙ append_assoc (file k) (line item) (lines rounds)
