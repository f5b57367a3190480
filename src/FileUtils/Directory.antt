-- ===== src/FileUtils/Directory.antt =====
-- DoMakeDir, MakeDir and DeleteDir of sutils/FileUtils.cpp. The characters are codes; a text is not
-- longer than memory.
pub mod Making
use Prim.Native.Nat.{bit_and}
use vmodule.Base.{
  ℕ, zero, suc, Bool, true, false, not, ◌&&◌, ◌||◌, Option, none, some, List, [], ◌∷◌, ◌++◌, ◌==◌,
  if◌then◌else◌, take, ℤ, pos, negsuc,
}
use vmodule.System.{eexist, no_error, bad_value, unknown_error}
use vmodule.System.Files.{Text, Files}
use vmodule.FileUtils.{is_dir}

abbrev pub slash : ℕ
slash = 47

-- strcmp(name, ".") == 0 || strcmp(name, "..") == 0
abbrev pub is_dots : Text → Bool
is_dots [] = false
is_dots (a ∷ []) = a == 46
is_dots (a ∷ b ∷ []) = (a == 46) && (b == 46)
is_dots (a ∷ b ∷ c ∷ rest) = false

-- What a status is as a bool: whether it is not 0.
abbrev pub as_bool : ℤ → Bool
as_bool (pos zero) = false
as_bool (pos (suc n)) = true
as_bool (negsuc n) = true

module _ {K : Type 0} (f : Files K) where
  abbrev pub if_made : Bool × K → ℤ × K
  if_made (true, k) = (no_error, k)
  if_made (false, k) = if f.errno k == eexist then (no_error, k) else (bad_value, k)

  -- S_ISDIR
  abbrev pub if_exists : Option (ℕ × ℕ) → ℤ × K → K → ℤ × K
  if_exists none made k = made
  if_exists (some (mode, size)) made k =
      if bit_and mode 61440 == 16384 then (no_error, k) else (bad_value, k)

  unfoldable pub do_make_dir : Text → (mode : ℕ) → K → ℤ × K
  do_make_dir path mode k = if_exists (f.stat path k) (if_made (f.mkdir path mode k)) k

  -- `ret = DoMakeDir(...)`, and what follows while ret is true.
  abbrev pub while_ret : (K → Bool × K) → ℤ × K → Bool × K
  while_ret next (status, k) = if as_bool status then next k else (false, k)

  -- The loop of MakeDir, a character at a time: `before` stands before it, and `at_start` tells
  -- whether pp does.
  unfoldable pub make_parents : (mode : ℕ) (before : Text) (at_start : Bool) → Text → K → Bool × K
  unfolding do_make_dir
  make_parents mode before at_start [] k = (true, k)
  make_parents mode before at_start (x ∷ rest) k =
      let skip = make_parents mode (before ++ x ∷ []) true rest k in
      let next = make_parents mode (before ++ x ∷ []) true rest in
      let stay = make_parents mode (before ++ x ∷ []) false rest k in
      if x == slash
      then if at_start then skip else while_ret next (do_make_dir before mode k)
      else stay

  abbrev pub and_the_last : Text → (mode : ℕ) → Bool × K → ℤ × K
  and_the_last path mode (false, k) = (pos 0, k)
  and_the_last path mode (true, k) =
      let made = do_make_dir path mode k in (if as_bool (made.0) then pos 1 else pos 0, made.1)

  unfoldable pub make_dir : Text → (mode : ℕ) → K → ℤ × K
  unfolding make_parents
  make_dir path mode k = and_the_last path mode (make_parents mode [] true path k)

  abbrev pub status_of_remove : Bool × K → ℤ × K
  status_of_remove (true, k) = (no_error, k)
  status_of_remove (false, k) = (unknown_error, k)

  -- snprintf(chBuf, 256, "%s/%s", dirname, d_name)
  abbrev pub entry_path : Text → Text → Text
  entry_path dirname name = take 255 (dirname ++ slash ∷ name)

  abbrev pub while_no_error : (K → Option (ℤ × K)) → Option (ℤ × K) → Option (ℤ × K)
  while_no_error next none = none
  while_no_error next (some (status, k)) =
      if as_bool status then some (unknown_error, k) else next k

  abbrev pub delete_entry : (Text → K → Option (ℤ × K)) → Text → K → Option (ℤ × K)
  delete_entry deeper path k =
      if is_dir f path k then deeper path k else some (status_of_remove (f.remove_file path k))

  abbrev pub next_entry :
      (dir : ℕ)
      → Text
      → (deeper : Text → K → Option (ℤ × K)) → (again : K → Option (ℤ × K)) → Option Text × K
      → Option (ℤ × K)
  next_entry dir dirname deeper again (none, k) =
      some (status_of_remove (f.remove_file dirname (f.closedir dir k)))
  next_entry dir dirname deeper again (some name, k) =
      if is_dots name
      then again k
      else while_no_error again (delete_entry deeper (entry_path dirname name) k)

  -- The loop of DeleteDir over the entries of an open directory.
  unfoldable pub delete_entries :
      ℕ → (deeper : Text → K → Option (ℤ × K)) → (dir : ℕ) → Text → K → Option (ℤ × K)
  delete_entries zero deeper dir dirname k = none
  delete_entries (suc fuel) deeper dir dirname k =
      next_entry dir dirname deeper (delete_entries fuel deeper dir dirname) (f.readdir dir k)

  abbrev pub if_open_dir : (ℕ → K → Option (ℤ × K)) → Option ℕ × K → Option (ℤ × K)
  if_open_dir entries (none, k) = some (negsuc 0, k)
  if_open_dir entries (some dir, k) = entries dir k

  -- DeleteDir, to `depth` levels and `fuel` entries of each.
  unfoldable pub delete_dir : (depth fuel : ℕ) → Text → K → Option (ℤ × K)
  unfolding delete_entries
  delete_dir zero fuel dirname k = none
  delete_dir (suc depth) fuel dirname k =
      if_open_dir (λ dir k'. delete_entries fuel (delete_dir depth fuel) dir dirname k')
        (f.opendir dirname k)
