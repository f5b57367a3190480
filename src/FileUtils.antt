-- ===== src/FileUtils.antt =====
-- WriteToFile, ReadToBuffer and the tests of sutils/FileUtils.cpp. Logging is left out; the numbers of
-- bytes are below 2 ^ 31, so that an int holds them.
pub mod Saving
pub mod Loading
pub mod Stuck
pub mod Current
pub mod Directory
use Prim.Native.Nat.{bit_and}
use vmodule.Base.{
  ℕ, zero, suc, ◌+◌, ◌-◌, Bool, true, false, not, Option, none, some, List, [], ◌∷◌, ◌++◌, ◌==◌,
  if◌then◌else◌, ltb, length, drop,
}
use vmodule.System.{Reply, failed, done, Stream}
use vmodule.System.Files.{Text, Files}

module _ {K : Type 0} (f : Files K) where
  -- buf.st_mode & S_IFDIR
  abbrev pub has_dir_bit : Option (ℕ × ℕ) → Bool
  has_dir_bit none = false
  has_dir_bit (some (mode, size)) = not (bit_and mode 16384 == 0)

  unfoldable pub is_dir : Text → K → Bool
  is_dir path k = has_dir_bit (f.stat path k)

  abbrev pub opened : Option ℕ × K → Bool × K
  opened (none, k) = (false, k)
  opened (some dir, k) = (true, k)

  unfoldable pub dir_exist : Option Text → K → Bool × K
  dir_exist none k = (false, k)
  dir_exist (some path) k = opened (f.opendir path k)

  unfoldable pub file_exist : Option Text → K → Bool
  file_exist none k = false
  file_exist (some path) k = f.access path k

  abbrev pub size_of : Option (ℕ × ℕ) → ℕ
  size_of none = 0
  size_of (some (mode, size)) = size

  unfoldable pub file_size : Text → K → ℕ
  file_size path k = size_of (f.stat path k)

-- readCnt, the bytes in the buffer and the system.
abbrev pub Buffered : Type 0 → Type 0
Buffered K = ℕ × List ℕ × K

module _ {K : Type 0} (s : Stream K) (f : Files K) where
  abbrev pub written_some :
      (rest : List ℕ) (written : ℕ)
      → (List ℕ → ℕ → K → Option (ℕ × K))
      → Reply ℕ × K
      → Option (ℕ × K)
  written_some rest written again (failed e, k) = some (written, k)
  written_some rest written again (done nw, k) = again (drop nw rest) (written + nw) k

  -- The loop of WriteToFile; `rest` is what is left of the buffer.
  unfoldable pub write_rest : ℕ → (fd : ℕ) → List ℕ → ℕ → K → Option (ℕ × K)
  write_rest zero fd rest written k = none
  write_rest (suc fuel) fd rest written k =
      let round = written_some rest written (write_rest fuel fd) (s.write fd rest k) in
      if length rest == 0 then some (written, k) else round

  abbrev pub close_written : ℕ → Option (ℕ × K) → Option (ℕ × K)
  close_written fd none = none
  close_written fd (some (written, k)) = some (written, f.close_file fd (f.fdatasync fd k))

  abbrev pub write_opened : ℕ → List ℕ → Option ℕ × K → Option (ℕ × K)
  write_opened fuel bytes (none, k) = some (0, k)
  write_opened fuel bytes (some fd, k) = close_written fd (write_rest fuel fd bytes 0 k)

  unfoldable pub write_to_file : ℕ → Text → List ℕ → K → Option (ℕ × K)
  unfolding write_rest
  write_to_file fuel path bytes k = write_opened fuel bytes (f.open_new path k)

  abbrev pub read_more :
      (buffer : List ℕ) (count : ℕ)
      → (List ℕ → ℕ → K → Option (Buffered K))
      → Reply (List ℕ) × K
      → Option (Buffered K)
  read_more buffer count again (failed e, k) = some (count, buffer, k)
  read_more buffer count again (done bytes, k) = again (buffer ++ bytes) (count + length bytes) k

  -- The loop of ReadToBuffer.
  unfoldable pub read_rest : ℕ → (fd size : ℕ) → List ℕ → ℕ → K → Option (Buffered K)
  read_rest zero fd size buffer count k = none
  read_rest (suc fuel) fd size buffer count k =
      let round = read_more buffer count (read_rest fuel fd size) (s.read fd (size - count) k) in
      if ltb count size then round else some (count, buffer, k)

  abbrev pub close_read : ℕ → Option (Buffered K) → Option (Buffered K)
  close_read fd none = none
  close_read fd (some (count, buffer, k)) = some (count, buffer, f.close_file fd k)

  abbrev pub whole_size : ℕ → ℕ × K → ℕ × K
  whole_size fd (size, k) = (size, f.seek_start fd k)

  -- A size of 0 stands for the whole file.
  abbrev pub asked_size : (fd size : ℕ) → K → ℕ × K
  asked_size fd zero k = whole_size fd (f.seek_end fd k)
  asked_size fd (suc m) k = (suc m, k)

  abbrev pub read_sized : (fuel fd : ℕ) → ℕ × K → Option (Buffered K)
  read_sized fuel fd (size, k) = close_read fd (read_rest fuel fd size [] 0 k)

  abbrev pub read_opened : (fuel size : ℕ) → Option ℕ × K → Option (Buffered K)
  read_opened fuel size (none, k) = some (0, [], k)
  read_opened fuel size (some fd, k) = read_sized fuel fd (asked_size fd size k)

  unfoldable pub read_to_buffer : ℕ → Text → (size : ℕ) → K → Option (Buffered K)
  unfolding read_rest
  read_to_buffer fuel path size k = read_opened fuel size (f.open_read path k)
