-- ===== src/System/Files.antt =====
-- The calls on files and directories, over the state of the system, and what they do to the contents
-- of files.
use vmodule.Base.{ℕ, ◌<◌, ◌≡◌, Bool, Option, none, some, List, [], length}
use vmodule.System.{Reply, failed, done, Stream}
use vmodule.System.Laws.{View, IsStream}

abbrev pub Text : Type 0
Text = List ℕ

-- A failing call gives `none` or `false`. stat gives st_mode and st_size.
pub record Files (K : Type 0) : Type 0 where
  pub errno : K → ℕ
  pub stat : Text → K → Option (ℕ × ℕ)
  pub access : Text → K → Bool
  pub mkdir : Text → (mode : ℕ) → K → Bool × K
  pub opendir : Text → K → Option ℕ × K
  pub readdir : (dir : ℕ) → K → Option Text × K
  pub closedir : (dir : ℕ) → K → K
  pub remove_file : Text → K → Bool × K
  pub open_new : Text → K → Option ℕ × K
  pub open_read : Text → K → Option ℕ × K
  pub seek_end : (fd : ℕ) → K → ℕ × K
  pub seek_start : (fd : ℕ) → K → K
  pub fdatasync : (fd : ℕ) → K → K
  pub close_file : (fd : ℕ) → K → K

-- What a file holds; which descriptor writes a file from its start on, or reads it and stands at its
-- start.
pub record FileView (K : Type 0) : Type 1 where
  pub content : Text → K → List ℕ
  pub Writes : (fd : ℕ) → Text → K → Type 0
  pub Reads : (fd : ℕ) → Text → K → Type 0

module _ {K : Type 0} (v : View K) (c : FileView K) where
  -- open with O_CREAT and O_TRUNC
  abbrev pub NewLaw : Text → K → Option ℕ × K → Type 0
  NewLaw path k (none, k') = Unit
  NewLaw path k (some fd, k') =
      c.Writes fd path k' × (c.content path k' ≡ []) × (v.patience k' ≡ v.patience k)

  abbrev pub ReadableLaw : Text → K → Option ℕ × K → Type 0
  ReadableLaw path k (none, k') = Unit
  ReadableLaw path k (some fd, k') =
      c.Reads fd path k' × (c.content path k' ≡ c.content path k) × (v.patience k' ≡ v.patience k)

  -- A write that does not fail takes a byte at least.
  abbrev pub Moves : Reply ℕ × K → Type 0
  Moves (failed e, k) = Unit
  Moves (done n, k) = 0 < n

  pub record AreFiles (s : Stream K) (f : Files K) : Type 0 where
    pub stream : IsStream v s
    pub creates : (path : Text) (k : K) → NewLaw path k (f.open_new path k)
    pub finds : (path : Text) (k : K) → ReadableLaw path k (f.open_read path k)
    pub written :
        (fd : ℕ) (path : Text) (k : K) → c.Writes fd path k → v.sent fd k ≡ c.content path k
    pub writing :
        (fd : ℕ) (path : Text) (bytes : List ℕ) (k : K)
        → c.Writes fd path k
        → c.Writes fd path ((s.write fd bytes k).1)
    pub moving :
        (fd : ℕ) (path : Text) (bytes : List ℕ) (k : K)
        → c.Writes fd path k
        → 0 < length bytes
        → Moves (s.write fd bytes k)
    pub syncs :
        (fd : ℕ) (path : Text) (k : K)
        → c.Writes fd path k
        → c.Writes fd path (f.fdatasync fd k)
          × (c.content path (f.fdatasync fd k) ≡ c.content path k)
    pub finishes :
        (fd : ℕ) (path : Text) (k : K)
        → c.Writes fd path k
        → c.content path (f.close_file fd k) ≡ c.content path k
    pub readable :
        (fd : ℕ) (path : Text) (k : K) → c.Reads fd path k → v.incoming fd k ≡ c.content path k
    pub seeks :
        (fd : ℕ) (path : Text) (k : K)
        → c.Reads fd path k
        → let (size, k') = f.seek_end fd k in
          (size ≡ length (c.content path k))
          × c.Reads fd path (f.seek_start fd k')
          × (c.content path (f.seek_start fd k') ≡ c.content path k)
          × (v.patience (f.seek_start fd k') ≡ v.patience k)
