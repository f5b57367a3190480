-- ===== src/Tests/Machines.antt =====
-- Small systems for the tests: a connection, a file and a table of descriptors.
use vmodule.Base.{
  ℕ, zero, suc, ◌%◌, ◌<◌, ◌≡◌, ◌≢◌, refl, sym, Bool, true, not, ◌&&◌, ◌||◌, Bool-cases, inl, inr,
  Option, none, some, List, [], ◌∷◌, ◌++◌, ◌==◌, if◌then◌else◌, length, append-nil, arith,
}
use vmodule.System.{Reply, failed, done, eintr, emfile, Stream}
use vmodule.System.Laws.{View, ReadLaw, WriteLaw, IsStream}
use vmodule.System.Files.{Files, FileView, Moves, AreFiles}
use vmodule.System.Descriptors.{AddrInfo, Sockets, Table, OpensLaw, AreSockets}

-- What is to come, what has gone, and how many calls a signal will still interrupt. A call moves one
-- byte.
abbrev pub Wire : Type 0
Wire = List ℕ × List ℕ × ℕ

abbrev wire_read : (fd count : ℕ) → Wire → Reply (List ℕ) × Wire
wire_read fd count (coming, gone, suc n) = (failed eintr, (coming, gone, n))
wire_read fd zero (coming, gone, zero) = (done [], (coming, gone, 0))
wire_read fd (suc m) ([], gone, zero) = (done [], ([], gone, 0))
wire_read fd (suc m) (b ∷ coming, gone, zero) = (done (b ∷ []), (coming, gone, 0))

abbrev wire_write : (fd : ℕ) → List ℕ → Wire → Reply ℕ × Wire
wire_write fd bytes (coming, gone, suc n) = (failed eintr, (coming, gone, n))
wire_write fd [] (coming, gone, zero) = (done 0, (coming, gone, 0))
wire_write fd (b ∷ bytes) (coming, gone, zero) = (done 1, (coming, gone ++ b ∷ [], 0))

abbrev pub wire : Stream Wire
wire = record { read = wire_read; write = wire_write }

abbrev pub wire_view : View Wire
wire_view = record { sent = λ fd k. k.1; incoming = λ fd k. k.0; patience = λ k. k.2 }

pub wire-IsStream : IsStream wire_view wire
wire-IsStream = record { reads = go; writes = went }
  where
    go : (fd count : ℕ) (k : Wire) → ReadLaw wire_view fd count k (wire_read fd count k)
    go fd count (coming, gone, suc n) = (refl, refl, omega arith, λ e. omega arith)
    go fd zero (coming, gone, zero) =
        (omega arith, refl, (λ e h. absurd (omega arith)), omega arith)
    go fd (suc m) ([], gone, zero) = (omega arith, refl, (λ e h. refl), omega arith)
    go fd (suc m) (b ∷ coming, gone, zero) = (omega arith, refl, (λ e h. ground arith), omega arith)

    went :
        (fd : ℕ) (bytes : List ℕ) (k : Wire) → WriteLaw wire_view fd bytes k (wire_write fd bytes k)
    went fd bytes (coming, gone, suc n) = (refl, refl, omega arith, λ e. omega arith)
    went fd [] (coming, gone, zero) = (omega arith, sym (append-nil gone), omega arith)
    went fd (b ∷ bytes) (coming, gone, zero) = (omega arith, refl, omega arith)

-- One file: what it holds, and what is after the reader's place.
abbrev pub Disk : Type 0
Disk = List ℕ × List ℕ

abbrev disk_read : (fd count : ℕ) → Disk → Reply (List ℕ) × Disk
disk_read fd zero (held, rest) = (done [], (held, rest))
disk_read fd (suc m) (held, []) = (done [], (held, []))
disk_read fd (suc m) (held, b ∷ rest) = (done (b ∷ []), (held, rest))

abbrev disk_write : (fd : ℕ) → List ℕ → Disk → Reply ℕ × Disk
disk_write fd [] (held, rest) = (done 0, (held, rest))
disk_write fd (b ∷ bytes) (held, rest) = (done 1, (held ++ b ∷ [], rest))

abbrev pub disk : Stream Disk
disk = record { read = disk_read; write = disk_write }

abbrev pub disk_calls : Files Disk
disk_calls = record {
  errno = λ k. 0;
  stat = λ path k. none;
  access = λ path k. true;
  mkdir = λ path mode k. (true, k);
  opendir = λ path k. (none, k);
  readdir = λ dir k. (none, k);
  closedir = λ dir k. k;
  remove_file = λ path k. (true, k);
  open_new = λ path k. (some 3, ([], []));
  open_read = λ path k. (some 3, (k.0, k.0));
  seek_end = λ fd k. (length (k.0), (k.0, []));
  seek_start = λ fd k. (k.0, k.0);
  fdatasync = λ fd k. k;
  close_file = λ fd k. k;
}

abbrev pub disk_view : View Disk
disk_view = record { sent = λ fd k. k.0; incoming = λ fd k. k.1; patience = λ k. 0 }

abbrev pub disk_files : FileView Disk
disk_files = record {
  content = λ path k. k.0;
  Writes = λ fd path k. Unit;
  Reads = λ fd path k. k.1 ≡ k.0;
}

pub disk-AreFiles : AreFiles disk_view disk_files disk disk_calls
disk-AreFiles = record {
  stream = record { reads = reads; writes = writes };
  creates = λ path k. (tt, refl, refl);
  finds = λ path k. (refl, refl, refl);
  written = λ fd path k w. refl;
  writing = λ fd path bytes k w. tt;
  moving = moving;
  syncs = λ fd path k w. (tt, refl);
  finishes = λ fd path k w. refl;
  readable = λ fd path k e. e;
  seeks = λ fd path k e. (refl, refl, refl, refl);
}
  where
    reads : (fd count : ℕ) (k : Disk) → ReadLaw disk_view fd count k (disk_read fd count k)
    reads fd zero (held, rest) = (omega arith, refl, (λ e h. absurd (omega arith)), omega arith)
    reads fd (suc m) (held, []) = (omega arith, refl, (λ e h. refl), omega arith)
    reads fd (suc m) (held, b ∷ rest) = (omega arith, refl, (λ e h. ground arith), omega arith)

    writes :
        (fd : ℕ) (bytes : List ℕ) (k : Disk) → WriteLaw disk_view fd bytes k (disk_write fd bytes k)
    writes fd [] (held, rest) = (omega arith, sym (append-nil held), omega arith)
    writes fd (b ∷ bytes) (held, rest) = (omega arith, refl, omega arith)

    moving :
        (fd : ℕ) (path bytes : List ℕ) (k : Disk)
        → Unit {0}
        → 0 < length bytes
        → Moves disk_view disk_files (disk_write fd bytes k)
    moving fd path [] k w h = absurd (omega arith)
    moving fd path (b ∷ bytes) (held, rest) w h = omega arith

pub disk-never_fails_write :
    (fd : ℕ) (bytes : List ℕ) (k : Disk) (e : ℕ) → (disk_write fd bytes k).0 ≢ failed e
disk-never_fails_write fd [] (held, rest) e h = ground arith
disk-never_fails_write fd (b ∷ bytes) (held, rest) e h = ground arith

pub disk-never_fails_read : (fd count : ℕ) (k : Disk) (e : ℕ) → (disk_read fd count k).0 ≢ failed e
disk-never_fails_read fd zero (held, rest) e h = ground arith
disk-never_fails_read fd (suc m) (held, []) e h = ground arith
disk-never_fails_read fd (suc m) (held, b ∷ rest) e h = ground arith

-- Two descriptors, 3 and 4, and the mask.
abbrev pub Fds : Type 0
Fds = (ℕ → Bool) × ℕ

abbrev open_more : ℕ → Fds → Fds
open_more fd (o, m) = ((λ f. (f == fd) || o f), m)

abbrev open_fd : Fds → Option ℕ × Fds
open_fd (o, m) =
    let third : Option ℕ × Fds = (some 3, open_more 3 (o, m)) in
    let fourth : Option ℕ × Fds = (some 4, open_more 4 (o, m)) in
    if o 3 then if o 4 then (none, (o, m)) else fourth else third

abbrev pub inet : AddrInfo
inet = record { ai_family = 2; ai_socktype = 1; ai_protocol = 6 }

abbrev pub fds : Sockets Fds
fds = record {
  errno = λ k. emfile;
  socket_call = λ family kind protocol k. open_fd k;
  get_flags = λ fd k. (some 2, k);
  set_flags = λ fd flags k. (true, k);
  set_option = λ fd level option value k. (true, k);
  close_call = λ fd k. ((λ f. not (f == fd) && k.0 f), k.1);
  bind_call = λ fd path k. (true, k);
  is_socket_file = λ path k. true;
  unlink = λ path k. k;
  umask = λ m k. (k.1, (k.0, m % 512));
  getaddrinfo = λ name port flags family socktype k. (some (inet ∷ inet ∷ []), k);
  freeaddrinfo = λ found k. k;
}

abbrev pub fd_table : Table Fds
fd_table = record { is_open = λ k. k.0; mask = λ k. k.1 }

pub fds-AreSockets : AreSockets fd_table fds
fds-AreSockets = record {
  opens = λ family kind protocol k. opens k;
  gets = λ fd k. ((λ f. refl), refl);
  sets = λ fd flags k. ((λ f. refl), refl);
  options = λ fd level option value k. ((λ f. refl), refl);
  closes = λ fd k. ((λ f. refl), refl);
  binds = λ fd path k. ((λ f. refl), refl);
  unlinks = λ path k. ((λ f. refl), refl);
  masks = λ m k. (refl, (λ f. refl), refl);
  addresses = λ name port flags family socktype k. (((λ f. refl), refl), λ e. ground arith);
  frees = λ found k. ((λ f. refl), refl);
}
  where
    opens : (k : Fds) → OpensLaw fd_table k (open_fd k)
    opens (o, m) = elim (Bool-cases (o 3)) [
      | inl y ↦ elim (Bool-cases (o 4)) [
        | inl z ↦ rw (y, z) ((λ f. refl), refl)
        | inr z ↦ rw (y, z) ((z, (λ f. refl)), refl)
      ]
      | inr y ↦ rw y ((y, (λ f. refl)), refl)
    ]
