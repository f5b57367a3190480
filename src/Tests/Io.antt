-- ===== src/Tests/Io.antt =====
-- Sockets and files on the small systems.
use vmodule.Base.{
  ℕ, zero, suc, ◌≡◌, ◌⊎◌, refl, true, false, Option, none, some, List, [], ◌∷◌, take, ℤ, pos, arith,
}
use vmodule.System.{no_error}
use vmodule.System.Files.{Text}
use vmodule.Socket.{readn, writen}
use vmodule.Socket.Receive.{IsReceived, readn-IsReceived}
use vmodule.Socket.Send.{IsSent, writen-IsSent}
use vmodule.Socket.Open.{tcp_socket, new_unix_socket, new_socket}
use vmodule.Socket.Open.Kept.{UnixLaw, new_unix_socket-UnixLaw}
use vmodule.Socket.Open.Addresses.{Leaves, new_socket-NewSocketLaw}
use vmodule.FileUtils.Current.{NoSlash, get_current_directory, get_current_directory-dir}
use vmodule.FileUtils.{write_to_file, read_to_buffer}
use vmodule.FileUtils.Saving.{IsWritten, write_to_file-IsWritten}
use vmodule.FileUtils.Loading.{ReadFails, read_to_buffer-Filled, read_to_buffer-write_to_file}
use vmodule.FileUtils.Stuck.{read_to_buffer-never_ends}
use vmodule.FileUtils.Directory.{do_make_dir, make_dir}
use vmodule.FileUtils.Directory.Making.{make_dir-first_only}
use vmodule.Tests.Machines.{
  inet, Wire, wire, wire-IsStream, Disk, disk, disk_calls, disk-AreFiles, disk-never_fails_write,
  disk-never_fails_read, Fds, fds, fds-AreSockets,
}

-- Three bytes to come, and one interruption.
abbrev talking : Wire
talking = (1 ∷ 2 ∷ 3 ∷ [], [], 1)

readn-IsReceived_example :
    (r : ℤ) × (buffer : List ℕ) × (k' : Wire) × (readn wire 10 5 2 talking ≡ some (r, buffer, k'))
    × IsReceived wire-IsStream 5 2 talking r buffer k'
readn-IsReceived_example = readn-IsReceived wire-IsStream 10 5 2 talking (omega arith)

readn_runs : readn wire 10 5 2 talking ≡ some (pos 2, 1 ∷ 2 ∷ [], (3 ∷ [], [], 0))
unfolding readn
readn_runs = refl

readn_ends_early : readn wire 10 5 9 talking ≡ some (pos 3, 1 ∷ 2 ∷ 3 ∷ [], ([], [], 0))
unfolding readn
readn_ends_early = refl

writen-IsSent_example :
    (r : ℤ) × (k' : Wire) × (writen wire 10 5 (7 ∷ 8 ∷ []) talking ≡ some (r, k'))
    × IsSent wire-IsStream 5 (7 ∷ 8 ∷ []) talking r k'
writen-IsSent_example = writen-IsSent wire-IsStream 10 5 (7 ∷ 8 ∷ []) talking (omega arith)

-- Nothing is open.
abbrev fresh : Fds
fresh = ((λ f. false), 18)

new_unix_socket-UnixLaw_example :
    UnixLaw fds-AreSockets fresh
      (47 ∷ 120 ∷ [])
      (new_unix_socket fds 0 (some (47 ∷ 120 ∷ [])) 511 false fresh)
new_unix_socket-UnixLaw_example =
    new_unix_socket-UnixLaw fds-AreSockets 0 (47 ∷ 120 ∷ []) 511 false fresh (omega arith)

abbrev digits : ℤ → Text
digits port = 56 ∷ 48 ∷ []

-- Of two addresses, the second socket is returned.
new_socket-NewSocketLaw_example :
    Leaves fds-AreSockets true
      (inet ∷ inet ∷ [])
      fresh
      ((new_socket fds digits (pos 0) [] (pos 80) tcp_socket true fresh).0)
      ((new_socket fds digits (pos 0) [] (pos 80) tcp_socket true fresh).1)
new_socket-NewSocketLaw_example =
    new_socket-NewSocketLaw fds-AreSockets digits (pos 0) [] (pos 80) tcp_socket true fresh

-- And the first one stays open.
new_socket_leaks :
    let made = new_socket fds digits (pos 0) [] (pos 80) tcp_socket true fresh in
    (made.0 ≡ pos 4) × (made.1.0 3 ≡ true)
unfolding new_socket
new_socket_leaks = (refl, refl)

abbrev empty : Disk
empty = ([], [])

write_to_file-IsWritten_example :
    (written : ℕ) × (k' : Disk) × (write_to_file disk disk_calls 9 (97 ∷ []) (1 ∷ 2 ∷ []) empty
      ≡ some (written, k'))
    × IsWritten disk-AreFiles (97 ∷ []) (1 ∷ 2 ∷ []) written k'
write_to_file-IsWritten_example =
    write_to_file-IsWritten disk-AreFiles 9 (97 ∷ []) (1 ∷ 2 ∷ []) empty (omega arith) 3 ([], [])
      refl

abbrev three : Disk
three = (1 ∷ 2 ∷ 3 ∷ [], [])

read_to_buffer-Filled_example :
    (count : ℕ) × (buffer : List ℕ) × (k' : Disk) × (read_to_buffer disk disk_calls 9
        (97 ∷ [])
        2
        three
      ≡ some (count, buffer, k'))
    × ((buffer ≡ take count (1 ∷ 2 ∷ 3 ∷ [])) × ((count ≡ 2) ⊎ ReadFails disk-AreFiles))
read_to_buffer-Filled_example =
    read_to_buffer-Filled disk-AreFiles 9 (97 ∷ []) 2 three (omega arith) (omega arith) 3
      (1 ∷ 2 ∷ 3 ∷ [], 1 ∷ 2 ∷ 3 ∷ []) refl

read_to_buffer-write_to_file_example :
    (k' k'' : Disk) × (write_to_file disk disk_calls 9 (97 ∷ []) (1 ∷ 2 ∷ []) three ≡ some (2, k'))
    × (read_to_buffer disk disk_calls 9 (97 ∷ []) 0 k' ≡ some (2, 1 ∷ 2 ∷ [], k''))
read_to_buffer-write_to_file_example =
    read_to_buffer-write_to_file disk-AreFiles 9 (97 ∷ []) (1 ∷ 2 ∷ []) three (omega arith)
      (λ path k e. ground arith) (λ path k e. ground arith)
      (λ w. disk-never_fails_write (w.0) (w.1) (w.2) (w.3) (w.4))
      (λ r. disk-never_fails_read (r.0) (r.1) (r.2) (r.3) (r.4))

read_to_buffer-never_ends_example : read_to_buffer disk disk_calls 50 (97 ∷ []) 4 three ≡ none
read_to_buffer-never_ends_example =
    read_to_buffer-never_ends disk-AreFiles 50 (97 ∷ []) 4 three (omega arith) 3
      (1 ∷ 2 ∷ 3 ∷ [], 1 ∷ 2 ∷ 3 ∷ []) refl
      (λ r. disk-never_fails_read (r.0) (r.1) (r.2) (r.3) (r.4))

-- mkdir of /a/b makes /a.
makes_first : do_make_dir disk_calls (47 ∷ 97 ∷ []) 7 empty ≡ (no_error, empty)
unfolding do_make_dir
makes_first = refl

make_dir-first_only_example :
    make_dir disk_calls (47 ∷ 97 ∷ 47 ∷ 98 ∷ []) 7 empty ≡ (no_error, empty)
make_dir-first_only_example =
    make_dir-first_only disk_calls 7 (47 ∷ []) 97 [] (98 ∷ []) empty empty (refl, tt) (refl, tt)
      makes_first

-- The link is /a/b, in a buffer of six bytes.
abbrev self_exe : ℕ → List ℕ → Option (ℕ × List ℕ)
self_exe size name = some (4, 47 ∷ 97 ∷ 47 ∷ 98 ∷ 1 ∷ 1 ∷ [])

self_exe-NoSlash : NoSlash 2 (98 ∷ 1 ∷ 1 ∷ [])
self_exe-NoSlash zero l = (98, refl, refl)
self_exe-NoSlash (suc zero) l = (1, refl, refl)
self_exe-NoSlash (suc (suc i)) l = absurd (omega arith)

get_current_directory-dir_example :
    get_current_directory self_exe 6 (1 ∷ 1 ∷ 1 ∷ 1 ∷ 1 ∷ 1 ∷ [])
    ≡ some (pos 3, 47 ∷ 97 ∷ 47 ∷ 0 ∷ 1 ∷ 1 ∷ [])
get_current_directory-dir_example =
    get_current_directory-dir (47 ∷ 97 ∷ []) 98 (1 ∷ 1 ∷ []) self_exe 6 2
      (1 ∷ 1 ∷ 1 ∷ 1 ∷ 1 ∷ 1 ∷ []) refl (omega arith) refl self_exe-NoSlash
