-- ===== src/Socket/Open.antt =====
-- The opening of sockets in socket/Socket.cpp: Socket, NewUnixSocket and NewSocket. Logging and
-- getsockname, whose answer is only logged, are left out. The constants are those of Linux.
pub mod Kept
pub mod Addresses
use Prim.Native.Nat.{bit_or}
use vmodule.Base.{
  ℕ, zero, suc, ◌-◌, ◌+◌, ◌%◌, Bool, true, false, Option, none, some, List, [], ◌∷◌, ◌==◌, leb,
  if◌then◌else◌, length, ℤ, pos, negsuc,
}
use vmodule.System.{emfile}
use vmodule.System.Descriptors.{Text, AddrInfo, Sockets}

pub data Protocol : Type 0 where
  local_socket : Protocol
  tcp_socket : Protocol
  udp_socket : Protocol

abbrev pub af_inet6 : ℕ
af_inet6 = 10

-- sizeof(addr.sun_path) - 1
abbrev pub path_limit : ℕ
path_limit = 107

-- ~(access_mask & 0777), of 32 bits
abbrev pub denied : ℕ → ℕ
denied access_mask = 4294967295 - access_mask % 512

abbrev pub flags_or : ℕ → Option ℕ → ℕ
flags_or unset none = unset
flags_or unset (some flags) = flags

abbrev pub socktype_of : Protocol → ℕ
socktype_of udp_socket = 2
socktype_of tcp_socket = 1
socktype_of local_socket = 1

abbrev pub port_of : ℤ → ℤ
port_of (negsuc zero) = pos 0
port_of (negsuc (suc n)) = negsuc (suc n)
port_of (pos n) = pos n

module _ {K : Type 0} (s : Sockets K) where
  -- fcntl(sfd, F_SETFL, flags | O_NONBLOCK)
  abbrev pub add_nonblock : ℕ → Option ℕ × K → Bool × Option ℕ × K
  add_nonblock fd (none, k) = (false, none, k)
  add_nonblock fd (some flags, k) =
      let set = s.set_flags fd (bit_or flags 2048) k in (set.0, some flags, set.1)

  -- Whether the descriptor could be set up, and the flags it had, if they were read.
  abbrev pub make_ready : (blocking : Bool) → ℕ → K → Bool × Option ℕ × K
  make_ready true fd k = (true, none, k)
  make_ready false fd k = add_nonblock fd (s.get_flags fd k)

  abbrev pub close_unless_ready : ℕ → Bool × Option ℕ × K → Option ℕ × K
  close_unless_ready fd (true, flags, k) = (some fd, k)
  close_unless_ready fd (false, flags, k) = (none, s.close_call fd k)

  abbrev pub if_opened : Bool → Option ℕ × K → Option ℕ × K
  if_opened blocking (none, k) = (none, k)
  if_opened blocking (some fd, k) = close_unless_ready fd (make_ready blocking fd k)

  -- Socket: `none` for -1.
  unfoldable pub open_socket : AddrInfo → (blocking : Bool) → K → Option ℕ × K
  open_socket ai blocking k =
      if_opened blocking (s.socket_call ai.ai_family ai.ai_socktype ai.ai_protocol k)

  -- Bind, with the mask put back afterwards.
  abbrev pub end_bind : (fd old_umask : ℕ) → Bool × K → ℤ × K
  end_bind fd old_umask (true, k) = (pos fd, (s.umask old_umask k).1)
  end_bind fd old_umask (false, k) = (pos 1, (s.umask old_umask (s.close_call fd k)).1)

  abbrev pub bind_masked : (fd : ℕ) → Text → ℕ × K → ℤ × K
  bind_masked fd path (old_umask, k) = end_bind fd old_umask (s.bind_call fd path k)

  abbrev pub unlink_socket : Text → K → K
  unlink_socket path k = if s.is_socket_file path k then s.unlink path k else k

  -- SO_REUSEADDR, SO_KEEPALIVE and SO_LINGER of NewUnixSocket.
  abbrev pub unix_options : (fd flags : ℕ) → K → K
  unix_options fd flags k =
      (s.set_option fd 1 13 0 ((s.set_option fd 1 9 flags ((s.set_option fd 1 2 flags k).1)).1)).1

  -- The rest of NewUnixSocket once there is a descriptor; `none` where the assert fails.
  abbrev pub name_unix_socket : (fd flags access_mask : ℕ) → Text → K → Option (ℤ × K)
  name_unix_socket fd flags access_mask path k =
      if leb (length path) path_limit
      then some (
          bind_masked fd path
            (s.umask (denied access_mask) (unix_options fd flags (unlink_socket path k))))
      else none

  abbrev pub if_unix_ready :
      (fd unset access_mask : ℕ) → Text → Bool × Option ℕ × K → Option (ℤ × K)
  if_unix_ready fd unset access_mask path (false, flags, k) = some (negsuc 0, s.close_call fd k)
  if_unix_ready fd unset access_mask path (true, flags, k) =
      name_unix_socket fd (flags_or unset flags) access_mask path k

  abbrev pub if_unix_opened :
      (unset access_mask : ℕ) → (blocking : Bool) → Text → Option ℕ × K → Option (ℤ × K)
  if_unix_opened unset access_mask blocking path (none, k) = some (negsuc 0, k)
  if_unix_opened unset access_mask blocking path (some fd, k) =
      if_unix_ready fd unset access_mask path (make_ready blocking fd k)

  -- NewUnixSocket. `unset` is what the memory of the variable `flags` held.
  unfoldable pub new_unix_socket :
      (unset : ℕ) → Option Text → (access_mask : ℕ) → (blocking : Bool) → K → Option (ℤ × K)
  new_unix_socket unset none access_mask blocking k = some (pos 1, k)
  new_unix_socket unset (some path) access_mask blocking k =
      if_unix_opened unset access_mask blocking path (s.socket_call 1 1 0 k)

  -- SO_REUSEADDR, and for TCP SO_KEEPALIVE, SO_LINGER and TCP_NODELAY.
  abbrev pub tcp_options : Protocol → ℕ → K → K
  tcp_options tcp_socket fd k =
      (s.set_option fd 6 1 1 ((s.set_option fd 1 13 0 ((s.set_option fd 1 9 1 k).1)).1)).1
  tcp_options local_socket fd k = k
  tcp_options udp_socket fd k = k

  abbrev pub inet_options : Protocol → ℕ → K → K
  inet_options transport fd k = tcp_options transport fd ((s.set_option fd 1 2 1 k).1)

  -- What the body does with the result of the IPV6_V6ONLY call.
  abbrev pub if_v6_only : Protocol → ℕ → (ℤ → K → Bool × ℤ × K) → Bool × K → Bool × ℤ × K
  if_v6_only transport fd again (true, k) = again (pos fd) (inet_options transport fd k)
  if_v6_only transport fd again (false, k) = again (pos fd) (s.close_call fd k)

  -- The body of the loop after Socket; `true` stands for a return from inside it.
  abbrev pub next_address :
      Protocol → AddrInfo → (ℤ → K → Bool × ℤ × K) → Option ℕ × K → Bool × ℤ × K
  next_address transport ai again (none, k) =
      if s.errno k == emfile then (true, negsuc 0, k) else again (negsuc 0) k
  next_address transport ai again (some fd, k) =
      if ai.ai_family == af_inet6
      then if_v6_only transport fd again (s.set_option fd 41 26 1 k)
      else again (pos fd) (inet_options transport fd k)

  unfoldable pub new_socket_loop :
      Protocol → (blocking : Bool) → List AddrInfo → ℤ → K → Bool × ℤ × K
  unfolding open_socket
  new_socket_loop transport blocking [] sfd k = (false, sfd, k)
  new_socket_loop transport blocking (ai ∷ next) sfd k =
      next_address transport ai (new_socket_loop transport blocking next)
        (open_socket ai blocking k)

  abbrev pub end_new_socket : List AddrInfo → Bool × ℤ × K → ℤ × K
  end_new_socket found (true, r, k) = (r, k)
  end_new_socket found (false, sfd, k) = (sfd, s.freeaddrinfo found k)

  abbrev pub on_addresses : (List AddrInfo → K → Bool × ℤ × K) → Option (List AddrInfo) × K → ℤ × K
  on_addresses loop (none, k) = (pos 1, k)
  on_addresses loop (some found, k) = end_new_socket found (loop found k)

  -- NewSocket. `decimal` is snprintf with "%d", and `unset` what the memory of sfd held.
  unfoldable pub new_socket :
      (decimal : ℤ → Text)
      → (unset : ℤ) → Text
      → (port : ℤ) → Protocol
      → (blocking : Bool) → K
      → ℤ × K
  unfolding new_socket_loop
  new_socket decimal unset name port transport blocking k =
      on_addresses (λ found k'. new_socket_loop transport blocking found unset k')
        (s.getaddrinfo name (decimal (port_of port)) 1 0 (socktype_of transport) k)
