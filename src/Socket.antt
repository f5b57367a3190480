-- ===== src/Socket.antt =====
-- The reading and writing of socket/Socket.cpp. A result of type ssize_t is an integer. Each loop
-- runs on fuel, and gives `none` when it runs out.
pub mod Receive
pub mod Send
pub mod Open
use vmodule.Base.{
  ℕ, zero, suc, ◌-◌, Bool, Option, none, some, List, [], ◌∷◌, ◌++◌, ◌==◌, ◌||◌, if◌then◌else◌,
  length, drop, ℤ, pos, negsuc,
}
use vmodule.System.{Reply, failed, done, eintr, econnaborted, Stream}

module _ {K : Type 0} (s : Stream K) where
  -- if (n == -1) { if (errno == EINTR) goto again; else return -1; } return n;
  abbrev again_if_interrupted {ℓ} :
      {A : Type ℓ} → (K → Option (Option A × K)) → Reply A × K → Option (Option A × K)
  again_if_interrupted again (failed e, k) = if e == eintr then again k else some (none, k)
  again_if_interrupted again (done a, k) = some (some a, k)

  -- Read: the bytes, or `none` for -1.
  unfoldable pub read_some : ℕ → (fd nbytes : ℕ) → K → Option (Option (List ℕ) × K)
  read_some zero fd nbytes k = none
  read_some (suc fuel) fd nbytes k =
      again_if_interrupted (read_some fuel fd nbytes) (s.read fd nbytes k)

  -- Write: the number of bytes, or `none` for -1.
  unfoldable pub write_some : ℕ → (fd : ℕ) → List ℕ → K → Option (Option ℕ × K)
  write_some zero fd bytes k = none
  write_some (suc fuel) fd bytes k =
      again_if_interrupted (write_some fuel fd bytes) (s.write fd bytes k)

  -- What is returned, the bytes in the buffer, and the system after.
  abbrev pub Received : Type 0
  Received = ℤ × List ℕ × K

  abbrev readn_round :
      (n nleft : ℕ)
      → List ℕ
      → (ℕ → List ℕ → K → Option Received)
      → Reply (List ℕ) × K
      → Option Received
  readn_round n nleft buffer again (failed e, k) =
      if e == eintr then again nleft buffer k else some (negsuc 0, buffer, k)
  readn_round n nleft buffer again (done [], k) = some (pos (n - nleft), buffer, k)
  readn_round n nleft buffer again (done (b ∷ bytes), k) =
      again (nleft - length (b ∷ bytes)) (buffer ++ b ∷ bytes) k

  unfoldable pub readn_loop : ℕ → (fd n nleft : ℕ) → List ℕ → K → Option Received
  readn_loop zero fd n nleft buffer k = none
  readn_loop (suc fuel) fd n nleft buffer k =
      let round = readn_round n nleft buffer (readn_loop fuel fd n) (s.read fd nleft k) in
      if nleft == 0 then some (pos (n - nleft), buffer, k) else round

  unfoldable pub readn : ℕ → (fd n : ℕ) → K → Option Received
  unfolding readn_loop
  readn fuel fd n k = readn_loop fuel fd n n [] k

  abbrev writen_round : List ℕ → (List ℕ → K → Option (ℤ × K)) → Reply ℕ × K → Option (ℤ × K)
  writen_round rest again (failed e, k) = if e == eintr then again rest k else some (negsuc 0, k)
  writen_round rest again (done zero, k) = some (negsuc 0, k)
  writen_round rest again (done (suc m), k) = again (drop (suc m) rest) k

  -- `rest` is what ptr and nleft are left with.
  unfoldable pub writen_loop : ℕ → (fd n : ℕ) → List ℕ → K → Option (ℤ × K)
  writen_loop zero fd n rest k = none
  writen_loop (suc fuel) fd n rest k =
      let round = writen_round rest (writen_loop fuel fd n) (s.write fd rest k) in
      if length rest == 0 then some (pos n, k) else round

  unfoldable pub writen : ℕ → (fd : ℕ) → List ℕ → K → Option (ℤ × K)
  unfolding writen_loop
  writen fuel fd bytes k = writen_loop fuel fd (length bytes) bytes k

module _ {K : Type 0} (accept_call : (fd : ℕ) → K → Reply ℕ × K) where
  abbrev pub accept_again : (K → Option (Option ℕ × K)) → Reply ℕ × K → Option (Option ℕ × K)
  accept_again again (failed e, k) =
      let rest = again k in if (e == econnaborted) || (e == eintr) then rest else some (none, k)
  accept_again again (done fd, k) = some (some fd, k)

  -- CTcpSocket::Accept of socket/TcpSocket.cpp: the descriptor, or `none` for -1.
  unfoldable pub accept : ℕ → (fd : ℕ) → K → Option (Option ℕ × K)
  accept zero fd k = none
  accept (suc fuel) fd k = accept_again (accept fuel fd) (accept_call fd k)
