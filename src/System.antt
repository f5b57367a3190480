-- ===== src/System.antt =====
-- The calls of the operating system that sockets and files use: an interface over the state of the
-- system, and what the manual pages say of it.
pub mod Laws
pub mod Files
pub mod Descriptors
use vmodule.Base.{ℕ, List, ℤ, pos, negsuc}

-- A call's result, or the errno of its failure.
pub data Reply {ℓ} (A : Type ℓ) : Type ℓ where
  failed : ℕ → Reply A
  done : A → Reply A

abbrev pub eintr : ℕ
eintr = 4

abbrev pub econnaborted : ℕ
econnaborted = 103

abbrev pub eexist : ℕ
eexist = 17

abbrev pub emfile : ℕ
emfile = 24

-- read(fd, buf, count) gives the bytes that it put into the buffer.
pub record Stream (K : Type 0) : Type 0 where
  pub read : (fd count : ℕ) → K → Reply (List ℕ) × K
  pub write : (fd : ℕ) → List ℕ → K → Reply ℕ × K

-- The status codes of include/sutils/Errors.h that the code returns.
abbrev pub no_error : ℤ
no_error = pos 0

abbrev pub bad_value : ℤ
bad_value = negsuc 21

abbrev pub unknown_error : ℤ
unknown_error = negsuc 2147483647

abbrev pub invalid_operation : ℤ
invalid_operation = negsuc 37

abbrev pub would_block : ℤ
would_block = negsuc 10
