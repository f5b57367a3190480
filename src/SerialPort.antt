-- ===== src/SerialPort.antt =====
-- hardware/serial/SerialPort.cpp for POSIX: opening and setting up a port, reading and writing. The
-- flags are those of Linux; a flag word is the function from the number of a bit to that bit.
pub mod Settings
pub mod Reader
use vmodule.Base.{
  ℕ, zero, suc, ◌+◌, Bool, true, false, not, ◌&&◌, ◌||◌, Option, none, some, List, [], ◌∷◌, ◌++◌,
  ◌==◌, ltb, if◌then◌else◌, length, ℤ, pos, negsuc,
}
use vmodule.System.{Reply, failed, done, eintr, Stream, no_error, invalid_operation}

abbrev pub Word : Type 0
Word = ℕ → Bool

-- word |= 1 << bit and word &= ~(1 << bit)
abbrev pub set_bit : ℕ → Word → Word
set_bit bit w b = (b == bit) || w b

abbrev pub clear_bit : ℕ → Word → Word
clear_bit bit w b = not (b == bit) && w b

pub record Termios : Type 0 where
  pub c_iflag : Word
  pub c_oflag : Word
  pub c_cflag : Word
  pub c_lflag : Word
  pub vtime : ℕ
  pub vmin : ℕ

-- CLOCAL, CREAD, ~CRTSCTS, and IXON | IXOFF | IXANY, which are flags of c_iflag.
unfoldable pub control_modes : Word → Word
control_modes w = set_bit 11 (set_bit 12 (set_bit 10 (clear_bit 31 (set_bit 7 (set_bit 11 w)))))

-- ~CSIZE, and CS5 to CS8.
unfoldable pub data_size : (databits : ℕ) → Word → Word
data_size databits w =
    let cleared : Word = clear_bit 4 (clear_bit 5 w) in
    if databits == 5
    then cleared
    else if databits == 6
    then set_bit 4 cleared
    else if databits == 7
    then set_bit 5 cleared
    else if databits == 8
    then set_bit 4 (set_bit 5 cleared)
    else cleared

-- c_cflag and c_iflag after the switch on the parity; `none` for one that is not supported.
unfoldable pub parity_modes : (parity : ℕ) → Word → Word → Option (Word × Word)
parity_modes parity c i =
    if (parity == 110) || (parity == 78)
    then some (clear_bit 8 c, clear_bit 4 i)
    else if (parity == 111) || (parity == 79)
    then some (set_bit 9 (set_bit 8 c), set_bit 4 i)
    else if (parity == 101) || (parity == 69)
    then some (clear_bit 9 (set_bit 8 c), set_bit 4 i)
    else if (parity == 115) || (parity == 83)
    then some (clear_bit 6 (clear_bit 8 c), i)
    else none

unfoldable pub stop_modes : (stopsbits : ℕ) → Word → Option Word
stop_modes stopsbits c =
    if stopsbits == 1
    then some (clear_bit 6 c)
    else if stopsbits == 2
    then some (set_bit 6 c)
    else none

-- The output, input and local modes and the two limits that are the same for every port.
abbrev pub raw_modes : Termios → Option Word → Option Termios
raw_modes tio none = none
raw_modes tio (some c) = some (record {
  c_iflag = λ b. b == 2;
  c_oflag = clear_bit 0 tio.c_oflag;
  c_cflag = c;
  c_lflag = λ b. false;
  vtime = 1;
  vmin = 1;
})

abbrev pub after_parity : (stopsbits : ℕ) → Termios → Option (Word × Word) → Option Termios
after_parity stopsbits tio none = none
after_parity stopsbits tio (some (c, i)) = raw_modes tio (stop_modes stopsbits c)

-- What InitPort makes of the settings after cfsetispeed, or `none` where it gives up.
unfoldable pub configure : (parity databits stopsbits : ℕ) → Termios → Option Termios
unfolding stop_modes
configure parity databits stopsbits tio =
    after_parity stopsbits tio
      (parity_modes parity (data_size databits (control_modes tio.c_cflag)) tio.c_iflag)

-- m_file, or `none` for INVALID_HANDLE_VALUE, and whether there is an m_ReadTask.
pub record SerialPort : Type 0 where
  pub m_file : Option ℕ
  pub read_task : Bool

unfoldable pub close_port : SerialPort → SerialPort
close_port port = record port { m_file = none }

-- openPort, where open gives `opened`; the results of fcntl are not looked at.
unfoldable pub open_port : (opened : Option ℕ) → SerialPort → ℤ × SerialPort
open_port none port = (invalid_operation, record port { m_file = none })
open_port (some fd) port = (no_error, record port { m_file = some fd })

-- What the terminal answers: the settings, if tcgetattr gives them; what cfsetispeed makes of them;
-- and whether tcsetattr takes them.
pub record Terminal : Type 0 where
  pub settings : Option Termios
  pub with_speed : ℕ → Termios → Termios
  pub accepts : Termios → Bool

abbrev pub no_settings : Termios
no_settings = record {
  c_iflag = λ b. false;
  c_oflag = λ b. false;
  c_cflag = λ b. false;
  c_lflag = λ b. false;
  vtime = 0;
  vmin = 0;
}

abbrev pub settings_or_none : Option Termios → Termios
settings_or_none none = no_settings
settings_or_none (some tio) = tio

abbrev pub apply_settings : Terminal → Option Termios → SerialPort → ℤ × SerialPort
apply_settings terminal none port = (invalid_operation, port)
apply_settings terminal (some tio) port =
    if terminal.accepts tio
    then (no_error, record port { read_task = true })
    else (invalid_operation, port)

abbrev pub set_up :
    Terminal → (baud parity databits stopsbits : ℕ) → ℤ × SerialPort → ℤ × SerialPort
set_up terminal baud parity databits stopsbits (pos zero, port) =
    apply_settings terminal
      (configure parity databits stopsbits
        (terminal.with_speed baud (settings_or_none terminal.settings)))
      port
set_up terminal baud parity databits stopsbits (pos (suc n), port) = (invalid_operation, port)
set_up terminal baud parity databits stopsbits (negsuc n, port) = (invalid_operation, port)

abbrev pub unless_open : Option ℕ → ℤ × SerialPort → SerialPort → ℤ × SerialPort
unless_open (some fd) made port = (invalid_operation, port)
unless_open none made port = made

unfoldable pub init_port :
    (opened : Option ℕ)
    → Terminal
    → (baud parity databits stopsbits : ℕ) → SerialPort
    → ℤ × SerialPort
unfolding open_port configure
init_port opened terminal baud parity databits stopsbits port =
    unless_open port.m_file (set_up terminal baud parity databits stopsbits (open_port opened port))
      port

-- What CSerialPortReadTask::threadLoop leaves of the reading: `overflow` is a write past `buffer`.
pub data Received (K : Type 0) : Type 0 where
  overflow : Received K
  received : (buffer : List ℕ) (len : ℕ) (k : K) → Received K

module _ {K : Type 0} (s : Stream K) where
  abbrev pub one_byte : Reply (List ℕ) × K → Option ℕ × K
  one_byte (failed e, k) = (none, k)
  one_byte (done [], k) = (none, k)
  one_byte (done (b ∷ bytes), k) = (some b, k)

  -- ReadByte: the byte, or `none` for INVALID_OPERATION.
  unfoldable pub read_byte : SerialPort → K → Option ℕ × K
  read_byte port k = elim (port.m_file) [ none ↦ (none, k) | some fd ↦ one_byte (s.read fd 1 k) ]

  abbrev pub write_status : Reply ℕ × K → ℤ × K
  write_status (failed e, k) = (invalid_operation, k)
  write_status (done n, k) = (no_error, k)

  unfoldable pub write_data : SerialPort → List ℕ → K → ℤ × K
  write_data port bytes k = elim (port.m_file) [
    | none ↦ (invalid_operation, k)
    | some fd ↦ write_status (s.write fd bytes k)
  ]

  -- A byte goes to buffer[len]; `buffer` holds the first `len`.
  abbrev pub keep_byte :
      (buffer : List ℕ) → (List ℕ → K → Option (Received K)) → Option ℕ × K → Option (Received K)
  keep_byte buffer again (none, k) = some (received buffer (suc (length buffer)) k)
  keep_byte buffer again (some b, k) =
      if ltb (length buffer) 1024 then again (buffer ++ b ∷ []) k else some overflow

  -- The reading of threadLoop, with the `len++` after its loop.
  unfoldable pub read_all : ℕ → SerialPort → List ℕ → K → Option (Received K)
  unfolding read_byte
  read_all zero port buffer k = none
  read_all (suc fuel) port buffer k = keep_byte buffer (read_all fuel port) (read_byte port k)
