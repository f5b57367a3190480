-- ===== src/SerialPort/Settings.antt =====
-- What InitPort of hardware/serial/SerialPort.cpp sets, and when it gives up.
use vmodule.Base.{
  ℕ, ◌+◌, ◌*◌, ◌≤◌, ◌≡◌, refl, ◌∙◌, Bool, true, false, ◌||◌, Option, none, some, ◌==◌,
  if◌then◌else◌, arith,
}
use vmodule.SerialPort.{
  Word, set_bit, clear_bit, Termios, control_modes, data_size, parity_modes, stop_modes, raw_modes,
  after_parity, configure,
}

-- The kinds of parity, by the letters that ask for them.
pub data Parity : Type 0 where
  no_parity : Parity
  odd_parity : Parity
  even_parity : Parity
  space_parity : Parity

abbrev pub parity_of : ℕ → Option Parity
parity_of letter =
    if (letter == 110) || (letter == 78)
    then some no_parity
    else if (letter == 111) || (letter == 79)
    then some odd_parity
    else if (letter == 101) || (letter == 69)
    then some even_parity
    else if (letter == 115) || (letter == 83)
    then some space_parity
    else none

abbrev pub two_stops : ℕ → Option Bool
two_stops stopsbits =
    if stopsbits == 1 then some false else if stopsbits == 2 then some true else none

-- PARENB and PARODD.
abbrev pub HasParity : Parity → Word → Type 0
HasParity no_parity c = c 8 ≡ false
HasParity odd_parity c = (c 8 ≡ true) × (c 9 ≡ true)
HasParity even_parity c = (c 8 ≡ true) × (c 9 ≡ false)
HasParity space_parity c = c 8 ≡ false

abbrev pub number : Bool → ℕ
number true = 1
number false = 0

-- The settings of a port that can be opened for reading, with the sizes and the parity asked for, and
-- with CBAUDEX, a bit of the speed, on at any speed, and INPCK off at any parity.
pub record IsSetUp (databits : ℕ) (kind : Parity) (two : Bool) (tio : Termios) : Type 0 where
  pub reads : (tio.c_cflag 7 ≡ true) × (tio.c_cflag 11 ≡ true) × (tio.c_cflag 31 ≡ false)
  pub size : number (tio.c_cflag 4) + 2 * number (tio.c_cflag 5) + 5 ≡ databits
  pub parity : HasParity kind tio.c_cflag
  pub stops : tio.c_cflag 6 ≡ two
  pub raw :
      (tio.c_oflag 0 ≡ false) × ((b : ℕ) → tio.c_lflag b ≡ false) × (tio.vtime ≡ 1) × (tio.vmin ≡ 1)
  pub speed_spoilt : tio.c_cflag 12 ≡ true
  pub parity_unchecked : tio.c_iflag 4 ≡ false

-- Two words that agree off the bits 4, 5, 6, 8 and 9.
abbrev Agree : Word → Word → Type 0
Agree c c' = (c' 7 ≡ c 7) × (c' 11 ≡ c 11) × (c' 12 ≡ c 12) × (c' 31 ≡ c 31)

abbrev Sized : ℕ → Word → Type 0
Sized databits c = number (c 4) + 2 * number (c 5) + 5 ≡ databits

data_size-Sized :
    (databits : ℕ) (c : Word)
    → 5 ≤ databits
    → databits ≤ 8
    → Agree c (data_size databits c) × Sized databits (data_size databits c)
unfolding data_size
data_size-Sized databits c low high =
    go (databits == 5) (databits == 6) (databits == 7) (databits == 8) refl refl refl refl
  where
    cleared : Word
    cleared = clear_bit 4 (clear_bit 5 c)

    go :
        (t5 t6 t7 t8 : Bool)
        → (databits == 5) ≡ t5
        → (databits == 6) ≡ t6
        → (databits == 7) ≡ t7
        → (databits == 8) ≡ t8
        → let made : Word =
            if t5
            then cleared
            else if t6
            then set_bit 4 cleared
            else if t7
            then set_bit 5 cleared
            else if t8
            then set_bit 4 (set_bit 5 cleared)
            else cleared in
          Agree c made × Sized databits made
    go true t6 t7 t8 e5 e6 e7 e8 = ((refl, refl, refl, refl), ground arith)
    go false true t7 t8 e5 e6 e7 e8 = ((refl, refl, refl, refl), ground arith)
    go false false true t8 e5 e6 e7 e8 = ((refl, refl, refl, refl), ground arith)
    go false false false true e5 e6 e7 e8 = ((refl, refl, refl, refl), ground arith)
    go false false false false e5 e6 e7 e8 = absurd (ground arith)

-- The parity bits are those of the kind of parity, where there is one, and the size bits stay.
abbrev ParityMade : Word → Option Parity → Option (Word × Word) → Type 0
ParityMade c none none = Unit
ParityMade c none (some made) = ⊥
ParityMade c (some kind) none = ⊥
ParityMade c (some kind) (some (c', i)) =
    HasParity kind c' × Agree c c' × ((c' 4 ≡ c 4) × (c' 5 ≡ c 5))

parity_modes-ParityMade :
    (letter : ℕ) (c i : Word) → ParityMade c (parity_of letter) (parity_modes letter c i)
unfolding parity_modes
parity_modes-ParityMade letter c i =
    go ((letter == 110) || (letter == 78)) ((letter == 111) || (letter == 79))
      ((letter == 101) || (letter == 69)) ((letter == 115) || (letter == 83))
  where
    go :
        (n o e s : Bool)
        → ParityMade c
            (if n
              then some no_parity
              else if o
              then some odd_parity
              else if e
              then some even_parity
              else if s
              then some space_parity
              else none)
            (if n
              then some (clear_bit 8 c, clear_bit 4 i)
              else if o
              then some (set_bit 9 (set_bit 8 c), set_bit 4 i)
              else if e
              then some (clear_bit 9 (set_bit 8 c), set_bit 4 i)
              else if s
              then some (clear_bit 6 (clear_bit 8 c), i)
              else none)
    go true o e s = (refl, (refl, refl, refl, refl), (refl, refl))
    go false true e s = ((refl, refl), (refl, refl, refl, refl), (refl, refl))
    go false false true s = ((refl, refl), (refl, refl, refl, refl), (refl, refl))
    go false false false true = (refl, (refl, refl, refl, refl), (refl, refl))
    go false false false false = tt

-- The result of InitPort's settings: none where the parity or the stop bits are not supported.
abbrev pub Configured : ℕ → Option Parity → Option Bool → Option Termios → Type 0
Configured databits none two o = o ≡ none
Configured databits (some kind) none o = o ≡ none
Configured databits (some kind) (some two) o =
    (tio : Termios) × (o ≡ some tio) × IsSetUp databits kind two tio

abbrev Prepared : ℕ → Parity → Word → Type 0
Prepared databits kind c =
    HasParity kind c
    × Sized databits c
    × ((c 7 ≡ true) × (c 11 ≡ true) × (c 12 ≡ true) × (c 31 ≡ false))

-- Bit 6 does not count for the parity.
stop-HasParity :
    (kind : Parity) (c c' : Word) → c' 8 ≡ c 8 → c' 9 ≡ c 9 → HasParity kind c → HasParity kind c'
stop-HasParity no_parity c c' e8 e9 h = e8 ∙ h
stop-HasParity odd_parity c c' e8 e9 (h, h') = (e8 ∙ h, e9 ∙ h')
stop-HasParity even_parity c c' e8 e9 (h, h') = (e8 ∙ h, e9 ∙ h')
stop-HasParity space_parity c c' e8 e9 h = e8 ∙ h

stops-Configured :
    (databits stopsbits : ℕ) (kind : Parity) (tio : Termios) (c : Word)
    → Prepared databits kind c
    → Configured databits (some kind) (two_stops stopsbits) (raw_modes tio (stop_modes stopsbits c))
unfolding stop_modes
stops-Configured databits stopsbits kind tio c (parity, size, (e7, e11, e12, e31)) =
    go (stopsbits == 1) (stopsbits == 2)
  where
    made :
        (two : Bool) (c' : Word)
        → c' 4 ≡ c 4
        → c' 5 ≡ c 5
        → c' 7 ≡ true
        → c' 11 ≡ true
        → c' 12 ≡ true
        → c' 31 ≡ false
        → c' 8 ≡ c 8
        → c' 9 ≡ c 9
        → c' 6 ≡ two
        → Configured databits (some kind) (some two) (raw_modes tio (some c'))
    made two c' s4 s5 s7 s11 s12 s31 s8 s9 s6 = (
      _,
      refl,
      record {
        reads = (s7, s11, s31);
        size = rw (s4, s5) size;
        parity = stop-HasParity kind c c' s8 s9 parity;
        stops = s6;
        raw = (refl, (λ b. refl), refl, refl);
        speed_spoilt = s12;
        parity_unchecked = refl;
      },
    )

    go :
        (t1 t2 : Bool)
        → Configured databits
            (some kind)
            (if t1 then some false else if t2 then some true else none)
            (raw_modes tio
              (if t1 then some (clear_bit 6 c) else if t2 then some (set_bit 6 c) else none))
    go true t2 = made false (clear_bit 6 c) refl refl e7 e11 e12 e31 refl refl refl
    go false true = made true (set_bit 6 c) refl refl e7 e11 e12 e31 refl refl refl
    go false false = refl

-- For five to eight data bits, InitPort gives up on the settings exactly where the letter is none
-- of n, o, e and s in either case or the stop bits are not 1 or 2; else the settings let it read,
-- with the data bits, parity and stop bits asked for and the raw modes, with CBAUDEX on at any
-- speed, and with INPCK off at any parity.
pub configure-Configured :
    (letter databits stopsbits : ℕ) (tio : Termios)
    → 5 ≤ databits
    → databits ≤ 8
    → Configured databits
        (parity_of letter)
        (two_stops stopsbits)
        (configure letter databits stopsbits tio)
unfolding configure control_modes
configure-Configured letter databits stopsbits tio low high =
    go (parity_of letter) (parity_modes letter sized tio.c_iflag)
      (parity_modes-ParityMade letter sized tio.c_iflag)
  where
    begun : Word
    begun = control_modes tio.c_cflag

    sized : Word
    sized = data_size databits begun

    go :
        (kind : Option Parity) (made : Option (Word × Word))
        → ParityMade sized kind made
        → Configured databits kind (two_stops stopsbits) (after_parity stopsbits tio made)
    go none none h = refl
    go none (some (c, i)) h = absurd h
    go (some kind) none h = absurd h
    go (some kind) (some (c, i)) (parity, (e7, e11, e12, e31), (e4, e5)) =
        let ((s7, s11, s12, s31), size) = data_size-Sized databits begun low high in
        let size' : Sized databits c = rw (e4, e5) size in
        stops-Configured databits stopsbits kind tio c
          (parity, size', (e7 ∙ s7, e11 ∙ s11, e12 ∙ s12, e31 ∙ s31))
