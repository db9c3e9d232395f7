-- ===== src/Config/Serial.antt =====
-- src/config_yaml.cpp: the conversion helpers for serial lines, onto the constants and the control
-- flags of <termios.h>. A throw is none. A flag is a bit of its own, and the two bits of CSIZE are
-- none for CS5 and both for CS8, as on Linux.
use smartmeter_gateway.Prelude.{ℕ, Bool, true, false, Option, none, some, if◌then◌else◌}
use smartmeter_gateway.Prelude.Int.{ℤ, pos, eqb_ℤ}
use smartmeter_gateway.Config.{Parity, no_parity, even, odd}

-- `speed_t`; the other speeds have a number.
pub data Speed : Type 0 where
  b1200 b2400 b4800 b9600 b19200 b38400 b57600 b115200 b230400 b460800 : Speed
  other_speed : ℕ → Speed

pub data SizeFlag : Type 0 where
  cs5 cs6 cs7 cs8 : SizeFlag

-- The bits of `c_cflag` that the source names.
pub record ControlFlags : Type 0 where
  pub size_low : Bool
  pub size_high : Bool
  pub parenb : Bool
  pub parodd : Bool
  pub cstopb : Bool
  pub crtscts : Bool
  pub clocal : Bool
  pub cread : Bool

unfoldable pub parity_to_char : Parity → ℕ
parity_to_char even = b'E'
parity_to_char odd = b'O'
parity_to_char no_parity = b'N'

unfoldable pub baud_to_speed : ℤ → Option Speed
baud_to_speed baud =
    if eqb_ℤ baud (pos 1200)
    then some b1200
    else if eqb_ℤ baud (pos 2400)
    then some b2400
    else if eqb_ℤ baud (pos 4800)
    then some b4800
    else if eqb_ℤ baud (pos 9600)
    then some b9600
    else if eqb_ℤ baud (pos 19200)
    then some b19200
    else if eqb_ℤ baud (pos 38400)
    then some b38400
    else if eqb_ℤ baud (pos 57600)
    then some b57600
    else if eqb_ℤ baud (pos 115200)
    then some b115200
    else if eqb_ℤ baud (pos 230400)
    then some b230400
    else if eqb_ℤ baud (pos 460800)
    then some b460800
    else none

unfoldable pub data_bits_to_flag : ℤ → Option SizeFlag
data_bits_to_flag bits =
    if eqb_ℤ bits (pos 5)
    then some cs5
    else if eqb_ℤ bits (pos 6)
    then some cs6
    else if eqb_ℤ bits (pos 7)
    then some cs7
    else if eqb_ℤ bits (pos 8)
    then some cs8
    else none

unfoldable pub apply_parity : Parity → ControlFlags → ControlFlags
apply_parity no_parity f = record f { parenb = false }
apply_parity even f = record f { parenb = true; parodd = false }
apply_parity odd f = record f { parenb = true; parodd = true }
