-- ===== src/ModbusError.antt =====
-- include/modbus_error.h: the error value of every fallible operation, and its severity. The
-- `message` field is left out: no code branches on it, it only reaches the log.
use smartmeter_gateway.Prelude.{ℕ}

-- The codes that the source names, and every other value of `errno`. On Linux EWOULDBLOCK is EAGAIN.
pub data Errno : Type 0 where
  einval enomem embmdata embxilfun embxiladd embxilval embxsfail embxgtar enxio eacces : Errno
  eperm enotdir eisdir enametoolong eloop emfile enfile enotty ebadf eagain eio ebusy : Errno
  eaddrinuse eintr etimedout enotconn eproto : Errno
  other : ℕ → Errno

pub data Severity : Type 0 where
  transient fatal shutdown : Severity

pub record ModbusError : Type 0 where
  pub code : Errno
  pub severity : Severity

unfoldable pub deduce_severity : Errno → Severity
deduce_severity einval = fatal
deduce_severity enomem = fatal
deduce_severity embmdata = fatal
deduce_severity embxilfun = fatal
deduce_severity embxiladd = fatal
deduce_severity embxilval = fatal
deduce_severity embxsfail = fatal
deduce_severity embxgtar = fatal
deduce_severity enxio = fatal
deduce_severity eacces = fatal
deduce_severity eperm = fatal
deduce_severity enotdir = fatal
deduce_severity eisdir = fatal
deduce_severity enametoolong = fatal
deduce_severity eloop = fatal
deduce_severity emfile = fatal
deduce_severity enfile = fatal
deduce_severity enotty = fatal
deduce_severity ebadf = fatal
deduce_severity eagain = fatal
deduce_severity eio = fatal
deduce_severity ebusy = fatal
deduce_severity eaddrinuse = fatal
deduce_severity eintr = shutdown
deduce_severity _ = transient

unfoldable pub custom : Errno → ModbusError
unfolding deduce_severity
custom c = record { code = c; severity = deduce_severity c }

-- The argument is the value of `errno` at the call.
unfoldable pub from_errno : Errno → ModbusError
unfolding deduce_severity
from_errno errno = record { code = errno; severity = deduce_severity errno }

-- `std::expected<T, ModbusError>`.
pub data Result {ℓ} (A : Type ℓ) : Type ℓ where
  ok : A → Result A
  err : ModbusError → Result A

-- `MeterTypes::ErrorAction`.
pub data ErrorAction : Type 0 where
  none_action reconnect stop : ErrorAction
