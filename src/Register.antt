-- ===== src/Register.antt =====
-- include/register_base.h: a register definition. The constants of the SunSpec models are in the
-- children; `describe` and `typeToString` only serve messages and are left out.
pub mod Common
pub mod M20x
pub mod M21x
pub mod End
use smartmeter_gateway.Prelude.{ℕ, suc, ◌+◌, ◌-◌, ◌%◌}
use smartmeter_gateway.Prelude.Int.{ℤ, pos, negsuc}

-- `Register::Type`.
pub data RegType : Type 0 where
  uint16 int16 uint32 uint64 float string unknown : RegType

pub record Register : Type 0 where
  pub addr : ℕ
  pub nb : ℕ
  pub type : RegType

abbrev pub register : ℕ → ℕ → RegType → Register
register a n t = record { addr = a; nb = n; type = t }

-- `static_cast<uint16_t>(ADDR + offset)` for an offset of 16 bits.
unfoldable pub with_offset : Register → ℤ → Register
with_offset r (pos n) = record r { addr = (r.addr + n) % 65536 }
with_offset r (negsuc n) = record r { addr = (r.addr + 65536 - suc n) % 65536 }
