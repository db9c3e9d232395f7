-- ===== src/Register/End.antt =====
-- include/meter_registers.h, namespace M_END: the end marker.
use smartmeter_gateway.Prelude.{ℕ}
use smartmeter_gateway.Register.{Register, register, uint16}

abbrev pub float_offset : ℕ
float_offset = 19

abbrev pub id : Register
id = register 40176 1 uint16

abbrev pub l : Register
l = register 40177 1 uint16
