-- ===== src/Register/Common.antt =====
-- include/common_registers.h, namespace C001: the SunSpec common model.
use smartmeter_gateway.Prelude.{ℕ, List, [], ◌∷◌}
use smartmeter_gateway.Register.{Register, register, string, uint16, uint32}

abbrev pub size : ℕ
size = 65

abbrev pub sid : Register
sid = register 40000 2 uint32

abbrev pub id : Register
id = register 40002 1 uint16

abbrev pub l : Register
l = register 40003 1 uint16

abbrev pub mn : Register
mn = register 40004 16 string

abbrev pub md : Register
md = register 40020 16 string

abbrev pub opt : Register
opt = register 40036 8 string

abbrev pub vr : Register
vr = register 40044 8 string

abbrev pub sn : Register
sn = register 40052 16 string

abbrev pub da : Register
da = register 40068 1 uint16

-- All registers of the namespace, in its order.
abbrev pub registers : List Register
registers = sid ∷ id ∷ l ∷ mn ∷ md ∷ opt ∷ vr ∷ sn ∷ da ∷ []
