-- ===== src/Register/M21x.antt =====
-- include/meter_registers.h, namespace M21X: the meter model with floats.
use smartmeter_gateway.Prelude.{ℕ, List, [], ◌∷◌}
use smartmeter_gateway.Register.{Register, register, float, uint16, uint32}

abbrev pub size : ℕ
size = 124

abbrev pub id : Register
id = register 40069 1 uint16

abbrev pub l : Register
l = register 40070 1 uint16

abbrev pub a : Register
a = register 40071 2 float

abbrev pub apha : Register
apha = register 40073 2 float

abbrev pub aphb : Register
aphb = register 40075 2 float

abbrev pub aphc : Register
aphc = register 40077 2 float

abbrev pub phv : Register
phv = register 40079 2 float

abbrev pub phvpha : Register
phvpha = register 40081 2 float

abbrev pub phvphb : Register
phvphb = register 40083 2 float

abbrev pub phvphc : Register
phvphc = register 40085 2 float

abbrev pub ppv : Register
ppv = register 40087 2 float

abbrev pub ppvphab : Register
ppvphab = register 40089 2 float

abbrev pub ppvphbc : Register
ppvphbc = register 40091 2 float

abbrev pub ppvphca : Register
ppvphca = register 40093 2 float

abbrev pub freq : Register
freq = register 40095 2 float

abbrev pub w : Register
w = register 40097 2 float

abbrev pub wpha : Register
wpha = register 40099 2 float

abbrev pub wphb : Register
wphb = register 40101 2 float

abbrev pub wphc : Register
wphc = register 40103 2 float

abbrev pub va : Register
va = register 40105 2 float

abbrev pub vapha : Register
vapha = register 40107 2 float

abbrev pub vaphb : Register
vaphb = register 40109 2 float

abbrev pub vaphc : Register
vaphc = register 40111 2 float

abbrev pub var : Register
var = register 40113 2 float

abbrev pub varpha : Register
varpha = register 40115 2 float

abbrev pub varphb : Register
varphb = register 40117 2 float

abbrev pub varphc : Register
varphc = register 40119 2 float

abbrev pub pf : Register
pf = register 40121 2 float

abbrev pub pfpha : Register
pfpha = register 40123 2 float

abbrev pub pfphb : Register
pfphb = register 40125 2 float

abbrev pub pfphc : Register
pfphc = register 40127 2 float

abbrev pub tot_wh_exp : Register
tot_wh_exp = register 40129 2 float

abbrev pub tot_wh_exppha : Register
tot_wh_exppha = register 40131 2 float

abbrev pub tot_wh_expphb : Register
tot_wh_expphb = register 40133 2 float

abbrev pub tot_wh_expphc : Register
tot_wh_expphc = register 40135 2 float

abbrev pub tot_wh_imp : Register
tot_wh_imp = register 40137 2 float

abbrev pub tot_wh_imppha : Register
tot_wh_imppha = register 40139 2 float

abbrev pub tot_wh_impphb : Register
tot_wh_impphb = register 40141 2 float

abbrev pub tot_wh_impphc : Register
tot_wh_impphc = register 40143 2 float

abbrev pub tot_vah_exp : Register
tot_vah_exp = register 40145 2 float

abbrev pub tot_vah_exppha : Register
tot_vah_exppha = register 40147 2 float

abbrev pub tot_vah_expphb : Register
tot_vah_expphb = register 40149 2 float

abbrev pub tot_vah_expphc : Register
tot_vah_expphc = register 40151 2 float

abbrev pub tot_vah_imp : Register
tot_vah_imp = register 40153 2 float

abbrev pub tot_vah_imppha : Register
tot_vah_imppha = register 40155 2 float

abbrev pub tot_vah_impphb : Register
tot_vah_impphb = register 40157 2 float

abbrev pub tot_vah_impphc : Register
tot_vah_impphc = register 40159 2 float

abbrev pub evt : Register
evt = register 40193 2 uint32

-- All registers of the namespace, in its order.
abbrev pub registers : List Register
registers =
    id ∷ l ∷ a ∷ apha ∷ aphb ∷ aphc ∷ phv ∷ phvpha ∷ phvphb ∷ phvphc ∷ ppv ∷ ppvphab ∷ ppvphbc
    ∷ ppvphca ∷ freq ∷ w ∷ wpha ∷ wphb ∷ wphc ∷ va ∷ vapha ∷ vaphb ∷ vaphc ∷ var ∷ varpha ∷ varphb
    ∷ varphc ∷ pf ∷ pfpha ∷ pfphb ∷ pfphc ∷ tot_wh_exp ∷ tot_wh_exppha ∷ tot_wh_expphb
    ∷ tot_wh_expphc ∷ tot_wh_imp ∷ tot_wh_imppha ∷ tot_wh_impphb ∷ tot_wh_impphc ∷ tot_vah_exp
    ∷ tot_vah_exppha ∷ tot_vah_expphb ∷ tot_vah_expphc ∷ tot_vah_imp ∷ tot_vah_imppha
    ∷ tot_vah_impphb ∷ tot_vah_impphc ∷ evt ∷ []
