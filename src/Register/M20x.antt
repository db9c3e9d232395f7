-- ===== src/Register/M20x.antt =====
-- include/meter_registers.h, namespace M20X: the meter model with integers and scale factors.
use smartmeter_gateway.Prelude.{ℕ, List, [], ◌∷◌}
use smartmeter_gateway.Register.{Register, register, int16, uint16, uint32}

abbrev pub size : ℕ
size = 105

abbrev pub id : Register
id = register 40069 1 uint16

abbrev pub l : Register
l = register 40070 1 uint16

abbrev pub a : Register
a = register 40071 1 int16

abbrev pub apha : Register
apha = register 40072 1 int16

abbrev pub aphb : Register
aphb = register 40073 1 int16

abbrev pub aphc : Register
aphc = register 40074 1 int16

abbrev pub a_sf : Register
a_sf = register 40075 1 int16

abbrev pub phv : Register
phv = register 40076 1 int16

abbrev pub phvpha : Register
phvpha = register 40077 1 int16

abbrev pub phvphb : Register
phvphb = register 40078 1 int16

abbrev pub phvphc : Register
phvphc = register 40079 1 int16

abbrev pub ppv : Register
ppv = register 40080 1 int16

abbrev pub ppvphab : Register
ppvphab = register 40081 1 int16

abbrev pub ppvphbc : Register
ppvphbc = register 40082 1 int16

abbrev pub ppvphca : Register
ppvphca = register 40083 1 int16

abbrev pub v_sf : Register
v_sf = register 40084 1 int16

abbrev pub freq : Register
freq = register 40085 1 int16

abbrev pub freq_sf : Register
freq_sf = register 40086 1 int16

abbrev pub w : Register
w = register 40087 1 int16

abbrev pub wpha : Register
wpha = register 40088 1 int16

abbrev pub wphb : Register
wphb = register 40089 1 int16

abbrev pub wphc : Register
wphc = register 40090 1 int16

abbrev pub w_sf : Register
w_sf = register 40091 1 int16

abbrev pub va : Register
va = register 40092 1 int16

abbrev pub vapha : Register
vapha = register 40093 1 int16

abbrev pub vaphb : Register
vaphb = register 40094 1 int16

abbrev pub vaphc : Register
vaphc = register 40095 1 int16

abbrev pub va_sf : Register
va_sf = register 40096 1 int16

abbrev pub var : Register
var = register 40097 1 int16

abbrev pub varpha : Register
varpha = register 40098 1 int16

abbrev pub varphb : Register
varphb = register 40099 1 int16

abbrev pub varphc : Register
varphc = register 40100 1 int16

abbrev pub var_sf : Register
var_sf = register 40101 1 int16

abbrev pub pf : Register
pf = register 40102 1 int16

abbrev pub pfpha : Register
pfpha = register 40103 1 int16

abbrev pub pfphb : Register
pfphb = register 40104 1 int16

abbrev pub pfphc : Register
pfphc = register 40105 1 int16

abbrev pub pf_sf : Register
pf_sf = register 40106 1 int16

abbrev pub tot_wh_exp : Register
tot_wh_exp = register 40107 2 uint32

abbrev pub tot_wh_exppha : Register
tot_wh_exppha = register 40109 2 uint32

abbrev pub tot_wh_expphb : Register
tot_wh_expphb = register 40111 2 uint32

abbrev pub tot_wh_expphc : Register
tot_wh_expphc = register 40113 2 uint32

abbrev pub tot_wh_imp : Register
tot_wh_imp = register 40115 2 uint32

abbrev pub tot_wh_imppha : Register
tot_wh_imppha = register 40117 2 uint32

abbrev pub tot_wh_impphb : Register
tot_wh_impphb = register 40119 2 uint32

abbrev pub tot_wh_impphc : Register
tot_wh_impphc = register 40121 2 uint32

abbrev pub tot_wh_sf : Register
tot_wh_sf = register 40123 1 int16

abbrev pub tot_vah_exp : Register
tot_vah_exp = register 40124 2 uint32

abbrev pub tot_vah_exppha : Register
tot_vah_exppha = register 40126 2 uint32

abbrev pub tot_vah_expphb : Register
tot_vah_expphb = register 40128 2 uint32

abbrev pub tot_vah_expphc : Register
tot_vah_expphc = register 40130 2 uint32

abbrev pub tot_vah_imp : Register
tot_vah_imp = register 40132 2 uint32

abbrev pub tot_vah_imppha : Register
tot_vah_imppha = register 40134 2 uint32

abbrev pub tot_vah_impphb : Register
tot_vah_impphb = register 40136 2 uint32

abbrev pub tot_vah_impphc : Register
tot_vah_impphc = register 40138 2 uint32

abbrev pub tot_vah_sf : Register
tot_vah_sf = register 40140 1 int16

abbrev pub evt : Register
evt = register 40174 2 uint32

-- All registers of the namespace, in its order.
abbrev pub registers : List Register
registers =
    id ∷ l ∷ a ∷ apha ∷ aphb ∷ aphc ∷ a_sf ∷ phv ∷ phvpha ∷ phvphb ∷ phvphc ∷ ppv ∷ ppvphab
    ∷ ppvphbc ∷ ppvphca ∷ v_sf ∷ freq ∷ freq_sf ∷ w ∷ wpha ∷ wphb ∷ wphc ∷ w_sf ∷ va ∷ vapha ∷ vaphb
    ∷ vaphc ∷ va_sf ∷ var ∷ varpha ∷ varphb ∷ varphc ∷ var_sf ∷ pf ∷ pfpha ∷ pfphb ∷ pfphc ∷ pf_sf
    ∷ tot_wh_exp ∷ tot_wh_exppha ∷ tot_wh_expphb ∷ tot_wh_expphc ∷ tot_wh_imp ∷ tot_wh_imppha
    ∷ tot_wh_impphb ∷ tot_wh_impphc ∷ tot_wh_sf ∷ tot_vah_exp ∷ tot_vah_exppha ∷ tot_vah_expphb
    ∷ tot_vah_expphc ∷ tot_vah_imp ∷ tot_vah_imppha ∷ tot_vah_impphb ∷ tot_vah_impphc ∷ tot_vah_sf
    ∷ evt ∷ []
