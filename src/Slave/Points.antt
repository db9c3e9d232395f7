-- ===== src/Slave/Points.antt =====
-- What a client of the Modbus server finds in the two SunSpec meter models: the points with their
-- addresses, units and encodings, in the order of the addresses. The per-phase energies and the
-- event bits are no points here, since the gateway does not serve them.
pub mod Stored
use smartmeter_gateway.Prelude.{
  ℕ, ◌+◌, ◌%◌, ◌^◌, Bool, true, false, ◌||◌, ◌&&◌, List, [], ◌∷◌, ◌≡◌, All, leb, ltb, ◌==◌,
}
use smartmeter_gateway.Real.{RealOps}
use smartmeter_gateway.MeterTypes.{Values}
use smartmeter_gateway.Pack.{Mapping}
use smartmeter_gateway.Pack.Memory.{read}
use smartmeter_gateway.Pack.Integer.{value_of}

-- A 32-bit float, or an integer with the register of its scale factor and its number of decimals.
pub data Encoding : Type 0 where
  float32 : Encoding
  scaled_int16 scaled_uint32 : ℕ → ℕ → Encoding

module _ (ops : RealOps) where
  open ops use {Real, mul, literal, round, pow, to_signed, to_unsigned, float_abcd}

  pub record Point : Type 0 where
    pub address : ℕ
    pub quantity : Values Real → Real
    pub encoding : Encoding

  abbrev point : ℕ → (Values Real → Real) → Encoding → Point
  point a q e = record { address = a; quantity = q; encoding = e }

  -- kWh in Wh, and a factor in percent.
  abbrev thousandfold : Real → Real
  thousandfold x = mul x (literal 1000 0)

  abbrev hundredfold : Real → Real
  hundredfold x = mul x (literal 100 0)

  -- Model 213.
  abbrev pub float_points : List Point
  float_points =
      point 40071 (λ v. v.current) float32
      ∷ point 40073 (λ v. v.phase1.current) float32
      ∷ point 40075 (λ v. v.phase2.current) float32
      ∷ point 40077 (λ v. v.phase3.current) float32
      ∷ point 40079 (λ v. v.ph_voltage) float32
      ∷ point 40081 (λ v. v.phase1.ph_voltage) float32
      ∷ point 40083 (λ v. v.phase2.ph_voltage) float32
      ∷ point 40085 (λ v. v.phase3.ph_voltage) float32
      ∷ point 40087 (λ v. v.pp_voltage) float32
      ∷ point 40089 (λ v. v.phase1.pp_voltage) float32
      ∷ point 40091 (λ v. v.phase2.pp_voltage) float32
      ∷ point 40093 (λ v. v.phase3.pp_voltage) float32
      ∷ point 40095 (λ v. v.frequency) float32
      ∷ point 40097 (λ v. v.active_power) float32
      ∷ point 40099 (λ v. v.phase1.active_power) float32
      ∷ point 40101 (λ v. v.phase2.active_power) float32
      ∷ point 40103 (λ v. v.phase3.active_power) float32
      ∷ point 40105 (λ v. v.apparent_power) float32
      ∷ point 40107 (λ v. v.phase1.apparent_power) float32
      ∷ point 40109 (λ v. v.phase2.apparent_power) float32
      ∷ point 40111 (λ v. v.phase3.apparent_power) float32
      ∷ point 40113 (λ v. v.reactive_power) float32
      ∷ point 40115 (λ v. v.phase1.reactive_power) float32
      ∷ point 40117 (λ v. v.phase2.reactive_power) float32
      ∷ point 40119 (λ v. v.phase3.reactive_power) float32
      ∷ point 40121 (λ v. hundredfold v.power_factor) float32
      ∷ point 40123 (λ v. hundredfold v.phase1.power_factor) float32
      ∷ point 40125 (λ v. hundredfold v.phase2.power_factor) float32
      ∷ point 40127 (λ v. hundredfold v.phase3.power_factor) float32
      ∷ point 40129 (λ v. thousandfold v.active_energy_export) float32
      ∷ point 40137 (λ v. thousandfold v.active_energy_import) float32
      ∷ point 40145 (λ v. thousandfold v.apparent_energy_export) float32
      ∷ point 40153 (λ v. thousandfold v.apparent_energy_import) float32
      ∷ []

  -- Model 203.
  abbrev pub scaled_points : List Point
  scaled_points =
      point 40071 (λ v. v.current) (scaled_int16 40075 3)
      ∷ point 40072 (λ v. v.phase1.current) (scaled_int16 40075 3)
      ∷ point 40073 (λ v. v.phase2.current) (scaled_int16 40075 3)
      ∷ point 40074 (λ v. v.phase3.current) (scaled_int16 40075 3)
      ∷ point 40076 (λ v. v.ph_voltage) (scaled_int16 40084 1)
      ∷ point 40077 (λ v. v.phase1.ph_voltage) (scaled_int16 40084 1)
      ∷ point 40078 (λ v. v.phase2.ph_voltage) (scaled_int16 40084 1)
      ∷ point 40079 (λ v. v.phase3.ph_voltage) (scaled_int16 40084 1)
      ∷ point 40080 (λ v. v.pp_voltage) (scaled_int16 40084 1)
      ∷ point 40081 (λ v. v.phase1.pp_voltage) (scaled_int16 40084 1)
      ∷ point 40082 (λ v. v.phase2.pp_voltage) (scaled_int16 40084 1)
      ∷ point 40083 (λ v. v.phase3.pp_voltage) (scaled_int16 40084 1)
      ∷ point 40085 (λ v. v.frequency) (scaled_int16 40086 2)
      ∷ point 40087 (λ v. v.active_power) (scaled_int16 40091 0)
      ∷ point 40088 (λ v. v.phase1.active_power) (scaled_int16 40091 0)
      ∷ point 40089 (λ v. v.phase2.active_power) (scaled_int16 40091 0)
      ∷ point 40090 (λ v. v.phase3.active_power) (scaled_int16 40091 0)
      ∷ point 40092 (λ v. v.apparent_power) (scaled_int16 40096 0)
      ∷ point 40093 (λ v. v.phase1.apparent_power) (scaled_int16 40096 0)
      ∷ point 40094 (λ v. v.phase2.apparent_power) (scaled_int16 40096 0)
      ∷ point 40095 (λ v. v.phase3.apparent_power) (scaled_int16 40096 0)
      ∷ point 40097 (λ v. v.reactive_power) (scaled_int16 40101 0)
      ∷ point 40098 (λ v. v.phase1.reactive_power) (scaled_int16 40101 0)
      ∷ point 40099 (λ v. v.phase2.reactive_power) (scaled_int16 40101 0)
      ∷ point 40100 (λ v. v.phase3.reactive_power) (scaled_int16 40101 0)
      ∷ point 40102 (λ v. hundredfold v.power_factor) (scaled_int16 40106 2)
      ∷ point 40103 (λ v. hundredfold v.phase1.power_factor) (scaled_int16 40106 2)
      ∷ point 40104 (λ v. hundredfold v.phase2.power_factor) (scaled_int16 40106 2)
      ∷ point 40105 (λ v. hundredfold v.phase3.power_factor) (scaled_int16 40106 2)
      ∷ point 40107 (λ v. thousandfold v.active_energy_export) (scaled_uint32 40123 0)
      ∷ point 40115 (λ v. thousandfold v.active_energy_import) (scaled_uint32 40123 0)
      ∷ point 40124 (λ v. thousandfold v.apparent_energy_export) (scaled_uint32 40140 0)
      ∷ point 40132 (λ v. thousandfold v.apparent_energy_import) (scaled_uint32 40140 0)
      ∷ []

  abbrev pub points : Bool → List Point
  points true = float_points
  points false = scaled_points

  -- The integer that stands for a quantity with some decimals.
  abbrev decimal : Real → ℕ → Real
  decimal x d = round (mul x (pow (literal 10 0) d))

  abbrev pub HasWords : Mapping → ℕ → Real → Encoding → Type 0
  HasWords m a x float32 = read m a 2 ≡ (float_abcd x).0 ∷ (float_abcd x).1 ∷ []
  HasWords m a x (scaled_int16 sf d) = (m a ≡ to_signed 16 (decimal x d)) × ((m sf + d) % 65536 ≡ 0)
  HasWords m a x (scaled_uint32 sf d) =
      (value_of (read m a 2) ≡ to_unsigned 32 (decimal x d) % 2 ^ 32) × ((m sf + d) % 65536 ≡ 0)

  -- Every point of the model reads as its quantity.
  abbrev pub HoldsValues : Bool → Mapping → Values Real → Type 0
  HoldsValues use_float m v =
      All (λ p. HasWords m p.address (p.quantity v) p.encoding) (points use_float)

  -- A register belongs to a point, or is its scale factor.
  abbrev covers : ℕ → ℕ → Encoding → Bool
  covers a b float32 = leb a b && ltb b (a + 2)
  covers a b (scaled_int16 sf d) = b == a || b == sf
  covers a b (scaled_uint32 sf d) = (leb a b && ltb b (a + 2)) || b == sf

  abbrev pub is_covered : ℕ → List Point → Bool
  is_covered b [] = false
  is_covered b (p ∷ ps) = covers p.address b p.encoding || is_covered b ps

  abbrev pub is_served : Bool → ℕ → Bool
  is_served use_float b = is_covered b (points use_float)
