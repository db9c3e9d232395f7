-- ===== src/Master/Json.antt =====
-- The JSON trees that src/meter_master.cpp builds from the values and the device data, with
-- `roundTo` of include/json_utils.h. They are built as ordered objects in which no key comes twice,
-- so an assignment to a key appends it.
use smartmeter_gateway.Prelude.{ℕ, List, [], ◌∷◌, Bytes, codes}
use smartmeter_gateway.SortedMap.{insert}
use smartmeter_gateway.Real.{RealOps}
use smartmeter_gateway.MeterTypes.{Phase, Values, Device}

pub data Scalar (R : Type 0) : Type 0 where
  integer : ℕ → Scalar R
  real : R → Scalar R
  text : Bytes → Scalar R

-- The only nested value is an array of objects of scalars.
pub data Entry (R : Type 0) : Type 0 where
  scalar : Scalar R → Entry R
  array : List (List (Bytes × Scalar R)) → Entry R

abbrev pub Object : Type 0 → Type 0
Object R = List (Bytes × Entry R)

-- The assignment of an ordered object to `jsonDevice_`, which is a `nlohmann::json` and keeps its
-- entries in a `std::map`.
unfoldable pub to_map {ℓ} : {V : Type ℓ} → List (Bytes × V) → List (Bytes × V)
to_map [] = []
to_map ((key, v) ∷ o) = insert key v (to_map o)

module _ (ops : RealOps) where
  open ops use {Real}

  -- `JsonUtils::roundTo`.
  unfoldable pub round_to : Real → ℕ → Real
  round_to x decimals =
      let factor = ops.pow (ops.literal 10 0) decimals in
      ops.div (ops.round (ops.mul x factor)) factor

  abbrev pub rounded : Real → ℕ → Scalar Real
  rounded x decimals = real (round_to x decimals)

  unfoldable pub phase_json : ℕ → Phase Real → List (Bytes × Scalar Real)
  phase_json id p =
      (codes "id", integer id)
      ∷ (codes "power_active", rounded p.active_power 2)
      ∷ (codes "power_apparent", rounded p.apparent_power 2)
      ∷ (codes "power_reactive", rounded p.reactive_power 2)
      ∷ (codes "power_factor", rounded p.power_factor 2)
      ∷ (codes "voltage_ph", rounded p.ph_voltage 1)
      ∷ (codes "voltage_pp", rounded p.pp_voltage 1)
      ∷ (codes "current", rounded p.current 3)
      ∷ []

  unfoldable pub values_json : Values Real → Object Real
  values_json v =
      (codes "time", scalar (integer v.time))
      ∷ (codes "active_time", scalar (integer v.active_sensor_time))
      ∷ (codes "energy_active_import", scalar (rounded v.active_energy_import 3))
      ∷ (codes "energy_active_export", scalar (rounded v.active_energy_export 3))
      ∷ (codes "energy_apparent_import", scalar (rounded v.apparent_energy_import 3))
      ∷ (codes "energy_apparent_export", scalar (rounded v.apparent_energy_export 3))
      ∷ (codes "energy_reactive_import", scalar (rounded v.reactive_energy_import 3))
      ∷ (codes "energy_reactive_export", scalar (rounded v.reactive_energy_export 3))
      ∷ (codes "power_active", scalar (rounded v.active_power 2))
      ∷ (codes "power_apparent", scalar (rounded v.apparent_power 2))
      ∷ (codes "power_reactive", scalar (rounded v.reactive_power 2))
      ∷ (codes "power_factor", scalar (rounded v.power_factor 2))
      ∷ (codes "frequency", scalar (rounded v.frequency 2))
      ∷ (codes "voltage_ph", scalar (rounded v.ph_voltage 1))
      ∷ (codes "voltage_pp", scalar (rounded v.pp_voltage 1))
      ∷ (
        codes "phases",
        array (phase_json 1 v.phase1 ∷ phase_json 2 v.phase2 ∷ phase_json 3 v.phase3 ∷ []),
      )
      ∷ []

  unfoldable pub device_json : Device → Object Real
  device_json d =
      (codes "manufacturer", scalar (text d.manufacturer))
      ∷ (codes "model", scalar (text d.model))
      ∷ (codes "serial_number", scalar (text d.serial_number))
      ∷ (codes "firmware_version", scalar (text d.fw_version))
      ∷ (codes "options", scalar (text d.options))
      ∷ (codes "phases", scalar (integer d.phases))
      ∷ (codes "status", scalar (text d.status))
      ∷ []
