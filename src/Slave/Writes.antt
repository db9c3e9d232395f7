-- ===== src/Slave/Writes.antt =====
-- src/meter_slave.cpp, the values that `updateValues` writes, in its order.
use smartmeter_gateway.Prelude.{ℕ, List, [], ◌∷◌}
use smartmeter_gateway.Real.{RealOps}
use smartmeter_gateway.MeterTypes.{Values, Phase}
use smartmeter_gateway.Register.{Register}
use smartmeter_gateway.Register.M20x
use smartmeter_gateway.Register.M21x

module _ (ops : RealOps) where
  open ops use {Real, mul, literal}

  in_percent : Phase Real → Phase Real
  in_percent p = record p { power_factor = mul p.power_factor (literal 100 0) }

  -- kWh to Wh, and the power factor in percent.
  unfoldable pub sunspec_units : Values Real → Values Real
  unfolding in_percent
  sunspec_units v = record v {
    active_energy_import = mul v.active_energy_import (literal 1000 0);
    active_energy_export = mul v.active_energy_export (literal 1000 0);
    apparent_energy_import = mul v.apparent_energy_import (literal 1000 0);
    apparent_energy_export = mul v.apparent_energy_export (literal 1000 0);
    power_factor = mul v.power_factor (literal 100 0);
    phase1 = in_percent v.phase1;
    phase2 = in_percent v.phase2;
    phase3 = in_percent v.phase3;
  }

  -- A call `packToModbus<float>(newRegs, reg, value)`.
  pub record FloatWrite : Type 0 where
    pub reg : Register
    pub value : Real

  abbrev float_write : Register → Real → FloatWrite
  float_write r x = record { reg = r; value = x }

  -- A call `packToModbus(newRegs, reg, sf, value, decimals)`.
  pub record ScaledWrite : Type 0 where
    pub reg : Register
    pub sf : Register
    pub value : Real
    pub decimals : ℕ

  abbrev scaled_write : Register → Register → Real → ℕ → ScaledWrite
  scaled_write r s x d = record { reg = r; sf = s; value = x; decimals = d }

  unfoldable pub float_writes : Values Real → List FloatWrite
  float_writes v =
      float_write M21x.pf v.power_factor
      ∷ float_write M21x.pfpha v.phase1.power_factor
      ∷ float_write M21x.pfphb v.phase2.power_factor
      ∷ float_write M21x.pfphc v.phase3.power_factor
      ∷ float_write M21x.w v.active_power
      ∷ float_write M21x.wpha v.phase1.active_power
      ∷ float_write M21x.wphb v.phase2.active_power
      ∷ float_write M21x.wphc v.phase3.active_power
      ∷ float_write M21x.va v.apparent_power
      ∷ float_write M21x.vapha v.phase1.apparent_power
      ∷ float_write M21x.vaphb v.phase2.apparent_power
      ∷ float_write M21x.vaphc v.phase3.apparent_power
      ∷ float_write M21x.var v.reactive_power
      ∷ float_write M21x.varpha v.phase1.reactive_power
      ∷ float_write M21x.varphb v.phase2.reactive_power
      ∷ float_write M21x.varphc v.phase3.reactive_power
      ∷ float_write M21x.phv v.ph_voltage
      ∷ float_write M21x.phvpha v.phase1.ph_voltage
      ∷ float_write M21x.phvphb v.phase2.ph_voltage
      ∷ float_write M21x.phvphc v.phase3.ph_voltage
      ∷ float_write M21x.ppv v.pp_voltage
      ∷ float_write M21x.ppvphab v.phase1.pp_voltage
      ∷ float_write M21x.ppvphbc v.phase2.pp_voltage
      ∷ float_write M21x.ppvphca v.phase3.pp_voltage
      ∷ float_write M21x.a v.current
      ∷ float_write M21x.apha v.phase1.current
      ∷ float_write M21x.aphb v.phase2.current
      ∷ float_write M21x.aphc v.phase3.current
      ∷ float_write M21x.tot_wh_imp v.active_energy_import
      ∷ float_write M21x.tot_wh_exp v.active_energy_export
      ∷ float_write M21x.tot_vah_imp v.apparent_energy_import
      ∷ float_write M21x.tot_vah_exp v.apparent_energy_export
      ∷ float_write M21x.freq v.frequency
      ∷ []

  unfoldable pub scaled_writes : Values Real → List ScaledWrite
  scaled_writes v =
      scaled_write M20x.pf M20x.pf_sf v.power_factor 2
      ∷ scaled_write M20x.pfpha M20x.pf_sf v.phase1.power_factor 2
      ∷ scaled_write M20x.pfphb M20x.pf_sf v.phase2.power_factor 2
      ∷ scaled_write M20x.pfphc M20x.pf_sf v.phase3.power_factor 2
      ∷ scaled_write M20x.w M20x.w_sf v.active_power 0
      ∷ scaled_write M20x.wpha M20x.w_sf v.phase1.active_power 0
      ∷ scaled_write M20x.wphb M20x.w_sf v.phase2.active_power 0
      ∷ scaled_write M20x.wphc M20x.w_sf v.phase3.active_power 0
      ∷ scaled_write M20x.va M20x.va_sf v.apparent_power 0
      ∷ scaled_write M20x.vapha M20x.va_sf v.phase1.apparent_power 0
      ∷ scaled_write M20x.vaphb M20x.va_sf v.phase2.apparent_power 0
      ∷ scaled_write M20x.vaphc M20x.va_sf v.phase3.apparent_power 0
      ∷ scaled_write M20x.var M20x.var_sf v.reactive_power 0
      ∷ scaled_write M20x.varpha M20x.var_sf v.phase1.reactive_power 0
      ∷ scaled_write M20x.varphb M20x.var_sf v.phase2.reactive_power 0
      ∷ scaled_write M20x.varphc M20x.var_sf v.phase3.reactive_power 0
      ∷ scaled_write M20x.phv M20x.v_sf v.ph_voltage 1
      ∷ scaled_write M20x.phvpha M20x.v_sf v.phase1.ph_voltage 1
      ∷ scaled_write M20x.phvphb M20x.v_sf v.phase2.ph_voltage 1
      ∷ scaled_write M20x.phvphc M20x.v_sf v.phase3.ph_voltage 1
      ∷ scaled_write M20x.ppv M20x.v_sf v.pp_voltage 1
      ∷ scaled_write M20x.ppvphab M20x.v_sf v.phase1.pp_voltage 1
      ∷ scaled_write M20x.ppvphbc M20x.v_sf v.phase2.pp_voltage 1
      ∷ scaled_write M20x.ppvphca M20x.v_sf v.phase3.pp_voltage 1
      ∷ scaled_write M20x.a M20x.a_sf v.current 3
      ∷ scaled_write M20x.apha M20x.a_sf v.phase1.current 3
      ∷ scaled_write M20x.aphb M20x.a_sf v.phase2.current 3
      ∷ scaled_write M20x.aphc M20x.a_sf v.phase3.current 3
      ∷ scaled_write M20x.tot_wh_imp M20x.tot_wh_sf v.active_energy_import 0
      ∷ scaled_write M20x.tot_wh_exp M20x.tot_wh_sf v.active_energy_export 0
      ∷ scaled_write M20x.tot_vah_imp M20x.tot_vah_sf v.apparent_energy_import 0
      ∷ scaled_write M20x.tot_vah_exp M20x.tot_vah_sf v.apparent_energy_export 0
      ∷ scaled_write M20x.freq M20x.freq_sf v.frequency 2
      ∷ []
