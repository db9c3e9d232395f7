-- ===== src/Slave/Tests.antt =====
-- Updates of a slave on concrete data, and the theorems at inputs that meet their hypotheses.
use smartmeter_gateway.Prelude.{
  ℕ, ◌≡◌, refl, inl, inr, true, false, [], ◌∷◌, none, some, arith, codes,
}
use smartmeter_gateway.Real.Whole.{whole}
use smartmeter_gateway.MeterTypes.{Phase, Values, Device}
use smartmeter_gateway.SignalHandler.{is_running}
use smartmeter_gateway.Slave.{Slave, fresh, update_values, update_device}
use smartmeter_gateway.Slave.Updates.{IsUpdated, update_values-IsUpdated}
use smartmeter_gateway.Slave.DeviceTexts.{update_device_long}
use smartmeter_gateway.Slave.Listener.{Server, Environment, listening, start_listener}
use smartmeter_gateway.Slave.Discovery.{
  IsDiscovered, values, device, apply_all, started-IsDiscovered,
}

abbrev phase : Phase ℕ
phase = record {
  ph_voltage = 230;
  pp_voltage = 400;
  current = 1;
  active_power = 200;
  reactive_power = 60;
  apparent_power = 210;
  power_factor = 1;
}

abbrev pub sample : Values ℕ
sample = record {
  time = 1;
  active_sensor_time = 2;
  active_energy_import = 22557;
  active_energy_export = 0;
  reactive_energy_import = 0;
  reactive_energy_export = 0;
  apparent_energy_import = 23744;
  apparent_energy_export = 0;
  ph_voltage = 230;
  pp_voltage = 400;
  current = 3;
  active_power = 600;
  reactive_power = 180;
  apparent_power = 630;
  power_factor = 1;
  frequency = 50;
  phase1 = phase;
  phase2 = phase;
  phase3 = phase;
}

abbrev pub meter : Device
meter = record {
  manufacturer = codes "EasyMeter";
  model = codes "DD3-BZ06-ETA-ODZ1";
  options = codes "1.0.0-3d376a0";
  serial_number = codes "1EBZ0100507409";
  fw_version = codes "107";
  status = codes "001C0104";
  phases = 3;
}

abbrev pub running_slave : Slave
running_slave = record {
  use_float_model = false;
  regs = some fresh;
  device_updated = false;
  handler = record { running = true; signal = 0 };
}

update_values-IsUpdated_example :
    IsUpdated whole sample running_slave fresh (update_values whole true sample running_slave)
unfolding is_running
update_values-IsUpdated_example = update_values-IsUpdated whole sample running_slave fresh refl refl

-- A firmware version of 17 characters.
abbrev long_version : Device
long_version = record meter { fw_version = codes "12345678901234567" }

update_device_long_example :
    is_running (update_device whole true long_version running_slave).handler ≡ false
update_device_long_example =
    update_device_long whole long_version running_slave fresh refl refl
      (inr (inr (inr (inl (omega arith)))))

abbrev pub stopped_server : Server
stopped_server = record {
  slave = record running_slave { regs = none };
  listen_ctx = false;
  server_socket = none;
}

abbrev pub good : Environment
good = record { allocated = true; context_created = true; listen_result = listening 5 }

started-IsDiscovered_example : IsDiscovered whole false (
    apply_all whole
      (device true meter ∷ values true sample ∷ values false sample ∷ [])
      (start_listener whole true 1 good stopped_server).1.slave)
unfolding start_listener
started-IsDiscovered_example =
    started-IsDiscovered whole true 1 good stopped_server
      (device true meter ∷ values true sample ∷ values false sample ∷ []) refl
