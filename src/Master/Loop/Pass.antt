-- ===== src/Master/Loop/Pass.antt =====
-- One pass of `runLoop` of src/meter_master.cpp over an open port, stage by stage, where each
-- function succeeds.
use smartmeter_gateway.Prelude.{ℕ, ◌≢◌, true, List, [], ◌∷◌, ◌++◌, ◌≡◌, arith, some, Bytes, All}
use mathlib.Core.List.{flatten}
use smartmeter_gateway.Real.{RealOps}
use smartmeter_gateway.Config.{MeterMasterConfig}
use smartmeter_gateway.MeterTypes.{Values, Device}
use smartmeter_gateway.SignalHandler.{is_running}
use smartmeter_gateway.Master.Telegram.{read_telegram}
use smartmeter_gateway.Master.Telegram.Chunks.{polls_of}
use smartmeter_gateway.Master.Telegram.Frame.{IsFramed, read_loop-framed}
use smartmeter_gateway.Master.Readings.{values_of}
use smartmeter_gateway.Master.Identity.{device_of}
use smartmeter_gateway.Master.Port.{Meter, handle_result}
use smartmeter_gateway.Master.Loop.{
  Answer, reading, parsing_device, sending_device, parsing_values, sending_values, work_at,
  after_read, after_attempt, go_on, update_device_and_json, parse_device, store_device,
  update_values_and_json, parse_values, store_values,
}

-- The bytes of a telegram behind others, as non-empty reads.
pub record Arrives (t : Bytes) (cs : List Bytes) : Type 0 where
  pub junk : Bytes
  pub rest : Bytes
  pub no_slash : All (λ c. c ≢ b'/') junk
  pub framed : IsFramed t
  pub non_empty : All (λ c. c ≢ []) cs
  pub bytes : flatten cs ≡ junk ++ (t ++ rest)

module _ (ops : RealOps) (cfg : MeterMasterConfig ops.Real)
    (project_version commit_hash : Bytes) where
  pub work_at-reading :
      (a : Answer ops.Real) (m : Meter ops.Real) (fd : ℕ) (t : Bytes) (cs : List Bytes)
      → is_running m.handler ≡ true
      → m.serial_port ≡ some fd
      → a.polls ≡ polls_of cs
      → Arrives t cs
      → work_at ops cfg project_version commit_hash reading a m
        ≡ record { stage = parsing_device; meter = record m { telegram = t } }
  unfolding work_at read_telegram after_read go_on handle_result
  work_at-reading a m fd t cs run port polls arr = rw (
    run,
    port,
    polls,
    read_loop-framed arr.junk t arr.rest cs arr.no_slash arr.framed arr.non_empty arr.bytes,
  )

  pub work_at-parsing_device :
      (a : Answer ops.Real) (m : Meter ops.Real) (t : Bytes) (d : Device)
      → is_running m.handler ≡ true
      → m.telegram ≡ t
      → IsFramed t
      → device_of project_version commit_hash t ≡ some d
      → a.json_dumped ≡ true
      → work_at ops cfg project_version commit_hash parsing_device a m
        ≡ record { stage = sending_device; meter = record m { device = some d } }
  unfolding work_at after_attempt update_device_and_json parse_device store_device go_on
      handle_result
  work_at-parsing_device a m [] d run same f parsed dumped = absurd (omega (arith, f.long))
  work_at-parsing_device a m (c ∷ s) d run same f parsed dumped = rw (run, same, parsed, dumped)

  pub work_at-parsing_values :
      (a : Answer ops.Real) (m : Meter ops.Real) (t : Bytes) (v : Values ops.Real)
      → is_running m.handler ≡ true
      → m.telegram ≡ t
      → IsFramed t
      → values_of ops cfg.grid a.indeterminate a.now t ≡ some v
      → work_at ops cfg project_version commit_hash parsing_values a m
        ≡ record { stage = sending_values; meter = record m { values = some v } }
  unfolding work_at update_values_and_json parse_values store_values go_on handle_result
  work_at-parsing_values a m [] v run same f parsed = absurd (omega (arith, f.long))
  work_at-parsing_values a m (c ∷ s) v run same f parsed = rw (run, same, parsed)
