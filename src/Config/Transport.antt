-- ===== src/Config/Transport.antt =====
-- What the master's `tryConnect` does with a configuration that the parsers accept.
use smartmeter_gateway.Prelude.{ℕ, true, false, Option, none, some, ◌≡◌, refl, arith}
use smartmeter_gateway.Prelude.Int.{ℤ, pos, negsuc}
use smartmeter_gateway.Real.{RealOps}
use smartmeter_gateway.SignalHandler.{is_running}
use smartmeter_gateway.ModbusError.{ok}
use smartmeter_gateway.Config.{ModbusTcpClientConfig, ModbusRtuConfig, MeterMasterConfig}
use smartmeter_gateway.Config.Yaml.{YamlOps}
use smartmeter_gateway.Config.Parse.{parse_modbus_master, parse_rtu}
use smartmeter_gateway.Config.Valid.{OneOf, InRange, rtu-IsRtu}
use smartmeter_gateway.Config.Serial.{data_bits_to_flag}
use smartmeter_gateway.Master.Port.Line.{Termios, Libc, ready, line_settings}
use smartmeter_gateway.Master.Port.Line
use smartmeter_gateway.Master.Port.Settings.{
  IsLine, IsLibc, line_settings-IsLine, line_settings_thrown,
}
use smartmeter_gateway.Master.Port.{
  Meter, OpenResult, descriptor, succeeds, returned, thrown, undefined, try_connect, connect_port,
  open_configured, open_port, set_up, is_speed, is_data_bits, emit, notify, opened,
}

data_bits-InRange : (b : ℤ) → InRange (pos 5) (pos 8) b → is_data_bits b ≡ true
unfolding is_data_bits data_bits_to_flag
data_bits-InRange (pos n) h = ground arith
data_bits-InRange (negsuc n) h = absurd (omega (arith, h.0))

exclusive : {A B : Type 0} (a : Option A) (b : Option B) (t : A) → OneOf a b → a ≡ some t → b ≡ none
exclusive none b t h e = absurd cc
exclusive (some a) none t h e = refl
exclusive (some a) (some b) t h e = absurd cc

module _ (ops : RealOps) (yaml : YamlOps ops.Real) where
  no_rtu :
      (n : yaml.Node) (c : MeterMasterConfig ops.Real) (t : ModbusTcpClientConfig)
      → parse_modbus_master ops yaml n ≡ some c
      → c.tcp ≡ some t
      → c.rtu ≡ none
  unfolding parse_modbus_master
  no_rtu n c t h e = exclusive c.tcp c.rtu t (ground arith) e

  -- While the program runs and no port is open, a master section with a tcp transport that the
  -- parser accepts makes a connection attempt dereference an empty optional.
  pub try_connect_tcp :
      {R : Type 0} (n : yaml.Node) (c : MeterMasterConfig ops.Real) (t : ModbusTcpClientConfig)
      (a : OpenResult) (m : Meter R)
      → parse_modbus_master ops yaml n ≡ some c
      → c.tcp ≡ some t
      → is_running m.handler ≡ true
      → m.serial_port ≡ none
      → try_connect c.rtu a m ≡ undefined
  unfolding try_connect connect_port open_configured
  try_connect_tcp n c t a m h e run free = rw (run, free, no_rtu n c t h e)

  -- While the program runs and no port is open, with a serial section that the parser accepts, a
  -- port that opens and whose calls succeed, and a libc that sets the speeds as documented: if
  -- baudToSpeed knows the baud rate, a connection attempt succeeds, and the settings it makes of
  -- any settings of the port read back as the configured speed, data bits, parity and stop bits,
  -- with the receiver on, the modem control lines ignored and no flow control; if not, an
  -- exception leaves the attempt and the making of the settings.
  pub try_connect_speed :
      {R : Type 0} (libc : Libc) (n : yaml.Node) (c : ModbusRtuConfig) (fd : ℕ) (m : Meter R)
      (t : Termios)
      → IsLibc libc
      → parse_rtu ops yaml n ≡ some (some c)
      → is_running m.handler ≡ true
      → m.serial_port ≡ none
      → (is_speed c.baud ≡ true
          → ((m' : Meter R) × (try_connect (some c) (descriptor fd succeeds) m
                ≡ returned (ok tt) m'))
            × ((u : Termios) × (line_settings libc c t ≡ ready u) × IsLine c u))
        × (is_speed c.baud ≡ false
            → ((m' : Meter R) × (try_connect (some c) (descriptor fd succeeds) m ≡ thrown m'))
              × (line_settings libc c t ≡ Line.thrown))
  unfolding try_connect connect_port open_configured open_port set_up
  try_connect_speed libc n c fd m t documented h run free =
      let r = rtu-IsRtu ops yaml n c h in
      let bits = data_bits-InRange c.data_bits r.data_bits in
      let open_meter = record (emit (opened fd) m) { serial_port = some fd } in
      (
        λ s. (
          (notify true open_meter, rw (run, free, s, bits)),
          line_settings-IsLine libc documented c t r s bits,
        ),
        λ s. ((open_meter, rw (run, free, s)), line_settings_thrown libc c t s),
      )
