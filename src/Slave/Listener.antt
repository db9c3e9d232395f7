-- ===== src/Slave/Listener.antt =====
-- `MeterSlave::startListener` and the constructor of src/meter_slave.cpp. What libmodbus and the
-- system answer is an argument; the endpoint only reaches libmodbus and the log.
use smartmeter_gateway.Prelude.{ℕ, ◌%◌, Bool, true, false, not, Option, none, some, if◌then◌else◌}
use smartmeter_gateway.Prelude.Int.{pos}
use smartmeter_gateway.ModbusError.{Errno, Result, ok, err, custom, from_errno, enomem}
use smartmeter_gateway.Real.{RealOps}
use smartmeter_gateway.Register.{with_offset}
use smartmeter_gateway.Register.Common
use smartmeter_gateway.Register.M20x
use smartmeter_gateway.Register.M21x
use smartmeter_gateway.Register.End
use smartmeter_gateway.Pack.{Mapping, write, integer, pack_to_modbus}
use smartmeter_gateway.Slave.{Slave, Filling, filled, fresh}

-- The rest of the object's state: `listenCtx_` is set or null, `serverSocket_` is none for -1.
pub record Server : Type 0 where
  pub slave : Slave
  pub listen_ctx : Bool
  pub server_socket : Option ℕ

-- `modbus_tcp_pi_listen` and `modbus_connect`: a socket (or 0), or -1 with `errno`.
pub data ListenResult : Type 0 where
  listening : ℕ → ListenResult
  refused : Errno → ListenResult

pub record Environment : Type 0 where
  pub allocated : Bool
  pub context_created : Bool
  pub listen_result : ListenResult

-- The header of the meter model and the end marker.
unfoldable pub fill_model : Bool → Mapping → Mapping
fill_model use_float m =
    if use_float
    then write (write (write m M21x.id.addr 213) M21x.l.addr M21x.size)
        (with_offset End.id (pos End.float_offset)).addr 0xFFFF
    else write (write (write m M20x.id.addr 203) M20x.l.addr M20x.size) End.id.addr 0xFFFF

module _ (ops : RealOps) where
  -- The static SunSpec registers, written into the mapping of the slave.
  unfoldable pub fill_static : Bool → ℕ → Filling → Filling
  fill_static use_float slave_id f =
      let g = filled (pack_to_modbus ops (some f.mapping) Common.sid (integer 0x53756e53)) f in
      let m = write (write g.mapping Common.id.addr 1) Common.l.addr Common.size in
      record g { mapping = fill_model use_float (write m Common.da.addr (slave_id % 65536)) }

  -- The part behind the static registers: context and listener.
  unfoldable pub listen : Bool → Environment → Server → Result (Unit {0}) × Server
  listen tcp env s =
      if not env.context_created
      then (err (custom enomem), record s { listen_ctx = false })
      else elim env.listen_result [
        | refused errno ↦ (err (from_errno errno), record s { listen_ctx = false })
        | listening rc ↦ (
          ok tt,
          record s { listen_ctx = true; server_socket = if tcp then some rc else s.server_socket },
        )
      ]

  abbrev pub with_static : ℕ → Server → Mapping → Server
  with_static slave_id s m =
      let f =
        fill_static s.slave.use_float_model slave_id
          (record { mapping = m; handler = s.slave.handler }) in
      record s { slave = record s.slave { regs = some f.mapping; handler = f.handler } }

  unfoldable pub start_listener : Bool → ℕ → Environment → Server → Result (Unit {0}) × Server
  unfolding listen
  start_listener tcp slave_id env s = elim s.slave.regs [
    | some m ↦ listen tcp env (with_static slave_id s m)
    | none ↦
        if env.allocated
        then listen tcp env (with_static slave_id s fresh)
        else (err (custom enomem), s)
  ]

  -- The constructor: on an error it releases what it holds and throws (`err`).
  unfoldable pub construct : Bool → ℕ → Environment → Server → Result (Unit {0}) × Server
  construct tcp slave_id env s =
      let (result, s') = start_listener tcp slave_id env s in
      elim result [
        | ok _ ↦ (ok tt, s')
        | err e ↦ (err e, record s' { listen_ctx = false; server_socket = none })
      ]
