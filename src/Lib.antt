-- ===== src/Lib.antt =====
-- smartmeter-gateway: a development beside the C++ sources of a gateway that reads a smart meter over
-- a serial line, publishes its values over MQTT and serves them as SunSpec registers over Modbus.
--
-- The parts and their files:
--   ModbusError, SignalHandler: include/modbus_error.h and include/signal_handler.h, the error values,
--     their severity and the shutdown flag that all threads share.
--   Master.Telegram: `MeterMaster::readTelegram` of src/meter_master.cpp. The reads of the serial port
--     are a list of events, one for each round of the loop; a list that ends early is a read that
--     blocks. Chunks, Stored and Frame hold the proofs.
--   Lines: std::getline, std::remove, std::stoul and std::regex_search with the two patterns, as
--     src/meter_master.cpp uses them; a pattern is a list of pieces that are matched with backtracking.
--   Master.Readings, Master.Identity: `updateValuesAndJson` and `updateDeviceAndJson`: what they read
--     from a telegram, and the derived values. The variable that is not initialised starts from an
--     argument. Their children Print, Energy and Malformed hold the proofs.
--   Master.Port, Master.Loop: `tryConnect`, `handleResult`, `disconnect` and `runLoop`. The worker
--     thread is a step function on its stage and the object's fields; signals and the calls that set
--     the callbacks come in between, as events. Port.Line is what `tryConnect` makes of the settings of
--     the port; what libc does to them is a parameter. Settings, Descriptor, Kept, Reports, Shutdown,
--     Pass and Flag hold the proofs.
--   Config: include/config_yaml.h and src/config_yaml.cpp. Yaml is what the parsers use of
--     yaml-cpp, a parameter; Parse and Load are the parsers, where an exception is none. Serial are
--     the helpers for serial lines, onto the constants and flags of <termios.h>. Valid, Accepted
--     and Transport hold the proofs; Transport joins them with the master's `tryConnect`.
--   Mqtt: src/mqtt_client.cpp. `publish`, the callbacks and the stretches of `run` between two
--     points where another thread can act are functions on one state; a schedule is a list of
--     events, and a thread that waits for the mutex does nothing. Channel is the specification: a
--     bounded buffer for one topic, without maps, locks or other topics. Refinement, Outage,
--     Publish, Bounds, Delivery, Loss, Behind, Pending, Stops, Sound, Flush, Drained and Accepted
--     hold the proofs. SortedMap is `std::map` as this file uses it.
--   Register: include/register_base.h, common_registers.h and meter_registers.h.
--   Pack: include/modbus_utils.h. A mapping is a function from addresses to registers; the memory
--     layout of `packInteger` is that of little-endian hosts, for which the project is built.
--   Real: `double` with the operations that the code uses, a parameter of all that computes with it.
--   MeterTypes, Slave: include/meter_types.h and src/meter_slave.cpp: the start of the listener,
--     the constructor and the two updates. Writes lists the calls of `packToModbus` in their order,
--     Points is what a client finds in the meter models, address by address. Stores, Points.Stored,
--     Texts, Models, DeviceTexts, Updates, Chain and Discovery hold the proofs.
--   Slave.Session, Slave.Serial, Slave.Accept, Slave.Lifetime: `tcpClientWorker`, `rtuClientHandler`,
--     `tcpClientHandler` and the destructor. Each loop is structural recursion on its rounds, and a
--     round is what the calls in it answer; a list that ends early is a call that has not returned.
--     Slave.Clients puts the rounds of a client beside the updates.
--   Master.Json: the JSON trees of the values and the device data, with `roundTo` of
--     include/json_utils.h.
--   Mqtt.Lifetime: the calls of mosquitto in the constructor and the destructor of the MQTT client.
--   Privileges: include/privileges.h. The system calls and the databases of users and groups are a
--     parameter, what the manual pages say of them are hypotheses (Dropped and Permitted), and
--     Strtol is the C library's conversion.
--   StartUp: src/main.cpp up to its return: a list of acts says which part is started by which
--     process, and which is destroyed while the program runs or not. Privileged, Succeeds and Ordered
--     hold the proofs.
--   Gateway: the parts behind that, joined by the callbacks of src/main.cpp: the master hands each
--     telegram's values and device data to `publish` of the MQTT client and to `updateValues` and
--     `updateDevice` of the slave. A callback is a step of its own, which waits while the MQTT
--     worker holds its mutex; the shutdown flag is kept once and read by all three. Faithful,
--     Consistent, Delivered (with Stages, Halves and Served), Parts, Ending and Flushed hold the
--     proofs.
--   Logging: `setupLogging` of include/logger.h, the loggers that the parts look up, and the levels of
--     `MqttClient::onLog`. spdlog is a parameter, and its documentation a hypothesis in Levels.
--
-- A cast of a double outside the range of its integer type, which is undefined behaviour, is part of
-- the parameter `Real`, and whether `dump` of a JSON tree throws is an answer of the system. No
-- definition needs fuel except a client's walk over the model chain, which takes three rounds.
-- Not modelled: the text of log and error messages, libmodbus, mosquitto, spdlog, yaml-cpp, CLI11 and
-- the system calls (their results are arguments or parameters), nlohmann's text of a JSON tree (a
-- parameter), the setting of timeouts and debug flags, and waking a thread: a thread that waits may
-- test its condition at any time.
pub mod Prelude
pub mod Config
pub mod Lines
pub mod ModbusError
pub mod SignalHandler
pub mod Master
pub mod Privileges
pub mod SortedMap
pub mod Mqtt
pub mod Register
pub mod Real
pub mod Pack
pub mod MeterTypes
pub mod Slave
pub mod StartUp
pub mod Gateway
pub mod Logging
