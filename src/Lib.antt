-- ===== src/Lib.antt =====
-- The M2 cell controller: how its power is switched, watched and shut off, in src/LSST.
--
-- The parts, and the files that model them:
-- - Faultmgr: the fault manager, src/LSST/faultmgr. FaultBit and FaultStatusBits are the bitmaps of
--   FaultStatusBits.cpp, Masks its masks, BasicFaultMgr one record of faults, FaultMgr the manager
--   of the system. FaultMgr calls the model by the interface of SafeMode.
-- - Control: src/LSST/control. Defs and Ports are the enumerations and the two ports, Breakers and
--   PowerSubsystemConfig the first classes of PowerSubsystem.cpp, PowerSubsystem the class itself,
--   with the state machine of processDaq in its children PowerOn, PowerOff and Daq; PowerSystem is
--   the commands and the health of PowerSystem.cpp, on two subsystems that share a port, and
--   MotionEngine the timeout of the ILC communication.
-- - State: src/LSST/state. StateMap is the decision between two states, Model the model with the
--   effects of StateMap and State.
-- - System: the reads of the DAQ in PowerSystem.cpp, which call the model and the fault manager,
--   and `handle`, one function for every event that the threads and the clients bring.
-- - Net: src/LSST/control/NetCommand*.cpp and the servers of src/LSST/system. NetCommand is the
--   commands, NetCommandFactory their creation from messages, ControlServer what their threads do to
--   the system, as steps in any order; ComServer is the connections, which report their count to the
--   fault manager. The library of JSON is the parameter Json. ComConnection is the messages of a
--   connection: the loop that writes one and the read of a command.
-- - Util: src/LSST/util. EventThread is the queue and the loop of a thread, ThreadPool the pool and
--   the joiner; what a thread does between two waits is one step. CsvFile is the reader of CSV
--   files, on the bytes of the text, and NamedValue the values that a row of one sets, with the
--   conversions of the C library and the arithmetic of doubles as a parameter.
-- - Telemetry: the items of src/LSST/system/TelemetryItem*.h and TelemetryMap, with a library of JSON
--   as a parameter, and TelemetryCom: the bytes that a connection sends and reads, and in its child
--   Handlers the connections that the server keeps and removes. Compare is the comparison of items
--   and of maps of them.
-- - Config: src/LSST/system/Config.cpp, the configuration with the YAML library as a parameter.
-- - Simulator: src/LSST/simulator, SimPowerSubsystem.cpp with the supplies and SimCore.cpp, which
--   runs both behind the ports.
-- - Plant: the loop of src/LSST/control/FpgaIo.cpp, which closes the circle: the port that System
--   writes goes to the simulator, and what the supplies show comes back to the reads of the DAQ.
-- - Vis: the checks that were LabView programs, src/LSST/vis: the constants from the configuration in
--   LabViewVI.cpp, and in TangentLoadCell the check of the loads of TangentLoadCellFaultDetection.cpp,
--   with the arithmetic of doubles as a parameter.
-- An operation keeps the name of its function in the source, in lower case: setPowerOff is
-- set_power_off, _processPowerOn is process_power_on. An operation that changes an object takes
-- the record before it and returns the one after it, paired with its answer; the clock that it
-- reads is its first argument.
--
-- Numbers: a port and a bitmap are the number that the word holds, with the width written out;
-- times are nanoseconds, volts and amperes thousandths, and a factor such as 0.95 an exact
-- fraction. A handler reads the clock once, where the code may read it again a moment later. A
-- difference of times that would be negative is 0, which no test tells apart. Every function
-- is total. Only the loops of ComConnection count their turns: write_loop has one for each byte, which
-- is enough because each write takes at least one, and read_commands one for each command.
--
-- Code whose behaviour the language leaves undefined has a value of its own, from which nothing goes
-- on: `undefined` and `no_back` for the readers of TelemetryCom, `none` for `sweep`. An exception that
-- leaves a handler of a message is `none` of interpret_command, or `thrown` of a reader.
--
-- Not modelled: locks and waits, for which a run is any sequence of events or steps, each handled as a
-- whole; logs and the texts for the users; the hardware itself, for which the simulator stands; the
-- sockets, which are the bytes that they carry; the messages that welcome a client, the start of the
-- program and the mocks.
pub mod Prelude
pub mod Config
pub mod Faultmgr
pub mod Control
pub mod State
pub mod System
pub mod Net
pub mod Util
pub mod Telemetry
pub mod Simulator
pub mod Plant
pub mod Vis
