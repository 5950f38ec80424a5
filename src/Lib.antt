-- ===== src/Lib.antt =====
-- The operations manager of a programmable controller for technological processes.
--
-- A technological object has operations; an operation has states (idle, run, pause, stop and the
-- states on the way between them); a state has steps, of which one is active and some may be extra;
-- a step has fourteen actions, which switch devices. Once a cycle the controller evaluates the
-- current state of each operation: the step of the whole state, the extra steps, the active step
-- with its time, and the conditions that jump to another step. Commands pause, stop and start an
-- operation; a state that is left is finalized and one that is entered is initialized. Under the
-- operations are the devices, of which valves and counters are modelled by themselves, and beside them
-- are the errors, with the siren and the lights.
--
-- Files, and the code that they model:
--
-- - Plant: the virtual methods of the devices as a record of operations, over a state of all devices
--   (PAC/common/device/base.h), the times and parameters that a call reads, and the difference of
--   two times (PAC/linux/l_dtime.cpp). Plant.Switching: how devices answer to commands.
-- - Device: class device of PAC/common/device/base.cpp.
-- - Action: the classes from action to enable_step_by_signal of PAC/common/operation_mngr.cpp.
--   Base, Simple, Links, Wash, Seat and Jump have the actions by their kind, Dispatch the virtual
--   methods. Off, Turns and FirstMet have proofs.
-- - Step: class step of the same file.
-- - State: class operation_state. Defs has the fields and the moves between steps, Extra the extra
--   steps, Evaluate the round, Checks the checks. Activity, Tracked, Rounds and Limits have proofs.
-- - Operation: class operation. Mode has the states' numbers, Defs the commands, Steps what is passed
--   on to the current state. Machine, Clean, Quiet, Paused and Resume have proofs.
-- - Object: class tech_object of PAC/common/tech_def.cpp, the owner of the operations. Bits has the
--   words of its bits, Defs set_mode and what it calls, Auto the automatic changes of state at the end
--   of operation::evaluate, Evaluate the round. Marked, Calls, SetMode, Kept, Rounds,
--   Unchecked and Idle have proofs.
-- - Valve: class valve and the subclasses on discrete channels of PAC/common/device/valve.cpp (valve_DO1
--   is in device.cpp), over the channels of PAC/common/bus_coupler_io.cpp. Base has the methods of class
--   valve itself, Do1, Do2, Do1Di1Off, Do1Di1On, Do1Di2, Do2Di2, Bistable, MixProof, BottomMixProof and
--   MiniFlushing those of the subclasses, Virtual the choice by the class, State the codes of get_state,
--   Queue the valves that close with a delay. Kept, KeptState, Codes, InMode, Switched, Seats, Reached,
--   Rounds, Events, Apart, Delay and Dropped have proofs.
-- - AsValve: class valve_AS and its subclasses, over the data exchanged with the gateway, with a byte as
--   its bits. Methods has the methods, Nibbles and ReadBack have proofs. That the data is there, which
--   the writing methods do not ask, is taken for granted.
-- - Counter: class base_counter of PAC/common/device/device.cpp and class virtual_counter of
--   PAC/common/device/base.cpp. Quantity has the sums, State the states, the commands and the round,
--   Virtual the second class. Pulses has proofs.
-- - Manager: the table of devices of PAC/common/device/manager.cpp. Strings has strcmp, Search the binary
--   search. Filled and Found have proofs. The search runs on fuel, n rounds for less than 2 ^ n devices.
-- - Recipe: the recipes of PAC/common/params_recipe_manager.cpp. Values has the storage, Loading the
--   adapter and the loading into an object, Files the files as characters, Commands the commands of the
--   server. Kept, Loaded, Lists, Readable and Reread have proofs. Numbers are written and read by the standard
--   library, which is a parameter; an `int` there is a natural number.
-- - Params: the parameters kept over a restart. Memory has the memory ranges of
--   PAC/common/sys/base_mem.cpp, Store the manager of PAC/common/param_ex.cpp, Saved the arrays of words of
--   PAC/common/param_ex.h. Blocks, Restart and Sizes have proofs. A memory is a function from addresses to bytes
--   that gives what was written; the defaults of the other components are a function given with the call.
-- - Modbus: bits, numbers and texts in registers, of PAC/common/modbus_serv.cpp. Packing and Texts have
--   the functions, Packed and Reread have proofs. Buffers are functions to bytes, long enough.
-- - Coupler: the poll of the inputs of a Phoenix coupler, of PAC/common/uni_bus_coupler_io.cpp. Reading has
--   the request, the answer and the loop, Chunks, Ended and Polled have proofs. The exchange of bytes with the
--   coupler is a parameter; the do-while loop runs on fuel, a round for each 123 registers.
-- - Errors: the errors of devices and of technological objects, their manager, and the siren and the
--   lights, of common/PAC-driver/g_errors.cpp, in Alarm, Manager and Siren, and the critical errors of
--   the controller, of PAC/common/PAC_err.cpp, in Critical. Settled, Acknowledged, Flags, Sound and
--   Ledger have proofs.
-- - Common: what the others share. Tests: the theorems at concrete inputs.
--
-- A method that changes an object is a function from the object and the state of all devices to both.
-- A device is a number, and the values of its channels, which are C++ floats, are an abstract type,
-- with the tests and conversions that the code makes as operations of Plant. The time of the call and
-- the parameters are those of Env. An `int` that the code uses as a number of a step from 1 is a
-- natural number, with -1 for "none" as `none` where it is a field, and the integers elsewhere. Times
-- are unsigned words of 32 bits, as on the controllers, and their sums wrap. The loop over the extra
-- steps of a state, whose list loses elements on the way, runs for as many rounds as the list has
-- elements at its start: the position grows each round and the list does not, so it ends by then. The
-- other loops are by recursion on a list or on a count.
--
-- A call back to the owner at the end of an evaluation, off_mode, is handed to the caller as a
-- Request, which Object.Defs carries out. The methods of an object that Lua implements are a record
-- of functions (Object.Defs.Hooks): they answer and change the devices, and that they command
-- operations in turn is left out, as are the messages of the checks in Lua. A word of bits is the
-- list of its 32 bits. The clock stands still within one call. Texts of messages, names and printing
-- are not modelled, and neither is the memory of objects. The siren is told of the critical errors
-- with the call. A valve is a record of its own, with its outputs as a function from channels to
-- what is written there. A valve that the program has opened closes with a delay, so
-- Plant.Switching, where off takes effect at once, describes the other devices. The parameters of a
-- valve are whole numbers of milliseconds, which the comparisons with a float read alike. The readings
-- of a counter are whole numbers below 2 ^ 23, and its sums whole numbers that a float has, with the
-- rounding of each addition written out (Counter.Quantity.add_float). The valves
-- on IO-Link, the other devices by type, the bus couplers but for the discrete channels and the inputs
-- of a Phoenix coupler, the regulators, the CIP module and the drivers are outside of the model.
pub mod Common
pub mod Plant
pub mod Device
pub mod Action
pub mod Step
pub mod State
pub mod Operation
pub mod Object
pub mod Errors
pub mod Valve
pub mod AsValve
pub mod Counter
pub mod Manager
pub mod Recipe
pub mod Params
pub mod Modbus
pub mod Coupler
pub mod Tests
