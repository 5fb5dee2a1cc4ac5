-- ===== src/Lib.antt =====
-- DQCsim connects plugins in a pipeline that simulates a quantum accelerator: a frontend makes requests,
-- any number of operators may change them, and a backend carries them out. The host (a
-- `Simulation`) starts the plugins and calls the frontend, one RPC at a time. Between neighbouring
-- plugins runs the gatestream: pipelined requests with rising sequence numbers go downstream, and
-- completion numbers, measurements and time go back up. A plugin may wait for a completion number,
-- and an operator acknowledges a request of its upstream plugin only when the requests that it has
-- made for it downstream are completed.
--
-- The files and the code they model (paths from the root of the repository):
--   Common: the error kinds of rust/src/core/common/error.rs, methods on `&mut self` as functions from
--     a state to a result and a state (`M`), hash sets and maps as lists, and lemmas.
--   Types: rust/src/core/common/types (one child per file; Laws has what holds of it) and the log
--     levels of rust/src/core/common/log. A u64 counter wraps at 2 ^ 64; a cycle is an i64 that
--     panics where it overflows. Floats are bit patterns, and the predicates on them are arguments; Matrix/Strip
--     is strip_control. Arb has children for the text format: Scan reads it and Display writes it, Json
--     has the texts of JSON objects, and Command has the format of ArbCmd. Cbor/Canonical is the
--     canonical form, without the code that makes it.
--     There, and in Util and the configuration values, a text is a list of code points.
--   Util: the names, the lists and the parser of enumerations in rust/src/core/common/util.rs.
--   Protocol: the messages of rust/src/core/common/protocol.
--   Host: rust/src/core/host/plugin/mod.rs (Plugin, the trait as a record of its methods),
--     rust/src/core/host/configuration/simulator.rs (Configuration: the plugin list and the log levels; its
--     children EnvMod and Timeout are env_mod.rs and timeout.rs in the same folder, and Process is
--     plugin/process.rs there, with the path styles and stream capture modes), Reproduction is
--     rust/src/core/host/reproduction/mod.rs, with host_call.rs in its child Calls, Simulator
--     is Simulator::new of rust/src/core/host/simulator.rs, over Configuration and Simulation, and Simulation is
--     rust/src/core/host/simulation.rs (Accelerator for AcceleratorState, Simulation for the calls:
--     start_call, wait_call, send_call and recv_call are start, wait, send and recv of the
--     Accelerator trait, arb_name is arb, and New has Simulation::new).
--   Plugin: rust/src/core/plugin. Connection is connection.rs (its child Arrivals
--     says which messages the selections bring); State, Downstream, Api, Rpc,
--     Pipelined and Incoming are state.rs (the data, the messages from downstream, the calls of the
--     user code, the requests of the simulator, those of the upstream plugin, and the main loop); Definition
--     is definition.rs, its callbacks being arbitrary methods on the state.
--   Bindings: rust/src/bindings. Object, State, Interfaces and Calls are api_state.rs (the objects, the
--     table with its handles, the interfaces of an object, and the macros resolve!, take! and delete!);
--     Qbset, Mset, Queue, Handle and Arb are the files qbset.rs, meas.rs and mset.rs, cmd.rs and cq.rs,
--     handle.rs and error.rs, and arb.rs of external/common. Program has lists of such calls.
--   Tests: the properties at concrete inputs.
--
-- The crates that the code calls are arguments: the ipc_channel crate is the list of what the coming
-- calls of select() return and the list of how the coming calls of send() end, the rand_chacha crate
-- is a record of two functions, the serde crates that turn JSON into CBOR and back, the parser of floats
-- and the predicates on Unicode characters are functions, and the set-up of channels and of logging
-- is given by its results.
-- Paths are texts, and what the code asks of the file system is a record of functions.
-- The order in which a hash set is iterated is an argument too. A panic, a read that nothing will
-- answer and a loop without fuel are values of `Fault`.
--
-- Loops that wait for messages run on fuel: one more than the messages that are buffered or still
-- to be selected, since each round takes one (`receive_up_to`, `run_loop`, `recv_loop`), or one more
-- than the coming selections (`next_downstream_loop`), or than the gates in a queue
-- (`fabricate_missing`). The CBOR canonicalizer (Types.Cbor, the module cbor_canon of
-- rust/src/core/common/types/arb_data.rs) runs on one more than the bytes of its input.
--
-- Not modelled: log output, threads and processes, reading and writing files, the other wrappers of the
-- bindings, the command line, the rest of the numerical work on matrices, and how the host makes plugins from a configuration.
pub mod Common
pub mod Util
pub mod Bindings
pub mod Types
pub mod Protocol
pub mod Host
pub mod Plugin
pub mod Tests
