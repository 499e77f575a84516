-- ===== src/Lib.antt =====
-- The VDI wrapper: a client of the SQL Server Virtual Device Interface that receives a backup
-- from the server in chunks and stores it through a sink.
--
-- The parts, and how they work together. `VdiClient` (src/vdi_client.cpp, include/vdi_client.h)
-- is the session object. `connect` makes a COM device set, `open_devices` waits for the server,
-- `process_commands` opens the devices and runs the command loop, and `close` releases the set.
-- For each command the loop calls GetCommand, dispatches it (src/vdi_protocol.cpp), writes the
-- data of a VDC_Write to the sink (include/sink.h, src/file_sink.cpp) and calls CompleteCommand;
-- on the way it counts in Metrics (src/metrics.cpp), takes a buffer from BufferPool
-- (src/buffer_pool.cpp) and gives it back, asks the fault injector (include/fault_injector.h),
-- and watches for a stall. src/main.cpp drives one session from the command line.
--
-- Which file models which part:
--   Protocol, Protocol/Codes, Protocol/Commands, Protocol/Dispatch: include/sqlvdi.h,
--     src/vdi_protocol.h, src/vdi_protocol.cpp
--   World: the interfaces of include/sqlvdi.h and the Windows API, as a parameter
--   BufferPool: src/buffer_pool.cpp; BufferPool/Discipline: callers that give back what they took
--   Faults: include/fault_injector.h, with and without FAULT_INJECTION_ENABLED
--   Sink, Sink/Files: include/sink.h, src/file_sink.cpp; Sink/Bytes, Sink/Paths, Sink/Integrity:
--     the bytes of the file; Sink/Log: the append-only log that a file sink stands for
--   Metrics, Metrics/Percentile: src/metrics.cpp, include/chunk_timing.h
--   Metrics/Threads: the same counters under several threads; Metrics/Percentile/Order,
--     Metrics/Report/Order: the percentiles and the report of a bag of timings
--   Errors/State, Errors/Messages: include/error_utils.h, src/error_utils.cpp; Errors/Decode: the
--     texts read back
--   Com: src/com_runtime.cpp
--   Timer: include/timer.h; Logging: include/logging.h
--   Metrics/Report, Metrics/Summary: to_json and print_summary of src/metrics.cpp;
--     Metrics/Reader: the numbers of the JSON text read back
--   Environment, Environment/Capture: include/environment.h, src/environment.cpp;
--     Environment/Strings, Environment/Stale: strings with and without a terminating NUL
--   Client, Client/Lifecycle, Client/Stall, Client/Chunk, Client/Loop, Client/Report:
--     src/vdi_client.cpp, one function for each method, and for process_commands one function for
--     each stage of the loop's body and for the report at its end
--   Client/Session: histories of calls of the public methods; Client/Session/Com: the COM runtime
--     over such a history
--   Client/Accounting: the metrics, the buffer pool and the reports against what was received
--   Client/FailFast, Client/Session/FailFast: what follows a failure; Client/Faulted: a session with
--     an injected fault
--   Client/Storing, Client/Order, Client/Backup, Client/Termination, Client/Devices, Client/Safety,
--     Client/Stall/Progress, Client/Stall/Limit: theorems about the loop
--   Client/Session/Verdict, Client/Session/Conclusion, Client/Session/Transitions: the state in which a
--     method leaves the session, by the last answer from the device set or a device
--   Client/Rules, Client/Calls, Client/Calls/Loop, Client/Session/Rules, Client/Session/Parts,
--   Client/Session/Histories:
--     the rules by which a property passes through the stages of the loop and through the methods
--   Client/Objects, Client/Session/Objects, Client/Session/Usage, Main/Usage: which calls the device
--     set and its devices admit, and when
--   Client/Handles, Sink/Handles: the file handle and the buffer of the sink
--   Main: src/main.cpp; Main/Start: its client up to the opened devices; Main/Rules: a property that
--     the methods keep is kept by main
--   Tests: concrete inputs, on which the theorems are evaluated
--
-- State. A class is a record with its fields; a method takes the record and returns the new one.
-- A client also carries `calls`, the list of the calls made to the outside, newest first. What is
-- outside (COM, the device set, the devices, the clock, the file API) is a `Platform`, a record
-- of functions from that list to an answer, so it may answer in any way over one run. A pointer
-- is an Option or a Bool; the bytes behind a pointer are a list; a uint64_t or DWORD is a ℕ, with
-- `% 2 ^ 64` or `% 2 ^ 32` where the code's operation can wrap. An HRESULT is its 32-bit pattern.
-- The build is the one for Windows.
--
-- Fuel. `run_loop` takes one unit for each round of `while (running)` over the devices, and ends
-- in `out_of_fuel` where the code would go on. The code has no bound of its own: the server ends
-- the loop. So fuel is an argument everywhere; it is enough when it exceeds the number of calls
-- of GetCommand after which the server reports the end (Client/Termination). The loops around
-- compare_exchange_weak take the number of spurious failures as an argument, and in Metrics/Threads,
-- where a run is an interleaving of the threads' accesses, an exchange may fail any number of times.
--
-- Not modelled: the log lines of the other files, of which only the report at the end of
-- process_commands is followed, the call of `_wsystem` as a step of main (Main.launch_sqlcmd and
-- Main.asks_user have it on its own: it touches neither the client nor the sink), the generated
-- header include/vdi_real.h, the identifiers of src/sqlvdi_guids.cpp, and the scripts. One thread
-- calls a client, as in src/main.cpp; the buffer pool and the atomic counters of the metrics are
-- modelled for any order of callers. What the code computes in floating point is a parameter: the
-- rank of a percentile and the texts of such numbers. So are the registry and the conversion to
-- UTF-8 in Environment/Capture. A command is the value that GetCommand has delivered: a server
-- that changes it while it is held, or in CompleteCommand, after which the code reads its size
-- once more, is left out.
pub mod Prelude
pub mod Protocol
pub mod World
pub mod BufferPool
pub mod Faults
pub mod Sink
pub mod Metrics
pub mod Errors
pub mod Com
pub mod Timer
pub mod Logging
pub mod Environment
pub mod Client
pub mod Main
pub mod Tests
