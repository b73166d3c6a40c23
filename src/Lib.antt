-- ===== src/Lib.antt =====
-- CounterDroneServer, in src and include, receives telemetry of drones over TCP, finds the valid
-- packets in the byte stream and keeps a table of the drones. Four threads run until the flag
-- `g_keep_running_system` is cleared: the simulator sends packets, whole, fragmented, corrupted
-- and among noise; the sensor accepts connections and pushes each chunk that it receives on a
-- queue of bytes; the parser pops all chunks, finds the packets in them and pushes their telemetry
-- on a second queue; the processor pops that telemetry, updates the table and prints alerts.
--
-- The files, and the code that each is about:
-- - Packet.antt: include/TelemetryPacket.h and include/Generals.h, the telemetry, the message
--   types and the layout of a packet. Packet/Crc.antt: `calculate_crc16` of include/Generals.h,
--   bit by bit; Packet/Crc/Detect.antt is about the errors that it finds. Bits.antt and its
--   children hold what they need on bit operations.
-- - SharedQueue.antt: include/ThreadsSharedDataManager.h, each operation as a function of the
--   queue from the end of its wait on. SharedQueue/Threads.antt has the waits, as the steps that
--   one consumer of `pop_all`, the producers and the thread that calls `wake_up_all` take in any
--   order.
-- - Parser.antt: include/SensorDataParser.h and src/SensorDataParser.cpp. `Machine` is the class
--   without its byte buffer, `step` the body of the loop of `process_accumulated_data`, one
--   function for each state, and `process_loop` the batches that `pop_all` hands out.
--   Parser/Deserialize.antt is `deserialize_payload`. The other children are proofs: on single
--   rounds (Closed, Sync, Payload, Progress, Faults, Tallies), on the loop (Rounds, Stops, Chunks,
--   Frame, Partial) and on all batches (Stream, Valid, Sound, Stall, Bounded).
-- - Simulator/Encode.antt: `serialize_telemetry_data_to_bytes_sequence` and
--   `build_telemetry_packet` of src/DroneDataSimulator.cpp. Simulator/Scenarios.antt has the
--   rounds of its `process_loop` and `statistic_packet_corruption`, with the random draws as
--   inputs; Simulator/Generate.antt draws them, from a generator and a clock that are a parameter;
--   Counts, Limits, Wire and Flip are about them, and Conclusion compares what was sent with what
--   was received. Simulator/Traffic.antt describes what the simulator sends as segments, and
--   Simulator/Delivery.antt what the parser makes of them.
-- - Processor.antt: include/TelemetryDataProcessor.h and src/TelemetryDataProcessor.cpp. `round`
--   is the body of the loop of `process_loop`.
-- - Sensor.antt: include/DroneDataSensor.h and src/DroneDataSensor.cpp.
--   `init_tcp_communication_pipe` takes what the system calls return; `Step` has the rounds of
--   `process_loop` and of `listen_on_spesific_socket`.
-- - Main.antt: the numbers of the traffic conclusion that src/main.cpp prints.
-- - LockFree/Spsc.antt: `SPSCQueue` of include/LockFreeSharedDataManager.h, as the steps of its
--   producer and its consumer. Cells, Valid, Produce, Consume and Sound hold the invariant, Fifo
--   and Drain what follows from it. LockFree/Mpmc.antt: `MPMCQueue` of the same header, as the
--   steps of any number of threads. Valid is the invariant, Replace, Reserve, Change and Store how
--   single moves keep it, Sound, Advance, Steps and Runs that all steps do, and Exclusive, Full,
--   Takes and Delivered what follows from it.
-- - Base.antt and its children: names of the libraries, passed on, lists, tests and outcomes.
--   Tests.antt and the files named Tests: examples.
--
-- What stands for what. A byte is a number below 256, a `std::string` the list of its bytes, and a
-- `double` its pattern of 64 bits, which the code copies and compares with two constants. Memory
-- is little-endian, as on the machines that the program is built for. Undefined behaviour, here an
-- access outside of a view or a buffer, a random distribution with an empty range, or an overflow
-- in the computation of that range, is the outcome `fault`. The counters, of type int, are numbers
-- without a bound, and counting up is not a fault of the model: what is said of a counter is about
-- runs that do not overflow it, and what is exact about undefined behaviour assumes counters that
-- can be counted up and has their range in its conclusion. The range for the length of a sequence
-- is computed on int, where it is undefined if it overflows. The loop of
-- `process_accumulated_data` runs on fuel, four rounds for each byte of the buffer and four more:
-- each round that goes on consumes a byte or advances the state, of which there are four, and this
-- is proved to be enough. The loops over the batches and the rounds of the processor are by
-- recursion on the list of what the rounds meet: what the queue hands out, how the flag reads and
-- what the clock says.
--
-- What is not modelled: output to the console, socket options, the simulator's connection and
-- pauses and the threads and the table of src/main.cpp. No file of the program includes
-- include/LockFreeSharedDataManager.h, whose queues are modelled all the same; the order of memory
-- is taken as sequentially consistent there.
pub mod Base
pub mod Bits
pub mod Packet
pub mod SharedQueue
pub mod Parser
pub mod Simulator
pub mod Processor
pub mod Sensor
pub mod LockFree
pub mod Main
pub mod Tests
