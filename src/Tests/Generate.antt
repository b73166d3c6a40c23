-- ===== src/Tests/Generate.antt =====
-- The simulator with a generator that counts.
use native.Mathlib.Nat.{mod-lt}
use counter_drone_server.Base.{ℕ, ◌+◌, ◌-◌, ◌%◌, ◌<◌, ◌≡◌, arith, [], some, false, ok, length}
use counter_drone_server.Packet.{TelemetryData}
use counter_drone_server.Processor.{exceeds, speed_limit}
use counter_drone_server.Simulator.Encode.{build_telemetry_packet}
use counter_drone_server.Simulator.Accept.{IsAcceptable}
use counter_drone_server.Simulator.Scenarios.{DroneDataSimulator, Sent}
use counter_drone_server.Simulator.Generate.{
  Surroundings, generate_valid_telemetry_data, process_loop,
}
use counter_drone_server.Simulator.Limits.{IsInt}
use counter_drone_server.Simulator.Generate.Rounds.{generated_lem, process_loop-Sent}

-- Draws go up by one each time; the clock stands at one second.
abbrev counting : Surroundings
counting = record {
  State = ℕ;
  uniform_int = λ low high s. (low + s % (high - low + 1), s + 1);
  uniform_real = λ low high s. (low, s + 1);
  milliseconds = λ s. (1000, s);
  uniform_int_bounds = λ low high s order.
      let inside : s % (high - low + 1) < high - low + 1 = mod-lt s (omega arith) in
      (omega arith, omega arith);
  uniform_real_bounds = λ low high s order. (omega arith, omega arith);
  milliseconds_fit = λ s. omega arith;
}

abbrev start : DroneDataSimulator
start = record {
  sent_valid_packets = [];
  fragmented_packets_count = 0;
  corrupted_packets_count = 0;
  garbage_sequences_count = 0;
  sent_packets_amount = 0;
  sends = [];
}

generated_lem_example :
    let t : TelemetryData = (generate_valid_telemetry_data counting 3).0 in
    IsAcceptable t
    × (length (build_telemetry_packet t) ≡ 53)
    × (exceeds t.speed speed_limit ≡ false)
generated_lem_example = generated_lem counting 3

process_loop-Sent_example :
    (t : DroneDataSimulator) × ((s : ℕ) × (process_loop counting (some 5) 3 (start, 0) ≡ ok (t, s))
      × Sent (some 5) start t
      × IsInt t)
process_loop-Sent_example =
    process_loop-Sent counting 5 3 start 0 (omega arith) (omega arith) (omega arith) (omega arith)
      (omega arith)
