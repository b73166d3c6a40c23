-- ===== src/Main.antt =====
-- src/main.cpp: the numbers that the program prints when its threads have ended.
use counter_drone_server.Base.{ℕ, ◌+◌, length}
use counter_drone_server.Packet.{u64}
use counter_drone_server.Parser.{Machine}
use counter_drone_server.Simulator.Scenarios.{DroneDataSimulator}

-- The lines under `Sent` and `Received`, in their order.
pub record TrafficConclusion : Type 0 where
  pub packets_sent : ℕ
  pub fragmented : ℕ
  pub corrupted : ℕ
  pub garbage_sequences : ℕ
  pub valid_packets : ℕ
  pub crc_errors : ℕ
  pub malformed : ℕ
  pub telemetry_packets : ℕ
  pub heart_beat_packets : ℕ
  pub command_packets : ℕ

-- The first number is a sum on `size_t`.
unfoldable pub traffic_conclusion : DroneDataSimulator → Machine → TrafficConclusion
traffic_conclusion simulator parser = record {
  packets_sent = u64 (length simulator.sent_valid_packets + simulator.corrupted_packets_count);
  fragmented = simulator.fragmented_packets_count;
  corrupted = simulator.corrupted_packets_count;
  garbage_sequences = simulator.garbage_sequences_count;
  valid_packets = length parser.received_valid_packets;
  crc_errors = parser.crc_errors_count;
  malformed = parser.invalid_structure_count;
  telemetry_packets = parser.telemetry_pkt_count;
  heart_beat_packets = parser.heart_beat_pkt_count;
  command_packets = parser.cmd_pkt_count;
}
