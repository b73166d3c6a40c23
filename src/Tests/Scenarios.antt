-- ===== src/Tests/Scenarios.antt =====
-- The simulator's scenarios on a short run.
use counter_drone_server.Base.{
  ◌<◌, drop, ◌≤◌, ◌≡◌, ◌↔◌, ◌⊎◌, ◌+◌, refl, arith, ℕ, [], ◌∷◌, ◌++◌, Option, none, some, fault,
  length, All, bit_xor, ◌^◌, List, ok,
}
use counter_drone_server.Packet.{TelemetryData, u64, int_max}
use counter_drone_server.Simulator.Encode.{build_telemetry_packet}
use counter_drone_server.Simulator.Scenarios.{
  DroneDataSimulator, Draws, statistic_packet_corruption, send_corrupted, send_sequence,
  send_scenario, Sent, nothing, next,
}
use counter_drone_server.Simulator.Counts.{sent_packets-IsCounted, at_most_one_too_many, OkAll}
use counter_drone_server.Simulator.Limits.{IsInt, send_scenario_faults}
use counter_drone_server.Main.{traffic_conclusion}
use counter_drone_server.Packet.Crc.{calculate_crc16}
use counter_drone_server.Parser.{Machine, SensorDataParser, new_parser, process_loop}
use counter_drone_server.Parser.Closed.{byte_at}
use counter_drone_server.Simulator.Traffic.{Segment, valid, spoilt, IsGood}
use counter_drone_server.Simulator.Conclusion.{sent_are_received}
use counter_drone_server.Parser.Chunks.{run}
use counter_drone_server.Parser.Frame.{rejected}
use counter_drone_server.Simulator.Decode.{length-serialize}
use counter_drone_server.Simulator.Accept.{id_length, length-build}
use counter_drone_server.Simulator.Flip.{corrupted_packet_rejected}
use counter_drone_server.Simulator.Wire.{IsTraffic, sent-IsTraffic}

abbrev drn : TelemetryData
drn = record {
  drone_id = 68 ∷ 82 ∷ [];
  latitude = 1;
  longitude = 2;
  altitude = 3;
  speed = 4;
  timestamp = 5;
}

abbrev start : DroneDataSimulator
start = record {
  sent_valid_packets = [];
  fragmented_packets_count = 0;
  corrupted_packets_count = 0;
  garbage_sequences_count = 0;
  sent_packets_amount = 0;
  sends = [];
}

-- Bit 3 of byte 8 is flipped, when the scenario is that.
abbrev draws : ℕ → Draws
draws scenario = record {
  scenario = scenario;
  telemetry = drn;
  garbage = 1 ∷ 2 ∷ 3 ∷ 4 ∷ 5 ∷ [];
  split_idx = 10;
  corruption = some (8, 3);
  sequence = drn ∷ drn ∷ drn ∷ [];
}

abbrev one_corrupted : DroneDataSimulator
one_corrupted = send_corrupted drn (some (8, 3)) start

-- A corrupted packet, then a sequence of three with a limit of three packets: four are sent.
abbrev four : DroneDataSimulator
four = send_sequence (drn ∷ drn ∷ drn ∷ []) one_corrupted

four_sent : Sent (some 3) start four
unfolding send_scenario
four_sent =
    next (draws 4) (next (draws 3) nothing refl (omega arith) (λ e. omega arith) refl) refl
      (omega arith) (λ e. omega arith) refl

sent_packets-IsCounted_example :
    four.sent_packets_amount ≡ length four.sent_valid_packets + four.corrupted_packets_count
sent_packets-IsCounted_example = sent_packets-IsCounted refl four_sent

at_most_one_too_many_example : 4 ≤ 3 + 1
at_most_one_too_many_example = at_most_one_too_many (omega arith) four_sent

abbrev no_limit : Option ℕ
no_limit = none

send_scenario_faults_example :
    ((send_scenario no_limit (draws 4) start ≡ fault) ↔ (
      ((draws 4).scenario ≡ 4)
      × ((no_limit ≡ none) ⊎ ((no_limit ≡ some int_max) × (start.sent_packets_amount ≡ 0)))))
    × OkAll IsInt (send_scenario no_limit (draws 4) start)
send_scenario_faults_example =
    send_scenario_faults no_limit (draws 4) start tt (omega arith) refl (λ four. tt)

abbrev waiting : Machine
waiting = (new_parser (record { shared_data = [] })).machine

corrupted_packet_rejected_example :
    let (corrupted, packet) =
      statistic_packet_corruption (build_telemetry_packet drn) (some (8, 3)) in
    run (packet ++ []) waiting ≡ run (drop 1 packet ++ []) (rejected (id_length drn + 41) waiting)
unfolding new_parser
corrupted_packet_rejected_example =
    corrupted_packet_rejected drn 8 3 [] waiting (omega arith, omega arith) (omega arith) inside
      (omega arith) refl
  where
    inside : 8 < length (build_telemetry_packet drn)
    inside = omega (arith, length-build drn, length-serialize drn)

abbrev flipped : Segment
flipped = spoilt drn 8 (bit_xor (byte_at (build_telemetry_packet drn) 8) (2 ^ 3))

abbrev four_segments : List Segment
four_segments = flipped ∷ valid drn ∷ valid drn ∷ valid drn ∷ []

sent-IsTraffic_example : IsTraffic four_segments start four
unfolding four_sent
sent-IsTraffic_example = sent-IsTraffic four_sent

four_segments-IsGood : All IsGood four_segments
unfolding build_telemetry_packet calculate_crc16
four_segments-IsGood = omega arith

sent_are_received_example :
    (q : SensorDataParser) × (process_loop
        (four.sends ∷ [])
        (new_parser (record { shared_data = [] }))
      ≡ ok q)
    × (q.machine.received_valid_packets ≡ four.sent_valid_packets)
    × (q.machine.crc_errors_count ≡ four.corrupted_packets_count)
    × ((traffic_conclusion four q.machine).packets_sent
        ≡ u64 (
            (traffic_conclusion four q.machine).valid_packets
            + (traffic_conclusion four q.machine).crc_errors))
unfolding build_telemetry_packet calculate_crc16 four_sent
sent_are_received_example =
    sent_are_received (record { shared_data = [] }) four_sent (four.sends ∷ [])
      (record { no_sends = refl; no_packets = refl; no_corrupted = refl }) four_segments-IsGood refl
