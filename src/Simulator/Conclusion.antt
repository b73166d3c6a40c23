-- ===== src/Simulator/Conclusion.antt =====
-- The summary that the program prints in the end: what was sent against what was received.
use counter_drone_server.Base.{
  ℕ, ◌+◌, ◌≡◌, refl, sym, ap, ap₂, ◌∙◌, arith, List, [], ◌∷◌, ◌++◌, Option, ok, length, All,
}
use counter_drone_server.Packet.{BytesArray, TelemetryData, u64}
use counter_drone_server.SharedQueue.{SharedDataManager}
use counter_drone_server.Parser.{SensorDataParser, new_parser, process_loop}
use counter_drone_server.Main.{traffic_conclusion}
use counter_drone_server.Parser.Stream.{stream_of}
use counter_drone_server.Simulator.Encode.{build_telemetry_packet}
use counter_drone_server.Simulator.Accept.{packets}
use counter_drone_server.Simulator.Traffic.{Segment, valid, spoilt, noise, IsGood, wire}
use counter_drone_server.Simulator.Delivery.{sent_telemetry, traffic_delivered}
use counter_drone_server.Simulator.Scenarios.{DroneDataSimulator, Sent}
use counter_drone_server.Simulator.Wire.{flat, valid_packets, IsTraffic, history, sent-IsTraffic}

packets-sent_telemetry : (ss : List Segment) → packets (sent_telemetry ss) ≡ valid_packets ss
packets-sent_telemetry [] = refl
packets-sent_telemetry (valid t ∷ ss) =
    ap (λ (l : List BytesArray). build_telemetry_packet t ∷ l) (packets-sent_telemetry ss)
packets-sent_telemetry (spoilt t i y ∷ ss) = packets-sent_telemetry ss
packets-sent_telemetry (noise g ∷ ss) = packets-sent_telemetry ss

-- The simulator before its first packet.
pub record IsNew (s : DroneDataSimulator) : Type 0 where
  pub no_sends : s.sends ≡ []
  pub no_packets : s.sent_valid_packets ≡ []
  pub no_corrupted : s.corrupted_packets_count ≡ 0

-- The summary's two sides agree. When the bytes that a new simulator has sent, in any rounds, reach
-- a new parser, cut in any way, the parser's valid packets are those that the simulator kept as sent,
-- in order, and its checksum errors are as many as the simulator's corrupted packets; so the number
-- of packets sent that main prints is the sum of the valid packets and the checksum errors that it
-- prints. This is for rounds that draw good segments: identifiers of at most 39 bytes, noise without
-- the byte 0xAA, and corruption behind the length that leaves no 0xAA behind the first byte.
pub sent_are_received :
    {most : Option ℕ} {s t : DroneDataSimulator} (queue : SharedDataManager TelemetryData)
    (sent : Sent most s t) (batches : List (List BytesArray))
    → IsNew s
    → All IsGood (history sent)
    → stream_of batches ≡ flat t.sends
    → (q : SensorDataParser) × (process_loop batches (new_parser queue) ≡ ok q)
      × (q.machine.received_valid_packets ≡ t.sent_valid_packets)
      × (q.machine.crc_errors_count ≡ t.corrupted_packets_count)
      × ((traffic_conclusion t q.machine).packets_sent
          ≡ u64 (
              (traffic_conclusion t q.machine).valid_packets
              + (traffic_conclusion t q.machine).crc_errors))
unfolding new_parser traffic_conclusion
sent_are_received {s} {t} queue sent batches new good cut =
    let ss : List Segment = history sent in
    let traffic : IsTraffic ss s t = sent-IsTraffic sent in
    let cut_wire : stream_of batches ≡ wire ss =
      cut ∙ traffic.bytes ∙ ap (λ (l : List BytesArray). flat l ++ wire ss) new.no_sends in
    let (q, ran, left, d) =
      traffic_delivered ss (new_parser queue) good refl refl batches cut_wire in
    let kept : t.sent_valid_packets ≡ valid_packets ss =
      traffic.kept ∙ ap (λ (l : List BytesArray). l ++ valid_packets ss) new.no_packets in
    let received : q.machine.received_valid_packets ≡ t.sent_valid_packets =
      d.packets_received ∙ packets-sent_telemetry ss ∙ sym kept in
    let errors : q.machine.crc_errors_count ≡ t.corrupted_packets_count =
      omega (arith, d.crc_errors, traffic.spoiled, new.no_corrupted) in
    (
      q,
      ran,
      received,
      errors,
      ap₂ (λ (l : List BytesArray) (c : ℕ). u64 (length l + c)) (sym received) (sym errors),
    )
