-- ===== src/Tests/Traffic.antt =====
-- The parser and the simulator's packets, at small streams.
use counter_drone_server.Base.{◌≡◌, refl, arith, List, [], ◌∷◌, ◌++◌, ok, All, take, drop}
use counter_drone_server.Packet.{BytesArray, TelemetryData, IsEncodable}
use counter_drone_server.Packet.Crc.{calculate_crc16}
use counter_drone_server.SharedQueue.{SharedDataManager}
use counter_drone_server.Parser.{SensorDataParser, new_parser, process_loop}
use counter_drone_server.Simulator.Encode.{build_telemetry_packet}
use counter_drone_server.Simulator.Traffic.{Segment, valid, spoilt, noise, IsGood, wire}
use counter_drone_server.Simulator.Delivery.{Delivers, traffic_delivered}

abbrev drn : TelemetryData
drn = record {
  drone_id = 68 ∷ 82 ∷ [];
  latitude = 1;
  longitude = 2;
  altitude = 3;
  speed = 4;
  timestamp = 5;
}

drn-IsEncodable : IsEncodable drn
drn-IsEncodable = omega arith

abbrev no_packets : SharedDataManager TelemetryData
no_packets = record { shared_data = [] }

abbrev fresh : SensorDataParser
fresh = new_parser no_packets

-- A packet, some noise, a packet whose latitude is spoilt, and another packet.
abbrev mixed : List Segment
mixed = valid drn ∷ noise (1 ∷ 0x55 ∷ 2 ∷ []) ∷ spoilt drn 8 7 ∷ valid drn ∷ []

mixed-IsGood : All IsGood mixed
unfolding build_telemetry_packet calculate_crc16
mixed-IsGood = omega arith

abbrev mixed_wire : BytesArray
mixed_wire = wire mixed

-- The first 20 bytes, then two chunks at once.
abbrev cut : List (List BytesArray)
cut = (take 20 mixed_wire ∷ []) ∷ (take 50 (drop 20 mixed_wire) ∷ drop 70 mixed_wire ∷ []) ∷ []

cut-wire :
    take 20 mixed_wire ++ [] ++ (take 50 (drop 20 mixed_wire) ++ drop 70 mixed_wire ++ [])
    ≡ mixed_wire
unfolding build_telemetry_packet calculate_crc16
cut-wire = refl

traffic_delivered_example :
    (q : SensorDataParser) × (process_loop cut fresh ≡ ok q)
    × (q.accumulated_data ≡ [])
    × Delivers mixed fresh.machine q.machine
unfolding new_parser build_telemetry_packet calculate_crc16
traffic_delivered_example = traffic_delivered mixed fresh mixed-IsGood refl refl cut refl
