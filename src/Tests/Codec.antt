-- ===== src/Tests/Codec.antt =====
-- The packet codec's theorems at small packets.
use counter_drone_server.Base.{◌≡◌, ◌≢◌, arith, [], ◌∷◌, ◌++◌, ok}
use counter_drone_server.Packet.{TelemetryData, IsEncodable}
use counter_drone_server.Packet.Crc.{calculate_crc16}
use counter_drone_server.Packet.Crc.Detect.{single_byte_error_changes_crc}
use counter_drone_server.Parser.Deserialize.{deserialize_payload}
use counter_drone_server.Simulator.Encode.{serialize_telemetry_data}
use counter_drone_server.Simulator.Decode.{deserialize-serialize}

abbrev near : TelemetryData
near = record {
  drone_id = 68 ∷ 82 ∷ 78 ∷ [];
  latitude = 0x4040000000000000;
  longitude = 0x4041800000000000;
  altitude = 0x4059000000000000;
  speed = 0x4034000000000000;
  timestamp = 1700000000000;
}

near-IsEncodable : IsEncodable near
near-IsEncodable = omega arith

deserialize-serialize_example :
    deserialize_payload (serialize_telemetry_data near ++ 1 ∷ 2 ∷ []) ≡ ok near
deserialize-serialize_example = deserialize-serialize near (1 ∷ 2 ∷ []) near-IsEncodable

single_byte_error_changes_crc_example :
    calculate_crc16 (0xAA ∷ 0x55 ∷ 1 ∷ []) ≢ calculate_crc16 (0xAA ∷ 0x54 ∷ 1 ∷ [])
single_byte_error_changes_crc_example =
    single_byte_error_changes_crc (0xAA ∷ []) (1 ∷ []) 0x55 0x54 (omega arith) (omega arith)
      (omega arith)
