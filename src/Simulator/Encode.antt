-- ===== src/Simulator/Encode.antt =====
-- `serialize_telemetry_data_to_bytes_sequence` and `build_telemetry_packet`. In memory a value of
-- eight bytes stands with its lowest byte first, as on the x86-64 and ARM machines that the
-- program is built for.
use counter_drone_server.Base.{ℕ, zero, suc, ◌/◌, ◌^◌, [], ◌∷◌, ◌++◌, length, bit_and}
use counter_drone_server.Packet.{
  BytesArray, TelemetryData, u8, u16, telemetry_code, header_byte_0, header_byte_1,
}
use counter_drone_server.Packet.Crc.{calculate_crc16}

-- The bytes of a value of `n` bytes in memory.
unfoldable pub to_memory : ℕ → ℕ → BytesArray
to_memory zero val = []
to_memory (suc n) val = u8 val ∷ to_memory n (val / 2 ^ 8)

-- The lambda `append_numeric_data`, at a type of eight bytes.
abbrev pub append_numeric_data : BytesArray → ℕ → BytesArray
append_numeric_data payload val = payload ++ to_memory 8 val

unfoldable pub serialize_telemetry_data : TelemetryData → BytesArray
unfolding to_memory
serialize_telemetry_data t =
    let with_id = u8 (length t.drone_id) ∷ t.drone_id in
    let with_lat = append_numeric_data with_id t.latitude in
    let with_lon = append_numeric_data with_lat t.longitude in
    let with_alt = append_numeric_data with_lon t.altitude in
    let with_spd = append_numeric_data with_alt t.speed in append_numeric_data with_spd t.timestamp

-- `(n >> 8) & 0xFF` and `n & 0xFF`
abbrev pub high_byte : ℕ → ℕ
high_byte n = u8 (bit_and (n / 2 ^ 8) 0xFF)

abbrev pub low_byte : ℕ → ℕ
low_byte n = u8 (bit_and n 0xFF)

-- The header, the type, the length and the payload.
unfoldable pub packet_without_crc : BytesArray → BytesArray
packet_without_crc payload =
    let payload_size = u16 (length payload) in
    header_byte_0
    ∷ header_byte_1
    ∷ telemetry_code
    ∷ high_byte payload_size
    ∷ low_byte payload_size
    ∷ payload

unfoldable pub build_telemetry_packet : TelemetryData → BytesArray
unfolding serialize_telemetry_data packet_without_crc
build_telemetry_packet t =
    let packet = packet_without_crc (serialize_telemetry_data t) in
    let crc = calculate_crc16 packet in packet ++ high_byte crc ∷ low_byte crc ∷ []
