-- ===== src/Packet.antt =====
-- include/TelemetryPacket.h and include/Generals.h: the data of a packet, and the sizes and
-- positions of its parts. A byte is a number below 256. A `double` is its 64-bit pattern, and a
-- `std::string` the list of its bytes.
pub mod Crc
use counter_drone_server.Base.{
  ℕ, ◌+◌, ◌*◌, ◌-◌, ◌%◌, ◌^◌, ◌<◌, ◌==◌, List, [], ◌∷◌, All, length, if◌then◌else◌,
}

abbrev pub IsByte : ℕ → Type 0
IsByte b = b < 256

abbrev pub BytesArray : Type 0
BytesArray = List ℕ

-- `uint8_t`, `uint16_t` and `uint64_t` conversions
abbrev pub u8 : ℕ → ℕ
u8 n = n % 2 ^ 8

abbrev pub u16 : ℕ → ℕ
u16 n = n % 2 ^ 16

abbrev pub u64 : ℕ → ℕ
u64 n = n % 2 ^ 64

-- The greatest `int`.
abbrev pub int_max : ℕ
int_max = 2 ^ 31 - 1

-- `other n` is a value of the underlying type that no enumerator names.
pub data TypeMsg : Type 0 where
  unknow telemetry heart_beat command : TypeMsg
  other : ℕ → TypeMsg

-- `static_cast<TypeMsg>(byte)`
abbrev pub type_msg_of : ℕ → TypeMsg
type_msg_of b =
    if b == 0
    then unknow
    else if b == 1
    then telemetry
    else if b == 2
    then heart_beat
    else if b == 4
    then command
    else other b

-- `static_cast<uint8_t>(TypeMsg::TELEMETRY)`
abbrev pub telemetry_code : ℕ
telemetry_code = 1

pub record TelemetryData : Type 0 where
  pub drone_id : BytesArray
  pub latitude : ℕ
  pub longitude : ℕ
  pub altitude : ℕ
  pub speed : ℕ
  pub timestamp : ℕ

abbrev pub header_size_bytes : ℕ
header_size_bytes = 2

abbrev pub type_size_bytes : ℕ
type_size_bytes = 1

abbrev pub length_size_bytes : ℕ
length_size_bytes = 2

abbrev pub crc_size_bytes : ℕ
crc_size_bytes = 2

abbrev pub type_starting_idx : ℕ
type_starting_idx = header_size_bytes

abbrev pub length_starting_idx : ℕ
length_starting_idx = header_size_bytes + type_size_bytes

abbrev pub payload_starting_idx : ℕ
payload_starting_idx = header_size_bytes + type_size_bytes + length_size_bytes

-- HEADER_BYTES[0] and HEADER_BYTES[1]
abbrev pub header_byte_0 : ℕ
header_byte_0 = 0xAA

abbrev pub header_byte_1 : ℕ
header_byte_1 = 0x55

-- What a `TelemetryData` of the program can hold: an identifier whose length fits the length byte,
-- and numeric fields of 64 bits.
pub record IsEncodable (t : TelemetryData) : Type 0 where
  pub id_bytes : All IsByte t.drone_id
  pub id_short : length t.drone_id < 256
  pub latitude_fits : t.latitude < 2 ^ 64
  pub longitude_fits : t.longitude < 2 ^ 64
  pub altitude_fits : t.altitude < 2 ^ 64
  pub speed_fits : t.speed < 2 ^ 64
  pub timestamp_fits : t.timestamp < 2 ^ 64
