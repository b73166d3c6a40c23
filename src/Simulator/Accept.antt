-- ===== src/Simulator/Accept.antt =====
-- The parser on packets that `build_telemetry_packet` built.
use counter_drone_server.Base.{
  ℕ, suc, ◌+◌, ◌-◌, ◌≤◌, ◌≡◌, refl, sym, ap, ap₂, ◌∙◌, arith, List, [], ◌∷◌, ◌++◌, length, take,
  drop, get_or, All, length-append, append_assoc, take-length, drop-length,
}
use counter_drone_server.Packet.{
  BytesArray, TelemetryData, IsEncodable, u16, header_byte_0, header_byte_1, telemetry_code,
}
use counter_drone_server.Packet.Crc.{calculate_crc16}
use counter_drone_server.Packet.Crc.Detect.{calculate_crc16-lt}
use counter_drone_server.Parser.{big_endian, Machine, wait_for_sync}
use counter_drone_server.Parser.Deserialize.{View}
use counter_drone_server.Parser.Closed.{byte_at, carried_crc}
use counter_drone_server.Parser.Chunks.{run}
use counter_drone_server.Parser.Stream.{bytes_of}
use counter_drone_server.Parser.Frame.{accepted, run-accepted}
use counter_drone_server.Simulator.Encode.{
  serialize_telemetry_data, packet_without_crc, build_telemetry_packet, high_byte, low_byte,
}
use counter_drone_server.Simulator.Decode.{
  big_endian_bytes, deserialize-serialize, length-serialize,
}

get_or-length : (xs ys : BytesArray) (k : ℕ) → get_or (xs ++ ys) (length xs + k) 0 ≡ get_or ys k 0
get_or-length [] ys k = let e : 0 + k ≡ k = omega arith in ap (λ i. get_or ys i 0) e
get_or-length (x ∷ xs) ys k =
    let e : suc (length xs) + k ≡ suc (length xs + k) = omega arith in
    ap (λ i. get_or (x ∷ xs ++ ys) i 0) e ∙ get_or-length xs ys k

-- A packet around any payload, and what follows it.
module _ (payload rest : BytesArray) where
  abbrev pub body_crc : ℕ
  body_crc = calculate_crc16 (packet_without_crc payload)

  abbrev pub behind_payload : BytesArray
  behind_payload = high_byte body_crc ∷ low_byte body_crc ∷ rest

  abbrev n : ℕ
  n = length payload

  abbrev packet_frame : View
  packet_frame =
      header_byte_0
      ∷ header_byte_1
      ∷ telemetry_code
      ∷ high_byte (u16 n)
      ∷ low_byte (u16 n)
      ∷ (payload ++ behind_payload)

  pub take_body : take (n + 5) packet_frame ≡ packet_without_crc payload
  unfolding packet_without_crc
  take_body = take-length (n + 5) (packet_without_crc payload) behind_payload (omega arith)

  byte_behind : (i k : ℕ) → i ≡ n + 5 + k → byte_at packet_frame i ≡ get_or behind_payload k 0
  unfolding packet_without_crc
  byte_behind i k e =
      let body : BytesArray = packet_without_crc payload in
      let e' : i ≡ length body + k = omega arith in
      ap (λ j. byte_at packet_frame j) e' ∙ get_or-length body behind_payload k

  pub carried_body : carried_crc packet_frame (n + 7) ≡ body_crc
  carried_body =
      ap₂ big_endian (byte_behind (n + 7 - 2) 0 (omega arith))
        (byte_behind (n + 7 - 1) 1 (omega arith))
      ∙ big_endian_bytes body_crc (calculate_crc16-lt (packet_without_crc payload))

-- The members after the packets of some telemetry have been accepted one by one.
abbrev pub id_length : TelemetryData → ℕ
id_length t = length t.drone_id

-- Telemetry that the program can hold, with an identifier short enough for the parser's limit.
abbrev pub IsAcceptable : TelemetryData → Type 0
IsAcceptable t = IsEncodable t × (id_length t ≤ 39)

abbrev pub accepted_packet : TelemetryData → Machine → Machine
accepted_packet t m = accepted (id_length t + 41) (build_telemetry_packet t) t m

build_lem :
    (t : TelemetryData) (rest : BytesArray)
    → build_telemetry_packet t ++ rest ≡ packet_frame (serialize_telemetry_data t) rest
unfolding build_telemetry_packet
build_lem t rest = simp append_assoc

pub length-build : (t : TelemetryData) → length (build_telemetry_packet t) ≡ id_length t + 48
unfolding build_telemetry_packet
length-build t = omega (
  arith,
  length-serialize t,
  length-append (serialize_telemetry_data t) (
      high_byte (body_crc (serialize_telemetry_data t) [])
      ∷ low_byte (body_crc (serialize_telemetry_data t) [])
      ∷ []),
)

-- A packet that the simulator built is accepted whole, and the run goes on behind it.
pub run_packet :
    (t : TelemetryData) (rest : BytesArray) (m : Machine)
    → IsAcceptable t
    → m.state ≡ wait_for_sync
    → run (build_telemetry_packet t ++ rest) m ≡ run rest (accepted_packet t m)
run_packet t rest m (encodable, short) waits =
    ap (λ v. run v m) (build_lem t rest)
    ∙ run-accepted (high_byte (u16 k)) (low_byte (u16 k)) w m k t waits size (omega (arith, len))
        (omega (arith, len)) fits
        (ap calculate_crc16 (take_body payload rest) ∙ sym (carried_body payload rest))
        (deserialize-serialize t (behind_payload payload rest) encodable)
    ∙ ap₂ run behind (λ i. accepted (len i) (whole i) t m)
  where
    payload : BytesArray
    payload = serialize_telemetry_data t

    k : ℕ
    k = length payload

    w : BytesArray
    w = payload ++ behind_payload payload rest

    len : k ≡ id_length t + 41
    len = length-serialize t

    size : big_endian (high_byte (u16 k)) (low_byte (u16 k)) ≡ k
    size =
        let small : u16 k ≡ k = omega (arith, len) in big_endian_bytes (u16 k) (omega arith) ∙ small

    fits : k + 2 ≤ length w
    fits = omega (arith, length-append payload (behind_payload payload rest))

    sums : BytesArray
    sums = high_byte (body_crc payload rest) ∷ low_byte (body_crc payload rest) ∷ []

    behind : drop (k + 2) w ≡ rest
    behind =
        ap (λ (v : BytesArray). drop (k + 2) v) (sym (append_assoc payload sums rest))
        ∙ drop-length (k + 2) (payload ++ sums) rest (omega (arith, length-append payload sums))

    whole : take (k + 7) (packet_frame payload rest) ≡ build_telemetry_packet t
    whole =
        ap (λ (v : BytesArray). take (k + 7) v) (sym (build_lem t rest))
        ∙ take-length (k + 7) (build_telemetry_packet t) rest (omega (arith, len, length-build t))

-- The stream of the packets of some telemetry, and what the parser has when it has read them.
abbrev pub packets : List TelemetryData → List BytesArray
packets [] = []
packets (t ∷ ts) = build_telemetry_packet t ∷ packets ts

abbrev pub accepted_all : List TelemetryData → Machine → Machine
accepted_all [] m = m
accepted_all (t ∷ ts) m = accepted_all ts (accepted_packet t m)

pub run-packets :
    (ts : List TelemetryData) (rest : BytesArray) (m : Machine)
    → All IsAcceptable ts
    → m.state ≡ wait_for_sync
    → run (bytes_of (packets ts) ++ rest) m ≡ run rest (accepted_all ts m)
run-packets [] rest m ok_ts waits = refl
run-packets (t ∷ ts) rest m (ok_t, ok_ts) waits =
    ap (λ v. run v m) (append_assoc (build_telemetry_packet t) (bytes_of (packets ts)) rest)
    ∙ run_packet t (bytes_of (packets ts) ++ rest) m ok_t waits
    ∙ run-packets ts rest (accepted_packet t m) ok_ts refl
