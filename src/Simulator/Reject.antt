-- ===== src/Simulator/Reject.antt =====
-- The parser on a packet of the simulator with one byte changed behind its length.
use counter_drone_server.Base.{
  ℕ, zero, suc, ◌+◌, ◌-◌, ◌/◌, ◌^◌, ◌≤◌, ◌<◌, ◌≡◌, ◌≢◌, refl, sym, ap, ap₂, ◌∙◌, arith, [], ◌∷◌,
  ◌++◌, length, take, drop, set, All, All-append, length-set, take-append, get_or-append,
  length-append,
}
use counter_drone_server.Packet.{BytesArray, TelemetryData, IsByte, IsEncodable, u8, u16}
use counter_drone_server.Packet.Crc.{calculate_crc16}
use counter_drone_server.Packet.Crc.Detect.{calculate_crc16-lt}
use counter_drone_server.Parser.{Machine, wait_for_sync, big_endian}
use counter_drone_server.Parser.Closed.{byte_at, carried_crc}
use counter_drone_server.Parser.Chunks.{run}
use counter_drone_server.Parser.Frame.{frame, rejected, run-rejected}
use counter_drone_server.Simulator.Encode.{
  to_memory, append_numeric_data, serialize_telemetry_data, packet_without_crc,
  build_telemetry_packet, high_byte, low_byte,
}
use counter_drone_server.Simulator.Decode.{big_endian_bytes, length-serialize}
use counter_drone_server.Simulator.Accept.{IsAcceptable, id_length, length-build}
use counter_drone_server.Simulator.Corrupt.{set-crc}

to_memory-IsByte : (n val : ℕ) → All IsByte (to_memory n val)
unfolding to_memory
to_memory-IsByte zero val = tt
to_memory-IsByte (suc n) val = (omega arith, to_memory-IsByte n (val / 2 ^ 8))

append-IsByte :
    (payload : BytesArray) (val : ℕ)
    → All IsByte payload
    → All IsByte (append_numeric_data payload val)
append-IsByte payload val h = All-append IsByte payload (to_memory 8 val) h (to_memory-IsByte 8 val)

-- What the simulator sends are bytes.
serialize-IsByte : (t : TelemetryData) → IsEncodable t → All IsByte (serialize_telemetry_data t)
unfolding serialize_telemetry_data
serialize-IsByte t e =
    let with_id : BytesArray = u8 (length t.drone_id) ∷ t.drone_id in
    let with_lat : BytesArray = append_numeric_data with_id t.latitude in
    let with_lon : BytesArray = append_numeric_data with_lat t.longitude in
    let with_alt : BytesArray = append_numeric_data with_lon t.altitude in
    let with_spd : BytesArray = append_numeric_data with_alt t.speed in
    let id : All IsByte with_id = (omega arith, e.id_bytes) in
    append-IsByte with_spd t.timestamp (
      append-IsByte with_alt t.speed (
        append-IsByte with_lon t.altitude
          (append-IsByte with_lat t.longitude (append-IsByte with_id t.latitude id))))

packet-IsByte :
    (payload : BytesArray) → All IsByte payload → All IsByte (packet_without_crc payload)
unfolding packet_without_crc
packet-IsByte payload h =
    (omega arith, (omega arith, (omega arith, (omega arith, (omega arith, h)))))

pub build-IsByte : (t : TelemetryData) → IsEncodable t → All IsByte (build_telemetry_packet t)
unfolding build_telemetry_packet
build-IsByte t e =
    All-append IsByte (packet_without_crc (serialize_telemetry_data t)) _
      (packet-IsByte (serialize_telemetry_data t) (serialize-IsByte t e))
      (omega arith, (omega arith, tt))

module _ (t : TelemetryData) (i y : ℕ) where
  abbrev payload : BytesArray
  payload = serialize_telemetry_data t

  abbrev body : BytesArray
  body = packet_without_crc payload

  abbrev sum : ℕ
  sum = calculate_crc16 body

  abbrev size : ℕ
  size = length payload

  -- A packet with the byte at `i` replaced by `y`.
  abbrev pub spoilt_packet : BytesArray
  spoilt_packet = set (build_telemetry_packet t) i y

  abbrev pub spoilt_tail : BytesArray
  spoilt_tail = set (payload ++ high_byte sum ∷ low_byte sum ∷ []) (i - 5) y

  abbrev pub packet_tail : BytesArray
  packet_tail = payload ++ high_byte sum ∷ low_byte sum ∷ []

  pub build-frame :
      build_telemetry_packet t ≡ frame (high_byte (u16 size)) (low_byte (u16 size)) packet_tail
  unfolding build_telemetry_packet packet_without_crc
  build-frame = refl

  pub spoilt-frame :
      5 ≤ i → spoilt_packet ≡ frame (high_byte (u16 size)) (low_byte (u16 size)) spoilt_tail
  unfolding build_telemetry_packet packet_without_crc
  spoilt-frame behind =
      let e : i ≡ suc (suc (suc (suc (suc (i - 5))))) = omega arith in
      ap (λ j. set (build_telemetry_packet t) j y) e

  length-body : length body ≡ size + 5
  unfolding packet_without_crc
  length-body = omega arith

  spoilt-crc :
      IsEncodable t
      → i < length (build_telemetry_packet t)
      → y < 256
      → y ≢ byte_at (build_telemetry_packet t) i
      → calculate_crc16 (take (size + 5) spoilt_packet) ≢ carried_crc spoilt_packet (size + 7)
  unfolding build_telemetry_packet
  spoilt-crc e inside small new q =
      set-crc body (high_byte sum) (low_byte sum) i y (omega arith) (omega arith) small
        (sym (big_endian_bytes sum (calculate_crc16-lt body))) new
        (packet-IsByte payload (serialize-IsByte t e))
        (omega (arith, length-append body (high_byte sum ∷ low_byte sum ∷ [])))
        (ap (λ n. calculate_crc16 (take n spoilt_packet)) length-body
          ∙ q
          ∙ ap (carried_crc spoilt_packet) (omega (arith, length-body)))

  pub length-spoilt : length spoilt_packet ≡ size + 7
  length-spoilt =
      omega (arith, length-set (build_telemetry_packet t) i y, length-build t, length-serialize t)

  -- Behind a replaced byte the parser drops the packet's first byte and counts one error.
  pub run_spoilt :
      (rest : BytesArray) (m : Machine)
      → IsAcceptable t
      → 5 ≤ i
      → i < length (build_telemetry_packet t)
      → y < 256
      → y ≢ byte_at (build_telemetry_packet t) i
      → m.state ≡ wait_for_sync
      → run (spoilt_packet ++ rest) m
        ≡ run (drop 1 spoilt_packet ++ rest) (rejected (id_length t + 41) m)
  run_spoilt rest m (e, short) behind inside small new waits =
      ap (λ v. run (v ++ rest) m) whole
      ∙ run-rejected hi lo (spoilt_tail ++ rest) m (id_length t + 41) waits stated (omega arith)
          (omega arith) fits bad
      ∙ ap (λ (v : BytesArray). run (drop 1 v ++ rest) (rejected (id_length t + 41) m)) (sym whole)
    where
      hi : ℕ
      hi = high_byte (u16 size)

      lo : ℕ
      lo = low_byte (u16 size)

      whole : spoilt_packet ≡ frame hi lo spoilt_tail
      whole = spoilt-frame behind

      stated : big_endian hi lo ≡ id_length t + 41
      stated =
          let fits : u16 size ≡ id_length t + 41 = omega (arith, length-serialize t) in
          big_endian_bytes (u16 size) (omega arith) ∙ fits

      tail_length : length spoilt_tail ≡ size + 2
      tail_length = omega (arith, length-spoilt, ap (λ (v : BytesArray). length v) whole)

      fits : id_length t + 41 + 2 ≤ length (spoilt_tail ++ rest)
      fits = omega (arith, tail_length, length-append spoilt_tail rest, length-serialize t)

      bad :
          calculate_crc16 (take (id_length t + 41 + 5) (frame hi lo (spoilt_tail ++ rest)))
          ≢ carried_crc (frame hi lo (spoilt_tail ++ rest)) (id_length t + 41 + 7)
      bad q = spoilt-crc e inside small new (
          ap₂ (λ (n : ℕ) (v : BytesArray). calculate_crc16 (take (n + 5) v)) same_size whole
          ∙ ap calculate_crc16
              (sym (take-append (k + 5) packet rest (omega (arith, packet_length))))
          ∙ q
          ∙ ap₂ big_endian (get_or-append packet rest (k + 7 - 2) 0 (omega (arith, packet_length)))
              (get_or-append packet rest (k + 7 - 1) 0 (omega (arith, packet_length)))
          ∙ sym (ap₂ (λ (n : ℕ) (v : BytesArray). carried_crc v (n + 7)) same_size whole))
        where
          k : ℕ
          k = id_length t + 41

          packet : BytesArray
          packet = frame hi lo spoilt_tail

          same_size : size ≡ k
          same_size = length-serialize t

          packet_length : length packet ≡ k + 7
          packet_length = omega (arith, tail_length, same_size)
