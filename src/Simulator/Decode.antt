-- ===== src/Simulator/Decode.antt =====
-- What the parser makes of a serialised payload.
use native.Mathlib.Nat.{pow-suc}
use counter_drone_server.Base.{
  ℕ, zero, suc, ◌+◌, ◌/◌, ◌^◌, ◌<◌, ◌≤◌, ◌≡◌, refl, sym, ap, ap₂, ◌∙◌, arith, [], ◌∷◌, ◌++◌, ok,
  length, take, drop, length-append, append_assoc, append-nil, drop-drop, take-length, drop-length,
}
use counter_drone_server.Bits.Mask.{bit_and-low, bit_or_bytes}
use counter_drone_server.Packet.{BytesArray, TelemetryData, IsEncodable, u8}
use counter_drone_server.Parser.{big_endian}
use counter_drone_server.Parser.Deserialize.{from_memory, deserialize_payload}
use counter_drone_server.Parser.Payload.{deserialize_payload_complete, fields_from}
use counter_drone_server.Simulator.Encode.{to_memory, serialize_telemetry_data, high_byte, low_byte}

length-to_memory : (n val : ℕ) → length (to_memory n val) ≡ n
unfolding to_memory
length-to_memory zero val = refl
length-to_memory (suc n) val = ap suc (length-to_memory n (val / 2 ^ 8))

from_memory-to_memory : (n val : ℕ) → val < 256 ^ n → from_memory (to_memory n val) ≡ val
unfolding to_memory from_memory
from_memory-to_memory zero val h = omega arith
from_memory-to_memory (suc n) val h =
    omega (arith, from_memory-to_memory n (val / 2 ^ 8) (omega (arith, pow-suc 256 n)))

-- A 16-bit number is read back from its two bytes in network order.
pub big_endian_bytes : (n : ℕ) → n < 2 ^ 16 → big_endian (high_byte n) (low_byte n) ≡ n
big_endian_bytes n h = omega (
  arith,
  bit_and-low 8 (n / 2 ^ 8),
  bit_and-low 8 n,
  bit_or_bytes (high_byte n) (low_byte n) (omega arith),
)

-- The eight-byte fields, one after the other, and what follows them.
fields_then : TelemetryData → BytesArray → BytesArray
fields_then t rest =
    to_memory 8 t.latitude
    ++ (to_memory 8 t.longitude
        ++ (to_memory 8 t.altitude ++ (to_memory 8 t.speed ++ (to_memory 8 t.timestamp ++ rest))))

serialize_lem :
    (t : TelemetryData) (rest : BytesArray)
    → serialize_telemetry_data t ++ rest
      ≡ u8 (length t.drone_id) ∷ (t.drone_id ++ fields_then t rest)
unfolding serialize_telemetry_data fields_then
serialize_lem t rest = simp append_assoc

length-fields_then :
    (t : TelemetryData) (rest : BytesArray) → length (fields_then t rest) ≡ 40 + length rest
unfolding fields_then
length-fields_then t rest =
    rw (length-append, length-append, length-append, length-append, length-append)
      (omega (arith, length-to_memory 8))

pub length-serialize :
    (t : TelemetryData) → length (serialize_telemetry_data t) ≡ length t.drone_id + 41
length-serialize t = omega (
  arith,
  ap (λ (b : BytesArray). length b)
      (sym (append-nil (serialize_telemetry_data t)) ∙ serialize_lem t []),
  length-append t.drone_id (fields_then t []),
  length-fields_then t [],
)

drop_past : (n k : ℕ) (xs ys : BytesArray) → n ≡ length xs → drop (n + k) (xs ++ ys) ≡ drop k ys
drop_past n k xs ys h =
    sym (drop-drop k n (xs ++ ys)) ∙ ap (λ (zs : BytesArray). drop k zs) (drop-length n xs ys h)

read_field :
    (val : ℕ) (rest : BytesArray)
    → val < 2 ^ 64
    → from_memory (take 8 (to_memory 8 val ++ rest)) ≡ val
read_field val rest h =
    ap from_memory (take-length 8 (to_memory 8 val) rest (sym (length-to_memory 8 val)))
    ∙ from_memory-to_memory 8 val h

next_field : (k val : ℕ) (rest : BytesArray) → drop (8 + k) (to_memory 8 val ++ rest) ≡ drop k rest
next_field k val rest = drop_past 8 k (to_memory 8 val) rest (sym (length-to_memory 8 val))

fields_from-fields_then :
    (t : TelemetryData) (rest : BytesArray)
    → IsEncodable t
    → fields_from t.drone_id (fields_then t rest) ≡ t
unfolding fields_then
fields_from-fields_then t rest e i = record {
  drone_id = t.drone_id;
  latitude = read_field t.latitude (f1) e.latitude_fits i;
  longitude = (ap at_0 (next_field 0 t.latitude f1) ∙ read_field t.longitude f2 e.longitude_fits) i;
  altitude =
      (ap at_0 (next_field 8 t.latitude f1 ∙ next_field 0 t.longitude f2)
          ∙ read_field t.altitude f3 e.altitude_fits)
        i;
  speed =
      (ap at_0
            (next_field 16 t.latitude f1 ∙ next_field 8 t.longitude f2 ∙ next_field 0 t.altitude f3)
          ∙ read_field t.speed f4 e.speed_fits)
        i;
  timestamp =
      (ap at_0 (
            next_field 24 t.latitude f1
            ∙ next_field 16 t.longitude f2
            ∙ next_field 8 t.altitude f3
            ∙ next_field 0 t.speed f4)
          ∙ read_field t.timestamp rest e.timestamp_fits)
        i;
}
  where
    at_0 : BytesArray → ℕ
    at_0 v = from_memory (take 8 v)

    f4 : BytesArray
    f4 = to_memory 8 t.timestamp ++ rest

    f3 : BytesArray
    f3 = to_memory 8 t.speed ++ f4

    f2 : BytesArray
    f2 = to_memory 8 t.altitude ++ f3

    f1 : BytesArray
    f1 = to_memory 8 t.longitude ++ f2

-- The parser reads back the telemetry that the simulator serialised, whatever follows it.
pub deserialize-serialize :
    (t : TelemetryData) (rest : BytesArray)
    → IsEncodable t
    → deserialize_payload (serialize_telemetry_data t ++ rest) ≡ ok t
deserialize-serialize t rest e =
    let n : ℕ = length t.drone_id in
    let n_byte : u8 n ≡ n = omega (arith, e.id_short) in
    let v : BytesArray = t.drone_id ++ fields_then t rest in
    let first : take n v ≡ t.drone_id = take-length n t.drone_id (fields_then t rest) refl in
    let then : drop n v ≡ fields_then t rest = drop-length n t.drone_id (fields_then t rest) refl in
    let fits : n + 40 ≤ length v =
      omega (arith, length-append t.drone_id (fields_then t rest), length-fields_then t rest) in
    ap deserialize_payload (serialize_lem t rest ∙ ap (λ k. k ∷ v) n_byte)
    ∙ deserialize_payload_complete n v fits
    ∙ ap ok (ap₂ fields_from first then ∙ fields_from-fields_then t rest e)
