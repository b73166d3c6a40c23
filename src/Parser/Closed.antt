-- ===== src/Parser/Closed.antt =====
-- The handlers of the states in closed form, where their reads stay inside the view.
use counter_drone_server.Base.{
  ℕ, ◌-◌, ◌≤◌, ◌<◌, ◌≡◌, arith, ok, ◌>>=◌, length, take, get_or, get_elem?-eq-get_or,
}
use counter_drone_server.Packet.{type_msg_of}
use counter_drone_server.Parser.{
  Machine, on_type, on_read_type, wait, on_length, on_read_length, check_crc, back_to_sync,
  process_telemetry_payload, big_endian,
}
use counter_drone_server.Parser.Deserialize.{View}

-- The byte at `i`, for an `i` inside the view.
abbrev pub byte_at : View → ℕ → ℕ
byte_at view i = get_or view i 0

-- The checksum that a packet of `n` bytes carries.
abbrev pub carried_crc : View → ℕ → ℕ
carried_crc v n = big_endian (byte_at v (n - 2)) (byte_at v (n - 1))

module _ (v : View) (m : Machine) where
  pub on_read_type_long : 3 ≤ length v → on_read_type v m ≡ on_type (type_msg_of (byte_at v 2)) v m
  unfolding on_read_type
  on_read_type_long h = ground (arith, get_elem?-eq-get_or v 2 0)

  pub on_read_type_short : length v < 3 → on_read_type v m ≡ ok (wait v m)
  unfolding on_read_type
  on_read_type_short h = ground arith

  pub on_read_length_long :
      5 ≤ length v → on_read_length v m ≡ on_length (big_endian (byte_at v 3) (byte_at v 4)) v m
  unfolding on_read_length
  on_read_length_long h = ground (arith, get_elem?-eq-get_or v 3 0, get_elem?-eq-get_or v 4 0)

  pub on_read_length_short : length v < 5 → on_read_length v m ≡ ok (wait v m)
  unfolding on_read_length
  on_read_length_short h = ground arith

  pub process_telemetry_payload_long :
      (n : ℕ)
      → 2 ≤ n
      → n ≤ length v
      → process_telemetry_payload v m n
        ≡ (check_crc (take (n - 2) v) (carried_crc v n) v m n >>= back_to_sync)
  unfolding process_telemetry_payload
  process_telemetry_payload_long n two fits =
      ground (arith, get_elem?-eq-get_or v (n - 2) 0, get_elem?-eq-get_or v (n - 1) 0)
