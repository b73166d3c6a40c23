-- ===== src/Parser/Deserialize.antt =====
-- `SensorDataParser::deserialize_payload`, and the operations of `std::basic_string_view` that the
-- parser calls, with their preconditions.
use counter_drone_server.Base.{
  ℕ, ◌+◌, ◌*◌, ◌^◌, List, [], ◌∷◌, Outcome, ok, fault, ◌>>=◌, defined, leb, if◌then◌else◌, length,
  get_elem?, take, drop,
}
use counter_drone_server.Packet.{BytesArray, TelemetryData}

-- What a view shows, from its first byte on. The bytes behind it are not the view's.
abbrev pub View : Type 0
View = List ℕ

-- `view[i]`
abbrev pub read : View → ℕ → Outcome ℕ
read view i = defined (get_elem? view i)

-- The bytes of `[view.begin(), view.begin() + n)`.
abbrev pub prefix : View → ℕ → Outcome BytesArray
prefix view n = if leb n (length view) then ok (take n view) else fault

-- `view.remove_prefix(n)`
abbrev pub remove_prefix : View → ℕ → Outcome View
remove_prefix view n = if leb n (length view) then ok (drop n view) else fault

-- The number that bytes stand for in memory, lowest byte first.
unfoldable pub from_memory : BytesArray → ℕ
from_memory [] = 0
from_memory (b ∷ rest) = b + 2 ^ 8 * from_memory rest

abbrev pub primitive_size : ℕ
primitive_size = 8

-- The lambda `read_primitive`, at a type of eight bytes.
unfoldable pub read_primitive : View → Outcome (ℕ × View)
unfolding from_memory
read_primitive view = do
  bytes ← prefix view primitive_size
  rest ← remove_prefix view primitive_size
  ok (from_memory bytes, rest)

unfoldable pub deserialize_payload : View → Outcome TelemetryData
unfolding read_primitive
deserialize_payload view₀ = do
  id_len ← read view₀ 0
  view₁ ← remove_prefix view₀ 1
  drone_id ← prefix view₁ id_len
  view₂ ← remove_prefix view₁ id_len
  (lat, view₃) ← read_primitive view₂
  (lon, view₄) ← read_primitive view₃
  (alt, view₅) ← read_primitive view₄
  (spd, view₆) ← read_primitive view₅
  (ts, view₇) ← read_primitive view₆
  ok (record {
    drone_id = drone_id;
    latitude = lat;
    longitude = lon;
    altitude = alt;
    speed = spd;
    timestamp = ts;
  })
