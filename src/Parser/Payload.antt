-- ===== src/Parser/Payload.antt =====
-- `deserialize_payload` in closed form: when its reads stay inside the view, and what it returns.
use native.Mathlib.Decide.{dec_lt}
use counter_drone_server.Base.{
  ℕ, ◌+◌, ◌≤◌, ◌<◌, ◌≡◌, ◌⊎◌, inl, inr, sym, ap, ◌∙◌, arith, [], ◌∷◌, ◌++◌, ok, fault, length, take,
  drop, length-drop, drop-drop, take-append, drop-append, length-append,
}
use counter_drone_server.Packet.{BytesArray, TelemetryData}
use counter_drone_server.Parser.Deserialize.{View, from_memory, read_primitive, deserialize_payload}

read_primitive_long :
    (v : View) → 8 ≤ length v → read_primitive v ≡ ok (from_memory (take 8 v), drop 8 v)
unfolding read_primitive
read_primitive_long v h = ground arith

read_primitive_short : (v : View) → length v < 8 → read_primitive v ≡ fault
unfolding read_primitive
read_primitive_short v h = ground arith

-- The fields that start behind the identifier, at `v`.
abbrev pub fields_from : BytesArray → View → TelemetryData
fields_from id v = record {
  drone_id = id;
  latitude = from_memory (take 8 v);
  longitude = from_memory (take 8 (drop 8 v));
  altitude = from_memory (take 8 (drop 16 v));
  speed = from_memory (take 8 (drop 24 v));
  timestamp = from_memory (take 8 (drop 32 v));
}

-- Reading a field at `k` succeeds exactly if its eight bytes are there.
read_primitive_at :
    (w : View) (k : ℕ)
    → ((k + 8 ≤ length w)
        × (read_primitive (drop k w) ≡ ok (from_memory (take 8 (drop k w)), drop (k + 8) w)))
      ⊎ ((length w < k + 8) × (read_primitive (drop k w) ≡ fault))
read_primitive_at w k = elim (dec_lt (length w) (k + 8)) [
  | yes short ↦ inr (short, read_primitive_short (drop k w) (omega (arith, length-drop k w)))
  | no long ↦ inl (
    omega arith,
    rw (← drop-drop 8 k w) (read_primitive_long (drop k w) (omega (arith, length-drop k w))),
  )
]

-- A payload that holds the identifier of the stated length and forty bytes more is read in full.
pub deserialize_payload_complete :
    (id_len : ℕ) (v : View)
    → id_len + 40 ≤ length v
    → deserialize_payload (id_len ∷ v) ≡ ok (fields_from (take id_len v) (drop id_len v))
unfolding deserialize_payload
deserialize_payload_complete id_len v h = ground (
  arith,
  length-drop id_len v,
  read_primitive_at (drop id_len v) 0,
  read_primitive_at (drop id_len v) 8,
  read_primitive_at (drop id_len v) 16,
  read_primitive_at (drop id_len v) 24,
  read_primitive_at (drop id_len v) 32,
)

-- In a shorter one some read leaves the view.
pub deserialize_payload_short :
    (id_len : ℕ) (v : View) → length v < id_len + 40 → deserialize_payload (id_len ∷ v) ≡ fault
unfolding deserialize_payload
deserialize_payload_short id_len v h = ground (
  arith,
  length-drop id_len v,
  read_primitive_at (drop id_len v) 0,
  read_primitive_at (drop id_len v) 8,
  read_primitive_at (drop id_len v) 16,
  read_primitive_at (drop id_len v) 24,
  read_primitive_at (drop id_len v) 32,
)

take-drop-append :
    (w b : View) (k n : ℕ) → k + n ≤ length w → take n (drop k (w ++ b)) ≡ take n (drop k w)
take-drop-append w b k n h =
    rw (drop-append k w b (omega arith))
      (take-append n (drop k w) b (omega (arith, length-drop k w)))

fields_from-append :
    (id : BytesArray) (w b : View) → 40 ≤ length w → fields_from id (w ++ b) ≡ fields_from id w
fields_from-append id w b h i = record {
  drone_id = id;
  latitude = from_memory (take-drop-append w b 0 8 (omega arith) i);
  longitude = from_memory (take-drop-append w b 8 8 (omega arith) i);
  altitude = from_memory (take-drop-append w b 16 8 (omega arith) i);
  speed = from_memory (take-drop-append w b 24 8 (omega arith) i);
  timestamp = from_memory (take-drop-append w b 32 8 (omega arith) i);
}

fields_append :
    (id_len : ℕ) (v b : View)
    → id_len + 40 ≤ length v
    → fields_from (take id_len (v ++ b)) (drop id_len (v ++ b))
      ≡ fields_from (take id_len v) (drop id_len v)
fields_append id_len v b h =
    rw (take-append id_len v b (omega arith), drop-append id_len v b (omega arith))
      (fields_from-append (take id_len v) (drop id_len v) b (omega (arith, length-drop id_len v)))

-- What follows a payload in the buffer does not change what is read from it.
pub deserialize_payload-append :
    (v b : View) {d : TelemetryData}
    → deserialize_payload v ≡ ok d
    → deserialize_payload (v ++ b) ≡ ok d
deserialize_payload-append [] b h = unfold deserialize_payload in cc
deserialize_payload-append (id_len ∷ v) b h = elim (dec_lt (length v) (id_len + 40)) [
  | yes short ↦ cc (deserialize_payload_short id_len v short)
  | no long ↦
      deserialize_payload_complete id_len (v ++ b) (omega (arith, length-append v b))
      ∙ ap ok (fields_append id_len v b (omega arith))
      ∙ sym (deserialize_payload_complete id_len v (omega arith))
      ∙ h
]
