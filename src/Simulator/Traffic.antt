-- ===== src/Simulator/Traffic.antt =====
-- The parser on the simulator's traffic: packets, packets with a byte replaced, and noise, cut into
-- chunks and batches in any way.
use mathlib.Core.Path.{subst}
use native.Mathlib.Decide.{dec_lt}
use counter_drone_server.Base.{
  ℕ, zero, suc, ◌+◌, ◌-◌, ◌≤◌, ◌<◌, ◌≡◌, ◌≢◌, refl, sym, ap, ◌∙◌, arith, List, [], ◌∷◌, ◌++◌,
  append-nil, ok, length, take, drop, All, take-append, take_past,
}
use counter_drone_server.Packet.{BytesArray, TelemetryData, u16}
use counter_drone_server.Parser.{Machine, wait_for_sync}
use counter_drone_server.Parser.Deserialize.{View}
use counter_drone_server.Parser.Closed.{byte_at}
use counter_drone_server.Parser.Chunks.{run, run-nil}
use counter_drone_server.Parser.Frame.{frame, rejected}
use counter_drone_server.Parser.Partial.{IsNoise, run_noise, run_partial, take-IsNoise}
use counter_drone_server.Simulator.Encode.{
  serialize_telemetry_data, build_telemetry_packet, high_byte, low_byte,
}
use counter_drone_server.Simulator.Decode.{big_endian_bytes, length-serialize}
use counter_drone_server.Simulator.Accept.{
  IsAcceptable, id_length, length-build, accepted_packet, run_packet,
}
use counter_drone_server.Simulator.Reject.{
  build-frame, packet_tail, spoilt_packet, spoilt_tail, spoilt-frame, length-spoilt, run_spoilt,
}

-- What goes over the wire: a packet, a packet whose byte at a place has been replaced, or noise.
pub data Segment : Type 0 where
  valid : TelemetryData → Segment
  spoilt : TelemetryData → (place : ℕ) → (byte : ℕ) → Segment
  noise : BytesArray → Segment

abbrev pub segment_bytes : Segment → BytesArray
segment_bytes (valid t) = build_telemetry_packet t
segment_bytes (spoilt t i y) = spoilt_packet t i y
segment_bytes (noise g) = g

-- Telemetry that fits; a byte behind the length that has really changed, in a packet with no other
-- 0xAA that could begin a header; noise without 0xAA.
abbrev pub IsGood : Segment → Type 0
IsGood (valid t) = IsAcceptable t
IsGood (spoilt t i y) =
    IsAcceptable t
    × (5 ≤ i)
    × (i < length (build_telemetry_packet t))
    × (y < 256)
    × (y ≢ byte_at (build_telemetry_packet t) i)
    × IsNoise (drop 1 (spoilt_packet t i y))
IsGood (noise g) = IsNoise g

-- The members when a segment has passed.
abbrev pub after_segment : Segment → Machine → Machine
after_segment (valid t) m = accepted_packet t m
after_segment (spoilt t i y) m = rejected (id_length t + 41) m
after_segment (noise g) m = m

abbrev pub wire : List Segment → BytesArray
wire [] = []
wire (s ∷ ss) = segment_bytes s ++ wire ss

abbrev pub after_segments : List Segment → Machine → Machine
after_segments [] m = m
after_segments (s ∷ ss) m = after_segments ss (after_segment s m)

after_segment_waits :
    (s : Segment) (m : Machine)
    → m.state ≡ wait_for_sync
    → (after_segment s m).state ≡ wait_for_sync
after_segment_waits (valid t) m e = refl
after_segment_waits (spoilt t i y) m e = refl
after_segment_waits (noise g) m e = e

run_segment :
    (s : Segment) (rest : BytesArray) (m : Machine)
    → IsGood s
    → m.state ≡ wait_for_sync
    → run (segment_bytes s ++ rest) m ≡ run rest (after_segment s m)
run_segment (valid t) rest m good waits = run_packet t rest m good waits
run_segment (spoilt t i y) rest m (fits, behind, inside, small, new, quiet) waits =
    run_spoilt t i y rest m fits behind inside small new waits
    ∙ run_noise (drop 1 (spoilt_packet t i y)) rest (rejected (id_length t + 41) m) quiet refl
run_segment (noise g) rest m good waits = run_noise g rest m good waits

-- A run over a part of a segment.
abbrev pub Runs : View → Machine → Type 0
Runs v m = (r : View × Machine) × (run v m ≡ ok r)

frame_part :
    (t : TelemetryData) (w : View) (m : Machine) (k : ℕ)
    → IsAcceptable t
    → m.state ≡ wait_for_sync
    → k < id_length t + 48
    → let size = u16 (length (serialize_telemetry_data t)) in
      Runs (take k (frame (high_byte size) (low_byte size) w)) m
frame_part t w m k (fits, short) waits h =
    let size : ℕ = u16 (length (serialize_telemetry_data t)) in
    let stated : size ≡ id_length t + 41 = omega (arith, length-serialize t) in
    let (l, e) =
      run_partial (high_byte size) (low_byte size) w m (id_length t + 41) k waits
        (big_endian_bytes size (omega arith) ∙ stated) (omega arith) (omega arith) (omega arith) in
    ((take k (frame (high_byte size) (low_byte size) w), l), e)

run_part :
    (s : Segment) (m : Machine) (k : ℕ)
    → IsGood s
    → m.state ≡ wait_for_sync
    → k < length (segment_bytes s)
    → Runs (take k (segment_bytes s)) m
run_part (valid t) m k good waits h =
    subst (λ (v : View). Runs (take k v) m) (sym (build-frame t 0 0))
      (frame_part t (packet_tail t 0 0) m k good waits (omega (arith, length-build t)))
run_part (spoilt t i y) m k (fits, behind, inside, small, new, quiet) waits h =
    subst (λ (v : View). Runs (take k v) m) (sym (spoilt-frame t i y behind))
      (frame_part t (spoilt_tail t i y) m k fits waits
        (omega (arith, length-spoilt t i y, length-serialize t)))
run_part (noise g) m k good waits h =
    let part : View = take k g in
    (
      ([], m),
      ap (λ v. run v m) (sym (append-nil part))
          ∙ run_noise part [] m (take-IsNoise k g good) waits
          ∙ run-nil m,
    )

-- However much of the traffic has arrived, the run over it meets no undefined behaviour.
pub run_prefix :
    (k : ℕ) (ss : List Segment) (m : Machine)
    → All IsGood ss
    → m.state ≡ wait_for_sync
    → Runs (take k (wire ss)) m
run_prefix zero [] m good waits = (([], m), run-nil m)
run_prefix (suc k) [] m good waits = (([], m), run-nil m)
run_prefix k (s ∷ ss) m (good, goods) waits = elim (dec_lt k (length (segment_bytes s))) [
  | yes part ↦
      subst (λ (v : View). Runs v m) (sym (take-append k (segment_bytes s) (wire ss) (omega arith)))
        (run_part s m k good waits part)
  | no past ↦
      let left : ℕ = k - length (segment_bytes s) in
      let (r, e) = run_prefix left ss (after_segment s m) goods (after_segment_waits s m waits) in
      (
        r,
        ap (λ v. run v m) (take_past k (segment_bytes s) (wire ss) (omega arith))
            ∙ run_segment s (take left (wire ss)) m good waits
            ∙ e,
      )
]

pub run-wire :
    (ss : List Segment) (m : Machine)
    → All IsGood ss
    → m.state ≡ wait_for_sync
    → run (wire ss) m ≡ ok ([], after_segments ss m)
run-wire [] m good waits = run-nil m
run-wire (s ∷ ss) m (good, goods) waits =
    run_segment s (wire ss) m good waits
    ∙ run-wire ss (after_segment s m) goods (after_segment_waits s m waits)
