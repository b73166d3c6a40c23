-- ===== src/Simulator/Wire.antt =====
-- What the simulator sends is traffic in the sense of `Segment`.
use counter_drone_server.Base.{
  ℕ, zero, suc, ◌≡◌, ◌+◌, ◌^◌, bit_xor, arith, refl, sym, ap, ◌∙◌, List, [], ◌∷◌, ◌++◌, append-nil,
  append_assoc, Option, none, some, take, drop, take-append-drop,
}
use counter_drone_server.Packet.{BytesArray, TelemetryData}
use counter_drone_server.Parser.Closed.{byte_at}
use counter_drone_server.Simulator.Encode.{build_telemetry_packet}
use counter_drone_server.Simulator.Traffic.{Segment, valid, spoilt, noise, segment_bytes, wire}
use counter_drone_server.Simulator.Delivery.{spoilt_packets}
use counter_drone_server.Simulator.Scenarios.{
  DroneDataSimulator, Draws, adjusted, send_whole, send_garbage, send_fragmented, send_corrupted,
  send_sequence, sequence_limit, try_sequence, send_scenario, Sent, nothing, next,
}
use counter_drone_server.Simulator.Counts.{OkAll, send_scenario-by_case}

-- The bytes of all the buffers.
abbrev pub flat : List BytesArray → BytesArray
flat [] = []
flat (b ∷ bs) = b ++ flat bs

flat-append : (bs cs : List BytesArray) → flat (bs ++ cs) ≡ flat bs ++ flat cs
flat-append [] cs = refl
flat-append (b ∷ bs) cs =
    ap (λ (l : BytesArray). b ++ l) (flat-append bs cs) ∙ sym (append_assoc b (flat bs) (flat cs))

wire-append : (ss us : List Segment) → wire (ss ++ us) ≡ wire ss ++ wire us
wire-append [] us = refl
wire-append (s ∷ ss) us =
    ap (λ (l : BytesArray). segment_bytes s ++ l) (wire-append ss us)
    ∙ sym (append_assoc (segment_bytes s) (wire ss) (wire us))

-- The packets that are sent as they are.
abbrev pub valid_packets : List Segment → List BytesArray
valid_packets [] = []
valid_packets (valid t ∷ ss) = build_telemetry_packet t ∷ valid_packets ss
valid_packets (spoilt t i y ∷ ss) = valid_packets ss
valid_packets (noise g ∷ ss) = valid_packets ss

valid_packets-append :
    (ss us : List Segment) → valid_packets (ss ++ us) ≡ valid_packets ss ++ valid_packets us
valid_packets-append [] us = refl
valid_packets-append (valid t ∷ ss) us =
    ap (λ (l : List BytesArray). build_telemetry_packet t ∷ l) (valid_packets-append ss us)
valid_packets-append (spoilt t i y ∷ ss) us = valid_packets-append ss us
valid_packets-append (noise g ∷ ss) us = valid_packets-append ss us

spoilt_packets-append :
    (ss us : List Segment) → spoilt_packets (ss ++ us) ≡ spoilt_packets ss + spoilt_packets us
spoilt_packets-append [] us = omega arith
spoilt_packets-append (valid t ∷ ss) us = spoilt_packets-append ss us
spoilt_packets-append (spoilt t i y ∷ ss) us = omega (arith, spoilt_packets-append ss us)
spoilt_packets-append (noise g ∷ ss) us = spoilt_packets-append ss us

-- Segments that went over the wire between two states of the simulator.
pub record IsTraffic (segments : List Segment) (s t : DroneDataSimulator) : Type 0 where
  pub bytes : flat t.sends ≡ flat s.sends ++ wire segments
  pub kept : t.sent_valid_packets ≡ s.sent_valid_packets ++ valid_packets segments
  pub spoiled : t.corrupted_packets_count ≡ s.corrupted_packets_count + spoilt_packets segments

-- What each scenario is to put on the wire, by what it draws.
abbrev pub corruption_segment : TelemetryData → Option (ℕ × ℕ) → Segment
corruption_segment t none = valid t
corruption_segment t (some (target, bit)) =
    spoilt t target (bit_xor (byte_at (build_telemetry_packet t) target) (2 ^ bit))

abbrev pub sequence_segments : List TelemetryData → List Segment
sequence_segments [] = []
sequence_segments (t ∷ ts) = valid t ∷ sequence_segments ts

abbrev pub drawn_segments : ℕ → Draws → List Segment
drawn_segments zero d = valid d.telemetry ∷ []
drawn_segments (suc zero) d = noise d.garbage ∷ []
drawn_segments (suc (suc zero)) d = valid d.telemetry ∷ []
drawn_segments (suc (suc (suc zero))) d = corruption_segment d.telemetry d.corruption ∷ []
drawn_segments (suc (suc (suc (suc zero)))) d = sequence_segments d.sequence
drawn_segments (suc (suc (suc (suc (suc n))))) d = []

-- The segments that the draws of a run ask for, in order.
abbrev pub history : {most : Option ℕ} {s t : DroneDataSimulator} → Sent most s t → List Segment
history nothing = []
history {most} (next {t} d sent more drawn within e) =
    history sent ++ drawn_segments (adjusted most d.scenario t) d

no-IsTraffic : (s : DroneDataSimulator) → IsTraffic [] s s
no-IsTraffic s = record {
  bytes = sym (append-nil (flat s.sends));
  kept = sym (append-nil s.sent_valid_packets);
  spoiled = omega arith;
}

more-IsTraffic :
    (ss us : List Segment) (s t u : DroneDataSimulator)
    → IsTraffic ss s t
    → IsTraffic us t u
    → IsTraffic (ss ++ us) s u
more-IsTraffic ss us s t u a b = record {
  bytes =
      b.bytes
      ∙ ap (λ (l : BytesArray). l ++ wire us) a.bytes
      ∙ append_assoc (flat s.sends) (wire ss) (wire us)
      ∙ ap (λ (l : BytesArray). flat s.sends ++ l) (sym (wire-append ss us));
  kept =
      b.kept
      ∙ ap (λ (l : List BytesArray). l ++ valid_packets us) a.kept
      ∙ append_assoc s.sent_valid_packets (valid_packets ss) (valid_packets us)
      ∙ ap (λ (l : List BytesArray). s.sent_valid_packets ++ l) (sym (valid_packets-append ss us));
  spoiled = omega (arith, a.spoiled, b.spoiled, spoilt_packets-append ss us);
}

whole-IsTraffic :
    (t : TelemetryData) (s : DroneDataSimulator) → IsTraffic (valid t ∷ []) s (send_whole t s)
whole-IsTraffic t s = record {
  bytes = flat-append s.sends (build_telemetry_packet t ∷ []);
  kept = refl;
  spoiled = omega arith;
}

garbage-IsTraffic :
    (g : BytesArray) (s : DroneDataSimulator) → IsTraffic (noise g ∷ []) s (send_garbage g s)
garbage-IsTraffic g s = record {
  bytes = flat-append s.sends (g ∷ []);
  kept = sym (append-nil s.sent_valid_packets);
  spoiled = omega arith;
}

fragmented-IsTraffic :
    (t : TelemetryData) (i : ℕ) (s : DroneDataSimulator)
    → IsTraffic (valid t ∷ []) s (send_fragmented t i s)
fragmented-IsTraffic t i s =
    let packet : BytesArray = build_telemetry_packet t in
    record {
      bytes =
          flat-append s.sends (take i packet ∷ drop i packet ∷ [])
          ∙ ap (λ (l : BytesArray). flat s.sends ++ l)
              (sym (append_assoc (take i packet) (drop i packet) [])
                ∙ ap (λ (l : BytesArray). l ++ []) (take-append-drop i packet));
      kept = refl;
      spoiled = omega arith;
    }

corrupted-IsTraffic :
    (t : TelemetryData) (c : Option (ℕ × ℕ)) (s : DroneDataSimulator)
    → IsTraffic (corruption_segment t c ∷ []) s (send_corrupted t c s)
corrupted-IsTraffic t none s = record {
  bytes = flat-append s.sends (build_telemetry_packet t ∷ []);
  kept = refl;
  spoiled = omega arith;
}
corrupted-IsTraffic t (some (target, bit)) s = record {
  bytes = flat-append s.sends (_ ∷ []);
  kept = sym (append-nil s.sent_valid_packets);
  spoiled = omega arith;
}

sequence-IsTraffic :
    (ts : List TelemetryData) (s : DroneDataSimulator)
    → IsTraffic (sequence_segments ts) s (send_sequence ts s)
sequence-IsTraffic [] s = no-IsTraffic s
sequence-IsTraffic (t ∷ ts) s =
    more-IsTraffic (valid t ∷ []) (sequence_segments ts) s (send_whole t s) _ (whole-IsTraffic t s)
      (sequence-IsTraffic ts (send_whole t s))

try_sequence-IsTraffic :
    (limit : Option ℕ) (ts : List TelemetryData) (s : DroneDataSimulator)
    → OkAll (IsTraffic (sequence_segments ts) s) (try_sequence limit ts s)
try_sequence-IsTraffic none ts s = tt
try_sequence-IsTraffic (some limit) ts s = sequence-IsTraffic ts s

-- Whatever the rounds draw, the bytes that were sent are, in order, those of the segments that the
-- draws ask for: a packet, whole or in two parts, for each telemetry drawn, the packet with the bit
-- flipped where a corruption is drawn, and the garbage. The packets sent as they are, and no others,
-- are kept as valid, in order, and the corrupted ones are counted.
pub sent-IsTraffic :
    {most : Option ℕ} {s t : DroneDataSimulator} (sent : Sent most s t)
    → IsTraffic (history sent) s t
sent-IsTraffic {s} nothing = no-IsTraffic s
sent-IsTraffic {most} {s} {t} (next {t = u} d sent more drawn within e) =
    let asked : List Segment = drawn_segments (adjusted most d.scenario u) d in
    let result : OkAll (IsTraffic asked u) (send_scenario most d u) =
      send_scenario-by_case (λ n o. OkAll (IsTraffic (drawn_segments n d) u) o) most d u
        (whole-IsTraffic d.telemetry u) (garbage-IsTraffic d.garbage u)
        (fragmented-IsTraffic d.telemetry d.split_idx u)
        (corrupted-IsTraffic d.telemetry d.corruption u)
        (λ four. try_sequence-IsTraffic (sequence_limit most u) d.sequence u)
        (λ n. no-IsTraffic u) in
    more-IsTraffic (history sent) asked s u t (sent-IsTraffic sent) (rw e at result)
