-- ===== src/Simulator/Delivery.antt =====
-- What reaches the parser's packet list and the queue behind it, for a whole stream of traffic.
use counter_drone_server.Base.{
  ℕ, suc, ◌+◌, ◌≡◌, refl, sym, ap, ◌∙◌, arith, List, [], ◌∷◌, ◌++◌, append-nil, append_assoc, ok,
  length, take, All,
}
use mathlib.Core.Path.{subst}
use counter_drone_server.Packet.{BytesArray, TelemetryData}
use counter_drone_server.SharedQueue.{push_data}
use counter_drone_server.Parser.{
  Machine, wait_for_sync, SensorDataParser, process_accumulated_data, process_loop,
}
use counter_drone_server.Parser.Chunks.{run, run-nil}
use counter_drone_server.Parser.Frame.{rejected}
use counter_drone_server.Parser.Stream.{receive, stream_of, process-ok, process_loop-prefixes}
use counter_drone_server.Simulator.Accept.{packets, id_length, accepted_packet}
use counter_drone_server.Simulator.Traffic.{
  Segment, valid, spoilt, noise, IsGood, wire, after_segments, run_prefix, run-wire,
}

-- The telemetry that was sent whole, and the number of packets that were not.
abbrev pub sent_telemetry : List Segment → List TelemetryData
sent_telemetry [] = []
sent_telemetry (valid t ∷ ss) = t ∷ sent_telemetry ss
sent_telemetry (spoilt t i y ∷ ss) = sent_telemetry ss
sent_telemetry (noise g ∷ ss) = sent_telemetry ss

abbrev pub spoilt_packets : List Segment → ℕ
spoilt_packets [] = 0
spoilt_packets (valid t ∷ ss) = spoilt_packets ss
spoilt_packets (spoilt t i y ∷ ss) = suc (spoilt_packets ss)
spoilt_packets (noise g ∷ ss) = spoilt_packets ss

-- What the traffic adds to the members.
pub record Delivers (ss : List Segment) (m n : Machine) : Type 0 where
  pub packets_received :
      n.received_valid_packets ≡ m.received_valid_packets ++ packets (sent_telemetry ss)
  pub telemetry_pushed :
      n.telemetry_packets_manager.shared_data
      ≡ m.telemetry_packets_manager.shared_data ++ sent_telemetry ss
  pub crc_errors : n.crc_errors_count ≡ m.crc_errors_count + spoilt_packets ss
  pub structure_errors : n.invalid_structure_count ≡ m.invalid_structure_count
  pub types_counted :
      n.telemetry_pkt_count ≡ m.telemetry_pkt_count + length (sent_telemetry ss) + spoilt_packets ss
  pub others_counted :
      (n.heart_beat_pkt_count ≡ m.heart_beat_pkt_count) × (n.cmd_pkt_count ≡ m.cmd_pkt_count)

after_segments-Delivers : (ss : List Segment) (m : Machine) → Delivers ss m (after_segments ss m)
unfolding push_data
after_segments-Delivers [] m = record {
  packets_received = sym (append-nil m.received_valid_packets);
  telemetry_pushed = sym (append-nil m.telemetry_packets_manager.shared_data);
  crc_errors = omega arith;
  structure_errors = refl;
  types_counted = omega arith;
  others_counted = (refl, refl);
}
after_segments-Delivers (valid t ∷ ss) m =
    let d : Delivers ss (accepted_packet t m) (after_segments ss (accepted_packet t m)) =
      after_segments-Delivers ss (accepted_packet t m) in
    record {
      packets_received = d.packets_received ∙ append_assoc m.received_valid_packets _ _;
      telemetry_pushed =
          d.telemetry_pushed ∙ append_assoc m.telemetry_packets_manager.shared_data _ _;
      crc_errors = d.crc_errors;
      structure_errors = d.structure_errors;
      types_counted = omega (arith, d.types_counted);
      others_counted = d.others_counted;
    }
after_segments-Delivers (spoilt t i y ∷ ss) m =
    let d : Delivers ss (rejected (id_length t + 41) m)
        (after_segments ss (rejected (id_length t + 41) m)) =
      after_segments-Delivers ss (rejected (id_length t + 41) m) in
    record {
      packets_received = d.packets_received;
      telemetry_pushed = d.telemetry_pushed;
      crc_errors = omega (arith, d.crc_errors);
      structure_errors = d.structure_errors;
      types_counted = omega (arith, d.types_counted);
      others_counted = d.others_counted;
    }
after_segments-Delivers (noise g ∷ ss) m =
    let d : Delivers ss m (after_segments ss m) = after_segments-Delivers ss m in
    record {
      packets_received = d.packets_received;
      telemetry_pushed = d.telemetry_pushed;
      crc_errors = d.crc_errors;
      structure_errors = d.structure_errors;
      types_counted = d.types_counted;
      others_counted = d.others_counted;
    }

module _ (ss : List Segment) (p : SensorDataParser) (good : All IsGood ss)
    (empty : p.accumulated_data ≡ []) (waits : p.machine.state ≡ wait_for_sync) where
  arrived : (b : BytesArray) → p.accumulated_data ++ b ≡ b
  arrived b = ap (λ (a : BytesArray). a ++ b) empty

  prefix_fine :
      (k : ℕ)
      → (r : SensorDataParser) × (process_accumulated_data (receive (take k (wire ss)) p) ≡ ok r)
  prefix_fine k =
      let part : BytesArray = take k (wire ss) in
      let ((w, n), e) = run_prefix k ss p.machine good waits in
      (
        record { accumulated_data = w; machine = n },
        process-ok (receive part p) w n (ap (λ v. run v p.machine) (arrived part) ∙ e),
      )

  nothing_yet : process_accumulated_data (receive [] p) ≡ ok p
  nothing_yet =
      process-ok (receive [] p) [] p.machine
        (ap (λ v. run v p.machine) (arrived []) ∙ run-nil p.machine)
      ∙ ap ok (λ i. record p { accumulated_data = sym empty i })

  whole_wire :
      process_accumulated_data (receive (wire ss) p)
      ≡ ok (record { accumulated_data = []; machine = after_segments ss p.machine })
  whole_wire =
      process-ok (receive (wire ss) p) [] (after_segments ss p.machine)
        (ap (λ v. run v p.machine) (arrived (wire ss)) ∙ run-wire ss p.machine good waits)

  -- The traffic of the simulator, cut into chunks and batches in any way, goes through the parser
  -- without undefined behaviour. Every packet that was sent whole is received, in order and with
  -- its telemetry on the queue; every packet with a replaced byte is counted as one checksum error;
  -- noise leaves no trace; and no byte is left over. The packets' identifiers have at most 39
  -- bytes, noise has no byte 0xAA, and a spoilt packet none behind its first.
  pub traffic_delivered :
      (batches : List (List BytesArray))
      → stream_of batches ≡ wire ss
      → (q : SensorDataParser) × (process_loop batches p ≡ ok q)
        × (q.accumulated_data ≡ [])
        × Delivers ss p.machine q.machine
  traffic_delivered batches cut =
      let (q, ran, whole) =
        process_loop-prefixes (wire ss) [] batches p p prefix_fine (sym cut) nothing_yet in
      let e : q ≡ record { accumulated_data = []; machine = after_segments ss p.machine } =
        cc (whole_wire) in
      (
        q,
        ran,
        ap (λ (r : SensorDataParser). r.accumulated_data) e,
        subst (λ (r : SensorDataParser). Delivers ss p.machine r.machine) (sym e)
            (after_segments-Delivers ss p.machine),
      )
