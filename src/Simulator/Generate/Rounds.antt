-- ===== src/Simulator/Generate/Rounds.antt =====
-- The telemetry that the simulator generates, and its rounds as runs of the relation `Sent`.
use mathlib.Core.Path.{subst}
use counter_drone_server.Base.{
  ℕ, zero, suc, ◌+◌, ◌-◌, ◌^◌, ◌≤◌, ◌<◌, ◌≡◌, refl, sym, ap, ◌∙◌, arith, [], ◌∷◌, Option, some,
  ltb→lt, lt→ltb, true, false, Bool-cases, inl, inr, ok, length, min,
}
use counter_drone_server.Packet.{int_max, TelemetryData}
use counter_drone_server.Processor.{exceeds, speed_limit}
use counter_drone_server.Simulator.Encode.{build_telemetry_packet}
use counter_drone_server.Simulator.Accept.{IsAcceptable, length-build}
use counter_drone_server.Simulator.Decode.{length-serialize}
use counter_drone_server.Simulator.Scenarios.{
  DroneDataSimulator, Draws, send_sequence, may_send, adjusted, sequence_limit, send_scenario,
  IsWithin, Sent, nothing, next,
}
use counter_drone_server.Simulator.Counts.{OkAll, send_scenario-cases, at_most_one_too_many}
use counter_drone_server.Simulator.Limits.{IsInt, Grows, round-Grows}
use counter_drone_server.Simulator.Generate.{
  Surroundings, lat_low, lat_high, lon_low, lon_high, alt_low, alt_high, speed_low, speed_high,
  to_string, generate_valid_telemetry_data, random_sequence, sequence_within, draw_whole,
  draw_garbage, draw_fragmented, draw_corrupted, draw_sequence, no_draws, draw_case, draw_round,
  play_round, process_loop,
}

one_digit : (n : ℕ) → n ≤ 5 → to_string n ≡ (48 + n) ∷ []
unfolding to_string
one_digit n small = rw (lt→ltb n 10 (omega arith)) refl

-- Telemetry with an identifier of five bytes is acceptable, and its packet has 53 bytes.
five_bytes :
    (n latitude longitude altitude speed timestamp : ℕ)
    → n ≤ 5
    → latitude ≤ lat_high
    → longitude ≤ lon_high
    → altitude ≤ alt_high
    → speed ≤ speed_high
    → timestamp < 2 ^ 64
    → let t : TelemetryData = record {
      drone_id = 68 ∷ 82 ∷ 78 ∷ 45 ∷ (48 + n) ∷ [];
      latitude = latitude;
      longitude = longitude;
      altitude = altitude;
      speed = speed;
      timestamp = timestamp;
    } in
      IsAcceptable t
      × (length (build_telemetry_packet t) ≡ 53)
      × (exceeds t.speed speed_limit ≡ false)
five_bytes n latitude longitude altitude speed timestamp small lat lon alt slow now =
    let t : TelemetryData = record {
      drone_id = 68 ∷ 82 ∷ 78 ∷ 45 ∷ (48 + n) ∷ [];
      latitude = latitude;
      longitude = longitude;
      altitude = altitude;
      speed = speed;
      timestamp = timestamp;
    } in
    ((omega arith, omega arith), omega (arith, length-build t, length-serialize t), ground arith)

module _ (w : Surroundings) where
  open w use {
    State, uniform_int, uniform_real, uniform_int_bounds, uniform_real_bounds, milliseconds_fit,
  }

  -- Whatever the generator draws, the telemetry fits a packet that the parser accepts, the packet
  -- has 53 bytes, and its speed never sets off the alert.
  pub generated_lem :
      (s : State)
      → let t = (generate_valid_telemetry_data w s).0 in
        IsAcceptable t
        × (length (build_telemetry_packet t) ≡ 53)
        × (exceeds t.speed speed_limit ≡ false)
  unfolding generate_valid_telemetry_data
  generated_lem s =
      let s1 : State = (uniform_int 1 5 s).1 in
      let s2 : State = (uniform_real lat_low lat_high s1).1 in
      let s3 : State = (uniform_real lon_low lon_high s2).1 in
      let s4 : State = (uniform_real alt_low alt_high s3).1 in
      let s5 : State = (uniform_real speed_low speed_high s4).1 in
      let small : (uniform_int 1 5 s).0 ≤ 5 = (uniform_int_bounds 1 5 s (omega arith)).1 in
      rw (one_digit (uniform_int 1 5 s).0 small) (
        five_bytes (uniform_int 1 5 s).0 _ _ _ _ _ small
          ((uniform_real_bounds lat_low lat_high s1 (omega arith)).1)
          ((uniform_real_bounds lon_low lon_high s2 (omega arith)).1)
          ((uniform_real_bounds alt_low alt_high s3 (omega arith)).1)
          ((uniform_real_bounds speed_low speed_high s4 (omega arith)).1) (milliseconds_fit s5))

sequence_limit_lem :
    (most : ℕ) (s : DroneDataSimulator)
    → most < int_max
    → may_send (some most) s ≡ true
    → (n : ℕ) × (sequence_limit (some most) s ≡ some n) × (2 ≤ n)
sequence_limit_lem most s safe more =
    let less : s.sent_packets_amount < most = ltb→lt s.sent_packets_amount most more in
    (min 5 (most - s.sent_packets_amount + 1), ground arith, ground arith)

send_scenario_returns :
    (most : ℕ) (d : Draws) (s : DroneDataSimulator)
    → most < int_max
    → may_send (some most) s ≡ true
    → (t : DroneDataSimulator) × (send_scenario (some most) d s ≡ ok t)
send_scenario_returns most d s safe more =
    let (n, e, enough) = sequence_limit_lem most s safe more in
    send_scenario-cases (λ o. (t : DroneDataSimulator) × (o ≡ ok t)) (some most) d s (_, refl)
      (_, refl) (_, refl) (_, refl) (λ four. (send_sequence d.sequence s, rw e refl)) (_, refl)

module _ (w : Surroundings) where
  open w use {State, uniform_int, uniform_int_bounds}

  draw_case-scenario :
      (case scenario : ℕ) (limit : Option ℕ) (s : State)
      → (draw_case w case scenario limit s).0.scenario ≡ scenario
  unfolding draw_case draw_whole draw_garbage draw_fragmented draw_corrupted draw_sequence no_draws
  draw_case-scenario case scenario limit s = ground arith

  length-random_sequence : (n : ℕ) (s : State) → length (random_sequence w n s).0 ≡ n
  unfolding random_sequence
  length-random_sequence zero s = refl
  length-random_sequence (suc n) s =
      ap suc (length-random_sequence n (generate_valid_telemetry_data w s).1)

  sequence_within-IsWithin :
      (limit : ℕ) (s : State)
      → 2 ≤ limit
      → IsWithin (some limit) (sequence_within w (some limit) s).0
  unfolding sequence_within
  sequence_within-IsWithin limit s enough =
      let (low, high) = uniform_int_bounds 2 limit s enough in
      let n : ℕ = (uniform_int 2 limit s).0 in
      let e : length (random_sequence w n (uniform_int 2 limit s).1).0 ≡ n =
        length-random_sequence n (uniform_int 2 limit s).1 in
      (omega arith, omega arith)

  draw_case-sequence :
      (case scenario : ℕ) (limit : Option ℕ) (s : State)
      → case ≡ 4
      → (draw_case w case scenario limit s).0.sequence ≡ (sequence_within w limit s).0
  unfolding draw_case draw_sequence
  draw_case-sequence case scenario limit s four = rw four refl

  draw_round-IsWithin :
      (most : ℕ) (sim : DroneDataSimulator) (s : State)
      → most < int_max
      → may_send (some most) sim ≡ true
      → let d = (draw_round w (some most) sim s).0 in
        (d.scenario ≤ 4)
        × (adjusted (some most) d.scenario sim ≡ 4
            → IsWithin (sequence_limit (some most) sim) d.sequence)
  unfolding draw_round
  draw_round-IsWithin most sim s safe more =
      let s1 : State = (uniform_int 0 4 s).1 in
      let scenario : ℕ = (uniform_int 0 4 s).0 in
      let case : ℕ = adjusted (some most) scenario sim in
      let limit : Option ℕ = sequence_limit (some most) sim in
      let same : (draw_case w case scenario limit s1).0.scenario ≡ scenario =
        draw_case-scenario case scenario limit s1 in
      let bounds = uniform_int_bounds 0 4 s (omega arith) in
      let (n, e, enough) = sequence_limit_lem most sim safe more in
      (
        omega (arith, same, bounds.1),
        λ four.
            let case_four : case ≡ 4 = ap (λ k. adjusted (some most) k sim) (sym same) ∙ four in
            let drawn : (draw_case w case scenario limit s1).0.sequence
                ≡ (sequence_within w limit s1).0 =
              draw_case-sequence case scenario limit s1 case_four in
            subst (IsWithin limit) (sym drawn) (
              subst (λ l. IsWithin l (sequence_within w l s1).0) (sym e)
                (sequence_within-IsWithin n s1 enough)),
      )

  round_lem :
      (most : ℕ) (sim : DroneDataSimulator) (s : State)
      → most < int_max
      → may_send (some most) sim ≡ true
      → (t : DroneDataSimulator) × (play_round w (some most) (sim, s)
          ≡ ok (t, (draw_round w (some most) sim s).1))
        × ((start : DroneDataSimulator) → Sent (some most) start sim → Sent (some most) start t)
        × Grows sim t
  unfolding play_round
  round_lem most sim s safe more =
      let d : Draws = (draw_round w (some most) sim s).0 in
      let (scenario, within) = draw_round-IsWithin most sim s safe more in
      let (t, e) = send_scenario_returns most d sim safe more in
      let grows : OkAll (Grows sim) (send_scenario (some most) d sim) =
        round-Grows (some most) d sim in
      (t, rw e refl, λ start sent. next d sent more scenario within e, rw e at grows)

  -- With a limit below the greatest `int`, on a simulator that has not sent more and whose other
  -- counters can be counted up once a round, the loop of the simulator meets no undefined behaviour,
  -- whatever is drawn: its rounds are rounds of the relation, and its counters stay values of `int`.
  pub process_loop-Sent :
      (most n : ℕ) (sim : DroneDataSimulator) (s : State)
      → most < int_max
      → sim.sent_packets_amount ≤ most
      → sim.fragmented_packets_count + n ≤ int_max
      → sim.corrupted_packets_count + n ≤ int_max
      → sim.garbage_sequences_count + n ≤ int_max
      → (t : DroneDataSimulator) × ((s' : State) × (process_loop w (some most) n (sim, s)
            ≡ ok (t, s'))
          × Sent (some most) sim t
          × IsInt t)
  unfolding process_loop
  process_loop-Sent most n sim s safe first fragmented corrupted garbage =
      from n sim s nothing fragmented corrupted garbage
    where
      from :
          (n : ℕ) (now : DroneDataSimulator) (s : State)
          → Sent (some most) sim now
          → now.fragmented_packets_count + n ≤ int_max
          → now.corrupted_packets_count + n ≤ int_max
          → now.garbage_sequences_count + n ≤ int_max
          → (t : DroneDataSimulator) × ((s' : State) × (process_loop w (some most) n (now, s)
                ≡ ok (t, s'))
              × Sent (some most) sim t
              × IsInt t)
      from zero now s sent f c g =
          (now, (s, refl, sent, omega (arith, at_most_one_too_many first sent)))
      from (suc n) now s sent f c g = elim (Bool-cases (may_send (some most) now)) [
        | inl more ↦
            let (t, e, steps, grows) = round_lem most now s safe more in
            rw (more, e)
              (from n t (draw_round w (some most) now s).1 (steps sim sent) (omega (arith, grows))
                (omega (arith, grows)) (omega (arith, grows)))
        | inr enough ↦
            (now, (s, rw enough refl, sent, omega (arith, at_most_one_too_many first sent)))
      ]
