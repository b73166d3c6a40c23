-- ===== src/Simulator/Scenarios.antt =====
-- The scenarios of `process_loop` in src/DroneDataSimulator.cpp, and the corruption of packets. What
-- the random generator and the clock give is an input of each round.
use counter_drone_server.Base.{
  ℕ, ◌+◌, ◌-◌, ◌^◌, ◌≤◌, ◌≡◌, bit_xor, min, List, [], ◌∷◌, ◌++◌, Bool, true, false, ◌&&◌, Option,
  none, some, if◌then◌else◌, ltb, ◌==◌, Outcome, ok, fault, length, take, drop, set,
}
use counter_drone_server.Packet.{BytesArray, TelemetryData, int_max}
use counter_drone_server.Parser.Closed.{byte_at}
use counter_drone_server.Simulator.Encode.{build_telemetry_packet}

-- `sent_packets_amount` is the loop's counter, and `sends` the buffers that went to `send`.
pub record DroneDataSimulator : Type 0 where
  pub sent_valid_packets : List BytesArray
  pub fragmented_packets_count : ℕ
  pub corrupted_packets_count : ℕ
  pub garbage_sequences_count : ℕ
  pub sent_packets_amount : ℕ
  pub sends : List BytesArray

-- What a round draws; each scenario uses the draws that it needs. `corruption` is the target byte
-- and the bit, if the chance falls that way.
pub record Draws : Type 0 where
  pub scenario : ℕ
  pub telemetry : TelemetryData
  pub garbage : BytesArray
  pub split_idx : ℕ
  pub corruption : Option (ℕ × ℕ)
  pub sequence : List TelemetryData

-- `packet[target_byte] ^= (1 << bit)`
abbrev pub flip_bit : BytesArray → ℕ → ℕ → BytesArray
flip_bit packet target bit = set packet target (bit_xor (byte_at packet target) (2 ^ bit))

abbrev pub statistic_packet_corruption : BytesArray → Option (ℕ × ℕ) → Bool × BytesArray
statistic_packet_corruption packet none = (false, packet)
statistic_packet_corruption packet (some (target, bit)) = (true, flip_bit packet target bit)

abbrev pub send_whole : TelemetryData → DroneDataSimulator → DroneDataSimulator
send_whole t s =
    let packet = build_telemetry_packet t in
    record s {
      sends = s.sends ++ packet ∷ [];
      sent_valid_packets = s.sent_valid_packets ++ packet ∷ [];
      sent_packets_amount = s.sent_packets_amount + 1;
    }

abbrev pub send_garbage : BytesArray → DroneDataSimulator → DroneDataSimulator
send_garbage garbage s = record s {
  sends = s.sends ++ garbage ∷ [];
  garbage_sequences_count = s.garbage_sequences_count + 1;
}

abbrev pub send_fragmented : TelemetryData → ℕ → DroneDataSimulator → DroneDataSimulator
send_fragmented t split_idx s =
    let packet = build_telemetry_packet t in
    record s {
      sends = s.sends ++ take split_idx packet ∷ drop split_idx packet ∷ [];
      sent_valid_packets = s.sent_valid_packets ++ packet ∷ [];
      sent_packets_amount = s.sent_packets_amount + 1;
      fragmented_packets_count = s.fragmented_packets_count + 1;
    }

abbrev pub send_corrupted : TelemetryData → Option (ℕ × ℕ) → DroneDataSimulator → DroneDataSimulator
send_corrupted t corruption s =
    let (corrupted, packet) = statistic_packet_corruption (build_telemetry_packet t) corruption in
    let counted =
      if corrupted
      then record s { corrupted_packets_count = s.corrupted_packets_count + 1 }
      else record s { sent_valid_packets = s.sent_valid_packets ++ packet ∷ [] } in
    record counted {
      sends = counted.sends ++ packet ∷ [];
      sent_packets_amount = counted.sent_packets_amount + 1;
    }

-- The loop over the packets of a sequence.
abbrev pub send_sequence : List TelemetryData → DroneDataSimulator → DroneDataSimulator
send_sequence [] s = s
send_sequence (t ∷ ts) s = send_sequence ts (send_whole t s)

-- `MAX_PKGS_AMOUNT`, with `none` for -1.
abbrev pub may_send : Option ℕ → DroneDataSimulator → Bool
may_send none s = true
may_send (some most) s = ltb s.sent_packets_amount most

-- No sequence when a single packet is left.
abbrev pub adjusted : Option ℕ → ℕ → DroneDataSimulator → ℕ
adjusted none scenario s = scenario
adjusted (some most) scenario s =
    if (scenario == 4) && (most == s.sent_packets_amount + 1) then 1 else scenario

-- The upper end of the range for the length of a sequence, computed on `int`; `none` if that is
-- undefined: it overflows, or it is below the lower end 2, which a `uniform_int_distribution` must
-- not be given.
abbrev pub sequence_limit : Option ℕ → DroneDataSimulator → Option ℕ
sequence_limit none s = none
sequence_limit (some most) s =
    if ltb most (s.sent_packets_amount + 1)
    then none
    else if ltb int_max (most - s.sent_packets_amount + 1)
    then none
    else some (min 5 (most - s.sent_packets_amount + 1))

abbrev pub try_sequence :
    Option ℕ → List TelemetryData → DroneDataSimulator → Outcome DroneDataSimulator
try_sequence none ts s = fault
try_sequence (some limit) ts s = ok (send_sequence ts s)

-- The `switch`.
unfoldable pub send_scenario : Option ℕ → Draws → DroneDataSimulator → Outcome DroneDataSimulator
send_scenario most d s =
    let scenario = adjusted most d.scenario s in
    if scenario == 0
    then ok (send_whole d.telemetry s)
    else if scenario == 1
    then ok (send_garbage d.garbage s)
    else if scenario == 2
    then ok (send_fragmented d.telemetry d.split_idx s)
    else if scenario == 3
    then ok (send_corrupted d.telemetry d.corruption s)
    else if scenario == 4
    then try_sequence (sequence_limit most s) d.sequence s
    else ok s

-- The ranges of the draws; a sequence is drawn up to the limit, where there is one.
abbrev pub IsWithin : Option ℕ → List TelemetryData → Type 0
IsWithin none ts = Unit
IsWithin (some limit) ts = (2 ≤ length ts) × (length ts ≤ limit)

-- The rounds that have been sent: each passes the test of the loops before it draws.
pub data Sent (most : Option ℕ) (s : DroneDataSimulator) : DroneDataSimulator → Type 0 where
  nothing : Sent most s s
  next :
      {t u : DroneDataSimulator} (d : Draws)
      → Sent most s t
      → may_send most t ≡ true
      → d.scenario ≤ 4
      → (adjusted most d.scenario t ≡ 4 → IsWithin (sequence_limit most t) d.sequence)
      → send_scenario most d t ≡ ok u
      → Sent most s u
