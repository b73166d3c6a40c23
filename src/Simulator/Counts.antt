-- ===== src/Simulator/Counts.antt =====
-- The simulator's counters.
use counter_drone_server.Base.{
  ℕ, zero, suc, ◌+◌, ◌≤◌, ◌<◌, ◌≡◌, ltb→lt, refl, arith, List, [], ◌∷◌, Option, none, some,
  if◌then◌else◌, ◌==◌, ==_ne, Outcome, ok, fault, out_of_fuel, length, length-append,
}
use counter_drone_server.Packet.{TelemetryData}
use counter_drone_server.Simulator.Scenarios.{
  DroneDataSimulator, Draws, send_whole, send_garbage, send_fragmented, send_corrupted,
  send_sequence, adjusted, sequence_limit, try_sequence, send_scenario, IsWithin, Sent, nothing,
  next,
}

-- The sum that the program's conclusion prints as the packets sent.
abbrev pub IsCounted : DroneDataSimulator → Type 0
IsCounted s = s.sent_packets_amount ≡ length s.sent_valid_packets + s.corrupted_packets_count

send_whole-IsCounted :
    (t : TelemetryData) (s : DroneDataSimulator) → IsCounted s → IsCounted (send_whole t s)
send_whole-IsCounted t s h = omega (arith, length-append s.sent_valid_packets)

send_sequence-IsCounted :
    (ts : List TelemetryData) (s : DroneDataSimulator)
    → IsCounted s
    → IsCounted (send_sequence ts s)
send_sequence-IsCounted [] s h = h
send_sequence-IsCounted (t ∷ ts) s h =
    send_sequence-IsCounted ts (send_whole t s) (send_whole-IsCounted t s h)

pub send_sequence-amount :
    (ts : List TelemetryData) (s : DroneDataSimulator)
    → (send_sequence ts s).sent_packets_amount ≡ s.sent_packets_amount + length ts
send_sequence-amount [] s = omega arith
send_sequence-amount (t ∷ ts) s = omega (arith, send_sequence-amount ts (send_whole t s))

-- What holds of the result, if there is one.
abbrev pub OkAll : (DroneDataSimulator → Type 0) → Outcome DroneDataSimulator → Type 0
OkAll Q (ok s) = Q s
OkAll Q fault = Unit
OkAll Q out_of_fuel = Unit

-- How the `switch` can end, with the scenario.
pub send_scenario-by_case :
    (P : ℕ → Outcome DroneDataSimulator → Type 0) (most : Option ℕ) (d : Draws)
    (s : DroneDataSimulator)
    → P 0 (ok (send_whole d.telemetry s))
    → P 1 (ok (send_garbage d.garbage s))
    → P 2 (ok (send_fragmented d.telemetry d.split_idx s))
    → P 3 (ok (send_corrupted d.telemetry d.corruption s))
    → (adjusted most d.scenario s ≡ 4 → P 4 (try_sequence (sequence_limit most s) d.sequence s))
    → ((n : ℕ) → P (suc (suc (suc (suc (suc n))))) (ok s))
    → P (adjusted most d.scenario s) (send_scenario most d s)
unfolding send_scenario
send_scenario-by_case P most d s whole garbage fragmented corrupted sequence other =
    by_scenario (adjusted most d.scenario s) refl
  where
    by_scenario :
        (scenario : ℕ)
        → adjusted most d.scenario s ≡ scenario
        → P scenario (
            if scenario == 0
            then ok (send_whole d.telemetry s)
            else if scenario == 1
            then ok (send_garbage d.garbage s)
            else if scenario == 2
            then ok (send_fragmented d.telemetry d.split_idx s)
            else if scenario == 3
            then ok (send_corrupted d.telemetry d.corruption s)
            else if scenario == 4
            then try_sequence (sequence_limit most s) d.sequence s
            else ok s)
    by_scenario zero e = whole
    by_scenario (suc zero) e = garbage
    by_scenario (suc (suc zero)) e = fragmented
    by_scenario (suc (suc (suc zero))) e = corrupted
    by_scenario (suc (suc (suc (suc zero)))) e = sequence e
    by_scenario (suc (suc (suc (suc (suc n))))) e =
        let m : ℕ = suc (suc (suc (suc (suc n)))) in
        rw
          (
            ==_ne m 0 (omega arith),
            ==_ne m 1 (omega arith),
            ==_ne m 2 (omega arith),
            ==_ne m 3 (omega arith),
            ==_ne m 4 (omega arith),
          )
          (other n)

pub send_scenario-cases :
    (P : Outcome DroneDataSimulator → Type 0) (most : Option ℕ) (d : Draws) (s : DroneDataSimulator)
    → P (ok (send_whole d.telemetry s))
    → P (ok (send_garbage d.garbage s))
    → P (ok (send_fragmented d.telemetry d.split_idx s))
    → P (ok (send_corrupted d.telemetry d.corruption s))
    → (adjusted most d.scenario s ≡ 4 → P (try_sequence (sequence_limit most s) d.sequence s))
    → P (ok s)
    → P (send_scenario most d s)
send_scenario-cases P most d s whole garbage fragmented corrupted sequence other =
    send_scenario-by_case (λ n o. P o) most d s whole garbage fragmented corrupted sequence
      (λ n. other)

send_corrupted-IsCounted :
    (t : TelemetryData) (corruption : Option (ℕ × ℕ)) (s : DroneDataSimulator)
    → IsCounted s
    → IsCounted (send_corrupted t corruption s)
send_corrupted-IsCounted t none s h = omega (arith, length-append s.sent_valid_packets)
send_corrupted-IsCounted t (some target) s h = omega arith

try_sequence-IsCounted :
    (limit : Option ℕ) (ts : List TelemetryData) (s : DroneDataSimulator)
    → IsCounted s
    → OkAll IsCounted (try_sequence limit ts s)
try_sequence-IsCounted none ts s h = tt
try_sequence-IsCounted (some limit) ts s h = send_sequence-IsCounted ts s h

-- However the rounds draw, the counter of the loop is the number of valid packets that were kept
-- and of corrupted ones, which is the sum that the conclusion prints.
pub sent_packets-IsCounted :
    {most : Option ℕ} {s t : DroneDataSimulator} → IsCounted s → Sent most s t → IsCounted t
sent_packets-IsCounted start nothing = start
sent_packets-IsCounted {most} start (next {t} d sent more drawn within e) =
    let h : IsCounted t = sent_packets-IsCounted start sent in
    let result : OkAll IsCounted (send_scenario most d t) =
      send_scenario-cases (OkAll IsCounted) most d t (send_whole-IsCounted d.telemetry t h) h
        (send_whole-IsCounted d.telemetry t h)
        (send_corrupted-IsCounted d.telemetry d.corruption t h)
        (λ four. try_sequence-IsCounted (sequence_limit most t) d.sequence t h) h in
    rw e at result

-- At most one packet more than the limit.
abbrev pub IsBounded : ℕ → DroneDataSimulator → Type 0
IsBounded most s = s.sent_packets_amount ≤ most + 1

sequence-IsBounded :
    (most : ℕ) (ts : List TelemetryData) (s : DroneDataSimulator)
    → s.sent_packets_amount < most
    → IsWithin (sequence_limit (some most) s) ts
    → OkAll (IsBounded most) (try_sequence (sequence_limit (some most) s) ts s)
sequence-IsBounded most ts s less within = ground (arith, send_sequence-amount ts s)

corrupted-IsBounded :
    (most : ℕ) (t : TelemetryData) (corruption : Option (ℕ × ℕ)) (s : DroneDataSimulator)
    → s.sent_packets_amount < most
    → IsBounded most (send_corrupted t corruption s)
corrupted-IsBounded most t none s less = omega arith
corrupted-IsBounded most t (some target) s less = omega arith

pub round-IsBounded :
    (most : ℕ) (d : Draws) (s : DroneDataSimulator)
    → s.sent_packets_amount < most
    → (adjusted (some most) d.scenario s ≡ 4 → IsWithin (sequence_limit (some most) s) d.sequence)
    → OkAll (IsBounded most) (send_scenario (some most) d s)
round-IsBounded most d s less within =
    send_scenario-cases (OkAll (IsBounded most)) (some most) d s (omega arith) (omega arith)
      (omega arith) (corrupted-IsBounded most d.telemetry d.corruption s less)
      (λ four. sequence-IsBounded most d.sequence s less (within four)) (omega arith)

-- From a start within the limit, however the rounds draw, the loop ends at most one packet past it.
pub at_most_one_too_many :
    {most : ℕ} {s t : DroneDataSimulator}
    → s.sent_packets_amount ≤ most
    → Sent (some most) s t
    → t.sent_packets_amount ≤ most + 1
at_most_one_too_many start nothing = omega arith
at_most_one_too_many {most} start (next {t} d sent more drawn within e) =
    let less : t.sent_packets_amount < most = ltb→lt t.sent_packets_amount most more in
    let result : OkAll (IsBounded most) (send_scenario (some most) d t) =
      round-IsBounded most d t less within in
    rw e at result
