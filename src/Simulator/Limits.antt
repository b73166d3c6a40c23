-- ===== src/Simulator/Limits.antt =====
-- The simulator's rounds within the range of `int`.
use counter_drone_server.Base.{
  ℕ, ◌+◌, ◌≤◌, ◌<◌, ◌≡◌, ◌↔◌, ◌⊎◌, ltb→lt, arith, List, [], ◌∷◌, true, Option, none, some, Outcome,
  ok, fault,
}
use counter_drone_server.Packet.{int_max, TelemetryData}
use counter_drone_server.Simulator.Scenarios.{
  DroneDataSimulator, Draws, send_whole, send_corrupted, send_sequence, may_send, adjusted,
  sequence_limit, try_sequence, send_scenario, IsWithin,
}
use counter_drone_server.Simulator.Counts.{OkAll, send_scenario-cases, send_sequence-amount}

-- `MAX_PKGS_AMOUNT` is an `int`.
abbrev pub IsLimit : Option ℕ → Type 0
IsLimit none = Unit
IsLimit (some most) = most ≤ int_max

-- The counters are values of `int`.
abbrev pub IsInt : DroneDataSimulator → Type 0
IsInt s =
    (s.sent_packets_amount ≤ int_max)
    × (s.fragmented_packets_count ≤ int_max)
    × (s.corrupted_packets_count ≤ int_max)
    × (s.garbage_sequences_count ≤ int_max)

-- The counters leave room for a round, which sends five packets at most.
abbrev pub HasRoom : DroneDataSimulator → Type 0
HasRoom s =
    (s.sent_packets_amount + 5 ≤ int_max)
    × (s.fragmented_packets_count < int_max)
    × (s.corrupted_packets_count < int_max)
    × (s.garbage_sequences_count < int_max)

-- Three of the counters go up by one at most.
abbrev pub Grows : DroneDataSimulator → DroneDataSimulator → Type 0
Grows s u =
    (u.fragmented_packets_count ≤ s.fragmented_packets_count + 1)
    × (u.corrupted_packets_count ≤ s.corrupted_packets_count + 1)
    × (u.garbage_sequences_count ≤ s.garbage_sequences_count + 1)

sequence-Grows : (ts : List TelemetryData) (s : DroneDataSimulator) → Grows s (send_sequence ts s)
sequence-Grows [] s = omega arith
sequence-Grows (t ∷ ts) s = sequence-Grows ts (send_whole t s)

try_sequence-Grows :
    (limit : Option ℕ) (ts : List TelemetryData) (s : DroneDataSimulator)
    → OkAll (Grows s) (try_sequence limit ts s)
try_sequence-Grows none ts s = tt
try_sequence-Grows (some limit) ts s = sequence-Grows ts s

corrupted-Grows :
    (t : TelemetryData) (c : Option (ℕ × ℕ)) (s : DroneDataSimulator)
    → Grows s (send_corrupted t c s)
corrupted-Grows t none s = omega arith
corrupted-Grows t (some target) s = omega arith

pub round-Grows :
    (most : Option ℕ) (d : Draws) (s : DroneDataSimulator)
    → OkAll (Grows s) (send_scenario most d s)
round-Grows most d s =
    send_scenario-cases (OkAll (Grows s)) most d s (omega arith) (omega arith) (omega arith)
      (corrupted-Grows d.telemetry d.corruption s)
      (λ four. try_sequence-Grows (sequence_limit most s) d.sequence s) (omega arith)

-- A round sends five packets at most.
abbrev SendsFive : DroneDataSimulator → DroneDataSimulator → Type 0
SendsFive s u = u.sent_packets_amount ≤ s.sent_packets_amount + 5

corrupted-amount :
    (t : TelemetryData) (c : Option (ℕ × ℕ)) (s : DroneDataSimulator)
    → SendsFive s (send_corrupted t c s)
corrupted-amount t none s = omega arith
corrupted-amount t (some target) s = omega arith

sequence-amount :
    (most : Option ℕ) (ts : List TelemetryData) (s : DroneDataSimulator)
    → IsWithin (sequence_limit most s) ts
    → OkAll (SendsFive s) (try_sequence (sequence_limit most s) ts s)
sequence-amount none ts s within = tt
sequence-amount (some most) ts s within = ground (arith, send_sequence-amount ts s)

round-amount :
    (most : Option ℕ) (d : Draws) (s : DroneDataSimulator)
    → (adjusted most d.scenario s ≡ 4 → IsWithin (sequence_limit most s) d.sequence)
    → OkAll (SendsFive s) (send_scenario most d s)
round-amount most d s within =
    send_scenario-cases (OkAll (SendsFive s)) most d s (omega arith) (omega arith) (omega arith)
      (corrupted-amount d.telemetry d.corruption s)
      (λ four. sequence-amount most d.sequence s (within four)) (omega arith)

OkAll-both :
    {P Q R : DroneDataSimulator → Type 0} (o : Outcome DroneDataSimulator)
    → ((s : DroneDataSimulator) → P s → Q s → R s)
    → OkAll P o
    → OkAll Q o
    → OkAll R o
OkAll-both (ok s) f p q = f s p q
OkAll-both fault f p q = tt
OkAll-both Outcome.out_of_fuel f p q = tt

round-IsInt :
    (most : Option ℕ) (d : Draws) (s : DroneDataSimulator)
    → HasRoom s
    → (adjusted most d.scenario s ≡ 4 → IsWithin (sequence_limit most s) d.sequence)
    → OkAll IsInt (send_scenario most d s)
round-IsInt most d s room within =
    OkAll-both (send_scenario most d s) (λ u sent grows. omega arith) (round-amount most d s within)
      (round-Grows most d s)

faults :
    (most : Option ℕ) (d : Draws) (s : DroneDataSimulator)
    → IsLimit most
    → may_send most s ≡ true
    → (send_scenario most d s ≡ fault)
      ↔ ((d.scenario ≡ 4) × ((most ≡ none) ⊎ ((most ≡ some int_max) × (s.sent_packets_amount ≡ 0))))
unfolding send_scenario
faults none d s limit more = ground arith
faults (some most) d s limit more =
    let less : s.sent_packets_amount < most = ltb→lt s.sent_packets_amount most more in ground arith

-- A round that passes the test of the loop, with counters that leave room for it and a sequence of a
-- length that can be drawn, meets undefined behaviour exactly if it draws a sequence and either there
-- is no limit on the packets, or the limit is the greatest `int` and no packet has been sent. Else
-- its counters are values of `int` still.
pub send_scenario_faults :
    (most : Option ℕ) (d : Draws) (s : DroneDataSimulator)
    → IsLimit most
    → HasRoom s
    → may_send most s ≡ true
    → (adjusted most d.scenario s ≡ 4 → IsWithin (sequence_limit most s) d.sequence)
    → ((send_scenario most d s ≡ fault) ↔ (
        (d.scenario ≡ 4) × ((most ≡ none) ⊎ ((most ≡ some int_max) × (s.sent_packets_amount ≡ 0)))))
      × OkAll IsInt (send_scenario most d s)
send_scenario_faults most d s limit room more within =
    (faults most d s limit more, round-IsInt most d s room within)
