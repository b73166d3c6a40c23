-- ===== src/Processor/Tests.antt =====
-- The processor's theorems on two rounds.
use counter_drone_server.Base.{
  ◌≤◌, ◌≡◌, ◌↔◌, ◌+◌, refl, arith, List, [], ◌∷◌, ◌++◌, true, false, some,
}
use counter_drone_server.Packet.{TelemetryData}
use counter_drone_server.SharedQueue.{push_data, pop_data_with_timeout}
use counter_drone_server.Processor.{
  Processor, Round, high_altitude, high_speed, assign, find, on_telemetry, refresh, round,
  process_loop,
}
use counter_drone_server.Processor.Loop.{popped, process_loop-table, process_loop-effects}
use counter_drone_server.Processor.Activity.{active_iff_recent, future_packet_inactive}

-- At 200 metres, with 20 metres a second.
abbrev high : TelemetryData
high = record {
  drone_id = 68 ∷ 50 ∷ [];
  latitude = 0;
  longitude = 0;
  altitude = 0x4069000000000000;
  speed = 0x4034000000000000;
  timestamp = 1700000000000;
}

-- Another drone at 100 metres, with 60 metres a second.
abbrev fast : TelemetryData
fast = record {
  drone_id = 68 ∷ 49 ∷ [];
  latitude = 0;
  longitude = 0;
  altitude = 0x4059000000000000;
  speed = 0x404E000000000000;
  timestamp = 1700000031000;
}

abbrev fresh : Processor
fresh = record {
  shared_telemetry_packets_manager = record { shared_data = [] };
  drones_status = [];
  printed = [];
}

abbrev first_round : Round
first_round = record {
  arrived = high ∷ fast ∷ [];
  running_at_wake = true;
  running = true;
  now = 1700000000500;
}

abbrev last_round : Round
last_round = record { arrived = []; running_at_wake = true; running = true; now = 1700000031000 }

abbrev two_rounds : List Round
two_rounds = first_round ∷ last_round ∷ []

popped_both : popped two_rounds fresh ≡ high ∷ fast ∷ []
unfolding process_loop round on_telemetry refresh assign pop_data_with_timeout push_data
popped_both = refl

process_loop-table_example :
    find (68 ∷ 50 ∷ []) (process_loop two_rounds fresh).drones_status
    ≡ some (record { active = false; telemetry = high })
unfolding process_loop round on_telemetry refresh assign pop_data_with_timeout push_data
process_loop-table_example = process_loop-table (68 ∷ 50 ∷ []) (first_round ∷ []) last_round fresh

process_loop-effects_example :
    (popped two_rounds fresh
        ++ (process_loop two_rounds fresh).shared_telemetry_packets_manager.shared_data
      ≡ high ∷ fast ∷ [])
    × ((process_loop two_rounds fresh).printed
        ≡ high_altitude (68 ∷ 50 ∷ []) 0x4069000000000000
          ∷ high_speed (68 ∷ 49 ∷ []) 0x404E000000000000
          ∷ [])
unfolding process_loop round on_telemetry refresh assign pop_data_with_timeout push_data
process_loop-effects_example = process_loop-effects two_rounds fresh

active_iff_recent_example :
    (true ≡ true) ↔ ((1700000031000 ≤ 1700000031000) × (1700000031000 ≤ 1700000031000 + 30000))
unfolding process_loop round on_telemetry refresh assign pop_data_with_timeout push_data
active_iff_recent_example =
    active_iff_recent (68 ∷ 49 ∷ []) (first_round ∷ []) last_round fresh
      (record { active = true; telemetry = fast }) refl (omega arith) (omega arith) (omega arith)

-- The second packet alone, at the time of the first round.
abbrev early_round : Round
early_round = record {
  arrived = fast ∷ [];
  running_at_wake = true;
  running = true;
  now = 1700000030999;
}

future_packet_inactive_example :
    find (68 ∷ 49 ∷ []) (round early_round fresh).drones_status
    ≡ some (record { active = false; telemetry = fast })
unfolding pop_data_with_timeout push_data
future_packet_inactive_example =
    future_packet_inactive early_round fresh fast refl (omega arith) (omega arith) (omega arith)
