-- ===== src/Parser/Tallies.antt =====
-- The counters of the parser in one round, and the round's undefined behaviour with them.
use counter_drone_server.Base.{◌+◌, ◌≤◌, ◌<◌}
use counter_drone_server.Packet.{int_max}
use counter_drone_server.Parser.{Machine}

-- No counter goes up by more than one.
abbrev Tallies : Machine → Machine → Type 0
Tallies m n =
    (n.crc_errors_count ≤ m.crc_errors_count + 1)
    × (n.invalid_structure_count ≤ m.invalid_structure_count + 1)
    × (n.telemetry_pkt_count ≤ m.telemetry_pkt_count + 1)
    × (n.heart_beat_pkt_count ≤ m.heart_beat_pkt_count + 1)
    × (n.cmd_pkt_count ≤ m.cmd_pkt_count + 1)

-- The counters are values of `int`, and can be counted up.
abbrev pub IsInt : Machine → Type 0
IsInt m =
    (m.crc_errors_count ≤ int_max)
    × (m.invalid_structure_count ≤ int_max)
    × (m.telemetry_pkt_count ≤ int_max)
    × (m.heart_beat_pkt_count ≤ int_max)
    × (m.cmd_pkt_count ≤ int_max)

abbrev pub IsBelowMax : Machine → Type 0
IsBelowMax m =
    (m.crc_errors_count < int_max)
    × (m.invalid_structure_count < int_max)
    × (m.telemetry_pkt_count < int_max)
    × (m.heart_beat_pkt_count < int_max)
    × (m.cmd_pkt_count < int_max)
