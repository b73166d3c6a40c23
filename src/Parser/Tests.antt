-- ===== src/Parser/Tests.antt =====
-- The parser's theorems at small streams.
use counter_drone_server.Base.{
  ℕ, zero, suc, ◌/◌, ◌^◌, ◌≤◌, ◌≡◌, ◌≢◌, ◌⊎◌, inl, inr, refl, arith, List, [], ◌∷◌, ◌++◌, ok, fault,
  out_of_fuel, All,
}
use counter_drone_server.Packet.{u8, BytesArray, TelemetryData, telemetry, heart_beat, unknow}
use counter_drone_server.SharedQueue.{SharedDataManager}
use counter_drone_server.Parser.{
  wait_for_sync, read_length, read_payload, Machine, SensorDataParser, new_parser, find_sync,
  after_sync_search, on_wait_for_sync, count_type, on_type, on_read_type, on_read_length, on_state,
  step, next_round, loop, process_accumulated_data, insert_chunks, process_batch, process_loop,
}
use counter_drone_server.Packet.Crc.{calculate_crc16}
use counter_drone_server.Parser.Stream.{receive, stream_of, process_loop-stream}
use counter_drone_server.Parser.Valid.{IsFrame}
use counter_drone_server.Parser.Sound.{received_packets_valid}
use counter_drone_server.Parser.Bounded.{buffer_bounded}
use counter_drone_server.Parser.Faults.{Overruns, step_faults, process_accumulated_data_ends}
use counter_drone_server.Parser.Stall.{IsStuck, heart_beat_stalls}

abbrev no_packets : SharedDataManager TelemetryData
no_packets = record { shared_data = [] }

abbrev fresh_machine : Machine
fresh_machine = record {
  state = wait_for_sync;
  expected_payload_length = 0;
  type = unknow;
  telemetry_packets_manager = no_packets;
  received_valid_packets = [];
  crc_errors_count = 0;
  invalid_structure_count = 0;
  telemetry_pkt_count = 0;
  heart_beat_pkt_count = 0;
  cmd_pkt_count = 0;
}

abbrev fresh : SensorDataParser
fresh = record { accumulated_data = []; machine = fresh_machine }

-- A header cut in two, then a type and one byte of a length.
abbrev cut : List (List BytesArray)
cut = ((7 ∷ 0xAA ∷ []) ∷ []) ∷ ((0x55 ∷ []) ∷ (1 ∷ 0 ∷ []) ∷ []) ∷ []

abbrev typed : SensorDataParser
typed = record {
  accumulated_data = 0xAA ∷ 0x55 ∷ 1 ∷ 0 ∷ [];
  machine = record fresh_machine { state = read_length; type = telemetry; telemetry_pkt_count = 1 };
}

cut-typed : process_loop cut fresh ≡ ok typed
unfolding process_loop process_batch insert_chunks process_accumulated_data loop next_round step
    on_state on_wait_for_sync find_sync after_sync_search on_read_type on_type count_type
    on_read_length
cut-typed = refl

process_loop-stream_example :
    process_accumulated_data (receive (7 ∷ 0xAA ∷ 0x55 ∷ 1 ∷ 0 ∷ []) fresh) ≡ ok typed
process_loop-stream_example =
    process_loop-stream ((7 ∷ 0xAA ∷ []) ∷ []) (((0x55 ∷ []) ∷ (1 ∷ 0 ∷ []) ∷ []) ∷ []) fresh typed
      cut-typed

received_packets_valid_example : All IsFrame [] × (0 ≤ 1)
unfolding new_parser
received_packets_valid_example = received_packets_valid no_packets cut typed cut-typed

buffer_bounded_example : (4 ≤ 86) ⊎ IsStuck typed.machine
unfolding new_parser
buffer_bounded_example = buffer_bounded no_packets cut typed cut-typed

process_accumulated_data_ends_example : process_accumulated_data typed ≢ out_of_fuel
process_accumulated_data_ends_example = process_accumulated_data_ends typed

abbrev reading : Machine
reading = record fresh_machine {
  state = read_payload;
  type = telemetry;
  expected_payload_length = 40;
}

abbrev zeros : ℕ → BytesArray
zeros zero = []
zeros (suc n) = 0 ∷ zeros n

-- A packet of forty bytes of payload, whose first states an identifier of 200 bytes.
abbrev overlong : BytesArray
overlong = 0x55 ∷ 1 ∷ 0 ∷ 40 ∷ 200 ∷ zeros 39

abbrev overlong_crc : ℕ
overlong_crc = calculate_crc16 (0xAA ∷ overlong)

abbrev overlong_packet : BytesArray
overlong_packet = overlong ++ u8 (overlong_crc / 2 ^ 8) ∷ u8 overlong_crc ∷ []

overlong-Overruns : Overruns (0xAA ∷ overlong_packet) reading
unfolding calculate_crc16
overlong-Overruns = record {
  reading = refl;
  type = refl;
  fits = omega arith;
  crc = refl;
  overrun = omega arith;
}

overlong_faults : step (0xAA ∷ overlong_packet) reading ≡ fault
overlong_faults = elim (step_faults 0xAA overlong_packet reading) [
  | inl (o, e) ↦ e
  | inr (n, result) ↦ absurd (n overlong-Overruns)
]

abbrev pulse : BytesArray
pulse = 0xAA ∷ 0x55 ∷ 2 ∷ 0 ∷ 40 ∷ 9 ∷ []

heart_beat_stalls_example :
    (q : SensorDataParser) × (process_loop ((pulse ∷ []) ∷ cut) fresh ≡ ok q)
    × (q.accumulated_data ≡ pulse ++ stream_of cut)
    × (q.machine.received_valid_packets ≡ [])
    × (q.machine.telemetry_packets_manager ≡ no_packets)
heart_beat_stalls_example =
    heart_beat_stalls 2 0 40 40 (9 ∷ []) heart_beat fresh cut refl refl tt refl refl (omega arith)
      (omega arith)
