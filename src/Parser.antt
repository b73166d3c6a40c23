-- ===== src/Parser.antt =====
-- include/SensorDataParser.h and src/SensorDataParser.cpp: the state machine that finds telemetry
-- packets in a stream of bytes.
pub mod Deserialize
pub mod Payload
pub mod Closed
pub mod Sync
pub mod Rounds
pub mod Progress
pub mod Stops
pub mod Chunks
pub mod Stream
pub mod Frame
pub mod Kept
pub mod Valid
pub mod Sound
pub mod Faults
pub mod Tallies
pub mod Stall
pub mod Bounded
pub mod Partial
mod Tests
use counter_drone_server.Base.{
  ℕ, zero, suc, ◌+◌, ◌-◌, ◌*◌, ◌%◌, ◌^◌, List, [], ◌∷◌, ◌++◌, Bool, true, false, ◌&&◌, ◌||◌, Option,
  none, some, Outcome, ok, fault, out_of_fuel, ◌>>=◌, defined, ltb, leb, ◌==◌, if◌then◌else◌,
  length, get_elem?, take, drop, bit_or,
}
use counter_drone_server.Packet.{
  BytesArray, TypeMsg, telemetry, heart_beat, command, unknow, other, type_msg_of, TelemetryData,
  u16, header_size_bytes, type_size_bytes, length_size_bytes, crc_size_bytes, type_starting_idx,
  length_starting_idx, payload_starting_idx, header_byte_0, header_byte_1,
}
use counter_drone_server.Packet.Crc.{calculate_crc16}
use counter_drone_server.SharedQueue.{SharedDataManager, push_data}
use Deserialize.{View, read, prefix, remove_prefix, deserialize_payload}

pub data ParserState : Type 0 where
  wait_for_sync read_type read_length read_payload : ParserState

abbrev pub min_payload_exp_length : ℕ
min_payload_exp_length = 40

abbrev pub max_payload_exp_length : ℕ
max_payload_exp_length = 80

-- The members that the state machine works on: all but `m_accumulated_data`, which the loop leaves
-- alone. A counter is a number without bound.
pub record Machine : Type 0 where
  pub state : ParserState
  pub expected_payload_length : ℕ
  pub type : TypeMsg
  pub telemetry_packets_manager : SharedDataManager TelemetryData
  pub received_valid_packets : List BytesArray
  pub crc_errors_count : ℕ
  pub invalid_structure_count : ℕ
  pub telemetry_pkt_count : ℕ
  pub heart_beat_pkt_count : ℕ
  pub cmd_pkt_count : ℕ

-- `class SensorDataParser`
pub record SensorDataParser : Type 0 where
  pub accumulated_data : BytesArray
  pub machine : Machine

-- What one round of the loop leaves: `state_changed`, the view, and the members.
pub record Turn : Type 0 where
  pub state_changed : Bool
  pub view : View
  pub machine : Machine

-- The constructor, over the shared queue it is given.
unfoldable pub new_parser : SharedDataManager TelemetryData → SensorDataParser
new_parser manager = record {
  accumulated_data = [];
  machine = record {
    state = wait_for_sync;
    expected_payload_length = 0;
    type = unknow;
    telemetry_packets_manager = manager;
    received_valid_packets = [];
    crc_errors_count = 0;
    invalid_structure_count = 0;
    telemetry_pkt_count = 0;
    heart_beat_pkt_count = 0;
    cmd_pkt_count = 0;
  };
}

-- The search loop of WAIT_FOR_SYNC over the bytes from `sync_index` on; `none` if the loop ends
-- with `sync_found` false. It stops one byte before the end.
pub find_sync : ℕ → View → Option ℕ
find_sync sync_index [] = none
find_sync sync_index (a ∷ []) = none
find_sync sync_index (a ∷ b ∷ rest) =
    if a == header_byte_0 && b == header_byte_1
    then some sync_index
    else find_sync (sync_index + 1) (b ∷ rest)

-- `case ParserState::WAIT_FOR_SYNC`
pub after_sync_search : Option ℕ → View → Machine → Outcome Turn
after_sync_search (some sync_index) view m = do
  view' ← remove_prefix view sync_index
  ok (record { state_changed = true; view = view'; machine = record m { state = read_type } })
after_sync_search none view m = do
  last ← read view (length view - 1)
  let dropped = if last == header_byte_0 then length view - 1 else length view
  view' ← remove_prefix view dropped
  ok (record { state_changed = false; view = view'; machine = m })

pub on_wait_for_sync : View → Machine → Outcome Turn
on_wait_for_sync view m = after_sync_search (find_sync 0 view) view m

-- The types that READ_TYPE accepts: which counter goes up.
pub count_type : TypeMsg → Machine → Option Machine
count_type telemetry m = some (record m { telemetry_pkt_count = m.telemetry_pkt_count + 1 })
count_type heart_beat m = some (record m { heart_beat_pkt_count = m.heart_beat_pkt_count + 1 })
count_type command m = some (record m { cmd_pkt_count = m.cmd_pkt_count + 1 })
count_type unknow m = none
count_type (other n) m = none

-- The inner `switch (type_val)`
pub on_type : TypeMsg → View → Machine → Outcome Turn
on_type type_val view m = elim (count_type type_val m) [
  | some counted ↦ ok (record {
    state_changed = true;
    view = view;
    machine = record counted { type = type_val; state = read_length };
  })
  | none ↦ do
    view' ← remove_prefix view header_size_bytes
    ok (record {
      state_changed = true;
      view = view';
      machine = record m { crc_errors_count = m.crc_errors_count + 1; state = wait_for_sync };
    })
]

-- A round that leaves everything as it was, to wait for more bytes.
abbrev pub wait : View → Machine → Turn
wait view m = record { state_changed = false; view = view; machine = m }

-- `case ParserState::READ_TYPE`
pub on_read_type : View → Machine → Outcome Turn
on_read_type view m =
    if leb (header_size_bytes + type_size_bytes) (length view)
    then (read view type_starting_idx >>= λ byte. on_type (type_msg_of byte) view m)
    else ok (wait view m)

-- `(hi << 8) | lo`, as a `uint16_t`
abbrev pub big_endian : ℕ → ℕ → ℕ
big_endian hi lo = u16 (bit_or (hi * 2 ^ 8) lo)

pub on_length : ℕ → View → Machine → Outcome Turn
on_length len view m =
    if ltb len min_payload_exp_length || ltb max_payload_exp_length len
    then (remove_prefix view header_size_bytes >>= λ view'. ok (record {
      state_changed = true;
      view = view';
      machine = record m {
        expected_payload_length = len;
        invalid_structure_count = m.invalid_structure_count + 1;
        state = wait_for_sync;
      };
    }))
    else ok (record {
      state_changed = true;
      view = view;
      machine = record m { expected_payload_length = len; state = read_payload };
    })

-- `case ParserState::READ_LENGTH`
pub on_read_length : View → Machine → Outcome Turn
on_read_length view m =
    let reads = do
      hi ← read view length_starting_idx
      lo ← read view (length_starting_idx + 1)
      on_length (big_endian hi lo) view m
    in if leb (header_size_bytes + type_size_bytes + length_size_bytes) (length view)
      then reads
      else ok (wait view m)

-- The accepting branch of `process_telemetry_payload`, before the state is reset.
pub accept : View → Machine → ℕ → Outcome (View × Machine)
accept view m total_packet_size = do
  packet ← prefix view total_packet_size
  payload ← remove_prefix view payload_starting_idx
  item ← deserialize_payload payload
  view' ← remove_prefix view total_packet_size
  ok (
    view',
    record m {
      received_valid_packets = m.received_valid_packets ++ packet ∷ [];
      telemetry_packets_manager = push_data m.telemetry_packets_manager item;
    },
  )

-- The other branch: one byte is dropped.
pub reject : View → Machine → Outcome (View × Machine)
reject view m = do
  view' ← remove_prefix view 1
  ok (view', record m { crc_errors_count = m.crc_errors_count + 1 })

-- The comparison of the two checksums.
pub check_crc : BytesArray → ℕ → View → Machine → ℕ → Outcome (View × Machine)
check_crc without_crc received_crc view m total_packet_size =
    if calculate_crc16 without_crc == received_crc
    then accept view m total_packet_size
    else reject view m

-- The two assignments at the end.
pub back_to_sync : View × Machine → Outcome Turn
back_to_sync (view, m) =
    ok (record { state_changed = true; view = view; machine = record m { state = wait_for_sync } })

-- `process_telemetry_payload`
pub process_telemetry_payload : View → Machine → ℕ → Outcome Turn
process_telemetry_payload view m total_packet_size = do
  without_crc ← prefix view (total_packet_size - 2)
  hi ← read view (total_packet_size - 2)
  lo ← read view (total_packet_size - 1)
  checked ← check_crc without_crc (big_endian hi lo) view m total_packet_size
  back_to_sync checked

-- `process_heart_beat_payload` and `process_command_payload` have empty bodies.
pub process_heart_beat_payload : View → Machine → Outcome Turn
process_heart_beat_payload view m = ok (wait view m)

pub process_command_payload : View → Machine → Outcome Turn
process_command_payload view m = ok (wait view m)

abbrev pub total_packet_size : Machine → ℕ
total_packet_size m =
    header_size_bytes + type_size_bytes + length_size_bytes + m.expected_payload_length
    + crc_size_bytes

-- The inner `switch (m_type)`; its default only prints.
pub on_payload : TypeMsg → View → Machine → Outcome Turn
on_payload telemetry view m = process_telemetry_payload view m (total_packet_size m)
on_payload heart_beat view m = process_heart_beat_payload view m
on_payload command view m = process_command_payload view m
on_payload unknow view m = ok (wait view m)
on_payload (other n) view m = ok (wait view m)

-- `case ParserState::READ_PAYLOAD`
pub on_read_payload : View → Machine → Outcome Turn
on_read_payload view m =
    if leb (total_packet_size m) (length view) then on_payload m.type view m else ok (wait view m)

pub on_state : ParserState → View → Machine → Outcome Turn
on_state wait_for_sync = on_wait_for_sync
on_state read_type = on_read_type
on_state read_length = on_read_length
on_state read_payload = on_read_payload

-- One round of the loop of `process_accumulated_data`: the outer `switch (m_state)`.
pub step : View → Machine → Outcome Turn
step view m = on_state m.state view m

-- The loop, from a round that has set `state_changed`: it goes on while that is set and bytes are
-- left.
pub next_round : (View → Machine → Outcome (View × Machine)) → Turn → Outcome (View × Machine)
next_round more t = elim t.state_changed [
  | true ↦ more t.view t.machine
  | false ↦ ok (t.view, t.machine)
]

pub loop : ℕ → View → Machine → Outcome (View × Machine)
loop fuel [] m = ok ([], m)
loop zero (b ∷ view) m = out_of_fuel
loop (suc fuel) (b ∷ view) m = step (b ∷ view) m >>= next_round (loop fuel)

-- Rounds that are always enough.
abbrev pub enough_rounds : ℕ → ℕ
enough_rounds bytes = 4 * bytes + 4

-- `m_accumulated_data.erase(begin, begin + processed_bytes)` for the bytes that the view has passed.
abbrev pub erase_processed : BytesArray → View × Machine → SensorDataParser
erase_processed bytes (view, m) = record {
  accumulated_data = drop (length bytes - length view) bytes;
  machine = m;
}

pub process_accumulated_data : SensorDataParser → Outcome SensorDataParser
process_accumulated_data p = do
  result ← loop (enough_rounds (length p.accumulated_data)) p.accumulated_data p.machine
  ok (erase_processed p.accumulated_data result)

-- `m_accumulated_data.insert(end, chunk)` for each chunk of a batch.
pub insert_chunks : List BytesArray → SensorDataParser → SensorDataParser
insert_chunks [] p = p
insert_chunks (chunk ∷ chunks) p =
    insert_chunks chunks (record p { accumulated_data = p.accumulated_data ++ chunk })

-- The body of `process_loop` after `pop_all` has given a batch of chunks.
pub process_batch : List BytesArray → SensorDataParser → Outcome SensorDataParser
process_batch chunks p = process_accumulated_data (insert_chunks chunks p)

-- `process_loop` over the batches that `pop_all` gives until the system stops.
pub process_loop : List (List BytesArray) → SensorDataParser → Outcome SensorDataParser
process_loop [] p = ok p
process_loop (batch ∷ batches) p = process_batch batch p >>= process_loop batches
