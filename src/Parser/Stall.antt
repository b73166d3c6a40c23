-- ===== src/Parser/Stall.antt =====
-- Heart-beat and command packets: `process_heart_beat_payload` and `process_command_payload` are
-- empty, and the state machine does not leave READ_PAYLOAD.
use counter_drone_server.Base.{
  ℕ, ◌+◌, ◌≤◌, ◌≡◌, refl, sym, ap, ◌∙◌, arith, List, [], ◌∷◌, ◌++◌, append-nil, true, ok, leb,
  Bool-cases, inl, inr, length,
}
use counter_drone_server.Packet.{
  BytesArray, TypeMsg, telemetry, heart_beat, command, unknow, other, type_msg_of, header_byte_0,
  header_byte_1,
}
use counter_drone_server.Parser.{
  ParserState, wait_for_sync, read_type, read_length, read_payload, Machine, Turn, wait, count_type,
  on_type, on_length, on_payload, process_heart_beat_payload, process_command_payload,
  total_packet_size, on_read_payload, on_state, step, next_round, SensorDataParser, process_batch,
  process_loop, big_endian,
}
use counter_drone_server.Parser.Deserialize.{View}
use counter_drone_server.Parser.Closed.{on_read_type_long, on_read_length_long}
use counter_drone_server.Parser.Sync.{sync}
use counter_drone_server.Parser.Progress.{measure}
use counter_drone_server.Parser.Chunks.{run, run-nil, run-step, step-sync}
use counter_drone_server.Parser.Frame.{run_round}
use counter_drone_server.Parser.Stream.{
  receive, receive_twice, bytes_of, stream_of, process-ok, process_batch_lem,
}

-- The types whose handlers are empty.
abbrev pub IsIgnored : TypeMsg → Type 0
IsIgnored heart_beat = Unit
IsIgnored command = Unit
IsIgnored telemetry = ⊥
IsIgnored unknow = ⊥
IsIgnored (other n) = ⊥

payload_waits :
    (ty : TypeMsg) (v : View) (m : Machine) → IsIgnored ty → on_payload ty v m ≡ ok (wait v m)
unfolding on_payload process_heart_beat_payload process_command_payload
payload_waits heart_beat v m h = refl
payload_waits command v m h = refl
payload_waits telemetry v m h = absurd h
payload_waits unknow v m h = absurd h
payload_waits (other n) v m h = absurd h

-- A machine that reads the payload of such a packet.
abbrev pub IsStuck : Machine → Type 0
IsStuck m = (m.state ≡ read_payload) × IsIgnored m.type

read_payload_waits :
    (v : View) (m : Machine) → IsIgnored m.type → on_read_payload v m ≡ ok (wait v m)
unfolding on_read_payload
read_payload_waits v m ignored = elim (Bool-cases (leb (total_packet_size m) (length v))) [
  | inl fits ↦ rw fits (payload_waits m.type v m ignored)
  | inr short ↦ rw short refl
]

step_waits : (v : View) (m : Machine) → IsStuck m → step v m ≡ ok (wait v m)
unfolding step on_state
step_waits v m (s, ignored) =
    ap (λ (state : ParserState). on_state state v m) s ∙ read_payload_waits v m ignored

run_waits : (v : View) (m : Machine) → IsStuck m → run v m ≡ ok (v, m)
run_waits [] m stuck = run-nil m
run_waits (x ∷ v) m stuck =
    run-step x v m (measure (x ∷ v) m) (omega arith)
    ∙ rw (step_waits (x ∷ v) m stuck) (unfold next_round in refl)

process_batch_waits :
    (chunks : List BytesArray) (p : SensorDataParser)
    → IsStuck p.machine
    → process_batch chunks p ≡ ok (receive (bytes_of chunks) p)
process_batch_waits chunks p stuck =
    process_batch_lem chunks p
    ∙ process-ok (receive (bytes_of chunks) p) (p.accumulated_data ++ bytes_of chunks) p.machine
        (run_waits (p.accumulated_data ++ bytes_of chunks) p.machine stuck)

-- Once the machine reads the payload of a heart-beat or command packet, all that any later batches
-- do is to pile up: no byte is consumed, no packet accepted and no counter changed.
pub process_loop_stuck :
    (batches : List (List BytesArray)) (p : SensorDataParser)
    → IsStuck p.machine
    → process_loop batches p ≡ ok (receive (stream_of batches) p)
unfolding process_loop
process_loop_stuck [] p stuck =
    ap ok (λ i. record p { accumulated_data = sym (append-nil p.accumulated_data) i })
process_loop_stuck (batch ∷ batches) p stuck = rw (process_batch_waits batch p stuck) (
    process_loop_stuck batches (receive (bytes_of batch) p) stuck
    ∙ ap ok (receive_twice (bytes_of batch) (stream_of batches) p))

-- The members when a heart-beat or command packet of `n` bytes of payload has been recognised.
count_ignored : TypeMsg → Machine → Machine
count_ignored heart_beat m = record m { heart_beat_pkt_count = m.heart_beat_pkt_count + 1 }
count_ignored command m = record m { cmd_pkt_count = m.cmd_pkt_count + 1 }
count_ignored telemetry m = m
count_ignored unknow m = m
count_ignored (other n) m = m

count_ignored_packets :
    (ty : TypeMsg) (m : Machine)
    → (count_ignored ty m).received_valid_packets ≡ m.received_valid_packets
unfolding count_ignored
count_ignored_packets ty m = ground arith

count_ignored_queue :
    (ty : TypeMsg) (m : Machine)
    → (count_ignored ty m).telemetry_packets_manager ≡ m.telemetry_packets_manager
unfolding count_ignored
count_ignored_queue ty m = ground arith

abbrev recognised : TypeMsg → ℕ → Machine → Machine
recognised ty n m = record (count_ignored ty m) {
  type = ty;
  expected_payload_length = n;
  state = read_payload;
}

type_recognised :
    (ty : TypeMsg) (v : View) (m : Machine)
    → IsIgnored ty
    → on_type ty v (record m { state = read_type })
      ≡ ok (record {
        state_changed = true;
        view = v;
        machine = record (count_ignored ty m) { type = ty; state = read_length };
      })
unfolding on_type count_type count_ignored
type_recognised heart_beat v m h = refl
type_recognised command v m h = refl
type_recognised telemetry v m h = absurd h
type_recognised unknow v m h = absurd h
type_recognised (other n) v m h = absurd h

module _ (code hi lo : ℕ) (w : View) (m : Machine) (ty : TypeMsg) (ignored : IsIgnored ty) where
  abbrev header : View
  header = header_byte_0 ∷ header_byte_1 ∷ code ∷ hi ∷ lo ∷ w

  abbrev go_on : Machine → Turn
  go_on k = record { state_changed = true; view = header; machine = k }

  abbrev counted : Machine
  counted = record (count_ignored ty m) { type = ty; state = read_length }

  header_found :
      m.state ≡ wait_for_sync → step header m ≡ ok (go_on (record m { state = read_type }))
  unfolding sync
  header_found e = step-sync header_byte_0 _ m e

  type_found :
      type_msg_of code ≡ ty → step header (record m { state = read_type }) ≡ ok (go_on counted)
  unfolding step on_state count_ignored
  type_found e =
      on_read_type_long header (record m { state = read_type }) (omega arith)
      ∙ rw e (type_recognised ty header m ignored)

  length_found :
      (n : ℕ)
      → big_endian hi lo ≡ n
      → 40 ≤ n
      → n ≤ 80
      → step header counted ≡ ok (go_on (recognised ty n m))
  unfolding step on_state on_length
  length_found n e small large =
      on_read_length_long header counted (omega arith) ∙ rw e (ground arith)

  -- The five bytes that open such a packet lead there.
  run_ignored :
      (n : ℕ)
      → type_msg_of code ≡ ty
      → big_endian hi lo ≡ n
      → 40 ≤ n
      → n ≤ 80
      → m.state ≡ wait_for_sync
      → run header m ≡ ok (header, recognised ty n m)
  run_ignored n typed e small large waits =
      run_round _ _ m (go_on (record m { state = read_type })) (header_found waits) refl
      ∙ run_round _ _ (record m { state = read_type }) (go_on counted) (type_found typed) refl
      ∙ run_round _ _ counted (go_on (recognised ty n m)) (length_found n e small large) refl
      ∙ run_waits header (recognised ty n m) (refl, ignored)

-- A heart-beat or command packet stops the parser for good. When the buffer is empty and such a
-- packet's first five bytes arrive, with a length in range, then whatever comes with them and after
-- them is only stored: every byte stays in the buffer, no packet is accepted and nothing reaches
-- the queue, for all batches to come.
pub heart_beat_stalls :
    (code hi lo n : ℕ) (w : BytesArray) (ty : TypeMsg) (p : SensorDataParser)
    (batches : List (List BytesArray))
    → p.accumulated_data ≡ []
    → p.machine.state ≡ wait_for_sync
    → IsIgnored ty
    → type_msg_of code ≡ ty
    → big_endian hi lo ≡ n
    → 40 ≤ n
    → n ≤ 80
    → (q : SensorDataParser) × (process_loop
          (((header_byte_0 ∷ header_byte_1 ∷ code ∷ hi ∷ lo ∷ w) ∷ []) ∷ batches)
          p
        ≡ ok q)
      × (q.accumulated_data
          ≡ (header_byte_0 ∷ header_byte_1 ∷ code ∷ hi ∷ lo ∷ w) ++ stream_of batches)
      × (q.machine.received_valid_packets ≡ p.machine.received_valid_packets)
      × (q.machine.telemetry_packets_manager ≡ p.machine.telemetry_packets_manager)
unfolding process_loop
heart_beat_stalls code hi lo n w ty p batches empty waits ignored typed e small large = (
  receive (stream_of batches) stuck,
  rw first (process_loop_stuck batches stuck (refl, ignored)),
  refl,
  count_ignored_packets ty p.machine,
  count_ignored_queue ty p.machine,
)
  where
    packet : BytesArray
    packet = header_byte_0 ∷ header_byte_1 ∷ code ∷ hi ∷ lo ∷ w

    stuck : SensorDataParser
    stuck = record { accumulated_data = packet; machine = recognised ty n p.machine }

    whole : p.accumulated_data ++ bytes_of (packet ∷ []) ≡ packet
    whole = ap (λ (b : BytesArray). b ++ bytes_of (packet ∷ [])) empty ∙ append-nil packet

    first : process_batch (packet ∷ []) p ≡ ok stuck
    first =
        process_batch_lem (packet ∷ []) p
        ∙ process-ok (receive (bytes_of (packet ∷ [])) p) packet (recognised ty n p.machine) (
            ap (λ b. run b p.machine) whole
            ∙ run_ignored code hi lo w p.machine ty ignored n typed e small large waits)
