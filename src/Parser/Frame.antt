-- ===== src/Parser/Frame.antt =====
-- A view that begins with a whole telemetry frame: header, type, a length in range, and as many
-- bytes as the length says. Three rounds lead to the comparison of the checksums.
use counter_drone_server.Base.{
  ℕ, suc, ◌+◌, ◌-◌, ◌≤◌, ◌≡◌, ◌≢◌, refl, ap, ◌∙◌, arith, [], ◌∷◌, ◌++◌, true, ok, ◌>>=◌, ==_iff,
  ==_ne, leb, le→leb, length, take, drop,
}
use counter_drone_server.Packet.{
  BytesArray, TelemetryData, telemetry, header_byte_0, header_byte_1, telemetry_code,
}
use counter_drone_server.Packet.Crc.{calculate_crc16}
use counter_drone_server.SharedQueue.{push_data}
use counter_drone_server.Parser.{
  wait_for_sync, read_type, read_length, read_payload, Machine, Turn, count_type, on_type,
  on_length, reject, check_crc, back_to_sync, total_packet_size, process_telemetry_payload,
  on_payload, on_read_payload, on_state, step, next_round, loop, accept, big_endian,
}
use counter_drone_server.Parser.Deserialize.{View, deserialize_payload}
use counter_drone_server.Parser.Closed.{
  carried_crc, on_read_type_long, on_read_length_long, process_telemetry_payload_long,
}
use counter_drone_server.Parser.Sync.{sync}
use counter_drone_server.Parser.Progress.{measure, step_progress}
use counter_drone_server.Parser.Chunks.{run, run-step, loop-run, step-sync}

-- A round that goes on may be made first.
pub run_round :
    (x : ℕ) (v : View) (m : Machine) (t : Turn)
    → step (x ∷ v) m ≡ ok t
    → t.state_changed ≡ true
    → run (x ∷ v) m ≡ run t.view t.machine
run_round x v m t e on =
    let fuel : ℕ = measure (x ∷ v) m in
    let round : (step (x ∷ v) m >>= next_round (loop fuel)) ≡ loop fuel t.view t.machine =
      unfold next_round in rw (e, on) refl in
    run-step x v m fuel (omega arith)
    ∙ round
    ∙ loop-run fuel t.view t.machine (step_progress x v m t e on)

-- The members when the machine has read the type and the length of a telemetry frame.
abbrev pub typed : Machine → Machine
typed m = record m {
  telemetry_pkt_count = m.telemetry_pkt_count + 1;
  type = telemetry;
  state = read_length;
}

abbrev pub measured : ℕ → Machine → Machine
measured n m = record (typed m) { expected_payload_length = n; state = read_payload }

-- The members after a frame of `n` bytes of payload has been accepted.
abbrev pub accepted : ℕ → BytesArray → TelemetryData → Machine → Machine
accepted n packet t m = record (measured n m) {
  received_valid_packets = m.received_valid_packets ++ packet ∷ [];
  telemetry_packets_manager = push_data m.telemetry_packets_manager t;
  state = wait_for_sync;
}

-- The members after its checksum was found wrong.
abbrev pub rejected : ℕ → Machine → Machine
rejected n m = record (measured n m) {
  crc_errors_count = m.crc_errors_count + 1;
  state = wait_for_sync;
}

-- The bytes of a frame, with what follows its length.
abbrev pub frame : ℕ → ℕ → View → View
frame hi lo w = header_byte_0 ∷ header_byte_1 ∷ telemetry_code ∷ hi ∷ lo ∷ w

module _ (hi lo : ℕ) (w : View) (m : Machine) where
  -- The next round is on the same view.
  abbrev stay : Machine → Turn
  stay k = record { state_changed = true; view = (frame hi lo w); machine = k }

  header_step :
      m.state ≡ wait_for_sync → step (frame hi lo w) m ≡ ok (stay (record m { state = read_type }))
  unfolding sync
  header_step e = step-sync header_byte_0 _ m e

  type_step : step (frame hi lo w) (record m { state = read_type }) ≡ ok (stay (typed m))
  unfolding step on_state on_type count_type
  type_step = on_read_type_long (frame hi lo w) (record m { state = read_type }) (omega arith)

  length_step :
      (n : ℕ)
      → big_endian hi lo ≡ n
      → 40 ≤ n
      → n ≤ 80
      → step (frame hi lo w) (typed m) ≡ ok (stay (measured n m))
  unfolding step on_state on_length
  length_step n e small large =
      on_read_length_long (frame hi lo w) (typed m) (omega arith) ∙ rw e (ground arith)

  payload_step :
      (n : ℕ)
      → n + 2 ≤ length w
      → step (frame hi lo w) (measured n m) ≡ (
          check_crc
            (take (n + 5) (frame hi lo w))
            (carried_crc (frame hi lo w) (n + 7))
            (frame hi lo w)
            (measured n m)
            (n + 7)
          >>= back_to_sync)
  unfolding step on_state on_read_payload on_payload
  payload_step n fits =
      let k : Machine = measured n m in
      let total : total_packet_size k ≡ n + 7 = omega arith in
      let without : n + 7 - 2 ≡ n + 5 = omega arith in
      let whole : leb (total_packet_size k) (length (frame hi lo w)) ≡ true =
        le→leb (total_packet_size k) (length (frame hi lo w)) (omega arith) in
      let checks : process_telemetry_payload (frame hi lo w) k (n + 7) ≡ (
          check_crc (take (n + 7 - 2) (frame hi lo w)) (carried_crc (frame hi lo w) (n + 7))
            (frame hi lo w) k (n + 7)
          >>= back_to_sync) =
        process_telemetry_payload_long (frame hi lo w) k (n + 7) (omega arith) (omega arith) in
      rw whole (
        ap (process_telemetry_payload (frame hi lo w) k) total
        ∙ checks
        ∙ ap
            (λ b.
              check_crc (take b (frame hi lo w)) (carried_crc (frame hi lo w) (n + 7))
                (frame hi lo w) k (n + 7)
              >>= back_to_sync)
            without)

  -- Up to the comparison of the checksums the frame stays in view.
  pub run-frame :
      (n : ℕ)
      → m.state ≡ wait_for_sync
      → big_endian hi lo ≡ n
      → 40 ≤ n
      → n ≤ 80
      → run (frame hi lo w) m ≡ run (frame hi lo w) (measured n m)
  run-frame n waits e small large =
      run_round _ _ m (stay (record m { state = read_type })) (header_step waits) refl
      ∙ run_round _ _ (record m { state = read_type }) (stay (typed m)) type_step refl
      ∙ run_round _ _ (typed m) (stay (measured n m)) (length_step n e small large) refl

  accept-frame :
      (n : ℕ) (t : TelemetryData)
      → n + 2 ≤ length w
      → deserialize_payload w ≡ ok t
      → accept (frame hi lo w) (measured n m) (n + 7)
        ≡ ok (
          drop (n + 2) w,
          record (measured n m) {
            received_valid_packets = m.received_valid_packets ++ take (n + 7) (frame hi lo w) ∷ [];
            telemetry_packets_manager = push_data m.telemetry_packets_manager t;
          },
        )
  unfolding accept
  accept-frame n t fits reads =
      let past : n + 7 ≡ suc (suc (suc (suc (suc (n + 2))))) = omega arith in
      let rest : drop (n + 7) (frame hi lo w) ≡ drop (n + 2) w =
        ap (λ k. drop k (frame hi lo w)) past in
      ground (arith, rest, reads)

  -- A frame whose checksum is right, and whose payload can be read, is accepted: the run goes on
  -- behind it with one packet and one telemetry more.
  pub run-accepted :
      (n : ℕ) (t : TelemetryData)
      → m.state ≡ wait_for_sync
      → big_endian hi lo ≡ n
      → 40 ≤ n
      → n ≤ 80
      → n + 2 ≤ length w
      → calculate_crc16 (take (n + 5) (frame hi lo w)) ≡ carried_crc (frame hi lo w) (n + 7)
      → deserialize_payload w ≡ ok t
      → run (frame hi lo w) m ≡ run (drop (n + 2) w) (accepted n (take (n + 7) (frame hi lo w)) t m)
  run-accepted n t waits e small large fits crc_ok reads =
      run-frame n waits e small large
      ∙ run_round _ _ (measured n m) done
          (payload_step n fits
            ∙ (unfold check_crc back_to_sync in
                rw
                  (
                    (==_iff (calculate_crc16 (take (n + 5) (frame hi lo w)))
                          (carried_crc (frame hi lo w) (n + 7))).1
                        crc_ok,
                    accept-frame n t fits reads,
                  )
                  refl))
          refl
    where
      done : Turn
      done = record {
        state_changed = true;
        view = drop (n + 2) w;
        machine = accepted n (take (n + 7) (frame hi lo w)) t m;
      }

  -- A frame whose checksum is wrong is not: one error is counted, one byte dropped, and the search
  -- for a header starts over.
  pub run-rejected :
      (n : ℕ)
      → m.state ≡ wait_for_sync
      → big_endian hi lo ≡ n
      → 40 ≤ n
      → n ≤ 80
      → n + 2 ≤ length w
      → calculate_crc16 (take (n + 5) (frame hi lo w)) ≢ carried_crc (frame hi lo w) (n + 7)
      → run (frame hi lo w) m ≡ run (header_byte_1 ∷ telemetry_code ∷ hi ∷ lo ∷ w) (rejected n m)
  run-rejected n waits e small large fits crc_bad =
      run-frame n waits e small large
      ∙ run_round _ _ (measured n m) done
          (payload_step n fits
            ∙ (unfold check_crc reject back_to_sync in
                rw
                  (==_ne (calculate_crc16 (take (n + 5) (frame hi lo w)))
                    (carried_crc (frame hi lo w) (n + 7)) crc_bad)
                  (ground arith)))
          refl
    where
      done : Turn
      done = record {
        state_changed = true;
        view = header_byte_1 ∷ telemetry_code ∷ hi ∷ lo ∷ w;
        machine = rejected n m;
      }
