-- ===== src/Parser/Partial.antt =====
-- A telemetry frame of which only the beginning has arrived, and bytes that begin no header.
use counter_drone_server.Base.{
  ℕ, zero, suc, ◌+◌, ◌≤◌, ◌<◌, ◌≡◌, ◌≢◌, refl, ◌∙◌, arith, [], ◌∷◌, ◌++◌, true, ok, leb, leb→le,
  Bool-cases, inl, inr, ==_ne, All, length, take, length-take,
}
use counter_drone_server.Packet.{header_byte_0, header_byte_1, telemetry_code}
use counter_drone_server.Parser.{
  wait_for_sync, read_type, Machine, wait, on_type, count_type, total_packet_size, on_read_payload,
  on_state, step, next_round, big_endian,
}
use counter_drone_server.Parser.Deserialize.{View}
use counter_drone_server.Parser.Closed.{on_read_type_long, on_read_type_short, on_read_length_short}
use counter_drone_server.Parser.Sync.{sync}
use counter_drone_server.Parser.Progress.{measure}
use counter_drone_server.Parser.Chunks.{run, run-nil, run-step, step-sync, same_sync}
use counter_drone_server.Parser.Frame.{run_round, run-frame, frame, typed, measured}

-- A round that waits ends the run.
pub run_stop :
    (x : ℕ) (v : View) (m : Machine)
    → step (x ∷ v) m ≡ ok (wait (x ∷ v) m)
    → run (x ∷ v) m ≡ ok (x ∷ v, m)
run_stop x v m e =
    run-step x v m (measure (x ∷ v) m) (omega arith) ∙ rw e (unfold next_round in refl)

-- A header and what there is of the type and the length.
module _ (v : View) (m : Machine) (waits : m.state ≡ wait_for_sync) where
  abbrev header_then : View
  header_then = header_byte_0 ∷ header_byte_1 ∷ v

  abbrev typing : Machine
  typing = record m { state = read_type }

  run_header : run header_then m ≡ run header_then typing
  unfolding sync
  run_header =
      run_round _ _ m (record { state_changed = true; view = header_then; machine = typing })
        (step-sync header_byte_0 _ m waits) refl

run_header_only :
    (m : Machine)
    → m.state ≡ wait_for_sync
    → run (header_byte_0 ∷ header_byte_1 ∷ []) m
      ≡ ok (header_byte_0 ∷ header_byte_1 ∷ [], record m { state = read_type })
unfolding step on_state
run_header_only m waits =
    run_header [] m waits
    ∙ run_stop _ _ (record m { state = read_type })
        (on_read_type_short _ (record m { state = read_type }) (omega arith))

run_type_only :
    (v : View) (m : Machine)
    → m.state ≡ wait_for_sync
    → length v ≤ 1
    → run (header_byte_0 ∷ header_byte_1 ∷ telemetry_code ∷ v) m
      ≡ ok (header_byte_0 ∷ header_byte_1 ∷ telemetry_code ∷ v, typed m)
unfolding step on_state on_type count_type
run_type_only v m waits short =
    run_header (telemetry_code ∷ v) m waits
    ∙ run_round _ _ (record m { state = read_type })
        (record {
          state_changed = true;
          view = header_byte_0 ∷ header_byte_1 ∷ telemetry_code ∷ v;
          machine = typed m;
        })
        (on_read_type_long (header_byte_0 ∷ header_byte_1 ∷ telemetry_code ∷ v)
          (record m { state = read_type }) (omega arith))
        refl
    ∙ run_stop _ _ (typed m) (on_read_length_short _ (typed m) (omega arith))

-- A frame whose end is missing stays in the view until it arrives.
run_unfinished :
    (hi lo : ℕ) (w : View) (m : Machine) (n : ℕ)
    → m.state ≡ wait_for_sync
    → big_endian hi lo ≡ n
    → 40 ≤ n
    → n ≤ 80
    → length w < n + 2
    → run (frame hi lo w) m ≡ ok (frame hi lo w, measured n m)
unfolding step on_state on_read_payload
run_unfinished hi lo w m n waits e small large short =
    run-frame hi lo w m n waits e small large
    ∙ run_stop _ _ (measured n m)
        (elim (Bool-cases (leb (total_packet_size (measured n m)) (length (frame hi lo w)))) [
          | inl fits ↦ absurd (
              omega
                (arith, leb→le (total_packet_size (measured n m)) (length (frame hi lo w)) fits))
          | inr missing ↦ rw missing refl
        ])

-- However much of a frame has arrived, if it is not all, the run stops with nothing dropped.
pub run_partial :
    (hi lo : ℕ) (w : View) (m : Machine) (n k : ℕ)
    → m.state ≡ wait_for_sync
    → big_endian hi lo ≡ n
    → 40 ≤ n
    → n ≤ 80
    → k < n + 7
    → (l : Machine) × (run (take k (frame hi lo w)) m ≡ ok (take k (frame hi lo w), l))
run_partial hi lo w m n zero waits e small large h = (m, run-nil m)
run_partial hi lo w m n (suc zero) waits e small large h =
    (m, run_stop header_byte_0 [] m (unfold sync in step-sync header_byte_0 [] m waits))
run_partial hi lo w m n (suc (suc zero)) waits e small large h =
    (record m { state = read_type }, run_header_only m waits)
run_partial hi lo w m n (suc (suc (suc zero))) waits e small large h =
    (typed m, run_type_only [] m waits (omega arith))
run_partial hi lo w m n (suc (suc (suc (suc zero)))) waits e small large h =
    (typed m, run_type_only (hi ∷ []) m waits (omega arith))
run_partial hi lo w m n (suc (suc (suc (suc (suc k))))) waits e small large h = (
  measured n m,
  run_unfinished hi lo (take k w) m n waits e small large (omega (arith, length-take k w)),
)

-- Bytes among which no header begins are dropped, whatever follows them.
abbrev pub IsNoise : View → Type 0
IsNoise = All (λ b. b ≢ header_byte_0)

sync-noise : (g v : View) (m : Machine) → IsNoise g → sync (g ++ v) m ≡ sync v m
unfolding sync
sync-noise [] v m h = refl
sync-noise (x ∷ []) [] m h = rw (==_ne x header_byte_0 h.0) refl
sync-noise (x ∷ []) (y ∷ v) m h = rw (==_ne x header_byte_0 h.0) refl
sync-noise (x ∷ y ∷ g) v m h = rw (==_ne x header_byte_0 h.0) (sync-noise (y ∷ g) v m h.1)

pub run_noise :
    (g v : View) (m : Machine) → IsNoise g → m.state ≡ wait_for_sync → run (g ++ v) m ≡ run v m
run_noise g v m h waits = same_sync (g ++ v) v m waits (sync-noise g v m h)

pub take-IsNoise : (k : ℕ) (g : View) → IsNoise g → IsNoise (take k g)
take-IsNoise zero g h = tt
take-IsNoise (suc k) [] h = tt
take-IsNoise (suc k) (x ∷ g) h = (h.0, take-IsNoise k g h.1)
