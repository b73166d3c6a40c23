-- ===== src/Simulator/Flip.antt =====
-- What the parser makes of a packet that `statistic_packet_corruption` has changed behind its length.
use counter_drone_server.Base.{
  ℕ, zero, suc, ◌+◌, ◌^◌, ◌≤◌, ◌<◌, ◌≡◌, ◌≢◌, arith, ◌++◌, some, length, drop, get_or-All, bit_xor,
}
use counter_drone_server.Bits.Xor.{bit_xor-lt, bit_xor_changes}
use counter_drone_server.Packet.{BytesArray, TelemetryData, IsByte}
use counter_drone_server.Parser.{Machine, wait_for_sync}
use counter_drone_server.Parser.Closed.{byte_at}
use counter_drone_server.Parser.Chunks.{run}
use counter_drone_server.Parser.Frame.{rejected}
use counter_drone_server.Simulator.Encode.{build_telemetry_packet}
use counter_drone_server.Simulator.Accept.{IsAcceptable, id_length}
use counter_drone_server.Simulator.Reject.{build-IsByte, run_spoilt}
use counter_drone_server.Simulator.Scenarios.{statistic_packet_corruption}

single_bit : (bit : ℕ) → bit ≤ 7 → (2 ^ bit < 2 ^ 8) × (2 ^ bit ≢ 0)
single_bit zero h = omega arith
single_bit (suc zero) h = omega arith
single_bit (suc (suc zero)) h = omega arith
single_bit (suc (suc (suc zero))) h = omega arith
single_bit (suc (suc (suc (suc zero)))) h = omega arith
single_bit (suc (suc (suc (suc (suc zero))))) h = omega arith
single_bit (suc (suc (suc (suc (suc (suc zero)))))) h = omega arith
single_bit (suc (suc (suc (suc (suc (suc (suc zero))))))) h = omega arith
single_bit (suc (suc (suc (suc (suc (suc (suc (suc n)))))))) h = absurd (omega arith)

-- A packet of the simulator with one bit flipped behind the length is rejected: a parser that waits
-- for a header counts one checksum error and goes on behind the packet's first byte, whatever
-- follows the packet. Its identifier has at most 39 bytes.
pub corrupted_packet_rejected :
    (t : TelemetryData) (target bit : ℕ) (rest : BytesArray) (m : Machine)
    → IsAcceptable t
    → 5 ≤ target
    → target < length (build_telemetry_packet t)
    → bit ≤ 7
    → m.state ≡ wait_for_sync
    → let (corrupted, packet) =
        statistic_packet_corruption (build_telemetry_packet t) (some (target, bit)) in
      run (packet ++ rest) m ≡ run (drop 1 packet ++ rest) (rejected (id_length t + 41) m)
corrupted_packet_rejected t target bit rest m (e, short) behind inside small waits =
    let old : ℕ = byte_at (build_telemetry_packet t) target in
    let power : (2 ^ bit < 2 ^ 8) × (2 ^ bit ≢ 0) = single_bit bit small in
    let byte : old < 2 ^ 8 =
      get_or-All IsByte (build_telemetry_packet t) target 0 (build-IsByte t e) inside in
    run_spoilt t target (bit_xor old (2 ^ bit)) rest m (e, short) behind inside
      (bit_xor-lt 8 old (2 ^ bit) byte (power.0)) (bit_xor_changes old (2 ^ bit) (power.1)) waits
