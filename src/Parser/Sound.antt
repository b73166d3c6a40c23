-- ===== src/Parser/Sound.antt =====
-- The invariant of the parser over whole runs: every accepted packet is a valid one.
use counter_drone_server.Base.{
  ◌≤◌, ◌≡◌, sym, ◌∙◌, arith, List, [], ◌∷◌, ◌++◌, ok, >>=-eq-ok, All, length, length-append,
  get_or-append,
}
use mathlib.Core.Path.{subst}
use counter_drone_server.Packet.{BytesArray, TelemetryData, TypeMsg}
use counter_drone_server.SharedQueue.{SharedDataManager}
use counter_drone_server.Parser.{
  ParserState, wait_for_sync, read_type, read_length, read_payload, Machine, enough_rounds,
  SensorDataParser, new_parser, erase_processed, process_accumulated_data, process_batch,
  process_loop,
}
use counter_drone_server.Parser.Deserialize.{View}
use counter_drone_server.Parser.Stream.{
  receive, bytes_of, process-ok, process_lem, process_batch_lem,
}
use counter_drone_server.Parser.Chunks.{run}
use counter_drone_server.Parser.Valid.{IsFrame, IsSound, Seen, HasHeader, HasType, loop-IsSound}

-- The invariant of a parser between two batches.
abbrev pub IsSoundParser : SensorDataParser → Type 0
IsSoundParser p = IsSound p.accumulated_data p.machine

module _ (v b : View) where
  HasHeader-append : HasHeader v → HasHeader (v ++ b)
  HasHeader-append h =
      ground (arith, length-append v b, get_or-append v b 0 0, get_or-append v b 1 0)

  HasType-append : (ty : TypeMsg) → HasType v ty → HasType (v ++ b) ty
  HasType-append ty (long, header, typed, accepted) = (
    omega (arith, length-append v b),
    HasHeader-append header,
    rw (get_or-append v b 2 0 (omega arith)) typed,
    accepted,
  )

  Seen-append : (s : ParserState) (m : Machine) → Seen s v m → Seen s (v ++ b) m
  Seen-append wait_for_sync m h = tt
  Seen-append read_type m h = HasHeader-append h
  Seen-append read_length m h = HasType-append m.type h
  Seen-append read_payload m (five, typed, stated, small, large) = (
    omega (arith, length-append v b),
    HasType-append m.type typed,
    rw (get_or-append v b 3 0 (omega arith), get_or-append v b 4 0 (omega arith)) stated,
    small,
    large,
  )

-- Bytes that arrive later break nothing of it.
pub receive-IsSoundParser :
    (b : BytesArray) (p : SensorDataParser) → IsSoundParser p → IsSoundParser (receive b p)
receive-IsSoundParser b p (seen, frames, counted) =
    (Seen-append p.accumulated_data b p.machine.state p.machine seen, frames, counted)

pub process-IsSoundParser :
    (p q : SensorDataParser) → process_accumulated_data p ≡ ok q → IsSoundParser p → IsSoundParser q
process-IsSoundParser p q h sound = finish (
    >>=-eq-ok (run p.accumulated_data p.machine) (λ r. ok (erase_processed p.accumulated_data r))
      (sym (process_lem p) ∙ h))
  where
    finish :
        ((r : View × Machine) × (run p.accumulated_data p.machine ≡ ok r)
          × (ok (erase_processed p.accumulated_data r) ≡ ok q))
        → IsSoundParser q
    finish ((w, n), ran, kept) =
        let left : SensorDataParser = record { accumulated_data = w; machine = n } in
        let e : left ≡ q = cc (process-ok p w n ran) in
        let sound' : IsSoundParser left =
          loop-IsSound (enough_rounds (length p.accumulated_data)) p.accumulated_data p.machine w n
            ran sound in
        subst IsSoundParser e sound'

-- A new parser satisfies it.
pub new_parser-IsSoundParser : (q : SharedDataManager TelemetryData) → IsSoundParser (new_parser q)
unfolding new_parser
new_parser-IsSoundParser q = (tt, tt, omega arith)

-- Every run over batches of chunks keeps it.
pub process_loop-IsSoundParser :
    (batches : List (List BytesArray)) (p q : SensorDataParser)
    → process_loop batches p ≡ ok q
    → IsSoundParser p
    → IsSoundParser q
unfolding process_loop
process_loop-IsSoundParser [] p q h sound = let e : p ≡ q = cc in rw e at sound
process_loop-IsSoundParser (batch ∷ batches) p q h sound =
    let (r, e, rest) = >>=-eq-ok (process_batch batch p) (process_loop batches) h in
    process_loop-IsSoundParser batches r q rest (
      process-IsSoundParser (receive (bytes_of batch) p) r (sym (process_batch_lem batch p) ∙ e)
        (receive-IsSoundParser (bytes_of batch) p sound))

-- From a new parser, whatever bytes arrive and however they are cut, every packet in
-- `received_valid_packets` has the header, the telemetry type, a length in range that is that of
-- its payload and the right checksum, and there are at most as many as telemetry types counted.
pub received_packets_valid :
    (queue : SharedDataManager TelemetryData) (batches : List (List BytesArray))
    (q : SensorDataParser)
    → process_loop batches (new_parser queue) ≡ ok q
    → All IsFrame q.machine.received_valid_packets
      × (length q.machine.received_valid_packets ≤ q.machine.telemetry_pkt_count)
received_packets_valid queue batches q h =
    let (seen, frames, counted) =
      process_loop-IsSoundParser batches (new_parser queue) q h (new_parser-IsSoundParser queue) in
    (frames, omega arith)
