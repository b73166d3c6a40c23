-- ===== src/Processor.antt =====
-- src/TelemetryDataProcessor.cpp: the table of drones and the alerts. `std::map` is the list of its
-- entries in the order of the keys, and what is printed on alerts is a list of events. The calls of
-- the clock and the reads of the flag are inputs of a round.
pub mod Table
pub mod Loop
pub mod Activity
mod Tests
use counter_drone_server.Base.{
  ℕ, ◌+◌, ◌-◌, ◌*◌, ◌%◌, ◌^◌, List, [], ◌∷◌, ◌++◌, Bool, true, false, ◌&&◌, ◌||◌, Option, none,
  some, if◌then◌else◌, ltb, leb, ◌==◌,
}
use counter_drone_server.Packet.{BytesArray, TelemetryData}
use counter_drone_server.SharedQueue.{SharedDataManager, push_data, pop_data_with_timeout}

-- `std::pair<bool, TelemetryData>`
pub record DroneStatus : Type 0 where
  pub active : Bool
  pub telemetry : TelemetryData

abbrev pub DronesStatus : Type 0
DronesStatus = List (BytesArray × DroneStatus)

-- `std::string`'s `<`, which `std::map` orders by: bytes are compared as `unsigned char`.
abbrev pub key_lt : BytesArray → BytesArray → Bool
key_lt [] [] = false
key_lt [] (y ∷ ys) = true
key_lt (x ∷ xs) [] = false
key_lt (x ∷ xs) (y ∷ ys) = ltb x y || ((x == y) && key_lt xs ys)

-- `m_drones_status[key] = status`
unfoldable pub assign : BytesArray → DroneStatus → DronesStatus → DronesStatus
assign key status [] = (key, status) ∷ []
assign key status ((key', status') ∷ rest) =
    let further = assign key status rest in
    if key_lt key key'
    then (key, status) ∷ (key', status') ∷ rest
    else if key_lt key' key
    then (key', status') ∷ further
    else (key', status) ∷ rest

-- `m_drones_status.find(key)`
abbrev pub find : BytesArray → DronesStatus → Option DroneStatus
find key [] = none
find key ((key', status) ∷ rest) =
    let further = find key rest in
    if key_lt key key' then none else if key_lt key' key then further else some status

pub data Alert : Type 0 where
  high_altitude high_speed : (drone_id : BytesArray) (value : ℕ) → Alert

-- `x > limit` on doubles, for a limit that is positive and finite: among the patterns up to that of
-- infinity the order is that of the numbers, above it are the NaNs and what is negative.
abbrev pub exceeds : ℕ → ℕ → Bool
exceeds x limit = ltb limit x && leb x 0x7FF0000000000000

-- 120.0 and 50.0
abbrev pub altitude_limit : ℕ
altitude_limit = 0x405E000000000000

abbrev pub speed_limit : ℕ
speed_limit = 0x4049000000000000

abbrev pub drone_activation_timeout_sec : ℕ
drone_activation_timeout_sec = 30

pub record Processor : Type 0 where
  pub shared_telemetry_packets_manager : SharedDataManager TelemetryData
  pub drones_status : DronesStatus
  pub printed : List Alert

-- Both alerts, in the order of the code.
abbrev pub alerts : TelemetryData → List Alert
alerts packet =
    (if exceeds packet.altitude altitude_limit
      then high_altitude packet.drone_id packet.altitude ∷ []
      else [])
    ++ (if exceeds packet.speed speed_limit
        then high_speed packet.drone_id packet.speed ∷ []
        else [])

-- A packet was popped: the entry of its drone, and the alerts.
unfoldable pub on_telemetry : Option TelemetryData → Processor → Processor
on_telemetry none p = p
on_telemetry (some packet) p = record p {
  drones_status =
      assign packet.drone_id (record { active = true; telemetry = packet }) p.drones_status;
  printed = p.printed ++ alerts packet;
}

-- `current_time_ms - timestamp` on `uint64_t`
abbrev pub time_passed : ℕ → ℕ → ℕ
time_passed now timestamp = (now + 2 ^ 64 - timestamp) % 2 ^ 64

abbrev pub is_inactive : ℕ → TelemetryData → Bool
is_inactive now packet =
    ltb (drone_activation_timeout_sec * 1000) (time_passed now packet.timestamp)

-- The loop over the table.
unfoldable pub refresh : ℕ → DronesStatus → DronesStatus
refresh now [] = []
refresh now ((key, status) ∷ rest) =
    let further = refresh now rest in
    if is_inactive now status.telemetry
    then (key, record status { active = false }) ∷ further
    else (key, record status { active = true }) ∷ further

-- What a round meets: the packets that the parser pushes before the end of the wait, the flag as
-- the wait and the check after it read it, and the clock.
pub record Round : Type 0 where
  pub arrived : List TelemetryData
  pub running_at_wake : Bool
  pub running : Bool
  pub now : ℕ

abbrev pub push_each :
    List TelemetryData → SharedDataManager TelemetryData → SharedDataManager TelemetryData
push_each [] m = m
push_each (packet ∷ rest) m = push_each rest (push_data m packet)

-- What a round pops, and the queue after it.
abbrev pub pop : Round → Processor → Option TelemetryData × SharedDataManager TelemetryData
pop r p =
    pop_data_with_timeout r.running_at_wake r.running
      (push_each r.arrived p.shared_telemetry_packets_manager)

-- The body of the loop of `process_loop`.
unfoldable pub round : Round → Processor → Processor
round r p =
    let (packet, manager) = pop r p in
    let q = on_telemetry packet (record p { shared_telemetry_packets_manager = manager }) in
    record q { drones_status = refresh r.now q.drones_status }

-- `process_loop` over the rounds before it reads the flag as false.
unfoldable pub process_loop : List Round → Processor → Processor
process_loop [] p = p
process_loop (r ∷ rounds) p = process_loop rounds (round r p)
