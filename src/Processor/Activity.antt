-- ===== src/Processor/Activity.antt =====
-- When the processor takes a drone for active.
use counter_drone_server.Base.{
  ℕ, ◌+◌, ◌^◌, ◌≤◌, ◌<◌, ◌≡◌, ◌↔◌, refl, sym, ap, ◌∙◌, arith, List, [], ◌∷◌, ◌++◌, true, false, not,
  Option, none, some,
}
use mathlib.Core.Option.{map}
use counter_drone_server.Packet.{BytesArray, TelemetryData}
use counter_drone_server.Processor.{
  DroneStatus, Processor, Round, find, is_inactive, on_telemetry, pop, round, process_loop,
}
use counter_drone_server.Processor.Table.{
  same_key_iff, find-assign, find-refresh, status_at, telemetry_of,
}
use counter_drone_server.Processor.Loop.{process_loop-table}

-- The test on unsigned differences, in terms of the two times: below, a clock and a timestamp of 64
-- bits of which the clock is past the first thirty seconds.
is_inactive_iff :
    (now : ℕ) (t : TelemetryData)
    → t.timestamp < 2 ^ 64
    → 30000 ≤ now
    → now < 2 ^ 64
    → (not (is_inactive now t) ≡ true) ↔ ((t.timestamp ≤ now) × (now ≤ t.timestamp + 30000))
is_inactive_iff now t ht h30 hn = ground arith

map-status_at :
    (now : ℕ) (o : Option TelemetryData) (s : DroneStatus)
    → map (status_at now) o ≡ some s
    → s.active ≡ not (is_inactive now s.telemetry)
map-status_at now none s e = cc
map-status_at now (some t) s e = cc

-- After at least one round, a drone of the table is marked active exactly if the timestamp of its
-- packet lies in the thirty seconds that end at the last reading of the clock. Clock and timestamp
-- are below 2^64 and the clock is past its first thirty seconds, so the unsigned difference has a
-- large value for a timestamp in the future, however near.
pub active_iff_recent :
    (id : BytesArray) (rounds : List Round) (r : Round) (p : Processor) (s : DroneStatus)
    → find id (process_loop (rounds ++ r ∷ []) p).drones_status ≡ some s
    → s.telemetry.timestamp < 2 ^ 64
    → 30000 ≤ r.now
    → r.now < 2 ^ 64
    → (s.active ≡ true)
      ↔ ((s.telemetry.timestamp ≤ r.now) × (r.now ≤ s.telemetry.timestamp + 30000))
active_iff_recent id rounds r p s found ht h30 hn =
    let flag : s.active ≡ not (is_inactive r.now s.telemetry) =
      map-status_at r.now _ s (sym (process_loop-table id rounds r p) ∙ found) in
    rw flag (is_inactive_iff r.now s.telemetry ht h30 hn)

-- With a clock past its first thirty seconds, a packet stamped ahead of the receiver's clock leaves
-- its drone marked inactive in the round that takes it.
pub future_packet_inactive :
    (r : Round) (p : Processor) (t : TelemetryData)
    → (pop r p).0 ≡ some t
    → r.now < t.timestamp
    → t.timestamp < 2 ^ 64
    → 30000 ≤ r.now
    → find t.drone_id (round r p).drones_status ≡ some (record { active = false; telemetry = t })
unfolding round on_telemetry
future_packet_inactive r p t popped_t ahead ht h30 = rw popped_t (
    find-refresh r.now t.drone_id _
    ∙ ap (λ o. map (status_at r.now) (telemetry_of o))
        (find-assign t.drone_id t.drone_id (record { active = true; telemetry = t })
          p.drones_status)
    ∙ rw ((same_key_iff t.drone_id t.drone_id).1 refl) (ap some late))
  where
    inactive : is_inactive r.now t ≡ true
    inactive = ground arith

    late : status_at r.now t ≡ record { active = false; telemetry = t }
    late = ap (λ b. record { active = not b; telemetry = t }) inactive
