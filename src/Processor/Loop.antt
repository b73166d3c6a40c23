-- ===== src/Processor/Loop.antt =====
-- What the processor's loop does, as a function of the packets that it pops.
use counter_drone_server.Base.{
  ℕ, ◌≡◌, refl, sym, ap, ◌∙◌, arith, List, [], ◌∷◌, ◌++◌, append-nil, append_assoc, true, Option,
  none, some, if◌then◌else◌,
}
use mathlib.Core.Option.{map}
use counter_drone_server.Packet.{BytesArray, TelemetryData}
use counter_drone_server.SharedQueue.{SharedDataManager, push_data}
use counter_drone_server.SharedQueue.Fifo.{items_of, pop_data_with_timeout_lem}
use counter_drone_server.Processor.{
  Processor, Round, Alert, find, alerts, on_telemetry, pop, push_each, round, process_loop,
}
use counter_drone_server.Processor.Table.{
  same_key, find-assign, find-refresh, status_at, telemetry_of,
}

-- The packets that the rounds pop, in order.
abbrev pub popped : List Round → Processor → List TelemetryData
popped [] p = []
popped (r ∷ rounds) p = items_of (pop r p).0 ++ popped rounds (round r p)

abbrev pub all_arrived : List Round → List TelemetryData
all_arrived [] = []
all_arrived (r ∷ rounds) = r.arrived ++ all_arrived rounds

-- All the alerts of the packets, in order.
abbrev pub all_alerts : List TelemetryData → List Alert
all_alerts [] = []
all_alerts (t ∷ ts) = alerts t ++ all_alerts ts

-- The last packet of a drone, or else what was known before.
abbrev pub last_of : BytesArray → List TelemetryData → Option TelemetryData → Option TelemetryData
last_of id [] known = known
last_of id (t ∷ ts) known = last_of id ts (if same_key id t.drone_id then some t else known)

push_each_lem :
    (ts : List TelemetryData) (m : SharedDataManager TelemetryData)
    → (push_each ts m).shared_data ≡ m.shared_data ++ ts
unfolding push_data
push_each_lem [] m = sym (append-nil m.shared_data)
push_each_lem (t ∷ ts) m = push_each_lem ts (push_data m t) ∙ append_assoc m.shared_data (t ∷ []) ts

abbrev table : Processor → BytesArray → Option TelemetryData
table p id = telemetry_of (find id p.drones_status)

table-on_telemetry :
    (id : BytesArray) (o : Option TelemetryData) (p : Processor)
    → table (on_telemetry o p) id ≡ last_of id (items_of o) (table p id)
unfolding on_telemetry
table-on_telemetry id none p = refl
table-on_telemetry id (some t) p =
    ap telemetry_of
      (find-assign id t.drone_id (record { active = true; telemetry = t }) p.drones_status)
    ∙ ground arith

round-table :
    (id : BytesArray) (r : Round) (p : Processor)
    → find id (round r p).drones_status
      ≡ map (status_at r.now) (last_of id (items_of (pop r p).0) (table p id))
unfolding round
round-table id r p =
    let (popped_now, manager) = pop r p in
    let q : Processor = record p { shared_telemetry_packets_manager = manager } in
    find-refresh r.now id (on_telemetry popped_now q).drones_status
    ∙ ap (map (status_at r.now)) (table-on_telemetry id popped_now q)

telemetry_of-map : (now : ℕ) (o : Option TelemetryData) → telemetry_of (map (status_at now) o) ≡ o
telemetry_of-map now none = refl
telemetry_of-map now (some t) = refl

last_of-append :
    (id : BytesArray) (ts us : List TelemetryData) (known : Option TelemetryData)
    → last_of id (ts ++ us) known ≡ last_of id us (last_of id ts known)
last_of-append id [] us known = refl
last_of-append id (t ∷ ts) us known =
    last_of-append id ts us (if same_key id t.drone_id then some t else known)

table-round :
    (id : BytesArray) (r : Round) (p : Processor)
    → table (round r p) id ≡ last_of id (items_of (pop r p).0) (table p id)
table-round id r p = ap telemetry_of (round-table id r p) ∙ telemetry_of-map r.now _

-- After at least one round, what the table says of a drone is its last packet among those that
-- were popped, or what was known before if there is none, marked active exactly if the packet's
-- timestamp is not too far from the last reading of the clock.
pub process_loop-table :
    (id : BytesArray) (rounds : List Round) (r : Round) (p : Processor)
    → find id (process_loop (rounds ++ r ∷ []) p).drones_status
      ≡ map
          (status_at r.now)
          (last_of id (popped (rounds ++ r ∷ []) p) (telemetry_of (find id p.drones_status)))
unfolding process_loop
process_loop-table id [] r p =
    round-table id r p
    ∙ ap (λ ts. map (status_at r.now) (last_of id ts (table p id)))
        (sym (append-nil (items_of (pop r p).0)))
process_loop-table id (r' ∷ rounds) r p =
    process_loop-table id rounds r (round r' p)
    ∙ ap
        (λ known. map (status_at r.now) (last_of id (popped (rounds ++ r ∷ []) (round r' p)) known))
        (table-round id r' p)
    ∙ ap (map (status_at r.now)) (
        sym (
          last_of-append id (items_of (pop r' p).0) (popped (rounds ++ r ∷ []) (round r' p))
            (table p id)))

all_alerts-append :
    (ts us : List TelemetryData) → all_alerts (ts ++ us) ≡ all_alerts ts ++ all_alerts us
all_alerts-append [] us = refl
all_alerts-append (t ∷ ts) us =
    ap (λ (l : List Alert). alerts t ++ l) (all_alerts-append ts us)
    ∙ sym (append_assoc (alerts t) (all_alerts ts) (all_alerts us))

on_telemetry_alerts :
    (o : Option TelemetryData) (p : Processor)
    → (on_telemetry o p).printed ≡ p.printed ++ all_alerts (items_of o)
unfolding on_telemetry
on_telemetry_alerts none p = sym (append-nil p.printed)
on_telemetry_alerts (some t) p =
    ap (λ (l : List Alert). p.printed ++ l) (sym (append-nil (alerts t)))

round_alerts :
    (r : Round) (p : Processor)
    → (round r p).printed ≡ p.printed ++ all_alerts (items_of (pop r p).0)
unfolding round
round_alerts r p = on_telemetry_alerts (pop r p).0 _

-- The alerts that the rounds print are those of the packets that they pop, in order: none is
-- missed, repeated or printed for another packet.
process_loop-alerts :
    (rounds : List Round) (p : Processor)
    → (process_loop rounds p).printed ≡ p.printed ++ all_alerts (popped rounds p)
unfolding process_loop
process_loop-alerts [] p = sym (append-nil p.printed)
process_loop-alerts (r ∷ rounds) p =
    let now : List TelemetryData = items_of (pop r p).0 in
    let later : List TelemetryData = popped rounds (round r p) in
    process_loop-alerts rounds (round r p)
    ∙ ap (λ (l : List Alert). l ++ all_alerts later) (round_alerts r p)
    ∙ append_assoc p.printed (all_alerts now) (all_alerts later)
    ∙ ap (λ (l : List Alert). p.printed ++ l) (sym (all_alerts-append now later))

abbrev queue : Processor → List TelemetryData
queue p = p.shared_telemetry_packets_manager.shared_data

round-queue :
    (r : Round) (p : Processor) → items_of (pop r p).0 ++ queue (round r p) ≡ queue p ++ r.arrived
unfolding round on_telemetry
round-queue r p =
    let m = push_each r.arrived p.shared_telemetry_packets_manager in
    let kept : queue
          (on_telemetry (pop r p).0 (record p { shared_telemetry_packets_manager = (pop r p).1 }))
        ≡ (pop r p).1.shared_data =
      on_telemetry_queue (pop r p).0 _ in
    ap (λ (l : List TelemetryData). items_of (pop r p).0 ++ l) kept
    ∙ (pop_data_with_timeout_lem r.running_at_wake r.running m).0
    ∙ push_each_lem r.arrived p.shared_telemetry_packets_manager
  where
    on_telemetry_queue :
        (o : Option TelemetryData) (q : Processor) → queue (on_telemetry o q) ≡ queue q
    on_telemetry_queue none q = refl
    on_telemetry_queue (some t) q = refl

-- The rounds pop the packets in the order in which they arrived, each once; what they have not
-- popped waits in the queue.
process_loop-queue :
    (rounds : List Round) (p : Processor)
    → popped rounds p ++ queue (process_loop rounds p) ≡ queue p ++ all_arrived rounds
unfolding process_loop
process_loop-queue [] p = sym (append-nil (queue p))
process_loop-queue (r ∷ rounds) p =
    let now : List TelemetryData = items_of (pop r p).0 in
    append_assoc now (popped rounds (round r p)) _
    ∙ ap (λ (l : List TelemetryData). now ++ l) (process_loop-queue rounds (round r p))
    ∙ sym (append_assoc now (queue (round r p)) (all_arrived rounds))
    ∙ ap (λ (l : List TelemetryData). l ++ all_arrived rounds) (round-queue r p)
    ∙ append_assoc (queue p) r.arrived (all_arrived rounds)

-- The rounds pop the packets in the order in which they arrived, each once, and what they have not
-- popped waits in the queue; the alerts that they print are those of the packets that they pop, in
-- order.
pub process_loop-effects :
    (rounds : List Round) (p : Processor)
    → (popped rounds p ++ queue (process_loop rounds p) ≡ queue p ++ all_arrived rounds)
      × ((process_loop rounds p).printed ≡ p.printed ++ all_alerts (popped rounds p))
process_loop-effects rounds p = (process_loop-queue rounds p, process_loop-alerts rounds p)
