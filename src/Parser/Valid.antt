-- ===== src/Parser/Valid.antt =====
-- What every packet in `m_received_valid_packets` is, and what each state knows of the view.
use native.Mathlib.Decide.{dec_lt}
use counter_drone_server.Base.{
  ℕ, zero, suc, ◌+◌, ◌-◌, ◌≤◌, ◌<◌, ◌≡◌, inl, inr, refl, sym, ◌∙◌, arith, [], ◌∷◌, ◌++◌, Outcome,
  ok, fault, out_of_fuel, >>=-eq-ok, ◌==◌, ==_iff, Bool-cases, All, All-append, length, take, drop,
  length-take, length-append, get_or-take, take-take, ◌⊎◌,
}
use counter_drone_server.Packet.{
  BytesArray, TelemetryData, TypeMsg, telemetry, heart_beat, command, unknow, other, type_msg_of,
  header_byte_0, header_byte_1, telemetry_code,
}
use counter_drone_server.Packet.Crc.{calculate_crc16}
use counter_drone_server.Parser.{
  ParserState, wait_for_sync, read_type, read_length, read_payload, Machine, Turn, on_type,
  count_type, on_length, accept, reject, process_telemetry_payload, check_crc, back_to_sync,
  on_payload, process_heart_beat_payload, process_command_payload, total_packet_size,
  on_read_payload, on_state, step, next_round, loop, big_endian,
}
use counter_drone_server.Parser.Deserialize.{View, deserialize_payload}
use counter_drone_server.Parser.Closed.{
  byte_at, carried_crc, on_read_type_long, on_read_type_short, on_read_length_long,
  on_read_length_short, process_telemetry_payload_long,
}
use counter_drone_server.Parser.Sync.{sync, starts_packet, on_wait_for_sync-sync}

-- The length that a packet states.
abbrev pub stated_length : View → ℕ
stated_length v = big_endian (byte_at v 3) (byte_at v 4)

-- A whole telemetry packet: header, type, a length in range that is that of the payload, and the
-- checksum of all that comes before it.
pub record IsFrame (p : BytesArray) : Type 0 where
  pub header_0 : byte_at p 0 ≡ header_byte_0
  pub header_1 : byte_at p 1 ≡ header_byte_1
  pub type : byte_at p 2 ≡ telemetry_code
  pub long : 40 ≤ stated_length p
  pub short : stated_length p ≤ 80
  pub size : length p ≡ stated_length p + 7
  pub crc : calculate_crc16 (take (length p - 2) p) ≡ carried_crc p (length p)

abbrev pub HasHeader : View → Type 0
HasHeader v = (2 ≤ length v) × (byte_at v 0 ≡ header_byte_0) × (byte_at v 1 ≡ header_byte_1)

-- The types that READ_TYPE accepts.
abbrev pub IsAccepted : TypeMsg → Type 0
IsAccepted telemetry = Unit
IsAccepted heart_beat = Unit
IsAccepted command = Unit
IsAccepted unknow = ⊥
IsAccepted (other n) = ⊥

abbrev pub HasType : View → TypeMsg → Type 0
HasType v ty = (3 ≤ length v) × HasHeader v × (type_msg_of (byte_at v 2) ≡ ty) × IsAccepted ty

-- What has been read when the machine is in a state is still at the front of the view.
abbrev pub Seen : ParserState → View → Machine → Type 0
Seen wait_for_sync v m = Unit
Seen read_type v m = HasHeader v
Seen read_length v m = HasType v m.type
Seen read_payload v m =
    (5 ≤ length v)
    × HasType v m.type
    × (stated_length v ≡ m.expected_payload_length)
    × (40 ≤ m.expected_payload_length)
    × (m.expected_payload_length ≤ 80)

-- A telemetry packet whose type has been counted and whose fate is open.
abbrev pub pending : ParserState → TypeMsg → ℕ
pending read_length telemetry = 1
pending read_payload telemetry = 1
pending _ _ = 0

abbrev pub IsSound : View → Machine → Type 0
IsSound v m =
    Seen m.state v m
    × All IsFrame m.received_valid_packets
    × (length m.received_valid_packets + pending m.state m.type ≤ m.telemetry_pkt_count)

pending_carries : (ty : TypeMsg) → pending read_payload ty ≡ pending read_length ty
pending_carries telemetry = refl
pending_carries heart_beat = refl
pending_carries command = refl
pending_carries unknow = refl
pending_carries (other n) = refl

type_msg_of_telemetry : (b : ℕ) → type_msg_of b ≡ telemetry → b ≡ 1
type_msg_of_telemetry b h = ground arith

-- A view that begins with such a packet.
take-IsFrame :
    (v : View) (k n : ℕ)
    → HasType v telemetry
    → stated_length v ≡ k
    → 40 ≤ k
    → k ≤ 80
    → n ≡ k + 7
    → n ≤ length v
    → calculate_crc16 (take (n - 2) v) ≡ carried_crc v n
    → IsFrame (take n v)
take-IsFrame v k n h stated small large total fits crc_ok =
    let size : length (take n v) ≡ n = omega (arith, length-take n v) in
    let at : (i : ℕ) → i < n → byte_at (take n v) i ≡ byte_at v i =
      λ i lt. get_or-take n v i 0 lt in
    let same : stated_length (take n v) ≡ k = rw (at 3 (omega arith), at 4 (omega arith)) stated in
    record {
      header_0 = at 0 (omega arith) ∙ h.1.1;
      header_1 = at 1 (omega arith) ∙ h.1.2;
      type = at 2 (omega arith) ∙ type_msg_of_telemetry (byte_at v 2) h.2;
      long = omega arith;
      short = omega arith;
      size = omega arith;
      crc =
          rw
            (
              size,
              take-take (n - 2) n v (omega arith),
              at (n - 2) (omega arith),
              at (n - 1) (omega arith),
            )
            crc_ok;
    }

accept_lem :
    (v : View) (m : Machine) (n : ℕ) (o : Outcome TelemetryData) (r : View × Machine)
    → deserialize_payload (drop 5 v) ≡ o
    → accept v m n ≡ ok r
    → (r.1.received_valid_packets ≡ m.received_valid_packets ++ take n v ∷ [])
      × (r.1.telemetry_pkt_count ≡ m.telemetry_pkt_count)
unfolding accept
accept_lem v m n (ok d) r e h = ground arith
accept_lem v m n fault r e h = ground arith
accept_lem v m n out_of_fuel r e h = ground arith

-- The packets after the comparison of the checksums.
check_crc_lem :
    (v : View) (m : Machine) (n : ℕ) (r : View × Machine)
    → check_crc (take (n - 2) v) (carried_crc v n) v m n ≡ ok r
    → (r.1.telemetry_pkt_count ≡ m.telemetry_pkt_count)
      × (((calculate_crc16 (take (n - 2) v) ≡ carried_crc v n)
            × (r.1.received_valid_packets ≡ m.received_valid_packets ++ take n v ∷ []))
          ⊎ (r.1.received_valid_packets ≡ m.received_valid_packets))
unfolding check_crc reject
check_crc_lem v m n r h = elim (Bool-cases (calculate_crc16 (take (n - 2) v) == carried_crc v n)) [
  | inl e ↦
      let taken = accept_lem v m n (deserialize_payload (drop 5 v)) r refl (rw e at h) in
      (taken.1, inl ((==_iff _ _).0 e, taken.0))
  | inr e ↦ let h' : reject v m ≡ ok r = rw e at h in (ground arith, inr (ground arith))
]

-- A sound machine back at WAIT_FOR_SYNC.
abbrev IsSettled : Machine → Type 0
IsSettled m =
    All IsFrame m.received_valid_packets × (length m.received_valid_packets ≤ m.telemetry_pkt_count)

module _ (v : View) (m : Machine) {t : Turn} (frames : All IsFrame m.received_valid_packets) where
  telemetry-IsSound :
      Seen read_payload v (record m { type = telemetry })
      → total_packet_size m ≤ length v
      → length m.received_valid_packets + 1 ≤ m.telemetry_pkt_count
      → process_telemetry_payload v m (total_packet_size m) ≡ ok t
      → IsSound t.view t.machine
  telemetry-IsSound (five, typed, stated, small, large) fits counted h =
      finish (
        >>=-eq-ok _ back_to_sync
          (sym (process_telemetry_payload_long v m n (omega arith) fits) ∙ h))
    where
      n : ℕ
      n = total_packet_size m

      settled :
          (r : View × Machine)
          → check_crc (take (n - 2) v) (carried_crc v n) v m n ≡ ok r
          → IsSettled r.1
      settled r checked =
          let (counts, outcome) = check_crc_lem v m n r checked in
          elim outcome [
            | inl (crc_ok, grown) ↦
                let frame : IsFrame (take n v) =
                  take-IsFrame v m.expected_payload_length n typed stated small large (omega arith)
                    fits crc_ok in
                rw (grown, counts)
                  (
                    All-append IsFrame m.received_valid_packets (take n v ∷ []) frames (frame, tt),
                    omega (arith, length-append m.received_valid_packets (take n v ∷ [])),
                  )
            | inr same ↦ rw (same, counts) (frames, omega arith)
          ]

      finish :
          ((r : View × Machine) × (check_crc (take (n - 2) v) (carried_crc v n) v m n ≡ ok r)
            × (back_to_sync r ≡ ok t))
          → IsSound t.view t.machine
      finish (r, checked, reset) =
          let s : IsSettled r.1 = settled r checked in unfold back_to_sync in ground arith

  payload-IsSound :
      (ty : TypeMsg)
      → m.state ≡ read_payload
      → m.type ≡ ty
      → IsSound v m
      → total_packet_size m ≤ length v
      → on_payload ty v m ≡ ok t
      → IsSound t.view t.machine
  unfolding on_payload process_heart_beat_payload process_command_payload
  payload-IsSound telemetry s e sound fits h =
      let (seen, all, counted) = rw (s, e) at sound in telemetry-IsSound seen fits counted h
  payload-IsSound heart_beat s e sound fits h = ground arith
  payload-IsSound command s e sound fits h = ground arith
  payload-IsSound unknow s e sound fits h = ground arith
  payload-IsSound (other n) s e sound fits h = ground arith

  type-IsSound :
      HasHeader v
      → 3 ≤ length v
      → length m.received_valid_packets ≤ m.telemetry_pkt_count
      → (ty : TypeMsg) → type_msg_of (byte_at v 2) ≡ ty
      → on_type ty v m ≡ ok t
      → IsSound t.view t.machine
  unfolding on_type count_type
  type-IsSound header long counted telemetry e h = ground arith
  type-IsSound header long counted heart_beat e h = ground arith
  type-IsSound header long counted command e h = ground arith
  type-IsSound header long counted unknow e h = ground arith
  type-IsSound header long counted (other n) e h = ground arith

  length-IsSound :
      (n : ℕ)
      → HasType v m.type
      → 5 ≤ length v
      → length m.received_valid_packets + pending read_length m.type ≤ m.telemetry_pkt_count
      → stated_length v ≡ n
      → on_length n v m ≡ ok t
      → IsSound t.view t.machine
  unfolding on_length
  length-IsSound n typed long counted e h = ground (arith, pending_carries m.type)

sync-IsSound :
    (v : View) (m : Machine)
    → m.state ≡ wait_for_sync
    → IsSettled m
    → IsSound (sync v m).view (sync v m).machine
unfolding sync
sync-IsSound [] m e s = rw e (tt, s.0, omega arith)
sync-IsSound (x ∷ []) m e s = rw e (tt, s.0, omega arith)
sync-IsSound (x ∷ y ∷ v) m e s = elim (Bool-cases (starts_packet x y)) [
  | inl h ↦ rw h (ground arith)
  | inr h ↦ rw h (sync-IsSound (y ∷ v) m e s)
]

sound-IsSettled : (v : View) (m : Machine) → IsSound v m → m.state ≡ wait_for_sync → IsSettled m
sound-IsSettled v m s e = let s' = rw e at s in (s'.1, omega arith)

state-IsSound :
    (s : ParserState) (v : View) (m : Machine) {t : Turn}
    → m.state ≡ s
    → 1 ≤ length v
    → IsSound v m
    → on_state s v m ≡ ok t
    → IsSound t.view t.machine
unfolding on_state
state-IsSound wait_for_sync [] m e pos sound h = absurd (omega arith)
state-IsSound wait_for_sync (x ∷ v) m {t} e pos sound h =
    let same : ok (sync (x ∷ v) m) ≡ ok t = sym (on_wait_for_sync-sync x v m) ∙ h in
    let same' : sync (x ∷ v) m ≡ t = cc in
    rw same' at (sync-IsSound (x ∷ v) m e (sound-IsSettled (x ∷ v) m sound e))
state-IsSound read_type v m e pos sound h = elim (dec_lt (length v) 3) [
  | yes short ↦ ground (arith, on_read_type_short v m short)
  | no long ↦
      let (seen, frames, counted) = rw e at sound in
      type-IsSound v m frames seen (omega arith) (omega arith) (type_msg_of (byte_at v 2)) refl
        (sym (on_read_type_long v m (omega arith)) ∙ h)
]
state-IsSound read_length v m e pos sound h = elim (dec_lt (length v) 5) [
  | yes short ↦ ground (arith, on_read_length_short v m short)
  | no long ↦
      let (seen, frames, counted) = rw e at sound in
      length-IsSound v m frames (stated_length v) seen (omega arith) (omega arith) refl
        (sym (on_read_length_long v m (omega arith)) ∙ h)
]
state-IsSound read_payload v m {t} e pos sound h = elim (dec_lt (length v) (total_packet_size m)) [
  | yes short ↦ unfold on_read_payload in ground arith
  | no long ↦
      let fits : total_packet_size m ≤ length v = omega arith in
      unfold on_read_payload in
      ground (arith, payload-IsSound v m {t = t} sound.1 m.type e refl sound fits)
]

-- The loop keeps what is known of the view, and every packet that it accepts is whole and has the
-- right checksum.
pub loop-IsSound :
    (f : ℕ) (v : View) (m : Machine) (w : View) (n : Machine)
    → loop f v m ≡ ok (w, n)
    → IsSound v m
    → IsSound w n
unfolding loop
loop-IsSound f [] m w n h sound = ground arith
loop-IsSound zero (x ∷ v) m w n h sound = cc
loop-IsSound (suc f) (x ∷ v) m w n h sound =
    finish (λ u l k s. loop-IsSound f u l w n k s)
      (>>=-eq-ok (step (x ∷ v) m) (next_round (loop f)) h)
  where
    finish :
        ((u : View) (l : Machine) → loop f u l ≡ ok (w, n) → IsSound u l → IsSound w n)
        → ((t : Turn) × (step (x ∷ v) m ≡ ok t) × (next_round (loop f) t ≡ ok (w, n)))
        → IsSound w n
    finish ih (t, e, rest) =
        let first : IsSound t.view t.machine =
          unfold step in state-IsSound m.state (x ∷ v) m refl (omega arith) sound e in
        elim (Bool-cases t.state_changed) [
          | inl on ↦ ih t.view t.machine (unfold next_round in rw on at rest) first
          | inr off ↦
              let done : ◌≡◌ {A = Outcome (View × Machine)} (ok (t.view, t.machine)) (ok (w, n)) =
                unfold next_round in rw off at rest in
              let ew : t.view ≡ w = cc in let en : t.machine ≡ n = cc in rw (ew, en) at first
        ]
