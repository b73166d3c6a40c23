-- ===== src/Simulator/Generate.antt =====
-- The random telemetry of src/DroneDataSimulator.cpp, and `process_loop` with its own draws. The
-- generator, its distributions and the clock are a parameter.
pub mod Rounds
use counter_drone_server.Base.{
  ℕ, zero, suc, ◌+◌, ◌-◌, ◌*◌, ◌/◌, ◌%◌, ◌^◌, ◌≤◌, ◌<◌, List, [], ◌∷◌, ◌++◌, Option, none, some,
  if◌then◌else◌, ltb, leb, ◌==◌, Outcome, ok, fault, ◌>>=◌, length,
}
use counter_drone_server.Packet.{BytesArray, TelemetryData}
use counter_drone_server.Simulator.Encode.{build_telemetry_packet}
use counter_drone_server.Simulator.Scenarios.{
  DroneDataSimulator, Draws, may_send, adjusted, sequence_limit, send_scenario,
}

-- What the standard library gives: integers and doubles drawn from a range that is not empty, and
-- the milliseconds of the system clock. The doubles are patterns of positive numbers, whose order
-- is that of the numbers.
pub record Surroundings : Type 1 where
  pub State : Type 0
  pub uniform_int : ℕ → ℕ → State → ℕ × State
  pub uniform_real : ℕ → ℕ → State → ℕ × State
  pub milliseconds : State → ℕ × State
  pub uniform_int_bounds :
      (low high : ℕ) (s : State)
      → low ≤ high
      → (low ≤ (uniform_int low high s).0) × ((uniform_int low high s).0 ≤ high)
  pub uniform_real_bounds :
      (low high : ℕ) (s : State)
      → low ≤ high
      → (low ≤ (uniform_real low high s).0) × ((uniform_real low high s).0 ≤ high)
  pub milliseconds_fit : (s : State) → (milliseconds s).0 < 2 ^ 64

-- `std::to_string`; twenty digits are enough for 64 bits.
digits : ℕ → ℕ → BytesArray
digits zero n = []
digits (suc f) n =
    let more = digits f (n / 10) in if ltb n 10 then (48 + n) ∷ [] else more ++ (48 + n % 10) ∷ []

pub to_string : ℕ → BytesArray
unfolding digits
to_string n = digits 20 n

-- The bounds of the distributions: 32.05, 32.15, 34.75, 34.85, 10, 300, 0 and 25.
abbrev pub lat_low : ℕ
lat_low = 0x4040066666666666

abbrev pub lat_high : ℕ
lat_high = 0x4040133333333333

abbrev pub lon_low : ℕ
lon_low = 0x4041600000000000

abbrev pub lon_high : ℕ
lon_high = 0x40416CCCCCCCCCCD

abbrev pub alt_low : ℕ
alt_low = 0x4024000000000000

abbrev pub alt_high : ℕ
alt_high = 0x4072C00000000000

abbrev pub speed_low : ℕ
speed_low = 0

abbrev pub speed_high : ℕ
speed_high = 0x4039000000000000

module _ (w : Surroundings) where
  open w use {State, uniform_int, uniform_real, milliseconds}

  pub generate_valid_telemetry_data : State → TelemetryData × State
  generate_valid_telemetry_data s =
      let (drone_num, s1) = uniform_int 1 5 s in
      let (latitude, s2) = uniform_real lat_low lat_high s1 in
      let (longitude, s3) = uniform_real lon_low lon_high s2 in
      let (altitude, s4) = uniform_real alt_low alt_high s3 in
      let (speed, s5) = uniform_real speed_low speed_high s4 in
      let (timestamp, s6) = milliseconds s5 in
      (
        record {
          drone_id = 68 ∷ 82 ∷ 78 ∷ 45 ∷ to_string drone_num;
          latitude = latitude;
          longitude = longitude;
          altitude = altitude;
          speed = speed;
          timestamp = timestamp;
        },
        s6,
      )

  -- `corruption_chance` out of a hundred; then the byte and the bit.
  draw_corruption : ℕ → BytesArray → State → Option (ℕ × ℕ) × State
  draw_corruption corruption_chance packet s =
      let (chance, s1) = uniform_int 1 100 s in
      let (target_byte, s2) = uniform_int 3 (length packet - 1) s1 in
      let (bit, s3) = uniform_int 0 7 s2 in
      if leb chance corruption_chance then (some (target_byte, bit), s3) else (none, s1)

  -- The loop over the bytes of the garbage.
  random_bytes : ℕ → State → BytesArray × State
  random_bytes zero s = ([], s)
  random_bytes (suc n) s =
      let (byte, s1) = uniform_int 0 255 s in
      let (bytes, s2) = random_bytes n s1 in (byte % 2 ^ 8 ∷ bytes, s2)

  -- The loop over the telemetry of a sequence.
  random_sequence : ℕ → State → List TelemetryData × State
  random_sequence zero s = ([], s)
  random_sequence (suc n) s =
      let (t, s1) = generate_valid_telemetry_data s in
      let (ts, s2) = random_sequence n s1 in (t ∷ ts, s2)

  -- The length of a sequence, where it has a range.
  sequence_within : Option ℕ → State → List TelemetryData × State
  sequence_within none s = ([], s)
  sequence_within (some limit) s =
      let (amount, s1) = uniform_int 2 limit s in random_sequence amount s1

  -- What the `switch` draws in its five cases, in the order of the code.
  no_draws : ℕ → Draws
  no_draws scenario = record {
    scenario = scenario;
    telemetry = record {
      drone_id = [];
      latitude = 0;
      longitude = 0;
      altitude = 0;
      speed = 0;
      timestamp = 0;
    };
    garbage = [];
    split_idx = 0;
    corruption = none;
    sequence = [];
  }

  draw_whole : ℕ → State → Draws × State
  draw_whole scenario s =
      let (t, s1) = generate_valid_telemetry_data s in
      (record (no_draws scenario) { telemetry = t }, s1)

  draw_garbage : ℕ → State → Draws × State
  draw_garbage scenario s =
      let (garbage_len, s1) = uniform_int 5 50 s in
      let (garbage, s2) = random_bytes garbage_len s1 in
      (record (no_draws scenario) { garbage = garbage }, s2)

  draw_fragmented : ℕ → State → Draws × State
  draw_fragmented scenario s =
      let (t, s1) = generate_valid_telemetry_data s in
      let (split_idx, s2) = uniform_int 1 (length (build_telemetry_packet t) - 1) s1 in
      (record (no_draws scenario) { telemetry = t; split_idx = split_idx }, s2)

  draw_corrupted : ℕ → State → Draws × State
  draw_corrupted scenario s =
      let (t, s1) = generate_valid_telemetry_data s in
      let (corruption, s2) = draw_corruption 50 (build_telemetry_packet t) s1 in
      (record (no_draws scenario) { telemetry = t; corruption = corruption }, s2)

  draw_sequence : ℕ → Option ℕ → State → Draws × State
  draw_sequence scenario limit s =
      let (ts, s1) = sequence_within limit s in (record (no_draws scenario) { sequence = ts }, s1)

  draw_case : ℕ → ℕ → Option ℕ → State → Draws × State
  draw_case case scenario limit s =
      if case == 0
      then draw_whole scenario s
      else if case == 1
      then draw_garbage scenario s
      else if case == 2
      then draw_fragmented scenario s
      else if case == 3
      then draw_corrupted scenario s
      else draw_sequence scenario limit s

  pub draw_round : Option ℕ → DroneDataSimulator → State → Draws × State
  draw_round most sim s =
      let (scenario, s1) = uniform_int 0 4 s in
      draw_case (adjusted most scenario sim) scenario (sequence_limit most sim) s1

  pub play_round : Option ℕ → DroneDataSimulator × State → Outcome (DroneDataSimulator × State)
  play_round most (sim, s) =
      let (d, s1) = draw_round most sim s in send_scenario most d sim >>= λ t. ok (t, s1)

  -- The two loops of `process_loop`, for at most the number of rounds that pass before the flag is
  -- read as cleared.
  pub process_loop :
      Option ℕ → ℕ → DroneDataSimulator × State → Outcome (DroneDataSimulator × State)
  process_loop most zero p = ok p
  process_loop most (suc rounds) p =
      if may_send most p.0
      then (play_round most p >>= λ next. process_loop most rounds next)
      else ok p
