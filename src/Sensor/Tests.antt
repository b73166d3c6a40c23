-- ===== src/Sensor/Tests.antt =====
-- The sensor's theorems on a short session.
use counter_drone_server.Base.{
  ◌≡◌, refl, ℕ, [], ◌∷◌, Bool, true, false, ◌||◌, none, some, ◌==◌, arith,
}
use counter_drone_server.Sensor.{
  DroneDataSensor, Setup, opened, init_tcp_communication_pipe, Steps, none_yet, and_then, accepted,
  timed_out, delete_inactive_threads, receives,
}
use counter_drone_server.Sensor.Sockets.{
  listens, IsSetUp, init_tcp_communication_pipe_lem, no_socket_leaks, nothing_to_delete,
}

abbrev new_sensor : DroneDataSensor
new_sensor = record {
  connections_socket = none;
  receivers = [];
  raw_data_manager = record { shared_data = [] };
  keep_running = true;
  looping = true;
  woke_all = false;
  open_sockets = λ x. false;
}

-- The port is in use.
abbrev bind_fails : Setup
bind_fails = record { socket = some 3; bind_ok = false; listen_ok = true }

init_tcp_communication_pipe_lem_example :
    let (done, t) = init_tcp_communication_pipe bind_fails new_sensor in
    (done ≡ false) × (t.connections_socket ≡ none) × ((x : ℕ) → t.open_sockets x ≡ false)
unfolding init_tcp_communication_pipe
init_tcp_communication_pipe_lem_example =
    init_tcp_communication_pipe_lem bind_fails new_sensor (λ fd e. refl)

-- Socket 3 listens.
abbrev set_up : DroneDataSensor
set_up = record new_sensor {
  connections_socket = some 3;
  open_sockets = opened 3 new_sensor.open_sockets;
}

set_up-IsSetUp : IsSetUp set_up
set_up-IsSetUp = record { no_receivers = refl; open_is = λ x. or_false (x == 3) }
  where
    or_false : (a : Bool) → (a || false) ≡ a
    or_false a = ground arith

abbrev connected : DroneDataSensor
connected = record set_up {
  receivers = record { socket = 4; finished = false } ∷ [];
  open_sockets = opened 4 set_up.open_sockets;
}

session : Steps set_up connected
session = and_then (and_then none_yet (accepted set_up 4 refl refl)) (timed_out connected refl)

no_socket_leaks_example :
    connected.open_sockets 4
    ≡ (listens 4 connected.connections_socket || receives 4 connected.receivers)
no_socket_leaks_example = no_socket_leaks set_up-IsSetUp session 4

nothing_to_delete_example : delete_inactive_threads connected.receivers ≡ connected.receivers
nothing_to_delete_example = nothing_to_delete set_up-IsSetUp session refl
