-- ===== src/Sensor.antt =====
-- src/DroneDataSensor.cpp: the listening socket, and the threads that receive from the drones. What
-- the calls of the system return is an input; a negative socket number is `none`. Of the system's
-- sockets the model keeps which numbers the sensor has open.
pub mod Sockets
mod Tests
use counter_drone_server.Base.{
  ℕ, ◌≤◌, ◌≡◌, length, List, [], ◌∷◌, ◌++◌, Bool, true, false, not, ◌&&◌, ◌||◌, Option, none, some,
  if◌then◌else◌, ◌==◌,
}
use counter_drone_server.Packet.{BytesArray}
use counter_drone_server.SharedQueue.{SharedDataManager, push_data}

abbrev pub recv_buffer_size : ℕ
recv_buffer_size = 4096

-- A thread of `listen_on_spesific_socket`; `finished` is what its future tells.
pub record Receiver : Type 0 where
  pub socket : ℕ
  pub finished : Bool

-- `connections_socket` is `m_sensor_connections_socket_num`, `receivers` is
-- `m_drones_data_rcv_threads`, and `looping` says that the loop of `process_loop` goes on.
pub record DroneDataSensor : Type 0 where
  pub connections_socket : Option ℕ
  pub receivers : List Receiver
  pub raw_data_manager : SharedDataManager BytesArray
  pub keep_running : Bool
  pub looping : Bool
  pub woke_all : Bool
  pub open_sockets : ℕ → Bool

-- The effects of the system calls on the open sockets.
abbrev pub opened : ℕ → (ℕ → Bool) → ℕ → Bool
opened fd open_sockets x = (x == fd) || open_sockets x

abbrev pub closed : ℕ → (ℕ → Bool) → ℕ → Bool
closed fd open_sockets x = not (x == fd) && open_sockets x

-- What `socket` returns, and whether `bind` and `listen` succeed.
pub record Setup : Type 0 where
  pub socket : Option ℕ
  pub bind_ok : Bool
  pub listen_ok : Bool

-- The calls behind `socket`, and what both failures do.
give_up : ℕ → DroneDataSensor → Bool × DroneDataSensor
give_up fd s =
    (false, record s { open_sockets = closed fd s.open_sockets; connections_socket = none })

bind_and_listen : ℕ → Setup → DroneDataSensor → Bool × DroneDataSensor
bind_and_listen fd c s =
    if not c.bind_ok then give_up fd s else if not c.listen_ok then give_up fd s else (true, s)

init_with : Option ℕ → Setup → DroneDataSensor → Bool × DroneDataSensor
init_with none c s = (false, record s { connections_socket = none })
init_with (some fd) c s =
    bind_and_listen fd c
      (record s { connections_socket = some fd; open_sockets = opened fd s.open_sockets })

unfoldable pub init_tcp_communication_pipe : Setup → DroneDataSensor → Bool × DroneDataSensor
unfolding give_up bind_and_listen init_with
init_tcp_communication_pipe c s = init_with c.socket c s

-- The lambda of `process_loop` that erases the threads that have finished.
abbrev pub delete_inactive_threads : List Receiver → List Receiver
delete_inactive_threads [] = []
delete_inactive_threads (r ∷ receivers) =
    let rest = delete_inactive_threads receivers in if r.finished then rest else r ∷ rest

-- The thread of the socket returns.
abbrev pub finish : ℕ → List Receiver → List Receiver
finish fd [] = []
finish fd (r ∷ receivers) =
    (if r.socket == fd then record r { finished = true } else r) ∷ finish fd receivers

-- Whether some thread still receives on the socket.
abbrev pub receives : ℕ → List Receiver → Bool
receives fd [] = false
receives fd (r ∷ receivers) = ((fd == r.socket) && not r.finished) || receives fd receivers

-- What the threads of the sensor do, in any order. `accepted` and `timed_out` are a round of the
-- loop of `process_loop`, `received` and `received_nothing` one of `listen_on_spesific_socket`. A
-- round may be under way when the flag is cleared; only the ends of the loops ask for that.
pub data Step : DroneDataSensor → DroneDataSensor → Type 0 where
  accepted :
      (s : DroneDataSensor) (fd : ℕ)
      → s.looping ≡ true
      → s.open_sockets fd ≡ false
      → Step s (record s {
        receivers =
            delete_inactive_threads (s.receivers ++ record { socket = fd; finished = false } ∷ []);
        open_sockets = opened fd s.open_sockets;
      })
  timed_out :
      (s : DroneDataSensor)
      → s.looping ≡ true
      → Step s (record s { receivers = delete_inactive_threads s.receivers })
  received :
      (s : DroneDataSensor) (fd byte : ℕ) (bytes : BytesArray)
      → receives fd s.receivers ≡ true
      → length (byte ∷ bytes) ≤ recv_buffer_size
      → Step s (record s { raw_data_manager = push_data s.raw_data_manager (byte ∷ bytes) })
  received_nothing : (s : DroneDataSensor) (fd : ℕ) → receives fd s.receivers ≡ true → Step s s
  receiver_ends :
      (s : DroneDataSensor) (fd : ℕ)
      → receives fd s.receivers ≡ true
      → s.keep_running ≡ false
      → Step s
          (record s { receivers = finish fd s.receivers; open_sockets = closed fd s.open_sockets })
  stop : (s : DroneDataSensor) → Step s (record s { keep_running = false })
  loop_ends :
      (s : DroneDataSensor) (fd : ℕ)
      → s.looping ≡ true
      → s.keep_running ≡ false
      → s.connections_socket ≡ some fd
      → Step s (record s {
        looping = false;
        woke_all = true;
        open_sockets = closed fd s.open_sockets;
        connections_socket = none;
      })

pub data Steps (s : DroneDataSensor) : DroneDataSensor → Type 0 where
  none_yet : Steps s s
  and_then : {t u : DroneDataSensor} → Steps s t → Step t u → Steps s u
