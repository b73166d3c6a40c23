-- ===== src/Sensor/Sockets.antt =====
-- Which sockets the sensor has open, and which threads it can delete.
use counter_drone_server.Base.{
  ℕ, ◌≡◌, refl, sym, ap, ◌∙◌, arith, List, [], ◌∷◌, ◌++◌, Bool, true, false, not, ◌&&◌, ◌||◌,
  Option, none, some, if◌then◌else◌, ◌==◌, ==_iff, Bool-cases, inl, inr, All, All-append,
}
use counter_drone_server.Sensor.{
  Receiver, DroneDataSensor, Setup, opened, closed, init_tcp_communication_pipe,
  delete_inactive_threads, finish, receives, Step, accepted, timed_out, received, received_nothing,
  receiver_ends, stop, loop_ends, Steps, none_yet, and_then,
}

-- Whether the number is that of the listening socket.
abbrev pub listens : ℕ → Option ℕ → Bool
listens x none = false
listens x (some fd) = x == fd

abbrev pub is_some : Option ℕ → Bool
is_some none = false
is_some (some fd) = true

closed-opened :
    (fd x : ℕ) (open_sockets : ℕ → Bool)
    → open_sockets fd ≡ false
    → closed fd (opened fd open_sockets) x ≡ open_sockets x
closed-opened fd x open_sockets new = elim (Bool-cases (x == fd)) [
  | inl e ↦ rw ((==_iff x fd).0 e, new) (ground arith)
  | inr e ↦ rw e refl
]

-- When the system gives a socket that is not open, the set-up succeeds exactly if all three calls
-- do, and then that socket is the listening one and the only one more that is open. If a call fails
-- there is no listening socket, and no more sockets are open than before.
pub init_tcp_communication_pipe_lem :
    (c : Setup) (s : DroneDataSensor)
    → ((fd : ℕ) → c.socket ≡ some fd → s.open_sockets fd ≡ false)
    → let (done, t) = init_tcp_communication_pipe c s in
      (done ≡ (is_some c.socket && c.bind_ok && c.listen_ok))
      × (t.connections_socket ≡ (if done then c.socket else none))
      × ((x : ℕ) → t.open_sockets x ≡ (listens x t.connections_socket || s.open_sockets x))
unfolding init_tcp_communication_pipe
init_tcp_communication_pipe_lem c s fresh = by_calls c.socket c.bind_ok c.listen_ok fresh
  where
    by_calls :
        (socket : Option ℕ) (bind_ok listen_ok : Bool)
        → ((fd : ℕ) → socket ≡ some fd → s.open_sockets fd ≡ false)
        → let c : Setup = record { socket = socket; bind_ok = bind_ok; listen_ok = listen_ok } in
          let (done, t) = init_tcp_communication_pipe c s in
          (done ≡ (is_some socket && bind_ok && listen_ok))
          × (t.connections_socket ≡ (if done then socket else none))
          × ((x : ℕ) → t.open_sockets x ≡ (listens x t.connections_socket || s.open_sockets x))
    by_calls none bind_ok listen_ok fresh = (refl, refl, λ x. refl)
    by_calls (some fd) false listen_ok fresh =
        (refl, refl, λ x. closed-opened fd x s.open_sockets (fresh fd refl))
    by_calls (some fd) true false fresh =
        (refl, refl, λ x. closed-opened fd x s.open_sockets (fresh fd refl))
    by_calls (some fd) true true fresh = (refl, refl, λ x. refl)

receives-append :
    (x : ℕ) (rs qs : List Receiver) → receives x (rs ++ qs) ≡ (receives x rs || receives x qs)
receives-append x [] qs = refl
receives-append x (r ∷ rs) qs = ground (arith, receives-append x rs qs)

receives-delete :
    (x : ℕ) (rs : List Receiver) → receives x (delete_inactive_threads rs) ≡ receives x rs
receives-delete x [] = refl
receives-delete x (r ∷ rs) = ground (arith, receives-delete x rs)

receives-finish :
    (x fd : ℕ) (rs : List Receiver) → receives x (finish fd rs) ≡ (not (x == fd) && receives x rs)
receives-finish x fd [] = ground arith
receives-finish x fd (r ∷ rs) = ground (arith, receives-finish x fd rs)

-- The sockets that are open are the listening one and those on which a thread receives, and the
-- former is none of the latter.
pub record IsTidy (s : DroneDataSensor) : Type 0 where
  pub open_are :
      (x : ℕ) → s.open_sockets x ≡ (listens x s.connections_socket || receives x s.receivers)
  pub apart : (x : ℕ) → listens x s.connections_socket ≡ true → receives x s.receivers ≡ false

receives_accepted :
    (x fd : ℕ) (rs : List Receiver)
    → receives x (delete_inactive_threads (rs ++ record { socket = fd; finished = false } ∷ []))
      ≡ (receives x rs || (x == fd))
receives_accepted x fd rs =
    let added : List Receiver = record { socket = fd; finished = false } ∷ [] in
    receives-delete x (rs ++ added) ∙ receives-append x rs added ∙ ground arith

or_rotate : (a b c : Bool) → (a || (b || c)) ≡ (b || (c || a))
or_rotate a b c = ground arith

and_or : (a b c : Bool) → (a ≡ false → b ≡ false) → (a && (b || c)) ≡ (b || (a && c))
and_or false b c h = rw (h refl) refl
and_or true b c h = refl

and_not_or : (a c : Bool) → (a ≡ true → c ≡ false) → (not a && (a || c)) ≡ c
and_not_or false c h = refl
and_not_or true c h = sym (h refl)

-- A number that is not open is not the listening one.
new-listens :
    (s : DroneDataSensor) (fd : ℕ)
    → IsTidy s
    → s.open_sockets fd ≡ false
    → listens fd s.connections_socket ≡ false
new-listens s fd tidy new = ground (arith, tidy.open_are fd)

-- Nor is one on which a thread receives.
receiving-listens :
    (s : DroneDataSensor) (fd : ℕ)
    → IsTidy s
    → receives fd s.receivers ≡ true
    → listens fd s.connections_socket ≡ false
receiving-listens s fd tidy r = elim (Bool-cases (listens fd s.connections_socket)) [
  | inl e ↦ cc (tidy.apart fd e, r)
  | inr e ↦ e
]

-- No thread has finished.
abbrev AllReceive : List Receiver → Type 0
AllReceive = All (λ r. r.finished ≡ false)

delete-all : (rs : List Receiver) → AllReceive rs → delete_inactive_threads rs ≡ rs
delete-all [] h = refl
delete-all (r ∷ rs) (h, hs) = rw (h, delete-all rs hs) refl

Step-IsTidy : {s t : DroneDataSensor} → Step s t → IsTidy s → IsTidy t
Step-IsTidy (accepted s fd l new) tidy = record {
  open_are = λ x.
      ap (λ b. (x == fd) || b) (tidy.open_are x)
      ∙ or_rotate (x == fd) (listens x s.connections_socket) (receives x s.receivers)
      ∙ ap (λ b. listens x s.connections_socket || b) (sym (receives_accepted x fd s.receivers));
  apart = λ x e. receives_accepted x fd s.receivers ∙ rw (tidy.apart x e) (other x e);
}
  where
    other : (x : ℕ) → listens x s.connections_socket ≡ true → (x == fd) ≡ false
    other x e = elim (Bool-cases (x == fd)) [
      | inl q ↦ cc (
        e,
        ap (λ n. listens n s.connections_socket) ((==_iff x fd).0 q),
        new-listens s fd tidy new,
      )
      | inr q ↦ q
    ]
Step-IsTidy (timed_out s l) tidy = record {
  open_are = λ x. rw (receives-delete x s.receivers) (tidy.open_are x);
  apart = λ x e. rw (receives-delete x s.receivers) (tidy.apart x e);
}
Step-IsTidy (received s fd byte bytes r n) tidy = record {
  open_are = tidy.open_are;
  apart = tidy.apart;
}
Step-IsTidy (received_nothing s fd r) tidy = tidy
Step-IsTidy (receiver_ends s fd r k) tidy = record {
  open_are = λ x.
      ap (λ b. not (x == fd) && b) (tidy.open_are x)
      ∙ and_or (not (x == fd)) (listens x s.connections_socket) (receives x s.receivers)
          (λ e. ended x e)
      ∙ ap (λ b. listens x s.connections_socket || b) (sym (receives-finish x fd s.receivers));
  apart = λ x e. receives-finish x fd s.receivers ∙ rw (tidy.apart x e) (ground arith);
}
  where
    ended : (x : ℕ) → not (x == fd) ≡ false → listens x s.connections_socket ≡ false
    ended x e =
        let same : (x == fd) ≡ true = ground arith in
        ap (λ n. listens n s.connections_socket) ((==_iff x fd).0 same)
        ∙ receiving-listens s fd tidy r
Step-IsTidy (stop s) tidy = record { open_are = tidy.open_are; apart = tidy.apart }
Step-IsTidy (loop_ends s fd l k c) tidy = record {
  open_are = λ x.
      ap (λ b. not (x == fd) && b)
        (tidy.open_are x ∙ ap (λ o. listens x o || receives x s.receivers) c)
      ∙ and_not_or (x == fd) (receives x s.receivers) (λ e. tidy.apart x (ap (listens x) c ∙ e));
  apart = λ x e. cc;
}

-- While the system runs no thread has finished.
Step-AllReceive :
    {s t : DroneDataSensor}
    → Step s t
    → (s.keep_running ≡ true → AllReceive s.receivers)
    → t.keep_running ≡ true
    → AllReceive t.receivers
Step-AllReceive (accepted s fd l new) h k =
    let all : AllReceive (s.receivers ++ record { socket = fd; finished = false } ∷ []) =
      All-append (λ r. r.finished ≡ false) s.receivers _ (h k) (refl, tt) in
    rw (delete-all _ all) all
Step-AllReceive (timed_out s l) h k = rw (delete-all s.receivers (h k)) (h k)
Step-AllReceive (received s fd byte bytes r n) h k = h k
Step-AllReceive (received_nothing s fd r) h k = h k
Step-AllReceive (receiver_ends s fd r stopped) h k = cc (stopped, k)
Step-AllReceive (stop s) h k = cc
Step-AllReceive (loop_ends s fd l stopped c) h k = cc (stopped, k)

-- A sensor after a set-up that succeeded.
pub record IsSetUp (s : DroneDataSensor) : Type 0 where
  pub no_receivers : s.receivers ≡ []
  pub open_is : (x : ℕ) → s.open_sockets x ≡ listens x s.connections_socket

Steps-IsTidy : {s t : DroneDataSensor} → IsSetUp s → Steps s t → IsTidy t
Steps-IsTidy {s} set_up none_yet = record {
  open_are =
      λ x. set_up.open_is x ∙ rw set_up.no_receivers (or_false (listens x s.connections_socket));
  apart = λ x e. ap (receives x) set_up.no_receivers;
}
  where
    or_false : (a : Bool) → a ≡ (a || false)
    or_false a = ground arith
Steps-IsTidy set_up (and_then steps step) = Step-IsTidy step (Steps-IsTidy set_up steps)

-- From a sensor that has been set up, however its threads interleave, the sockets that it has open
-- are the listening one, until the loop ends, and those on which a thread receives: no socket
-- leaks. A number that `accept` returns is that of no open socket.
pub no_socket_leaks :
    {s t : DroneDataSensor}
    → IsSetUp s
    → Steps s t
    → (x : ℕ) → t.open_sockets x ≡ (listens x t.connections_socket || receives x t.receivers)
no_socket_leaks set_up steps = (Steps-IsTidy set_up steps).open_are

Steps-AllReceive :
    {s t : DroneDataSensor} → IsSetUp s → Steps s t → t.keep_running ≡ true → AllReceive t.receivers
Steps-AllReceive set_up none_yet k = rw set_up.no_receivers tt
Steps-AllReceive set_up (and_then steps step) k =
    Step-AllReceive step (Steps-AllReceive set_up steps) k

-- From a sensor that has been set up, as long as the system runs, `delete_inactive_threads` finds no
-- thread to delete, whatever the drones do: the thread of a drone that has closed its connection
-- stays.
pub nothing_to_delete :
    {s t : DroneDataSensor}
    → IsSetUp s
    → Steps s t
    → t.keep_running ≡ true
    → delete_inactive_threads t.receivers ≡ t.receivers
nothing_to_delete {s} {t} set_up steps k = delete-all t.receivers (Steps-AllReceive set_up steps k)
