-- ===== src/Processor/Table.antt =====
-- The table of drones as a map.
use counter_drone_server.Base.{
  ℕ, ◌≡◌, ◌↔◌, ◌⊎◌, inl, inr, refl, arith, [], ◌∷◌, Bool, true, false, not, ◌&&◌, Option, some,
  if◌then◌else◌, Bool-cases,
}
use mathlib.Core.Option.{map}
use counter_drone_server.Packet.{BytesArray, TelemetryData}
use counter_drone_server.Processor.{
  DroneStatus, DronesStatus, key_lt, assign, find, refresh, is_inactive,
}

key_lt_irrefl : (xs : BytesArray) → key_lt xs xs ≡ false
key_lt_irrefl [] = refl
key_lt_irrefl (x ∷ xs) = ground (arith, key_lt_irrefl xs)

key_lt_trans :
    (xs ys zs : BytesArray) → key_lt xs ys ≡ true → key_lt ys zs ≡ true → key_lt xs zs ≡ true
key_lt_trans [] [] zs p q = cc
key_lt_trans [] (y ∷ ys) [] p q = cc
key_lt_trans [] (y ∷ ys) (z ∷ zs) p q = refl
key_lt_trans (x ∷ xs) [] zs p q = cc
key_lt_trans (x ∷ xs) (y ∷ ys) [] p q = cc
key_lt_trans (x ∷ xs) (y ∷ ys) (z ∷ zs) p q = ground (arith, key_lt_trans xs ys zs)

key_lt_connected : (xs ys : BytesArray) → key_lt xs ys ≡ false → key_lt ys xs ≡ false → xs ≡ ys
key_lt_connected [] [] p q = refl
key_lt_connected [] (y ∷ ys) p q = cc
key_lt_connected (x ∷ xs) [] p q = cc
key_lt_connected (x ∷ xs) (y ∷ ys) p q = ground (arith, key_lt_connected xs ys)

-- Equality of identifiers, as a test.
abbrev pub same_key : BytesArray → BytesArray → Bool
same_key xs ys = not (key_lt xs ys) && not (key_lt ys xs)

pub same_key_iff : (xs ys : BytesArray) → (same_key xs ys ≡ true) ↔ (xs ≡ ys)
same_key_iff xs ys = (
  λ e.
      key_lt_connected xs ys (left (key_lt xs ys) (key_lt ys xs) e)
        (right (key_lt xs ys) (key_lt ys xs) e),
  λ e. rw e (rw (key_lt_irrefl ys) refl),
)
  where
    left : (a b : Bool) → not a && not b ≡ true → a ≡ false
    left a b e = ground arith

    right : (a b : Bool) → not a && not b ≡ true → b ≡ false
    right a b e = ground arith

-- How two identifiers compare, in both directions.
abbrev Compared : BytesArray → BytesArray → Type 0
Compared xs ys =
    ((key_lt xs ys ≡ true) × (key_lt ys xs ≡ false))
    ⊎ (xs ≡ ys)
    ⊎ ((key_lt xs ys ≡ false) × (key_lt ys xs ≡ true))

key_lt_asym : (xs ys : BytesArray) → key_lt xs ys ≡ true → key_lt ys xs ≡ false
key_lt_asym xs ys p = elim (Bool-cases (key_lt ys xs)) [
  | inl q ↦ cc (key_lt_trans xs ys xs p q, key_lt_irrefl xs)
  | inr q ↦ q
]

compared : (xs ys : BytesArray) → Compared xs ys
compared xs ys = elim (Bool-cases (key_lt xs ys)) [
  | inl p ↦ inl (p, key_lt_asym xs ys p)
  | inr p ↦ elim (Bool-cases (key_lt ys xs)) [
    | inl q ↦ inr (inr (p, q))
    | inr q ↦ inr (inl (key_lt_connected xs ys p q))
  ]
]

-- What was assigned is found, and other keys find what they found before.
pub find-assign :
    (j k : BytesArray) (s : DroneStatus) (m : DronesStatus)
    → find j (assign k s m) ≡ (if same_key j k then some s else find j m)
unfolding assign
find-assign j k s [] = ground arith
find-assign j k s ((k', s') ∷ rest) = elim (compared k k') [
  | inl (p, q) ↦ elim (compared j k) [
    | inl (a, b) ↦ rw (p, a, key_lt_trans j k k' a p) refl
    | inr (inl e) ↦ rw (p, e, key_lt_irrefl k) refl
    | inr (inr (a, b)) ↦ rw (p, a, b) refl
  ]
  | inr (inl e) ↦ elim (compared j k') [
    | inl (a, b) ↦ rw (e, key_lt_irrefl k', a) refl
    | inr (inl d) ↦ rw (e, d, key_lt_irrefl k', key_lt_irrefl k') refl
    | inr (inr (a, b)) ↦ rw (e, key_lt_irrefl k', a, b) refl
  ]
  | inr (inr (p, q)) ↦ elim (compared j k') [
    | inl (a, b) ↦ rw (p, q, a, key_lt_trans j k' k a q) refl
    | inr (inl d) ↦ rw (d, p, q, key_lt_irrefl k') refl
    | inr (inr (a, b)) ↦ rw (p, q, a, b) (find-assign j k s rest)
  ]
]

-- The status of a drone with a last telemetry, at a time.
abbrev pub status_at : ℕ → TelemetryData → DroneStatus
status_at now t = record { active = not (is_inactive now t); telemetry = t }

abbrev pub telemetry_of : Option DroneStatus → Option TelemetryData
telemetry_of = map (λ s. s.telemetry)

pub find-refresh :
    (now : ℕ) (j : BytesArray) (m : DronesStatus)
    → find j (refresh now m) ≡ map (status_at now) (telemetry_of (find j m))
unfolding refresh
find-refresh now j [] = refl
find-refresh now j ((k, s) ∷ rest) =
    let further : find j (refresh now rest) ≡ map (status_at now) (telemetry_of (find j rest)) =
      find-refresh now j rest in
    ground (arith, further)
