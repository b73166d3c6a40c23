-- ===== src/Parser/Sync.antt =====
-- WAIT_FOR_SYNC against a plain description of what it does: skip to the first header, or else
-- keep a last byte that may begin one.
use native.Mathlib.Numerals.{add-one}
use counter_drone_server.Base.{
  ℕ, suc, ◌+◌, ◌-◌, ◌≤◌, ◌≡◌, refl, ◌∙◌, inl, inr, arith, [], ◌∷◌, ◌++◌, some, none, Bool, true,
  false, ◌&&◌, ◌==◌, if◌then◌else◌, ok, length, drop, drop_all, get_elem?-eq-get_or, sym, ap,
  Option-cases, Bool-cases,
}
use counter_drone_server.Packet.{header_byte_0, header_byte_1}
use counter_drone_server.Parser.{
  Machine, Turn, wait, read_type, find_sync, after_sync_search, on_wait_for_sync,
}
use counter_drone_server.Parser.Deserialize.{View}
use counter_drone_server.Parser.Closed.{byte_at}

abbrev pub starts_packet : ℕ → ℕ → Bool
starts_packet a b = a == header_byte_0 && b == header_byte_1

unfoldable pub sync : View → Machine → Turn
sync [] m = wait [] m
sync (a ∷ []) m = wait (if a == header_byte_0 then a ∷ [] else []) m
sync (a ∷ b ∷ rest) m =
    if starts_packet a b
    then record {
      state_changed = true;
      view = a ∷ b ∷ rest;
      machine = record m { state = read_type };
    }
    else sync (b ∷ rest) m

find_sync-suc_some :
    (i : ℕ) (v : View) (j : ℕ) → find_sync i v ≡ some j → find_sync (i + 1) v ≡ some (j + 1)
unfolding find_sync
find_sync-suc_some i [] j h = cc
find_sync-suc_some i (a ∷ []) j h = cc
find_sync-suc_some i (a ∷ b ∷ v) j h = ground (arith, find_sync-suc_some (i + 1) (b ∷ v) j)

find_sync-suc_none : (i k : ℕ) (v : View) → find_sync i v ≡ none → find_sync k v ≡ none
unfolding find_sync
find_sync-suc_none i k [] h = refl
find_sync-suc_none i k (a ∷ []) h = refl
find_sync-suc_none i k (a ∷ b ∷ v) h = ground (arith, find_sync-suc_none (i + 1) (k + 1) (b ∷ v))

after_sync_search-some :
    (j : ℕ) (v : View) (m : Machine)
    → j ≤ length v
    → after_sync_search (some j) v m
      ≡ ok (record {
        state_changed = true;
        view = drop j v;
        machine = record m { state = read_type };
      })
unfolding after_sync_search
after_sync_search-some j v m h = ground arith

after_sync_search-none :
    (a : ℕ) (v : View) (m : Machine)
    → after_sync_search none (a ∷ v) m
      ≡ ok (
          wait
            (if byte_at (a ∷ v) (length v) == header_byte_0 then drop (length v) (a ∷ v) else [])
            m)
unfolding after_sync_search
after_sync_search-none a v m =
    let last : suc (length v) - 1 ≡ length v = omega arith in
    rw last (ground (arith, get_elem?-eq-get_or (a ∷ v) (length v) 0, drop_all v))

-- The index that the search finds has the two header bytes in the view.
pub find_sync-lt :
    (i : ℕ) (v : View) (j : ℕ) → find_sync i v ≡ some j → (i ≤ j) × (j + 2 ≤ i + length v)
unfolding find_sync
find_sync-lt i [] j h = cc
find_sync-lt i (x ∷ []) j h = cc
find_sync-lt i (x ∷ y ∷ v) j h = ground (arith, find_sync-lt (i + 1) (y ∷ v) j)

-- A byte that starts no header may be dropped first.
on_wait_for_sync_skip :
    (a b : ℕ) (v : View) (m : Machine)
    → starts_packet a b ≡ false
    → on_wait_for_sync (a ∷ b ∷ v) m ≡ on_wait_for_sync (b ∷ v) m
unfolding on_wait_for_sync
on_wait_for_sync_skip a b v m other = elim (Option-cases (find_sync 0 (b ∷ v))) [
  | inl e ↦
      let e' : find_sync 0 (a ∷ b ∷ v) ≡ none =
        unfold find_sync in rw other (find_sync-suc_none 0 1 (b ∷ v) e) in
      rw (e, e') (after_sync_search-none a (b ∷ v) m ∙ sym (after_sync_search-none b v m))
  | inr (j, e) ↦
      let e' : find_sync 0 (a ∷ b ∷ v) ≡ some (suc j) =
        unfold find_sync in rw other (find_sync-suc_some 0 (b ∷ v) j e ∙ ap some (add-one j)) in
      let small : j + 2 ≤ 0 + length (b ∷ v) = (find_sync-lt 0 (b ∷ v) j e).1 in
      rw (e, e')
        (after_sync_search-some (suc j) (a ∷ b ∷ v) m (omega arith)
          ∙ sym (after_sync_search-some j (b ∷ v) m (omega arith)))
]

pub on_wait_for_sync-sync :
    (a : ℕ) (v : View) (m : Machine) → on_wait_for_sync (a ∷ v) m ≡ ok (sync (a ∷ v) m)
unfolding sync
on_wait_for_sync-sync a [] m = unfold on_wait_for_sync find_sync in after_sync_search-none a [] m
on_wait_for_sync-sync a (b ∷ v) m = elim (Bool-cases (starts_packet a b)) [
  | inl e ↦
      let e' : find_sync 0 (a ∷ b ∷ v) ≡ some 0 = unfold find_sync in rw e refl in
      rw e (unfold on_wait_for_sync in rw e' (after_sync_search-some 0 (a ∷ b ∷ v) m (omega arith)))
  | inr e ↦ rw e (on_wait_for_sync_skip a b v m e ∙ on_wait_for_sync-sync b v m)
]

-- A header that is found is found in every longer view.
pub sync-append :
    (v b : View) (m : Machine)
    → (sync v m).state_changed ≡ true
    → sync (v ++ b) m ≡ record (sync v m) { view = (sync v m).view ++ b }
unfolding sync
sync-append [] b m h = cc
sync-append (x ∷ []) b m h = cc
sync-append (x ∷ y ∷ v) b m h = elim (Bool-cases (starts_packet x y)) [
  | inl e ↦ rw e refl
  | inr e ↦ rw e (sync-append (y ∷ v) b m (rw e at h))
]

-- Where none is found the members stay as they are, and what is kept of the view stands for all
-- of it.
pub sync_kept :
    (v b : View) (m : Machine)
    → (sync v m).state_changed ≡ false
    → ((sync v m).machine ≡ m) × (sync (v ++ b) m ≡ sync ((sync v m).view ++ b) m)
unfolding sync
sync_kept [] b m h = (refl, refl)
sync_kept (x ∷ []) [] m h = elim (Bool-cases (x == header_byte_0)) [
  | inl e ↦ rw e (refl, rw e refl)
  | inr e ↦ rw e (refl, refl)
]
sync_kept (x ∷ []) (y ∷ b) m h = (
  refl,
  elim (Bool-cases (x == header_byte_0)) [
    | inl e ↦
        let kept : View = if x == header_byte_0 then x ∷ [] else [] in
        let all : kept ≡ x ∷ [] = rw e refl in ap (λ (w : View). sync (w ++ y ∷ b) m) (sym all)
    | inr e ↦ rw e refl
  ],
)
sync_kept (x ∷ y ∷ v) b m h = elim (Bool-cases (starts_packet x y)) [
  | inl e ↦ cc (rw e at h)
  | inr e ↦ rw e (sync_kept (y ∷ v) b m (rw e at h))
]

pub length-sync : (v : View) (m : Machine) → length (sync v m).view ≤ length v
unfolding sync
length-sync [] m = omega arith
length-sync (x ∷ []) m = ground arith
length-sync (x ∷ y ∷ v) m = ground (arith, length-sync (y ∷ v) m)
