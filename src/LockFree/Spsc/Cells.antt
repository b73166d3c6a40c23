-- ===== src/LockFree/Spsc/Cells.antt =====
-- Counts that go round a ring, and the items between two counts.
use native.Mathlib.Nat.{mod-add-mod, mod-eq_of_lt, mod-eq-sub-mod, mod-lt}
use native.Mathlib.Decide.{dec_lt}
use counter_drone_server.Base.{
  ℕ, zero, suc, ◌+◌, ◌-◌, ◌%◌, ◌^◌, ◌≤◌, ◌<◌, ◌≡◌, ◌≢◌, ◌⊎◌, inl, inr, refl, sym, ap, ◌∙◌, arith,
  List, [], ◌∷◌, ◌++◌, length, get_or, set, get_or-set_ne,
}
use counter_drone_server.LockFree.Spsc.{next_index}

-- Less than a round further from a place, there is one turn at most.
pub one_turn :
    (cap place steps : ℕ)
    → place < cap
    → steps < cap
    → ((place + steps) % cap ≡ place + steps) ⊎ ((place + steps) % cap + cap ≡ place + steps)
one_turn cap place steps inside near =
    let further : ℕ = place + steps in
    elim (dec_lt further cap) [
      | yes straight ↦ inl (mod-eq_of_lt straight)
      | no turns ↦
          let back : further - cap < cap = omega arith in
          let once : further % cap ≡ further - cap =
            mod-eq-sub-mod {n = further} (omega arith) ∙ mod-eq_of_lt back in
          inr (omega arith)
    ]

-- So it leads to another place.
away : (cap place steps : ℕ) → place < cap → 0 < steps → steps < cap → (place + steps) % cap ≢ place
away cap place steps inside some_steps near e = elim (one_turn cap place steps inside near) [
  | inl straight ↦ omega arith
  | inr turned ↦ omega arith
]

-- Two counts less than a round apart stand at different places.
pub mod_ne : (cap i j : ℕ) → i < j → j < i + cap → i % cap ≢ j % cap
mod_ne cap i j less near e =
    let steps : ℕ = j - i in
    let same : i + steps ≡ j = omega arith in
    away cap (i % cap) steps (mod-lt i (omega arith)) (omega arith) (omega arith)
      (mod-add-mod i cap steps ∙ ap (λ k. k % cap) same ∙ sym e)

-- The code's next place is that of the next count.
pub next_index_lem : (cap i : ℕ) → 0 < cap → cap < 2 ^ 64 → next_index cap (i % cap) ≡ (i + 1) % cap
next_index_lem cap i positive small =
    let inside : i % cap < cap = mod-lt i positive in
    let exact : (i % cap + 1) % 2 ^ 64 ≡ i % cap + 1 = omega arith in
    ap (λ k. k % cap) exact ∙ mod-add-mod i cap 1

module _ {ℓ} {A : Type ℓ} (cap : ℕ) (value : A) where
  -- The `n` items from count `i` on.
  abbrev pub cells : List A → ℕ → ℕ → List A
  cells buffer i zero = []
  cells buffer i (suc n) = get_or buffer (i % cap) value ∷ cells buffer (i + 1) n

  pub length-cells : (buffer : List A) (i n : ℕ) → length (cells buffer i n) ≡ n
  length-cells buffer i zero = refl
  length-cells buffer i (suc n) = ap suc (length-cells buffer (i + 1) n)

  pub cells_snoc :
      (buffer : List A) (i n : ℕ)
      → cells buffer i (suc n) ≡ cells buffer i n ++ get_or buffer ((i + n) % cap) value ∷ []
  cells_snoc buffer i zero =
      let e : i ≡ i + 0 = omega arith in ap (λ k. get_or buffer (k % cap) value ∷ []) e
  cells_snoc buffer i (suc n) =
      let e : i + 1 + n ≡ i + suc n = omega arith in
      ap (λ (l : List A). get_or buffer (i % cap) value ∷ l)
        (cells_snoc buffer (i + 1) n
          ∙ ap (λ k. cells buffer (i + 1) n ++ get_or buffer (k % cap) value ∷ []) e)

  -- A write elsewhere leaves them alone.
  pub cells-set :
      (buffer : List A) (i n j : ℕ) (v : A)
      → ((k : ℕ) → i ≤ k → k < i + n → j ≢ k % cap)
      → cells (set buffer j v) i n ≡ cells buffer i n
  cells-set buffer i zero j v away = refl
  cells-set buffer i (suc n) j v away =
      let here : get_or (set buffer j v) (i % cap) value ≡ get_or buffer (i % cap) value =
        get_or-set_ne buffer j (i % cap) v value (away i (omega arith) (omega arith)) in
      let rest : cells (set buffer j v) (i + 1) n ≡ cells buffer (i + 1) n =
        cells-set buffer (i + 1) n j v (λ k low high. away k (omega arith) (omega arith)) in
      cc
