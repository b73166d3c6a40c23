-- ===== src/SharedQueue/Fifo.antt =====
-- The queue hands out what was pushed, in order and once, whoever calls and however the calls
-- fall.
use counter_drone_server.Base.{
  ◌≡◌, refl, sym, ap, ap₂, ◌∙◌, ◌↔◌, arith, List, [], ◌∷◌, ◌++◌, append-nil, append_assoc, Bool,
  true, false, Option, none, some,
}
use counter_drone_server.SharedQueue.{
  SharedDataManager, push_data, pop_data_with_timeout, drain, pop_all,
}

-- A call of the queue, with the flags that it reads. `pop_all` is called with an empty vector.
pub data Call {ℓ} (T : Type ℓ) : Type ℓ where
  push : T → Call T
  pop : (running_at_wake running : Bool) → Call T
  take_all : (running : Bool) → Call T

module _ {ℓ} {T : Type ℓ} where
  abbrev pub items_of : Option T → List T
  items_of none = []
  items_of (some item) = item ∷ []

  -- The items that a call hands out, and the queue after it.
  pub call : Call T → SharedDataManager T → List T × SharedDataManager T
  call (push item) m = ([], push_data m item)
  call (pop at_wake running) m =
      let (item, m') = pop_data_with_timeout at_wake running m in (items_of item, m')
  call (take_all running) m = let (done, items, m') = pop_all running m [] in (items, m')

  -- A sequence of calls: all that they hand out, in order, and the queue in the end.
  pub calls : List (Call T) → SharedDataManager T → List T × SharedDataManager T
  calls [] m = ([], m)
  calls (c ∷ cs) m =
      let (items, m') = call c m in let (more, m'') = calls cs m' in (items ++ more, m'')

  abbrev pub pushed : List (Call T) → List T
  pushed [] = []
  pushed (push item ∷ cs) = item ∷ pushed cs
  pushed (pop at_wake running ∷ cs) = pushed cs
  pushed (take_all running ∷ cs) = pushed cs

  pushed_cons : (c : Call T) (cs : List (Call T)) → pushed (c ∷ []) ++ pushed cs ≡ pushed (c ∷ cs)
  pushed_cons (push item) cs = refl
  pushed_cons (pop at_wake running) cs = refl
  pushed_cons (take_all running) cs = refl

  drain_lem : (queue items : List T) → drain queue items ≡ items ++ queue
  unfolding drain
  drain_lem [] items = sym (append-nil items)
  drain_lem (item ∷ rest) items =
      drain_lem rest (items ++ item ∷ []) ∙ append_assoc items (item ∷ []) rest

  -- `pop_data_with_timeout` hands out the front of the queue whenever there is one, and only then.
  pub pop_data_with_timeout_lem :
      (at_wake running : Bool) (m : SharedDataManager T)
      → let (item, m') = pop_data_with_timeout at_wake running m in
        (items_of item ++ m'.shared_data ≡ m.shared_data) × ((item ≡ none) ↔ (m.shared_data ≡ []))
  unfolding pop_data_with_timeout
  pop_data_with_timeout_lem at_wake running m = by_queue m.shared_data running
    where
      by_queue :
          (queue : List T) (running : Bool)
          → let (item, m') =
              pop_data_with_timeout at_wake running (record { shared_data = queue }) in
            (items_of item ++ m'.shared_data ≡ queue) × ((item ≡ none) ↔ (queue ≡ []))
      by_queue [] true = ground arith
      by_queue [] false = ground arith
      by_queue (item ∷ rest) true = ground arith
      by_queue (item ∷ rest) false = ground arith

  -- `pop_all` hands out the whole queue, and returns false only when it is empty and the system
  -- stops.
  pub pop_all_lem :
      (running : Bool) (m : SharedDataManager T) (items : List T)
      → let (done, items', m') = pop_all running m items in
        (items' ≡ items ++ m.shared_data)
        × (m'.shared_data ≡ [])
        × ((done ≡ false) ↔ ((running ≡ false) × (m.shared_data ≡ [])))
  unfolding pop_all
  pop_all_lem running m items = by_queue m.shared_data running
    where
      by_queue :
          (queue : List T) (running : Bool)
          → let (done, items', m') = pop_all running (record { shared_data = queue }) items in
            (items' ≡ items ++ queue)
            × (m'.shared_data ≡ [])
            × ((done ≡ false) ↔ ((running ≡ false) × (queue ≡ [])))
      by_queue [] true = ground (arith, drain_lem [] items, append-nil items)
      by_queue [] false = ground (arith, append-nil items)
      by_queue (item ∷ rest) true = ground (arith, drain_lem (item ∷ rest) items)
      by_queue (item ∷ rest) false = ground (arith, drain_lem (item ∷ rest) items)

  call_lem :
      (c : Call T) (m : SharedDataManager T)
      → let (items, m') = call c m in items ++ m'.shared_data ≡ m.shared_data ++ pushed (c ∷ [])
  unfolding call push_data
  call_lem (push item) m = refl
  call_lem (pop at_wake running) m =
      (pop_data_with_timeout_lem at_wake running m).0 ∙ sym (append-nil m.shared_data)
  call_lem (take_all running) m =
      let (taken, emptied, done) = pop_all_lem running m [] in ap₂ ◌++◌ taken emptied

  -- However pushes and pops follow one another, what the calls hand out, with what is left in the
  -- queue behind it, is what was in the queue at the start with all that was pushed behind it:
  -- nothing is lost, doubled or reordered.
  pub calls-pushed :
      (cs : List (Call T)) (m : SharedDataManager T)
      → let (items, m') = calls cs m in items ++ m'.shared_data ≡ m.shared_data ++ pushed cs
  unfolding calls
  calls-pushed [] m = sym (append-nil m.shared_data)
  calls-pushed (c ∷ cs) m =
      let (items, m') = call c m in
      let (more, m'') = calls cs m' in
      append_assoc items more m''.shared_data
      ∙ ap (λ (l : List T). items ++ l) (calls-pushed cs m')
      ∙ sym (append_assoc items m'.shared_data (pushed cs))
      ∙ ap (λ (l : List T). l ++ pushed cs) (call_lem c m)
      ∙ append_assoc m.shared_data (pushed (c ∷ [])) (pushed cs)
      ∙ ap (λ (l : List T). m.shared_data ++ l) (pushed_cons c cs)
