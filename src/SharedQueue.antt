-- ===== src/SharedQueue.antt =====
-- include/ThreadsSharedDataManager.h: a queue under a mutex with a condition variable. The mutex
-- makes each operation here one step, from the moment when its wait ends; `SharedQueue.Threads`
-- has the waits themselves. A flag read is the value of `g_keep_running_system` at that moment.
pub mod Fifo
pub mod Threads
mod Tests
use counter_drone_server.Base.{
  List, [], ◌∷◌, ◌++◌, Bool, true, false, not, ◌&&◌, ◌||◌, Option, none, some, if◌then◌else◌,
}

-- `m_shared_data`, front first.
pub record SharedDataManager {ℓ} (T : Type ℓ) : Type ℓ where
  pub shared_data : List T

module _ {ℓ} {T : Type ℓ} where
  abbrev pub is_empty : List T → Bool
  is_empty [] = true
  is_empty (item ∷ rest) = false

  unfoldable pub push_data : SharedDataManager T → T → SharedDataManager T
  push_data m item = record { shared_data = m.shared_data ++ item ∷ [] }

  -- The predicate that both waits end on.
  abbrev pub may_go_on : Bool → SharedDataManager T → Bool
  may_go_on running m = not (is_empty m.shared_data) || not running

  -- `item = std::move(front()); pop(); return true`; nothing is taken from an empty queue.
  abbrev pop_front : List T → SharedDataManager T → Option T × SharedDataManager T
  pop_front [] m = (none, m)
  pop_front (item ∷ rest) m = (some item, record { shared_data = rest })

  -- `pop_data_with_timeout` from the end of the wait on. The wait evaluated its predicate last when
  -- the flag was `running_at_wake`, and the check that follows reads the flag again.
  unfoldable pub pop_data_with_timeout :
      Bool → Bool → SharedDataManager T → Option T × SharedDataManager T
  pop_data_with_timeout running_at_wake running m =
      let woke_up_with_data = may_go_on running_at_wake m in
      if not running && is_empty m.shared_data
      then (none, m)
      else if woke_up_with_data && not (is_empty m.shared_data)
      then pop_front m.shared_data m
      else (none, m)

  -- The loop of `pop_all`: what is in the queue goes to the end of `items`.
  drain : List T → List T → List T
  drain [] items = items
  drain (item ∷ rest) items = drain rest (items ++ item ∷ [])

  -- `pop_all` from the end of the wait on: the result, `items` and the queue.
  unfoldable pub pop_all : Bool → SharedDataManager T → List T → Bool × List T × SharedDataManager T
  unfolding drain
  pop_all running m items =
      if not running && is_empty m.shared_data
      then (false, items, m)
      else (true, drain m.shared_data items, record { shared_data = [] })
