-- ===== src/Server/Manager.antt =====
-- superserver/ServerManager.cpp: the list of the servers that are connected, and the map in which
-- each number stands once. Both hold pointers to the same tasks, which stand in `store`.
use ugly_ff.Base.{
  ℕ, Bool, true, false, not, ◌&&◌, List, [], ◌∷◌, Option, none, some, if◌then◌else◌, ◌==◌, add64,
}
pub mod Registry
pub mod Single
pub mod Broadcast

-- the methods of a ServerTask that the manager calls
pub record Methods (S : Type 0) : Type 0 where
  pub get_id : S → ℕ
  pub get_type : S → ℕ
  pub get_online_num : S → ℕ
  pub send_cmd : List ℕ → S → Bool × S
  pub response_other : ℕ → S → S

pub record Manager (S : Type 0) : Type 0 where
  pub container : List ℕ
  pub unique_container : List (ℕ × ℕ)
  pub store : ℕ → S

unfoldable pub new_manager : {S : Type 0} → (ℕ → S) → Manager S
new_manager store = record { container = []; unique_container = []; store = store }

-- std::unordered_map::find
unfoldable pub find : ℕ → List (ℕ × ℕ) → Option ℕ
find key [] = none
find key ((k, p) ∷ rest) = if k == key then some p else find key rest

-- erase of what `find` found
unfoldable pub erase : ℕ → List (ℕ × ℕ) → List (ℕ × ℕ)
erase key [] = []
erase key ((k, p) ∷ rest) = if k == key then rest else (k, p) ∷ erase key rest

-- std::list::remove
unfoldable pub remove : ℕ → List ℕ → List ℕ
remove p [] = []
remove p (q ∷ rest) = if q == p then remove p rest else q ∷ remove p rest

module _ {S : Type 0} where
  -- *p = s
  unfoldable pub assign : ℕ → S → (ℕ → S) → ℕ → S
  assign p s store q = if q == p then s else store q

  -- ServerManager::addServer
  unfoldable pub add_server : Option ℕ → Manager S → Manager S
  add_server none m = m
  add_server (some p) m = record m { container = p ∷ m.container }

  -- ServerManager::removeServer
  unfoldable pub remove_server : Option ℕ → Manager S → Manager S
  unfolding remove
  remove_server none m = m
  remove_server (some p) m = record m { container = remove p m.container }

module _ {S : Type 0} (methods : Methods S) where
  -- the loop of getServer and broadcastByID: the first task with the number
  unfoldable pub with_id : ℕ → (ℕ → S) → List ℕ → Option ℕ
  with_id id store [] = none
  with_id id store (p ∷ ps) = if methods.get_id (store p) == id then some p else with_id id store ps

  -- ServerManager::getServer
  unfoldable pub get_server : ℕ → Manager S → Option ℕ
  unfolding with_id
  get_server id m = with_id id m.store m.container

  -- ServerManager::uniqueAdd
  unfoldable pub unique_add : ℕ → Manager S → Bool × Manager S
  unfolding find
  unique_add p m =
      let id = methods.get_id (m.store p) in
      elim (find id m.unique_container) [
        | some _ ↦ (false, m)
        | none ↦ (true, record m { unique_container = (id, p) ∷ m.unique_container })
      ]

  -- ServerManager::uniqueVerify
  unfoldable pub unique_verify : ℕ → Manager S → Bool
  unfolding find
  unique_verify id m = elim (find id m.unique_container) [ some _ ↦ false | none ↦ true ]

  -- ServerManager::uniqueRemove
  unfoldable pub unique_remove : ℕ → Manager S → Bool × Manager S
  unfolding erase
  unique_remove p m =
      (true, record m { unique_container = erase (methods.get_id (m.store p)) m.unique_container })

  -- (*it)->sendCmd
  unfoldable pub send_to : List ℕ → ℕ → (ℕ → S) → Bool × (ℕ → S)
  unfolding assign
  send_to cmd p store = let (ok, s) = methods.send_cmd cmd (store p) in (ok, assign p s store)

  -- the loop of broadcast and of broadcastByType, over the tasks that `wanted` says
  unfoldable pub send_all : (S → Bool) → List ℕ → List ℕ → (ℕ → S) → Bool × (ℕ → S)
  unfolding send_to
  send_all wanted cmd [] store = (true, store)
  send_all wanted cmd (p ∷ ps) store =
      let sent = if wanted (store p) then send_to cmd p store else (true, store) in
      let rest = send_all wanted cmd ps sent.1 in (sent.0 && rest.0, rest.1)

  -- ServerManager::broadcast
  unfoldable pub broadcast : List ℕ → Manager S → Bool × Manager S
  unfolding send_all
  broadcast cmd m =
      let (ok, store) = send_all (λ s. true) cmd m.container m.store in
      (ok, record m { store = store })

  -- ServerManager::broadcastByType
  unfoldable pub broadcast_by_type : ℕ → List ℕ → Manager S → Bool × Manager S
  unfolding send_all
  broadcast_by_type type cmd m =
      let (ok, store) = send_all (λ s. methods.get_type s == type) cmd m.container m.store in
      (ok, record m { store = store })

  -- ServerManager::broadcastByID
  unfoldable pub broadcast_by_id : ℕ → List ℕ → Manager S → Bool × Manager S
  unfolding with_id send_to
  broadcast_by_id id cmd m = elim (with_id id m.store m.container) [
    | none ↦ (false, m)
    | some p ↦ (let (ok, store) = send_to cmd p m.store in (ok, record m { store = store }))
  ]

  -- the loop of caculateOnlineNum; GATEWAYSERVER is 22
  unfoldable pub online : (ℕ → S) → List ℕ → ℕ → ℕ
  online store [] sum = sum
  online store (p ∷ ps) sum = online store ps (
      if methods.get_type (store p) == 22
      then add64 sum (methods.get_online_num (store p))
      else sum)

  -- ServerManager::caculateOnlineNum
  unfoldable pub caculate_online_num : Manager S → ℕ
  unfolding online
  caculate_online_num m = online m.store m.container 0

  -- ServerManager::responseOther
  unfoldable pub response_other : ℕ → ℕ → Manager S → Manager S
  unfolding find assign
  response_other src id m = elim (find src m.unique_container) [
    | none ↦ m
    | some p ↦ record m { store = assign p (methods.response_other id (m.store p)) m.store }
  ]
