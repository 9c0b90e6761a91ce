-- ===== src/Delegation/Lifecycle/Keeps.antt =====
-- pkg/delegation/lifecycle.go: properties of the table that the operations keep.
use moon_hub.Base.{
  ℕ, suc, ◌≡◌, refl, sym, subst, String, Bool, true, false, ◌&&◌, Option, none, some, List, [], ◌∷◌,
  leb, if◌then◌else◌, length,
}
use moon_hub.Delegation.Agents.{
  SubAgentRecord, Database, AgentMath, update_agent, active_agents, find_agent, dismissed,
}
use moon_hub.Delegation.Lifecycle.{
  DelegationConfig, AgentError, set_status, dismiss, dismiss_oldest_inactive, Draft, save_new,
  save_if_dismissed, create, set_result, store_result, store_if_found, next_rate,
  record_task_result,
}
use moon_hub.Delegation.Lifecycle.Writes.{IsWritten, dismiss-IsWritten}

module _ {F : Type 0} where
  pub Written-keeps :
      (P : List (SubAgentRecord F) → Type 0)
      (change : List (SubAgentRecord F) → List (SubAgentRecord F)) (rows : List (SubAgentRecord F))
      (res : Database F × Option AgentError)
      → IsWritten change rows res
      → P rows
      → (res.1 ≡ none → P (change rows))
      → P res.0.sub_agents
  Written-keeps P change rows (db, none) w p q = subst P (sym w) (q refl)
  Written-keeps P change rows (db, some e) w p q = subst P (sym w) p

  -- `Create` once the active agents are read.
  room_or_new-keeps :
      (x : AgentMath F) (P : List (SubAgentRecord F) → Type 0) (full : Bool) (now : ℕ) (d : Draft)
      (rs : List (SubAgentRecord F)) (db : Database F)
      → (full ≡ false → P (save_new x now d db).0.sub_agents)
      → (full ≡ true
          → P (save_if_dismissed x now d (dismiss_oldest_inactive now rs db)).0.sub_agents)
      → P
          (if full
            then save_if_dismissed x now d (dismiss_oldest_inactive now rs db)
            else save_new x now d db).0.sub_agents
  room_or_new-keeps x P true now d rs db p q = q refl
  room_or_new-keeps x P false now d rs db p q = p refl

  pub create-keeps :
      (x : AgentMath F) (P : List (SubAgentRecord F) → Type 0) (config : DelegationConfig F)
      (now : ℕ) (d : Draft) (db : Database F)
      → P db.sub_agents
      → ((later : Database F)
          → later.sub_agents ≡ db.sub_agents
          → leb config.max_active_per_user (length (active_agents d.owner db.sub_agents)) ≡ false
          → P (save_new x now d later).0.sub_agents)
      → ((later : Database F)
          → later.sub_agents ≡ db.sub_agents
          → leb config.max_active_per_user (length (active_agents d.owner db.sub_agents)) ≡ true
          → P
              (save_if_dismissed x now d (
                dismiss_oldest_inactive now
                  (active_agents d.owner db.sub_agents)
                  later)).0.sub_agents)
      → P (create x config now d db).0.sub_agents
  unfolding create
  create-keeps x P config now d db h p q = go db.faults
    where
      rs : List (SubAgentRecord F)
      rs = active_agents d.owner db.sub_agents

      full : Bool
      full = leb config.max_active_per_user (length (active_agents d.owner db.sub_agents))

      later : List Bool → Database F
      later faults = record db { faults = faults }

      go :
          (faults : List Bool)
          → P (create x config now d (record db { faults = faults })).0.sub_agents
      go [] = room_or_new-keeps x P full now d rs (later []) (p (later []) refl) (q (later []) refl)
      go (true ∷ faults) = h
      go (false ∷ faults) =
          room_or_new-keeps x P full now d rs (later faults) (p (later faults) refl)
            (q (later faults) refl)

module _ {F : Type 0} (P : List (SubAgentRecord F) → Type 0)
    (dismissed_too : (now : ℕ) (id : String) (rs : List (SubAgentRecord F))
      → P rs
      → P (update_agent id (set_status dismissed now) rs)) where
  pub dismiss-keeps :
      (now : ℕ) (id : String) (db : Database F)
      → P db.sub_agents
      → P (dismiss now id db).0.sub_agents
  dismiss-keeps now id db h =
      Written-keeps P (update_agent id (set_status dismissed now)) db.sub_agents (dismiss now id db)
        (dismiss-IsWritten now id db) h (λ e. dismissed_too now id db.sub_agents h)

module _ {F : Type 0} (x : AgentMath F) (P : List (SubAgentRecord F) → Type 0)
    (dismissed_too : (now : ℕ) (id : String) (rs : List (SubAgentRecord F))
      → P rs
      → P (update_agent id (set_status dismissed now) rs))
    (counted_too : (now : ℕ) (id : String) (n : ℕ) (rate : F) (rs : List (SubAgentRecord F))
      → P rs
      → P (update_agent id (set_result x now n rate) rs)) where
  -- The end of `RecordTaskResult`, with the counted result in the table.
  dismiss_or_not-keeps :
      (low : Bool) (now : ℕ) (id : String) (db : Database F)
      → P db.sub_agents
      → P (if low then dismiss now id db else (db, none)).0.sub_agents
  dismiss_or_not-keeps true now id db h = dismiss-keeps P dismissed_too now id db h
  dismiss_or_not-keeps false now id db h = h

  store_result-keeps :
      (now : ℕ) (id : String) (success : Bool) (r : SubAgentRecord F) (db : Database F)
      → P db.sub_agents
      → P (store_result x now id success r db).0.sub_agents
  unfolding store_result
  store_result-keeps now id success r db h = go db.faults
    where
      stored : P (
          update_agent id
            (set_result x now (suc r.completed_tasks) (next_rate x success r))
            db.sub_agents)
      stored = counted_too now id (suc r.completed_tasks) (next_rate x success r) db.sub_agents h

      low : Bool
      low = leb 5 r.completed_tasks && x.less (next_rate x success r) x.one_fifth

      counted : List Bool → Database F
      counted faults = record db {
        sub_agents =
            update_agent id (set_result x now (suc r.completed_tasks) (next_rate x success r))
              db.sub_agents;
        faults = faults;
      }

      go :
          (faults : List Bool)
          → P (store_result x now id success r (record db { faults = faults })).0.sub_agents
      go [] = dismiss_or_not-keeps low now id (counted []) stored
      go (true ∷ faults) = h
      go (false ∷ faults) = dismiss_or_not-keeps low now id (counted faults) stored

  found_or_not-keeps :
      (now : ℕ) (id : String) (success : Bool) (found : Option (SubAgentRecord F)) (db : Database F)
      → P db.sub_agents
      → P (store_if_found x now id success found db).0.sub_agents
  found_or_not-keeps now id success none db h = h
  found_or_not-keeps now id success (some r) db h = store_result-keeps now id success r db h

  pub record_task_result-keeps :
      (now : ℕ) (id : String) (success : Bool) (db : Database F)
      → P db.sub_agents
      → P (record_task_result x now id success db).0.sub_agents
  unfolding record_task_result
  record_task_result-keeps now id success db h = go db.faults
    where
      go :
          (faults : List Bool)
          → P (record_task_result x now id success (record db { faults = faults })).0.sub_agents
      go [] =
          found_or_not-keeps now id success (find_agent id db.sub_agents)
            (record db { faults = [] }) h
      go (true ∷ faults) = h
      go (false ∷ faults) =
          found_or_not-keeps now id success (find_agent id db.sub_agents)
            (record db { faults = faults }) h
