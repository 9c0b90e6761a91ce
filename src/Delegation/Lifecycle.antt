-- ===== src/Delegation/Lifecycle.antt =====
-- pkg/delegation/lifecycle.go: the life of a sub-agent. A call of the manager is several queries; it
-- is one step here where no other call comes between them. `Revive`, whose check and write another
-- call may separate, is also given in two parts. The clock readings and the fresh ids are arguments.
pub mod Table
pub mod Oldest
pub mod Writes
pub mod Keeps
pub mod History
pub mod Limit
pub mod Gone
pub mod Reuse
pub mod Races
use Prim.Native.String.{◌++◌ as append}
use moon_hub.Base.{
  ℕ, suc, String, Bool, true, false, not, ◌&&◌, Option, none, some, List, [], ◌∷◌, ◌++◌, ltb, leb,
  ◌==◌, if◌then◌else◌, str_eq, length,
}
use moon_hub.Delegation.Agents.{
  SubAgentStatus, active, suspended, dismissed, is_status_active, is_status_suspended,
  SubAgentRecord, Topic, agent_created, agent_suspended, agent_dismissed, agent_revived, AgentEvent,
  Database, Answer, failed, got, AgentMath, query, exec, get_sub_agent, find_agent, save_agent,
  delete_agent, update_agent, active_agents, delete_old, parse_json_array, keyword_overlap_score,
}

pub record DelegationConfig (F : Type 0) : Type 0 where
  pub max_active_per_user : ℕ
  pub reuse_threshold : F

-- The errors of the manager.
pub data AgentError : Type 0 where
  database_failed agent_not_found agent_not_active agent_not_suspended max_active_reached :
      AgentError
  dismiss_failed : AgentError

-- What `Create` is given, the texts of its fresh ids included.
pub record Draft : Type 0 where
  pub fresh_id : String
  pub fresh_session : String
  pub owner : String
  pub name : String
  pub prompt : String
  pub keywords : List String
  pub allowed_tools : List String

module _ {F : Type 0} where
  -- `Intercom.Emit`.
  abbrev pub emit : Topic → String → String → Database F → Database F
  emit topic user id db = record db {
    emitted = db.emitted ++ record { topic = topic; user_id = user; agent_id = id } ∷ [];
  }

  abbrev pub set_status : SubAgentStatus → ℕ → SubAgentRecord F → SubAgentRecord F
  set_status status now r = record r { status = status; last_active_at = now }

  -- The update of a status and the event of its success.
  unfoldable pub write_status :
      SubAgentStatus
      → Topic
      → ℕ
      → SubAgentRecord F
      → String
      → Database F
      → Database F × Option AgentError
  unfolding update_agent
  write_status status topic now r id db =
      let step = exec (update_agent id (set_status status now)) db in
      if step.1 then (emit topic r.user_id id step.0, none) else (step.0, some database_failed)

  unfoldable pub suspend : ℕ → String → Database F → Database F × Option AgentError
  unfolding write_status find_agent
  suspend now id db =
      let read = get_sub_agent id db in
      elim read.1 [
        | failed ↦ (read.0, some database_failed)
        | got none ↦ (read.0, some agent_not_found)
        | got (some r) ↦
            if not (is_status_active r.status)
            then (read.0, some agent_not_active)
            else write_status suspended agent_suspended now r id read.0
      ]

  unfoldable pub dismiss : ℕ → String → Database F → Database F × Option AgentError
  unfolding write_status find_agent
  dismiss now id db =
      let read = get_sub_agent id db in
      elim read.1 [
        | failed ↦ (read.0, some database_failed)
        | got none ↦ (read.0, some agent_not_found)
        | got (some r) ↦ write_status dismissed agent_dismissed now r id read.0
      ]

  -- The part of `Revive` before its write: the record that it read, or an error.
  unfoldable pub check_revive :
      DelegationConfig F
      → String
      → Database F
      → Database F × (Option AgentError × Option (SubAgentRecord F))
  unfolding find_agent active_agents
  check_revive config id db =
      let read = get_sub_agent id db in
      elim read.1 [
        | failed ↦ (read.0, (some database_failed, none))
        | got none ↦ (read.0, (some agent_not_found, none))
        | got (some r) ↦
            let rows = query (active_agents r.user_id) read.0 in
            if not (is_status_suspended r.status)
            then (read.0, (some agent_not_suspended, none))
            else elim rows.1 [
              | failed ↦ (rows.0, (some database_failed, none))
              | got rs ↦
                  if leb config.max_active_per_user (length rs)
                  then (rows.0, (some max_active_reached, none))
                  else (rows.0, (none, some r))
            ]
      ]

  abbrev pub finish_revive :
      ℕ
      → String
      → Database F × (Option AgentError × Option (SubAgentRecord F))
      → Database F × Option AgentError
  finish_revive now id (db, (error, none)) = (db, error)
  finish_revive now id (db, (error, some r)) = write_status active agent_revived now r id db

  unfoldable pub revive :
      DelegationConfig F → ℕ → String → Database F → Database F × Option AgentError
  unfolding check_revive write_status
  revive config now id db = finish_revive now id (check_revive config id db)

  unfoldable pub kill : String → Database F → Database F × Option AgentError
  unfolding find_agent delete_agent
  kill id db =
      let read = get_sub_agent id db in
      elim read.1 [
        | failed ↦ (read.0, some database_failed)
        | got none ↦ (read.0, some agent_not_found)
        | got (some r) ↦
            let step = exec (delete_agent id) read.0 in
            if step.1
            then (emit agent_dismissed r.user_id id step.0, none)
            else (step.0, some database_failed)
      ]

  unfoldable pub oldest_of : SubAgentRecord F → List (SubAgentRecord F) → SubAgentRecord F
  oldest_of oldest [] = oldest
  oldest_of oldest (a ∷ rest) =
      oldest_of (if ltb a.last_active_at oldest.last_active_at then a else oldest) rest

  unfoldable pub dismiss_oldest_inactive :
      ℕ → List (SubAgentRecord F) → Database F → Database F × Option AgentError
  unfolding oldest_of dismiss
  dismiss_oldest_inactive now [] db = (db, none)
  dismiss_oldest_inactive now (a ∷ rest) db = dismiss now (oldest_of a rest).id db

  module _ (x : AgentMath F) where
    abbrev pub new_agent : ℕ → Draft → SubAgentRecord F
    new_agent now d = record {
      id = d.fresh_id;
      user_id = d.owner;
      label = d.name;
      role_prompt = d.prompt;
      task_keywords = x.join d.keywords;
      tools = x.join d.allowed_tools;
      status = active;
      created_at = now;
      last_active_at = now;
      completed_tasks = 0;
      success_rate = x.zero_rate;
      session_key = append "subagent:" d.fresh_session;
    }

    -- The end of `Create`, once there is room.
    unfoldable pub save_new : ℕ → Draft → Database F → Database F × Option AgentError
    unfolding save_agent
    save_new now d db =
        let step = exec (save_agent (new_agent now d)) db in
        if step.1
        then (emit agent_created d.owner d.fresh_id step.0, none)
        else (step.0, some database_failed)

    abbrev pub save_if_dismissed :
        ℕ → Draft → Database F × Option AgentError → Database F × Option AgentError
    save_if_dismissed now d (db, none) = save_new now d db
    save_if_dismissed now d (db, some error) = (db, some dismiss_failed)

    unfoldable pub create :
        DelegationConfig F → ℕ → Draft → Database F → Database F × Option AgentError
    unfolding active_agents save_new dismiss_oldest_inactive
    create config now d db =
        let read = query (active_agents d.owner) db in
        elim read.1 [
          | failed ↦ (read.0, some database_failed)
          | got rs ↦
              if leb config.max_active_per_user (length rs)
              then save_if_dismissed now d (dismiss_oldest_inactive now rs read.0)
              else save_new now d read.0
        ]

    -- The loop of `FindReusable`: the best score so far and its agent.
    unfoldable pub best_of :
        List String
        → F × Option (SubAgentRecord F)
        → List (SubAgentRecord F)
        → F × Option (SubAgentRecord F)
    unfolding keyword_overlap_score parse_json_array
    best_of keywords best [] = best
    best_of keywords best (a ∷ rest) =
        let score = keyword_overlap_score x keywords (parse_json_array x a.task_keywords) in
        best_of keywords (if x.less best.0 score then (score, some a) else best) rest

    unfoldable pub find_reusable :
        DelegationConfig F
        → String
        → List String
        → Database F
        → Database F × Answer (Option (SubAgentRecord F))
    unfolding active_agents best_of
    find_reusable config user keywords db =
        let read = query (active_agents user) db in
        (
          read.0,
          elim read.1 [
            | failed ↦ failed
            | got rs ↦ got (best_of keywords (config.reuse_threshold, none) rs).1
          ],
        )

    unfoldable pub next_rate : Bool → SubAgentRecord F → F
    next_rate success r =
        if r.completed_tasks == 0
        then (if success then x.one_rate else x.zero_rate)
        else if success
        then x.plus (x.times r.success_rate (x.minus x.one_rate x.one_fifth))
            (x.times x.one_rate x.one_fifth)
        else x.times r.success_rate (x.minus x.one_rate x.one_fifth)

    -- A counted result.
    abbrev pub set_result : ℕ → ℕ → F → SubAgentRecord F → SubAgentRecord F
    set_result now completed rate r = record r {
      last_active_at = now;
      completed_tasks = completed;
      success_rate = rate;
    }

    -- `RecordTaskResult` once the agent is read.
    unfoldable pub store_result :
        ℕ → String → Bool → SubAgentRecord F → Database F → Database F × Option AgentError
    unfolding update_agent dismiss next_rate
    store_result now id success r db =
        let rate = next_rate success r in
        let step = exec (update_agent id (set_result now (suc r.completed_tasks) rate)) db in
        if not step.1
        then (step.0, some database_failed)
        else if leb 5 r.completed_tasks && x.less rate x.one_fifth
        then dismiss now id step.0
        else (step.0, none)

    -- A missing agent is no error.
    abbrev pub store_if_found :
        ℕ → String → Bool → Option (SubAgentRecord F) → Database F → Database F × Option AgentError
    store_if_found now id success none db = (db, none)
    store_if_found now id success (some r) db = store_result now id success r db

    unfoldable pub record_task_result :
        ℕ → String → Bool → Database F → Database F × Option AgentError
    unfolding find_agent store_result
    record_task_result now id success db =
        let read = get_sub_agent id db in
        elim read.1 [
          | failed ↦ (read.0, some database_failed)
          | got found ↦ store_if_found now id success found read.0
        ]

  -- `CleanupOldData` on the table of the sub-agents.
  unfoldable pub cleanup_old_agents : ℕ → Database F → Database F × Option AgentError
  unfolding delete_old
  cleanup_old_agents cutoff db =
      let step = exec (delete_old cutoff) db in
      (step.0, if step.1 then none else some database_failed)
