-- ===== src/Delegation/Lifecycle/Writes.antt =====
-- pkg/delegation/lifecycle.go: what an operation writes to the table.
use moon_hub.Base.{
  ℕ, ◌<◌, ◌≡◌, String, true, Option, none, some, List, length, arith, Option-cases, inl, inr,
}
use moon_hub.Delegation.Agents.{
  SubAgentStatus, active, suspended, dismissed, is_status_suspended, SubAgentRecord, Topic,
  Database, AgentMath, find_agent, save_agent, delete_agent, update_agent, active_agents,
  delete_old,
}
use moon_hub.Delegation.Lifecycle.{
  DelegationConfig, AgentError, set_status, write_status, suspend, dismiss, check_revive, revive,
  kill, Draft, new_agent, save_new, cleanup_old_agents,
}

module _ {F : Type 0} where
  -- The table of a result, for an operation that makes one change or none.
  abbrev pub IsWritten :
      (List (SubAgentRecord F) → List (SubAgentRecord F))
      → List (SubAgentRecord F)
      → Database F × Option AgentError
      → Type 0
  IsWritten change rows (db, none) = db.sub_agents ≡ change rows
  IsWritten change rows (db, some error) = db.sub_agents ≡ rows

  pub written_rows :
      (change : List (SubAgentRecord F) → List (SubAgentRecord F)) (rows : List (SubAgentRecord F))
      (res : Database F × Option AgentError)
      → IsWritten change rows res
      → res.1 ≡ none
      → res.0.sub_agents ≡ change rows
  written_rows change rows (db, none) w e = w
  written_rows change rows (db, some error) w e = absurd (grind arith)

  pub write_status-IsWritten :
      (status : SubAgentStatus) (topic : Topic) (now : ℕ) (r : SubAgentRecord F) (id : String)
      (db : Database F)
      → IsWritten
          (update_agent id (set_status status now))
          db.sub_agents
          (write_status status topic now r id db)
  unfolding write_status
  write_status-IsWritten status topic now r id db = ground arith

  pub dismiss-IsWritten :
      (now : ℕ) (id : String) (db : Database F)
      → IsWritten (update_agent id (set_status dismissed now)) db.sub_agents (dismiss now id db)
  unfolding dismiss
  dismiss-IsWritten now id db = ground arith

  pub suspend-IsWritten :
      (now : ℕ) (id : String) (db : Database F)
      → IsWritten (update_agent id (set_status suspended now)) db.sub_agents (suspend now id db)
  unfolding suspend
  suspend-IsWritten now id db = ground arith

  pub kill-IsWritten :
      (id : String) (db : Database F) → IsWritten (delete_agent id) db.sub_agents (kill id db)
  unfolding kill
  kill-IsWritten id db = ground arith

  pub revive-IsWritten :
      (config : DelegationConfig F) (now : ℕ) (id : String) (db : Database F)
      → IsWritten (update_agent id (set_status active now)) db.sub_agents (revive config now id db)
  unfolding revive
  revive-IsWritten config now id db = ground arith

  -- A `Revive` that succeeds found the agent suspended and its user below the limit.
  pub revive-room :
      (config : DelegationConfig F) (now : ℕ) (id : String) (db : Database F)
      → (revive config now id db).1 ≡ none
      → (r : SubAgentRecord F) × (find_agent id db.sub_agents ≡ some r)
        × (is_status_suspended r.status ≡ true)
        × (length (active_agents r.user_id db.sub_agents) < config.max_active_per_user)
  unfolding revive check_revive
  revive-room config now id db h = elim (Option-cases (find_agent id db.sub_agents)) [
    | inl e ↦ absurd (ground arith)
    | inr (r, e) ↦ (r, e, ground arith, ground arith)
  ]

  pub save_new-IsWritten :
      (x : AgentMath F) (now : ℕ) (d : Draft) (db : Database F)
      → IsWritten (save_agent (new_agent x now d)) db.sub_agents (save_new x now d db)
  unfolding save_new
  save_new-IsWritten x now d db = ground arith

  pub cleanup_old_agents-IsWritten :
      (cutoff : ℕ) (db : Database F)
      → IsWritten (delete_old cutoff) db.sub_agents (cleanup_old_agents cutoff db)
  unfolding cleanup_old_agents
  cleanup_old_agents-IsWritten cutoff db = ground arith
