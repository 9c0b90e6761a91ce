-- ===== src/Delegation/Lifecycle/History.antt =====
-- pkg/delegation/lifecycle.go: histories of calls that do not overlap.
use moon_hub.Base.{ℕ, String, Bool, List, [], ◌∷◌, ◌≢◌}
use moon_hub.Delegation.Agents.{Database, AgentMath}
use moon_hub.Delegation.Lifecycle.{
  DelegationConfig, Draft, create, suspend, dismiss, revive, kill, record_task_result,
  cleanup_old_agents,
}

pub data Call : Type 0 where
  creates : ℕ → Draft → Call
  suspends dismisses revives : ℕ → String → Call
  kills : String → Call
  records : ℕ → String → Bool → Call
  cleans : ℕ → Call

-- The call creates no agent with the id.
abbrev pub Spares : String → Call → Type 0
Spares id (creates now d) = d.fresh_id ≢ id
Spares id _ = Unit

module _ {F : Type 0} (x : AgentMath F) (config : DelegationConfig F) where
  unfoldable pub run_call : Call → Database F → Database F
  unfolding create suspend dismiss revive kill record_task_result cleanup_old_agents
  run_call (creates now d) db = (create x config now d db).0
  run_call (suspends now id) db = (suspend now id db).0
  run_call (dismisses now id) db = (dismiss now id db).0
  run_call (revives now id) db = (revive config now id db).0
  run_call (kills id) db = (kill id db).0
  run_call (records now id success) db = (record_task_result x now id success db).0
  run_call (cleans cutoff) db = (cleanup_old_agents cutoff db).0

  unfoldable pub run_calls : List Call → Database F → Database F
  unfolding run_call
  run_calls [] db = db
  run_calls (c ∷ cs) db = run_calls cs (run_call c db)
