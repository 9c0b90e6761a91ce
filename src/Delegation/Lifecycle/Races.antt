-- ===== src/Delegation/Lifecycle/Races.antt =====
-- pkg/delegation/lifecycle.go: a `Dismiss` between the check of `Revive` and its write.
use moon_hub.Base.{
  ℕ, ◌≡◌, refl, ap, ◌∙◌, String, none, some, List, [], ◌∷◌, arith, Option-cases, inl, inr,
}
use moon_hub.Delegation.Agents.{
  active, dismissed, agent_revived, SubAgentRecord, Database, find_agent, update_agent,
}
use moon_hub.Delegation.Lifecycle.{
  DelegationConfig, set_status, write_status, dismiss, check_revive, finish_revive,
}
use moon_hub.Delegation.Lifecycle.Writes.{written_rows, dismiss-IsWritten, write_status-IsWritten}

module _ {F : Type 0} where
  find_agent-update_agent :
      (id : String) (change : SubAgentRecord F → SubAgentRecord F) (r : SubAgentRecord F)
      (rs : List (SubAgentRecord F))
      → ((q : SubAgentRecord F) → (change q).id ≡ q.id)
      → find_agent id rs ≡ some r
      → find_agent id (update_agent id change rs) ≡ some (change r)
  unfolding find_agent update_agent
  find_agent-update_agent id change r [] h e = absurd (ground arith)
  find_agent-update_agent id change r (q ∷ rs) h e =
      ground (arith, h q, find_agent-update_agent id change r rs h)

  dismiss-found :
      (now : ℕ) (id : String) (db : Database F)
      → (dismiss now id db).1 ≡ none
      → (r : SubAgentRecord F) × (find_agent id db.sub_agents ≡ some r)
  unfolding dismiss
  dismiss-found now id db h = elim (Option-cases (find_agent id db.sub_agents)) [
    | inl e ↦ absurd (ground arith)
    | inr (r, e) ↦ (r, e)
  ]

  -- `Revive` checks and writes without a lock: when its check passes, and a `Dismiss` of the agent
  -- that succeeds comes before its write, and the write is carried out, then the dismissed agent is
  -- active.
  pub revive-dismissed :
      (config : DelegationConfig F) (now later : ℕ) (id : String) (db checked : Database F)
      (r : SubAgentRecord F)
      → check_revive config id db ≡ (checked, (none, some r))
      → (dismiss now id checked).1 ≡ none
      → (finish_revive later id ((dismiss now id checked).0, (none, some r))).1 ≡ none
      → (q : SubAgentRecord F) × (find_agent id
            (finish_revive later id ((dismiss now id checked).0, (none, some r))).0.sub_agents
          ≡ some q)
        × (q.status ≡ active)
  revive-dismissed config now later id db checked r c d w =
      let (q, found) = dismiss-found now id checked d in
      let gone = (dismiss now id checked).0 in
      (
        set_status active later (set_status dismissed now q),
        ap (find_agent id) (
              written_rows (update_agent id (set_status active later)) gone.sub_agents
                (write_status active agent_revived later r id gone)
                (write_status-IsWritten active agent_revived later r id gone) w)
            ∙ find_agent-update_agent id (set_status active later) (set_status dismissed now q)
                gone.sub_agents (λ a. refl)
                (ap (find_agent id) (
                    written_rows (update_agent id (set_status dismissed now)) checked.sub_agents
                      (dismiss now id checked) (dismiss-IsWritten now id checked) d)
                  ∙ find_agent-update_agent id (set_status dismissed now) q checked.sub_agents
                      (λ a. refl) found),
        refl,
      )
