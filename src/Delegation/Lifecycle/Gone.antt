-- ===== src/Delegation/Lifecycle/Gone.antt =====
-- pkg/delegation/lifecycle.go: an agent that is dismissed.
use moon_hub.Base.{
  ℕ, ◌≡◌, ◌≢◌, refl, sym, subst, String, Bool, true, false, not, ◌&&◌, Option, none, some, List, [],
  ◌∷◌, ◌++◌, if◌then◌else◌, str_eq, eq_iff, arith, All, Bool-cases, Option-cases, inl, inr,
}
use moon_hub.Delegation.Agents.{
  SubAgentStatus, active, suspended, dismissed, is_status_active, is_status_dismissed,
  SubAgentRecord, Database, AgentMath, save_agent, delete_agent, update_agent, active_agents,
  delete_old, find_agent,
}
use moon_hub.Delegation.Lifecycle.{
  DelegationConfig, AgentError, set_status, suspend, dismiss, revive, kill, oldest_of,
  dismiss_oldest_inactive, Draft, new_agent, save_new, save_if_dismissed, set_result,
  cleanup_old_agents,
}
use moon_hub.Delegation.Lifecycle.Writes.{
  written_rows, dismiss-IsWritten, suspend-IsWritten, kill-IsWritten, revive-IsWritten, revive-room,
  save_new-IsWritten, cleanup_old_agents-IsWritten,
}
use moon_hub.Delegation.Lifecycle.Keeps.{
  Written-keeps, dismiss-keeps, record_task_result-keeps, create-keeps,
}
use moon_hub.Delegation.Lifecycle.History.{
  Call, Spares, creates, suspends, dismisses, revives, kills, records, cleans, run_call, run_calls,
}

module _ {F : Type 0} where
  -- No row with the id has a status other than dismissed.
  unfoldable pub all_gone : String → List (SubAgentRecord F) → Bool
  all_gone id [] = true
  all_gone id (r ∷ rs) =
      let rest = all_gone id rs in
      if str_eq r.id id && not (is_status_dismissed r.status) then false else rest

  abbrev pub IsGone : String → List (SubAgentRecord F) → Type 0
  IsGone id rs = all_gone id rs ≡ true

  dismissed-IsGone :
      (id i : String) (now : ℕ) (rs : List (SubAgentRecord F))
      → IsGone id rs
      → IsGone id (update_agent i (set_status dismissed now) rs)
  unfolding all_gone update_agent
  dismissed-IsGone id i now [] h = refl
  dismissed-IsGone id i now (r ∷ rs) h = ground (arith, dismissed-IsGone id i now rs)

  now-IsGone :
      (id : String) (now : ℕ) (rs : List (SubAgentRecord F))
      → IsGone id (update_agent id (set_status dismissed now) rs)
  unfolding all_gone update_agent
  now-IsGone id now [] = refl
  now-IsGone id now (r ∷ rs) = ground (arith, now-IsGone id now rs)

  counted-IsGone :
      (x : AgentMath F) (id : String) (now : ℕ) (i : String) (n : ℕ) (rate : F)
      (rs : List (SubAgentRecord F))
      → IsGone id rs
      → IsGone id (update_agent i (set_result x now n rate) rs)
  unfolding all_gone update_agent
  counted-IsGone x id now i n rate [] h = refl
  counted-IsGone x id now i n rate (r ∷ rs) h = ground (arith, counted-IsGone x id now i n rate rs)

  other-IsGone :
      (id i : String) (status : SubAgentStatus) (now : ℕ) (rs : List (SubAgentRecord F))
      → str_eq i id ≡ false
      → IsGone id rs
      → IsGone id (update_agent i (set_status status now) rs)
  unfolding all_gone update_agent
  other-IsGone id i status now [] e h = refl
  other-IsGone id i status now (r ∷ rs) e h =
      ground (arith, eq_iff r.id i, other-IsGone id i status now rs e)

  deleted-IsGone :
      (id i : String) (rs : List (SubAgentRecord F)) → IsGone id rs → IsGone id (delete_agent i rs)
  unfolding all_gone delete_agent
  deleted-IsGone id i [] h = refl
  deleted-IsGone id i (r ∷ rs) h = ground (arith, deleted-IsGone id i rs)

  cleaned-IsGone :
      (id : String) (cutoff : ℕ) (rs : List (SubAgentRecord F))
      → IsGone id rs
      → IsGone id (delete_old cutoff rs)
  unfolding all_gone delete_old
  cleaned-IsGone id cutoff [] h = refl
  cleaned-IsGone id cutoff (r ∷ rs) h = ground (arith, cleaned-IsGone id cutoff rs)

  append-IsGone :
      (id : String) (rs : List (SubAgentRecord F)) (r : SubAgentRecord F)
      → str_eq r.id id ≡ false
      → IsGone id rs
      → IsGone id (rs ++ r ∷ [])
  unfolding all_gone
  append-IsGone id [] r e h = ground arith
  append-IsGone id (q ∷ rs) r e h = ground (arith, append-IsGone id rs r e)

  gone-status :
      (id : String) (rs : List (SubAgentRecord F)) (r : SubAgentRecord F)
      → IsGone id rs
      → find_agent id rs ≡ some r
      → is_status_dismissed r.status ≡ true
  unfolding all_gone find_agent
  gone-status id [] r h e = absurd (ground arith)
  gone-status id (q ∷ rs) r h e = ground (arith, gone-status id rs r)

  suspend-found :
      (now : ℕ) (id : String) (db : Database F)
      → (suspend now id db).1 ≡ none
      → (r : SubAgentRecord F) × (find_agent id db.sub_agents ≡ some r)
        × (is_status_active r.status ≡ true)
  unfolding suspend
  suspend-found now id db h = elim (Option-cases (find_agent id db.sub_agents)) [
    | inl e ↦ absurd (ground arith)
    | inr (r, e) ↦ (r, e, ground arith)
  ]

  suspend-gone :
      (now : ℕ) (id : String) (db : Database F)
      → IsGone id db.sub_agents
      → (suspend now id db).1 ≢ none
  suspend-gone now id db h e =
      let (r, found, s) = suspend-found now id db e in
      ground (arith, gone-status id db.sub_agents r h found)

  revive-gone :
      (config : DelegationConfig F) (now : ℕ) (id : String) (db : Database F)
      → IsGone id db.sub_agents
      → (revive config now id db).1 ≢ none
  revive-gone config now id db h e =
      let (r, found, s, k) = revive-room config now id db e in
      ground (arith, gone-status id db.sub_agents r h found)

  module _ (x : AgentMath F) (config : DelegationConfig F) (id : String) where
    save_new-IsGone :
        (now : ℕ) (d : Draft) (db : Database F)
        → d.fresh_id ≢ id
        → IsGone id db.sub_agents
        → IsGone id (save_new x now d db).0.sub_agents
    unfolding save_agent
    save_new-IsGone now d db n h =
        Written-keeps (IsGone id) (save_agent (new_agent x now d)) db.sub_agents
          (save_new x now d db) (save_new-IsWritten x now d db) h
          (λ e.
            append-IsGone id (delete_agent d.fresh_id db.sub_agents) (new_agent x now d)
              (ground (arith, eq_iff d.fresh_id id)) (deleted-IsGone id d.fresh_id db.sub_agents h))

    save_if_dismissed-IsGone :
        (now : ℕ) (d : Draft) (res : Database F × Option AgentError)
        → d.fresh_id ≢ id
        → IsGone id res.0.sub_agents
        → IsGone id (save_if_dismissed x now d res).0.sub_agents
    save_if_dismissed-IsGone now d (db, none) n h = save_new-IsGone now d db n h
    save_if_dismissed-IsGone now d (db, some e) n h = h

    dismiss_oldest_inactive-IsGone :
        (now : ℕ) (rs : List (SubAgentRecord F)) (db : Database F)
        → IsGone id db.sub_agents
        → IsGone id (dismiss_oldest_inactive now rs db).0.sub_agents
    unfolding dismiss_oldest_inactive
    dismiss_oldest_inactive-IsGone now [] db h = h
    dismiss_oldest_inactive-IsGone now (a ∷ rest) db h =
        dismiss-keeps (IsGone id) (λ t i rs. dismissed-IsGone id i t rs) now (oldest_of a rest).id
          db h

    status-IsGone :
        (i : String) (status : SubAgentStatus) (now : ℕ) (rs : List (SubAgentRecord F))
        → (IsGone i rs → ⊥)
        → IsGone id rs
        → IsGone id (update_agent i (set_status status now) rs)
    status-IsGone i status now rs alive h = elim (Bool-cases (str_eq i id)) [
      | inl same ↦ absurd (alive (subst (λ k. IsGone k rs) (sym ((eq_iff i id).0 same)) h))
      | inr other ↦ other-IsGone id i status now rs other h
    ]

    run_call-IsGone :
        (c : Call) (db : Database F)
        → Spares id c
        → IsGone id db.sub_agents
        → IsGone id (run_call x config c db).sub_agents
    unfolding run_call
    run_call-IsGone (creates now d) db n h =
        create-keeps x (IsGone id) config now d db h
          (λ later same free. save_new-IsGone now d later n (subst (IsGone id) (sym same) h))
          (λ later same full.
            save_if_dismissed-IsGone now d
              (dismiss_oldest_inactive now (active_agents d.owner db.sub_agents) later) n
              (dismiss_oldest_inactive-IsGone now (active_agents d.owner db.sub_agents) later
                (subst (IsGone id) (sym same) h)))
    run_call-IsGone (suspends now i) db n h =
        Written-keeps (IsGone id) (update_agent i (set_status suspended now)) db.sub_agents
          (suspend now i db) (suspend-IsWritten now i db) h
          (λ e. status-IsGone i suspended now db.sub_agents (λ g. suspend-gone now i db g e) h)
    run_call-IsGone (dismisses now i) db n h =
        dismiss-keeps (IsGone id) (λ t j rs. dismissed-IsGone id j t rs) now i db h
    run_call-IsGone (revives now i) db n h =
        Written-keeps (IsGone id) (update_agent i (set_status active now)) db.sub_agents
          (revive config now i db) (revive-IsWritten config now i db) h
          (λ e. status-IsGone i active now db.sub_agents (λ g. revive-gone config now i db g e) h)
    run_call-IsGone (kills i) db n h =
        Written-keeps (IsGone id) (delete_agent i) db.sub_agents (kill i db) (kill-IsWritten i db) h
          (λ e. deleted-IsGone id i db.sub_agents h)
    run_call-IsGone (records now i success) db n h =
        record_task_result-keeps x (IsGone id) (λ t j rs. dismissed-IsGone id j t rs)
          (counted-IsGone x id) now i success db h
    run_call-IsGone (cleans cutoff) db n h =
        Written-keeps (IsGone id) (delete_old cutoff) db.sub_agents (cleanup_old_agents cutoff db)
          (cleanup_old_agents-IsWritten cutoff db) h (λ e. cleaned-IsGone id cutoff db.sub_agents h)

    run_calls-IsGone :
        (cs : List Call) (db : Database F)
        → All (Spares id) cs
        → IsGone id db.sub_agents
        → IsGone id (run_calls x config cs db).sub_agents
    unfolding run_calls
    run_calls-IsGone [] db n h = h
    run_calls-IsGone (c ∷ cs) db n h =
        run_calls-IsGone cs (run_call x config c db) n.1 (run_call-IsGone c db n.0 h)

    dismiss-IsGone :
        (now : ℕ) (db : Database F)
        → (dismiss now id db).1 ≡ none
        → IsGone id (dismiss now id db).0.sub_agents
    dismiss-IsGone now db e =
        subst (IsGone id)
          (sym (
            written_rows (update_agent id (set_status dismissed now)) db.sub_agents
              (dismiss now id db) (dismiss-IsWritten now id db) e))
          (now-IsGone id now db.sub_agents)

    -- After a `Dismiss` that succeeds, and any calls one after the other that create no agent with its
    -- id, neither `Revive` nor `Suspend` of the agent succeeds.
    pub dismiss_final :
        (now later : ℕ) (db : Database F) (cs : List Call)
        → All (Spares id) cs
        → (dismiss now id db).1 ≡ none
        → ((revive config later id (run_calls x config cs (dismiss now id db).0)).1 ≢ none)
          × ((suspend later id (run_calls x config cs (dismiss now id db).0)).1 ≢ none)
    dismiss_final now later db cs n e =
        let after = run_calls x config cs (dismiss now id db).0 in
        let gone = run_calls-IsGone cs (dismiss now id db).0 n (dismiss-IsGone now db e) in
        (revive-gone config later id after gone, suspend-gone later id after gone)
