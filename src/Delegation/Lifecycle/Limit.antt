-- ===== src/Delegation/Lifecycle/Limit.antt =====
-- pkg/delegation/lifecycle.go: the number of active agents of a user.
use moon_hub.Base.{
  ℕ, ◌≤◌, ◌<◌, ◌≡◌, ◌≢◌, eq_iff, refl, sym, ap, subst, String, true, Option, none, some, List, [],
  ◌∷◌, length, arith, All,
}
use moon_hub.Delegation.Agents.{
  SubAgentStatus, active, suspended, dismissed, SubAgentRecord, Database, AgentMath, save_agent,
  delete_agent, update_agent, active_agents, delete_old, find_agent,
}
use moon_hub.Delegation.Lifecycle.{
  DelegationConfig, AgentError, set_status, suspend, dismiss, revive, kill, oldest_of,
  dismiss_oldest_inactive, Draft, new_agent, save_new, save_if_dismissed, create, set_result,
  cleanup_old_agents,
}
use moon_hub.Delegation.Lifecycle.Table.{
  count_id, count_active, has_active, length-active_agents, count_id-update_agent,
  count_active-update_agent, count_active-set_status, count_active-dismissed, count_active-revived,
  count_id-delete_agent, count_active-delete_agent, count_id-save_agent, count_active-save_agent,
  count_id-delete_old, count_active-delete_old,
}
use moon_hub.Delegation.Lifecycle.Oldest.{active_agents-there, oldest_of-All}
use moon_hub.Delegation.Lifecycle.History.{
  Call, creates, suspends, dismisses, revives, kills, records, cleans, run_call, run_calls,
}
use moon_hub.Delegation.Lifecycle.Keeps.{
  Written-keeps, dismiss-keeps, record_task_result-keeps, create-keeps,
}
use moon_hub.Delegation.Lifecycle.Writes.{
  IsWritten, dismiss-IsWritten, suspend-IsWritten, kill-IsWritten, revive-IsWritten, revive-room,
  save_new-IsWritten, cleanup_old_agents-IsWritten,
}

module _ {F : Type 0} where
  -- The ids are unique, and no user has more active agents than the limit.
  pub record IsWithin (limit : ℕ) (rs : List (SubAgentRecord F)) : Type 0 where
    pub unique : (id : String) → count_id id rs ≤ 1
    pub room : (user : String) → count_active user rs ≤ limit

  lowered-IsWithin :
      (limit now : ℕ) (id : String) (status : SubAgentStatus) (rs : List (SubAgentRecord F))
      → status ≢ active
      → IsWithin limit rs
      → IsWithin limit (update_agent id (set_status status now) rs)
  lowered-IsWithin limit now id status rs n h = record {
    unique = λ i.
        omega
          (arith, h.unique i, count_id-update_agent i id (set_status status now) rs (λ r. refl));
    room = λ user. ground (arith, h.room user, count_active-set_status user id status now rs);
  }

  deleted-IsWithin :
      (limit : ℕ) (id : String) (rs : List (SubAgentRecord F))
      → IsWithin limit rs
      → IsWithin limit (delete_agent id rs)
  deleted-IsWithin limit id rs h = record {
    unique = λ i. ground (arith, h.unique i, count_id-delete_agent i id rs);
    room = λ user. omega (arith, h.room user, count_active-delete_agent user id rs);
  }

  cleaned-IsWithin :
      (limit cutoff : ℕ) (rs : List (SubAgentRecord F))
      → IsWithin limit rs
      → IsWithin limit (delete_old cutoff rs)
  cleaned-IsWithin limit cutoff rs h = record {
    unique = λ i. omega (arith, h.unique i, count_id-delete_old i cutoff rs);
    room = λ user. omega (arith, h.room user, count_active-delete_old user cutoff rs);
  }

  revived-IsWithin :
      (limit now : ℕ) (id : String) (found : SubAgentRecord F) (rs : List (SubAgentRecord F))
      → IsWithin limit rs
      → find_agent id rs ≡ some found
      → count_active found.user_id rs < limit
      → IsWithin limit (update_agent id (set_status active now) rs)
  revived-IsWithin limit now id found rs h e k = record {
    unique = λ i.
        omega
          (arith, h.unique i, count_id-update_agent i id (set_status active now) rs (λ r. refl));
    room = λ user. ground (
      arith,
      h.room user,
      k,
      eq_iff found.user_id user,
      count_active-revived user id now found rs e (h.unique id),
    );
  }

  -- A new agent of a user with room.
  saved-IsWithin :
      (limit : ℕ) (r : SubAgentRecord F) (rs : List (SubAgentRecord F))
      → IsWithin limit rs
      → count_active r.user_id rs < limit
      → IsWithin limit (save_agent r rs)
  saved-IsWithin limit r rs h k = record {
    unique = λ i. count_id-save_agent i r rs (h.unique i);
    room = λ user.
        ground (arith, h.room user, k, eq_iff r.user_id user, count_active-save_agent user r rs);
  }

  module _ (x : AgentMath F) (config : DelegationConfig F) where
    abbrev limit_of : ℕ
    limit_of = config.max_active_per_user

    save_new-IsWithin :
        (now : ℕ) (d : Draft) (db : Database F)
        → IsWithin limit_of db.sub_agents
        → count_active d.owner db.sub_agents < limit_of
        → IsWithin limit_of (save_new x now d db).0.sub_agents
    save_new-IsWithin now d db h k =
        Written-keeps (IsWithin limit_of) (save_agent (new_agent x now d)) db.sub_agents
          (save_new x now d db) (save_new-IsWritten x now d db) h
          (λ e. saved-IsWithin limit_of (new_agent x now d) db.sub_agents h k)

    -- The end of `Create` after a `Dismiss` of an active agent.
    save_if_dismissed-IsWithin :
        (now : ℕ) (d : Draft) (id : String) (rows : List (SubAgentRecord F))
        (res : Database F × Option AgentError)
        → IsWithin limit_of rows
        → has_active d.owner id rows ≡ true
        → IsWritten (update_agent id (set_status dismissed now)) rows res
        → IsWithin limit_of (save_if_dismissed x now d res).0.sub_agents
    save_if_dismissed-IsWithin now d id rows (db, some e) h there w =
        subst (IsWithin limit_of) (sym w) h
    save_if_dismissed-IsWithin now d id rows (db, none) h there w =
        save_new-IsWithin now d db
          (subst (IsWithin limit_of) (sym w)
            (lowered-IsWithin limit_of now id dismissed rows (grind arith) h))
          (omega (
            arith,
            h.room d.owner,
            ap (count_active d.owner) w,
            count_active-dismissed d.owner id now rows there,
          ))

    make_room-IsWithin :
        (now : ℕ) (d : Draft) (rs : List (SubAgentRecord F)) (db : Database F)
        → IsWithin limit_of db.sub_agents
        → 1 ≤ length rs
        → All (λ r. has_active d.owner r.id db.sub_agents ≡ true) rs
        → IsWithin limit_of
            (save_if_dismissed x now d (dismiss_oldest_inactive now rs db)).0.sub_agents
    unfolding dismiss_oldest_inactive
    make_room-IsWithin now d [] db h k there = absurd (omega arith)
    make_room-IsWithin now d (a ∷ rest) db h k there =
        let id = (oldest_of a rest).id in
        save_if_dismissed-IsWithin now d id db.sub_agents (dismiss now id db) h
          (oldest_of-All (λ r. has_active d.owner r.id db.sub_agents ≡ true) a rest there.0 there.1)
          (dismiss-IsWritten now id db)

    create-IsWithin :
        (now : ℕ) (d : Draft) (db : Database F)
        → 1 ≤ limit_of
        → IsWithin limit_of db.sub_agents
        → IsWithin limit_of (create x config now d db).0.sub_agents
    create-IsWithin now d db some_room h =
        create-keeps x (IsWithin limit_of) config now d db h
          (λ later same free.
            save_new-IsWithin now d later (subst (IsWithin limit_of) (sym same) h) (
              ground (
                arith,
                ap (count_active d.owner) same,
                length-active_agents d.owner db.sub_agents,
              )))
          (λ later same full.
            subst
              (λ rows.
                All (λ r. has_active d.owner r.id rows ≡ true) (active_agents d.owner db.sub_agents)
                → IsWithin limit_of
                    (save_if_dismissed x now d (
                      dismiss_oldest_inactive now (active_agents d.owner db.sub_agents)
                        later)).0.sub_agents)
              same
              (make_room-IsWithin now d (active_agents d.owner db.sub_agents) later
                (subst (IsWithin limit_of) (sym same) h) (ground arith))
              (active_agents-there d.owner db.sub_agents))

    dismissed_too :
        (now : ℕ) (id : String) (rs : List (SubAgentRecord F))
        → IsWithin limit_of rs
        → IsWithin limit_of (update_agent id (set_status dismissed now) rs)
    dismissed_too now id rs h = lowered-IsWithin limit_of now id dismissed rs (grind arith) h

    counted-IsWithin :
        (now : ℕ) (id : String) (n : ℕ) (rate : F) (rs : List (SubAgentRecord F))
        → IsWithin limit_of rs
        → IsWithin limit_of (update_agent id (set_result x now n rate) rs)
    counted-IsWithin now id n rate rs h = record {
      unique = λ i.
          omega (
            arith,
            h.unique i,
            count_id-update_agent i id (set_result x now n rate) rs (λ r. refl),
          );
      room = λ user. omega (
        arith,
        h.room user,
        count_active-update_agent user id (set_result x now n rate) rs (λ r. (refl, refl)),
      );
    }

    run_call-IsWithin :
        (c : Call) (db : Database F)
        → 1 ≤ limit_of
        → IsWithin limit_of db.sub_agents
        → IsWithin limit_of (run_call x config c db).sub_agents
    unfolding run_call
    run_call-IsWithin (creates now d) db some_room h = create-IsWithin now d db some_room h
    run_call-IsWithin (suspends now id) db some_room h =
        Written-keeps (IsWithin limit_of) (update_agent id (set_status suspended now)) db.sub_agents
          (suspend now id db) (suspend-IsWritten now id db) h
          (λ e. lowered-IsWithin limit_of now id suspended db.sub_agents (grind arith) h)
    run_call-IsWithin (dismisses now id) db some_room h =
        dismiss-keeps (IsWithin limit_of) dismissed_too now id db h
    run_call-IsWithin (revives now id) db some_room h =
        Written-keeps (IsWithin limit_of) (update_agent id (set_status active now)) db.sub_agents
          (revive config now id db) (revive-IsWritten config now id db) h
          (λ e.
            let (r, found, s, k) = revive-room config now id db e in
            revived-IsWithin limit_of now id r db.sub_agents h found
              (omega (arith, k, length-active_agents r.user_id db.sub_agents)))
    run_call-IsWithin (kills id) db some_room h =
        Written-keeps (IsWithin limit_of) (delete_agent id) db.sub_agents (kill id db)
          (kill-IsWritten id db) h (λ e. deleted-IsWithin limit_of id db.sub_agents h)
    run_call-IsWithin (records now id success) db some_room h =
        record_task_result-keeps x (IsWithin limit_of) dismissed_too counted-IsWithin now id success
          db h
    run_call-IsWithin (cleans cutoff) db some_room h =
        Written-keeps (IsWithin limit_of) (delete_old cutoff) db.sub_agents
          (cleanup_old_agents cutoff db) (cleanup_old_agents-IsWritten cutoff db) h
          (λ e. cleaned-IsWithin limit_of cutoff db.sub_agents h)

    -- Where at least one active agent is allowed: in a table with unique ids in which no user has
    -- more active agents than are allowed, this stays so through every history of calls, whichever
    -- statements fail, as long as the calls do not overlap.
    pub run_calls-IsWithin :
        (cs : List Call) (db : Database F)
        → 1 ≤ limit_of
        → IsWithin limit_of db.sub_agents
        → IsWithin limit_of (run_calls x config cs db).sub_agents
    unfolding run_calls
    run_calls-IsWithin [] db some_room h = h
    run_calls-IsWithin (c ∷ cs) db some_room h =
        run_calls-IsWithin cs (run_call x config c db) some_room
          (run_call-IsWithin c db some_room h)
