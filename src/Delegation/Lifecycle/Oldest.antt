-- ===== src/Delegation/Lifecycle/Oldest.antt =====
-- pkg/delegation/lifecycle.go: the agent that `dismissOldestInactive` picks.
use moon_hub.Base.{
  ◌≡◌, String, true, ◌&&◌, List, [], ◌∷◌, ltb, str_eq, arith, eq_refl, All, Bool-cases, inl, inr,
}
use moon_hub.Delegation.Agents.{SubAgentRecord, place_agent, active_agents, is_status_active}
use moon_hub.Delegation.Lifecycle.{oldest_of}
use moon_hub.Delegation.Lifecycle.Table.{has_active}

module _ {F : Type 0} where
  All-place_agent :
      (P : SubAgentRecord F → Type 0) (r : SubAgentRecord F) (rs : List (SubAgentRecord F))
      → P r
      → All P rs
      → All P (place_agent r rs)
  unfolding place_agent
  All-place_agent P r [] p h = (p, tt)
  All-place_agent P r (q ∷ qs) p h = ground (arith, All-place_agent P r qs p h.1)

  All-map :
      (P Q : SubAgentRecord F → Type 0) (rs : List (SubAgentRecord F))
      → ((r : SubAgentRecord F) → P r → Q r)
      → All P rs
      → All Q rs
  All-map P Q [] f h = tt
  All-map P Q (r ∷ rs) f h = (f r h.0, All-map P Q rs f h.1)

  has_active-there :
      (user id : String) (r : SubAgentRecord F) (rs : List (SubAgentRecord F))
      → has_active user id rs ≡ true
      → has_active user id (r ∷ rs) ≡ true
  unfolding has_active
  has_active-there user id r rs h = ground arith

  has_active-here :
      (user : String) (r : SubAgentRecord F) (rs : List (SubAgentRecord F))
      → (str_eq r.user_id user && is_status_active r.status) ≡ true
      → has_active user r.id (r ∷ rs) ≡ true
  unfolding has_active
  has_active-here user r rs h = ground (arith, eq_refl r.id)

  -- The active agents are in the table.
  pub active_agents-there :
      (user : String) (rs : List (SubAgentRecord F))
      → All (λ r. has_active user r.id rs ≡ true) (active_agents user rs)
  unfolding active_agents
  active_agents-there user [] = tt
  active_agents-there user (r ∷ rs) =
      let others =
        All-map (λ q. has_active user q.id rs ≡ true) (λ q. has_active user q.id (r ∷ rs) ≡ true)
          (active_agents user rs) (λ q. has_active-there user q.id r rs)
          (active_agents-there user rs) in
      elim (Bool-cases (str_eq r.user_id user && is_status_active r.status)) [
        | inl mine ↦ rw (mine) (
            All-place_agent (λ q. has_active user q.id (r ∷ rs) ≡ true) r (active_agents user rs)
              (has_active-here user r rs mine) others)
        | inr other ↦ rw (other) others
      ]

  pub oldest_of-All :
      (P : SubAgentRecord F → Type 0) (a : SubAgentRecord F) (rs : List (SubAgentRecord F))
      → P a
      → All P rs
      → P (oldest_of a rs)
  unfolding oldest_of
  oldest_of-All P a [] p h = p
  oldest_of-All P a (r ∷ rs) p h = elim (Bool-cases (ltb r.last_active_at a.last_active_at)) [
    | inl e ↦ rw (e) (oldest_of-All P r rs h.0 h.1)
    | inr e ↦ rw (e) (oldest_of-All P a rs p h.1)
  ]
