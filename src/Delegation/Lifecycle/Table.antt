-- ===== src/Delegation/Lifecycle/Table.antt =====
-- pkg/delegation/store.go: how many rows of the table are active, or have an id.
use moon_hub.Base.{
  ℕ, suc, ◌+◌, ◌≤◌, ◌≡◌, refl, String, Bool, true, false, ◌&&◌, some, List, [], ◌∷◌, ◌++◌,
  if◌then◌else◌, str_eq, length, arith, eq_iff, Bool-cases, inl, inr,
}
use moon_hub.Delegation.Agents.{
  SubAgentStatus, active, dismissed, is_status_active, SubAgentRecord, find_agent, save_agent,
  delete_agent, update_agent, place_agent, active_agents, delete_old,
}
use moon_hub.Delegation.Lifecycle.{set_status}

module _ {F : Type 0} where
  unfoldable pub count_id : String → List (SubAgentRecord F) → ℕ
  count_id id [] = 0
  count_id id (r ∷ rs) = let rest = count_id id rs in if str_eq r.id id then suc rest else rest

  unfoldable pub count_active : String → List (SubAgentRecord F) → ℕ
  count_active user [] = 0
  count_active user (r ∷ rs) =
      let rest = count_active user rs in
      if str_eq r.user_id user && is_status_active r.status then suc rest else rest

  length-place_agent :
      (r : SubAgentRecord F) (rs : List (SubAgentRecord F))
      → length (place_agent r rs) ≡ suc (length rs)
  unfolding place_agent
  length-place_agent r [] = refl
  length-place_agent r (q ∷ qs) = ground (arith, length-place_agent r qs)

  pub length-active_agents :
      (user : String) (rs : List (SubAgentRecord F))
      → length (active_agents user rs) ≡ count_active user rs
  unfolding active_agents count_active
  length-active_agents user [] = refl
  length-active_agents user (r ∷ rs) =
      ground (arith, length-active_agents user rs, length-place_agent r (active_agents user rs))

  -- An update that keeps the ids.
  pub count_id-update_agent :
      (i id : String) (change : SubAgentRecord F → SubAgentRecord F) (rs : List (SubAgentRecord F))
      → ((r : SubAgentRecord F) → (change r).id ≡ r.id)
      → count_id i (update_agent id change rs) ≡ count_id i rs
  unfolding count_id update_agent
  count_id-update_agent i id change [] h = refl
  count_id-update_agent i id change (r ∷ rs) h =
      ground (arith, h r, count_id-update_agent i id change rs h)

  -- An update that keeps the owners and the statuses.
  pub count_active-update_agent :
      (user id : String) (change : SubAgentRecord F → SubAgentRecord F)
      (rs : List (SubAgentRecord F))
      → ((r : SubAgentRecord F) → ((change r).user_id ≡ r.user_id) × ((change r).status ≡ r.status))
      → count_active user (update_agent id change rs) ≡ count_active user rs
  unfolding count_active update_agent
  count_active-update_agent user id change [] h = refl
  count_active-update_agent user id change (r ∷ rs) h =
      ground (arith, h r, count_active-update_agent user id change rs h)

  pub count_active-set_status :
      (user id : String) (status : SubAgentStatus) (now : ℕ) (rs : List (SubAgentRecord F))
      → count_active user (update_agent id (set_status status now) rs)
        ≤ count_active user rs + (if is_status_active status then count_id id rs else 0)
  unfolding count_active count_id update_agent
  count_active-set_status user id status now [] = ground arith
  count_active-set_status user id status now (r ∷ rs) =
      ground (arith, count_active-set_status user id status now rs)

  -- Some row has the id, is active and belongs to the user.
  unfoldable pub has_active : String → String → List (SubAgentRecord F) → Bool
  has_active user id [] = false
  has_active user id (r ∷ rs) =
      let rest = has_active user id rs in
      if str_eq r.id id && (str_eq r.user_id user && is_status_active r.status) then true else rest

  pub count_active-dismissed :
      (user id : String) (now : ℕ) (rs : List (SubAgentRecord F))
      → has_active user id rs ≡ true
      → suc (count_active user (update_agent id (set_status dismissed now) rs))
        ≤ count_active user rs
  unfolding count_active has_active update_agent
  count_active-dismissed user id now [] h = absurd (ground arith)
  count_active-dismissed user id now (r ∷ rs) h =
      let k = count_active-set_status user id dismissed now rs in
      elim (Bool-cases (has_active user id rs)) [
        | inl there ↦ ground (arith, k, count_active-dismissed user id now rs there)
        | inr missing ↦ ground (arith, k)
      ]

  count_id-append :
      (i : String) (rs qs : List (SubAgentRecord F))
      → count_id i (rs ++ qs) ≡ count_id i rs + count_id i qs
  unfolding count_id
  count_id-append i [] qs = omega arith
  count_id-append i (r ∷ rs) qs = ground (arith, count_id-append i rs qs)

  count_active-append :
      (user : String) (rs qs : List (SubAgentRecord F))
      → count_active user (rs ++ qs) ≡ count_active user rs + count_active user qs
  unfolding count_active
  count_active-append user [] qs = omega arith
  count_active-append user (r ∷ rs) qs = ground (arith, count_active-append user rs qs)

  pub count_id-delete_agent :
      (i id : String) (rs : List (SubAgentRecord F))
      → count_id i (delete_agent id rs) ≡ (if str_eq id i then 0 else count_id i rs)
  unfolding count_id delete_agent
  count_id-delete_agent i id [] = ground arith
  count_id-delete_agent i id (r ∷ rs) =
      ground (arith, eq_iff r.id id, eq_iff r.id i, eq_iff id i, count_id-delete_agent i id rs)

  pub count_active-delete_agent :
      (user id : String) (rs : List (SubAgentRecord F))
      → count_active user (delete_agent id rs) ≤ count_active user rs
  unfolding count_active delete_agent
  count_active-delete_agent user id [] = ground arith
  count_active-delete_agent user id (r ∷ rs) = ground (arith, count_active-delete_agent user id rs)

  pub count_id-save_agent :
      (i : String) (r : SubAgentRecord F) (rs : List (SubAgentRecord F))
      → count_id i rs ≤ 1
      → count_id i (save_agent r rs) ≤ 1
  unfolding save_agent count_id
  count_id-save_agent i r rs h =
      ground
        (arith, count_id-append i (delete_agent r.id rs) (r ∷ []), count_id-delete_agent i r.id rs)

  pub count_active-save_agent :
      (user : String) (r : SubAgentRecord F) (rs : List (SubAgentRecord F))
      → count_active user (save_agent r rs)
        ≤ count_active user rs + (if str_eq r.user_id user then 1 else 0)
  unfolding save_agent count_active
  count_active-save_agent user r rs = ground (
    arith,
    count_active-append user (delete_agent r.id rs) (r ∷ []),
    count_active-delete_agent user r.id rs,
  )

  pub count_id-delete_old :
      (i : String) (cutoff : ℕ) (rs : List (SubAgentRecord F))
      → count_id i (delete_old cutoff rs) ≤ count_id i rs
  unfolding count_id delete_old
  count_id-delete_old i cutoff [] = ground arith
  count_id-delete_old i cutoff (r ∷ rs) = ground (arith, count_id-delete_old i cutoff rs)

  pub count_active-delete_old :
      (user : String) (cutoff : ℕ) (rs : List (SubAgentRecord F))
      → count_active user (delete_old cutoff rs) ≡ count_active user rs
  unfolding count_active delete_old
  count_active-delete_old user cutoff [] = refl
  count_active-delete_old user cutoff (r ∷ rs) =
      ground (arith, count_active-delete_old user cutoff rs)

  count_active-missing :
      (user id : String) (change : SubAgentRecord F → SubAgentRecord F)
      (rs : List (SubAgentRecord F))
      → count_id id rs ≡ 0
      → count_active user (update_agent id change rs) ≡ count_active user rs
  unfolding count_id update_agent count_active
  count_active-missing user id change [] h = refl
  count_active-missing user id change (r ∷ rs) h =
      ground (arith, count_active-missing user id change rs)

  -- The one agent with the id counts for its own user.
  pub count_active-revived :
      (user id : String) (now : ℕ) (found : SubAgentRecord F) (rs : List (SubAgentRecord F))
      → find_agent id rs ≡ some found
      → count_id id rs ≤ 1
      → count_active user (update_agent id (set_status active now) rs)
        ≤ count_active user rs + (if str_eq found.user_id user then 1 else 0)
  unfolding count_id update_agent count_active find_agent
  count_active-revived user id now found [] h k = absurd (ground arith)
  count_active-revived user id now found (r ∷ rs) h k = elim (Bool-cases (str_eq r.id id)) [
    | inl e ↦ ground (arith, count_active-missing user id (set_status active now) rs, e)
    | inr e ↦ ground (arith, count_active-revived user id now found rs, e)
  ]
