-- ===== src/Delegation/Agents.antt =====
-- pkg/delegation/store.go and types.go: the sub-agents and their table `sub_agents`. A query of the
-- database may fail; the list `faults` says which of the next ones do. A statement that fails leaves
-- the table as it is. `F` is the type of the Go floats.
use moon_hub.Base.{
  ℕ, suc, String, Bool, true, false, ◌&&◌, Option, none, some, List, [], ◌∷◌, ◌++◌, map, ltb,
  if◌then◌else◌, str_eq, length, max,
}

pub data SubAgentStatus : Type 0 where
  active suspended dismissed : SubAgentStatus

abbrev pub is_status_active : SubAgentStatus → Bool
is_status_active active = true
is_status_active _ = false

abbrev pub is_status_suspended : SubAgentStatus → Bool
is_status_suspended suspended = true
is_status_suspended _ = false

abbrev pub is_status_dismissed : SubAgentStatus → Bool
is_status_dismissed dismissed = true
is_status_dismissed _ = false

-- The keywords and the tools are as `SaveSubAgent` joins them.
pub record SubAgentRecord (F : Type 0) : Type 0 where
  pub id : String
  pub user_id : String
  pub label : String
  pub role_prompt : String
  pub task_keywords : String
  pub tools : String
  pub status : SubAgentStatus
  pub created_at : ℕ
  pub last_active_at : ℕ
  pub completed_tasks : ℕ
  pub success_rate : F
  pub session_key : String

-- The topics of the intercom.
pub data Topic : Type 0 where
  agent_created agent_suspended agent_dismissed agent_revived : Topic

pub record AgentEvent : Type 0 where
  pub topic : Topic
  pub user_id : String
  pub agent_id : String

pub record Database (F : Type 0) : Type 0 where
  pub sub_agents : List (SubAgentRecord F)
  pub faults : List Bool
  pub emitted : List AgentEvent

-- What a query gives: an error or its rows.
pub data Answer {ℓ} (A : Type ℓ) : Type ℓ where
  failed : Answer A
  got : A → Answer A

-- The floats and texts of Go that the delegation uses.
pub record AgentMath (F : Type 0) : Type 0 where
  pub to_lower : String → String
  -- `strings.Join` and `strings.Split` with the separator "||".
  pub join : List String → String
  pub split_joined : String → List String
  -- `float64(a) / float64(b)`.
  pub ratio : ℕ → ℕ → F
  pub less : F → F → Bool
  pub plus : F → F → F
  pub minus : F → F → F
  pub times : F → F → F
  pub zero_rate : F
  pub one_rate : F
  -- The constant 0.2: the smoothing factor and the limit of a low rate.
  pub one_fifth : F

unfoldable pub member : String → List String → Bool
member key [] = false
member key (first ∷ others) =
    let rest = member key others in if str_eq first key then true else rest

unfoldable pub count_members : List String → List String → ℕ
unfolding member
count_members set [] = 0
count_members set (key ∷ keys) =
    let rest = count_members set keys in if member key set then suc rest else rest

module _ {F : Type 0} where
  -- The next statement fails or is carried out.
  abbrev pub take_fault : Database F → Bool × Database F
  take_fault db = elim db.faults [
    | [] ↦ (false, db)
    | fault ∷ faults ↦ (fault, record db { faults = faults })
  ]

  abbrev pub query {ℓ} :
      {A : Type ℓ} → (List (SubAgentRecord F) → A) → Database F → Database F × Answer A
  query select db =
      ((take_fault db).1, if (take_fault db).0 then failed else got (select db.sub_agents))

  -- The new database, and whether the statement was carried out.
  abbrev pub exec :
      (List (SubAgentRecord F) → List (SubAgentRecord F)) → Database F → Database F × Bool
  exec change db =
      if (take_fault db).0
      then ((take_fault db).1, false)
      else (record (take_fault db).1 { sub_agents = change db.sub_agents }, true)

  -- `WHERE id = ?`; the id is the primary key.
  unfoldable pub find_agent : String → List (SubAgentRecord F) → Option (SubAgentRecord F)
  find_agent id [] = none
  find_agent id (r ∷ rs) = let rest = find_agent id rs in if str_eq r.id id then some r else rest

  abbrev pub get_sub_agent : String → Database F → Database F × Answer (Option (SubAgentRecord F))
  get_sub_agent id db = query (find_agent id) db

  unfoldable pub delete_agent : String → List (SubAgentRecord F) → List (SubAgentRecord F)
  delete_agent id [] = []
  delete_agent id (r ∷ rs) =
      let rest = delete_agent id rs in if str_eq r.id id then rest else r ∷ rest

  -- `INSERT OR REPLACE`.
  unfoldable pub save_agent : SubAgentRecord F → List (SubAgentRecord F) → List (SubAgentRecord F)
  unfolding delete_agent
  save_agent r rs = delete_agent r.id rs ++ r ∷ []

  unfoldable pub update_agent :
      String
      → (SubAgentRecord F → SubAgentRecord F)
      → List (SubAgentRecord F)
      → List (SubAgentRecord F)
  update_agent id change [] = []
  update_agent id change (r ∷ rs) =
      (if str_eq r.id id then change r else r) ∷ update_agent id change rs

  -- `ORDER BY last_active_at DESC`.
  unfoldable pub place_agent : SubAgentRecord F → List (SubAgentRecord F) → List (SubAgentRecord F)
  place_agent r [] = r ∷ []
  place_agent r (q ∷ qs) =
      let rest = place_agent r qs in
      if ltb r.last_active_at q.last_active_at then q ∷ rest else r ∷ q ∷ qs

  unfoldable pub active_agents : String → List (SubAgentRecord F) → List (SubAgentRecord F)
  unfolding place_agent
  active_agents user [] = []
  active_agents user (r ∷ rs) =
      let rest = active_agents user rs in
      if str_eq r.user_id user && is_status_active r.status then place_agent r rest else rest

  -- `DELETE ... WHERE status = 'dismissed' AND last_active_at < cutoff`.
  unfoldable pub delete_old : ℕ → List (SubAgentRecord F) → List (SubAgentRecord F)
  delete_old cutoff [] = []
  delete_old cutoff (r ∷ rs) =
      let rest = delete_old cutoff rs in
      if is_status_dismissed r.status && ltb r.last_active_at cutoff then rest else r ∷ rest

  module _ (x : AgentMath F) where
    unfoldable pub parse_json_array : String → List String
    parse_json_array s = if str_eq s "" then [] else if str_eq s "[]" then [] else x.split_joined s

    unfoldable pub keyword_overlap_score : List String → List String → F
    unfolding count_members
    keyword_overlap_score [] keywords2 = x.zero_rate
    keyword_overlap_score (k ∷ ks) [] = x.zero_rate
    keyword_overlap_score (k ∷ ks) (j ∷ js) =
        x.ratio (count_members (map x.to_lower (k ∷ ks)) (map x.to_lower (j ∷ js)))
          (max (length (k ∷ ks)) (length (j ∷ js)))
