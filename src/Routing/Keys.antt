-- ===== src/Routing/Keys.antt =====
-- pkg/routing/agent_id.go and session_key.go: the ids of agents and the keys of sessions. The text
-- functions of Go are a record.
use Prim.Native.String.{◌++◌ as append, slice, len}
use moon_hub.Base.{
  ℕ, suc, String, Bool, true, false, not, ◌&&◌, ◌||◌, Option, none, some, List, [], ◌∷◌, ◌++◌, ltb,
  if◌then◌else◌, str_eq,
}

pub record RouteText : Type 0 where
  pub to_lower : String → String
  pub trim_space : String → String
  -- The pattern comes first.
  pub regex_match : String → String → Bool
  pub replace_all : String → String → String → String
  -- `strings.Index(text, part)`.
  pub index : String → String → Option ℕ

pub data DmScope : Type 0 where
  main per_peer per_channel_peer per_account_channel_peer other : DmScope

abbrev pub is_main : DmScope → Bool
is_main main = true
is_main _ = false

pub record RoutePeer : Type 0 where
  pub kind : String
  pub id : String

pub record SessionKeyParams : Type 0 where
  pub agent_id : String
  pub channel : String
  pub account_id : String
  pub peer : Option RoutePeer
  pub dm_scope : DmScope
  pub identity_links : List (String × List String)

abbrev pub one_of : String → List String → Bool
one_of s [] = false
one_of s (t ∷ ts) = let rest = one_of s ts in if str_eq t s then true else rest

-- The texts with a colon after each but the last.
abbrev pub with_colons : String → List String → String
with_colons first [] = first
with_colons first (next ∷ others) = append first (append ":" (with_colons next others))

module _ (x : RouteText) where
  -- The common body of `NormalizeAgentID` and `NormalizeAccountID`.
  unfoldable pub normalize_id : String → String → String
  normalize_id default id =
      let lower = x.to_lower (x.trim_space id) in
      let dashed = x.replace_all "[^a-z0-9_-]+" lower "-" in
      let stripped = x.replace_all "-+$" (x.replace_all "^-+" dashed "") "" in
      let short = if ltb 64 (len stripped) then slice stripped 0 64 else stripped in
      if str_eq (x.trim_space id) ""
      then default
      else if x.regex_match "^[a-z0-9][a-z0-9_-]{0,63}$" lower
      then lower
      else if str_eq short ""
      then default
      else short

  abbrev pub normalize_agent_id : String → String
  normalize_agent_id id = normalize_id "main" id

  abbrev pub normalize_account_id : String → String
  normalize_account_id id = normalize_id "default" id

  unfoldable pub build_agent_main_session_key : String → String
  unfolding normalize_id
  build_agent_main_session_key agent_id =
      with_colons "agent" (normalize_agent_id agent_id ∷ "main" ∷ [])

  abbrev pub normalize_channel : String → String
  normalize_channel channel =
      let c = x.trim_space (x.to_lower channel) in if str_eq c "" then "unknown" else c

  -- The part after a colon that is neither at the start nor at the end.
  abbrev pub bare_id : String → Option ℕ → List String
  bare_id raw none = []
  bare_id raw (some i) =
      if ltb 0 i && ltb (suc i) (len raw) then slice raw (suc i) (len raw) ∷ [] else []

  abbrev pub link_candidates : String → String → List String
  link_candidates channel peer_id =
      let raw = x.to_lower peer_id in
      let c = x.to_lower (x.trim_space channel) in
      (if str_eq raw "" then [] else raw ∷ [])
      ++ ((if str_eq c "" then [] else append c (append ":" raw) ∷ [])
          ++ bare_id raw (x.index raw ":"))

  abbrev pub is_linked : List String → List String → Bool
  is_linked candidates [] = false
  is_linked candidates (id ∷ ids) =
      let rest = is_linked candidates ids in
      let normalized = x.to_lower (x.trim_space id) in
      if not (str_eq normalized "") && one_of normalized candidates then true else rest

  -- The links are in the order in which the map is walked.
  unfoldable pub find_link : List String → List (String × List String) → String
  find_link candidates [] = ""
  find_link candidates ((canonical, ids) ∷ links) =
      let rest = find_link candidates links in
      let name = x.trim_space canonical in
      if not (str_eq name "") && is_linked candidates ids then name else rest

  unfoldable pub resolve_linked_peer_id : List (String × List String) → String → String → String
  unfolding find_link
  resolve_linked_peer_id links channel peer_id =
      let trimmed = x.trim_space peer_id in
      if str_eq trimmed "" then "" else find_link (link_candidates channel trimmed) links

  -- The id of a direct peer, its link followed unless the scope is the main one.
  abbrev pub direct_peer_id : SessionKeyParams → String → String
  direct_peer_id params id =
      let linked = resolve_linked_peer_id params.identity_links params.channel id in
      x.to_lower (
        if not (is_main params.dm_scope) && not (str_eq id "") && not (str_eq linked "")
        then linked
        else id)

  -- The key for a direct peer whose id is not empty.
  abbrev pub direct_key : SessionKeyParams → String → DmScope → String
  direct_key params peer per_account_channel_peer = with_colons "agent" (
      normalize_agent_id params.agent_id
      ∷ normalize_channel params.channel
      ∷ normalize_account_id params.account_id
      ∷ "direct"
      ∷ peer
      ∷ [])
  direct_key params peer per_channel_peer =
      with_colons "agent" (
        normalize_agent_id params.agent_id
        ∷ normalize_channel params.channel
        ∷ "direct"
        ∷ peer
        ∷ [])
  direct_key params peer per_peer =
      with_colons "agent" (normalize_agent_id params.agent_id ∷ "direct" ∷ peer ∷ [])
  direct_key params peer _ = build_agent_main_session_key (normalize_agent_id params.agent_id)

  unfoldable pub direct_session_key : SessionKeyParams → String → String
  unfolding resolve_linked_peer_id normalize_id build_agent_main_session_key
  direct_session_key params id =
      let peer = direct_peer_id params id in
      if str_eq peer ""
      then build_agent_main_session_key (normalize_agent_id params.agent_id)
      else direct_key params peer params.dm_scope

  -- The session key for a peer, none being a direct peer without an id.
  unfoldable pub peer_session_key : SessionKeyParams → String → String → String
  unfolding direct_session_key
  peer_session_key params kind id =
      let peer = x.to_lower (x.trim_space id) in
      if str_eq kind "" || str_eq kind "direct"
      then direct_session_key params (x.trim_space id)
      else with_colons "agent" (
          normalize_agent_id params.agent_id
          ∷ normalize_channel params.channel
          ∷ kind
          ∷ (if str_eq peer "" then "unknown" else peer)
          ∷ [])

  unfoldable pub build_agent_peer_session_key : SessionKeyParams → String
  unfolding peer_session_key
  build_agent_peer_session_key params = elim params.peer [
    | none ↦ peer_session_key params "" ""
    | some peer ↦ peer_session_key params (x.trim_space peer.kind) peer.id
  ]
