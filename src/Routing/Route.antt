-- ===== src/Routing/Route.antt =====
-- pkg/routing/route.go: the agent for a message, by the bindings of the configuration.
pub mod Agents
use moon_hub.Base.{
  ℕ, String, Bool, true, false, not, ◌&&◌, ◌||◌, Option, none, some, List, [], ◌∷◌, if◌then◌else◌,
  str_eq,
}
use moon_hub.Routing.Keys.{
  RouteText, RoutePeer, DmScope, SessionKeyParams, normalize_id, normalize_agent_id,
  normalize_account_id, build_agent_main_session_key, build_agent_peer_session_key,
}

pub record PeerMatch : Type 0 where
  pub kind : String
  pub id : String

pub record BindingMatch : Type 0 where
  pub channel : String
  pub account_id : String
  pub peer : Option PeerMatch
  pub guild_id : String
  pub team_id : String

pub record AgentBinding : Type 0 where
  pub agent_id : String
  pub match_on : BindingMatch

pub record AgentConfig : Type 0 where
  pub id : String
  pub is_default : Bool

-- What the resolver reads of the configuration; an empty scope is the main one.
pub record RouteConfig : Type 0 where
  pub agents : List AgentConfig
  pub bindings : List AgentBinding
  pub dm_scope : DmScope
  pub identity_links : List (String × List String)

pub record RouteInput : Type 0 where
  pub channel : String
  pub account_id : String
  pub peer : Option RoutePeer
  pub parent_peer : Option RoutePeer
  pub guild_id : String
  pub team_id : String

pub data MatchedBy : Type 0 where
  binding_peer binding_peer_parent binding_guild binding_team binding_account : MatchedBy
  binding_channel by_default : MatchedBy

pub record ResolvedRoute : Type 0 where
  pub agent_id : String
  pub channel : String
  pub account_id : String
  pub session_key : String
  pub main_session_key : String
  pub matched_by : MatchedBy

unfoldable pub find_binding : (AgentBinding → Bool) → List AgentBinding → Option AgentBinding
find_binding test [] = none
find_binding test (b ∷ bs) = let rest = find_binding test bs in if test b then some b else rest

abbrev pub is_none : Option PeerMatch → Bool
is_none none = true
is_none (some peer) = false

abbrev pub or_agent : Option AgentBinding → MatchedBy → String × MatchedBy → String × MatchedBy
or_agent none by rest = rest
or_agent (some b) by rest = (b.agent_id, by)

module _ (x : RouteText) where
  abbrev pub matches_account_id : String → String → Bool
  matches_account_id wanted actual =
      let trimmed = x.trim_space wanted in
      if str_eq trimmed ""
      then str_eq actual "default"
      else if str_eq trimmed "*"
      then true
      else str_eq (x.to_lower trimmed) (x.to_lower actual)

  unfoldable pub filter_bindings : String → String → List AgentBinding → List AgentBinding
  filter_bindings channel account_id [] = []
  filter_bindings channel account_id (b ∷ bs) =
      let rest = filter_bindings channel account_id bs in
      let wanted = x.to_lower (x.trim_space b.match_on.channel) in
      if str_eq wanted "" || not (str_eq wanted channel)
      then rest
      else if not (matches_account_id b.match_on.account_id account_id)
      then rest
      else b ∷ rest

  abbrev pub matches_peer : RoutePeer → AgentBinding → Bool
  matches_peer peer b = elim b.match_on.peer [
    | none ↦ false
    | some p ↦
        let kind = x.to_lower (x.trim_space p.kind) in
        let id = x.trim_space p.id in
        if str_eq kind "" || str_eq id ""
        then false
        else str_eq kind (x.to_lower peer.kind) && str_eq id peer.id
  ]

  abbrev pub matches_text : String → String → Bool
  matches_text wanted actual =
      let trimmed = x.trim_space wanted in not (str_eq trimmed "") && str_eq trimmed actual

  abbrev pub is_plain : AgentBinding → Bool
  is_plain b =
      is_none b.match_on.peer && str_eq b.match_on.guild_id "" && str_eq b.match_on.team_id ""

  abbrev pub matches_account : AgentBinding → Bool
  matches_account b = not (str_eq (x.trim_space b.match_on.account_id) "*") && is_plain b

  abbrev pub matches_channel : AgentBinding → Bool
  matches_channel b = str_eq (x.trim_space b.match_on.account_id) "*" && is_plain b

  -- The binding for a peer that has an id.
  abbrev pub peer_binding : Option RoutePeer → List AgentBinding → Option AgentBinding
  peer_binding none bs = none
  peer_binding (some peer) bs =
      if str_eq (x.trim_space peer.id) "" then none else find_binding (matches_peer peer) bs

  abbrev pub text_binding :
      (AgentBinding → String) → String → List AgentBinding → Option AgentBinding
  text_binding field id bs =
      if str_eq (x.trim_space id) ""
      then none
      else find_binding (λ b. matches_text (field b) (x.trim_space id)) bs

  unfoldable pub first_default : List AgentConfig → Option String
  unfolding normalize_id
  first_default [] = none
  first_default (a ∷ as_well) =
      let rest = first_default as_well in
      if a.is_default && not (str_eq (x.trim_space a.id) "")
      then some (normalize_agent_id x (x.trim_space a.id))
      else rest

  unfoldable pub resolve_default_agent_id : List AgentConfig → String
  unfolding first_default normalize_id
  resolve_default_agent_id [] = "main"
  resolve_default_agent_id (a ∷ others) = elim (first_default (a ∷ others)) [
    | some id ↦ id
    | none ↦
        if str_eq (x.trim_space a.id) "" then "main" else normalize_agent_id x (x.trim_space a.id)
  ]

  -- Whether a normalised id is that of an agent.
  unfoldable pub has_agent : String → List AgentConfig → Bool
  unfolding normalize_id
  has_agent id [] = false
  has_agent id (a ∷ others) =
      let rest = has_agent id others in if str_eq (normalize_agent_id x a.id) id then true else rest

  unfoldable pub pick_agent_id : List AgentConfig → String → String
  unfolding resolve_default_agent_id has_agent normalize_id
  pick_agent_id agents agent_id =
      let trimmed = x.trim_space agent_id in
      let normalized = normalize_agent_id x trimmed in
      let default = normalize_agent_id x (resolve_default_agent_id agents) in
      if str_eq trimmed "" then default else elim agents [
        | [] ↦ normalized
        | a ∷ others ↦ if has_agent normalized (a ∷ others) then normalized else default
      ]

  -- The agent of the first kind of binding that matches.
  unfoldable pub choose_agent :
      List AgentConfig → List AgentBinding → RouteInput → String × MatchedBy
  unfolding find_binding resolve_default_agent_id
  choose_agent agents bs input = or_agent (peer_binding input.peer bs) binding_peer (
      or_agent (peer_binding input.parent_peer bs) binding_peer_parent (
        or_agent (text_binding (λ b. b.match_on.guild_id) input.guild_id bs) binding_guild (
          or_agent (text_binding (λ b. b.match_on.team_id) input.team_id bs) binding_team (
            or_agent (find_binding matches_account bs) binding_account (
              or_agent (find_binding matches_channel bs) binding_channel
                (resolve_default_agent_id agents, by_default))))))

  unfoldable pub resolve_route : RouteConfig → RouteInput → ResolvedRoute
  unfolding filter_bindings choose_agent pick_agent_id normalize_id build_agent_main_session_key
      build_agent_peer_session_key
  resolve_route cfg input =
      let channel = x.to_lower (x.trim_space input.channel) in
      let account_id = normalize_account_id x input.account_id in
      let chosen =
        choose_agent cfg.agents (filter_bindings channel account_id cfg.bindings) input in
      let agent_id = pick_agent_id cfg.agents chosen.0 in
      record {
        agent_id = agent_id;
        channel = channel;
        account_id = account_id;
        session_key = x.to_lower (
            build_agent_peer_session_key x (record {
              agent_id = agent_id;
              channel = channel;
              account_id = account_id;
              peer = input.peer;
              dm_scope = cfg.dm_scope;
              identity_links = cfg.identity_links;
            }));
        main_session_key = x.to_lower (build_agent_main_session_key x agent_id);
        matched_by = chosen.1;
      }
