-- ===== src/Tests/Routing.antt =====
-- The routes of pkg/routing at concrete inputs.
use moon_hub.Base.{
  ℕ, ltb, leb, not, String, true, false, Option, none, some, List, [], ◌∷◌, ◌≡◌, refl, arith,
}
use moon_hub.Routing.Tier.{
  ScoreFloats, TierBoundariesConfig, tier_moderate, tier_complex, score_to_tier,
  score_to_tier_with_boundaries, convert_tier_boundaries,
}
use moon_hub.Routing.Tier.Cutpoints.{tier_by_cutpoints, cutpoints, score_to_tier-convert}
use moon_hub.Routing.Keys.{RouteText, RoutePeer, per_channel_peer, normalize_id}
use moon_hub.Routing.Route.{
  AgentConfig, AgentBinding, RouteConfig, RouteInput, by_default, has_agent, resolve_route,
}
use moon_hub.Routing.Route.Agents.{AreStable, resolve_route-has_agent}

-- Texts without blanks and capitals, where every id is valid.
abbrev plain_text : RouteText
plain_text = record {
  to_lower = λ s. s;
  trim_space = λ s. s;
  regex_match = λ pattern s. true;
  replace_all = λ pattern s new. s;
  index = λ s part. none;
}

abbrev two_agents : List AgentConfig
two_agents =
    record { id = "ann"; is_default = false } ∷ record { id = "bob"; is_default = true } ∷ []

abbrev peer_of : String → Option RoutePeer
peer_of id = some (record { kind = "group"; id = id })

-- A binding of the group g1 of irc.
abbrev group_to : String → AgentBinding
group_to agent_id = record {
  agent_id = agent_id;
  match_on = record {
    channel = "irc";
    account_id = "*";
    peer = some (record { kind = "group"; id = "g1" });
    guild_id = "";
    team_id = "";
  };
}

abbrev config_of : List AgentBinding → RouteConfig
config_of bindings = record {
  agents = two_agents;
  bindings = bindings;
  dm_scope = per_channel_peer;
  identity_links = [];
}

abbrev message_from : String → RouteInput
message_from id = record {
  channel = "irc";
  account_id = "";
  peer = peer_of id;
  parent_peer = none;
  guild_id = "";
  team_id = "";
}

bound-run :
    (resolve_route plain_text (config_of (group_to "ann" ∷ [])) (message_from "g1")).agent_id
    ≡ "ann"
unfolding resolve_route
bound-run = refl

bound-key :
    (resolve_route plain_text (config_of (group_to "ann" ∷ [])) (message_from "g1")).session_key
    ≡ "agent:ann:irc:group:g1"
unfolding resolve_route
bound-key = refl

-- A binding to an agent that is not configured falls back to the default.
unknown-run :
    (resolve_route plain_text (config_of (group_to "eve" ∷ [])) (message_from "g1")).agent_id
    ≡ "bob"
unfolding resolve_route
unknown-run = refl

unbound-run :
    (resolve_route plain_text (config_of (group_to "ann" ∷ [])) (message_from "g2")).matched_by
    ≡ by_default
unfolding resolve_route
unbound-run = refl

two_agents-AreStable : AreStable plain_text two_agents
unfolding AreStable normalize_id
two_agents-AreStable = (refl, (refl, tt))

resolve_route-has_agent_example :
    has_agent plain_text
      (resolve_route plain_text (config_of (group_to "eve" ∷ [])) (message_from "g1")).agent_id
      two_agents
    ≡ true
resolve_route-has_agent_example =
    resolve_route-has_agent plain_text (λ s. refl) (refl, refl, refl)
      (config_of (group_to "eve" ∷ [])) (message_from "g1") (λ p. ground (arith, p))
      two_agents-AreStable

-- Scores in hundredths above -1.
abbrev hundredths : ScoreFloats ℕ
hundredths = record {
  less = ltb;
  at_least = λ a b. leb b a;
  tier_score_min = 0;
  tier_score_max = 200;
  simple_moderate = 95;
  moderate_complex = 115;
  complex_reasoning = 135;
}

-- The boundary between moderate and complex is moved to 0.30.
abbrev late_complex : Option (TierBoundariesConfig ℕ)
late_complex =
    some (record { simple_moderate = none; moderate_complex = some 130; complex_reasoning = none })

hundredths-at_least : (a b : ℕ) → leb b a ≡ not (ltb a b)
hundredths-at_least a b = ground arith

hundredths-less : (a b c : ℕ) → ltb a b ≡ true → ltb b c ≡ true → ltb a c ≡ true
hundredths-less a b c h k = ground arith

late_complex-run :
    score_to_tier_with_boundaries hundredths 120 (convert_tier_boundaries hundredths late_complex)
    ≡ tier_moderate
unfolding score_to_tier_with_boundaries convert_tier_boundaries
late_complex-run = refl

default-run : score_to_tier hundredths 120 ≡ tier_complex
unfolding score_to_tier
default-run = refl

score_to_tier-convert_example :
    score_to_tier_with_boundaries hundredths 120 (convert_tier_boundaries hundredths late_complex)
    ≡ tier_by_cutpoints hundredths 120 (cutpoints hundredths late_complex)
score_to_tier-convert_example =
    score_to_tier-convert hundredths hundredths-at_least hundredths-less late_complex 120 refl refl
