-- ===== src/Routing/Route/Agents.antt =====
-- pkg/routing/route.go: the agent that a route names.
use moon_hub.Base.{
  String, true, ◌≢◌, Option, none, some, List, [], ◌∷◌, ◌≡◌, refl, if◌then◌else◌, str_eq, eq_iff,
  arith,
}
use moon_hub.Routing.Keys.{RouteText, normalize_id, normalize_agent_id, normalize_account_id}
use moon_hub.Routing.Route.{
  AgentConfig, RouteConfig, RouteInput, first_default, resolve_default_agent_id, has_agent,
  pick_agent_id, choose_agent, filter_bindings, resolve_route,
}

module _ (x : RouteText) where
  -- Every agent's id is normalised to one that normalising leaves as it is.
  unfoldable pub AreStable : List AgentConfig → Type 0
  unfolding normalize_id
  AreStable [] = Unit
  AreStable (a ∷ others) =
      (normalize_agent_id x (normalize_agent_id x a.id) ≡ normalize_agent_id x a.id)
      × AreStable others

  -- The id main is trimmed, in lower case and valid.
  abbrev pub KeepsMain : Type 0
  KeepsMain =
      (x.trim_space "main" ≡ "main")
      × (x.to_lower "main" ≡ "main")
      × (x.regex_match "^[a-z0-9][a-z0-9_-]{0,63}$" "main" ≡ true)

  module _ (trims : (s : String) → x.trim_space (x.trim_space s) ≡ x.trim_space s) where
    normalize_id-trim :
        (default id : String) → normalize_id x default (x.trim_space id) ≡ normalize_id x default id
    unfolding normalize_id
    normalize_id-trim default id = rw (trims id) refl

    has_agent-first_default :
        (id : String) (agents : List AgentConfig)
        → AreStable agents
        → first_default x agents ≡ some id
        → has_agent x (normalize_agent_id x id) agents ≡ true
    unfolding first_default has_agent AreStable
    has_agent-first_default id [] stable found = ground arith
    has_agent-first_default id (a ∷ others) stable found =
        let same = normalize_id-trim "main" a.id in
        let kept = stable.0 in
        ground (
          arith,
          has_agent-first_default id others stable.1,
          eq_iff (normalize_agent_id x a.id) (normalize_agent_id x id),
        )

    module _ (keeps : KeepsMain) where
      normalize_id-main : normalize_agent_id x "main" ≡ "main"
      unfolding normalize_id
      normalize_id-main = rw keeps.0 (rw keeps.1 (rw keeps.2 refl))

      normalize_id-blank :
          (id : String) → str_eq (x.trim_space id) "" ≡ true → normalize_agent_id x id ≡ "main"
      unfolding normalize_id
      normalize_id-blank id blank = rw blank refl

      -- The agent that is taken where none is the default.
      abbrev first_id : AgentConfig → String
      first_id a =
          if str_eq (x.trim_space a.id) "" then "main" else normalize_agent_id x (x.trim_space a.id)

      has_agent-first_id :
          (a : AgentConfig) (others : List AgentConfig)
          → AreStable (a ∷ others)
          → has_agent x (normalize_agent_id x (first_id a)) (a ∷ others) ≡ true
      unfolding has_agent AreStable
      has_agent-first_id a others stable =
          let same = normalize_id-trim "main" a.id in
          let kept = stable.0 in
          let main_kept = normalize_id-main in
          ground (
            arith,
            normalize_id-blank a.id,
            eq_iff (normalize_agent_id x a.id) (normalize_agent_id x (first_id a)),
          )

      has_agent-or_first :
          (agents : List AgentConfig) (fallback : String) (found : Option String)
          → ((id : String) → found ≡ some id → has_agent x (normalize_agent_id x id) agents ≡ true)
          → has_agent x (normalize_agent_id x fallback) agents ≡ true
          → has_agent x
              (normalize_agent_id x (elim found [ some id ↦ id | none ↦ fallback ]))
              agents
            ≡ true
      has_agent-or_first agents fallback none one other = other
      has_agent-or_first agents fallback (some id) one other = one id refl

      has_agent-default :
          (a : AgentConfig) (others : List AgentConfig)
          → AreStable (a ∷ others)
          → has_agent x
              (normalize_agent_id x (resolve_default_agent_id x (a ∷ others)))
              (a ∷ others)
            ≡ true
      unfolding resolve_default_agent_id
      has_agent-default a others stable =
          has_agent-or_first (a ∷ others) (first_id a) (first_default x (a ∷ others))
            (λ id found. has_agent-first_default id (a ∷ others) stable found)
            (has_agent-first_id a others stable)

      has_agent-pick :
          (agents : List AgentConfig) (agent_id : String)
          → agents ≢ []
          → AreStable agents
          → has_agent x (pick_agent_id x agents agent_id) agents ≡ true
      unfolding pick_agent_id
      has_agent-pick [] agent_id some_agent stable = ground (arith, some_agent refl)
      has_agent-pick (a ∷ others) agent_id some_agent stable =
          ground (arith, has_agent-default a others stable)

      -- Where trimming twice is trimming once, the id main is trimmed, in lower case and valid, and
      -- the id of every agent is normalised to one that normalising leaves as it is: with agents
      -- configured, whatever the bindings name, ResolveRoute gives the normalised id of one of the
      -- agents.
      pub resolve_route-has_agent :
          (cfg : RouteConfig) (input : RouteInput)
          → cfg.agents ≢ []
          → AreStable cfg.agents
          → has_agent x (resolve_route x cfg input).agent_id cfg.agents ≡ true
      unfolding resolve_route
      resolve_route-has_agent cfg input some_agent stable =
          has_agent-pick cfg.agents
            (choose_agent x cfg.agents
              (filter_bindings x (x.to_lower (x.trim_space input.channel))
                (normalize_account_id x input.account_id) cfg.bindings)
              input).0
            some_agent stable
