-- ===== src/Shield/Engine.antt =====
-- pkg/shield/engine.go: the decision on an event. The confidence is a Go float that the engine only
-- compares with the threshold 0.85: its type and that test are parameters. The matches come from
-- `Matcher.MatchEvent`, an argument of `evaluate`.
pub mod Facts
pub mod Loaded
pub use moon_hub.Shield.Types.{
  ShieldAction, block, require_approval, log, ThreatSeverity, critical, high, medium, low,
  ShieldScope, tool_call, skill_install, skill_execute, network_egress, secrets_read, prompt, file,
  Directive, ThreatEntry, MatchResult,
}
use Prim.Native.String.{◌++◌ as append}
use moon_hub.Base.{
  ℕ, String, Bool, true, false, ◌&&◌, Option, none, some, List, [], ◌∷◌, ◌++◌, ltb, if◌then◌else◌,
  str_eq, length, not,
}
use moon_hub.Zones
use moon_hub.Zones.{Zone, Relationship, AccessLevel}

-- `ActionPriority`; a missing key reads as 0.
abbrev pub action_priority : ShieldAction → ℕ
action_priority log = 0
action_priority require_approval = 1
action_priority block = 2
action_priority ShieldAction.other = 0

abbrev pub is_block : ShieldAction → Bool
is_block block = true
is_block _ = false

abbrev pub is_log : ShieldAction → Bool
is_log log = true
is_log _ = false

abbrev pub is_critical : ThreatSeverity → Bool
is_critical critical = true
is_critical _ = false

pub data Reason : Type 0 where
  no_threats_loaded no_threat_matched threat_detected : Reason
  by_threat : ShieldAction → String → String → String → String → Reason
  access_denied access_allowed : Reason

pub record ShieldDecision : Type 0 where
  pub action : ShieldAction
  pub scope : ShieldScope
  pub threat_id : String
  pub fingerprint : String
  pub matched_on : String
  pub match_value : String
  pub reason : Reason

-- The zero value of the fields that a decision with no match leaves out.
abbrev pub plain_decision : ShieldAction → ShieldScope → Reason → ShieldDecision
plain_decision a s r = record {
  action = a;
  scope = s;
  threat_id = "";
  fingerprint = "";
  matched_on = "";
  match_value = "";
  reason = r;
}

pub record ShieldEngine (F : Type 0) : Type 0 where
  pub threats : List (ThreatEntry F)

module _ {F : Type 0} where
  unfoldable pub is_active : ShieldEngine F → Bool
  is_active e = ltb 0 (length e.threats)

  unfoldable pub get_threat_count : ShieldEngine F → ℕ
  get_threat_count e = length e.threats

  unfoldable pub add_threat : ThreatEntry F → ShieldEngine F → ShieldEngine F
  add_threat t e = record { threats = e.threats ++ t ∷ [] }

  unfoldable pub remove_first : String → List (ThreatEntry F) → List (ThreatEntry F) × Bool
  remove_first id [] = ([], false)
  remove_first id (t ∷ ts) =
      let rest = remove_first id ts in if str_eq t.id id then (ts, true) else (t ∷ rest.0, rest.1)

  unfoldable pub remove_threat : String → ShieldEngine F → ShieldEngine F × Bool
  unfolding remove_first
  remove_threat id e = let r = remove_first id e.threats in (record { threats = r.0 }, r.1)

  abbrev pub build_reason : MatchResult F → ShieldAction → Reason
  build_reason m a = by_threat a m.threat.id m.threat.title m.matched_on m.match_value

  abbrev pub match_decision : ShieldScope → MatchResult F → ShieldAction → ShieldDecision
  match_decision scope m a = record {
    action = a;
    scope = scope;
    threat_id = m.threat.id;
    fingerprint = m.threat.fingerprint;
    matched_on = m.matched_on;
    match_value = m.match_value;
    reason = build_reason m a;
  }

  -- `confident c` is the test `c >= ConfidenceThreshold`.
  module _ (confident : F → Bool) where
    unfoldable pub apply_confidence_threshold : ThreatEntry F → ShieldAction
    apply_confidence_threshold t =
        if confident t.confidence
        then t.action
        else if is_critical t.severity && is_block t.action
        then block
        else if is_log t.action
        then log
        else require_approval

    -- The loop over the matches: the strongest action so far and its match.
    unfoldable pub strongest :
        ShieldAction × Option (MatchResult F)
        → List (MatchResult F)
        → ShieldAction × Option (MatchResult F)
    strongest best [] = best
    strongest best (m ∷ ms) =
        let action = apply_confidence_threshold m.threat in
        strongest
          (if ltb (action_priority best.0) (action_priority action) then (action, some m) else best)
          ms

    abbrev pub decide : ShieldScope → ShieldAction × Option (MatchResult F) → ShieldDecision
    decide scope (a, none) = plain_decision a scope threat_detected
    decide scope (a, some m) = match_decision scope m a

    abbrev pub on_matches : ShieldScope → List (MatchResult F) → ShieldDecision
    on_matches scope [] = plain_decision log scope no_threat_matched
    on_matches scope (m ∷ ms) = decide scope (strongest (log, none) (m ∷ ms))

    unfoldable pub evaluate :
        (List (ThreatEntry F) → List (MatchResult F))
        → ShieldScope
        → ShieldEngine F
        → ShieldDecision
    unfolding strongest
    evaluate match_event scope e = elim e.threats [
      | [] ↦ plain_decision log scope no_threats_loaded
      | t ∷ ts ↦ on_matches scope (match_event (t ∷ ts))
    ]

-- The text of the reason is kept as its kind.
unfoldable pub evaluate_zone_access : Zone → Relationship → AccessLevel → String → ShieldDecision
unfolding Zones.allow
evaluate_zone_access zone rel access resource =
    if not (Zones.allow zone rel access)
    then record (plain_decision block file access_denied) {
      matched_on = append "zone:" (Zones.zone_string zone);
      match_value = resource;
    }
    else record (plain_decision log file access_allowed) {
      matched_on = append "zone:" (Zones.zone_string zone);
      match_value = resource;
    }
