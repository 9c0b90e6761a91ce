-- ===== src/Shield/Engine/Facts.antt =====
-- pkg/shield/engine.go: the decision against the matches, and the threat list.
use mathlib.Core.List.{Memᴰ}
use moon_hub.Base.{
  ℕ, ◌+◌, ◌≤◌, max, ◌≡◌, ◌≢◌, refl, sym, ap, ◌∙◌, String, Bool, true, false, ◌||◌, ◌&&◌, ◌==◌,
  Option, none, some, List, [], ◌∷◌, ◌++◌, ltb, if◌then◌else◌, str_eq, eq_iff, length, All, arith,
  ◌⊎◌, inl, inr, Bool-cases,
}
use moon_hub.Zones
use moon_hub.Zones.{Zone, Relationship, AccessLevel}
use moon_hub.Shield.Engine.{
  ShieldAction, block, log, ShieldScope, action_priority, is_block, is_critical, ThreatEntry,
  MatchResult, ShieldEngine, add_threat, remove_first, remove_threat, get_threat_count,
  apply_confidence_threshold, strongest, evaluate, evaluate_zone_access, match_decision, on_matches,
  decide,
}

module _ {F : Type 0} (confident : F → Bool) where
  abbrev pub match_action : MatchResult F → ShieldAction
  match_action m = apply_confidence_threshold confident m.threat

  abbrev pub max_priority : List (MatchResult F) → ℕ
  max_priority [] = 0
  max_priority (m ∷ ms) = max (action_priority (match_action m)) (max_priority ms)

  abbrev stronger :
      ShieldAction × Option (MatchResult F) → MatchResult F → ShieldAction × Option (MatchResult F)
  stronger best m =
      if ltb (action_priority best.0) (action_priority (match_action m))
      then (match_action m, some m)
      else best

  stronger-priority :
      (best : ShieldAction × Option (MatchResult F)) (m : MatchResult F)
      → action_priority (stronger best m).0
        ≡ max (action_priority best.0) (action_priority (match_action m))
  stronger-priority best m = ground arith

  stronger-cases :
      (best : ShieldAction × Option (MatchResult F)) (m : MatchResult F)
      → (stronger best m ≡ best) ⊎ (stronger best m ≡ (match_action m, some m))
  stronger-cases best m =
      elim (Bool-cases (ltb (action_priority best.0) (action_priority (match_action m)))) [
        | inl e ↦ inr (rw e)
        | inr e ↦ inl (rw e)
      ]

  strongest-priority :
      (best : ShieldAction × Option (MatchResult F)) (ms : List (MatchResult F))
      → action_priority (strongest confident best ms).0
        ≡ max (action_priority best.0) (max_priority ms)
  unfolding strongest
  strongest-priority best [] = omega arith
  strongest-priority best (m ∷ ms) =
      strongest-priority (stronger best m) ms ∙ ground (arith, stronger-priority best m)

  -- The strongest action is the one at the start, or that of one of the matches.
  strongest-named :
      (best : ShieldAction × Option (MatchResult F)) (ms : List (MatchResult F))
      → (strongest confident best ms ≡ best)
        ⊎ ((m : MatchResult F) × Memᴰ m ms
            × (strongest confident best ms ≡ (match_action m, some m)))
  unfolding strongest
  strongest-named best [] = inl refl
  strongest-named best (m ∷ ms) = elim (strongest-named (stronger best m) ms) [
    | inr (x, i, e) ↦ inr (x, Memᴰ.tail i, e)
    | inl e ↦ elim (stronger-cases best m) [
      | inl k ↦ inl (e ∙ k)
      | inr k ↦ inr (m, Memᴰ.head refl, e ∙ k)
    ]
  ]

  decide-action :
      (scope : ShieldScope) (b : ShieldAction × Option (MatchResult F))
      → (decide confident scope b).action ≡ b.0
  decide-action scope (a, none) = refl
  decide-action scope (a, some m) = refl

  -- The decision has the priority of the strongest match, after the confidence threshold.
  pub evaluate-priority :
      (match_event : List (ThreatEntry F) → List (MatchResult F)) (scope : ShieldScope)
      (t : ThreatEntry F) (ts : List (ThreatEntry F))
      → action_priority (evaluate confident match_event scope (record { threats = t ∷ ts })).action
        ≡ max_priority (match_event (t ∷ ts))
  unfolding evaluate
  evaluate-priority match_event scope t ts = go (match_event (t ∷ ts))
    where
      go :
          (ms : List (MatchResult F))
          → action_priority (on_matches confident scope ms).action ≡ max_priority ms
      go [] = refl
      go (m ∷ ms) =
          ap action_priority (decide-action scope (strongest confident (log, none) (m ∷ ms)))
          ∙ strongest-priority (log, none) (m ∷ ms)
          ∙ omega arith

  -- A match blocks if its threat asks for it and is held with confidence or critical.
  abbrev pub blocks : MatchResult F → Bool
  blocks m =
      is_block m.threat.action && (confident m.threat.confidence || is_critical m.threat.severity)

  abbrev pub any_blocks : List (MatchResult F) → Bool
  any_blocks [] = false
  any_blocks (m ∷ ms) = blocks m || any_blocks ms

  match_action-priority :
      (m : MatchResult F)
      → (action_priority (match_action m) ≤ 2)
        × (blocks m ≡ (action_priority (match_action m) == 2))
  unfolding apply_confidence_threshold
  match_action-priority m = (ground arith, ground arith)

  any_blocks-priority :
      (ms : List (MatchResult F)) → (max_priority ms ≤ 2) × (any_blocks ms ≡ (max_priority ms == 2))
  any_blocks-priority [] = (omega arith, refl)
  any_blocks-priority (m ∷ ms) =
      let h = match_action-priority m in
      let ih = any_blocks-priority ms in (omega (arith, h, ih), ground (arith, h, ih))

  is_block-priority : (a : ShieldAction) → is_block a ≡ (action_priority a == 2)
  is_block-priority a = ground arith

  -- With a threat loaded, the decision blocks exactly when some match has a threat that asks for
  -- blocking and is held with confidence or is critical.
  pub evaluate-blocks :
      (match_event : List (ThreatEntry F) → List (MatchResult F)) (scope : ShieldScope)
      (t : ThreatEntry F) (ts : List (ThreatEntry F))
      → is_block (evaluate confident match_event scope (record { threats = t ∷ ts })).action
        ≡ any_blocks (match_event (t ∷ ts))
  evaluate-blocks match_event scope t ts =
      is_block-priority (evaluate confident match_event scope (record { threats = t ∷ ts })).action
      ∙ ap (λ n. n == 2) (evaluate-priority match_event scope t ts)
      ∙ sym (any_blocks-priority (match_event (t ∷ ts))).1

  on_matches-named :
      (scope : ShieldScope) (ms : List (MatchResult F))
      → (on_matches confident scope ms).action ≢ log
      → (m : MatchResult F) × Memᴰ m ms
        × (on_matches confident scope ms ≡ match_decision scope m (match_action m))
  on_matches-named scope [] h = absurd (h refl)
  on_matches-named scope (x ∷ xs) h = elim (strongest-named (log, none) (x ∷ xs)) [
    | inl e ↦ absurd (h (rw e))
    | inr (m, i, e) ↦ (m, i, ap (decide confident scope) e)
  ]

  -- A decision other than `log` is the report of one of the matches, with that match's action.
  pub evaluate-named :
      (match_event : List (ThreatEntry F) → List (MatchResult F)) (scope : ShieldScope)
      (t : ThreatEntry F) (ts : List (ThreatEntry F))
      → (evaluate confident match_event scope (record { threats = t ∷ ts })).action ≢ log
      → (m : MatchResult F) × Memᴰ m (match_event (t ∷ ts))
        × (evaluate confident match_event scope (record { threats = t ∷ ts })
            ≡ match_decision scope m (match_action m))
  unfolding evaluate
  evaluate-named match_event scope t ts h = on_matches-named scope (match_event (t ∷ ts)) h

module _ {F : Type 0} where
  remove_first-append :
      (t : ThreatEntry F) (ts : List (ThreatEntry F))
      → All (λ u. u.id ≢ t.id) ts
      → remove_first t.id (ts ++ t ∷ []) ≡ (ts, true)
  unfolding remove_first
  remove_first-append t [] h = ground (arith, eq_iff t.id t.id)
  remove_first-append t (u ∷ us) h = ground (arith, eq_iff u.id t.id, remove_first-append t us h.1)

  -- A threat with a new id that is added and removed again leaves the engine as it was.
  pub remove_threat-add_threat :
      (t : ThreatEntry F) (e : ShieldEngine F)
      → All (λ u. u.id ≢ t.id) e.threats
      → remove_threat t.id (add_threat t e) ≡ (e, true)
  unfolding remove_threat add_threat
  remove_threat-add_threat t e h = ground (arith, remove_first-append t e.threats h)

  abbrev pub has_id : String → List (ThreatEntry F) → Bool
  has_id id [] = false
  has_id id (t ∷ ts) = str_eq t.id id || has_id id ts

  remove_first-count :
      (id : String) (ts : List (ThreatEntry F))
      → ((remove_first id ts).1 ≡ has_id id ts)
        × (length (remove_first id ts).0 + (if has_id id ts then 1 else 0) ≡ length ts)
  unfolding remove_first
  remove_first-count id [] = (refl, omega arith)
  remove_first-count id (t ∷ ts) = let ih = remove_first-count id ts in ground (arith, ih)

  -- A removal succeeds exactly when the id is there, and then drops exactly one threat.
  pub remove_threat-count :
      (id : String) (e : ShieldEngine F)
      → ((remove_threat id e).1 ≡ has_id id e.threats)
        × (get_threat_count (remove_threat id e).0 + (if has_id id e.threats then 1 else 0)
            ≡ get_threat_count e)
  unfolding remove_threat get_threat_count
  remove_threat-count id e = remove_first-count id e.threats

-- Access to a zone is blocked exactly when the zone does not allow it, and only logged otherwise.
evaluate_zone_access-action :
    (zone : Zone) (rel : Relationship) (access : AccessLevel) (resource : String)
    → (evaluate_zone_access zone rel access resource).action
      ≡ (if Zones.allow zone rel access then log else block)
unfolding evaluate_zone_access
evaluate_zone_access-action zone rel access resource = ground arith
