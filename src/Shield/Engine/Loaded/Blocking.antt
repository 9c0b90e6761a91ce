-- ===== src/Shield/Engine/Loaded/Blocking.antt =====
-- pkg/shield/engine.go and matcher.go: what the loaded threats decide.
use moon_hub.Base.{
  ◌≤◌, max, ◌≡◌, refl, sym, ap, ◌∙◌, Bool, true, false, ◌&&◌, ◌||◌, Option, none, some, List, [],
  ◌∷◌, ◌++◌, arith, append_assoc,
}
use moon_hub.Shield.Types.{Directive, ThreatEntry, ShieldEvent, MatchResult}
use moon_hub.Shield.Text.{ShieldText}
use moon_hub.Shield.Parser.{parse_directives}
use moon_hub.Shield.Matcher.{
  is_scope_compatible, evaluate_condition, match_directives, match_threat, match_event, MatchInfo,
}
use moon_hub.Shield.Engine.{
  ShieldEngine, evaluate, action_priority, is_block, is_critical, add_threat,
}
use moon_hub.Shield.Engine.Facts.{any_blocks, max_priority, evaluate-blocks, evaluate-priority}
use moon_hub.Shield.Engine.Loaded.{evaluate_event}

module _ {F : Type 0} (x : ShieldText F) (confident : F → Bool) where
  abbrev pub holds : Option MatchInfo → Bool
  holds none = false
  holds (some _) = true

  -- One of the directives has a condition that holds.
  abbrev pub any_holds : ShieldEvent → List Directive → Bool
  any_holds ev [] = false
  any_holds ev (d ∷ ds) = holds (evaluate_condition x d.condition ev) || any_holds ev ds

  -- The threat is about the event's scope, and one of its conditions holds.
  unfoldable pub applies : ShieldEvent → ThreatEntry F → Bool
  applies ev t =
      is_scope_compatible ev.scope t.category
      && any_holds ev (parse_directives x t.recommendation_agent)

  -- The threat asks for blocking, and is held with confidence or is critical.
  abbrev pub asks_block : ThreatEntry F → Bool
  asks_block t = is_block t.action && (confident t.confidence || is_critical t.severity)

  abbrev pub any_applies : ShieldEvent → List (ThreatEntry F) → Bool
  any_applies ev [] = false
  any_applies ev (t ∷ ts) = applies ev t && asks_block t || any_applies ev ts

  any_blocks-append :
      (ms ns : List (MatchResult F))
      → any_blocks confident (ms ++ ns) ≡ (any_blocks confident ms || any_blocks confident ns)
  any_blocks-append [] ns = refl
  any_blocks-append (m ∷ ms) ns = ground (arith, any_blocks-append ms ns)

  any_blocks-match_directives :
      (ev : ShieldEvent) (t : ThreatEntry F) (ds : List Directive)
      → any_blocks confident (match_directives x t ev ds) ≡ (any_holds ev ds && asks_block t)
  unfolding match_directives
  any_blocks-match_directives ev t [] = refl
  any_blocks-match_directives ev t (d ∷ ds) = ground (arith, any_blocks-match_directives ev t ds)

  any_blocks-match_threat :
      (ev : ShieldEvent) (t : ThreatEntry F)
      → any_blocks confident (match_threat x ev t) ≡ (applies ev t && asks_block t)
  unfolding match_threat applies
  any_blocks-match_threat ev t =
      ground (arith, any_blocks-match_directives ev t (parse_directives x t.recommendation_agent))

  any_blocks-match_event :
      (ev : ShieldEvent) (ts : List (ThreatEntry F))
      → any_blocks confident (match_event x ev ts) ≡ any_applies ev ts
  unfolding match_event
  any_blocks-match_event ev [] = refl
  any_blocks-match_event ev (t ∷ ts) =
      any_blocks-append (match_threat x ev t) (match_event x ev ts)
      ∙ ground (arith, any_blocks-match_threat ev t, any_blocks-match_event ev ts)

  -- `Evaluate` blocks an event exactly when some loaded threat is about its scope, has a condition
  -- that holds, asks for blocking, and is held with confidence or is critical.
  pub evaluate_event-blocks :
      (ev : ShieldEvent) (e : ShieldEngine F)
      → is_block (evaluate_event x confident ev e).action ≡ any_applies ev e.threats
  unfolding evaluate_event
  evaluate_event-blocks ev e = blocks_list e.threats
    where
      blocks_list :
          (ts : List (ThreatEntry F))
          → is_block
              (evaluate confident (match_event x ev) ev.scope (record { threats = ts })).action
            ≡ any_applies ev ts
      blocks_list [] = refl
      blocks_list (t ∷ ts) =
          evaluate-blocks confident (match_event x ev) ev.scope t ts
          ∙ any_blocks-match_event ev (t ∷ ts)

  max_priority-append :
      (ms ns : List (MatchResult F))
      → max_priority confident (ms ++ ns)
        ≡ max (max_priority confident ms) (max_priority confident ns)
  max_priority-append [] ns = omega arith
  max_priority-append (m ∷ ms) ns = omega (arith, max_priority-append ms ns)

  match_event-append :
      (ev : ShieldEvent) (ts us : List (ThreatEntry F))
      → match_event x ev (ts ++ us) ≡ match_event x ev ts ++ match_event x ev us
  unfolding match_event
  match_event-append ev [] us = refl
  match_event-append ev (t ∷ ts) us =
      ap (λ ms. match_threat x ev t ++ ms) (match_event-append ev ts us)
      ∙ sym (append_assoc (match_threat x ev t) (match_event x ev ts) (match_event x ev us))

  evaluate_event-priority :
      (ev : ShieldEvent) (ts : List (ThreatEntry F))
      → action_priority (evaluate_event x confident ev (record { threats = ts })).action
        ≡ max_priority confident (match_event x ev ts)
  unfolding evaluate_event match_event
  evaluate_event-priority ev [] = refl
  evaluate_event-priority ev (t ∷ ts) = evaluate-priority confident (match_event x ev) ev.scope t ts

  -- A threat more never weakens the decision on an event.
  pub evaluate_event-add_threat :
      (ev : ShieldEvent) (t : ThreatEntry F) (e : ShieldEngine F)
      → action_priority (evaluate_event x confident ev e).action
        ≤ action_priority (evaluate_event x confident ev (add_threat t e)).action
  unfolding add_threat
  evaluate_event-add_threat ev t e =
      let ts = e.threats in
      omega (
        arith,
        evaluate_event-priority ev ts,
        evaluate_event-priority ev (ts ++ t ∷ []),
        ap (max_priority confident) (match_event-append ev ts (t ∷ [])),
        max_priority-append (match_event x ev ts) (match_event x ev (t ∷ [])),
      )
