-- ===== src/Shield/Engine/Loaded.antt =====
-- pkg/shield/engine.go: the engine with its parser and its matcher.
pub mod Blocking
use moon_hub.Base.{ℕ, String, Bool, List, []}
use moon_hub.Shield.Types.{ThreatEntry, ShieldEvent}
use moon_hub.Shield.Text.{ShieldText}
use moon_hub.Shield.Parser.{parse}
use moon_hub.Shield.Matcher.{match_event}
use moon_hub.Shield.Engine.{ShieldEngine, ShieldDecision, evaluate}

module _ {F : Type 0} (x : ShieldText F) where
  unfoldable pub new_engine : ℕ → String → ShieldEngine F
  unfolding parse
  new_engine now content = record { threats = parse x now content }

  unfoldable pub reload : ℕ → String → ShieldEngine F → ShieldEngine F
  unfolding parse
  reload now content e = record { threats = parse x now content }

  -- `Evaluate` with the matcher of the engine.
  unfoldable pub evaluate_event : (F → Bool) → ShieldEvent → ShieldEngine F → ShieldDecision
  unfolding evaluate match_event
  evaluate_event confident ev e = evaluate confident (match_event x ev) ev.scope e
