-- ===== src/Delegation/Lifecycle/Reuse.antt =====
-- pkg/delegation/lifecycle.go: the agent that `FindReusable` picks.
use mathlib.Core.List.{Memᴰ}
use moon_hub.Base.{
  ◌≡◌, refl, sym, ap, subst, String, true, false, Option, none, some, List, [], ◌∷◌, if◌then◌else◌,
  arith, All, Bool-cases, ◌⊎◌, inl, inr,
}
use moon_hub.Delegation.Agents.{
  SubAgentRecord, Database, AgentMath, got, active_agents, keyword_overlap_score, parse_json_array,
}
use moon_hub.Delegation.Lifecycle.{DelegationConfig, best_of, find_reusable}

module _ {F : Type 0} (x : AgentMath F) (keywords : List String) where
  abbrev pub score : SubAgentRecord F → F
  score a = keyword_overlap_score x keywords (parse_json_array x a.task_keywords)

  -- The better of the best so far and an agent.
  abbrev better : F × Option (SubAgentRecord F) → SubAgentRecord F → F × Option (SubAgentRecord F)
  better best a = if x.less best.0 (score a) then (score a, some a) else best

  -- What the loop keeps of its start.
  record IsBetter (best : F × Option (SubAgentRecord F)) (rs : List (SubAgentRecord F))
      (result : F × Option (SubAgentRecord F)) : Type 0 where
    above : (c : F) → x.less best.0 c ≡ false → x.less result.0 c ≡ false
    unbeaten : All (λ q. x.less result.0 (score q) ≡ false) rs
    origin :
        (result ≡ best)
        ⊎ ((a : SubAgentRecord F) × Memᴰ a rs
            × (result ≡ (score a, some a))
            × (x.less best.0 (score a) ≡ true))

  -- The agent found is one of them, scores above the threshold and no less than any; none is found
  -- only where none scores above the threshold.
  abbrev pub IsBest : F → List (SubAgentRecord F) → Option (SubAgentRecord F) → Type 0
  IsBest threshold rs none = All (λ q. x.less threshold (score q) ≡ false) rs
  IsBest threshold rs (some a) =
      Memᴰ a rs
      × (x.less threshold (score a) ≡ true)
      × All (λ q. x.less (score a) (score q) ≡ false) rs

  module _ (irreflexive : (a : F) → x.less a a ≡ false)
      (above_too : (a b c : F) → x.less a b ≡ true → x.less a c ≡ false → x.less b c ≡ false) where
    best_of-IsBetter :
        (best : F × Option (SubAgentRecord F)) (rs : List (SubAgentRecord F))
        → IsBetter best rs (best_of x keywords best rs)
    unfolding best_of
    best_of-IsBetter best [] = record { above = λ c h. h; unbeaten = tt; origin = inl refl }
    best_of-IsBetter best (a ∷ rest) = elim (Bool-cases (x.less best.0 (score a))) [
      | inl up ↦
          let ih = best_of-IsBetter (score a, some a) rest in
          rw (up) (record {
            above = λ c h. ih.above c (above_too best.0 (score a) c up h);
            unbeaten = (ih.above (score a) (irreflexive (score a)), ih.unbeaten);
            origin = elim ih.origin [
              | inl e ↦ inr (a, Memᴰ.head refl, e, up)
              | inr (b, i, e, l) ↦
                  inr (b, Memᴰ.tail i, e, ground (arith, above_too best.0 (score a) (score b) up))
            ];
          })
      | inr stay ↦
          let ih = best_of-IsBetter best rest in
          rw (stay) (record {
            above = ih.above;
            unbeaten = (ih.above (score a) stay, ih.unbeaten);
            origin = elim ih.origin [
              | inl e ↦ inl e
              | inr (b, i, e, l) ↦ inr (b, Memᴰ.tail i, e, l)
            ];
          })
    ]

    better-IsBest :
        (threshold : F) (rs : List (SubAgentRecord F)) (result : F × Option (SubAgentRecord F))
        → IsBetter (threshold, none) rs result
        → IsBest threshold rs result.1
    better-IsBest threshold rs result h = elim h.origin [
      | inl e ↦
          subst (IsBest threshold rs) (sym (ap (λ r. r.1) e)) (
            subst (λ best. All (λ q. x.less best (score q) ≡ false) rs) (ap (λ r. r.0) e)
              h.unbeaten)
      | inr (a, i, e, l) ↦ subst (IsBest threshold rs) (sym (ap (λ r. r.1) e)) (
        i,
        l,
        subst (λ best. All (λ q. x.less best (score q) ≡ false) rs) (ap (λ r. r.0) e) h.unbeaten,
      )
    ]

    -- Where no score is less than itself, and a score that is not above another is not above a third
    -- that is above the other: the agent that `FindReusable` finds is an active one of the user, its
    -- score is above the threshold and no active agent of the user has a score above it; and it finds
    -- none, without an error, only where no such score is above the threshold.
    pub find_reusable-IsBest :
        (config : DelegationConfig F) (user : String) (db : Database F)
        (found : Option (SubAgentRecord F))
        → (find_reusable x config user keywords db).1 ≡ got found
        → IsBest config.reuse_threshold (active_agents user db.sub_agents) found
    unfolding find_reusable
    find_reusable-IsBest config user db found e =
        subst (IsBest config.reuse_threshold (active_agents user db.sub_agents)) (grind arith) (
          better-IsBest config.reuse_threshold (active_agents user db.sub_agents)
            (best_of x keywords (config.reuse_threshold, none) (active_agents user db.sub_agents))
            (best_of-IsBetter (config.reuse_threshold, none) (active_agents user db.sub_agents)))
