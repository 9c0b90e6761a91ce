-- ===== src/Routing/Tier/Cutpoints.antt =====
-- pkg/routing/tier.go: tiers by the three cutpoints.
use moon_hub.Base.{
  Bool, true, false, not, Option, none, some, ◌≡◌, refl, if◌then◌else◌, arith, ◌∙◌, sym, ap, ◌||◌,
}
use moon_hub.Routing.Tier.{
  ScoreFloats, QueryTier, tier_simple, tier_moderate, tier_complex, tier_reasoning,
  TierBoundariesConfig, boundaries_of, tier_within, score_to_tier_with_boundaries,
  validate_tier_cutpoints, convert_tier_boundaries, first_tier, score_to_tier,
  has_custom_boundaries, or_default, is_set,
}

module _ {F : Type 0} (x : ScoreFloats F) where
  -- The three cutpoints of a configuration: its own, if they are valid, and the default ones if not.
  abbrev pub cutpoints : Option (TierBoundariesConfig F) → F × F × F
  cutpoints none = (x.simple_moderate, x.moderate_complex, x.complex_reasoning)
  cutpoints (some cfg) =
      let sm = or_default x.simple_moderate cfg.simple_moderate in
      let mc = or_default x.moderate_complex cfg.moderate_complex in
      let cr = or_default x.complex_reasoning cfg.complex_reasoning in
      if validate_tier_cutpoints x sm mc cr
      then (sm, mc, cr)
      else (x.simple_moderate, x.moderate_complex, x.complex_reasoning)

  abbrev pub tier_by_cutpoints : F → F × F × F → QueryTier
  tier_by_cutpoints score cuts =
      if x.less score cuts.0
      then tier_simple
      else if x.less score cuts.1
      then tier_moderate
      else if x.less score cuts.2
      then tier_complex
      else tier_reasoning

  module _ (is_total : (a b : F) → x.at_least a b ≡ not (x.less a b)) where
    module _
        (chains : (a b c : F) → x.less a b ≡ true → x.less b c ≡ true → x.less a c ≡ true) where
      tier_within-cutpoints :
          (score sm mc cr : F)
          → x.less sm mc ≡ true
          → x.less mc cr ≡ true
          → tier_within x score (boundaries_of x sm mc cr) ≡ tier_by_cutpoints score (sm, mc, cr)
      unfolding tier_within first_tier
      tier_within-cutpoints score sm mc cr first second = ground (
        arith,
        is_total score x.tier_score_min,
        is_total score sm,
        is_total score mc,
        is_total score cr,
        chains score sm mc,
        chains score mc cr,
      )

      cutpoints-rise :
          (sm mc cr : F)
          → validate_tier_cutpoints x sm mc cr ≡ true
          → (x.less sm mc ≡ true) × (x.less mc cr ≡ true)
      unfolding validate_tier_cutpoints
      cutpoints-rise sm mc cr valid = (ground arith, ground arith)

      abbrev defaults : F × F × F
      defaults = (x.simple_moderate, x.moderate_complex, x.complex_reasoning)

      -- A configuration that sets no cutpoint has the default ones.
      unset-defaults :
          (first second third : Option F)
          → (is_set first || (is_set second || is_set third)) ≡ false
          → (
            or_default x.simple_moderate first,
            or_default x.moderate_complex second,
            or_default x.complex_reasoning third,
          )
            ≡ defaults
      unset-defaults none none none h = refl
      unset-defaults (some a) second third h = ground arith
      unset-defaults none (some b) third h = ground arith
      unset-defaults none none (some c) h = ground arith

      by_tests :
          (custom valid : Bool) (score sm mc cr : F)
          → (valid ≡ true
              → tier_within x score (boundaries_of x sm mc cr)
                ≡ tier_by_cutpoints score (sm, mc, cr))
          → (custom ≡ false → (sm, mc, cr) ≡ defaults)
          → score_to_tier x score ≡ tier_by_cutpoints score defaults
          → score_to_tier_with_boundaries x score (
              if not custom
              then none
              else if not valid
              then none
              else some (boundaries_of x sm mc cr))
            ≡ tier_by_cutpoints score (if valid then (sm, mc, cr) else defaults)
      unfolding score_to_tier_with_boundaries
      by_tests false true score sm mc cr own same kept =
          kept ∙ ap (tier_by_cutpoints score) (sym (same refl))
      by_tests false false score sm mc cr own same kept = kept
      by_tests true true score sm mc cr own same kept = own refl
      by_tests true false score sm mc cr own same kept = kept

      score_to_tier-cutpoints :
          (score : F)
          → x.less x.simple_moderate x.moderate_complex ≡ true
          → x.less x.moderate_complex x.complex_reasoning ≡ true
          → score_to_tier x score ≡ tier_by_cutpoints score defaults
      unfolding score_to_tier
      score_to_tier-cutpoints score =
          tier_within-cutpoints score x.simple_moderate x.moderate_complex x.complex_reasoning

      -- Where the floats are numbers in their order, and the default cutpoints rise: the tier of a
      -- score under the configured boundaries, out of range or not, is the one by the cutpoints of
      -- the configuration where they are valid, and by the default cutpoints where not.
      pub score_to_tier-convert :
          (cfg : Option (TierBoundariesConfig F)) (score : F)
          → x.less x.simple_moderate x.moderate_complex ≡ true
          → x.less x.moderate_complex x.complex_reasoning ≡ true
          → score_to_tier_with_boundaries x score (convert_tier_boundaries x cfg)
            ≡ tier_by_cutpoints score (cutpoints cfg)
      unfolding score_to_tier_with_boundaries convert_tier_boundaries
      score_to_tier-convert none score first second = score_to_tier-cutpoints score first second
      score_to_tier-convert (some cfg) score first second =
          let sm = or_default x.simple_moderate cfg.simple_moderate in
          let mc = or_default x.moderate_complex cfg.moderate_complex in
          let cr = or_default x.complex_reasoning cfg.complex_reasoning in
          by_tests (has_custom_boundaries cfg) (validate_tier_cutpoints x sm mc cr) score sm mc cr
            (λ valid.
              let rise = cutpoints-rise sm mc cr valid in
              tier_within-cutpoints score sm mc cr rise.0 rise.1)
            (unset-defaults cfg.simple_moderate cfg.moderate_complex cfg.complex_reasoning)
            (score_to_tier-cutpoints score first second)
