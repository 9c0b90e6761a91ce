-- ===== src/Routing/Tier.antt =====
-- pkg/routing/tier.go, and the boundaries that pkg/agent/instance.go makes: the tier of a score. `F`
-- is the type of the Go floats. The texts of errors are left out.
pub mod Cutpoints
use moon_hub.Base.{
  Bool, true, false, not, ◌&&◌, ◌||◌, Option, none, some, List, [], ◌∷◌, if◌then◌else◌,
}

pub record ScoreFloats (F : Type 0) : Type 0 where
  -- `a < b`.
  pub less : F → F → Bool
  -- `a >= b`.
  pub at_least : F → F → Bool
  pub tier_score_min : F
  pub tier_score_max : F
  -- -0.05, 0.15 and 0.35.
  pub simple_moderate : F
  pub moderate_complex : F
  pub complex_reasoning : F

pub data QueryTier : Type 0 where
  tier_simple tier_moderate tier_complex tier_reasoning : QueryTier

pub record TierBoundary (F : Type 0) : Type 0 where
  pub lowest : F
  pub highest : F

pub record TierBoundariesConfig (F : Type 0) : Type 0 where
  pub simple_moderate : Option F
  pub moderate_complex : Option F
  pub complex_reasoning : Option F

abbrev pub all_tiers : List QueryTier
all_tiers = tier_simple ∷ tier_moderate ∷ tier_complex ∷ tier_reasoning ∷ []

abbrev pub or_default : {F : Type 0} → F → Option F → F
or_default d none = d
or_default d (some value) = value

abbrev pub is_set : {F : Type 0} → Option F → Bool
is_set none = false
is_set (some value) = true

abbrev pub has_custom_boundaries : {F : Type 0} → TierBoundariesConfig F → Bool
has_custom_boundaries cfg =
    is_set cfg.simple_moderate || (is_set cfg.moderate_complex || is_set cfg.complex_reasoning)

module _ {F : Type 0} (x : ScoreFloats F) where
  -- The boundaries between three cutpoints.
  abbrev pub boundaries_of : F → F → F → QueryTier → Option (TierBoundary F)
  boundaries_of sm mc cr tier_simple = some (record { lowest = x.tier_score_min; highest = sm })
  boundaries_of sm mc cr tier_moderate = some (record { lowest = sm; highest = mc })
  boundaries_of sm mc cr tier_complex = some (record { lowest = mc; highest = cr })
  boundaries_of sm mc cr tier_reasoning = some (record { lowest = cr; highest = x.tier_score_max })

  abbrev pub default_tier_boundaries : QueryTier → Option (TierBoundary F)
  default_tier_boundaries = boundaries_of x.simple_moderate x.moderate_complex x.complex_reasoning

  -- The first tier in whose boundary a score lies.
  unfoldable pub first_tier :
      F → (QueryTier → Option (TierBoundary F)) → List QueryTier → Option QueryTier
  first_tier score boundaries [] = none
  first_tier score boundaries (tier ∷ tiers) =
      let rest = first_tier score boundaries tiers in
      elim (boundaries tier) [
        | none ↦ rest
        | some b ↦ if x.at_least score b.lowest && x.less score b.highest then some tier else rest
      ]

  -- The tier of a score that lies in no boundary.
  abbrev pub outside_tier : F → Option (TierBoundary F) → QueryTier
  outside_tier score none = tier_simple
  outside_tier score (some b) = if x.at_least score b.lowest then tier_reasoning else tier_simple

  unfoldable pub tier_within : F → (QueryTier → Option (TierBoundary F)) → QueryTier
  unfolding first_tier
  tier_within score boundaries = elim (first_tier score boundaries all_tiers) [
    | some tier ↦ tier
    | none ↦ outside_tier score (boundaries tier_reasoning)
  ]

  unfoldable pub score_to_tier : F → QueryTier
  unfolding tier_within
  score_to_tier score = tier_within score default_tier_boundaries

  -- No boundaries are the nil map.
  unfoldable pub score_to_tier_with_boundaries :
      F → Option (QueryTier → Option (TierBoundary F)) → QueryTier
  unfolding tier_within score_to_tier
  score_to_tier_with_boundaries score none = score_to_tier score
  score_to_tier_with_boundaries score (some boundaries) = tier_within score boundaries

  -- Whether no error is returned.
  unfoldable pub validate_tier_cutpoints : F → F → F → Bool
  validate_tier_cutpoints sm mc cr =
      if x.less sm x.tier_score_min || x.less x.tier_score_max cr
      then false
      else if x.less mc x.tier_score_min || x.less x.tier_score_max mc
      then false
      else x.less sm mc && x.less mc cr

  unfoldable pub convert_tier_boundaries :
      Option (TierBoundariesConfig F) → Option (QueryTier → Option (TierBoundary F))
  unfolding validate_tier_cutpoints
  convert_tier_boundaries none = none
  convert_tier_boundaries (some cfg) =
      let sm = or_default x.simple_moderate cfg.simple_moderate in
      let mc = or_default x.moderate_complex cfg.moderate_complex in
      let cr = or_default x.complex_reasoning cfg.complex_reasoning in
      if not (has_custom_boundaries cfg)
      then none
      else if not (validate_tier_cutpoints sm mc cr)
      then none
      else some (boundaries_of sm mc cr)
