-- ===== src/Providers/Fallback/Candidates/Keys.antt =====
-- The candidates of `ResolveCandidates` by their keys.
use moon_hub.Base.{
  ℕ, ◌+◌, ◌≡◌, refl, String, Bool, true, false, ◌||◌, Option, none, some, List, [], ◌∷◌, ◌++◌,
  if◌then◌else◌, str_eq, eq_iff, lookup, insert, lookup-insert, arith,
}
use moon_hub.Providers.Fallback.{FallbackCandidate}
use moon_hub.Providers.Fallback.Candidates.{
  ModelConfig, RefText, ModelRef, is_seen, model_key, ref_key, add_ref, parse_raw, add_all,
  resolve_candidates_with_lookup,
}

module _ (x : RefText) (key : String) where
  -- How many candidates have the key.
  unfoldable pub key_count : List FallbackCandidate → ℕ
  key_count [] = 0
  key_count (c ∷ cs) =
      let rest = key_count cs in
      if str_eq (model_key x c.provider c.model) key then 1 + rest else rest

  abbrev pub has_ref_key : Option ModelRef → Bool
  has_ref_key none = false
  has_ref_key (some ref) = str_eq (ref_key x ref) key

  -- One of the raw names parses to a reference with the key.
  abbrev pub is_named : (String → Option String) → String → List String → Bool
  is_named resolved default [] = false
  is_named resolved default (raw ∷ raws) =
      has_ref_key (parse_raw x resolved default raw) || is_named resolved default raws

  key_count-snoc :
      (cs : List FallbackCandidate) (c : FallbackCandidate)
      → key_count (cs ++ c ∷ [])
        ≡ key_count cs + (if str_eq (model_key x c.provider c.model) key then 1 else 0)
  unfolding key_count
  key_count-snoc [] c = ground arith
  key_count-snoc (d ∷ cs) c = ground (arith, key_count-snoc cs c)

  is_seen-insert :
      (k : String) (seen : List (String × Bool))
      → is_seen key (insert k true seen) ≡ (if str_eq k key then true else is_seen key seen)
  is_seen-insert k seen = ground (arith, lookup-insert k key true seen)

  add_ref-seen :
      (o : Option ModelRef) (acc : List (String × Bool) × List FallbackCandidate)
      → is_seen key (add_ref x o acc).0 ≡ (has_ref_key o || is_seen key acc.0)
  add_ref-seen none (seen, cs) = refl
  add_ref-seen (some ref) (seen, cs) =
      ground (arith, is_seen-insert (ref_key x ref) seen, eq_iff (ref_key x ref) key)

  -- A key is seen exactly when one candidate has it, and no key twice.
  abbrev Counted : List (String × Bool) × List FallbackCandidate → Type 0
  Counted acc = key_count acc.1 ≡ (if is_seen key acc.0 then 1 else 0)

  add_ref-Counted :
      (o : Option ModelRef) (acc : List (String × Bool) × List FallbackCandidate)
      → Counted acc
      → Counted (add_ref x o acc)
  add_ref-Counted none (seen, cs) h = h
  add_ref-Counted (some ref) (seen, cs) h = ground (
    arith,
    is_seen-insert (ref_key x ref) seen,
    eq_iff (ref_key x ref) key,
    key_count-snoc cs (record { provider = ref.provider; model = ref.model }),
  )

  add_all-count :
      (resolved : String → Option String) (default : String) (raws : List String)
      (acc : List (String × Bool) × List FallbackCandidate)
      → Counted acc
      → key_count (add_all x resolved default raws acc).1
        ≡ (if is_named resolved default raws || is_seen key acc.0 then 1 else 0)
  unfolding add_all
  add_all-count resolved default [] acc h = h
  add_all-count resolved default (raw ∷ raws) acc h =
      let o = parse_raw x resolved default raw in
      ground (
        arith,
        add_ref-seen o acc,
        add_all-count resolved default raws (add_ref x o acc) (add_ref-Counted o acc h),
      )

  -- Every model that the configuration names, as the primary or a fallback, is a candidate exactly
  -- once, counted by its key, and no other model is.
  pub key_count-resolve_candidates :
      (cfg : ModelConfig) (default : String) (resolved : String → Option String)
      → key_count (resolve_candidates_with_lookup x cfg default resolved)
        ≡ (if is_named resolved default (cfg.primary ∷ cfg.fallbacks) then 1 else 0)
  unfolding resolve_candidates_with_lookup key_count lookup
  key_count-resolve_candidates cfg default resolved =
      ground (arith, add_all-count resolved default (cfg.primary ∷ cfg.fallbacks) ([], []) refl)
