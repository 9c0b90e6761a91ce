-- ===== src/Providers/Fallback/Candidates.antt =====
-- pkg/providers/fallback.go, `ResolveCandidates`, and pkg/providers/model_ref.go: the list of the
-- models to try. Go's text functions are parameters.
pub mod Keys
use Prim.Native.String.{◌++◌ as append}
use moon_hub.Base.{
  ℕ, ◌+◌, ◌≡◌, refl, sym, ap, ◌∙◌, String, Bool, true, false, not, ◌&&◌, ◌||◌, Option, none, some,
  List, [], ◌∷◌, ◌++◌, map, if◌then◌else◌, str_eq, eq_iff, lookup, insert, lookup-insert, arith,
  inl, inr, Bool-cases, Option-cases,
}
use moon_hub.Providers.Fallback.{FallbackCandidate}

pub record ModelConfig : Type 0 where
  pub primary : String
  pub fallbacks : List String

-- `cut_slash` gives the texts before and behind the first slash, if there is one.
pub record RefText : Type 0 where
  pub to_lower : String → String
  pub trim_space : String → String
  pub cut_slash : String → Option (String × String)

pub record ModelRef : Type 0 where
  pub provider : String
  pub model : String

-- The `switch` of `NormalizeProvider`.
abbrev pub canonical : String → String
canonical p =
    if str_eq p "z.ai" || str_eq p "z-ai"
    then "zai"
    else if str_eq p "opencode-zen"
    then "opencode"
    else if str_eq p "qwen"
    then "qwen-portal"
    else if str_eq p "kimi-code"
    then "kimi-coding"
    else if str_eq p "gpt"
    then "openai"
    else if str_eq p "claude"
    then "anthropic"
    else if str_eq p "glm"
    then "zhipu"
    else if str_eq p "google"
    then "gemini"
    else p

-- `seen[key]`.
abbrev pub is_seen : String → List (String × Bool) → Bool
is_seen key seen = elim (lookup key seen) [ none ↦ false | some b ↦ b ]

module _ (x : RefText) where
  unfoldable pub normalize_provider : String → String
  normalize_provider provider = canonical (x.to_lower (x.trim_space provider))

  unfoldable pub model_key : String → String → String
  unfolding normalize_provider
  model_key provider model =
      append (normalize_provider provider) (append "/" (x.to_lower (x.trim_space model)))

  abbrev pub with_default : String → String → ModelRef
  with_default raw default = record { provider = normalize_provider default; model = raw }

  -- The raw text is trimmed. A slash at its start does not cut it.
  abbrev pub parse_trimmed : String → String → Option ModelRef
  parse_trimmed raw default = if str_eq raw "" then none else elim (x.cut_slash raw) [
    | none ↦ some (with_default raw default)
    | some (before, behind) ↦
        let model = x.trim_space behind in
        if str_eq before ""
        then some (with_default raw default)
        else if str_eq model ""
        then none
        else some (record { provider = normalize_provider before; model = model })
  ]

  unfoldable pub parse_model_ref : String → String → Option ModelRef
  unfolding normalize_provider
  parse_model_ref raw default = parse_trimmed (x.trim_space raw) default

  -- `resolved` is the argument `lookup`; a nil one resolves nothing.
  abbrev pub candidate_raw : (String → Option String) → String → String
  candidate_raw resolved raw =
      let trimmed = x.trim_space raw in elim (resolved trimmed) [ none ↦ trimmed | some r ↦ r ]

  abbrev pub ref_key : ModelRef → String
  ref_key ref = model_key ref.provider ref.model

  -- `addCandidate`, on the seen keys and the candidates.
  abbrev pub add_ref :
      Option ModelRef
      → List (String × Bool) × List FallbackCandidate
      → List (String × Bool) × List FallbackCandidate
  add_ref none (seen, cs) = (seen, cs)
  add_ref (some ref) (seen, cs) =
      let key = ref_key ref in
      if is_seen key seen then (seen, cs) else (
        insert key true seen,
        cs ++ (record { provider = ref.provider; model = ref.model }) ∷ [],
      )

  abbrev pub parse_raw : (String → Option String) → String → String → Option ModelRef
  parse_raw resolved default raw = parse_model_ref (candidate_raw resolved raw) default

  unfoldable pub add_all :
      (String → Option String)
      → String
      → List String
      → List (String × Bool) × List FallbackCandidate
      → List (String × Bool) × List FallbackCandidate
  add_all resolved default [] acc = acc
  add_all resolved default (raw ∷ raws) acc =
      add_all resolved default raws (add_ref (parse_raw resolved default raw) acc)

  unfoldable pub resolve_candidates_with_lookup :
      ModelConfig → String → (String → Option String) → List FallbackCandidate
  unfolding add_all
  resolve_candidates_with_lookup cfg default resolved =
      (add_all resolved default (cfg.primary ∷ cfg.fallbacks) ([], [])).1

  unfoldable pub resolve_candidates : ModelConfig → String → List FallbackCandidate
  unfolding resolve_candidates_with_lookup
  resolve_candidates cfg default = resolve_candidates_with_lookup cfg default (λ _. none)
