-- ===== src/Shield/Parser/Loading.antt =====
-- pkg/shield/parser.go: the threats that `Parse` returns.
use moon_hub.Base.{
  ℕ, ◌≤◌, ◌≡◌, String, true, false, not, ◌&&◌, ◌||◌, Option, none, some, List, [], ◌∷◌, str_eq, All,
  arith, Bool-cases, inl, inr,
}
use moon_hub.Shield.Types.{ThreatEntry}
use moon_hub.Shield.Text.{ShieldText}
use moon_hub.Shield.Parser.{
  valid_category, valid_severity, valid_action, is_valid_threat, is_expired_or_revoked,
  parse_threat_block, extract_yaml_blocks, parse_blocks, parse,
}

module _ {F : Type 0} (x : ShieldText F) where
  abbrev pub Lives : ℕ → Option ℕ → Type 0
  Lives now none = Unit
  Lives now (some at) = now ≤ at

  pub record IsLoaded (now : ℕ) (t : ThreatEntry F) : Type 0 where
    pub named : str_eq t.id "" ≡ false
    pub titled : str_eq t.title "" ≡ false
    pub known_category : valid_category t.category ≡ true
    pub known_severity : valid_severity t.severity ≡ true
    pub known_action : valid_action t.action ≡ true
    pub not_below : x.less t.confidence x.zero_float ≡ false
    pub not_above : x.less x.one_float t.confidence ≡ false
    pub not_revoked : t.revoked ≡ false
    pub lives : Lives now t.expires_at

  checked-IsLoaded :
      (now : ℕ) (t : ThreatEntry F)
      → (is_valid_threat x t && not (is_expired_or_revoked x now t)) ≡ true
      → IsLoaded now t
  unfolding is_valid_threat is_expired_or_revoked
  checked-IsLoaded now t h = record {
    named = ground arith;
    titled = ground arith;
    known_category = ground arith;
    known_severity = ground arith;
    known_action = ground arith;
    not_below = ground arith;
    not_above = ground arith;
    not_revoked = ground arith;
    lives = ground arith;
  }

  parse_blocks-IsLoaded :
      (now : ℕ) (blocks : List String) → All (IsLoaded now) (parse_blocks x now blocks)
  unfolding parse_blocks
  parse_blocks-IsLoaded now [] = tt
  parse_blocks-IsLoaded now (block ∷ blocks) =
      let t = parse_threat_block x block in
      let rest = parse_blocks-IsLoaded now blocks in
      elim (Bool-cases (not (x.contains block "id:") || not (x.contains block "THREAT-"))) [
        | inl skip ↦ rw (skip, parse_blocks) rest
        | inr look ↦
            elim (Bool-cases (is_valid_threat x t && not (is_expired_or_revoked x now t))) [
              | inl good ↦ rw (look, good, parse_blocks) (checked-IsLoaded now t good, rest)
              | inr bad ↦ rw (look, bad, parse_blocks) rest
            ]
      ]

  -- Every threat of a parsed file has an id and a title, a known category, severity and action and a
  -- confidence that is neither below 0 nor above 1, is not revoked, and has not expired at the time of the parse.
  pub parse-IsLoaded : (now : ℕ) (content : String) → All (IsLoaded now) (parse x now content)
  unfolding parse
  parse-IsLoaded now content = elim (Bool-cases (str_eq content "")) [
    | inl e ↦ rw e tt
    | inr e ↦ rw e (parse_blocks-IsLoaded now (extract_yaml_blocks x content))
  ]
