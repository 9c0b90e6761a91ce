-- ===== src/Shield/Parser.antt =====
-- pkg/shield/parser.go: the threats of a SHIELD.md file and the directives of a threat. `now` is the
-- clock reading of the check for expiry.
pub mod Directives
pub mod Loading
use Prim.Native.String.{◌++◌ as append}
use moon_hub.Base.{
  ℕ, String, Bool, true, false, not, ◌&&◌, ◌||◌, Option, none, some, List, [], ◌∷◌, ◌++◌, map, ltb,
  if◌then◌else◌, str_eq,
}
use moon_hub.Shield.Types.{
  ShieldAction, block, require_approval, log, ThreatSeverity, critical, high, medium, low,
  ThreatCategory, tool, skill, memory, network, message, misc, Directive, ThreatEntry,
}
use moon_hub.Shield.Text.{ShieldText, has_prefix, cut, split}

abbrev pub parse_category : String → ThreatCategory
parse_category s =
    if str_eq s "tool"
    then tool
    else if str_eq s "skill"
    then skill
    else if str_eq s "memory"
    then memory
    else if str_eq s "network"
    then network
    else if str_eq s "message"
    then message
    else if str_eq s "file"
    then ThreatCategory.file
    else if str_eq s "prompt"
    then ThreatCategory.prompt
    else if str_eq s "other"
    then misc
    else ThreatCategory.other

abbrev pub parse_severity : String → ThreatSeverity
parse_severity s =
    if str_eq s "critical"
    then critical
    else if str_eq s "high"
    then high
    else if str_eq s "medium"
    then medium
    else if str_eq s "low"
    then low
    else ThreatSeverity.other

abbrev pub parse_action : String → ShieldAction
parse_action s =
    if str_eq s "block"
    then block
    else if str_eq s "require_approval"
    then require_approval
    else if str_eq s "log"
    then log
    else ShieldAction.other

abbrev pub valid_category : ThreatCategory → Bool
valid_category ThreatCategory.other = false
valid_category _ = true

abbrev pub valid_severity : ThreatSeverity → Bool
valid_severity ThreatSeverity.other = false
valid_severity _ = true

abbrev pub valid_action : ShieldAction → Bool
valid_action ShieldAction.other = false
valid_action _ = true

-- The text that a `strings.Builder` holds after the lines of a field.
abbrev pub build_line : Bool → String → String → String
build_line is_blank line rest =
    append (if has_prefix line "  " then cut 2 line else if is_blank then "" else line)
      (if is_blank then rest else append "\n" rest)

module _ {F : Type 0} (x : ShieldText F) where
  unfoldable pub extract_yaml_blocks : String → List String
  extract_yaml_blocks content =
      map x.trim_space (x.find_all "(?s)```(?:yaml|yml)?\n(.*?)```" content)

  abbrev pub trimmed_or_empty : Option String → String
  trimmed_or_empty none = ""
  trimmed_or_empty (some s) = x.trim_space s

  unfoldable pub extract_field : String → String → String
  extract_field text field = trimmed_or_empty (
      x.find_submatch (append "(?m)^" (append (x.quote_meta field) ":\\s*[\"']?(.+?)[\"']?\\s*$"))
        text)

  unfoldable pub build_lines : List String → String
  build_lines [] = ""
  build_lines (line ∷ lines) = build_line (str_eq (x.trim_space line) "") line (build_lines lines)

  abbrev pub lines_of : Option String → String
  lines_of none = ""
  lines_of (some text) = x.trim_space (build_lines (split "\n" text))

  unfoldable pub extract_multiline_field : String → String → String
  unfolding build_lines
  extract_multiline_field text field = lines_of (
      x.find_submatch
        (append "(?ms)^" (append (x.quote_meta field) ":\\s*[|>]\\s*\n((?:  .+\n?)+)")) text)

  -- A field of numbers or times: an empty or malformed text leaves the zero value.
  abbrev pub read_optional {ℓ} : {A : Type ℓ} → (String → Option A) → String → Option A
  read_optional parse s = if str_eq s "" then none else parse s

  abbrev pub float_or_zero : Option F → F
  float_or_zero none = x.zero_float
  float_or_zero (some f) = f

  unfoldable pub parse_threat_block : String → ThreatEntry F
  unfolding extract_field extract_multiline_field
  parse_threat_block text = record {
    id = extract_field text "id";
    fingerprint = extract_field text "fingerprint";
    category = parse_category (extract_field text "category");
    severity = parse_severity (extract_field text "severity");
    confidence = float_or_zero (read_optional x.parse_float (extract_field text "confidence"));
    action = parse_action (extract_field text "action");
    title = extract_field text "title";
    description = extract_field text "description";
    recommendation_agent = extract_multiline_field text "recommendation_agent";
    expires_at = read_optional x.parse_time (extract_field text "expires_at");
    revoked =
        let s = extract_field text "revoked" in
        if str_eq s "" then false else str_eq (x.to_lower s) "true";
    revoked_at = read_optional x.parse_time (extract_field text "revoked_at");
  }

  unfoldable pub is_valid_threat : ThreatEntry F → Bool
  is_valid_threat t =
      if str_eq t.id ""
      then false
      else if not (valid_category t.category)
      then false
      else if not (valid_severity t.severity)
      then false
      else if not (valid_action t.action)
      then false
      else if x.less t.confidence x.zero_float || x.less x.one_float t.confidence
      then false
      else if str_eq t.title ""
      then false
      else true

  unfoldable pub is_expired_or_revoked : ℕ → ThreatEntry F → Bool
  is_expired_or_revoked now t =
      if t.revoked then true else elim t.expires_at [ none ↦ false | some at ↦ ltb at now ]

  -- The loop of `Parse` over the blocks.
  unfoldable pub parse_blocks : ℕ → List String → List (ThreatEntry F)
  parse_blocks now [] = []
  parse_blocks now (text ∷ texts) =
      let rest = parse_blocks now texts in
      let t = parse_threat_block text in
      if not (x.contains text "id:") || not (x.contains text "THREAT-")
      then rest
      else if is_valid_threat t && not (is_expired_or_revoked now t)
      then t ∷ rest
      else rest

  unfoldable pub parse : ℕ → String → List (ThreatEntry F)
  unfolding parse_blocks extract_yaml_blocks
  parse now content =
      if str_eq content "" then [] else parse_blocks now (extract_yaml_blocks content)

  -- A directive, unless its condition is empty.
  abbrev pub directive_of : ShieldAction → String → List Directive
  directive_of action condition =
      if str_eq condition "" then [] else (record { action = action; condition = condition }) ∷ []

  -- The body of the loop of `ParseDirectives`, for a trimmed line.
  unfoldable pub parse_line : String → List Directive
  parse_line line =
      let upper = x.to_upper line in
      if str_eq line ""
      then []
      else if has_prefix upper "BLOCK:"
      then directive_of block (x.trim_space (cut 6 line))
      else if has_prefix upper "APPROVE:"
      then directive_of require_approval (x.trim_space (cut 8 line))
      else if has_prefix upper "LOG:"
      then directive_of log (x.trim_space (cut 4 line))
      else []

  unfoldable pub parse_lines : List String → List Directive
  parse_lines [] = []
  parse_lines (line ∷ lines) = parse_line (x.trim_space line) ++ parse_lines lines

  unfoldable pub parse_directives : String → List Directive
  unfolding parse_line parse_lines
  parse_directives recommendation_agent =
      if str_eq recommendation_agent "" then [] else parse_lines (split "\n" recommendation_agent)
