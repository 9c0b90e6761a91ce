-- ===== src/Shield/Matcher.antt =====
-- pkg/shield/matcher.go: the conditions of the threats against an event.
use Prim.Native.String.{◌++◌ as append}
use moon_hub.Base.{
  String, Bool, true, false, not, ◌&&◌, ◌||◌, Option, none, some, List, [], ◌∷◌, ◌++◌, map,
  if◌then◌else◌, str_eq, lookup,
}
use moon_hub.Shield.Types.{
  ShieldScope, tool_call, skill_install, skill_execute, network_egress, secrets_read,
  ThreatCategory, tool, skill, memory, network, message, misc, Directive, ThreatEntry, ArgValue,
  text, printed, ShieldEvent, MatchResult,
}
use moon_hub.Shield.Text.{ShieldText, has_prefix, cut, split}
use moon_hub.Shield.Parser.{parse_directives}

-- What matched and the value; none is a nil `*matchInfo`.
pub record MatchInfo : Type 0 where
  pub matched_on : String
  pub match_value : String

abbrev pub info_if : Bool → String → String → Option MatchInfo
info_if true on value = some (record { matched_on = on; match_value = value })
info_if false on value = none

-- A missing scope or category reads as false.
unfoldable pub is_scope_compatible : ShieldScope → ThreatCategory → Bool
is_scope_compatible tool_call tool = true
is_scope_compatible tool_call ThreatCategory.prompt = true
is_scope_compatible tool_call memory = true
is_scope_compatible tool_call ThreatCategory.file = true
is_scope_compatible skill_install skill = true
is_scope_compatible skill_execute skill = true
is_scope_compatible skill_execute tool = true
is_scope_compatible network_egress network = true
is_scope_compatible secrets_read tool = true
is_scope_compatible secrets_read ThreatCategory.file = true
is_scope_compatible secrets_read misc = true
is_scope_compatible ShieldScope.prompt ThreatCategory.prompt = true
is_scope_compatible ShieldScope.prompt message = true
is_scope_compatible _ _ = false

abbrev pub value_text : ArgValue → String
value_text (text s) = s
value_text (printed s) = s

unfoldable pub args_to_string : List (String × ArgValue) → String
args_to_string [] = ""
args_to_string ((key, value) ∷ args) =
    append key (append "=" (append (value_text value) (append " " (args_to_string args))))

-- The value of an argument that is a string and not empty.
abbrev pub path_text : Option ArgValue → Option String
path_text (some (text s)) = if str_eq s "" then none else some s
path_text _ = none

abbrev pub path_keys : List String
path_keys = "path" ∷ "file_path" ∷ "filepath" ∷ "file" ∷ "filename" ∷ "target" ∷ "destination" ∷ []

unfoldable pub first_path : List String → List (String × ArgValue) → String
first_path [] args = ""
first_path (key ∷ keys) args = elim (path_text (lookup key args)) [
  | none ↦ first_path keys args
  | some s ↦ s
]

unfoldable pub get_file_path_from_args : List (String × ArgValue) → String
unfolding first_path
get_file_path_from_args args = first_path path_keys args

module _ {F : Type 0} (x : ShieldText F) where
  -- `strings.Contains(strings.ToLower(whole), strings.ToLower(part))`.
  abbrev pub contains_fold : String → String → Bool
  contains_fold whole part = x.contains (x.to_lower whole) (x.to_lower part)

  unfoldable pub match_tool_call : String → ShieldEvent → Option MatchInfo
  match_tool_call pattern ev =
      if str_eq ev.tool_name ""
      then none
      else info_if
          (str_eq (x.to_lower ev.tool_name) (x.to_lower pattern)
            || contains_fold ev.tool_name pattern)
          "tool_name" ev.tool_name

  -- The parts that are not empty once trimmed.
  unfoldable pub clean_parts : List String → List String
  clean_parts [] = []
  clean_parts (part ∷ parts) =
      let rest = clean_parts parts in
      if str_eq (x.trim_space part) "" then rest else x.trim_space part ∷ rest

  unfoldable pub extract_patterns_from_parens : String → List String
  unfolding clean_parts
  extract_patterns_from_parens s = elim (x.find_submatch "\\(([^)]+)\\)" s) [
    | none ↦ if str_eq s "" then [] else s ∷ []
    | some inner ↦ clean_parts (split "," inner)
  ]

  unfoldable pub split_by_or : String → List String
  unfolding clean_parts
  split_by_or s = clean_parts (x.regex_split "(?i)\\s+or\\s+" s)

  -- The first pattern that the text contains, whatever the case.
  unfoldable pub first_contained : String → String → List String → Option MatchInfo
  first_contained on whole [] = none
  first_contained on whole (pattern ∷ patterns) =
      let rest = first_contained on whole patterns in
      if contains_fold whole pattern
      then some (record { matched_on = on; match_value = pattern })
      else rest

  unfoldable pub match_tool_args_containing : String → ShieldEvent → Option MatchInfo
  unfolding first_contained extract_patterns_from_parens args_to_string
  match_tool_args_containing patterns ev = elim ev.tool_args [
    | [] ↦ none
    | arg ∷ args ↦
        first_contained "tool_args" (args_to_string (arg ∷ args))
          (extract_patterns_from_parens patterns)
  ]

  unfoldable pub match_skill_name_equals : String → ShieldEvent → Option MatchInfo
  match_skill_name_equals value ev =
      if str_eq ev.skill_name ""
      then none
      else info_if (x.equal_fold ev.skill_name value) "skill_name" ev.skill_name

  unfoldable pub match_skill_name_contains : String → ShieldEvent → Option MatchInfo
  match_skill_name_contains value ev =
      if str_eq ev.skill_name ""
      then none
      else info_if (contains_fold ev.skill_name value) "skill_name" value

  unfoldable pub match_outbound_request : String → ShieldEvent → Option MatchInfo
  unfolding first_contained split_by_or
  match_outbound_request pattern ev =
      if str_eq ev.domain ""
      then none
      else first_contained "domain" ev.domain (map x.trim_space (split_by_or pattern))

  -- The path of the arguments is never read here: the event's own path is not empty.
  unfoldable pub match_file_path_equals : String → ShieldEvent → Option MatchInfo
  match_file_path_equals path ev =
      if str_eq ev.file_path ""
      then none
      else info_if (x.equal_fold ev.file_path path) "file_path" ev.file_path

  abbrev pub or_match : Option MatchInfo → Option MatchInfo → Option MatchInfo
  or_match none other = other
  or_match (some m) other = some m

  unfoldable pub match_file_path_contains : String → ShieldEvent → Option MatchInfo
  unfolding get_file_path_from_args
  match_file_path_contains path ev =
      let arg = get_file_path_from_args ev.tool_args in
      or_match
        (info_if (not (str_eq ev.file_path "") && contains_fold ev.file_path path) "file_path" path)
        (info_if (not (str_eq arg "") && contains_fold arg path) "file_path" path)

  unfoldable pub match_secrets_path_equals : String → ShieldEvent → Option MatchInfo
  match_secrets_path_equals path ev =
      let pattern = append "^" (append (x.quote_meta path) "$") in
      if str_eq ev.secret_path ""
      then none
      else if x.contains path "*"
      then info_if (x.regex_match (x.replace_all pattern "\\*" ".*") ev.secret_path) "secret_path"
          ev.secret_path
      else info_if (x.equal_fold ev.secret_path path) "secret_path" ev.secret_path

  unfoldable pub match_incoming_message_contains : String → ShieldEvent → Option MatchInfo
  match_incoming_message_contains part ev =
      if str_eq ev.input_text ""
      then none
      else info_if (contains_fold ev.input_text part) "input_text" part

  -- The tests of `evaluateCondition`, on the trimmed condition and its lower case.
  unfoldable pub dispatch : String → String → ShieldEvent → Option MatchInfo
  dispatch condition lower ev =
      if str_eq condition ""
      then none
      else if has_prefix lower "tool.call with arguments containing "
      then match_tool_args_containing (x.trim_space (cut 36 condition)) ev
      else if has_prefix lower "tool.call "
      then match_tool_call (x.trim_space (cut 10 condition)) ev
      else if has_prefix lower "skill name equals "
      then match_skill_name_equals (x.trim_space (cut 18 condition)) ev
      else if has_prefix lower "skill name contains "
      then match_skill_name_contains (x.trim_space (cut 20 condition)) ev
      else if has_prefix lower "outbound request to "
      then match_outbound_request (x.trim_space (cut 20 condition)) ev
      else if has_prefix lower "file path equals "
      then match_file_path_equals (x.trim_space (cut 17 condition)) ev
      else if has_prefix lower "file path contains "
      then match_file_path_contains (x.trim_space (cut 20 condition)) ev
      else if has_prefix lower "secrets read path equals "
      then match_secrets_path_equals (x.trim_space (cut 25 condition)) ev
      else if has_prefix lower "incoming message contains "
      then match_incoming_message_contains (x.trim_space (cut 26 condition)) ev
      else if has_prefix lower "message contains "
      then match_incoming_message_contains (x.trim_space (cut 17 condition)) ev
      else none

  unfoldable pub evaluate_condition : String → ShieldEvent → Option MatchInfo
  unfolding dispatch
  evaluate_condition condition ev =
      let trimmed = x.trim_space condition in dispatch trimmed (x.to_lower trimmed) ev

  -- The loop over the directives of a threat.
  unfoldable pub match_directives :
      ThreatEntry F → ShieldEvent → List Directive → List (MatchResult F)
  match_directives t ev [] = []
  match_directives t ev (d ∷ ds) =
      let rest = match_directives t ev ds in
      elim (evaluate_condition d.condition ev) [
        | none ↦ rest
        | some m ↦
            record {
              threat = t;
              directive = d;
              matched_on = m.matched_on;
              match_value = m.match_value;
            }
            ∷ rest
      ]

  -- The body of the loop of `MatchEvent`.
  unfoldable pub match_threat : ShieldEvent → ThreatEntry F → List (MatchResult F)
  unfolding match_directives
  match_threat ev t =
      if not (is_scope_compatible ev.scope t.category)
      then []
      else match_directives t ev (parse_directives x t.recommendation_agent)

  unfoldable pub match_event : ShieldEvent → List (ThreatEntry F) → List (MatchResult F)
  unfolding match_threat
  match_event ev [] = []
  match_event ev (t ∷ ts) = match_threat ev t ++ match_event ev ts
