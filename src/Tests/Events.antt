-- ===== src/Tests/Events.antt =====
-- The parser and the matcher of pkg/shield at concrete inputs, with text functions that trim nothing
-- and keep the case.
use Prim.Native.String.{◌++◌ as append}
use package.text.Mathlib.Text.{find?}
use moon_hub.Base.{
  ℕ, ◌≤◌, ◌≡◌, refl, String, Bool, true, false, Option, none, some, List, [], ◌∷◌, ◌++◌, All, ltb,
  lookup, str_eq,
}
use moon_hub.Shield.Types.{tool_call, ShieldEvent, ThreatEntry, text}
use moon_hub.Shield.Text.{ShieldText, split}
use moon_hub.Shield.Parser.{
  parse, parse_directives, is_valid_threat, parse_threat_block, is_expired_or_revoked,
}
use moon_hub.Shield.Parser.Loading.{IsLoaded, parse-IsLoaded}
use moon_hub.Shield.Parser.Directives.{parse_directives-joined}
use moon_hub.Shield.Matcher.{
  evaluate_condition, is_scope_compatible, match_tool_call, match_file_path_contains,
}
use moon_hub.Shield.Engine.{is_block, action_priority, add_threat}
use moon_hub.Shield.Engine.Loaded.{evaluate_event}
use moon_hub.Shield.Engine.Loaded.Blocking.{
  applies, evaluate_event-blocks, evaluate_event-add_threat,
}
use moon_hub.Tests.Shield.{confident, vague_threat, two_threats}

abbrev found : Option ℕ → Bool
found none = false
found (some _) = true

-- The fields of the one threat of the file.
abbrev pattern_of : String → String
pattern_of field = append "(?m)^" (append field ":\\s*[\"']?(.+?)[\"']?\\s*$")

abbrev fields : List (String × String)
fields =
    (pattern_of "id", "THREAT-009")
    ∷ (pattern_of "category", "tool")
    ∷ (pattern_of "severity", "high")
    ∷ (pattern_of "confidence", "0.9")
    ∷ (pattern_of "action", "block")
    ∷ (pattern_of "title", "Removal")
    ∷ (pattern_of "expires_at", "later")
    ∷ []

abbrev plain_text : ShieldText ℕ
plain_text = record {
  to_lower = λ s. s;
  to_upper = λ s. s;
  trim_space = λ s. s;
  contains = λ s part. found (find? s part);
  equal_fold = λ s t. str_eq s t;
  find_submatch = λ pattern s. lookup pattern fields;
  find_all = λ pattern s. s ∷ [];
  regex_match = λ pattern s. str_eq pattern s;
  regex_split = λ pattern s. s ∷ [];
  quote_meta = λ s. s;
  replace_all = λ s old new. s;
  parse_float = λ s. some 90;
  zero_float = 0;
  one_float = 100;
  less = λ a b. ltb a b;
  parse_time = λ s. some 50;
}

abbrev run_exec : ShieldEvent
run_exec = record {
  scope = tool_call;
  tool_name = "exec";
  tool_args = ("command", text "rm -r /") ∷ [];
  domain = "";
  secret_path = "";
  skill_name = "";
  input_text = "";
  file_path = "/home/environment";
}

evaluate_event-blocks_example :
    is_block (evaluate_event plain_text confident run_exec two_threats).action ≡ true
unfolding applies is_scope_compatible parse_directives split evaluate_condition match_tool_call
evaluate_event-blocks_example = evaluate_event-blocks plain_text confident run_exec two_threats

evaluate_event-add_threat_example :
    action_priority (evaluate_event plain_text confident run_exec two_threats).action
    ≤ action_priority
        (evaluate_event plain_text confident run_exec (add_threat vague_threat two_threats)).action
evaluate_event-add_threat_example =
    evaluate_event-add_threat plain_text confident run_exec vague_threat two_threats

parse-IsLoaded_example : All (IsLoaded plain_text 20) (parse plain_text 20 "id: THREAT-009")
parse-IsLoaded_example = parse-IsLoaded plain_text 20 "id: THREAT-009"

parse-one : (t : ThreatEntry ℕ) × (parse plain_text 20 "id: THREAT-009" ≡ t ∷ [])
unfolding parse is_valid_threat parse_threat_block lookup is_expired_or_revoked
parse-one = (_, refl)

parse-expired : parse plain_text 60 "id: THREAT-009" ≡ []
unfolding parse is_valid_threat parse_threat_block lookup is_expired_or_revoked
parse-expired = refl

parse_directives-joined-run :
    parse_directives plain_text "BLOCK:tool.call exec\nLOG:tool.call fetch"
    ≡ parse_directives plain_text "BLOCK:tool.call exec"
      ++ parse_directives plain_text "LOG:tool.call fetch"
parse_directives-joined-run =
    parse_directives-joined plain_text refl "BLOCK:tool.call exec" "LOG:tool.call fetch"

-- The path ".env" does not occur in the event's path, and still the condition holds.
evaluate_condition-cut :
    evaluate_condition plain_text "file path contains .env" run_exec
    ≡ some (record { matched_on = "file_path"; match_value = "env" })
unfolding evaluate_condition match_file_path_contains
evaluate_condition-cut = refl
