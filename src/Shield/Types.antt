-- ===== src/Shield/Types.antt =====
-- pkg/shield/types.go: the data of the shield. A string type with named constants is a data type
-- whose `other` is any other string. A confidence is a Go float: its type is the parameter `F`.
use moon_hub.Base.{ℕ, String, Bool, Option, List}

pub data ShieldAction : Type 0 where
  block require_approval log other : ShieldAction

pub data ThreatSeverity : Type 0 where
  critical high medium low other : ThreatSeverity

pub data ShieldScope : Type 0 where
  tool_call skill_install skill_execute network_egress secrets_read prompt file : ShieldScope

-- `misc` is the constant `CategoryOther`.
pub data ThreatCategory : Type 0 where
  tool skill memory network message file prompt misc other : ThreatCategory

pub record Directive : Type 0 where
  pub action : ShieldAction
  pub condition : String

pub record ThreatEntry (F : Type 0) : Type 0 where
  pub id : String
  pub fingerprint : String
  pub category : ThreatCategory
  pub severity : ThreatSeverity
  pub confidence : F
  pub action : ShieldAction
  pub title : String
  pub description : String
  pub recommendation_agent : String
  pub expires_at : Option ℕ
  pub revoked : Bool
  pub revoked_at : Option ℕ

-- An argument of a tool, with its text if it is a string, and else what `%v` prints.
pub data ArgValue : Type 0 where
  text : String → ArgValue
  printed : String → ArgValue

-- `tool_args` are in the order in which the map is walked.
pub record ShieldEvent : Type 0 where
  pub scope : ShieldScope
  pub tool_name : String
  pub tool_args : List (String × ArgValue)
  pub domain : String
  pub secret_path : String
  pub skill_name : String
  pub input_text : String
  pub file_path : String

pub record MatchResult (F : Type 0) : Type 0 where
  pub threat : ThreatEntry F
  pub directive : Directive
  pub matched_on : String
  pub match_value : String
