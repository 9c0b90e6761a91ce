-- ===== src/Tests/Shield.antt =====
-- The shield of pkg/shield and the zones of pkg/zones at concrete inputs.
use moon_hub.Base.{
  ℕ, ◌+◌, ◌≡◌, ◌≢◌, refl, String, Bool, true, false, List, [], ◌∷◌, some, none, arith, leb, lookup,
  insert, eq_iff,
}
use mathlib.Core.List.{Memᴰ}
use moon_hub.Zones.{shared, public, friend, owner, read, write, allow, Zone, get_resource_zone}
use moon_hub.Zones.Facts.{allow_mono, assign, get_resource_zone-assign}
use moon_hub.Shield.Types.{tool}
use moon_hub.Shield.Engine.{
  ShieldAction, block, log, high, low, tool_call, ThreatEntry, MatchResult, ShieldEngine, is_block,
  action_priority, apply_confidence_threshold, evaluate, evaluate_zone_access, add_threat,
  remove_threat, get_threat_count, match_decision,
}
use moon_hub.Shield.Engine.Facts.{
  match_action, evaluate-priority, evaluate-blocks, evaluate-named, remove_threat-add_threat,
  remove_threat-count,
}
use moon_hub.Shield.Approval.{
  approved, ApprovalRequest, Channel, ApprovalManager, new_approval_manager, create_request,
  new_request, get_request, wait_resume, approve,
}
use moon_hub.Shield.Approval.Facts.{
  Op, create, approves, rejects, cleans, apply_op, apply_ops, wait_resume-verdict, responses_open,
}
use moon_hub.Shield.Approval.Settled.{Settled, decide, apply_ops-Settled, decide_once}

allow_mono_example : (allow public owner read ≡ true) × (allow public owner read ≡ true)
unfolding allow
allow_mono_example = allow_mono shared public friend owner read (omega arith) (omega arith) refl

abbrev notes_moved : List (String × Zone)
notes_moved = ("notes", shared) ∷ ("photo", public) ∷ ("notes", public) ∷ []

get_resource_zone-assign-notes_moved : get_resource_zone "notes" (assign notes_moved) ≡ shared
get_resource_zone-assign-notes_moved = get_resource_zone-assign "notes" notes_moved

-- Confidences in hundredths.
abbrev pub confident : ℕ → Bool
confident c = leb 85 c

abbrev pub sure_threat : ThreatEntry ℕ
sure_threat = record {
  id = "THREAT-001";
  fingerprint = "rm";
  category = tool;
  severity = high;
  confidence = 90;
  action = block;
  title = "Removal";
  description = "";
  recommendation_agent = "BLOCK:tool.call exec";
  expires_at = none;
  revoked = false;
  revoked_at = none;
}

abbrev pub vague_threat : ThreatEntry ℕ
vague_threat = record {
  id = "THREAT-002";
  fingerprint = "curl";
  category = tool;
  severity = low;
  confidence = 40;
  action = block;
  title = "Download";
  description = "";
  recommendation_agent = "LOG:tool.call fetch";
  expires_at = none;
  revoked = false;
  revoked_at = none;
}

abbrev match_of : ThreatEntry ℕ → MatchResult ℕ
match_of t = record {
  threat = t;
  directive = record { action = block; condition = "tool.call exec" };
  matched_on = "tool.call";
  match_value = "exec";
}

abbrev match_all : List (ThreatEntry ℕ) → List (MatchResult ℕ)
match_all [] = []
match_all (t ∷ ts) = match_of t ∷ match_all ts

abbrev pub two_threats : ShieldEngine ℕ
two_threats = record { threats = vague_threat ∷ sure_threat ∷ [] }

evaluate-priority_example :
    action_priority (evaluate confident match_all tool_call two_threats).action ≡ 2
unfolding apply_confidence_threshold
evaluate-priority_example =
    evaluate-priority confident match_all tool_call vague_threat (sure_threat ∷ [])

evaluate-blocks-two_threats :
    is_block (evaluate confident match_all tool_call two_threats).action ≡ true
evaluate-blocks-two_threats =
    evaluate-blocks confident match_all tool_call vague_threat (sure_threat ∷ [])

block_not_log : ◌≢◌ {A = ShieldAction} block log
block_not_log = grind arith

evaluate-named-two_threats :
    (m : MatchResult ℕ) × Memᴰ m (match_all (vague_threat ∷ sure_threat ∷ []))
    × (evaluate confident match_all tool_call two_threats
        ≡ match_decision tool_call m (match_action confident m))
unfolding evaluate apply_confidence_threshold
evaluate-named-two_threats =
    evaluate-named confident match_all tool_call vague_threat (sure_threat ∷ []) block_not_log

new_id : ◌≢◌ {A = String} "THREAT-002" "THREAT-001"
new_id = ground (arith, eq_iff "THREAT-002" "THREAT-001")

remove_threat-add_threat-vague :
    remove_threat "THREAT-001" (add_threat sure_threat (record { threats = vague_threat ∷ [] }))
    ≡ (record { threats = vague_threat ∷ [] }, true)
remove_threat-add_threat-vague =
    remove_threat-add_threat sure_threat (record { threats = vague_threat ∷ [] }) (new_id, tt)

remove_threat-count-two_threats :
    ((remove_threat "THREAT-001" two_threats).1 ≡ true)
    × (get_threat_count (remove_threat "THREAT-001" two_threats).0 + 1
        ≡ get_threat_count two_threats)
remove_threat-count-two_threats = remove_threat-count "THREAT-001" two_threats

evaluate_zone_access-shared : (evaluate_zone_access shared friend write "notes").action ≡ block
unfolding allow evaluate_zone_access
evaluate_zone_access-shared = refl

-- A request is created at time 0 and approved.
abbrev approved_ops : List Op
approved_ops = create 0 "r1" "THREAT-001" "exec" "shell" ∷ approves "r1" ∷ []

abbrev asked : ApprovalManager
asked = apply_ops (create 0 "r1" "THREAT-001" "exec" "shell" ∷ []) (new_approval_manager 9)

abbrev approved_request : ApprovalRequest
approved_request = record (new_request 0 9 "THREAT-001" "exec" "shell") { status = approved }

wait_resume-verdict_example : approved_request.status ≡ approved
unfolding wait_resume apply_ops apply_op approve create_request new_approval_manager get_request
    lookup insert
wait_resume-verdict_example =
    wait_resume-verdict 9 approved_ops "r1" true approved_request refl refl

responses_open-run :
    (c : Channel) × (lookup "r1" (apply_ops approved_ops (new_approval_manager 9)).channels
      ≡ some c)
    × (c.closed ≡ false)
unfolding apply_ops apply_op approve create_request new_approval_manager lookup insert
responses_open-run = responses_open 9 approved_ops "r1" refl

apply_ops-Settled-approved :
    Settled approved
      (get_request "r1" (apply_ops (cleans 5 ∷ rejects "r1" ∷ []) (approve "r1" asked).0))
unfolding apply_ops apply_op approve create_request new_approval_manager get_request lookup insert
apply_ops-Settled-approved =
    apply_ops-Settled "r1" approved refl (cleans 5 ∷ rejects "r1" ∷ []) (approve "r1" asked).0
      (tt, (tt, tt)) refl

decide_once_example :
    (decide false "r1" (apply_ops (cleans 5 ∷ []) (decide true "r1" asked).0)).1 ≡ false
unfolding apply_ops apply_op approve create_request new_approval_manager lookup insert
decide_once_example = decide_once true false "r1" asked (cleans 5 ∷ []) (tt, tt) refl
