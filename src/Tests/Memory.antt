-- ===== src/Tests/Memory.antt =====
-- pkg/memory/jsonl.go at concrete inputs.
use moon_hub.Base.{◌≡◌, refl, String, none, some, List, [], ◌∷◌, map, take, ℕ}
use moon_hub.Memory.Messages.{ToolCall, Message, reread}
use moon_hub.Memory.Jsonl.{
  Line, message, corrupt, JsonlFile, SessionMeta, Disk, empty_disk, perform_all, add_msg,
  get_history, get_summary, set_summary, truncate_history, set_history, compact, read_meta,
  count_lines,
}
use moon_hub.Memory.Jsonl.Facts.{get_history-compact}
use moon_hub.Memory.Jsonl.Refinement.{
  Op, add, add_crashed, summarize, truncate, replace, compaction, run_ops, specified_all,
  get_history-run_ops,
}
use moon_hub.Memory.Jsonl.Crash.{IsExtended, compact-crash, get_history-torn, compact-uncorrected}

abbrev text_of : String → Message ℕ
text_of content = record {
  role = "user";
  content = content;
  media = [];
  reasoning_content = "";
  system_parts = [];
  tool_calls = [];
  tool_call_id = "";
}

-- A call of a tool, whose name stands in two fields.
abbrev exec_call : ToolCall ℕ
exec_call = record {
  id = "1";
  call_type = "function";
  function = some (record { name = "exec"; arguments = "{}"; thought_signature = "" });
  name = "exec";
  arguments = some 0;
  thought_signature = "";
  extra_content = none;
}

abbrev calling : Message ℕ
calling = record (text_of "c") { tool_calls = exec_call ∷ [] }

calling-nameless :
    reread calling
    ≡ record (text_of "c") { tool_calls = record exec_call { name = ""; arguments = none } ∷ [] }
unfolding reread
calling-nameless = refl

-- Two messages are kept of three, one of which is not counted; one more follows a compaction.
abbrev busy_ops : List (Op ℕ)
busy_ops =
    add (text_of "a")
    ∷ add_crashed (text_of "b")
    ∷ add calling
    ∷ truncate 2
    ∷ summarize "s"
    ∷ compaction
    ∷ add (text_of "d")
    ∷ []

get_history-busy_ops :
    get_history (run_ops 1 busy_ops empty_disk) ≡ text_of "b" ∷ reread calling ∷ text_of "d" ∷ []
unfolding run_ops get_history empty_disk perform_all moon_hub.Memory.Jsonl.Refinement.writes add_msg
    compact set_summary truncate_history reread
get_history-busy_ops = refl

get_summary-busy_ops : get_summary (run_ops 1 busy_ops empty_disk) ≡ "s"
unfolding run_ops get_summary empty_disk perform_all moon_hub.Memory.Jsonl.Refinement.writes add_msg
    compact set_summary truncate_history
get_summary-busy_ops = refl

get_history-run_ops_example :
    get_history (run_ops 1 busy_ops empty_disk) ≡ map reread (specified_all busy_ops [])
get_history-run_ops_example = get_history-run_ops 1 busy_ops

-- One of the two lines is skipped.
abbrev trimmed : Disk ℕ
trimmed = record {
  jsonl = record { lines = message (text_of "a") ∷ message (text_of "b") ∷ []; tail = none };
  meta = some (record { summary = ""; skip = 1; count = 2; created_at = 1; updated_at = 2 });
}

get_history-compact-run :
    get_history (perform_all (compact 3 trimmed) trimmed) ≡ get_history trimmed
get_history-compact-run = get_history-compact 3 trimmed

compact-crash_example :
    IsExtended
      (get_history trimmed)
      (get_history (perform_all (take 1 (compact 3 trimmed)) trimmed))
compact-crash_example = compact-crash 1 3 trimmed

-- The process stopped within the second append.
abbrev torn_disk : Disk ℕ
torn_disk = record {
  jsonl = record { lines = message (text_of "a") ∷ []; tail = some corrupt };
  meta = some (record { summary = ""; skip = 0; count = 1; created_at = 1; updated_at = 1 });
}

torn_append-run :
    get_history (perform_all (add_msg 3 (text_of "c") torn_disk) torn_disk) ≡ get_history torn_disk
torn_append-run = get_history-torn 3 (text_of "c") torn_disk refl

compact-uncorrected_example :
    (get_history (perform_all (take 1 (compact 3 trimmed)) trimmed)
      ≡ text_of "a" ∷ text_of "b" ∷ [])
    × (compact 4 (perform_all (take 1 (compact 3 trimmed)) trimmed) ≡ [])
unfolding read_meta reread
compact-uncorrected_example = compact-uncorrected 3 4 trimmed refl
