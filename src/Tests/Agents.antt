-- ===== src/Tests/Agents.antt =====
-- The sub-agents of pkg/delegation at concrete inputs. Rates and scores are in hundredths.
use moon_hub.Base.{
  ℕ, ◌+◌, ◌-◌, ◌*◌, ◌/◌, ◌≡◌, ◌≢◌, refl, String, Bool, true, false, none, some, List, [], ◌∷◌, ltb,
  arith, length, eq_iff,
}
use moon_hub.Delegation.Agents.{
  active, suspended, SubAgentRecord, AgentMath, Database, find_agent, active_agents,
}
use moon_hub.Delegation.Lifecycle.{
  DelegationConfig, Draft, create, suspend, dismiss, revive, check_revive, finish_revive,
  find_reusable,
}
use moon_hub.Delegation.Lifecycle.History.{Call, creates, suspends, revives, records, run_calls}
use moon_hub.Delegation.Lifecycle.Table.{count_id, count_active}
use moon_hub.Delegation.Lifecycle.Limit.{IsWithin, run_calls-IsWithin}
use moon_hub.Delegation.Lifecycle.Gone.{dismiss_final}
use moon_hub.Delegation.Lifecycle.Reuse.{IsBest, find_reusable-IsBest}
use moon_hub.Delegation.Lifecycle.Races.{revive-dismissed}

-- A single keyword is its own joined text.
abbrev hundredths : AgentMath ℕ
hundredths = record {
  to_lower = λ s. s;
  join = λ keywords. elim keywords [ [] ↦ "" | k ∷ ks ↦ k ];
  split_joined = λ s. s ∷ [];
  ratio = λ a b. 100 * a / b;
  less = ltb;
  plus = λ a b. a + b;
  minus = λ a b. a - b;
  times = λ a b. a * b / 100;
  zero_rate = 0;
  one_rate = 100;
  one_fifth = 20;
}

abbrev one_each : DelegationConfig ℕ
one_each = record { max_active_per_user = 1; reuse_threshold = 60 }

abbrev draft : String → String → Draft
draft fresh keyword = record {
  fresh_id = fresh;
  fresh_session = fresh;
  owner = "ann";
  name = fresh;
  prompt = "";
  keywords = keyword ∷ [];
  allowed_tools = [];
}

abbrev empty_database : List Bool → Database ℕ
empty_database faults = record { sub_agents = []; faults = faults; emitted = [] }

-- The second statement of the second `Create` fails at first.
abbrev busy_calls : List Call
busy_calls =
    creates 1 (draft "a1" "sql")
    ∷ creates 2 (draft "a2" "go")
    ∷ creates 3 (draft "a3" "go")
    ∷ suspends 4 "a3"
    ∷ creates 5 (draft "a4" "css")
    ∷ revives 6 "a3"
    ∷ records 7 "a4" true
    ∷ []

abbrev some_faults : List Bool
some_faults = false ∷ false ∷ false ∷ false ∷ true ∷ []

empty-IsWithin : IsWithin 1 (empty_database some_faults).sub_agents
unfolding count_id count_active
empty-IsWithin = record { unique = λ id. omega arith; room = λ user. omega arith }

run_calls-IsWithin_example :
    IsWithin 1 (run_calls hundredths one_each busy_calls (empty_database some_faults)).sub_agents
run_calls-IsWithin_example =
    run_calls-IsWithin hundredths one_each busy_calls (empty_database some_faults) (omega arith)
      empty-IsWithin

abbrev one_agent : Database ℕ
one_agent = run_calls hundredths one_each (creates 1 (draft "a1" "sql") ∷ []) (empty_database [])

other_id : ◌≢◌ {A = String} "a2" "a1"
other_id = ground (arith, eq_iff "a2" "a1")

dismiss_final_example :
    ((revive one_each 9 "a1" (
        run_calls hundredths one_each
          (creates 3 (draft "a2" "go") ∷ [])
          (dismiss 2 "a1" one_agent).0)).1
      ≢ none)
    × ((suspend 9 "a1" (
          run_calls hundredths one_each
            (creates 3 (draft "a2" "go") ∷ [])
            (dismiss 2 "a1" one_agent).0)).1
        ≢ none)
unfolding run_calls dismiss
dismiss_final_example =
    dismiss_final hundredths one_each "a1" 2 9 one_agent (creates 3 (draft "a2" "go") ∷ [])
      (other_id, tt) refl

abbrev sleeping : Database ℕ
sleeping = (suspend 2 "a1" one_agent).0

abbrev woken : Database ℕ
woken = (check_revive one_each "a1" sleeping).0

abbrev sleeper : SubAgentRecord ℕ
sleeper = record {
  id = "a1";
  user_id = "ann";
  label = "a1";
  role_prompt = "";
  task_keywords = "sql";
  tools = "";
  status = suspended;
  created_at = 1;
  last_active_at = 2;
  completed_tasks = 0;
  success_rate = 0;
  session_key = "subagent:a1";
}

revive-dismissed_example :
    (q : SubAgentRecord ℕ) × (find_agent "a1"
        (finish_revive 4 "a1" ((dismiss 3 "a1" woken).0, (none, some sleeper))).0.sub_agents
      ≡ some q)
    × (q.status ≡ active)
unfolding run_calls dismiss suspend check_revive
revive-dismissed_example = revive-dismissed one_each 3 4 "a1" sleeping woken sleeper refl refl refl

abbrev awake : SubAgentRecord ℕ
awake = record sleeper { status = active; last_active_at = 1 }

find_reusable-IsBest_example :
    IsBest hundredths ("sql" ∷ []) 60 (active_agents "ann" one_agent.sub_agents) (some awake)
unfolding run_calls find_reusable
find_reusable-IsBest_example =
    find_reusable-IsBest hundredths ("sql" ∷ []) (λ a. ground arith) (λ a b c h k. ground arith)
      one_each "ann" one_agent (some awake) refl

-- With more than one agent at the limit, the one that has been idle for longest is dismissed.
create-evicts :
    length
      (active_agents "ann" (create hundredths one_each 2 (draft "a2" "go") one_agent).0.sub_agents)
    ≡ 1
unfolding create run_calls
create-evicts = refl
