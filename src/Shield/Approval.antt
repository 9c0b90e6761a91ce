-- ===== src/Shield/Approval.antt =====
-- pkg/shield/approval.go: approval requests and their life. An operation takes the clock reading as
-- `now`, in nanoseconds; a new request's id is the argument `id` (a UUID in the code). A channel of
-- capacity 1 stays readable after the manager has dropped it, so channels have a store of their own.
pub mod View
pub mod Facts
pub mod Settled
use moon_hub.Base.{
  ℕ, ◌+◌, ◌-◌, ◌*◌, String, Bool, true, false, not, ◌&&◌, Option, none, some, List, [], ◌∷◌, ltb,
  ◌==◌, if◌then◌else◌, lookup, insert, delete, keys, length, ◌++◌,
}

pub data ApprovalStatus : Type 0 where
  pending approved rejected expired : ApprovalStatus

abbrev pub is_pending : ApprovalStatus → Bool
is_pending pending = true
is_pending _ = false

-- The fields of a request that the manager reads back.
pub record ApprovalRequest : Type 0 where
  pub threat_id : String
  pub tool_name : String
  pub reason : String
  pub created_at : ℕ
  pub expires_at : ℕ
  pub status : ApprovalStatus

-- A `chan bool` of capacity 1.
pub record Channel : Type 0 where
  pub buffer : Option Bool
  pub closed : Bool

pub record ApprovalManager : Type 0 where
  pub requests : List (String × ApprovalRequest)
  -- The ids that the map `responses` holds; the channel of an id is in `channels`.
  pub responses : List (String × Unit {0})
  pub channels : List (String × Channel)
  pub timeout : ℕ
  -- The ids in `pendingCh`, oldest first.
  pub pending_ch : List String

abbrev pub five_minutes : ℕ
five_minutes = 300000000000

-- A timeout of 0 stands for any that is not positive.
unfoldable pub new_approval_manager : ℕ → ApprovalManager
new_approval_manager timeout = record {
  requests = [];
  responses = [];
  channels = [];
  timeout = if timeout == 0 then five_minutes else timeout;
  pending_ch = [];
}

abbrev pub open_channel : Channel
open_channel = record { buffer = none; closed = false }

-- The non-blocking send on a channel of capacity 100.
abbrev pub notify : String → List String → List String
notify id q = if ltb (length q) 100 then q ++ id ∷ [] else q

abbrev pub new_request : ℕ → ℕ → String → String → String → ApprovalRequest
new_request now timeout threat_id tool_name reason = record {
  threat_id = threat_id;
  tool_name = tool_name;
  reason = reason;
  created_at = now;
  expires_at = now + timeout;
  status = pending;
}

unfoldable pub create_request :
    ℕ → String → String → String → String → ApprovalManager → ApprovalManager
create_request now id threat_id tool_name reason m =
    let req = new_request now m.timeout threat_id tool_name reason in
    record m {
      requests = insert id req m.requests;
      responses = insert id tt m.responses;
      channels = insert id open_channel m.channels;
      pending_ch = notify id m.pending_ch;
    }

abbrev pub try_send : Bool → Option Channel → Channel
try_send b none = open_channel
try_send b (some c) = record c { buffer = elim c.buffer [ none ↦ some b | some old ↦ some old ] }

-- The non-blocking send of an answer, if the map `responses` still has the channel.
unfoldable pub send_response : String → Bool → ApprovalManager → ApprovalManager
send_response id b m = elim (lookup id m.responses) [
  | none ↦ m
  | some _ ↦ record m { channels = insert id (try_send b (lookup id m.channels)) m.channels }
]

-- `Approve` and `Reject`, which differ in the status and the answer only.
unfoldable pub resolve : ApprovalStatus → Bool → String → ApprovalManager → ApprovalManager × Bool
unfolding send_response
resolve status answer id m = elim (lookup id m.requests) [
  | none ↦ (m, false)
  | some req ↦ if not (is_pending req.status) then (m, false) else (
    send_response id answer
        (record m { requests = insert id (record req { status = status }) m.requests }),
    true,
  )
]

unfoldable pub approve : String → ApprovalManager → ApprovalManager × Bool
unfolding resolve
approve id m = resolve approved true id m

unfoldable pub reject : String → ApprovalManager → ApprovalManager × Bool
unfolding resolve
reject id m = resolve rejected false id m

unfoldable pub get_request : String → ApprovalManager → Option ApprovalRequest
get_request id m = lookup id m.requests

pub data WaitResult : Type 0 where
  answered : Bool → WaitResult
  context_done channel_closed request_expired blocked : WaitResult

-- What ends the `select` of a waiter.
pub data Wake : Type 0 where
  ctx_done response_ready timer_fired : Wake

-- The look-ups that `WaitForApproval` starts with: false is "not found".
unfoldable pub wait_found : String → ApprovalManager → Bool
wait_found id m = elim (lookup id m.responses) [
  | none ↦ false
  | some _ ↦ elim (lookup id m.requests) [ none ↦ false | some _ ↦ true ]
]

abbrev pub receive : Option Channel → WaitResult × Option Channel
receive none = (blocked, none)
receive (some c) = elim c.buffer [
  | some b ↦ (answered b, some (record c { buffer = none }))
  | none ↦ (if c.closed then channel_closed else blocked, some c)
]

abbrev pub store_channel :
    String → Option Channel → List (String × Channel) → List (String × Channel)
store_channel id none cs = cs
store_channel id (some c) cs = insert id c cs

abbrev pub expire : ApprovalRequest → ApprovalRequest
expire req = if is_pending req.status then record req { status = expired } else req

-- A found waiter resumes.
unfoldable pub wait_resume : Wake → String → ApprovalManager → WaitResult × ApprovalManager
wait_resume ctx_done id m = (context_done, m)
wait_resume response_ready id m =
    let r = receive (lookup id m.channels) in
    (r.0, record m { channels = store_channel id r.1 m.channels })
wait_resume timer_fired id m = (
  request_expired,
  record m {
    requests = elim (lookup id m.requests) [
      | none ↦ m.requests
      | some req ↦ insert id (expire req) m.requests
    ];
    responses = delete id m.responses;
  },
)

abbrev pub close_channel : Option Channel → Option Channel
close_channel none = none
close_channel (some c) = some (record c { closed = true })

-- `close(ch); delete(m.responses, id)`, if the map `responses` has the channel.
unfoldable pub close_response : String → ApprovalManager → ApprovalManager
close_response id m = elim (lookup id m.responses) [
  | none ↦ m
  | some _ ↦ record m {
    responses = delete id m.responses;
    channels = store_channel id (close_channel (lookup id m.channels)) m.channels;
  }
]

abbrev pub timed_out : ℕ → ApprovalRequest → Bool
timed_out now req = is_pending req.status && ltb req.expires_at now

abbrev pub is_old : ℕ → ApprovalRequest → Bool
is_old now req = not (is_pending req.status) && ltb five_minutes (now - req.expires_at)

-- The first `if` of the loop in `cleanupExpired`.
unfoldable pub expire_request : ℕ → String → ApprovalRequest → ApprovalManager → ApprovalManager
unfolding close_response
expire_request now id req m =
    if timed_out now req
    then close_response id
        (record m { requests = insert id (record req { status = expired }) m.requests })
    else m

-- The request after that `if`; the code changes it in place.
abbrev pub after_expiry : ℕ → ApprovalRequest → ApprovalRequest
after_expiry now req = if timed_out now req then record req { status = expired } else req

-- The second `if`.
unfoldable pub drop_old : ℕ → String → ApprovalRequest → ApprovalManager → ApprovalManager
drop_old now id req m = if is_old now req then record m { requests = delete id m.requests } else m

-- One round of the loop.
unfoldable pub clean_request : ℕ → String → ApprovalManager → ApprovalManager
unfolding expire_request drop_old
clean_request now id m = elim (lookup id m.requests) [
  | none ↦ m
  | some req ↦ drop_old now id (after_expiry now req) (expire_request now id req m)
]

unfoldable pub clean_requests : ℕ → List String → ApprovalManager → ApprovalManager
unfolding clean_request
clean_requests now [] m = m
clean_requests now (id ∷ ids) m = clean_requests now ids (clean_request now id m)

-- One tick of `cleanupExpired`.
unfoldable pub cleanup_expired : ℕ → ApprovalManager → ApprovalManager
unfolding clean_requests
cleanup_expired now m = clean_requests now (keys m.requests) m

unfoldable pub close_responses : List String → ApprovalManager → ApprovalManager
unfolding close_response
close_responses [] m = m
close_responses (id ∷ ids) m = close_responses ids (close_response id m)

unfoldable pub close : ApprovalManager → ApprovalManager
unfolding close_responses
close m = record (close_responses (keys m.responses) m) { requests = [] }

abbrev pending_from : List (String × ApprovalRequest) → List ApprovalRequest
pending_from [] = []
pending_from ((id, r) ∷ rs) =
    let rest = pending_from rs in if is_pending r.status then r ∷ rest else rest

unfoldable pub get_pending : ApprovalManager → List ApprovalRequest
get_pending m = pending_from m.requests
