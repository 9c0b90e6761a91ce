-- ===== src/Shield/Approval/View.antt =====
-- pkg/shield/approval.go: what one operation does to the entries of one id.
use moon_hub.Base.{
  ℕ, String, Bool, true, not, Option, none, some, ◌≡◌, arith, ◌∙◌, sym, subst, str_eq, eq_iff, inl,
  inr, Option-cases, Bool-cases, if◌then◌else◌, lookup, insert, lookup-insert, lookup-delete,
}
use moon_hub.Shield.Approval.{
  ApprovalStatus, expired, is_pending, ApprovalRequest, Channel, ApprovalManager, try_send,
  send_response, resolve, receive, expire, Wake, ctx_done, response_ready, timer_fired, wait_resume,
  close_channel, close_response, timed_out, is_old, clean_request, open_channel, create_request,
  new_request, expire_request, drop_old, after_expiry,
}

-- The entries of one id in the three maps.
pub record View : Type 0 where
  pub request : Option ApprovalRequest
  pub response : Option (Unit {0})
  pub channel : Option Channel

abbrev pub view : String → ApprovalManager → View
view id m = record {
  request = lookup id m.requests;
  response = lookup id m.responses;
  channel = lookup id m.channels;
}

abbrev pub send_view : Bool → View → View
send_view b v = elim v.response [
  | none ↦ v
  | some _ ↦ record v { channel = some (try_send b v.channel) }
]

abbrev pub resolve_view : ApprovalStatus → Bool → View → View
resolve_view status b v = elim v.request [
  | none ↦ v
  | some req ↦
      if not (is_pending req.status)
      then v
      else send_view b (record v { request = some (record req { status = status }) })
]

view-send_response :
    (id k : String) (b : Bool) (m : ApprovalManager)
    → view k (send_response id b m) ≡ (if str_eq id k then send_view b (view id m) else view k m)
unfolding send_response
view-send_response id k b m =
    ground (arith, eq_iff id k, lookup-insert id k (try_send b (lookup id m.channels)) m.channels)

view-put_request :
    (id k : String) (r : ApprovalRequest) (m : ApprovalManager)
    → view k (record m { requests = insert id r m.requests })
      ≡ (if str_eq id k then record (view id m) { request = some r } else view k m)
view-put_request id k r m = ground (arith, eq_iff id k, lookup-insert id k r m.requests)

pub view-resolve :
    (status : ApprovalStatus) (b : Bool) (id k : String) (m : ApprovalManager)
    → view k (resolve status b id m).0
      ≡ (if str_eq id k then resolve_view status b (view id m) else view k m)
unfolding resolve
view-resolve status b id k m = elim (Option-cases (lookup id m.requests)) [
  | inl e ↦ ground (arith, eq_iff id k)
  | inr (r, e) ↦ ground (
    arith,
    eq_iff id k,
    lookup-insert id k (record r { status = status }) m.requests,
    lookup-insert id k (try_send b (lookup id m.channels)) m.channels,
  )
]

pub view-create_request :
    (now : ℕ) (id threat_id tool_name reason k : String) (m : ApprovalManager)
    → view k (create_request now id threat_id tool_name reason m) ≡ (
        if str_eq id k
        then record {
          request = some (new_request now m.timeout threat_id tool_name reason);
          response = some tt;
          channel = some open_channel;
        }
        else view k m)
unfolding create_request
view-create_request now id threat_id tool_name reason k m = ground (
  arith,
  eq_iff id k,
  lookup-insert id k (new_request now m.timeout threat_id tool_name reason) m.requests,
  lookup-insert id k tt m.responses,
  lookup-insert id k open_channel m.channels,
)

abbrev pub wait_view : Wake → View → View
wait_view ctx_done v = v
wait_view response_ready v = record v { channel = (receive v.channel).1 }
wait_view timer_fired v = record v {
  request = elim v.request [ none ↦ none | some r ↦ some (expire r) ];
  response = none;
}

pub view-wait_resume :
    (w : Wake) (id k : String) (m : ApprovalManager)
    → view k (wait_resume w id m).1 ≡ (if str_eq id k then wait_view w (view id m) else view k m)
unfolding wait_resume
view-wait_resume ctx_done id k m = ground (arith, eq_iff id k)
view-wait_resume response_ready id k m = elim (Option-cases (lookup id m.channels)) [
  | inl e ↦ ground (arith, eq_iff id k)
  | inr (c, e) ↦ ground (
    arith,
    eq_iff id k,
    lookup-insert id k (record c { buffer = none }) m.channels,
    lookup-insert id k c m.channels,
  )
]
view-wait_resume timer_fired id k m = elim (Option-cases (lookup id m.requests)) [
  | inl e ↦ ground (arith, eq_iff id k, lookup-delete id k m.responses)
  | inr (r, e) ↦
      ground (
        arith,
        eq_iff id k,
        lookup-delete id k m.responses,
        lookup-insert id k (expire r) m.requests,
      )
]

abbrev pub close_view : View → View
close_view v = elim v.response [
  | none ↦ v
  | some _ ↦ record v { response = none; channel = close_channel v.channel }
]

pub view-close_response :
    (id k : String) (m : ApprovalManager)
    → view k (close_response id m) ≡ (if str_eq id k then close_view (view id m) else view k m)
unfolding close_response
view-close_response id k m = elim (Option-cases (lookup id m.channels)) [
  | inl e ↦ ground (arith, eq_iff id k, lookup-delete id k m.responses)
  | inr (c, e) ↦ ground (
    arith,
    eq_iff id k,
    lookup-delete id k m.responses,
    lookup-insert id k (record c { closed = true }) m.channels,
  )
]

view-expired :
    (id k : String) (r : ApprovalRequest) (m : ApprovalManager)
    → view k (close_response id (record m { requests = insert id r m.requests }))
      ≡ (if str_eq id k then close_view (record (view id m) { request = some r }) else view k m)
view-expired id k r m =
    let m' : ApprovalManager = record m { requests = insert id r m.requests } in
    ground (
      arith,
      eq_iff id k,
      view-close_response id k m',
      view-put_request id k r m,
      view-put_request id id r m,
      eq_iff id id,
    )

unfoldable pub expire_view : ℕ → ApprovalRequest → View → View
expire_view now r v =
    if timed_out now r
    then close_view (record v { request = some (record r { status = expired }) })
    else v

unfoldable pub drop_view : ℕ → ApprovalRequest → View → View
drop_view now r v = if is_old now r then record v { request = none } else v

abbrev pub clean_view : ℕ → View → View
clean_view now v = elim v.request [
  | none ↦ v
  | some r ↦ drop_view now (after_expiry now r) (expire_view now r v)
]

view-expire_request :
    (now : ℕ) (id k : String) (r : ApprovalRequest) (m : ApprovalManager)
    → view k (expire_request now id r m)
      ≡ (if str_eq id k then expire_view now r (view id m) else view k m)
unfolding expire_request expire_view
view-expire_request now id k r m = elim (Bool-cases (timed_out now r)) [
  | inl e ↦ rw e (view-expired id k (record r { status = expired }) m)
  | inr e ↦ rw e (ground (arith, eq_iff id k))
]

view-drop_old :
    (now : ℕ) (id k : String) (r : ApprovalRequest) (m : ApprovalManager)
    → view k (drop_old now id r m) ≡ (if str_eq id k then drop_view now r (view id m) else view k m)
unfolding drop_old drop_view
view-drop_old now id k r m = elim (Bool-cases (is_old now r)) [
  | inl e ↦ rw e (ground (arith, eq_iff id k, lookup-delete id k m.requests))
  | inr e ↦ rw e (ground (arith, eq_iff id k))
]

view-clean_some :
    (now : ℕ) (id k : String) (r : ApprovalRequest) (m : ApprovalManager)
    → lookup id m.requests ≡ some r
    → view k (clean_request now id m)
      ≡ (if str_eq id k then clean_view now (view id m) else view k m)
unfolding clean_request
view-clean_some now id k r m e =
    let m' = expire_request now id r m in
    let r' = after_expiry now r in
    rw (e, clean_request)
      (view-drop_old now id k r' m'
        ∙ ground (
          arith,
          view-expire_request now id id r m,
          view-expire_request now id k r m,
          eq_iff id id,
          e,
        ))

pub view-clean_request :
    (now : ℕ) (id k : String) (m : ApprovalManager)
    → view k (clean_request now id m)
      ≡ (if str_eq id k then clean_view now (view id m) else view k m)
unfolding clean_request
view-clean_request now id k m = elim (Option-cases (lookup id m.requests)) [
  | inl e ↦ ground (arith, eq_iff id k)
  | inr (r, e) ↦ view-clean_some now id k r m e
]

-- What the change of one id keeps of every view that it does not concern, it keeps of every view.
pub view_keeps {ℓ} :
    (P : View → Type ℓ) (id k : String) (m : ApprovalManager) (f : View → View) {z : View}
    → z ≡ (if str_eq id k then f (view id m) else view k m)
    → ((v : View) → P v → P (f v))
    → P (view k m)
    → P z
view_keeps P id k m f e keep h = elim (Bool-cases (str_eq id k)) [
  | inl q ↦
      let same : k ≡ id = ground (arith, eq_iff id k) in
      subst P (sym (e ∙ rw q)) (keep (view id m) (subst (λ j. P (view j m)) same h))
  | inr q ↦ subst P (sym (e ∙ rw q)) h
]
