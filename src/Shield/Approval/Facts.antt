-- ===== src/Shield/Approval/Facts.antt =====
-- pkg/shield/approval.go: what holds of a manager after any history of calls.
use moon_hub.Base.{
  ℕ, ◌≡◌, refl, sym, String, Bool, true, false, not, Option, none, some, List, [], ◌∷◌, arith, inl,
  inr, str_eq, if◌then◌else◌, lookup, keys, Option-cases, subst,
}
use moon_hub.Shield.Approval.{
  ApprovalStatus, approved, rejected, ApprovalRequest, Channel, ApprovalManager,
  new_approval_manager, create_request, resolve, approve, reject, get_request, answered, Wake,
  ctx_done, response_ready, timer_fired, wait_resume, clean_request, clean_requests,
  cleanup_expired, close_response, close_responses, close,
}
use moon_hub.Shield.Approval.View.{
  View, view, resolve_view, wait_view, close_view, clean_view, expire_view, drop_view, view-resolve,
  view-create_request, view-wait_resume, view-close_response, view-clean_request,
}

pub data Op : Type 0 where
  create : ℕ → String → String → String → String → Op
  approves rejects : String → Op
  wakes : Wake → String → Op
  cleans : ℕ → Op
  closes : Op

unfoldable pub apply_op : Op → ApprovalManager → ApprovalManager
apply_op (create now id threat_id tool_name reason) m =
    create_request now id threat_id tool_name reason m
apply_op (approves id) m = (approve id m).0
apply_op (rejects id) m = (reject id m).0
apply_op (wakes w id) m = (wait_resume w id m).1
apply_op (cleans now) m = cleanup_expired now m
apply_op closes m = close m

-- The oldest call is the head.
unfoldable pub apply_ops : List Op → ApprovalManager → ApprovalManager
apply_ops [] m = m
apply_ops (o ∷ os) m = apply_ops os (apply_op o m)

-- The status that an answer stands for.
abbrev pub verdict : Bool → ApprovalStatus
verdict true = approved
verdict false = rejected

abbrev fits : Bool → ApprovalStatus → Bool
fits true approved = true
fits false rejected = true
fits _ _ = false

abbrev buffer_fits : Option Bool → ApprovalStatus → Bool
buffer_fits none s = true
buffer_fits (some b) s = fits b s

abbrev answer_fits : Option ApprovalRequest → Option Channel → Bool
answer_fits none c = true
answer_fits (some r) none = true
answer_fits (some r) (some c) = buffer_fits c.buffer r.status

abbrev response_open : Option (Unit {0}) → Option Channel → Bool
response_open none c = true
response_open (some _) none = false
response_open (some _) (some c) = not c.closed

-- A buffered answer agrees with the status, and the map `responses` holds open channels only.
abbrev Good : View → Type 0
Good v = (answer_fits v.request v.channel ≡ true) × (response_open v.response v.channel ≡ true)

resolve_view-Good : (b : Bool) (v : View) → Good v → Good (resolve_view (verdict b) b v)
resolve_view-Good true v g = ground arith
resolve_view-Good false v g = ground arith

wait_view-Good : (w : Wake) (v : View) → Good v → Good (wait_view w v)
wait_view-Good ctx_done v g = g
wait_view-Good response_ready v g = ground arith
wait_view-Good timer_fired v g = ground arith

close_view-Good : (v : View) → Good v → Good (close_view v)
close_view-Good v g = ground arith

clean_view-Good : (now : ℕ) (v : View) → Good v → Good (clean_view now v)
unfolding expire_view drop_view
clean_view-Good now v g = ground arith

-- A property of one of two views, whichever a view is equal to.
either {ℓ} :
    (P : View → Type ℓ) (b : Bool) (x y : View) {z : View}
    → z ≡ (if b then x else y)
    → P x
    → P y
    → P z
either P true x y e p q = subst P (sym e) p
either P false x y e p q = subst P (sym e) q

abbrev AllGood : ApprovalManager → Type 0
AllGood m = (k : String) → Good (view k m)

resolve-Good :
    (b : Bool) (id : String) (m : ApprovalManager)
    → AllGood m
    → AllGood (resolve (verdict b) b id m).0
resolve-Good b id m g k =
    either Good (str_eq id k) _ _ (view-resolve (verdict b) b id k m)
      (resolve_view-Good b (view id m) (g id)) (g k)

clean_requests-Good :
    (now : ℕ) (ids : List String) (m : ApprovalManager)
    → AllGood m
    → AllGood (clean_requests now ids m)
unfolding clean_requests
clean_requests-Good now [] m g = g
clean_requests-Good now (id ∷ ids) m g = clean_requests-Good now ids (clean_request now id m) λ k.
    either Good (str_eq id k) _ _ (view-clean_request now id k m)
      (clean_view-Good now (view id m) (g id)) (g k)

close_responses-Good :
    (ids : List String) (m : ApprovalManager) → AllGood m → AllGood (close_responses ids m)
unfolding close_responses
close_responses-Good [] m g = g
close_responses-Good (id ∷ ids) m g = close_responses-Good ids (close_response id m) λ k.
    either Good (str_eq id k) _ _ (view-close_response id k m) (close_view-Good (view id m) (g id))
      (g k)

close-Good : (m : ApprovalManager) → AllGood m → AllGood (close m)
unfolding close lookup
close-Good m g k = (refl, (close_responses-Good (keys m.responses) m g k).1)

apply_op-Good : (o : Op) (m : ApprovalManager) → AllGood m → AllGood (apply_op o m)
unfolding apply_op approve reject cleanup_expired
apply_op-Good (create now id t n r) m g k =
    either Good (str_eq id k) _ _ (view-create_request now id t n r k m) (refl, refl) (g k)
apply_op-Good (approves id) m g k = resolve-Good true id m g k
apply_op-Good (rejects id) m g k = resolve-Good false id m g k
apply_op-Good (wakes w id) m g k =
    either Good (str_eq id k) _ _ (view-wait_resume w id k m) (wait_view-Good w (view id m) (g id))
      (g k)
apply_op-Good (cleans now) m g k = clean_requests-Good now (keys m.requests) m g k
apply_op-Good closes m g k = close-Good m g k

apply_ops-Good : (os : List Op) (m : ApprovalManager) → AllGood m → AllGood (apply_ops os m)
unfolding apply_ops
apply_ops-Good [] m g = g
apply_ops-Good (o ∷ os) m g = apply_ops-Good os (apply_op o m) (apply_op-Good o m g)

new-Good : (timeout : ℕ) → AllGood (new_approval_manager timeout)
unfolding new_approval_manager lookup
new-Good timeout k = (refl, refl)

-- After any history, a waiter that receives an answer receives the verdict of the request: true
-- only if the request was approved, false only if it was rejected.
pub wait_resume-verdict :
    (timeout : ℕ) (os : List Op) (id : String) (b : Bool) (r : ApprovalRequest)
    → (wait_resume response_ready id (apply_ops os (new_approval_manager timeout))).0 ≡ answered b
    → get_request id (apply_ops os (new_approval_manager timeout)) ≡ some r
    → r.status ≡ verdict b
unfolding wait_resume get_request
wait_resume-verdict timeout os id b r h k =
    let g = apply_ops-Good os (new_approval_manager timeout) (new-Good timeout) id in
    ground (arith, g)

-- After any history, the channel of an id in the map `responses` exists and is open, so no send and
-- no `close` meets a closed channel.
pub responses_open :
    (timeout : ℕ) (os : List Op) (id : String)
    → lookup id (apply_ops os (new_approval_manager timeout)).responses ≡ some tt
    → (c : Channel) × (lookup id (apply_ops os (new_approval_manager timeout)).channels ≡ some c)
      × (c.closed ≡ false)
responses_open timeout os id h =
    let m = apply_ops os (new_approval_manager timeout) in
    let g = apply_ops-Good os (new_approval_manager timeout) (new-Good timeout) id in
    elim (Option-cases (lookup id m.channels)) [
      | inl e ↦ absurd (ground (arith, g))
      | inr (c, e) ↦ (c, e, ground (arith, g))
    ]
