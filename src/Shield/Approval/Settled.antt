-- ===== src/Shield/Approval/Settled.antt =====
-- pkg/shield/approval.go: requests with a final status, and what further calls do to them.
use moon_hub.Base.{
  ℕ, ◌≡◌, ◌≢◌, refl, String, Bool, true, false, Option, none, some, List, [], ◌∷◌, arith, inl, inr,
  eq_iff, lookup, keys, Option-cases, All,
}
use moon_hub.Shield.Approval.{
  ApprovalStatus, approved, rejected, is_pending, ApprovalRequest, ApprovalManager, resolve,
  approve, reject, get_request, Wake, ctx_done, response_ready, timer_fired, clean_request,
  clean_requests, cleanup_expired, close,
}
use moon_hub.Shield.Approval.View.{
  View, view, resolve_view, wait_view, clean_view, expire_view, drop_view, view-resolve,
  view-create_request, view-wait_resume, view-clean_request, view_keeps,
}
use moon_hub.Shield.Approval.Facts.{
  Op, create, approves, rejects, wakes, cleans, closes, apply_op, apply_ops, verdict,
}

-- The request is gone, or it has the status `s`.
abbrev pub Settled : ApprovalStatus → Option ApprovalRequest → Type 0
Settled s none = Unit {0}
Settled s (some r) = r.status ≡ s

abbrev SettledView : ApprovalStatus → View → Type 0
SettledView s v = Settled s v.request

resolve_view-Settled :
    (s t : ApprovalStatus) (b : Bool) (v : View)
    → is_pending s ≡ false
    → SettledView s v
    → SettledView s (resolve_view t b v)
resolve_view-Settled s t b v h k = ground arith

wait_view-Settled :
    (s : ApprovalStatus) (w : Wake) (v : View)
    → is_pending s ≡ false
    → SettledView s v
    → SettledView s (wait_view w v)
wait_view-Settled s ctx_done v h k = k
wait_view-Settled s response_ready v h k = k
wait_view-Settled s timer_fired v h k = ground arith

clean_view-Settled :
    (s : ApprovalStatus) (now : ℕ) (v : View)
    → is_pending s ≡ false
    → SettledView s v
    → SettledView s (clean_view now v)
unfolding expire_view drop_view
clean_view-Settled s now v h k = ground arith

-- The call does not create a request under the id `k`.
abbrev pub Spares : String → Op → Type 0
Spares k (create now id t n r) = id ≢ k
Spares k _ = Unit {0}

module _ (k : String) (s : ApprovalStatus) (final : is_pending s ≡ false) where
  clean_requests-Settled :
      (now : ℕ) (ids : List String) (m : ApprovalManager)
      → SettledView s (view k m)
      → SettledView s (view k (clean_requests now ids m))
  unfolding clean_requests
  clean_requests-Settled now [] m h = h
  clean_requests-Settled now (id ∷ ids) m h =
      clean_requests-Settled now ids (clean_request now id m) (
        view_keeps (SettledView s) id k m (clean_view now) (view-clean_request now id k m)
          (λ v. clean_view-Settled s now v final) h)

  resolve-Settled :
      (t : ApprovalStatus) (b : Bool) (id : String) (m : ApprovalManager)
      → SettledView s (view k m)
      → SettledView s (view k (resolve t b id m).0)
  resolve-Settled t b id m h =
      view_keeps (SettledView s) id k m (resolve_view t b) (view-resolve t b id k m)
        (λ v. resolve_view-Settled s t b v final) h

  apply_op-Settled :
      (o : Op) (m : ApprovalManager)
      → Spares k o
      → SettledView s (view k m)
      → SettledView s (view k (apply_op o m))
  unfolding apply_op approve reject cleanup_expired close lookup
  apply_op-Settled (create now id t n r) m sp h =
      let e = view-create_request now id t n r k m in ground (arith, eq_iff id k, e)
  apply_op-Settled (approves id) m sp h = resolve-Settled approved true id m h
  apply_op-Settled (rejects id) m sp h = resolve-Settled rejected false id m h
  apply_op-Settled (wakes w id) m sp h =
      view_keeps (SettledView s) id k m (wait_view w) (view-wait_resume w id k m)
        (λ v. wait_view-Settled s w v final) h
  apply_op-Settled (cleans now) m sp h = clean_requests-Settled now (keys m.requests) m h
  apply_op-Settled closes m sp h = tt

  -- A request with a final status keeps it, until it is removed, through every history of calls
  -- that creates no request under its id.
  pub apply_ops-Settled :
      (os : List Op) (m : ApprovalManager)
      → All (Spares k) os
      → Settled s (get_request k m)
      → Settled s (get_request k (apply_ops os m))
  unfolding apply_ops get_request
  apply_ops-Settled [] m sp h = h
  apply_ops-Settled (o ∷ os) m sp h =
      apply_ops-Settled os (apply_op o m) sp.1 (apply_op-Settled o m sp.0 h)

resolve-decided :
    (t s : ApprovalStatus) (b : Bool) (id : String) (m : ApprovalManager)
    → is_pending s ≡ false
    → Settled s (get_request id m)
    → (resolve t b id m).1 ≡ false
unfolding resolve get_request
resolve-decided t s b id m h k = ground arith

resolve-pending :
    (t : ApprovalStatus) (b : Bool) (id : String) (m : ApprovalManager)
    → (resolve t b id m).1 ≡ true
    → (r : ApprovalRequest) × (lookup id m.requests ≡ some r) × (is_pending r.status ≡ true)
unfolding resolve
resolve-pending t b id m h = elim (Option-cases (lookup id m.requests)) [
  | inl e ↦ absurd (ground arith)
  | inr (r, e) ↦ (r, e, ground arith)
]

resolve-settles :
    (t : ApprovalStatus) (b : Bool) (id : String) (m : ApprovalManager)
    → (resolve t b id m).1 ≡ true
    → Settled t (get_request id (resolve t b id m).0)
unfolding get_request
resolve-settles t b id m h =
    let (r, e, p) = resolve-pending t b id m h in
    ground (arith, eq_iff id id, view-resolve t b id id m, e, p)

-- The call of `Approve` for true and of `Reject` for false.
abbrev pub decide : Bool → String → ApprovalManager → ApprovalManager × Bool
decide true id m = approve id m
decide false id m = reject id m

verdict-final : (b : Bool) → is_pending (verdict b) ≡ false
verdict-final true = refl
verdict-final false = refl

decide-settles :
    (b : Bool) (id : String) (m : ApprovalManager)
    → (decide b id m).1 ≡ true
    → Settled (verdict b) (get_request id (decide b id m).0)
unfolding approve reject
decide-settles true id m h = resolve-settles approved true id m h
decide-settles false id m h = resolve-settles rejected false id m h

decide-decided :
    (b c : Bool) (id : String) (m : ApprovalManager)
    → Settled (verdict c) (get_request id m)
    → (decide b id m).1 ≡ false
unfolding approve reject
decide-decided true c id m h = resolve-decided approved (verdict c) true id m (verdict-final c) h
decide-decided false c id m h = resolve-decided rejected (verdict c) false id m (verdict-final c) h

-- A request is decided at most once: after an `Approve` or a `Reject` that succeeds, and any calls
-- that create no request under its id, every further `Approve` or `Reject` of it fails.
pub decide_once :
    (first second : Bool) (id : String) (m : ApprovalManager) (os : List Op)
    → All (Spares id) os
    → (decide first id m).1 ≡ true
    → (decide second id (apply_ops os (decide first id m).0)).1 ≡ false
decide_once first second id m os sp h =
    decide-decided second first id (apply_ops os (decide first id m).0) (
      apply_ops-Settled id (verdict first) (verdict-final first) os (decide first id m).0 sp
        (decide-settles first id m h))
