-- ===== src/Providers/Cooldown/Counts.antt =====
-- The failure counters of the cooldown tracker, over any history of calls.
use native.Mathlib.Nat.{pow-le-pow_right}
use moon_hub.Base.{
  ℕ, zero, suc, ◌+◌, ◌-◌, ◌*◌, ◌^◌, min, max, ◌≤◌, ◌≡◌, refl, String, not, ◌&&◌, List, [], ◌∷◌,
  arith, ◌∙◌, str_eq, eq_iff, ltb, ◌==◌, if◌then◌else◌, lookup, lookup-insert, Option-cases, inl,
  inr, AllValues, AllValues-lookup, AllValues-insert,
}
use moon_hub.Providers.Types.{
  FailoverReason, auth, rate_limit, billing, timeout, format, overloaded, unknown,
}
use moon_hub.Providers.Cooldown.{
  CooldownEntry, CooldownTracker, hour, default_failure_window, no_failures, increment,
  new_cooldown_tracker, calculate_standard_cooldown, calculate_billing_cooldown, empty_entry,
  get_or_create, fail_entry, mark_failure, clear_entry, mark_success, error_count,
}

standard_cap : (n : ℕ) → 4 ≤ n → calculate_standard_cooldown n ≡ hour
unfolding calculate_standard_cooldown
standard_cap n h = let e : min (max 1 n - 1) 3 ≡ 3 = omega arith in rw e

-- The standard cooldown lies between one minute and one hour, does not shrink as the count grows,
-- and is one hour from the fourth error on.
pub calculate_standard_cooldown_bounds :
    (n : ℕ)
    → (60000000000 ≤ calculate_standard_cooldown n)
      × (calculate_standard_cooldown n ≤ hour)
      × (calculate_standard_cooldown n ≤ calculate_standard_cooldown (n + 1))
      × (calculate_standard_cooldown (n + 4) ≡ hour)
unfolding calculate_standard_cooldown
calculate_standard_cooldown_bounds zero = omega arith
calculate_standard_cooldown_bounds (suc zero) = omega arith
calculate_standard_cooldown_bounds (suc (suc zero)) = omega arith
calculate_standard_cooldown_bounds (suc (suc (suc zero))) = omega arith
calculate_standard_cooldown_bounds (suc (suc (suc (suc k)))) =
    let n = suc (suc (suc (suc k))) in
    let e = standard_cap n (omega arith) in
    let e' = standard_cap (n + 1) (omega arith) in
    (omega (arith, e), omega (arith, e), omega (arith, e, e'), standard_cap (n + 4) (omega arith))

billing_cap : (n : ℕ) → 4 ≤ n → calculate_billing_cooldown n ≡ 24 * hour
unfolding calculate_billing_cooldown
billing_cap n h =
    let e : 2 ^ 3 ≤ 2 ^ min (max 1 n - 1) 10 =
      pow-le-pow_right (omega arith) {i = 3} (omega arith) in
    omega (arith, e)

-- The billing cooldown lies between five hours and a day, and is a day from the fourth error on.
calculate_billing_cooldown_bounds :
    (n : ℕ)
    → (5 * hour ≤ calculate_billing_cooldown n)
      × (calculate_billing_cooldown n ≤ 24 * hour)
      × (calculate_billing_cooldown (n + 4) ≡ 24 * hour)
unfolding calculate_billing_cooldown
calculate_billing_cooldown_bounds zero = omega arith
calculate_billing_cooldown_bounds (suc zero) = omega arith
calculate_billing_cooldown_bounds (suc (suc zero)) = omega arith
calculate_billing_cooldown_bounds (suc (suc (suc zero))) = omega arith
calculate_billing_cooldown_bounds (suc (suc (suc (suc k)))) =
    let e = billing_cap (suc (suc (suc (suc k)))) (omega arith) in
    (omega (arith, e), omega (arith, e), billing_cap (suc (suc (suc (suc k))) + 4) (omega arith))

abbrev pub total : (FailoverReason → ℕ) → ℕ
total c = c auth + c rate_limit + c billing + c timeout + c format + c overloaded + c unknown

total-increment :
    (r : FailoverReason) (c : FailoverReason → ℕ) → total (increment r c) ≡ total c + 1
total-increment auth c = omega arith
total-increment _ c = omega arith

-- The error count of an entry is the sum of its counts by reason.
abbrev pub IsCounted : CooldownEntry → Type 0
IsCounted e = e.error_count ≡ total e.failure_counts

pub data Call : Type 0 where
  failure : FailoverReason → Call
  success : Call

pub record Event : Type 0 where
  pub provider : String
  pub now : ℕ
  pub call : Call

abbrev pub apply_call : Call → ℕ → String → CooldownTracker → CooldownTracker
apply_call (failure r) now p ct = mark_failure now p r ct
apply_call success now p ct = mark_success p ct

-- The newest event is the head of a history.
pub replay : List Event → CooldownTracker
replay [] = new_cooldown_tracker
replay (e ∷ h) = apply_call e.call e.now e.provider (replay h)

fail_entry-IsCounted :
    (now window : ℕ) (r : FailoverReason) (e : CooldownEntry)
    → IsCounted e
    → IsCounted (fail_entry now window r e)
unfolding fail_entry
fail_entry-IsCounted now window r e h =
    ground (arith, total-increment r e.failure_counts, total-increment r no_failures)

get_or_create-IsCounted :
    (p : String) (ct : CooldownTracker)
    → AllValues IsCounted ct.entries
    → IsCounted (get_or_create p ct)
unfolding get_or_create empty_entry
get_or_create-IsCounted p ct h = elim (Option-cases (lookup p ct.entries)) [
  | inl e ↦ rw (e, get_or_create) (omega arith)
  | inr (v, e) ↦ rw (e, get_or_create) (AllValues-lookup IsCounted p ct.entries h e)
]

apply_call-IsCounted :
    (c : Call) (now : ℕ) (p : String) (ct : CooldownTracker)
    → AllValues IsCounted ct.entries
    → AllValues IsCounted (apply_call c now p ct).entries
unfolding mark_failure mark_success clear_entry
apply_call-IsCounted (failure r) now p ct h =
    AllValues-insert IsCounted p _ ct.entries
      (fail_entry-IsCounted now ct.failure_window r _ (get_or_create-IsCounted p ct h)) h
apply_call-IsCounted success now p ct h = elim (Option-cases (lookup p ct.entries)) [
  | inl e ↦ rw (e, mark_success) h
  | inr (v, e) ↦ rw (e, mark_success) (AllValues-insert IsCounted p _ ct.entries (omega arith) h)
]

-- After any history of failures and successes, the error count of every entry is the sum of its
-- failure counts over the reasons.
pub replay-IsCounted : (h : List Event) → AllValues IsCounted (replay h).entries
unfolding replay new_cooldown_tracker
replay-IsCounted [] = tt
replay-IsCounted (e ∷ h) =
    apply_call-IsCounted e.call e.now e.provider (replay h) (replay-IsCounted h)

-- What the counter of one provider means: the failures since its last success, where a pause longer
-- than the window between two failures starts the count again.
abbrev last_failure_time : String → List Event → ℕ
last_failure_time p [] = 0
last_failure_time p (e ∷ h) =
    let rest = last_failure_time p h in
    if str_eq e.provider p then elim e.call [ failure r ↦ e.now | success ↦ rest ] else rest

abbrev pub streak : String → List Event → ℕ
streak p [] = 0
streak p (e ∷ h) =
    let rest = streak p h in
    let last = last_failure_time p h in
    if str_eq e.provider p
    then elim e.call [
      | failure r ↦
          (if not (last == 0) && ltb default_failure_window (e.now - last) then 1 else rest + 1)
      | success ↦ 0
    ]
    else rest

record Tracks (p : String) (h : List Event) (ct : CooldownTracker) : Type 0 where
  counted : (get_or_create p ct).error_count ≡ streak p h
  dated : (get_or_create p ct).last_failure ≡ last_failure_time p h
  windowed : ct.failure_window ≡ default_failure_window

get_or_create-mark_failure :
    (now : ℕ) (p q : String) (r : FailoverReason) (ct : CooldownTracker)
    → get_or_create q (mark_failure now p r ct) ≡ (
        if str_eq p q
        then fail_entry now ct.failure_window r (get_or_create p ct)
        else get_or_create q ct)
unfolding get_or_create mark_failure
get_or_create-mark_failure now p q r ct =
    rw
      (
        lookup-insert p q (fail_entry now ct.failure_window r (get_or_create p ct)) ct.entries,
        get_or_create,
      )
      (ground arith)

get_or_create-mark_success :
    (p q : String) (ct : CooldownTracker)
    → get_or_create q (mark_success p ct)
      ≡ (if str_eq p q then clear_entry (get_or_create p ct) else get_or_create q ct)
unfolding get_or_create mark_success clear_entry empty_entry
get_or_create-mark_success p q ct = elim (Option-cases (lookup p ct.entries)) [
  | inl e ↦ ground (arith, eq_iff p q)
  | inr (v, e) ↦ ground (arith, eq_iff p q, lookup-insert p q (clear_entry v) ct.entries)
]

mark_success-window :
    (p : String) (ct : CooldownTracker) → (mark_success p ct).failure_window ≡ ct.failure_window
unfolding mark_success
mark_success-window p ct = ground arith

apply_call-Tracks :
    (p q : String) (now : ℕ) (c : Call) (h : List Event) (ct : CooldownTracker)
    → Tracks p h ct
    → Tracks p (record { provider = q; now = now; call = c } ∷ h) (apply_call c now q ct)
unfolding mark_failure fail_entry clear_entry
apply_call-Tracks p q now (failure r) h ct t =
    let e = get_or_create-mark_failure now q p r ct in
    record {
      counted = ground (arith, e, eq_iff q p);
      dated = ground (arith, e, eq_iff q p);
      windowed = t.windowed;
    }
apply_call-Tracks p q now success h ct t =
    let e = get_or_create-mark_success q p ct in
    record {
      counted = ground (arith, e, eq_iff q p);
      dated = ground (arith, e, eq_iff q p);
      windowed = mark_success-window q ct ∙ t.windowed;
    }

replay-Tracks : (p : String) (h : List Event) → Tracks p h (replay h)
unfolding replay new_cooldown_tracker get_or_create lookup empty_entry
replay-Tracks p [] = record { counted = refl; dated = refl; windowed = refl }
replay-Tracks p (e ∷ h) =
    apply_call-Tracks p e.provider e.now e.call h (replay h) (replay-Tracks p h)

error_count-get_or_create :
    (p : String) (ct : CooldownTracker) → error_count p ct ≡ (get_or_create p ct).error_count
unfolding error_count get_or_create empty_entry
error_count-get_or_create p ct = ground arith

-- After any history of calls for any providers, the error count of a provider is its number of
-- failures since its last success, where a failure that comes more than the failure window after
-- the one before starts the count again.
pub error_count-replay : (p : String) (h : List Event) → error_count p (replay h) ≡ streak p h
error_count-replay p h = error_count-get_or_create p (replay h) ∙ (replay-Tracks p h).counted
