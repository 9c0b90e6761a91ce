-- ===== src/Providers/Cooldown/Facts.antt =====
-- What the cooldown tracker guarantees between failures and successes.
use moon_hub.Base.{
  ℕ, ◌+◌, ◌<◌, ◌≡◌, refl, ◌↔◌, String, true, false, some, arith, str_eq, eq_iff, if◌then◌else◌,
  lookup, lookup-insert, Option-cases, inl, inr,
}
use moon_hub.Providers.Types.{FailoverReason, billing, is_billing}
use moon_hub.Providers.Cooldown.{
  CooldownEntry, CooldownTracker, calculate_standard_cooldown, calculate_billing_cooldown,
  get_or_create, fail_entry, mark_failure, entry_available, is_available, entry_remaining,
  cooldown_remaining, error_count, failure_count,
}

entry_available-remaining :
    (now : ℕ) (e : CooldownEntry) → (entry_available now e ≡ true) ↔ (entry_remaining now e ≡ 0)
unfolding entry_available entry_remaining
entry_available-remaining now e = (λ h. ground arith, λ h. ground arith)

-- A provider is available exactly when no cooldown remains.
pub is_available-cooldown_remaining :
    (now : ℕ) (provider : String) (ct : CooldownTracker)
    → (is_available now provider ct ≡ true) ↔ (cooldown_remaining now provider ct ≡ 0)
unfolding is_available cooldown_remaining
is_available-cooldown_remaining now provider ct = elim (Option-cases (lookup provider ct.entries)) [
  | inl e ↦ rw (e, is_available, cooldown_remaining) ((λ _. refl), (λ _. refl))
  | inr (v, e) ↦ rw (e, is_available, cooldown_remaining) (entry_available-remaining now v)
]

-- How long the failure that was just recorded keeps its provider out.
abbrev pub block_time : FailoverReason → String → CooldownTracker → ℕ
block_time reason provider ct =
    if is_billing reason
    then calculate_billing_cooldown (failure_count provider billing ct)
    else calculate_standard_cooldown (error_count provider ct)

lookup-mark_failure :
    (now : ℕ) (p : String) (reason : FailoverReason) (ct : CooldownTracker) (j : String)
    → lookup j (mark_failure now p reason ct).entries ≡ (
        if str_eq p j
        then some (fail_entry now ct.failure_window reason (get_or_create p ct))
        else lookup j ct.entries)
unfolding mark_failure
lookup-mark_failure now p reason ct j = lookup-insert p j _ ct.entries

lookup-mark_failure_self :
    (now : ℕ) (p : String) (reason : FailoverReason) (ct : CooldownTracker)
    → lookup p (mark_failure now p reason ct).entries
      ≡ some (fail_entry now ct.failure_window reason (get_or_create p ct))
lookup-mark_failure_self now p reason ct =
    ground (arith, lookup-mark_failure now p reason ct p, eq_iff p p)

fail_entry-blocks :
    (now t window : ℕ) (reason : FailoverReason) (e : CooldownEntry)
    → let e' = fail_entry now window reason e in
      t
        < now
          + (if is_billing reason
              then calculate_billing_cooldown (e'.failure_counts billing)
              else calculate_standard_cooldown e'.error_count)
      → entry_available t e' ≡ false
unfolding fail_entry entry_available
fail_entry-blocks now t window billing e h = ground arith
fail_entry-blocks now t window reason e h = ground arith

-- A failure keeps its provider unavailable for the whole block time that it computes.
pub mark_failure-blocks :
    (now t : ℕ) (p : String) (reason : FailoverReason) (ct : CooldownTracker)
    → t < now + block_time reason p (mark_failure now p reason ct)
    → is_available t p (mark_failure now p reason ct) ≡ false
unfolding is_available error_count failure_count
mark_failure-blocks now t p reason ct h =
    let e = lookup-mark_failure_self now p reason ct in
    rw (e, is_available)
      (fail_entry-blocks now t ct.failure_window reason (get_or_create p ct)
        (rw (e, error_count, failure_count) at h))
