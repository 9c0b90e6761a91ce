-- ===== src/Providers/Cooldown.antt =====
-- pkg/providers/cooldown.go: cooldowns and billing disables per provider. A `time.Time` is the
-- number of nanoseconds since Go's zero time, so the zero time is 0; a `time.Duration` is a number
-- of nanoseconds. The clock reading of a method is its argument `now`.
pub mod Facts
pub mod Counts
use moon_hub.Base.{
  ℕ, ◌+◌, ◌-◌, ◌*◌, ◌^◌, min, max, String, Bool, true, false, not, ◌&&◌, Option, none, some, List,
  [], ltb, ◌==◌, if◌then◌else◌, lookup, insert,
}
use moon_hub.Providers.Types.{FailoverReason, billing, is_billing, reason_eq}

pub record CooldownEntry : Type 0 where
  pub error_count : ℕ
  pub failure_counts : FailoverReason → ℕ
  pub cooldown_end : ℕ
  pub disabled_until : ℕ
  pub disabled_reason : Option FailoverReason
  pub last_failure : ℕ

pub record CooldownTracker : Type 0 where
  pub entries : List (String × CooldownEntry)
  pub failure_window : ℕ

abbrev pub millisecond : ℕ
millisecond = 1000000

abbrev pub hour : ℕ
hour = 3600000 * millisecond

abbrev pub default_failure_window : ℕ
default_failure_window = 24 * hour

unfoldable pub new_cooldown_tracker : CooldownTracker
new_cooldown_tracker = record { entries = []; failure_window = default_failure_window }

-- `math.Pow(5, exp)` is exact for the exponents 0 to 3.
unfoldable pub calculate_standard_cooldown : ℕ → ℕ
calculate_standard_cooldown error_count =
    let n = max 1 error_count in
    let exp = min (n - 1) 3 in let ms = 60000 * 5 ^ exp in min 3600000 ms * millisecond

-- The floats are exact: the largest is 5 hours of milliseconds times 2 ^ 10.
unfoldable pub calculate_billing_cooldown : ℕ → ℕ
calculate_billing_cooldown billing_error_count =
    let n = max 1 billing_error_count in
    let exp = min (n - 1) 10 in let raw = 18000000 * 2 ^ exp in min 86400000 raw * millisecond

-- The counters of a fresh map.
abbrev pub no_failures : FailoverReason → ℕ
no_failures r = 0

abbrev pub increment : FailoverReason → (FailoverReason → ℕ) → FailoverReason → ℕ
increment r counts s = let n = counts s in if reason_eq r s then n + 1 else n

unfoldable pub empty_entry : CooldownEntry
empty_entry = record {
  error_count = 0;
  failure_counts = no_failures;
  cooldown_end = 0;
  disabled_until = 0;
  disabled_reason = none;
  last_failure = 0;
}

abbrev pub entry_or_new : Option CooldownEntry → CooldownEntry
entry_or_new none = empty_entry
entry_or_new (some e) = e

-- `getOrCreate`; the entry that it stores is the one that `mark_failure` writes back.
unfoldable pub get_or_create : String → CooldownTracker → CooldownEntry
get_or_create provider ct = entry_or_new (lookup provider ct.entries)

-- The reset after a quiet `failureWindow`. The truncated difference is 0 where Go's is negative, and
-- neither exceeds the window.
unfoldable pub reset_window : ℕ → ℕ → CooldownEntry → CooldownEntry
reset_window now window e =
    if not (e.last_failure == 0) && ltb window (now - e.last_failure)
    then record e { error_count = 0; failure_counts = no_failures }
    else e

unfoldable pub fail_entry : ℕ → ℕ → FailoverReason → CooldownEntry → CooldownEntry
unfolding reset_window
fail_entry now window reason e0 =
    let e1 = reset_window now window e0 in
    let e2 = record e1 {
      error_count = e1.error_count + 1;
      failure_counts = increment reason e1.failure_counts;
      last_failure = now;
    } in
    if is_billing reason
    then record e2 {
      disabled_until = now + calculate_billing_cooldown (e2.failure_counts billing);
      disabled_reason = some billing;
    }
    else record e2 { cooldown_end = now + calculate_standard_cooldown e2.error_count }

unfoldable pub mark_failure : ℕ → String → FailoverReason → CooldownTracker → CooldownTracker
unfolding get_or_create
mark_failure now provider reason ct = record ct {
  entries =
      insert provider (fail_entry now ct.failure_window reason (get_or_create provider ct))
        ct.entries;
}

unfoldable pub clear_entry : CooldownEntry → CooldownEntry
clear_entry e = record e {
  error_count = 0;
  failure_counts = no_failures;
  cooldown_end = 0;
  disabled_until = 0;
  disabled_reason = none;
}

unfoldable pub mark_success : String → CooldownTracker → CooldownTracker
mark_success provider ct = elim (lookup provider ct.entries) [
  | none ↦ ct
  | some e ↦ record ct { entries = insert provider (clear_entry e) ct.entries }
]

abbrev pub is_active : ℕ → ℕ → Bool
is_active now until = not (until == 0) && ltb now until

unfoldable pub entry_available : ℕ → CooldownEntry → Bool
entry_available now e =
    if is_active now e.disabled_until
    then false
    else if is_active now e.cooldown_end
    then false
    else true

unfoldable pub is_available : ℕ → String → CooldownTracker → Bool
unfolding entry_available
is_available now provider ct = elim (lookup provider ct.entries) [
  | none ↦ true
  | some e ↦ entry_available now e
]

-- One of the two blocks of `CooldownRemaining`.
abbrev pub extend_remaining : ℕ → ℕ → ℕ → ℕ
extend_remaining now until remaining =
    if is_active now until
    then (if ltb remaining (until - now) then until - now else remaining)
    else remaining

unfoldable pub entry_remaining : ℕ → CooldownEntry → ℕ
entry_remaining now e =
    extend_remaining now e.cooldown_end (extend_remaining now e.disabled_until 0)

unfoldable pub cooldown_remaining : ℕ → String → CooldownTracker → ℕ
unfolding entry_remaining
cooldown_remaining now provider ct = elim (lookup provider ct.entries) [
  | none ↦ 0
  | some e ↦ entry_remaining now e
]

unfoldable pub error_count : String → CooldownTracker → ℕ
error_count provider ct = elim (lookup provider ct.entries) [ none ↦ 0 | some e ↦ e.error_count ]

unfoldable pub failure_count : String → FailoverReason → CooldownTracker → ℕ
failure_count provider reason ct = elim (lookup provider ct.entries) [
  | none ↦ 0
  | some e ↦ e.failure_counts reason
]
