-- ===== src/Devices/Pairing.antt =====
-- pkg/devices/pairing.go: one pairing code at a time. `now` is the reading of the clock in a call;
-- `fresh` is the code that `generatePairingCode` draws, `token` the token that `GenerateToken`
-- draws, and none of them if the random source fails.
pub mod Once
use moon_hub.Base.{
  ℕ, ◌+◌, ◌-◌, ◌*◌, String, Bool, true, false, not, ◌&&◌, Option, none, some, List, [], ◌∷◌, ltb,
  if◌then◌else◌, str_eq, insert,
}
use moon_hub.Devices.Store.{PairedDevice, DeviceStore, add_device, has_devices, token_validity}

pub record PairingCode : Type 0 where
  pub code : String
  pub created_at : ℕ
  pub used_at : Option ℕ
  pub paired_with : String

pub record PairingManager : Type 0 where
  pub current : Option PairingCode
  pub used_codes : List (String × PairingCode)
  pub device_store : DeviceStore

-- 5 minutes.
abbrev pub code_expiry : ℕ
code_expiry = 300000000000

abbrev pub is_unused : PairingCode → Bool
is_unused c = elim c.used_at [ none ↦ true | some _ ↦ false ]

abbrev pub is_fresh : ℕ → PairingCode → Bool
is_fresh now c = ltb (now - c.created_at) code_expiry

-- The end of `GenerateCodeOnce` and `RegenerateCode`.
unfoldable pub new_code : ℕ → Option String → PairingManager → PairingManager × Option String
new_code now none pm = (pm, none)
new_code now (some code) pm = (
  record pm {
    current = some (record { code = code; created_at = now; used_at = none; paired_with = "" });
  },
  some code,
)

unfoldable pub generate_code_once :
    ℕ → Option String → PairingManager → PairingManager × Option String
unfolding new_code
generate_code_once now fresh pm = elim pm.current [
  | none ↦ new_code now fresh pm
  | some c ↦ if is_unused c && is_fresh now c then (pm, some c.code) else new_code now fresh pm
]

unfoldable pub get_current_code : ℕ → PairingManager → String
get_current_code now pm = elim pm.current [
  | none ↦ ""
  | some c ↦ if not (is_unused c) then "" else if not (is_fresh now c) then "" else c.code
]

pub data PairingResult : Type 0 where
  success : String → ℕ → PairedDevice → PairingResult
  no_code invalid_code already_used code_expired : PairingResult
  -- Results with a Go error.
  token_failed store_failed : PairingResult

-- The device as it is stored.
abbrev pub paired : ℕ → String → PairedDevice → PairedDevice
paired now token device = record device {
  token = token;
  token_expires_at = now + token_validity;
  paired_at = now;
  last_seen_at = now;
}

-- `ValidateCode` behind its checks of the code.
unfoldable pub pair_device :
    ℕ
    → Bool
    → PairingCode
    → PairedDevice
    → Option String
    → PairingManager
    → PairingManager × PairingResult
unfolding add_device
pair_device now writes c device none pm = (pm, token_failed)
pair_device now writes c device (some token) pm =
    let d = paired now token device in
    let r = add_device writes d pm.device_store in
    let c' = record c { used_at = some now; paired_with = d.id } in
    if r.1
    then (
      record { current = some c'; used_codes = insert c.code c' pm.used_codes; device_store = r.0 },
      success token d.token_expires_at d,
    )
    else (record pm { device_store = r.0 }, store_failed)

unfoldable pub validate_code :
    ℕ
    → Bool
    → Option String
    → String
    → PairedDevice
    → PairingManager
    → PairingManager × PairingResult
unfolding pair_device
validate_code now writes token code device pm = elim pm.current [
  | none ↦ (pm, no_code)
  | some c ↦
      if not (str_eq c.code code)
      then (pm, invalid_code)
      else if not (is_unused c)
      then (pm, already_used)
      else if not (is_fresh now c)
      then (pm, code_expired)
      else pair_device now writes c device token pm
]

unfoldable pub is_paired : PairingManager → Bool
unfolding has_devices
is_paired pm = has_devices pm.device_store

-- The first step of `RegenerateCode`.
unfoldable pub retire : ℕ → PairingManager → PairingManager
retire now pm = elim pm.current [
  | none ↦ pm
  | some c ↦
      let c' = record c { used_at = some now; paired_with = "regenerated" } in
      if is_unused c
      then record pm { current = some c'; used_codes = insert c.code c' pm.used_codes }
      else pm
]

unfoldable pub regenerate_code : ℕ → Option String → PairingManager → PairingManager × Option String
unfolding retire new_code
regenerate_code now fresh pm = new_code now fresh (retire now pm)
