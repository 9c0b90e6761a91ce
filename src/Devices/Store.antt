-- ===== src/Devices/Store.antt =====
-- pkg/devices/store.go and token.go: the paired devices. `saved` is what the file holds. `writes`
-- says whether the write of the file in this call succeeds.
pub mod Facts
pub mod Tokens
use moon_hub.Base.{
  ℕ, suc, ◌+◌, ◌*◌, String, Bool, true, false, not, ◌&&◌, Option, none, some, List, [], ◌∷◌, ltb,
  ◌==◌, if◌then◌else◌, str_eq, lookup, insert, delete, length,
}

pub record PairedDevice : Type 0 where
  pub id : String
  pub name : String
  pub token : String
  pub token_expires_at : ℕ
  pub paired_at : ℕ
  pub last_seen_at : ℕ
  pub ip_address : String
  pub user_agent : String

pub record DeviceStore : Type 0 where
  pub devices : List (String × PairedDevice)
  pub saved : List (String × PairedDevice)

-- What Go's packages say of a text: its length in bytes, and whether a decoder takes it.
pub record TokenText : Type 0 where
  pub byte_length : String → ℕ
  pub hex_decodes : String → Bool
  pub url_decodes : String → Bool
  pub raw_url_decodes : String → Bool

-- 30 days, in nanoseconds.
abbrev pub token_validity : ℕ
token_validity = 30 * 24 * 3600000000000

abbrev pub token_length : ℕ
token_length = 32

-- `ValidateToken` of token.go.
unfoldable pub is_plausible : TokenText → String → Bool
is_plausible x token =
    if x.byte_length token == 2 * token_length
    then x.hex_decodes token
    else if ltb (x.byte_length token) 10
    then false
    else if x.url_decodes token
    then true
    else x.raw_url_decodes token

-- The second component is whether `save` returns no error.
unfoldable pub save : Bool → DeviceStore → DeviceStore × Bool
save writes s = if writes then (record s { saved = s.devices }, true) else (s, false)

unfoldable pub add_device : Bool → PairedDevice → DeviceStore → DeviceStore × Bool
unfolding save
add_device writes device s = save writes (record s { devices = insert device.id device s.devices })

unfoldable pub remove_device : Bool → String → DeviceStore → DeviceStore × Bool
unfolding save
remove_device writes id s = save writes (record s { devices = delete id s.devices })

unfoldable pub get_device : String → DeviceStore → Option PairedDevice
get_device id s = lookup id s.devices

-- The loop over the devices, which stops at the first with the token.
unfoldable pub find_token : String → List (String × PairedDevice) → Option PairedDevice
find_token token [] = none
find_token token ((id, d) ∷ ds) =
    let rest = find_token token ds in if str_eq d.token token then some d else rest

unfoldable pub get_device_by_token : String → DeviceStore → Option PairedDevice
unfolding find_token
get_device_by_token token s = find_token token s.devices

pub data TokenValidation : Type 0 where
  valid : String → ℕ → TokenValidation
  invalid_format token_expired token_not_found : TokenValidation

unfoldable pub validate_token : TokenText → ℕ → String → DeviceStore → TokenValidation
unfolding is_plausible find_token
validate_token x now token s =
    if not (is_plausible x token) then invalid_format else elim (find_token token s.devices) [
      | none ↦ token_not_found
      | some d ↦ if ltb d.token_expires_at now then token_expired else valid d.id d.token_expires_at
    ]

unfoldable pub update_last_seen : Bool → ℕ → String → String → DeviceStore → DeviceStore × Bool
unfolding save
update_last_seen writes now id ip s = elim (lookup id s.devices) [
  | none ↦ (s, true)
  | some d ↦ save writes (record s {
    devices = insert id (record d { last_seen_at = now; ip_address = ip }) s.devices;
  })
]

unfoldable pub has_devices : DeviceStore → Bool
has_devices s = ltb 0 (length s.devices)

unfoldable pub count : DeviceStore → ℕ
count s = length s.devices

-- The loop of `CleanupExpiredTokens`: the devices that stay, and how many were removed.
unfoldable pub drop_expired : ℕ → List (String × PairedDevice) → List (String × PairedDevice) × ℕ
drop_expired now [] = ([], 0)
drop_expired now ((id, d) ∷ ds) =
    let rest = drop_expired now ds in
    if ltb d.token_expires_at now then (rest.0, suc rest.1) else ((id, d) ∷ rest.0, rest.1)

unfoldable pub cleanup_expired_tokens : Bool → ℕ → DeviceStore → DeviceStore × ℕ
unfolding drop_expired save
cleanup_expired_tokens writes now s =
    let r = drop_expired now s.devices in
    let s' = record s { devices = r.0 } in ((if ltb 0 r.1 then (save writes s').0 else s'), r.1)
