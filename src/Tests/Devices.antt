-- ===== src/Tests/Devices.antt =====
-- pkg/devices at concrete inputs.
use moon_hub.Base.{
  ℕ, ◌≡◌, ◌≢◌, ◌≤◌, refl, String, Bool, true, false, none, some, List, [], ◌∷◌, AllValues, str_eq,
  ◌+◌,
}
use moon_hub.Devices.Store.{
  PairedDevice, DeviceStore, TokenText, add_device, get_device, cleanup_expired_tokens, count,
  update_last_seen,
}
use moon_hub.Devices.Store.Facts.{
  StoreOp, add, seen, cleanup, apply_ops, apply_op, apply_ops-saved, cleanup_expired_tokens-live,
}
use moon_hub.Devices.Pairing.{
  PairingManager, get_current_code, validate_code, store_failed, paired, pair_device,
}
use moon_hub.Devices.Pairing.Once.{
  PairOp, generate, regenerate, validate, succeeds, pairs_once, validate_code-get_current_code,
  validate_code-store_failed,
}
use moon_hub.Devices.Pairing.Once

-- `t_id` is the id and `t_token` the token.
abbrev device : String → String → ℕ → PairedDevice
device t_id t_token until = record {
  id = t_id;
  name = "phone";
  token = t_token;
  token_expires_at = until;
  paired_at = 1;
  last_seen_at = 1;
  ip_address = "";
  user_agent = "";
}

abbrev empty_store : DeviceStore
empty_store = record { devices = []; saved = [] }

-- Tokens of 64 bytes that decode.
abbrev hex_text : TokenText
hex_text = record {
  byte_length = λ _. 64;
  hex_decodes = λ _. true;
  url_decodes = λ _. false;
  raw_url_decodes = λ _. false;
}

abbrev busy_calls : List StoreOp
busy_calls = add true (device "b" "t2" 5) ∷ seen true 6 "a" "10.0.0.1" ∷ cleanup true 7 ∷ []

count-busy_calls :
    count (apply_ops busy_calls (add_device true (device "a" "t1" 9) empty_store).0) ≡ 1
unfolding apply_ops apply_op add_device update_last_seen cleanup_expired_tokens count
    moon_hub.Base.lookup moon_hub.Base.insert
count-busy_calls = refl

apply_ops-saved-run :
    (apply_ops busy_calls empty_store).saved ≡ (apply_ops busy_calls empty_store).devices
apply_ops-saved-run = apply_ops-saved busy_calls empty_store (refl, (refl, (refl, tt))) refl

cleanup_expired_tokens-live-run :
    let r = cleanup_expired_tokens true 7 (add_device true (device "a" "t1" 5) empty_store).0 in
    AllValues (λ d. 7 ≤ d.token_expires_at) r.0.devices
    × (count r.0 + r.1 ≡ count (add_device true (device "a" "t1" 5) empty_store).0)
cleanup_expired_tokens-live-run =
    cleanup_expired_tokens-live true 7 (add_device true (device "a" "t1" 5) empty_store).0

-- A manager that shows the code "XM8888" since time 1.
abbrev ready : PairingManager
ready = record {
  current = some (record { code = "XM8888"; created_at = 1; used_at = none; paired_with = "" });
  used_codes = [];
  device_store = empty_store;
}

pairs_once_example :
    succeeds
      (validate_code 9 true (some "t2") "XM8888" (device "b" "" 0) (
        Once.apply_ops
          (regenerate 5 (some "AB1234") ∷ [])
          (validate_code 2 true (some "t1") "XM8888" (device "a" "" 0) ready).0)).1
    ≡ false
unfolding validate_code pair_device
pairs_once_example =
    pairs_once 2 9 true true (some "t1") (some "t2") "XM8888" (device "a" "" 0) (device "b" "" 0)
      (regenerate 5 (some "AB1234") ∷ []) ready refl (refl, tt)

validate_code-get_current_code-run :
    succeeds (validate_code 2 true (some "t1") "XM8888" (device "a" "" 0) ready).1
    ≡ str_eq (get_current_code 2 ready) "XM8888"
validate_code-get_current_code-run =
    validate_code-get_current_code 2 "t1" "XM8888" (device "a" "" 0) ready refl

validate_code-store_failed_example :
    let r = validate_code 2 false (some "t1") "XM8888" (device "a" "" 0) ready in
    (r.1 ≡ store_failed)
    × (get_device "a" r.0.device_store ≡ some (paired 2 "t1" (device "a" "" 0)))
    × (get_current_code 2 r.0 ≡ "XM8888")
unfolding get_current_code
validate_code-store_failed_example =
    validate_code-store_failed 2 "t1" "XM8888" (device "a" "" 0) ready refl refl
