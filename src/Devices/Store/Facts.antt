-- ===== src/Devices/Store/Facts.antt =====
-- pkg/devices/store.go: the calls on the store, and what the file holds after them.
use moon_hub.Base.{
  ℕ, ◌+◌, ◌≤◌, ◌≡◌, refl, sym, subst, ap, String, Bool, true, false, none, some, List, [], ◌∷◌, ltb,
  length, insert, delete, lookup, AllValues, arith, All,
}
use moon_hub.Devices.Store.{
  PairedDevice, DeviceStore, save, add_device, remove_device, update_last_seen, drop_expired,
  cleanup_expired_tokens, count,
}

-- A call on the store, with whether its write of the file succeeds.
pub data StoreOp : Type 0 where
  add : Bool → PairedDevice → StoreOp
  remove : Bool → String → StoreOp
  seen : Bool → ℕ → String → String → StoreOp
  cleanup : Bool → ℕ → StoreOp

unfoldable pub apply_op : StoreOp → DeviceStore → DeviceStore
apply_op (add writes device) s = (add_device writes device s).0
apply_op (remove writes id) s = (remove_device writes id s).0
apply_op (seen writes now id ip) s = (update_last_seen writes now id ip s).0
apply_op (cleanup writes now) s = (cleanup_expired_tokens writes now s).0

unfoldable pub apply_ops : List StoreOp → DeviceStore → DeviceStore
apply_ops [] s = s
apply_ops (op ∷ ops) s = apply_ops ops (apply_op op s)

-- The write of the call succeeds.
abbrev pub is_written : StoreOp → Bool
is_written (add writes _) = writes
is_written (remove writes _) = writes
is_written (seen writes _ _ _) = writes
is_written (cleanup writes _) = writes

drop_expired-none :
    (now : ℕ) (ds : List (String × PairedDevice))
    → ltb 0 (drop_expired now ds).1 ≡ false
    → (drop_expired now ds).0 ≡ ds
unfolding drop_expired
drop_expired-none now [] h = refl
drop_expired-none now ((id, d) ∷ ds) h = ground (arith, drop_expired-none now ds)

apply_op-saved :
    (op : StoreOp) (s : DeviceStore)
    → is_written op ≡ true
    → s.saved ≡ s.devices
    → (apply_op op s).saved ≡ (apply_op op s).devices
unfolding apply_op add_device remove_device update_last_seen cleanup_expired_tokens save
apply_op-saved (add writes device) s w h = ground arith
apply_op-saved (remove writes id) s w h = ground arith
apply_op-saved (seen writes now id ip) s w h = ground arith
apply_op-saved (cleanup writes now) s w h = ground (arith, drop_expired-none now s.devices)

-- While every write of the file succeeds, the file holds the devices in memory, also when a clean-up
-- that removes nothing skips the write.
pub apply_ops-saved :
    (ops : List StoreOp) (s : DeviceStore)
    → All (λ op. is_written op ≡ true) ops
    → s.saved ≡ s.devices
    → (apply_ops ops s).saved ≡ (apply_ops ops s).devices
unfolding apply_ops
apply_ops-saved [] s w h = h
apply_ops-saved (op ∷ ops) s w h =
    apply_ops-saved ops (apply_op op s) w.1 (apply_op-saved op s w.0 h)

drop_expired-length :
    (now : ℕ) (ds : List (String × PairedDevice))
    → length (drop_expired now ds).0 + (drop_expired now ds).1 ≡ length ds
unfolding drop_expired
drop_expired-length now [] = omega arith
drop_expired-length now ((id, d) ∷ ds) = ground (arith, drop_expired-length now ds)

drop_expired-live :
    (now : ℕ) (ds : List (String × PairedDevice))
    → AllValues (λ d. now ≤ d.token_expires_at) (drop_expired now ds).0
unfolding drop_expired
drop_expired-live now [] = tt
drop_expired-live now ((id, d) ∷ ds) = ground (arith, drop_expired-live now ds)

pub cleanup_expired_tokens-devices :
    (writes : Bool) (now : ℕ) (s : DeviceStore)
    → (cleanup_expired_tokens writes now s).0.devices ≡ (drop_expired now s.devices).0
unfolding cleanup_expired_tokens save
cleanup_expired_tokens-devices writes now s = ground arith

cleanup_expired_tokens-removed :
    (writes : Bool) (now : ℕ) (s : DeviceStore)
    → (cleanup_expired_tokens writes now s).1 ≡ (drop_expired now s.devices).1
unfolding cleanup_expired_tokens
cleanup_expired_tokens-removed writes now s = refl

pub add_device-devices :
    (writes : Bool) (d : PairedDevice) (s : DeviceStore)
    → (add_device writes d s).0.devices ≡ insert d.id d s.devices
unfolding add_device
add_device-devices writes d s = ground arith

pub remove_device-devices :
    (writes : Bool) (k : String) (s : DeviceStore)
    → (remove_device writes k s).0.devices ≡ delete k s.devices
unfolding remove_device
remove_device-devices writes k s = ground arith

pub update_last_seen-none :
    (writes : Bool) (now : ℕ) (k ip : String) (s : DeviceStore)
    → lookup k s.devices ≡ none
    → (update_last_seen writes now k ip s).0.devices ≡ s.devices
unfolding update_last_seen
update_last_seen-none writes now k ip s l = ground arith

pub update_last_seen-some :
    (writes : Bool) (now : ℕ) (k ip : String) (d : PairedDevice) (s : DeviceStore)
    → lookup k s.devices ≡ some d
    → (update_last_seen writes now k ip s).0.devices
      ≡ insert k (record d { last_seen_at = now; ip_address = ip }) s.devices
unfolding update_last_seen save
update_last_seen-some writes now k ip d s l = ground arith

-- `CleanupExpiredTokens` leaves no device whose token has expired, and returns how many it removed.
pub cleanup_expired_tokens-live :
    (writes : Bool) (now : ℕ) (s : DeviceStore)
    → let r = cleanup_expired_tokens writes now s in
      AllValues (λ d. now ≤ d.token_expires_at) r.0.devices × (count r.0 + r.1 ≡ count s)
unfolding count
cleanup_expired_tokens-live writes now s =
    let e = cleanup_expired_tokens-devices writes now s in
    (
      subst (AllValues (λ d. now ≤ d.token_expires_at)) (sym e) (drop_expired-live now s.devices),
      omega (
        arith,
        ap length e,
        cleanup_expired_tokens-removed writes now s,
        drop_expired-length now s.devices,
      ),
    )
