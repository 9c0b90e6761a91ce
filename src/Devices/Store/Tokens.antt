-- ===== src/Devices/Store/Tokens.antt =====
-- pkg/devices/store.go: how long a token is valid.
use moon_hub.Base.{
  ℕ, ◌≡◌, String, Bool, true, not, ◌&&◌, ◌==◌, some, List, ltb, if◌then◌else◌, str_eq, lookup, All,
}
use moon_hub.Devices.Store.{PairedDevice}
use moon_hub.Devices.Store.Facts.{StoreOp, add, remove, seen, cleanup}

module _ (token id : String) (e : ℕ) where
  -- Only the entry of `id` may hold the token, and it expires at `e`.
  abbrev owns : String × PairedDevice → Bool
  owns kd =
      if str_eq kd.1.token token
      then str_eq kd.0 id && str_eq kd.1.id id && kd.1.token_expires_at == e
      else true

  abbrev Owned : List (String × PairedDevice) → Type 0
  Owned ds = All (λ kd. owns kd ≡ true) ds

  -- The device of `id` holds the token, and no other entry does.
  pub record Holds (ds : List (String × PairedDevice)) : Type 0 where
    pub owned : Owned ds
    pub holder : PairedDevice
    pub present : lookup id ds ≡ some holder
    pub held : str_eq holder.token token ≡ true

  -- The call neither removes the device of `id` nor pairs another with its id or token, and a
  -- clean-up comes before the token has expired.
  abbrev pub spares : StoreOp → Bool
  spares (add _ d) = not (str_eq d.id id) && not (str_eq d.token token)
  spares (remove _ k) = not (str_eq k id)
  spares (seen _ _ _ _) = true
  spares (cleanup _ now) = not (ltb e now)
