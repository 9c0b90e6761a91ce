-- ===== src/Media/Store/Reachable.antt =====
-- pkg/media/store.go: the states that calls reach.
use moon_hub.Base.{
  ℕ, ◌-◌, ◌≡◌, refl, String, Bool, false, none, some, ltb, ◌==◌, if◌then◌else◌, lookup, keys, arith,
  inl, inr, Bool-cases,
}
use moon_hub.Media.Store.{
  MediaMeta, MediaCleanerConfig, FileMediaStore, new_file_media_store,
  new_file_media_store_with_cleanup, store, resolve, release_all, clean_expired,
}
use moon_hub.Media.Store.Index.{Indexed, store-Indexed}
use moon_hub.Media.Store.Facts.{
  belongs, has_key-keys, release_all-refs, release_all-Indexed, clean_refs-Indexed, clean_refs-refs,
}

-- The states that calls reach; each reference that `Store` makes is not in use.
pub data Reachable : FileMediaStore → Type 0 where
  opened : (cfg : MediaCleanerConfig) → Reachable (new_file_media_store_with_cleanup cfg)
  stored :
      (now : ℕ) (exists : Bool) (ref path : String) (meta : MediaMeta) (scope : String)
      {s : FileMediaStore}
      → lookup ref s.refs ≡ none
      → Reachable s
      → Reachable (store now exists ref path meta scope s).0
  released : (scope : String) {s : FileMediaStore} → Reachable s → Reachable (release_all scope s).0
  cleaned : (now : ℕ) {s : FileMediaStore} → Reachable s → Reachable (clean_expired now s).0

clean_expired-Indexed : (now : ℕ) (s : FileMediaStore) → Indexed s → Indexed (clean_expired now s).0
unfolding clean_expired
clean_expired-Indexed now s h =
    let cleaned = clean_refs-Indexed (now - s.cleaner_cfg.max_age) (keys s.refs) s h in
    elim (Bool-cases (s.cleaner_cfg.max_age == 0)) [
      | inl off ↦ rw (off, clean_expired) h
      | inr on ↦ rw (on, clean_expired) cleaned
    ]

-- In every reached state the three maps agree: a reference has an entry exactly when it has a scope,
-- and it stands in the set of its own scope and of no other.
pub Reachable-Indexed : {s : FileMediaStore} → Reachable s → Indexed s
unfolding new_file_media_store_with_cleanup new_file_media_store lookup
Reachable-Indexed (opened cfg) = record { entries = λ r. refl; sets = λ sc r. refl }
Reachable-Indexed (stored now exists ref path meta scope fresh q) =
    store-Indexed now exists ref path meta scope _ fresh (Reachable-Indexed q)
Reachable-Indexed (released scope q) = release_all-Indexed scope _ (Reachable-Indexed q)
Reachable-Indexed (cleaned now q) = clean_expired-Indexed now _ (Reachable-Indexed q)

-- In a reached state `ReleaseAll` of a scope takes exactly the references of the scope away: every
-- other reference resolves as before.
pub resolve-release_all :
    (scope r : String) {s : FileMediaStore}
    → Reachable s
    → resolve r (release_all scope s).0 ≡ (if belongs scope r s then none else resolve r s)
unfolding resolve
resolve-release_all scope r {s} q = ground (arith, release_all-refs scope r s (Reachable-Indexed q))

-- `CleanExpired`, where `MaxAge` is positive, takes exactly the references away that were stored more
-- than `MaxAge` ago.
pub resolve-clean_expired :
    (now : ℕ) (r : String) (s : FileMediaStore)
    → (s.cleaner_cfg.max_age == 0) ≡ false
    → resolve r (clean_expired now s).0 ≡ (elim (lookup r s.refs) [
      | none ↦ none
      | some e ↦ if ltb e.stored_at (now - s.cleaner_cfg.max_age) then none else some e.path
    ])
unfolding resolve clean_expired
resolve-clean_expired now r s on =
    ground (
      arith,
      clean_refs-refs (now - s.cleaner_cfg.max_age) r (keys s.refs) s,
      has_key-keys r s.refs,
    )
