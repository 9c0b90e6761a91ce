-- ===== src/Tests/Media.antt =====
-- pkg/media/store.go at concrete inputs.
use moon_hub.Base.{
  ◌-◌, ◌≡◌, refl, true, none, some, [], ◌∷◌, lookup, insert, delete, ltb, if◌then◌else◌,
}
use moon_hub.Media.Store.{
  MediaMeta, MediaCleanerConfig, FileMediaStore, new_file_media_store,
  new_file_media_store_with_cleanup, store, resolve, release_all, clean_expired,
}
use moon_hub.Media.Store.Index.{Indexed}
use moon_hub.Media.Store.Facts.{belongs}
use moon_hub.Media.Store.Reachable.{
  Reachable, opened, stored, Reachable-Indexed, resolve-release_all, resolve-clean_expired,
}

-- Media is kept for 10.
abbrev cfg : MediaCleanerConfig
cfg = record { enabled = true; max_age = 10; interval = 5 }

abbrev meta : MediaMeta
meta = record { filename = "f"; content_type = "image/png"; source = "tool" }

abbrev one_file : FileMediaStore
one_file = (store 1 true "r1" "/tmp/1" meta "chat" (new_file_media_store_with_cleanup cfg)).0

abbrev two_files : FileMediaStore
two_files = (store 8 true "r2" "/tmp/2" meta "other" one_file).0

two_files-Reachable : Reachable two_files
unfolding store new_file_media_store new_file_media_store_with_cleanup lookup insert
two_files-Reachable =
    stored 8 true "r2" "/tmp/2" meta "other" refl
      (stored 1 true "r1" "/tmp/1" meta "chat" refl (opened cfg))

release_all-paths : (release_all "chat" two_files).1 ≡ "/tmp/1" ∷ []
unfolding store new_file_media_store new_file_media_store_with_cleanup lookup insert delete
    release_all
release_all-paths = refl

clean_expired-paths : (clean_expired 12 two_files).1 ≡ "/tmp/1" ∷ []
unfolding store new_file_media_store new_file_media_store_with_cleanup lookup insert delete
    clean_expired
clean_expired-paths = refl

Reachable-Indexed_example : Indexed two_files
Reachable-Indexed_example = Reachable-Indexed two_files-Reachable

resolve-release_all_example :
    resolve "r2" (release_all "chat" two_files).0
    ≡ (if belongs "chat" "r2" two_files then none else resolve "r2" two_files)
resolve-release_all_example = resolve-release_all "chat" "r2" two_files-Reachable

resolve-clean_expired_example :
    resolve "r1" (clean_expired 12 two_files).0 ≡ (elim (lookup "r1" two_files.refs) [
      | none ↦ none
      | some e ↦ if ltb e.stored_at (12 - two_files.cleaner_cfg.max_age) then none else some e.path
    ])
unfolding store new_file_media_store new_file_media_store_with_cleanup
resolve-clean_expired_example = resolve-clean_expired 12 "r1" two_files refl
