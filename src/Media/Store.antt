-- ===== src/Media/Store.antt =====
-- pkg/media/store.go: the three maps of `FileMediaStore`. An operation that deletes files returns
-- their paths; the deletion itself runs after the lock is released. `ref` is the fresh reference
-- that `Store` makes of a UUID, and `exists` whether the file is there.
pub mod Index
pub mod Facts
pub mod Reachable
use moon_hub.Base.{
  ℕ, ◌-◌, String, Bool, true, false, not, ◌&&◌, Option, none, some, List, [], ◌∷◌, ◌++◌, ltb, ◌==◌,
  if◌then◌else◌, length, lookup, insert, delete, keys,
}

pub record MediaMeta : Type 0 where
  pub filename : String
  pub content_type : String
  pub source : String

pub record MediaEntry : Type 0 where
  pub path : String
  pub meta : MediaMeta
  pub stored_at : ℕ

-- A length of time that is not positive is 0.
pub record MediaCleanerConfig : Type 0 where
  pub enabled : Bool
  pub max_age : ℕ
  pub interval : ℕ

abbrev pub RefSet : Type 0
RefSet = List (String × Unit {0})

-- `has_stop` says whether `stop` is not nil; `started` and `stopped` are the two `sync.Once`.
pub record FileMediaStore : Type 0 where
  pub refs : List (String × MediaEntry)
  pub scope_to_refs : List (String × RefSet)
  pub ref_to_scope : List (String × String)
  pub cleaner_cfg : MediaCleanerConfig
  pub has_stop : Bool
  pub started : Bool
  pub stopped : Bool

unfoldable pub new_file_media_store : FileMediaStore
new_file_media_store = record {
  refs = [];
  scope_to_refs = [];
  ref_to_scope = [];
  cleaner_cfg = record { enabled = false; max_age = 0; interval = 0 };
  has_stop = false;
  started = false;
  stopped = false;
}

unfoldable pub new_file_media_store_with_cleanup : MediaCleanerConfig → FileMediaStore
unfolding new_file_media_store
new_file_media_store_with_cleanup cfg = record new_file_media_store {
  cleaner_cfg = cfg;
  has_stop = true;
}

-- `s.scopeToRefs[scope]`, made if it is missing.
abbrev pub set_or_new : Option RefSet → RefSet
set_or_new none = []
set_or_new (some rs) = rs

abbrev pub refs_of : String → List (String × RefSet) → RefSet
refs_of scope scopes = set_or_new (lookup scope scopes)

unfoldable pub store :
    ℕ
    → Bool
    → String
    → String
    → MediaMeta
    → String
    → FileMediaStore
    → FileMediaStore × Option String
store now exists ref local_path meta scope s = if not exists then (s, none) else (
  record s {
    refs = insert ref (record { path = local_path; meta = meta; stored_at = now }) s.refs;
    scope_to_refs = insert scope (insert ref tt (refs_of scope s.scope_to_refs)) s.scope_to_refs;
    ref_to_scope = insert ref scope s.ref_to_scope;
  },
  some ref,
)

unfoldable pub resolve : String → FileMediaStore → Option String
resolve ref s = elim (lookup ref s.refs) [ none ↦ none | some e ↦ some e.path ]

unfoldable pub resolve_with_meta : String → FileMediaStore → Option (String × MediaMeta)
resolve_with_meta ref s = elim (lookup ref s.refs) [ none ↦ none | some e ↦ some (e.path, e.meta) ]

-- `delete(s.refs, ref); delete(s.refToScope, ref)`.
abbrev pub forget_ref : String → FileMediaStore → FileMediaStore
forget_ref ref s = record s { refs = delete ref s.refs; ref_to_scope = delete ref s.ref_to_scope }

-- The loop of `ReleaseAll` over the references of the scope.
unfoldable pub release_refs : List String → FileMediaStore → FileMediaStore × List String
release_refs [] s = (s, [])
release_refs (ref ∷ rs) s =
    let rest = release_refs rs (forget_ref ref s) in
    (rest.0, elim (lookup ref s.refs) [ none ↦ rest.1 | some e ↦ e.path ∷ rest.1 ])

unfoldable pub release_all : String → FileMediaStore → FileMediaStore × List String
unfolding release_refs
release_all scope s = elim (lookup scope s.scope_to_refs) [
  | none ↦ (s, [])
  | some rs ↦
      let r = release_refs (keys rs) s in
      (record r.0 { scope_to_refs = delete scope r.0.scope_to_refs }, r.1)
]

-- `delete(scopeRefs, ref)`, and the scope with its last reference.
abbrev pub leave_set :
    String → String → Option RefSet → List (String × RefSet) → List (String × RefSet)
leave_set ref scope none scopes = scopes
leave_set ref scope (some rs) scopes =
    let rest = delete ref rs in
    if length rest == 0 then delete scope scopes else insert scope rest scopes

abbrev pub leave_scope : String → String → List (String × RefSet) → List (String × RefSet)
leave_scope ref scope scopes = leave_set ref scope (lookup scope scopes) scopes

abbrev pub leave_own : String → Option String → List (String × RefSet) → List (String × RefSet)
leave_own ref none scopes = scopes
leave_own ref (some scope) scopes = leave_scope ref scope scopes

-- The body of the loop of `CleanExpired`, for an expired reference.
unfoldable pub expire_ref : String → FileMediaStore → FileMediaStore
expire_ref ref s = record s {
  scope_to_refs = leave_own ref (lookup ref s.ref_to_scope) s.scope_to_refs;
  refs = delete ref s.refs;
  ref_to_scope = delete ref s.ref_to_scope;
}

abbrev pub is_expired : ℕ → MediaEntry → Bool
is_expired cutoff e = ltb e.stored_at cutoff

unfoldable pub clean_refs : ℕ → List String → FileMediaStore → FileMediaStore × List String
unfolding expire_ref
clean_refs cutoff [] s = (s, [])
clean_refs cutoff (ref ∷ rs) s = elim (lookup ref s.refs) [
  | none ↦ clean_refs cutoff rs s
  | some e ↦
      let kept = clean_refs cutoff rs s in
      let rest = clean_refs cutoff rs (expire_ref ref s) in
      if is_expired cutoff e then (rest.0, e.path ∷ rest.1) else kept
]

-- The paths to delete; `CleanExpired` returns their number. A cutoff before the zero time, at which
-- nothing is stored, is 0.
unfoldable pub clean_expired : ℕ → FileMediaStore → FileMediaStore × List String
unfolding clean_refs
clean_expired now s =
    let max_age = s.cleaner_cfg.max_age in
    if max_age == 0 then (s, []) else clean_refs (now - max_age) (keys s.refs) s

-- `started` stands for the goroutine that calls `CleanExpired` at every tick.
unfoldable pub start : FileMediaStore → FileMediaStore
start s =
    let cfg = s.cleaner_cfg in
    if not (cfg.enabled && s.has_stop)
    then s
    else if cfg.interval == 0
    then s
    else if cfg.max_age == 0
    then s
    else record s { started = true }

unfoldable pub stop : FileMediaStore → FileMediaStore
stop s = if not s.has_stop then s else record s { stopped = true }
