-- ===== src/Media/Store/Facts.antt =====
-- pkg/media/store.go: what the operations do to the references.
use moon_hub.Base.{
  ℕ, ◌≡◌, refl, sym, ap, ◌∙◌, String, Bool, true, false, Option, none, some, List, [], ◌∷◌,
  if◌then◌else◌, lookup, delete, keys, lookup-delete, str_eq, eq_iff, arith, inl, inr, Bool-cases,
  Option-cases,
}
use moon_hub.Media.Store.{
  MediaEntry, RefSet, FileMediaStore, forget_ref, release_refs, release_all, expire_ref, is_expired,
  clean_refs,
}
use moon_hub.Media.Store.Index.{
  is_some, in_set, has_ref, is_scope, Indexed, has_ref-delete, has_ref-same, ap-if,
  expire_ref-Indexed,
}

abbrev pub has_key : String → List String → Bool
has_key r [] = false
has_key r (k ∷ ks) = if str_eq k r then true else has_key r ks

pub has_key-keys {ℓ} :
    {V : Type ℓ} (r : String) (m : List (String × V)) → has_key r (keys m) ≡ is_some (lookup r m)
unfolding lookup
has_key-keys r [] = refl
has_key-keys r ((k, v) ∷ m) = ground (arith, has_key-keys r m)

release_refs-scopes :
    (ks : List String) (s : FileMediaStore) → (release_refs ks s).0.scope_to_refs ≡ s.scope_to_refs
unfolding release_refs
release_refs-scopes [] s = refl
release_refs-scopes (k ∷ ks) s = release_refs-scopes ks _

release_refs-refs :
    (r : String) (ks : List String) (s : FileMediaStore)
    → lookup r (release_refs ks s).0.refs ≡ (if has_key r ks then none else lookup r s.refs)
unfolding release_refs
release_refs-refs r [] s = refl
release_refs-refs r (k ∷ ks) s =
    ground (arith, release_refs-refs r ks (forget_ref k s), lookup-delete k r s.refs)

release_refs-owners :
    (r : String) (ks : List String) (s : FileMediaStore)
    → lookup r (release_refs ks s).0.ref_to_scope
      ≡ (if has_key r ks then none else lookup r s.ref_to_scope)
unfolding release_refs
release_refs-owners r [] s = refl
release_refs-owners r (k ∷ ks) s =
    ground (arith, release_refs-owners r ks (forget_ref k s), lookup-delete k r s.ref_to_scope)

-- The reference belongs to the scope.
abbrev pub belongs : String → String → FileMediaStore → Bool
belongs scope r s = is_scope scope (lookup r s.ref_to_scope)

has_key-belongs :
    (scope r : String) (s : FileMediaStore) (rs : RefSet)
    → lookup scope s.scope_to_refs ≡ some rs
    → Indexed s
    → has_key r (keys rs) ≡ belongs scope r s
has_key-belongs scope r s rs e h = has_key-keys r rs ∙ sym (ap (in_set r) e) ∙ h.sets scope r

not_belongs :
    (scope r : String) (s : FileMediaStore)
    → lookup scope s.scope_to_refs ≡ none
    → Indexed s
    → belongs scope r s ≡ false
not_belongs scope r s e h = sym (h.sets scope r) ∙ ap (in_set r) e

pub release_all-refs :
    (scope r : String) (s : FileMediaStore)
    → Indexed s
    → lookup r (release_all scope s).0.refs ≡ (if belongs scope r s then none else lookup r s.refs)
unfolding release_all
release_all-refs scope r s h = elim (Option-cases (lookup scope s.scope_to_refs)) [
  | inl e ↦ rw (e, release_all, not_belongs scope r s e h) refl
  | inr (rs, e) ↦
      rw (e, release_all)
        (rw (← has_key-belongs scope r s rs e h) (release_refs-refs r (keys rs) s))
]

release_all-owners :
    (scope r : String) (s : FileMediaStore)
    → Indexed s
    → lookup r (release_all scope s).0.ref_to_scope
      ≡ (if belongs scope r s then none else lookup r s.ref_to_scope)
unfolding release_all
release_all-owners scope r s h = elim (Option-cases (lookup scope s.scope_to_refs)) [
  | inl e ↦ rw (e, release_all, not_belongs scope r s e h) refl
  | inr (rs, e) ↦
      rw (e, release_all)
        (rw (← has_key-belongs scope r s rs e h) (release_refs-owners r (keys rs) s))
]

release_all-scopes :
    (scope sc r : String) (s : FileMediaStore)
    → Indexed s
    → has_ref sc r (release_all scope s).0.scope_to_refs
      ≡ (if str_eq scope sc then false else has_ref sc r s.scope_to_refs)
unfolding release_all
release_all-scopes scope sc r s h = elim (Option-cases (lookup scope s.scope_to_refs)) [
  | inl e ↦ rw (e, release_all) (ground (arith, has_ref-same scope sc r none s.scope_to_refs e))
  | inr (rs, e) ↦
      rw (e, release_all)
        (ap (λ m. has_ref sc r (delete scope m)) (release_refs-scopes (keys rs) s)
          ∙ has_ref-delete scope sc r s.scope_to_refs)
]

one_scope :
    (scope sc : String) (o : Option String)
    → (if str_eq scope sc then false else is_scope sc o)
      ≡ (if is_scope scope o then false else is_scope sc o)
one_scope scope sc none = ground arith
one_scope scope sc (some m) = ground (arith, eq_iff m scope, eq_iff m sc, eq_iff scope sc)

pub release_all-Indexed :
    (scope : String) (s : FileMediaStore) → Indexed s → Indexed (release_all scope s).0
release_all-Indexed scope s h = record {
  entries = λ r.
      ap is_some (release_all-refs scope r s h)
      ∙ ap-if is_some (belongs scope r s) _ _
      ∙ sym (
          ap is_some (release_all-owners scope r s h)
          ∙ ap-if is_some (belongs scope r s) _ _
          ∙ ap (λ b. if belongs scope r s then false else b) (sym (h.entries r)));
  sets = λ sc r.
      release_all-scopes scope sc r s h
      ∙ ap (λ b. if str_eq scope sc then false else b) (h.sets sc r)
      ∙ one_scope scope sc (lookup r s.ref_to_scope)
      ∙ sym (
          ap (is_scope sc) (release_all-owners scope r s h)
          ∙ ap-if (is_scope sc) (belongs scope r s) _ _);
}

pub clean_refs-Indexed :
    (cutoff : ℕ) (ks : List String) (s : FileMediaStore)
    → Indexed s
    → Indexed (clean_refs cutoff ks s).0
unfolding clean_refs
clean_refs-Indexed cutoff [] s h = h
clean_refs-Indexed cutoff (k ∷ ks) s h = elim (Option-cases (lookup k s.refs)) [
  | inl e ↦ rw (e, clean_refs) (clean_refs-Indexed cutoff ks s h)
  | inr (v, e) ↦ elim (Bool-cases (is_expired cutoff v)) [
    | inl old ↦
        rw (e, clean_refs, old)
          (clean_refs-Indexed cutoff ks (expire_ref k s) (expire_ref-Indexed k s h))
    | inr young ↦ rw (e, clean_refs, young) (clean_refs-Indexed cutoff ks s h)
  ]
]

-- What a clean-up leaves of an entry.
abbrev pub unexpired : ℕ → Option MediaEntry → Option MediaEntry
unexpired cutoff none = none
unexpired cutoff (some e) = if is_expired cutoff e then none else some e

pub clean_refs-refs :
    (cutoff : ℕ) (r : String) (ks : List String) (s : FileMediaStore)
    → lookup r (clean_refs cutoff ks s).0.refs
      ≡ (if has_key r ks then unexpired cutoff (lookup r s.refs) else lookup r s.refs)
unfolding clean_refs expire_ref
clean_refs-refs cutoff r [] s = refl
clean_refs-refs cutoff r (k ∷ ks) s = ground (
  arith,
  clean_refs-refs cutoff r ks s,
  clean_refs-refs cutoff r ks (expire_ref k s),
  lookup-delete k r s.refs,
  eq_iff k r,
)
