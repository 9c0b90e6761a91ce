-- ===== src/Media/Store/Index.antt =====
-- pkg/media/store.go: the three maps against each other.
use moon_hub.Base.{
  ℕ, ◌≡◌, refl, sym, ap, ◌∙◌, String, Bool, true, false, ◌&&◌, Option, none, some, List, [], ◌∷◌,
  ◌==◌, if◌then◌else◌, length, lookup, insert, delete, lookup-insert, lookup-delete, str_eq, eq_iff,
  arith, inl, inr, Bool-cases,
}
use moon_hub.Media.Store.{
  MediaMeta, RefSet, FileMediaStore, set_or_new, refs_of, store, leave_set, leave_own, expire_ref,
}

abbrev pub is_some {ℓ} : {A : Type ℓ} → Option A → Bool
is_some none = false
is_some (some a) = true

abbrev pub in_set : String → Option RefSet → Bool
in_set ref none = false
in_set ref (some rs) = is_some (lookup ref rs)

-- The scope's set has the reference.
abbrev pub has_ref : String → String → List (String × RefSet) → Bool
has_ref scope ref scopes = in_set ref (lookup scope scopes)

-- The scope of the reference is the given one.
abbrev pub is_scope : String → Option String → Bool
is_scope scope none = false
is_scope scope (some mine) = str_eq mine scope

-- A reference has an entry exactly when it has a scope, and stands in the set of that scope only.
pub record Indexed (s : FileMediaStore) : Type 0 where
  pub entries : (ref : String) → is_some (lookup ref s.refs) ≡ is_some (lookup ref s.ref_to_scope)
  pub sets :
      (scope ref : String)
      → has_ref scope ref s.scope_to_refs ≡ is_scope scope (lookup ref s.ref_to_scope)

pub ap-if {ℓ κ} :
    {A : Type ℓ} {B : Type κ} (f : A → B) (b : Bool) (x y : A)
    → f (if b then x else y) ≡ (if b then f x else f y)
ap-if f true x y = refl
ap-if f false x y = refl

is_some-insert {ℓ} :
    {V : Type ℓ} (k r : String) (v : V) (m : List (String × V))
    → is_some (lookup r (insert k v m)) ≡ (if str_eq k r then true else is_some (lookup r m))
is_some-insert k r v m = ap is_some (lookup-insert k r v m) ∙ ap-if is_some (str_eq k r) _ _

pub is_some-delete {ℓ} :
    {V : Type ℓ} (k r : String) (m : List (String × V))
    → is_some (lookup r (delete k m)) ≡ (if str_eq k r then false else is_some (lookup r m))
is_some-delete k r m = ap is_some (lookup-delete k r m) ∙ ap-if is_some (str_eq k r) _ _

has_ref-insert :
    (scope sc r : String) (rs : RefSet) (scopes : List (String × RefSet))
    → has_ref sc r (insert scope rs scopes)
      ≡ (if str_eq scope sc then is_some (lookup r rs) else has_ref sc r scopes)
has_ref-insert scope sc r rs scopes =
    ap (in_set r) (lookup-insert scope sc rs scopes) ∙ ap-if (in_set r) (str_eq scope sc) _ _

pub has_ref-delete :
    (scope sc r : String) (scopes : List (String × RefSet))
    → has_ref sc r (delete scope scopes) ≡ (if str_eq scope sc then false else has_ref sc r scopes)
has_ref-delete scope sc r scopes =
    ap (in_set r) (lookup-delete scope sc scopes) ∙ ap-if (in_set r) (str_eq scope sc) _ _

is_scope-insert :
    (ref scope sc r : String) (m : List (String × String))
    → is_scope sc (lookup r (insert ref scope m))
      ≡ (if str_eq ref r then str_eq scope sc else is_scope sc (lookup r m))
is_scope-insert ref scope sc r m =
    ap (is_scope sc) (lookup-insert ref r scope m) ∙ ap-if (is_scope sc) (str_eq ref r) _ _

pub is_scope-delete :
    (ref sc r : String) (m : List (String × String))
    → is_scope sc (lookup r (delete ref m))
      ≡ (if str_eq ref r then false else is_scope sc (lookup r m))
is_scope-delete ref sc r m =
    ap (is_scope sc) (lookup-delete ref r m) ∙ ap-if (is_scope sc) (str_eq ref r) _ _

in_set-set_or_new :
    (r : String) (o : Option RefSet) → is_some (lookup r (set_or_new o)) ≡ in_set r o
unfolding lookup
in_set-set_or_new r none = refl
in_set-set_or_new r (some rs) = refl

lookup-empty {ℓ} :
    {V : Type ℓ} (r : String) (m : List (String × V))
    → (length m == 0) ≡ true
    → is_some (lookup r m) ≡ false
unfolding lookup
lookup-empty r [] h = refl
lookup-empty r (kv ∷ m) h = ground arith

pub has_ref-same :
    (scope sc r : String) (o : Option RefSet) (scopes : List (String × RefSet))
    → lookup scope scopes ≡ o
    → str_eq scope sc ≡ true
    → has_ref sc r scopes ≡ in_set r o
has_ref-same scope sc r o scopes e hit =
    ap (λ k. has_ref k r scopes) (sym ((eq_iff scope sc).0 hit)) ∙ ap (in_set r) e

has_ref-leave_set :
    (ref scope sc r : String) (o : Option RefSet) (scopes : List (String × RefSet))
    → lookup scope scopes ≡ o
    → has_ref sc r (leave_set ref scope o scopes)
      ≡ (if str_eq scope sc && str_eq ref r then false else has_ref sc r scopes)
has_ref-leave_set ref scope sc r none scopes e =
    ground (arith, has_ref-same scope sc r none scopes e)
has_ref-leave_set ref scope sc r (some rs) scopes e =
    elim (Bool-cases (length (delete ref rs) == 0)) [
      | inl done ↦ ground (
        arith,
        has_ref-delete scope sc r scopes,
        is_some-delete ref r rs,
        lookup-empty r (delete ref rs) done,
        has_ref-same scope sc r (some rs) scopes e,
      )
      | inr more ↦ ground (
        arith,
        has_ref-insert scope sc r (delete ref rs) scopes,
        is_some-delete ref r rs,
        has_ref-same scope sc r (some rs) scopes e,
      )
    ]

pub store-Indexed :
    (now : ℕ) (exists : Bool) (ref path : String) (meta : MediaMeta) (scope : String)
    (s : FileMediaStore)
    → lookup ref s.refs ≡ none
    → Indexed s
    → Indexed (store now exists ref path meta scope s).0
unfolding store
store-Indexed now false ref path meta scope s fresh h = h
store-Indexed now true ref path meta scope s fresh h = record {
  entries = λ r.
      is_some-insert ref r _ s.refs
      ∙ ground (arith, is_some-insert ref r scope s.ref_to_scope, h.entries r);
  sets = λ sc r.
      has_ref-insert scope sc r (insert ref tt (refs_of scope s.scope_to_refs)) s.scope_to_refs
      ∙ ground (
        arith,
        is_some-insert ref r tt (refs_of scope s.scope_to_refs),
        in_set-set_or_new r (lookup scope s.scope_to_refs),
        is_scope-insert ref scope sc r s.ref_to_scope,
        h.sets sc r,
        h.sets scope r,
        h.entries r,
        eq_iff scope sc,
        eq_iff ref r,
      );
}

leave_own_sets :
    (ref sc r : String) (o : Option String) (s : FileMediaStore)
    → lookup ref s.ref_to_scope ≡ o
    → Indexed s
    → has_ref sc r (leave_own ref o s.scope_to_refs)
      ≡ is_scope sc (lookup r (delete ref s.ref_to_scope))
leave_own_sets ref sc r none s e h =
    ground (arith, h.sets sc r, is_scope-delete ref sc r s.ref_to_scope, eq_iff ref r)
leave_own_sets ref sc r (some scope) s e h = ground (
  arith,
  h.sets sc r,
  is_scope-delete ref sc r s.ref_to_scope,
  eq_iff ref r,
  has_ref-leave_set ref scope sc r (lookup scope s.scope_to_refs) s.scope_to_refs refl,
)

pub expire_ref-Indexed :
    (ref : String) (s : FileMediaStore) → Indexed s → Indexed (expire_ref ref s)
unfolding expire_ref
expire_ref-Indexed ref s h = record {
  entries = λ r.
      ground (arith, h.entries r, lookup-delete ref r s.refs, lookup-delete ref r s.ref_to_scope);
  sets = λ sc r. leave_own_sets ref sc r (lookup ref s.ref_to_scope) s refl h;
}
