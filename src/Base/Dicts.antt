-- ===== src/Base/Dicts.antt =====
-- A Go map with text keys, as an association list. A write to a present key replaces its value in
-- place, a write to a missing key adds the key at the end, and `delete` drops the key.
use Prim.Native.String.{String}
use text.Mathlib.TextEquality.{eq_iff}
use mathlib.Core.Path.{◌≡◌, refl, subst}
use mathlib.Core.Logic.{◌≢◌, inl, inr}
use mathlib.Core.List.{List, [], ◌∷◌, map}
use mathlib.Core.Option.{Option, none, some}
use native.Mathlib.Omega.{arith}
use moon_hub.Base.Tests.{str_eq, Bool-cases, if◌then◌else◌}

module _ {ℓ} {V : Type ℓ} where
  -- `v, ok := m[key]`.
  unfoldable pub lookup : String → List (String × V) → Option V
  lookup key [] = none
  lookup key ((this, found) ∷ others) =
      let later = lookup key others in if str_eq this key then some found else later

  -- `m[key] = new`.
  unfoldable pub insert : String → V → List (String × V) → List (String × V)
  insert key new [] = (key, new) ∷ []
  insert key new ((this, old) ∷ others) =
      let later = insert key new others in
      if str_eq this key then (this, new) ∷ others else (this, old) ∷ later

  -- `delete(m, key)`.
  unfoldable pub delete : String → List (String × V) → List (String × V)
  delete key [] = []
  delete key ((this, old) ∷ others) =
      let later = delete key others in if str_eq this key then later else (this, old) ∷ later

  abbrev pub keys : List (String × V) → List String
  keys m = map (λ kv. kv.0) m

  -- A read after a write, in one equation for all pairs of keys.
  pub lookup-insert :
      (written read : String) (new : V) (dict : List (String × V))
      → lookup read (insert written new dict)
        ≡ (if str_eq written read then some new else lookup read dict)
  unfolding lookup insert
  lookup-insert written read new [] = refl
  lookup-insert written read new ((this, old) ∷ others) =
      let ih = lookup-insert written read new others in
      ground (arith, ih, eq_iff this written, eq_iff this read, eq_iff written read)

  pub lookup-delete :
      (k j : String) (m : List (String × V))
      → lookup j (delete k m) ≡ (if str_eq k j then none else lookup j m)
  unfolding lookup delete
  lookup-delete k j [] = ground arith
  lookup-delete k j ((i, w) ∷ m) =
      ground (arith, eq_iff k j, eq_iff i k, eq_iff i j, lookup-delete k j m)

  pub lookup-insert_ne :
      (k j : String) (v : V) (m : List (String × V)) → k ≢ j → lookup j (insert k v m) ≡ lookup j m
  lookup-insert_ne k j v m h = ground (arith, eq_iff k j, lookup-insert k j v m)

  pub lookup-insert_self :
      (k : String) (v : V) (m : List (String × V)) → lookup k (insert k v m) ≡ some v
  lookup-insert_self k v m = ground (arith, eq_iff k k, lookup-insert k k v m)

  pub lookup-delete_ne :
      (k j : String) (m : List (String × V)) → k ≢ j → lookup j (delete k m) ≡ lookup j m
  lookup-delete_ne k j m h = ground (arith, eq_iff k j, lookup-delete k j m)

  pub lookup-delete_self : (k : String) (m : List (String × V)) → lookup k (delete k m) ≡ none
  lookup-delete_self k m = ground (arith, eq_iff k k, lookup-delete k k m)

  -- A property of every stored value.
  abbrev pub AllValues {κ} : (V → Type κ) → List (String × V) → Type κ
  AllValues P [] = Unit
  AllValues P ((k, v) ∷ m) = P v × AllValues P m

  pub AllValues-lookup {κ} :
      (P : V → Type κ) (k : String) (m : List (String × V)) {v : V}
      → AllValues P m
      → lookup k m ≡ some v
      → P v
  unfolding lookup
  AllValues-lookup P k [] h e = cc
  AllValues-lookup P k ((j, w) ∷ m) {v} h e = elim (Bool-cases (str_eq j k)) [
    | inl hit ↦ subst P {x = w} {y = v} (ground arith) h.0
    | inr miss ↦ AllValues-lookup P k m h.1 (rw miss at e)
  ]

  pub AllValues-insert {κ} :
      (P : V → Type κ) (k : String) (v : V) (m : List (String × V))
      → P v
      → AllValues P m
      → AllValues P (insert k v m)
  unfolding insert
  AllValues-insert P k v [] p h = (p, tt)
  AllValues-insert P k v ((j, w) ∷ m) p h = ground (arith, AllValues-insert P k v m p h.1)

  pub AllValues-delete {κ} :
      (P : V → Type κ) (k : String) (m : List (String × V))
      → AllValues P m
      → AllValues P (delete k m)
  unfolding delete
  AllValues-delete P k [] h = tt
  AllValues-delete P k ((j, w) ∷ m) h = ground (arith, AllValues-delete P k m h.1)
