-- ===== src/Skills/SearchCache/Sync.antt =====
-- pkg/skills/search_cache.go: the entries and their order.
use moon_hub.Base.{
  ℕ, ◌≡◌, refl, String, Bool, true, false, ◌||◌, Option, none, some, List, [], ◌∷◌, ◌++◌, leb,
  if◌then◌else◌, str_eq, eq_iff, length, lookup, insert, delete, lookup-insert, lookup-delete,
  arith, Option-cases, Bool-cases, inl, inr,
}
use moon_hub.Skills.SearchCache.{
  CacheEntry, is_member, without_first, is_fresh, evict_from, evict_oldest,
}

abbrev pub is_some {ℓ} : {A : Type ℓ} → Option A → Bool
is_some none = false
is_some (some a) = true

is_member-append :
    (k : String) (xs ys : List String) → is_member k (xs ++ ys) ≡ (is_member k xs || is_member k ys)
is_member-append k [] ys = refl
is_member-append k (x ∷ xs) ys = ground (arith, is_member-append k xs ys)

is_member-without_first :
    (k key : String) (xs : List String)
    → (str_eq key k || is_member k (without_first key xs)) ≡ (str_eq key k || is_member k xs)
is_member-without_first k key [] = refl
is_member-without_first k key (x ∷ xs) =
    ground (arith, eq_iff x key, eq_iff key k, eq_iff x k, is_member-without_first k key xs)

pub is_member-moved :
    (k key : String) (xs : List String)
    → is_member k (without_first key xs ++ key ∷ []) ≡ (str_eq key k || is_member k xs)
is_member-moved k key xs =
    ground (
      arith,
      is_member-append k (without_first key xs) (key ∷ []),
      is_member-without_first k key xs,
    )

pub is_member-added :
    (k key : String) (xs : List String)
    → is_member k (xs ++ key ∷ []) ≡ (str_eq key k || is_member k xs)
is_member-added k key xs = ground (arith, is_member-append k xs (key ∷ []))

module _ {R : Type 0} where
  abbrev pub has : String → List (String × CacheEntry R) → Bool
  has k m = is_some (lookup k m)

  -- Every entry has its key in the order.
  abbrev pub InSync : List (String × CacheEntry R) → List String → Type 0
  InSync m order = (k : String) → has k m ≡ true → is_member k order ≡ true

  has-delete :
      (k key : String) (m : List (String × CacheEntry R))
      → has k (delete key m) ≡ (if str_eq key k then false else has k m)
  has-delete k key m = ground (arith, lookup-delete key k m)

  pub has-insert :
      (k key : String) (e : CacheEntry R) (m : List (String × CacheEntry R))
      → has k (insert key e m) ≡ (str_eq key k || has k m)
  has-insert k key e m = ground (arith, lookup-insert key k e m)

  -- What an eviction leaves was there, and its keys stay in the order.
  abbrev pub IsLeft :
      String
      → List (String × CacheEntry R)
      → List String
      → List (String × CacheEntry R) × List String
      → Type 0
  IsLeft k m order left =
      has k left.0 ≡ true
      → (has k m ≡ true) × (is_member k order ≡ true → is_member k left.1 ≡ true)

  skipped-IsLeft :
      (k key : String) (m : List (String × CacheEntry R)) (keys : List String)
      (left : List (String × CacheEntry R) × List String)
      → IsLeft k (delete key m) keys left
      → IsLeft k m (key ∷ keys) left
  skipped-IsLeft k key m keys left h there =
      let (p, q) = h there in
      (ground (arith, has-delete k key m, p), λ e. q (ground (arith, has-delete k key m, p, e)))

  pub evict_from-IsLeft :
      (now ttl : ℕ) (k : String) (keys : List String) (m : List (String × CacheEntry R))
      → IsLeft k m keys (evict_from now ttl keys m)
  unfolding evict_from
  evict_from-IsLeft now ttl k [] m = λ there. (there, λ e. e)
  evict_from-IsLeft now ttl k (key ∷ keys) m =
      let gone =
        skipped-IsLeft k key m keys (evict_from now ttl keys (delete key m))
          (evict_from-IsLeft now ttl k keys (delete key m)) in
      let kept = evict_from-IsLeft now ttl k keys m in
      elim (Option-cases (lookup key m)) [
        | inl e ↦ rw (e, evict_from) gone
        | inr (entry, e) ↦ elim (Bool-cases (is_fresh now ttl entry)) [
          | inl fresh ↦
              rw (e, fresh, evict_from)
                (λ there. ((kept there).0, λ i. ground (arith, (kept there).1, i)))
          | inr stale ↦ rw (e, stale, evict_from) gone
        ]
      ]

  pub evict_oldest-IsLeft :
      (most : ℕ) (k : String) (keys : List String) (m : List (String × CacheEntry R))
      → IsLeft k m keys (evict_oldest most keys m)
  unfolding evict_oldest
  evict_oldest-IsLeft most k [] m = λ there. (there, λ e. e)
  evict_oldest-IsLeft most k (key ∷ keys) m = elim (Bool-cases (leb most (length m))) [
    | inl full ↦
        rw (full, evict_oldest)
          (skipped-IsLeft k key m keys (evict_oldest most keys (delete key m))
            (evict_oldest-IsLeft most k keys (delete key m)))
    | inr free ↦ rw (free, evict_oldest) (λ there. (there, λ e. e))
  ]

  pub left-InSync :
      (m : List (String × CacheEntry R)) (order : List String)
      (left : List (String × CacheEntry R) × List String)
      → ((k : String) → IsLeft k m order left)
      → InSync m order
      → InSync left.0 left.1
  left-InSync m order left f h k there = (f k there).1 (h k (f k there).0)
