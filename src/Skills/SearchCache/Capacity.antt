-- ===== src/Skills/SearchCache/Capacity.antt =====
-- pkg/skills/search_cache.go: the number of entries.
use moon_hub.Base.{
  ℕ, suc, ◌-◌, ◌≤◌, ◌<◌, ◌≡◌, ◌≢◌, refl, ap, subst, String, true, false, Option, none, some, List,
  [], ◌∷◌, ◌++◌, leb, if◌then◌else◌, str_eq, eq_iff, eq_refl, length, lookup, insert, delete,
  lookup-insert_self, arith, Option-cases, Bool-cases, inl, inr, ◌⊎◌,
}
use moon_hub.Skills.SearchCache.{
  CacheText, CacheEntry, SearchCache, new_search_cache, is_fresh, move_to_end, evict_from,
  evict_expired, evict_oldest, best_entry, similar_result, get_similar, get_key, get, new_entry,
  put_key, put, normalize_query, build_trigrams,
}
use moon_hub.Skills.SearchCache.Sync.{
  is_some, has, InSync, has-insert, is_member-moved, is_member-added, evict_from-IsLeft,
  evict_oldest-IsLeft, left-InSync,
}

module _ {R : Type 0} where
  length-delete :
      (key : String) (m : List (String × CacheEntry R)) → length (delete key m) ≤ length m
  unfolding delete
  length-delete key [] = omega arith
  length-delete key ((k, e) ∷ m) = ground (arith, length-delete key m)

  length-insert :
      (key : String) (e : CacheEntry R) (m : List (String × CacheEntry R))
      → length (insert key e m) ≡ (if has key m then length m else suc (length m))
  unfolding insert lookup
  length-insert key e [] = refl
  length-insert key e ((k, old) ∷ m) = ground (arith, length-insert key e m)

  length-evict_from :
      (now ttl : ℕ) (keys : List String) (m : List (String × CacheEntry R))
      → length (evict_from now ttl keys m).0 ≤ length m
  unfolding evict_from
  length-evict_from now ttl [] m = omega arith
  length-evict_from now ttl (key ∷ keys) m = ground (
    arith,
    length-evict_from now ttl keys m,
    length-evict_from now ttl keys (delete key m),
    length-delete key m,
  )

  evict_oldest-room :
      (most : ℕ) (keys : List String) (m : List (String × CacheEntry R))
      → (length (evict_oldest most keys m).0 < most) ⊎ ((evict_oldest most keys m).1 ≡ [])
  unfolding evict_oldest
  evict_oldest-room most [] m = inr refl
  evict_oldest-room most (key ∷ keys) m = elim (Bool-cases (leb most (length m))) [
    | inl full ↦ rw (full, evict_oldest) (evict_oldest-room most keys (delete key m))
    | inr free ↦ rw (free, evict_oldest) (inl (ground arith))
  ]

  empty-order : (m : List (String × CacheEntry R)) → InSync m [] → length m ≡ 0
  unfolding lookup
  empty-order [] h = refl
  empty-order ((k, e) ∷ m) h = absurd (ground (arith, h k, eq_refl k))

  -- The entries have their keys in the order, and are no more than the limit, which is positive.
  pub record IsTidy (sc : SearchCache R) : Type 0 where
    pub in_sync : InSync sc.entries sc.order
    pub bounded : length sc.entries ≤ sc.max_entries
    pub positive : 1 ≤ sc.max_entries

  empty-IsTidy : (most ttl : ℕ) → IsTidy (new_search_cache R most ttl)
  unfolding new_search_cache lookup
  empty-IsTidy most ttl = record {
    in_sync = λ k there. absurd (ground arith);
    bounded = ground arith;
    positive = ground arith;
  }

  move_to_end-IsTidy : (key : String) (sc : SearchCache R) → IsTidy sc → IsTidy (move_to_end key sc)
  unfolding move_to_end
  move_to_end-IsTidy key sc h = record {
    in_sync = λ k there. ground (arith, is_member-moved k key sc.order, h.in_sync k there);
    bounded = h.bounded;
    positive = h.positive;
  }

  evict_expired-IsTidy : (now : ℕ) (sc : SearchCache R) → IsTidy sc → IsTidy (evict_expired now sc)
  unfolding evict_expired
  evict_expired-IsTidy now sc h = record {
    in_sync =
        left-InSync sc.entries sc.order (evict_from now sc.ttl sc.order sc.entries)
          (λ k. evict_from-IsLeft now sc.ttl k sc.order sc.entries) h.in_sync;
    bounded = omega (arith, h.bounded, length-evict_from now sc.ttl sc.order sc.entries);
    positive = h.positive;
  }

  -- A new entry for an old key.
  replaced-IsTidy :
      (key : String) (new old : CacheEntry R) (sc : SearchCache R)
      → lookup key sc.entries ≡ some old
      → IsTidy sc
      → IsTidy (record sc { entries = insert key new sc.entries })
  replaced-IsTidy key new old sc e h = record {
    in_sync = λ k there. ground (
      arith,
      has-insert k key new sc.entries,
      eq_iff key k,
      h.in_sync k,
      h.in_sync key,
      there,
      ap is_some e,
    );
    bounded = ground (arith, length-insert key new sc.entries, h.bounded, ap is_some e);
    positive = h.positive;
  }

  -- A new key, once there is room.
  added-IsTidy :
      (key : String) (new : CacheEntry R) (sc : SearchCache R)
      → IsTidy sc
      → IsTidy (record sc {
        entries = insert key new (evict_oldest sc.max_entries sc.order sc.entries).0;
        order = (evict_oldest sc.max_entries sc.order sc.entries).1 ++ key ∷ [];
      })
  added-IsTidy key new sc h = record {
    in_sync = λ k there.
        ground (arith, has-insert k key new room.0, is_member-added k key room.1, synced k, there);
    bounded = ground (arith, length-insert key new room.0, small);
    positive = h.positive;
  }
    where
      room : List (String × CacheEntry R) × List String
      room = evict_oldest sc.max_entries sc.order sc.entries

      synced :
          InSync
            (evict_oldest sc.max_entries sc.order sc.entries).0
            (evict_oldest sc.max_entries sc.order sc.entries).1
      synced =
          left-InSync sc.entries sc.order (evict_oldest sc.max_entries sc.order sc.entries)
            (λ k. evict_oldest-IsLeft sc.max_entries k sc.order sc.entries) h.in_sync

      small : length (evict_oldest sc.max_entries sc.order sc.entries).0 < sc.max_entries
      small = elim (evict_oldest-room sc.max_entries sc.order sc.entries) [
        | inl k ↦ k
        | inr e ↦ omega (
          arith,
          h.positive,
          empty-order (evict_oldest sc.max_entries sc.order sc.entries).0
              (subst (InSync (evict_oldest sc.max_entries sc.order sc.entries).0) e synced),
        )
      ]

pub data Op (R : Type 0) : Type 0 where
  puts : ℕ → String → List R → Op R
  gets : ℕ → String → Op R

module _ {F R : Type 0} (x : CacheText F) where
  unfoldable pub run_op : Op R → SearchCache R → SearchCache R
  unfolding put get
  run_op (puts now query results) sc = put x now query results sc
  run_op (gets now query) sc = (get x now query sc).0

  unfoldable pub run_ops : List (Op R) → SearchCache R → SearchCache R
  unfolding run_op
  run_ops [] sc = sc
  run_ops (op ∷ ops) sc = run_ops ops (run_op op sc)

  put_key-IsTidy :
      (now : ℕ) (key : String) (results : List R) (sc : SearchCache R)
      → IsTidy sc
      → IsTidy (put_key x now key results sc)
  unfolding put_key
  put_key-IsTidy now key results sc h = elim (Option-cases (lookup key sc.entries)) [
    | inr (old, e) ↦
        rw (e, put_key)
          (move_to_end-IsTidy key
            (record sc { entries = insert key (new_entry x now key results) sc.entries })
            (replaced-IsTidy key (new_entry x now key results) old sc e h))
    | inl e ↦ rw (e, put_key) (added-IsTidy key (new_entry x now key results) sc h)
  ]

  similar_result-IsTidy :
      (sc : SearchCache R) (best : F × Option (CacheEntry R))
      → IsTidy sc
      → IsTidy (similar_result x sc best).0
  similar_result-IsTidy sc (similarity, none) h = h
  similar_result-IsTidy sc (similarity, some entry) h =
      elim (Bool-cases (x.is_similar similarity)) [
        | inl e ↦ rw (e) (move_to_end-IsTidy entry.query sc h)
        | inr e ↦ rw (e) h
      ]

  get_key-IsTidy :
      (now : ℕ) (key : String) (sc : SearchCache R) → IsTidy sc → IsTidy (get_key x now key sc).0
  unfolding get_key get_similar
  get_key-IsTidy now key sc h =
      let best = best_entry x now sc.ttl (build_trigrams x key) (x.zero_float, none) sc.entries in
      elim (Option-cases (lookup key sc.entries)) [
        | inl e ↦ rw (e, get_key) (similar_result-IsTidy sc best h)
        | inr (entry, e) ↦ elim (Bool-cases (is_fresh now sc.ttl entry)) [
          | inl fresh ↦ rw (e, fresh, get_key) (move_to_end-IsTidy key sc h)
          | inr stale ↦ rw (e, stale, get_key) (similar_result-IsTidy sc best h)
        ]
      ]

  run_op-IsTidy : (op : Op R) (sc : SearchCache R) → IsTidy sc → IsTidy (run_op op sc)
  unfolding run_op put get
  run_op-IsTidy (puts now query results) sc h =
      elim (Bool-cases (str_eq (normalize_query x query) "")) [
        | inl e ↦ rw (e, run_op, put) h
        | inr e ↦
            rw (e, run_op, put)
              (put_key-IsTidy now (normalize_query x query) results (evict_expired now sc)
                (evict_expired-IsTidy now sc h))
      ]
  run_op-IsTidy (gets now query) sc h = elim (Bool-cases (str_eq (normalize_query x query) "")) [
    | inl e ↦ rw (e, run_op, get) h
    | inr e ↦ rw (e, run_op, get) (get_key-IsTidy now (normalize_query x query) sc h)
  ]

  run_ops-IsTidy : (ops : List (Op R)) (sc : SearchCache R) → IsTidy sc → IsTidy (run_ops ops sc)
  unfolding run_ops
  run_ops-IsTidy [] sc h = h
  run_ops-IsTidy (op ∷ ops) sc h = run_ops-IsTidy ops (run_op op sc) (run_op-IsTidy op sc h)

  -- After any history of calls on a new cache, every entry has its key in the order of use, and there
  -- are no more entries than the cache allows.
  pub new_search_cache-IsTidy :
      (most ttl : ℕ) (ops : List (Op R)) → IsTidy (run_ops ops (new_search_cache R most ttl))
  new_search_cache-IsTidy most ttl ops =
      run_ops-IsTidy ops (new_search_cache R most ttl) (empty-IsTidy most ttl)

  put_key-lookup :
      (now : ℕ) (key : String) (results : List R) (sc : SearchCache R)
      → (lookup key (put_key x now key results sc).entries ≡ some (new_entry x now key results))
        × ((put_key x now key results sc).ttl ≡ sc.ttl)
  unfolding put_key move_to_end
  put_key-lookup now key results sc = elim (Option-cases (lookup key sc.entries)) [
    | inr (old, e) ↦
        rw (e, put_key) (lookup-insert_self key (new_entry x now key results) sc.entries, refl)
    | inl e ↦
        rw (e, put_key)
          (
            lookup-insert_self key (new_entry x now key results)
                (evict_oldest sc.max_entries sc.order sc.entries).0,
            refl,
          )
  ]

  get_key-found :
      (now : ℕ) (key : String) (entry : CacheEntry R) (sc : SearchCache R)
      → lookup key sc.entries ≡ some entry
      → now - entry.created_at < sc.ttl
      → (get_key x now key sc).1 ≡ some entry.results
  unfolding get_key
  get_key-found now key entry sc e t =
      let fresh : is_fresh now sc.ttl entry ≡ true = ground arith in rw (e, fresh, get_key) refl

  -- Results that are put under a query that is not blank are got back under it by the next call,
  -- for as long as an entry lives.
  pub get-put :
      (now later : ℕ) (query : String) (results : List R) (sc : SearchCache R)
      → normalize_query x query ≢ ""
      → later - now < sc.ttl
      → (get x later query (put x now query results sc)).1 ≡ some results
  unfolding get put new_entry evict_expired
  get-put now later query results sc n t =
      let key = normalize_query x query in
      let solid : str_eq key "" ≡ false = ground (arith, eq_iff key "") in
      let (found, same) = put_key-lookup now key results (evict_expired now sc) in
      rw (solid, get, put)
        (get_key-found later key (new_entry x now key results)
          (put_key x now key results (evict_expired now sc)) found (omega (arith, same, t)))
