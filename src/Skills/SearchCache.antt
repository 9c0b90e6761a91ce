-- ===== src/Skills/SearchCache.antt =====
-- pkg/skills/search_cache.go: the cache of search results. The map of the entries is an association
-- list in the order in which the loop of `Get` walks it. A copy of results is the results. `F` is the
-- type of the Go floats, `R` that of a search result.
pub mod Sync
pub mod Capacity
use moon_hub.Base.{
  ℕ, zero, suc, ◌+◌, ◌-◌, ◌*◌, ◌^◌, ◌%◌, String, Bool, true, false, not, ◌&&◌, ◌||◌, Option, none,
  some, List, [], ◌∷◌, ◌++◌, ltb, leb, ◌==◌, if◌then◌else◌, str_eq, length, lookup, insert, delete,
}

pub record CacheText (F : Type 0) : Type 0 where
  pub to_lower : String → String
  pub trim_space : String → String
  -- `s[i]` for the indices of the text.
  pub bytes : String → List ℕ
  -- `float64(a) / float64(b)`.
  pub ratio : ℕ → ℕ → F
  pub less : F → F → Bool
  pub zero_float : F
  pub one_float : F
  -- Whether a float is at least `similarityThreshold`.
  pub is_similar : F → Bool

pub record CacheEntry (R : Type 0) : Type 0 where
  pub query : String
  pub trigrams : List ℕ
  pub results : List R
  pub created_at : ℕ

-- `order` is from the oldest to the newest. Times are in nanoseconds.
pub record SearchCache (R : Type 0) : Type 0 where
  pub entries : List (String × CacheEntry R)
  pub order : List String
  pub max_entries : ℕ
  pub ttl : ℕ

-- A number that is not positive reads as 0.
unfoldable pub new_search_cache : (R : Type 0) → ℕ → ℕ → SearchCache R
new_search_cache R max_entries ttl = record {
  entries = [];
  order = [];
  max_entries = if max_entries == 0 then 50 else max_entries;
  ttl = if ttl == 0 then 300000000000 else ttl;
}

unfoldable pub raw_trigrams : List ℕ → List ℕ
raw_trigrams [] = []
raw_trigrams (a ∷ []) = []
raw_trigrams (a ∷ b ∷ []) = []
raw_trigrams (a ∷ b ∷ c ∷ rest) = (a * 65536 + (b * 256 + c)) ∷ raw_trigrams (b ∷ c ∷ rest)

abbrev pub insert_sorted : ℕ → List ℕ → List ℕ
insert_sorted t [] = t ∷ []
insert_sorted t (u ∷ us) = let rest = insert_sorted t us in if leb t u then t ∷ u ∷ us else u ∷ rest

-- `slices.Sort`.
abbrev pub sort_trigrams : List ℕ → List ℕ
sort_trigrams [] = []
sort_trigrams (t ∷ ts) = insert_sorted t (sort_trigrams ts)

-- Without the elements that equal the one before them.
abbrev pub drop_repeated : ℕ → List ℕ → List ℕ
drop_repeated last [] = []
drop_repeated last (t ∷ ts) = let rest = drop_repeated t ts in if t == last then rest else t ∷ rest

abbrev pub deduplicated : List ℕ → List ℕ
deduplicated [] = []
deduplicated (t ∷ ts) = t ∷ drop_repeated t ts

-- The loop of `jaccardSimilarity`, of at most so many rounds.
unfoldable pub intersection_size : ℕ → List ℕ → List ℕ → ℕ
intersection_size zero xs ys = 0
intersection_size (suc n) [] ys = 0
intersection_size (suc n) (a ∷ xs) [] = 0
intersection_size (suc n) (a ∷ xs) (b ∷ ys) =
    let both = intersection_size n xs ys in
    let first = intersection_size n xs (b ∷ ys) in
    let second = intersection_size n (a ∷ xs) ys in
    if a == b then suc both else if ltb a b then first else second

abbrev pub is_member : String → List String → Bool
is_member key [] = false
is_member key (k ∷ ks) = let rest = is_member key ks in if str_eq k key then true else rest

-- The list without the first occurrence of the key.
abbrev pub without_first : String → List String → List String
without_first key [] = []
without_first key (k ∷ ks) =
    let rest = without_first key ks in if str_eq k key then ks else k ∷ rest

module _ {F : Type 0} (x : CacheText F) where
  abbrev pub normalize_query : String → String
  normalize_query q = x.to_lower (x.trim_space q)

  unfoldable pub build_trigrams : String → List ℕ
  unfolding raw_trigrams
  build_trigrams s = deduplicated (sort_trigrams (raw_trigrams (x.bytes s)))

  unfoldable pub jaccard_similarity : List ℕ → List ℕ → F
  unfolding intersection_size
  jaccard_similarity xs ys =
      let common = intersection_size (length xs + length ys) xs ys in
      if length xs == 0 && length ys == 0
      then x.one_float
      else x.ratio common (length xs + length ys - common)

module _ {R : Type 0} where
  abbrev pub is_fresh : ℕ → ℕ → CacheEntry R → Bool
  is_fresh now ttl entry = ltb (now - entry.created_at) ttl

  -- `moveToEndLocked`.
  unfoldable pub move_to_end : String → SearchCache R → SearchCache R
  move_to_end key sc = record sc { order = without_first key sc.order ++ key ∷ [] }

  -- `Len`.
  abbrev pub len : SearchCache R → ℕ
  len sc = length sc.entries

  -- The loop of `evictExpiredLocked`: the entries and the order that stay.
  unfoldable pub evict_from :
      ℕ
      → ℕ
      → List String
      → List (String × CacheEntry R)
      → List (String × CacheEntry R) × List String
  evict_from now ttl [] entries = (entries, [])
  evict_from now ttl (key ∷ keys) entries =
      let gone = evict_from now ttl keys (delete key entries) in
      let kept = evict_from now ttl keys entries in
      elim (lookup key entries) [
        | none ↦ gone
        | some entry ↦ if is_fresh now ttl entry then (kept.0, key ∷ kept.1) else gone
      ]

  unfoldable pub evict_expired : ℕ → SearchCache R → SearchCache R
  unfolding evict_from
  evict_expired now sc =
      let stays = evict_from now sc.ttl sc.order sc.entries in
      record sc { entries = stays.0; order = stays.1 }

  -- The oldest entries go until there is room.
  unfoldable pub evict_oldest :
      ℕ → List String → List (String × CacheEntry R) → List (String × CacheEntry R) × List String
  evict_oldest max_entries [] entries = (entries, [])
  evict_oldest max_entries (oldest ∷ order) entries =
      let rest = evict_oldest max_entries order (delete oldest entries) in
      if leb max_entries (length entries) then rest else (entries, oldest ∷ order)

module _ {F R : Type 0} (x : CacheText F) where
  -- The loop of `Get` over the entries: the best similarity so far and its entry.
  unfoldable pub best_entry :
      ℕ
      → ℕ
      → List ℕ
      → F × Option (CacheEntry R)
      → List (String × CacheEntry R)
      → F × Option (CacheEntry R)
  unfolding jaccard_similarity
  best_entry now ttl trigrams best [] = best
  best_entry now ttl trigrams best ((key, entry) ∷ others) =
      let similarity = jaccard_similarity x trigrams entry.trigrams in
      best_entry now ttl trigrams
        (if is_fresh now ttl entry && x.less best.0 similarity
          then (similarity, some entry)
          else best)
        others

  -- The end of `Get`.
  abbrev pub similar_result :
      SearchCache R → F × Option (CacheEntry R) → SearchCache R × Option (List R)
  similar_result sc (similarity, none) = (sc, none)
  similar_result sc (similarity, some entry) =
      if x.is_similar similarity
      then (move_to_end entry.query sc, some entry.results)
      else (sc, none)

  unfoldable pub get_similar : ℕ → String → SearchCache R → SearchCache R × Option (List R)
  unfolding best_entry build_trigrams move_to_end
  get_similar now key sc =
      similar_result sc
        (best_entry now sc.ttl (build_trigrams x key) (x.zero_float, none) sc.entries)

  -- `Get` of a key that is not empty.
  unfoldable pub get_key : ℕ → String → SearchCache R → SearchCache R × Option (List R)
  unfolding get_similar move_to_end
  get_key now key sc = elim (lookup key sc.entries) [
    | none ↦ get_similar now key sc
    | some entry ↦
        if is_fresh now sc.ttl entry
        then (move_to_end key sc, some entry.results)
        else get_similar now key sc
  ]

  unfoldable pub get : ℕ → String → SearchCache R → SearchCache R × Option (List R)
  unfolding get_key
  get now query sc =
      let key = normalize_query x query in if str_eq key "" then (sc, none) else get_key now key sc

  unfoldable pub new_entry : ℕ → String → List R → CacheEntry R
  unfolding build_trigrams
  new_entry now key results = record {
    query = key;
    trigrams = build_trigrams x key;
    results = results;
    created_at = now;
  }

  -- `Put` of a key that is not empty, without the expired entries.
  unfoldable pub put_key : ℕ → String → List R → SearchCache R → SearchCache R
  unfolding new_entry move_to_end evict_oldest
  put_key now key results sc = elim (lookup key sc.entries) [
    | some old ↦
        move_to_end key (record sc { entries = insert key (new_entry now key results) sc.entries })
    | none ↦
        let room = evict_oldest sc.max_entries sc.order sc.entries in
        record sc {
          entries = insert key (new_entry now key results) room.0;
          order = room.1 ++ key ∷ [];
        }
  ]

  unfoldable pub put : ℕ → String → List R → SearchCache R → SearchCache R
  unfolding put_key evict_expired
  put now query results sc =
      let key = normalize_query x query in
      if str_eq key "" then sc else put_key now key results (evict_expired now sc)
