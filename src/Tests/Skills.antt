-- ===== src/Tests/Skills.antt =====
-- The search cache of pkg/skills at concrete inputs, with similarities in hundredths.
use Prim.Native.Char.{code}
use moon_hub.Base.{
  ℕ, ◌*◌, ◌/◌, lookup, insert, ◌≡◌, ◌≢◌, refl, String, none, some, List, [], ◌∷◌, ltb, leb, arith,
  eq_iff,
}
use moon_hub.Skills.SearchCache.{CacheText, new_search_cache, get, put, normalize_query}
use moon_hub.Skills.SearchCache.Capacity.{
  Op, puts, gets, run_ops, IsTidy, new_search_cache-IsTidy, get-put,
}

abbrev ascii_bytes : String → List ℕ
ascii_bytes String.[] = []
ascii_bytes (String.◌∷◌ c s) = code c ∷ ascii_bytes s

abbrev plain_cache : CacheText ℕ
plain_cache = record {
  to_lower = λ s. s;
  trim_space = λ s. s;
  bytes = ascii_bytes;
  ratio = λ a b. 100 * a / b;
  less = ltb;
  zero_float = 0;
  one_float = 100;
  is_similar = leb 70;
}

abbrev three_ops : List (Op ℕ)
three_ops = puts 0 "abc" (1 ∷ []) ∷ gets 1 "abc" ∷ puts 2 "xyz" (2 ∷ []) ∷ []

new_search_cache-IsTidy_example : IsTidy (run_ops plain_cache three_ops (new_search_cache ℕ 1 9))
new_search_cache-IsTidy_example = new_search_cache-IsTidy plain_cache 1 9 three_ops

solid_query : normalize_query plain_cache "abcd" ≢ ""
solid_query = ground (arith, eq_iff "abcd" "")

get-put_example :
    (get plain_cache 5 "abcd" (put plain_cache 0 "abcd" (7 ∷ []) (new_search_cache ℕ 1 9))).1
    ≡ some (7 ∷ [])
unfolding new_search_cache
get-put_example =
    get-put plain_cache 0 5 "abcd" (7 ∷ []) (new_search_cache ℕ 1 9) solid_query (omega arith)

-- A similar query finds the entry, another one does not.
get-similar :
    ((get plain_cache 5 "abcdefgh"
        (put plain_cache 0 "abcdefg" (7 ∷ []) (new_search_cache ℕ 1 9))).1
      ≡ some (7 ∷ []))
    × ((get plain_cache 5 "xyz" (put plain_cache 0 "abcdefg" (7 ∷ []) (new_search_cache ℕ 1 9))).1
        ≡ none)
unfolding get put new_search_cache lookup insert
get-similar = (refl, refl)
