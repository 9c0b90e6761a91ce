-- ===== src/Channels/Split/Fence.antt =====
-- pkg/channels/split.go: what the searches find in a text whose first line opens a code block.
use Prim.Native.Char.{Char, code}
use moon_hub.Base.{
  ℕ, zero, suc, ◌+◌, ◌-◌, ◌≤◌, ◌<◌, max, ◌≡◌, refl, sym, ap, ◌∙◌, subst, Bool, true, false, not,
  ◌&&◌, Option, none, some, [], ◌∷◌, ◌++◌, append_assoc, leb, ◌==◌, if◌then◌else◌, length,
  length-append, get_elem?, drop, arith,
}
use moon_hub.Channels.Split.{
  Runes, fence_at, scan_fences, find_last_in_range, find_last_unclosed_code_block_in_range,
  find_next_closing_code_block_in_range, scan_closing, find_newline_from, closing_within,
  is_skipped, is_newline, is_blank, rune_is, all_runes, trim_right, trim_left, trim_space,
}
use moon_hub.Channels.Split.Scans.{
  NoneIn, all_runes-get, find_last-none, get-front, get-here, scan_closing-late, scan_fences-open,
  scan_newline-first, trim_right-behind, trim_right-solid, trimmed-drop,
}

-- The first line of a block: three backquotes and runes that are neither backquotes nor blanks.
abbrev pub fence_line : Runes → Runes
fence_line letters = "`" ∷ "`" ∷ "`" ∷ letters

-- A text that begins with that line.
abbrev pub block_text : Runes → Runes → Runes
block_text letters tail = fence_line letters ++ "\n" ∷ tail

module _ (is_space : Char → Bool) (letters : Runes) where
  abbrev pub is_letter : Char → Bool
  is_letter c = not (code c == 96) && (not (is_skipped c) && not (is_space c))

  module _ (tick : is_space "`" ≡ false) (all_letters : all_runes is_letter letters ≡ true) where
    letter_at :
        (tail : Runes) (j : ℕ)
        → 3 ≤ j
        → j < length (fence_line letters)
        → rune_is is_letter (get_elem? (block_text letters tail) j) ≡ true
    letter_at tail zero a b = absurd (omega arith)
    letter_at tail (suc zero) a b = absurd (omega arith)
    letter_at tail (suc (suc zero)) a b = absurd (omega arith)
    letter_at tail (suc (suc (suc j))) a b =
        ap (rune_is is_letter) (get-front letters ("\n" ∷ tail) j (omega arith))
        ∙ all_runes-get is_letter letters j all_letters (omega arith)

    letter-plain :
        (o : Option Char)
        → rune_is is_letter o ≡ true
        → (rune_is is_newline o ≡ false)
          × (rune_is is_blank o ≡ false)
          × (rune_is (λ c. code c == 96) o ≡ false)
    letter-plain none h = absurd (ground arith)
    letter-plain (some c) h = (ground arith, ground arith, ground arith)

    pub no_newline :
        (tail : Runes)
        → NoneIn
            (λ j. rune_is is_newline (get_elem? (block_text letters tail) j))
            0
            (length (fence_line letters))
    no_newline tail zero a b = refl
    no_newline tail (suc zero) a b = refl
    no_newline tail (suc (suc zero)) a b = refl
    no_newline tail (suc (suc (suc j))) a b =
        (letter-plain (get_elem? (letters ++ "\n" ∷ tail) j)
          (letter_at tail (suc (suc (suc j))) (omega arith) b)).0

    pub no_blank :
        (tail : Runes)
        → NoneIn
            (λ j. rune_is is_blank (get_elem? (block_text letters tail) j))
            0
            (length (fence_line letters))
    no_blank tail zero a b = refl
    no_blank tail (suc zero) a b = refl
    no_blank tail (suc (suc zero)) a b = refl
    no_blank tail (suc (suc (suc j))) a b =
        (letter-plain (get_elem? (letters ++ "\n" ∷ tail) j)
          (letter_at tail (suc (suc (suc j))) (omega arith) b)).1

    no_fence :
        (tail : Runes) → NoneIn (fence_at (block_text letters tail)) 3 (length (fence_line letters))
    no_fence tail j a b =
        ground (arith, letter-plain (get_elem? (block_text letters tail) j) (letter_at tail j a b))

    pub range-none :
        (test : Char → Bool) (tail : Runes) (stop window : ℕ)
        → NoneIn
            (λ j. rune_is test (get_elem? (block_text letters tail) j))
            0
            (length (fence_line letters))
        → stop ≤ length (fence_line letters)
        → find_last_in_range test (block_text letters tail) 0 stop window ≡ none
    unfolding find_last_in_range
    range-none test tail stop window h k =
        let low = max (stop - window) 0 in
        find_last-none test (block_text letters tail) low (stop - low)
          (λ j a b. h j (omega arith) (omega arith))

    pub unclosed-first :
        (tail : Runes) (m : ℕ)
        → 3 ≤ m
        → m ≤ length (fence_line letters)
        → find_last_unclosed_code_block_in_range (block_text letters tail) 0 m ≡ some 0
    unfolding find_last_unclosed_code_block_in_range scan_fences
    unclosed-first tail zero a b = absurd (omega arith)
    unclosed-first tail (suc zero) a b = absurd (omega arith)
    unclosed-first tail (suc (suc zero)) a b = absurd (omega arith)
    unclosed-first tail (suc (suc (suc k))) a b =
        ap (λ n. scan_fences (block_text letters tail) 0 n 0 none) {x = suc (suc (suc k)) - 0}
          {y = suc (suc (suc k))} (omega arith)
        ∙ ap
            (λ b.
              if b && fence_at (block_text letters tail) 0
              then scan_fences (block_text letters tail) 3 k 0 (some 0)
              else scan_fences (block_text letters tail) 1 (suc (suc k)) 0 none)
            {x = leb 2 (suc (suc k))} {y = true} (ground arith)
        ∙ scan_fences-open (block_text letters tail) 3 k 0
            (λ j l h. no_fence tail j l (omega arith))

    pub closing-late :
        (tail : Runes) (m max_len : ℕ)
        → 3 ≤ m
        → max_len ≤ length (fence_line letters)
        → closing_within max_len 0 (
            find_next_closing_code_block_in_range
              (block_text letters tail)
              m
              (length (block_text letters tail)))
          ≡ none
    unfolding find_next_closing_code_block_in_range
    closing-late tail m max_len a b =
        late (scan_closing (block_text letters tail) m (length (block_text letters tail) - m)) (
          scan_closing-late (block_text letters tail) m (length (block_text letters tail) - m)
            (length (fence_line letters)) (λ j l h. no_fence tail j (omega arith) h))
      where
        late :
            (o : Option ℕ)
            → (elim o as (λ o. Type 0) [
              | none ↦ Unit
              | some closing ↦ length (fence_line letters) + 3 ≤ closing
            ])
            → closing_within max_len 0 o ≡ none
        late none h = refl
        late (some c) h = ground arith

    pub newline-first :
        (tail : Runes)
        → find_newline_from (block_text letters tail) 0 ≡ some (length (fence_line letters))
    unfolding find_newline_from
    newline-first tail =
        scan_newline-first (block_text letters tail) 0 (length (block_text letters tail) - 0)
          (length (fence_line letters)) (λ j a b. no_newline tail j a (omega arith))
          (subst (λ i. rune_is is_newline (get_elem? (block_text letters tail) i) ≡ true)
            {x = length (fence_line letters)} {y = 0 + length (fence_line letters)} (omega arith)
            (ap (rune_is is_newline) (get-here (fence_line letters) tail "\n")))
          (omega (arith, length-append (fence_line letters) ("\n" ∷ tail)))
        ∙ ap some (omega arith)

    no_space :
        (cs : Runes) → all_runes is_letter cs ≡ true → all_runes (λ c. not (is_space c)) cs ≡ true
    no_space [] h = refl
    no_space (c ∷ cs) h = ground (arith, no_space cs)

    left-trimmed : (rest : Runes) → trim_left is_space (fence_line rest) ≡ fence_line rest
    left-trimmed rest =
        ap (λ b. if b then trim_left is_space ("`" ∷ "`" ∷ rest) else fence_line rest) tick

    pub head-trimmed : trim_space is_space (fence_line letters) ≡ fence_line letters
    head-trimmed =
        ap (trim_right is_space) (left-trimmed letters)
        ∙ trim_right-solid is_space (fence_line letters) (ground (arith, tick, no_space letters))

    pub again-trimmed :
        (tail : Runes) (k : ℕ)
        → trim_right is_space (block_text letters tail) ≡ block_text letters tail
        → k < length (block_text letters tail)
        → trim_space is_space (block_text letters (drop k (block_text letters tail)))
          ≡ block_text letters (drop k (block_text letters tail))
    again-trimmed tail k h l =
        let d = trimmed-drop is_space k (block_text letters tail) h l in
        let rest = drop k (block_text letters tail) in
        ap (trim_right is_space) (left-trimmed (letters ++ "\n" ∷ rest))
        ∙ ap (trim_right is_space) (sym (append_assoc (fence_line letters) ("\n" ∷ []) rest))
        ∙ trim_right-behind is_space (fence_line letters ++ "\n" ∷ []) rest d.1 d.0
        ∙ append_assoc (fence_line letters) ("\n" ∷ []) rest
