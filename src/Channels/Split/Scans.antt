-- ===== src/Channels/Split/Scans.antt =====
-- pkg/channels/split.go: what the searches find and what the trimming leaves.
use Prim.Native.Char.{Char}
use moon_hub.Base.{
  ℕ, zero, suc, ◌+◌, ◌≤◌, ◌<◌, ◌≡◌, refl, ap, ◌∙◌, subst, Bool, true, false, not, ◌&&◌, none, some,
  [], ◌∷◌, ◌++◌, ltb, leb, length, get_elem?, take, drop, arith, Bool-cases, inl, inr,
}
use moon_hub.Channels.Split.{
  Runes, fence_at, scan_fences, find_last, scan_closing, scan_newline, is_newline, rune_is,
  all_runes, trim_right,
}

pub all_runes-get :
    (test : Char → Bool) (cs : Runes) (j : ℕ)
    → all_runes test cs ≡ true
    → j < length cs
    → rune_is test (get_elem? cs j) ≡ true
all_runes-get test [] j h k = absurd (omega arith)
all_runes-get test (c ∷ cs) zero h k = ground arith
all_runes-get test (c ∷ cs) (suc j) h k = all_runes-get test cs j (ground arith) (omega arith)

pub get-front : (xs ys : Runes) (j : ℕ) → j < length xs → get_elem? (xs ++ ys) j ≡ get_elem? xs j
get-front [] ys j k = absurd (omega arith)
get-front (x ∷ xs) ys zero k = refl
get-front (x ∷ xs) ys (suc j) k = get-front xs ys j (omega arith)

pub get-here : (xs ys : Runes) (y : Char) → get_elem? (xs ++ y ∷ ys) (length xs) ≡ some y
get-here [] ys y = refl
get-here (x ∷ xs) ys y = get-here xs ys y

pub take-front : (xs ys : Runes) → take (length xs) (xs ++ ys) ≡ xs
take-front [] ys = refl
take-front (x ∷ xs) ys = ap (λ rest. x ∷ rest) (take-front xs ys)

-- No rune of the stretch passes the test.
abbrev pub NoneIn : (ℕ → Bool) → ℕ → ℕ → Type 0
NoneIn test low high = (j : ℕ) → low ≤ j → j < high → test j ≡ false

pub find_last-none :
    (test : Char → Bool) (runes : Runes) (low n : ℕ)
    → NoneIn (λ j. rune_is test (get_elem? runes j)) low (low + n)
    → find_last test runes low n ≡ none
unfolding find_last
find_last-none test runes low zero h = refl
find_last-none test runes low (suc n) h =
    rw (h (low + n) (omega arith) (omega arith))
      (find_last-none test runes low n (λ j a b. h j a (omega arith)))

pub scan_fences-open :
    (runes : Runes) (i n at : ℕ)
    → NoneIn (fence_at runes) i (i + n)
    → scan_fences runes i n 0 (some at) ≡ some at
unfolding scan_fences
scan_fences-open runes i zero at h = refl
scan_fences-open runes i (suc n) at h = ground (
  arith,
  h i (omega arith) (omega arith),
  scan_fences-open runes (i + 1) n at (λ j a b. h j (omega arith) (omega arith)),
)

-- A closing fence is found behind every stretch without one.
pub scan_closing-late :
    (runes : Runes) (i n far : ℕ)
    → NoneIn (fence_at runes) i far
    → (elim (scan_closing runes i n) as (λ o. Type 0) [
      | none ↦ Unit
      | some closing ↦ far + 3 ≤ closing
    ])
unfolding scan_closing
scan_closing-late runes i zero far h = tt
scan_closing-late runes i (suc n) far h = elim (Bool-cases (leb 2 n && fence_at runes i)) [
  | inl e ↦ rw (e) (elim (Bool-cases (ltb i far)) [
    | inl near ↦ absurd (ground (arith, h i (omega arith)))
    | inr late ↦ ground arith
  ])
  | inr e ↦ rw (e) (scan_closing-late runes (i + 1) n far (λ j a b. h j (omega arith) b))
]

pub scan_newline-first :
    (runes : Runes) (i n k : ℕ)
    → NoneIn (λ j. rune_is is_newline (get_elem? runes j)) i (i + k)
    → rune_is is_newline (get_elem? runes (i + k)) ≡ true
    → k < n
    → scan_newline runes i n ≡ some (i + k)
unfolding scan_newline
scan_newline-first runes i zero k h e l = absurd (omega arith)
scan_newline-first runes i (suc n) zero h e l =
    rw
      (subst (λ m. rune_is is_newline (get_elem? runes m) ≡ true) {x = i + 0} {y = i} (omega arith)
        e)
      (ap some (omega arith))
scan_newline-first runes i (suc n) (suc k) h e l = rw (h i (omega arith) (omega arith)) (
    scan_newline-first runes (i + 1) n k (λ j a b. h j (omega arith) (omega arith))
      (subst (λ m. rune_is is_newline (get_elem? runes m) ≡ true) {x = i + suc k} {y = i + 1 + k}
        (omega arith) e)
      (omega arith)
    ∙ ap some (omega arith))

pub trim_right-solid :
    (test : Char → Bool) (cs : Runes)
    → all_runes (λ c. not (test c)) cs ≡ true
    → trim_right test cs ≡ cs
trim_right-solid test [] h = refl
trim_right-solid test (c ∷ cs) h = ground (arith, trim_right-solid test cs)

all_runes-behind :
    (test : Char → Bool) (xs ys : Runes)
    → all_runes test ys ≡ false
    → all_runes test (xs ++ ys) ≡ false
all_runes-behind test [] ys h = h
all_runes-behind test (x ∷ xs) ys h = ground (arith, all_runes-behind test xs ys h)

pub trim_right-behind :
    (test : Char → Bool) (xs ys : Runes)
    → all_runes test ys ≡ false
    → trim_right test ys ≡ ys
    → trim_right test (xs ++ ys) ≡ xs ++ ys
trim_right-behind test [] ys h e = e
trim_right-behind test (x ∷ xs) ys h e =
    rw (all_runes-behind test (x ∷ xs) ys h)
      (ap (λ rest. x ∷ rest) (trim_right-behind test xs ys h e))

-- A text that ends with a solid rune, and what is left of it.
pub trimmed-drop :
    (test : Char → Bool) (k : ℕ) (cs : Runes)
    → trim_right test cs ≡ cs
    → k < length cs
    → (trim_right test (drop k cs) ≡ drop k cs) × (all_runes test (drop k cs) ≡ false)
trimmed-drop test k [] e l = absurd (omega arith)
trimmed-drop test zero (c ∷ cs) e l = (e, ground arith)
trimmed-drop test (suc k) (c ∷ cs) e l = trimmed-drop test k cs (ground arith) (omega arith)
