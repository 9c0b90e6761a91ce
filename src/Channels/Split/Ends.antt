-- ===== src/Channels/Split/Ends.antt =====
-- pkg/channels/split.go: where the searches and the natural end of a chunk lie.
use Prim.Native.Char.{Char}
use moon_hub.Base.{
  ℕ, zero, suc, ◌+◌, ◌-◌, ◌≤◌, ◌<◌, max, Bool, Option, none, some, [], ◌∷◌, length, take, arith,
}
use moon_hub.Channels.Split.{
  Runes, Splitting, find_last, find_last_in_range, found_after, or_else, scan_fences, natural_end,
  effective_limit, trim_right, is_newline, is_blank,
}

-- The index lies between the two.
abbrev pub Between : ℕ → ℕ → Option ℕ → Type 0
Between low high none = Unit
Between low high (some i) = (low ≤ i) × (i < high)

find_last-Between :
    (test : Char → Bool) (runes : Runes) (low n : ℕ)
    → Between low (low + n) (find_last test runes low n)
unfolding find_last
find_last-Between test runes low zero = tt
find_last-Between test runes low (suc n) = ground (arith, find_last-Between test runes low n)

pub find_last_in_range-Between :
    (test : Char → Bool) (runes : Runes) (start stop window : ℕ)
    → Between start (max start stop) (find_last_in_range test runes start stop window)
unfolding find_last_in_range
find_last_in_range-Between test runes start stop window =
    let low = max (stop - window) start in
    ground (arith, find_last-Between test runes low (stop - low))

pub scan_fences-Between :
    (runes : Runes) (low high i n skip : ℕ) (block : Option ℕ)
    → low ≤ i
    → i + n ≤ high
    → Between low high block
    → Between low high (scan_fences runes i n skip block)
unfolding scan_fences
scan_fences-Between runes low high i zero skip block l k h = h
scan_fences-Between runes low high i (suc n) (suc skip) block l k h =
    scan_fences-Between runes low high (i + 1) n skip block (omega arith) (omega arith) h
scan_fences-Between runes low high i (suc n) zero none l k h = ground (
  arith,
  scan_fences-Between runes low high (i + 1) n 2 (some i) (omega arith) (omega arith)
      (omega arith, omega arith),
  scan_fences-Between runes low high (i + 1) n 0 none (omega arith) (omega arith) tt,
)
scan_fences-Between runes low high i (suc n) zero (some at) l k h = ground (
  arith,
  scan_fences-Between runes low high (i + 1) n 2 none (omega arith) (omega arith) tt,
  scan_fences-Between runes low high (i + 1) n 0 (some at) (omega arith) (omega arith) h,
)

pub effective_limit_bounds :
    (max_len : ℕ)
    → 1 ≤ max_len
    → (1 ≤ effective_limit max_len) × (effective_limit max_len ≤ max_len)
unfolding effective_limit
effective_limit_bounds max_len h = (ground arith, ground arith)

pick_bounds :
    (start stop : ℕ) (newline space : Option ℕ)
    → Between start (max start stop) newline
    → Between start (max start stop) space
    → start < stop
    → (start < or_else (found_after start newline) (or_else (found_after start space) stop))
      × (or_else (found_after start newline) (or_else (found_after start space) stop) ≤ stop)
pick_bounds start stop none none n b h = (h, omega arith)
pick_bounds start stop none (some j) n b h = (ground arith, ground arith)
pick_bounds start stop (some i) none n b h = (ground arith, ground arith)
pick_bounds start stop (some i) (some j) n b h = (ground arith, ground arith)

pub natural_end_bounds :
    (max_len : ℕ) (s : Splitting)
    → 1 ≤ max_len
    → (s.start < natural_end max_len s) × (natural_end max_len s ≤ s.start + max_len)
unfolding natural_end
natural_end_bounds max_len s h =
    let stop = s.start + effective_limit max_len in
    let e = effective_limit_bounds max_len h in
    let p =
      pick_bounds s.start stop (find_last_in_range is_newline s.runes s.start stop 200)
        (find_last_in_range is_blank s.runes s.start stop 100)
        (find_last_in_range-Between is_newline s.runes s.start stop 200)
        (find_last_in_range-Between is_blank s.runes s.start stop 100) (omega (arith, e)) in
    (p.0, omega (arith, p.1, e))

pub length-take : (n : ℕ) (cs : Runes) → length (take n cs) ≤ n
length-take zero cs = omega arith
length-take (suc n) [] = omega arith
length-take (suc n) (c ∷ cs) = omega (arith, length-take n cs)

pub length-trim_right : (test : Char → Bool) (cs : Runes) → length (trim_right test cs) ≤ length cs
length-trim_right test [] = omega arith
length-trim_right test (c ∷ cs) = ground (arith, length-trim_right test cs)
