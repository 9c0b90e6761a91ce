-- ===== src/Channels/Split.antt =====
-- pkg/channels/split.go: a long message in chunks. A text is the list of its runes, and one round of
-- the loop is a function on its state, since the loop need not end. Where the code slices from an
-- index to a smaller one, the round panics.
pub mod Ends
pub mod Bounds
pub mod Plain
pub mod Scans
pub mod Fence
pub mod Endless
use Prim.Native.Char.{Char, code}
use moon_hub.Base.{
  ℕ, zero, suc, ◌+◌, ◌-◌, ◌/◌, min, max, Bool, true, false, not, ◌&&◌, ◌||◌, Option, none, some,
  List, [], ◌∷◌, ◌++◌, ltb, leb, ◌==◌, if◌then◌else◌, length, get_elem?, take, drop,
}

abbrev pub Runes : Type 0
Runes = List Char

abbrev pub is_newline : Char → Bool
is_newline c = code c == 10

abbrev pub is_blank : Char → Bool
is_blank c = code c == 32 || code c == 9

-- The characters that a new chunk skips.
abbrev pub is_skipped : Char → Bool
is_skipped c = is_blank c || (code c == 10 || code c == 13)

abbrev pub rune_is : (Char → Bool) → Option Char → Bool
rune_is test none = false
rune_is test (some c) = test c

-- Three backquotes from the index on.
abbrev pub fence_at : Runes → ℕ → Bool
fence_at runes i =
    rune_is (λ c. code c == 96) (get_elem? runes i)
    && (rune_is (λ c. code c == 96) (get_elem? runes (i + 1))
        && rune_is (λ c. code c == 96) (get_elem? runes (i + 2)))

-- `runes[start:stop]`.
abbrev pub slice_of : Runes → ℕ → ℕ → Runes
slice_of runes start stop = take (stop - start) (drop start runes)

-- From the index `low + n - 1` down to `low`.
unfoldable pub find_last : (Char → Bool) → Runes → ℕ → ℕ → Option ℕ
find_last test runes low zero = none
find_last test runes low (suc n) =
    let rest = find_last test runes low n in
    if rune_is test (get_elem? runes (low + n)) then some (low + n) else rest

unfoldable pub find_last_in_range : (Char → Bool) → Runes → ℕ → ℕ → ℕ → Option ℕ
unfolding find_last
find_last_in_range test runes start stop window =
    let low = max (stop - window) start in find_last test runes low (stop - low)

abbrev pub find_last_newline_in_range : Runes → ℕ → ℕ → ℕ → Option ℕ
find_last_newline_in_range runes start stop window =
    find_last_in_range is_newline runes start stop window

abbrev pub find_last_space_in_range : Runes → ℕ → ℕ → ℕ → Option ℕ
find_last_space_in_range runes start stop window =
    find_last_in_range is_blank runes start stop window

-- The index found, if it lies behind `start`.
abbrev pub found_after : ℕ → Option ℕ → Option ℕ
found_after start none = none
found_after start (some i) = if leb i start then none else some i

abbrev pub or_else : Option ℕ → ℕ → ℕ
or_else none i = i
or_else (some j) i = j

-- The loop of `findLastUnclosedCodeBlockInRange` at the index `i`, with `n` indices left of which the
-- first `skip` belong to a fence.
unfoldable pub scan_fences : Runes → ℕ → ℕ → ℕ → Option ℕ → Option ℕ
scan_fences runes i zero skip block = block
scan_fences runes i (suc n) (suc skip) block = scan_fences runes (i + 1) n skip block
scan_fences runes i (suc n) zero none =
    let opened = scan_fences runes (i + 1) n 2 (some i) in
    let passed = scan_fences runes (i + 1) n 0 none in
    if leb 2 n && fence_at runes i then opened else passed
scan_fences runes i (suc n) zero (some at) =
    let closed = scan_fences runes (i + 1) n 2 none in
    let passed = scan_fences runes (i + 1) n 0 (some at) in
    if leb 2 n && fence_at runes i then closed else passed

unfoldable pub find_last_unclosed_code_block_in_range : Runes → ℕ → ℕ → Option ℕ
unfolding scan_fences
find_last_unclosed_code_block_in_range runes start stop =
    scan_fences runes start (stop - start) 0 none

unfoldable pub scan_closing : Runes → ℕ → ℕ → Option ℕ
scan_closing runes i zero = none
scan_closing runes i (suc n) =
    let rest = scan_closing runes (i + 1) n in
    if leb 2 n && fence_at runes i then some (i + 3) else rest

unfoldable pub find_next_closing_code_block_in_range : Runes → ℕ → ℕ → Option ℕ
unfolding scan_closing
find_next_closing_code_block_in_range runes start stop = scan_closing runes start (stop - start)

unfoldable pub scan_newline : Runes → ℕ → ℕ → Option ℕ
scan_newline runes i zero = none
scan_newline runes i (suc n) =
    let rest = scan_newline runes (i + 1) n in
    if rune_is is_newline (get_elem? runes i) then some i else rest

unfoldable pub find_newline_from : Runes → ℕ → Option ℕ
unfolding scan_newline
find_newline_from runes from = scan_newline runes from (length runes - from)

abbrev pub trim_left : (Char → Bool) → Runes → Runes
trim_left test [] = []
trim_left test (c ∷ cs) = let rest = trim_left test cs in if test c then rest else c ∷ cs

-- Whether every rune passes the test.
abbrev pub all_runes : (Char → Bool) → Runes → Bool
all_runes test [] = true
all_runes test (c ∷ cs) = test c && all_runes test cs

abbrev pub trim_right : (Char → Bool) → Runes → Runes
trim_right test [] = []
trim_right test (c ∷ cs) =
    let rest = trim_right test cs in if all_runes test (c ∷ cs) then [] else c ∷ rest

-- The state of the loop: the runes, the start and the messages so far.
pub record Splitting : Type 0 where
  pub runes : Runes
  pub start : ℕ
  pub messages : List Runes

pub data Round : Type 0 where
  next : Splitting → Round
  finished : List Runes → Round
  panicked : Round

-- `"\n```"`.
abbrev pub closing_fence : Runes
closing_fence = "\n" ∷ "`" ∷ "`" ∷ "`" ∷ []

abbrev pub code_block_buffer : ℕ → ℕ
code_block_buffer max_len =
    let buffer = max (max_len / 10) 50 in if ltb (max_len / 2) buffer then max_len / 2 else buffer

unfoldable pub effective_limit : ℕ → ℕ
effective_limit max_len = max (max_len - code_block_buffer max_len) (max_len / 2)

-- The leading blanks of a next chunk are skipped.
abbrev pub skip_from : Runes → ℕ → ℕ → ℕ
skip_from runes i zero = i
skip_from runes i (suc n) =
    let rest = skip_from runes (i + 1) n in
    if rune_is is_skipped (get_elem? runes i) then rest else i

-- The end of a round: a chunk from `start` to `msg_end`.
unfoldable pub emit_chunk : ℕ → Splitting → ℕ → Round
unfolding effective_limit
emit_chunk max_len s msg_end =
    let stop = if leb msg_end s.start then s.start + effective_limit max_len else msg_end in
    next (record s {
      start = skip_from s.runes stop (length s.runes - stop);
      messages = s.messages ++ slice_of s.runes s.start stop ∷ [];
    })

-- `start+maxLen-5`, at most the length; none if that is negative.
abbrev pub inner_limit : ℕ → Splitting → Option ℕ
inner_limit max_len s =
    if ltb (s.start + max_len) 5 then none else some (min (s.start + max_len - 5) (length s.runes))

abbrev pub header_end_of : ℕ → Runes → Option ℕ → ℕ
header_end_of at header none = at + length header
header_end_of at header (some newline) = newline

-- The end of a chunk, before its fences are looked at.
unfoldable pub natural_end : ℕ → Splitting → ℕ
unfolding effective_limit find_last_in_range
natural_end max_len s =
    let stop = s.start + effective_limit max_len in
    or_else (found_after s.start (find_last_newline_in_range s.runes s.start stop 200))
      (or_else (found_after s.start (find_last_space_in_range s.runes s.start stop 100)) stop)

-- The closing fence, if it comes within the length.
abbrev pub closing_within : ℕ → ℕ → Option ℕ → Option ℕ
closing_within max_len start none = none
closing_within max_len start (some closing) =
    if leb (closing - start) max_len then some closing else none

abbrev pub begin_split : Runes → Splitting
begin_split content = record { runes = content; start = 0; messages = [] }

-- `unicode.IsSpace`, of which `strings.TrimSpace` makes use.
module _ (is_space : Char → Bool) where
  abbrev pub trim_space : Runes → Runes
  trim_space cs = trim_right is_space (trim_left is_space cs)

  -- A chunk that closes the block, and a rest that reopens it.
  unfoldable pub split_inside : Splitting → Runes → ℕ → Round
  split_inside s header stop =
      if ltb stop s.start
      then panicked
      else next (record {
        runes = trim_space (header ++ "\n" ∷ drop stop s.runes);
        start = 0;
        messages =
            s.messages
            ++ (trim_right is_skipped (slice_of s.runes s.start stop) ++ closing_fence) ∷ [];
      })

  abbrev pub header_of : Runes → ℕ → Option ℕ → Runes
  header_of runes at none = trim_space (slice_of runes at (at + 3))
  header_of runes at (some newline) = trim_space (slice_of runes at newline)

  -- The split before the block, or inside it as a last resort.
  unfoldable pub split_before : ℕ → Splitting → Runes → ℕ → Round
  unfolding find_last_in_range split_inside emit_chunk
  split_before max_len s header unclosed =
      elim (found_after s.start (find_last_newline_in_range s.runes s.start unclosed 200)) [
        | some newline ↦ emit_chunk max_len s newline
        | none ↦
            elim (found_after s.start (find_last_space_in_range s.runes s.start unclosed 100)) [
              | some space ↦ emit_chunk max_len s space
              | none ↦
                  if ltb 20 (unclosed - s.start)
                  then emit_chunk max_len s unclosed
                  else elim (inner_limit max_len s) [
                    | none ↦ panicked
                    | some split_at ↦ split_inside s header split_at
                  ]
            ]
      ]

  -- The case of a block that does not fit, once its first line is known.
  unfoldable pub split_with_header : ℕ → Splitting → ℕ → ℕ → Runes → ℕ → Round
  unfolding find_last_in_range split_before split_inside
  split_with_header max_len s msg_end unclosed header header_end =
      if ltb (header_end + 20) msg_end
      then elim (inner_limit max_len s) [
        | none ↦ panicked
        | some limit ↦ split_inside s header (
            or_else (found_after header_end (find_last_newline_in_range s.runes s.start limit 200))
              limit)
      ]
      else split_before max_len s header unclosed

  unfoldable pub split_block : ℕ → Splitting → ℕ → ℕ → Round
  unfolding find_newline_from split_with_header
  split_block max_len s msg_end unclosed =
      let newline = find_newline_from s.runes unclosed in
      let header = header_of s.runes unclosed newline in
      split_with_header max_len s msg_end unclosed header (header_end_of unclosed header newline)

  unfoldable pub split_at_end : ℕ → Splitting → ℕ → Round
  unfolding find_last_unclosed_code_block_in_range find_next_closing_code_block_in_range split_block
      emit_chunk
  split_at_end max_len s msg_end =
      elim (find_last_unclosed_code_block_in_range s.runes s.start msg_end) [
        | none ↦ emit_chunk max_len s msg_end
        | some unclosed ↦
            if not (ltb msg_end (length s.runes))
            then emit_chunk max_len s msg_end
            else elim (closing_within max_len s.start
                (find_next_closing_code_block_in_range s.runes msg_end (length s.runes))) [
                  | some closing ↦ emit_chunk max_len s closing
                  | none ↦ split_block max_len s msg_end unclosed
                ]
      ]

  -- One round of the loop.
  unfoldable pub split_round : ℕ → Splitting → Round
  unfolding natural_end split_at_end
  split_round max_len s =
      if not (ltb s.start (length s.runes))
      then finished s.messages
      else if leb (length s.runes - s.start) max_len
      then finished (s.messages ++ drop s.start s.runes ∷ [])
      else split_at_end max_len s (natural_end max_len s)

  -- At most so many rounds.
  unfoldable pub run_rounds : ℕ → ℕ → Round → Round
  unfolding split_round
  run_rounds max_len zero r = r
  run_rounds max_len (suc n) (next s) = run_rounds max_len n (split_round max_len s)
  run_rounds max_len (suc n) (finished messages) = finished messages
  run_rounds max_len (suc n) panicked = panicked

  -- `SplitMessage`, of so many rounds of its loop.
  unfoldable pub split_message : ℕ → Runes → ℕ → Round
  unfolding run_rounds
  split_message rounds content max_len =
      if max_len == 0
      then finished (elim content [ [] ↦ [] | c ∷ cs ↦ (c ∷ cs) ∷ [] ])
      else run_rounds max_len rounds (next (begin_split content))
