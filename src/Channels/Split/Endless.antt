-- ===== src/Channels/Split/Endless.antt =====
-- pkg/channels/split.go: a code block whose first line does not fit.
use Prim.Native.Char.{Char}
use moon_hub.Base.{
  ℕ, zero, suc, ◌+◌, ◌-◌, min, ◌≤◌, ◌≡◌, refl, sym, ap, ◌∙◌, Bool, true, false, not, some, List, [],
  ◌∷◌, ◌++◌, append_assoc, ltb, leb, ◌==◌, length, length-append, take, drop, arith,
}
use moon_hub.Channels.Split.{
  Runes, Splitting, next, find_last_in_range, natural_end, effective_limit, split_inside,
  split_before, split_block, split_with_header, header_of, header_end_of, split_at_end, split_round,
  run_rounds, split_message, slice_of, is_skipped, is_newline, is_blank, all_runes, trim_right,
  trim_space, closing_fence, found_after, or_else,
}
use moon_hub.Channels.Split.Scans.{take-front, trim_right-behind, trimmed-drop}
use moon_hub.Channels.Split.Fence.{
  fence_line, block_text, is_letter, no_newline, no_blank, range-none, unclosed-first, closing-late,
  newline-first, head-trimmed, again-trimmed,
}

module _ (is_space : Char → Bool) (letters : Runes) (tick : is_space "`" ≡ false)
    (all_letters : all_runes (is_letter is_space letters) letters ≡ true) where
  module _ (max_len : ℕ) (fits_not : max_len ≤ length (fence_line letters))
      (enough : 5 ≤ max_len) where
    abbrev stuck : Runes → List Runes → Splitting
    stuck tail messages = record { runes = block_text letters tail; start = 0; messages = messages }

    limit_bounds : (3 ≤ effective_limit max_len) × (effective_limit max_len ≤ max_len)
    unfolding effective_limit
    limit_bounds = (ground arith, ground arith)

    natural_end-stuck :
        (tail : Runes) (ms : List Runes)
        → natural_end max_len (stuck tail ms) ≡ effective_limit max_len
    unfolding natural_end
    natural_end-stuck tail ms =
        let limit = effective_limit max_len in
        let blank = find_last_in_range is_blank (block_text letters tail) 0 (0 + limit) 100 in
        ap (λ o. or_else (found_after 0 o) (or_else (found_after 0 blank) (0 + limit)))
          (range-none is_space letters tick all_letters is_newline tail (0 + limit) 200
            (no_newline is_space letters tick all_letters tail) (omega (arith, limit_bounds)))
        ∙ ap (λ o. or_else (found_after 0 o) (0 + limit))
            (range-none is_space letters tick all_letters is_blank tail (0 + limit) 100
              (no_blank is_space letters tick all_letters tail) (omega (arith, limit_bounds)))
        ∙ omega arith

    length-block_text :
        (tail : Runes)
        → length (block_text letters tail) ≡ length (fence_line letters) + suc (length tail)
    length-block_text tail = length-append (fence_line letters) ("\n" ∷ tail)

    split_before-stuck :
        (tail : Runes) (ms : List Runes)
        → split_before is_space max_len (stuck tail ms) (fence_line letters) 0
          ≡ split_inside is_space (stuck tail ms) (fence_line letters) (max_len - 5)
    unfolding split_before
    split_before-stuck tail ms =
        let e : ltb (0 + max_len) 5 ≡ false = ground arith in
        rw (e) (
          ap (split_inside is_space (stuck tail ms) (fence_line letters))
            {x = min (0 + max_len - 5) (length (block_text letters tail))} {y = max_len - 5}
            (omega (arith, length-block_text tail)))

    split_with_header-stuck :
        (tail : Runes) (ms : List Runes)
        → split_with_header is_space max_len
            (stuck tail ms)
            (effective_limit max_len)
            0
            (fence_line letters)
            (length (fence_line letters))
          ≡ split_before is_space max_len (stuck tail ms) (fence_line letters) 0
    unfolding split_with_header
    split_with_header-stuck tail ms =
        let e : ltb (length (fence_line letters) + 20) (effective_limit max_len) ≡ false =
          ground (arith, limit_bounds) in
        rw (e) refl

    header_of-stuck :
        (tail : Runes)
        → header_of is_space (block_text letters tail) 0 (some (length (fence_line letters)))
          ≡ fence_line letters
    header_of-stuck tail =
        ap (λ n. trim_space is_space (take n (block_text letters tail)))
          {x = length (fence_line letters) - 0} {y = length (fence_line letters)} (omega arith)
        ∙ ap (trim_space is_space) (take-front (fence_line letters) ("\n" ∷ tail))
        ∙ head-trimmed is_space letters tick all_letters

    split_block-stuck :
        (tail : Runes) (ms : List Runes)
        → split_block is_space max_len (stuck tail ms) (effective_limit max_len) 0
          ≡ split_before is_space max_len (stuck tail ms) (fence_line letters) 0
    unfolding split_block
    split_block-stuck tail ms =
        let s = stuck tail ms in
        let limit = effective_limit max_len in
        ap
          (λ o.
            split_with_header is_space max_len s limit 0
              (header_of is_space (block_text letters tail) 0 o)
              (header_end_of 0 (header_of is_space (block_text letters tail) 0 o) o))
          (newline-first is_space letters tick all_letters tail)
        ∙ ap (λ h. split_with_header is_space max_len s limit 0 h (length (fence_line letters)))
            (header_of-stuck tail)
        ∙ split_with_header-stuck tail ms

    split_at_end-stuck :
        (tail : Runes) (ms : List Runes)
        → split_at_end is_space max_len (stuck tail ms) (effective_limit max_len)
          ≡ split_block is_space max_len (stuck tail ms) (effective_limit max_len) 0
    unfolding split_at_end
    split_at_end-stuck tail ms =
        let limit = effective_limit max_len in
        let more : not (ltb limit (length (block_text letters tail))) ≡ false =
          ground (arith, limit_bounds, length-block_text tail) in
        rw
          (
            unclosed-first is_space letters tick all_letters tail limit limit_bounds.0
                (omega (arith, limit_bounds)),
            split_at_end,
          )
          (rw (more) (
            rw
              (closing-late is_space letters tick all_letters tail limit max_len limit_bounds.0
                fits_not)
              refl))

    -- The chunk of such a round.
    stuck_chunk : Runes → Runes
    stuck_chunk tail =
        trim_right is_skipped (slice_of (block_text letters tail) 0 (max_len - 5)) ++ closing_fence

    again : Runes → List Runes → Splitting
    again tail ms =
        stuck (drop (max_len - 5) (block_text letters tail)) (ms ++ stuck_chunk tail ∷ [])

    split_inside-stuck :
        (tail : Runes) (ms : List Runes)
        → trim_right is_space (block_text letters tail) ≡ block_text letters tail
        → split_inside is_space (stuck tail ms) (fence_line letters) (max_len - 5)
          ≡ next (again tail ms)
    unfolding split_inside stuck_chunk again
    split_inside-stuck tail ms h =
        let e : ltb (max_len - 5) 0 ≡ false = ground arith in
        rw (e) (
          ap
            (λ runes.
              next (record { runes = runes; start = 0; messages = ms ++ stuck_chunk tail ∷ [] }))
            (again-trimmed is_space letters tick all_letters tail (max_len - 5) h
              (omega (arith, length-block_text tail))))

    split_round-stuck :
        (tail : Runes) (ms : List Runes)
        → trim_right is_space (block_text letters tail) ≡ block_text letters tail
        → split_round is_space max_len (stuck tail ms) ≡ next (again tail ms)
    unfolding split_round
    split_round-stuck tail ms h =
        let s = stuck tail ms in
        let more : not (ltb 0 (length (block_text letters tail))) ≡ false =
          ground (arith, length-block_text tail) in
        let long : leb (length (block_text letters tail) - 0) max_len ≡ false =
          ground (arith, length-block_text tail) in
        rw (more, long, split_round)
          (ap (split_at_end is_space max_len s) (natural_end-stuck tail ms)
            ∙ split_at_end-stuck tail ms
            ∙ split_block-stuck tail ms
            ∙ split_before-stuck tail ms
            ∙ split_inside-stuck tail ms h)

    run_rounds-stuck :
        (n : ℕ) (tail : Runes) (ms : List Runes)
        → trim_right is_space (block_text letters tail) ≡ block_text letters tail
        → (s : Splitting) × (run_rounds is_space max_len n (next (stuck tail ms)) ≡ next s)
    unfolding run_rounds again
    run_rounds-stuck zero tail ms h = (stuck tail ms, refl)
    run_rounds-stuck (suc n) tail ms h =
        let rest = drop (max_len - 5) (block_text letters tail) in
        let d =
          trimmed-drop is_space (max_len - 5) (block_text letters tail) h
            (omega (arith, length-block_text tail)) in
        let front = fence_line letters ++ "\n" ∷ [] in
        let trimmed =
          ap (trim_right is_space) (sym (append_assoc (fence_line letters) ("\n" ∷ []) rest))
          ∙ trim_right-behind is_space front rest d.1 d.0
          ∙ append_assoc (fence_line letters) ("\n" ∷ []) rest in
        let (s, e) = run_rounds-stuck n rest (ms ++ stuck_chunk tail ∷ []) trimmed in
        (s, ap (run_rounds is_space max_len n) (split_round-stuck tail ms h) ∙ e)

    -- A limit of at least 5 runes, and a text of a line and a rest, without a blank at its end, where
    -- the line is not shorter than the limit, begins with three backquotes, and has no backquote
    -- and no blank behind them: the loop does not end, whatever the number of rounds.
    pub split_message-endless :
        (tail : Runes)
        → trim_right is_space (block_text letters tail) ≡ block_text letters tail
        → (rounds : ℕ)
        → (s : Splitting) × (split_message is_space rounds (block_text letters tail) max_len
            ≡ next s)
    unfolding split_message
    split_message-endless tail h rounds =
        let e : (max_len == 0) ≡ false = ground arith in
        let (s, r) = run_rounds-stuck rounds tail [] h in (s, rw (e, split_message) r)
