-- ===== src/Channels/Split/Bounds.antt =====
-- pkg/channels/split.go: the lengths of the chunks.
use Prim.Native.Char.{Char}
use moon_hub.Base.{
  ℕ, zero, suc, ◌+◌, ◌-◌, ◌≤◌, min, max, ◌≡◌, Bool, not, Option, none, some, [], ◌∷◌, ◌++◌, ltb,
  leb, ◌==◌, if◌then◌else◌, length, drop, length-append, length-drop, arith, All, All-append,
  Bool-cases, Option-cases, inl, inr,
}
use moon_hub.Channels.Split.{
  Runes, Splitting, Round, next, finished, panicked, find_last_in_range, found_after, or_else,
  find_last_unclosed_code_block_in_range, find_next_closing_code_block_in_range, find_newline_from,
  closing_within, natural_end, effective_limit, emit_chunk, split_inside, inner_limit, split_before,
  split_block, split_with_header, split_at_end, split_round, run_rounds, split_message, trim_right,
  slice_of, closing_fence, is_newline, is_blank, is_skipped, header_of, header_end_of, begin_split,
}
use moon_hub.Channels.Split.Ends.{
  find_last_in_range-Between, scan_fences-Between, effective_limit_bounds, natural_end_bounds,
  length-take, length-trim_right,
}

-- No chunk is longer than the limit, and no slice fails.
abbrev pub IsBounded : ℕ → Round → Type 0
IsBounded max_len (next s) = All (λ m. length m ≤ max_len) s.messages
IsBounded max_len (finished messages) = All (λ m. length m ≤ max_len) messages
IsBounded max_len panicked = ⊥

module _ (max_len : ℕ) (s : Splitting) (old : All (λ m. length m ≤ max_len) s.messages) where
  emit_chunk-IsBounded :
      (msg_end : ℕ)
      → 1 ≤ max_len
      → msg_end ≤ s.start + max_len
      → IsBounded max_len (emit_chunk max_len s msg_end)
  unfolding emit_chunk
  emit_chunk-IsBounded msg_end h k =
      let stop = if leb msg_end s.start then s.start + effective_limit max_len else msg_end in
      All-append (λ m. length m ≤ max_len) s.messages (slice_of s.runes s.start stop ∷ []) old
        (
          ground (
            arith,
            effective_limit_bounds max_len h,
            length-take (stop - s.start) (drop s.start s.runes),
          ),
          tt,
        )

  module _ (is_space : Char → Bool) where
    split_inside-IsBounded :
        (header : Runes) (stop : ℕ)
        → s.start ≤ stop
        → stop + 4 ≤ s.start + max_len
        → IsBounded max_len (split_inside is_space s header stop)
    unfolding split_inside
    split_inside-IsBounded header stop h k = elim (Bool-cases (ltb stop s.start)) [
      | inl bad ↦ absurd (ground arith)
      | inr good ↦
          let part = slice_of s.runes s.start stop in
          rw (good) (
            All-append (λ m. length m ≤ max_len) s.messages
              ((trim_right is_skipped part ++ closing_fence) ∷ []) old
              (
                omega (
                  arith,
                  length-append (trim_right is_skipped part) closing_fence,
                  length-trim_right is_skipped part,
                  length-take (stop - s.start) (drop s.start s.runes),
                ),
                tt,
              ))
    ]

    split_inside_limit-IsBounded :
        (header : Runes)
        → 5 ≤ max_len
        → s.start ≤ length s.runes
        → IsBounded max_len (elim (inner_limit max_len s) as (λ o. Round) [
          | none ↦ panicked
          | some split_at ↦ split_inside is_space s header split_at
        ])
    split_inside_limit-IsBounded header h k = elim (Bool-cases (ltb (s.start + max_len) 5)) [
      | inl bad ↦ absurd (ground arith)
      | inr good ↦ rw (good) (
          split_inside-IsBounded header (min (s.start + max_len - 5) (length s.runes)) (omega arith)
            (omega arith))
    ]

    split_before-IsBounded :
        (header : Runes) (unclosed : ℕ)
        → 5 ≤ max_len
        → s.start ≤ length s.runes
        → s.start ≤ unclosed
        → unclosed ≤ s.start + max_len
        → IsBounded max_len (split_before is_space max_len s header unclosed)
    unfolding split_before
    split_before-IsBounded header unclosed h k l u =
        elim (Option-cases
          (found_after s.start (find_last_in_range is_newline s.runes s.start unclosed 200))) [
            | inr (i, e) ↦
                rw (e, split_before)
                  (emit_chunk-IsBounded i (omega arith) (
                    ground (
                      arith,
                      find_last_in_range-Between is_newline s.runes s.start unclosed 200,
                      e,
                    )))
            | inl e ↦
                rw (e, split_before)
                  (elim (Option-cases (
                    found_after s.start
                      (find_last_in_range is_blank s.runes s.start unclosed 100))) [
                        | inr (i, f) ↦ rw (f) (
                            emit_chunk-IsBounded i (omega arith) (
                              ground (
                                arith,
                                find_last_in_range-Between is_blank s.runes s.start unclosed 100,
                                f,
                              )))
                        | inl f ↦ rw (f) (elim (Bool-cases (ltb 20 (unclosed - s.start))) [
                          | inl far ↦ rw (far) (emit_chunk-IsBounded unclosed (omega arith) u)
                          | inr near ↦ rw (near) (split_inside_limit-IsBounded header h k)
                        ])
                      ])
          ]

    split_with_header-IsBounded :
        (msg_end unclosed : ℕ) (header : Runes) (header_end : ℕ)
        → 5 ≤ max_len
        → s.start ≤ length s.runes
        → s.start ≤ unclosed
        → unclosed ≤ s.start + max_len
        → IsBounded max_len
            (split_with_header is_space max_len s msg_end unclosed header header_end)
    unfolding split_with_header
    split_with_header-IsBounded msg_end unclosed header header_end h k l u =
        elim (Bool-cases (ltb (header_end + 20) msg_end)) [
          | inr small ↦ rw (small) (split_before-IsBounded header unclosed h k l u)
          | inl big ↦ rw (big) (elim (Bool-cases (ltb (s.start + max_len) 5)) [
            | inl bad ↦ absurd (ground arith)
            | inr good ↦
                let limit = min (s.start + max_len - 5) (length s.runes) in
                let found = find_last_in_range is_newline s.runes s.start limit 200 in
                let f = find_last_in_range-Between is_newline s.runes s.start limit 200 in
                rw (good) (
                  split_inside-IsBounded header (or_else (found_after header_end found) limit)
                    (ground (arith, f)) (ground (arith, f)))
          ])
        ]

    split_block-IsBounded :
        (msg_end unclosed : ℕ)
        → 5 ≤ max_len
        → s.start ≤ length s.runes
        → s.start ≤ unclosed
        → unclosed ≤ s.start + max_len
        → IsBounded max_len (split_block is_space max_len s msg_end unclosed)
    unfolding split_block
    split_block-IsBounded msg_end unclosed h k l u =
        let newline = find_newline_from s.runes unclosed in
        let header = header_of is_space s.runes unclosed newline in
        split_with_header-IsBounded msg_end unclosed header (header_end_of unclosed header newline)
          h k l u

    within :
        (closing : ℕ) (found : Option ℕ)
        → closing_within max_len s.start found ≡ some closing
        → closing ≤ s.start + max_len
    within closing none f = absurd (ground arith)
    within closing (some c) f = ground arith

    unclosed_bounds :
        (unclosed stop : ℕ)
        → find_last_unclosed_code_block_in_range s.runes s.start stop ≡ some unclosed
        → (s.start ≤ unclosed) × (unclosed ≤ max s.start stop)
    unfolding find_last_unclosed_code_block_in_range
    unclosed_bounds unclosed stop e =
        let b =
          scan_fences-Between s.runes s.start (max s.start stop) s.start (stop - s.start) 0 none
            (omega arith) (omega arith) tt in
        (ground (arith, b, e), ground (arith, b, e))

    split_at_end-IsBounded :
        (msg_end : ℕ)
        → 5 ≤ max_len
        → s.start ≤ length s.runes
        → s.start ≤ msg_end
        → msg_end ≤ s.start + max_len
        → IsBounded max_len (split_at_end is_space max_len s msg_end)
    unfolding split_at_end
    split_at_end-IsBounded msg_end h k l u =
        elim (Option-cases (find_last_unclosed_code_block_in_range s.runes s.start msg_end)) [
          | inl e ↦ rw (e, split_at_end) (emit_chunk-IsBounded msg_end (omega arith) u)
          | inr (unclosed, e) ↦
              let found = find_next_closing_code_block_in_range s.runes msg_end (length s.runes) in
              rw (e, split_at_end)
                (elim (Bool-cases (not (ltb msg_end (length s.runes)))) [
                  | inl last ↦ rw (last) (emit_chunk-IsBounded msg_end (omega arith) u)
                  | inr more ↦
                      rw (more) (elim (Option-cases (closing_within max_len s.start found)) [
                        | inr (c, f) ↦
                            rw (f) (emit_chunk-IsBounded c (omega arith) (within c found f))
                        | inl f ↦ rw (f) (
                            split_block-IsBounded msg_end unclosed h k
                              (unclosed_bounds unclosed msg_end e).0
                              (omega (arith, (unclosed_bounds unclosed msg_end e).1, u)))
                      ])
                ])
        ]

module _ (is_space : Char → Bool) (max_len : ℕ) where
  split_round-IsBounded :
      (s : Splitting)
      → 5 ≤ max_len
      → All (λ m. length m ≤ max_len) s.messages
      → IsBounded max_len (split_round is_space max_len s)
  unfolding split_round
  split_round-IsBounded s h old = elim (Bool-cases (not (ltb s.start (length s.runes)))) [
    | inl over ↦ rw (over, split_round) old
    | inr more ↦
        rw (more, split_round)
          (elim (Bool-cases (leb (length s.runes - s.start) max_len)) [
            | inl fits ↦ rw (fits) (
                All-append (λ m. length m ≤ max_len) s.messages (drop s.start s.runes ∷ []) old
                  (ground (arith, length-drop s.start s.runes), tt))
            | inr long ↦
                let b = natural_end_bounds max_len s (omega arith) in
                rw (long) (
                  split_at_end-IsBounded max_len s old is_space (natural_end max_len s) h
                    (ground arith) (omega (arith, b.0)) b.1)
          ])
  ]

  run_rounds-IsBounded :
      (n : ℕ) (r : Round)
      → 5 ≤ max_len
      → IsBounded max_len r
      → IsBounded max_len (run_rounds is_space max_len n r)
  unfolding run_rounds
  run_rounds-IsBounded zero r h b = b
  run_rounds-IsBounded (suc n) (next s) h b =
      run_rounds-IsBounded n (split_round is_space max_len s) h (split_round-IsBounded s h b)
  run_rounds-IsBounded (suc n) (finished messages) h b = b
  run_rounds-IsBounded (suc n) panicked h b = b

  -- With a limit of 5 runes or more, no round of the loop slices out of order, and after any number
  -- of rounds no chunk is longer than the limit.
  pub split_message-IsBounded :
      (rounds : ℕ) (content : Runes)
      → 5 ≤ max_len
      → IsBounded max_len (split_message is_space rounds content max_len)
  unfolding split_message
  split_message-IsBounded rounds content h = elim (Bool-cases (max_len == 0)) [
    | inl bad ↦ absurd (ground arith)
    | inr good ↦
        rw (good, split_message) (run_rounds-IsBounded rounds (next (begin_split content)) h tt)
  ]
