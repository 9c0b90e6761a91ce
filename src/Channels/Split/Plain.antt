-- ===== src/Channels/Split/Plain.antt =====
-- pkg/channels/split.go: messages without a code block.
use Prim.Native.Char.{Char}
use moon_hub.Base.{
  ℕ, zero, suc, ◌+◌, ◌-◌, ◌≤◌, ◌<◌, ◌≡◌, refl, sym, ap, ◌∙◌, subst, Bool, true, false, not, none,
  List, [], ◌∷◌, ◌++◌, append_assoc, append-nil, ltb, leb, ◌==◌, if◌then◌else◌, length, get_elem?,
  take, drop, arith, Bool-cases, ◌⊎◌, inl, inr,
}
use moon_hub.Channels.Split.{
  Runes, Splitting, Round, next, finished, fence_at, scan_fences,
  find_last_unclosed_code_block_in_range, natural_end, emit_chunk, split_at_end, split_round,
  run_rounds, split_message, slice_of, is_skipped, rune_is, begin_split, skip_from,
}
use moon_hub.Channels.Split.Ends.{natural_end_bounds}

-- The runes that are no blanks.
abbrev pub solid : Runes → Runes
solid [] = []
solid (c ∷ cs) = let rest = solid cs in if is_skipped c then rest else c ∷ rest

abbrev pub joined : List Runes → Runes
joined [] = []
joined (m ∷ ms) = m ++ joined ms

abbrev pub IsPlain : Runes → Type 0
IsPlain runes = (i : ℕ) → fence_at runes i ≡ false

scan_fences-plain : (runes : Runes) (i n : ℕ) → IsPlain runes → scan_fences runes i n 0 none ≡ none
unfolding scan_fences
scan_fences-plain runes i zero h = refl
scan_fences-plain runes i (suc n) h = ground (arith, h i, scan_fences-plain runes (i + 1) n h)

solid-append : (xs ys : Runes) → solid (xs ++ ys) ≡ solid xs ++ solid ys
solid-append [] ys = refl
solid-append (x ∷ xs) ys = ground (arith, solid-append xs ys)

joined-append : (ms : List Runes) (m : Runes) → joined (ms ++ m ∷ []) ≡ joined ms ++ m
joined-append [] m = append-nil m
joined-append (l ∷ ms) m =
    ap (λ rest. l ++ rest) (joined-append ms m) ∙ sym (append_assoc l (joined ms) m)

take-drop : (n : ℕ) (cs : Runes) → take n cs ++ drop n cs ≡ cs
take-drop zero cs = refl
take-drop (suc n) [] = refl
take-drop (suc n) (c ∷ cs) = ap (λ rest. c ∷ rest) (take-drop n cs)

drop-nil : (n : ℕ) → drop {A = Char} n [] ≡ []
drop-nil zero = refl
drop-nil (suc n) = refl

drop-drop : (m n : ℕ) (cs : Runes) → drop n (drop m cs) ≡ drop (m + n) cs
drop-drop zero n cs = ap (λ k. drop k cs) (omega arith)
drop-drop (suc m) n [] = drop-nil n ∙ sym (drop-nil (suc m + n))
drop-drop (suc m) n (c ∷ cs) =
    drop-drop m n cs ∙ ap (λ k. drop k (c ∷ cs)) {x = suc (m + n)} {y = suc m + n} (omega arith)

solid-drop :
    (i : ℕ) (cs : Runes)
    → rune_is is_skipped (get_elem? cs i) ≡ true
    → solid (drop (i + 1) cs) ≡ solid (drop i cs)
solid-drop i [] h = absurd (ground arith)
solid-drop zero (c ∷ cs) h =
    ap (λ k. solid (drop k (c ∷ cs))) {x = 0 + 1} {y = 1} (omega arith) ∙ ground arith
solid-drop (suc i) (c ∷ cs) h =
    ap (λ k. solid (drop k (c ∷ cs))) {x = suc i + 1} {y = suc (i + 1)} (omega arith)
    ∙ solid-drop i cs h

solid-skip_from : (cs : Runes) (i n : ℕ) → solid (drop (skip_from cs i n) cs) ≡ solid (drop i cs)
solid-skip_from cs i zero = refl
solid-skip_from cs i (suc n) = elim (Bool-cases (rune_is is_skipped (get_elem? cs i))) [
  | inl e ↦ rw (e) (solid-skip_from cs (i + 1) n ∙ solid-drop i cs e)
  | inr e ↦ rw (e) refl
]

skip_from-later : (cs : Runes) (i n : ℕ) → i ≤ skip_from cs i n
skip_from-later cs i zero = omega arith
skip_from-later cs i (suc n) = ground (arith, skip_from-later cs (i + 1) n)

-- What a round keeps: the runes, and all of the text but the blanks between chunks.
record IsStep (s later : Splitting) : Type 0 where
  same : later.runes ≡ s.runes
  moved : s.start < later.start
  kept :
      solid (joined later.messages) ++ solid (drop later.start later.runes)
      ≡ solid (joined s.messages) ++ solid (drop s.start s.runes)

module _ (max_len : ℕ) (s : Splitting) (msg_end : ℕ) (behind : s.start < msg_end) where
  after_chunk : Splitting
  after_chunk = record s {
    start = skip_from s.runes msg_end (length s.runes - msg_end);
    messages = s.messages ++ slice_of s.runes s.start msg_end ∷ [];
  }

  emit_chunk-next : emit_chunk max_len s msg_end ≡ next after_chunk
  unfolding emit_chunk after_chunk
  emit_chunk-next = elim (Bool-cases (leb msg_end s.start)) [
    | inl bad ↦ absurd (ground arith)
    | inr good ↦ rw (good) refl
  ]

  chunk_solid :
      solid (slice_of s.runes s.start msg_end) ++ solid (drop msg_end s.runes)
      ≡ solid (drop s.start s.runes)
  chunk_solid =
      let k = msg_end - s.start in
      ap (λ n. solid (take k (drop s.start s.runes)) ++ solid (drop n s.runes)) {x = msg_end}
        {y = s.start + k} (omega arith)
      ∙ ap (λ rest. solid (take k (drop s.start s.runes)) ++ solid rest)
          (sym (drop-drop s.start k s.runes))
      ∙ sym (solid-append (take k (drop s.start s.runes)) (drop k (drop s.start s.runes)))
      ∙ ap solid (take-drop k (drop s.start s.runes))

  after_chunk-IsStep : IsStep s after_chunk
  unfolding after_chunk
  after_chunk-IsStep =
      let chunk = slice_of s.runes s.start msg_end in
      let n = length s.runes - msg_end in
      record {
        same = refl;
        moved = omega (arith, skip_from-later s.runes msg_end n, behind);
        kept =
            ap (λ text. solid text ++ solid (drop (skip_from s.runes msg_end n) s.runes))
              (joined-append s.messages chunk)
            ∙ ap (λ rest. solid (joined s.messages ++ chunk) ++ rest)
                (solid-skip_from s.runes msg_end n)
            ∙ ap (λ front. front ++ solid (drop msg_end s.runes))
                (solid-append (joined s.messages) chunk)
            ∙ append_assoc (solid (joined s.messages)) (solid chunk) (solid (drop msg_end s.runes))
            ∙ ap (λ rest. solid (joined s.messages) ++ rest) chunk_solid;
      }

module _ (is_space : Char → Bool) (max_len : ℕ) where
  split_at_end-plain :
      (s : Splitting) (msg_end : ℕ)
      → IsPlain s.runes
      → split_at_end is_space max_len s msg_end ≡ emit_chunk max_len s msg_end
  unfolding split_at_end find_last_unclosed_code_block_in_range
  split_at_end-plain s msg_end h =
      rw (scan_fences-plain s.runes s.start (msg_end - s.start) h, split_at_end) refl

  Ends : Splitting → Round → Type 0
  Ends s r =
      (ms : List Runes) × (r ≡ finished ms)
      × (solid (joined ms) ≡ solid (joined s.messages) ++ solid (drop s.start s.runes))

  drop-over : (n : ℕ) (cs : Runes) → length cs ≤ n → drop n cs ≡ []
  drop-over n [] k = drop-nil n
  drop-over zero (c ∷ cs) k = absurd (omega arith)
  drop-over (suc n) (c ∷ cs) k = drop-over n cs (omega arith)

  split_round-plain :
      (s : Splitting)
      → 1 ≤ max_len
      → IsPlain s.runes
      → Ends s (split_round is_space max_len s)
        ⊎ ((later : Splitting) × (split_round is_space max_len s ≡ next later)
            × IsStep s later
            × (s.start < length s.runes))
  unfolding Ends split_round
  split_round-plain s h plain = elim (Bool-cases (not (ltb s.start (length s.runes)))) [
    | inl over ↦ inl (
      s.messages,
      rw (over, split_round) refl,
      sym (
          ap (λ rest. solid (joined s.messages) ++ solid rest)
            (drop-over s.start s.runes (ground arith))
          ∙ append-nil (solid (joined s.messages))),
    )
    | inr more ↦ elim (Bool-cases (leb (length s.runes - s.start) max_len)) [
      | inl fits ↦ inl (
        s.messages ++ drop s.start s.runes ∷ [],
        rw (more, fits, split_round) refl,
        ap solid (joined-append s.messages (drop s.start s.runes))
            ∙ solid-append (joined s.messages) (drop s.start s.runes),
      )
      | inr long ↦
          let stop = natural_end max_len s in
          let behind = (natural_end_bounds max_len s h).0 in
          inr (
            after_chunk max_len s stop behind,
            rw (more, long, split_round)
                (split_at_end-plain s stop plain ∙ emit_chunk-next max_len s stop behind),
            after_chunk-IsStep max_len s stop behind,
            ground arith,
          )
    ]
  ]

  run-finished :
      (n : ℕ) (ms : List Runes) → run_rounds is_space max_len n (finished ms) ≡ finished ms
  unfolding run_rounds
  run-finished zero ms = refl
  run-finished (suc n) ms = refl

  run_rounds-plain :
      (n : ℕ) (s : Splitting)
      → 1 ≤ max_len
      → IsPlain s.runes
      → length s.runes - s.start < n
      → Ends s (run_rounds is_space max_len n (next s))
  unfolding run_rounds Ends
  run_rounds-plain zero s h plain enough = absurd (omega arith)
  run_rounds-plain (suc n) s h plain enough = elim (split_round-plain s h plain) [
    | inl (ms, e, t) ↦ (ms, ap (run_rounds is_space max_len n) e ∙ run-finished n ms, t)
    | inr (later, e, step, k) ↦
        let (ms, f, t) =
          run_rounds-plain n later h (subst IsPlain (sym step.same) plain)
            (omega (arith, ap length step.same, step.moved, k, enough)) in
        (ms, ap (run_rounds is_space max_len n) e ∙ f, t ∙ step.kept)
  ]

  -- A message without three backquotes in a row, with a limit of at least one rune: after one round
  -- more than it has runes the loop has ended, and the chunks hold all of its runes in order, up to
  -- spaces, tabs and the ends of lines.
  pub split_message-plain :
      (content : Runes)
      → 1 ≤ max_len
      → IsPlain content
      → (ms : List Runes) × (split_message is_space (suc (length content)) content max_len
          ≡ finished ms)
        × (solid (joined ms) ≡ solid content)
  unfolding split_message Ends
  split_message-plain content h plain = elim (Bool-cases (max_len == 0)) [
    | inl bad ↦ absurd (ground arith)
    | inr good ↦
        let (ms, e, t) =
          run_rounds-plain (suc (length content)) (begin_split content) h plain (omega arith) in
        (ms, rw (good, split_message) e, t)
  ]
